-- ===== src/Linked/Reload/Lines.antt =====
-- The lines of a document of v1.0.0/inifile.c, read one after the other.
use mathlib.Core.List.{append_assoc}
use ini.Base.{
  All-append, Bytes, List, [], ap, arith, false, length-append, none, refl, some, subst, ◌++◌, ◌∙◌,
  ◌∷◌, ◌≡◌,
}
use ini.Linked.{
  IniFile, IniFileNode, KeyValue, done, error_type, key_value_type, list_key_value_node_insert,
  notes_type,
}
use ini.Linked.Chars.{find_ini_key_value, find_key_loop}
use ini.Linked.Operations.AddGet.{find_ini_key_value-keys_of}
use ini.Linked.Read.{add_to_tail, init_line_context, insert_note, new_key_value, tail_node}
use ini.Linked.Read.Contexts.{context_blank, context_note, end_of_line}
use ini.Linked.Read.Keys.{context_pair}
use ini.Linked.Read.Turns.{Leads, Leads-line}
use ini.Linked.Reload.{IsLineText, IsReadItem, assignment, item_of, list_of, node_with, remark}
use ini.Linked.Write.{keys_of}
use ini.Text.{comma_sign, equality_sign, newline_sign}
use ini.Text.Laws.{Without}

pub tail_node-append :
    (ns : List IniFileNode) (n : IniFileNode) → tail_node (ns ++ (n ∷ [])) ≡ some n
unfolding tail_node
tail_node-append [] n = refl
tail_node-append (x ∷ []) n = refl
tail_node-append (x ∷ y ∷ ns) n = tail_node-append (y ∷ ns) n

add_to_tail-append :
    (ns : List IniFileNode) (n : IniFileNode) (k : KeyValue)
    → add_to_tail (ns ++ (n ∷ [])) k
      ≡ ns ++ (record n { key_list = list_key_value_node_insert n.key_list k } ∷ [])
unfolding add_to_tail
add_to_tail-append [] n k = refl
add_to_tail-append (x ∷ []) n k = refl
add_to_tail-append (x ∷ y ∷ ns) n k = ap (◌∷◌ x) (add_to_tail-append (y ∷ ns) n k)

pub keys_of-list_of : (ks : List KeyValue) → keys_of (list_of ks) ≡ ks
keys_of-list_of [] = refl
keys_of-list_of (k ∷ ks) = refl

insert-list_of :
    (ks : List KeyValue) (k : KeyValue)
    → list_key_value_node_insert (list_of ks) k ≡ list_of (ks ++ (k ∷ []))
insert-list_of [] k = refl
insert-list_of (x ∷ ks) k = refl

pub Leads-blank : (g : IniFile) → Leads g end_of_line g
Leads-blank g = Leads-line g g error_type [] tt (omega arith) (context_blank g) refl

-- The file whose last section is being read.
abbrev pub reading : IniFile → List IniFileNode → Bytes → List KeyValue → IniFile
reading f pre t ks = record f { nodes = pre ++ (node_with t ks ∷ []) }

module _ (f : IniFile) (pre : List IniFileNode) (t : Bytes) where
  grown :
      (ks : List KeyValue) (k : KeyValue)
      → add_to_tail (reading f pre t ks).nodes k ≡ (reading f pre t (ks ++ (k ∷ []))).nodes
  grown ks k =
      add_to_tail-append pre (node_with t ks) k
      ∙ ap (λ o. pre ++ (record { section = t; is_note = false; key_list = o } ∷ []))
          (insert-list_of ks k)

  pub Leads-remark :
      (ks : List KeyValue) (b : Bytes)
      → IsLineText 62 b
      → Leads
          (reading f pre t ks)
          (comma_sign ∷ (b ++ end_of_line))
          (reading f pre t (ks ++ (item_of (remark b) ∷ [])))
  Leads-remark ks b v =
      let g = reading f pre t ks in
      let g' = reading f pre t (ks ++ (item_of (remark b) ∷ [])) in
      let last_is = tail_node-append pre (node_with t ks) in
      let noted : insert_note g (b ++ end_of_line) (tail_node g.nodes) ≡ g' =
        ap (insert_note g (b ++ end_of_line)) last_is
        ∙ ap (λ ns. record f { nodes = ns }) (grown ks (item_of (remark b))) in
      Leads-line g g' notes_type (comma_sign ∷ b) (λ e. omega arith, v.no_newline)
        (omega (arith, v.fits))
        (context_note b v.no_nul g v.fits ∙ ap (λ h. done (h, notes_type)) noted) refl

  pub Leads-assignment :
      (ks : List KeyValue) (k v : Bytes)
      → IsReadItem (assignment k v false)
      → find_key_loop ks k ≡ none
      → Leads
          (reading f pre t ks)
          (k ++ (equality_sign ∷ (v ++ end_of_line)))
          (reading f pre t (ks ++ (new_key_value k v ∷ [])))
  Leads-assignment ks k v r fresh =
      let g = reading f pre t ks in
      let g' = reading f pre t (ks ++ (new_key_value k v ∷ [])) in
      let last_is = tail_node-append pre (node_with t ks) in
      let absent : find_ini_key_value (node_with t ks) k ≡ none =
        find_ini_key_value-keys_of (node_with t ks) k
        ∙ (ap (λ l. find_key_loop l k) (keys_of-list_of ks) ∙ fresh) in
      let read =
        context_pair k v r.0 (omega (arith, r.1)) r.2.no_nul r.2.fits (omega (arith, r.3)) g
          (node_with t ks) last_is refl absent in
      let whole = append_assoc k (equality_sign ∷ v) end_of_line in
      let body_lines : Without newline_sign (k ++ (equality_sign ∷ v)) =
        All-append _ k (equality_sign ∷ v) r.0.no_newline (λ e. omega arith, r.2.no_newline) in
      subst (λ s. Leads g s g') whole
        (Leads-line g g' key_value_type (k ++ (equality_sign ∷ v)) body_lines
          (omega (arith, length-append k (equality_sign ∷ v), r.3))
          (ap (init_line_context g) whole
            ∙ (read
                ∙ ap (λ ns. done (record f { nodes = ns }, key_value_type))
                    (grown ks (new_key_value k v))))
          refl)
