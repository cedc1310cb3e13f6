-- ===== src/Linked/Reload/Files.antt =====
-- A whole document of v1.0.0/inifile.c: written, and read again.
use mathlib.Core.List.{append_assoc, append-nil}
use ini.Base.{
  All, All-append, Bytes, List, [], ap, arith, false, length, length-append, none, refl, some,
  subst, suc, sym, true, zero, ℕ, ◌++◌, ◌+◌, ◌∙◌, ◌∷◌, ◌≡◌,
}
use ini.Linked.{
  IniFile, IniFileNode, done, error_type, list_ini_file_node_init, list_ini_file_node_insert,
  new_node, node_type, notes_type,
}
use ini.Linked.Chars.{find_ini_file_node, find_node_loop}
use ini.Linked.Read.{init_line_context, insert_note, read_ini_file, read_ini_loop, tail_node}
use ini.Linked.Read.Contexts.{context_note, context_section, end_of_line}
use ini.Linked.Read.Turns.{Leads, Leads-append, Leads-line, Leads-nil}
use ini.Linked.Reload.{
  AreReadable, Document, IsLineText, IsReloadable, Titled, items_of, list_of, node_with, nodes_of,
  remarks_of, settled, settled_items, settled_titled, titled_of,
}
use ini.Linked.Reload.Lines.{Leads-blank, keys_of-list_of, reading, tail_node-append}
use ini.Linked.Reload.Whole.{Leads-items, text-NoNul}
use ini.Linked.Write.{keys_of, node_buffer}
use ini.Linked.Write.Laws.{keys_text, nodes_text}
use ini.Text.{comma_sign, left_bracket, newline_sign, right_bracket}
use ini.Text.Laws.{NoNul-c_str, Without}

-- The file with nodes, of which so many more were inserted.
abbrev with_nodes : IniFile → List IniFileNode → ℕ → IniFile
with_nodes g ns n = record g { nodes = ns; len = n }

Leads-section :
    (g : IniFile) (t : Bytes)
    → IsLineText 63 t
    → find_node_loop g.nodes t ≡ none
    → Leads g (node_buffer (node_with t [])) (list_ini_file_node_insert g (new_node t false))
unfolding node_buffer find_ini_file_node
Leads-section g t v fresh =
    let g' = list_ini_file_node_insert g (new_node t false) in
    let body = left_bracket ∷ (t ++ (right_bracket ∷ [])) in
    let whole = append_assoc (left_bracket ∷ t) (right_bracket ∷ []) end_of_line in
    let read = context_section t v.no_nul g v.fits fresh in
    let no_lines : Without newline_sign body =
      (λ e. omega arith, All-append _ t (right_bracket ∷ []) v.no_newline (λ e. omega arith, tt)) in
    let header =
      Leads-line g g' node_type body no_lines
        (omega (arith, length-append t (right_bracket ∷ []), v.fits))
        (ap (init_line_context g) whole ∙ read) refl in
    rw (NoNul-c_str t v.no_nul) (
      Leads-append g g g' end_of_line (left_bracket ∷ (t ++ (right_bracket ∷ end_of_line)))
        (Leads-blank g) (subst (λ s. Leads g s g') whole header))

module _ (f : IniFile) where
  Leads-titled :
      (ns : List IniFileNode) (n : ℕ) (ts : List Titled)
      → AreReadable ns ts
      → Leads
          (with_nodes f ns n)
          (nodes_text (titled_of ts))
          (with_nodes f (ns ++ titled_of (settled_titled ts)) (n + length ts))
  unfolding nodes_text node_buffer
  Leads-titled ns n [] r =
      subst (λ (x : List IniFileNode × ℕ). Leads (with_nodes f ns n) [] (with_nodes f x.0 x.1))
        (ap (λ (l : List IniFileNode). (l, n)) (sym (append-nil ns))
          ∙ ap (λ (m : ℕ). (ns ++ [], m)) (omega arith))
        (Leads-nil (with_nodes f ns n))
  Leads-titled ns n (t ∷ ts) r =
      let g = with_nodes f ns n in
      let h = with_nodes f ns (n + 1) in
      let items = settled_items t.items in
      let node = node_with t.title (items_of items) in
      let g' = reading h ns t.title [] in
      let g2 = reading h ns t.title (items_of items) in
      let last =
        with_nodes f ((ns ++ (node ∷ [])) ++ titled_of (settled_titled ts)) (n + 1 + length ts) in
      let head = Leads-section g t.title r.0.0 r.0.1 in
      let keys : Leads g' (keys_text (keys_of (list_of (items_of t.items)))) g2 =
        subst (λ ks. Leads g' (keys_text ks) g2) (sym (keys_of-list_of (items_of t.items)))
          (Leads-items h ns t.title [] t.items r.0.2 r.0.3) in
      let rest = Leads-titled (ns ++ (node ∷ [])) (n + 1) ts r.1 in
      let whole =
        Leads-append g g' last (node_buffer (node_with t.title [])) _ head
          (Leads-append g' g2 last _ (nodes_text (titled_of ts)) keys rest) in
      subst
        (λ (x : List IniFileNode × ℕ).
          Leads g (nodes_text (titled_of (t ∷ ts))) (with_nodes f x.0 x.1))
        (ap (λ (l : List IniFileNode). (l, n + 1 + length ts))
            (append_assoc ns (node ∷ []) (titled_of (settled_titled ts)))
          ∙ ap (λ (m : ℕ). (ns ++ (node ∷ titled_of (settled_titled ts)), m)) (omega arith))
        whole

-- A note that is read with these nodes there becomes a node.
abbrev EndsInNote : List IniFileNode → Type 0
EndsInNote ns =
    (g : IniFile) (x : Bytes)
    → insert_note g x (tail_node ns) ≡ list_ini_file_node_insert g (new_node x true)

EndsInNote-nil : EndsInNote []
unfolding tail_node
EndsInNote-nil g x = refl

EndsInNote-append : (ns : List IniFileNode) (b : Bytes) → EndsInNote (ns ++ (new_node b true ∷ []))
EndsInNote-append ns b g x = ap (insert_note g x) (tail_node-append ns (new_node b true))

Leads-note_node :
    (g : IniFile) (b : Bytes)
    → IsLineText 62 b
    → EndsInNote g.nodes
    → Leads g
        (node_buffer (new_node (b ++ end_of_line) true))
        (list_ini_file_node_insert g (new_node (b ++ end_of_line) true))
unfolding node_buffer
Leads-note_node g b v ends =
    let g' = list_ini_file_node_insert g (new_node (b ++ end_of_line) true) in
    let read = context_note b v.no_nul g v.fits in
    let line =
      Leads-line g g' notes_type (comma_sign ∷ b) (λ e. omega arith, v.no_newline)
        (omega (arith, v.fits)) (read ∙ ap (λ h. done (h, notes_type)) (ends g (b ++ end_of_line)))
        refl in
    let text_is = NoNul-c_str (b ++ end_of_line) (text-NoNul b v.no_nul) in
    rw text_is (
      Leads-append g g g' end_of_line ((comma_sign ∷ (b ++ end_of_line)) ++ end_of_line)
        (Leads-blank g)
        (Leads-append g g' g' (comma_sign ∷ (b ++ end_of_line)) end_of_line line (Leads-blank g')))

Leads-remarks :
    (f : IniFile) (ns : List IniFileNode) (n : ℕ) (bs : List Bytes) (ts : List Titled)
    → EndsInNote ns
    → All (IsLineText 62) bs
    → AreReadable (ns ++ remarks_of bs) ts
    → Leads (with_nodes f ns n) (nodes_text (remarks_of bs ++ titled_of ts)) (
        with_nodes f
          (ns ++ (remarks_of bs ++ titled_of (settled_titled ts)))
          (n + (length bs + length ts)))
unfolding nodes_text
Leads-remarks f ns n [] ts ends v r =
    subst
      (λ (x : ℕ).
        Leads (with_nodes f ns n) (nodes_text (titled_of ts))
          (with_nodes f (ns ++ titled_of (settled_titled ts)) x))
      (omega arith) (Leads-titled f ns n ts (subst (λ l. AreReadable l ts) (append-nil ns) r))
Leads-remarks f ns n (b ∷ bs) ts ends v r =
    let node = new_node (b ++ end_of_line) true in
    let g = with_nodes f ns n in
    let g' = with_nodes f (ns ++ (node ∷ [])) (n + 1) in
    let after = remarks_of bs ++ titled_of (settled_titled ts) in
    let last = with_nodes f ((ns ++ (node ∷ [])) ++ after) (n + 1 + (length bs + length ts)) in
    let rest =
      Leads-remarks f (ns ++ (node ∷ [])) (n + 1) bs ts (EndsInNote-append ns (b ++ end_of_line))
        v.1 (subst (λ l. AreReadable l ts) (sym (append_assoc ns (node ∷ []) (remarks_of bs))) r) in
    let whole = Leads-append g g' last (node_buffer node) _ (Leads-note_node g b v.0 ends) rest in
    subst
      (λ (x : List IniFileNode × ℕ).
        Leads g (nodes_text (remarks_of (b ∷ bs) ++ titled_of ts)) (with_nodes f x.0 x.1))
      (ap (λ (l : List IniFileNode). (l, n + 1 + (length bs + length ts)))
          (append_assoc ns (node ∷ []) after)
        ∙ ap (λ (m : ℕ). (ns ++ (node ∷ after), m)) (omega arith))
      whole

-- The file of a document.
abbrev pub file_of : Bytes → Document → IniFile
file_of name d = record {
  nodes = nodes_of d;
  file_name = name;
  len = length d.remarks + length d.titled;
  dangling = false;
}

length-settled_titled : (ts : List Titled) → length (settled_titled ts) ≡ length ts
length-settled_titled [] = refl
length-settled_titled (t ∷ ts) = ap suc (length-settled_titled ts)

read_nothing : (m : ℕ) (g : IniFile) → read_ini_loop m [] g ≡ done (g, error_type)
unfolding read_ini_loop
read_nothing zero g = refl
read_nothing (suc m) g = refl

-- Reading the text that is written for a document gives the nodes of that document again, with the
-- newlines at the ends of values gone, when every text fits on its line, holds no NUL and no
-- newline, no key holds an equality sign or starts like a section or a note, and no name is taken
-- for one before it.
pub read_ini_file-nodes_text :
    (name : Bytes) (d : Document)
    → IsReloadable d
    → read_ini_file (list_ini_file_node_init name) (some (nodes_text (nodes_of d)))
      ≡ done (file_of name (settled d), error_type)
unfolding read_ini_file
read_ini_file-nodes_text name d v =
    let start = list_ini_file_node_init name in
    let text = nodes_text (nodes_of d) in
    let end = with_nodes start (nodes_of (settled d)) (0 + (length d.remarks + length d.titled)) in
    let leads =
      Leads-remarks start [] 0 d.remarks d.titled EndsInNote-nil v.remarks_read v.titled_read in
    let (m, l, e) = leads (length text) [] (rw (append-nil text) (omega arith)) in
    ap (λ x. read_ini_loop (length text) x start) (sym (append-nil text))
    ∙ (e
        ∙ (read_nothing m end
            ∙ ap (λ (k : ℕ). done (with_nodes start (nodes_of (settled d)) k, error_type))
                (omega (arith, length-settled_titled d.titled))))
