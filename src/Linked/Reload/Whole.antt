-- ===== src/Linked/Reload/Whole.antt =====
-- The file that `updateIniFile` of v1.0.0/inifile.c writes, read again.
use mathlib.Core.List.{append_assoc, append-nil}
use ini.Base.{
  All, All-append, Bool, Bytes, List, [], arith, false, if◌then◌else◌, length, length-append, refl,
  subst, sym, true, ◌++◌, ◌<◌, ◌∷◌, ◌≡◌,
}
use ini.Linked.{IniFile, IniFileNode, KeyValue, string_room}
use ini.Linked.Operations.Places.{IsShort, key_str_short}
use ini.Linked.Read.{new_key_value}
use ini.Linked.Read.Contexts.{end_of_line}
use ini.Linked.Read.Turns.{Leads, Leads-append, Leads-nil}
use ini.Linked.Reload.{
  HasNewKeys, IsLineText, IsReadItem, Item, assignment, item_of, items_of, remark, settled_items,
}
use ini.Linked.Reload.Lines.{Leads-assignment, Leads-blank, Leads-remark, reading}
use ini.Linked.Write.{key_value_buffer}
use ini.Linked.Write.Laws.{keys_text}
use ini.Text.{comma_sign, equality_sign}
use ini.Text.Laws.{NoNul, NoNul-c_str}

pub text-NoNul : (b : Bytes) → NoNul b → NoNul (b ++ end_of_line)
text-NoNul b h = All-append _ b end_of_line h (λ e. omega arith, tt)

pub remark_buffer :
    (b : Bytes)
    → IsLineText 62 b
    → key_value_buffer (item_of (remark b)) ≡ (comma_sign ∷ (b ++ end_of_line)) ++ end_of_line
unfolding key_value_buffer
remark_buffer b v =
    let short : IsShort (item_of (remark b)) = omega (arith, length-append b end_of_line, v.fits) in
    rw
      (
        key_str_short (item_of (remark b)) short,
        NoNul-c_str (b ++ end_of_line) (text-NoNul b v.no_nul),
      )
      refl

-- The newline that a value ends in becomes a line of its own.
abbrev pub blank_behind : Bool → Bytes
blank_behind newline = if newline then end_of_line else []

pub assignment_buffer :
    (k v : Bytes) (newline : Bool)
    → NoNul k
    → length k < string_room
    → NoNul v
    → key_value_buffer (item_of (assignment k v newline))
      ≡ (k ++ (equality_sign ∷ (v ++ end_of_line))) ++ blank_behind newline
unfolding key_value_buffer
assignment_buffer k v true hk l hv =
    rw
      (
        key_str_short (item_of (assignment k v true)) l,
        NoNul-c_str k hk,
        NoNul-c_str (v ++ end_of_line) (text-NoNul v hv),
      )
      (sym (append_assoc k (equality_sign ∷ (v ++ end_of_line)) end_of_line))
assignment_buffer k v false hk l hv =
    rw
      (
        key_str_short (item_of (assignment k v false)) l,
        NoNul-c_str k hk,
        NoNul-c_str v hv,
        append-nil (k ++ (equality_sign ∷ (v ++ end_of_line))),
      )
      refl

Leads-behind : (g : IniFile) (newline : Bool) → Leads g (blank_behind newline) g
Leads-behind g true = Leads-blank g
Leads-behind g false = Leads-nil g

module _ (f : IniFile) (pre : List IniFileNode) (t : Bytes) where
  pub Leads-items :
      (ks : List KeyValue) (xs : List Item)
      → All IsReadItem xs
      → HasNewKeys ks xs
      → Leads
          (reading f pre t ks)
          (keys_text (items_of xs))
          (reading f pre t (ks ++ items_of (settled_items xs)))
  unfolding keys_text
  Leads-items ks [] r h =
      subst (λ l. Leads (reading f pre t ks) [] (reading f pre t l)) (sym (append-nil ks))
        (Leads-nil (reading f pre t ks))
  Leads-items ks (remark b ∷ xs) r h =
      let k = item_of (remark b) in
      let g = reading f pre t ks in
      let g' = reading f pre t (ks ++ (k ∷ [])) in
      let line =
        Leads-append g g' g' (comma_sign ∷ (b ++ end_of_line)) end_of_line
          (Leads-remark f pre t ks b r.0) (Leads-blank g') in
      let rest = Leads-items (ks ++ (k ∷ [])) xs r.1 h in
      let end = reading f pre t (ks ++ (k ∷ items_of (settled_items xs))) in
      Leads-append g g' end (key_value_buffer k) (keys_text (items_of xs))
        (subst (λ s. Leads g s g') (sym (remark_buffer b r.0)) line)
        (subst (λ l. Leads g' (keys_text (items_of xs)) (reading f pre t l))
          (append_assoc ks (k ∷ []) (items_of (settled_items xs))) rest)
  Leads-items ks (assignment key v newline ∷ xs) r h =
      let k = new_key_value key v in
      let g = reading f pre t ks in
      let g' = reading f pre t (ks ++ (k ∷ [])) in
      let line =
        Leads-append g g' g' (key ++ (equality_sign ∷ (v ++ end_of_line))) (blank_behind newline)
          (Leads-assignment f pre t ks key v r.0 h.0) (Leads-behind g' newline) in
      let rest = Leads-items (ks ++ (k ∷ [])) xs r.1 h.1 in
      let end = reading f pre t (ks ++ (k ∷ items_of (settled_items xs))) in
      let buffer_is = assignment_buffer key v newline r.0.0.no_nul r.0.1 r.0.2.no_nul in
      Leads-append g g' end (key_value_buffer (item_of (assignment key v newline)))
        (keys_text (items_of xs)) (subst (λ s. Leads g s g') (sym buffer_is) line)
        (subst (λ l. Leads g' (keys_text (items_of xs)) (reading f pre t l))
          (append_assoc ks (k ∷ []) (items_of (settled_items xs))) rest)
