-- ===== src/Linked/Operations/AddGet.antt =====
-- `addValueOfKey` and then `getValueOfKey`, v1.0.0/inifile.c.
use ini.Base.{
  Bool-cases, Bytes, List, Option, Option-cases, [], ap, arith, inl, inr, length, length-append,
  none, refl, some, sym, true, ℕ, ◌++◌, ◌∙◌, ◌∷◌, ◌≡◌, ◌≤◌,
}
use ini.Linked.{
  IniFile, IniFileNode, IniParameter, KeyValue, add_value_of_key_type, done,
  list_key_value_node_insert, max_string_len,
}
use ini.Linked.Chars.{
  copy_bytes, delete_spacetab_begin, find_ini_file_node, find_ini_key_value, find_key_loop, key_str,
  name_matches, value_str,
}
use ini.Linked.Chars.Match.{name_matches_iff}
use ini.Linked.Check.Laws.{add-check-get, add-check-key_len}
use ini.Linked.Operations.{
  System, add_value_of_key, change_node, chars, element, found_value, get_value_of_key, insert_key,
  key_place, new_key, reply_0, value_bytes, write_back,
}
use ini.Linked.Operations.Parts.{checked-reply_0, with_section-reply_0, write_back-ini}
use ini.Linked.Operations.Places.{
  IsShort, element-change_at, find_node_loop-change_at, find_node_loop-element, key_str_short,
}
use ini.Linked.Operations.UpdateGet.{found_value_lem, given_value, value_bytes-NoNul}
use ini.Linked.Write.{keys_of}
use ini.Text.{c_str, tab_sign}
use ini.Text.Laws.{NoNul, NoNul-c_str, c_str-append}

-- A pointer to a string, and its length.
abbrev pub IsString : Option Bytes → ℕ → Type 0
IsString o len = NoNul (chars o) × (length (chars o) ≡ len)

pub copy_bytes-length : (s : Bytes) → copy_bytes (length s) s ≡ s
unfolding copy_bytes
copy_bytes-length [] = refl
copy_bytes-length (c ∷ s) = ap (◌∷◌ c) (copy_bytes-length s)

pub insert-keys_of :
    (o : Option (List KeyValue)) (k : KeyValue)
    → list_key_value_node_insert o k ≡ some (keys_of o ++ (k ∷ []))
insert-keys_of none k = refl
insert-keys_of (some ks) k = refl

pub find_ini_key_value-keys_of :
    (n : IniFileNode) (key : Bytes)
    → find_ini_key_value n key ≡ find_key_loop (keys_of n.key_list) key
unfolding find_ini_key_value find_key_loop
find_ini_key_value-keys_of n key = elim (Option-cases n.key_list) [
  | inl e ↦ rw e refl
  | inr (ks, e) ↦ rw e refl
]

-- A key behind all others is found where none of them is.
pub find_key_loop-append :
    (ks : List KeyValue) (k : KeyValue) (key : Bytes)
    → find_key_loop ks key ≡ none
    → name_matches k.key (key_str k) key ≡ true
    → find_key_loop (ks ++ (k ∷ [])) key ≡ some (length ks)
unfolding find_key_loop
find_key_loop-append [] k key h e = rw e refl
find_key_loop-append (x ∷ ks) k key h e = elim (Bool-cases (name_matches x.key (key_str x) key)) [
  | inl z ↦ absurd (ground arith)
  | inr z ↦ elim (Option-cases (find_key_loop ks key)) [
    | inl q ↦ rw (z, find_key_loop-append ks k key q e) refl
    | inr (j, q) ↦ absurd (ground arith)
  ]
]

pub element_last {ℓ} :
    {A : Type ℓ} (xs : List A) (x : A) → element (xs ++ (x ∷ [])) (length xs) ≡ some x
element_last [] x = refl
element_last (y ∷ xs) x = element_last xs x

module _ (p : IniParameter) (key_ok : IsString p.key p.key_len)
    (key_fits : p.key_len ≤ max_string_len) where
  new_key-key : (new_key p).key ≡ chars p.key ++ (tab_sign ∷ [])
  unfolding new_key
  new_key-key =
      ap (λ n. copy_bytes n (chars p.key) ++ (tab_sign ∷ [])) (sym key_ok.1)
      ∙ ap (λ s. s ++ (tab_sign ∷ [])) (copy_bytes-length (chars p.key))

  new_key_str : c_str (new_key p).key ≡ chars p.key ++ (tab_sign ∷ [])
  unfolding c_str
  new_key_str = ap c_str new_key-key ∙ c_str-append (chars p.key) (tab_sign ∷ []) key_ok.0

  new_key-IsShort : IsShort (new_key p)
  new_key-IsShort =
      rw new_key-key (omega (arith, length-append (chars p.key) (tab_sign ∷ []), key_ok.1))

  new_key_found : name_matches (new_key p).key (key_str (new_key p)) (chars p.key) ≡ true
  new_key_found =
      ap (λ t. name_matches (new_key p).key t (chars p.key))
        (key_str_short (new_key p) new_key-IsShort)
      ∙ (name_matches_iff (new_key p).key (chars p.key) key_ok.0).1
          (tab_sign ∷ [], new_key_str, (refl, tt))

value_str-new_key :
    (p : IniParameter) → NoNul (given_value p) → value_str (new_key p) ≡ value_bytes p
unfolding new_key
value_str-new_key p h = NoNul-c_str (value_bytes p) (value_bytes-NoNul p h)

-- The file with the key added to a section.
abbrev extended : IniParameter → ℕ → IniFile → IniFile
extended p i f = change_node i (insert_key (new_key p)) f

module _ (p : IniParameter) (f : IniFile) (i : ℕ) (key_ok : IsString p.key p.key_len)
    (key_fits : p.key_len ≤ max_string_len)
    (sec_at : find_ini_file_node f (chars p.section) ≡ some i)
    (no_key : key_place f i (chars p.key) ≡ none) where
  found_added :
      NoNul (given_value p)
      → found_value (extended p i f) p (find_ini_file_node (extended p i f) (chars p.section))
        ≡ delete_spacetab_begin (value_bytes p)
  unfolding find_ini_file_node
  found_added h =
      let (n, node_at) = find_node_loop-element f.nodes (chars p.section) sec_at in
      let ks = keys_of n.key_list in
      let absent : find_key_loop ks (chars p.key) ≡ none =
        sym (find_ini_key_value-keys_of n (chars p.key)) ∙ (rw (key_place, node_at) at no_key) in
      let insert = insert_key (new_key p) in
      let same_place = find_node_loop-change_at i insert f.nodes (chars p.section) (λ m. refl) in
      let new_node_at = element-change_at i insert f.nodes node_at in
      let hit =
        find_key_loop-append ks (new_key p) (chars p.key) absent
          (new_key_found p key_ok key_fits) in
      rw (same_place, sec_at)
        (found_value_lem (extended p i f) p i (length ks) new_node_at
            (insert-keys_of n.key_list (new_key p)) hit (element_last ks (new_key p))
          ∙ ap delete_spacetab_begin (value_str-new_key p h))

-- A key that is added, when 0 is returned, is found with its value, a newline behind it and the
-- blanks in front of it left out, whatever keys the section has, when the key is a string of the
-- length given and the value has no NUL.
pub add_value_of_key-get :
    (s : System) (p : IniParameter) {s' : System}
    → IsString p.key p.key_len
    → NoNul (given_value p)
    → add_value_of_key s p ≡ done (reply_0, s')
    → get_value_of_key s'.ini p ≡ done (delete_spacetab_begin (value_bytes p))
unfolding add_value_of_key get_value_of_key
add_value_of_key-get s p {s'} key_ok h e =
    let (f, f_is, good, e1) = checked-reply_0 s p add_value_of_key_type _ e in
    let (i, sec_at, e2) = with_section-reply_0 s f p _ e1 in
    elim (Option-cases (key_place f i (chars p.key))) [
      | inl q ↦
          let written : write_back s (extended p i f) ≡ done (reply_0, s') = rw q at e2 in
          let there = write_back-ini s (extended p i f) written in
          let found = found_added p f i key_ok (add-check-key_len p good) sec_at q h in
          rw (there, add-check-get p good) (ap done found)
      | inr (j, q) ↦ absurd (ground arith)
    ]
