-- ===== src/Store.antt =====
-- Sections and keys as linked lists of nodes, and how a file is read into them.
pub mod Find
pub mod Bounds
pub mod Same
pub mod Chain
pub mod Short
use ini.Base.{
  Bool, Bytes, List, Option, [], false, if◌then◌else◌, length, ltb, none, some, true, ℕ, ◌&&◌, ◌==◌,
  ◌||◌, ◌∷◌,
}
use ini.Line.{key_part, section_part, value_part}
use ini.Memory.{
  M, World, ask, fail, format_error, from_option, keyvalue_array_len, max_inifile_section_num,
  modify, on_error, pure, set_keyval, set_section, walk, ◌>>=◌, ◌>>◌,
}
use ini.Pool.{storage_char_memory, text_of}
use ini.Slots.{get_index_ini_keyvalue, get_index_ini_section, release_keyval, release_section}
use ini.Text.{comma_sign, equality_sign, memcmp, same, str_frist_constchar, str_int_len}

abbrev pub section_links : World → ℕ → Option ℕ
section_links w i = (w.sections i).last

abbrev pub keyval_links : World → ℕ → Option ℕ
keyval_links w i = (w.keyvals i).last

-- `c_len == len`, then `memcmp` over `len` bytes.
unfoldable pub same_name : Bytes → Bytes → ℕ → Bool
same_name s name n = length s == n && elim (memcmp n s name) [ same ↦ true | _ ↦ false ]

-- The loop of `find_inifile_section` and `find_keyvalue_unsect` over the nodes.
unfoldable pub find_node : (ℕ → Bytes) → Bytes → ℕ → List ℕ → Option ℕ
unfolding same_name
find_node text name n [] = none
find_node text name n (i ∷ xs) =
    let rest = find_node text name n xs in if same_name (text i) name n then some i else rest

-- A length that is not positive stands for the length of the string.
unfoldable pub length_or : ℕ → Bytes → ℕ
length_or n s = if n == 0 then str_int_len s else n

abbrev pub section_text : World → ℕ → Bytes
section_text w i = text_of w.mem (w.sections i).sec

abbrev pub key_text : World → ℕ → Bytes
key_text w i = text_of w.mem (w.keyvals i).key

abbrev pub value_text : World → ℕ → Bytes
value_text w i = text_of w.mem (w.keyvals i).value

unfoldable pub find_inifile_section : Option ℕ → Option Bytes → ℕ → M (Option ℕ)
unfolding find_node length_or
find_inifile_section head none n = pure none
find_inifile_section none (some name) n = pure none
find_inifile_section (some p) (some name) n = do
  w ← ask
  xs ← walk (section_links w) max_inifile_section_num (some p)
  pure (find_node (section_text w) name (length_or n name) xs)

unfoldable pub find_keyvalue_unsect : Option ℕ → Option Bytes → ℕ → M (Option ℕ)
unfolding find_node length_or
find_keyvalue_unsect head none n = pure none
find_keyvalue_unsect none (some key) n = pure none
find_keyvalue_unsect (some p) (some key) n = do
  w ← ask
  xs ← walk (keyval_links w) keyvalue_array_len (some p)
  pure (find_node (key_text w) key (length_or n key) xs)

-- Once there is a `=` at `e`: a node is taken, and given up again on any error.
unfoldable pub store_key_val : Bytes → ℕ → Option ℕ → M ℕ
store_key_val line e comma = do
  i ← get_index_ini_keyvalue
  on_error (release_keyval i) (do
    k ← from_option format_error (key_part line e)
    key ← storage_char_memory k (length k)
    modify (λ w. set_keyval i (record (w.keyvals i) { key = some key }) w)
    v ← from_option format_error (value_part line e comma)
    value ← storage_char_memory v (length v)
    modify (λ w. set_keyval i (record (w.keyvals i) { value = some value }) w)
    pure i)

-- `p_comma && p_comma < p_equ`
unfoldable pub comma_first : Option ℕ → ℕ → Bool
comma_first none e = false
comma_first (some c) e = ltb c e

-- The key and value of a line; `p < p_equ` wants a byte before the `=`. A NULL `p_equ` is below every place.
unfoldable pub init_line_key_val : Bytes → M ℕ
unfolding store_key_val comma_first
init_line_key_val line = elim (str_frist_constchar line equality_sign) [
  | none ↦ fail format_error
  | some e ↦
      let comma = str_frist_constchar line comma_sign in
      if comma_first comma e || e == 0 then fail format_error else store_key_val line e comma
]

unfoldable pub init_line_section : Bytes → M ℕ
init_line_section line = do
  i ← get_index_ini_section
  on_error (release_section i) (do
    s ← from_option format_error (section_part line)
    sec ← storage_char_memory s (length s)
    modify (λ w. set_section i (record (w.sections i) { sec = some sec }) w)
    pure i)
