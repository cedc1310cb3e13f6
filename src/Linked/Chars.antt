-- ===== src/Linked/Chars.antt =====
-- The character arrays of v1.0.0/inifile.c: `delete_spacetab_begin`, `isKeyValueLine` and
-- `copyBeginEnd`, and how a name is compared.
pub mod Match
use ini.Base.{
  Bool, Bytes, List, Option, [], drop, false, if◌then◌else◌, leb, length, ltb, none, some, suc,
  true, zero, ℕ, ◌&&◌, ◌++◌, ◌+◌, ◌-◌, ◌==◌, ◌||◌, ◌∷◌,
}
use ini.Linked.{IniFile, IniFileNode, KeyValue, Outcome, done, string_room, undefined}
use ini.Text.{
  Sign, c_str, char_at, equality_sign, is_blank, memcmp, newline_sign, same, str_int_len,
}
use mathlib.Core.Option

-- `memcpy` of `n` bytes from a string: behind its bytes it reads 0.
unfoldable pub copy_bytes : ℕ → Bytes → Bytes
copy_bytes zero s = []
copy_bytes (suc n) s = char_at s 0 ∷ copy_bytes n (drop 1 s)

-- The string in `char a[68]`: without a NUL in the array it goes on in the next field.
unfoldable pub array_str : Bytes → Bytes → Bytes
array_str a next = if leb string_room (length a) then c_str (a ++ next) else c_str a

-- `key` stands before `value`, and `value` before `isNote`, whose bytes are 0 in a key.
abbrev pub key_str : KeyValue → Bytes
key_str k = array_str k.key k.value

abbrev pub value_str : KeyValue → Bytes
value_str k = c_str k.value

-- At most MAX_STRING_LEN bytes are ever written to `section`.
abbrev pub section_str : IniFileNode → Bytes
section_str n = c_str n.section

-- The loop over the blanks.
unfoldable pub past_blanks : Bytes → Option Bytes
past_blanks [] = some []
past_blanks (c ∷ s) =
    let rest = past_blanks s in
    if is_blank c then if char_at s 0 == 0 then none else rest else some (c ∷ s)

-- NULL for a line that is empty or blank to its end.
unfoldable pub delete_spacetab_begin : Bytes → Option Bytes
unfolding past_blanks
delete_spacetab_begin line =
    let rest = past_blanks line in if char_at line 0 == newline_sign then none else rest

-- `index` counts; 0 is returned at the NUL. The byte that is tested for NUL is the next one.
unfoldable pub key_value_loop : Bytes → ℕ → ℕ
key_value_loop [] index = 0
key_value_loop (c ∷ s) index =
    let rest = key_value_loop s (index + 1) in
    if c == equality_sign then index else if char_at s 0 == 0 then 0 else rest

unfoldable pub is_key_value_line : Bytes → ℕ
unfolding key_value_loop
is_key_value_line line = key_value_loop line 0

-- A length below 0 is a huge `size_t`, and one over the array's writes behind it.
unfoldable pub copy_begin_end : Bytes → ℕ → ℕ → Outcome Bytes
unfolding copy_bytes
copy_begin_end sort begin end =
    if ltb end begin || ltb string_room (end - begin)
    then undefined
    else done (copy_bytes (end - begin) (drop begin sort))

-- `while(com_len > len)`: what is left of the `n` bytes behind the name when the loop stops.
unfoldable pub after_blanks : ℕ → Bytes → ℕ
after_blanks zero p = 0
after_blanks (suc n) p =
    let rest = after_blanks n (drop 1 p) in if is_blank (char_at p 0) then rest else suc n

abbrev pub is_same : Sign → Bool
is_same same = true
is_same _ = false

-- The body of the loops of `findIniKeyValue` and `findIniFileNode`, on an array and its string.
unfoldable pub name_matches : Bytes → Bytes → Bytes → Bool
unfolding memcmp str_int_len after_blanks
name_matches stored text name =
    let len = str_int_len name in
    let com_len = length text in
    if is_same (memcmp len stored name)
    then com_len == len || (ltb len com_len && after_blanks (com_len - len) (drop len text) == 0)
    else false

unfoldable pub find_key_loop : List KeyValue → Bytes → Option ℕ
unfolding name_matches array_str c_str
find_key_loop [] key = none
find_key_loop (k ∷ ks) key =
    let rest = Option.map suc (find_key_loop ks key) in
    if name_matches k.key (key_str k) key then some 0 else rest

unfoldable pub find_node_loop : List IniFileNode → Bytes → Option ℕ
unfolding name_matches c_str
find_node_loop [] section = none
find_node_loop (n ∷ ns) section =
    let rest = Option.map suc (find_node_loop ns section) in
    if name_matches n.section (section_str n) section then some 0 else rest

unfoldable pub find_ini_key_value : IniFileNode → Bytes → Option ℕ
unfolding find_key_loop
find_ini_key_value n key = elim n.key_list [ none ↦ none | some ks ↦ find_key_loop ks key ]

unfoldable pub find_ini_file_node : IniFile → Bytes → Option ℕ
unfolding find_node_loop
find_ini_file_node f section = find_node_loop f.nodes section
