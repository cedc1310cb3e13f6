-- ===== src/Linked/Read.antt =====
-- Reading a file into nodes, v1.0.0/inifile.c: `initLineNode`, `initLineNotes`, `initLineKeyValue`,
-- `initLineContext`, `readIniFile` and `initIniFile`.
pub mod Turns
pub mod Contexts
pub mod Keys
use ini.Base.{
  Bytes, List, Option, [], false, if◌then◌else◌, length, ltb, none, some, suc, true, zero, ℕ, ◌+◌,
  ◌-◌, ◌==◌, ◌||◌, ◌∷◌,
}
use ini.Linked.{
  IniFile, IniFileNode, KeyValue, LineCode, Outcome, done, error_type, is_negative, key_value_type,
  list_ini_file_node_init, list_ini_file_node_insert, list_key_value_node_insert, max_filename_len,
  max_filline_len, max_string_len, new_node, node_type, notes_type, open_file_error,
  repeat_node_key, too_long, ◌>>=◌,
}
use ini.Linked.Chars.{
  copy_begin_end, copy_bytes, delete_spacetab_begin, find_ini_file_node, find_ini_key_value,
  is_key_value_line,
}
use ini.Text.{c_str, char_at, comma_sign, fgets, left_bracket, newline_sign, str_int_len}

-- The files by name. One that is there may be read and written.
abbrev pub Files : Type 0
Files = Bytes → Option Bytes

-- What `list->tail` points to.
unfoldable pub tail_node : List IniFileNode → Option IniFileNode
tail_node [] = none
tail_node (n ∷ []) = some n
tail_node (n ∷ m ∷ ns) = tail_node (m ∷ ns)

-- The tail with one more key or note.
unfoldable pub add_to_tail : List IniFileNode → KeyValue → List IniFileNode
add_to_tail [] k = []
add_to_tail (n ∷ []) k = record n { key_list = list_key_value_node_insert n.key_list k } ∷ []
add_to_tail (n ∷ m ∷ ns) k = n ∷ add_to_tail (m ∷ ns) k

abbrev pub new_note : Bytes → KeyValue
new_note s = record { key = s; value = []; is_note = true }

abbrev pub new_key_value : Bytes → Bytes → KeyValue
new_key_value k v = record { key = k; value = v; is_note = false }

abbrev pub insert_once : IniFile → Bytes → Option ℕ → Outcome (IniFile × LineCode)
insert_once f name (some i) = done (f, repeat_node_key)
insert_once f name none = done (list_ini_file_node_insert f (new_node name false), error_type)

unfoldable pub init_line_node : IniFile → Bytes → Outcome (IniFile × LineCode)
unfolding copy_begin_end find_ini_file_node str_int_len
init_line_node f line = do
  name ← copy_begin_end line 1 (str_int_len line - 2)
  insert_once f name (find_ini_file_node f name)

-- Behind a note the note is a node, behind a section it is a note among its keys.
abbrev pub insert_note : IniFile → Bytes → Option IniFileNode → IniFile
insert_note f text none = list_ini_file_node_insert f (new_node text true)
insert_note f text (some n) =
    if n.is_note
    then list_ini_file_node_insert f (new_node text true)
    else record f { nodes = add_to_tail f.nodes (new_note text) }

unfoldable pub init_line_notes : IniFile → Bytes → Outcome IniFile
unfolding copy_begin_end str_int_len tail_node add_to_tail
init_line_notes f line = do
  text ← copy_begin_end line 1 (str_int_len line)
  done (insert_note f text (tail_node f.nodes))

abbrev pub insert_key_value : IniFile → Bytes → ℕ → Bytes → Outcome (IniFile × LineCode)
insert_key_value f line index key = do
  value ← copy_begin_end line (index + 1) (str_int_len line - 1)
  done (record f { nodes = add_to_tail f.nodes (new_key_value key value) }, error_type)

-- The first key of a section is not looked for.
abbrev pub insert_in_list : IniFile → Bytes → ℕ → Bytes → IniFileNode → Outcome (IniFile × LineCode)
insert_in_list f line index key n = elim n.key_list [
  | none ↦ insert_key_value f line index key
  | some ks ↦ elim (find_ini_key_value n key) [
    | some i ↦ done (f, repeat_node_key)
    | none ↦ insert_key_value f line index key
  ]
]

-- A key before any section, or behind a note that is a node, is passed over.
unfoldable pub init_line_key_value : IniFile → Bytes → ℕ → Outcome (IniFile × LineCode)
unfolding copy_begin_end str_int_len tail_node add_to_tail find_ini_key_value
init_line_key_value f line index = elim (tail_node f.nodes) [
  | none ↦ done (f, error_type)
  | some n ↦
      if n.is_note
      then done (f, error_type)
      else do key ← copy_begin_end line 0 index; insert_in_list f line index key n
]

-- `if(index < 0) return index;`, else the type of the line.
abbrev pub or_code : LineCode → IniFile × LineCode → Outcome (IniFile × LineCode)
or_code type (f, code) = if is_negative code then done (f, code) else done (f, type)

-- From the test for a note on.
unfoldable pub init_line_rest : IniFile → Bytes → Outcome (IniFile × LineCode)
unfolding init_line_notes init_line_key_value is_key_value_line str_int_len
init_line_rest f line =
    let index = is_key_value_line line in
    if char_at line 0 == comma_sign
    then if ltb max_string_len (str_int_len line)
      then done (f, too_long)
      else (do f' ← init_line_notes f line; done (f', notes_type))
    else if ltb 0 index
    then if ltb max_filline_len (str_int_len line)
      then done (f, too_long)
      else (do r ← init_line_key_value f line index; or_code key_value_type r)
    else done (f, error_type)

unfoldable pub init_line_context : IniFile → Bytes → Outcome (IniFile × LineCode)
unfolding delete_spacetab_begin init_line_node init_line_rest str_int_len
init_line_context f line = elim (delete_spacetab_begin line) [
  | none ↦ done (f, error_type)
  | some p ↦
      if char_at p 0 == newline_sign
      then done (f, error_type)
      else if char_at p 0 == left_bracket
      then if ltb (max_string_len + 2) (str_int_len p)
        then done (f, too_long)
        else (do r ← init_line_node f p; or_code node_type r)
      else init_line_rest f line
]

abbrev pub or_stop :
    IniFile × LineCode → (IniFile → Outcome (IniFile × LineCode)) → Outcome (IniFile × LineCode)
or_stop (f, code) next = if is_negative code then done (f, code) else next f

-- The `fgets` loop, with MAX_FILLINE_LEN of 128. Each turn takes a byte or more.
unfoldable pub read_ini_loop : ℕ → Bytes → IniFile → Outcome (IniFile × LineCode)
unfolding fgets init_line_context
read_ini_loop zero text f = done (f, error_type)
read_ini_loop (suc n) [] f = done (f, error_type)
read_ini_loop (suc n) (c ∷ s) f =
    let (line, rest) = fgets 127 (c ∷ s) in
    do r ← init_line_context f line; or_stop r (λ f'. read_ini_loop n rest f')

unfoldable pub read_ini_file : IniFile → Option Bytes → Outcome (IniFile × LineCode)
unfolding read_ini_loop
read_ini_file f none = done (f, open_file_error)
read_ini_file f (some text) = read_ini_loop (length text) text f

abbrev pub or_null : IniFile × LineCode → Outcome (Option IniFile)
or_null (f, code) = if is_negative code then done none else done (some f)

-- `access`, `malloc` and the reading.
abbrev pub init_there : Files → Bytes → ℕ → Option Bytes → Outcome (Option IniFile)
init_there files name len none = done none
init_there files name len (some text) = do
  r ← read_ini_file (list_ini_file_node_init (copy_bytes len name)) (some text)
  or_null r

unfoldable pub init_linked_file : Files → Option Bytes → ℕ → Outcome (Option IniFile)
unfolding copy_bytes read_ini_file c_str
init_linked_file files none len = done none
init_linked_file files (some name) len =
    if ltb max_filename_len len || len == 0
    then done none
    else if char_at name len == 0
    then init_there files name len (files (c_str name))
    else done none
