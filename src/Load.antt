-- ===== src/Load.antt =====
-- How a file is read into the lists: `init_every_line_inifile` and `read_analys_ini_file` of
-- v2.0.0/inifile.c.
pub mod Bounds
use ini.Base.{Bytes, List, Option, [], if◌then◌else◌, length, none, some, ℕ, ◌∷◌}
use ini.Line.{
  judge_ini_file_linetype, line_blank, line_error, line_keyvalue, line_note, line_section,
}
use ini.Memory.{
  M, World, ask, err, fail, final, format_error, keyvalue_array_len, max_inifile_section_num,
  modify, no_exist, pure, set_file, set_keyval, set_section, walk, ◌>>=◌, ◌>>◌,
}
use ini.Slots.{release_keyval, release_section}
use ini.Store.{
  find_inifile_section, find_keyvalue_unsect, init_line_key_val, init_line_section, key_text,
  keyval_links, section_links, section_text,
}
use ini.Text.{read_lines}

-- A new node behind the last one of a list, or at its head.
unfoldable pub link_section : ℕ → List ℕ → ℕ → World → World
link_section fd [] i w = set_file fd (record (w.files fd) { head = some i }) w
link_section fd (x ∷ xs) i w =
    let end = final x xs in
    let w1 = set_section end (record (w.sections end) { last = some i }) w in
    set_section i (record (w1.sections i) { pre = some end; last = none }) w1

unfoldable pub link_keyval : ℕ → List ℕ → ℕ → World → World
link_keyval s [] i w = set_section s (record (w.sections s) { head = some i }) w
link_keyval s (x ∷ xs) i w =
    let end = final x xs in
    let w1 = set_keyval end (record (w.keyvals end) { last = some i }) w in
    set_keyval i (record (w1.keyvals i) { pre = some end; last = none }) w1

-- `case LINE_SECTION`, once the new section is stored: a second one of the same name is given up.
unfoldable pub enter_section : ℕ → ℕ → Option ℕ → M ℕ
unfolding link_section
enter_section fd i (some f) = do modify (release_section i); fail format_error
enter_section fd i none = do
  w ← ask
  xs ← walk (section_links w) max_inifile_section_num (w.files fd).head
  modify (link_section fd xs i)
  pure i

unfoldable pub init_section_line : ℕ → Bytes → M ℕ
unfolding enter_section find_inifile_section init_line_section
init_section_line fd line = do
  i ← init_line_section line
  w ← ask
  f ← find_inifile_section (w.files fd).head (some (section_text w i)) 0
  enter_section fd i f

-- `case LINE_KEYVALUE`, in the last section read.
unfoldable pub enter_keyval : ℕ → ℕ → Option ℕ → M ℕ
unfolding link_keyval
enter_keyval s i (some f) = do modify (release_keyval i); fail format_error
enter_keyval s i none = do
  w ← ask
  xs ← walk (keyval_links w) keyvalue_array_len (w.sections s).head
  modify (link_keyval s xs i)
  pure i

unfoldable pub init_keyvalue_line : List ℕ → Bytes → M ℕ
unfolding enter_keyval find_keyvalue_unsect init_line_key_val
init_keyvalue_line [] line = fail format_error
init_keyvalue_line (x ∷ xs) line = do
  i ← init_line_key_val line
  w ← ask
  f ← find_keyvalue_unsect (w.sections (final x xs)).head (some (key_text w i)) 0
  enter_keyval (final x xs) i f

unfoldable pub init_every_line_inifile : ℕ → Bytes → M ℕ
unfolding judge_ini_file_linetype init_section_line init_keyvalue_line
init_every_line_inifile fd line = elim (judge_ini_file_linetype line) [
  | line_section ↦ init_section_line fd line
  | line_keyvalue ↦ do
    w ← ask
    xs ← walk (section_links w) max_inifile_section_num (w.files fd).head
    init_keyvalue_line xs line
  | line_note ↦ pure 0
  | line_blank ↦ pure 0
  | line_error ↦ fail format_error
]

-- The loop stops at the first error; `ret` is the result for the last line read.
unfoldable pub init_lines : ℕ → ℕ → List Bytes → M ℕ
unfolding init_every_line_inifile
init_lines fd ret [] = pure ret
init_lines fd ret (line ∷ rest) = do r ← init_every_line_inifile fd line; init_lines fd r rest

-- `access(file_name, R_OK|W_OK)`, `fopen` and the loop.
unfoldable pub read_analys_ini_file : ℕ → Bytes → M ℕ
unfolding init_lines
read_analys_ini_file fd name w = elim (w.disk.content name) [
  | none ↦ (err no_exist, w)
  | some text ↦
      if w.disk.writable name
      then init_lines fd 0 (read_lines (length text) text) w
      else (err no_exist, w)
]
