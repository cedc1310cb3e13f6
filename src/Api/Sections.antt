-- ===== src/Api/Sections.antt =====
-- `delete_ini_section` and `add_ini_section`.
pub mod Bounds
pub mod Added
use ini.Api.{bad_fd, file_name, is_null, section_of}
use ini.Base.{Bytes, List, Option, [], false, if◌then◌else◌, none, some, ℕ, ◌++◌, ◌||◌, ◌∷◌}
use ini.Memory.{
  M, World, ask, error_parameter, fail, fault, final, keyvalue_array_len, max_inifile_section_num,
  modify, ok, pure, section_alread, section_nofound, set_file, set_keyval, set_section, walk, ◌>>=◌,
  ◌>>◌,
}
use ini.Rewrite.{Parameter, printed}
use ini.Rewrite.Add.{rewrite_after_add}
use ini.Rewrite.Delete.{rewrite_after_delete}
use ini.Slots.{release_keyval}
use ini.Store.{init_line_section, keyval_links, length_or, section_links}
use ini.Text.{left_bracket, right_bracket}

-- `p->pre->last = q`, where there is a `pre`; else the head of the file.
abbrev pub link_before : ℕ → Option ℕ → Option ℕ → World → World
link_before fd (some p) q w = set_section p (record (w.sections p) { last = q }) w
link_before fd none q w = set_file fd (record (w.files fd) { head = q }) w

-- The node is taken out of the list and cleared; its keys are not touched.
unfoldable pub unlink_section : ℕ → ℕ → World → World
unlink_section fd s w =
    let w1 = link_before fd (w.sections s).pre (w.sections s).last w in
    let w2 : World = elim (w1.sections s).last [
      | some l ↦ set_section l (record (w1.sections l) { pre = (w1.sections s).pre }) w1
      | none ↦ link_before fd (w1.sections s).pre none w1
    ] in
    set_section s (record { used = false; sec = none; head = none; pre = none; last = none }) w2

-- The three assignments at the head of the loop over the keys.
abbrev pub clear_keyval : ℕ → World → World
clear_keyval i w = set_keyval i (record (w.keyvals i) { key = none; value = none; pre = none }) w

-- `p_keyval->pre->last = NULL; p_keyval->pre->flag = STRUCT_NODE_UN_USED;` at the next node `j`.
unfoldable pub release_before : Option ℕ → M (Unit {0})
release_before none w = (fault, w)
release_before (some p) w =
    (ok tt, set_keyval p (record (w.keyvals p) { last = none; used = false }) w)

-- The loop that gives up the keys of a section.
unfoldable pub free_keyvals : List ℕ → M (Unit {0})
unfolding release_before
free_keyvals [] = pure tt
free_keyvals (i ∷ []) = modify (λ w. release_keyval i (clear_keyval i w))
free_keyvals (i ∷ j ∷ xs) = do
  modify (clear_keyval i)
  w ← ask
  release_before (w.keyvals j).pre
  free_keyvals (j ∷ xs)

unfoldable pub delete_found : ℕ → Parameter → Option ℕ → M ℕ
unfolding unlink_section free_keyvals
delete_found fd p none = fail section_nofound
delete_found fd p (some s) = do
  w ← ask
  keys ← walk (keyval_links w) keyvalue_array_len (w.sections s).head
  modify (unlink_section fd s)
  free_keyvals keys
  w ← ask
  rewrite_after_delete (file_name w fd) p

unfoldable pub delete_ini_section : ℕ → Option Parameter → M ℕ
unfolding delete_found section_of
delete_ini_section fd none = fail error_parameter
delete_ini_section fd (some p) =
    if bad_fd fd || is_null p.section
    then fail error_parameter
    else do s ← section_of fd p; delete_found fd p s

-- The line that `init_line_section` is given: "[<section>]".
unfoldable pub added_header : Parameter → Bytes → Bytes
added_header p s = left_bracket ∷ (printed (length_or p.section_len s) s ++ (right_bracket ∷ []))

-- `p_section->pre = p_sec_end`: unlike on reading a file, `last` of the new node is left as it is.
unfoldable pub append_section : ℕ → List ℕ → ℕ → World → World
append_section fd [] i w = set_file fd (record (w.files fd) { head = some i }) w
append_section fd (x ∷ xs) i w =
    let end = final x xs in
    let w1 = set_section end (record (w.sections end) { last = some i }) w in
    set_section i (record (w1.sections i) { pre = some end }) w1

unfoldable pub add_new_section : ℕ → Parameter → Bytes → Option ℕ → M ℕ
unfolding added_header append_section
add_new_section fd p s (some j) = fail section_alread
add_new_section fd p s none = do
  i ← init_line_section (added_header p s)
  w ← ask
  xs ← walk (section_links w) max_inifile_section_num (w.files fd).head
  modify (append_section fd xs i)
  w ← ask
  rewrite_after_add (file_name w fd) p

unfoldable pub add_section_checked : ℕ → Parameter → Option Bytes → M ℕ
unfolding add_new_section section_of
add_section_checked fd p none = fail error_parameter
add_section_checked fd p (some s) =
    if bad_fd fd then fail error_parameter else do j ← section_of fd p; add_new_section fd p s j

unfoldable pub add_ini_section : ℕ → Option Parameter → M ℕ
unfolding add_section_checked
add_ini_section fd none = fail error_parameter
add_ini_section fd (some p) = add_section_checked fd p p.section
