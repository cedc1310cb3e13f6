-- ===== src/Api/Values.antt =====
-- Keys and values: `get_value_ofkey`, `update_value_ofkey`, `add_value_ofkey` and
-- `delete_value_ofkey`.
pub mod Bounds
pub mod Added
pub mod UpdateGet
use ini.Api.{bad_fd, file_name, is_null, keyval_of, section_of}
use ini.Base.{Bytes, List, Option, [], false, if◌then◌else◌, none, some, ℕ, ◌++◌, ◌||◌, ◌∷◌}
use ini.Memory.{
  CharPtr, M, World, ask, error_parameter, fail, final, keyvalue_alread, keyvalue_array_len,
  keyvalue_nofound, modify, pure, section_nofound, set_keyval, set_section, walk, ◌>>=◌, ◌>>◌,
}
use ini.Pool.{storage_char_memory}
use ini.Rewrite.{Parameter, printed}
use ini.Rewrite.Add.{rewrite_after_add}
use ini.Rewrite.Delete.{rewrite_after_delete}
use ini.Rewrite.Update.{rewrite_after_update}
use ini.Store.{init_line_key_val, keyval_links, length_or}
use ini.Text.{equality_sign}

-- NULL is `none`; a value that is found may itself be NULL.
unfoldable pub value_in : Option ℕ → M (Option CharPtr)
value_in none = pure none
value_in (some k) = do w ← ask; pure (w.keyvals k).value

unfoldable pub get_in_section : Parameter → Option ℕ → M (Option CharPtr)
unfolding value_in keyval_of
get_in_section p none = pure none
get_in_section p (some s) = do k ← keyval_of s p; value_in k

unfoldable pub get_value_ofkey : ℕ → Option Parameter → M (Option CharPtr)
unfolding get_in_section section_of
get_value_ofkey fd none = pure none
get_value_ofkey fd (some p) =
    if bad_fd fd || is_null p.section || is_null p.key
    then pure none
    else do s ← section_of fd p; get_in_section p s

-- The new value is stored and put in the node, then the file is written.
unfoldable pub update_keyval : ℕ → Parameter → Bytes → Option ℕ → M ℕ
update_keyval fd p v none = fail keyvalue_nofound
update_keyval fd p v (some k) = do
  c ← storage_char_memory v (length_or p.value_len v)
  modify (λ w. set_keyval k (record (w.keyvals k) { value = some c }) w)
  w ← ask
  rewrite_after_update (file_name w fd) p

unfoldable pub update_in_section : ℕ → Parameter → Bytes → Option ℕ → M ℕ
unfolding update_keyval keyval_of
update_in_section fd p v none = fail section_nofound
update_in_section fd p v (some s) = do k ← keyval_of s p; update_keyval fd p v k

unfoldable pub update_checked : ℕ → Parameter → Option Bytes → M ℕ
unfolding update_in_section section_of
update_checked fd p none = fail error_parameter
update_checked fd p (some v) =
    if bad_fd fd || is_null p.section || is_null p.key
    then fail error_parameter
    else do s ← section_of fd p; update_in_section fd p v s

unfoldable pub update_value_ofkey : ℕ → Option Parameter → M ℕ
unfolding update_checked
update_value_ofkey fd none = fail error_parameter
update_value_ofkey fd (some p) = update_checked fd p p.value

-- The line that `init_line_key_val` is given: "<key>=<value>".
unfoldable pub added_line : Parameter → Bytes → Bytes → Bytes
added_line p k v =
    printed (length_or p.key_len k) k ++ (equality_sign ∷ printed (length_or p.value_len v) v)

-- `p_keyval->pre = p_key_end`: unlike on reading a file, `last` of the new node is left as it is.
unfoldable pub append_keyval : ℕ → List ℕ → ℕ → World → World
append_keyval s [] i w = set_section s (record (w.sections s) { head = some i }) w
append_keyval s (x ∷ xs) i w =
    let end = final x xs in
    let w1 = set_keyval end (record (w.keyvals end) { last = some i }) w in
    set_keyval i (record (w1.keyvals i) { pre = some end }) w1

unfoldable pub add_new_keyval : ℕ → Parameter → Bytes → Bytes → ℕ → Option ℕ → M ℕ
unfolding added_line append_keyval
add_new_keyval fd p k v s (some j) = fail keyvalue_alread
add_new_keyval fd p k v s none = do
  i ← init_line_key_val (added_line p k v)
  w ← ask
  xs ← walk (keyval_links w) keyvalue_array_len (w.sections s).head
  modify (append_keyval s xs i)
  w ← ask
  rewrite_after_add (file_name w fd) p

unfoldable pub add_in_section : ℕ → Parameter → Bytes → Bytes → Option ℕ → M ℕ
unfolding add_new_keyval keyval_of
add_in_section fd p k v none = fail section_nofound
add_in_section fd p k v (some s) = do j ← keyval_of s p; add_new_keyval fd p k v s j

unfoldable pub add_checked : ℕ → Parameter → Option Bytes → Option Bytes → M ℕ
unfolding add_in_section section_of
add_checked fd p (some k) (some v) =
    if bad_fd fd || is_null p.section
    then fail error_parameter
    else do s ← section_of fd p; add_in_section fd p k v s
add_checked fd p _ _ = fail error_parameter

unfoldable pub add_value_ofkey : ℕ → Option Parameter → M ℕ
unfolding add_checked
add_value_ofkey fd none = fail error_parameter
add_value_ofkey fd (some p) = add_checked fd p p.key p.value

-- `p->pre->last = q`, where there is a `pre`; else the head of the section.
abbrev pub link_before : ℕ → Option ℕ → Option ℕ → World → World
link_before s (some p) q w = set_keyval p (record (w.keyvals p) { last = q }) w
link_before s none q w = set_section s (record (w.sections s) { head = q }) w

unfoldable pub unlink_keyval : ℕ → ℕ → World → World
unlink_keyval s k w =
    let w1 = link_before s (w.keyvals k).pre (w.keyvals k).last w in
    let w2 : World = elim (w1.keyvals k).last [
      | some l ↦ set_keyval l (record (w1.keyvals l) { pre = (w1.keyvals k).pre }) w1
      | none ↦ link_before s (w1.keyvals k).pre none w1
    ] in
    set_keyval k (record { used = false; key = none; value = none; pre = none; last = none }) w2

unfoldable pub delete_keyval : ℕ → Parameter → ℕ → Option ℕ → M ℕ
unfolding unlink_keyval
delete_keyval fd p s none = fail keyvalue_nofound
delete_keyval fd p s (some k) = do
  modify (unlink_keyval s k)
  w ← ask
  rewrite_after_delete (file_name w fd) p

unfoldable pub delete_in_section : ℕ → Parameter → Option ℕ → M ℕ
unfolding delete_keyval keyval_of
delete_in_section fd p none = fail section_nofound
delete_in_section fd p (some s) = do k ← keyval_of s p; delete_keyval fd p s k

unfoldable pub delete_value_ofkey : ℕ → Option Parameter → M ℕ
unfolding delete_in_section section_of
delete_value_ofkey fd none = fail error_parameter
delete_value_ofkey fd (some p) =
    if bad_fd fd || is_null p.section || is_null p.key
    then fail error_parameter
    else do s ← section_of fd p; delete_in_section fd p s
