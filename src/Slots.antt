-- ===== src/Slots.antt =====
-- The three arrays of v2.0.0/inifile.c hand out nodes: the first that is not in use.
pub mod Laws
use ini.Base.{Bool, Option, false, if◌then◌else◌, none, some, suc, true, zero, ℕ, ◌+◌}
use ini.Memory.{
  M, World, err, keyvalue_array_len, max_inifile_section_num, max_operation_file_num, num_out_array,
  ok, set_file, set_keyval, set_section,
}

-- `n` nodes are left, from `i` on.
unfoldable pub first_unused : (ℕ → Bool) → ℕ → ℕ → Option ℕ
first_unused used zero i = none
first_unused used (suc n) i =
    let rest = first_unused used n (i + 1) in if used i then rest else some i

unfoldable pub get_index_ini_file : M ℕ
unfolding first_unused
get_index_ini_file w = elim (first_unused (λ i. (w.files i).used) max_operation_file_num 0) [
  | none ↦ (err num_out_array, w)
  | some i ↦ (ok i, set_file i (record (w.files i) { used = true }) w)
]

unfoldable pub get_index_ini_section : M ℕ
unfolding first_unused
get_index_ini_section w = elim (first_unused (λ i. (w.sections i).used) max_inifile_section_num 0) [
  | none ↦ (err num_out_array, w)
  | some i ↦ (ok i, set_section i (record (w.sections i) { used = true }) w)
]

unfoldable pub get_index_ini_keyvalue : M ℕ
unfolding first_unused
get_index_ini_keyvalue w = elim (first_unused (λ i. (w.keyvals i).used) keyvalue_array_len 0) [
  | none ↦ (err num_out_array, w)
  | some i ↦ (ok i, set_keyval i (record (w.keyvals i) { used = true }) w)
]

-- `p_section->flag = STRUCT_NODE_UN_USED`, and so for a key: all else is left as it is.
abbrev pub release_section : ℕ → World → World
release_section i w = set_section i (record (w.sections i) { used = false }) w

abbrev pub release_keyval : ℕ → World → World
release_keyval i w = set_keyval i (record (w.keyvals i) { used = false }) w
