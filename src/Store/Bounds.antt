-- ===== src/Store/Bounds.antt =====
-- The pool when a line is stored.
use ini.Base.{Bytes, Option, Option-cases, if◌then◌else◌, inl, inr, none, some, ℕ, ◌==◌, ◌||◌}
use ini.Memory.{
  M, fail, format_error, keyvalue_array_len, max_inifile_section_num, max_operation_file_num,
}
use ini.Memory.Preserves.{Preserves, Preserves-fail, Preserves-if, Preserves-pure, preserves_rules}
use ini.Pool.Bounds.{PoolIn, storage_char_memory-InPool}
use ini.Slots.{first_unused, get_index_ini_file, get_index_ini_keyvalue, get_index_ini_section}
use ini.Slots.Laws.{file_used, keyval_used, section_used}
use ini.Store.{
  comma_first, find_inifile_section, find_keyvalue_unsect, init_line_key_val, init_line_section,
  store_key_val,
}
use ini.Text.{comma_sign, equality_sign, str_frist_constchar}

pub find_inifile_section-InPool :
    (p : Option ℕ) (s : Option Bytes) (n : ℕ) → Preserves PoolIn (find_inifile_section p s n)
unfolding find_inifile_section
find_inifile_section-InPool p none n = Preserves-pure none
find_inifile_section-InPool none (some s) n = Preserves-pure none
find_inifile_section-InPool (some p) (some s) n = search (preserves_rules) depth 20

pub find_keyvalue_unsect-InPool :
    (p : Option ℕ) (s : Option Bytes) (n : ℕ) → Preserves PoolIn (find_keyvalue_unsect p s n)
unfolding find_keyvalue_unsect
find_keyvalue_unsect-InPool p none n = Preserves-pure none
find_keyvalue_unsect-InPool none (some s) n = Preserves-pure none
find_keyvalue_unsect-InPool (some p) (some s) n = search (preserves_rules) depth 20

get_index_ini_section-InPool : Preserves PoolIn get_index_ini_section
unfolding get_index_ini_section
get_index_ini_section-InPool = record {
  at = λ w v. elim (Option-cases (first_unused (section_used w) max_inifile_section_num 0)) [
    | inl e ↦ rw (e, get_index_ini_section) v
    | inr (i, e) ↦ rw (e, get_index_ini_section) v
  ];
}

get_index_ini_keyvalue-InPool : Preserves PoolIn get_index_ini_keyvalue
unfolding get_index_ini_keyvalue
get_index_ini_keyvalue-InPool = record {
  at = λ w v. elim (Option-cases (first_unused (keyval_used w) keyvalue_array_len 0)) [
    | inl e ↦ rw (e, get_index_ini_keyvalue) v
    | inr (i, e) ↦ rw (e, get_index_ini_keyvalue) v
  ];
}

pub get_index_ini_file-InPool : Preserves PoolIn get_index_ini_file
unfolding get_index_ini_file
get_index_ini_file-InPool = record {
  at = λ w v. elim (Option-cases (first_unused (file_used w) max_operation_file_num 0)) [
    | inl e ↦ rw (e, get_index_ini_file) v
    | inr (i, e) ↦ rw (e, get_index_ini_file) v
  ];
}

store_key_val-InPool : (l : Bytes) (e : ℕ) (c : Option ℕ) → Preserves PoolIn (store_key_val l e c)
unfolding store_key_val
store_key_val-InPool l e c =
    search (preserves_rules, get_index_ini_keyvalue-InPool, storage_char_memory-InPool) depth 30

pub init_line_key_val-InPool : (l : Bytes) → Preserves PoolIn (init_line_key_val l)
unfolding init_line_key_val
init_line_key_val-InPool l = by_equality (str_frist_constchar l equality_sign)
  where
    by_equality :
        (o : Option ℕ)
        → Preserves PoolIn (elim o as (λ _. M ℕ) [
          | none ↦ fail format_error
          | some e ↦
              let comma = str_frist_constchar l comma_sign in
              if comma_first comma e || e == 0 then fail format_error else store_key_val l e comma
        ])
    by_equality none = Preserves-fail ℕ format_error
    by_equality (some e) =
        Preserves-if (comma_first (str_frist_constchar l comma_sign) e || e == 0)
          (Preserves-fail ℕ format_error)
          (store_key_val-InPool l e (str_frist_constchar l comma_sign))

pub init_line_section-InPool : (l : Bytes) → Preserves PoolIn (init_line_section l)
unfolding init_line_section
init_line_section-InPool l =
    search (preserves_rules, get_index_ini_section-InPool, storage_char_memory-InPool) depth 30
