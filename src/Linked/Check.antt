-- ===== src/Linked/Check.antt =====
-- `ini_parameter_check` of v1.0.0/inifile.c. A length below 0 is refused as 0 is; the two types
-- that do not look at `key_len` are given one that is not below 0.
pub mod Laws
use ini.Base.{Bool, Bytes, Option, false, if◌then◌else◌, ltb, none, some, true, ℕ, ◌==◌, ◌||◌}
use ini.Linked.{
  IniParameter, MethodType, Outcome, add_setction_type, add_value_of_key_type, delete_section_type,
  delete_value_of_key_type, done, exit_operation_ini_file_type, get_value_of_key_type,
  init_ini_file_type, max_string_len, undefined, update_value_of_key_type, ◌>>=◌,
}
use ini.Text.{char_at}

-- `*(p + len) != '\0'` returns false.
abbrev pub ends_at : Option Bytes → ℕ → Outcome Bool
ends_at none len = undefined
ends_at (some s) len = done (char_at s len == 0)

abbrev pub and_ends : Bool → Option Bytes → ℕ → Outcome Bool
and_ends before s len = if before then ends_at s len else done false

abbrev pub null_ptr : Option Bytes → Bool
null_ptr none = true
null_ptr (some s) = false

-- `len <= 0 || len > MAX_STRING_LEN`
abbrev pub bad_len : ℕ → Bool
bad_len len = len == 0 || ltb max_string_len len

abbrev pub check_section : IniParameter → Outcome Bool
check_section p = and_ends true p.section p.section_len

abbrev pub check_section_key : IniParameter → Outcome Bool
check_section_key p = do a ← check_section p; and_ends a p.key p.key_len

abbrev pub check_all : IniParameter → Outcome Bool
check_all p = do a ← check_section_key p; and_ends a p.value p.value_len

abbrev pub section_bad : IniParameter → Bool
section_bad p = null_ptr p.section || bad_len p.section_len

abbrev pub key_bad : IniParameter → Bool
key_bad p = section_bad p || null_ptr p.key || bad_len p.key_len

abbrev pub value_bad : IniParameter → Bool
value_bad p = key_bad p || null_ptr p.value || bad_len p.value_len

-- The last two types look at the byte behind `key` too, whether `key` is NULL or not.
unfoldable pub ini_parameter_check : IniParameter → MethodType → Outcome Bool
ini_parameter_check p get_value_of_key_type = if key_bad p then done false else check_section_key p
ini_parameter_check p update_value_of_key_type = if value_bad p then done false else check_all p
ini_parameter_check p add_value_of_key_type = if value_bad p then done false else check_all p
ini_parameter_check p delete_value_of_key_type =
    if key_bad p then done false else check_section_key p
ini_parameter_check p delete_section_type =
    if section_bad p then done false else check_section_key p
ini_parameter_check p add_setction_type = if section_bad p then done false else check_section_key p
ini_parameter_check p init_ini_file_type = done false
ini_parameter_check p exit_operation_ini_file_type = done false
