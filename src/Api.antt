-- ===== src/Api.antt =====
-- The operations of v2.0.0/inifile.h on an open file. A descriptor below 0 takes the branch of one
-- that is too large. Each operation runs under the lock of its file, as one step here.
pub mod Values
pub mod Sections
pub mod Files
pub mod Bounds
pub mod Appends
pub mod Removes
use ini.Base.{Bool, Bytes, Option, false, leb, none, some, true, ℕ}
use ini.Memory.{M, World, ask, max_operation_file_num, ◌>>=◌, ◌>>◌}
use ini.Pool.{text_of}
use ini.Rewrite.{Parameter}
use ini.Store.{find_inifile_section, find_keyvalue_unsect}

-- `ini_fd < 0 || ini_fd >= MAX_OPERATION_FILE_NUM`
abbrev pub bad_fd : ℕ → Bool
bad_fd fd = leb max_operation_file_num fd

abbrev pub is_null {ℓ} : {A : Type ℓ} → Option A → Bool
is_null none = true
is_null (some a) = false

-- The name under which the file of a descriptor was opened.
abbrev pub file_name : World → ℕ → Bytes
file_name w fd = text_of w.mem (w.files fd).name

-- The section of a parameter in a file.
unfoldable pub section_of : ℕ → Parameter → M (Option ℕ)
section_of fd p = do w ← ask; find_inifile_section (w.files fd).head p.section p.section_len

-- The key of a parameter in a section.
unfoldable pub keyval_of : ℕ → Parameter → M (Option ℕ)
keyval_of s p = do w ← ask; find_keyvalue_unsect (w.sections s).head p.key p.key_len
