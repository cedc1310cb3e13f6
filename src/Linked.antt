-- ===== src/Linked.antt =====
-- The first version of the library, v1.0.0/inifile.h and v1.0.0/inifile.c: the nodes of an open
-- file, each with the list of its keys, as lists in the order of the links. Nodes/ has the links
-- themselves. A node that the code points to is its place in the list.
pub mod Chars
pub mod Read
pub mod Write
pub mod Check
pub mod Operations
pub mod Links
pub mod Reload
use ini.Base.{Bool, Bytes, List, Option, [], false, none, some, true, ℕ, ◌++◌, ◌+◌, ◌∷◌}

pub data Outcome (A : Type 0) : Type 0 where
  done : A → Outcome A
  undefined : Outcome A

infixl 5 ◌>>=◌
-- What C leaves undefined ends a run: an access out of an array, through NULL or to freed memory.
abbrev pub ◌>>=◌ : {A B : Type 0} → Outcome A → (A → Outcome B) → Outcome B
done a >>= f = f a
undefined >>= f = undefined

-- The negative values of LineType and ERRORTYPR, which is 0, and the three positive ones.
pub data LineCode : Type 0 where
  empty_list write_error repeat_node_key open_file_error too_long : LineCode
  error_type node_type key_value_type notes_type : LineCode

-- `result < 0`
abbrev pub is_negative : LineCode → Bool
is_negative error_type = false
is_negative node_type = false
is_negative key_value_type = false
is_negative notes_type = false
is_negative _ = true

pub data MethodType : Type 0 where
  init_ini_file_type get_value_of_key_type update_value_of_key_type : MethodType
  add_value_of_key_type delete_value_of_key_type delete_section_type : MethodType
  add_setction_type exit_operation_ini_file_type : MethodType

-- `char key[MAX_STRING_LEN+4]`: an array holds the bytes of the list and zeros behind them.
pub record KeyValue : Type 0 where
  pub key : Bytes
  pub value : Bytes
  pub is_note : Bool

-- `key_list` is `listkeyValueNode`, which is NULL until a key or a note is added.
pub record IniFileNode : Type 0 where
  pub section : Bytes
  pub is_note : Bool
  pub key_list : Option (List KeyValue)

-- `len` counts what was inserted. `dangling`: `head` and `tail` point to a node that was freed.
pub record IniFile : Type 0 where
  pub nodes : List IniFileNode
  pub file_name : Bytes
  pub len : ℕ
  pub dangling : Bool

-- INI_PARAMETER. A pointer may be NULL.
pub record IniParameter : Type 0 where
  pub section : Option Bytes
  pub section_len : ℕ
  pub key : Option Bytes
  pub key_len : ℕ
  pub value : Option Bytes
  pub value_len : ℕ

abbrev pub max_string_len : ℕ
max_string_len = 64

-- MAX_STRING_LEN+4
abbrev pub string_room : ℕ
string_room = 68

abbrev pub max_filename_len : ℕ
max_filename_len = 64

abbrev pub max_filline_len : ℕ
max_filline_len = 128

-- `memset(node, 0, sizeof)`, and what is then copied into `section`.
abbrev pub new_node : Bytes → Bool → IniFileNode
new_node s b = record { section = s; is_note = b; key_list = none }

abbrev pub list_ini_file_node_init : Bytes → IniFile
list_ini_file_node_init name = record { nodes = []; file_name = name; len = 0; dangling = false }

abbrev pub list_ini_file_node_insert : IniFile → IniFileNode → IniFile
list_ini_file_node_insert f n = record f { nodes = f.nodes ++ (n ∷ []); len = f.len + 1 }

-- NULL is first made an empty list, as all callers do.
abbrev pub list_key_value_node_insert : Option (List KeyValue) → KeyValue → Option (List KeyValue)
list_key_value_node_insert none k = some (k ∷ [])
list_key_value_node_insert (some ks) k = some (ks ++ (k ∷ []))

-- True for a list that is not empty.
abbrev pub list_is_empty {ℓ} : {A : Type ℓ} → List A → Bool
list_is_empty [] = false
list_is_empty (x ∷ xs) = true

abbrev pub list_ini_file_node_is_empty : IniFile → Bool
list_ini_file_node_is_empty f = list_is_empty f.nodes
