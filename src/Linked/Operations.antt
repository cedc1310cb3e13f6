-- ===== src/Linked/Operations.antt =====
-- The operations of v1.0.0/inifile.h: `getValueOfKey`, `updateValueOfKey`, `addValueOfKey`,
-- `deleteValueOfKey`, `deleteSection`, `addSetction` and `exitOperationIniFile`.
pub mod Parts
pub mod Rules
pub mod Synced
pub mod Only
pub mod Traces
pub mod Refused
pub mod AddGet
pub mod UpdateGet
pub mod Places
use ini.Base.{
  Bool, Bytes, List, Option, [], drop, false, if◌then◌else◌, length, none, some, suc, true, zero, ℕ,
  ◌++◌, ◌∷◌,
}
use ini.Linked.{
  IniFile, IniFileNode, IniParameter, KeyValue, LineCode, MethodType, Outcome, add_setction_type,
  add_value_of_key_type, delete_section_type, delete_value_of_key_type, done, get_value_of_key_type,
  list_ini_file_node_insert, list_key_value_node_insert, max_string_len, new_node, undefined,
  update_value_of_key_type, ◌>>=◌,
}
use ini.Linked.Chars.{
  copy_begin_end, copy_bytes, delete_spacetab_begin, find_ini_file_node, find_ini_key_value,
  value_str,
}
use ini.Linked.Check.{ini_parameter_check}
use ini.Linked.Read.{Files, new_key_value}
use ini.Linked.Write.{Written, keys_of, update_ini_file}
use ini.Memory.{nodes, ◌>>◌}
use ini.Text.{c_str, newline_sign, space_sign, tab_sign}

-- The pointer that the caller holds, the files, and what the calls of `write` to come will do.
pub record System : Type 0 where
  pub ini : Option IniFile
  pub files : Files
  pub writes : List Written

-- The `int` returned: 0, -1, -2 or -3.
pub data Reply : Type 0 where
  reply_0 reply_1 reply_2 reply_3 : Reply

-- A pointer that the check found not to be NULL.
abbrev pub chars : Option Bytes → Bytes
chars none = []
chars (some s) = s

-- The element at a place, and the list with it changed or taken out.
abbrev pub element {ℓ} : {A : Type ℓ} → List A → ℕ → Option A
element [] i = none
element (x ∷ xs) zero = some x
element (x ∷ xs) (suc i) = element xs i

abbrev pub change_at {ℓ} : {A : Type ℓ} → ℕ → (A → A) → List A → List A
change_at i f [] = []
change_at zero f (x ∷ xs) = f x ∷ xs
change_at (suc i) f (x ∷ xs) = x ∷ change_at i f xs

abbrev pub remove_at {ℓ} : {A : Type ℓ} → ℕ → List A → List A
remove_at i [] = []
remove_at zero (x ∷ xs) = xs
remove_at (suc i) (x ∷ xs) = x ∷ remove_at i xs

-- `memset(a, 0, MAX_STRING_LEN)`, which leaves the last four bytes.
abbrev pub cleared : Bytes → Bytes
cleared a = copy_bytes max_string_len [] ++ drop max_string_len a

-- A blank, the value and a newline, over what the array holds.
abbrev pub value_bytes : IniParameter → Bytes
value_bytes p = space_sign ∷ (copy_bytes p.value_len (chars p.value) ++ (newline_sign ∷ []))

unfoldable pub new_value : IniParameter → Bytes → Bytes
unfolding copy_bytes
new_value p old = value_bytes p ++ drop (length (value_bytes p)) (cleared old)

unfoldable pub new_key : IniParameter → KeyValue
unfolding copy_bytes
new_key p = new_key_value (copy_bytes p.key_len (chars p.key) ++ (tab_sign ∷ [])) (value_bytes p)

abbrev pub change_list :
    (List KeyValue → List KeyValue) → Option (List KeyValue) → Option (List KeyValue)
change_list f none = none
change_list f (some ks) = some (f ks)

abbrev pub change_keys : (List KeyValue → List KeyValue) → IniFileNode → IniFileNode
change_keys f n = record n { key_list = change_list f n.key_list }

unfoldable pub set_value : IniParameter → KeyValue → KeyValue
unfolding new_value
set_value p k = record k { value = new_value p k.value }

abbrev pub insert_key : KeyValue → IniFileNode → IniFileNode
insert_key k n = record n { key_list = list_key_value_node_insert n.key_list k }

abbrev pub change_node : ℕ → (IniFileNode → IniFileNode) → IniFile → IniFile
change_node i f r = record r { nodes = change_at i f r.nodes }

abbrev pub after_write : System → IniFile → Files × List Written × LineCode → Reply × System
after_write s f r = (reply_0, record s { ini = some f; files = r.0; writes = r.1 })

-- `updateIniFile(p_inifile); return 0;`: what it returns is not looked at.
unfoldable pub write_back : System → IniFile → Outcome (Reply × System)
unfolding update_ini_file
write_back s f = do r ← update_ini_file f s.files s.writes; done (after_write s f r)

-- The key of a node in the list.
abbrev pub key_place : IniFile → ℕ → Bytes → Option ℕ
key_place f i key = elim (element f.nodes i) [ none ↦ none | some n ↦ find_ini_key_value n key ]

-- The two searches, with what to do when a section or a key is not there.
abbrev pub with_section :
    System → IniFile → IniParameter → (ℕ → Outcome (Reply × System)) → Outcome (Reply × System)
with_section s f p k = elim (find_ini_file_node f (chars p.section)) [
  | none ↦ done (reply_2, s)
  | some i ↦ k i
]

abbrev pub with_key :
    System → IniFile → IniParameter → ℕ → (ℕ → Outcome (Reply × System)) → Outcome (Reply × System)
with_key s f p i k = elim (key_place f i (chars p.key)) [ none ↦ done (reply_3, s) | some j ↦ k j ]

abbrev pub or_reply_1 : System → Bool → Outcome (Reply × System) → Outcome (Reply × System)
or_reply_1 s good o = if good then o else done (reply_1, s)

-- `!p_inifile || !ini_parameter_check(parameter, type)` returns -1.
unfoldable pub checked :
    System
    → IniParameter
    → MethodType
    → (IniFile → Outcome (Reply × System))
    → Outcome (Reply × System)
unfolding ini_parameter_check
checked s p type k = elim s.ini [
  | none ↦ done (reply_1, s)
  | some f ↦ (do good ← ini_parameter_check p type; or_reply_1 s good (k f))
]

-- The value of the key at a place, with the blanks before it left out.
abbrev pub value_at : IniFile → ℕ → ℕ → Option Bytes
value_at f i j = elim (element f.nodes i) [
  | none ↦ none
  | some n ↦ elim (element (keys_of n.key_list) j) [
    | none ↦ none
    | some k ↦ delete_spacetab_begin (value_str k)
  ]
]

abbrev pub found_value : IniFile → IniParameter → Option ℕ → Option Bytes
found_value f p none = none
found_value f p (some i) = elim (key_place f i (chars p.key)) [
  | none ↦ none
  | some j ↦ value_at f i j
]

unfoldable pub get_value_of_key : Option IniFile → IniParameter → Outcome (Option Bytes)
unfolding ini_parameter_check find_ini_file_node find_ini_key_value delete_spacetab_begin c_str
get_value_of_key none p = done none
get_value_of_key (some f) p = do
  good ← ini_parameter_check p get_value_of_key_type
  if good then done (found_value f p (find_ini_file_node f (chars p.section))) else done none

unfoldable pub update_value_of_key : System → IniParameter → Outcome (Reply × System)
unfolding checked find_ini_file_node find_ini_key_value set_value write_back
update_value_of_key s p = checked s p update_value_of_key_type (λ f. with_section s f p (λ i.
    with_key s f p i
      (λ j. write_back s (change_node i (change_keys (change_at j (set_value p))) f))))

unfoldable pub add_value_of_key : System → IniParameter → Outcome (Reply × System)
unfolding checked find_ini_file_node find_ini_key_value new_key write_back
add_value_of_key s p = checked s p add_value_of_key_type (λ f. with_section s f p (λ i.
    elim (key_place f i (chars p.key)) [
      | some j ↦ done (reply_3, s)
      | none ↦ write_back s (change_node i (insert_key (new_key p)) f)
    ]))

unfoldable pub delete_value_of_key : System → IniParameter → Outcome (Reply × System)
unfolding checked find_ini_file_node find_ini_key_value write_back
delete_value_of_key s p = checked s p delete_value_of_key_type (λ f.
    with_section s f p
      (λ i. with_key s f p i (λ j. write_back s (change_node i (change_keys (remove_at j)) f))))

-- The only node is freed, and `head` and `tail` go on pointing to it.
unfoldable pub list_ini_file_node_delete : IniFile → ℕ → IniFile
list_ini_file_node_delete f i = elim f.nodes [
  | [] ↦ f
  | n ∷ ns ↦ elim ns [
    | [] ↦ record f { dangling = true }
    | m ∷ ms ↦ record f { nodes = remove_at i f.nodes }
  ]
]

unfoldable pub delete_section_of : System → IniParameter → Outcome (Reply × System)
unfolding checked find_ini_file_node list_ini_file_node_delete write_back
delete_section_of s p =
    checked s p delete_section_type
      (λ f. with_section s f p (λ i. write_back s (list_ini_file_node_delete f i)))

-- The second search, for the name as it is copied.
abbrev pub insert_unless : System → IniFile → Bytes → Option ℕ → Outcome (Reply × System)
insert_unless s f name (some i) = done (reply_1, s)
insert_unless s f name none = write_back s (list_ini_file_node_insert f (new_node name false))

-- The first, for the name as it is given.
abbrev pub add_unless : System → IniParameter → IniFile → Option ℕ → Outcome (Reply × System)
add_unless s p f (some i) = done (reply_2, s)
add_unless s p f none = do
  name ← copy_begin_end (chars p.section) 0 p.section_len
  insert_unless s f name (find_ini_file_node f name)

unfoldable pub add_setction : System → IniParameter → Outcome (Reply × System)
unfolding checked find_ini_file_node copy_begin_end write_back
add_setction s p =
    checked s p add_setction_type (λ f. add_unless s p f (find_ini_file_node f (chars p.section)))

-- With a dangling list the node that it points to is freed again.
unfoldable pub exit_operation_ini_file : System → Outcome (Reply × System)
exit_operation_ini_file s = elim s.ini [
  | none ↦ done (reply_1, s)
  | some f ↦ if f.dangling then undefined else done (reply_0, record s { ini = none })
]
