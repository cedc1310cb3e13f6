-- ===== src/Linked/Reload.antt =====
-- What a file of v1.0.0/inifile.c is about: remarks, then sections with remarks and keys. How such
-- a document stands in the nodes, and which of them are written so that they are read again.
pub mod Lines
pub mod Whole
pub mod Files
pub mod Reopen
use ini.Base.{
  All, Bool, Bytes, List, Option, [], false, if◌then◌else◌, length, none, some, true, ℕ, ◌++◌, ◌+◌,
  ◌<◌, ◌∷◌, ◌≡◌, ◌≤◌,
}
use ini.Linked.{IniFileNode, KeyValue, new_node, string_room}
use ini.Linked.Chars.{find_key_loop, find_node_loop}
use ini.Linked.Read.{new_key_value, new_note}
use ini.Linked.Read.Contexts.{IsPlainKey, end_of_line}
use ini.Text.{newline_sign}
use ini.Text.Laws.{NoNul, Without}

-- A value that an operation set ends in a newline, one that was read does not.
pub data Item : Type 0 where
  remark : Bytes → Item
  assignment : Bytes → Bytes → Bool → Item

pub record Titled : Type 0 where
  pub title : Bytes
  pub items : List Item

pub record Document : Type 0 where
  pub remarks : List Bytes
  pub titled : List Titled

abbrev pub value_with : Bytes → Bool → Bytes
value_with v newline = if newline then v ++ end_of_line else v

abbrev pub item_of : Item → KeyValue
item_of (remark b) = new_note (b ++ end_of_line)
item_of (assignment k v newline) = new_key_value k (value_with v newline)

abbrev pub items_of : List Item → List KeyValue
items_of [] = []
items_of (x ∷ xs) = item_of x ∷ items_of xs

abbrev pub list_of : List KeyValue → Option (List KeyValue)
list_of [] = none
list_of (k ∷ ks) = some (k ∷ ks)

abbrev pub node_with : Bytes → List KeyValue → IniFileNode
node_with t ks = record { section = t; is_note = false; key_list = list_of ks }

abbrev pub titled_of : List Titled → List IniFileNode
titled_of [] = []
titled_of (t ∷ ts) = node_with t.title (items_of t.items) ∷ titled_of ts

abbrev pub remarks_of : List Bytes → List IniFileNode
remarks_of [] = []
remarks_of (b ∷ bs) = new_node (b ++ end_of_line) true ∷ remarks_of bs

abbrev pub nodes_of : Document → List IniFileNode
nodes_of d = remarks_of d.remarks ++ titled_of d.titled

-- The document as it is read: no value ends in a newline.
abbrev pub settled_items : List Item → List Item
settled_items [] = []
settled_items (remark b ∷ xs) = remark b ∷ settled_items xs
settled_items (assignment k v newline ∷ xs) = assignment k v false ∷ settled_items xs

abbrev pub settled_titled : List Titled → List Titled
settled_titled [] = []
settled_titled (t ∷ ts) = record t { items = settled_items t.items } ∷ settled_titled ts

abbrev pub settled : Document → Document
settled d = record d { titled = settled_titled d.titled }

-- A text for one line, of at most so many bytes.
pub record IsLineText (n : ℕ) (b : Bytes) : Type 0 where
  pub no_nul : NoNul b
  pub no_newline : Without newline_sign b
  pub fits : length b ≤ n

-- The line of a key and its value fits in what `fgets` reads.
abbrev pub IsReadItem : Item → Type 0
IsReadItem (remark b) = IsLineText 62 b
IsReadItem (assignment k v newline) =
    IsPlainKey k × (length k < string_room) × IsLineText string_room v × (length k + length v ≤ 125)

-- No key is taken for one before it, in the order in which they are read.
abbrev pub HasNewKeys : List KeyValue → List Item → Type 0
HasNewKeys ks [] = Unit
HasNewKeys ks (remark b ∷ xs) = HasNewKeys (ks ++ (item_of (remark b) ∷ [])) xs
HasNewKeys ks (assignment k v newline ∷ xs) =
    (find_key_loop ks k ≡ none) × HasNewKeys (ks ++ (new_key_value k v ∷ [])) xs

abbrev pub IsTitledReadable : List IniFileNode → Titled → Type 0
IsTitledReadable ns t =
    IsLineText 63 t.title
    × (find_node_loop ns t.title ≡ none)
    × All IsReadItem t.items
    × HasNewKeys [] t.items

-- And no section for one before it.
abbrev pub AreReadable : List IniFileNode → List Titled → Type 0
AreReadable ns [] = Unit
AreReadable ns (t ∷ ts) =
    IsTitledReadable ns t
    × AreReadable (ns ++ (node_with t.title (items_of (settled_items t.items)) ∷ [])) ts

pub record IsReloadable (d : Document) : Type 0 where
  pub remarks_read : All (IsLineText 62) d.remarks
  pub titled_read : AreReadable (remarks_of d.remarks) d.titled
