-- ===== src/Linked/Operations/Places.antt =====
-- Where the searches of v1.0.0/inifile.c find a section and a key, before and after a change.
use ini.Base.{
  All, Bool-cases, Bytes, List, Option-cases, [], ap, arith, inl, inr, length, refl, some, suc,
  zero, ℕ, ◌<◌, ◌∷◌, ◌≡◌, ◌≢◌,
}
use ini.Linked.{IniFile, IniFileNode, KeyValue, string_room}
use ini.Linked.Chars.{
  array_str, find_ini_key_value, find_key_loop, find_node_loop, key_str, name_matches, section_str,
}
use ini.Linked.Operations.{change_at, element, key_place}
use ini.Text.{c_str}

pub element-change_at {ℓ} :
    {A : Type ℓ} (i : ℕ) (f : A → A) (xs : List A) {x : A}
    → element xs i ≡ some x
    → element (change_at i f xs) i ≡ some (f x)
element-change_at i f [] h = absurd cc
element-change_at zero f (y ∷ xs) h = ground arith
element-change_at (suc i) f (y ∷ xs) h = element-change_at i f xs h

pub element-change_at-ne {ℓ} :
    {A : Type ℓ} (i j : ℕ) (f : A → A) (xs : List A)
    → i ≢ j
    → element (change_at i f xs) j ≡ element xs j
element-change_at-ne i j f [] h = refl
element-change_at-ne zero zero f (y ∷ xs) h = absurd (h refl)
element-change_at-ne zero (suc j) f (y ∷ xs) h = refl
element-change_at-ne (suc i) zero f (y ∷ xs) h = refl
element-change_at-ne (suc i) (suc j) f (y ∷ xs) h =
    element-change_at-ne i j f xs (λ e. h (ap suc e))

-- What does not touch the names keeps the places.
pub find_node_loop-change_at :
    (i : ℕ) (g : IniFileNode → IniFileNode) (ns : List IniFileNode) (name : Bytes)
    → ((n : IniFileNode) → (g n).section ≡ n.section)
    → find_node_loop (change_at i g ns) name ≡ find_node_loop ns name
unfolding find_node_loop
find_node_loop-change_at i g [] name h = refl
find_node_loop-change_at zero g (n ∷ ns) name h = rw (h n) refl
find_node_loop-change_at (suc i) g (n ∷ ns) name h =
    rw (find_node_loop-change_at i g ns name h) refl

-- A key whose array is not full: its string does not go on in the value.
abbrev pub IsShort : KeyValue → Type 0
IsShort k = length k.key < string_room

pub key_str_short : (k : KeyValue) → IsShort k → key_str k ≡ c_str k.key
unfolding array_str
key_str_short k h = ground arith

pub find_key_loop-change_at :
    (j : ℕ) (g : KeyValue → KeyValue) (ks : List KeyValue) (key : Bytes)
    → ((k : KeyValue) → (g k).key ≡ k.key)
    → All IsShort ks
    → find_key_loop (change_at j g ks) key ≡ find_key_loop ks key
unfolding find_key_loop
find_key_loop-change_at j g [] key h l = refl
find_key_loop-change_at zero g (k ∷ ks) key h l =
    let short' : IsShort (g k) = rw (h k) l.0 in
    rw (key_str_short (g k) short', key_str_short k l.0, h k) refl
find_key_loop-change_at (suc j) g (k ∷ ks) key h l =
    rw (find_key_loop-change_at j g ks key h l.1) refl

pub find_node_loop-element :
    (ns : List IniFileNode) (name : Bytes) {i : ℕ}
    → find_node_loop ns name ≡ some i
    → (n : IniFileNode) × (element ns i ≡ some n)
unfolding find_node_loop
find_node_loop-element [] name h = absurd cc
find_node_loop-element (n ∷ ns) name {i} h =
    elim (Bool-cases (name_matches n.section (section_str n) name)) [
      | inl e ↦ (n, ground arith)
      | inr e ↦ elim (Option-cases (find_node_loop ns name)) [
        | inl z ↦ absurd (ground arith)
        | inr (j, q) ↦
            let (m, p) = find_node_loop-element ns name q in
            let next : i ≡ suc j = ground arith in (m, rw next p)
      ]
    ]

pub find_key_loop-element :
    (ks : List KeyValue) (key : Bytes) {j : ℕ}
    → find_key_loop ks key ≡ some j
    → (k : KeyValue) × (element ks j ≡ some k)
unfolding find_key_loop
find_key_loop-element [] key h = absurd cc
find_key_loop-element (k ∷ ks) key {j} h = elim (Bool-cases (name_matches k.key (key_str k) key)) [
  | inl e ↦ (k, ground arith)
  | inr e ↦ elim (Option-cases (find_key_loop ks key)) [
    | inl z ↦ absurd (ground arith)
    | inr (i, q) ↦
        let (m, p) = find_key_loop-element ks key q in
        let next : j ≡ suc i = ground arith in (m, rw next p)
  ]
]

-- The node and the key at the place that a search gives.
pub key_place_parts :
    (f : IniFile) (i : ℕ) (key : Bytes) {j : ℕ}
    → key_place f i key ≡ some j
    → (n : IniFileNode) × (ks : List KeyValue) × (k : KeyValue) × (element f.nodes i ≡ some n)
      × (n.key_list ≡ some ks)
      × (find_key_loop ks key ≡ some j)
      × (element ks j ≡ some k)
unfolding find_ini_key_value
key_place_parts f i key {j} h = elim (Option-cases (element f.nodes i)) [
  | inl e ↦ absurd (ground arith)
  | inr (n, e) ↦ elim (Option-cases n.key_list) [
    | inl z ↦ absurd (ground arith)
    | inr (ks, q) ↦
        let hit : find_key_loop ks key ≡ some j = ground arith in
        let (k, there) = find_key_loop-element ks key hit in (n, ks, k, e, q, hit, there)
  ]
]
