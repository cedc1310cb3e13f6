-- ===== src/Tool/Laws.antt =====
-- What the string helpers of module_function/frame_tool.c find.
use ini.Base.{
  All, Bool-cases, Bytes, List, Option, [], ap, arith, false, inl, inr, length, none, refl, some,
  true, ℕ, ◌++◌, ◌+◌, ◌==◌, ◌∷◌, ◌≡◌, ◌≢◌, ◌≤◌, ◌⊎◌,
}
use ini.Text.{Sign, above, below, c_str, memcmp, same}
use ini.Tool.{
  KeyValueNode, add_keyvalue_after_head, find_value_after_head, frame_strlen,
  framestr_isall_digital, is_digit, is_sign, isall_loop,
}

abbrev pub Digits : Bytes → Type 0
Digits = All (λ c. is_digit c ≡ true)

Digits-isall_loop : (s : Bytes) (flag : ℕ) → Digits s → isall_loop s flag ≡ flag + length s
unfolding isall_loop
Digits-isall_loop [] flag h = omega arith
Digits-isall_loop (c ∷ []) flag h = ground arith
Digits-isall_loop (c ∷ d ∷ s) flag h = ground (arith, Digits-isall_loop (d ∷ s) (flag + 1) h.1)

-- Digits, perhaps with a sign before them.
abbrev pub IsNumber : Bytes → Type 0
IsNumber [] = ⊥
IsNumber (c ∷ s) = ((is_digit c ≡ true) ⊎ ((is_sign c ≡ true) × (1 ≤ length s))) × Digits s

isall_digital_lem : (s : Bytes) → IsNumber s → framestr_isall_digital s ≡ length s
unfolding framestr_isall_digital isall_loop
isall_digital_lem [] h = absurd h
isall_digital_lem (c ∷ s) (inl d, h) = omega (arith, Digits-isall_loop (c ∷ s) 0 (d, h))
isall_digital_lem (c ∷ []) (inr (d, l), h) = absurd (omega arith)
isall_digital_lem (c ∷ d ∷ s) (inr (e, l), h) = ground (arith, Digits-isall_loop s 2 h.1)

isall_loop-Digits : (s : Bytes) (flag : ℕ) → 1 ≤ flag → isall_loop s flag ≢ 0 → Digits (c_str s)
unfolding isall_loop c_str
isall_loop-Digits [] flag l h = tt
isall_loop-Digits (c ∷ []) flag l h = elim (Bool-cases (c == 0)) [
  | inl e ↦ rw e tt
  | inr e ↦ rw e (ground arith, tt)
]
isall_loop-Digits (c ∷ d ∷ s) flag l h = elim (Bool-cases (c == 0)) [
  | inl e ↦ rw e tt
  | inr e ↦
      let digit : is_digit c ≡ true = ground arith in
      let rest : isall_loop (d ∷ s) (flag + 1) ≢ 0 = ground arith in
      rw e (digit, isall_loop-Digits (d ∷ s) (flag + 1) (omega arith) rest)
]

isall_digital-IsNumber : (s : Bytes) → framestr_isall_digital s ≢ 0 → IsNumber (c_str s)
unfolding framestr_isall_digital isall_loop c_str
isall_digital-IsNumber [] h = absurd (h refl)
isall_digital-IsNumber (c ∷ []) h = elim (Bool-cases (c == 0)) [
  | inl e ↦ absurd (ground arith)
  | inr e ↦ rw e (inl (ground arith), tt)
]
isall_digital-IsNumber (c ∷ d ∷ s) h = elim (Bool-cases (c == 0)) [
  | inl e ↦ absurd (ground arith)
  | inr e ↦ elim (Bool-cases (is_sign c)) [
    | inl f ↦
        let digit : is_digit d ≡ true = ground arith in
        let full : (d == 0) ≡ false = ground arith in
        let rest : isall_loop s 2 ≢ 0 = ground arith in
        rw (e, full) (inr (f, omega arith), (digit, isall_loop-Digits s 2 (omega arith) rest))
    | inr f ↦
        let digit : is_digit c ≡ true = ground arith in
        let rest : isall_loop (d ∷ s) 1 ≢ 0 = ground arith in
        rw e (inl digit, isall_loop-Digits (d ∷ s) 1 (omega arith) rest)
  ]
]

-- A string of digits, perhaps with a sign before them, gives its length; and if the result is not
-- 0 the string, up to its NUL, is one.
pub framestr_isall_digital-IsNumber :
    (s : Bytes)
    → (IsNumber s → framestr_isall_digital s ≡ length s)
      × (framestr_isall_digital s ≢ 0 → IsNumber (c_str s))
framestr_isall_digital-IsNumber s = (isall_digital_lem s, isall_digital-IsNumber s)

frame_strlen-c_str : (s : Bytes) → frame_strlen s ≡ length (c_str s)
unfolding frame_strlen c_str
frame_strlen-c_str [] = refl
frame_strlen-c_str (c ∷ s) = ground (arith, frame_strlen-c_str s)

-- Strings of the same length that `memcmp` takes for the same are, and it does so with the same.
memcmp-c_str :
    (s t : Bytes)
    → length (c_str s) ≡ length (c_str t)
    → memcmp (length (c_str t)) s t ≡ same
    → c_str s ≡ c_str t
unfolding memcmp c_str
memcmp-c_str [] [] l h = refl
memcmp-c_str [] (y ∷ t) l h = ground arith
memcmp-c_str (x ∷ s) [] l h = ground arith
memcmp-c_str (x ∷ s) (y ∷ t) l h = ground (arith, memcmp-c_str s t)

c_str-memcmp : (s t : Bytes) → c_str s ≡ c_str t → memcmp (length (c_str t)) s t ≡ same
unfolding memcmp c_str
c_str-memcmp s [] h = refl
c_str-memcmp [] (y ∷ t) h = elim (Bool-cases (y == 0)) [
  | inl e ↦ rw e refl
  | inr e ↦ absurd (ground arith)
]
c_str-memcmp (x ∷ s) (y ∷ t) h = ground (arith, c_str-memcmp s t)

-- The node has the key, as C strings are compared.
abbrev pub HasKey : Bytes → KeyValueNode → Type 0
HasKey key node = c_str node.key ≡ c_str key

-- The value of the first node with the key, or NULL where none has it.
abbrev pub FindsValue : Bytes → List KeyValueNode → Option Bytes → Type 0
FindsValue key xs (some v) =
    (before after : List KeyValueNode) × (node : KeyValueNode) × (xs ≡ before ++ (node ∷ after))
    × HasKey key node
    × (v ≡ node.value)
    × All (λ n. ¬ HasKey key n) before
FindsValue key xs none = All (λ n. ¬ HasKey key n) xs

module _ (key : Bytes) (x : KeyValueNode) (xs : List KeyValueNode) where
  FindsValue-cons :
      (o : Option Bytes) → ¬ HasKey key x → FindsValue key xs o → FindsValue key (x ∷ xs) o
  FindsValue-cons none n f = (n, f)
  FindsValue-cons (some v) n (before, after, node, e, named, same_value, others) =
      (x ∷ before, after, node, ap (◌∷◌ x) e, named, same_value, (n, others))

  other_bytes : memcmp (frame_strlen key) x.key key ≢ same → ¬ HasKey key x
  other_bytes n h = n (rw (frame_strlen-c_str key) (c_str-memcmp x.key key h))

  FindsValue-sign :
      (g : Sign) (o : Option Bytes)
      → memcmp (frame_strlen key) x.key key ≡ g
      → length (c_str x.key) ≡ length (c_str key)
      → FindsValue key xs o
      → FindsValue key (x ∷ xs) (elim g as (λ _. Option Bytes) [ same ↦ some x.value | _ ↦ o ])
  FindsValue-sign same o e l f =
      ([], xs, x, refl, memcmp-c_str x.key key l (rw (← frame_strlen-c_str key) e), refl, tt)
  FindsValue-sign below o e l f = FindsValue-cons o (other_bytes (λ p. ground arith)) f
  FindsValue-sign above o e l f = FindsValue-cons o (other_bytes (λ p. ground arith)) f

find_value-FindsValue :
    (xs : List KeyValueNode) (key : Bytes) → FindsValue key xs (find_value_after_head xs key)
unfolding find_value_after_head
find_value-FindsValue [] key = tt
find_value-FindsValue (x ∷ xs) key =
    let found = find_value-FindsValue xs key in
    let long_x = frame_strlen-c_str x.key in
    let long = frame_strlen-c_str key in
    elim (Bool-cases (frame_strlen x.key == frame_strlen key)) [
      | inl e ↦
          let same_length : length (c_str x.key) ≡ length (c_str key) = ground arith in
          rw e (
            FindsValue-sign key x xs (memcmp (frame_strlen key) x.key key) _ refl same_length found)
      | inr e ↦ rw e (FindsValue-cons key x xs _ (λ h. ground (arith, ap length h)) found)
    ]

add_keyvalue-append :
    (xs : List KeyValueNode) (node : KeyValueNode)
    → add_keyvalue_after_head xs node ≡ xs ++ (node ∷ [])
unfolding add_keyvalue_after_head
add_keyvalue-append [] node = refl
add_keyvalue-append (x ∷ xs) node = ap (◌∷◌ x) (add_keyvalue-append xs node)

-- Behind an addition the search gives the value of the first node whose key is the same C string as
-- the one that is looked for, in the list with the new node at its end; or NULL, where no node of
-- it has that key.
pub find_value-add :
    (xs : List KeyValueNode) (node : KeyValueNode) (key : Bytes)
    → FindsValue key
        (xs ++ (node ∷ []))
        (find_value_after_head (add_keyvalue_after_head xs node) key)
find_value-add xs node key =
    rw (add_keyvalue-append xs node) (find_value-FindsValue (xs ++ (node ∷ [])) key)
