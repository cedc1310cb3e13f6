-- ===== src/Store/Find.antt =====
-- What the two searches find.
use ini.Base.{
  All, Bool-cases, Bytes, List, Option, Option-cases, [], ap, arith, drop, false, inl, inr, length,
  none, refl, some, subst, suc, sym, take, true, zero, ℕ, ◌++◌, ◌<◌, ◌↔◌, ◌∷◌, ◌≡◌, ◌≤◌,
}
use ini.Memory.{
  Result, World, err, fault, keyvalue_array_len, max_inifile_section_num, nodes, ok, ◌>>=◌,
}
use ini.Pool.Laws.{text_of-NoNul}
use ini.Store.{
  find_inifile_section, find_keyvalue_unsect, find_node, key_text, keyval_links, length_or,
  same_name, section_links, section_text,
}
use ini.Text.{memcmp, same}
use ini.Text.Laws.{NoNul}

-- A list in memory: from `p` on the links lead through `xs` and end with NULL.
abbrev pub IsChain : (ℕ → Option ℕ) → Option ℕ → List ℕ → Type 0
IsChain last p [] = p ≡ none
IsChain last p (x ∷ xs) = (p ≡ some x) × IsChain last (last x) xs

-- With fuel above its length a list is walked to its end.
pub nodes-IsChain :
    (last : ℕ → Option ℕ) (n : ℕ) (p : Option ℕ) (xs : List ℕ)
    → IsChain last p xs
    → length xs < n
    → nodes last n p ≡ some xs
unfolding nodes
nodes-IsChain last zero p xs c l = absurd (omega arith)
nodes-IsChain last (suc n) p [] c l = rw c
nodes-IsChain last (suc n) p (x ∷ xs) c l =
    rw c.0 (rw (nodes-IsChain last n (last x) xs c.1 (omega arith)))

-- What is walked is a list.
pub IsChain-nodes :
    (last : ℕ → Option ℕ) (n : ℕ) (p : Option ℕ) (xs : List ℕ)
    → nodes last n p ≡ some xs
    → IsChain last p xs × (length xs < n)
unfolding nodes
IsChain-nodes last zero p xs h = absurd (ground arith)
IsChain-nodes last (suc n) none [] h = (refl, omega arith)
IsChain-nodes last (suc n) none (y ∷ ys) h = absurd (ground arith)
IsChain-nodes last (suc n) (some x) [] h = absurd (elim (Option-cases (nodes last n (last x))) [
  | inl e ↦ ground arith
  | inr (zs, e) ↦ ground arith
])
IsChain-nodes last (suc n) (some x) (y ∷ ys) h = elim (Option-cases (nodes last n (last x))) [
  | inl e ↦ absurd (ground arith)
  | inr (zs, e) ↦
      let same_head : x ≡ y = ground arith in
      let same_tail : zs ≡ ys = ground arith in
      let (c, l) = IsChain-nodes last n (last x) ys (rw (← same_tail) e) in
      ((ap some same_head, rw (← same_head) c), omega arith)
]

memcmp_refl : (n : ℕ) (s : Bytes) → memcmp n s s ≡ same
unfolding memcmp
memcmp_refl zero s = refl
memcmp_refl (suc n) s = ground (arith, memcmp_refl n (drop 1 s))

memcmp-take : (s t : Bytes) → memcmp (length s) s t ≡ same → NoNul s → s ≡ take (length s) t
unfolding memcmp
memcmp-take [] t h k = refl
memcmp-take (x ∷ s) [] h k = absurd (ground (arith, k.0))
memcmp-take (x ∷ s) (y ∷ t) h k = ground (arith, memcmp-take s t)

take-memcmp : (s t : Bytes) → s ≡ take (length s) t → memcmp (length s) s t ≡ same
unfolding memcmp
take-memcmp [] t h = refl
take-memcmp (x ∷ s) [] h = absurd (ground arith)
take-memcmp (x ∷ s) (y ∷ t) h = ground (arith, take-memcmp s t)

-- `c_len == len` and `memcmp`: the name is the first `n` bytes of the text given.
pub same_name_iff :
    (s t : Bytes) (n : ℕ) → NoNul s → (same_name s t n ≡ true) ↔ ((length s ≡ n) × (s ≡ take n t))
unfolding same_name
same_name_iff s t n h = (to, from)
  where
    to : same_name s t n ≡ true → (length s ≡ n) × (s ≡ take n t)
    to e =
        let l : length s ≡ n = ground arith in
        (l, rw (← l) (memcmp-take s t (rw l (ground arith)) h))

    from : (length s ≡ n) × (s ≡ take n t) → same_name s t n ≡ true
    from (l, e) = ground (arith, rw l at (take-memcmp s t (rw l e)))

-- The text of node `i` is the name given: its first `n` bytes, and no more.
abbrev pub Names : (ℕ → Bytes) → Bytes → ℕ → ℕ → Type 0
Names label name n i = (length (label i) ≡ n) × (label i ≡ take n name)

-- The first node of the list with the name, or none of them has it.
abbrev pub FindsFirst : (ℕ → Bytes) → Bytes → ℕ → List ℕ → Option ℕ → Type 0
FindsFirst label name n xs (some i) =
    (before after : List ℕ) × (xs ≡ before ++ (i ∷ after))
    × Names label name n i
    × All (λ j. ¬ Names label name n j) before
FindsFirst label name n xs none = All (λ j. ¬ Names label name n j) xs

module _ (label : ℕ → Bytes) (name : Bytes) (n : ℕ) (clean : (i : ℕ) → NoNul (label i)) where
  not_named : (i : ℕ) → same_name (label i) name n ≡ false → ¬ Names label name n i
  not_named i e h = let t = (same_name_iff (label i) name n (clean i)).1 h in ground arith

  FindsFirst-cons :
      (i : ℕ) (xs : List ℕ) (o : Option ℕ)
      → same_name (label i) name n ≡ false
      → FindsFirst label name n xs o
      → FindsFirst label name n (i ∷ xs) o
  FindsFirst-cons i xs none e h = (not_named i e, h)
  FindsFirst-cons i xs (some j) e (before, after, splits, named, others) =
      (i ∷ before, after, ap (◌∷◌ i) splits, named, (not_named i e, others))

  pub find_node-FindsFirst : (xs : List ℕ) → FindsFirst label name n xs (find_node label name n xs)
  unfolding find_node
  find_node-FindsFirst [] = tt
  find_node-FindsFirst (i ∷ xs) = elim (Bool-cases (same_name (label i) name n)) [
    | inl e ↦ rw (e, find_node) ([], xs, refl, (same_name_iff (label i) name n (clean i)).0 e, tt)
    | inr e ↦ rw (e, find_node) (FindsFirst-cons i xs _ e (find_node-FindsFirst xs))
  ]

-- A search on a list that is not longer than its array ends, changes nothing, and finds the first
-- node with the name.
abbrev pub Searches :
    (World → ℕ → Bytes) → Bytes → ℕ → List ℕ → World → Result (Option ℕ) × World → Type 0
Searches label name n xs w (ok o, w') = (w' ≡ w) × FindsFirst (label w) name (length_or n name) xs o
Searches label name n xs w (err e, w') = ⊥
Searches label name n xs w (fault, w') = ⊥

find_inifile_section-Searches :
    (w : World) (head : Option ℕ) (name : Bytes) (n : ℕ) (xs : List ℕ)
    → IsChain (section_links w) head xs
    → length xs ≤ max_inifile_section_num
    → Searches section_text name n xs w (find_inifile_section head (some name) n w)
unfolding find_inifile_section ◌>>=◌
find_inifile_section-Searches w none name n [] c l = (refl, tt)
find_inifile_section-Searches w none name n (x ∷ xs) c l = absurd (ground arith)
find_inifile_section-Searches w (some p) name n xs c l =
    subst (Searches section_text name n xs w) (sym (found w p name n xs c l)) (
      refl,
      find_node-FindsFirst (section_text w) name (length_or n name) (λ i. text_of-NoNul w.mem _) xs,
    )
  where
    found :
        (w : World) (p : ℕ) (name : Bytes) (n : ℕ) (xs : List ℕ)
        → IsChain (section_links w) (some p) xs
        → length xs ≤ max_inifile_section_num
        → find_inifile_section (some p) (some name) n w
          ≡ (ok (find_node (section_text w) name (length_or n name) xs), w)
    found w p name n xs c l = ground (
      arith,
      nodes-IsChain (section_links w) (suc max_inifile_section_num) (some p) xs c (omega arith),
    )

find_keyvalue_unsect-Searches :
    (w : World) (head : Option ℕ) (key : Bytes) (n : ℕ) (xs : List ℕ)
    → IsChain (keyval_links w) head xs
    → length xs ≤ keyvalue_array_len
    → Searches key_text key n xs w (find_keyvalue_unsect head (some key) n w)
unfolding find_keyvalue_unsect ◌>>=◌
find_keyvalue_unsect-Searches w none key n [] c l = (refl, tt)
find_keyvalue_unsect-Searches w none key n (x ∷ xs) c l = absurd (ground arith)
find_keyvalue_unsect-Searches w (some p) key n xs c l =
    subst (Searches key_text key n xs w) (sym (found w p key n xs c l)) (
      refl,
      find_node-FindsFirst (key_text w) key (length_or n key) (λ i. text_of-NoNul w.mem _) xs,
    )
  where
    found :
        (w : World) (p : ℕ) (key : Bytes) (n : ℕ) (xs : List ℕ)
        → IsChain (keyval_links w) (some p) xs
        → length xs ≤ keyvalue_array_len
        → find_keyvalue_unsect (some p) (some key) n w
          ≡ (ok (find_node (key_text w) key (length_or n key) xs), w)
    found w p key n xs c l =
        ground (
          arith,
          nodes-IsChain (keyval_links w) (suc keyvalue_array_len) (some p) xs c (omega arith),
        )

-- On lists without a ring that are not longer than their arrays the two searches end and change
-- nothing; they find the first section, and the first key, with the name given, or NULL if none
-- has it.
pub find_first :
    (w : World) (head : Option ℕ) (name : Bytes) (n : ℕ) (secs : List ℕ) (first : Option ℕ)
    (key : Bytes) (m : ℕ) (keys : List ℕ)
    → IsChain (section_links w) head secs
    → length secs ≤ max_inifile_section_num
    → IsChain (keyval_links w) first keys
    → length keys ≤ keyvalue_array_len
    → Searches section_text name n secs w (find_inifile_section head (some name) n w)
      × Searches key_text key m keys w (find_keyvalue_unsect first (some key) m w)
find_first w head name n secs first key m keys c l d k = (
  find_inifile_section-Searches w head name n secs c l,
  find_keyvalue_unsect-Searches w first key m keys d k,
)
