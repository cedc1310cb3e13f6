-- ===== src/Linked/Links/Segment.antt =====
-- A row of linked nodes in memory, and what a change of the memory does to it.
use ini.Base.{
  All, All-append, All-append_left, All-append_right, All-both, All-mono, List, Option, [], ap,
  arith, inl, inr, none, refl, some, sym, update, ℕ, ◌++◌, ◌∷◌, ◌≡◌, ◌≢◌, ◌⊎◌,
}
use ini.Linked.Links.{Link, LinkList, Links, set_node}

-- No node of the row stands at the address.
abbrev pub NotIn : {A : Type 0} → ℕ → List (ℕ × A) → Type 0
NotIn i = All (λ x. x.0 ≢ i)

abbrev pub Distinct : {A : Type 0} → List (ℕ × A) → Type 0
Distinct [] = Unit
Distinct (x ∷ xs) = NotIn x.0 xs × Distinct xs

module _ {A : Type 0} where
  abbrev pub first_or : List (ℕ × A) → Option ℕ → Option ℕ
  first_or [] e = e
  first_or (x ∷ xs) e = some x.0

  abbrev pub last_or : Option ℕ → List (ℕ × A) → Option ℕ
  last_or p [] = p
  last_or p (x ∷ xs) = last_or (some x.0) xs

  -- The nodes stand one behind the other, between `prev` and `end`.
  abbrev pub IsRow : Links A → Option ℕ → List (ℕ × A) → Option ℕ → Type 0
  IsRow m prev [] end = Unit
  IsRow m prev (x ∷ xs) end =
      (m x.0 ≡ some (record { payload = x.1; pre = prev; next = first_or xs end }))
      × IsRow m (some x.0) xs end

  -- The list: its nodes in order.
  pub record IsList (s : LinkList A) (xs : List (ℕ × A)) : Type 0 where
    pub head_is : s.head ≡ first_or xs none
    pub tail_is : s.tail ≡ last_or none xs
    pub row : IsRow s.links none xs none
    pub distinct : Distinct xs

  module _ (m : Links A) where
    pub IsRow-elsewhere :
        (i : ℕ) (v : Option (Link A)) (p : Option ℕ) (xs : List (ℕ × A)) (e : Option ℕ)
        → NotIn i xs
        → IsRow m p xs e
        → IsRow (update m i v) p xs e
    IsRow-elsewhere i v p [] e n r = tt
    IsRow-elsewhere i v p (x ∷ xs) e n r =
        (ground (arith, n.0, r.0), IsRow-elsewhere i v (some x.0) xs e n.1 r.1)

    pub IsRow-append :
        (p : Option ℕ) (xs ys : List (ℕ × A)) (e : Option ℕ)
        → IsRow m p xs (first_or ys e)
        → IsRow m (last_or p xs) ys e
        → IsRow m p (xs ++ ys) e
    IsRow-append p [] ys e a b = b
    IsRow-append p (x ∷ []) ys e a b = (a.0, b)
    IsRow-append p (x ∷ y ∷ xs) ys e a b = (a.0, IsRow-append (some x.0) (y ∷ xs) ys e a.1 b)

    pub IsRow-split :
        (p : Option ℕ) (xs ys : List (ℕ × A)) (e : Option ℕ)
        → IsRow m p (xs ++ ys) e
        → IsRow m p xs (first_or ys e) × IsRow m (last_or p xs) ys e
    IsRow-split p [] ys e r = (tt, r)
    IsRow-split p (x ∷ []) ys e r = ((r.0, tt), r.1)
    IsRow-split p (x ∷ y ∷ xs) ys e r =
        let (a, b) = IsRow-split (some x.0) (y ∷ xs) ys e r.1 in ((r.0, a), b)

    -- A change of the first node.
    pub IsRow-first :
        (p p' : Option ℕ) (x : ℕ × A) (xs : List (ℕ × A)) (e : Option ℕ)
        → NotIn x.0 xs
        → IsRow m p (x ∷ xs) e
        → IsRow
            (set_node m x.0 (record { payload = x.1; pre = p'; next = first_or xs e }))
            p'
            (x ∷ xs)
            e
    IsRow-first p p' x xs e n r = (
      ground arith,
      IsRow-elsewhere x.0 (some (record { payload = x.1; pre = p'; next = first_or xs e }))
          (some x.0) xs e n r.1,
    )

  -- A change of the last node.
  pub IsRow-last :
      (m : Links A) (p : Option ℕ) (xs : List (ℕ × A)) (x : ℕ × A) (e e' : Option ℕ)
      → NotIn x.0 xs
      → IsRow m p (xs ++ (x ∷ [])) e
      → IsRow
          (set_node m x.0 (record { payload = x.1; pre = last_or p xs; next = e' }))
          p
          (xs ++ (x ∷ []))
          e'
  IsRow-last m p xs x e e' n r =
      let (a, b) = IsRow-split m p xs (x ∷ []) e r in
      let new = some (record { payload = x.1; pre = last_or p xs; next = e' }) in
      IsRow-append (update m x.0 new) p xs (x ∷ []) e'
        (IsRow-elsewhere m x.0 new p xs (some x.0) n a) (ground arith, tt)

  pub Distinct-append :
      (xs ys : List (ℕ × A))
      → Distinct xs
      → Distinct ys
      → All (λ y. NotIn y.0 xs) ys
      → Distinct (xs ++ ys)
  Distinct-append [] ys a b c = b
  Distinct-append (x ∷ xs) ys a b c = (
    All-append _ xs ys a.0 (All-mono _ _ ys (λ y h q. h.0 (sym q)) c),
    Distinct-append xs ys a.1 b (All-mono _ _ ys (λ y h. h.1) c),
  )

  -- Two parts of a row share no address.
  pub Distinct-split :
      (xs ys : List (ℕ × A))
      → Distinct (xs ++ ys)
      → Distinct xs × Distinct ys × All (λ y. NotIn y.0 xs) ys
  Distinct-split [] ys d = (tt, d, by_nothing ys)
    where
      by_nothing : (ys : List (ℕ × A)) → All (λ (y : ℕ × A). NotIn {A = A} y.0 []) ys
      by_nothing [] = tt
      by_nothing (y ∷ ys) = (tt, by_nothing ys)
  Distinct-split (x ∷ xs) ys d =
      let (a, b, c) = Distinct-split xs ys d.1 in
      let apart = All-append_right _ xs ys d.0 in
      (
        (All-append_left _ xs ys d.0, a),
        b,
        All-mono (λ (y : ℕ × A). (y.0 ≢ x.0) × NotIn y.0 xs) _ ys (λ y h. (λ q. h.0 (sym q), h.1))
            (All-both (λ (y : ℕ × A). y.0 ≢ x.0) (λ (y : ℕ × A). NotIn y.0 xs) ys apart c),
      )

  pub last_or-append :
      (p : Option ℕ) (xs : List (ℕ × A)) (x : ℕ × A) → last_or p (xs ++ (x ∷ [])) ≡ some x.0
  last_or-append p [] x = refl
  last_or-append p (y ∷ xs) x = last_or-append (some y.0) xs x

  -- A row is empty or it has a last node.
  pub row-cases :
      (xs : List (ℕ × A)) → (xs ≡ []) ⊎ ((ys : List (ℕ × A)) × (y : ℕ × A) × (xs ≡ ys ++ (y ∷ [])))
  row-cases [] = inl refl
  row-cases (x ∷ xs) = elim (row-cases xs) [
    | inl e ↦ inr ([], x, ap (◌∷◌ x) e)
    | inr (ys, y, e) ↦ inr (x ∷ ys, y, ap (◌∷◌ x) e)
  ]
