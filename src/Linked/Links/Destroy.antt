-- ===== src/Linked/Links/Destroy.antt =====
-- Giving the memory of a list back, v1.0.0/inifile.c: `listkeyValueNode_deleteall` and
-- `destoryListIniFileNode`.
use ini.Base.{
  All, All-append, All-append_left, All-append_right, List, Option, [], ap, arith, false, inl, inr,
  length, length-append, none, refl, some, subst, suc, sym, true, zero, ℕ, ◌++◌, ◌<◌, ◌==◌, ◌∙◌,
  ◌∷◌, ◌≡◌, ◌≢◌, ◌≤◌,
}
use ini.Linked.{done}
use ini.Linked.Links.{Link, LinkList, Links, destroy_list, free, free_loop}
use ini.Linked.Links.Insert.{node_at_there, set_node_other}
use ini.Linked.Links.Segment.{
  Distinct, Distinct-split, IsList, IsRow, IsRow-elsewhere, IsRow-split, NotIn, last_or,
  last_or-append, row-cases,
}

-- All of the row is freed, and nothing else is touched.
pub record Frees {A : Type 0} (xs : List (ℕ × A)) (m m' : Links A) : Type 0 where
  pub freed : All (λ x. m' x.0 ≡ none) xs
  pub kept : (j : ℕ) → NotIn j xs → m' j ≡ m j

module _ {A : Type 0} where
  free_step :
      (n h t : ℕ) (m : Links A) (l : Link A)
      → m t ≡ some l
      → t ≢ h
      → free_loop (suc n) m (some h) (some t) ≡ free_loop n (free m t) (some h) l.pre
  unfolding free_loop
  free_step n h t m l there other =
      let differ : (t == h) ≡ false = ground arith in rw (differ, node_at_there m t there) refl

  free_last :
      (n h : ℕ) (m : Links A) (l : Link A)
      → m h ≡ some l
      → free_loop (suc n) m (some h) (some h) ≡ done (free m h)
  unfolding free_loop
  free_last n h m l there =
      let same : (h == h) ≡ true = ground arith in rw (same, node_at_there m h there) refl

  Frees-snoc :
      (xs : List (ℕ × A)) (y : ℕ × A) (m m' : Links A)
      → NotIn y.0 xs
      → Frees xs (free m y.0) m'
      → Frees (xs ++ (y ∷ [])) m m'
  Frees-snoc xs y m m' apart f = record {
    freed = All-append _ xs (y ∷ []) f.freed (f.kept y.0 apart ∙ gone m, tt);
    kept = λ j h.
        f.kept j (All-append_left _ xs (y ∷ []) h)
        ∙ set_node_other m y.0 j none (All-append_right _ xs (y ∷ []) h).0;
  }
    where
      gone : (m : Links A) → free m y.0 y.0 ≡ none
      gone m = ground arith

  free_loop_lem :
      (n : ℕ) (m : Links A) (x : ℕ × A) (xs : List (ℕ × A)) (e : Option ℕ)
      → IsRow m none (x ∷ xs) e
      → Distinct (x ∷ xs)
      → length xs < n
      → (m' : Links A) × (free_loop n m (some x.0) (last_or none (x ∷ xs)) ≡ done m')
        × Frees (x ∷ xs) m m'
  free_loop_lem zero m x xs e r d l = absurd (omega arith)
  free_loop_lem (suc n) m x xs e r d l = elim (row-cases xs) [
    | inl q ↦
        let last_is : last_or none (x ∷ xs) ≡ some x.0 = ap (last_or (some x.0)) q in
        let only = free_last n x.0 m _ r.0 in
        (
          free m x.0,
          ap (free_loop (suc n) m (some x.0)) last_is ∙ only,
          subst (λ l. Frees (x ∷ l) m (free m x.0)) (sym q)
              (record {
                freed = (ground arith, tt);
                kept = λ j h. set_node_other m x.0 j none h.0;
              }),
        )
    | inr (ys, y, q) ↦
        let r' = subst (λ l. IsRow m none (x ∷ l) e) q r in
        let (front_distinct, y_distinct, apart) =
          Distinct-split (x ∷ ys) (y ∷ []) (subst (λ l. Distinct (x ∷ l)) q d) in
        let (front_row, y_row) = IsRow-split m none (x ∷ ys) (y ∷ []) e r' in
        let last_is : last_or none (x ∷ xs) ≡ some y.0 =
          ap (last_or (some x.0)) q ∙ last_or-append (some x.0) ys y in
        let other : y.0 ≢ x.0 = λ z. apart.0.0 (sym z) in
        let step = free_step n x.0 y.0 m _ y_row.0 other in
        let shorter : length ys < n = omega (arith, ap length q, length-append ys (y ∷ [])) in
        let (m', done_is, f) =
          free_loop_lem n (free m y.0) x ys (some y.0)
            (IsRow-elsewhere m y.0 none none (x ∷ ys) (some y.0) apart.0 front_row) front_distinct
            shorter in
        (
          m',
          ap (free_loop (suc n) m (some x.0)) last_is ∙ (step ∙ done_is),
          subst (λ l. Frees (x ∷ l) m m') (sym q) (Frees-snoc (x ∷ ys) y m m' apart.0 f),
        )
  ]

  -- Destroying a list frees each of its nodes, none of them twice and none after it was freed, and
  -- leaves the rest of the memory as it is, with as many steps as the list has nodes.
  pub destroy_list-Frees :
      (steps : ℕ) (s : LinkList A) (xs : List (ℕ × A))
      → IsList s xs
      → length xs ≤ steps
      → (m' : Links A) × (destroy_list steps s ≡ done m') × Frees xs s.links m'
  unfolding destroy_list
  destroy_list-Frees steps s [] v l =
      (s.links, rw (destroy_list, v.head_is) refl, record { freed = tt; kept = λ j h. refl })
  destroy_list-Frees steps s (x ∷ xs) v l =
      let (m', e, f) = free_loop_lem steps s.links x xs none v.row v.distinct (omega arith) in
      (m', rw (destroy_list, v.head_is, v.head_is, v.tail_is) e, f)
