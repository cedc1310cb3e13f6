-- ===== src/Linked/Links/Walk.antt =====
-- The walk of v1.0.0/inifile.c from the head to a node.
use ini.Base.{
  List, Option, [], arith, false, length, none, refl, some, suc, true, zero, ℕ, ◌++◌, ◌<◌, ◌==◌,
  ◌∙◌, ◌∷◌, ◌≡◌, ◌≢◌,
}
use ini.Linked.{done}
use ini.Linked.Links.{Link, Links, ptr_eq, reaches}
use ini.Linked.Links.Insert.{node_at_there}
use ini.Linked.Links.Segment.{IsRow, NotIn, first_or, last_or}

module _ {A : Type 0} where
  next_of :
      (n p i : ℕ) (m : Links A) (l : Link A)
      → m p ≡ some l
      → p ≢ i
      → reaches (suc n) m (some p) i ≡ reaches n m l.next i
  unfolding reaches
  next_of n p i m l there other =
      let differ : (p == i) ≡ false = ground arith in rw (differ, node_at_there m p there) refl

  -- A node of the list is reached.
  pub reaches_there :
      (n : ℕ) (m : Links A) (p : Option ℕ) (xs : List (ℕ × A)) (x : ℕ × A) (ys : List (ℕ × A))
      (e : Option ℕ)
      → IsRow m p (xs ++ (x ∷ ys)) e
      → NotIn x.0 xs
      → length xs < n
      → reaches n m (first_or (xs ++ (x ∷ ys)) e) x.0 ≡ done true
  unfolding reaches
  reaches_there zero m p xs x ys e r apart l = absurd (omega arith)
  reaches_there (suc n) m p [] x ys e r apart l = ground arith
  reaches_there (suc n) m p (z ∷ xs) x ys e r apart l =
      next_of n z.0 x.0 m _ r.0 apart.0
      ∙ reaches_there n m (some z.0) xs x ys e r.1 apart.1 (omega arith)

  -- A node that is not in the list is not.
  pub reaches_nowhere :
      (n : ℕ) (m : Links A) (p : Option ℕ) (xs : List (ℕ × A)) (i : ℕ)
      → IsRow m p xs none
      → NotIn i xs
      → length xs < n
      → reaches n m (first_or xs none) i ≡ done false
  unfolding reaches
  reaches_nowhere zero m p xs i r apart l = absurd (omega arith)
  reaches_nowhere (suc n) m p [] i r apart l = refl
  reaches_nowhere (suc n) m p (x ∷ xs) i r apart l =
      next_of n x.0 i m _ r.0 apart.0
      ∙ reaches_nowhere n m (some x.0) xs i r.1 apart.1 (omega arith)

  -- An address that no node of the row has is not that of the last.
  pub ptr_eq_last :
      (i : ℕ) (p : Option ℕ) (y : ℕ × A) (ys : List (ℕ × A))
      → NotIn i (y ∷ ys)
      → ptr_eq (some i) (last_or p (y ∷ ys)) ≡ false
  ptr_eq_last i p y [] apart = ground (arith, apart.0)
  ptr_eq_last i p y (z ∷ ys) apart = ptr_eq_last i (some y.0) z ys apart.1
