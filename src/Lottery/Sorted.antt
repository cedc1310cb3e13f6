-- ===== src/Lottery/Sorted.antt =====
-- The order that `bubble_sort` of module_function/lottery.c gives, and the numbers in it.
use mathlib.Core.List.{append-nil}
use ini.Base.{
  All, All-both, Bool-cases, List, [], ap, arith, if◌then◌else◌, inl, inr, length, ltb, refl, suc,
  zero, ℕ, ◌++◌, ◌==◌, ◌∙◌, ◌∷◌, ◌≡◌, ◌≤◌,
}
use ini.Lottery.{bubble_loop, bubble_pass, bubble_sort}

abbrev pub IsSorted : List ℕ → Type 0
IsSorted [] = Unit
IsSorted (x ∷ xs) = All (λ y. x ≤ y) xs × IsSorted xs

-- How often a number stands in a list.
unfoldable pub count : ℕ → List ℕ → ℕ
count n [] = 0
count n (x ∷ xs) = let rest = count n xs in if n == x then suc rest else rest

bubble_pass-count : (k m : ℕ) (xs : List ℕ) → count k (bubble_pass m xs) ≡ count k xs
unfolding bubble_pass count
bubble_pass-count k zero xs = refl
bubble_pass-count k (suc m) [] = refl
bubble_pass-count k (suc m) (x ∷ []) = refl
bubble_pass-count k (suc m) (x ∷ y ∷ r) =
    ground (arith, bubble_pass-count k m (x ∷ r), bubble_pass-count k m (y ∷ r))

bubble_loop-count : (k m : ℕ) (xs : List ℕ) → count k (bubble_loop m xs) ≡ count k xs
unfolding bubble_loop
bubble_loop-count k zero xs = refl
bubble_loop-count k (suc m) xs = bubble_loop-count k m (bubble_pass m xs) ∙ bubble_pass-count k m xs

abbrev BelowAll : List ℕ → ℕ → Type 0
BelowAll rest y = All (λ z. y ≤ z) rest

-- A pass over `m + 1` numbers moves the largest behind the others.
record Passed (m : ℕ) (out rest : List ℕ) (xs : List ℕ) : Type 0 where
  front : List ℕ
  largest : ℕ
  splits : out ≡ front ++ (largest ∷ rest)
  counted : length front ≡ m
  below : All (λ y. y ≤ largest) front
  above : All (λ y. y ≤ largest) xs
  kept : All (BelowAll rest) xs → All (BelowAll rest) front × BelowAll rest largest

pass_lem :
    (m : ℕ) (x : ℕ) (xs rest : List ℕ)
    → length xs ≡ m
    → Passed m (bubble_pass m ((x ∷ xs) ++ rest)) rest (x ∷ xs)
unfolding bubble_pass
pass_lem zero x [] rest e = record {
  front = [];
  largest = x;
  splits = refl;
  counted = refl;
  below = tt;
  above = (omega arith, tt);
  kept = λ h. (tt, h.0);
}
pass_lem zero x (y ∷ xs) rest e = absurd (omega arith)
pass_lem (suc m) x [] rest e = absurd (omega arith)
pass_lem (suc m) x (y ∷ xs) rest e = elim (Bool-cases (ltb y x)) [
  | inl f ↦
      let p = pass_lem m x xs rest (omega arith) in
      let le : y ≤ p.largest = ground (arith, p.above.0) in
      rw f (record {
        front = y ∷ p.front;
        largest = p.largest;
        splits = ap (◌∷◌ y) p.splits;
        counted = omega (arith, p.counted);
        below = (le, p.below);
        above = (p.above.0, (le, p.above.1));
        kept = λ h. let (a, b) = p.kept (h.0, h.1.1) in ((h.1.0, a), b);
      })
  | inr f ↦
      let p = pass_lem m y xs rest (omega arith) in
      let le : x ≤ p.largest = ground (arith, p.above.0) in
      rw f (record {
        front = x ∷ p.front;
        largest = p.largest;
        splits = ap (◌∷◌ x) p.splits;
        counted = omega (arith, p.counted);
        below = (le, p.below);
        above = (le, p.above);
        kept = λ h. let (a, b) = p.kept h.1 in ((h.0, a), b);
      })
]

loop_lem :
    (m : ℕ) (xs rest : List ℕ)
    → length xs ≡ m
    → All (BelowAll rest) xs
    → IsSorted rest
    → IsSorted (bubble_loop m (xs ++ rest))
unfolding bubble_loop
loop_lem zero [] rest e h s = s
loop_lem zero (x ∷ xs) rest e h s = absurd (omega arith)
loop_lem (suc m) [] rest e h s = absurd (omega arith)
loop_lem (suc m) (x ∷ xs) rest e h s =
    let p = pass_lem m x xs rest (omega arith) in
    let (a, b) = p.kept h in
    rw p.splits (
      loop_lem m p.front (p.largest ∷ rest) p.counted
        (All-both (λ y. y ≤ p.largest) (BelowAll rest) p.front p.below a) (b, s))

none_below : (xs : List ℕ) → All (BelowAll []) xs
none_below [] = tt
none_below (x ∷ xs) = (tt, none_below xs)

-- The numbers are sorted, and each stands in the list as often as before.
pub bubble_sort-IsSorted :
    (xs : List ℕ) → IsSorted (bubble_sort xs) × ((k : ℕ) → count k (bubble_sort xs) ≡ count k xs)
unfolding bubble_sort
bubble_sort-IsSorted xs = (
  rw append-nil at (loop_lem (length xs) xs [] refl (none_below xs) tt),
  λ k. bubble_loop-count k (length xs) xs,
)
