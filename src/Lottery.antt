-- ===== src/Lottery.antt =====
-- The sorting of the numbers that are drawn: `bubble_sort` of module_function/lottery.c, on numbers
-- that are not negative.
pub mod Sorted
use ini.Base.{List, [], if◌then◌else◌, length, ltb, suc, zero, ℕ, ◌∷◌}

-- The inner loop: `n` turns, each of which compares two neighbours. An array with fewer elements
-- than turns is read past its end in the source; here the loop stops.
unfoldable pub bubble_pass : ℕ → List ℕ → List ℕ
bubble_pass zero xs = xs
bubble_pass (suc n) [] = []
bubble_pass (suc n) (x ∷ []) = x ∷ []
bubble_pass (suc n) (x ∷ y ∷ r) =
    let swapped = bubble_pass n (x ∷ r) in
    let left = bubble_pass n (y ∷ r) in if ltb y x then y ∷ swapped else x ∷ left

-- The outer loop: `m` turns are left, and the next has `m - 1` inner turns.
unfoldable pub bubble_loop : ℕ → List ℕ → List ℕ
unfolding bubble_pass
bubble_loop zero xs = xs
bubble_loop (suc m) xs = bubble_loop m (bubble_pass m xs)

unfoldable pub bubble_sort : List ℕ → List ℕ
unfolding bubble_loop
bubble_sort xs = bubble_loop (length xs) xs
