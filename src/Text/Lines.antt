-- ===== src/Text/Lines.antt =====
-- The lines that the `fgets` loop reads from a file.
use ini.Base.{All, Bytes, [], arith, flatten, length, refl, suc, zero, ℕ, ◌++◌, ◌∷◌, ◌≡◌, ◌≤◌}
use ini.Text.{fgets, read_lines}

fgets-append : (n : ℕ) (s : Bytes) → (fgets n s).0 ++ (fgets n s).1 ≡ s
unfolding fgets
fgets-append zero s = refl
fgets-append (suc n) [] = refl
fgets-append (suc n) (c ∷ s) = ground (arith, fgets-append n s)

fgets_bound : (n : ℕ) (s : Bytes) → length (fgets n s).0 ≤ n
unfolding fgets
fgets_bound zero s = omega arith
fgets_bound (suc n) [] = omega arith
fgets_bound (suc n) (c ∷ s) = ground (arith, fgets_bound n s)

fgets_rest : (n : ℕ) (s : Bytes) → length (fgets n s).1 ≤ length s
unfolding fgets
fgets_rest zero s = omega arith
fgets_rest (suc n) [] = omega arith
fgets_rest (suc n) (c ∷ s) = ground (arith, fgets_rest n s)

fgets_falls : (n c : ℕ) (s : Bytes) → length (fgets (suc n) (c ∷ s)).1 ≤ length s
unfolding fgets
fgets_falls n c s = ground (arith, fgets_rest n s)

-- No line that is read, whatever the file, has more than the 1023 bytes that the buffer has room
-- for.
pub read_lines_bound : (n : ℕ) (s : Bytes) → All (λ l. length l ≤ 1023) (read_lines n s)
unfolding read_lines
read_lines_bound zero s = tt
read_lines_bound (suc n) [] = tt
read_lines_bound (suc n) (c ∷ s) =
    (fgets_bound 1023 (c ∷ s), read_lines_bound n (fgets 1023 (c ∷ s)).1)

-- With as many steps as the file has bytes, or more, all lines are read: put together they are the
-- file.
pub flatten-read_lines : (n : ℕ) (s : Bytes) → length s ≤ n → flatten (read_lines n s) ≡ s
unfolding read_lines flatten
flatten-read_lines zero [] h = refl
flatten-read_lines zero (c ∷ s) h = absurd (omega arith)
flatten-read_lines (suc n) [] h = refl
flatten-read_lines (suc n) (c ∷ s) h =
    let e = flatten-read_lines n (fgets 1023 (c ∷ s)).1 (omega (arith, fgets_falls 1022 c s)) in
    rw e (fgets-append 1023 (c ∷ s))
