-- ===== src/Pool/Laws.antt =====
-- Reading a string back from the bytes of a half.
use native.Mathlib.Nat.{add-zero}
use ini.Base.{
  Bool-cases, Bytes, Option, [], arith, inl, inr, length, none, refl, some, suc, zero, ℕ, ◌+◌, ◌-◌,
  ◌<◌, ◌==◌, ◌∷◌, ◌≡◌, ◌≤◌,
}
use ini.Memory.{CharPtr, Pool, inifile_size_space}
use ini.Pool.{half_bytes, read_from, text_of}
use ini.Text.{char_at}
use ini.Text.Laws.{NoNul}

pub read_from-NoNul : (f : ℕ → ℕ) (n off : ℕ) → NoNul (read_from f n off)
unfolding read_from
read_from-NoNul f zero off = tt
read_from-NoNul f (suc n) off = elim (Bool-cases (f off == 0)) [
  | inl e ↦ rw e tt
  | inr e ↦ rw e (λ z. ground arith, read_from-NoNul f n (off + 1))
]

-- A string that a pointer gives holds no NUL.
pub text_of-NoNul : (p : Pool) (c : Option CharPtr) → NoNul (text_of p c)
unfolding text_of
text_of-NoNul p none = tt
text_of-NoNul p (some c) = read_from-NoNul (half_bytes p c.half) (inifile_size_space - c.off) c.off

-- Bytes and a NUL behind them are read as the string.
pub read_from_lem :
    (f : ℕ → ℕ) (n off : ℕ) (s : Bytes)
    → NoNul s
    → length s < n
    → ((i : ℕ) → i < length s → f (off + i) ≡ char_at s i)
    → f (off + length s) ≡ 0
    → read_from f n off ≡ s
unfolding read_from
read_from_lem f zero off s h l bytes end = absurd (omega arith)
read_from_lem f (suc n) off [] h l bytes end =
    let z : f off ≡ 0 = rw add-zero at end in ground arith
read_from_lem f (suc n) off (x ∷ s) h l bytes end =
    let first : f off ≡ x = rw add-zero at (bytes 0 (omega arith)) in
    let rest =
      read_from_lem f n (off + 1) s h.1 (omega arith)
        (λ i k.
          let e : off + 1 + i ≡ off + suc i = omega arith in rw e (bytes (suc i) (omega arith)))
        (let e : off + 1 + length s ≡ off + suc (length s) = omega arith in rw e end) in
    ground (arith, h.0)

-- What is written behind a string's NUL does not change it.
pub read_from-agree :
    (f g : ℕ → ℕ) (n off : ℕ)
    → ((i : ℕ) → off ≤ i → i ≤ off + length (read_from f n off) → f i ≡ g i)
    → read_from g n off ≡ read_from f n off
unfolding read_from
read_from-agree f g zero off same_bytes = refl
read_from-agree f g (suc n) off same_bytes =
    let here = same_bytes off (omega arith) (omega arith) in
    elim (Bool-cases (f off == 0)) [
      | inl e ↦ ground (arith, here)
      | inr e ↦
          let later =
            λ (i : ℕ) (l : off + 1 ≤ i) (m : i ≤ off + 1 + length (read_from f n (off + 1))).
              same_bytes i (omega arith) (rw (e, read_from) (omega arith)) in
          ground (arith, here, read_from-agree f g n (off + 1) later)
    ]
