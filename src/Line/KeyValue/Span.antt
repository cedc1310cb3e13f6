-- ===== src/Line/KeyValue/Span.antt =====
-- Scanning back over blanks, and the bytes between two places.
use native.Mathlib.Nat.{add-zero, add-suc}
use mathlib.Core.List.{append_assoc}
use ini.Base.{
  All, Bool, Bytes, [], ap, arith, drop, drop-append, false, length, length-append, ltb, refl, some,
  suc, take, true, zero, ℕ, ◌++◌, ◌+◌, ◌-◌, ◌<◌, ◌∙◌, ◌∷◌, ◌≡◌,
}
use ini.Line.{last_before, span}
use ini.Text.{blanks, char_at, is_blank}
use ini.Text.Laws.{char_at-append, char_at_head}

char_at-All :
    (skip : ℕ → Bool) (s r : Bytes) (i : ℕ)
    → All (λ c. skip c ≡ true) s
    → i < length s
    → skip (char_at (s ++ r) i) ≡ true
char_at-All skip [] r i h l = absurd (omega arith)
char_at-All skip (x ∷ s) r zero h l = h.0
char_at-All skip (x ∷ s) r (suc i) h l = char_at-All skip s r i h.1 (omega arith)

last_before_run :
    (skip : ℕ → Bool) (s : Bytes) (m n : ℕ)
    → ((i : ℕ) → i < n → skip (char_at s (m + i)) ≡ true)
    → last_before skip s (m + n) ≡ last_before skip s m
unfolding last_before
last_before_run skip s m zero h = rw add-zero
last_before_run skip s m (suc n) h =
    rw (add-suc, h n (omega arith)) (last_before_run skip s m n (λ i l. h i (omega arith)))

last_before_lem :
    (skip : ℕ → Bool) (x : Bytes) (y : ℕ) (t r : Bytes)
    → skip y ≡ false
    → All (λ c. skip c ≡ true) t
    → last_before skip (x ++ (y ∷ (t ++ r))) (suc (length x) + length t) ≡ some (length x)
unfolding last_before
last_before_lem skip x y t r hy ht =
    last_before_run skip (x ++ (y ∷ (t ++ r))) (suc (length x)) (length t) behind
    ∙ rw (char_at_head x y (t ++ r), hy)
  where
    behind :
        (i : ℕ) → i < length t → skip (char_at (x ++ (y ∷ (t ++ r))) (suc (length x) + i)) ≡ true
    behind i l =
        let e : suc (length x) + i ≡ length x + suc i = omega arith in
        rw (e, char_at-append x (y ∷ (t ++ r)) (suc i)) (char_at-All skip t r i ht l)

take_through :
    (k : Bytes) (y : ℕ) (r : Bytes) → take (suc (length k)) (k ++ (y ∷ r)) ≡ k ++ (y ∷ [])
take_through [] y r = refl
take_through (c ∷ k) y r = ap (◌∷◌ c) (take_through k y r)

-- From the head of `k` to its last byte, found from behind, is `k`.
span_through :
    (skip : ℕ → Bool) (x start : Bytes) (y : ℕ) (t r : Bytes)
    → skip y ≡ false
    → All (λ c. skip c ≡ true) t
    → span (x ++ (start ++ (y ∷ (t ++ r)))) (length x) (
        last_before skip
          (x ++ (start ++ (y ∷ (t ++ r))))
          (suc (length x + length start) + length t))
      ≡ some (start ++ (y ∷ []))
unfolding span
span_through skip x start y t r hy ht =
    let found = last_before_lem skip (x ++ start) y t r hy ht in
    let found' = rw (append_assoc, length-append x start) at found in
    let n : length x + length start - length x + 1 ≡ suc (length start) = omega arith in
    let b : ltb (length x + length start) (length x) ≡ false = ground arith in
    rw found'
      (rw (b, n, drop-append x (start ++ (y ∷ (t ++ r)))) (ap some (take_through start y (t ++ r))))

pub span_lem :
    (skip : ℕ → Bool) (x k t r start : Bytes) (y : ℕ)
    → k ≡ start ++ (y ∷ [])
    → skip y ≡ false
    → All (λ c. skip c ≡ true) t
    → span
        (x ++ (k ++ (t ++ r)))
        (length x)
        (last_before skip (x ++ (k ++ (t ++ r))) (length x + length k + length t))
      ≡ some k
span_lem skip x k t r start y e hy ht =
    let n : length x + length (start ++ (y ∷ [])) + length t
        ≡ suc (length x + length start) + length t =
      omega (arith, length-append start (y ∷ [])) in
    rw e (rw (n, append_assoc) (span_through skip x start y t r hy ht))

pub blanks_skip :
    (b s : Bytes) → All (λ c. is_blank c ≡ true) b → blanks s ≡ 0 → blanks (b ++ s) ≡ length b
unfolding blanks
blanks_skip [] s h e = e
blanks_skip (x ∷ b) s h e = ground (arith, blanks_skip b s h.1 e)

pub drop_past : (h : Bytes) (c : ℕ) (s : Bytes) → drop (length h + 1) (h ++ (c ∷ s)) ≡ s
drop_past [] c s = refl
drop_past (x ∷ h) c s =
    let e : length (x ∷ h) + 1 ≡ suc (length h + 1) = omega arith in rw e (drop_past h c s)
