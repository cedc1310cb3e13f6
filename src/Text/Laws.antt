-- ===== src/Text/Laws.antt =====
-- Laws of the string helpers.
use Prim.Native.Nat.add
use ini.Base.{
  All, Bool-cases, Bytes, Option-cases, [], arith, false, if◌then◌else◌, inl, inr, length, none,
  refl, some, suc, take, true, zero, ℕ, ◌++◌, ◌+◌, ◌<◌, ◌==◌, ◌∷◌, ◌≡◌, ◌≢◌,
}
use ini.Text.{
  blanks, c_str, char_at, find_frist_endchar, is_blank, str_frist_constchar, str_int_len,
}

-- No byte of the text is a NUL.
abbrev pub NoNul : Bytes → Type 0
NoNul = All (λ c. c ≢ 0)

-- No byte of the text is `c`.
abbrev pub Without : ℕ → Bytes → Type 0
Without c = All (λ x. x ≢ c)

pub c_str-append : (s r : Bytes) → NoNul s → c_str (s ++ r) ≡ s ++ c_str r
unfolding c_str
c_str-append [] r h = refl
c_str-append (c ∷ s) r h = ground (arith, c_str-append s r h.1)

pub str_int_len-c_str : (s : Bytes) → str_int_len s ≡ length (c_str s)
unfolding str_int_len c_str
str_int_len-c_str [] = refl
str_int_len-c_str (c ∷ s) = ground (arith, str_int_len-c_str s)

-- The first NUL-free stretch without the character is skipped.
pub str_frist_constchar-append :
    (s r : Bytes) (c : ℕ)
    → NoNul s
    → Without c s
    → str_frist_constchar (s ++ (c ∷ r)) c ≡ (if c == 0 then none else some (length s))
unfolding str_frist_constchar
str_frist_constchar-append [] r c h w = ground arith
str_frist_constchar-append (x ∷ s) r c h w =
    ground (arith, str_frist_constchar-append s r c h.1 w.1)

pub str_frist_constchar-none : (s : Bytes) (c : ℕ) → Without c s → str_frist_constchar s c ≡ none
unfolding str_frist_constchar
str_frist_constchar-none [] c w = refl
str_frist_constchar-none (x ∷ s) c w = ground (arith, str_frist_constchar-none s c w.1)

-- A position found is that of the character, and stands before the NUL.
pub str_frist_constchar-hit :
    (s : Bytes) (c : ℕ) {i : ℕ}
    → str_frist_constchar s c ≡ some i
    → (char_at s i ≡ c) × (c ≢ 0) × (i < length s)
unfolding str_frist_constchar
str_frist_constchar-hit [] c h = absurd (ground arith)
str_frist_constchar-hit (x ∷ s) c h = elim (Option-cases (str_frist_constchar s c)) [
  | inl n ↦ (ground arith, ground arith, ground arith)
  | inr (j, e) ↦
      let ih = str_frist_constchar-hit s c e in (ground arith, ground arith, ground arith)
]

pub char_at-append : (s r : Bytes) (i : ℕ) → char_at (s ++ r) (length s + i) ≡ char_at r i
char_at-append [] r i = rw add.zero
char_at-append (x ∷ s) r i = rw add.suc (char_at-append s r i)

pub char_at_head : (s : Bytes) (c : ℕ) (r : Bytes) → char_at (s ++ (c ∷ r)) (length s) ≡ c
char_at_head [] c r = refl
char_at_head (x ∷ s) c r = char_at_head s c r

pub char_at_next : (s r : Bytes) → char_at (s ++ r) (length s) ≡ char_at r 0
char_at_next [] r = refl
char_at_next (x ∷ s) r = char_at_next s r

pub blanks-append :
    (b : Bytes) (c : ℕ) (r : Bytes)
    → All (λ x. is_blank x ≡ true) b
    → is_blank c ≡ false
    → blanks (b ++ (c ∷ r)) ≡ length b
unfolding blanks
blanks-append [] c r h e = ground arith
blanks-append (x ∷ b) c r h e = ground (arith, blanks-append b c r h.1)

-- What no blank is, no byte of a run of blanks is.
pub IsBlank-Without :
    (b : Bytes) (c : ℕ) → is_blank c ≡ false → All (λ x. is_blank x ≡ true) b → Without c b
IsBlank-Without [] c e h = tt
IsBlank-Without (x ∷ b) c e h = (λ p. ground arith, IsBlank-Without b c e h.1)

pub str_frist_constchar-past :
    (s r : Bytes) (c d : ℕ) {k : ℕ}
    → c ≢ d
    → Without d s
    → str_frist_constchar (s ++ (c ∷ r)) d ≡ some k
    → length s < k
unfolding str_frist_constchar
str_frist_constchar-past [] r c d ne w h = elim (Option-cases (str_frist_constchar r d)) [
  | inl n ↦ ground arith
  | inr (j, e) ↦ ground arith
]
str_frist_constchar-past (x ∷ s) r c d ne w h =
    elim (Option-cases (str_frist_constchar (s ++ (c ∷ r)) d)) [
      | inl n ↦ absurd (ground arith)
      | inr (j, e) ↦ ground (arith, str_frist_constchar-past s r c d {k = j} ne w.1 e)
    ]

pub find_frist_endchar_lem : (s : Bytes) → NoNul s → find_frist_endchar s ≡ length s
unfolding find_frist_endchar
find_frist_endchar_lem [] h = refl
find_frist_endchar_lem (c ∷ s) h = ground (arith, find_frist_endchar_lem s h.1)

pub c_str-NoNul : (s : Bytes) → NoNul (c_str s)
unfolding c_str
c_str-NoNul [] = tt
c_str-NoNul (c ∷ s) = elim (Bool-cases (c == 0)) [
  | inl e ↦ rw e tt
  | inr e ↦ rw e (λ z. ground arith, c_str-NoNul s)
]

pub NoNul-c_str : (s : Bytes) → NoNul s → c_str s ≡ s
unfolding c_str
NoNul-c_str [] h = refl
NoNul-c_str (c ∷ s) h = ground (arith, NoNul-c_str s h.1)

pub take-NoNul : (n : ℕ) (s : Bytes) → NoNul s → NoNul (take n s)
take-NoNul zero s h = tt
take-NoNul (suc n) [] h = tt
take-NoNul (suc n) (c ∷ s) h = (h.0, take-NoNul n s h.1)

-- A text whose length is counted in full has no NUL.
pub str_int_len-NoNul : (s : Bytes) → str_int_len s ≡ length s → NoNul s
unfolding str_int_len
str_int_len-NoNul [] h = tt
str_int_len-NoNul (c ∷ s) h = (λ e. ground arith, str_int_len-NoNul s (ground arith))
