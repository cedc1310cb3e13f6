-- ===== src/Rewrite/Delete/Stale.antt =====
-- A line that is read over what an earlier line left in the buffer.
use Prim.Native.Nat.add
use mathlib.Core.Path.{ap₂}
use native.Mathlib.Decide.{dec_le}
use ini.Base.{
  Bytes, Option, [], ap, arith, drop, false, if◌then◌else◌, inl, inr, length, none, refl, some, suc,
  sym, zero, ℕ, ◌++◌, ◌+◌, ◌-◌, ◌<◌, ◌==◌, ◌∙◌, ◌∷◌, ◌≡◌, ◌≢◌, ◌≤◌, ◌⊎◌,
}
use ini.Line.{classify, judge_ini_file_linetype, line_blank, note_before, note_loop}
use ini.Rewrite.{compare_key}
use ini.Rewrite.Loop.{holds_key, key_in, same_key}
use ini.Text.{
  Sign, above, below, blanks, char_at, comma_sign, equality_sign, left_bracket, memcmp,
  newline_sign, right_bracket, same, str_frist_constchar,
}
use ini.Text.Laws.{NoNul, str_frist_constchar-hit}

module _ (s r : Bytes) (h : NoNul s) where
  char_at-stale : (i : ℕ) → i ≤ length s → char_at (s ++ (0 ∷ r)) i ≡ char_at s i
  char_at-stale = at s
    where
      at : (t : Bytes) (i : ℕ) → i ≤ length t → char_at (t ++ (0 ∷ r)) i ≡ char_at t i
      at [] zero l = refl
      at [] (suc i) l = absurd (omega arith)
      at (x ∷ t) zero l = refl
      at (x ∷ t) (suc i) l = at t i (omega arith)

str_frist_constchar-stale :
    (s r : Bytes) (c : ℕ) → NoNul s → str_frist_constchar (s ++ (0 ∷ r)) c ≡ str_frist_constchar s c
unfolding str_frist_constchar
str_frist_constchar-stale [] r c h = refl
str_frist_constchar-stale (x ∷ s) r c h = rw (str_frist_constchar-stale s r c h.1)

blanks-stale : (s r : Bytes) → blanks (s ++ (0 ∷ r)) ≡ blanks s
unfolding blanks
blanks-stale [] r = refl
blanks-stale (x ∷ s) r = rw (blanks-stale s r)

blanks-le : (s : Bytes) → blanks s ≤ length s
unfolding blanks
blanks-le [] = omega arith
blanks-le (x ∷ s) = ground (arith, blanks-le s)

note_loop-stale :
    (n : ℕ) (s r : Bytes) (p : ℕ)
    → NoNul s
    → p + n ≤ length s
    → note_loop n (s ++ (0 ∷ r)) p ≡ note_loop n s p
unfolding note_loop
note_loop-stale zero s r p h l = refl
note_loop-stale (suc n) s r p h l =
    rw (char_at-stale s r h p (omega arith), note_loop-stale n s r (p + 1) h (omega arith))

note_before-stale :
    (s r : Bytes) (p c : ℕ)
    → NoNul s
    → p ≤ length s
    → c < length s
    → note_before (s ++ (0 ∷ r)) p c ≡ note_before s p c
note_before-stale s r p c h k l = elim (dec_le p c) [
  | yes q ↦ note_loop-stale (c - p) s r p h (omega arith)
  | no q ↦ let e : c - p ≡ 0 = omega arith in rw e (unfold note_loop in refl)
]

classify-stale :
    (s r : Bytes) (p : ℕ) (oc ob oe : Option ℕ)
    → NoNul s
    → p ≤ length s
    → ((c : ℕ) → oc ≡ some c → c < length s)
    → classify (s ++ (0 ∷ r)) p oc ob oe ≡ classify s p oc ob oe
unfolding classify
classify-stale s r p (some c) (some b) (some e) h k l =
    rw (note_before-stale s r p c h k (l c refl), str_frist_constchar-stale s r right_bracket h)
classify-stale s r p (some c) (some b) none h k l =
    rw (note_before-stale s r p c h k (l c refl), str_frist_constchar-stale s r right_bracket h)
classify-stale s r p (some c) none (some e) h k l = rw (note_before-stale s r p c h k (l c refl))
classify-stale s r p (some c) none none h k l = note_before-stale s r p c h k (l c refl)
classify-stale s r p none (some b) (some e) h k l = refl
classify-stale s r p none (some b) none h k l = rw (str_frist_constchar-stale s r right_bracket h)
classify-stale s r p none none (some e) h k l = refl
classify-stale s r p none none none h k l = refl

pub judge-stale :
    (s r : Bytes) → NoNul s → judge_ini_file_linetype (s ++ (0 ∷ r)) ≡ judge_ini_file_linetype s
unfolding judge_ini_file_linetype
judge-stale s r h =
    let le = blanks-le s in
    rw
      (
        blanks-stale s r,
        char_at-stale s r h (blanks s) le,
        str_frist_constchar-stale s r comma_sign h,
        str_frist_constchar-stale s r left_bracket h,
        str_frist_constchar-stale s r equality_sign h,
      )
      (ap (λ k. if char_at s (blanks s) == newline_sign then line_blank else k)
        (classify-stale s r (blanks s) _ _ _ h le
          (λ c e. (str_frist_constchar-hit s comma_sign e).2)))

-- `memcmp` finds two buffers the same only if they are, byte by byte.
pub memcmp-same :
    (n : ℕ) (a b : Bytes) (i : ℕ) → memcmp n a b ≡ same → i < n → char_at a i ≡ char_at b i
unfolding memcmp
memcmp-same zero a b i h l = absurd (omega arith)
memcmp-same (suc n) a b zero h l = ground arith
memcmp-same (suc n) a b (suc i) h l =
    let rest : memcmp n (drop 1 a) (drop 1 b) ≡ same = ground arith in
    next_at a i ∙ memcmp-same n (drop 1 a) (drop 1 b) i rest (omega arith) ∙ sym (next_at b i)
  where
    next_at : (s : Bytes) (j : ℕ) → char_at s (suc j) ≡ char_at (drop 1 s) j
    next_at [] j = refl
    next_at (x ∷ s) j = refl

pub Sign-cases : (x : Sign) → (x ≡ same) ⊎ (x ≢ same)
Sign-cases same = inl refl
Sign-cases below = inr (λ e. cc)
Sign-cases above = inr (λ e. cc)

char_at-drop : (p : ℕ) (s : Bytes) (i : ℕ) → char_at (drop p s) i ≡ char_at s (p + i)
char_at-drop zero s i = rw add.zero
char_at-drop (suc p) [] i = refl
char_at-drop (suc p) (x ∷ s) i = rw add.suc (char_at-drop p s i)

char_at_end : (s : Bytes) → char_at s (length s) ≡ 0
char_at_end [] = refl
char_at_end (x ∷ s) = char_at_end s

NoNul-char_at : (s : Bytes) (i : ℕ) → NoNul s → i < length s → char_at s i ≢ 0
NoNul-char_at [] i h l = absurd (omega arith)
NoNul-char_at (x ∷ s) zero h l = h.0
NoNul-char_at (x ∷ s) (suc i) h l = NoNul-char_at s i h.1 (omega arith)

memcmp-cong :
    (n : ℕ) (a b c : Bytes)
    → ((i : ℕ) → i < n → char_at b i ≡ char_at c i)
    → memcmp n a b ≡ memcmp n a c
unfolding memcmp
memcmp-cong zero a b c h = refl
memcmp-cong (suc n) a b c h = rw (
  h 0 (omega arith),
  memcmp-cong n (drop 1 a) (drop 1 b) (drop 1 c)
      λ i l. char_at-drop 1 b i ∙ h (1 + i) (omega arith) ∙ sym (char_at-drop 1 c i),
)

-- A line that ends inside the length of the key does not hold the key.
same_key-short :
    (key : Bytes) (n : ℕ) (line : Bytes) (d : ℕ)
    → NoNul key
    → n ≤ length key
    → d < n
    → char_at line (blanks line + d) ≡ 0
    → same_key key n line ≡ false
unfolding same_key compare_key
same_key-short key n line d h le lt z = elim (Sign-cases (memcmp n key (drop (blanks line) line))) [
  | inl e ↦ absurd (
      NoNul-char_at key d h (omega arith)
        (memcmp-same n key _ d e lt ∙ char_at-drop (blanks line) line d ∙ z))
  | inr e ↦ ground arith
]

compare_key-stale :
    (key : Bytes) (n : ℕ) (s r : Bytes)
    → NoNul s
    → blanks s + n ≤ length s
    → compare_key key n (s ++ (0 ∷ r)) ≡ compare_key key n s
compare_key-stale key n s r h q =
    let p = blanks s in
    let m = memcmp-cong n key (drop p (s ++ (0 ∷ r))) (drop p s) λ i l.
      char_at-drop p (s ++ (0 ∷ r)) i
      ∙ char_at-stale s r h (p + i) (omega arith)
      ∙ sym (char_at-drop p s i) in
    unfold compare_key in rw (blanks-stale s r, char_at-stale s r h (p + n) q, m)

-- Past the end of the line the byte read is a NUL, which is no byte of the key.
same_key-past :
    (key : Bytes) (n : ℕ) (s r : Bytes)
    → NoNul s
    → NoNul key
    → n ≤ length key
    → length s < blanks s + n
    → same_key key n (s ++ (0 ∷ r)) ≡ same_key key n s
same_key-past key n s r h hk le q =
    let d = length s - blanks s in
    let lt : d < n = omega (arith, blanks-le s) in
    let e : blanks s + d ≡ length s = omega (arith, blanks-le s) in
    let stale : char_at (s ++ (0 ∷ r)) (blanks (s ++ (0 ∷ r)) + d) ≡ 0 =
      rw (blanks-stale s r, e) (char_at-stale s r h (length s) (omega arith) ∙ char_at_end s) in
    let fresh : char_at s (blanks s + d) ≡ 0 = rw e (char_at_end s) in
    same_key-short key n (s ++ (0 ∷ r)) d hk le lt stale
    ∙ sym (same_key-short key n s d hk le lt fresh)

same_key-stale :
    (key : Bytes) (n : ℕ) (s r : Bytes)
    → NoNul s
    → NoNul key
    → n ≤ length key
    → same_key key n (s ++ (0 ∷ r)) ≡ same_key key n s
same_key-stale key n s r h hk le = elim (dec_le (blanks s + n) (length s)) [
  | yes q ↦ unfold same_key in rw (compare_key-stale key n s r h q, same_key)
  | no q ↦ same_key-past key n s r h hk le (omega arith)
]

pub holds_key-stale :
    (key : Bytes) (n : ℕ) (s r : Bytes)
    → NoNul s
    → NoNul key
    → n ≤ length key
    → holds_key key n (s ++ (0 ∷ r)) ≡ holds_key key n s
unfolding holds_key
holds_key-stale key n s r h hk le =
    let e = same_key-stale key n s r h hk le in ap₂ key_in (judge-stale s r h) e
