-- ===== src/Line/KeyValue.antt =====
-- Lines with a key, a value and a note, and how they are put together.
pub mod Span
pub mod ReadBack
use mathlib.Core.List.{append_assoc}
use ini.Base.{
  All, Bool, Bytes, Option, [], arith, false, length, length-append, none, some, true, ℕ, ◌++◌, ◌+◌,
  ◌∷◌, ◌≡◌, ◌≢◌,
}
use ini.Line.{is_space, key_part, value_end, value_part}
use ini.Line.KeyValue.Span.{blanks_skip, drop_past, span_lem}
use ini.Rewrite.{skip}
use ini.Text.{blanks, comma_sign, equality_sign, is_blank, left_bracket, newline_sign}
use ini.Text.Laws.{Without}

-- A text with no blank at its head and, by `skip`, no blank at its end.
pub record IsTrimmed (skip : ℕ → Bool) (s : Bytes) : Type 0 where
  pub start : Bytes
  pub last_byte : ℕ
  pub splits : s ≡ start ++ (last_byte ∷ [])
  pub final_solid : skip last_byte ≡ false
  pub head_solid : (r : Bytes) → blanks (s ++ r) ≡ 0

abbrev pub Blank : Bytes → Type 0
Blank = All (λ c. is_blank c ≡ true)

-- Blanks round the key are dropped.
pub key_part_lem :
    (b k t r : Bytes)
    → Blank b
    → IsTrimmed is_blank k
    → Blank t
    → key_part (b ++ (k ++ (t ++ r))) (length b + length k + length t) ≡ some k
unfolding key_part
key_part_lem b k t r hb hk ht =
    rw (blanks_skip b (k ++ (t ++ r)) hb (hk.head_solid (t ++ r)))
      (span_lem is_blank b k t r hk.start hk.last_byte hk.splits hk.final_solid ht)

-- Blanks round the value are dropped, a newline behind it too.
pub value_part_lem :
    (h b v t r : Bytes) (comma : Option ℕ)
    → Blank b
    → IsTrimmed is_space v
    → All (λ c. is_space c ≡ true) t
    → value_end (h ++ (equality_sign ∷ (b ++ (v ++ (t ++ r))))) (length h) comma
      ≡ length h + 1 + length b + length v + length t
    → value_part (h ++ (equality_sign ∷ (b ++ (v ++ (t ++ r))))) (length h) comma ≡ some v
unfolding value_part
value_part_lem h b v t r comma hb hv ht e =
    let x = h ++ (equality_sign ∷ b) in
    let n : length h + 1 + length b ≡ length x =
      omega (arith, length-append h (equality_sign ∷ b)) in
    let same_line = append_assoc h (equality_sign ∷ b) (v ++ (t ++ r)) in
    let skipped = blanks_skip b (v ++ (t ++ r)) hb (hv.head_solid (t ++ r)) in
    rw (e, drop_past h equality_sign (b ++ (v ++ (t ++ r))), skipped)
      (rw n (
        rw same_line at
          (span_lem is_space x v t r hv.start hv.last_byte hv.splits hv.final_solid ht)))

-- A byte that neither ends a line's text nor makes it another kind of line.
abbrev pub IsPlain : ℕ → Type 0
IsPlain c = (c ≢ 0) × (c ≢ comma_sign) × (c ≢ left_bracket) × (c ≢ newline_sign)

-- What may stand behind the value: nothing, or a semicolon and any text.
abbrev pub note_text : Option Bytes → Bytes
note_text none = []
note_text (some n) = comma_sign ∷ n

-- A line that holds a key and a value, with blanks round both.
pub record Entry : Type 0 where
  pub indent : Bytes
  pub key : Bytes
  pub before : Bytes
  pub after : Bytes
  pub value : Bytes
  pub trail : Bytes
  pub note : Option Bytes

abbrev pub front : Entry → Bytes
front d = d.indent ++ (d.key ++ d.before)

abbrev pub render : Entry → Bytes
render d = front d ++ (equality_sign ∷ (d.after ++ (d.value ++ (d.trail ++ note_text d.note))))

pub record IsEntry (d : Entry) : Type 0 where
  pub indent_blank : Blank d.indent
  pub before_blank : Blank d.before
  pub after_blank : Blank d.after
  pub trail_space : All (λ c. is_space c ≡ true) d.trail
  pub key_trimmed : IsTrimmed is_blank d.key
  pub value_trimmed : IsTrimmed is_space d.value
  pub key_plain : All IsPlain d.key
  pub key_no_equality : Without equality_sign d.key
  pub value_plain : All IsPlain d.value
