-- ===== src/Line/Judge.antt =====
-- What `judge_ini_file_linetype` promises to the code that reads the line after it.
mod Ladder
use ini.Base.{
  All, Bool-cases, Bytes, Option, arith, false, inl, inr, none, refl, some, suc, true, zero, ℕ,
  ◌++◌, ◌-◌, ◌<◌, ◌==◌, ◌∷◌, ◌≡◌, ◌≢◌, ◌≤◌,
}
use ini.Line.{classify, judge_ini_file_linetype, line_keyvalue, line_note, line_section, note_loop}
use ini.Line.Judge.Ladder.{classify-keyvalue, classify-section}
use ini.Text.{
  blanks, char_at, comma_sign, equality_sign, is_blank, left_bracket, newline_sign, right_bracket,
  str_frist_constchar,
}
use ini.Text.Laws.{
  IsBlank-Without, blanks-append, char_at_head, str_frist_constchar-append, str_frist_constchar-hit,
  str_frist_constchar-past,
}

-- A line that is judged a section has a left bracket and a right bracket.
pub judge-section :
    (line : Bytes)
    → judge_ini_file_linetype line ≡ line_section
    → (b q : ℕ) × (str_frist_constchar line left_bracket ≡ some b)
      × (str_frist_constchar line right_bracket ≡ some q)
unfolding judge_ini_file_linetype
judge-section line h = elim (Bool-cases (char_at line (blanks line) == newline_sign)) [
  | inl e ↦ absurd (ground arith)
  | inr e ↦ classify-section line _ _ _ _ (rw e at h)
]

pub judge-ne-section :
    (line : Bytes)
    → str_frist_constchar line left_bracket ≡ none
    → judge_ini_file_linetype line ≢ line_section
judge-ne-section line n h = let (b, q, e, e') = judge-section line h in ground arith

brackets_apart :
    (line : Bytes) (b c : ℕ)
    → str_frist_constchar line left_bracket ≡ some b
    → str_frist_constchar line comma_sign ≡ some c
    → b ≢ c
brackets_apart line b c p q =
    let hb = str_frist_constchar-hit line left_bracket p in
    let hc = str_frist_constchar-hit line comma_sign q in λ e. ground (arith, hb, hc)

-- A line that is judged a key and value has a `=`, and no semicolon before it.
pub judge-keyvalue :
    (line : Bytes)
    → judge_ini_file_linetype line ≡ line_keyvalue
    → (e : ℕ) × (str_frist_constchar line equality_sign ≡ some e)
      × ((c : ℕ) → str_frist_constchar line comma_sign ≡ some c → e ≤ c)
unfolding judge_ini_file_linetype
judge-keyvalue line h = elim (Bool-cases (char_at line (blanks line) == newline_sign)) [
  | inl e ↦ absurd (ground arith)
  | inr e ↦ classify-keyvalue line _ _ _ _ (λ b c p q. brackets_apart line b c p q) (rw e at h)
]

pub judge-ne-keyvalue :
    (line : Bytes)
    → str_frist_constchar line equality_sign ≡ none
    → judge_ini_file_linetype line ≢ line_keyvalue
judge-ne-keyvalue line n h = let (e, p, q) = judge-keyvalue line h in ground arith

note_loop_zero : (n : ℕ) (line : Bytes) (pp : ℕ) → n ≡ 0 → note_loop n line pp ≡ line_note
unfolding note_loop
note_loop_zero zero line pp e = refl
note_loop_zero (suc n) line pp e = absurd (omega arith)

-- The semicolon comes first: nothing else that the line holds is looked at.
classify_note :
    (line : Bytes) (pp : ℕ) (ob oe : Option ℕ)
    → ((b : ℕ) → ob ≡ some b → pp < b)
    → ((e : ℕ) → oe ≡ some e → pp < e)
    → classify line pp (some pp) ob oe ≡ line_note
unfolding classify
classify_note line pp (some b) (some e) hb he =
    ground (arith, hb b refl, he e refl, note_loop_zero (pp - pp) line pp)
classify_note line pp (some b) none hb he =
    ground (arith, hb b refl, note_loop_zero (pp - pp) line pp)
classify_note line pp none (some e) hb he =
    ground (arith, he e refl, note_loop_zero (pp - pp) line pp)
classify_note line pp none none hb he = ground (arith, note_loop_zero (pp - pp) line pp)

-- A line of blanks and then a semicolon is judged a note, whatever follows.
pub judge_note :
    (b r : Bytes)
    → All (λ c. is_blank c ≡ true) b
    → judge_ini_file_linetype (b ++ (comma_sign ∷ r)) ≡ line_note
unfolding judge_ini_file_linetype
judge_note b r h =
    let w = λ (d : ℕ) (e : is_blank d ≡ false). IsBlank-Without b d e h in
    let semi = str_frist_constchar-append b r comma_sign (w 0 refl) (w comma_sign refl) in
    rw (blanks-append b comma_sign r h refl, char_at_head b comma_sign r, semi)
      (classify_note _ _ _ _
        (λ k.
          str_frist_constchar-past b r comma_sign left_bracket (omega arith) (w left_bracket refl))
        (λ k.
          str_frist_constchar-past b r comma_sign equality_sign (omega arith)
            (w equality_sign refl)))
