-- ===== src/Line/Judge/Ladder.antt =====
-- The cases of the ladder of `judge_ini_file_linetype`.
use ini.Base.{
  Bytes, Option, Option-cases, arith, inl, inr, none, refl, some, suc, zero, ℕ, ◌+◌, ◌-◌, ◌≡◌, ◌≢◌,
  ◌≤◌, ◌⊎◌,
}
use ini.Line.{
  classify, line_error, line_keyvalue, line_note, line_section, note_loop, section_before,
}
use ini.Text.{right_bracket, str_frist_constchar}

note_loop_cases :
    (n : ℕ) (line : Bytes) (pp : ℕ)
    → (note_loop n line pp ≡ line_note) ⊎ (note_loop n line pp ≡ line_error)
unfolding note_loop
note_loop_cases zero line pp = inl refl
note_loop_cases (suc n) line pp = ground (arith, note_loop_cases n line (pp + 1))

pub classify-section :
    (line : Bytes) (pp : ℕ) (oc ob oe : Option ℕ)
    → classify line pp oc ob oe ≡ line_section
    → (b q : ℕ) × (ob ≡ some b) × (str_frist_constchar line right_bracket ≡ some q)
unfolding classify
classify-section line pp (some c) (some b) (some e) h =
    elim (Option-cases (str_frist_constchar line right_bracket)) [
      | inl n ↦ absurd (ground (arith, note_loop_cases (c - pp) line pp))
      | inr (q, s) ↦ (b, q, refl, s)
    ]
classify-section line pp (some c) (some b) none h =
    elim (Option-cases (str_frist_constchar line right_bracket)) [
      | inl n ↦ absurd (ground (arith, note_loop_cases (c - pp) line pp))
      | inr (q, s) ↦ (b, q, refl, s)
    ]
classify-section line pp (some c) none (some e) h =
    absurd (ground (arith, note_loop_cases (c - pp) line pp))
classify-section line pp (some c) none none h =
    absurd (ground (arith, note_loop_cases (c - pp) line pp))
classify-section line pp none (some b) none h =
    elim (Option-cases (str_frist_constchar line right_bracket)) [
      | inl n ↦ absurd (ground arith)
      | inr (q, s) ↦ (b, q, refl, s)
    ]
classify-section line pp none (some b) (some e) h = absurd (ground arith)
classify-section line pp none none (some e) h = absurd (ground arith)
classify-section line pp none none none h = absurd (ground arith)

section_before-ne-keyvalue : (q : Option ℕ) (c : ℕ) → section_before q c ≢ line_keyvalue
unfolding section_before
section_before-ne-keyvalue none c p = ground arith
section_before-ne-keyvalue (some q) c p = ground arith

-- The bracket and the semicolon stand at two places.
pub classify-keyvalue :
    (line : Bytes) (pp : ℕ) (oc ob oe : Option ℕ)
    → ((b c : ℕ) → ob ≡ some b → oc ≡ some c → b ≢ c)
    → classify line pp oc ob oe ≡ line_keyvalue
    → (e : ℕ) × (oe ≡ some e) × ((c : ℕ) → oc ≡ some c → e ≤ c)
unfolding classify
classify-keyvalue line pp (some c) (some b) (some e) apart h = (
  e,
  refl,
  λ d p. ground (
    arith,
    apart b c refl refl,
    note_loop_cases (c - pp) line pp,
    section_before-ne-keyvalue (str_frist_constchar line right_bracket) c,
  ),
)
classify-keyvalue line pp (some c) (some b) none apart h = absurd (
    ground (
      arith,
      note_loop_cases (c - pp) line pp,
      section_before-ne-keyvalue (str_frist_constchar line right_bracket) c,
    ))
classify-keyvalue line pp (some c) none (some e) apart h =
    (e, refl, λ d p. ground (arith, note_loop_cases (c - pp) line pp))
classify-keyvalue line pp (some c) none none apart h =
    absurd (ground (arith, note_loop_cases (c - pp) line pp))
classify-keyvalue line pp none (some b) none apart h =
    absurd (elim (Option-cases (str_frist_constchar line right_bracket)) [
      | inl n ↦ ground arith
      | inr (q, s) ↦ ground arith
    ])
classify-keyvalue line pp none (some b) (some e) apart h = absurd (ground arith)
classify-keyvalue line pp none none (some e) apart h = (e, refl, λ d p. absurd (ground arith))
classify-keyvalue line pp none none none apart h = absurd (ground arith)
