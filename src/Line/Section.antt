-- ===== src/Line/Section.antt =====
-- How a section's header is judged, and what its name is.
use ini.Base.{
  All-append, Bytes, [], arith, length, none, some, suc, take, take-append, ◌++◌, ◌-◌, ◌<◌, ◌∷◌,
  ◌≡◌, ◌≤◌,
}
use ini.Line.{classify, judge_ini_file_linetype, line_section, section_after, section_part}
use ini.Text.{blanks, comma_sign, equality_sign, left_bracket, right_bracket, str_frist_constchar}
use ini.Text.Laws.{NoNul, Without, str_frist_constchar-append, str_frist_constchar-none}

-- A name in brackets, with no `]` in it, and neither a semicolon nor a `=` in the line.
pub record IsBracketed (name r : Bytes) : Type 0 where
  pub nul : NoNul name
  pub no_bracket : Without right_bracket name
  pub no_comma : Without comma_sign name
  pub no_equality : Without equality_sign name
  pub rest_no_comma : Without comma_sign r
  pub rest_no_equality : Without equality_sign r

abbrev pub bracketed : Bytes → Bytes → Bytes
bracketed name r = left_bracket ∷ (name ++ (right_bracket ∷ r))

module _ (name r : Bytes) (h : IsBracketed name r) where
  bracketed-comma : str_frist_constchar (bracketed name r) comma_sign ≡ none
  bracketed-comma = str_frist_constchar-none (bracketed name r) comma_sign (
    λ e. ground arith,
    All-append _ name (right_bracket ∷ r) h.no_comma (λ e. ground arith, h.rest_no_comma),
  )

  bracketed-equality : str_frist_constchar (bracketed name r) equality_sign ≡ none
  bracketed-equality = str_frist_constchar-none (bracketed name r) equality_sign (
    λ e. ground arith,
    All-append _ name (right_bracket ∷ r) h.no_equality (λ e. ground arith, h.rest_no_equality),
  )

  bracketed-left : str_frist_constchar (bracketed name r) left_bracket ≡ some 0
  bracketed-left = str_frist_constchar-append [] (name ++ (right_bracket ∷ r)) left_bracket tt tt

  bracketed-right : str_frist_constchar (bracketed name r) right_bracket ≡ some (suc (length name))
  bracketed-right =
      str_frist_constchar-append (left_bracket ∷ name) r right_bracket (λ e. ground arith, h.nul)
        (λ e. ground arith, h.no_bracket)

  pub judge_bracketed : judge_ini_file_linetype (bracketed name r) ≡ line_section
  unfolding judge_ini_file_linetype blanks classify section_after
  judge_bracketed =
      rw (bracketed-comma, bracketed-equality, bracketed-left)
        (rw (bracketed-right, section_after) (ground arith))

  -- A section's name in its brackets is judged a section, and the name is read back if it has at
  -- least two bytes.
  pub header_read_back :
      2 ≤ length name
      → (judge_ini_file_linetype (bracketed name r) ≡ line_section)
        × (section_part (bracketed name r) ≡ some name)
  unfolding section_part
  header_read_back long =
      let e : suc (length name) - 0 - 1 ≡ length name = omega arith in
      let cut : take (suc (length name) - 0 - 1) (name ++ (right_bracket ∷ r)) ≡ name =
        rw e (take-append name (right_bracket ∷ r)) in
      (
        judge_bracketed,
        rw (bracketed-left, section_part) (rw bracketed-right (rw cut (ground arith))),
      )

  pub short_part : length name < 2 → section_part (bracketed name r) ≡ none
  unfolding section_part
  short_part short = rw (bracketed-left, section_part) (rw bracketed-right (ground arith))
