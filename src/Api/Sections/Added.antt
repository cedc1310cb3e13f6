-- ===== src/Api/Sections/Added.antt =====
-- The header that `add_ini_section` stores, and the one that it writes.
use mathlib.Core.List.{append_assoc}
use ini.Api.Sections.{added_header}
use ini.Base.{
  All-append, Bytes, [], ap, arith, length, length-append, refl, some, suc, zero, ℕ, ◌++◌, ◌<◌, ◌∙◌,
  ◌∷◌, ◌≡◌, ◌≤◌,
}
use ini.Line.{judge_ini_file_linetype, line_section, section_part}
use ini.Line.Section.{IsBracketed, header_read_back}
use ini.Rewrite.{Parameter, printed}
use ini.Rewrite.Add.{section_header}
use ini.Store.{length_or}
use ini.Text.{c_str, comma_sign, equality_sign, fgets, left_bracket, newline_sign, right_bracket}
use ini.Text.Laws.{Without, c_str-NoNul, take-NoNul}

-- What a section's name must be like for its header to be read back.
pub record IsTitle (name : Bytes) : Type 0 where
  pub long : 2 ≤ length name
  pub short : length name ≤ 1020
  pub no_newline : Without newline_sign name
  pub no_bracket : Without right_bracket name
  pub no_comma : Without comma_sign name
  pub no_equality : Without equality_sign name

-- A line is read as the header of a section.
abbrev pub IsHeader : Bytes → Bytes → Type 0
IsHeader line name = (judge_ini_file_linetype line ≡ line_section) × (section_part line ≡ some name)

fgets-append :
    (n : ℕ) (s r : Bytes)
    → Without newline_sign s
    → length s < n
    → fgets n (s ++ (newline_sign ∷ r)) ≡ (s ++ (newline_sign ∷ []), r)
unfolding fgets
fgets-append zero s r h l = absurd (omega arith)
fgets-append (suc n) [] r h l = refl
fgets-append (suc n) (c ∷ s) r h l = ground (arith, fgets-append n s r h.1)

title-IsBracketed :
    (p : Parameter) (s r : Bytes)
    → IsTitle (printed (length_or p.section_len s) s)
    → Without comma_sign r
    → Without equality_sign r
    → IsBracketed (printed (length_or p.section_len s) s) r
title-IsBracketed p s r h no_comma no_equality = record {
  nul = take-NoNul (length_or p.section_len s) (c_str s) (c_str-NoNul s);
  no_bracket = h.no_bracket;
  no_comma = h.no_comma;
  no_equality = h.no_equality;
  rest_no_comma = no_comma;
  rest_no_equality = no_equality;
}

-- The header at the beginning of a text: `fgets` reads one line, and an empty one behind it.
title_line :
    (name old : Bytes)
    → IsTitle name
    → fgets 1023
        ((left_bracket ∷ (name ++ (right_bracket ∷ newline_sign ∷ newline_sign ∷ []))) ++ old)
      ≡ (left_bracket ∷ (name ++ (right_bracket ∷ newline_sign ∷ [])), newline_sign ∷ old)
title_line name old h =
    let bare = left_bracket ∷ (name ++ (right_bracket ∷ [])) in
    let no_newline : Without newline_sign bare = (
      λ e. ground arith,
      All-append _ name (right_bracket ∷ []) h.no_newline (λ e. ground arith, tt),
    ) in
    let room : length bare < 1023 =
      omega (arith, length-append name (right_bracket ∷ []), h.short) in
    let text : (left_bracket ∷ (name ++ (right_bracket ∷ newline_sign ∷ newline_sign ∷ []))) ++ old
        ≡ bare ++ (newline_sign ∷ newline_sign ∷ old) =
      simp append_assoc in
    let line : bare ++ (newline_sign ∷ [])
        ≡ left_bracket ∷ (name ++ (right_bracket ∷ newline_sign ∷ [])) =
      simp append_assoc in
    ap (fgets 1023) text
    ∙ (fgets-append 1023 bare (newline_sign ∷ old) no_newline room
        ∙ ap (λ l. (l, newline_sign ∷ old)) line)

-- Where the name, cut at its length, has two bytes or more and at most 1020, and no `]`, semicolon,
-- `=` or newline, the line that is stored in memory is the header of the section with that name;
-- and so is the line that `fgets` with the program's buffer reads first from the text written to
-- the file, whatever stands behind it. The text ends with an empty line.
pub add_ini_section-IsHeader :
    (p : Parameter) (s : Bytes)
    → IsTitle (printed (length_or p.section_len s) s)
    → IsHeader (added_header p s) (printed (length_or p.section_len s) s)
      × ((line : Bytes) × IsHeader line (printed (length_or p.section_len s) s)
          × ((old : Bytes)
              → fgets 1023 (section_header s (length_or p.section_len s) ++ old)
                ≡ (line, newline_sign ∷ old)))
unfolding added_header section_header
add_ini_section-IsHeader p s h =
    let name = printed (length_or p.section_len s) s in
    let end : Bytes = newline_sign ∷ [] in
    (
      header_read_back name [] (title-IsBracketed p s [] h tt tt) h.long,
      (
        left_bracket ∷ (name ++ (right_bracket ∷ newline_sign ∷ [])),
        header_read_back name end
            (title-IsBracketed p s end h (λ e. ground arith, tt) (λ e. ground arith, tt)) h.long,
        λ old. title_line name old h,
      ),
    )
