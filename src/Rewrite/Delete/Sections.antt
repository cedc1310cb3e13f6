-- ===== src/Rewrite/Delete/Sections.antt =====
-- What `rewrite_after_delete` writes when a section is deleted.
use ini.Base.{
  All, Bytes, List, [], arith, false, inl, inr, none, refl, true, ℕ, ◌++◌, ◌∷◌, ◌≡◌, ◌≢◌, ◌⊎◌,
}
use ini.Line.{
  LineType, judge_ini_file_linetype, line_blank, line_error, line_keyvalue, line_note, line_section,
}
use ini.Rewrite.{rewrite_loop, written}
use ini.Rewrite.Delete.{
  delete_finish, delete_loop, delete_turn, read_over, searching, stage_of, whole_section,
}
use ini.Rewrite.Delete.Laws.{finished_copies, searching_copies}
use ini.Rewrite.Delete.Turns.{
  at_stage, read_over-c_str, turn_header, turn_whole_key, turn_whole_next, turn_whole_other,
}
use ini.Rewrite.Loop.{IsReadable, copied, opens_section, written_end, written_keep, written_skip}
use ini.Text.{same}
use ini.Text.Laws.{NoNul}

-- What is left of a section that is deleted: its notes and blank lines.
unfoldable pub left_over : List Bytes → List Bytes
left_over [] = []
left_over (l ∷ ls) =
    let rest = left_over ls in
    elim (judge_ini_file_linetype l) [ line_keyvalue ↦ rest | _ ↦ l ∷ rest ]

dec_keyvalue :
    (l : Bytes)
    → (judge_ini_file_linetype l ≡ line_keyvalue) ⊎ (judge_ini_file_linetype l ≢ line_keyvalue)
dec_keyvalue l = by_type (judge_ini_file_linetype l)
  where
    by_type : (y : LineType) → (y ≡ line_keyvalue) ⊎ (y ≢ line_keyvalue)
    by_type line_keyvalue = inl refl
    by_type line_section = inr (λ e. cc)
    by_type line_note = inr (λ e. cc)
    by_type line_blank = inr (λ e. cc)
    by_type line_error = inr (λ e. cc)

left_over_other :
    (l : Bytes) (ls : List Bytes)
    → judge_ini_file_linetype l ≢ line_keyvalue
    → left_over (l ∷ ls) ≡ l ∷ left_over ls
unfolding left_over
left_over_other l ls e = ground arith

-- Where the section ends: at the end of the file, or at another header.
abbrev pub IsEnd : List Bytes → Type 0
IsEnd [] = Unit
IsEnd (l ∷ ls) = judge_ini_file_linetype l ≡ line_section

-- Where a section stands in a file: the lines before it, its header, its lines, and what follows.
pub record SectionSplit (section : Bytes) (sn : ℕ) (xs : List Bytes) (header : Bytes)
    (ys zs : List Bytes) : Type 0 where
  pub before_readable : All IsReadable xs
  pub before_other : All (λ l. opens_section section sn l ≡ false) xs
  pub opens : opens_section section sn header ≡ true
  pub inside_nul : All NoNul ys
  pub inside_readable : All IsReadable ys
  pub inside_section : All (λ l. judge_ini_file_linetype l ≢ line_section) ys
  pub after_nul : All NoNul zs
  pub after_end : IsEnd zs

module _ (section : Bytes) (sn : ℕ) (kn : ℕ) where
  -- From the section's end on all is copied.
  whole_end :
      (zs : List Bytes) (b : Bytes)
      → All NoNul zs
      → IsEnd zs
      → rewrite_loop
          (delete_turn section sn none kn)
          delete_finish
          (at_stage whole_section same b)
          zs
        ≡ written 0 (copied zs [])
  unfolding delete_finish
  whole_end [] b nul e = written_end (delete_turn section sn none kn) delete_finish _ refl
  whole_end (l ∷ zs) b nul e = rw (← read_over-c_str l b nul.0) (
      written_keep (delete_turn section sn none kn) delete_finish _ l zs
        (turn_whole_next section sn kn same b l nul.0 e)
        (finished_copies section sn none kn zs [] nul.1))

  whole_copies :
      (ys zs : List Bytes) (b : Bytes)
      → All NoNul ys
      → All IsReadable ys
      → All (λ l. judge_ini_file_linetype l ≢ line_section) ys
      → All NoNul zs
      → IsEnd zs
      → rewrite_loop
          (delete_turn section sn none kn)
          delete_finish
          (at_stage whole_section same b)
          (ys ++ zs)
        ≡ written 0 (copied (left_over ys) (copied zs []))
  unfolding left_over
  whole_copies [] zs b yn yr ys' zn ze = whole_end zs b zn ze
  whole_copies (l ∷ ys) zs b yn yr ys' zn ze = elim (dec_keyvalue l) [
    | inl e ↦
        let rest = whole_copies ys zs (read_over l b) yn.1 yr.1 ys'.1 zn ze in
        rw (e, left_over)
          (written_skip (delete_turn section sn none kn) delete_finish
            (at_stage whole_section same b) l (ys ++ zs)
            (turn_whole_key section sn kn same b l yn.0 e) rest)
    | inr e ↦
        let rest = whole_copies ys zs [] yn.1 yr.1 ys'.1 zn ze in
        rw (left_over_other l ys e, ← read_over-c_str l b yn.0)
          (written_keep (delete_turn section sn none kn) delete_finish
            (at_stage whole_section same b) l (ys ++ zs)
            (turn_whole_other section sn kn same b l yn.0 yr.0 ys'.0 e) rest)
  ]

  -- The header and the key lines of the section are left out; its notes and blank lines, and all
  -- other lines, are copied.
  pub delete_loop_section :
      (xs ys zs : List Bytes) (header : Bytes)
      → SectionSplit section sn xs header ys zs
      → delete_loop section sn none kn (xs ++ (header ∷ (ys ++ zs)))
        ≡ written 0 (copied xs (copied (left_over ys) (copied zs [])))
  unfolding delete_loop stage_of
  delete_loop_section xs ys zs header s =
      searching_copies section sn none kn xs _ same s.before_readable s.before_other λ r.
        written_skip (delete_turn section sn none kn) delete_finish (at_stage searching r []) header
          (ys ++ zs) (turn_header section sn none kn r header s.opens)
          (whole_copies ys zs header s.inside_nul s.inside_readable s.inside_section s.after_nul
            s.after_end)
