-- ===== src/Rewrite/Add/Laws.antt =====
-- What `rewrite_after_add` writes.
use ini.Base.{
  All, All-append, Bytes, List, Option-cases, [], arith, false, inl, inr, refl, some, true, ◌++◌,
  ◌∷◌, ◌≡◌,
}
use ini.Line.Judge.{judge-ne-section}
use ini.Rewrite.{keep, printed, written}
use ini.Rewrite.Add.{Addition, add_loop, add_section, add_turn, key_line, put_key_line}
use ini.Rewrite.Loop.{
  IsReadable, copied, opens_section, written_copies, written_copies_end, written_keep,
}
use ini.Text.{c_str, left_bracket, newline_sign, str_frist_constchar}
use ini.Text.Laws.{NoNul, NoNul-c_str, c_str-NoNul, take-NoNul}

key_line-NoNul : (a : Addition) (v : Bytes) → NoNul (key_line a v)
unfolding key_line
key_line-NoNul a v =
    All-append _ (printed a.key_len a.key) _
      (take-NoNul a.key_len (c_str a.key) (c_str-NoNul a.key))
      (λ e. ground arith, (λ e. ground arith, (λ e. ground arith, last_part)))
  where
    last_part : NoNul (printed a.value_len v ++ (newline_sign ∷ []))
    last_part =
        All-append _ (printed a.value_len v) _ (take-NoNul a.value_len (c_str v) (c_str-NoNul v))
          (λ e. ground arith, tt)

module _ (a : Addition) where
  add_turn_other :
      (l : Bytes)
      → IsReadable l
      → opens_section a.section a.section_len l ≡ false
      → add_turn a false l ≡ keep l false
  unfolding add_turn add_section opens_section
  add_turn_other l r h = elim (Option-cases (str_frist_constchar l left_bracket)) [
    | inl n ↦ ground (arith, judge-ne-section l n)
    | inr (b, e) ↦ ground arith
  ]

  pub add_turn_header :
      (l : Bytes) {v : Bytes}
      → a.value ≡ some v
      → opens_section a.section a.section_len l ≡ true
      → add_turn a false l ≡ keep (c_str l ++ key_line a v) true
  unfolding add_turn add_section put_key_line opens_section
  add_turn_header l {v} e h = elim (Option-cases (str_frist_constchar l left_bracket)) [
    | inl n ↦ absurd (ground arith)
    | inr (b, f) ↦
        let put : put_key_line a l ≡ keep (c_str l ++ key_line a v) true =
          rw (put_key_line, e) refl in
        ground (arith, put)
  ]

  turns_other :
      (xs : List Bytes)
      → All IsReadable xs
      → All (λ l. opens_section a.section a.section_len l ≡ false) xs
      → All (λ l. add_turn a false l ≡ keep l false) xs
  turns_other [] r h = tt
  turns_other (l ∷ xs) r h = (add_turn_other l r.0 h.0, turns_other xs r.1 h.1)

  turns_added : (zs : List Bytes) → All (λ l. add_turn a true l ≡ keep l true) zs
  unfolding add_turn
  turns_added [] = tt
  turns_added (l ∷ zs) = (refl, turns_added zs)

  pub written_line : (l v : Bytes) → c_str (c_str l ++ key_line a v) ≡ c_str l ++ key_line a v
  written_line l v =
      NoNul-c_str _ (All-append _ (c_str l) (key_line a v) (c_str-NoNul l) (key_line-NoNul a v))

  -- The new line stands right behind the header of its section; all other lines are copied.
  pub add_loop_lem :
      (xs zs : List Bytes) (header v : Bytes)
      → a.value ≡ some v
      → All IsReadable xs
      → All (λ l. opens_section a.section a.section_len l ≡ false) xs
      → opens_section a.section a.section_len header ≡ true
      → add_loop a false (xs ++ (header ∷ zs))
        ≡ written 0 (copied xs ((c_str header ++ key_line a v) ++ copied zs []))
  unfolding add_loop
  add_loop_lem xs zs header v e r h found =
      written_copies (add_turn a) (λ s. written 0 []) false xs _ (turns_other xs r h)
        (rw (written_line header v) at (
          written_keep (add_turn a) (λ s. written 0 []) false header zs
            (add_turn_header header e found)
            (written_copies_end (add_turn a) (λ s. written 0 []) true zs (turns_added zs) refl)))

  -- Once the flag is set all lines are copied.
  pub add_loop-true : (zs : List Bytes) → add_loop a true zs ≡ written 0 (copied zs [])
  unfolding add_loop
  add_loop-true zs =
      written_copies_end (add_turn a) (λ s. written 0 []) true zs (turns_added zs) refl
