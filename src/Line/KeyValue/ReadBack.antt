-- ===== src/Line/KeyValue/ReadBack.antt =====
-- How a line with a key and a value is judged and split.
use mathlib.Core.List.{append_assoc, append-nil}
use ini.Base.{
  All, All-append, All-mono, Bytes, Option, [], arith, drop-append, false, length, length-append,
  none, refl, some, sym, true, ℕ, ◌++◌, ◌+◌, ◌<◌, ◌==◌, ◌∷◌, ◌≡◌, ◌≢◌,
}
use ini.Line.{
  classify, is_space, judge_ini_file_linetype, key_part, line_keyvalue, value_end, value_part,
}
use ini.Line.KeyValue.{
  Entry, IsEntry, IsPlain, front, key_part_lem, note_text, render, value_part_lem,
}
use ini.Line.KeyValue.Span.{blanks_skip}
use ini.Text.{
  blanks, char_at, comma_sign, equality_sign, is_blank, left_bracket, newline_sign,
  str_frist_constchar,
}
use ini.Text.Laws.{
  IsBlank-Without, NoNul, Without, char_at_next, find_frist_endchar_lem, str_frist_constchar-append,
  str_frist_constchar-none, str_frist_constchar-past,
}

-- As `IsPlain`, with the newline let in.
abbrev pub IsQuiet : ℕ → Type 0
IsQuiet c = (c ≢ 0) × (c ≢ comma_sign) × (c ≢ left_bracket)

pub IsPlain-IsQuiet : (c : ℕ) → IsPlain c → IsQuiet c
IsPlain-IsQuiet c h = (h.0, h.1, h.2)

blank-IsQuiet : (c : ℕ) → is_blank c ≡ true → IsQuiet c
blank-IsQuiet c h = (λ e. ground arith, λ e. ground arith, λ e. ground arith)

pub space-IsQuiet : (c : ℕ) → is_space c ≡ true → IsQuiet c
space-IsQuiet c h = (λ e. ground arith, λ e. ground arith, λ e. ground arith)

-- What stands between the `=` and a note.
abbrev back : Entry → Bytes
back d = d.after ++ (d.value ++ d.trail)

-- The line without its note.
abbrev bare : Entry → Bytes
bare d = front d ++ (equality_sign ∷ back d)

render-bare : (d : Entry) → render d ≡ bare d ++ note_text d.note
render-bare d = simp append_assoc

module _ (d : Entry) (v : IsEntry d) where
  front-IsQuiet : All IsQuiet (front d)
  front-IsQuiet =
      All-append IsQuiet d.indent (d.key ++ d.before)
        (All-mono _ IsQuiet d.indent blank-IsQuiet v.indent_blank)
        (All-append IsQuiet d.key d.before (All-mono _ IsQuiet d.key IsPlain-IsQuiet v.key_plain)
          (All-mono _ IsQuiet d.before blank-IsQuiet v.before_blank))

  back-IsQuiet : All IsQuiet (back d)
  back-IsQuiet =
      All-append IsQuiet d.after (d.value ++ d.trail)
        (All-mono _ IsQuiet d.after blank-IsQuiet v.after_blank)
        (All-append IsQuiet d.value d.trail
          (All-mono _ IsQuiet d.value IsPlain-IsQuiet v.value_plain)
          (All-mono _ IsQuiet d.trail space-IsQuiet v.trail_space))

  bare-IsQuiet : All IsQuiet (bare d)
  bare-IsQuiet =
      All-append IsQuiet (front d) (equality_sign ∷ back d) front-IsQuiet
        ((λ e. ground arith, λ e. ground arith, λ e. ground arith), back-IsQuiet)

  front-Without : Without equality_sign (front d)
  front-Without =
      All-append _ d.indent (d.key ++ d.before)
        (IsBlank-Without d.indent equality_sign refl v.indent_blank)
        (All-append _ d.key d.before v.key_no_equality
          (IsBlank-Without d.before equality_sign refl v.before_blank))

  -- The `=` is the first one.
  pub equality_found : str_frist_constchar (render d) equality_sign ≡ some (length (front d))
  equality_found =
      str_frist_constchar-append (front d) _ equality_sign
        (All-mono IsQuiet _ (front d) (λ c h. h.0) front-IsQuiet) front-Without

  bare-NoNul : NoNul (bare d)
  bare-NoNul = All-mono IsQuiet _ (bare d) (λ c h. h.0) bare-IsQuiet

  bare_no_comma : Without comma_sign (bare d)
  bare_no_comma = All-mono IsQuiet _ (bare d) (λ c h. h.1) bare-IsQuiet

  bare_no_bracket : Without left_bracket (bare d)
  bare_no_bracket = All-mono IsQuiet _ (bare d) (λ c h. h.2) bare-IsQuiet

  back_length :
      length (bare d) ≡ length (front d) + 1 + length d.after + length d.value + length d.trail
  back_length = omega (
    arith,
    length-append (front d) (equality_sign ∷ back d),
    length-append d.after (d.value ++ d.trail),
    length-append d.value d.trail,
  )

-- The semicolon of the note, if there is one, and nothing of interest before it.
abbrev pub note_place : Entry → Option Bytes → Option ℕ
note_place d none = none
note_place d (some n) = some (length (bare d))

module _ (d : Entry) (v : IsEntry d) where
  comma_of :
      (n : Option Bytes) → str_frist_constchar (bare d ++ note_text n) comma_sign ≡ note_place d n
  comma_of none = rw append-nil (str_frist_constchar-none (bare d) comma_sign (bare_no_comma d v))
  comma_of (some n) =
      str_frist_constchar-append (bare d) n comma_sign (bare-NoNul d v) (bare_no_comma d v)

  end_of :
      (n : Option Bytes)
      → value_end (bare d ++ note_text n) (length (front d)) (note_place d n)
        ≡ length (front d) + 1 + length d.after + length d.value + length d.trail
  unfolding value_end
  end_of none =
      let tail_quiet = All-mono IsQuiet _ (back d) (λ c h. h.0) (back-IsQuiet d v) in
      rw (append-nil, drop-append (front d) (equality_sign ∷ back d))
        (rw (find_frist_endchar_lem (equality_sign ∷ back d) (λ e. ground arith, tail_quiet))
          (omega (arith, back_length d v, length-append (front d) (equality_sign ∷ back d))))
  end_of (some n) = back_length d v

  -- A line with a bracket behind the note's semicolon is still no section.
  classify_of :
      (n : Option Bytes) (pp : ℕ) (ob : Option ℕ)
      → ((b : ℕ) → ob ≡ some b → (m : Bytes) × (n ≡ some m) × (length (bare d) < b))
      → classify (bare d ++ note_text n) pp (note_place d n) ob (some (length (front d)))
        ≡ line_keyvalue
  unfolding classify
  classify_of none pp none h = refl
  classify_of none pp (some b) h = absurd (let (m, e, l) = h b refl in cc e)
  classify_of (some n) pp none h = ground (arith, back_length d v)
  classify_of (some n) pp (some b) h = let (m, e, l) = h b refl in ground (arith, back_length d v)

  bracket_of :
      (n : Option Bytes) (b : ℕ)
      → str_frist_constchar (bare d ++ note_text n) left_bracket ≡ some b
      → (m : Bytes) × (n ≡ some m) × (length (bare d) < b)
  bracket_of none b h =
      let clean = str_frist_constchar-none (bare d) left_bracket (bare_no_bracket d v) in
      absurd (cc (sym clean, rw append-nil at h))
  bracket_of (some n) b h = (
    n,
    refl,
    str_frist_constchar-past (bare d) n comma_sign left_bracket (omega arith) (bare_no_bracket d v)
        h,
  )

  -- The first byte that is not blank is the key's.
  key_head : (r : Bytes) → char_at (d.key ++ r) 0 ≢ newline_sign
  key_head r =
      rw v.key_trimmed.splits (head_of v.key_trimmed.start (rw v.key_trimmed.splits at v.key_plain))
    where
      head_of :
          (s : Bytes)
          → All IsPlain (s ++ (v.key_trimmed.last_byte ∷ []))
          → char_at ((s ++ (v.key_trimmed.last_byte ∷ [])) ++ r) 0 ≢ newline_sign
      head_of [] h = h.0.3
      head_of (c ∷ s) h = h.0.3

  head_of_line :
      (blanks (render d) ≡ length d.indent)
      × ((char_at (render d) (length d.indent) == newline_sign) ≡ false)
  head_of_line =
      let rest =
        d.before ++ (equality_sign ∷ (d.after ++ (d.value ++ (d.trail ++ note_text d.note)))) in
      let e : render d ≡ d.indent ++ (d.key ++ rest) = simp append_assoc in
      rw e (
        blanks_skip d.indent (d.key ++ rest) v.indent_blank (v.key_trimmed.head_solid rest),
        rw (char_at_next d.indent (d.key ++ rest)) (ground (arith, key_head rest)),
      )

  judge_of : judge_ini_file_linetype (render d) ≡ line_keyvalue
  unfolding judge_ini_file_linetype
  judge_of =
      let (place, first) = head_of_line in
      rw (place, first, equality_found d v)
        (rw (render-bare d, comma_of d.note)
          (classify_of d.note (length d.indent) _ (bracket_of d.note)))

  -- A line put together from a key and a value, with blanks round both and perhaps a note behind
  -- them, is judged a key and value, and the key and the value that are cut out of it are those.
  -- The two have no blank at their ends and no NUL, semicolon, left bracket or newline in them,
  -- and the key has no `=`.
  pub entry_read_back :
      (judge_ini_file_linetype (render d) ≡ line_keyvalue)
      × (str_frist_constchar (render d) equality_sign ≡ some (length (front d)))
      × (str_frist_constchar (render d) comma_sign ≡ note_place d d.note)
      × (key_part (render d) (length (front d)) ≡ some d.key)
      × (value_part (render d) (length (front d)) (note_place d d.note) ≡ some d.value)
  entry_read_back =
      (judge_of, equality_found d v, rw (render-bare d) (comma_of d.note), key_back, value_back)
    where
      key_back : key_part (render d) (length (front d)) ≡ some d.key
      key_back =
          let n : length (front d) ≡ length d.indent + length d.key + length d.before =
            omega
              (arith, length-append d.indent (d.key ++ d.before), length-append d.key d.before) in
          rw n (
            rw (append_assoc, append_assoc)
              (key_part_lem d.indent d.key d.before _ v.indent_blank v.key_trimmed v.before_blank))

      value_back : value_part (render d) (length (front d)) (note_place d d.note) ≡ some d.value
      value_back =
          value_part_lem (front d) d.after d.value d.trail (note_text d.note) _ v.after_blank
            v.value_trimmed v.trail_space (rw (render-bare d) (end_of d.note))
