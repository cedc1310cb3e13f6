-- ===== src/Line.antt =====
-- How v2.0.0/inifile.c reads one line: its kind (`judge_ini_file_linetype`), and the parts of a
-- line that `init_line_key_val` and `init_line_section` store.
pub mod Judge
pub mod KeyValue
pub mod Section
use ini.Base.{
  Bool, Bytes, Option, drop, if◌then◌else◌, ltb, none, some, suc, take, zero, ℕ, ◌&&◌, ◌+◌, ◌-◌,
  ◌==◌, ◌||◌,
}
use ini.Text.{
  blanks, char_at, comma_sign, equality_sign, find_frist_endchar, is_blank, left_bracket,
  newline_sign, right_bracket, str_frist_constchar,
}

pub data LineType : Type 0 where
  line_section line_keyvalue line_note line_blank line_error : LineType

-- `while(pp < p_comma)`: `n` is what is left of the distance. Any other byte before the
-- semicolon is an error.
unfoldable pub note_loop : ℕ → Bytes → ℕ → LineType
note_loop zero line pp = line_note
note_loop (suc n) line pp =
    let rest = note_loop n line (pp + 1) in if is_blank (char_at line pp) then rest else line_error

abbrev pub note_before : Bytes → ℕ → ℕ → LineType
note_before line pp c = note_loop (c - pp) line pp

-- `q_brack && q_brack < p_comma`
unfoldable pub section_before : Option ℕ → ℕ → LineType
section_before none c = line_error
section_before (some q) c = if ltb q c then line_section else line_error

-- `q_brack && q_brack > p_brack`
unfoldable pub section_after : Option ℕ → ℕ → LineType
section_after none b = line_error
section_after (some q) b = if ltb b q then line_section else line_error

-- The ladder of tests on `p_comma`, `p_brack` and `p_equ`.
unfoldable pub classify : Bytes → ℕ → Option ℕ → Option ℕ → Option ℕ → LineType
unfolding section_before section_after
classify line pp (some c) (some b) (some e) =
    if ltb c b && ltb c e
    then note_before line pp c
    else if ltb b c && ltb e c
    then line_error
    else if ltb b c
    then section_before (str_frist_constchar line right_bracket) c
    else line_keyvalue
classify line pp (some c) (some b) none =
    if ltb c b
    then note_before line pp c
    else section_before (str_frist_constchar line right_bracket) c
classify line pp (some c) none (some e) = if ltb c e then note_before line pp c else line_keyvalue
classify line pp (some c) none none = note_before line pp c
classify line pp none (some b) (some e) = line_error
classify line pp none (some b) none = section_after (str_frist_constchar line right_bracket) b
classify line pp none none (some e) = line_keyvalue
classify line pp none none none = line_error

unfoldable pub judge_ini_file_linetype : Bytes → LineType
judge_ini_file_linetype line =
    let pp = blanks line in
    if char_at line pp == newline_sign
    then line_blank
    else classify line pp (str_frist_constchar line comma_sign)
        (str_frist_constchar line left_bracket) (str_frist_constchar line equality_sign)

-- `*pp == CONTENT_NEELINE_SIGN || *pp == CONTENT_TAB_SIGN || *pp == CONTENT_SPACE_SIGN`
abbrev pub is_space : ℕ → Bool
is_space c = c == newline_sign || is_blank c

-- Where `while(…) pp--;` from the place before `n` stops. `none`: every byte from the start of the
-- line on is skipped, and `pp` has left the buffer, below every position in it.
unfoldable pub last_before : (ℕ → Bool) → Bytes → ℕ → Option ℕ
last_before skip line zero = none
last_before skip line (suc n) = if skip (char_at line n) then last_before skip line n else some n

-- `pp < p` is the error; else `len` bytes from `p` are stored.
unfoldable pub span : Bytes → ℕ → Option ℕ → Option Bytes
span line p none = none
span line p (some q) = if ltb q p then none else some (take (q - p + 1) (drop p line))

-- The key: what stands before the `=` at `e`, trimmed.
unfoldable pub key_part : Bytes → ℕ → Option Bytes
unfolding span last_before
key_part line e = span line (blanks line) (last_before is_blank line e)

unfoldable pub value_end : Bytes → ℕ → Option ℕ → ℕ
value_end line e (some c) = c
value_end line e none = e + find_frist_endchar (drop e line)

-- The value: what stands after the `=` at `e`, before a semicolon, trimmed.
unfoldable pub value_part : Bytes → ℕ → Option ℕ → Option Bytes
unfolding span last_before value_end
value_part line e comma =
    span line (e + 1 + blanks (drop (e + 1) line))
      (last_before is_space line (value_end line e comma))

-- `p_brack++; q_brack--; if(p_brack < q_brack)`: a name of fewer than two bytes is refused.
-- The `]` may stand before the `[`, at the start of the line: `q_brack` is then below it.
unfoldable pub section_part : Bytes → Option Bytes
section_part line = elim (str_frist_constchar line left_bracket) [
  | none ↦ none
  | some b ↦ elim (str_frist_constchar line right_bracket) [
    | none ↦ none
    | some q ↦ if ltb (b + 2) q then some (take (q - b - 1) (drop (b + 1) line)) else none
  ]
]
