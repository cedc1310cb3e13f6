-- ===== src/Rewrite/Add.antt =====
-- `rewrite_after_add`: a new section at the head of the file, or a new key behind the header of its
-- section.
use mathlib.Core.Option
pub mod Laws
use ini.Base.{Bool, Bytes, List, Option, [], false, none, some, true, ℕ, ◌++◌, ◌∷◌}
use ini.Line.{
  judge_ini_file_linetype, line_blank, line_error, line_keyvalue, line_note, line_section,
}
use ini.Memory.{M, error_parameter, fail, format_error, rewrite_error}
use ini.Rewrite.{
  Out, Parameter, Turn, abort, compare_section, crash, given_len, keep, printed, rewrite_loop,
  rewrite_with, write_then, written,
}
use ini.Store.{length_or}
use ini.Text.{
  c_str, equality_sign, left_bracket, newline_sign, right_bracket, same, str_frist_constchar,
  tab_sign,
}

-- The key and the value to add, with their lengths set, and the section.
pub record Addition : Type 0 where
  pub section : Bytes
  pub section_len : ℕ
  pub key : Bytes
  pub key_len : ℕ
  pub value : Option Bytes
  pub value_len : ℕ

-- "\t=\t"
abbrev pub equality_text : Bytes
equality_text = tab_sign ∷ equality_sign ∷ tab_sign ∷ []

-- The line for the key, with the value that is not NULL.
unfoldable pub key_line : Addition → Bytes → Bytes
key_line a value =
    printed a.key_len a.key ++ (equality_text ++ (printed a.value_len value ++ (newline_sign ∷ [])))

-- `snprintf` of a NULL value is not defined.
unfoldable pub put_key_line : Addition → Bytes → Turn Bool
unfolding key_line
put_key_line a line = elim a.value [
  | none ↦ crash
  | some v ↦ keep (c_str line ++ key_line a v) true
]

-- What `line` holds when the header has been met: the header, and behind it the new line.
unfoldable pub add_section : Addition → Bytes → Turn Bool
unfolding put_key_line
add_section a line = elim (str_frist_constchar line left_bracket) [
  | none ↦ abort rewrite_error
  | some b ↦ elim (compare_section a.section a.section_len line b) [
    | some same ↦ put_key_line a line
    | _ ↦ keep line false
  ]
]

-- The state is `flag`: the line has been added.
unfoldable pub add_turn : Addition → Bool → Bytes → Turn Bool
add_turn a true line = keep line true
add_turn a false line = elim (judge_ini_file_linetype line) [
  | line_section ↦ add_section a line
  | line_keyvalue ↦ keep line false
  | line_note ↦ keep line false
  | line_blank ↦ keep line false
  | line_error ↦ abort format_error
]

unfoldable pub add_loop : Addition → Bool → List Bytes → Out
unfolding rewrite_loop add_turn
add_loop a flag = rewrite_loop (add_turn a) (λ s. written 0 []) flag

-- "[<section>]\n\n"
unfoldable pub section_header : Bytes → ℕ → Bytes
section_header s n =
    left_bracket ∷ (printed n s ++ (right_bracket ∷ newline_sign ∷ newline_sign ∷ []))

-- A NULL key adds a section: its header is written before the first line is read.
unfoldable pub add_with : Bytes → ℕ → Parameter → Option Bytes → List Bytes → Out
unfolding add_loop section_header
add_with s n p none lines = write_then (section_header s n) (
    add_loop
      (record {
        section = s;
        section_len = n;
        key = [];
        key_len = p.key_len;
        value = p.value;
        value_len = p.value_len;
      })
      true lines)
add_with s n p (some k) lines =
    add_loop
      (record {
        section = s;
        section_len = n;
        key = k;
        key_len = length_or p.key_len k;
        value = p.value;
        value_len = given_len p.value_len p.value;
      })
      false lines

unfoldable pub rewrite_after_add : Bytes → Parameter → M ℕ
unfolding add_with rewrite_with
rewrite_after_add name p = elim p.section [
  | none ↦ fail error_parameter
  | some s ↦ rewrite_with name (add_with s (length_or p.section_len s) p p.key)
]
