-- ===== src/Rewrite/Update.antt =====
-- `rewrite_after_update`: the line of one key gets a new value.
pub mod Laws
use ini.Base.{
  Bool, Bytes, List, Option, [], drop, false, if◌then◌else◌, none, some, take, true, ℕ, ◌++◌, ◌+◌,
  ◌∷◌,
}
use ini.Line.{
  judge_ini_file_linetype, line_blank, line_error, line_keyvalue, line_note, line_section,
}
use ini.Memory.{M, error_parameter, fail, format_error, rewrite_error}
use ini.Rewrite.{
  Out, Parameter, Turn, abort, compare_key, compare_section, keep, printed, rewrite_loop,
  rewrite_with, written,
}
use ini.Store.{length_or}
use ini.Text.{
  blanks, c_str, comma_sign, equality_sign, left_bracket, newline_sign, same, str_frist_constchar,
  tab_sign,
}

-- The parameters, with their lengths set.
pub record Target : Type 0 where
  pub section : Bytes
  pub section_len : ℕ
  pub key : Bytes
  pub key_len : ℕ
  pub value : Bytes
  pub value_len : ℕ

-- `flag` (the section has been met) and `mod_flag` (the line has been changed).
pub record Progress : Type 0 where
  pub flag : Bool
  pub mod_flag : Bool

-- From the semicolon behind the value on, with a tab before it.
unfoldable pub kept_note : Bytes → ℕ → Bytes
kept_note line p = elim (str_frist_constchar (drop p line) comma_sign) [
  | none ↦ []
  | some c ↦ tab_sign ∷ c_str (drop (p + c) line)
]

-- The new line, for a `=` at `e`: the old one up to the value, the new value, the note, a newline.
unfoldable pub changed_line : Target → Bytes → ℕ → Bytes
unfolding kept_note
changed_line t line e =
    let p = e + 1 + blanks (drop (e + 1) line) in
    take p line ++ (printed t.value_len t.value ++ (kept_note line p ++ (newline_sign ∷ [])))

unfoldable pub update_section : Target → Progress → Bytes → Turn Progress
update_section t s line = elim (str_frist_constchar line left_bracket) [
  | none ↦ abort rewrite_error
  | some b ↦ elim (compare_section t.section t.section_len line b) [
    | some same ↦ keep line (record s { flag = true })
    | _ ↦ keep line s
  ]
]

unfoldable pub update_keyvalue : Target → Progress → Bytes → Turn Progress
update_keyvalue t s line =
    if s.flag
    then elim (str_frist_constchar line equality_sign) [
      | none ↦ abort rewrite_error
      | some e ↦ elim (compare_key t.key t.key_len line) [
        | some same ↦ keep (changed_line t line e) (record s { mod_flag = true })
        | _ ↦ keep line s
      ]
    ]
    else keep line s

unfoldable pub update_turn : Target → Progress → Bytes → Turn Progress
update_turn t s line = if s.mod_flag then keep line s else elim (judge_ini_file_linetype line) [
  | line_section ↦ update_section t s line
  | line_keyvalue ↦ update_keyvalue t s line
  | line_note ↦ keep line s
  | line_blank ↦ keep line s
  | line_error ↦ abort format_error
]

unfoldable pub update_loop : Target → List Bytes → Out
unfolding rewrite_loop update_turn
update_loop t =
    rewrite_loop (update_turn t) (λ s. written 0 []) (record { flag = false; mod_flag = false })

-- The parameters as a target; a NULL pointer is an error before any file is opened.
unfoldable pub update_target :
    Parameter → Option Bytes → Option Bytes → Option Bytes → Option Target
update_target p (some s) (some k) (some v) = some (record {
  section = s;
  section_len = length_or p.section_len s;
  key = k;
  key_len = length_or p.key_len k;
  value = v;
  value_len = length_or p.value_len v;
})
update_target p _ _ _ = none

unfoldable pub rewrite_after_update : Bytes → Parameter → M ℕ
unfolding update_target update_loop rewrite_with
rewrite_after_update name p = elim (update_target p p.section p.key p.value) [
  | none ↦ fail error_parameter
  | some t ↦ rewrite_with name (update_loop t)
]
