-- ===== src/Rewrite/Delete.antt =====
-- `rewrite_after_delete`: the lines of a section, or the line of one key, are left out.
pub mod Stale
pub mod Turns
pub mod Laws
pub mod Sections
use ini.Base.{Bytes, List, Option, [], drop, length, none, some, ℕ, ◌++◌, ◌∷◌}
use ini.Line.{
  judge_ini_file_linetype, line_blank, line_error, line_keyvalue, line_note, line_section,
}
use ini.Memory.{M, error_parameter, fail, format_error, memcmp_below, rewrite_error}
use ini.Rewrite.{
  Out, Parameter, Turn, abort, compare_key, compare_section, given_len, keep, rewrite_loop,
  rewrite_with, skip, stopped, written,
}
use ini.Store.{length_or}
use ini.Text.{Sign, above, below, equality_sign, left_bracket, same, str_frist_constchar}

-- `flag`: 0, no section met; 1, in the section that is deleted; 2, in the section of the key that
-- is deleted; 3, done.
pub data Stage : Type 0 where
  searching whole_section seeking_key finished : Stage

pub record Deleting : Type 0 where
  pub stage : Stage
  pub ret : Sign
  pub buffer : Bytes

-- `fgets` writes a line and a NUL over what the buffer holds.
abbrev pub read_over : Bytes → Bytes → Bytes
read_over chunk [] = chunk
read_over chunk (c ∷ old) = chunk ++ (0 ∷ drop (length chunk) old)

-- The line is written, and the buffer is cleared.
abbrev pub kept : Deleting → Bytes → Turn Deleting
kept s line = keep line (record s { buffer = [] })

unfoldable pub stage_of : Option Bytes → Stage
stage_of none = whole_section
stage_of (some k) = seeking_key

-- A section's line; the header that is looked for is skipped (`continue`).
unfoldable pub delete_header : Bytes → ℕ → Option Bytes → Deleting → Bytes → ℕ → Turn Deleting
unfolding compare_section stage_of
delete_header section n key s line b = elim (compare_section section n line b) [
  | none ↦ kept s line
  | some same ↦ skip (record { stage = stage_of key; ret = same; buffer = line })
  | some below ↦ kept (record s { ret = below }) line
  | some above ↦ kept (record s { ret = above }) line
]

unfoldable pub delete_section : Bytes → ℕ → Option Bytes → Deleting → Bytes → Turn Deleting
unfolding delete_header
delete_section section n key s line = elim (str_frist_constchar line left_bracket) [
  | none ↦ abort rewrite_error
  | some b ↦ elim s.stage [
    | whole_section ↦ kept (record s { stage = finished }) line
    | seeking_key ↦ kept (record s { stage = finished }) line
    | searching ↦ delete_header section n key s line b
    | finished ↦ delete_header section n key s line b
  ]
]

unfoldable pub delete_key : Bytes → ℕ → Deleting → Bytes → Turn Deleting
unfolding compare_key
delete_key key n s line = elim (str_frist_constchar line equality_sign) [
  | none ↦ abort rewrite_error
  | some e ↦ elim (compare_key key n line) [
    | none ↦ kept s line
    | some same ↦ skip (record { stage = finished; ret = same; buffer = line })
    | some below ↦ kept (record s { ret = below }) line
    | some above ↦ kept (record s { ret = above }) line
  ]
]

-- `key` is the key to delete, or none for the whole section.
unfoldable pub delete_keyvalue : Option Bytes → ℕ → Deleting → Bytes → Turn Deleting
unfolding delete_key
delete_keyvalue key n s line = elim s.stage [
  | whole_section ↦ skip (record s { buffer = line })
  | seeking_key ↦ elim key [ none ↦ kept s line | some k ↦ delete_key k n s line ]
  | searching ↦ kept s line
  | finished ↦ kept s line
]

unfoldable pub delete_turn : Bytes → ℕ → Option Bytes → ℕ → Deleting → Bytes → Turn Deleting
delete_turn section n key m s chunk =
    let line = read_over chunk s.buffer in
    let searched : Turn Deleting = elim (judge_ini_file_linetype line) [
      | line_section ↦ delete_section section n key s line
      | line_keyvalue ↦ delete_keyvalue key m s line
      | line_note ↦ kept s line
      | line_blank ↦ kept s line
      | line_error ↦ abort format_error
    ] in
    elim s.stage [
      | finished ↦ kept s line
      | searching ↦ searched
      | whole_section ↦ searched
      | seeking_key ↦ searched
    ]

-- `ret` is what the last `memcmp` left: it is not set to 0 behind the loop.
unfoldable pub delete_finish : Deleting → Out
delete_finish s = elim s.ret [
  | same ↦ written 0 []
  | above ↦ written 1 []
  | below ↦ stopped memcmp_below
]

abbrev pub delete_start : Deleting
delete_start = record { stage = searching; ret = same; buffer = [] }

unfoldable pub delete_loop : Bytes → ℕ → Option Bytes → ℕ → List Bytes → Out
unfolding rewrite_loop delete_turn delete_finish
delete_loop section n key m = rewrite_loop (delete_turn section n key m) delete_finish delete_start

unfoldable pub rewrite_after_delete : Bytes → Parameter → M ℕ
unfolding delete_loop rewrite_with
rewrite_after_delete name p = elim p.section [
  | none ↦ fail error_parameter
  | some s ↦
      rewrite_with name
        (delete_loop s (length_or p.section_len s) p.key (given_len p.key_len p.key))
]
