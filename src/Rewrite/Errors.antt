-- ===== src/Rewrite/Errors.antt =====
-- Which errors the turns of the three loops leave with.
use ini.Base.{
  Bool, Bytes, List, Option, Option-cases, [], arith, false, inl, inr, refl, true, ℕ, ◌∷◌, ◌≡◌, ◌≢◌,
}
use ini.Line.{
  LineType, judge_ini_file_linetype, line_blank, line_error, line_keyvalue, line_note, line_section,
}
use ini.Line.Judge.{judge-ne-keyvalue, judge-ne-section}
use ini.Memory.{Error, format_error, memcmp_below, rewrite_error}
use ini.Rewrite.{
  Out, Turn, abort, crash, crashed, keep, rewrite_loop, skip, stopped, write_then, written,
}
use ini.Rewrite.Add.{Addition, add_section, add_turn, put_key_line}
use ini.Rewrite.Delete.{
  Deleting, Stage, delete_finish, delete_header, delete_key, delete_keyvalue, delete_loop,
  delete_section, delete_start, delete_turn, finished, kept, read_over, searching, seeking_key,
  whole_section,
}
use ini.Rewrite.Update.{Progress, Target, update_keyvalue, update_section, update_turn}
use ini.Text.{Sign, above, below, equality_sign, left_bracket, same, str_frist_constchar}

pub write_then-ne : (e : Error) (l : Bytes) (o : Out) → o ≢ stopped e → write_then l o ≢ stopped e
write_then-ne e l (written r s) h p = ground arith
write_then-ne e l (stopped f) h p = h p
write_then-ne e l crashed h p = ground arith

module _ {S : Type 0} (turn : S → Bytes → Turn S) (finish : S → Out) (e : Error) where
  turn-ne :
      (u : Turn S) (ls : List Bytes)
      → u ≢ abort e
      → ((s : S) → rewrite_loop turn finish s ls ≢ stopped e)
      → (elim u as (λ _. Out) [
        | keep l s ↦ write_then l (rewrite_loop turn finish s ls)
        | skip s ↦ rewrite_loop turn finish s ls
        | abort f ↦ stopped f
        | crash ↦ crashed
      ])
        ≢ stopped e
  turn-ne (keep l s) ls h rest = write_then-ne e l (rewrite_loop turn finish s ls) (rest s)
  turn-ne (skip s) ls h rest = rest s
  turn-ne (abort f) ls h rest = λ p. h (ground arith)
  turn-ne crash ls h rest = λ p. ground arith

  -- An error that no turn leaves with, the loop does not end with.
  pub rewrite_loop-ne :
      ((s : S) (l : Bytes) → turn s l ≢ abort e)
      → ((s : S) → finish s ≢ stopped e)
      → (ls : List Bytes) (s : S) → rewrite_loop turn finish s ls ≢ stopped e
  unfolding rewrite_loop
  rewrite_loop-ne ht hf [] s = hf s
  rewrite_loop-ne ht hf (l ∷ ls) s =
      let rest = rewrite_loop-ne ht hf ls in turn-ne (turn s l) ls (ht s l) rest

pub update_turn-ne :
    (t : Target) (s : Progress) (l : Bytes) → update_turn t s l ≢ abort rewrite_error
unfolding update_turn update_section update_keyvalue
update_turn-ne t s l p = elim (Option-cases (str_frist_constchar l equality_sign)) [
  | inl m ↦ elim (Option-cases (str_frist_constchar l left_bracket)) [
    | inl n ↦ ground (arith, judge-ne-section l n, judge-ne-keyvalue l m)
    | inr (b, e) ↦ ground (arith, judge-ne-keyvalue l m)
  ]
  | inr (q, m) ↦ elim (Option-cases (str_frist_constchar l left_bracket)) [
    | inl n ↦ ground (arith, judge-ne-section l n)
    | inr (b, e) ↦ ground arith
  ]
]

pub add_turn-ne : (a : Addition) (s : Bool) (l : Bytes) → add_turn a s l ≢ abort rewrite_error
unfolding add_turn add_section put_key_line
add_turn-ne a true l p = ground arith
add_turn-ne a false l p = elim (Option-cases (str_frist_constchar l left_bracket)) [
  | inl n ↦ ground (arith, judge-ne-section l n)
  | inr (b, e) ↦ elim (Option-cases a.value) [ inl f ↦ ground arith | inr (v, f) ↦ ground arith ]
]

module _ (section : Bytes) (n : ℕ) (key : Option Bytes) (m : ℕ) where
  delete_section-ne :
      (s : Deleting) (l : Bytes)
      → judge_ini_file_linetype l ≡ line_section
      → delete_section section n key s l ≢ abort rewrite_error
  unfolding delete_section delete_header
  delete_section-ne s l j p = elim (Option-cases (str_frist_constchar l left_bracket)) [
    | inl f ↦ judge-ne-section l f j
    | inr (b, e) ↦ ground arith
  ]

  delete_keyvalue-ne :
      (s : Deleting) (l : Bytes)
      → judge_ini_file_linetype l ≡ line_keyvalue
      → delete_keyvalue key m s l ≢ abort rewrite_error
  unfolding delete_keyvalue delete_key
  delete_keyvalue-ne s l j p = elim (Option-cases (str_frist_constchar l equality_sign)) [
    | inl f ↦ judge-ne-keyvalue l f j
    | inr (b, e) ↦ ground arith
  ]

  searched-ne :
      (s : Deleting) (l : Bytes) (y : LineType)
      → judge_ini_file_linetype l ≡ y
      → (elim y as (λ _. Turn Deleting) [
        | line_section ↦ delete_section section n key s l
        | line_keyvalue ↦ delete_keyvalue key m s l
        | line_note ↦ kept s l
        | line_blank ↦ kept s l
        | line_error ↦ abort format_error
      ])
        ≢ abort rewrite_error
  searched-ne s l line_section j = delete_section-ne s l j
  searched-ne s l line_keyvalue j = delete_keyvalue-ne s l j
  searched-ne s l line_note j = λ p. ground arith
  searched-ne s l line_blank j = λ p. ground arith
  searched-ne s l line_error j = λ p. ground arith

  delete_turn-ne :
      (s : Deleting) (l : Bytes) → delete_turn section n key m s l ≢ abort rewrite_error
  unfolding delete_turn
  delete_turn-ne s l = by_stage s.stage
    where
      line : Bytes
      line = read_over l s.buffer

      searched : Turn Deleting
      searched = elim (judge_ini_file_linetype line) [
        | line_section ↦ delete_section section n key s line
        | line_keyvalue ↦ delete_keyvalue key m s line
        | line_note ↦ kept s line
        | line_blank ↦ kept s line
        | line_error ↦ abort format_error
      ]

      by_stage :
          (g : Stage)
          → (elim g as (λ _. Turn Deleting) [
            | finished ↦ kept s line
            | searching ↦ searched
            | whole_section ↦ searched
            | seeking_key ↦ searched
          ])
            ≢ abort rewrite_error
      by_stage finished = λ p. ground arith
      by_stage searching = searched-ne s line (judge_ini_file_linetype line) refl
      by_stage whole_section = searched-ne s line (judge_ini_file_linetype line) refl
      by_stage seeking_key = searched-ne s line (judge_ini_file_linetype line) refl

  pub delete_loop-ne : (ls : List Bytes) → delete_loop section n key m ls ≢ stopped rewrite_error
  unfolding delete_loop
  delete_loop-ne ls =
      rewrite_loop-ne (delete_turn section n key m) delete_finish rewrite_error delete_turn-ne
        (λ s. finish-ne s.ret) ls delete_start
    where
      finish-ne :
          (r : Sign)
          → (elim r as (λ _. Out) [
            | same ↦ written 0 []
            | above ↦ written 1 []
            | below ↦ stopped memcmp_below
          ])
            ≢ stopped rewrite_error
      finish-ne same = λ p. ground arith
      finish-ne above = λ p. ground arith
      finish-ne below = λ p. ground arith
