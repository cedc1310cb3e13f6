-- ===== src/Rewrite/Delete/Turns.antt =====
-- What one turn of the loop of `rewrite_after_delete` does.
use mathlib.Core.List.{append-nil}
use ini.Base.{
  Bytes, Option, Option-cases, [], arith, false, inl, inr, length, none, refl, some, true, ℕ, ◌∙◌,
  ◌∷◌, ◌≡◌, ◌≢◌, ◌≤◌,
}
use ini.Line.{
  LineType, judge_ini_file_linetype, line_blank, line_error, line_keyvalue, line_note, line_section,
}
use ini.Line.Judge.{judge-keyvalue, judge-ne-keyvalue, judge-ne-section, judge-section}
use ini.Rewrite.{compare_key, compare_section, keep, skip}
use ini.Rewrite.Delete.{
  Deleting, Stage, delete_header, delete_key, delete_keyvalue, delete_section, delete_turn,
  finished, read_over, searching, seeking_key, stage_of, whole_section,
}
use ini.Rewrite.Delete.Stale.{holds_key-stale, judge-stale}
use ini.Rewrite.Loop.{IsReadable, holds_key, key_in, opens_section, same_key}
use ini.Text.{Sign, above, below, c_str, equality_sign, left_bracket, same, str_frist_constchar}
use ini.Text.Laws.{NoNul, NoNul-c_str, c_str-append}

abbrev pub at_stage : Stage → Sign → Bytes → Deleting
at_stage g r b = record { stage = g; ret = r; buffer = b }

-- Whatever the buffer holds, the line is read as it is written.
pub read_over-c_str : (l b : Bytes) → NoNul l → c_str (read_over l b) ≡ c_str l
unfolding c_str
read_over-c_str l [] h = refl
read_over-c_str l (c ∷ b) h = c_str-append l _ h ∙ rw (NoNul-c_str l h) (append-nil l)

judge-read_over :
    (l b : Bytes) → NoNul l → judge_ini_file_linetype (read_over l b) ≡ judge_ini_file_linetype l
judge-read_over l [] h = refl
judge-read_over l (c ∷ b) h = judge-stale l _ h

module _ (key : Bytes) (n : ℕ) (hk : NoNul key) (le : n ≤ length key) where
  holds_key-read_over :
      (l b : Bytes) → NoNul l → holds_key key n (read_over l b) ≡ holds_key key n l
  holds_key-read_over l [] h = refl
  holds_key-read_over l (c ∷ b) h = holds_key-stale key n l _ h hk le

module _ (section : Bytes) (sn : ℕ) (key : Option Bytes) (kn : ℕ) where
  -- Before the section the line is written; what `memcmp` said may stay in `ret`.
  pub turn_searching :
      (r : Sign) (l : Bytes)
      → IsReadable l
      → opens_section section sn l ≡ false
      → (r' : Sign) × (delete_turn section sn key kn (at_stage searching r []) l
          ≡ keep l (at_stage searching r' []))
  unfolding delete_turn delete_section delete_header delete_keyvalue opens_section
  turn_searching r l readable other = by_type (judge_ini_file_linetype l) refl
    where
      Goal : Type 0
      Goal =
          (r' : Sign) × (delete_turn section sn key kn (at_stage searching r []) l
            ≡ keep l (at_stage searching r' []))

      by_sign :
          (b : ℕ) (c : Option Sign)
          → judge_ini_file_linetype l ≡ line_section
          → str_frist_constchar l left_bracket ≡ some b
          → compare_section section sn l b ≡ c
          → Goal
      by_sign b none e f g = (r, ground arith)
      by_sign b (some same) e f g = absurd (ground arith)
      by_sign b (some below) e f g = (below, ground arith)
      by_sign b (some above) e f g = (above, ground arith)

      by_type : (y : LineType) → judge_ini_file_linetype l ≡ y → Goal
      by_type line_section e =
          let (b, q, f, f') = judge-section l e in
          by_sign b (compare_section section sn l b) e f refl
      by_type line_keyvalue e = (r, ground arith)
      by_type line_note e = (r, ground arith)
      by_type line_blank e = (r, ground arith)
      by_type line_error e = absurd (readable e)

  pub turn_header :
      (r : Sign) (l : Bytes)
      → opens_section section sn l ≡ true
      → delete_turn section sn key kn (at_stage searching r []) l
        ≡ skip (at_stage (stage_of key) same l)
  unfolding delete_turn delete_section delete_header delete_keyvalue opens_section
  turn_header r l opens = elim (Option-cases (str_frist_constchar l left_bracket)) [
    | inl m ↦ absurd (ground arith)
    | inr (b, e) ↦ ground arith
  ]

  pub turn_finished :
      (r : Sign) (b l : Bytes)
      → delete_turn section sn key kn (at_stage finished r b) l
        ≡ keep (read_over l b) (at_stage finished r [])
  unfolding delete_turn
  turn_finished r b l = refl

-- In the section of the key every line but the key's is written.
module _ (section : Bytes) (sn : ℕ) (key : Bytes) (kn : ℕ) (hk : NoNul key)
    (le : kn ≤ length key) where
  pub turn_seeking :
      (r : Sign) (b l : Bytes)
      → NoNul l
      → IsReadable l
      → judge_ini_file_linetype l ≢ line_section
      → holds_key key kn l ≡ false
      → (r' : Sign) × (delete_turn section sn (some key) kn (at_stage seeking_key r b) l
          ≡ keep (read_over l b) (at_stage seeking_key r' []))
  unfolding delete_turn delete_section delete_keyvalue delete_key holds_key key_in same_key
  turn_seeking r b l nul readable inside other = by_type (judge_ini_file_linetype l) refl
    where
      Goal : Type 0
      Goal =
          (r' : Sign) × (delete_turn section sn (some key) kn (at_stage seeking_key r b) l
            ≡ keep (read_over l b) (at_stage seeking_key r' []))

      over : Bytes
      over = read_over l b

      by_sign :
          (q : ℕ) (c : Option Sign)
          → judge_ini_file_linetype over ≡ line_keyvalue
          → holds_key key kn over ≡ false
          → str_frist_constchar over equality_sign ≡ some q
          → compare_key key kn over ≡ c
          → Goal
      by_sign q none e o f g = (r, ground arith)
      by_sign q (some same) e o f g = absurd (ground arith)
      by_sign q (some below) e o f g = (below, ground arith)
      by_sign q (some above) e o f g = (above, ground arith)

      judged : judge_ini_file_linetype over ≡ judge_ini_file_linetype l
      judged = judge-read_over l b nul

      by_type : (y : LineType) → judge_ini_file_linetype l ≡ y → Goal
      by_type line_section e = absurd (inside e)
      by_type line_keyvalue e =
          let (q, f, f') = judge-keyvalue over (judged ∙ e) in
          by_sign q (compare_key key kn over) (judged ∙ e)
            (holds_key-read_over key kn hk le l b nul ∙ other) f refl
      by_type line_note e = (r, ground (arith, judged))
      by_type line_blank e = (r, ground (arith, judged))
      by_type line_error e = absurd (readable e)

  pub turn_key :
      (r : Sign) (b l : Bytes)
      → NoNul l
      → holds_key key kn l ≡ true
      → delete_turn section sn (some key) kn (at_stage seeking_key r b) l
        ≡ skip (at_stage finished same (read_over l b))
  unfolding delete_turn delete_keyvalue delete_key holds_key key_in same_key
  turn_key r b l nul h =
      let over = read_over l b in
      let found : holds_key key kn over ≡ true = holds_key-read_over key kn hk le l b nul ∙ h in
      elim (Option-cases (str_frist_constchar over equality_sign)) [
        | inl m ↦ absurd (ground (arith, judge-ne-keyvalue over m))
        | inr (e, f) ↦ ground (arith, found)
      ]

-- In a section that is deleted the keys go, and all else is written.
module _ (section : Bytes) (sn : ℕ) (kn : ℕ) where
  pub turn_whole_key :
      (r : Sign) (b l : Bytes)
      → NoNul l
      → judge_ini_file_linetype l ≡ line_keyvalue
      → delete_turn section sn none kn (at_stage whole_section r b) l
        ≡ skip (at_stage whole_section r (read_over l b))
  unfolding delete_turn delete_keyvalue
  turn_whole_key r b l nul e = ground (arith, judge-read_over l b nul)

  pub turn_whole_other :
      (r : Sign) (b l : Bytes)
      → NoNul l
      → IsReadable l
      → judge_ini_file_linetype l ≢ line_section
      → judge_ini_file_linetype l ≢ line_keyvalue
      → delete_turn section sn none kn (at_stage whole_section r b) l
        ≡ keep (read_over l b) (at_stage whole_section r [])
  unfolding delete_turn delete_keyvalue
  turn_whole_other r b l nul readable e f = ground (arith, judge-read_over l b nul)

  pub turn_whole_next :
      (r : Sign) (b l : Bytes)
      → NoNul l
      → judge_ini_file_linetype l ≡ line_section
      → delete_turn section sn none kn (at_stage whole_section r b) l
        ≡ keep (read_over l b) (at_stage finished r [])
  unfolding delete_turn delete_section
  turn_whole_next r b l nul e =
      let over = read_over l b in
      elim (Option-cases (str_frist_constchar over left_bracket)) [
        | inl n ↦ absurd (ground (arith, judge-read_over l b nul, judge-ne-section over n))
        | inr (q, f) ↦ ground (arith, judge-read_over l b nul)
      ]
