-- ===== src/Rewrite/ReadBack.antt =====
-- The changed line of an update, and how it is read.
use mathlib.Core.List.{append_assoc, append-nil}
use ini.Base.{
  All, All-append, All-mono, Bytes, Option, [], arith, drop, drop-append, length, length-append,
  none, refl, some, take-append, true, ℕ, ◌++◌, ◌+◌, ◌∷◌, ◌≡◌,
}
use ini.Line.{is_space, judge_ini_file_linetype, key_part, line_keyvalue, value_part}
use ini.Line.KeyValue.{Entry, IsEntry, IsPlain, IsTrimmed, front, note_text, render}
use ini.Line.KeyValue.ReadBack.{IsPlain-IsQuiet, IsQuiet, entry_read_back, space-IsQuiet}
use ini.Line.KeyValue.Span.{blanks_skip, drop_past}
use ini.Rewrite.{printed}
use ini.Rewrite.Update.{Target, changed_line, kept_note}
use ini.Text.{blanks, c_str, comma_sign, equality_sign, newline_sign, str_frist_constchar, tab_sign}
use ini.Text.Laws.{Without, str_frist_constchar-append, str_frist_constchar-none}

-- The entry that a changed line is: the new value, and the note behind a tab.
abbrev pub renewed : Entry → Bytes → Option Bytes → Entry
renewed d new none = record d { value = new; trail = newline_sign ∷ []; note = none }
renewed d new (some n) = record d {
  value = new;
  trail = tab_sign ∷ [];
  note = some (c_str n ++ (newline_sign ∷ []));
}

module _ (d : Entry) (v : IsEntry d) where
  -- Where the value starts.
  abbrev start_of : ℕ
  start_of = length (front d) + 1 + blanks (drop (length (front d) + 1) (render d))

  abbrev head_of : Bytes
  head_of = front d ++ (equality_sign ∷ d.after)

  start_found : start_of ≡ length head_of
  start_found =
      let e =
        drop_past (front d) equality_sign (d.after ++ (d.value ++ (d.trail ++ note_text d.note))) in
      let b =
        blanks_skip d.after (d.value ++ (d.trail ++ note_text d.note)) v.after_blank
          (v.value_trimmed.head_solid (d.trail ++ note_text d.note)) in
      rw (e, b) (omega (arith, length-append (front d) (equality_sign ∷ d.after)))

  render_parts : render d ≡ head_of ++ (d.value ++ (d.trail ++ note_text d.note))
  render_parts = simp append_assoc

  worth-IsQuiet : All IsQuiet (d.value ++ d.trail)
  worth-IsQuiet =
      All-append IsQuiet d.value d.trail (All-mono _ IsQuiet d.value IsPlain-IsQuiet v.value_plain)
        (All-mono _ IsQuiet d.trail space-IsQuiet v.trail_space)

  worth_no_comma : Without comma_sign (d.value ++ d.trail)
  worth_no_comma = All-mono IsQuiet _ (d.value ++ d.trail) (λ c h. h.1) worth-IsQuiet

  -- The note is kept from its semicolon on.
  note_found :
      (n : Bytes)
      → str_frist_constchar (d.value ++ (d.trail ++ (comma_sign ∷ n))) comma_sign
        ≡ some (length (d.value ++ d.trail))
  note_found n = rw (← append_assoc d.value d.trail (comma_sign ∷ n)) (
      str_frist_constchar-append (d.value ++ d.trail) n comma_sign
        (All-mono IsQuiet _ (d.value ++ d.trail) (λ c h. h.0) worth-IsQuiet) worth_no_comma)

  no_note : str_frist_constchar (d.value ++ (d.trail ++ [])) comma_sign ≡ none
  no_note =
      rw (append-nil d.trail)
        (str_frist_constchar-none (d.value ++ d.trail) comma_sign worth_no_comma)

  kept_note-none : kept_note (head_of ++ (d.value ++ (d.trail ++ []))) (length head_of) ≡ []
  unfolding kept_note
  kept_note-none = rw (drop-append head_of (d.value ++ (d.trail ++ [])), kept_note) (rw no_note)

  kept_note-some :
      (n : Bytes)
      → kept_note (head_of ++ (d.value ++ (d.trail ++ (comma_sign ∷ n)))) (length head_of)
        ≡ tab_sign ∷ comma_sign ∷ c_str n
  unfolding kept_note c_str
  kept_note-some n =
      let line = head_of ++ (d.value ++ (d.trail ++ (comma_sign ∷ n))) in
      let whole : (head_of ++ (d.value ++ d.trail)) ++ (comma_sign ∷ n) ≡ line =
        simp append_assoc in
      let place : length head_of + length (d.value ++ d.trail)
          ≡ length (head_of ++ (d.value ++ d.trail)) =
        omega (arith, length-append head_of (d.value ++ d.trail)) in
      let behind : drop (length head_of + length (d.value ++ d.trail)) line ≡ comma_sign ∷ n =
        rw (place, ← whole) (drop-append (head_of ++ (d.value ++ d.trail)) (comma_sign ∷ n)) in
      rw (drop-append head_of (d.value ++ (d.trail ++ (comma_sign ∷ n))), kept_note)
        (rw (note_found n) (rw behind refl))

-- A line is read back as the entry of a key, with its `=` at `e`, and a value.
abbrev pub ReadsBack : Bytes → ℕ → Bytes → Bytes → Type 0
ReadsBack line e key value =
    (judge_ini_file_linetype line ≡ line_keyvalue)
    × (str_frist_constchar line equality_sign ≡ some e)
    × (key_part line e ≡ some key)
    × (value_part line e (str_frist_constchar line comma_sign) ≡ some value)

pub entry-ReadsBack :
    (d : Entry) → IsEntry d → ReadsBack (render d) (length (front d)) d.key d.value
entry-ReadsBack d v =
    let (judged, equality, comma, key, value) = entry_read_back d v in
    (judged, equality, key, rw comma value)

module _ (d : Entry) (v : IsEntry d) (t : Target) where
  changed_line-render :
      changed_line t (render d) (length (front d))
      ≡ render (renewed d (printed t.value_len t.value) d.note)
  unfolding changed_line
  changed_line-render =
      rw (start_found d v, render_parts d v)
        (rw (take-append (head_of d v) (d.value ++ (d.trail ++ note_text d.note))) (by_note d.note))
    where
      new : Bytes
      new = printed t.value_len t.value

      by_note :
          (o : Option Bytes)
          → head_of d v
              ++ (new
                  ++ (kept_note
                        (head_of d v ++ (d.value ++ (d.trail ++ note_text o)))
                        (length (head_of d v))
                      ++ (newline_sign ∷ [])))
            ≡ render (renewed d new o)
      by_note none = rw (kept_note-none d v) (simp append_assoc)
      by_note (some n) = rw (kept_note-some d v n) (simp append_assoc)

  IsEntry-with :
      (new trail : Bytes) (noted : Option Bytes)
      → IsTrimmed is_space new
      → All IsPlain new
      → All (λ c. is_space c ≡ true) trail
      → IsEntry (record d { value = new; trail = trail; note = noted })
  IsEntry-with new trail noted trimmed plain space = record {
    indent_blank = v.indent_blank;
    before_blank = v.before_blank;
    after_blank = v.after_blank;
    trail_space = space;
    key_trimmed = v.key_trimmed;
    value_trimmed = trimmed;
    key_plain = v.key_plain;
    key_no_equality = v.key_no_equality;
    value_plain = plain;
  }

  -- The line that an update writes for a key, in place of any line with blanks round the key and
  -- the value and perhaps a note behind them, is read back as the line of that key and the new
  -- value, where the new value has no blank at its ends and no NUL, semicolon, left bracket or
  -- newline in it.
  pub changed_line-ReadsBack :
      IsTrimmed is_space (printed t.value_len t.value)
      → All IsPlain (printed t.value_len t.value)
      → ReadsBack
          (changed_line t (render d) (length (front d)))
          (length (front d))
          d.key
          (printed t.value_len t.value)
  changed_line-ReadsBack trimmed plain = rw changed_line-render (by_note d.note)
    where
      by_note :
          (o : Option Bytes)
          → ReadsBack
              (render (renewed d (printed t.value_len t.value) o))
              (length (front d))
              d.key
              (printed t.value_len t.value)
      by_note none =
          entry-ReadsBack _ (IsEntry-with _ (newline_sign ∷ []) none trimmed plain (refl, tt))
      by_note (some n) = entry-ReadsBack _ (
          IsEntry-with _ (tab_sign ∷ []) (some (c_str n ++ (newline_sign ∷ []))) trimmed plain
            (refl, tt))
