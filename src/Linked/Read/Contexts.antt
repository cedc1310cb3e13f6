-- ===== src/Linked/Read/Contexts.antt =====
-- What `initLineContext` of v1.0.0/inifile.c makes of the lines that `updateIniFile` writes.
use mathlib.Core.List.{append-nil}
use ini.Base.{
  All-append, Bool-cases, Bytes, [], ap, arith, drop-append, false, if◌then◌else◌, inl, inr, length,
  length-append, ltb, none, refl, some, subst, ℕ, ◌++◌, ◌+◌, ◌-◌, ◌<◌, ◌==◌, ◌∙◌, ◌∷◌, ◌≡◌, ◌≢◌,
  ◌≤◌,
}
use ini.Linked.{
  IniFile, done, error_type, list_ini_file_node_insert, new_node, node_type, notes_type,
  string_room,
}
use ini.Linked.Chars.{copy_begin_end, copy_bytes, find_ini_file_node, key_value_loop, past_blanks}
use ini.Linked.Read.{init_line_context, insert_note, tail_node}
use ini.Text.{
  char_at, comma_sign, equality_sign, is_blank, left_bracket, newline_sign, right_bracket,
  str_int_len,
}
use ini.Text.Laws.{NoNul, NoNul-c_str, Without, str_int_len-c_str}

pub str_int_len_lem : (s : Bytes) → NoNul s → str_int_len s ≡ length s
str_int_len_lem s h = str_int_len-c_str s ∙ ap length (NoNul-c_str s h)

copy_bytes-append : (s r : Bytes) → copy_bytes (length s) (s ++ r) ≡ s
unfolding copy_bytes
copy_bytes-append [] r = refl
copy_bytes-append (c ∷ s) r = ap (◌∷◌ c) (copy_bytes-append s r)

abbrev pub end_of_line : Bytes
end_of_line = newline_sign ∷ []

pub context_blank : (f : IniFile) → init_line_context f (newline_sign ∷ []) ≡ done (f, error_type)
unfolding init_line_context
context_blank f = refl

-- A part of a line that fits is copied.
pub copy_begin_end_lem :
    (a s r : Bytes) {e : ℕ}
    → length s ≤ string_room
    → e ≡ length a + length s
    → copy_begin_end (a ++ (s ++ r)) (length a) e ≡ done s
unfolding copy_begin_end
copy_begin_end_lem a s r l q =
    let ordered : ltb (length a + length s) (length a) ≡ false = ground arith in
    let many : length a + length s - length a ≡ length s = omega arith in
    let fits : ltb string_room (length s) ≡ false = ground arith in
    rw (q, ordered, many, fits, drop-append a (s ++ r), copy_bytes-append s r) refl

module _ (name : Bytes) (no_nul : NoNul name) where
  abbrev section_line : Bytes
  section_line = left_bracket ∷ (name ++ (right_bracket ∷ end_of_line))

  section_line-str_int_len : str_int_len section_line ≡ length name + 3
  section_line-str_int_len =
      let whole : NoNul section_line = (
        λ e. omega arith,
        All-append _ name (right_bracket ∷ end_of_line) no_nul
            (λ e. omega arith, (λ e. omega arith, tt)),
      ) in
      str_int_len_lem section_line whole
      ∙ omega (arith, length-append name (right_bracket ∷ end_of_line))

  pub context_section :
      (f : IniFile)
      → length name ≤ 63
      → find_ini_file_node f name ≡ none
      → init_line_context f (left_bracket ∷ (name ++ (right_bracket ∷ end_of_line)))
        ≡ done (list_ini_file_node_insert f (new_node name false), node_type)
  unfolding init_line_context
  context_section f l fresh =
      let long = section_line-str_int_len in
      let short : ltb 66 (length name + 3) ≡ false = ground arith in
      let end_at : length name + 3 - 2 ≡ length (left_bracket ∷ []) + length name = omega arith in
      let copied =
        copy_begin_end_lem (left_bracket ∷ []) name (right_bracket ∷ end_of_line) (omega arith)
          end_at in
      rw (long, short, copied, fresh) refl

module _ (b : Bytes) (no_nul : NoNul b) where
  abbrev note_line : Bytes
  note_line = comma_sign ∷ (b ++ end_of_line)

  note_line-str_int_len : str_int_len note_line ≡ length b + 2
  note_line-str_int_len =
      let whole : NoNul note_line =
        (λ e. omega arith, All-append _ b end_of_line no_nul (λ e. omega arith, tt)) in
      str_int_len_lem note_line whole ∙ omega (arith, length-append b end_of_line)

  note_copied : length b ≤ 62 → copy_begin_end note_line 1 (length b + 2) ≡ done (b ++ end_of_line)
  note_copied l =
      let many : length (b ++ end_of_line) ≡ length b + 1 = length-append b end_of_line in
      let copied =
        copy_begin_end_lem (comma_sign ∷ []) (b ++ end_of_line) [] {e = length b + 2}
          (rw many (omega arith)) (rw many (omega arith)) in
      subst (λ s. copy_begin_end (comma_sign ∷ s) 1 (length b + 2) ≡ done (b ++ end_of_line))
        (append-nil (b ++ end_of_line)) copied

  pub context_note :
      (f : IniFile)
      → length b ≤ 62
      → init_line_context f (comma_sign ∷ (b ++ end_of_line))
        ≡ done (insert_note f (b ++ end_of_line) (tail_node f.nodes), notes_type)
  unfolding init_line_context
  context_note f l =
      let short : ltb 64 (length b + 2) ≡ false = ground arith in
      rw (note_line-str_int_len, short, note_copied l) refl

-- The first byte of a line that is no blank.
abbrev pub first_solid : Bytes → ℕ
first_solid [] = 0
first_solid (c ∷ s) = if is_blank c then first_solid s else c

-- A key that is read as it was written.
pub record IsPlainKey (k : Bytes) : Type 0 where
  pub no_nul : NoNul k
  pub no_newline : Without newline_sign k
  pub no_equality : Without equality_sign k
  pub not_empty : 0 < length k
  pub no_note : char_at k 0 ≢ comma_sign
  pub no_section : first_solid k ≢ left_bracket

pub key_value_loop-append :
    (k r : Bytes) (i : ℕ)
    → NoNul k
    → Without equality_sign k
    → key_value_loop (k ++ (equality_sign ∷ r)) i ≡ i + length k
unfolding key_value_loop
key_value_loop-append [] r i h w = omega arith
key_value_loop-append (c ∷ []) r i h w = ground arith
key_value_loop-append (c ∷ d ∷ k) r i h w =
    ground (arith, key_value_loop-append (d ∷ k) r (i + 1) h.1 w.1)

pub past_blanks-append :
    (k r : Bytes)
    → NoNul k
    → Without newline_sign k
    → first_solid k ≢ left_bracket
    → (p : Bytes) × (past_blanks (k ++ (equality_sign ∷ r)) ≡ some p)
      × ((char_at p 0 == newline_sign) ≡ false)
      × ((char_at p 0 == left_bracket) ≡ false)
unfolding past_blanks
past_blanks-append [] r h w s = (equality_sign ∷ r, refl, refl, refl)
past_blanks-append (c ∷ k) r h w s = elim (Bool-cases (is_blank c)) [
  | inl e ↦
      let inner : first_solid k ≢ left_bracket = λ z. s (rw e z) in
      let (p, q, a, b) = past_blanks-append k r h.1 w.1 inner in
      let more : (char_at (k ++ (equality_sign ∷ r)) 0 == 0) ≡ false = by_key k h.1 in
      (p, rw (e, more) q, a, b)
  | inr e ↦
      let solid : c ≢ left_bracket = λ z. s (rw e z) in
      (c ∷ (k ++ (equality_sign ∷ r)), rw e refl, ground arith, ground arith)
]
  where
    by_key : (k : Bytes) → NoNul k → (char_at (k ++ (equality_sign ∷ r)) 0 == 0) ≡ false
    by_key [] h = refl
    by_key (c ∷ k) h = ground arith
