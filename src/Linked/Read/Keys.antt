-- ===== src/Linked/Read/Keys.antt =====
-- What `initLineContext` of v1.0.0/inifile.c makes of a line with a key and a value.
use mathlib.Core.List.{append_assoc}
use ini.Base.{
  All-append, Bytes, Option-cases, [], ap, arith, false, inl, inr, length, length-append, ltb, none,
  refl, some, subst, true, ℕ, ◌++◌, ◌+◌, ◌-◌, ◌<◌, ◌==◌, ◌∙◌, ◌∷◌, ◌≡◌, ◌≤◌,
}
use ini.Linked.{IniFile, IniFileNode, done, error_type, key_value_type, string_room}
use ini.Linked.Chars.{copy_begin_end, delete_spacetab_begin, find_ini_key_value, is_key_value_line}
use ini.Linked.Read.{
  add_to_tail, init_line_context, init_line_key_value, init_line_rest, insert_in_list,
  insert_key_value, new_key_value, tail_node,
}
use ini.Linked.Read.Contexts.{
  IsPlainKey, copy_begin_end_lem, end_of_line, key_value_loop-append, past_blanks-append,
  str_int_len_lem,
}
use ini.Text.{char_at, comma_sign, equality_sign, left_bracket, newline_sign, str_int_len}
use ini.Text.Laws.{NoNul, Without}

char_at_first : (k r : Bytes) → 0 < length k → char_at (k ++ r) 0 ≡ char_at k 0
char_at_first [] r h = absurd (omega arith)
char_at_first (c ∷ k) r h = refl

first_not : (k : Bytes) (x : ℕ) → 0 < length k → Without x k → (char_at k 0 == x) ≡ false
first_not [] x h w = absurd (omega arith)
first_not (c ∷ k) x h w = ground arith

insert_in_list_lem :
    (f : IniFile) (line key : Bytes) (index : ℕ) (n : IniFileNode)
    → find_ini_key_value n key ≡ none
    → insert_in_list f line index key n ≡ insert_key_value f line index key
insert_in_list_lem f line key index n e = elim (Option-cases n.key_list) [
  | inl z ↦ rw z refl
  | inr (ks, z) ↦ rw (insert_in_list, z, e) refl
]

module _ (k v : Bytes) (key_ok : IsPlainKey k) (key_fits : length k ≤ string_room)
    (value_no_nul : NoNul v) (value_fits : length v ≤ string_room)
    (line_fits : length k + length v ≤ 126) where
  abbrev pair_line : Bytes
  pair_line = k ++ (equality_sign ∷ (v ++ end_of_line))

  pair_line-str_int_len : str_int_len pair_line ≡ length k + length v + 2
  pair_line-str_int_len =
      let whole : NoNul pair_line =
        All-append _ k (equality_sign ∷ (v ++ end_of_line)) key_ok.no_nul
          (λ e. omega arith, All-append _ v end_of_line value_no_nul (λ e. omega arith, tt)) in
      str_int_len_lem pair_line whole
      ∙ omega
          (arith, length-append k (equality_sign ∷ (v ++ end_of_line)), length-append v end_of_line)

  pair_key : copy_begin_end pair_line 0 (length k) ≡ done k
  pair_key =
      copy_begin_end_lem [] k (equality_sign ∷ (v ++ end_of_line)) {e = length k} key_fits
        (omega arith)

  pair_value : copy_begin_end pair_line (length k + 1) (length k + length v + 1) ≡ done v
  pair_value =
      let front = k ++ (equality_sign ∷ []) in
      let long : length front ≡ length k + 1 = length-append k (equality_sign ∷ []) in
      let copied =
        copy_begin_end_lem front v end_of_line {e = length k + length v + 1} value_fits
          (rw long (omega arith)) in
      subst (λ (x : Bytes × ℕ). copy_begin_end x.0 x.1 (length k + length v + 1) ≡ done v)
        (ap (λ (s : Bytes). (s, length front))
            (append_assoc k (equality_sign ∷ []) (v ++ end_of_line))
          ∙ ap (λ (m : ℕ). (pair_line, m)) long)
        copied

  pair_index : is_key_value_line pair_line ≡ length k
  unfolding is_key_value_line
  pair_index =
      key_value_loop-append k (v ++ end_of_line) 0 key_ok.no_nul key_ok.no_equality ∙ omega arith

  abbrev with_pair : IniFile → IniFile
  with_pair f = record f { nodes = add_to_tail f.nodes (new_key_value k v) }

  pair_inserted :
      (f : IniFile) (n : IniFileNode)
      → tail_node f.nodes ≡ some n
      → n.is_note ≡ false
      → find_ini_key_value n k ≡ none
      → init_line_key_value f pair_line (length k) ≡ done (with_pair f, error_type)
  unfolding init_line_key_value
  pair_inserted f n tail_is section_is fresh =
      let last : length k + length v + 2 - 1 ≡ length k + length v + 1 = omega arith in
      let put : insert_key_value f pair_line (length k) k ≡ done (with_pair f, error_type) =
        rw (pair_line-str_int_len, last, pair_value) refl in
      rw (init_line_key_value, tail_is, section_is, pair_key)
        (insert_in_list_lem f pair_line k (length k) n fresh ∙ put)

  pair_rest :
      (f : IniFile) (n : IniFileNode)
      → tail_node f.nodes ≡ some n
      → n.is_note ≡ false
      → find_ini_key_value n k ≡ none
      → init_line_rest f pair_line ≡ done (with_pair f, key_value_type)
  unfolding init_line_rest
  pair_rest f n tail_is section_is fresh =
      let head_is = char_at_first k (equality_sign ∷ (v ++ end_of_line)) key_ok.not_empty in
      let no_note : (char_at k 0 == comma_sign) ≡ false = ground (arith, key_ok.no_note) in
      let some_index : ltb 0 (length k) ≡ true = ground (arith, key_ok.not_empty) in
      let short : ltb 128 (length k + length v + 2) ≡ false = ground arith in
      rw
        (
          init_line_rest,
          head_is,
          no_note,
          pair_index,
          some_index,
          pair_line-str_int_len,
          short,
          pair_inserted f n tail_is section_is fresh,
        )
        refl

  pair_start :
      (p : Bytes) × (delete_spacetab_begin pair_line ≡ some p)
      × ((char_at p 0 == newline_sign) ≡ false)
      × ((char_at p 0 == left_bracket) ≡ false)
  unfolding delete_spacetab_begin
  pair_start =
      let head_is = char_at_first k (equality_sign ∷ (v ++ end_of_line)) key_ok.not_empty in
      let no_line = first_not k newline_sign key_ok.not_empty key_ok.no_newline in
      let (p, rest_is, a, b) =
        past_blanks-append k (v ++ end_of_line) key_ok.no_nul key_ok.no_newline key_ok.no_section in
      (p, rw (delete_spacetab_begin, head_is, no_line) rest_is, a, b)

  pub context_pair :
      (f : IniFile) (n : IniFileNode)
      → tail_node f.nodes ≡ some n
      → n.is_note ≡ false
      → find_ini_key_value n k ≡ none
      → init_line_context f pair_line ≡ done (with_pair f, key_value_type)
  unfolding init_line_context
  context_pair f n tail_is section_is fresh =
      let (p, start_is, a, b) = pair_start in
      rw (init_line_context, start_is, a, b) (pair_rest f n tail_is section_is fresh)
