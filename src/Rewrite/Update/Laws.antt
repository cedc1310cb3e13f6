-- ===== src/Rewrite/Update/Laws.antt =====
-- What `rewrite_after_update` writes.
use ini.Base.{
  All, Bytes, List, Option-cases, [], arith, false, inl, inr, refl, some, true, ℕ, ◌++◌, ◌∷◌, ◌≡◌,
}
use ini.Line.Judge.{judge-ne-keyvalue, judge-ne-section}
use ini.Rewrite.{Out, Turn, keep, written}
use ini.Rewrite.Loop.{
  IsReadable, copied, holds_key, opens_section, written_copies, written_copies_end, written_keep,
}
use ini.Rewrite.Update.{
  Progress, Target, changed_line, update_keyvalue, update_loop, update_section, update_turn,
}
use ini.Text.{c_str, equality_sign, left_bracket, str_frist_constchar}

abbrev before_section : Progress
before_section = record { flag = false; mod_flag = false }

abbrev in_section : Progress
in_section = record { flag = true; mod_flag = false }

abbrev changed : Progress
changed = record { flag = true; mod_flag = true }

module _ (t : Target) where
  update_turn_other :
      (l : Bytes)
      → IsReadable l
      → opens_section t.section t.section_len l ≡ false
      → update_turn t before_section l ≡ keep l before_section
  unfolding update_turn update_section update_keyvalue opens_section
  update_turn_other l r h = elim (Option-cases (str_frist_constchar l left_bracket)) [
    | inl n ↦ ground (arith, judge-ne-section l n)
    | inr (b, e) ↦ ground arith
  ]

  update_turn_header :
      (l : Bytes)
      → opens_section t.section t.section_len l ≡ true
      → update_turn t before_section l ≡ keep l in_section
  unfolding update_turn update_section update_keyvalue opens_section
  update_turn_header l h = ground arith

  update_turn_inside :
      (l : Bytes)
      → IsReadable l
      → holds_key t.key t.key_len l ≡ false
      → update_turn t in_section l ≡ keep l in_section
  unfolding update_turn update_section update_keyvalue holds_key
  update_turn_inside l r h = elim (Option-cases (str_frist_constchar l equality_sign)) [
    | inl m ↦ elim (Option-cases (str_frist_constchar l left_bracket)) [
      | inl n ↦ ground (arith, judge-ne-section l n, judge-ne-keyvalue l m)
      | inr (b, e) ↦ ground (arith, judge-ne-keyvalue l m)
    ]
    | inr (q, p) ↦ elim (Option-cases (str_frist_constchar l left_bracket)) [
      | inl n ↦ ground (arith, judge-ne-section l n)
      | inr (b, e) ↦ ground arith
    ]
  ]

  update_turn_key :
      (l : Bytes) (e : ℕ)
      → str_frist_constchar l equality_sign ≡ some e
      → holds_key t.key t.key_len l ≡ true
      → update_turn t in_section l ≡ keep (changed_line t l e) changed
  unfolding update_turn update_section update_keyvalue holds_key
  update_turn_key l e he h = ground arith

-- Which lines of a file an update passes over, and which it works on.
pub record Splits (t : Target) (xs : List Bytes) (header : Bytes) (ys : List Bytes) (line : Bytes)
    : Type 0 where
  pub before_readable : All IsReadable xs
  pub before_other : All (λ l. opens_section t.section t.section_len l ≡ false) xs
  pub opens : opens_section t.section t.section_len header ≡ true
  pub inside_readable : All IsReadable ys
  pub inside_other : All (λ l. holds_key t.key t.key_len l ≡ false) ys
  pub holds : holds_key t.key t.key_len line ≡ true

module _ (t : Target) where
  turns_other :
      (xs : List Bytes)
      → All IsReadable xs
      → All (λ l. opens_section t.section t.section_len l ≡ false) xs
      → All (λ l. update_turn t before_section l ≡ keep l before_section) xs
  turns_other [] r h = tt
  turns_other (l ∷ xs) r h = (update_turn_other t l r.0 h.0, turns_other xs r.1 h.1)

  turns_inside :
      (ys : List Bytes)
      → All IsReadable ys
      → All (λ l. holds_key t.key t.key_len l ≡ false) ys
      → All (λ l. update_turn t in_section l ≡ keep l in_section) ys
  turns_inside [] r h = tt
  turns_inside (l ∷ ys) r h = (update_turn_inside t l r.0 h.0, turns_inside ys r.1 h.1)

  turns_changed : (zs : List Bytes) → All (λ l. update_turn t changed l ≡ keep l changed) zs
  unfolding update_turn
  turns_changed [] = tt
  turns_changed (l ∷ zs) = (refl, turns_changed zs)

  -- The section's header is looked for, then the key's line behind it. That line is written anew,
  -- and every other line is copied.
  pub update_loop_lem :
      (xs ys zs : List Bytes) (header line : Bytes) (e : ℕ)
      → Splits t xs header ys line
      → str_frist_constchar line equality_sign ≡ some e
      → update_loop t (xs ++ (header ∷ (ys ++ (line ∷ zs))))
        ≡ written 0
            (copied xs (c_str header ++ copied ys (c_str (changed_line t line e) ++ copied zs [])))
  unfolding update_loop
  update_loop_lem xs ys zs header line e s he =
      written_copies turn finish before_section xs _
        (turns_other xs s.before_readable s.before_other)
        (written_keep turn finish before_section header _ (update_turn_header t header s.opens) (
          written_copies turn finish in_section ys _
            (turns_inside ys s.inside_readable s.inside_other)
            (written_keep turn finish in_section line zs (update_turn_key t line e he s.holds)
              (written_copies_end turn finish changed zs (turns_changed zs) refl))))
    where
      turn : Progress → Bytes → Turn Progress
      turn = update_turn t

      finish : Progress → Out
      finish s = written 0 []
