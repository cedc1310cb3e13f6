-- ===== src/Rewrite/Delete/Laws.antt =====
-- What `rewrite_after_delete` writes when a key is deleted.
use ini.Base.{
  All, Bytes, List, Option, [], false, length, refl, some, true, ℕ, ◌++◌, ◌∷◌, ◌≡◌, ◌≢◌, ◌≤◌,
}
use ini.Line.{judge_ini_file_linetype, line_section}
use ini.Rewrite.{Turn, rewrite_loop, written}
use ini.Rewrite.Delete.{
  Deleting, delete_finish, delete_loop, delete_turn, finished, searching, seeking_key, stage_of,
}
use ini.Rewrite.Delete.Turns.{
  at_stage, read_over-c_str, turn_finished, turn_header, turn_key, turn_searching, turn_seeking,
}
use ini.Rewrite.Loop.{
  IsReadable, copied, holds_key, opens_section, written_end, written_keep, written_skip,
}
use ini.Text.{Sign, same}
use ini.Text.Laws.{NoNul}

module _ (section : Bytes) (sn : ℕ) (key : Option Bytes) (kn : ℕ) where
  pub searching_copies :
      (xs rest : List Bytes) (r : Sign) {v : ℕ} {out : Bytes}
      → All IsReadable xs
      → All (λ l. opens_section section sn l ≡ false) xs
      → ((r' : Sign)
          → rewrite_loop
              (delete_turn section sn key kn)
              delete_finish
              (at_stage searching r' [])
              rest
            ≡ written v out)
      → rewrite_loop
          (delete_turn section sn key kn)
          delete_finish
          (at_stage searching r [])
          (xs ++ rest)
        ≡ written v (copied xs out)
  searching_copies [] rest r h k next = next r
  searching_copies (l ∷ xs) rest r h k next =
      let (r', e) = turn_searching section sn key kn r l h.0 k.0 in
      written_keep (delete_turn section sn key kn) delete_finish _ l (xs ++ rest) e
        (searching_copies xs rest r' h.1 k.1 next)

  pub finished_copies :
      (zs : List Bytes) (b : Bytes)
      → All NoNul zs
      → rewrite_loop (delete_turn section sn key kn) delete_finish (at_stage finished same b) zs
        ≡ written 0 (copied zs [])
  unfolding delete_finish
  finished_copies [] b h = written_end (delete_turn section sn key kn) delete_finish _ refl
  finished_copies (l ∷ zs) b h = rw (← read_over-c_str l b h.0) (
      written_keep (delete_turn section sn key kn) delete_finish _ l zs
        (turn_finished section sn key kn same b l) (finished_copies zs [] h.1))

-- The section's own lines, up to the key that is deleted.
module _ (section : Bytes) (sn : ℕ) (key : Bytes) (kn : ℕ) (hk : NoNul key)
    (le : kn ≤ length key) where
  seeking_copies :
      (ys rest : List Bytes) (r : Sign) (b : Bytes) {v : ℕ} {out : Bytes}
      → All NoNul ys
      → All IsReadable ys
      → All (λ l. judge_ini_file_linetype l ≢ line_section) ys
      → All (λ l. holds_key key kn l ≡ false) ys
      → ((r' : Sign) (b' : Bytes)
          → rewrite_loop
              (delete_turn section sn (some key) kn)
              delete_finish
              (at_stage seeking_key r' b')
              rest
            ≡ written v out)
      → rewrite_loop
          (delete_turn section sn (some key) kn)
          delete_finish
          (at_stage seeking_key r b)
          (ys ++ rest)
        ≡ written v (copied ys out)
  seeking_copies [] rest r b nul h s k next = next r b
  seeking_copies (l ∷ ys) rest r b nul h s k next =
      let (r', e) = turn_seeking section sn key kn hk le r b l nul.0 h.0 s.0 k.0 in
      rw (← read_over-c_str l b nul.0) (
        written_keep (delete_turn section sn (some key) kn) delete_finish _ l (ys ++ rest) e
          (seeking_copies ys rest r' [] nul.1 h.1 s.1 k.1 next))

-- Where a key stands in a file: the lines before its section, the header, the section's lines
-- before the key, and the key's line. `fgets` reads no NUL in them.
pub record KeySplit (section : Bytes) (sn : ℕ) (key : Bytes) (kn : ℕ) (xs : List Bytes)
    (header : Bytes) (ys : List Bytes) (line : Bytes) : Type 0 where
  pub before_readable : All IsReadable xs
  pub before_other : All (λ l. opens_section section sn l ≡ false) xs
  pub opens : opens_section section sn header ≡ true
  pub inside_nul : All NoNul ys
  pub inside_readable : All IsReadable ys
  pub inside_section : All (λ l. judge_ini_file_linetype l ≢ line_section) ys
  pub inside_other : All (λ l. holds_key key kn l ≡ false) ys
  pub line_nul : NoNul line
  pub holds : holds_key key kn line ≡ true

-- The line of the key is left out, and so is the header of its section: the lines that are
-- written are those before the header, those between it and the key, and those behind the key.
pub delete_loop_key :
    (section : Bytes) (sn : ℕ) (key : Bytes) (kn : ℕ) (xs ys zs : List Bytes) (header line : Bytes)
    → NoNul key
    → kn ≤ length key
    → KeySplit section sn key kn xs header ys line
    → All NoNul zs
    → delete_loop section sn (some key) kn (xs ++ (header ∷ (ys ++ (line ∷ zs))))
      ≡ written 0 (copied xs (copied ys (copied zs [])))
unfolding delete_loop stage_of
delete_loop_key section sn key kn xs ys zs header line hk le s zn =
    searching_copies section sn (some key) kn xs _ same s.before_readable s.before_other λ r.
      written_skip turn delete_finish (at_stage searching r []) header (ys ++ (line ∷ zs))
        (turn_header section sn (some key) kn r header s.opens)
        (seeking_copies section sn key kn hk le ys (line ∷ zs) same header s.inside_nul
          s.inside_readable s.inside_section s.inside_other
          λ r' b'.
            written_skip turn delete_finish (at_stage seeking_key r' b') line zs
              (turn_key section sn key kn hk le r' b' line s.line_nul s.holds)
              (finished_copies section sn (some key) kn zs _ zn))
  where
    turn : Deleting → Bytes → Turn Deleting
    turn = delete_turn section sn (some key) kn
