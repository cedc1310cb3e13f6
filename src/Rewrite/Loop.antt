-- ===== src/Rewrite/Loop.antt =====
-- The copying loop: lines that are kept, and how the result is put on the disk.
use ini.Base.{
  All, All-append_left, All-append_right, Bool, Bytes, List, [], arith, false, flatten, length,
  none, refl, some, true, ℕ, ◌++◌, ◌∙◌, ◌∷◌, ◌≡◌, ◌≢◌,
}
use ini.Line.{LineType, judge_ini_file_linetype, line_error, line_keyvalue, line_section}
use ini.Memory.{Error, World, ok}
use ini.Rewrite.{
  Out, Turn, abort, compare_key, compare_section, keep, re_name_ini_file, rewrite_loop,
  rewrite_with, skip, stopped, tmp_name, written,
}
use ini.Text.{c_str, left_bracket, read_lines, same, str_frist_constchar}
use ini.Text.Laws.{NoNul, NoNul-c_str}
use ini.Text.Lines.{flatten-read_lines}

-- The text of lines that are written as they were read, in front of other text.
abbrev pub copied : List Bytes → Bytes → Bytes
copied [] r = r
copied (l ∷ ls) r = c_str l ++ copied ls r

module _ {S : Type 0} (turn : S → Bytes → Turn S) (finish : S → Out) where
  pub written_end : (s : S) {o : Out} → finish s ≡ o → rewrite_loop turn finish s [] ≡ o
  unfolding rewrite_loop
  written_end s h = h

  pub written_keep :
      (s : S) (l : Bytes) (rest : List Bytes) {l' : Bytes} {s' : S} {r : ℕ} {out : Bytes}
      → turn s l ≡ keep l' s'
      → rewrite_loop turn finish s' rest ≡ written r out
      → rewrite_loop turn finish s (l ∷ rest) ≡ written r (c_str l' ++ out)
  unfolding rewrite_loop
  written_keep s l rest h k = rw (h, rewrite_loop) (rw k)

  pub written_skip :
      (s : S) (l : Bytes) (rest : List Bytes) {s' : S} {o : Out}
      → turn s l ≡ skip s'
      → rewrite_loop turn finish s' rest ≡ o
      → rewrite_loop turn finish s (l ∷ rest) ≡ o
  unfolding rewrite_loop
  written_skip s l rest h k = rw (h, rewrite_loop) k

  -- Lines that leave the state as it is are copied.
  pub written_copies :
      (s : S) (ls rest : List Bytes) {r : ℕ} {out : Bytes}
      → All (λ l. turn s l ≡ keep l s) ls
      → rewrite_loop turn finish s rest ≡ written r out
      → rewrite_loop turn finish s (ls ++ rest) ≡ written r (copied ls out)
  written_copies s [] rest h k = k
  written_copies s (l ∷ ls) rest h k =
      written_keep s l (ls ++ rest) h.0 (written_copies s ls rest h.1 k)

  pub written_copies_end :
      (s : S) (ls : List Bytes) {r : ℕ}
      → All (λ l. turn s l ≡ keep l s) ls
      → finish s ≡ written r []
      → rewrite_loop turn finish s ls ≡ written r (copied ls [])
  written_copies_end s [] h k = written_end s k
  written_copies_end s (l ∷ ls) h k = written_keep s l ls h.0 (written_copies_end s ls h.1 k)

  -- At a line that is refused the loop ends with the error, whatever has been written.
  pub stopped_at :
      (s : S) (ls : List Bytes) (l : Bytes) (rest : List Bytes) {e : Error}
      → All (λ l. turn s l ≡ keep l s) ls
      → turn s l ≡ abort e
      → rewrite_loop turn finish s (ls ++ (l ∷ rest)) ≡ stopped e
  unfolding rewrite_loop
  stopped_at s [] l rest h k = rw (k, rewrite_loop)
  stopped_at s (x ∷ ls) l rest h k = rw (h.0, rewrite_loop) (rw (stopped_at s ls l rest h.1 k))

-- A loop that ends well on the lines of the file replaces the file.
pub rewrite_with_written :
    (name : Bytes) (loop : List Bytes → Out) (w : World) (old : Bytes) {r : ℕ} {new : Bytes}
    → w.disk.content name ≡ some old
    → w.disk.writable (tmp_name name) ≡ true
    → loop (read_lines (length old) old) ≡ written r new
    → rewrite_with name loop w ≡ (ok r, re_name_ini_file name new w)
unfolding rewrite_with
rewrite_with_written name loop w old found open_ok ends =
    rw (found, rewrite_with) (rw open_ok (rw ends))

-- What the three loops look for in a line: the header of a section, or the line of a key.
unfoldable pub opens_section : Bytes → ℕ → Bytes → Bool
opens_section section n line = elim (judge_ini_file_linetype line) [
  | line_section ↦ elim (str_frist_constchar line left_bracket) [
    | none ↦ false
    | some b ↦ elim (compare_section section n line b) [ some same ↦ true | _ ↦ false ]
  ]
  | _ ↦ false
]

unfoldable pub same_key : Bytes → ℕ → Bytes → Bool
same_key key n line = elim (compare_key key n line) [ some same ↦ true | _ ↦ false ]

unfoldable pub key_in : LineType → Bool → Bool
key_in line_keyvalue b = b
key_in _ b = false

unfoldable pub holds_key : Bytes → ℕ → Bytes → Bool
unfolding same_key key_in
holds_key key n line = key_in (judge_ini_file_linetype line) (same_key key n line)

-- A line that the loops do not refuse.
abbrev pub IsReadable : Bytes → Type 0
IsReadable line = judge_ini_file_linetype line ≢ line_error

copied-flatten : (ls : List Bytes) → NoNul (flatten ls) → copied ls [] ≡ flatten ls
unfolding flatten
copied-flatten [] h = refl
copied-flatten (l ∷ ls) h =
    let first = NoNul-c_str l (All-append_left _ l (flatten ls) h) in
    let others = copied-flatten ls (All-append_right _ l (flatten ls) h) in rw (first, others)

-- What is copied of a file without NUL bytes is the file.
pub copied-read_lines : (s : Bytes) → NoNul s → copied (read_lines (length s) s) [] ≡ s
copied-read_lines s h =
    let e = flatten-read_lines (length s) s (omega arith) in
    copied-flatten (read_lines (length s) s) (rw e h) ∙ e
