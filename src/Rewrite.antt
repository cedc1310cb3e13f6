-- ===== src/Rewrite.antt =====
-- The functions of v2.0.0/inifile.c that write a changed copy of a file and put it in its place.
-- The line buffer of 1024 bytes is the list of its bytes, 0 behind them.
pub mod Loop
pub mod Changes
pub mod Changed
pub mod Update
pub mod Add
pub mod Delete
pub mod Renamed
pub mod Safe
pub mod Errors
pub mod Unused
pub mod Whole
pub mod ReadBack
pub mod Added
use ini.Base.{
  Bytes, List, Option, [], bytes_eq, drop, if◌then◌else◌, length, none, not, some, take, ℕ, ◌++◌,
  ◌+◌, ◌==◌, ◌||◌, ◌∷◌,
}
use ini.Memory.{Disk, Error, M, World, err, fault, no_exist, ok}
use ini.Store.{length_or}
use ini.Text.{
  Sign, blanks, c_str, char_at, equality_sign, is_blank, memcmp, read_lines, right_bracket,
}

-- INI_PARAMETER: a NULL pointer is `none`, and a length of 0 stands for any that is not positive.
pub record Parameter : Type 0 where
  pub section : Option Bytes
  pub section_len : ℕ
  pub key : Option Bytes
  pub key_len : ℕ
  pub value : Option Bytes
  pub value_len : ℕ

-- `parameter->section_len` after it has been set, and so for the key and the value.
abbrev pub given_len : ℕ → Option Bytes → ℕ
given_len n none = n
given_len n (some s) = length_or n s

-- `tem_suff_name`, ".tmp"
abbrev pub tmp_name : Bytes → Bytes
tmp_name name = name ++ (b'.' ∷ b't' ∷ b'm' ∷ b'p' ∷ [])

abbrev pub set_content : Bytes → Option Bytes → Disk → Disk
set_content name c d = record d { content = λ n. if bytes_eq name n then c else d.content n }

-- `rm -rf <filename>.tmp`: a copy that was made can be removed.
unfoldable pub delete_tmp_name_file : Bytes → World → World
delete_tmp_name_file name w = record w { disk = set_content (tmp_name name) none w.disk }

-- `rm -rf <filename> && mv <filename>.tmp <filename>`, where `.tmp` holds `text`: `mv` is run where
-- `rm` was successful.
unfoldable pub after_commands : Bytes → Bytes → Disk → Disk
after_commands name text d =
    if not (d.removable name)
    then set_content (tmp_name name) (some text) d
    else if not (d.movable name)
    then set_content name none (set_content (tmp_name name) (some text) d)
    else set_content name (some text) (set_content (tmp_name name) none d)

-- What the shell returns is not looked at.
unfoldable pub re_name_ini_file : Bytes → Bytes → World → World
unfolding after_commands
re_name_ini_file name text w = record w { disk = after_commands name text w.disk }

-- `snprintf(p,len + 1,"%s",s)`: at most `len` bytes.
abbrev pub printed : ℕ → Bytes → Bytes
printed n s = take n (c_str s)

-- `*q_char == CONTENT_RIGHT_BRACKET` at the length of the name, then `memcmp` of the name.
-- `none`: the first test fails, and `memcmp` is not called.
unfoldable pub compare_section : Bytes → ℕ → Bytes → ℕ → Option Sign
compare_section section n line b =
    if char_at line (b + 1 + n) == right_bracket
    then some (memcmp n section (drop (b + 1) line))
    else none

-- The byte behind the key, and the comparison if that byte ends a key.
unfoldable pub key_verdict : ℕ → Sign → Option Sign
key_verdict q m = if is_blank q || q == equality_sign then some m else none

-- So for a key, which begins at the first byte that is no blank.
unfoldable pub compare_key : Bytes → ℕ → Bytes → Option Sign
unfolding key_verdict
compare_key key n line =
    let p = blanks line in key_verdict (char_at line (p + n)) (memcmp n key (drop p line))

-- What a loop over the lines of the old file ends with: the value to return and the new text, or
-- an error, or nothing that C defines.
pub data Out : Type 0 where
  written : ℕ → Bytes → Out
  stopped : Error → Out
  crashed : Out

-- What one turn of a loop does: it writes a line, or goes on without writing (`continue`), or
-- leaves with an error, or does what C does not define. `S` is what the turns hand on to one another.
pub data Turn (S : Type 0) : Type 0 where
  keep : Bytes → S → Turn S
  skip : S → Turn S
  abort : Error → Turn S
  crash : Turn S

-- `fwrite` of the line buffer, before what the rest of the loop writes.
abbrev pub write_then : Bytes → Out → Out
write_then line (written r rest) = written r (c_str line ++ rest)
write_then line (stopped e) = stopped e
write_then line crashed = crashed

-- The `while(fgets(…))` loop that the three functions share.
unfoldable pub rewrite_loop : {S : Type 0} → (S → Bytes → Turn S) → (S → Out) → S → List Bytes → Out
rewrite_loop turn finish s [] = finish s
rewrite_loop turn finish s (line ∷ rest) = elim (turn s line) [
  | keep l s' ↦ write_then l (rewrite_loop turn finish s' rest)
  | skip s' ↦ rewrite_loop turn finish s' rest
  | abort e ↦ stopped e
  | crash ↦ crashed
]

-- `error_out`: the copy is put in place of the file, or removed.
unfoldable pub put_back : Bytes → Out → M ℕ
unfolding delete_tmp_name_file re_name_ini_file
put_back name (written r new) w = (ok r, re_name_ini_file name new w)
put_back name (stopped e) w = (err e, delete_tmp_name_file name w)
put_back name crashed w = (fault, w)

-- The frame that they share: both files are opened, and the loop runs.
unfoldable pub rewrite_with : Bytes → (List Bytes → Out) → M ℕ
unfolding put_back
rewrite_with name loop w = elim (w.disk.content name) [
  | none ↦ put_back name (stopped no_exist) w
  | some old ↦
      if not (w.disk.writable (tmp_name name))
      then put_back name (stopped no_exist) w
      else put_back name (loop (read_lines (length old) old)) w
]
