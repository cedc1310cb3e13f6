-- ===== src/Text.antt =====
-- The string helpers at the top of v2.0.0/inifile.c, and the C library calls on strings that
-- the file makes. A `char *` into a buffer is the position in the list of the buffer's bytes;
-- a position past the list reads 0, as in the zeroed arrays of the source.
pub mod Laws
pub mod Lines
use ini.Base.{
  ℕ, zero, suc, ◌+◌, Bool, true, false, ◌||◌, Option, none, some, List, [], ◌∷◌, ◌++◌, Bytes, take,
  drop, get_or, ltb, ◌==◌, if◌then◌else◌,
}
use mathlib.Core.Option

-- The CONTENT_… constants.
abbrev pub newline_sign : ℕ
newline_sign = 10

abbrev pub space_sign : ℕ
space_sign = 32

abbrev pub tab_sign : ℕ
tab_sign = 9

abbrev pub left_bracket : ℕ
left_bracket = 91

abbrev pub right_bracket : ℕ
right_bracket = 93

-- CONTENT_COMMA_SIGN is a semicolon.
abbrev pub comma_sign : ℕ
comma_sign = 59

abbrev pub equality_sign : ℕ
equality_sign = 61

abbrev pub char_at : Bytes → ℕ → ℕ
char_at s i = get_or s i 0

-- The C string that starts at the head of a buffer: its bytes up to the first NUL.
unfoldable pub c_str : Bytes → Bytes
c_str [] = []
c_str (c ∷ s) = if c == 0 then [] else c ∷ c_str s

unfoldable pub str_int_len : Bytes → ℕ
str_int_len [] = 0
str_int_len (c ∷ s) = if c == 0 then 0 else suc (str_int_len s)

unfoldable pub str_frist_constchar : Bytes → ℕ → Option ℕ
str_frist_constchar [] c = none
str_frist_constchar (x ∷ s) c =
    if x == 0 then none else if x == c then some 0 else Option.map suc (str_frist_constchar s c)

-- The distance from the pointer given to the terminating NUL.
unfoldable pub find_frist_endchar : Bytes → ℕ
find_frist_endchar [] = 0
find_frist_endchar (c ∷ s) = if c == 0 then 0 else suc (find_frist_endchar s)

-- `*p == CONTENT_SPACE_SIGN || *p == CONTENT_TAB_SIGN`
abbrev pub is_blank : ℕ → Bool
is_blank c = c == space_sign || c == tab_sign

-- How far `while(*p == CONTENT_SPACE_SIGN || *p == CONTENT_TAB_SIGN) p++;` moves.
unfoldable pub blanks : Bytes → ℕ
blanks [] = 0
blanks (c ∷ s) = if is_blank c then suc (blanks s) else 0

-- `memcmp` of `n` bytes: only the sign of its result is defined.
pub data Sign : Type 0 where
  below same above : Sign

unfoldable pub memcmp : ℕ → Bytes → Bytes → Sign
memcmp zero a b = same
memcmp (suc n) a b =
    let rest = memcmp n (drop 1 a) (drop 1 b) in
    if ltb (char_at a 0) (char_at b 0)
    then below
    else if ltb (char_at b 0) (char_at a 0)
    then above
    else rest

-- `fgets` with room for `n` bytes before the NUL: the bytes stored and those left in the file.
unfoldable pub fgets : ℕ → Bytes → Bytes × Bytes
fgets zero s = ([], s)
fgets (suc n) [] = ([], [])
fgets (suc n) (c ∷ s) =
    if c == newline_sign then (c ∷ [], s) else let (l, r) = fgets n s in (c ∷ l, r)

-- What the `fgets` loop over a file reads, line by line, with INIFILE_MAX_CONTENT_LINELEN of 1024.
-- Each turn takes a byte or more, so the length of the file is fuel enough.
unfoldable pub read_lines : ℕ → Bytes → List Bytes
read_lines zero s = []
read_lines (suc n) [] = []
read_lines (suc n) (c ∷ s) =
    let (l, r) = fgets 1023 (c ∷ s) in let rest = read_lines n r in l ∷ rest
