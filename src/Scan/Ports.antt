-- ===== src/Scan/Ports.antt =====
-- The ports to scan, portscan/ps_setup.c: `get_ports` and `get_ports_range`.
pub mod Laws
use Prim.Native.Nat.{◌*◌, ◌^◌}
use ini.Base.{
  Bool, Bytes, List, Option, [], if◌then◌else◌, leb, none, some, suc, zero, ℕ, ◌&&◌, ◌++◌, ◌+◌, ◌-◌,
  ◌==◌, ◌||◌, ◌∷◌,
}
use ini.Scan.{Setup, not_null, push_port}
use ini.Tool.{is_digit}

-- INT_MAX
abbrev pub int_max : ℕ
int_max = 2 ^ 31 - 1

-- What `isspace` of the C library skips: a blank, and the bytes 9 to 13.
abbrev pub is_white : ℕ → Bool
is_white c = c == b' ' || leb 9 c && leb c 13

unfoldable pub digits_from : ℕ → Bytes → ℕ
digits_from n [] = n
digits_from n (c ∷ s) =
    let rest = digits_from (n * 10 + (c - b'0')) s in if is_digit c then rest else n

-- The digits behind a sign, where the number is one of an `int`: down to -(INT_MAX + 1), up to
-- INT_MAX. C does not say what `atoi` does with any other. A number below 0 is 0 here: a port of
-- either kind is refused, and a range from one on, or up to one, has the same ports.
unfoldable pub negative : Bytes → Option ℕ
unfolding digits_from
negative s = if leb (digits_from 0 s) (int_max + 1) then some 0 else none

unfoldable pub not_negative : Bytes → Option ℕ
unfolding digits_from
not_negative s = if leb (digits_from 0 s) int_max then some (digits_from 0 s) else none

-- `atoi`, with the white space and the sign in front.
unfoldable pub atoi : Bytes → Option ℕ
unfolding negative not_negative
atoi [] = some 0
atoi (c ∷ s) =
    let rest = atoi s in
    if is_white c
    then rest
    else if c == b'-'
    then negative s
    else if c == b'+'
    then not_negative s
    else not_negative (c ∷ s)

-- `strtok` to the end of the string: its parts that are not empty.
unfoldable pub tokens : ℕ → Bytes → Bytes → List Bytes
tokens sep word [] = if not_null word then word ∷ [] else []
tokens sep word (c ∷ s) =
    let ends = tokens sep [] s in
    let goes_on = tokens sep (word ++ (c ∷ [])) s in
    if c == sep then if not_null word then word ∷ ends else ends else goes_on

-- `strstr(word, "-")`, and what is behind it.
unfoldable pub after_dash : Bytes → Option Bytes
after_dash [] = none
after_dash (c ∷ s) = let rest = after_dash s in if c == b'-' then some s else rest

-- The turns of the loop that are left, and `i`.
unfoldable pub push_range : ℕ → ℕ → Setup → Setup
unfolding push_port
push_range zero i s = s
push_range (suc n) i s = push_range n (i + 1) (push_port i s)

-- The loop from `start_val` to `end_val`. Where `end_val` is INT_MAX `i <= end_val` always holds,
-- and `i++` leaves the `int`s.
unfoldable pub push_between : ℕ → ℕ → Setup → Option Setup
unfolding push_range
push_between start_val end_val s =
    if leb int_max end_val then none else some (push_range (end_val + 1 - start_val) start_val s)

-- Without a dash `pos++` moves NULL, which `atoi` then reads: undefined, as all that is `none`.
unfoldable pub get_ports_range : Bytes → Setup → Option Setup
unfolding atoi after_dash push_between
get_ports_range word s = elim (after_dash word) [
  | none ↦ none
  | some pos ↦ elim (atoi word) [
    | none ↦ none
    | some start_val ↦ elim (atoi pos) [
      | none ↦ none
      | some end_val ↦ push_between start_val end_val s
    ]
  ]
]

unfoldable pub push_words : List Bytes → Setup → Option Setup
unfolding get_ports_range
push_words [] s = some s
push_words (w ∷ ws) s = elim (after_dash w) [
  | none ↦ elim (atoi w) [ none ↦ none | some n ↦ push_words ws (push_port n s) ]
  | some pos ↦ elim (get_ports_range w s) [ none ↦ none | some s' ↦ push_words ws s' ]
]

unfoldable pub get_ports : Bytes → Setup → Option Setup
unfolding tokens push_words
get_ports port_args s = push_words (tokens b',' [] port_args) s
