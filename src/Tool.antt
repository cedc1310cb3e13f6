-- ===== src/Tool.antt =====
-- The string helpers of module_function/frame_tool.c, on strings that are not NULL, and the list of
-- module_function/key_value_part.c. A place in a string is an offset.
pub mod Laws
use mathlib.Core.Option
use ini.Base.{
  Bool, Bytes, List, Option, [], if◌then◌else◌, leb, none, some, suc, zero, ℕ, ◌&&◌, ◌+◌, ◌==◌,
  ◌||◌, ◌∷◌,
}
use ini.Text.{char_at, memcmp, same}

-- 43 and 45
abbrev pub is_sign : ℕ → Bool
is_sign c = c == b'+' || c == b'-'

-- Not `*p < 48 || *p > 57`
abbrev pub is_digit : ℕ → Bool
is_digit c = leb b'0' c && leb c b'9'

unfoldable pub frame_end_charstr : Bytes → ℕ
frame_end_charstr [] = 0
frame_end_charstr (c ∷ s) = let rest = frame_end_charstr s in if c == 0 then 0 else suc rest

unfoldable pub frame_strlen : Bytes → ℕ
frame_strlen [] = 0
frame_strlen (c ∷ s) = let rest = frame_strlen s in if c == 0 then 0 else suc rest

-- The loop, with `flag`: behind a sign the next byte is looked at in the same turn.
unfoldable pub isall_loop : Bytes → ℕ → ℕ
isall_loop [] flag = flag
isall_loop (c ∷ []) flag =
    if c == 0 then flag else if is_sign c then 0 else if is_digit c then flag + 1 else 0
isall_loop (c ∷ d ∷ s) flag =
    let behind_sign = isall_loop s (flag + 2) in
    let behind_digit = isall_loop (d ∷ s) (flag + 1) in
    if c == 0
    then flag
    else if is_sign c
    then if flag == 0 && is_digit d then behind_sign else 0
    else if is_digit c
    then behind_digit
    else 0

unfoldable pub framestr_isall_digital : Bytes → ℕ
unfolding isall_loop
framestr_isall_digital s = isall_loop s 0

unfoldable pub framestr_frist_constchar : Bytes → ℕ → Option ℕ
framestr_frist_constchar [] c = none
framestr_frist_constchar (x ∷ s) c =
    let rest = Option.map suc (framestr_frist_constchar s c) in
    if x == 0 then none else if x == c then some 0 else rest

unfoldable pub framestr_start_digital_char : Bytes → ℕ
framestr_start_digital_char [] = 0
framestr_start_digital_char (c ∷ s) =
    let rest = framestr_start_digital_char s in if c == 0 || is_digit c then 0 else suc rest

unfoldable pub framestr_end_digital_char : Bytes → ℕ
framestr_end_digital_char [] = 0
framestr_end_digital_char (c ∷ s) =
    let rest = framestr_end_digital_char s in if is_digit c then suc rest else 0

-- `p` goes back from the NUL to the start of the string.
unfoldable pub last_back : Bytes → ℕ → ℕ → Option ℕ
last_back s c zero = if char_at s 0 == c then some 0 else none
last_back s c (suc n) =
    let rest = last_back s c n in if char_at s (suc n) == c then some (suc n) else rest

unfoldable pub framestr_last_constchar : Bytes → ℕ → Option ℕ
unfolding last_back frame_end_charstr
framestr_last_constchar s c = last_back s c (frame_end_charstr s)

-- KEY_VALUE_NODE, with the list from it on as a list.
pub record KeyValueNode : Type 0 where
  pub key : Bytes
  pub value : Bytes

unfoldable pub add_keyvalue_after_head : List KeyValueNode → KeyValueNode → List KeyValueNode
add_keyvalue_after_head [] node = node ∷ []
add_keyvalue_after_head (x ∷ xs) node = x ∷ add_keyvalue_after_head xs node

unfoldable pub find_value_after_head : List KeyValueNode → Bytes → Option Bytes
unfolding frame_strlen
find_value_after_head [] key = none
find_value_after_head (x ∷ xs) key =
    let rest = find_value_after_head xs key in
    if frame_strlen x.key == frame_strlen key
    then elim (memcmp (frame_strlen key) x.key key) [ same ↦ some x.value | _ ↦ rest ]
    else rest
