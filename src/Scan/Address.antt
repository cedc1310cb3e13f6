-- ===== src/Scan/Address.antt =====
-- The addresses of a prefix, `get_hostcount` and the loops of `get_ipAdresses` of
-- portscan/ps_setup.c. An address is its four bytes.
pub mod Mask
use mathlib.Core.Option
use Prim.Native.Nat.{◌*◌, ◌/◌, ◌%◌, ◌^◌, bit_and, bit_or}
use ini.Base.{
  Bytes, List, Option, [], if◌then◌else◌, ltb, none, some, suc, zero, ℕ, ◌+◌, ◌-◌, ◌==◌, ◌||◌, ◌∷◌,
}

-- Above 32 the program ends with FAILURE; for 0 the number of hosts is no `int`. For 32 the number
-- is -1, and the loop over the hosts has no turn, as for 0.
unfoldable pub get_hostcount : ℕ → Option ℕ
get_hostcount prefix = if ltb 32 prefix || prefix == 0 then none else some (2 ^ (32 - prefix) - 2)

-- The place of the byte for the bit `i`; `none` is a place before the array.
unfoldable pub byte_of : ℕ → Option ℕ
byte_of i =
    let byte = (32 - i) / 8 in
    if i == 0
    then some (byte - 1)
    else if i % 8 == 0
    then if ltb byte (i / 8) then none else some (byte - i / 8)
    else some byte

-- `netmask[byte] = netmask[byte] & ~(mask << bit)`
unfoldable pub clear_bit : ℕ → ℕ → Bytes → Option Bytes
clear_bit bit byte [] = none
clear_bit bit zero (m ∷ ms) = some (bit_and m (255 - 2 ^ bit) ∷ ms)
clear_bit bit (suc byte) (m ∷ ms) = Option.map (◌∷◌ m) (clear_bit bit byte ms)

-- The turns for the bits below `n`, from the highest on. A write out of the array ends in `none`.
unfoldable pub clear_bits : ℕ → Bytes → Option Bytes
unfolding byte_of clear_bit
clear_bits zero ms = some ms
clear_bits (suc i) ms = elim (byte_of i) [
  | none ↦ none
  | some byte ↦ elim (clear_bit (i % 8) byte ms) [ none ↦ none | some ms' ↦ clear_bits i ms' ]
]

unfoldable pub find_netmask : ℕ → Option Bytes
unfolding clear_bits
find_netmask prefix = clear_bits (32 - prefix) (255 ∷ 255 ∷ 255 ∷ 255 ∷ [])

-- `host[i] = ip[i] & netmask[i]`
unfoldable pub network_part : Bytes → Bytes → Bytes
network_part (a ∷ ip) (m ∷ mask) = bit_and a m ∷ network_part ip mask
network_part _ _ = []

-- The bytes of a 32 bit number, the highest first, which `htobe32` puts in this order.
abbrev pub be_bytes : ℕ → Bytes
be_bytes n = n / 16777216 % 256 ∷ n / 65536 % 256 ∷ n / 256 % 256 ∷ n % 256 ∷ []

-- `newip |= htobe32(i)`, byte by byte.
unfoldable pub or_bytes : Bytes → Bytes → Bytes
or_bytes (a ∷ host) (b ∷ bs) = bit_or a b ∷ or_bytes host bs
or_bytes _ _ = []

-- The addresses of the hosts from `i` on.
unfoldable pub host_addresses : ℕ → ℕ → Bytes → List Bytes
unfolding or_bytes
host_addresses zero i host = []
host_addresses (suc n) i host = or_bytes host (be_bytes i) ∷ host_addresses n (i + 1) host

unfoldable pub get_ip_addresses : Bytes → ℕ → Option (List Bytes)
unfolding get_hostcount find_netmask network_part host_addresses
get_ip_addresses ip prefix = elim (get_hostcount prefix) [
  | none ↦ none
  | some n ↦ elim (find_netmask prefix) [
    | none ↦ none
    | some mask ↦ some (host_addresses n 1 (network_part ip mask))
  ]
]
