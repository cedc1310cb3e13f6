-- ===== src/Scan/Address/Mask.antt =====
-- The netmask that the loop of `get_ipAdresses` of portscan/ps_setup.c finds.
use Prim.Native.Nat.{◌-◌, ◌^◌}
use ini.Base.{
  Bool, Bool-cases, Bytes, Option, [], ap, arith, bytes_eq, false, if◌then◌else◌, inl, inr, none,
  refl, some, subst, suc, true, zero, ℕ, ◌+◌, ◌<◌, ◌==◌, ◌∙◌, ◌∷◌, ◌≡◌, ◌≤◌,
}
use ini.Scan.Address.{be_bytes, find_netmask}

-- The mask of a prefix: that many ones from the top, as one number of 32 bits.
abbrev pub mask_bytes : ℕ → Bytes
mask_bytes prefix = be_bytes (2 ^ 32 - 2 ^ (32 - prefix))

abbrev agrees : Option Bytes → Bytes → Bool
agrees none s = false
agrees (some t) s = bytes_eq t s

-- For all prefixes from `a` to `a + n - 1`.
all_agree : ℕ → ℕ → Bool
all_agree a zero = true
all_agree a (suc n) =
    if agrees (find_netmask (a + n)) (mask_bytes (a + n)) then all_agree a n else false

checked_prefixes : all_agree 16 17 ≡ true
unfolding all_agree find_netmask bytes_eq
checked_prefixes = refl

bytes_eq_lem : (s t : Bytes) → bytes_eq s t ≡ true → s ≡ t
unfolding bytes_eq
bytes_eq_lem [] [] e = refl
bytes_eq_lem [] (y ∷ t) e = cc
bytes_eq_lem (x ∷ s) [] e = cc
bytes_eq_lem (x ∷ s) (y ∷ t) e =
    let first : x ≡ y = ground arith in
    ap (λ c. c ∷ s) first ∙ ap (◌∷◌ y) (bytes_eq_lem s t (ground arith))

agrees_lem : (o : Option Bytes) (s : Bytes) → agrees o s ≡ true → o ≡ some s
agrees_lem none s e = cc
agrees_lem (some t) s e = ap some (bytes_eq_lem t s e)

all_agree_lem :
    (a n d : ℕ) → all_agree a n ≡ true → d < n → find_netmask (a + d) ≡ some (mask_bytes (a + d))
unfolding all_agree
all_agree_lem a zero d e l = absurd (omega arith)
all_agree_lem a (suc n) d e l =
    elim (Bool-cases (agrees (find_netmask (a + n)) (mask_bytes (a + n)))) [
      | inr q ↦ absurd (ground arith)
      | inl q ↦ elim (Bool-cases (d == n)) [
        | inl at_n ↦
            let d_is : d ≡ n = ground arith in
            rw d_is (agrees_lem (find_netmask (a + n)) (mask_bytes (a + n)) q)
        | inr other ↦ all_agree_lem a n d (ground arith) (ground arith)
      ]
    ]

-- For a prefix of 16 to 32 the loop over the bits, with its own reckoning of the byte that each bit
-- stands in, finds the mask with as many ones from the top as the prefix says.
pub find_netmask-mask_bytes :
    (prefix : ℕ) → 16 ≤ prefix → prefix ≤ 32 → find_netmask prefix ≡ some (mask_bytes prefix)
find_netmask-mask_bytes prefix l h =
    subst (λ n. find_netmask n ≡ some (mask_bytes n)) (omega arith)
      (all_agree_lem 16 17 (prefix - 16) checked_prefixes (omega arith))
