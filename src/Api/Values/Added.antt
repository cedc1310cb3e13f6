-- ===== src/Api/Values/Added.antt =====
-- The line that `add_value_ofkey` stores, and the one that it writes.
use ini.Api.Values.{added_line}
use ini.Base.{Bytes, Option, arith, length, none, some, subst, sym, ℕ, ◌+◌, ◌≡◌}
use ini.Rewrite.{Parameter, given_len, printed}
use ini.Rewrite.Add.{key_line}
use ini.Rewrite.Added.{IsWritable, key_line-ReadsBack, stored_line-ReadsBack}
use ini.Rewrite.ReadBack.{ReadsBack}
use ini.Rewrite.Whole.{addition_of}
use ini.Store.{length_or}

addition_len : (n : ℕ) (o : Option Bytes) (v : Bytes) → o ≡ some v → given_len n o ≡ length_or n v
addition_len n none v e = absurd (ground arith)
addition_len n (some u) v e = let same_text : u ≡ v = ground arith in rw same_text

-- The key and the value, cut at their lengths, have no blank at their ends and no NUL, semicolon,
-- bracket or newline in them, and the key no `=`. Then the line that is stored in memory and the
-- line that is written to the file are both read as that key and that value.
pub add_value_ofkey-ReadsBack :
    (p : Parameter) (s k v : Bytes)
    → p.value ≡ some v
    → IsWritable (printed (length_or p.key_len k) k) (printed (length_or p.value_len v) v)
    → ReadsBack
        (added_line p k v)
        (length (printed (length_or p.key_len k) k))
        (printed (length_or p.key_len k) k)
        (printed (length_or p.value_len v) v)
      × ReadsBack
          (key_line (addition_of p s k) v)
          (length (printed (length_or p.key_len k) k) + 1)
          (printed (length_or p.key_len k) k)
          (printed (length_or p.value_len v) v)
unfolding added_line
add_value_ofkey-ReadsBack p s k v e h =
    let same_len = addition_len p.value_len p.value v e in
    let key = printed (length_or p.key_len k) k in
    let h' = subst (λ n. IsWritable key (printed n v)) (sym same_len) h in
    (
      stored_line-ReadsBack _ _ h,
      subst (λ n. ReadsBack (key_line (addition_of p s k) v) (length key + 1) key (printed n v))
          same_len (key_line-ReadsBack (addition_of p s k) v h'),
    )
