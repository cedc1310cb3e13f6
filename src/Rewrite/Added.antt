-- ===== src/Rewrite/Added.antt =====
-- The lines of an addition, in memory and in the file, and how they are read.
use mathlib.Core.List.{append_assoc, append-nil}
use ini.Base.{
  All, Bytes, [], ap, arith, length, length-append, none, refl, sym, true, ◌++◌, ◌+◌, ◌∷◌, ◌≡◌,
}
use ini.Line.{is_space}
use ini.Line.KeyValue.{Blank, Entry, IsEntry, IsPlain, IsTrimmed, render}
use ini.Rewrite.{printed}
use ini.Rewrite.Add.{Addition, equality_text, key_line}
use ini.Rewrite.ReadBack.{ReadsBack, entry-ReadsBack}
use ini.Text.{equality_sign, is_blank, newline_sign, tab_sign}
use ini.Text.Laws.{Without}

-- A line with the key, the `=` and the value and nothing but blanks round them.
added_entry : Bytes → Bytes → Bytes → Bytes → Bytes → Entry
added_entry key before after value trail = record {
  indent = [];
  key = key;
  before = before;
  after = after;
  value = value;
  trail = trail;
  note = none;
}

-- What a key and a value must be like for a line with them to be read back.
pub record IsWritable (key value : Bytes) : Type 0 where
  pub key_trimmed : IsTrimmed is_blank key
  pub value_trimmed : IsTrimmed is_space value
  pub key_plain : All IsPlain key
  pub key_no_equality : Without equality_sign key
  pub value_plain : All IsPlain value

added_entry-IsEntry :
    (key before after value trail : Bytes)
    → IsWritable key value
    → Blank before
    → Blank after
    → All (λ c. is_space c ≡ true) trail
    → IsEntry (added_entry key before after value trail)
unfolding added_entry
added_entry-IsEntry key before after value trail h hb ha ht = record {
  indent_blank = tt;
  before_blank = hb;
  after_blank = ha;
  trail_space = ht;
  key_trimmed = h.key_trimmed;
  value_trimmed = h.value_trimmed;
  key_plain = h.key_plain;
  key_no_equality = h.key_no_equality;
  value_plain = h.value_plain;
}

-- The line of the file: tabs round the `=`, and a newline.
pub key_line-ReadsBack :
    (a : Addition) (value : Bytes)
    → IsWritable (printed a.key_len a.key) (printed a.value_len value)
    → ReadsBack
        (key_line a value)
        (length (printed a.key_len a.key) + 1)
        (printed a.key_len a.key)
        (printed a.value_len value)
unfolding key_line added_entry
key_line-ReadsBack a value h =
    let k = printed a.key_len a.key in
    let v = printed a.value_len value in
    let d = added_entry k (tab_sign ∷ []) (tab_sign ∷ []) v (newline_sign ∷ []) in
    let place : length k + 1 ≡ length (k ++ (tab_sign ∷ [])) =
      omega (arith, length-append k (tab_sign ∷ [])) in
    let same_line : printed a.key_len a.key
          ++ (equality_text ++ (printed a.value_len value ++ (newline_sign ∷ [])))
        ≡ render d =
      simp (append_assoc, append-nil) in
    rw (place, same_line)
      (entry-ReadsBack d (
        added_entry-IsEntry k (tab_sign ∷ []) (tab_sign ∷ []) v (newline_sign ∷ []) h (refl, tt)
          (refl, tt) (refl, tt)))

-- The line that is stored in memory: the key, the `=` and the value.
pub stored_line-ReadsBack :
    (key value : Bytes)
    → IsWritable key value
    → ReadsBack (key ++ (equality_sign ∷ value)) (length key) key value
unfolding added_entry
stored_line-ReadsBack key value h =
    let d = added_entry key [] [] value [] in
    let place : length key ≡ length (key ++ []) = ap length (sym (append-nil key)) in
    let same_line : key ++ (equality_sign ∷ value) ≡ render d = simp append-nil in
    rw (place, same_line) (entry-ReadsBack d (added_entry-IsEntry key [] [] value [] h tt tt tt))
