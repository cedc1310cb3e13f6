-- ===== src/Linked/Operations/UpdateGet.antt =====
-- `updateValueOfKey` and then `getValueOfKey`, v1.0.0/inifile.c.
use mathlib.Core.List.{append-nil}
use ini.Base.{
  All, All-append, Bytes, List, [], ap, arith, drop, length, length-append, refl, some, subst, suc,
  sym, zero, ℕ, ◌++◌, ◌+◌, ◌<◌, ◌∙◌, ◌∷◌, ◌≡◌, ◌≤◌,
}
use ini.Linked.{
  IniFile, IniFileNode, IniParameter, KeyValue, done, max_string_len, update_value_of_key_type,
}
use ini.Linked.Chars.{
  copy_bytes, delete_spacetab_begin, find_ini_file_node, find_ini_key_value, find_key_loop,
  value_str,
}
use ini.Linked.Check.Laws.{update-check-get}
use ini.Linked.Operations.{
  System, change_at, change_keys, change_list, change_node, chars, element, found_value,
  get_value_of_key, key_place, new_value, reply_0, set_value, update_value_of_key, value_at,
  value_bytes,
}
use ini.Linked.Operations.Parts.{
  checked-reply_0, with_key-reply_0, with_section-reply_0, write_back-ini,
}
use ini.Linked.Operations.Places.{
  IsShort, element-change_at, find_key_loop-change_at, find_node_loop-change_at, key_place_parts,
}
use ini.Linked.Write.{keys_of}
use ini.Text.{c_str, newline_sign}
use ini.Text.Laws.{NoNul, c_str-append}

-- No key of the file fills its array.
abbrev pub HasShortKeys : IniFile → Type 0
HasShortKeys f = All (λ n. All IsShort (keys_of n.key_list)) f.nodes

pub All-element {ℓ κ} :
    {A : Type ℓ} (P : A → Type κ) (xs : List A) (i : ℕ) {x : A}
    → All P xs
    → element xs i ≡ some x
    → P x
All-element P [] i h e = absurd cc
All-element P (y ∷ xs) zero {x} h e = let same : y ≡ x = ground arith in subst P same h.0
All-element P (y ∷ xs) (suc i) h e = All-element P xs i h.1 e

pub length-copy_bytes : (n : ℕ) (s : Bytes) → length (copy_bytes n s) ≡ n
unfolding copy_bytes
length-copy_bytes zero s = refl
length-copy_bytes (suc n) s = omega (arith, length-copy_bytes n (drop 1 s))

-- Zeros of which some are left end a string.
zeros_end : (m n : ℕ) (r : Bytes) → m < n → c_str (drop m (copy_bytes n [] ++ r)) ≡ []
unfolding copy_bytes c_str
zeros_end m zero r h = absurd (omega arith)
zeros_end zero (suc n) r h = refl
zeros_end (suc m) (suc n) r h = zeros_end m n r (omega arith)

-- The bytes of the value that is given.
abbrev pub given_value : IniParameter → Bytes
given_value p = copy_bytes p.value_len (chars p.value)

pub value_bytes-NoNul : (p : IniParameter) → NoNul (given_value p) → NoNul (value_bytes p)
value_bytes-NoNul p h =
    (λ e. omega arith, All-append _ (given_value p) (newline_sign ∷ []) h (λ e. omega arith, tt))

-- With room for the NUL in the 64 bytes that are cleared, nothing of the old value is left.
new_value_str :
    (p : IniParameter) (old : Bytes)
    → p.value_len ≤ 61
    → NoNul (given_value p)
    → c_str (new_value p old) ≡ value_bytes p
unfolding new_value
new_value_str p old l h =
    let long : length (value_bytes p) ≡ p.value_len + 2 = omega (
      arith,
      length-append (given_value p) (newline_sign ∷ []),
      length-copy_bytes p.value_len (chars p.value),
    ) in
    let all_gone =
      zeros_end (length (value_bytes p)) max_string_len (drop max_string_len old)
        (rw long (omega arith)) in
    c_str-append (value_bytes p) _ (value_bytes-NoNul p h)
    ∙ (ap (λ r. value_bytes p ++ r) all_gone ∙ append-nil (value_bytes p))

-- The file with the value changed at a place.
abbrev updated : IniParameter → ℕ → ℕ → IniFile → IniFile
updated p i j f = change_node i (change_keys (change_at j (set_value p))) f

-- What is found, from the steps of the search.
pub found_value_lem :
    (f : IniFile) (p : IniParameter) (i j : ℕ) {n : IniFileNode} {ks : List KeyValue} {k : KeyValue}
    → element f.nodes i ≡ some n
    → n.key_list ≡ some ks
    → find_key_loop ks (chars p.key) ≡ some j
    → element ks j ≡ some k
    → found_value f p (some i) ≡ delete_spacetab_begin (value_str k)
unfolding find_ini_key_value
found_value_lem f p i j node_at list_at hit there =
    rw (found_value, key_place, node_at, list_at, hit, value_at, node_at, list_at, there) refl

module _ (p : IniParameter) (f : IniFile) (i j : ℕ) (v : HasShortKeys f)
    (sec_at : find_ini_file_node f (chars p.section) ≡ some i)
    (key_at : key_place f i (chars p.key) ≡ some j) where
  found_updated :
      p.value_len ≤ 61
      → NoNul (given_value p)
      → found_value (updated p i j f) p (find_ini_file_node (updated p i j f) (chars p.section))
        ≡ delete_spacetab_begin (value_bytes p)
  unfolding find_ini_file_node find_ini_key_value set_value
  found_updated l h =
      let (n, ks, k, node_at, list_at, hit, there) = key_place_parts f i (chars p.key) key_at in
      let change = change_keys (change_at j (set_value p)) in
      let same_place = find_node_loop-change_at i change f.nodes (chars p.section) (λ m. refl) in
      let new_node_at = element-change_at i change f.nodes node_at in
      let shorts : All IsShort ks =
        subst (λ o. All IsShort (keys_of o)) list_at (All-element _ f.nodes i v node_at) in
      let same_key = find_key_loop-change_at j (set_value p) ks (chars p.key) (λ m. refl) shorts in
      let new_key_at = element-change_at j (set_value p) ks there in
      let new_list_at : (change n).key_list ≡ some (change_at j (set_value p) ks) =
        ap (change_list (change_at j (set_value p))) list_at in
      rw (same_place, sec_at)
        (found_value_lem (updated p i j f) p i j new_node_at new_list_at (same_key ∙ hit) new_key_at
          ∙ ap delete_spacetab_begin (new_value_str p k.value l h))

-- An update that returns 0 leaves a file in which the value is found again, with a newline that the
-- code puts behind it and without the blanks in front of it, when the value has at most 61 bytes and
-- none of them is a NUL and no key fills its array.
pub update_value_of_key-get :
    (s : System) (p : IniParameter) {f : IniFile} {s' : System}
    → s.ini ≡ some f
    → HasShortKeys f
    → p.value_len ≤ 61
    → NoNul (given_value p)
    → update_value_of_key s p ≡ done (reply_0, s')
    → get_value_of_key s'.ini p ≡ done (delete_spacetab_begin (value_bytes p))
unfolding update_value_of_key get_value_of_key
update_value_of_key-get s p {f} {s'} ini_is v l h e =
    let (g, g_is, good, e1) = checked-reply_0 s p update_value_of_key_type _ e in
    let (i, sec_at, e2) = with_section-reply_0 s g p _ e1 in
    let (j, key_at, e3) = with_key-reply_0 s g p i _ e2 in
    let there = write_back-ini s (updated p i j g) e3 in
    let same : f ≡ g = ground (arith, sym ini_is ∙ g_is) in
    let shorts : HasShortKeys g = subst HasShortKeys same v in
    rw (there, update-check-get p good) (ap done (found_updated p g i j shorts sec_at key_at l h))
