-- ===== src/Linked/Chars/Match.antt =====
-- What the searches of v1.0.0/inifile.c take for the same name.
use ini.Base.{
  All, Bool, Bytes, [], ap, arith, false, if◌then◌else◌, length, refl, sym, true, ℕ, ◌++◌, ◌==◌,
  ◌↔◌, ◌∙◌, ◌∷◌, ◌≡◌,
}
use ini.Linked.Chars.{after_blanks, name_matches}
use ini.Text.{c_str, is_blank, memcmp, str_int_len}
use ini.Text.Laws.{NoNul}

abbrev pub IsBlank : ℕ → Type 0
IsBlank c = is_blank c ≡ true

abbrev only_blanks : Bytes → Bool
only_blanks [] = true
only_blanks (c ∷ s) = if is_blank c then only_blanks s else false

-- The name, then blanks.
abbrev pub padded : Bytes → Bytes → Bool
padded text [] = only_blanks text
padded [] (c ∷ name) = false
padded (x ∷ text) (c ∷ name) = if x == c then padded text name else false

after_blanks-length : (s : Bytes) → (after_blanks (length s) s == 0) ≡ only_blanks s
unfolding after_blanks
after_blanks-length [] = refl
after_blanks-length (c ∷ s) = ground (arith, after_blanks-length s)

pub name_matches_lem :
    (stored name : Bytes)
    → NoNul name
    → name_matches stored (c_str stored) name ≡ padded (c_str stored) name
unfolding name_matches c_str memcmp str_int_len
name_matches_lem stored [] h = ground (arith, after_blanks-length (c_str stored))
name_matches_lem [] (c ∷ name) h = ground arith
name_matches_lem (x ∷ stored) (c ∷ name) h = ground (arith, name_matches_lem stored name h.1)

only_blanks_iff : (s : Bytes) → (only_blanks s ≡ true) ↔ All IsBlank s
only_blanks_iff [] = (λ e. tt, λ h. refl)
only_blanks_iff (c ∷ s) = (
  λ e. (ground arith, (only_blanks_iff s).0 (ground arith)),
  λ h. ground (arith, (only_blanks_iff s).1 h.1),
)

padded-append : (name b : Bytes) → All IsBlank b → padded (name ++ b) name ≡ true
padded-append [] b h = (only_blanks_iff b).1 h
padded-append (c ∷ name) b h = ground (arith, padded-append name b h)

append-padded :
    (text name : Bytes) → padded text name ≡ true → (b : Bytes) × (text ≡ name ++ b) × All IsBlank b
append-padded text [] e = (text, refl, (only_blanks_iff text).0 e)
append-padded [] (c ∷ name) e = cc
append-padded (x ∷ text) (c ∷ name) e =
    let head_same : x ≡ c = ground arith in
    let (b, p, h) = append-padded text name (ground arith) in
    (b, ap (λ y. y ∷ text) head_same ∙ ap (◌∷◌ c) p, h)

-- A search for a name without a NUL takes a stored string for it exactly where that string is the
-- name with any number of blanks and tabs behind it, so that letters are compared as they are and a
-- blank in front or in between counts.
pub name_matches_iff :
    (stored name : Bytes)
    → NoNul name
    → (name_matches stored (c_str stored) name ≡ true)
      ↔ ((b : Bytes) × (c_str stored ≡ name ++ b) × All IsBlank b)
name_matches_iff stored name h = (
  λ e. append-padded (c_str stored) name (sym (name_matches_lem stored name h) ∙ e),
  λ (b, p, k). name_matches_lem stored name h ∙ rw p (padded-append name b k),
)
