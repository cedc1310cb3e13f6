-- ===== src/Rewrite/Changes.antt =====
-- The texts that the loops of v2.0.0/inifile.c can write: what becomes of the lines of the old file.
use ini.Base.{All, Bytes, List, [], ap, inl, inr, refl, ◌++◌, ◌∷◌, ◌≡◌, ◌≢◌, ◌⊎◌}
use ini.Rewrite.{
  Out, Turn, abort, crash, crashed, keep, rewrite_loop, skip, stopped, write_then, written,
}
use ini.Rewrite.Loop.{copied, written_copies_end}
use ini.Text.{c_str}

-- The lines are copied, all of them or all but one, with which `Change` is done.
abbrev pub OneChange : (Bytes → Bytes → Type 0) → List Bytes → Bytes → Type 0
OneChange Change ls new =
    (new ≡ copied ls [])
    ⊎ ((xs zs : List Bytes) × (l l' : Bytes) × (ls ≡ xs ++ (l ∷ zs))
        × Change l l'
        × (new ≡ copied xs (c_str l' ++ copied zs [])))

-- Lines are left out, and no other change is made.
abbrev pub LeavesOut : List Bytes → Bytes → Type 0
LeavesOut [] new = new ≡ []
LeavesOut (l ∷ ls) new =
    LeavesOut ls new ⊎ ((rest : Bytes) × (new ≡ c_str l ++ rest) × LeavesOut ls rest)

-- A loop that ends well gives such a text; where it does what C does not define, `Crash` holds.
abbrev pub Gives : (Bytes → Type 0) → Type 0 → Out → Type 0
Gives Text Crash (written r new) = Text new
Gives Text Crash (stopped e) = Unit
Gives Text Crash crashed = Crash

pub Gives-write_then :
    (Text Text' : Bytes → Type 0) (Crash : Type 0) (l : Bytes)
    → ((new : Bytes) → Text new → Text' (c_str l ++ new))
    → (o : Out) → Gives Text Crash o
    → Gives Text' Crash (write_then l o)
Gives-write_then Text Text' Crash l h (written r new) g = h new g
Gives-write_then Text Text' Crash l h (stopped e) g = tt
Gives-write_then Text Text' Crash l h crashed g = g

pub Gives-mono :
    (Text Text' : Bytes → Type 0) (Crash : Type 0)
    → ((new : Bytes) → Text new → Text' new)
    → (o : Out) → Gives Text Crash o
    → Gives Text' Crash o
Gives-mono Text Text' Crash h (written r new) g = h new g
Gives-mono Text Text' Crash h (stopped e) g = tt
Gives-mono Text Text' Crash h crashed g = g

OneChange-copy :
    (Change : Bytes → Bytes → Type 0) (l : Bytes) (ls : List Bytes) (new : Bytes)
    → OneChange Change ls new
    → OneChange Change (l ∷ ls) (c_str l ++ new)
OneChange-copy Change l ls new (inl e) = inl (ap (λ r. c_str l ++ r) e)
OneChange-copy Change l ls new (inr (xs, zs, x, x', e, c, f)) =
    inr (l ∷ xs, zs, x, x', ap (◌∷◌ l) e, c, ap (λ r. c_str l ++ r) f)

-- A loop whose turns copy a line, or change it and are done.
pub record ChangesOnce {S : Type 0} (turn : S → Bytes → Turn S) (Done : S → Type 0)
    (Change : Bytes → Bytes → Type 0) (Crash : Type 0) : Type 0 where
  pub keeps :
      (s : S) (l l' : Bytes) (s' : S) → turn s l ≡ keep l' s' → (l' ≡ l) ⊎ (Change l l' × Done s')
  pub no_skip : (s : S) (l : Bytes) (s' : S) → turn s l ≢ skip s'
  pub crashes : (s : S) (l : Bytes) → turn s l ≡ crash → Crash
  pub copies : (s : S) (l : Bytes) → Done s → turn s l ≡ keep l s

module _ {S : Type 0} (turn : S → Bytes → Turn S) (Done : S → Type 0)
    (Change : Bytes → Bytes → Type 0) (Crash : Type 0)
    (v : ChangesOnce turn Done Change Crash) where
  all_copied : (s : S) (ls : List Bytes) → Done s → All (λ l. turn s l ≡ keep l s) ls
  all_copied s [] d = tt
  all_copied s (l ∷ ls) d = (v.copies s l d, all_copied s ls d)

  pub done_copies :
      (s : S) (ls : List Bytes)
      → Done s
      → rewrite_loop turn (λ s. written 0 []) s ls ≡ written 0 (copied ls [])
  done_copies s ls d = written_copies_end turn (λ s. written 0 []) s ls (all_copied s ls d) refl

  by_turn :
      (s : S) (l : Bytes) (ls : List Bytes) (u : Turn S)
      → turn s l ≡ u
      → ((s : S) → Gives (OneChange Change ls) Crash (rewrite_loop turn (λ s. written 0 []) s ls))
      → Gives (OneChange Change (l ∷ ls)) Crash (elim u as (λ _. Out) [
        | keep l' s' ↦ write_then l' (rewrite_loop turn (λ s. written 0 []) s' ls)
        | skip s' ↦ rewrite_loop turn (λ s. written 0 []) s' ls
        | abort e ↦ stopped e
        | crash ↦ crashed
      ])
  by_turn s l ls (keep l' s') e rest = elim (v.keeps s l l' s' e) [
    | inl same_line ↦ rw same_line (
        Gives-write_then (OneChange Change ls) (OneChange Change (l ∷ ls)) Crash l
          (OneChange-copy Change l ls) _ (rest s'))
    | inr (c, d) ↦ rw (done_copies s' ls d) (inr ([], ls, l, l', refl, c, refl))
  ]
  by_turn s l ls (skip s') e rest = absurd (v.no_skip s l s' e)
  by_turn s l ls (abort x) e rest = tt
  by_turn s l ls crash e rest = v.crashes s l e

  pub rewrite_loop-OneChange :
      (ls : List Bytes) (s : S)
      → Gives (OneChange Change ls) Crash (rewrite_loop turn (λ s. written 0 []) s ls)
  unfolding rewrite_loop
  rewrite_loop-OneChange [] s = inl refl
  rewrite_loop-OneChange (l ∷ ls) s = by_turn s l ls (turn s l) refl (rewrite_loop-OneChange ls)
