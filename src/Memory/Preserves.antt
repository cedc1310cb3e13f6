-- ===== src/Memory/Preserves.antt =====
-- How an invariant of the World is carried through an action: by the way the action is built.
use ini.Base.{Bool, List, Option, false, if◌then◌else◌, none, some, true, ℕ}
use ini.Memory.{
  Error, M, Result, World, and_then, ask, err, fail, fault, from_option, modify, ok, on_error, pure,
  walked, ◌>>=◌,
}

-- `m` keeps `P`, however it ends.
pub record Preserves {A : Type 0} (P : World → Type 0) (m : M A) : Type 0 where
  pub at : (w : World) → P w → P (m w).1

module _ {P : World → Type 0} where
  pub Preserves-pure : {A : Type 0} (a : A) → Preserves P (pure a)
  unfolding pure
  Preserves-pure a = record { at = λ w h. h }

  pub Preserves-fail : (A : Type 0) (e : Error) → Preserves P (fail {A = A} e)
  unfolding fail
  Preserves-fail A e = record { at = λ w h. h }

  pub Preserves-ask : Preserves P ask
  unfolding ask
  Preserves-ask = record { at = λ w h. h }

  pub Preserves-modify :
      (f : World → World) → ((w : World) → P w → P (f w)) → Preserves P (modify f)
  unfolding modify
  Preserves-modify f h = record { at = h }

  pub Preserves-walked : (o : Option (List ℕ)) → Preserves P (walked o)
  unfolding walked
  Preserves-walked none = record { at = λ w h. h }
  Preserves-walked (some xs) = record { at = λ w h. h }

  pub Preserves-from_option :
      {A : Type 0} (e : Error) (o : Option A) → Preserves P (from_option e o)
  unfolding from_option
  Preserves-from_option e none = record { at = λ w h. h }
  Preserves-from_option e (some a) = record { at = λ w h. h }

  pub Preserves-if :
      {A : Type 0} {m n : M A} (b : Bool)
      → Preserves P m
      → Preserves P n
      → Preserves P (if b then m else n)
  Preserves-if true first second = first
  Preserves-if false first second = second

  and_then-Preserves :
      {A B : Type 0} (r : Result A) (f : A → M B) (w : World)
      → ((a : A) → Preserves P (f a))
      → P w
      → P (and_then r w f).1
  and_then-Preserves (ok a) f w k h = (k a).at w h
  and_then-Preserves (err e) f w k h = h
  and_then-Preserves fault f w k h = h

  pub Preserves-bind :
      {A B : Type 0} (first : M A) (next : A → M B)
      → Preserves P first
      → ((a : A) → Preserves P (next a))
      → Preserves P (first >>= next)
  unfolding ◌>>=◌
  Preserves-bind first next before after = record {
    at = λ w h. and_then-Preserves (first w).0 next (first w).1 after (before.at w h);
  }

  pub Preserves-on_error :
      {A : Type 0} (cleanup : World → World) (m : M A)
      → ((w : World) → P w → P (cleanup w))
      → Preserves P m
      → Preserves P (on_error cleanup m)
  unfolding on_error
  Preserves-on_error {A} cleanup m kc km = record {
    at = λ w h. at_result (m w).0 (m w).1 (km.at w h);
  }
    where
      at_result :
          (r : Result A) (w : World)
          → P w
          → P
              (elim r as (λ _. Result A × World) [
                | ok a ↦ (ok a, w)
                | err e ↦ (err e, cleanup w)
                | fault ↦ (fault, w)
              ]).1
      at_result (ok a) w h = h
      at_result (err e) w h = kc w h
      at_result fault w h = h

pub ruleset preserves_rules = (
  Preserves-pure, Preserves-fail, Preserves-ask, Preserves-modify, Preserves-walked,
  Preserves-from_option, Preserves-if, Preserves-bind, Preserves-on_error,
)
