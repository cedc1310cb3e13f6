-- ===== src/Scan/Results/Least.antt =====
-- The loop of `push_result`, portscan/ps_setup.c, over the results that are known.
use ini.Base.{
  Bool-cases, List, Option, [], ap, arith, inl, inr, ltb, none, refl, some, suc, sym, zero, ℕ, ◌∙◌,
  ◌∷◌, ◌≡◌, ◌≤◌, ◌⊎◌,
}
use ini.Scan.Results.{conclude, result_at, set_result, smaller}

-- A result that is known is in one of the places.
abbrev pub Known : ℕ → List (Option ℕ) → Type 0
Known c [] = ⊥
Known c (x ∷ rs) = (x ≡ some c) ⊎ Known c rs

-- `c` is `top` or a result that is known, and no result that is known is below it, nor is `top`.
pub record IsLeast (c top : ℕ) (rs : List (Option ℕ)) : Type 0 where
  pub reached : (c ≡ top) ⊎ Known c rs
  pub below_top : c ≤ top
  pub below : (r : ℕ) → Known r rs → c ≤ r

pub conclude-IsLeast : (rs : List (Option ℕ)) (c : ℕ) → IsLeast (conclude rs c) c rs
unfolding conclude
conclude-IsLeast [] c = record {
  reached = inl refl;
  below_top = omega arith;
  below = λ r k. absurd k;
}
conclude-IsLeast (none ∷ rs) c =
    let v = conclude-IsLeast rs c in
    record {
      reached = elim v.reached [ inl e ↦ inl e | inr k ↦ inr (inr k) ];
      below_top = v.below_top;
      below = λ r k. elim k [ inl e ↦ absurd (ground arith) | inr k ↦ v.below r k ];
    }
conclude-IsLeast (some x ∷ rs) c =
    let v = conclude-IsLeast rs (smaller c x) in
    let (low, low_x) = smaller_lem c x in
    record {
      reached = elim v.reached [
        | inl e ↦ elim (smaller_cases c x) [
          | inl f ↦ inl (e ∙ f)
          | inr f ↦ inr (inl (ap some (sym (e ∙ f))))
        ]
        | inr k ↦ inr (inr k)
      ];
      below_top = omega (arith, v.below_top, low);
      below = λ r k. elim k [
        | inl e ↦
            let same_number : x ≡ r = ground arith in omega (arith, v.below_top, low_x, same_number)
        | inr k ↦ v.below r k
      ];
    }
  where
    smaller_lem : (a b : ℕ) → (smaller a b ≤ a) × (smaller a b ≤ b)
    smaller_lem a b = (ground arith, ground arith)

    smaller_cases : (a b : ℕ) → (smaller a b ≡ a) ⊎ (smaller a b ≡ b)
    smaller_cases a b = elim (Bool-cases (ltb a b)) [
      | inl e ↦ inl (ground arith)
      | inr e ↦ inr (ground arith)
    ]

-- What was known still is, with a result in a place where none was known.
pub Known-set_result :
    (i : ℕ) (o : Option ℕ) (rs : List (Option ℕ)) (c : ℕ)
    → result_at i rs ≡ none
    → Known c rs
    → Known c (set_result i o rs)
Known-set_result zero o [] c h k = absurd k
Known-set_result (suc i) o [] c h k = absurd k
Known-set_result zero o (x ∷ rs) c h (inl e) = absurd (ground arith)
Known-set_result zero o (x ∷ rs) c h (inr k) = inr k
Known-set_result (suc i) o (x ∷ rs) c h (inl e) = inl e
Known-set_result (suc i) o (x ∷ rs) c h (inr k) = inr (Known-set_result i o rs c h k)
