-- ===== src/Linked/Check/Laws.antt =====
-- What the check of v1.0.0/inifile.c lets through.
use ini.Base.{
  Bool, Bool-cases, arith, false, if◌then◌else◌, inl, inr, ltb, refl, true, ◌||◌, ◌≡◌, ◌≤◌,
}
use ini.Linked.{
  IniParameter, Outcome, add_value_of_key_type, done, get_value_of_key_type, max_string_len,
  undefined, update_value_of_key_type, ◌>>=◌,
}
use ini.Linked.Check.{and_ends, bad_len, check_section_key, ini_parameter_check, key_bad, null_ptr}

by_parts :
    (a b c : Bool) (o : Outcome Bool) (rest : Bool → Outcome Bool)
    → (if a || b || c then done false else (o >>= rest)) ≡ done true
    → rest false ≡ done false
    → (if a then done false else o) ≡ done true
by_parts true b c o rest h z = absurd cc
by_parts false true c o rest h z = absurd cc
by_parts false false true o rest h z = absurd cc
by_parts false false false (done true) rest h z = refl
by_parts false false false (done false) rest h z = absurd cc
by_parts false false false undefined rest h z = absurd cc

module _ (p : IniParameter) where
  -- A parameter that may be used to change a value may be used to look it up.
  pub update-check-get :
      ini_parameter_check p update_value_of_key_type ≡ done true
      → ini_parameter_check p get_value_of_key_type ≡ done true
  unfolding ini_parameter_check
  update-check-get h =
      by_parts (key_bad p) (null_ptr p.value) (bad_len p.value_len) (check_section_key p)
        (λ a. and_ends a p.value p.value_len) h refl

  pub add-check-get :
      ini_parameter_check p add_value_of_key_type ≡ done true
      → ini_parameter_check p get_value_of_key_type ≡ done true
  unfolding ini_parameter_check
  add-check-get h =
      by_parts (key_bad p) (null_ptr p.value) (bad_len p.value_len) (check_section_key p)
        (λ a. and_ends a p.value p.value_len) h refl

  -- The length of the key is within the limit.
  pub add-check-key_len :
      ini_parameter_check p add_value_of_key_type ≡ done true → p.key_len ≤ max_string_len
  unfolding ini_parameter_check
  add-check-key_len h = elim (Bool-cases (ltb max_string_len p.key_len)) [
    | inl e ↦ absurd (ground arith)
    | inr e ↦ ground arith
  ]
