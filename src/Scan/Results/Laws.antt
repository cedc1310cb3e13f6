-- ===== src/Scan/Results/Laws.antt =====
-- What the table of results of portscan/ps_setup.c holds.
use mathlib.Core.Option
use ini.Base.{
  All, Bool-cases, List, Option, [], ap, arith, false, inl, inr, length, none, refl, some, subst,
  suc, sym, true, zero, ℕ, ◌+◌, ◌<◌, ◌∙◌, ◌∷◌, ◌≡◌, ◌⊎◌,
}
use ini.Rewrite.Renamed.{bytes_eq_refl}
use ini.Scan.{ScanResult, Setup}
use ini.Scan.Results.{
  fresh_result, is_about, push_result, result_at, set_result, update_results, with_result,
}
use ini.Scan.Results.Least.{IsLeast, Known, Known-set_result, conclude-IsLeast}
use ini.Text.{c_str}

-- The conclusion is the least result that is known, or 10 where none is below it.
abbrev pub IsConcluded : ScanResult → Type 0
IsConcluded r = IsLeast r.conclusion 10 r.result

-- No two records are about the same address and port.
abbrev pub IsSingle : List ScanResult → Type 0
IsSingle [] = Unit
IsSingle (r ∷ rs) = All (λ x. is_about r x ≡ false) rs × IsSingle rs

pub record IsTable (s : Setup) : Type 0 where
  pub concluded : All IsConcluded s.result_masterlist
  pub single : IsSingle s.result_masterlist
  pub wide : All (λ r. length r.result ≡ 6) s.result_masterlist
  pub count : s.result_list_count ≡ length s.result_masterlist

-- A scan of a port gives a result that was not known.
abbrev pub IsNew : ScanResult → List ScanResult → Type 0
IsNew new = All (λ r. is_about new r ≡ true → result_at new.scan_type r.result ≡ none)

length-set_result :
    (i : ℕ) (o : Option ℕ) (rs : List (Option ℕ)) → length (set_result i o rs) ≡ length rs
length-set_result i o [] = refl
length-set_result zero o (x ∷ rs) = refl
length-set_result (suc i) o (x ∷ rs) = ap suc (length-set_result i o rs)

result_at-set_result :
    (i : ℕ) (o : Option ℕ) (rs : List (Option ℕ))
    → i < length rs
    → result_at i (set_result i o rs) ≡ o
result_at-set_result i o [] l = absurd (omega arith)
result_at-set_result zero o (x ∷ rs) l = refl
result_at-set_result (suc i) o (x ∷ rs) l = result_at-set_result i o rs (omega arith)

-- A record of the list is about the address and port, and has the result.
abbrev pub HasResult : ScanResult → List ScanResult → Type 0
HasResult new [] = ⊥
HasResult new (r ∷ rs) =
    ((is_about new r ≡ true)
      × (result_at new.scan_type r.result ≡ result_at new.scan_type new.result))
    ⊎ HasResult new rs

with_result-HasResult :
    (new old : ScanResult) (rs : List ScanResult)
    → new.scan_type < 6
    → length old.result ≡ 6
    → is_about new old ≡ true
    → HasResult new (with_result new old ∷ rs)
unfolding with_result
with_result-HasResult new old rs l wide e =
    inl (e, result_at-set_result new.scan_type _ old.result (omega (arith, wide)))

is_about-fresh : (new : ScanResult) → is_about new (fresh_result new) ≡ true
is_about-fresh new = ground (arith, bytes_eq_refl (c_str new.ip))

with_result-IsConcluded :
    (new old : ScanResult)
    → result_at new.scan_type old.result ≡ none
    → IsConcluded old
    → IsConcluded (with_result new old)
unfolding with_result
with_result-IsConcluded new old h v =
    let o = result_at new.scan_type new.result in
    let rs = set_result new.scan_type o old.result in
    let u = conclude-IsLeast rs old.conclusion in
    record {
      reached = elim u.reached [
        | inl e ↦ elim v.reached [
          | inl f ↦ inl (e ∙ f)
          | inr k ↦ inr (
              Known-set_result new.scan_type o old.result _ h
                (subst (λ c. Known c old.result) (sym e) k))
        ]
        | inr k ↦ inr k
      ];
      below_top = omega (arith, u.below_top, v.below_top);
      below = u.below;
    }

fresh-IsConcluded : (new : ScanResult) → IsConcluded (fresh_result new)
fresh-IsConcluded new = record {
  reached = inl refl;
  below_top = omega arith;
  below = λ r k. absurd (none_known r k);
}
  where
    none_known : (r : ℕ) → ¬ Known r (none ∷ none ∷ none ∷ none ∷ none ∷ none ∷ [])
    none_known r k = ground arith

fresh_none : (i : ℕ) (new : ScanResult) → result_at i (fresh_result new).result ≡ none
fresh_none zero new = refl
fresh_none (suc zero) new = refl
fresh_none (suc (suc zero)) new = refl
fresh_none (suc (suc (suc zero))) new = refl
fresh_none (suc (suc (suc (suc zero)))) new = refl
fresh_none (suc (suc (suc (suc (suc zero))))) new = refl
fresh_none (suc (suc (suc (suc (suc (suc i)))))) new = refl

-- The records, changed in one place.
record Changed (new : ScanResult) (rs rs' : List ScanResult) : Type 0 where
  wide : All (λ r. length r.result ≡ 6) rs'
  has_result : HasResult new rs'
  concluded : All IsConcluded rs'
  single : IsSingle rs'
  long : length rs' ≡ length rs
  abouts :
      (x : ScanResult) → All (λ r. is_about x r ≡ false) rs → All (λ r. is_about x r ≡ false) rs'

-- What `update_results` gives.
abbrev Updates : ScanResult → List ScanResult → Option (List ScanResult) → Type 0
Updates new rs none = All (λ r. is_about new r ≡ false) rs
Updates new rs (some rs') = Changed new rs rs'

update_results-Updates :
    (new : ScanResult) (rs : List ScanResult)
    → IsNew new rs
    → new.scan_type < 6
    → All (λ r. length r.result ≡ 6) rs
    → All IsConcluded rs
    → IsSingle rs
    → Updates new rs (update_results new rs)
unfolding update_results with_result
update_results-Updates new [] n l d c u = tt
update_results-Updates new (r ∷ rs) n l d c u = elim (Bool-cases (is_about new r)) [
  | inl e ↦
      rw (update_results, e)
        (record {
          wide = (length-set_result new.scan_type _ r.result ∙ d.0, d.1);
          has_result = with_result-HasResult new r rs l d.0 e;
          concluded = (with_result-IsConcluded new r (n.0 e) c.0, c.1);
          single = u;
          long = refl;
          abouts = λ x a. a;
        })
  | inr e ↦
      rw (update_results, e)
        (later r rs (update_results new rs) e d.0 c.0 u.0
          (update_results-Updates new rs n.1 l d.1 c.1 u.1))
]
  where
    later :
        (r : ScanResult) (rs : List ScanResult) (o : Option (List ScanResult))
        → is_about new r ≡ false
        → length r.result ≡ 6
        → IsConcluded r
        → All (λ x. is_about r x ≡ false) rs
        → Updates new rs o
        → Updates new (r ∷ rs) (Option.map (◌∷◌ r) o)
    later r rs none e d c apart i = (e, i)
    later r rs (some rs') e d c apart i = record {
      wide = (d, i.wide);
      has_result = inr i.has_result;
      concluded = (c, i.concluded);
      single = (i.abouts r apart, i.single);
      long = ap suc i.long;
      abouts = λ x a. (a.0, i.abouts x a.1);
    }

-- A result for one of the six scans that is pushed is in the record of its address and port, and the
-- table stays right: each address and port has one record, with six places; the conclusion of each
-- record is the least of the results that are known in it, or 10 where none of them is below 10; and
-- the records are counted. This holds when no result for that scan of that port is known before.
pub push_result-IsTable :
    (new : ScanResult) (s : Setup)
    → new.scan_type < 6
    → IsNew new s.result_masterlist
    → IsTable s
    → IsTable (push_result new s) × HasResult new (push_result new s).result_masterlist
unfolding push_result with_result
push_result-IsTable new s l n v =
    by_update (update_results new s.result_masterlist)
      (update_results-Updates new s.result_masterlist n l v.wide v.concluded v.single)
  where
    pushed : Option (List ScanResult) → Setup
    pushed o = elim o [
      | some rs ↦ record s { result_masterlist = rs }
      | none ↦ record s {
        result_masterlist = with_result new (fresh_result new) ∷ s.result_masterlist;
        result_list_count = s.result_list_count + 1;
      }
    ]

    by_update :
        (o : Option (List ScanResult))
        → Updates new s.result_masterlist o
        → IsTable (pushed o) × HasResult new (pushed o).result_masterlist
    by_update (some rs) i = (
      record {
        concluded = i.concluded;
        single = i.single;
        wide = i.wide;
        count = v.count ∙ sym i.long;
      },
      i.has_result,
    )
    by_update none i = (
      record {
        concluded = (
          with_result-IsConcluded new (fresh_result new) (fresh_none new.scan_type new)
              (fresh-IsConcluded new),
          v.concluded,
        );
        single = (i, v.single);
        wide = (length-set_result new.scan_type _ (fresh_result new).result, v.wide);
        count = omega (arith, v.count);
      },
      with_result-HasResult new (fresh_result new) s.result_masterlist l refl (is_about-fresh new),
    )
