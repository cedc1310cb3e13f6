-- ===== src/Scan/Results.antt =====
-- `push_result` of portscan/ps_setup.c: one record for an address and a port, with the result of
-- each scan and a conclusion.
pub mod Least
pub mod Laws
use mathlib.Core.Option
use ini.Base.{
  Bool, List, Option, [], bytes_eq, if◌then◌else◌, ltb, none, some, suc, zero, ℕ, ◌&&◌, ◌+◌, ◌==◌,
  ◌∷◌,
}
use ini.Scan.{ScanResult, Setup}
use ini.Text.{c_str}

-- `temp_result->result[i] = r`, and `result->result[i]`.
abbrev pub set_result : ℕ → Option ℕ → List (Option ℕ) → List (Option ℕ)
set_result i r [] = []
set_result zero r (x ∷ xs) = r ∷ xs
set_result (suc i) r (x ∷ xs) = x ∷ set_result i r xs

abbrev pub result_at : ℕ → List (Option ℕ) → Option ℕ
result_at i [] = none
result_at zero (x ∷ xs) = x
result_at (suc i) (x ∷ xs) = result_at i xs

-- MIN(a,b)
abbrev pub smaller : ℕ → ℕ → ℕ
smaller a b = if ltb a b then a else b

-- The loop over the six results.
unfoldable pub conclude : List (Option ℕ) → ℕ → ℕ
conclude [] c = c
conclude (none ∷ rs) c = conclude rs c
conclude (some r ∷ rs) c = conclude rs (smaller c r)

-- `temp_result` with the new result and a new conclusion.
unfoldable pub with_result : ScanResult → ScanResult → ScanResult
unfolding conclude
with_result new old =
    let rs = set_result new.scan_type (result_at new.scan_type new.result) old.result in
    record old { result = rs; conclusion = conclude rs old.conclusion }

-- The record that is made: no result is known, and 10 is above all of them. Its `scan_type` is
-- never set.
abbrev pub fresh_result : ScanResult → ScanResult
fresh_result new = record {
  ip = new.ip;
  service = new.service;
  result = none ∷ none ∷ none ∷ none ∷ none ∷ none ∷ [];
  conclusion = 10;
  portno = new.portno;
  scan_type = new.scan_type;
}

-- The test of the loop over the list.
abbrev pub is_about : ScanResult → ScanResult → Bool
is_about new r = (r.portno == new.portno) && bytes_eq (c_str r.ip) (c_str new.ip)

-- The list with the record changed, or nothing if there is none.
unfoldable pub update_results : ScanResult → List ScanResult → Option (List ScanResult)
unfolding with_result bytes_eq c_str
update_results new [] = none
update_results new (r ∷ rs) =
    let rest = Option.map (◌∷◌ r) (update_results new rs) in
    if is_about new r then some (with_result new r ∷ rs) else rest

unfoldable pub push_result : ScanResult → Setup → Setup
unfolding update_results
push_result new s = elim (update_results new s.result_masterlist) [
  | some rs ↦ record s { result_masterlist = rs }
  | none ↦ record s {
    result_masterlist = with_result new (fresh_result new) ∷ s.result_masterlist;
    result_list_count = s.result_list_count + 1;
  }
]
