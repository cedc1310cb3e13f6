-- ===== src/Slots/Laws.antt =====
-- Which node is handed out, and when there is none.
use native.Mathlib.Decide.{ℕ_discrete}
use ini.Base.{
  Bool, Bool-cases, Option-cases, arith, false, if◌then◌else◌, inl, inr, none, refl, some, suc,
  true, zero, ℕ, ◌+◌, ◌<◌, ◌==◌, ◌≡◌, ◌≤◌,
}
use ini.Memory.{
  Result, World, err, fault, keyvalue_array_len, max_inifile_section_num, max_operation_file_num,
  num_out_array, ok,
}
use ini.Slots.{first_unused, get_index_ini_file, get_index_ini_keyvalue, get_index_ini_section}

-- `k` is the first node from `i` on that is not in use.
abbrev pub IsFirst : (ℕ → Bool) → ℕ → ℕ → Type 0
IsFirst used i k = (i ≤ k) × (used k ≡ false) × ((j : ℕ) → i ≤ j → j < k → used j ≡ true)

pub first_unused-some :
    (used : ℕ → Bool) (n i : ℕ) {k : ℕ}
    → first_unused used n i ≡ some k
    → IsFirst used i k × (k < i + n)
unfolding first_unused
first_unused-some used zero i h = absurd (ground arith)
first_unused-some used (suc n) i {k} h = elim (Bool-cases (used i)) [
  | inl u ↦
      let (first, lt) = first_unused-some used n (i + 1) {k = k} (rw u at h) in
      ((omega arith, first.1, λ j l m. next first.2 u j l m), omega arith)
  | inr u ↦
      let e : i ≡ k = ground arith in
      ((omega arith, rw (← e) u, λ j l m. absurd (omega arith)), omega arith)
]
  where
    next :
        ((j : ℕ) → i + 1 ≤ j → j < k → used j ≡ true)
        → used i ≡ true
        → (j : ℕ) → i ≤ j
        → j < k
        → used j ≡ true
    next rest u j l m = elim (ℕ_discrete i j) [
      | yes e ↦ rw (← e) u
      | no ne ↦ rest j (omega arith) m
    ]

pub first_unused-none :
    (used : ℕ → Bool) (n i j : ℕ) → first_unused used n i ≡ none → i ≤ j → j < i + n → used j ≡ true
unfolding first_unused
first_unused-none used zero i j h l m = absurd (omega arith)
first_unused-none used (suc n) i j h l m = elim (Bool-cases (used i)) [
  | inl u ↦ elim (ℕ_discrete i j) [
    | yes e ↦ rw (← e) u
    | no ne ↦ first_unused-none used n (i + 1) j (rw u at h) (omega arith) (omega arith)
  ]
  | inr u ↦ absurd (ground arith)
]

-- What a call that takes a node from an array does to its `used` flags: the first node that is
-- free is taken and no other flag changes, or all are in use and nothing changes.
abbrev pub Takes : (World → ℕ → Bool) → ℕ → World → Result ℕ × World → Type 0
Takes used n w (ok i, w') =
    IsFirst (used w) 0 i × (i < n) × ((j : ℕ) → used w' j ≡ (if i == j then true else used w j))
Takes used n w (err e, w') = (e ≡ num_out_array) × (w' ≡ w) × ((j : ℕ) → j < n → used w j ≡ true)
Takes used n w (fault, w') = ⊥

abbrev pub file_used : World → ℕ → Bool
file_used w i = (w.files i).used

abbrev pub section_used : World → ℕ → Bool
section_used w i = (w.sections i).used

abbrev pub keyval_used : World → ℕ → Bool
keyval_used w i = (w.keyvals i).used

pub get_index_ini_file-Takes :
    (w : World) → Takes file_used max_operation_file_num w (get_index_ini_file w)
unfolding get_index_ini_file
get_index_ini_file-Takes w =
    elim (Option-cases (first_unused (file_used w) max_operation_file_num 0)) [
      | inl e ↦
          rw (e, get_index_ini_file)
            (
              refl,
              refl,
              λ j l. first_unused-none (file_used w) max_operation_file_num 0 j e (omega arith) l,
            )
      | inr (i, e) ↦
          let (first, lt) = first_unused-some (file_used w) max_operation_file_num 0 e in
          rw (e, get_index_ini_file) (first, lt, λ j. ground arith)
    ]

pub get_index_ini_section-Takes :
    (w : World) → Takes section_used max_inifile_section_num w (get_index_ini_section w)
unfolding get_index_ini_section
get_index_ini_section-Takes w =
    elim (Option-cases (first_unused (section_used w) max_inifile_section_num 0)) [
      | inl e ↦
          rw (e, get_index_ini_section)
            (
              refl,
              refl,
              λ j l.
                  first_unused-none (section_used w) max_inifile_section_num 0 j e (omega arith) l,
            )
      | inr (i, e) ↦
          let (first, lt) = first_unused-some (section_used w) max_inifile_section_num 0 e in
          rw (e, get_index_ini_section) (first, lt, λ j. ground arith)
    ]

pub get_index_ini_keyvalue-Takes :
    (w : World) → Takes keyval_used keyvalue_array_len w (get_index_ini_keyvalue w)
unfolding get_index_ini_keyvalue
get_index_ini_keyvalue-Takes w =
    elim (Option-cases (first_unused (keyval_used w) keyvalue_array_len 0)) [
      | inl e ↦
          rw (e, get_index_ini_keyvalue)
            (
              refl,
              refl,
              λ j l. first_unused-none (keyval_used w) keyvalue_array_len 0 j e (omega arith) l,
            )
      | inr (i, e) ↦
          let (first, lt) = first_unused-some (keyval_used w) keyvalue_array_len 0 e in
          rw (e, get_index_ini_keyvalue) (first, lt, λ j. ground arith)
    ]

-- Each of the three functions takes the first node of its array that is not in use and marks it,
-- and no other; where all are in use it ends with INIFILE_NUM_OUT_ARRAY and changes nothing.
pub get_index-Takes :
    (w : World)
    → Takes file_used max_operation_file_num w (get_index_ini_file w)
      × Takes section_used max_inifile_section_num w (get_index_ini_section w)
      × Takes keyval_used keyvalue_array_len w (get_index_ini_keyvalue w)
get_index-Takes w =
    (get_index_ini_file-Takes w, get_index_ini_section-Takes w, get_index_ini_keyvalue-Takes w)
