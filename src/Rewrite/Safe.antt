-- ===== src/Rewrite/Safe.antt =====
-- How the functions of v2.0.0/inifile.c that rewrite a file end.
use ini.Base.{
  Bool-cases, Bytes, List, Option, Option-cases, ap, arith, false, inl, inr, length, none, refl,
  some, true, ℕ, ◌≡◌, ◌⊎◌,
}
use ini.Memory.{M, Result, World, err, error_parameter, fail, fault, no_exist, ok}
use ini.Rewrite.{
  Out, Parameter, crashed, delete_tmp_name_file, given_len, put_back, re_name_ini_file,
  rewrite_with, stopped, tmp_name, written,
}
use ini.Rewrite.Add.{add_with, rewrite_after_add}
use ini.Rewrite.Changed.{
  AddCrash, AddText, Renews, add_with-Gives, delete_loop-Gives, update_loop-Gives,
}
use ini.Rewrite.Changes.{Gives, LeavesOut, OneChange}
use ini.Rewrite.Delete.{delete_loop, rewrite_after_delete}
use ini.Rewrite.Renamed.{
  IsRenamed, SameContent, SameMemory, bytes_eq_refl, re_name_ini_file-IsRenamed,
}
use ini.Rewrite.Update.{Target, rewrite_after_update, update_loop, update_target}
use ini.Store.{length_or}
use ini.Text.{read_lines}

-- The file is there and its copy can be opened.
abbrev pub CanRead : Bytes → World → Bytes → Type 0
CanRead name w old = (w.disk.content name ≡ some old) × (w.disk.writable (tmp_name name) ≡ true)

-- How a rewrite ends: with a text that `Text` allows for the lines of the file, and the file is
-- renamed; with an error, for the files cannot be opened or the loop stops with it; or where
-- `Crash` holds. The nodes in memory are not touched, and on an error no file has changed.
abbrev pub Rewrites :
    Bytes
    → World
    → (List Bytes → Out)
    → (List Bytes → Bytes → Type 0)
    → Type 0
    → Result ℕ × World
    → Type 0
Rewrites name w loop Text Crash (ok r, w') =
    SameMemory w w'
    × ((old new : Bytes) × CanRead name w old
        × Text (read_lines (length old) old) new
        × IsRenamed name new w w')
Rewrites name w loop Text Crash (err e, w') =
    SameMemory w w'
    × (w'.disk.content (tmp_name name) ≡ none)
    × SameContent name w w'
    × (((e ≡ no_exist) × ((w.disk.content name ≡ none) ⊎ (w.disk.writable (tmp_name name) ≡ false)))
        ⊎ ((old : Bytes) × CanRead name w old × (loop (read_lines (length old) old) ≡ stopped e)))
Rewrites name w loop Text Crash (fault, w') = SameMemory w w' × Crash

module _ (name : Bytes) (w : World) (loop : List Bytes → Out) (Text : List Bytes → Bytes → Type 0)
    (Crash : Type 0) where
  not_opened :
      (w.disk.content name ≡ none) ⊎ (w.disk.writable (tmp_name name) ≡ false)
      → Rewrites name w loop Text Crash (put_back name (stopped no_exist) w)
  unfolding put_back delete_tmp_name_file
  not_opened h = (
    (refl, refl, refl, refl),
    ground (arith, bytes_eq_refl (tmp_name name)),
    λ n h. ground arith,
    inl (refl, h),
  )

  put_back-Rewrites :
      (old : Bytes) (o : Out)
      → loop (read_lines (length old) old) ≡ o
      → CanRead name w old
      → Gives (Text (read_lines (length old) old)) Crash o
      → Rewrites name w loop Text Crash (put_back name o w)
  unfolding put_back delete_tmp_name_file re_name_ini_file
  put_back-Rewrites old (written r new) e can g =
      ((refl, refl, refl, refl), (old, new, can, g, re_name_ini_file-IsRenamed name w new))
  put_back-Rewrites old (stopped x) e can g = (
    (refl, refl, refl, refl),
    ground (arith, bytes_eq_refl (tmp_name name)),
    λ n h. ground arith,
    inr (old, can, e),
  )
  put_back-Rewrites old crashed e can g = ((refl, refl, refl, refl), g)

  pub rewrite_with-Rewrites :
      ((ls : List Bytes) → Gives (Text ls) Crash (loop ls))
      → Rewrites name w loop Text Crash (rewrite_with name loop w)
  unfolding rewrite_with
  rewrite_with-Rewrites gives = elim (Option-cases (w.disk.content name)) [
    | inl e ↦ rw (e, rewrite_with) (not_opened (inl e))
    | inr (old, e) ↦ elim (Bool-cases (w.disk.writable (tmp_name name))) [
      | inl f ↦
          let o = loop (read_lines (length old) old) in
          rw (e, rewrite_with)
            (rw (f, rewrite_with)
              (put_back-Rewrites old o refl (e, f) (gives (read_lines (length old) old))))
      | inr f ↦ rw (e, rewrite_with) (rw (f, rewrite_with) (not_opened (inr f)))
    ]
  ]

-- How each of the three functions ends, on its section, key and value: one that it needs is NULL
-- and nothing at all is done, or all are given and the file is rewritten by its loop.
abbrev pub UpdateEnds :
    Bytes
    → Parameter
    → World
    → Option Bytes
    → Option Bytes
    → Option Bytes
    → Result ℕ × World
    → Type 0
UpdateEnds name p w section key value out =
    (((section ≡ none) ⊎ (key ≡ none) ⊎ (value ≡ none)) × (out ≡ (err error_parameter, w)))
    ⊎ ((t : Target) × (update_target p section key value ≡ some t)
        × Rewrites name w (update_loop t) (OneChange (Renews t)) ⊥ out)

abbrev pub AddEnds : Bytes → Parameter → World → Option Bytes → Result ℕ × World → Type 0
AddEnds name p w section out =
    ((section ≡ none) × (out ≡ (err error_parameter, w)))
    ⊎ ((s : Bytes) × (section ≡ some s)
        × Rewrites name w (add_with s (length_or p.section_len s) p p.key) (AddText p s p.key)
            (AddCrash p p.key) out)

abbrev pub deletes : Parameter → Bytes → List Bytes → Out
deletes p s = delete_loop s (length_or p.section_len s) p.key (given_len p.key_len p.key)

abbrev pub DeleteEnds : Bytes → Parameter → World → Option Bytes → Result ℕ × World → Type 0
DeleteEnds name p w section out =
    ((section ≡ none) × (out ≡ (err error_parameter, w)))
    ⊎ ((s : Bytes) × (section ≡ some s) × Rewrites name w (deletes p s) LeavesOut ⊥ out)

update-Ends :
    (name : Bytes) (p : Parameter) (w : World) (a b c : Option Bytes)
    → UpdateEnds name p w a b c (
        (elim (update_target p a b c) as (λ _. M ℕ) [
          | none ↦ fail error_parameter
          | some t ↦ rewrite_with name (update_loop t)
        ])
          w)
unfolding update_target fail
update-Ends name p w none b c = inl (inl refl, refl)
update-Ends name p w (some s) none c = inl (inr (inl refl), refl)
update-Ends name p w (some s) (some k) none = inl (inr (inr refl), refl)
update-Ends name p w (some s) (some k) (some v) =
    inr (_, refl, rewrite_with-Rewrites name w _ _ ⊥ (update_loop-Gives _))

add-Ends :
    (name : Bytes) (p : Parameter) (w : World) (a : Option Bytes)
    → AddEnds name p w a (
        (elim a as (λ _. M ℕ) [
          | none ↦ fail error_parameter
          | some s ↦ rewrite_with name (add_with s (length_or p.section_len s) p p.key)
        ])
          w)
unfolding fail
add-Ends name p w none = inl (refl, refl)
add-Ends name p w (some s) =
    inr (s, refl, rewrite_with-Rewrites name w _ _ (AddCrash p p.key) (add_with-Gives p s p.key))

delete-Ends :
    (name : Bytes) (p : Parameter) (w : World) (a : Option Bytes)
    → DeleteEnds name p w a (
        (elim a as (λ _. M ℕ) [
          | none ↦ fail error_parameter
          | some s ↦ rewrite_with name (deletes p s)
        ])
          w)
unfolding fail
delete-Ends name p w none = inl (refl, refl)
delete-Ends name p w (some s) =
    inr (s, refl, rewrite_with-Rewrites name w _ _ ⊥ (delete_loop-Gives _ _ _ _))

pub rewrite-Ends :
    (name : Bytes) (p : Parameter) (w : World)
    → UpdateEnds name p w p.section p.key p.value (rewrite_after_update name p w)
      × AddEnds name p w p.section (rewrite_after_add name p w)
      × DeleteEnds name p w p.section (rewrite_after_delete name p w)
unfolding rewrite_after_update rewrite_after_add rewrite_after_delete
rewrite-Ends name p w = (
  update-Ends name p w p.section p.key p.value,
  add-Ends name p w p.section,
  delete-Ends name p w p.section,
)

SameMemory-Rewrites :
    (name : Bytes) (w : World) (loop : List Bytes → Out) (Text : List Bytes → Bytes → Type 0)
    (Crash : Type 0) (out : Result ℕ × World)
    → Rewrites name w loop Text Crash out
    → SameMemory w out.1
SameMemory-Rewrites name w loop Text Crash (ok r, w') h = h.0
SameMemory-Rewrites name w loop Text Crash (err e, w') h = h.0
SameMemory-Rewrites name w loop Text Crash (fault, w') h = h.0

SameMemory-refused :
    (w : World) {r : Result ℕ} (out : Result ℕ × World) → out ≡ (r, w) → SameMemory w out.1
SameMemory-refused w (r, w') e =
    let same_world : w' ≡ w = ap (λ o. o.1) e in rw same_world (refl, refl, refl, refl)

-- The memory is as it was behind each of the three.
pub rewrite-SameMemory :
    (name : Bytes) (p : Parameter) (w : World)
    → SameMemory w (rewrite_after_update name p w).1
      × SameMemory w (rewrite_after_add name p w).1
      × SameMemory w (rewrite_after_delete name p w).1
rewrite-SameMemory name p w =
    let (u, a, d) = rewrite-Ends name p w in
    (
      elim u [
        | inl h ↦ SameMemory-refused w (rewrite_after_update name p w) h.1
        | inr h ↦
            SameMemory-Rewrites name w (update_loop h.0) (OneChange (Renews h.0)) ⊥
              (rewrite_after_update name p w) h.2
      ],
      elim a [
        | inl h ↦ SameMemory-refused w (rewrite_after_add name p w) h.1
        | inr h ↦
            SameMemory-Rewrites name w (add_with h.0 (length_or p.section_len h.0) p p.key)
              (AddText p h.0 p.key) (AddCrash p p.key) (rewrite_after_add name p w) h.2
      ],
      elim d [
        | inl h ↦ SameMemory-refused w (rewrite_after_delete name p w) h.1
        | inr h ↦
            SameMemory-Rewrites name w (deletes p h.0) LeavesOut ⊥ (rewrite_after_delete name p w)
              h.2
      ],
    )
