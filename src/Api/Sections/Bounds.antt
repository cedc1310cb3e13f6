-- ===== src/Api/Sections/Bounds.antt =====
-- The pool behind the operations on sections.
use ini.Api.Sections.{
  add_ini_section, add_new_section, add_section_checked, append_section, delete_found,
  delete_ini_section, free_keyvals, link_before, release_before, unlink_section,
}
use ini.Api.Values.Bounds.{rewrite_after_add-InPool, rewrite_after_delete-InPool, section_of-InPool}
use ini.Base.{Bytes, List, Option, [], none, refl, some, ℕ, ◌∙◌, ◌∷◌, ◌≡◌}
use ini.Memory.{World, error_parameter, section_alread, section_nofound, set_section}
use ini.Memory.Preserves.{Preserves, Preserves-fail, Preserves-pure, preserves_rules}
use ini.Pool.Bounds.{PoolIn}
use ini.Rewrite.{Parameter}
use ini.Store.Bounds.{init_line_section-InPool}

link_before-mem : (fd : ℕ) (pre q : Option ℕ) (w : World) → (link_before fd pre q w).mem ≡ w.mem
link_before-mem fd none q w = refl
link_before-mem fd (some p) q w = refl

unlink_section-mem : (fd s : ℕ) (w : World) → (unlink_section fd s w).mem ≡ w.mem
unfolding unlink_section
unlink_section-mem fd s w = by_last (w1.sections s).last
  where
    w1 : World
    w1 = link_before fd (w.sections s).pre (w.sections s).last w

    w1-mem : w1.mem ≡ w.mem
    w1-mem = link_before-mem fd (w.sections s).pre (w.sections s).last w

    by_last :
        (o : Option ℕ)
        → (elim o as (λ _. World) [
          | some l ↦ set_section l (record (w1.sections l) { pre = (w1.sections s).pre }) w1
          | none ↦ link_before fd (w1.sections s).pre none w1
        ]).mem
          ≡ w.mem
    by_last (some l) = w1-mem
    by_last none = link_before-mem fd (w1.sections s).pre none w1 ∙ w1-mem

unlink_section-InPool : (fd s : ℕ) (w : World) → PoolIn w → PoolIn (unlink_section fd s w)
unlink_section-InPool fd s w v = rw (unlink_section-mem fd s w) v

release_before-InPool : (o : Option ℕ) → Preserves PoolIn (release_before o)
unfolding release_before
release_before-InPool none = record { at = λ w v. v }
release_before-InPool (some p) = record { at = λ w v. v }

pub free_keyvals-InPool : (xs : List ℕ) → Preserves PoolIn (free_keyvals xs)
unfolding free_keyvals
free_keyvals-InPool [] = Preserves-pure tt
free_keyvals-InPool (i ∷ []) = search (preserves_rules) depth 20
free_keyvals-InPool (i ∷ j ∷ xs) =
    let rest = free_keyvals-InPool (j ∷ xs) in
    search (preserves_rules, release_before-InPool) depth 20

delete_found-InPool :
    (fd : ℕ) (p : Parameter) (s : Option ℕ) → Preserves PoolIn (delete_found fd p s)
unfolding delete_found
delete_found-InPool fd p none = Preserves-fail ℕ section_nofound
delete_found-InPool fd p (some s) =
    search
      (preserves_rules, unlink_section-InPool, free_keyvals-InPool, rewrite_after_delete-InPool)
      depth 30

pub delete_ini_section-InPool :
    (fd : ℕ) (p : Option Parameter) → Preserves PoolIn (delete_ini_section fd p)
unfolding delete_ini_section
delete_ini_section-InPool fd none = Preserves-fail ℕ error_parameter
delete_ini_section-InPool fd (some p) =
    search (preserves_rules, section_of-InPool, delete_found-InPool) depth 20

append_section-InPool :
    (fd : ℕ) (xs : List ℕ) (i : ℕ) (w : World) → PoolIn w → PoolIn (append_section fd xs i w)
unfolding append_section
append_section-InPool fd [] i w v = v
append_section-InPool fd (x ∷ xs) i w v = v

add_new_section-InPool :
    (fd : ℕ) (p : Parameter) (s : Bytes) (j : Option ℕ)
    → Preserves PoolIn (add_new_section fd p s j)
unfolding add_new_section
add_new_section-InPool fd p s (some j) = Preserves-fail ℕ section_alread
add_new_section-InPool fd p s none =
    search
      (preserves_rules, init_line_section-InPool, append_section-InPool, rewrite_after_add-InPool)
      depth 30

add_section_checked-InPool :
    (fd : ℕ) (p : Parameter) (s : Option Bytes) → Preserves PoolIn (add_section_checked fd p s)
unfolding add_section_checked
add_section_checked-InPool fd p none = Preserves-fail ℕ error_parameter
add_section_checked-InPool fd p (some s) =
    search (preserves_rules, section_of-InPool, add_new_section-InPool) depth 20

pub add_ini_section-InPool :
    (fd : ℕ) (p : Option Parameter) → Preserves PoolIn (add_ini_section fd p)
unfolding add_ini_section
add_ini_section-InPool fd none = Preserves-fail ℕ error_parameter
add_ini_section-InPool fd (some p) = add_section_checked-InPool fd p p.section
