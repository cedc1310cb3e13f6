-- ===== src/Api/Files/Bounds.antt =====
-- The same of `init_ini_file` and `destroy_ini_source`.
use ini.Api.{bad_fd}
use ini.Api.Files.{
  destroy_ini_source, destroy_used, free_section_keys, free_sections, init_ini_file,
  init_named_file, open_file, or_destroy, release_section_before,
}
use ini.Api.Sections.Bounds.{free_keyvals-InPool}
use ini.Base.{
  Bool, Bool-cases, Bytes, List, Option, [], arith, false, if◌then◌else◌, inl, inr, none, not, some,
  true, ℕ, ◌||◌, ◌∷◌,
}
use ini.Load.Bounds.{read_analys_ini_file-InPool}
use ini.Memory.{M, Pool, Result, World, err, error_parameter, fail, fault, inti, ok, ◌>>◌}
use ini.Memory.Preserves.{
  Preserves, Preserves-bind, Preserves-fail, Preserves-pure, preserves_rules,
}
use ini.Pool.{ini_file_memory_init, set_mem}
use ini.Pool.Bounds.{PoolIn, storage_char_memory-InPool}
use ini.Store.Bounds.{get_index_ini_file-InPool}

release_section_before-InPool : (o : Option ℕ) → Preserves PoolIn (release_section_before o)
unfolding release_section_before
release_section_before-InPool none = record { at = λ w v. v }
release_section_before-InPool (some p) = record { at = λ w v. v }

free_section_keys-InPool : (i : ℕ) → Preserves PoolIn (free_section_keys i)
unfolding free_section_keys
free_section_keys-InPool i = search (preserves_rules, free_keyvals-InPool) depth 20

free_sections-InPool : (xs : List ℕ) → Preserves PoolIn (free_sections xs)
unfolding free_sections
free_sections-InPool [] = Preserves-pure tt
free_sections-InPool (i ∷ []) = search (preserves_rules, free_section_keys-InPool) depth 20
free_sections-InPool (i ∷ j ∷ xs) =
    let rest = free_sections-InPool (j ∷ xs) in
    search (preserves_rules, free_section_keys-InPool, release_section_before-InPool) depth 30

destroy_used-InPool : (fd : ℕ) → Preserves PoolIn (destroy_used fd)
unfolding destroy_used
destroy_used-InPool fd = search (preserves_rules, free_sections-InPool) depth 20

pub destroy_ini_source-InPool : (fd : ℕ) → Preserves PoolIn (destroy_ini_source fd)
unfolding destroy_ini_source
destroy_ini_source-InPool fd = record {
  at = λ w v. elim (Bool-cases (bad_fd fd || not ((w.files fd).used))) [
    | inl e ↦ rw e v
    | inr e ↦ rw e ((destroy_used-InPool fd).at w v)
  ];
}

or_destroy-InPool : (fd : ℕ) (m : M ℕ) → Preserves PoolIn m → Preserves PoolIn (or_destroy fd m)
unfolding or_destroy
or_destroy-InPool fd m k = record { at = λ w v. by_result (m w).0 (m w).1 (k.at w v) }
  where
    by_result :
        (r : Result ℕ) (w' : World)
        → PoolIn w'
        → PoolIn
            (elim r as (λ _. Result ℕ × World) [
              | ok a ↦ (ok a, w')
              | err e ↦ (destroy_ini_source fd >> fail e) w'
              | fault ↦ (fault, w')
            ]).1
    by_result (ok a) w' v = v
    by_result (err e) w' v =
        (Preserves-bind (destroy_ini_source fd) (λ _. fail e) (destroy_ini_source-InPool fd)
            (λ _. Preserves-fail ℕ e)).at
          w' v
    by_result fault w' v = v

open_file-InPool : (name : Bytes) (len fd : ℕ) → Preserves PoolIn (open_file name len fd)
unfolding open_file
open_file-InPool name len fd =
    search (preserves_rules, storage_char_memory-InPool, read_analys_ini_file-InPool) depth 20

ini_file_memory_init-InPool : (w : World) → PoolIn w → PoolIn (ini_file_memory_init w)
unfolding ini_file_memory_init
ini_file_memory_init-InPool w v = by_ready w.mem.ready
  where
    set_up : Pool
    set_up = record (w.mem) {
      ready = true;
      current = record { half = inti; off = 0 };
      curr_len = 0;
    }

    by_ready : (b : Bool) → PoolIn (if b then w else set_mem set_up w)
    by_ready true = v
    by_ready false = record { placed = omega arith; pool_end = v.pool_end; back_end = v.back_end }

init_named_file-InPool : (name : Option Bytes) (n : ℕ) → Preserves PoolIn (init_named_file name n)
unfolding init_named_file
init_named_file-InPool none n = Preserves-fail ℕ error_parameter
init_named_file-InPool (some name) n =
    search (preserves_rules, get_index_ini_file-InPool, or_destroy-InPool, open_file-InPool) depth
      20

pub init_ini_file-InPool : (name : Option Bytes) (n : ℕ) → Preserves PoolIn (init_ini_file name n)
unfolding init_ini_file
init_ini_file-InPool name n =
    search (preserves_rules, ini_file_memory_init-InPool, init_named_file-InPool) depth 20
