-- ===== src/Api/Values/Bounds.antt =====
-- The pool behind the operations on keys and values.
use ini.Api.{keyval_of, section_of}
use ini.Api.Values.{
  add_checked, add_in_section, add_new_keyval, add_value_ofkey, append_keyval, delete_in_section,
  delete_keyval, delete_value_ofkey, get_in_section, get_value_ofkey, link_before, unlink_keyval,
  update_checked, update_in_section, update_keyval, update_value_ofkey, value_in,
}
use ini.Base.{Bytes, List, Option, [], none, refl, some, ℕ, ◌∙◌, ◌∷◌, ◌≡◌}
use ini.Memory.{
  World, error_parameter, keyvalue_alread, keyvalue_nofound, section_nofound, set_keyval,
}
use ini.Memory.Preserves.{Preserves, Preserves-fail, Preserves-pure, preserves_rules}
use ini.Pool.Bounds.{PoolIn, storage_char_memory-InPool}
use ini.Rewrite.{Parameter}
use ini.Rewrite.Add.{rewrite_after_add}
use ini.Rewrite.Delete.{rewrite_after_delete}
use ini.Rewrite.Renamed.{SameMemory}
use ini.Rewrite.Safe.{rewrite-SameMemory}
use ini.Rewrite.Update.{rewrite_after_update}
use ini.Store.Bounds.{
  find_inifile_section-InPool, find_keyvalue_unsect-InPool, init_line_key_val-InPool,
}

SameMemory-InPool : (w w' : World) → SameMemory w w' → PoolIn w → PoolIn w'
SameMemory-InPool w w' h v = rw h.0 v

rewrite_after_update-InPool :
    (name : Bytes) (p : Parameter) → Preserves PoolIn (rewrite_after_update name p)
rewrite_after_update-InPool name p = record {
  at = λ w. SameMemory-InPool w (rewrite_after_update name p w).1 (rewrite-SameMemory name p w).0;
}

pub rewrite_after_add-InPool :
    (name : Bytes) (p : Parameter) → Preserves PoolIn (rewrite_after_add name p)
rewrite_after_add-InPool name p = record {
  at = λ w. SameMemory-InPool w (rewrite_after_add name p w).1 (rewrite-SameMemory name p w).1;
}

pub rewrite_after_delete-InPool :
    (name : Bytes) (p : Parameter) → Preserves PoolIn (rewrite_after_delete name p)
rewrite_after_delete-InPool name p = record {
  at = λ w. SameMemory-InPool w (rewrite_after_delete name p w).1 (rewrite-SameMemory name p w).2;
}

pub section_of-InPool : (fd : ℕ) (p : Parameter) → Preserves PoolIn (section_of fd p)
unfolding section_of
section_of-InPool fd p = search (preserves_rules, find_inifile_section-InPool) depth 20

keyval_of-InPool : (s : ℕ) (p : Parameter) → Preserves PoolIn (keyval_of s p)
unfolding keyval_of
keyval_of-InPool s p = search (preserves_rules, find_keyvalue_unsect-InPool) depth 20

-- get_value_ofkey
value_in-InPool : (k : Option ℕ) → Preserves PoolIn (value_in k)
unfolding value_in
value_in-InPool none = Preserves-pure none
value_in-InPool (some k) = search (preserves_rules) depth 20

get_in_section-InPool : (p : Parameter) (s : Option ℕ) → Preserves PoolIn (get_in_section p s)
unfolding get_in_section
get_in_section-InPool p none = Preserves-pure none
get_in_section-InPool p (some s) =
    search (preserves_rules, keyval_of-InPool, value_in-InPool) depth 20

pub get_value_ofkey-InPool :
    (fd : ℕ) (p : Option Parameter) → Preserves PoolIn (get_value_ofkey fd p)
unfolding get_value_ofkey
get_value_ofkey-InPool fd none = Preserves-pure none
get_value_ofkey-InPool fd (some p) =
    search (preserves_rules, section_of-InPool, get_in_section-InPool) depth 20

-- update_value_ofkey
update_keyval-InPool :
    (fd : ℕ) (p : Parameter) (v : Bytes) (k : Option ℕ) → Preserves PoolIn (update_keyval fd p v k)
unfolding update_keyval
update_keyval-InPool fd p v none = Preserves-fail ℕ keyvalue_nofound
update_keyval-InPool fd p v (some k) =
    search (preserves_rules, storage_char_memory-InPool, rewrite_after_update-InPool) depth 20

update_in_section-InPool :
    (fd : ℕ) (p : Parameter) (v : Bytes) (s : Option ℕ)
    → Preserves PoolIn (update_in_section fd p v s)
unfolding update_in_section
update_in_section-InPool fd p v none = Preserves-fail ℕ section_nofound
update_in_section-InPool fd p v (some s) =
    search (preserves_rules, keyval_of-InPool, update_keyval-InPool) depth 20

update_checked-InPool :
    (fd : ℕ) (p : Parameter) (v : Option Bytes) → Preserves PoolIn (update_checked fd p v)
unfolding update_checked
update_checked-InPool fd p none = Preserves-fail ℕ error_parameter
update_checked-InPool fd p (some v) =
    search (preserves_rules, section_of-InPool, update_in_section-InPool) depth 20

pub update_value_ofkey-InPool :
    (fd : ℕ) (p : Option Parameter) → Preserves PoolIn (update_value_ofkey fd p)
unfolding update_value_ofkey
update_value_ofkey-InPool fd none = Preserves-fail ℕ error_parameter
update_value_ofkey-InPool fd (some p) = update_checked-InPool fd p p.value

-- add_value_ofkey
append_keyval-InPool :
    (s : ℕ) (xs : List ℕ) (i : ℕ) (w : World) → PoolIn w → PoolIn (append_keyval s xs i w)
unfolding append_keyval
append_keyval-InPool s [] i w v = v
append_keyval-InPool s (x ∷ xs) i w v = v

add_new_keyval-InPool :
    (fd : ℕ) (p : Parameter) (k v : Bytes) (s : ℕ) (j : Option ℕ)
    → Preserves PoolIn (add_new_keyval fd p k v s j)
unfolding add_new_keyval
add_new_keyval-InPool fd p k v s (some j) = Preserves-fail ℕ keyvalue_alread
add_new_keyval-InPool fd p k v s none =
    search
      (preserves_rules, init_line_key_val-InPool, append_keyval-InPool, rewrite_after_add-InPool)
      depth 30

add_in_section-InPool :
    (fd : ℕ) (p : Parameter) (k v : Bytes) (s : Option ℕ)
    → Preserves PoolIn (add_in_section fd p k v s)
unfolding add_in_section
add_in_section-InPool fd p k v none = Preserves-fail ℕ section_nofound
add_in_section-InPool fd p k v (some s) =
    search (preserves_rules, keyval_of-InPool, add_new_keyval-InPool) depth 20

add_checked-InPool :
    (fd : ℕ) (p : Parameter) (k v : Option Bytes) → Preserves PoolIn (add_checked fd p k v)
unfolding add_checked
add_checked-InPool fd p none v = Preserves-fail ℕ error_parameter
add_checked-InPool fd p (some k) none = Preserves-fail ℕ error_parameter
add_checked-InPool fd p (some k) (some v) =
    search (preserves_rules, section_of-InPool, add_in_section-InPool) depth 20

pub add_value_ofkey-InPool :
    (fd : ℕ) (p : Option Parameter) → Preserves PoolIn (add_value_ofkey fd p)
unfolding add_value_ofkey
add_value_ofkey-InPool fd none = Preserves-fail ℕ error_parameter
add_value_ofkey-InPool fd (some p) = add_checked-InPool fd p p.key p.value

-- delete_value_ofkey
link_before-mem : (s : ℕ) (pre q : Option ℕ) (w : World) → (link_before s pre q w).mem ≡ w.mem
link_before-mem s none q w = refl
link_before-mem s (some p) q w = refl

unlink_keyval-mem : (s k : ℕ) (w : World) → (unlink_keyval s k w).mem ≡ w.mem
unfolding unlink_keyval
unlink_keyval-mem s k w = by_last (w1.keyvals k).last
  where
    w1 : World
    w1 = link_before s (w.keyvals k).pre (w.keyvals k).last w

    w1-mem : w1.mem ≡ w.mem
    w1-mem = link_before-mem s (w.keyvals k).pre (w.keyvals k).last w

    by_last :
        (o : Option ℕ)
        → (elim o as (λ _. World) [
          | some l ↦ set_keyval l (record (w1.keyvals l) { pre = (w1.keyvals k).pre }) w1
          | none ↦ link_before s (w1.keyvals k).pre none w1
        ]).mem
          ≡ w.mem
    by_last (some l) = w1-mem
    by_last none = link_before-mem s (w1.keyvals k).pre none w1 ∙ w1-mem

unlink_keyval-InPool : (s k : ℕ) (w : World) → PoolIn w → PoolIn (unlink_keyval s k w)
unlink_keyval-InPool s k w v = rw (unlink_keyval-mem s k w) v

delete_keyval-InPool :
    (fd : ℕ) (p : Parameter) (s : ℕ) (k : Option ℕ) → Preserves PoolIn (delete_keyval fd p s k)
unfolding delete_keyval
delete_keyval-InPool fd p s none = Preserves-fail ℕ keyvalue_nofound
delete_keyval-InPool fd p s (some k) =
    search (preserves_rules, unlink_keyval-InPool, rewrite_after_delete-InPool) depth 20

delete_in_section-InPool :
    (fd : ℕ) (p : Parameter) (s : Option ℕ) → Preserves PoolIn (delete_in_section fd p s)
unfolding delete_in_section
delete_in_section-InPool fd p none = Preserves-fail ℕ section_nofound
delete_in_section-InPool fd p (some s) =
    search (preserves_rules, keyval_of-InPool, delete_keyval-InPool) depth 20

pub delete_value_ofkey-InPool :
    (fd : ℕ) (p : Option Parameter) → Preserves PoolIn (delete_value_ofkey fd p)
unfolding delete_value_ofkey
delete_value_ofkey-InPool fd none = Preserves-fail ℕ error_parameter
delete_value_ofkey-InPool fd (some p) =
    search (preserves_rules, section_of-InPool, delete_in_section-InPool) depth 20
