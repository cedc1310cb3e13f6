-- ===== src/Rewrite/Unused.antt =====
-- INIFILE_REWRITE_ERROR and the three functions that name it.
use ini.Base.{
  Bool, Bytes, List, Option, [], arith, false, if◌then◌else◌, length, none, not, some, true, ℕ, ◌≢◌,
}
use ini.Memory.{M, Result, World, err, error_parameter, fail, no_exist, rewrite_error}
use ini.Rewrite.{
  Out, Parameter, crashed, given_len, put_back, rewrite_with, stopped, tmp_name, written,
}
use ini.Rewrite.Add.{Addition, add_loop, add_turn, add_with, rewrite_after_add}
use ini.Rewrite.Delete.{delete_loop, rewrite_after_delete}
use ini.Rewrite.Errors.{add_turn-ne, delete_loop-ne, rewrite_loop-ne, update_turn-ne, write_then-ne}
use ini.Rewrite.Update.{Target, rewrite_after_update, update_loop, update_target, update_turn}
use ini.Store.{length_or}
use ini.Text.{read_lines}

update_loop-ne : (t : Target) (ls : List Bytes) → update_loop t ls ≢ stopped rewrite_error
unfolding update_loop
update_loop-ne t ls =
    rewrite_loop-ne (update_turn t) (λ s. written 0 []) rewrite_error (update_turn-ne t)
      (λ s p. ground arith) ls _

add_loop-ne : (a : Addition) (b : Bool) (ls : List Bytes) → add_loop a b ls ≢ stopped rewrite_error
unfolding add_loop
add_loop-ne a b ls =
    rewrite_loop-ne (add_turn a) (λ s. written 0 []) rewrite_error (add_turn-ne a)
      (λ s p. ground arith) ls b

add_with-ne :
    (s : Bytes) (n : ℕ) (p : Parameter) (k : Option Bytes) (ls : List Bytes)
    → add_with s n p k ls ≢ stopped rewrite_error
unfolding add_with
add_with-ne s n p none ls = write_then-ne rewrite_error _ _ (add_loop-ne _ true ls)
add_with-ne s n p (some k) ls = add_loop-ne _ false ls

-- A rewrite that is not told to stop with INIFILE_REWRITE_ERROR does not return it.
put_back-ne :
    (name : Bytes) (w : World) (o : Out)
    → o ≢ stopped rewrite_error
    → (put_back name o w).0 ≢ err rewrite_error
unfolding put_back
put_back-ne name w (written r new) h = λ p. ground arith
put_back-ne name w (stopped e) h = λ p. h (ground arith)
put_back-ne name w crashed h = λ p. ground arith

rewrite_with-ne :
    (name : Bytes) (w : World) (loop : List Bytes → Out)
    → ((ls : List Bytes) → loop ls ≢ stopped rewrite_error)
    → (rewrite_with name loop w).0 ≢ err rewrite_error
unfolding rewrite_with
rewrite_with-ne name w loop h = by_content (w.disk.content name)
  where
    no_file : (put_back name (stopped no_exist) w).0 ≢ err rewrite_error
    no_file = put_back-ne name w (stopped no_exist) (λ p. ground arith)

    by_copy :
        (b : Bool) (old : Bytes)
        → (if b
            then put_back name (stopped no_exist) w
            else put_back name (loop (read_lines (length old) old)) w).0
          ≢ err rewrite_error
    by_copy true old = no_file
    by_copy false old = put_back-ne name w _ (h (read_lines (length old) old))

    by_content :
        (o : Option Bytes)
        → (elim o as (λ _. Result ℕ × World) [
          | none ↦ put_back name (stopped no_exist) w
          | some old ↦
              if not (w.disk.writable (tmp_name name))
              then put_back name (stopped no_exist) w
              else put_back name (loop (read_lines (length old) old)) w
        ]).0
          ≢ err rewrite_error
    by_content none = no_file
    by_content (some old) = by_copy (not (w.disk.writable (tmp_name name))) old

update_checked-ne :
    (name : Bytes) (w : World) (o : Option Target)
    → ((elim o as (λ _. M ℕ) [
      | none ↦ fail error_parameter
      | some t ↦ rewrite_with name (update_loop t)
    ])
        w).0
      ≢ err rewrite_error
unfolding fail
update_checked-ne name w none = λ p. ground arith
update_checked-ne name w (some t) = rewrite_with-ne name w (update_loop t) (update_loop-ne t)

section_checked-ne :
    (name : Bytes) (w : World) (loop : Bytes → List Bytes → Out) (o : Option Bytes)
    → ((s : Bytes) (ls : List Bytes) → loop s ls ≢ stopped rewrite_error)
    → ((elim o as (λ _. M ℕ) [ none ↦ fail error_parameter | some s ↦ rewrite_with name (loop s) ])
        w).0
      ≢ err rewrite_error
unfolding fail
section_checked-ne name w loop none h = λ p. ground arith
section_checked-ne name w loop (some s) h = rewrite_with-ne name w (loop s) (h s)

-- INIFILE_REWRITE_ERROR is returned by none of the three functions, whatever the file and the
-- parameters.
pub rewrite_error_never :
    (name : Bytes) (p : Parameter) (w : World)
    → ((rewrite_after_update name p w).0 ≢ err rewrite_error)
      × ((rewrite_after_add name p w).0 ≢ err rewrite_error)
      × ((rewrite_after_delete name p w).0 ≢ err rewrite_error)
unfolding rewrite_after_update rewrite_after_add rewrite_after_delete
rewrite_error_never name p w = (
  update_checked-ne name w (update_target p p.section p.key p.value),
  section_checked-ne name w (λ s. add_with s (length_or p.section_len s) p p.key) p.section
      (λ s. add_with-ne s (length_or p.section_len s) p p.key),
  section_checked-ne name w
      (λ s. delete_loop s (length_or p.section_len s) p.key (given_len p.key_len p.key)) p.section
      (λ s. delete_loop-ne s (length_or p.section_len s) p.key (given_len p.key_len p.key)),
)
