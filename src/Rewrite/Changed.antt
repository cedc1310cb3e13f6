-- ===== src/Rewrite/Changed.antt =====
-- The turns of the three loops of v2.0.0/inifile.c: which lines they change or leave out.
use ini.Base.{
  Bool, Bool-cases, Bytes, List, Option, Option-cases, [], ap, arith, drop, false, inl, inr, length,
  none, not, refl, some, true, ℕ, ◌&&◌, ◌++◌, ◌∙◌, ◌∷◌, ◌≡◌, ◌≢◌, ◌⊎◌,
}
use ini.Memory.{memcmp_below}
use ini.Rewrite.{
  Out, Parameter, Turn, abort, crash, crashed, keep, rewrite_loop, skip, stopped, write_then,
  written,
}
use ini.Rewrite.Add.{
  Addition, add_loop, add_section, add_turn, add_with, key_line, put_key_line, section_header,
}
use ini.Rewrite.Add.Laws.{add_loop-true, add_turn_header}
use ini.Rewrite.Changes.{
  Gives, Gives-mono, Gives-write_then, LeavesOut, OneChange, rewrite_loop-OneChange,
}
use ini.Rewrite.Delete.{
  Deleting, delete_finish, delete_header, delete_key, delete_keyvalue, delete_loop, delete_section,
  delete_start, delete_turn, read_over,
}
use ini.Rewrite.Loop.{copied, holds_key, key_in, opens_section, same_key}
use ini.Rewrite.Update.{
  Progress, Target, changed_line, update_keyvalue, update_loop, update_section, update_turn,
}
use ini.Rewrite.Whole.{addition_of, section_header-NoNul}
use ini.Store.{length_or}
use ini.Text.{Sign, above, below, c_str, equality_sign, same, str_frist_constchar}
use ini.Text.Laws.{NoNul-c_str}

-- The line of the key becomes the line with the new value.
abbrev pub Renews : Target → Bytes → Bytes → Type 0
Renews t l l' =
    (e : ℕ) × (str_frist_constchar l equality_sign ≡ some e)
    × (holds_key t.key t.key_len l ≡ true)
    × (l' ≡ changed_line t l e)

-- Behind the header of the section the line of the key is put.
abbrev pub Adds : Addition → Bytes → Bytes → Type 0
Adds a l l' =
    (v : Bytes) × (a.value ≡ some v)
    × (opens_section a.section a.section_len l ≡ true)
    × (l' ≡ c_str l ++ key_line a v)

module _ (t : Target) where
  update_turn-keep :
      (s : Progress) (l l' : Bytes) (s' : Progress)
      → update_turn t s l ≡ keep l' s'
      → (l' ≡ l) ⊎ (Renews t l l' × (s'.mod_flag ≡ true))
  unfolding update_turn update_section update_keyvalue holds_key same_key key_in
  update_turn-keep s l l' s' h = elim (Option-cases (str_frist_constchar l equality_sign)) [
    | inl m ↦ inl (ground arith)
    | inr (e, m) ↦ elim (Bool-cases (holds_key t.key t.key_len l && (s.flag && not s.mod_flag))) [
      | inl k ↦ inr ((e, m, ground arith, ground arith), ground arith)
      | inr k ↦ inl (ground arith)
    ]
  ]

  update_turn-ne-skip : (s : Progress) (l : Bytes) (s' : Progress) → update_turn t s l ≢ skip s'
  unfolding update_turn update_section update_keyvalue
  update_turn-ne-skip s l s' h = ground arith

  update_turn-ne-crash : (s : Progress) (l : Bytes) → update_turn t s l ≢ crash
  unfolding update_turn update_section update_keyvalue
  update_turn-ne-crash s l h = ground arith

  update_turn-done : (s : Progress) (l : Bytes) → s.mod_flag ≡ true → update_turn t s l ≡ keep l s
  unfolding update_turn
  update_turn-done s l h = ground arith

module _ (a : Addition) where
  add_turn-keep :
      (s : Bool) (l l' : Bytes) (s' : Bool)
      → add_turn a s l ≡ keep l' s'
      → (l' ≡ l) ⊎ (Adds a l l' × (s' ≡ true))
  unfolding add_turn add_section put_key_line opens_section
  add_turn-keep true l l' s' h = inl (ground arith)
  add_turn-keep false l l' s' h = elim (Option-cases a.value) [
    | inl m ↦ inl (ground arith)
    | inr (v, m) ↦ elim (Bool-cases (opens_section a.section a.section_len l)) [
      | inl k ↦ inr (
        (v, m, k, ground (arith, add_turn_header a l m k)),
        ground (arith, add_turn_header a l m k),
      )
      | inr k ↦ inl (ground arith)
    ]
  ]

  add_turn-ne-skip : (s : Bool) (l : Bytes) (s' : Bool) → add_turn a s l ≢ skip s'
  unfolding add_turn add_section put_key_line
  add_turn-ne-skip true l s' h = ground arith
  add_turn-ne-skip false l s' h = ground arith

  add_turn-crash : (s : Bool) (l : Bytes) → add_turn a s l ≡ crash → a.value ≡ none
  unfolding add_turn add_section put_key_line
  add_turn-crash true l h = absurd (ground arith)
  add_turn-crash false l h = ground arith

module _ (section : Bytes) (n : ℕ) (key : Option Bytes) (m : ℕ) where
  delete_turn-keep :
      (s : Deleting) (l l' : Bytes) (s' : Deleting)
      → delete_turn section n key m s l ≡ keep l' s'
      → l' ≡ read_over l s.buffer
  unfolding delete_turn delete_section delete_header delete_keyvalue delete_key
  delete_turn-keep s l l' s' h = ground arith

  delete_turn-ne-crash : (s : Deleting) (l : Bytes) → delete_turn section n key m s l ≢ crash
  unfolding delete_turn delete_section delete_header delete_keyvalue delete_key
  delete_turn-ne-crash s l h = ground arith

pub update_loop-Gives :
    (t : Target) (ls : List Bytes) → Gives (OneChange (Renews t) ls) ⊥ (update_loop t ls)
unfolding update_loop
update_loop-Gives t ls =
    rewrite_loop-OneChange (update_turn t) (λ s. s.mod_flag ≡ true) (Renews t) ⊥
      (record {
        keeps = update_turn-keep t;
        no_skip = update_turn-ne-skip t;
        crashes = λ s l h. absurd (update_turn-ne-crash t s l h);
        copies = update_turn-done t;
      })
      ls (record { flag = false; mod_flag = false })

add_loop-Gives :
    (a : Addition) (ls : List Bytes)
    → Gives (OneChange (Adds a) ls) (a.value ≡ none) (add_loop a false ls)
unfolding add_loop
add_loop-Gives a ls =
    rewrite_loop-OneChange (add_turn a) (λ s. s ≡ true) (Adds a) (a.value ≡ none)
      (record {
        keeps = add_turn-keep a;
        no_skip = add_turn-ne-skip a;
        crashes = add_turn-crash a;
        copies = copies;
      })
      ls false
  where
    copies : (s : Bool) (l : Bytes) → s ≡ true → add_turn a s l ≡ keep l s
    copies true l h = refl
    copies false l h = absurd (ground arith)

-- The text of an addition: a header in front of all lines, or one line changed.
abbrev pub AddText : Parameter → Bytes → Option Bytes → List Bytes → Bytes → Type 0
AddText p s none ls new = new ≡ section_header s (length_or p.section_len s) ++ copied ls []
AddText p s (some k) ls new = OneChange (Adds (addition_of p s k)) ls new

-- C does not say what is printed for a NULL value.
abbrev pub AddCrash : Parameter → Option Bytes → Type 0
AddCrash p none = ⊥
AddCrash p (some k) = p.value ≡ none

pub add_with-Gives :
    (p : Parameter) (s : Bytes) (key : Option Bytes) (ls : List Bytes)
    → Gives (AddText p s key ls) (AddCrash p key) (add_with s (length_or p.section_len s) p key ls)
unfolding add_with
add_with-Gives p s none ls =
    rw (add_loop-true, NoNul-c_str _ (section_header-NoNul s (length_or p.section_len s))) refl
add_with-Gives p s (some k) ls = add_loop-Gives (addition_of p s k) ls

c_str_before : (s r : Bytes) → c_str (s ++ (0 ∷ r)) ≡ c_str s
unfolding c_str
c_str_before [] r = refl
c_str_before (c ∷ s) r = ground (arith, c_str_before s r)

c_str-read_over : (l buffer : Bytes) → c_str (read_over l buffer) ≡ c_str l
c_str-read_over l [] = refl
c_str-read_over l (c ∷ old) = c_str_before l (drop (length l) old)

module _ (section : Bytes) (n : ℕ) (key : Option Bytes) (m : ℕ) where
  delete_by_turn :
      (s : Deleting) (l : Bytes) (ls : List Bytes) (u : Turn Deleting)
      → delete_turn section n key m s l ≡ u
      → ((s : Deleting)
          → Gives (LeavesOut ls) ⊥ (rewrite_loop (delete_turn section n key m) delete_finish s ls))
      → Gives (LeavesOut (l ∷ ls)) ⊥ (elim u as (λ _. Out) [
        | keep l' s' ↦
            write_then l' (rewrite_loop (delete_turn section n key m) delete_finish s' ls)
        | skip s' ↦ rewrite_loop (delete_turn section n key m) delete_finish s' ls
        | abort e ↦ stopped e
        | crash ↦ crashed
      ])
  delete_by_turn s l ls (keep l' s') e rest =
      let text : c_str l' ≡ c_str l =
        ap c_str (delete_turn-keep section n key m s l l' s' e) ∙ c_str-read_over l s.buffer in
      Gives-write_then (LeavesOut ls) (LeavesOut (l ∷ ls)) ⊥ l'
        (λ new g. inr (new, ap (λ x. x ++ new) text, g)) _ (rest s')
  delete_by_turn s l ls (skip s') e rest =
      Gives-mono (LeavesOut ls) (LeavesOut (l ∷ ls)) ⊥ (λ new g. inl g) _ (rest s')
  delete_by_turn s l ls (abort x) e rest = tt
  delete_by_turn s l ls crash e rest = absurd (delete_turn-ne-crash section n key m s l e)

  delete_end :
      (g : Sign)
      → Gives (LeavesOut []) ⊥ (elim g as (λ _. Out) [
        | same ↦ written 0 []
        | above ↦ written 1 []
        | below ↦ stopped memcmp_below
      ])
  delete_end same = refl
  delete_end above = refl
  delete_end below = tt

  delete_loop-LeavesOut :
      (ls : List Bytes) (s : Deleting)
      → Gives (LeavesOut ls) ⊥ (rewrite_loop (delete_turn section n key m) delete_finish s ls)
  unfolding rewrite_loop delete_finish
  delete_loop-LeavesOut [] s = delete_end s.ret
  delete_loop-LeavesOut (l ∷ ls) s =
      delete_by_turn s l ls (delete_turn section n key m s l) refl (delete_loop-LeavesOut ls)

  pub delete_loop-Gives :
      (ls : List Bytes) → Gives (LeavesOut ls) ⊥ (delete_loop section n key m ls)
  unfolding delete_loop
  delete_loop-Gives ls = delete_loop-LeavesOut ls delete_start
