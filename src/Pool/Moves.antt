-- ===== src/Pool/Moves.antt =====
-- Moving one string: the texts of its place and of all others.
use ini.Base.{
  Bool, Bytes, Option, arith, false, if◌then◌else◌, inl, inr, leb, length, none, refl, some, true,
  ℕ, ◌+◌, ◌<◌, ◌∙◌, ◌≡◌, ◌≤◌,
}
use ini.Memory.{CharPtr, Pool, Result, World, err, fault, inifile_size_space, memory_pool_error, ok}
use ini.Pool.{move_string, put_string, set_mem, string_at, text_of}
use ini.Pool.Fits.{
  IsTidy, LiesBefore, counted-IsTidy, counted_pool, put_string-Puts, string_at-counted,
}
use ini.Pool.Laws.{text_of-NoNul}
use ini.Text.Laws.{NoNul}

-- NULL, or a string that lies before `current` or in the other half.
abbrev pub Placed : Pool → Option CharPtr → Type 0
Placed p none = Unit
Placed p (some c) = LiesBefore p c

-- The pool `q` holds all that is placed in `p`, and is tidy.
pub record Extends (p q : Pool) : Type 0 where
  pub still_tidy : IsTidy q
  pub reads_same : (c : CharPtr) → LiesBefore p c → string_at q c ≡ string_at p c
  pub still_before : (c : CharPtr) → LiesBefore p c → LiesBefore q c

pub Extends-text :
    (p q : Pool) (o : Option CharPtr) → Extends p q → Placed p o → text_of q o ≡ text_of p o
unfolding text_of
Extends-text p q none h l = refl
Extends-text p q (some c) h l = h.reads_same c l

pub Extends-Placed : (p q : Pool) (o : Option CharPtr) → Extends p q → Placed p o → Placed q o
Extends-Placed p q none h l = tt
Extends-Placed p q (some c) h l = h.still_before c l

counted-Extends : (p : Pool) (n : ℕ) → IsTidy p → Extends p (counted_pool p n)
counted-Extends p n t = record {
  still_tidy = counted-IsTidy p n t;
  reads_same = λ c l. string_at-counted p n c;
  still_before = λ c l. rw (string_at-counted p n c) l;
}

module _ (p : Pool) (s : Bytes) (t : IsTidy p) (h : NoNul s)
    (room : p.current.off + length s < inifile_size_space)
    (le : p.current.off + length s + 1 ≤ p.curr_len) where
  put_string-before : (c : CharPtr) → LiesBefore p c → LiesBefore (put_string p s (length s)).1 c
  unfolding put_string
  put_string-before c (inl ne) = inl ne
  put_string-before c (inr l) =
      let same_text = (put_string-Puts p s t h room le).keeps c (inr l) in
      inr (rw same_text (omega (arith, l)))

  put_string-Extends : Extends p (put_string p s (length s)).1
  put_string-Extends =
      let puts = put_string-Puts p s t h room le in
      record { still_tidy = puts.tidy; reads_same = puts.keeps; still_before = put_string-before }

  put_string-Placed : LiesBefore (put_string p s (length s)).1 p.current
  unfolding put_string
  put_string-Placed =
      let puts = put_string-Puts p s t h room le in inr (rw puts.reads_back (omega arith))

Extends-trans : (p q r : Pool) → Extends p q → Extends q r → Extends p r
Extends-trans p q r h k = record {
  still_tidy = k.still_tidy;
  reads_same = λ c l. k.reads_same c (h.still_before c l) ∙ h.reads_same c l;
  still_before = λ c l. k.still_before c (h.still_before c l);
}

pub Extends-refl : (p : Pool) → IsTidy p → Extends p p
Extends-refl p t = record { still_tidy = t; reads_same = λ c l. refl; still_before = λ c l. l }

-- A string that is moved reads the same in its new place; where it does not fit nothing is lost.
abbrev pub MovesTo : World → Option CharPtr → Result (Option CharPtr) × World → Type 0
MovesTo w o (ok o', w') =
    (q : Pool) × (w' ≡ set_mem q w)
    × Extends w.mem q
    × Placed q o'
    × (text_of q o' ≡ text_of w.mem o)
MovesTo w o (err e, w') = (q : Pool) × (w' ≡ set_mem q w) × Extends w.mem q
MovesTo w o (fault, w') = ⊥

module _ (w : World) (c : CharPtr) (t : IsTidy w.mem) where
  move_string-fits :
      w.mem.curr_len + (length (string_at w.mem c) + 1) < inifile_size_space
      → MovesTo w (some c) (
        ok (some w.mem.current),
        set_mem
            (put_string
              (counted_pool w.mem (length (string_at w.mem c)))
              (string_at w.mem c)
              (length (string_at w.mem c))).1
            w,
      )
  unfolding text_of
  move_string-fits fits =
      let s = string_at w.mem c in
      let p = counted_pool w.mem (length s) in
      let q = (put_string p s (length s)).1 in
      let tidy = counted-IsTidy w.mem (length s) t in
      let nul : NoNul s = text_of-NoNul w.mem (some c) in
      let room : w.mem.current.off + length s < inifile_size_space = omega (arith, t.counted) in
      let le : w.mem.current.off + length s + 1 ≤ w.mem.curr_len + (length s + 1) =
        omega (arith, t.counted) in
      (
        q,
        refl,
        Extends-trans w.mem p q (counted-Extends w.mem (length s) t)
            (put_string-Extends p s tidy nul room le),
        put_string-Placed p s tidy nul room le,
        (put_string-Puts p s tidy nul room le).reads_back,
      )

move_string-out :
    (w : World) (c : CharPtr) → IsTidy w.mem → MovesTo w (some c) (move_string (some c) w)
unfolding move_string put_string
move_string-out w c t =
    by_test (leb inifile_size_space (w.mem.curr_len + (length (string_at w.mem c) + 1))) refl
  where
    n : ℕ
    n = length (string_at w.mem c)

    by_test :
        (b : Bool)
        → leb inifile_size_space (w.mem.curr_len + (n + 1)) ≡ b
        → MovesTo w (some c) (
            if b then (err memory_pool_error, set_mem (counted_pool w.mem n) w) else (
              ok (some w.mem.current),
              set_mem (put_string (counted_pool w.mem n) (string_at w.mem c) n).1 w,
            ))
    by_test true e = (counted_pool w.mem n, refl, counted-Extends w.mem n t)
    by_test false e = move_string-fits w c t (ground arith)

pub move_string-MovesTo :
    (w : World) (o : Option CharPtr) → IsTidy w.mem → MovesTo w o (move_string o w)
unfolding move_string text_of
move_string-MovesTo w none t = (w.mem, refl, Extends-refl w.mem t, tt, refl)
move_string-MovesTo w (some c) t = move_string-out w c t
