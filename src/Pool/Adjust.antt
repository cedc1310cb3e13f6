-- ===== src/Pool/Adjust.antt =====
-- The texts when `ini_file_memory_adjust` moves the strings to the other half.
use ini.Base.{Bool-cases, Bytes, Option, arith, inl, inr, subst, update, ℕ, ◌==◌, ◌∙◌, ◌≡◌}
use ini.Memory.{
  CharPtr, M, Pool, Result, World, and_then, err, fault, ok, set_file, set_keyval, set_section,
  ◌>>=◌,
}
use ini.Pool.{move_string, set_mem, text_of}
use ini.Pool.Fits.{IsTidy}
use ini.Pool.Moves.{Extends, Extends-Placed, Extends-text, MovesTo, Placed, move_string-MovesTo}

abbrev pub Holds : Pool → Option CharPtr → Bytes → Type 0
Holds p o s = Placed p o × (text_of p o ≡ s)

Holds-Extends :
    (p q : Pool) (o : Option CharPtr) (s : Bytes) → Extends p q → Holds p o s → Holds q o s
Holds-Extends p q o s e h = (Extends-Placed p q o e h.0, Extends-text p q o e h.0 ∙ h.1)

-- Every name, section, key and value of `w` is that of `old`, and is placed in the pool of `w`.
pub record Kept (old w : World) : Type 0 where
  pub tidy : IsTidy w.mem
  pub names : (i : ℕ) → Holds w.mem (w.files i).name (text_of old.mem (old.files i).name)
  pub secs : (i : ℕ) → Holds w.mem (w.sections i).sec (text_of old.mem (old.sections i).sec)
  pub keys : (i : ℕ) → Holds w.mem (w.keyvals i).key (text_of old.mem (old.keyvals i).key)
  pub values : (i : ℕ) → Holds w.mem (w.keyvals i).value (text_of old.mem (old.keyvals i).value)

Kept-set_mem : (old w : World) (q : Pool) → Extends w.mem q → Kept old w → Kept old (set_mem q w)
Kept-set_mem old w q e k = record {
  tidy = e.still_tidy;
  names = λ i. Holds-Extends w.mem q _ _ e (k.names i);
  secs = λ i. Holds-Extends w.mem q _ _ e (k.secs i);
  keys = λ i. Holds-Extends w.mem q _ _ e (k.keys i);
  values = λ i. Holds-Extends w.mem q _ _ e (k.values i);
}

-- A property of an updated map: it holds at the place that is set, and elsewhere as before.
update_case :
    {A : Type 0} (P : ℕ → A → Type 0) (f : ℕ → A) (i : ℕ) (v : A)
    → P i v
    → ((j : ℕ) → P j (f j))
    → (j : ℕ) → P j (update f i v j)
update_case P f i v here there j = elim (Bool-cases (i == j)) [
  | inl e ↦ let same_place : i ≡ j = ground arith in rw e (subst (λ n. P n v) same_place here)
  | inr e ↦ rw e (there j)
]

module _ (old w : World) (k : Kept old w) (i : ℕ) (o : Option CharPtr) where
  pub Kept-set_key :
      Holds w.mem o (text_of old.mem (old.keyvals i).key)
      → Kept old (set_keyval i (record (w.keyvals i) { key = o }) w)
  Kept-set_key h = record {
    tidy = k.tidy;
    names = k.names;
    secs = k.secs;
    keys =
        update_case (λ j n. Holds w.mem n.key (text_of old.mem (old.keyvals j).key)) w.keyvals i _ h
          k.keys;
    values =
        update_case (λ j n. Holds w.mem n.value (text_of old.mem (old.keyvals j).value)) w.keyvals i
          _ (k.values i) k.values;
  }

  pub Kept-set_value :
      Holds w.mem o (text_of old.mem (old.keyvals i).value)
      → Kept old (set_keyval i (record (w.keyvals i) { value = o }) w)
  Kept-set_value h = record {
    tidy = k.tidy;
    names = k.names;
    secs = k.secs;
    keys =
        update_case (λ j n. Holds w.mem n.key (text_of old.mem (old.keyvals j).key)) w.keyvals i _
          (k.keys i) k.keys;
    values =
        update_case (λ j n. Holds w.mem n.value (text_of old.mem (old.keyvals j).value)) w.keyvals i
          _ h k.values;
  }

  pub Kept-set_sec :
      Holds w.mem o (text_of old.mem (old.sections i).sec)
      → Kept old (set_section i (record (w.sections i) { sec = o }) w)
  Kept-set_sec h = record {
    tidy = k.tidy;
    names = k.names;
    secs =
        update_case (λ j n. Holds w.mem n.sec (text_of old.mem (old.sections j).sec)) w.sections i _
          h k.secs;
    keys = k.keys;
    values = k.values;
  }

  pub Kept-set_name :
      Holds w.mem o (text_of old.mem (old.files i).name)
      → Kept old (set_file i (record (w.files i) { name = o }) w)
  Kept-set_name h = record {
    tidy = k.tidy;
    names =
        update_case (λ j n. Holds w.mem n.name (text_of old.mem (old.files j).name)) w.files i _ h
          k.names;
    secs = k.secs;
    keys = k.keys;
    values = k.values;
  }

-- What is moved holds the text that it held; if it does not fit all is kept, and the rest is left.
pub bind_moved :
    {A : Type 0} (old w : World) (o : Option CharPtr) (s : Bytes) (f : Option CharPtr → M A)
    → Kept old w
    → Holds w.mem o s
    → ((o' : Option CharPtr) (q : Pool)
        → Kept old (set_mem q w)
        → Holds q o' s
        → Kept old (f o' (set_mem q w)).1)
    → Kept old ((move_string o >>= f) w).1
unfolding ◌>>=◌
bind_moved old w o s f k h next = by_out (move_string o w) (move_string-MovesTo w o k.tidy)
  where
    by_out : (r : Result (Option CharPtr) × World) → MovesTo w o r → Kept old (and_then r.0 r.1 f).1
    by_out (ok o', w') (q, e, x, l, t) = rw e (next o' q (Kept-set_mem old w q x k) (l, t ∙ h.1))
    by_out (err c, w') (q, e, x) = rw e (Kept-set_mem old w q x k)
    by_out (fault, w') m = absurd m
