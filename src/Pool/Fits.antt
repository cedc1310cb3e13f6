-- ===== src/Pool/Fits.antt =====
-- `storage_char_memory` on a half that has room.
use ini.Base.{
  Bytes, ap, arith, false, inl, inr, leb, length, refl, sym, ℕ, ◌+◌, ◌-◌, ◌<◌, ◌∙◌, ◌≡◌, ◌≢◌, ◌≤◌,
  ◌⊎◌,
}
use ini.Memory.{CharPtr, Half, Pool, World, back, inifile_size_space, inti, ok}
use ini.Pool.{
  half_bytes, memcpy, put_string, read_from, set_mem, storage_char_memory, store_string, string_at,
  write_half,
}
use ini.Pool.Laws.{read_from-agree, read_from_lem}
use ini.Text.{char_at}
use ini.Text.Laws.{NoNul}

-- The strings lie before `current`, and all behind it is still zero.
pub record IsTidy (p : Pool) : Type 0 where
  pub counted : p.current.off ≤ p.curr_len
  pub clean : (i : ℕ) → p.current.off ≤ i → half_bytes p p.current.half i ≡ 0

-- The string at `c` and its NUL lie in the other half, or before `current`.
abbrev pub LiesBefore : Pool → CharPtr → Type 0
LiesBefore p c = (c.half ≢ p.current.half) ⊎ (c.off + length (string_at p c) < p.current.off)

pub half_bytes-write : (p : Pool) (h : Half) (f : ℕ → ℕ) → half_bytes (write_half p h f) h ≡ f
half_bytes-write p inti f = refl
half_bytes-write p back f = refl

half_bytes-write_ne :
    (p : Pool) (h g : Half) (f : ℕ → ℕ) → g ≢ h → half_bytes (write_half p h f) g ≡ half_bytes p g
half_bytes-write_ne p inti inti f ne = absurd (ne refl)
half_bytes-write_ne p inti back f ne = refl
half_bytes-write_ne p back inti f ne = refl
half_bytes-write_ne p back back f ne = absurd (ne refl)

Half-discrete : Discrete Half
Half-discrete = hlevel

write_half-curr_len : (p : Pool) (h : Half) (f : ℕ → ℕ) → (write_half p h f).curr_len ≡ p.curr_len
write_half-curr_len p inti f = refl
write_half-curr_len p back f = refl

-- What a string that is put in the pool leaves.
pub record Puts (p : Pool) (s : Bytes) (q : Pool) : Type 0 where
  pub reads_back : string_at q p.current ≡ s
  pub tidy : IsTidy q
  pub keeps : (c : CharPtr) → LiesBefore p c → string_at q c ≡ string_at p c

module _ (p : Pool) (s : Bytes) (t : IsTidy p) (h : NoNul s)
    (room : p.current.off + length s < inifile_size_space) where
  abbrev there : ℕ → ℕ
  there = memcpy (half_bytes p p.current.half) p.current.off s (length s)

  there_written : (i : ℕ) → i < length s → there (p.current.off + i) ≡ char_at s i
  there_written i l =
      let e : p.current.off + i - p.current.off ≡ i = omega arith in
      ground (arith, ap (char_at s) e)

  there_end : there (p.current.off + length s) ≡ 0
  there_end = ground (arith, t.clean (p.current.off + length s) (omega arith))

  put_string-reads : string_at (put_string p s (length s)).1 p.current ≡ s
  unfolding put_string string_at
  put_string-reads = rw (half_bytes-write p p.current.half there) (
      read_from_lem there (inifile_size_space - p.current.off) p.current.off s h (omega arith)
        there_written there_end)

  abbrev after : Pool
  after = record (write_half p p.current.half there) {
    current = record { half = p.current.half; off = p.current.off + length s + 1 };
  }

  after_same : half_bytes after p.current.half ≡ there
  after_same = half_bytes-write p p.current.half there

  after_other : (g : Half) → g ≢ p.current.half → half_bytes after g ≡ half_bytes p g
  after_other g ne = half_bytes-write_ne p p.current.half g there ne

  there_outside : (i : ℕ) → i < p.current.off → half_bytes p p.current.half i ≡ there i
  there_outside i l = ground arith

  there_behind : (i : ℕ) → p.current.off + length s ≤ i → half_bytes p p.current.half i ≡ there i
  there_behind i l = ground arith

  keeps_same_half :
      (c : CharPtr)
      → c.half ≡ p.current.half
      → c.off + length (string_at p c) < p.current.off
      → string_at after c ≡ string_at p c
  unfolding string_at
  keeps_same_half c e l =
      let here : half_bytes after c.half ≡ there = ap (half_bytes after) e ∙ after_same in
      let before : half_bytes p c.half ≡ half_bytes p p.current.half = ap (half_bytes p) e in
      let l' : c.off
            + length (read_from (half_bytes p p.current.half) (inifile_size_space - c.off) c.off)
          < p.current.off =
        rw before at l in
      rw (here, before)
        (read_from-agree (half_bytes p p.current.half) there (inifile_size_space - c.off) c.off
          (λ i k m. there_outside i (omega arith)))

  keeps_lies : (c : CharPtr) → LiesBefore p c → string_at after c ≡ string_at p c
  unfolding string_at
  keeps_lies c (inl ne) = rw (after_other c.half ne)
  keeps_lies c (inr l) = elim (Half-discrete c.half p.current.half) [
    | yes e ↦ keeps_same_half c e l
    | no ne ↦ rw (after_other c.half ne)
  ]

  after-IsTidy : p.current.off + length s + 1 ≤ p.curr_len → IsTidy after
  after-IsTidy le = record {
    counted = rw (write_half-curr_len p p.current.half there) le;
    clean = λ i l.
        let same_bytes = ap (λ (f : ℕ → ℕ). f i) after_same in
        same_bytes ∙ sym (there_behind i (omega arith)) ∙ t.clean i (omega arith);
  }

  pub put_string-Puts :
      p.current.off + length s + 1 ≤ p.curr_len → Puts p s (put_string p s (length s)).1
  unfolding put_string
  put_string-Puts le = record {
    reads_back = put_string-reads;
    tidy = after-IsTidy le;
    keeps = keeps_lies;
  }

abbrev pub counted_pool : Pool → ℕ → Pool
counted_pool p n = record p { curr_len = p.curr_len + (n + 1) }

pub string_at-counted :
    (p : Pool) (n : ℕ) (c : CharPtr) → string_at (counted_pool p n) c ≡ string_at p c
unfolding string_at
string_at-counted p n c = ap (λ f. read_from f (inifile_size_space - c.off) c.off) (halves c.half)
  where
    halves : (h : Half) → half_bytes (counted_pool p n) h ≡ half_bytes p h
    halves inti = refl
    halves back = refl

pub counted-IsTidy : (p : Pool) (n : ℕ) → IsTidy p → IsTidy (counted_pool p n)
counted-IsTidy p n t = record {
  counted = omega (arith, t.counted);
  clean = clean_of p.current.half t.clean;
}
  where
    clean_of :
        (h : Half)
        → ((i : ℕ) → p.current.off ≤ i → half_bytes p h i ≡ 0)
        → (i : ℕ) → p.current.off ≤ i
        → half_bytes (counted_pool p n) h i ≡ 0
    clean_of inti c = c
    clean_of back c = c

-- Where the pool is tidy, the string has no NUL and what is counted leaves room for it, the string
-- is stored at `current`: it is read back as it was given, the strings before it are read as
-- before, the pool is tidy again, and its length and a NUL are counted.
pub storage_char_memory_fits :
    (w : World) (s : Bytes)
    → IsTidy w.mem
    → NoNul s
    → w.mem.curr_len + (length s + 1) < inifile_size_space
    → (q : Pool) × (storage_char_memory s (length s) w ≡ (ok w.mem.current, set_mem q w))
      × Puts w.mem s q
      × (q.curr_len ≡ w.mem.curr_len + (length s + 1))
unfolding storage_char_memory store_string
storage_char_memory_fits w s t h room =
    let n = length s in
    let p1 = counted_pool w.mem n in
    let full : leb inifile_size_space (w.mem.curr_len + (n + 1)) ≡ false = ground arith in
    let puts =
      put_string-Puts p1 s (counted-IsTidy w.mem n t) h (omega (arith, t.counted))
        (omega (arith, t.counted)) in
    (
      (put_string p1 s n).1,
      rw (full, storage_char_memory) (unfold put_string in refl),
      record {
        reads_back = puts.reads_back;
        tidy = puts.tidy;
        keeps =
            λ c l. puts.keeps c (rw (string_at-counted w.mem n c) l) ∙ string_at-counted w.mem n c;
      },
      unfold put_string in write_half-curr_len p1 _ _,
    )
