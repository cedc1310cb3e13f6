-- ===== src/Pool/Stale.antt =====
-- `storage_char_memory` on a half that is not clean.
use ini.Base.{
  Bytes, [], ap, arith, false, leb, length, refl, suc, zero, ℕ, ◌+◌, ◌-◌, ◌<◌, ◌∷◌, ◌≡◌, ◌≢◌,
}
use ini.Memory.{Half, Pool, World, back, inifile_size_space, inti, ok}
use ini.Pool.{
  half_bytes, memcpy, put_string, read_from, storage_char_memory, store_string, string_at,
}
use ini.Pool.Fits.{counted_pool, half_bytes-write}
use ini.Text.{char_at}
use ini.Text.Laws.{NoNul}

read_from_longer :
    (f : ℕ → ℕ) (n off : ℕ) (s : Bytes)
    → NoNul s
    → length s < n
    → ((i : ℕ) → i < length s → f (off + i) ≡ char_at s i)
    → f (off + length s) ≢ 0
    → length s < length (read_from f n off)
unfolding read_from
read_from_longer f zero off s h l w e = absurd (omega arith)
read_from_longer f (suc n) off [] h l w e =
    let here : off + 0 ≡ off = omega arith in let first : f off ≢ 0 = rw here at e in ground arith
read_from_longer f (suc n) off (c ∷ s) h l w e =
    let here : off + 0 ≡ off = omega arith in
    let first : f off ≡ c = rw here at (w 0 (omega arith)) in
    let rest =
      read_from_longer f n (off + 1) s h.1 (omega arith)
        (λ i m.
          let next : off + 1 + i ≡ off + suc i = omega arith in rw next (w (suc i) (omega arith)))
        (let next : off + 1 + length s ≡ off + suc (length s) = omega arith in rw next e) in
    ground (arith, h.0)

module _ (p : Pool) (s : Bytes) (h : NoNul s) (room : p.current.off + length s < inifile_size_space)
    (dirty : half_bytes p p.current.half (p.current.off + length s) ≢ 0) where
  abbrev there : ℕ → ℕ
  there = memcpy (half_bytes p p.current.half) p.current.off s (length s)

  there_written : (i : ℕ) → i < length s → there (p.current.off + i) ≡ char_at s i
  there_written i l =
      let e : p.current.off + i - p.current.off ≡ i = omega arith in
      ground (arith, ap (char_at s) e)

  there_behind : there (p.current.off + length s) ≢ 0
  there_behind e = dirty (ground arith)

  put_string-longer : length s < length (string_at (put_string p s (length s)).1 p.current)
  unfolding put_string string_at
  put_string-longer = rw (half_bytes-write p p.current.half there) (
      read_from_longer there (inifile_size_space - p.current.off) p.current.off s h (omega arith)
        there_written there_behind)

half_bytes-counted :
    (p : Pool) (n : ℕ) (g : Half) → half_bytes (counted_pool p n) g ≡ half_bytes p g
half_bytes-counted p n inti = refl
half_bytes-counted p n back = refl

-- Where there is room for a string without NUL, but the byte behind its place is not a NUL,
-- storing the string succeeds, and what is read at the pointer that is returned is longer than the
-- string.
pub storage_char_memory-longer :
    (w : World) (s : Bytes)
    → NoNul s
    → w.mem.curr_len + (length s + 1) < inifile_size_space
    → w.mem.current.off + length s < inifile_size_space
    → half_bytes w.mem w.mem.current.half (w.mem.current.off + length s) ≢ 0
    → ((storage_char_memory s (length s) w).0 ≡ ok w.mem.current)
      × (length s < length (string_at (storage_char_memory s (length s) w).1.mem w.mem.current))
unfolding storage_char_memory store_string
storage_char_memory-longer w s h room inside dirty =
    let n = length s in
    let full : leb inifile_size_space (w.mem.curr_len + (n + 1)) ≡ false = ground arith in
    let longer =
      put_string-longer (counted_pool w.mem n) s h inside
        (λ e. dirty (rw (half_bytes-counted w.mem n w.mem.current.half) at e)) in
    (
      rw (full, storage_char_memory) (unfold put_string in refl),
      rw (full, storage_char_memory) (unfold put_string in longer),
    )
