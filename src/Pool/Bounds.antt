-- ===== src/Pool/Bounds.antt =====
-- The pool when a string is stored or moved.
use ini.Base.{
  Bool-cases, Bytes, List, Option, [], arith, inl, inr, leb, length, none, some, suc, zero, ℕ, ◌+◌,
  ◌-◌, ◌<◌, ◌==◌, ◌∷◌, ◌≡◌, ◌≤◌,
}
use ini.Memory.{
  CharPtr, Half, Pool, World, back, inifile_size_space, inti, max_operation_file_num, ◌>>=◌,
}
use ini.Memory.Preserves.{
  Preserves, Preserves-bind, Preserves-modify, Preserves-pure, preserves_rules,
}
use ini.Pool.{
  adjust_file, adjust_files, adjust_keyvals, adjust_sections, count_room, half_bytes,
  ini_file_memory_adjust, memcpy, move_file, move_string, put_string, read_from,
  storage_after_adjust, storage_char_memory, store_if_room, store_string, string_at, switch_half,
  write_half,
}

pub record InPool (p : Pool) : Type 0 where
  pub placed : p.current.off ≤ p.curr_len
  pub pool_end : (i : ℕ) → 3071 ≤ i → p.pool i ≡ 0
  pub back_end : (i : ℕ) → 3071 ≤ i → p.back_pool i ≡ 0

abbrev pub PoolIn : World → Type 0
PoolIn w = InPool w.mem

-- A string that is put in a half with room for it.
put_string-InPool :
    (p : Pool) (s : Bytes) (n : ℕ)
    → InPool p
    → p.current.off + n + 1 ≤ p.curr_len
    → p.curr_len < inifile_size_space
    → InPool (put_string p s n).1
unfolding put_string
put_string-InPool p s n v room fits = at_half p.current.half
  where
    at_half :
        (h : Half)
        → InPool (record (write_half p h (memcpy (half_bytes p h) p.current.off s n)) {
          current = record { half = h; off = p.current.off + n + 1 };
        })
    at_half inti = record {
      placed = room;
      pool_end = λ i l. ground (arith, v.pool_end i l);
      back_end = v.back_end;
    }
    at_half back = record {
      placed = room;
      pool_end = v.pool_end;
      back_end = λ i l. ground (arith, v.back_end i l);
    }

count_room-InPool :
    (p : Pool) (n : ℕ) → InPool p → InPool (record p { curr_len = p.curr_len + (n + 1) })
count_room-InPool p n v = record {
  placed = omega (arith, v.placed);
  pool_end = v.pool_end;
  back_end = v.back_end;
}

move_string-InPool : (c : Option CharPtr) → Preserves PoolIn (move_string c)
unfolding move_string
move_string-InPool none = record { at = λ w v. v }
move_string-InPool (some c) = record {
  at = λ w v.
      let n = length (string_at w.mem c) in
      elim (Bool-cases (leb inifile_size_space (w.mem.curr_len + (n + 1)))) [
        | inl e ↦ rw e (count_room-InPool w.mem n v)
        | inr e ↦ rw e (
            put_string-InPool (record (w.mem) { curr_len = w.mem.curr_len + (n + 1) })
              (string_at w.mem c) n (count_room-InPool w.mem n v) (omega (arith, v.placed))
              (ground arith))
      ];
}

adjust_keyvals-InPool : (xs : List ℕ) → Preserves PoolIn (adjust_keyvals xs)
unfolding adjust_keyvals
adjust_keyvals-InPool [] = Preserves-pure tt
adjust_keyvals-InPool (i ∷ xs) =
    let rest = adjust_keyvals-InPool xs in search (preserves_rules, move_string-InPool) depth 20

adjust_sections-InPool : (xs : List ℕ) → Preserves PoolIn (adjust_sections xs)
unfolding adjust_sections
adjust_sections-InPool [] = Preserves-pure tt
adjust_sections-InPool (i ∷ xs) =
    let rest = adjust_sections-InPool xs in
    search (preserves_rules, move_string-InPool, adjust_keyvals-InPool) depth 20

move_file-InPool : (i : ℕ) → Preserves PoolIn (move_file i)
unfolding move_file
move_file-InPool i = search (preserves_rules, move_string-InPool, adjust_sections-InPool) depth 20

adjust_file-InPool : (i : ℕ) → Preserves PoolIn (adjust_file i)
unfolding adjust_file
adjust_file-InPool i = record {
  at = λ w v. elim (Bool-cases ((w.files i).used)) [
    | inl e ↦ rw e ((move_file-InPool i).at w v)
    | inr e ↦ rw e v
  ];
}

adjust_files-InPool : (n i : ℕ) → Preserves PoolIn (adjust_files n i)
unfolding adjust_files
adjust_files-InPool zero i = Preserves-pure tt
adjust_files-InPool (suc n) i =
    let rest = adjust_files-InPool n (i + 1) in
    search (preserves_rules, adjust_file-InPool) depth 20

switch_half-InPool : (p : Pool) → InPool p → InPool (switch_half p)
unfolding switch_half
switch_half-InPool p v = record {
  placed = omega arith;
  pool_end = v.pool_end;
  back_end = v.back_end;
}

pub ini_file_memory_adjust-InPool : Preserves PoolIn ini_file_memory_adjust
unfolding ini_file_memory_adjust
ini_file_memory_adjust-InPool =
    Preserves-bind _ _ (Preserves-modify _ (λ w v. switch_half-InPool w.mem v))
      λ _. adjust_files-InPool max_operation_file_num 0

-- Where the counter is below the size there is room for the string.
store_string-InPool :
    (s : Bytes) (n : ℕ) (w : World)
    → InPool w.mem
    → w.mem.curr_len + (n + 1) < inifile_size_space
    → InPool (store_string s n (count_room n w)).1.mem
unfolding store_string
store_string-InPool s n w v fits =
    put_string-InPool (record (w.mem) { curr_len = w.mem.curr_len + (n + 1) }) s n
      (count_room-InPool w.mem n v) (omega (arith, v.placed)) fits

store_if_room-InPool : (s : Bytes) (n : ℕ) → Preserves PoolIn (store_if_room s n)
unfolding store_if_room ◌>>=◌
store_if_room-InPool s n = record {
  at = λ w v. elim (Bool-cases (leb inifile_size_space (w.mem.curr_len + (n + 1)))) [
    | inl e ↦ rw e (count_room-InPool w.mem n v)
    | inr e ↦ rw e (store_string-InPool s n w v (ground arith))
  ];
}

-- `storage_char_memory` keeps the pool within its bounds on every branch: when there is room, when
-- the strings are moved first, when a string does not fit any more.
pub storage_char_memory-InPool : (s : Bytes) (n : ℕ) → Preserves PoolIn (storage_char_memory s n)
unfolding storage_char_memory storage_after_adjust
storage_char_memory-InPool s n = record {
  at = λ w v. elim (Bool-cases (leb inifile_size_space (w.mem.curr_len + (n + 1)))) [
    | inl e ↦ rw e (
        (Preserves-bind ini_file_memory_adjust (λ _. store_if_room s n)
            ini_file_memory_adjust-InPool (λ _. store_if_room-InPool s n)).at
          (count_room n w) (count_room-InPool w.mem n v))
    | inr e ↦ rw e (store_string-InPool s n w v (ground arith))
  ];
}

read_from_bound :
    (f : ℕ → ℕ) (n off : ℕ)
    → ((i : ℕ) → 3071 ≤ i → f i ≡ 0)
    → off ≤ 3071
    → off + length (read_from f n off) ≤ 3071
unfolding read_from
read_from_bound f zero off z l = omega arith
read_from_bound f (suc n) off z l = elim (Bool-cases (f off == 0)) [
  | inl e ↦ rw (e, read_from) (omega arith)
  | inr e ↦
      let lt : off + 1 ≤ 3071 = ground (arith, z off) in
      rw (e, read_from) (omega (arith, read_from_bound f n (off + 1) z lt))
]

-- Where the last byte of each half is a NUL, a string that is read from inside a half ends there
-- too, before its last byte.
pub string_at-bound :
    (p : Pool) (c : CharPtr) → InPool p → c.off ≤ 3071 → c.off + length (string_at p c) ≤ 3071
unfolding string_at
string_at-bound p c v l = by_half c.half
  where
    by_half :
        (h : Half)
        → c.off + length (read_from (half_bytes p h) (inifile_size_space - c.off) c.off) ≤ 3071
    by_half inti = read_from_bound p.pool _ c.off v.pool_end l
    by_half back = read_from_bound p.back_pool _ c.off v.back_end l
