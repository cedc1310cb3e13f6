-- ===== src/Pool.antt =====
-- The string pool of v2.0.0/inifile.c: `storage_char_memory` puts a string behind the last one, and
-- `ini_file_memory_adjust` moves the strings in use over to the other half when a half is full.
pub mod Laws
pub mod Fits
pub mod Bounds
pub mod Stale
pub mod Moves
pub mod Adjust
pub mod Adjusted
use ini.Base.{
  Bytes, List, Option, [], if◌then◌else◌, leb, length, ltb, none, not, some, suc, true, zero, ℕ,
  ◌&&◌, ◌+◌, ◌-◌, ◌==◌, ◌∷◌,
}
use ini.Memory.{
  CharPtr, Half, M, Pool, World, ask, back, err, fail, inifile_size_space, inti, keyvalue_array_len,
  max_inifile_section_num, max_operation_file_num, memory_pool_error, memory_pool_out, modify, ok,
  pure, set_file, set_keyval, set_section, walk, ◌>>=◌, ◌>>◌,
}
use ini.Text.{char_at}

abbrev pub half_bytes : Pool → Half → ℕ → ℕ
half_bytes p inti = p.pool
half_bytes p back = p.back_pool

-- `memcpy` of `n` bytes of `src` to offset `off`.
abbrev pub memcpy : (ℕ → ℕ) → ℕ → Bytes → ℕ → ℕ → ℕ
memcpy f off src n i = if leb off i && ltb i (off + n) then char_at src (i - off) else f i

abbrev pub write_half : Pool → Half → (ℕ → ℕ) → Pool
write_half p inti f = record p { pool = f }
write_half p back f = record p { back_pool = f }

-- The C string at an offset, looked for in the `n` bytes from there on.
unfoldable pub read_from : (ℕ → ℕ) → ℕ → ℕ → Bytes
read_from f zero off = []
read_from f (suc n) off =
    let rest = read_from f n (off + 1) in if f off == 0 then [] else f off ∷ rest

unfoldable pub string_at : Pool → CharPtr → Bytes
unfolding read_from
string_at p c = read_from (half_bytes p c.half) (inifile_size_space - c.off) c.off

-- The string behind a pointer that may be NULL, whose length `str_int_len` gives as 0.
unfoldable pub text_of : Pool → Option CharPtr → Bytes
unfolding string_at
text_of p none = []
text_of p (some c) = string_at p c

-- `memcpy(pool_mem.current,src,len); *dest = pool_mem.current; pool_mem.current += len + 1;`
unfoldable pub put_string : Pool → Bytes → ℕ → CharPtr × Pool
put_string p src n =
    let c = p.current in
    let f = memcpy (half_bytes p c.half) c.off src n in
    (c, record (write_half p c.half f) { current = record { half = c.half; off = c.off + n + 1 } })

abbrev pub set_mem : Pool → World → World
set_mem p w = record w { mem = p }

-- The three assignments at the head of `ini_file_memory_adjust`.
unfoldable pub switch_half : Pool → Pool
switch_half p =
    let other : Half = elim p.flag [ inti ↦ back | back ↦ inti ] in
    record p { flag = other; current = record { half = other; off = 0 }; curr_len = 0 }

-- One string of the old half is moved; `curr_len` grows also when it does not fit.
unfoldable pub move_string : Option CharPtr → M (Option CharPtr)
move_string none w = (ok none, w)
move_string (some c) w =
    let s = string_at w.mem c in
    let n = length s in
    let p = record (w.mem) { curr_len = w.mem.curr_len + (n + 1) } in
    if leb inifile_size_space p.curr_len
    then (err memory_pool_error, set_mem p w)
    else let (c', p') = put_string p s n in (ok (some c'), set_mem p' w)

unfoldable pub adjust_keyvals : List ℕ → M (Unit {0})
adjust_keyvals [] = pure tt
adjust_keyvals (i ∷ xs) = do
  w ← ask
  key ← move_string (w.keyvals i).key
  modify (λ w. set_keyval i (record (w.keyvals i) { key = key }) w)
  value ← move_string (w.keyvals i).value
  modify (λ w. set_keyval i (record (w.keyvals i) { value = value }) w)
  adjust_keyvals xs

unfoldable pub adjust_sections : List ℕ → M (Unit {0})
adjust_sections [] = pure tt
adjust_sections (i ∷ xs) = do
  w ← ask
  sec ← move_string (w.sections i).sec
  modify (λ w. set_section i (record (w.sections i) { sec = sec }) w)
  keys ← walk (λ j. (w.keyvals j).last) keyvalue_array_len (w.sections i).head
  adjust_keyvals keys
  adjust_sections xs

unfoldable pub move_file : ℕ → M (Unit {0})
move_file i = do
  w ← ask
  name ← move_string (w.files i).name
  modify (λ w. set_file i (record (w.files i) { name = name }) w)
  secs ← walk (λ j. (w.sections j).last) max_inifile_section_num (w.files i).head
  adjust_sections secs

unfoldable pub adjust_file : ℕ → M (Unit {0})
adjust_file i w = if not ((w.files i).used) then (ok tt, w) else move_file i w

-- `n` files are left, from `i` on.
unfoldable pub adjust_files : ℕ → ℕ → M (Unit {0})
adjust_files zero i = pure tt
adjust_files (suc n) i = do adjust_file i; adjust_files n (i + 1)

unfoldable pub ini_file_memory_adjust : M (Unit {0})
ini_file_memory_adjust = do
  modify (λ w. set_mem (switch_half w.mem) w)
  adjust_files max_operation_file_num 0

-- The end of `storage_char_memory`, where the room has been counted.
unfoldable pub store_string : Bytes → ℕ → M CharPtr
unfolding put_string
store_string src n w = let (c, p) = put_string w.mem src n in (ok c, set_mem p w)

abbrev pub count_room : ℕ → World → World
count_room n w = set_mem (record (w.mem) { curr_len = w.mem.curr_len + (n + 1) }) w

-- After the strings have been moved the room is counted again.
unfoldable pub store_if_room : Bytes → ℕ → M CharPtr
store_if_room src n = do
  modify (count_room n)
  w ← ask
  if leb inifile_size_space (w.mem.curr_len) then fail memory_pool_out else store_string src n

unfoldable pub storage_after_adjust : Bytes → ℕ → M CharPtr
storage_after_adjust src n = do ini_file_memory_adjust; store_if_room src n

-- The pointer returned is what the source assigns to `*dest`.
unfoldable pub storage_char_memory : Bytes → ℕ → M CharPtr
unfolding store_string
storage_char_memory src n w =
    let w1 = count_room n w in
    if leb inifile_size_space (w1.mem.curr_len)
    then storage_after_adjust src n w1
    else store_string src n w1

-- The pool is set up once; the mutexes are not modelled.
unfoldable pub ini_file_memory_init : World → World
ini_file_memory_init w =
    if w.mem.ready
    then w
    else set_mem
        (record (w.mem) { ready = true; current = record { half = inti; off = 0 }; curr_len = 0 }) w
