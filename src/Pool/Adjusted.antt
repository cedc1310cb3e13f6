-- ===== src/Pool/Adjusted.antt =====
-- The steps of `ini_file_memory_adjust`, and what they keep.
use ini.Base.{some, ℕ, ◌≡◌, ◌≢◌}
use ini.Memory.{CharPtr, Pool, World, ◌>>◌}
use ini.Memory.Preserves.{Preserves}
use ini.Pool.{half_bytes, switch_half}

-- The half that is not in use is clean, and all strings lie in the one that is.
pub record IsFresh (w : World) : Type 0 where
  pub clean : (i : ℕ) → half_bytes w.mem (switch_half w.mem).current.half i ≡ 0
  pub names_there :
      (i : ℕ) (c : CharPtr) → (w.files i).name ≡ some c → c.half ≢ (switch_half w.mem).current.half
  pub secs_there :
      (i : ℕ) (c : CharPtr)
      → (w.sections i).sec ≡ some c
      → c.half ≢ (switch_half w.mem).current.half
  pub keys_there :
      (i : ℕ) (c : CharPtr) → (w.keyvals i).key ≡ some c → c.half ≢ (switch_half w.mem).current.half
  pub values_there :
      (i : ℕ) (c : CharPtr)
      → (w.keyvals i).value ≡ some c
      → c.half ≢ (switch_half w.mem).current.half
