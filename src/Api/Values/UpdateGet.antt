-- ===== src/Api/Values/UpdateGet.antt =====
-- `update_value_ofkey` and then `get_value_ofkey`.
use ini.Api.{bad_fd, file_name, keyval_of, section_of}
use ini.Api.Values.{
  get_in_section, get_value_ofkey, update_checked, update_in_section, update_keyval,
  update_value_ofkey, value_in,
}
use ini.Base.{
  Bytes, Option, ap, arith, false, length, none, refl, some, update, ℕ, ◌+◌, ◌<◌, ◌∙◌, ◌≡◌,
}
use ini.Memory.{CharPtr, Keyval, Pool, World, inifile_size_space, ok, set_keyval, ◌>>=◌}
use ini.Pool.{set_mem, storage_char_memory, string_at, text_of}
use ini.Pool.Fits.{IsTidy, LiesBefore, Puts, storage_char_memory_fits}
use ini.Rewrite.{Parameter}
use ini.Rewrite.Renamed.{SameMemory}
use ini.Rewrite.Safe.{rewrite-SameMemory}
use ini.Rewrite.Update.{rewrite_after_update}
use ini.Store.{find_inifile_section, find_keyvalue_unsect, length_or}
use ini.Store.Same.{SameKeyvals, SameSections, find_inifile_section_same, find_keyvalue_unsect_same}
use ini.Text.Laws.{NoNul}

-- The names of all sections and keys lie before `current`.
pub record NamesBefore (w : World) : Type 0 where
  pub sections_before : (i : ℕ) (c : CharPtr) → (w.sections i).sec ≡ some c → LiesBefore w.mem c
  pub keys_before : (i : ℕ) (c : CharPtr) → (w.keyvals i).key ≡ some c → LiesBefore w.mem c

text_of_kept :
    (p : Pool) (s : Bytes) (q : Pool) (o : Option CharPtr)
    → Puts p s q
    → ((c : CharPtr) → o ≡ some c → LiesBefore p c)
    → text_of q o ≡ text_of p o
unfolding text_of
text_of_kept p s q none h l = refl
text_of_kept p s q (some c) h l = h.keeps c (l c refl)

-- Key `k` has the string at `current` as its value.
abbrev given_value : World → ℕ → ℕ → Keyval
given_value w k = update w.keyvals k (record (w.keyvals k) { value = some w.mem.current })

-- What an update has done to the memory once the string is stored and the value set.
record Updated (w : World) (k : ℕ) (q : Pool) (w' : World) : Type 0 where
  mem_same : w'.mem ≡ q
  files_same : w'.files ≡ w.files
  sections_same : w'.sections ≡ w.sections
  keyvals_same : w'.keyvals ≡ given_value w k

module _ (w w' : World) (k : ℕ) (v : Bytes) (q : Pool) (b : NamesBefore w) (h : Puts w.mem v q)
    (u : Updated w k q w') where
  same_sections : SameSections w w'
  same_sections = record {
    links = λ i. rw u.sections_same refl;
    names = λ i.
        rw (u.sections_same, u.mem_same)
          (text_of_kept w.mem v q (w.sections i).sec h (b.sections_before i));
  }

  given_key : (i : ℕ) → (given_value w k i).key ≡ (w.keyvals i).key
  given_key i = ground arith

  given_last : (i : ℕ) → (given_value w k i).last ≡ (w.keyvals i).last
  given_last i = ground arith

  same_keyvals : SameKeyvals w w'
  same_keyvals = record {
    links = λ i. rw u.keyvals_same (given_last i);
    names = λ i.
        rw (u.keyvals_same, u.mem_same)
          (rw (given_key i) (text_of_kept w.mem v q (w.keyvals i).key h (b.keys_before i)));
  }

-- The world once the value is stored, before the file is written.
abbrev stored : World → ℕ → Pool → World
stored w k q = set_keyval k (record (w.keyvals k) { value = some w.mem.current }) (set_mem q w)

update_stored :
    (fd : ℕ) (p : Parameter) (w : World) (s kk v : Bytes) (i k : ℕ) (q : Pool)
    → bad_fd fd ≡ false
    → p.section ≡ some s
    → p.key ≡ some kk
    → p.value ≡ some v
    → section_of fd p w ≡ (ok (some i), w)
    → keyval_of i p w ≡ (ok (some k), w)
    → storage_char_memory v (length_or p.value_len v) w ≡ (ok w.mem.current, set_mem q w)
    → update_value_ofkey fd (some p) w
      ≡ rewrite_after_update (file_name (stored w k q) fd) p (stored w k q)
unfolding update_value_ofkey update_checked update_in_section update_keyval ◌>>=◌
update_stored fd p w s kk v i k q hf hs hk hv h g e = ground arith

Updated-SameMemory :
    (w : World) (k : ℕ) (q : Pool) (w' : World) → SameMemory (stored w k q) w' → Updated w k q w'
Updated-SameMemory w k q w' h = record {
  mem_same = h.0;
  files_same = h.1;
  sections_same = h.2;
  keyvals_same = h.3;
}

module _ (fd : ℕ) (p : Parameter) (w w' : World) (s kk v : Bytes) (i k : ℕ) (q : Pool)
    (b : NamesBefore w) (h : Puts w.mem v q) (u : Updated w k q w') where
  section_again : section_of fd p w ≡ (ok (some i), w) → section_of fd p w' ≡ (ok (some i), w')
  unfolding section_of ◌>>=◌
  section_again e =
      ap (λ fs. find_inifile_section (fs fd).head p.section p.section_len w') u.files_same
      ∙ find_inifile_section_same w w' (w.files fd).head p.section p.section_len (some i)
          (same_sections w w' k v q b h u) e

  keyval_again : keyval_of i p w ≡ (ok (some k), w) → keyval_of i p w' ≡ (ok (some k), w')
  unfolding keyval_of ◌>>=◌
  keyval_again e =
      ap (λ ss. find_keyvalue_unsect (ss i).head p.key p.key_len w') u.sections_same
      ∙ find_keyvalue_unsect_same w w' (w.sections i).head p.key p.key_len (some k)
          (same_keyvals w w' k v q b h u) e

  value_again : (w'.keyvals k).value ≡ some w.mem.current
  value_again = rw u.keyvals_same (ground arith)

  get_again :
      bad_fd fd ≡ false
      → p.section ≡ some s
      → p.key ≡ some kk
      → section_of fd p w ≡ (ok (some i), w)
      → keyval_of i p w ≡ (ok (some k), w)
      → get_value_ofkey fd (some p) w' ≡ (ok (some w.mem.current), w')
  unfolding get_value_ofkey get_in_section value_in ◌>>=◌
  get_again hf hs hk e f = ground (arith, section_again e, keyval_again f, value_again)

-- Where section and key are found, the pool is tidy, the names of all sections and keys lie before
-- `current`, and the value has no NUL, its full length and room, an update sets the value in
-- memory: whether or not the file could be written, a search for the key then finds the new value.
pub update_value_ofkey-get :
    (fd : ℕ) (p : Parameter) (w : World) (s kk v : Bytes) (i k : ℕ)
    → bad_fd fd ≡ false
    → p.section ≡ some s
    → p.key ≡ some kk
    → p.value ≡ some v
    → section_of fd p w ≡ (ok (some i), w)
    → keyval_of i p w ≡ (ok (some k), w)
    → IsTidy w.mem
    → NamesBefore w
    → NoNul v
    → length_or p.value_len v ≡ length v
    → w.mem.curr_len + (length v + 1) < inifile_size_space
    → (get_value_ofkey fd (some p) (update_value_ofkey fd (some p) w).1
        ≡ (ok (some w.mem.current), (update_value_ofkey fd (some p) w).1))
      × (string_at (update_value_ofkey fd (some p) w).1.mem w.mem.current ≡ v)
update_value_ofkey-get fd p w s kk v i k hf hs hk hv e f tidy names nul len room =
    let (q, storing, puts, counted) = storage_char_memory_fits w v tidy nul room in
    let ran = update_stored fd p w s kk v i k q hf hs hk hv e f (rw len storing) in
    let name = file_name (stored w k q) fd in
    let after =
      Updated-SameMemory w k q (rewrite_after_update name p (stored w k q)).1
        (rewrite-SameMemory name p (stored w k q)).0 in
    rw ran (
      get_again fd p w (rewrite_after_update name p (stored w k q)).1 s kk v i k q names puts after
          hf hs hk e f,
      rw after.mem_same puts.reads_back,
    )
