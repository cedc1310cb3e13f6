-- ===== src/Api/Files.antt =====
-- `init_ini_file` and `destroy_ini_source`.
pub mod Bounds
use ini.Api.{bad_fd}
use ini.Api.Sections.{free_keyvals}
use ini.Base.{Bytes, List, Option, [], false, if◌then◌else◌, none, not, some, ℕ, ◌||◌, ◌∷◌}
use ini.Load.{read_analys_ini_file}
use ini.Memory.{
  M, World, ask, err, error_parameter, fail, fault, keyvalue_array_len, max_inifile_section_num,
  modify, ok, pure, set_file, set_section, walk, ◌>>=◌, ◌>>◌,
}
use ini.Pool.{ini_file_memory_init, storage_char_memory}
use ini.Slots.{get_index_ini_file, release_section}
use ini.Store.{keyval_links, length_or, section_links}

-- `p_section->sec = NULL; p_section->head = NULL; p_section->pre = NULL;`
abbrev pub clear_section : ℕ → World → World
clear_section i w = set_section i (record (w.sections i) { sec = none; head = none; pre = none }) w

-- As `Sections.release_before`, for a section.
unfoldable pub release_section_before : Option ℕ → M (Unit {0})
release_section_before none w = (fault, w)
release_section_before (some p) w =
    (ok tt, set_section p (record (w.sections p) { last = none; used = false }) w)

-- The keys of one section of a file.
unfoldable pub free_section_keys : ℕ → M (Unit {0})
unfolding free_keyvals
free_section_keys i = do
  w ← ask
  keys ← walk (keyval_links w) keyvalue_array_len (w.sections i).head
  free_keyvals keys

unfoldable pub free_sections : List ℕ → M (Unit {0})
unfolding free_section_keys release_section_before
free_sections [] = pure tt
free_sections (i ∷ []) = do free_section_keys i; modify (λ w. release_section i (clear_section i w))
free_sections (i ∷ j ∷ xs) = do
  free_section_keys i
  modify (clear_section i)
  w ← ask
  release_section_before (w.sections j).pre
  free_sections (j ∷ xs)

unfoldable pub destroy_used : ℕ → M (Unit {0})
unfolding free_sections
destroy_used fd = do
  w ← ask
  secs ← walk (section_links w) max_inifile_section_num (w.files fd).head
  free_sections secs
  modify (set_file fd (record { used = false; name = none; head = none }))

unfoldable pub destroy_ini_source : ℕ → M (Unit {0})
unfolding destroy_used
destroy_ini_source fd w =
    if bad_fd fd || not ((w.files fd).used) then (ok tt, w) else destroy_used fd w

-- An error on the way: the descriptor is given up, and the error is returned.
unfoldable pub or_destroy : ℕ → M ℕ → M ℕ
unfolding destroy_ini_source
or_destroy fd m w =
    let (r, w') = m w in
    elim r [
      | ok a ↦ (ok a, w')
      | err e ↦ (destroy_ini_source fd >> fail e) w'
      | fault ↦ (fault, w')
    ]

-- With a descriptor at hand: the name is stored, and the file is read.
unfoldable pub open_file : Bytes → ℕ → ℕ → M ℕ
unfolding read_analys_ini_file
open_file name len fd = do
  c ← storage_char_memory name (length_or len name)
  modify (λ w. set_file fd (record (w.files fd) { name = some c }) w)
  r ← read_analys_ini_file fd name
  pure fd

unfoldable pub init_named_file : Option Bytes → ℕ → M ℕ
unfolding open_file or_destroy
init_named_file none len = fail error_parameter
init_named_file (some name) len = do fd ← get_index_ini_file; or_destroy fd (open_file name len fd)

unfoldable pub init_ini_file : Option Bytes → ℕ → M ℕ
unfolding init_named_file ini_file_memory_init
init_ini_file name len = do modify ini_file_memory_init; init_named_file name len
