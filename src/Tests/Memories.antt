-- ===== src/Tests/Memories.antt =====
-- The theorems on the memory, before and after the small file has been opened.
use ini.Base.{[], arith, if◌then◌else◌, length, refl, some, true, ◌<◌, ◌==◌, ◌∷◌, ◌≡◌}
use ini.Line.{judge_ini_file_linetype, line_section}
use ini.Line.Section.{IsBracketed}
use ini.Memory.{
  Pool, World, err, format_error, inti, keyvalue_array_len, max_inifile_section_num,
  max_operation_file_num, ok, set_section,
}
use ini.Pool.{set_mem, storage_char_memory, string_at}
use ini.Pool.Fits.{IsTidy, Puts, storage_char_memory_fits}
use ini.Pool.Stale.{storage_char_memory-longer}
use ini.Slots.{
  first_unused, get_index_ini_file, get_index_ini_keyvalue, get_index_ini_section, release_section,
}
use ini.Slots.Laws.{Takes, file_used, get_index-Takes, keyval_used, section_used}
use ini.Store.{
  find_inifile_section, find_keyvalue_unsect, init_line_section, key_text, section_text,
}
use ini.Store.Find.{Searches, find_first}
use ini.Store.Short.{init_line_section_short}
use ini.Tests.Runs.{codes, empty_keyval, empty_section, start}

start-IsTidy : IsTidy start.mem
start-IsTidy = record { counted = omega arith; clean = λ i l. refl }

storage_char_memory_fits_example :
    (q : Pool) × (storage_char_memory (codes "ab") 2 start
      ≡ (ok start.mem.current, set_mem q start))
    × Puts start.mem (codes "ab") q
    × (q.curr_len ≡ 3)
storage_char_memory_fits_example =
    storage_char_memory_fits start (codes "ab") start-IsTidy
      (λ e. ground arith, (λ e. ground arith, tt)) (omega arith)

get_index-Takes_example :
    Takes file_used max_operation_file_num start (get_index_ini_file start)
    × Takes section_used max_inifile_section_num start (get_index_ini_section start)
    × Takes keyval_used keyvalue_array_len start (get_index_ini_keyvalue start)
get_index-Takes_example = get_index-Takes start

-- One section, "ab", with one key, "x".
abbrev listed : World
listed = record start {
  mem = record (start.mem) {
    pool = λ i. if i == 0 then b'a' else if i == 1 then b'b' else if i == 3 then b'x' else 0;
  };
  sections = λ i. record empty_section {
    used = true;
    sec = some (record { half = inti; off = 0 });
    head = some 0;
  };
  keyvals = λ i. record empty_keyval { used = true; key = some (record { half = inti; off = 3 }) };
}

find_first_example :
    Searches section_text
      (codes "ab")
      0
      (0 ∷ [])
      listed
      (find_inifile_section (some 0) (some (codes "ab")) 0 listed)
    × Searches key_text
        (codes "y")
        0
        (0 ∷ [])
        listed
        (find_keyvalue_unsect (some 0) (some (codes "y")) 0 listed)
find_first_example =
    find_first listed (some 0) (codes "ab") 0 (0 ∷ []) (some 0) (codes "y") 0 (0 ∷ []) (refl, refl)
      (omega arith) (refl, refl) (omega arith)

-- A half whose third byte is not a NUL.
abbrev unclean : World
unclean = record start { mem = record (start.mem) { pool = λ i. if i == 2 then b'z' else 0 } }

storage_char_memory-longer_example :
    ((storage_char_memory (codes "ab") 2 unclean).0 ≡ ok (record { half = inti; off = 0 }))
    × (2
        < length (
            string_at
              (storage_char_memory (codes "ab") 2 unclean).1.mem
              (record { half = inti; off = 0 })))
storage_char_memory-longer_example =
    storage_char_memory-longer unclean (codes "ab") (λ e. ground arith, (λ e. ground arith, tt))
      (omega arith) (omega arith) (λ e. ground arith)

a-IsBracketed : IsBracketed (codes "a") []
a-IsBracketed = record {
  nul = (λ e. ground arith, tt);
  no_bracket = (λ e. ground arith, tt);
  no_comma = (λ e. ground arith, tt);
  no_equality = (λ e. ground arith, tt);
  rest_no_comma = tt;
  rest_no_equality = tt;
}

abbrev taken : World
taken = set_section 0 (record empty_section { used = true }) start

init_line_section_short_example :
    (judge_ini_file_linetype (codes "[a]") ≡ line_section)
    × (init_line_section (codes "[a]") start ≡ (err format_error, release_section 0 taken))
unfolding get_index_ini_section first_unused
init_line_section_short_example =
    init_line_section_short (codes "a") [] start 0 taken a-IsBracketed (omega arith) refl
