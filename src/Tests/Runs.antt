-- ===== src/Tests/Runs.antt =====
-- Runs of the library on a small file.
use Prim.Native.Char.{code}
use Prim.Native.String.{String}
use mathlib.Core.Option
use ini.Api.{keyval_of, section_of}
use ini.Api.Files.{
  destroy_ini_source, destroy_used, free_section_keys, free_sections, init_ini_file,
  init_named_file, open_file, or_destroy, release_section_before,
}
use ini.Api.Sections.{free_keyvals, release_before}
use ini.Api.Values.{
  add_checked, add_in_section, add_new_keyval, add_value_ofkey, added_line, append_keyval,
  get_in_section, get_value_ofkey, update_checked, update_in_section, update_keyval,
  update_value_ofkey, value_in,
}
use ini.Base.{
  Bytes, Option, [], bytes_eq, false, if◌then◌else◌, none, refl, some, true, ℕ, ◌∷◌, ◌≡◌,
}
use ini.Line.{
  classify, judge_ini_file_linetype, key_part, last_before, note_loop, section_after,
  section_before, section_part, span, value_end, value_part,
}
use ini.Load.{
  enter_keyval, enter_section, init_every_line_inifile, init_keyvalue_line, init_lines,
  init_section_line, link_keyval, link_section, read_analys_ini_file,
}
use ini.Memory.{
  File, Keyval, M, Result, Section, World, ask, fail, from_option, inti, modify, nodes, ok,
  on_error, pure, walked, ◌>>=◌,
}
use ini.Pool.{
  ini_file_memory_init, put_string, read_from, storage_char_memory, store_string, string_at,
  text_of,
}
use ini.Rewrite.{
  Parameter, compare_key, compare_section, key_verdict, put_back, re_name_ini_file, rewrite_loop,
  rewrite_with,
}
use ini.Rewrite.Add.{add_loop, add_section, add_turn, add_with, key_line, rewrite_after_add}
use ini.Rewrite.Update.{
  changed_line, kept_note, rewrite_after_update, update_keyvalue, update_loop, update_section,
  update_target, update_turn,
}
use ini.Slots.{first_unused, get_index_ini_file, get_index_ini_keyvalue, get_index_ini_section}
use ini.Store.{
  comma_first, find_inifile_section, find_keyvalue_unsect, find_node, init_line_key_val,
  init_line_section, length_or, same_name, store_key_val,
}
use ini.Text.{
  blanks, c_str, fgets, find_frist_endchar, memcmp, read_lines, str_frist_constchar, str_int_len,
}

abbrev pub codes : String → Bytes
codes String.[] = []
codes (String.◌∷◌ c s) = code c ∷ codes s

abbrev pub empty_keyval : Keyval
empty_keyval = record { used = false; key = none; value = none; pre = none; last = none }

abbrev pub empty_section : Section
empty_section = record { used = false; sec = none; head = none; pre = none; last = none }

abbrev pub empty_file : File
empty_file = record { used = false; name = none; head = none }

abbrev pub name : Bytes
name = codes "a.conf"

-- The lines of the file.
abbrev pub note_line : Bytes
note_line = codes "; head\n"

abbrev pub ab_line : Bytes
ab_line = codes "[ab]\n"

abbrev pub k_line : Bytes
k_line = codes "k = v ; note\n"

abbrev pub x_line : Bytes
x_line = codes "x=y\n"

abbrev pub blank_line : Bytes
blank_line = codes "\n"

abbrev pub cd_line : Bytes
cd_line = codes "[cd]\n"

abbrev pub q_line : Bytes
q_line = codes "q=w\n"

abbrev pub old_text : Bytes
old_text = codes "; head\n[ab]\nk = v ; note\nx=y\n\n[cd]\nq=w\n"

-- The memory as the program starts, and a disk with one file.
abbrev pub start : World
start = record {
  mem = record {
    flag = inti;
    pool = λ i. 0;
    back_pool = λ i. 0;
    ready = false;
    current = record { half = inti; off = 0 };
    curr_len = 0;
  };
  files = λ i. empty_file;
  sections = λ i. empty_section;
  keyvals = λ i. empty_keyval;
  disk = record {
    content = λ n. if bytes_eq n name then some old_text else none;
    writable = λ n. true;
    removable = λ n. true;
    movable = λ n. true;
  };
}

abbrev pub on_section : String → Parameter
on_section s = record {
  section = some (codes s);
  section_len = 0;
  key = none;
  key_len = 0;
  value = none;
  value_len = 0;
}

abbrev pub on_key : String → String → Option Bytes → Parameter
on_key s k v = record (on_section s) { key = some (codes k); value = v }

-- The world in which the file is open.
abbrev pub opened : World
opened = (init_ini_file (some name) 0 start).1

-- What a call returns, and the text of the file behind it.
abbrev file_after : M ℕ → Result ℕ × Option Bytes
file_after m = let (r, w) = m opened in (r, w.disk.content name)

-- The value of a key is found in the file that was read.
get_run :
    ((do
      c ← get_value_ofkey 0 (some (on_key "ab" "k" none))
      w ← ask
      pure (Option.map (string_at w.mem) c))
      opened).0
    ≡ ok (some (codes "v"))
unfolding init_ini_file ◌>>=◌ find_inifile_section find_keyvalue_unsect string_at get_index_ini_file
    storage_char_memory str_int_len bytes_eq read_lines fgets blanks classify str_frist_constchar
    note_loop get_index_ini_section on_error section_part nodes get_index_ini_keyvalue key_part
    value_part destroy_ini_source destroy_used free_section_keys free_sections init_named_file
    open_file or_destroy release_section_before free_keyvals release_before judge_ini_file_linetype
    last_before section_after section_before span value_end enter_keyval enter_section
    init_every_line_inifile init_keyvalue_line init_lines init_section_line link_keyval link_section
    read_analys_ini_file ask fail from_option modify pure walked ini_file_memory_init put_string
    read_from store_string text_of first_unused comma_first find_node init_line_key_val
    init_line_section length_or same_name store_key_val find_frist_endchar memcmp section_of
    keyval_of get_value_ofkey get_in_section value_in
get_run = refl

update_run :
    file_after (update_value_ofkey 0 (some (on_key "ab" "x" (some (codes "new")))))
    ≡ (ok 0, some (codes "; head\n[ab]\nk = v ; note\nx=new\n\n[cd]\nq=w\n"))
unfolding init_ini_file ◌>>=◌ find_inifile_section find_keyvalue_unsect string_at get_index_ini_file
    storage_char_memory str_int_len bytes_eq read_lines fgets blanks classify str_frist_constchar
    note_loop get_index_ini_section on_error section_part nodes get_index_ini_keyvalue key_part
    value_part destroy_ini_source destroy_used free_section_keys free_sections init_named_file
    open_file or_destroy release_section_before free_keyvals release_before judge_ini_file_linetype
    last_before section_after section_before span value_end enter_keyval enter_section
    init_every_line_inifile init_keyvalue_line init_lines init_section_line link_keyval link_section
    read_analys_ini_file ask fail from_option modify pure walked ini_file_memory_init put_string
    read_from store_string text_of first_unused comma_first find_node init_line_key_val
    init_line_section length_or same_name store_key_val find_frist_endchar memcmp section_of
    keyval_of c_str rewrite_with rewrite_loop put_back compare_section compare_key key_verdict
    re_name_ini_file update_value_ofkey update_checked update_in_section update_keyval
    rewrite_after_update update_target update_loop update_turn update_section update_keyvalue
    changed_line kept_note
update_run = refl

add_run :
    file_after (add_value_ofkey 0 (some (on_key "cd" "kk" (some (codes "new")))))
    ≡ (ok 0, some (codes "; head\n[ab]\nk = v ; note\nx=y\n\n[cd]\nkk\t=\tnew\nq=w\n"))
unfolding init_ini_file ◌>>=◌ find_inifile_section find_keyvalue_unsect string_at get_index_ini_file
    storage_char_memory str_int_len bytes_eq read_lines fgets blanks classify str_frist_constchar
    note_loop get_index_ini_section on_error section_part nodes get_index_ini_keyvalue key_part
    value_part destroy_ini_source destroy_used free_section_keys free_sections init_named_file
    open_file or_destroy release_section_before free_keyvals release_before judge_ini_file_linetype
    last_before section_after section_before span value_end enter_keyval enter_section
    init_every_line_inifile init_keyvalue_line init_lines init_section_line link_keyval link_section
    read_analys_ini_file ask fail from_option modify pure walked ini_file_memory_init put_string
    read_from store_string text_of first_unused comma_first find_node init_line_key_val
    init_line_section length_or same_name store_key_val find_frist_endchar memcmp section_of
    keyval_of c_str rewrite_with rewrite_loop put_back compare_section compare_key key_verdict
    re_name_ini_file add_value_ofkey add_checked add_in_section add_new_keyval added_line
    append_keyval rewrite_after_add add_with add_loop add_turn add_section key_line
add_run = refl
