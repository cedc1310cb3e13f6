-- ===== src/Tests/LinkedCalls.antt =====
-- Calls of v1.0.0/inifile.c on an open file, and their theorems at concrete inputs.
use ini.Base.{Bytes, Option, [], arith, bytes_eq, false, none, refl, some, ◌∷◌, ◌≡◌, ◌≢◌}
use ini.Linked.{IniParameter, Outcome, done, new_node, undefined}
use ini.Linked.Chars.{array_str, copy_bytes, delete_spacetab_begin}
use ini.Linked.Operations.{
  Reply, System, add_setction, add_value_of_key, delete_section_of, delete_value_of_key,
  get_value_of_key, reply_0, reply_2, update_value_of_key,
}
use ini.Linked.Operations.AddGet.{add_value_of_key-get}
use ini.Linked.Operations.Only.{delete_section_only}
use ini.Linked.Operations.Refused.{IsRefusedOrWritten, operations-IsRefusedOrWritten}
use ini.Linked.Operations.Traces.{
  Agrees, Reach, Reach-Agrees, delete_section_call, here, next, perform, update_call,
}
use ini.Linked.Operations.UpdateGet.{HasShortKeys, update_value_of_key-get}
use ini.Linked.Write.{failed, interrupted, part, set_name}
use ini.Linked.Write.Laws.{nodes_text}
use ini.Tests.Linked.{by_look, files_a, has_none, ini_a, parameter_a, system_a}
use ini.Tests.Runs.{codes}
use ini.Text.{c_str}

-- The state that a call leaves, where it returns.
abbrev state_of : System → Outcome (Reply × System) → System
state_of s undefined = s
state_of s (done (r, t)) = t

ini_a-HasShortKeys : HasShortKeys ini_a
ini_a-HasShortKeys = (tt, ((omega arith, (omega arith, (omega arith, tt))), tt))

update_value_of_key-get_example :
    get_value_of_key (state_of system_a (update_value_of_key system_a parameter_a)).ini parameter_a
    ≡ done (some (codes "81\n"))
unfolding update_value_of_key copy_bytes bytes_eq delete_spacetab_begin has_none
update_value_of_key-get_example =
    update_value_of_key-get system_a parameter_a {f = ini_a}
      {s' = state_of system_a (update_value_of_key system_a parameter_a)} refl ini_a-HasShortKeys
      (omega arith) (by_look 0 (codes "81") refl) refl

abbrev parameter_new : IniParameter
parameter_new = record parameter_a { key = some (codes "user"); key_len = 4 }

add_value_of_key-get_example :
    get_value_of_key (state_of system_a (add_value_of_key system_a parameter_new)).ini parameter_new
    ≡ done (some (codes "81\n"))
unfolding add_value_of_key copy_bytes bytes_eq delete_spacetab_begin has_none
add_value_of_key-get_example =
    add_value_of_key-get system_a parameter_new
      {s' = state_of system_a (add_value_of_key system_a parameter_new)}
      (by_look 0 (codes "user") refl, refl) (by_look 0 (codes "81") refl) refl

-- No section has the name.
abbrev parameter_none : IniParameter
parameter_none = record parameter_a { section = some (codes "web") }

-- A state in which memory and file agree, and the one behind an update and a refusal.
abbrev agreed : System
agreed = record {
  ini = some ini_a;
  files = set_name files_a (codes "a.ini") (codes "\n; x\n\n\n[net]\nport = 80\n;c\n\nhost=h\n");
  writes = part 2 ∷ interrupted ∷ [];
}

agreed-Agrees : Agrees agreed
unfolding bytes_eq nodes_text c_str array_str
agreed-Agrees = record {
  file = ini_a;
  fits = omega arith;
  synced = record { ini_is = refl; file_is = refl; steady = (omega arith, (tt, tt)) };
}

operations-IsRefusedOrWritten_example :
    IsRefusedOrWritten agreed (update_value_of_key agreed parameter_a)
    × IsRefusedOrWritten agreed (add_value_of_key agreed parameter_a)
    × IsRefusedOrWritten agreed (delete_value_of_key agreed parameter_a)
    × IsRefusedOrWritten agreed (delete_section_of agreed parameter_a)
    × IsRefusedOrWritten agreed (add_setction agreed parameter_a)
operations-IsRefusedOrWritten_example = operations-IsRefusedOrWritten agreed parameter_a

abbrev reply_and_file : Outcome (Reply × System) → Option (Reply × Option Bytes)
reply_and_file undefined = none
reply_and_file (done (r, s)) = some (r, s.files (codes "a.ini"))

-- A failed `write` leaves an empty file, and the update returns 0.
write_fails :
    reply_and_file (update_value_of_key (record agreed { writes = failed ∷ [] }) parameter_a)
    ≡ some (reply_0, some [])
unfolding update_value_of_key bytes_eq delete_section_of
write_fails = refl

abbrev updated_state : System
updated_state = state_of agreed (perform (update_call parameter_a) agreed)

agreed-Reach : Reach agreed updated_state
unfolding update_value_of_key bytes_eq delete_section_of
agreed-Reach =
    next (next here (update_call parameter_a) reply_0 refl) (delete_section_call parameter_none)
      reply_2 refl

Reach-Agrees_example : Agrees updated_state
Reach-Agrees_example = Reach-Agrees agreed-Agrees agreed-Reach

-- Only the section is left.
abbrev alone : System
alone = record system_a { ini = some (record ini_a { nodes = new_node (codes "net") false ∷ [] }) }

delete_section_only_example : delete_section_of alone parameter_a ≢ done (reply_0, alone)
delete_section_only_example =
    delete_section_only alone parameter_a
      {f = record ini_a { nodes = new_node (codes "net") false ∷ [] }}
      {n = new_node (codes "net") false} refl refl alone
