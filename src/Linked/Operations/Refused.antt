-- ===== src/Linked/Operations/Refused.antt =====
-- What the number that a call of v1.0.0/inifile.c returns says of the state behind it.
use ini.Base.{List, refl, some, true, ◌≡◌}
use ini.Linked.{
  IniFile, IniParameter, LineCode, Outcome, done, list_ini_file_node_is_empty, undefined, ◌>>=◌,
}
use ini.Linked.Operations.{
  Reply, System, add_setction, add_value_of_key, after_write, delete_section_of,
  delete_value_of_key, reply_0, update_value_of_key, write_back,
}
use ini.Linked.Operations.Rules.{
  Rule, add_rule, add_setction_rule, delete_rule, delete_section_rule, update_rule,
}
use ini.Linked.Read.{Files}
use ini.Linked.Write.{Written, update_ini_file}

-- `updateIniFile` has run on nodes of the open file, under its name, and returned, no matter what:
-- these nodes are in memory, and the file and the calls of `write` to come are as it left them.
abbrev pub IsWritten : System → System → Type 0
IsWritten s s' =
    (f g : IniFile) × (r : Files × List Written × LineCode) × (s.ini ≡ some f)
    × (g.file_name ≡ f.file_name)
    × (list_ini_file_node_is_empty g ≡ true)
    × (update_ini_file g s.files s.writes ≡ done r)
    × (s' ≡ record s { ini = some g; files = r.0; writes = r.1 })

-- What a call gives if it returns: the state as it was, unless it is 0.
abbrev pub IsRefusedOrWritten : System → Outcome (Reply × System) → Type 0
IsRefusedOrWritten s undefined = Unit
IsRefusedOrWritten s (done (reply_0, s')) = IsWritten s s'
IsRefusedOrWritten s (done (r, s')) = s' ≡ s

write_back-IsRefusedOrWritten :
    (s : System) (f g : IniFile)
    → s.ini ≡ some f
    → g.file_name ≡ f.file_name
    → list_ini_file_node_is_empty g ≡ true
    → IsRefusedOrWritten s (write_back s g)
unfolding write_back
write_back-IsRefusedOrWritten s f g e n m = by_outcome (update_ini_file g s.files s.writes) refl
  where
    by_outcome :
        (o : Outcome (Files × List Written × LineCode))
        → update_ini_file g s.files s.writes ≡ o
        → IsRefusedOrWritten s (o >>= λ r. done (after_write s g r))
    by_outcome (done r) h = (f, g, r, e, n, m, h, refl)
    by_outcome undefined h = tt

IsRefusedOrWritten-rule : (s : System) → Rule s (IsRefusedOrWritten s)
IsRefusedOrWritten-rule s = record {
  stops = tt;
  refuses_1 = refl;
  refuses_2 = refl;
  refuses_3 = refl;
  writes = write_back-IsRefusedOrWritten s;
}

-- Each of the five operations that change a file, where it returns: if the number is not 0 the
-- nodes, the file and the calls of `write` to come are as they were; if it is 0 there is a file
-- open, `updateIniFile` has run on nodes, at least one, under its name, those nodes are in memory,
-- and the file and the calls to come are what it left. The 0 does not say that it was successful.
pub operations-IsRefusedOrWritten :
    (s : System) (p : IniParameter)
    → IsRefusedOrWritten s (update_value_of_key s p)
      × IsRefusedOrWritten s (add_value_of_key s p)
      × IsRefusedOrWritten s (delete_value_of_key s p)
      × IsRefusedOrWritten s (delete_section_of s p)
      × IsRefusedOrWritten s (add_setction s p)
operations-IsRefusedOrWritten s p =
    let v = IsRefusedOrWritten-rule s in
    (
      update_rule s _ v p,
      add_rule s _ v p,
      delete_rule s _ v p,
      delete_section_rule s _ v p,
      add_setction_rule s _ v p,
    )
