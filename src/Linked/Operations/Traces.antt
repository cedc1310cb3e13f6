-- ===== src/Linked/Operations/Traces.antt =====
-- Any calls of v1.0.0/inifile.c on an open file, one after the other.
use ini.Base.{Bytes, Option, ap, length, some, subst, sym, ◌<◌, ◌∙◌, ◌≡◌}
use ini.Linked.{IniFile, IniParameter, Outcome, done, max_filename_len}
use ini.Linked.Operations.{
  Reply, System, add_setction, add_value_of_key, delete_section_of, delete_value_of_key, reply_0,
  reply_1, reply_2, reply_3, update_value_of_key,
}
use ini.Linked.Operations.Refused.{IsRefusedOrWritten, operations-IsRefusedOrWritten}
use ini.Linked.Operations.Synced.{IsOpen, IsSynced, LeavesSynced, operations-LeavesSynced}
use ini.Linked.Write.Laws.{nodes_text}

pub data Call : Type 0 where
  update_call add_call delete_call delete_section_call add_section_call : IniParameter → Call

abbrev pub perform : Call → System → Outcome (Reply × System)
perform (update_call p) s = update_value_of_key s p
perform (add_call p) s = add_value_of_key s p
perform (delete_call p) s = delete_value_of_key s p
perform (delete_section_call p) s = delete_section_of s p
perform (add_section_call p) s = add_setction s p

-- The states that calls lead to, whatever they return.
pub data Reach (s : System) : System → Type 0 where
  here : Reach s s
  next :
      {t u : System} → Reach s t → (c : Call) → (r : Reply) → perform c t ≡ done (r, u) → Reach s u

-- Memory and file agree.
pub record Agrees (s : System) : Type 0 where
  pub file : IniFile
  pub fits : length file.file_name < max_filename_len
  pub synced : IsSynced s file

perform-LeavesSynced :
    (c : Call) (s : System) (name : Bytes) → IsOpen s name → LeavesSynced name (perform c s)
perform-LeavesSynced (update_call p) s name v = (operations-LeavesSynced s name v p).0
perform-LeavesSynced (add_call p) s name v = (operations-LeavesSynced s name v p).1
perform-LeavesSynced (delete_call p) s name v = (operations-LeavesSynced s name v p).2
perform-LeavesSynced (delete_section_call p) s name v = (operations-LeavesSynced s name v p).3
perform-LeavesSynced (add_section_call p) s name v = (operations-LeavesSynced s name v p).4

perform-IsRefusedOrWritten : (c : Call) (s : System) → IsRefusedOrWritten s (perform c s)
perform-IsRefusedOrWritten (update_call p) s = (operations-IsRefusedOrWritten s p).0
perform-IsRefusedOrWritten (add_call p) s = (operations-IsRefusedOrWritten s p).1
perform-IsRefusedOrWritten (delete_call p) s = (operations-IsRefusedOrWritten s p).2
perform-IsRefusedOrWritten (delete_section_call p) s = (operations-IsRefusedOrWritten s p).3
perform-IsRefusedOrWritten (add_section_call p) s = (operations-IsRefusedOrWritten s p).4

Agrees-IsOpen : (s : System) (a : Agrees s) → IsOpen s a.file.file_name
Agrees-IsOpen s a = record {
  fits = a.fits;
  there = (nodes_text a.file.nodes, a.synced.file_is);
  steady = a.synced.steady;
  named = λ g e. ap (λ x. x.file_name) (same_file g (sym e ∙ a.synced.ini_is));
}
  where
    same_file : (g : IniFile) → ◌≡◌ {A = Option IniFile} (some g) (some a.file) → g ≡ a.file
    same_file g e = cc

Agrees-perform :
    (s u : System) (c : Call) (r : Reply) → Agrees s → perform c s ≡ done (r, u) → Agrees u
Agrees-perform s u c r a e =
    by_reply r e
      (subst (LeavesSynced a.file.file_name) e
        (perform-LeavesSynced c s a.file.file_name (Agrees-IsOpen s a)))
      (subst (IsRefusedOrWritten s) e (perform-IsRefusedOrWritten c s))
  where
    by_reply :
        (r : Reply)
        → perform c s ≡ done (r, u)
        → LeavesSynced a.file.file_name (done (r, u))
        → IsRefusedOrWritten s (done (r, u))
        → Agrees u
    by_reply reply_0 e l n = record {
      file = l.0;
      fits = subst (λ x. length x < max_filename_len) (sym l.1) a.fits;
      synced = l.2;
    }
    by_reply reply_1 e l n = subst Agrees (sym n) a
    by_reply reply_2 e l n = subst Agrees (sym n) a
    by_reply reply_3 e l n = subst Agrees (sym n) a

-- From a state in which the file on the disk is the text of the nodes, under a name of at most 63
-- bytes, any calls of the five operations that return, with any parameters and whatever they
-- return, lead to states in which it is again, when no call of `write` fails or takes nothing.
pub Reach-Agrees : {s u : System} → Agrees s → Reach s u → Agrees u
Reach-Agrees a here = a
Reach-Agrees a (next r c reply e) = Agrees-perform _ _ c reply (Reach-Agrees a r) e
