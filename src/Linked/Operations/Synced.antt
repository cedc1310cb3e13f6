-- ===== src/Linked/Operations/Synced.antt =====
-- The file and the nodes behind an operation of v1.0.0/inifile.c.
use ini.Base.{
  All, Bool, Bool-cases, Bytes, List, ap, arith, false, inl, inr, length, refl, some, subst, sym,
  true, ◌<◌, ◌∙◌, ◌≡◌,
}
use ini.Linked.{
  IniFile, IniParameter, LineCode, Outcome, done, list_ini_file_node_is_empty, max_filename_len,
  undefined, ◌>>=◌,
}
use ini.Linked.Operations.{
  Reply, System, add_setction, add_value_of_key, after_write, delete_section_of,
  delete_value_of_key, reply_0, update_value_of_key, write_back,
}
use ini.Linked.Operations.Rules.{
  Rule, add_rule, add_setction_rule, delete_rule, delete_section_rule, update_rule,
}
use ini.Linked.Read.{Files}
use ini.Linked.Write.{Written, file_written, open_name, update_ini_file, write_file, write_nodes}
use ini.Linked.Write.Laws.{IsSteady, nodes_text}
use ini.Linked.Write.Returns.{IfDone, write_nodes-IfDone}
use ini.Rewrite.Renamed.{bytes_eq_refl}
use ini.Text.{c_str}

-- The file, under a name that leaves room for the NUL, is the text of the nodes, and the calls of
-- `write` to come are as before.
pub record IsSynced (s : System) (f : IniFile) : Type 0 where
  pub ini_is : s.ini ≡ some f
  pub file_is : s.files (c_str f.file_name) ≡ some (nodes_text f.nodes)
  pub steady : All IsSteady s.writes

-- What a call leaves if it returns 0.
abbrev pub LeavesSynced : Bytes → Outcome (Reply × System) → Type 0
LeavesSynced name undefined = Unit
LeavesSynced name (done (reply_0, s)) = (f : IniFile) × (f.file_name ≡ name) × IsSynced s f
LeavesSynced name (done (r, s)) = Unit

-- The file that is open is there, and may be written.
pub record IsOpen (s : System) (name : Bytes) : Type 0 where
  pub fits : length name < max_filename_len
  pub there : (old : Bytes) × (s.files (c_str name) ≡ some old)
  pub steady : All IsSteady s.writes
  pub named : (f : IniFile) → s.ini ≡ some f → f.file_name ≡ name

open_name_short :
    (f : IniFile) → length f.file_name < max_filename_len → open_name f ≡ c_str f.file_name
unfolding open_name
open_name_short f l = ground arith

update_there :
    (f : IniFile) (files : Files) (ws : List Written) {old : Bytes}
    → list_ini_file_node_is_empty f ≡ true
    → f.dangling ≡ false
    → files (open_name f) ≡ some old
    → update_ini_file f files ws ≡ (write_nodes f.nodes ws >>= λ r. done (file_written f files r))
unfolding update_ini_file
update_there f files ws some_nodes d there =
    rw (update_ini_file, some_nodes, d, there, write_file) refl

pub update_dangling :
    (f : IniFile) (files : Files) (ws : List Written)
    → list_ini_file_node_is_empty f ≡ true
    → f.dangling ≡ true
    → update_ini_file f files ws ≡ undefined
unfolding update_ini_file
update_dangling f files ws some_nodes d = rw (update_ini_file, some_nodes, d) refl

module _ (s : System) (name : Bytes) (v : IsOpen s name) where
  write_back-LeavesSynced :
      (f : IniFile)
      → f.file_name ≡ name
      → list_ini_file_node_is_empty f ≡ true
      → LeavesSynced name (write_back s f)
  unfolding write_back
  write_back-LeavesSynced f e some_nodes = elim (Bool-cases f.dangling) [
    | inl d ↦ subst by_file (sym (update_dangling f s.files s.writes some_nodes d)) tt
    | inr d ↦
        subst by_file (sym (update_there f s.files s.writes some_nodes d there))
          (by_nodes (write_nodes f.nodes s.writes) (write_nodes-IfDone f.nodes s.writes v.steady))
  ]
    where
      by_file : Outcome (Files × List Written × LineCode) → Type 0
      by_file o = LeavesSynced name (o >>= λ r. done (after_write s f r))

      name_is : open_name f ≡ c_str f.file_name
      name_is = open_name_short f (rw e v.fits)

      there : s.files (open_name f) ≡ some v.there.0
      there = ap s.files (name_is ∙ ap c_str e) ∙ v.there.1

      by_nodes :
          (o : Outcome (Bytes × List Written × Bool))
          → IfDone (nodes_text f.nodes) o
          → by_file (o >>= λ r. done (file_written f s.files r))
      by_nodes undefined i = tt
      by_nodes (done r) i = (
        f,
        e,
        record {
          ini_is = refl;
          file_is = rw (name_is, bytes_eq_refl (c_str f.file_name)) (ap some i.text_is);
          steady = i.steady;
        },
      )

  synced_rule : Rule s (LeavesSynced name)
  synced_rule = record {
    stops = tt;
    refuses_1 = tt;
    refuses_2 = tt;
    refuses_3 = tt;
    writes = λ f g e n m. write_back-LeavesSynced g (n ∙ v.named f e) m;
  }

  -- Memory and file agree behind each operation that returns 0: the file on the disk is the text of
  -- the nodes that are now in memory, under the same name and whatever the sizes of the nodes, when
  -- the file is there, its name has at most 63 bytes and no call of `write` fails or takes nothing.
  pub operations-LeavesSynced :
      (p : IniParameter)
      → LeavesSynced name (update_value_of_key s p)
        × LeavesSynced name (add_value_of_key s p)
        × LeavesSynced name (delete_value_of_key s p)
        × LeavesSynced name (delete_section_of s p)
        × LeavesSynced name (add_setction s p)
  operations-LeavesSynced p =
      let r = synced_rule in
      (
        update_rule s _ r p,
        add_rule s _ r p,
        delete_rule s _ r p,
        delete_section_rule s _ r p,
        add_setction_rule s _ r p,
      )
