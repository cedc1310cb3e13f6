-- ===== src/Tests/Linked.antt =====
-- Runs of v1.0.0/inifile.c on a small file.
use ini.Base.{
  All, Bool, Bool-cases, Bytes, List, Option, [], arith, bytes_eq, false, if◌then◌else◌, inl, inr,
  length, none, refl, some, true, ℕ, ◌++◌, ◌==◌, ◌↔◌, ◌∷◌, ◌≡◌, ◌≤◌,
}
use ini.Linked.{IniFile, IniParameter, KeyValue, Outcome, done, error_type, new_node, undefined}
use ini.Linked.Chars.{find_key_loop, find_node_loop, name_matches}
use ini.Linked.Chars.Match.{IsBlank, name_matches_iff}
use ini.Linked.Operations.{Reply, System, get_value_of_key, update_value_of_key}
use ini.Linked.Read.{Files, init_linked_file, new_key_value, new_note}
use ini.Linked.Read.Contexts.{IsPlainKey}
use ini.Linked.Reload.{Document, IsLineText, IsReloadable, assignment, remark, settled}
use ini.Linked.Reload.Files.{file_of}
use ini.Linked.Reload.Reopen.{IsFileName, update_ini_file-init_linked_file}
use ini.Linked.Write.{Written, interrupted, part, update_ini_file}
use ini.Linked.Write.Laws.{IsSteady}
use ini.Tests.Runs.{codes}
use ini.Text.{c_str}
use ini.Text.Laws.{Without}

abbrev pub text_a : Bytes
text_a = codes "; x\n[net]\nport = 80\n;c\nhost=h\n"

abbrev pub files_a : Files
files_a n = if bytes_eq n (codes "a.ini") then some text_a else none

abbrev pub keys_a : List KeyValue
keys_a =
    new_key_value (codes "port ") (codes " 80")
    ∷ new_note (codes "c\n")
    ∷ new_key_value (codes "host") (codes "h")
    ∷ []

abbrev pub ini_a : IniFile
ini_a = record {
  nodes =
      new_node (codes " x\n") true
      ∷ (record { section = codes "net"; is_note = false; key_list = some keys_a })
      ∷ [];
  file_name = codes "a.ini";
  len = 2;
  dangling = false;
}

opened_a : init_linked_file files_a (some (codes "a.ini")) 5 ≡ done (some ini_a)
unfolding init_linked_file bytes_eq
opened_a = refl

abbrev pub parameter_a : IniParameter
parameter_a = record {
  section = some (codes "net");
  section_len = 3;
  key = some (codes "port");
  key_len = 4;
  value = some (codes "81");
  value_len = 2;
}

got_a : get_value_of_key (some ini_a) parameter_a ≡ done (some (codes "80"))
unfolding get_value_of_key
got_a = refl

abbrev pub system_a : System
system_a = record { ini = some ini_a; files = files_a; writes = part 2 ∷ interrupted ∷ [] }

abbrev text_of_file : Outcome (Reply × System) → Option Bytes
text_of_file undefined = none
text_of_file (done (r, s)) = s.files (codes "a.ini")

updated_a :
    text_of_file (update_value_of_key system_a parameter_a)
    ≡ some (codes "\n; x\n\n\n[net]\nport = 81\n\n;c\n\nhost=h\n")
unfolding update_value_of_key bytes_eq
updated_a = refl

-- No byte of a text is `x`, by looking at it.
unfoldable pub has_none : ℕ → Bytes → Bool
has_none x [] = true
has_none x (c ∷ s) = if c == x then false else has_none x s

pub by_look : (x : ℕ) (s : Bytes) → has_none x s ≡ true → Without x s
unfolding has_none
by_look x [] e = tt
by_look x (c ∷ s) e = elim (Bool-cases (c == x)) [
  | inl q ↦ absurd (ground arith)
  | inr q ↦ (λ z. ground arith, by_look x s (ground arith))
]

-- "; x", then "[net]" with a key that was set, a remark and a key that was read.
abbrev document_a : Document
document_a = record {
  remarks = codes " x" ∷ [];
  titled =
      (record {
        title = codes "net";
        items =
            assignment (codes "port ") (codes " 80") true
            ∷ remark (codes "c")
            ∷ assignment (codes "host") (codes "h") false
            ∷ [];
      })
      ∷ [];
}

line_text :
    (n : ℕ) (s : Bytes) → has_none 0 s ≡ true → has_none 10 s ≡ true → length s ≤ n → IsLineText n s
line_text n s a b l = record { no_nul = by_look 0 s a; no_newline = by_look 10 s b; fits = l }

port-IsPlainKey : IsPlainKey (codes "port ")
unfolding has_none
port-IsPlainKey = record {
  no_nul = by_look 0 (codes "port ") refl;
  no_newline = by_look 10 (codes "port ") refl;
  no_equality = by_look 61 (codes "port ") refl;
  not_empty = omega arith;
  no_note = λ e. omega arith;
  no_section = λ e. omega arith;
}

host-IsPlainKey : IsPlainKey (codes "host")
unfolding has_none
host-IsPlainKey = record {
  no_nul = by_look 0 (codes "host") refl;
  no_newline = by_look 10 (codes "host") refl;
  no_equality = by_look 61 (codes "host") refl;
  not_empty = omega arith;
  no_note = λ e. omega arith;
  no_section = λ e. omega arith;
}

document_a-IsReloadable : IsReloadable document_a
unfolding has_none find_node_loop find_key_loop
document_a-IsReloadable = record {
  remarks_read = (line_text 62 (codes " x") refl refl (omega arith), tt);
  titled_read = (
    (
      line_text 63 (codes "net") refl refl (omega arith),
      refl,
      (
        (
          port-IsPlainKey,
          omega arith,
          line_text 68 (codes " 80") refl refl (omega arith),
          omega arith,
        ),
        (
          line_text 62 (codes "c") refl refl (omega arith),
          (
            (
              host-IsPlainKey,
              omega arith,
              line_text 68 (codes "h") refl refl (omega arith),
              omega arith,
            ),
            tt,
          ),
        ),
      ),
      (refl, (refl, tt)),
    ),
    tt,
  );
}

a_ini-IsFileName : IsFileName (codes "a.ini")
unfolding has_none
a_ini-IsFileName = record {
  no_nul = by_look 0 (codes "a.ini") refl;
  not_empty = omega arith;
  fits = omega arith;
}

abbrev writes_a : List Written
writes_a = part 2 ∷ interrupted ∷ part 500 ∷ []

writes_a-IsSteady : All IsSteady writes_a
writes_a-IsSteady = (omega arith, (tt, (omega arith, tt)))

update_ini_file-init_linked_file_example :
    (files' : Files) × (ws' : List Written) × (update_ini_file
        (file_of (codes "a.ini") document_a)
        files_a
        writes_a
      ≡ done (files', ws', error_type))
    × (init_linked_file files' (some (codes "a.ini")) 5
        ≡ done (some (file_of (codes "a.ini") (settled document_a))))
unfolding bytes_eq
update_ini_file-init_linked_file_example =
    update_ini_file-init_linked_file (codes "a.ini") document_a files_a writes_a {old = text_a}
      a_ini-IsFileName document_a-IsReloadable refl refl writes_a-IsSteady

name_matches_iff_example :
    (name_matches (codes "port \t") (c_str (codes "port \t")) (codes "port") ≡ true)
    ↔ ((b : Bytes) × (c_str (codes "port \t") ≡ codes "port" ++ b) × All IsBlank b)
unfolding has_none
name_matches_iff_example =
    name_matches_iff (codes "port \t") (codes "port") (by_look 0 (codes "port") refl)
