-- ===== src/Tests/Rewrites.antt =====
-- The rewrites of the small file.
use ini.Base.{All, [], arith, bytes_eq, false, none, refl, some, true, ◌++◌, ◌∷◌, ◌≡◌, ◌≢◌}
use ini.Line.{classify, judge_ini_file_linetype, note_loop, section_after}
use ini.Memory.{World, err, fault, ok, rewrite_error}
use ini.Rewrite.{
  Parameter, compare_key, compare_section, key_verdict, re_name_ini_file, rewrite_with,
}
use ini.Rewrite.Add.{add_section, add_with, key_line, rewrite_after_add, section_header}
use ini.Rewrite.Delete.{rewrite_after_delete}
use ini.Rewrite.Delete.Laws.{KeySplit}
use ini.Rewrite.Delete.Sections.{SectionSplit, left_over}
use ini.Rewrite.Loop.{IsReadable, copied, holds_key, key_in, opens_section, same_key}
use ini.Rewrite.Unused.{rewrite_error_never}
use ini.Rewrite.Update.{Target, changed_line, rewrite_after_update, update_target}
use ini.Rewrite.Update.Laws.{Splits}
use ini.Rewrite.Whole.{
  Reads, addition_of, rewrite_after_add-key, rewrite_after_add-section, rewrite_after_delete-key,
  rewrite_after_delete-section, rewrite_after_update_lem,
}
use ini.Store.{length_or}
use ini.Tests.Runs.{
  ab_line, blank_line, cd_line, codes, k_line, name, note_line, old_text, on_key, on_section,
  q_line, start, x_line,
}
use ini.Text.{
  blanks, c_str, equality_sign, fgets, memcmp, read_lines, str_frist_constchar, str_int_len,
}
use ini.Text.Laws.{NoNul, str_int_len-NoNul}

all_lines :
    Reads name start (note_line ∷ ab_line ∷ k_line ∷ x_line ∷ blank_line ∷ cd_line ∷ q_line ∷ [])
unfolding read_lines fgets bytes_eq
all_lines = record { old = old_text; here = refl; copy_opens = refl; in_lines = refl }

abbrev on_x : Parameter
on_x = on_key "ab" "x" (some (codes "new"))

abbrev target_x : Target
target_x = record {
  section = codes "ab";
  section_len = 2;
  key = codes "x";
  key_len = 1;
  value = codes "new";
  value_len = 3;
}

no_nul : NoNul k_line × NoNul x_line × NoNul blank_line × NoNul cd_line × NoNul q_line
unfolding str_int_len
no_nul = (
  str_int_len-NoNul k_line refl,
  str_int_len-NoNul x_line refl,
  str_int_len-NoNul blank_line refl,
  str_int_len-NoNul cd_line refl,
  str_int_len-NoNul q_line refl,
)

target_x-eq : update_target on_x on_x.section on_x.key on_x.value ≡ some target_x
unfolding update_target length_or str_int_len
target_x-eq = refl

x_split : Splits target_x (note_line ∷ []) ab_line (k_line ∷ []) x_line
unfolding judge_ini_file_linetype blanks classify note_loop section_after str_frist_constchar
    opens_section compare_section memcmp holds_key same_key key_in compare_key key_verdict
x_split = record {
  before_readable = (λ e. cc, tt);
  before_other = (refl, tt);
  opens = refl;
  inside_readable = (λ e. cc, tt);
  inside_other = (refl, tt);
  holds = refl;
}

equality_x : str_frist_constchar x_line equality_sign ≡ some 1
unfolding str_frist_constchar
equality_x = refl

rewrite_after_update_lem_example : rewrite_after_update name on_x start ≡ (
  ok 0,
  re_name_ini_file name
      (copied (note_line ∷ []) (
        c_str ab_line
        ++ copied (k_line ∷ []) (
            c_str (changed_line target_x x_line 1)
            ++ copied (blank_line ∷ cd_line ∷ q_line ∷ []) [])))
      start,
)
rewrite_after_update_lem_example =
    rewrite_after_update_lem name on_x start target_x (note_line ∷ []) (k_line ∷ [])
      (blank_line ∷ cd_line ∷ q_line ∷ []) ab_line x_line 1 target_x-eq all_lines x_split equality_x

header_found :
    All IsReadable (note_line ∷ [])
    × All (λ l. opens_section (codes "ab") 2 l ≡ false) (note_line ∷ [])
    × (opens_section (codes "ab") 2 ab_line ≡ true)
unfolding judge_ini_file_linetype blanks classify note_loop section_after str_frist_constchar
    opens_section compare_section memcmp
header_found = ((λ e. cc, tt), (refl, tt), refl)

section_ab : length_or 0 (codes "ab") ≡ 2
unfolding length_or str_int_len
section_ab = refl

rewrite_after_add-key_example :
    rewrite_after_add name (on_key "ab" "z" (some (codes "new"))) start ≡ (
      ok 0,
      re_name_ini_file name
          (copied (note_line ∷ []) (
            (c_str ab_line
              ++ key_line
                  (addition_of (on_key "ab" "z" (some (codes "new"))) (codes "ab") (codes "z"))
                  (codes "new"))
            ++ copied (k_line ∷ x_line ∷ blank_line ∷ cd_line ∷ q_line ∷ []) []))
          start,
    )
unfolding length_or str_int_len
rewrite_after_add-key_example =
    rewrite_after_add-key name (on_key "ab" "z" (some (codes "new"))) start (codes "ab") (codes "z")
      (codes "new") (note_line ∷ []) (k_line ∷ x_line ∷ blank_line ∷ cd_line ∷ q_line ∷ []) ab_line
      refl refl refl all_lines header_found.0 header_found.1 header_found.2

-- A key with a NULL value, in a section that the file has.
null_value : rewrite_after_add name (on_key "ab" "z" none) start ≡ (fault, start)
unfolding rewrite_after_add rewrite_with bytes_eq read_lines add_with judge_ini_file_linetype blanks
    fgets classify str_frist_constchar note_loop add_section compare_section length_or str_int_len
    memcmp
null_value = refl

-- Where `mv` fails behind `rm` the file is gone, and 0 is returned.
abbrev not_movable : World
not_movable = record start { disk = record start.disk { movable = λ n. false } }

file_gone :
    ((rewrite_after_add name (on_section "zz") not_movable).0 ≡ ok 0)
    × ((rewrite_after_add name (on_section "zz") not_movable).1.disk.content name ≡ none)
unfolding rewrite_after_add rewrite_with bytes_eq read_lines add_with judge_ini_file_linetype blanks
    fgets
file_gone = (refl, refl)

old_text-NoNul : NoNul old_text
unfolding str_int_len
old_text-NoNul = str_int_len-NoNul old_text refl

rewrite_after_add-section_example : rewrite_after_add name (on_section "zz") start ≡ (
  ok 0,
  re_name_ini_file name (section_header (codes "zz") (length_or 0 (codes "zz")) ++ old_text) start,
)
unfolding bytes_eq
rewrite_after_add-section_example =
    rewrite_after_add-section name (on_section "zz") start (codes "zz") old_text refl refl refl refl
      old_text-NoNul

key_split : KeySplit (codes "ab") 2 (codes "x") 1 (note_line ∷ []) ab_line (k_line ∷ []) x_line
unfolding judge_ini_file_linetype blanks classify note_loop section_after str_frist_constchar
    opens_section compare_section memcmp holds_key same_key key_in compare_key key_verdict
key_split = record {
  before_readable = (λ e. cc, tt);
  before_other = (refl, tt);
  opens = refl;
  inside_nul = (no_nul.0, tt);
  inside_readable = (λ e. cc, tt);
  inside_section = (λ e. cc, tt);
  inside_other = (refl, tt);
  line_nul = no_nul.1;
  holds = refl;
}

rewrite_after_delete-key_example : rewrite_after_delete name (on_key "ab" "x" none) start ≡ (
  ok 0,
  re_name_ini_file name
      (copied
        (note_line ∷ [])
        (copied (k_line ∷ []) (copied (blank_line ∷ cd_line ∷ q_line ∷ []) [])))
      start,
)
unfolding length_or str_int_len
rewrite_after_delete-key_example =
    rewrite_after_delete-key name (on_key "ab" "x" none) start (codes "ab") (codes "x")
      (note_line ∷ []) (k_line ∷ []) (blank_line ∷ cd_line ∷ q_line ∷ []) ab_line x_line refl refl
      (no_nul.1.0, tt) (omega arith) all_lines key_split (no_nul.2, (no_nul.3, (no_nul.4, tt)))

section_split :
    SectionSplit
      (codes "ab")
      2
      (note_line ∷ [])
      ab_line
      (k_line ∷ x_line ∷ blank_line ∷ [])
      (cd_line ∷ q_line ∷ [])
unfolding judge_ini_file_linetype blanks classify note_loop section_after str_frist_constchar
    opens_section compare_section memcmp
section_split = record {
  before_readable = (λ e. cc, tt);
  before_other = (refl, tt);
  opens = refl;
  inside_nul = (no_nul.0, (no_nul.1, (no_nul.2, tt)));
  inside_readable = (λ e. cc, (λ e. cc, (λ e. cc, tt)));
  inside_section = (λ e. cc, (λ e. cc, (λ e. cc, tt)));
  after_nul = (no_nul.3, (no_nul.4, tt));
  after_end = refl;
}

rewrite_after_delete-section_example : rewrite_after_delete name (on_section "ab") start ≡ (
  ok 0,
  re_name_ini_file name
      (copied (note_line ∷ []) (
        copied (left_over (k_line ∷ x_line ∷ blank_line ∷ [])) (copied (cd_line ∷ q_line ∷ []) [])))
      start,
)
unfolding length_or str_int_len
rewrite_after_delete-section_example =
    rewrite_after_delete-section name (on_section "ab") start (codes "ab") (note_line ∷ [])
      (k_line ∷ x_line ∷ blank_line ∷ []) (cd_line ∷ q_line ∷ []) ab_line refl refl all_lines
      section_split

rewrite_error_never_example :
    ((rewrite_after_update name on_x start).0 ≢ err rewrite_error)
    × ((rewrite_after_add name on_x start).0 ≢ err rewrite_error)
    × ((rewrite_after_delete name on_x start).0 ≢ err rewrite_error)
rewrite_error_never_example = rewrite_error_never name on_x start
