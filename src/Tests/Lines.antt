-- ===== src/Tests/Lines.antt =====
-- The theorems on lines at the lines of the small file.
use ini.Api.Sections.{added_header}
use ini.Api.Sections.Added.{IsHeader, IsTitle, add_ini_section-IsHeader}
use ini.Api.Values.{added_line}
use ini.Api.Values.Added.{add_value_ofkey-ReadsBack}
use ini.Base.{All, Bytes, [], arith, length, refl, some, ℕ, ◌++◌, ◌+◌, ◌∷◌, ◌≡◌, ◌≤◌}
use ini.Line.{is_space, judge_ini_file_linetype, key_part, line_keyvalue, value_part}
use ini.Line.KeyValue.{Entry, IsEntry, IsPlain, IsTrimmed, front, render}
use ini.Line.KeyValue.ReadBack.{entry_read_back, note_place}
use ini.Rewrite.{Parameter, printed}
use ini.Rewrite.Add.{key_line, section_header}
use ini.Rewrite.Added.{IsWritable}
use ini.Rewrite.ReadBack.{ReadsBack, changed_line-ReadsBack}
use ini.Rewrite.Update.{Target, changed_line}
use ini.Rewrite.Whole.{addition_of}
use ini.Store.{length_or}
use ini.Tests.Runs.{codes, on_key, on_section}
use ini.Text.{
  blanks, c_str, comma_sign, equality_sign, fgets, newline_sign, str_frist_constchar, str_int_len,
}

-- "  k = v \t; note"
abbrev entry_k : Entry
entry_k = record {
  indent = codes "  ";
  key = codes "k";
  before = codes " ";
  after = codes " ";
  value = codes "v";
  trail = codes " \t";
  note = some (codes " note\n");
}

entry_k-IsEntry : IsEntry entry_k
unfolding blanks
entry_k-IsEntry = record {
  indent_blank = (refl, (refl, tt));
  before_blank = (refl, tt);
  after_blank = (refl, tt);
  trail_space = (refl, (refl, tt));
  key_trimmed = record {
    start = [];
    last_byte = b'k';
    splits = refl;
    final_solid = refl;
    head_solid = λ r. refl;
  };
  value_trimmed = record {
    start = [];
    last_byte = b'v';
    splits = refl;
    final_solid = refl;
    head_solid = λ r. refl;
  };
  key_plain = ((λ e. ground arith, λ e. ground arith, λ e. ground arith, λ e. ground arith), tt);
  key_no_equality = (λ e. ground arith, tt);
  value_plain = ((λ e. ground arith, λ e. ground arith, λ e. ground arith, λ e. ground arith), tt);
}

entry_read_back_example :
    (judge_ini_file_linetype (render entry_k) ≡ line_keyvalue)
    × (str_frist_constchar (render entry_k) equality_sign ≡ some (length (front entry_k)))
    × (str_frist_constchar (render entry_k) comma_sign ≡ note_place entry_k entry_k.note)
    × (key_part (render entry_k) (length (front entry_k)) ≡ some entry_k.key)
    × (value_part (render entry_k) (length (front entry_k)) (note_place entry_k entry_k.note)
        ≡ some entry_k.value)
entry_read_back_example = entry_read_back entry_k entry_k-IsEntry

-- The entry with the new value "new", all of it.
abbrev target_new : Target
target_new = record {
  section = codes "ab";
  section_len = 2;
  key = codes "k";
  key_len = 1;
  value = codes "new";
  value_len = 3;
}

new-IsTrimmed : IsTrimmed is_space (codes "new")
unfolding blanks
new-IsTrimmed = record {
  start = codes "ne";
  last_byte = b'w';
  splits = refl;
  final_solid = refl;
  head_solid = λ r. refl;
}

IsPlain-letter : (c : ℕ) → 97 ≤ c → IsPlain c
IsPlain-letter c l = (λ e. ground arith, λ e. ground arith, λ e. ground arith, λ e. ground arith)

new-IsPlain : All IsPlain (codes "new")
new-IsPlain = (
  IsPlain-letter b'n' (omega arith),
  (IsPlain-letter b'e' (omega arith), (IsPlain-letter b'w' (omega arith), tt)),
)

new_printed : printed 3 (codes "new") ≡ codes "new"
unfolding c_str
new_printed = refl

changed_line-ReadsBack_example :
    ReadsBack
      (changed_line target_new (render entry_k) (length (front entry_k)))
      (length (front entry_k))
      (codes "k")
      (printed 3 (codes "new"))
changed_line-ReadsBack_example =
    changed_line-ReadsBack entry_k entry_k-IsEntry target_new (rw new_printed new-IsTrimmed)
      (rw new_printed new-IsPlain)

abbrev on_kk : Parameter
on_kk = record (on_key "cd" "kk" (some (codes "new"))) { key_len = 2; value_len = 3 }

kk-IsWritable :
    IsWritable
      (printed (length_or 2 (codes "kk")) (codes "kk"))
      (printed (length_or 3 (codes "new")) (codes "new"))
unfolding length_or c_str blanks
kk-IsWritable = record {
  key_trimmed = record {
    start = codes "k";
    last_byte = b'k';
    splits = refl;
    final_solid = refl;
    head_solid = λ r. refl;
  };
  value_trimmed = new-IsTrimmed;
  key_plain = (IsPlain-letter b'k' (omega arith), (IsPlain-letter b'k' (omega arith), tt));
  key_no_equality = (λ e. ground arith, (λ e. ground arith, tt));
  value_plain = new-IsPlain;
}

add_value_ofkey-ReadsBack_example :
    ReadsBack
      (added_line on_kk (codes "kk") (codes "new"))
      (length (printed (length_or 2 (codes "kk")) (codes "kk")))
      (printed (length_or 2 (codes "kk")) (codes "kk"))
      (printed (length_or 3 (codes "new")) (codes "new"))
    × ReadsBack
        (key_line (addition_of on_kk (codes "cd") (codes "kk")) (codes "new"))
        (length (printed (length_or 2 (codes "kk")) (codes "kk")) + 1)
        (printed (length_or 2 (codes "kk")) (codes "kk"))
        (printed (length_or 3 (codes "new")) (codes "new"))
add_value_ofkey-ReadsBack_example =
    add_value_ofkey-ReadsBack on_kk (codes "cd") (codes "kk") (codes "new") refl kk-IsWritable

zz-IsTitle : IsTitle (printed (length_or 0 (codes "zz")) (codes "zz"))
unfolding length_or c_str str_int_len
zz-IsTitle = record {
  long = omega arith;
  short = omega arith;
  no_newline = (λ e. ground arith, (λ e. ground arith, tt));
  no_bracket = (λ e. ground arith, (λ e. ground arith, tt));
  no_comma = (λ e. ground arith, (λ e. ground arith, tt));
  no_equality = (λ e. ground arith, (λ e. ground arith, tt));
}

add_ini_section-IsHeader_example :
    IsHeader
      (added_header (on_section "zz") (codes "zz"))
      (printed (length_or 0 (codes "zz")) (codes "zz"))
    × ((line : Bytes) × IsHeader line (printed (length_or 0 (codes "zz")) (codes "zz"))
        × ((old : Bytes)
            → fgets 1023 (section_header (codes "zz") (length_or 0 (codes "zz")) ++ old)
              ≡ (line, newline_sign ∷ old)))
add_ini_section-IsHeader_example =
    add_ini_section-IsHeader (on_section "zz") (codes "zz") zz-IsTitle
