-- ===== src/Load/Bounds.antt =====
-- The pool when a file is read.
use ini.Base.{
  Bool-cases, Bytes, List, Option, Option-cases, [], inl, inr, length, none, some, ℕ, ◌∷◌,
}
use ini.Line.{
  LineType, judge_ini_file_linetype, line_blank, line_error, line_keyvalue, line_note, line_section,
}
use ini.Load.{
  enter_keyval, enter_section, init_every_line_inifile, init_keyvalue_line, init_lines,
  init_section_line, link_keyval, link_section, read_analys_ini_file,
}
use ini.Memory.{M, World, ask, fail, format_error, max_inifile_section_num, pure, walk, ◌>>=◌}
use ini.Memory.Preserves.{
  Preserves, Preserves-bind, Preserves-fail, Preserves-pure, preserves_rules,
}
use ini.Pool.Bounds.{PoolIn}
use ini.Store.{section_links}
use ini.Store.Bounds.{
  find_inifile_section-InPool, find_keyvalue_unsect-InPool, init_line_key_val-InPool,
  init_line_section-InPool,
}
use ini.Text.{read_lines}

link_section-InPool :
    (fd : ℕ) (xs : List ℕ) (i : ℕ) (w : World) → PoolIn w → PoolIn (link_section fd xs i w)
unfolding link_section
link_section-InPool fd [] i w v = v
link_section-InPool fd (x ∷ xs) i w v = v

link_keyval-InPool :
    (s : ℕ) (xs : List ℕ) (i : ℕ) (w : World) → PoolIn w → PoolIn (link_keyval s xs i w)
unfolding link_keyval
link_keyval-InPool s [] i w v = v
link_keyval-InPool s (x ∷ xs) i w v = v

enter_section-InPool : (fd i : ℕ) (f : Option ℕ) → Preserves PoolIn (enter_section fd i f)
unfolding enter_section
enter_section-InPool fd i (some j) = search (preserves_rules) depth 20
enter_section-InPool fd i none = search (preserves_rules, link_section-InPool) depth 20

enter_keyval-InPool : (s i : ℕ) (f : Option ℕ) → Preserves PoolIn (enter_keyval s i f)
unfolding enter_keyval
enter_keyval-InPool s i (some j) = search (preserves_rules) depth 20
enter_keyval-InPool s i none = search (preserves_rules, link_keyval-InPool) depth 20

init_section_line-InPool : (fd : ℕ) (l : Bytes) → Preserves PoolIn (init_section_line fd l)
unfolding init_section_line
init_section_line-InPool fd l =
    search
      (preserves_rules, init_line_section-InPool, find_inifile_section-InPool, enter_section-InPool)
      depth 20

init_keyvalue_line-InPool : (xs : List ℕ) (l : Bytes) → Preserves PoolIn (init_keyvalue_line xs l)
unfolding init_keyvalue_line
init_keyvalue_line-InPool [] l = Preserves-fail ℕ format_error
init_keyvalue_line-InPool (x ∷ xs) l =
    search
      (preserves_rules, init_line_key_val-InPool, find_keyvalue_unsect-InPool, enter_keyval-InPool)
      depth 20

init_every_line_inifile-InPool :
    (fd : ℕ) (l : Bytes) → Preserves PoolIn (init_every_line_inifile fd l)
unfolding init_every_line_inifile
init_every_line_inifile-InPool fd l = by_type (judge_ini_file_linetype l)
  where
    by_type :
        (t : LineType)
        → Preserves PoolIn (elim t as (λ _. M ℕ) [
          | line_section ↦ init_section_line fd l
          | line_keyvalue ↦ do
            w ← ask
            xs ← walk (section_links w) max_inifile_section_num (w.files fd).head
            init_keyvalue_line xs l
          | line_note ↦ pure 0
          | line_blank ↦ pure 0
          | line_error ↦ fail format_error
        ])
    by_type line_section = init_section_line-InPool fd l
    by_type line_keyvalue = search (preserves_rules, init_keyvalue_line-InPool) depth 20
    by_type line_note = Preserves-pure 0
    by_type line_blank = Preserves-pure 0
    by_type line_error = Preserves-fail ℕ format_error

init_lines-InPool : (fd r : ℕ) (ls : List Bytes) → Preserves PoolIn (init_lines fd r ls)
unfolding init_lines
init_lines-InPool fd r [] = Preserves-pure r
init_lines-InPool fd r (l ∷ ls) =
    Preserves-bind _ _ (init_every_line_inifile-InPool fd l) (λ r'. init_lines-InPool fd r' ls)

pub read_analys_ini_file-InPool :
    (fd : ℕ) (name : Bytes) → Preserves PoolIn (read_analys_ini_file fd name)
unfolding read_analys_ini_file
read_analys_ini_file-InPool fd name = record {
  at = λ w v. elim (Option-cases (w.disk.content name)) [
    | inl e ↦ rw (e, read_analys_ini_file) v
    | inr (text, e) ↦ elim (Bool-cases (w.disk.writable name)) [
      | inl f ↦
          rw (e, read_analys_ini_file)
            (rw f ((init_lines-InPool fd 0 (read_lines (length text) text)).at w v))
      | inr f ↦ rw (e, read_analys_ini_file) (rw f v)
    ]
  ];
}
