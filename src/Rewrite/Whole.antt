-- ===== src/Rewrite/Whole.antt =====
-- What `rewrite_after_update`, `rewrite_after_add` and `rewrite_after_delete` leave on the disk.
use ini.Base.{
  All, All-append, Bytes, List, [], ap, arith, false, length, none, refl, some, true, ℕ, ◌++◌, ◌∙◌,
  ◌∷◌, ◌≡◌, ◌≤◌,
}
use ini.Memory.{World, ok}
use ini.Rewrite.{
  Out, Parameter, given_len, printed, re_name_ini_file, rewrite_with, tmp_name, written,
}
use ini.Rewrite.Add.{Addition, add_loop, add_with, key_line, rewrite_after_add, section_header}
use ini.Rewrite.Add.Laws.{add_loop-true, add_loop_lem}
use ini.Rewrite.Delete.{delete_loop, rewrite_after_delete}
use ini.Rewrite.Delete.Laws.{KeySplit, delete_loop_key}
use ini.Rewrite.Delete.Sections.{SectionSplit, delete_loop_section, left_over}
use ini.Rewrite.Loop.{IsReadable, copied, copied-read_lines, opens_section, rewrite_with_written}
use ini.Rewrite.Update.{Target, changed_line, rewrite_after_update, update_loop, update_target}
use ini.Rewrite.Update.Laws.{Splits, update_loop_lem}
use ini.Store.{length_or}
use ini.Text.{c_str, equality_sign, read_lines, str_frist_constchar}
use ini.Text.Laws.{NoNul, NoNul-c_str, c_str-NoNul, take-NoNul}

-- The file is there, its copy can be opened, and these are its lines.
pub record Reads (name : Bytes) (w : World) (lines : List Bytes) : Type 0 where
  pub old : Bytes
  pub here : w.disk.content name ≡ some old
  pub copy_opens : w.disk.writable (tmp_name name) ≡ true
  pub in_lines : read_lines (length old) old ≡ lines

rewrite_with_lines :
    (name : Bytes) (loop : List Bytes → Out) (w : World) (lines : List Bytes) {r : ℕ} {new : Bytes}
    → Reads name w lines
    → loop lines ≡ written r new
    → rewrite_with name loop w ≡ (ok r, re_name_ini_file name new w)
rewrite_with_lines name loop w lines h e =
    rewrite_with_written name loop w h.old h.here h.copy_opens (rw h.in_lines e)

-- The file can be read and its copy opened, no line before the key's is refused, and the key is in
-- the section. Then the update succeeds: the first line of the key behind the first header of the
-- section is the changed line, all other lines are copied, and the copy is given to
-- `re_name_ini_file`.
pub rewrite_after_update_lem :
    (name : Bytes) (p : Parameter) (w : World) (t : Target) (xs ys zs : List Bytes)
    (header line : Bytes) (e : ℕ)
    → update_target p p.section p.key p.value ≡ some t
    → Reads name w (xs ++ (header ∷ (ys ++ (line ∷ zs))))
    → Splits t xs header ys line
    → str_frist_constchar line equality_sign ≡ some e
    → rewrite_after_update name p w ≡ (
      ok 0,
      re_name_ini_file name
          (copied xs (c_str header ++ copied ys (c_str (changed_line t line e) ++ copied zs [])))
          w,
    )
unfolding rewrite_after_update
rewrite_after_update_lem name p w t xs ys zs header line e ht hr hs he =
    rw (ht, rewrite_after_update)
      (rewrite_with_lines name (update_loop t) w _ hr
        (update_loop_lem t xs ys zs header line e hs he))

-- The key and value that an addition with a key writes.
abbrev pub addition_of : Parameter → Bytes → Bytes → Addition
addition_of p s k = record {
  section = s;
  section_len = length_or p.section_len s;
  key = k;
  key_len = length_or p.key_len k;
  value = p.value;
  value_len = given_len p.value_len p.value;
}

-- The value is not NULL, the file can be read and its copy opened, and no line before the section's
-- header is refused. Then the addition of a key succeeds: its line is right behind the first
-- header of the section, all lines of the file are copied, and the copy is given to
-- `re_name_ini_file`.
pub rewrite_after_add-key :
    (name : Bytes) (p : Parameter) (w : World) (s k v : Bytes) (xs zs : List Bytes) (header : Bytes)
    → p.section ≡ some s
    → p.key ≡ some k
    → p.value ≡ some v
    → Reads name w (xs ++ (header ∷ zs))
    → All IsReadable xs
    → All (λ l. opens_section s (length_or p.section_len s) l ≡ false) xs
    → opens_section s (length_or p.section_len s) header ≡ true
    → rewrite_after_add name p w ≡ (
      ok 0,
      re_name_ini_file name
          (copied xs ((c_str header ++ key_line (addition_of p s k) v) ++ copied zs []))
          w,
    )
unfolding rewrite_after_add add_with
rewrite_after_add-key name p w s k v xs zs header hs hk hv hr read other opens =
    ap (λ m. m w) as_loop
    ∙ rewrite_with_lines name (add_loop (addition_of p s k) false) w _ hr
        (add_loop_lem (addition_of p s k) xs zs header v hv read other opens)
  where
    as_loop : rewrite_after_add name p ≡ rewrite_with name (add_loop (addition_of p s k) false)
    as_loop = simp (rewrite_after_add, hs, hk)

printed-NoNul : (n : ℕ) (s : Bytes) → NoNul (printed n s)
printed-NoNul n s = take-NoNul n (c_str s) (c_str-NoNul s)

pub section_header-NoNul : (s : Bytes) (n : ℕ) → NoNul (section_header s n)
unfolding section_header
section_header-NoNul s n = (
  λ e. ground arith,
  All-append _ (printed n s) _ (printed-NoNul n s)
      (λ e. ground arith, (λ e. ground arith, (λ e. ground arith, tt))),
)

add_with-none :
    (s : Bytes) (n : ℕ) (p : Parameter) (old : Bytes)
    → NoNul old
    → add_with s n p none (read_lines (length old) old) ≡ written 0 (section_header s n ++ old)
unfolding add_with
add_with-none s n p old nul =
    rw (add_loop-true, copied-read_lines old nul, NoNul-c_str _ (section_header-NoNul s n)) refl

-- The file can be read and its copy opened, and there is no NUL in it. Then the addition without a
-- key succeeds: the header of the new section is put in front of the whole old text.
pub rewrite_after_add-section :
    (name : Bytes) (p : Parameter) (w : World) (s old : Bytes)
    → p.section ≡ some s
    → p.key ≡ none
    → w.disk.content name ≡ some old
    → w.disk.writable (tmp_name name) ≡ true
    → NoNul old
    → rewrite_after_add name p w
      ≡ (ok 0, re_name_ini_file name (section_header s (length_or p.section_len s) ++ old) w)
unfolding rewrite_after_add
rewrite_after_add-section name p w s old hs hk found opens nul =
    ap (λ m. m w) as_loop
    ∙ rewrite_with_written name (add_with s (length_or p.section_len s) p none) w old found opens
        (add_with-none s n p old nul)
  where
    n : ℕ
    n = length_or p.section_len s

    as_loop : rewrite_after_add name p ≡ rewrite_with name (add_with s n p none)
    as_loop = simp (rewrite_after_add, hs, hk)

-- The file can be read and its copy opened, no line before the key's is refused, the section has
-- the key, behind its header there is no NUL, and the key has no NUL and at least the length
-- given. Then the deletion succeeds: the line of the key is left out, and so is the header of its
-- section; all other lines are copied, and the copy is given to `re_name_ini_file`.
pub rewrite_after_delete-key :
    (name : Bytes) (p : Parameter) (w : World) (s k : Bytes) (xs ys zs : List Bytes)
    (header line : Bytes)
    → p.section ≡ some s
    → p.key ≡ some k
    → NoNul k
    → length_or p.key_len k ≤ length k
    → Reads name w (xs ++ (header ∷ (ys ++ (line ∷ zs))))
    → KeySplit s (length_or p.section_len s) k (length_or p.key_len k) xs header ys line
    → All NoNul zs
    → rewrite_after_delete name p w
      ≡ (ok 0, re_name_ini_file name (copied xs (copied ys (copied zs []))) w)
unfolding rewrite_after_delete
rewrite_after_delete-key name p w s k xs ys zs header line hs hk nul le hr split after =
    ap (λ m. m w) as_loop
    ∙ rewrite_with_lines name loop w _ hr (
        delete_loop_key s (length_or p.section_len s) k (length_or p.key_len k) xs ys zs header line
          nul le split after)
  where
    loop : List Bytes → Out
    loop = delete_loop s (length_or p.section_len s) (some k) (length_or p.key_len k)

    as_loop : rewrite_after_delete name p ≡ rewrite_with name loop
    as_loop = simp (rewrite_after_delete, hs, hk)

-- The file can be read and its copy opened, no line up to the section's end is refused, and behind
-- its header there is no NUL. Then the deletion without a key succeeds: the section's header and
-- its lines with keys are left out, its notes and blank lines stay, and all lines before and
-- behind it are copied.
pub rewrite_after_delete-section :
    (name : Bytes) (p : Parameter) (w : World) (s : Bytes) (xs ys zs : List Bytes) (header : Bytes)
    → p.section ≡ some s
    → p.key ≡ none
    → Reads name w (xs ++ (header ∷ (ys ++ zs)))
    → SectionSplit s (length_or p.section_len s) xs header ys zs
    → rewrite_after_delete name p w
      ≡ (ok 0, re_name_ini_file name (copied xs (copied (left_over ys) (copied zs []))) w)
unfolding rewrite_after_delete
rewrite_after_delete-section name p w s xs ys zs header hs hk hr split =
    ap (λ m. m w) as_loop
    ∙ rewrite_with_lines name loop w _ hr
        (delete_loop_section s (length_or p.section_len s) p.key_len xs ys zs header split)
  where
    loop : List Bytes → Out
    loop = delete_loop s (length_or p.section_len s) none p.key_len

    as_loop : rewrite_after_delete name p ≡ rewrite_with name loop
    as_loop = simp (rewrite_after_delete, hs, hk)
