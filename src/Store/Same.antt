-- ===== src/Store/Same.antt =====
-- A search in two memories with the same links and the same names.
use std.Path.{fun_ext}
use ini.Base.{Bytes, List, Option, ap, none, refl, some, suc, sym, ℕ, ◌∙◌, ◌≡◌}
use ini.Memory.{
  Result, World, fault, keyvalue_array_len, max_inifile_section_num, nodes, ok, pure, walked, ◌>>=◌,
}
use ini.Store.{
  find_inifile_section, find_keyvalue_unsect, find_node, key_text, keyval_links, length_or,
  section_links, section_text,
}

found : (ℕ → Bytes) → Bytes → ℕ → Option (List ℕ) → Result (Option ℕ)
found label name n none = fault
found label name n (some xs) = ok (find_node label name n xs)

find_section_found :
    (w : World) (p : ℕ) (name : Bytes) (n : ℕ)
    → find_inifile_section (some p) (some name) n w ≡ (
      found
          (section_text w)
          name
          (length_or n name)
          (nodes (section_links w) (suc max_inifile_section_num) (some p)),
      w,
    )
unfolding find_inifile_section found ◌>>=◌
find_section_found w p name n =
    by_nodes (nodes (section_links w) (suc max_inifile_section_num) (some p))
  where
    by_nodes :
        (o : Option (List ℕ))
        → (walked o >>= λ xs. pure (find_node (section_text w) name (length_or n name) xs)) w
          ≡ (found (section_text w) name (length_or n name) o, w)
    by_nodes none = refl
    by_nodes (some xs) = refl

find_keyval_found :
    (w : World) (p : ℕ) (name : Bytes) (n : ℕ)
    → find_keyvalue_unsect (some p) (some name) n w ≡ (
      found
          (key_text w)
          name
          (length_or n name)
          (nodes (keyval_links w) (suc keyvalue_array_len) (some p)),
      w,
    )
unfolding find_keyvalue_unsect found ◌>>=◌
find_keyval_found w p name n = by_nodes (nodes (keyval_links w) (suc keyvalue_array_len) (some p))
  where
    by_nodes :
        (o : Option (List ℕ))
        → (walked o >>= λ xs. pure (find_node (key_text w) name (length_or n name) xs)) w
          ≡ (found (key_text w) name (length_or n name) o, w)
    by_nodes none = refl
    by_nodes (some xs) = refl

module _ (w w' : World) where
  -- The sections of `w` and `w'` are linked and named alike.
  pub record SameSections : Type 0 where
    pub links : (i : ℕ) → section_links w' i ≡ section_links w i
    pub names : (i : ℕ) → section_text w' i ≡ section_text w i

  pub record SameKeyvals : Type 0 where
    pub links : (i : ℕ) → keyval_links w' i ≡ keyval_links w i
    pub names : (i : ℕ) → key_text w' i ≡ key_text w i

  pub find_inifile_section_same :
      (head : Option ℕ) (name : Option Bytes) (n : ℕ) (o : Option ℕ)
      → SameSections
      → find_inifile_section head name n w ≡ (ok o, w)
      → find_inifile_section head name n w' ≡ (ok o, w')
  unfolding find_inifile_section pure
  find_inifile_section_same head none n o h e = ap (λ r. (r.0, w')) e
  find_inifile_section_same none (some name) n o h e = ap (λ r. (r.0, w')) e
  find_inifile_section_same (some p) (some name) n o h e =
      find_section_found w' p name n
      ∙ rw (fun_ext h.links, fun_ext h.names)
          (ap (λ r. (r.0, w')) (sym (find_section_found w p name n) ∙ e))

  pub find_keyvalue_unsect_same :
      (head : Option ℕ) (name : Option Bytes) (n : ℕ) (o : Option ℕ)
      → SameKeyvals
      → find_keyvalue_unsect head name n w ≡ (ok o, w)
      → find_keyvalue_unsect head name n w' ≡ (ok o, w')
  unfolding find_keyvalue_unsect pure
  find_keyvalue_unsect_same head none n o h e = ap (λ r. (r.0, w')) e
  find_keyvalue_unsect_same none (some name) n o h e = ap (λ r. (r.0, w')) e
  find_keyvalue_unsect_same (some p) (some name) n o h e =
      find_keyval_found w' p name n
      ∙ rw (fun_ext h.links, fun_ext h.names)
          (ap (λ r. (r.0, w')) (sym (find_keyval_found w p name n) ∙ e))
