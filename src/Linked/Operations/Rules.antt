-- ===== src/Linked/Operations/Rules.antt =====
-- A rule for what all operations of v1.0.0/inifile.c keep to: it is shown for the refusals and for
-- `updateIniFile` on a file that has nodes.
use ini.Base.{
  Bool, Bytes, List, Option, [], false, none, refl, some, suc, true, zero, ℕ, ◌++◌, ◌∙◌, ◌∷◌, ◌≡◌,
}
use ini.Linked.{
  IniFile, IniFileNode, IniParameter, MethodType, Outcome, add_setction_type, add_value_of_key_type,
  delete_section_type, delete_value_of_key_type, done, list_ini_file_node_insert,
  list_ini_file_node_is_empty, list_is_empty, new_node, undefined, update_value_of_key_type, ◌>>=◌,
}
use ini.Linked.Chars.{copy_begin_end, find_ini_file_node, find_node_loop}
use ini.Linked.Check.{ini_parameter_check}
use ini.Linked.Operations.{
  Reply, System, add_setction, add_unless, add_value_of_key, change_at, change_node, chars, checked,
  delete_section_of, delete_value_of_key, insert_key, insert_unless, key_place,
  list_ini_file_node_delete, new_key, or_reply_1, remove_at, reply_1, reply_2, reply_3,
  update_value_of_key, with_key, with_section, write_back,
}

list_is_empty-change_at :
    (i : ℕ) (g : IniFileNode → IniFileNode) (ns : List IniFileNode)
    → list_is_empty (change_at i g ns) ≡ list_is_empty ns
list_is_empty-change_at i g [] = refl
list_is_empty-change_at zero g (n ∷ ns) = refl
list_is_empty-change_at (suc i) g (n ∷ ns) = refl

found_not_empty :
    (f : IniFile) (name : Bytes) {i : ℕ}
    → find_ini_file_node f name ≡ some i
    → list_ini_file_node_is_empty f ≡ true
unfolding find_ini_file_node find_node_loop
found_not_empty f name {i} e = by_nodes f.nodes e
  where
    by_nodes : (ns : List IniFileNode) → find_node_loop ns name ≡ some i → list_is_empty ns ≡ true
    by_nodes [] e = absurd cc
    by_nodes (n ∷ ns) e = refl

delete_not_empty :
    (f : IniFile) (i : ℕ)
    → list_ini_file_node_is_empty f ≡ true
    → (list_ini_file_node_is_empty (list_ini_file_node_delete f i) ≡ true)
      × ((list_ini_file_node_delete f i).file_name ≡ f.file_name)
unfolding list_ini_file_node_delete
delete_not_empty f i e = by_nodes f.nodes e
  where
    by_more :
        (i : ℕ) (n m : IniFileNode) (ms : List IniFileNode)
        → list_is_empty (remove_at i (n ∷ m ∷ ms)) ≡ true
    by_more zero n m ms = refl
    by_more (suc i) n m ms = refl

    by_nodes :
        (ns : List IniFileNode)
        → list_is_empty ns ≡ true
        → (list_ini_file_node_is_empty (list_ini_file_node_delete (record f { nodes = ns }) i)
            ≡ true)
          × ((list_ini_file_node_delete (record f { nodes = ns }) i).file_name ≡ f.file_name)
    by_nodes [] e = absurd cc
    by_nodes (n ∷ []) e = (refl, refl)
    by_nodes (n ∷ m ∷ ms) e = (by_more i n m ms, refl)

append_not_empty : (ns : List IniFileNode) (n : IniFileNode) → list_is_empty (ns ++ (n ∷ [])) ≡ true
append_not_empty [] n = refl
append_not_empty (x ∷ ns) n = refl

-- What is to hold of the outcomes of calls in a state.
pub record Rule (s : System) (P : Outcome (Reply × System) → Type 0) : Type 0 where
  pub stops : P undefined
  pub refuses_1 : P (done (reply_1, s))
  pub refuses_2 : P (done (reply_2, s))
  pub refuses_3 : P (done (reply_3, s))
  pub writes :
      (f g : IniFile)
      → s.ini ≡ some f
      → g.file_name ≡ f.file_name
      → list_ini_file_node_is_empty g ≡ true
      → P (write_back s g)

module _ (s : System) (P : Outcome (Reply × System) → Type 0) (v : Rule s P) where
  checked_rule :
      (p : IniParameter) (type : MethodType) (k : IniFile → Outcome (Reply × System))
      → ((f : IniFile) → s.ini ≡ some f → P (k f))
      → P (checked s p type k)
  unfolding checked
  checked_rule p type k h = by_ini s.ini refl
    where
      by_good : (f : IniFile) (good : Bool) → s.ini ≡ some f → P (or_reply_1 s good (k f))
      by_good f true e = h f e
      by_good f false e = v.refuses_1

      by_check :
          (f : IniFile) (o : Outcome Bool)
          → s.ini ≡ some f
          → P (o >>= λ good. or_reply_1 s good (k f))
      by_check f (done good) e = by_good f good e
      by_check f undefined e = v.stops

      by_ini :
          (o : Option IniFile)
          → s.ini ≡ o
          → P (elim o [
            | none ↦ done (reply_1, s)
            | some f ↦ ini_parameter_check p type >>= λ good. or_reply_1 s good (k f)
          ])
      by_ini none e = v.refuses_1
      by_ini (some f) e = by_check f (ini_parameter_check p type) e

  section_rule :
      (f : IniFile) (p : IniParameter) (k : ℕ → Outcome (Reply × System))
      → ((i : ℕ) → list_ini_file_node_is_empty f ≡ true → P (k i))
      → P (with_section s f p k)
  section_rule f p k h = by_place (find_ini_file_node f (chars p.section)) refl
    where
      by_place :
          (o : Option ℕ)
          → find_ini_file_node f (chars p.section) ≡ o
          → P (elim o [ none ↦ done (reply_2, s) | some i ↦ k i ])
      by_place none e = v.refuses_2
      by_place (some i) e = h i (found_not_empty f (chars p.section) e)

  key_rule :
      (f : IniFile) (p : IniParameter) (i : ℕ) (k : ℕ → Outcome (Reply × System))
      → ((j : ℕ) → P (k j))
      → P (with_key s f p i k)
  key_rule f p i k h = by_place (key_place f i (chars p.key))
    where
      by_place : (o : Option ℕ) → P (elim o [ none ↦ done (reply_3, s) | some j ↦ k j ])
      by_place none = v.refuses_3
      by_place (some j) = h j

  -- A change of one node.
  change_rule :
      (f : IniFile) (i : ℕ) (g : IniFileNode → IniFileNode)
      → s.ini ≡ some f
      → list_ini_file_node_is_empty f ≡ true
      → P (write_back s (change_node i g f))
  change_rule f i g e some_nodes =
      v.writes f (change_node i g f) e refl (list_is_empty-change_at i g f.nodes ∙ some_nodes)

  module _ (p : IniParameter) where
    pub update_rule : P (update_value_of_key s p)
    unfolding update_value_of_key
    update_rule = checked_rule p update_value_of_key_type _ (λ f e.
        section_rule f p _ (λ i some_nodes. key_rule f p i _ (λ j. change_rule f i _ e some_nodes)))

    pub add_rule : P (add_value_of_key s p)
    unfolding add_value_of_key
    add_rule = checked_rule p add_value_of_key_type _ (λ f e.
        section_rule f p _
          (λ i some_nodes. by_place f i e some_nodes (key_place f i (chars p.key))))
      where
        by_place :
            (f : IniFile) (i : ℕ)
            → s.ini ≡ some f
            → list_ini_file_node_is_empty f ≡ true
            → (o : Option ℕ)
            → P (elim o [
              | some j ↦ done (reply_3, s)
              | none ↦ write_back s (change_node i (insert_key (new_key p)) f)
            ])
        by_place f i e some_nodes none = change_rule f i _ e some_nodes
        by_place f i e some_nodes (some j) = v.refuses_3

    pub delete_rule : P (delete_value_of_key s p)
    unfolding delete_value_of_key
    delete_rule = checked_rule p delete_value_of_key_type _ (λ f e.
        section_rule f p _ (λ i some_nodes. key_rule f p i _ (λ j. change_rule f i _ e some_nodes)))

    pub delete_section_rule : P (delete_section_of s p)
    unfolding delete_section_of
    delete_section_rule = checked_rule p delete_section_type _ (λ f e.
        section_rule f p _ (λ i some_nodes.
          let (more, name) = delete_not_empty f i some_nodes in
          v.writes f (list_ini_file_node_delete f i) e name more))

    pub add_setction_rule : P (add_setction s p)
    unfolding add_setction
    add_setction_rule =
        checked_rule p add_setction_type _
          (λ f e. by_first f e (find_ini_file_node f (chars p.section)))
      where
        by_name :
            (f : IniFile) (name : Bytes)
            → s.ini ≡ some f
            → (o : Option ℕ) → P (insert_unless s f name o)
        by_name f name e none =
            v.writes f (list_ini_file_node_insert f (new_node name false)) e refl
              (append_not_empty f.nodes (new_node name false))
        by_name f name e (some i) = v.refuses_1

        by_copy :
            (f : IniFile)
            → s.ini ≡ some f
            → (o : Outcome Bytes)
            → P (o >>= λ name. insert_unless s f name (find_ini_file_node f name))
        by_copy f e undefined = v.stops
        by_copy f e (done name) = by_name f name e (find_ini_file_node f name)

        by_first : (f : IniFile) → s.ini ≡ some f → (o : Option ℕ) → P (add_unless s p f o)
        by_first f e none = by_copy f e (copy_begin_end (chars p.section) 0 p.section_len)
        by_first f e (some i) = v.refuses_2
