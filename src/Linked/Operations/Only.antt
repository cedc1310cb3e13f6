-- ===== src/Linked/Operations/Only.antt =====
-- `deleteSection` on the only section, v1.0.0/inifile.c.
use ini.Base.{List, [], ap, arith, refl, some, sym, true, ℕ, ◌∙◌, ◌∷◌, ◌≡◌, ◌≢◌}
use ini.Linked.{
  IniFile, IniFileNode, IniParameter, LineCode, Outcome, delete_section_type, done,
  list_ini_file_node_is_empty, undefined, ◌>>=◌,
}
use ini.Linked.Operations.{
  System, after_write, delete_section_of, list_ini_file_node_delete, reply_0, write_back,
}
use ini.Linked.Operations.Parts.{checked-reply_0, with_section-reply_0}
use ini.Linked.Operations.Synced.{update_dangling}
use ini.Linked.Read.{Files}
use ini.Linked.Write.{Written}

module _ (s : System) (p : IniParameter) where
  only_dangles :
      (f : IniFile) (i : ℕ) (n : IniFileNode)
      → f.nodes ≡ n ∷ []
      → (list_ini_file_node_is_empty (list_ini_file_node_delete f i) ≡ true)
        × ((list_ini_file_node_delete f i).dangling ≡ true)
  unfolding list_ini_file_node_delete
  only_dangles f i n e =
      (rw (list_ini_file_node_delete, e, e) refl, rw (list_ini_file_node_delete, e) refl)

  write_dangling :
      (f : IniFile)
      → list_ini_file_node_is_empty f ≡ true
      → f.dangling ≡ true
      → write_back s f ≡ undefined
  unfolding write_back
  write_dangling f some_nodes d =
      ap (λ (o : Outcome (Files × List Written × LineCode)). o >>= λ r. done (after_write s f r))
        (update_dangling f s.files s.writes some_nodes d)

  -- Deleting the only node of a file never returns 0: the node is freed, the head goes on pointing
  -- to it, and writing the file then reads it.
  pub delete_section_only :
      {f : IniFile} {n : IniFileNode}
      → s.ini ≡ some f
      → f.nodes ≡ n ∷ []
      → (s' : System) → delete_section_of s p ≢ done (reply_0, s')
  unfolding delete_section_of
  delete_section_only {f} {n} ini_is one s' e =
      let (g, g_is, good, e1) = checked-reply_0 s p delete_section_type _ e in
      let (i, sec_at, e2) = with_section-reply_0 s g p _ e1 in
      let same : g ≡ f = ground (arith, sym g_is ∙ ini_is) in
      let g_one : g.nodes ≡ n ∷ [] = ap (λ x. x.nodes) same ∙ one in
      let (some_nodes, d) = only_dangles g i n g_one in
      cc (sym e2 ∙ write_dangling (list_ini_file_node_delete g i) some_nodes d)
