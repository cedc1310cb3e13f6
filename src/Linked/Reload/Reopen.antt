-- ===== src/Linked/Reload/Reopen.antt =====
-- The file written by `updateIniFile` and opened by `initIniFile`, v1.0.0/inifile.c.
use ini.Base.{
  All, Bool, Bytes, List, [], ap, arith, false, leb, length, length-append, ltb, refl, some, subst,
  sym, true, ◌++◌, ◌+◌, ◌<◌, ◌==◌, ◌∙◌, ◌∷◌, ◌≡◌, ◌≤◌,
}
use ini.Linked.{
  IniFile, IniFileNode, LineCode, done, error_type, is_negative, list_ini_file_node_init,
  list_is_empty, max_filename_len,
}
use ini.Linked.Operations.AddGet.{copy_bytes-length}
use ini.Linked.Read.{Files, init_linked_file, init_there, read_ini_file}
use ini.Linked.Read.Contexts.{end_of_line}
use ini.Linked.Reload.{
  AreReadable, Document, IsLineText, IsReadItem, IsReloadable, Item, Titled, assignment, items_of,
  list_of, nodes_of, remark, remarks_of, settled, titled_of,
}
use ini.Linked.Reload.Files.{file_of, read_ini_file-nodes_text}
use ini.Linked.Reload.Lines.{keys_of-list_of}
use ini.Linked.Reload.Whole.{assignment_buffer, blank_behind, remark_buffer, text-NoNul}
use ini.Linked.Write.{
  Written, buffer_room, keys_of, node_buffer, open_name, set_name, update_ini_file,
}
use ini.Linked.Write.Laws.{IsSteady, KeyFits, NodeFits, nodes_text, update_ini_file_lem}
use ini.Rewrite.Renamed.{bytes_eq_refl}
use ini.Text.{char_at, comma_sign, equality_sign, left_bracket, newline_sign, right_bracket}
use ini.Text.Laws.{NoNul, NoNul-c_str}

-- The lines of a document fit in the buffer of `updateIniFile`.
items_fit : (xs : List Item) → All IsReadItem xs → All KeyFits (items_of xs)
items_fit [] r = tt
items_fit (remark b ∷ xs) r = (
  rw (remark_buffer b r.0) (
      omega (
        arith,
        length-append b end_of_line,
        length-append (comma_sign ∷ (b ++ end_of_line)) end_of_line,
        r.0.fits,
      )),
  items_fit xs r.1,
)
items_fit (assignment k v newline ∷ xs) r =
    let buffer_is = assignment_buffer k v newline r.0.0.no_nul r.0.1 r.0.2.no_nul in
    let line = k ++ (equality_sign ∷ (v ++ end_of_line)) in
    let line_len : length line ≡ length k + length v + 2 =
      omega (
        arith,
        length-append k (equality_sign ∷ (v ++ end_of_line)),
        length-append v end_of_line,
      ) in
    (rw buffer_is (by_newline newline line line_len), items_fit xs r.1)
  where
    by_newline :
        (b : Bool) (line : Bytes)
        → length line ≡ length k + length v + 2
        → length (line ++ blank_behind b) ≤ buffer_room
    by_newline true line e = omega (arith, length-append line end_of_line, r.0.3)
    by_newline false line e = omega (arith, length-append line [], r.0.3)

titled_fit :
    (ns : List IniFileNode) (ts : List Titled) → AreReadable ns ts → All NodeFits (titled_of ts)
unfolding node_buffer
titled_fit ns [] r = tt
titled_fit ns (t ∷ ts) r =
    let v = r.0.0 in
    let keys : All KeyFits (keys_of (list_of (items_of t.items))) =
      subst (All KeyFits) (sym (keys_of-list_of (items_of t.items))) (items_fit t.items r.0.2) in
    let head : length (newline_sign ∷ left_bracket ∷ (t.title ++ (right_bracket ∷ end_of_line)))
        ≤ buffer_room =
      omega (arith, length-append t.title (right_bracket ∷ end_of_line), v.fits) in
    ((rw (NoNul-c_str t.title v.no_nul) head, keys), titled_fit _ ts r.1)

document_fit :
    (bs : List Bytes) (ns : List IniFileNode)
    → All (IsLineText 62) bs
    → All NodeFits ns
    → All NodeFits (remarks_of bs ++ ns)
unfolding node_buffer
document_fit [] ns v r = r
document_fit (b ∷ bs) ns v r =
    let text = b ++ end_of_line in
    let head : length (newline_sign ∷ comma_sign ∷ (text ++ end_of_line)) ≤ buffer_room =
      omega (arith, length-append b end_of_line, length-append text end_of_line, v.0.fits) in
    ((rw (NoNul-c_str text (text-NoNul b v.0.no_nul)) head, tt), document_fit bs ns v.1 r)

-- A name that leaves room for the NUL.
pub record IsFileName (name : Bytes) : Type 0 where
  pub no_nul : NoNul name
  pub not_empty : 0 < length name
  pub fits : length name < max_filename_len

module _ (name : Bytes) (v : IsFileName name) where
  open_name_lem : (f : IniFile) → f.file_name ≡ name → open_name f ≡ name
  unfolding open_name
  open_name_lem f e =
      let room : leb max_filename_len (length name) ≡ false = ground (arith, v.fits) in
      rw (e, room) (NoNul-c_str name v.no_nul)

  ends : char_at name (length name) ≡ 0
  ends = by_bytes name
    where
      by_bytes : (s : Bytes) → char_at s (length s) ≡ 0
      by_bytes [] = refl
      by_bytes (c ∷ s) = by_bytes s

  opened_lem :
      (files : Files) {text : Bytes} {f : IniFile} {code : LineCode}
      → files name ≡ some text
      → read_ini_file (list_ini_file_node_init name) (some text) ≡ done (f, code)
      → is_negative code ≡ false
      → init_linked_file files (some name) (length name) ≡ done (some f)
  unfolding init_linked_file
  opened_lem files there read good =
      let short : ltb max_filename_len (length name) ≡ false = ground (arith, v.fits) in
      let some_len : (length name == 0) ≡ false = ground (arith, v.not_empty) in
      rw
        (
          short,
          some_len,
          ends,
          NoNul-c_str name v.no_nul,
          there,
          init_there,
          copy_bytes-length name,
          read,
          good,
        )
        refl

-- A document that is written whole and opened again is the same, with the newlines at the ends of
-- values gone: nothing of it is lost or changed on the way, in however many parts `write` takes it.
-- The document has a section or a remark and is one that can be read, the name of the file is a
-- string of 1 to 63 bytes of a file that is there, and no call of `write` fails or takes nothing.
pub update_ini_file-init_linked_file :
    (name : Bytes) (d : Document) (files : Files) (ws : List Written) {old : Bytes}
    → IsFileName name
    → IsReloadable d
    → list_is_empty (nodes_of d) ≡ true
    → files name ≡ some old
    → All IsSteady ws
    → (files' : Files) × (ws' : List Written) × (update_ini_file (file_of name d) files ws
        ≡ done (files', ws', error_type))
      × (init_linked_file files' (some name) (length name) ≡ done (some (file_of name (settled d))))
update_ini_file-init_linked_file name d files ws v r there_are there steady =
    let f = file_of name d in
    let fits =
      document_fit d.remarks (titled_of d.titled) r.remarks_read
        (titled_fit (remarks_of d.remarks) d.titled r.titled_read) in
    let name_is = open_name_lem name v f refl in
    let (ws', e, s) =
      update_ini_file_lem f files ws there_are refl (ap files name_is ∙ there) fits steady in
    let files' = set_name files name (nodes_text (nodes_of d)) in
    let found : files' name ≡ some (nodes_text (nodes_of d)) = rw (bytes_eq_refl name) refl in
    (
      files',
      ws',
      e ∙ ap (λ x. done (set_name files x (nodes_text (nodes_of d)), ws', error_type)) name_is,
      opened_lem name v files' found (read_ini_file-nodes_text name d r) refl,
    )
