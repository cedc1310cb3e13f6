-- ===== src/Linked/Write/Laws.antt =====
-- What `updateIniFile` of v1.0.0/inifile.c leaves in the file.
use ini.Base.{
  All, Bool, Bool-cases, Bytes, List, [], ap, arith, drop, false, inl, inr, leb, length, ltb, refl,
  some, suc, take, true, zero, ℕ, ◌++◌, ◌<◌, ◌==◌, ◌∷◌, ◌≡◌, ◌≤◌,
}
use ini.Linked.{
  IniFile, IniFileNode, KeyValue, Outcome, done, error_type, list_ini_file_node_is_empty, ◌>>=◌,
}
use ini.Linked.Read.{Files}
use ini.Linked.Write.{
  Written, buffer_room, failed, interrupted, key_value_buffer, keys_of, node_buffer, open_name,
  or_failed, part, set_name, update_ini_file, write_buffer, write_keys, write_loop, write_nodes,
}

-- No call fails and none takes 0 bytes.
abbrev pub IsSteady : Written → Type 0
IsSteady interrupted = Unit
IsSteady failed = ⊥
IsSteady (part n) = 0 < n

take-drop : (n : ℕ) (b : Bytes) → take n b ++ drop n b ≡ b
take-drop zero b = refl
take-drop (suc n) [] = refl
take-drop (suc n) (x ∷ b) = ap (◌∷◌ x) (take-drop n b)

-- Interrupted calls and calls that take a part leave the same bytes in the file as one whole call.
pub write_loop_whole :
    (ws : List Written) (b : Bytes)
    → All IsSteady ws
    → (ws' : List Written) × (write_loop ws b ≡ (b, ws', true)) × All IsSteady ws'
unfolding write_loop
write_loop_whole [] b h = ([], refl, tt)
write_loop_whole (interrupted ∷ ws) b h = write_loop_whole ws b h.1
write_loop_whole (failed ∷ ws) b h = absurd h.0
write_loop_whole (part n ∷ ws) b h =
    let zero_not : (n == 0) ≡ false = ground arith in
    elim (Bool-cases (leb (length b) n)) [
      | inl e ↦ rw (zero_not, e) (ws, refl, h.1)
      | inr e ↦
          let (ws', p, s) = write_loop_whole ws (drop n b) h.1 in
          (ws', rw (p, zero_not, e, take-drop n b) refl, s)
    ]

-- What the nodes are in the file.
unfoldable pub keys_text : List KeyValue → Bytes
unfolding key_value_buffer
keys_text [] = []
keys_text (k ∷ ks) = key_value_buffer k ++ keys_text ks

unfoldable pub nodes_text : List IniFileNode → Bytes
unfolding node_buffer keys_text
nodes_text [] = []
nodes_text (n ∷ ns) = node_buffer n ++ (keys_text (keys_of n.key_list) ++ nodes_text ns)

-- Each line fits in the buffer.
abbrev pub KeyFits : KeyValue → Type 0
KeyFits k = length (key_value_buffer k) ≤ buffer_room

abbrev pub NodeFits : IniFileNode → Type 0
NodeFits n = (length (node_buffer n) ≤ buffer_room) × All KeyFits (keys_of n.key_list)

write_buffer_lem :
    (ws : List Written) (b : Bytes) (k : List Written → Outcome (Bytes × List Written × Bool))
    (text : Bytes)
    → length b ≤ buffer_room
    → All IsSteady ws
    → ((w : List Written)
        → All IsSteady w
        → (w' : List Written) × (k w ≡ done (text, w', true)) × All IsSteady w')
    → (w' : List Written) × (write_buffer ws b k ≡ done (b ++ text, w', true)) × All IsSteady w'
write_buffer_lem ws b k text l h next =
    let (w, p, s) = write_loop_whole ws b h in
    let (w', q, s') = next w s in
    let fits : ltb buffer_room (length b) ≡ false = ground arith in (w', rw (fits, p, q) refl, s')

write_keys_lem :
    (ks : List KeyValue) (ws : List Written)
    → All KeyFits ks
    → All IsSteady ws
    → (w' : List Written) × (write_keys ks ws ≡ done (keys_text ks, w', true)) × All IsSteady w'
unfolding write_keys keys_text
write_keys_lem [] ws l h = (ws, refl, h)
write_keys_lem (k ∷ ks) ws l h =
    write_buffer_lem ws (key_value_buffer k) (write_keys ks) (keys_text ks) l.0 h
      (λ w s. write_keys_lem ks w l.1 s)

pub write_nodes_lem :
    (ns : List IniFileNode) (ws : List Written)
    → All NodeFits ns
    → All IsSteady ws
    → (w' : List Written) × (write_nodes ns ws ≡ done (nodes_text ns, w', true)) × All IsSteady w'
unfolding write_nodes nodes_text
write_nodes_lem [] ws l h = (ws, refl, h)
write_nodes_lem (n ∷ ns) ws l h =
    let ks = keys_of n.key_list in
    let rest : List Written → Outcome (Bytes × List Written × Bool) =
      λ w. write_keys ks w >>= (λ r. or_failed r (write_nodes ns)) in
    write_buffer_lem ws (node_buffer n) rest (keys_text ks ++ nodes_text ns) l.0.0 h (λ w s.
      let (w1, p, s1) = write_keys_lem ks w l.0.1 s in
      let (w2, q, s2) = write_nodes_lem ns w1 l.1 s1 in (w2, rw (p, q) refl, s2))

-- The file is the text of the nodes.
pub update_ini_file_lem :
    (f : IniFile) (files : Files) (ws : List Written) {old : Bytes}
    → list_ini_file_node_is_empty f ≡ true
    → f.dangling ≡ false
    → files (open_name f) ≡ some old
    → All NodeFits f.nodes
    → All IsSteady ws
    → (w' : List Written) × (update_ini_file f files ws
        ≡ done (set_name files (open_name f) (nodes_text f.nodes), w', error_type))
      × All IsSteady w'
unfolding update_ini_file
update_ini_file_lem f files ws there_are d there l h =
    let (w', p, s) = write_nodes_lem f.nodes ws l h in (w', rw (there_are, d, there, p) refl, s)
