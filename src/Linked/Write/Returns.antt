-- ===== src/Linked/Write/Returns.antt =====
-- The buffers of `updateIniFile`, v1.0.0/inifile.c, where it returns.
use ini.Base.{
  All, Bool, Bool-cases, Bytes, List, [], ap, arith, false, inl, inr, length, ltb, refl, true, ◌++◌,
  ◌∙◌, ◌∷◌, ◌≡◌,
}
use ini.Linked.{IniFileNode, KeyValue, Outcome, done, undefined, ◌>>=◌}
use ini.Linked.Write.{
  Written, buffer_room, key_value_buffer, keys_of, node_buffer, or_failed, write_buffer, write_keys,
  write_nodes,
}
use ini.Linked.Write.Laws.{IsSteady, keys_text, nodes_text, write_loop_whole}

-- The text is in the file, and nothing failed.
pub record Wrote (text : Bytes) (r : Bytes × List Written × Bool) : Type 0 where
  pub text_is : r.0 ≡ text
  pub good : r.2 ≡ true
  pub steady : All IsSteady r.1

-- When it returns, `o` has written the text.
abbrev pub IfDone : Bytes → Outcome (Bytes × List Written × Bool) → Type 0
IfDone text undefined = Unit
IfDone text (done r) = Wrote text r

write_buffer-IfDone :
    (ws : List Written) (b text : Bytes) (k : List Written → Outcome (Bytes × List Written × Bool))
    → All IsSteady ws
    → ((w : List Written) → All IsSteady w → IfDone text (k w))
    → IfDone (b ++ text) (write_buffer ws b k)
write_buffer-IfDone ws b text k h next = elim (Bool-cases (ltb buffer_room (length b))) [
  | inl e ↦ rw (write_buffer, e) tt
  | inr e ↦
      let (w, p, s) = write_loop_whole ws b h in
      rw (write_buffer, e, p) (by_next w (k w) (next w s))
]
  where
    by_next :
        (w : List Written) (o : Outcome (Bytes × List Written × Bool))
        → IfDone text o
        → IfDone (b ++ text) (o >>= λ r. done (b ++ r.0, r.1, r.2))
    by_next w undefined i = tt
    by_next w (done r) i = record {
      text_is = ap (λ x. b ++ x) i.text_is;
      good = i.good;
      steady = i.steady;
    }

write_keys-IfDone :
    (ks : List KeyValue) (ws : List Written)
    → All IsSteady ws
    → IfDone (keys_text ks) (write_keys ks ws)
unfolding write_keys keys_text
write_keys-IfDone [] ws h = record { text_is = refl; good = refl; steady = h }
write_keys-IfDone (k ∷ ks) ws h =
    write_buffer-IfDone ws (key_value_buffer k) (keys_text ks) (write_keys ks) h
      (λ w s. write_keys-IfDone ks w s)

or_failed-IfDone :
    (o : Outcome (Bytes × List Written × Bool)) (b text : Bytes)
    (k : List Written → Outcome (Bytes × List Written × Bool))
    → IfDone b o
    → ((w : List Written) → All IsSteady w → IfDone text (k w))
    → IfDone (b ++ text) (o >>= λ r. or_failed r k)
or_failed-IfDone undefined b text k i next = tt
or_failed-IfDone (done (out, ws, false)) b text k i next = absurd (ground (arith, i.good))
or_failed-IfDone (done (out, ws, true)) b text k i next = by_next (k ws) (next ws i.steady)
  where
    by_next :
        (o : Outcome (Bytes × List Written × Bool))
        → IfDone text o
        → IfDone (b ++ text) (o >>= λ r. done (out ++ r.0, r.1, r.2))
    by_next undefined j = tt
    by_next (done r) j = record {
      text_is = ap (λ x. x ++ r.0) i.text_is ∙ ap (λ x. b ++ x) j.text_is;
      good = j.good;
      steady = j.steady;
    }

pub write_nodes-IfDone :
    (ns : List IniFileNode) (ws : List Written)
    → All IsSteady ws
    → IfDone (nodes_text ns) (write_nodes ns ws)
unfolding write_nodes nodes_text
write_nodes-IfDone [] ws h = record { text_is = refl; good = refl; steady = h }
write_nodes-IfDone (n ∷ ns) ws h =
    let ks = keys_of n.key_list in
    let rest : List Written → Outcome (Bytes × List Written × Bool) =
      λ w. write_keys ks w >>= (λ r. or_failed r (write_nodes ns)) in
    write_buffer-IfDone ws (node_buffer n) (keys_text ks ++ nodes_text ns) rest h (λ w s.
      or_failed-IfDone (write_keys ks w) (keys_text ks) (nodes_text ns) (write_nodes ns)
        (write_keys-IfDone ks w s) (λ w' s'. write_nodes-IfDone ns w' s'))
