-- ===== src/Api/Removes.antt =====
-- The lists of sections and of keys in memory, behind a deletion.
use ini.Api.Sections.{unlink_section}
use ini.Api.Values.{unlink_keyval}
use ini.Base.{
  All, All-mono, List, Option-cases, [], arith, inl, inr, none, some, ℕ, ◌++◌, ◌∷◌, ◌≡◌, ◌≢◌,
}
use ini.Memory.{World, final}
use ini.Store.{keyval_links, section_links}
use ini.Store.Chain.{IsChain-same, IsChain-skip, SkipsOver, StandsBehind, Unique, Unique-final}
use ini.Store.Find.{IsChain}

module _ (s k : ℕ) (w : World) where
  -- The node stood first.
  unlink_keyval_head :
      (w.keyvals k).pre ≡ none → ((unlink_keyval s k w).sections s).head ≡ (w.keyvals k).last
  unfolding unlink_keyval
  unlink_keyval_head h = elim (Option-cases (w.keyvals k).last) [
    | inl e ↦ ground arith
    | inr (l, e) ↦ ground arith
  ]

  unlink_keyval_others :
      (w.keyvals k).pre ≡ none
      → (j : ℕ) → k ≢ j
      → keyval_links (unlink_keyval s k w) j ≡ keyval_links w j
  unfolding unlink_keyval
  unlink_keyval_others h j ne = elim (Option-cases (w.keyvals k).last) [
    | inl e ↦ ground arith
    | inr (l, e) ↦ ground arith
  ]

  -- Another stood before it.
  unlink_keyval_keeps_head :
      (end : ℕ)
      → (w.keyvals k).pre ≡ some end
      → end ≢ k
      → ((unlink_keyval s k w).sections s).head ≡ (w.sections s).head
  unfolding unlink_keyval
  unlink_keyval_keeps_head end h ne = elim (Option-cases (w.keyvals k).last) [
    | inl e ↦ ground arith
    | inr (l, e) ↦ ground arith
  ]

  unlink_keyval-SkipsOver :
      (end : ℕ)
      → (w.keyvals k).pre ≡ some end
      → end ≢ k
      → SkipsOver (keyval_links w) (keyval_links (unlink_keyval s k w)) end k
  unfolding unlink_keyval
  unlink_keyval-SkipsOver end h ne = elim (Option-cases (w.keyvals k).last) [
    | inl e ↦ record { past = ground arith; elsewhere = λ j d n. ground arith }
    | inr (l, e) ↦ record { past = ground arith; elsewhere = λ j d n. ground arith }
  ]

  unlink_keyval-IsChain :
      (xs ys : List ℕ)
      → IsChain (keyval_links w) (w.sections s).head (xs ++ (k ∷ ys))
      → Unique (xs ++ (k ∷ ys))
      → StandsBehind (w.keyvals k).pre xs
      → IsChain
          (keyval_links (unlink_keyval s k w))
          ((unlink_keyval s k w).sections s).head
          (xs ++ ys)
  unlink_keyval-IsChain [] ys c u h =
      let same : All (λ j. keyval_links (unlink_keyval s k w) j ≡ keyval_links w j) ys =
        All-mono (λ j. k ≢ j) _ ys (unlink_keyval_others h) u.0 in
      rw (unlink_keyval_head h) (IsChain-same (keyval_links w) _ (w.keyvals k).last ys same c.1)
  unlink_keyval-IsChain (x ∷ xs) ys c u h =
      let ne = Unique-final x xs k ys u in
      rw (unlink_keyval_keeps_head (final x xs) h ne) (
        IsChain-skip (keyval_links w) (keyval_links (unlink_keyval s k w)) (w.sections s).head x xs
          k ys c u (unlink_keyval-SkipsOver (final x xs) h ne))

module _ (fd s : ℕ) (w : World) where
  -- The node stood first.
  unlink_section_head :
      (w.sections s).pre ≡ none → ((unlink_section fd s w).files fd).head ≡ (w.sections s).last
  unfolding unlink_section
  unlink_section_head h = elim (Option-cases (w.sections s).last) [
    | inl e ↦ ground arith
    | inr (l, e) ↦ ground arith
  ]

  unlink_section_others :
      (w.sections s).pre ≡ none
      → (j : ℕ) → s ≢ j
      → section_links (unlink_section fd s w) j ≡ section_links w j
  unfolding unlink_section
  unlink_section_others h j ne = elim (Option-cases (w.sections s).last) [
    | inl e ↦ ground arith
    | inr (l, e) ↦ ground arith
  ]

  -- Another stood before it.
  unlink_section_keeps_head :
      (end : ℕ)
      → (w.sections s).pre ≡ some end
      → end ≢ s
      → ((unlink_section fd s w).files fd).head ≡ (w.files fd).head
  unfolding unlink_section
  unlink_section_keeps_head end h ne = elim (Option-cases (w.sections s).last) [
    | inl e ↦ ground arith
    | inr (l, e) ↦ ground arith
  ]

  unlink_section-SkipsOver :
      (end : ℕ)
      → (w.sections s).pre ≡ some end
      → end ≢ s
      → SkipsOver (section_links w) (section_links (unlink_section fd s w)) end s
  unfolding unlink_section
  unlink_section-SkipsOver end h ne = elim (Option-cases (w.sections s).last) [
    | inl e ↦ record { past = ground arith; elsewhere = λ j d n. ground arith }
    | inr (l, e) ↦ record { past = ground arith; elsewhere = λ j d n. ground arith }
  ]

  unlink_section-IsChain :
      (xs ys : List ℕ)
      → IsChain (section_links w) (w.files fd).head (xs ++ (s ∷ ys))
      → Unique (xs ++ (s ∷ ys))
      → StandsBehind (w.sections s).pre xs
      → IsChain
          (section_links (unlink_section fd s w))
          ((unlink_section fd s w).files fd).head
          (xs ++ ys)
  unlink_section-IsChain [] ys c u h =
      let same : All (λ j. section_links (unlink_section fd s w) j ≡ section_links w j) ys =
        All-mono (λ j. s ≢ j) _ ys (unlink_section_others h) u.0 in
      rw (unlink_section_head h) (IsChain-same (section_links w) _ (w.sections s).last ys same c.1)
  unlink_section-IsChain (x ∷ xs) ys c u h =
      let ne = Unique-final x xs s ys u in
      rw (unlink_section_keeps_head (final x xs) h ne) (
        IsChain-skip (section_links w) (section_links (unlink_section fd s w)) (w.files fd).head x
          xs s ys c u (unlink_section-SkipsOver (final x xs) h ne))

-- Where no node stands twice in a list, and a node's `pre` is the one that stands before it, or
-- NULL at the head, the node is taken out, and all others stay, in their order: a key in the list
-- of its section, and a section in the list of its file.
pub removes-IsChain :
    (s k fd i : ℕ) (w : World) (xs ys secs rest : List ℕ)
    → IsChain (keyval_links w) (w.sections s).head (xs ++ (k ∷ ys))
    → Unique (xs ++ (k ∷ ys))
    → StandsBehind (w.keyvals k).pre xs
    → IsChain (section_links w) (w.files fd).head (secs ++ (i ∷ rest))
    → Unique (secs ++ (i ∷ rest))
    → StandsBehind (w.sections i).pre secs
    → IsChain
        (keyval_links (unlink_keyval s k w))
        ((unlink_keyval s k w).sections s).head
        (xs ++ ys)
      × IsChain
          (section_links (unlink_section fd i w))
          ((unlink_section fd i w).files fd).head
          (secs ++ rest)
removes-IsChain s k fd i w xs ys secs rest c u h c' u' h' =
    (unlink_keyval-IsChain s k w xs ys c u h, unlink_section-IsChain fd i w secs rest c' u' h')
