-- ===== src/Linked/Links/Delete.antt =====
-- Deleting a node of a list, v1.0.0/inifile.c.
use mathlib.Core.List.{append-nil}
use ini.Base.{
  List, [], ap, arith, false, inl, inr, length, none, refl, some, subst, sym, true, ℕ, ◌++◌, ◌<◌,
  ◌∙◌, ◌∷◌, ◌≡◌,
}
use ini.Line.KeyValue.{front}
use ini.Linked.{done, list_is_empty}
use ini.Linked.Links.{LinkList, free, list_key_value_node_delete, list_node_delete, ptr_eq, reaches}
use ini.Linked.Links.Segment.{Distinct-split, IsList, row-cases}
use ini.Linked.Links.Unlink.{Unlinked, unlink_first, unlink_last, unlink_middle}
use ini.Linked.Links.Walk.{ptr_eq_last, reaches_there}

module _ {A : Type 0} (s : LinkList A) (i : ℕ) (a : A) where
  unlink_anywhere :
      (xs ys : List (ℕ × A))
      → IsList s (xs ++ ((i, a) ∷ ys))
      → list_is_empty (xs ++ ys) ≡ true
      → Unlinked s i a (xs ++ ys)
  unlink_anywhere xs ys v more = elim (row-cases xs) [
    | inl e ↦
        subst (λ l. Unlinked s i a (l ++ ys)) (sym e)
          (by_back ys (subst (λ l. IsList s (l ++ ((i, a) ∷ ys))) e v)
            (subst (λ (l : List (ℕ × A)). list_is_empty (l ++ ys) ≡ true) e more))
    | inr (zs, z, e) ↦
        subst (λ l. Unlinked s i a (l ++ ys)) (sym e)
          (by_front zs z ys (subst (λ l. IsList s (l ++ ((i, a) ∷ ys))) e v))
  ]
    where
      by_back :
          (ys : List (ℕ × A)) → IsList s ((i, a) ∷ ys) → list_is_empty ys ≡ true → Unlinked s i a ys
      by_back [] v more = absurd cc
      by_back (y ∷ ys) v more = unlink_first s i a y ys v

      by_front :
          (zs : List (ℕ × A)) (z : ℕ × A) (ys : List (ℕ × A))
          → IsList s ((zs ++ (z ∷ [])) ++ ((i, a) ∷ ys))
          → Unlinked s i a ((zs ++ (z ∷ [])) ++ ys)
      by_front zs z [] v =
          subst (Unlinked s i a) (sym (append-nil (zs ++ (z ∷ [])))) (unlink_last s i a zs z v)
      by_front zs z (y ∷ ys) v = unlink_middle s i a zs z y ys v

  -- With another node the head is not the tail.
  ends_differ :
      (xs ys : List (ℕ × A))
      → IsList s (xs ++ ((i, a) ∷ ys))
      → list_is_empty (xs ++ ys) ≡ true
      → ptr_eq s.head s.tail ≡ false
  ends_differ [] [] v more = absurd cc
  ends_differ [] (y ∷ ys) v more = rw (v.head_is, v.tail_is) (ptr_eq_last i none y ys v.distinct.0)
  ends_differ (x ∷ []) ys v more =
      rw (v.head_is, v.tail_is) (ptr_eq_last x.0 none (i, a) ys v.distinct.0)
  ends_differ (x ∷ z ∷ xs) ys v more =
      rw (v.head_is, v.tail_is) (ptr_eq_last x.0 none z (xs ++ ((i, a) ∷ ys)) v.distinct.0)

  reached :
      (steps : ℕ) (xs ys : List (ℕ × A))
      → IsList s (xs ++ ((i, a) ∷ ys))
      → length xs < steps
      → reaches steps s.links s.head i ≡ done true
  reached steps xs ys v l =
      let (front, rest, apart) = Distinct-split xs ((i, a) ∷ ys) v.distinct in
      ap (λ h. reaches steps s.links h i) v.head_is
      ∙ reaches_there steps s.links none xs (i, a) ys none v.row apart.0 l

  -- Deleting a node that is not the only one of its list, a key or a section, leaves the list of the
  -- others in their order, with the links of its neighbours, the head and the tail set anew, and
  -- frees that node, when the walk is given as many steps as there are nodes before it, and one.
  pub list_node_delete-IsList :
      (steps : ℕ) (xs ys : List (ℕ × A))
      → IsList s (xs ++ ((i, a) ∷ ys))
      → list_is_empty (xs ++ ys) ≡ true
      → length xs < steps
      → (s' : LinkList A) × (list_node_delete steps s i ≡ done s')
        × (list_key_value_node_delete steps s i ≡ done s')
        × IsList s' (xs ++ ys)
        × (s'.links i ≡ none)
  unfolding list_node_delete list_key_value_node_delete
  list_node_delete-IsList steps xs ys v more l =
      let (s', e, list, freed) = unlink_anywhere xs ys v more in
      let walk = reached steps xs ys v l in
      let differ = ends_differ xs ys v more in
      (s', rw (walk, differ) e, rw (walk, differ) e, list, freed)

  -- The only node: the list of keys is empty after it, but the list of nodes goes on pointing to the
  -- node that was freed.
  pub list_node_delete_only :
      (steps : ℕ)
      → IsList s ((i, a) ∷ [])
      → 0 < steps
      → (s' : LinkList A) × (list_key_value_node_delete steps s i ≡ done s')
        × IsList s' []
        × (t : LinkList A) × (list_node_delete steps s i ≡ done t)
        × (t.head ≡ some i)
        × (t.links i ≡ none)
  unfolding list_node_delete list_key_value_node_delete
  list_node_delete_only steps v l =
      let walk = reached steps [] [] v l in
      let same : ptr_eq s.head s.tail ≡ true = rw (v.head_is, v.tail_is) (ground arith) in
      let gone : free s.links i i ≡ none = ground arith in
      (
        record s { links = free s.links i; head = none; tail = none },
        rw (walk, same) refl,
        record { head_is = refl; tail_is = refl; row = tt; distinct = tt },
        record s { links = free s.links i },
        rw (walk, same) refl,
        v.head_is,
        gone,
      )
