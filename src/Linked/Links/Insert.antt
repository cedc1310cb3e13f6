-- ===== src/Linked/Links/Insert.antt =====
-- Inserting a node, v1.0.0/inifile.c.
use ini.Base.{
  All-append_right, List, Option, [], ap, arith, inl, inr, none, refl, some, subst, sym, update, ℕ,
  ◌++◌, ◌+◌, ◌∙◌, ◌∷◌, ◌≡◌, ◌≢◌,
}
use ini.Linked.{done}
use ini.Linked.Links.{Link, LinkList, Links, insert_at, list_insert, node_at, set_node}
use ini.Linked.Links.Segment.{
  Distinct-append, Distinct-split, IsList, IsRow, IsRow-append, IsRow-elsewhere, IsRow-last,
  IsRow-split, NotIn, first_or, last_or, last_or-append, row-cases,
}

module _ {A : Type 0} where
  pub node_at_there : (m : Links A) (i : ℕ) {n : Link A} → m i ≡ some n → node_at m i ≡ done n
  unfolding node_at
  node_at_there m i e = rw (node_at, e) refl

  pub node_at_set : (m : Links A) (i : ℕ) (n : Link A) → node_at (set_node m i n) i ≡ done n
  unfolding node_at
  node_at_set m i n = ground arith

  pub set_node_other : (m : Links A) (i j : ℕ) (v : Option (Link A)) → i ≢ j → update m i v j ≡ m j
  set_node_other m i j v h = ground arith

  pub IsRow-at :
      (m : Links A) (p : Option ℕ) (xs : List (ℕ × A)) (x : ℕ × A) (ys : List (ℕ × A))
      (e : Option ℕ)
      → IsRow m p (xs ++ (x ∷ ys)) e
      → m x.0 ≡ some (record { payload = x.1; pre = last_or p xs; next = first_or ys e })
  IsRow-at m p xs x ys e r = (IsRow-split m p xs (x ∷ ys) e r).1.0

  -- The node is there, and it is not yet in the list.
  module _ (s : LinkList A) (i : ℕ) (n : Link A) (there : s.links i ≡ some n) where
    insert_start : list_insert s i ≡ insert_at s i n s.head
    unfolding list_insert
    insert_start = rw (node_at_there s.links i there) refl

    insert_first :
        IsList s []
        → (s' : LinkList A) × (list_insert s i ≡ done s') × IsList s' ((i, n.payload) ∷ [])
    unfolding list_insert
    insert_first v =
        let new : Link A = record n { pre = none; next = none } in
        let s' : LinkList A = record {
          links = set_node s.links i new;
          head = some i;
          tail = some i;
          len = s.len + 1;
        } in
        let new_there : set_node s.links i new i ≡ some new = ground arith in
        (
          s',
          insert_start ∙ ap (insert_at s i n) v.head_is,
          record { head_is = refl; tail_is = refl; row = (new_there, tt); distinct = (tt, tt) },
        )

    insert_behind :
        (ys : List (ℕ × A)) (y : ℕ × A)
        → IsList s (ys ++ (y ∷ []))
        → NotIn i (ys ++ (y ∷ []))
        → (s' : LinkList A) × (list_insert s i ≡ done s')
          × IsList s' ((ys ++ (y ∷ [])) ++ ((i, n.payload) ∷ []))
    unfolding list_insert
    insert_behind ys y v apart =
        let xs = ys ++ (y ∷ []) in
        let t = y.0 in
        let n1 : Link A = record n { pre = some t } in
        let m1 = set_node s.links i n1 in
        let tail_node : Link A = record { payload = y.1; pre = last_or none ys; next = some i } in
        let m2 = set_node m1 t tail_node in
        let n2 : Link A = record n1 { next = none } in
        let m3 = set_node m2 i n2 in
        let parts = Distinct-split ys (y ∷ []) v.distinct in
        let other : t ≢ i = (All-append_right _ ys (y ∷ []) apart).0 in
        let back : i ≢ t = λ q. other (sym q) in
        let old_tail = IsRow-at s.links none ys y [] none v.row in
        let tail_at : node_at m1 t
            ≡ done (record { payload = y.1; pre = last_or none ys; next = none }) =
          node_at_there m1 t (set_node_other s.links i t (some n1) back ∙ old_tail) in
        let new_at : node_at m2 i ≡ done n1 =
          node_at_there m2 i (set_node_other m1 t i (some tail_node) other ∙ ground arith) in
        let row1 = IsRow-elsewhere s.links i (some n1) none xs none apart v.row in
        let row2 = IsRow-last m1 none ys y none (some i) parts.2.0 row1 in
        let row3 = IsRow-elsewhere m2 i (some n2) none xs (some i) apart row2 in
        let last_is = last_or-append none ys y in
        let at_end : m3 i
            ≡ some (record { payload = n.payload; pre = last_or none xs; next = none }) =
          rw last_is (ground arith) in
        let s' : LinkList A = record s { links = m3; tail = some i; len = s.len + 1 } in
        let (h, head_there) : (h : ℕ) × (s.head ≡ some h) = by_first ys v.head_is in
        let tail_there : s.tail ≡ some t = v.tail_is ∙ last_is in
        (
          s',
          insert_start ∙ (ap (insert_at s i n) head_there ∙ rw (tail_there, tail_at, new_at) refl),
          record {
            head_is = v.head_is ∙ by_append ys;
            tail_is = sym (last_or-append none xs (i, n.payload));
            row = IsRow-append m3 none xs ((i, n.payload) ∷ []) none row3 (at_end, tt);
            distinct = Distinct-append xs ((i, n.payload) ∷ []) v.distinct (tt, tt) (apart, tt);
          },
        )
      where
        by_first :
            (ys : List (ℕ × A))
            → s.head ≡ first_or (ys ++ (y ∷ [])) none
            → (h : ℕ) × (s.head ≡ some h)
        by_first [] e = (y.0, e)
        by_first (x ∷ ys) e = (x.0, e)

        by_append :
            (ys : List (ℕ × A))
            → first_or (ys ++ (y ∷ [])) none
              ≡ first_or ((ys ++ (y ∷ [])) ++ ((i, n.payload) ∷ [])) none
        by_append [] = refl
        by_append (x ∷ ys) = refl

    abbrev Inserted : List (ℕ × A) → Type 0
    Inserted l =
        (s' : LinkList A) × (list_insert s i ≡ done s') × IsList s' (l ++ ((i, n.payload) ∷ []))

    -- Inserting a node that is not in the list adds it behind all others: the links in both
    -- directions, the head and the tail are those of the longer list, and every other node keeps
    -- what it holds.
    pub list_insert-IsList :
        (xs : List (ℕ × A))
        → IsList s xs
        → NotIn i xs
        → (s' : LinkList A) × (list_insert s i ≡ done s') × IsList s' (xs ++ ((i, n.payload) ∷ []))
    list_insert-IsList xs v apart = elim (row-cases xs) [
      | inl e ↦
          let first = insert_first (subst (IsList s) e v) in subst (λ l. Inserted l) (sym e) first
      | inr (ys, y, e) ↦
          let behind = insert_behind ys y (subst (IsList s) e v) (subst (NotIn i) e apart) in
          subst (λ l. Inserted l) (sym e) behind
    ]
