-- ===== src/Linked/Links/Unlink.antt =====
-- Taking a node out of the links, v1.0.0/inifile.c, with its neighbours.
use ini.Base.{
  All-append, All-append_right, All-mono, List, Option, [], arith, none, refl, some, subst, sym, ℕ,
  ◌++◌, ◌∙◌, ◌∷◌, ◌≡◌, ◌≢◌,
}
use ini.Linked.{done}
use ini.Linked.Links.{Link, LinkList, Links, free, set_node, unlink, unlink_after, unlink_before}
use ini.Linked.Links.Insert.{IsRow-at, node_at_set, node_at_there, set_node_other}
use ini.Linked.Links.Segment.{
  Distinct-append, Distinct-split, IsList, IsRow, IsRow-append, IsRow-elsewhere, IsRow-first,
  IsRow-last, IsRow-split, NotIn, first_or, last_or, last_or-append,
}

module _ {A : Type 0} (s : LinkList A) (i : ℕ) (a : A) where
  -- The node is gone and the others are the list.
  abbrev pub Unlinked : List (ℕ × A) → Type 0
  Unlinked rest = (s' : LinkList A) × (unlink s i ≡ done s') × IsList s' rest × (s'.links i ≡ none)

  gone : (m : Links A) → free m i i ≡ none
  gone m = ground arith

  pub unlink_first :
      (y : ℕ × A) (ys : List (ℕ × A)) → IsList s ((i, a) ∷ y ∷ ys) → Unlinked (y ∷ ys)
  unfolding unlink unlink_before unlink_after
  unlink_first y ys v =
      let m = s.links in
      let new : Link A = record { payload = y.1; pre = none; next = first_or ys none } in
      let m1 = set_node m y.0 new in
      let m2 = set_node m1 y.0 new in
      let other : y.0 ≢ i = v.distinct.0.0 in
      let own = v.row.0 in
      let own_at = node_at_there m i own in
      let next_at = node_at_there m y.0 v.row.1.0 in
      let own_at1 = node_at_there m1 i (set_node_other m y.0 i (some new) other ∙ own) in
      let next_at1 = node_at_set m y.0 new in
      let row1 = IsRow-first m (some i) none y ys none v.distinct.1.0 v.row.1 in
      let row2 = IsRow-first m1 none none y ys none v.distinct.1.0 row1 in
      let s' : LinkList A = record s { links = free m2 i; head = some y.0 } in
      (
        s',
        rw (own_at, next_at, own_at1, next_at1) refl,
        record {
          head_is = refl;
          tail_is = v.tail_is;
          row = IsRow-elsewhere m2 i none none (y ∷ ys) none v.distinct.0 row2;
          distinct = v.distinct.1;
        },
        gone m2,
      )

  pub unlink_last :
      (xs : List (ℕ × A)) (x : ℕ × A)
      → IsList s ((xs ++ (x ∷ [])) ++ ((i, a) ∷ []))
      → Unlinked (xs ++ (x ∷ []))
  unfolding unlink unlink_before unlink_after
  unlink_last xs x v =
      let front = xs ++ (x ∷ []) in
      let m = s.links in
      let new : Link A = record { payload = x.1; pre = last_or none xs; next = none } in
      let m1 = set_node m x.0 new in
      let m2 = set_node m1 x.0 new in
      let (front_distinct, own_distinct, apart) = Distinct-split front ((i, a) ∷ []) v.distinct in
      let (before_distinct, x_distinct, x_apart) = Distinct-split xs (x ∷ []) front_distinct in
      let other : x.0 ≢ i = (All-append_right _ xs (x ∷ []) apart.0).0 in
      let (front_row, own_row) = IsRow-split m none front ((i, a) ∷ []) none v.row in
      let last_is = last_or-append none xs x in
      let own : m i ≡ some (record { payload = a; pre = some x.0; next = none }) =
        subst (λ p. m i ≡ some (record { payload = a; pre = p; next = none })) last_is own_row.0 in
      let own_at = node_at_there m i own in
      let before_at = node_at_there m x.0 (IsRow-at m none xs x [] (some i) front_row) in
      let own_at1 = node_at_there m1 i (set_node_other m x.0 i (some new) other ∙ own) in
      let before_at1 = node_at_set m x.0 new in
      let row1 = IsRow-last m none xs x (some i) none x_apart.0 front_row in
      let row2 = IsRow-last m1 none xs x none none x_apart.0 row1 in
      let s' : LinkList A = record s { links = free m2 i; tail = some x.0 } in
      (
        s',
        rw (own_at, before_at, own_at1, before_at1) refl,
        record {
          head_is = v.head_is ∙ by_append xs;
          tail_is = sym last_is;
          row = IsRow-elsewhere m2 i none none front none apart.0 row2;
          distinct = front_distinct;
        },
        gone m2,
      )
    where
      by_append :
          (xs : List (ℕ × A))
          → first_or ((xs ++ (x ∷ [])) ++ ((i, a) ∷ [])) none ≡ first_or (xs ++ (x ∷ [])) none
      by_append [] = refl
      by_append (z ∷ xs) = refl

  pub unlink_middle :
      (xs : List (ℕ × A)) (x y : ℕ × A) (ys : List (ℕ × A))
      → IsList s ((xs ++ (x ∷ [])) ++ ((i, a) ∷ y ∷ ys))
      → Unlinked ((xs ++ (x ∷ [])) ++ (y ∷ ys))
  unfolding unlink unlink_before unlink_after
  unlink_middle xs x y ys v =
      let front = xs ++ (x ∷ []) in
      let back = y ∷ ys in
      let m = s.links in
      let new : Link A = record { payload = x.1; pre = last_or none xs; next = some y.0 } in
      let m1 = set_node m x.0 new in
      let after : Link A = record { payload = y.1; pre = some x.0; next = first_or ys none } in
      let m2 = set_node m1 y.0 after in
      let (front_distinct, rest_distinct, apart) =
        Distinct-split front ((i, a) ∷ back) v.distinct in
      let (before_distinct, x_distinct, x_apart) = Distinct-split xs (x ∷ []) front_distinct in
      let other : x.0 ≢ i = (All-append_right _ xs (x ∷ []) apart.0).0 in
      let x_not : (z : ℕ × A) → NotIn z.0 front → z.0 ≢ x.0 =
        λ z h q. (All-append_right _ xs (x ∷ []) h).0 (sym q) in
      let back_not : NotIn x.0 back = All-mono _ _ back x_not apart.1 in
      let (front_row, rest_row) = IsRow-split m none front ((i, a) ∷ back) none v.row in
      let last_is = last_or-append none xs x in
      let own : m i ≡ some (record { payload = a; pre = some x.0; next = some y.0 }) =
        subst (λ p. m i ≡ some (record { payload = a; pre = p; next = some y.0 })) last_is
          rest_row.0 in
      let own_at = node_at_there m i own in
      let before_at = node_at_there m x.0 (IsRow-at m none xs x [] (some i) front_row) in
      let own_at1 = node_at_there m1 i (set_node_other m x.0 i (some new) other ∙ own) in
      let y_there = set_node_other m x.0 y.0 (some new) (λ q. back_not.0 (sym q)) ∙ rest_row.1.0 in
      let next_at1 = node_at_there m1 y.0 y_there in
      let front1 = IsRow-last m none xs x (some i) (some y.0) x_apart.0 front_row in
      let front2 = IsRow-elsewhere m1 y.0 (some after) none front (some y.0) apart.1.0 front1 in
      let back1 = IsRow-elsewhere m x.0 (some new) (some i) back none back_not rest_row.1 in
      let back2 = IsRow-first m1 (some i) (some x.0) y ys none rest_distinct.1.0 back1 in
      let row2 =
        IsRow-append m2 none front back none front2
          (subst (λ p. IsRow m2 p back none) (sym last_is) back2) in
      let not_there : NotIn i (front ++ back) = All-append _ front back apart.0 rest_distinct.0 in
      let s' : LinkList A = record s { links = free m2 i } in
      (
        s',
        rw (own_at, before_at, own_at1, next_at1) refl,
        record {
          head_is = v.head_is ∙ by_append xs;
          tail_is = v.tail_is ∙ by_last none front;
          row = IsRow-elsewhere m2 i none none (front ++ back) none not_there row2;
          distinct = Distinct-append front back front_distinct rest_distinct.1 apart.1;
        },
        gone m2,
      )
    where
      by_append :
          (xs : List (ℕ × A))
          → first_or ((xs ++ (x ∷ [])) ++ ((i, a) ∷ y ∷ ys)) none
            ≡ first_or ((xs ++ (x ∷ [])) ++ (y ∷ ys)) none
      by_append [] = refl
      by_append (z ∷ xs) = refl

      by_last :
          (p : Option ℕ) (zs : List (ℕ × A))
          → last_or p (zs ++ ((i, a) ∷ y ∷ ys)) ≡ last_or p (zs ++ (y ∷ ys))
      by_last p [] = refl
      by_last p (z ∷ zs) = by_last (some z.0) zs
