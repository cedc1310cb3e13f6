-- ===== src/Tests/Links.antt =====
-- A list of three nodes in memory, and the theorems on its links.
use ini.Base.{List, [], arith, if◌then◌else◌, none, refl, some, ℕ, ◌++◌, ◌==◌, ◌∷◌, ◌≡◌}
use ini.Linked.{done}
use ini.Linked.Links.{
  Link, LinkList, Links, destroy_list, list_insert, list_key_value_node_delete, list_node_delete,
}
use ini.Linked.Links.Delete.{list_node_delete-IsList}
use ini.Linked.Links.Destroy.{Frees, destroy_list-Frees}
use ini.Linked.Links.Insert.{list_insert-IsList}
use ini.Linked.Links.Segment.{IsList}

abbrev link_a : Link ℕ
link_a = record { payload = 10; pre = none; next = some 7 }

abbrev link_b : Link ℕ
link_b = record { payload = 20; pre = some 3; next = some 5 }

abbrev link_c : Link ℕ
link_c = record { payload = 30; pre = some 7; next = none }

-- Not in the list.
abbrev link_d : Link ℕ
link_d = record { payload = 40; pre = none; next = none }

abbrev memory_a : Links ℕ
memory_a i =
    if i == 3
    then some link_a
    else if i == 7
    then some link_b
    else if i == 5
    then some link_c
    else if i == 9
    then some link_d
    else none

abbrev list_a : LinkList ℕ
list_a = record { links = memory_a; head = some 3; tail = some 5; len = 3 }

abbrev row_a : List (ℕ × ℕ)
row_a = (3, 10) ∷ (7, 20) ∷ (5, 30) ∷ []

list_a-IsList : IsList list_a row_a
list_a-IsList = record {
  head_is = refl;
  tail_is = refl;
  row = (refl, (refl, (refl, tt)));
  distinct = ((λ e. omega arith, (λ e. omega arith, tt)), ((λ e. omega arith, tt), (tt, tt)));
}

list_insert-IsList_example :
    (s' : LinkList ℕ) × (list_insert list_a 9 ≡ done s') × IsList s' (row_a ++ ((9, 40) ∷ []))
list_insert-IsList_example =
    list_insert-IsList list_a 9 link_d refl row_a list_a-IsList
      (λ e. omega arith, (λ e. omega arith, (λ e. omega arith, tt)))

list_node_delete-IsList_example :
    (s' : LinkList ℕ) × (list_node_delete 3 list_a 7 ≡ done s')
    × (list_key_value_node_delete 3 list_a 7 ≡ done s')
    × IsList s' ((3, 10) ∷ (5, 30) ∷ [])
    × (s'.links 7 ≡ none)
list_node_delete-IsList_example =
    list_node_delete-IsList list_a 7 20 3 ((3, 10) ∷ []) ((5, 30) ∷ []) list_a-IsList refl
      (omega arith)

destroy_list-Frees_example :
    (m' : Links ℕ) × (destroy_list 3 list_a ≡ done m') × Frees row_a list_a.links m'
destroy_list-Frees_example = destroy_list-Frees 3 list_a row_a list_a-IsList (omega arith)
