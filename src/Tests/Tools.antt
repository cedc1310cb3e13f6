-- ===== src/Tests/Tools.antt =====
-- The string helpers, the list of keys and values and the sorting at concrete inputs.
use ini.Base.{[], ℕ, ◌∷◌, ◌≡◌, ◌≢◌}
use ini.Lottery.{bubble_sort}
use ini.Lottery.Sorted.{IsSorted, bubble_sort-IsSorted, count}
use ini.Tests.Runs.{codes}
use ini.Text.{c_str}
use ini.Tool.{KeyValueNode, add_keyvalue_after_head, find_value_after_head, framestr_isall_digital}
use ini.Tool.Laws.{FindsValue, IsNumber, find_value-add, framestr_isall_digital-IsNumber}

framestr_isall_digital-IsNumber_example :
    (IsNumber (codes "-12") → framestr_isall_digital (codes "-12") ≡ 3)
    × (framestr_isall_digital (codes "-12") ≢ 0 → IsNumber (c_str (codes "-12")))
framestr_isall_digital-IsNumber_example = framestr_isall_digital-IsNumber (codes "-12")

abbrev node_a : KeyValueNode
node_a = record { key = codes "a"; value = codes "1" }

abbrev node_b : KeyValueNode
node_b = record { key = codes "b"; value = codes "2" }

find_value-add_example :
    FindsValue
      (codes "b")
      (node_a ∷ node_b ∷ [])
      (find_value_after_head (add_keyvalue_after_head (node_a ∷ []) node_b) (codes "b"))
find_value-add_example = find_value-add (node_a ∷ []) node_b (codes "b")

bubble_sort-IsSorted_example :
    IsSorted (bubble_sort (9 ∷ 3 ∷ 7 ∷ 3 ∷ []))
    × ((k : ℕ) → count k (bubble_sort (9 ∷ 3 ∷ 7 ∷ 3 ∷ [])) ≡ count k (9 ∷ 3 ∷ 7 ∷ 3 ∷ []))
bubble_sort-IsSorted_example = bubble_sort-IsSorted (9 ∷ 3 ∷ 7 ∷ 3 ∷ [])
