-- ===== src/MergeSort/Tests.antt =====
-- Two numbers.
use gjworks.Common.{◌≡◌, List, [], ◌∷◌, arith}
use gjworks.Machine.{fault}
use gjworks.Integer.{ℤ, pos}
use gjworks.MergeSort.{merge_sort}
use gjworks.MergeSort.Bounds.{merge_sort-fault}

abbrev numbers : List ℤ
numbers = pos 2 ∷ pos 1 ∷ []

merge_sort-fault_example : merge_sort numbers numbers 2 ≡ fault
merge_sort-fault_example = merge_sort-fault numbers numbers 2 (omega arith)
