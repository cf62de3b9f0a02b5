-- ===== src/HeapSort/Tests.antt =====
-- The numbers 3 -1 2, and a fourth that is not sorted.
use gjworks.Common.{◌≡◌, refl, List, [], ◌∷◌, arith}
use gjworks.Machine.{ok}
use gjworks.Integer.{ℤ, pos, negsuc}
use gjworks.HeapSort.{heapsort}
use gjworks.HeapSort.Sorted.{Sorted, heapsort-Sorted}

abbrev numbers : List ℤ
numbers = pos 3 ∷ negsuc 0 ∷ pos 2 ∷ pos 0 ∷ []

heapsort_run : heapsort 4 numbers 3 ≡ ok (negsuc 0 ∷ pos 2 ∷ pos 3 ∷ pos 0 ∷ [])
unfolding heapsort
heapsort_run = refl

heapsort-Sorted_example : (b : List ℤ) × (heapsort 4 numbers 3 ≡ ok b) × Sorted numbers b 3
heapsort-Sorted_example = heapsort-Sorted 4 numbers 3 (omega arith) (omega arith)
