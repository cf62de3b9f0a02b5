-- ===== src/HeapSort.antt =====
-- Basic Datastructures/Heap/main.c: max_heapify, build_max_heap and heapsort. `n` is the size that
-- they take, which may be less than the length of the array.
pub mod Heaps
pub mod Heapify
pub mod Sorted
mod Tests
use gjworks.Common.{
  ℕ, zero, suc, ◌+◌, ◌-◌, ◌*◌, ◌/◌, Bool, true, false, List, ◌==◌, ltb, if◌then◌else◌,
}
use gjworks.Machine.{Run, ok, fault, out_of_fuel, ◌>>=◌}
use gjworks.Machine.Array.{read, write, swap}
use gjworks.Integer.{ℤ, less}

-- `if (c < n && a[c] > a[largest]) largest = c;`
unfoldable pub larger : List ℤ → ℕ → ℕ → ℕ → Run ℕ
unfolding read less
larger a n c largest =
    let tested : Run ℕ =
      read a c >>= λ x. read a largest >>= λ y. ok (if less y x then c else largest) in
    if ltb c n then tested else ok largest

-- The largest of `a[i]` and its children.
unfoldable pub largest_of : List ℤ → ℕ → ℕ → Run ℕ
unfolding larger
largest_of a i n = larger a n (2 * i + 1) i >>= λ l. larger a n (2 * i + 2) l

-- The recursion is on fuel.
unfoldable pub max_heapify : ℕ → List ℤ → ℕ → ℕ → Run (List ℤ)
unfolding largest_of swap
max_heapify zero a i n = out_of_fuel
max_heapify (suc fuel) a i n = largest_of a i n >>= λ largest.
    let moved : Run (List ℤ) = swap a i largest >>= λ b. max_heapify fuel b largest n in
    if largest == i then ok a else moved

-- `for (i = start; i >= 0; i--) max_heapify(a, i, n);`
unfoldable pub build_from : ℕ → List ℤ → ℕ → ℕ → Run (List ℤ)
unfolding max_heapify
build_from fuel a zero n = max_heapify fuel a 0 n
build_from fuel a (suc i) n = max_heapify fuel a (suc i) n >>= λ b. build_from fuel b i n

unfoldable pub build_max_heap : ℕ → List ℤ → ℕ → Run (List ℤ)
unfolding build_from
build_max_heap fuel a n = build_from fuel a (n / 2) n

-- The loop of heapsort, where `n` is `i + 1`.
unfoldable pub sort_from : ℕ → List ℤ → ℕ → Run (List ℤ)
unfolding max_heapify swap
sort_from fuel a zero = ok a
sort_from fuel a (suc i) =
    swap a 0 (suc i) >>= λ b. max_heapify fuel b 0 (suc i) >>= λ c. sort_from fuel c i

unfoldable pub heapsort : ℕ → List ℤ → ℕ → Run (List ℤ)
unfolding build_max_heap sort_from
heapsort fuel a n = build_max_heap fuel a n >>= λ b. sort_from fuel b (n - 1)
