-- ===== src/ArrayMerge.antt =====
-- array_merge_thread/array_merge_thread.c: the function of the threads, each of which places one
-- number of two arrays in the third. The fields `size` are the lengths of the lists.
pub mod Search
pub mod Threads
pub mod Placing
pub mod Order
pub mod Main
mod Tests
use gjworks.Common.{
  ℕ, zero, suc, ◌+◌, ◌-◌, ◌/◌, Bool, true, false, List, [], ◌∷◌, Option, none, some, ltb,
  if◌then◌else◌, length, get_elem?, set,
}
use gjworks.Machine.{Run, ok, fault, out_of_fuel, ◌>>=◌}
use gjworks.Machine.Array.{read}
use gjworks.Integer.{ℤ, less}

-- The loop of the binary search for `x`, and `middle` after it; before its first round that is
-- not set. The `while` ends by its condition or by the `break`.
unfoldable pub search : ℕ → ℤ → List ℤ → ℕ → ℕ → Option ℕ → Run ℕ
unfolding read less
search zero x a lower upper before = out_of_fuel
search (suc fuel) x a lower upper before =
    let middle : ℕ = (upper + lower) / 2 in
    let right : Run ℕ = search fuel x a (middle + 1) upper (some middle) in
    let left : Run ℕ = search fuel x a lower middle (some middle) in
    let again : Run ℕ = search fuel x a lower upper (some middle) in
    if ltb lower upper
    then (read a middle >>= λ m.
        if less m x
        then (read a (middle + 1) >>= λ n. if less x n then ok middle else right)
        else if less x m
        then left
        else again)
    else elim before [ none ↦ fault | some m ↦ ok m ]

-- The position of `own[cnt]`, from its place among the numbers of the other array.
unfoldable pub position : ℕ → List ℤ → List ℤ → ℕ → Run (ℕ × ℤ)
unfolding search read less
position fuel own other cnt = read own cnt >>= λ x. read other 0 >>= λ first.
    let later : Run (ℕ × ℤ) = read other (length other - 1) >>= λ last.
    let found : Run (ℕ × ℤ) =
      search fuel x other 0 (length other - 1) none >>= λ middle. ok (cnt + middle + 1, x) in
    if less last x then ok (length other + cnt, x) else found in
    if less x first then ok (cnt, x) else later

-- threadfunc, from the count it has read on: the third array after it.
unfoldable pub threadfunc : ℕ → List ℤ → List ℤ → ℕ → List ℤ → Run (List ℤ)
unfolding position
threadfunc fuel arr1 arr2 count arr3 =
    let placed : Run (ℕ × ℤ) =
      if ltb count (length arr1)
      then position fuel arr1 arr2 count
      else position fuel arr2 arr1 (count - length arr1) in
    placed >>= λ p. if ltb p.0 (length arr3) then ok (set arr3 p.0 p.1) else fault
