-- ===== src/Merging.antt =====
-- The loops over runs of an array that the merges of Duplicate_removal_arrays/
-- duplicate_removal_method_1.c and Basic Datastructures/MergeSort/mergesort.c have in common.
pub mod Runs
use gjworks.Common.{ℕ, zero, suc, ◌+◌, Bool, true, false, List, [], ◌∷◌, leb, if◌then◌else◌}
use gjworks.Machine.{Run, ok, fault, out_of_fuel, ◌>>=◌}
use gjworks.Machine.Array.{read, write}
use gjworks.Integer.{ℤ}

-- `while (i <= end) { temp[temp_pos] = arr[i]; temp_pos++; i++; }`
unfoldable pub copy_run : ℕ → List ℤ → List ℤ → ℕ → ℕ → ℕ → Run (List ℤ × ℕ)
unfolding read write
copy_run zero arr temp i end temp_pos = out_of_fuel
copy_run (suc fuel) arr temp i end temp_pos =
    let next : Run (List ℤ × ℕ) = read arr i >>= λ v.
    write temp temp_pos v >>= λ t. copy_run fuel arr t (i + 1) end (temp_pos + 1) in
    if leb i end then next else ok (temp, temp_pos)

-- `arr[right] = temp[right]; right--;`, a number of times. The second argument is `right + 1`, and
-- the place -1 is outside the array.
unfoldable pub copy_back : ℕ → ℕ → List ℤ → List ℤ → Run (List ℤ)
unfolding read write
copy_back zero right arr temp = ok arr
copy_back (suc times) zero arr temp = fault
copy_back (suc times) (suc right) arr temp =
    read temp right >>= λ v. write arr right v >>= λ a. copy_back times right a temp
