-- ===== src/DupRemoval.antt =====
-- Duplicate_removal_arrays/duplicate_removal_method_1.c. The int `dup` is counted up to the length
-- of an array at most.
pub mod Union
pub mod Sets
pub mod Distinct
mod Tests
use gjworks.Common.{
  ℕ, zero, suc, ◌+◌, ◌-◌, ◌/◌, Bool, true, false, ◌&&◌, List, [], ◌∷◌, leb, ltb, ◌==◌,
  if◌then◌else◌,
}
use gjworks.Machine.{Run, ok, fault, out_of_fuel, ◌>>=◌}
use gjworks.Machine.Array.{read, write}
use gjworks.Integer.{ℤ, pos, less, same}
use gjworks.Merging.{copy_run, copy_back}

-- The three loops of `merge` that fill `temp`; `dup` counts the numbers that both runs have.
unfoldable pub fill_temp : ℕ → List ℤ → List ℤ → ℕ → ℕ → ℕ → ℕ → ℕ → ℕ → Run (List ℤ × ℕ)
unfolding read write less same
fill_temp zero arr temp left left_end mid right temp_pos dup = out_of_fuel
fill_temp (suc fuel) arr temp left left_end mid right temp_pos dup =
    let rest : Run (List ℤ × ℕ) = copy_run (suc fuel) arr temp left left_end temp_pos >>= λ p.
    copy_run (suc fuel) arr p.0 mid right p.1 >>= λ q. ok (q.0, dup) in
    let round : Run (List ℤ × ℕ) = read arr left >>= λ x. read arr mid >>= λ y.
    let both : Run (List ℤ × ℕ) = write temp temp_pos x >>= λ t.
    fill_temp fuel arr t (left + 1) left_end (mid + 1) right (temp_pos + 1) (dup + 1) in
    let first : Run (List ℤ × ℕ) = write temp temp_pos x >>= λ t.
    fill_temp fuel arr t (left + 1) left_end mid right (temp_pos + 1) dup in
    let second : Run (List ℤ × ℕ) = write temp temp_pos y >>= λ t.
    fill_temp fuel arr t left left_end (mid + 1) right (temp_pos + 1) dup in
    if same x y then both else if less x y then first else second in
    if leb left left_end && leb mid right then round else rest

-- `merge`: the array and `temp` after it, and its result.
unfoldable pub merge : ℕ → List ℤ → List ℤ → ℕ → ℕ → ℕ → Run (List ℤ × List ℤ × ℕ)
merge fuel arr temp left mid right =
    fill_temp fuel arr temp left (mid - 1) mid right left 0 >>= λ p.
    copy_back (right + 1 - left) (right + 1) arr p.0 >>= λ a. ok (a, p.0, p.1)

-- `for (i = right; dup > 0; i--, dup--) arr[i] = 0;`, with `i + 1` for `i`.
unfoldable pub clear_from : ℕ → ℕ → List ℤ → Run (List ℤ)
unfolding write
clear_from zero i arr = ok arr
clear_from (suc dup) zero arr = fault
clear_from (suc dup) (suc i) arr = write arr i (pos 0) >>= λ a. clear_from dup i a

-- `msort`, over `right + 1` for `right`, which may be -1.
unfoldable pub msort : ℕ → List ℤ → List ℤ → ℕ → ℕ → Run (List ℤ × List ℤ)
unfolding merge fill_temp copy_run copy_back clear_from
msort zero arr temp left end = out_of_fuel
msort (suc fuel) arr temp left end =
    let right = end - 1 in
    let mid = (right + left) / 2 in
    let sorted : Run (List ℤ × List ℤ) = msort fuel arr temp left (mid + 1) >>= λ p.
    msort fuel p.0 p.1 (mid + 1) end >>= λ q. merge (suc end) q.0 q.1 left (mid + 1) right >>= λ r.
    clear_from r.2 end r.0 >>= λ a. ok (a, r.1) in
    if ltb (left + 1) end then sorted else ok (arr, temp)

-- calloc
abbrev pub zeros : ℕ → List ℤ
zeros zero = []
zeros (suc n) = pos 0 ∷ zeros n

unfoldable pub dupless_mergesort : List ℤ → ℕ → Run (List ℤ)
unfolding msort
dupless_mergesort arr length = msort (suc length) arr (zeros length) 0 length >>= λ p. ok p.0

-- The loop of check_duplicate, over the places from `i` on; `times` is what is left of them.
unfoldable pub count_equal : ℕ → ℕ → List ℤ → ℤ → Run ℕ
unfolding read same
count_equal zero i a num = ok 0
count_equal (suc times) i a num = read a i >>= λ v.
    count_equal times (i + 1) a num >>= λ flag. ok (if same v num then suc flag else flag)

-- The places 0 to `count`, that one included.
unfoldable pub check_duplicate : List ℤ → ℤ → ℕ → Run ℕ
unfolding count_equal
check_duplicate a num count = count_equal (count + 1) 0 a num

-- The loop of rm_duplicate, `times` rounds from `i` on.
unfoldable pub rm_loop : ℕ → ℕ → ℕ → List ℤ → List ℤ → Run (List ℤ)
unfolding check_duplicate read write
rm_loop zero i j arr temp = ok temp
rm_loop (suc times) i j arr temp = read arr i >>= λ v. check_duplicate temp v j >>= λ flag.
    let kept : Run (List ℤ) = write temp j v >>= λ t. rm_loop times (i + 1) (j + 1) arr t in
    let skipped : Run (List ℤ) = rm_loop times (i + 1) j arr temp in
    if flag == 0 then kept else skipped

unfoldable pub rm_duplicate : List ℤ → Run (List ℤ)
unfolding rm_loop
rm_duplicate arr = read arr 0 >>= λ v. write (zeros 15) 0 v >>= λ temp. rm_loop 14 1 1 arr temp
