-- ===== src/MergeSort.antt =====
-- Basic Datastructures/MergeSort/mergesort.c.
pub mod Bounds
mod Tests
use gjworks.Common.{
  ℕ, zero, suc, ◌+◌, ◌-◌, ◌/◌, Bool, true, false, ◌&&◌, List, leb, ltb, if◌then◌else◌,
}
use gjworks.Machine.{Run, ok, fault, out_of_fuel, ◌>>=◌}
use gjworks.Machine.Array.{read, write}
use gjworks.Integer.{ℤ, less}
use gjworks.Merging.{copy_run, copy_back}

-- The three loops of `merge` that fill `temp`.
unfoldable pub fill_temp : ℕ → List ℤ → List ℤ → ℕ → ℕ → ℕ → ℕ → ℕ → Run (List ℤ)
unfolding read write less
fill_temp zero numbers temp left left_end mid right tmp_pos = out_of_fuel
fill_temp (suc fuel) numbers temp left left_end mid right tmp_pos =
    let rest : Run (List ℤ) = copy_run (suc fuel) numbers temp left left_end tmp_pos >>= λ p.
    copy_run (suc fuel) numbers p.0 mid right p.1 >>= λ q. ok q.0 in
    let round : Run (List ℤ) = read numbers left >>= λ x. read numbers mid >>= λ y.
    let first : Run (List ℤ) = write temp tmp_pos x >>= λ t.
    fill_temp fuel numbers t (left + 1) left_end mid right (tmp_pos + 1) in
    let second : Run (List ℤ) = write temp tmp_pos y >>= λ t.
    fill_temp fuel numbers t left left_end (mid + 1) right (tmp_pos + 1) in
    if less x y then first else second in
    if leb left left_end && leb mid right then round else rest

-- `merge`; the loop that copies back makes `num_elements + 1` rounds.
unfoldable pub merge : ℕ → List ℤ → List ℤ → ℕ → ℕ → ℕ → Run (List ℤ × List ℤ)
merge fuel numbers temp left mid right =
    fill_temp fuel numbers temp left (mid - 1) mid right left >>= λ t.
    copy_back (suc (right + 1 - left)) (right + 1) numbers t >>= λ a. ok (a, t)

-- `m_sort`, over `right + 1` for `right`, which may be -1.
unfoldable pub m_sort : ℕ → List ℤ → List ℤ → ℕ → ℕ → Run (List ℤ × List ℤ)
m_sort zero numbers temp left end = out_of_fuel
m_sort (suc fuel) numbers temp left end =
    let right = end - 1 in
    let mid = (right + left) / 2 in
    let sorted : Run (List ℤ × List ℤ) = m_sort fuel numbers temp left (mid + 1) >>= λ p.
    m_sort fuel p.0 p.1 (mid + 1) end >>= λ q. merge (suc end) q.0 q.1 left (mid + 1) right in
    if ltb (left + 1) end then sorted else ok (numbers, temp)

unfoldable pub merge_sort : List ℤ → List ℤ → ℕ → Run (List ℤ × List ℤ)
merge_sort numbers temp len = m_sort (suc len) numbers temp 0 len
