-- ===== src/DupRemoval/Tests.antt =====
-- Short arrays with duplicates.
use gjworks.Common.{ℕ, ◌≡◌, refl, List, [], ◌∷◌, ◌++◌, length, arith}
use gjworks.Machine.{ok}
use gjworks.Machine.Array.{at}
use gjworks.Integer.{ℤ, pos, less}
use gjworks.Merging.Runs.{slice}
use gjworks.DupRemoval.{merge, dupless_mergesort, zeros, rm_duplicate}
use gjworks.DupRemoval.Union.{Merged, merge-Merged}
use gjworks.DupRemoval.Distinct.{keep, padded, rm_duplicate-keep}

-- The runs 1 3 and 3 4.
abbrev runs : List ℤ
runs = pos 1 ∷ pos 3 ∷ pos 3 ∷ pos 4 ∷ []

merge-Merged_example :
    (new : List ℤ) × (temp' : List ℤ) × (dup : ℕ) × (merge 5 runs (zeros 4) 0 2 3
      ≡ ok (new, temp', dup))
    × (length temp' ≡ 4)
    × Merged runs new 0 3 (slice runs 0 2) (slice runs 2 2) dup
unfolding less at
merge-Merged_example =
    merge-Merged 5 2 2 runs (zeros 4) 0 2 3 refl refl (omega arith) (omega arith) (omega arith)
      (omega arith) ((refl, tt), (tt, tt)) ((refl, tt), (tt, tt))

-- The numbers 2 2 1 3 come out as 1 2 0 3.
dupless_mergesort_run :
    dupless_mergesort (pos 2 ∷ pos 2 ∷ pos 1 ∷ pos 3 ∷ []) 4
    ≡ ok (pos 1 ∷ pos 2 ∷ pos 0 ∷ pos 3 ∷ [])
unfolding dupless_mergesort
dupless_mergesort_run = refl

abbrev numbers : List ℤ
numbers =
    pos 0
    ∷ pos 3
    ∷ pos 3
    ∷ pos 1
    ∷ pos 1
    ∷ pos 4
    ∷ pos 4
    ∷ pos 4
    ∷ pos 5
    ∷ pos 5
    ∷ pos 5
    ∷ pos 6
    ∷ pos 6
    ∷ pos 6
    ∷ []

rm_duplicate-keep_example :
    rm_duplicate (pos 7 ∷ (numbers ++ [])) ≡ ok (padded (keep (pos 7 ∷ []) numbers) 15)
rm_duplicate-keep_example = rm_duplicate-keep (pos 7) numbers [] refl
