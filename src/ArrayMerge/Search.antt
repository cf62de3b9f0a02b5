-- ===== src/ArrayMerge/Search.antt =====
-- Where the binary search ends.
use gjworks.Common.{
  ℕ, zero, suc, ◌+◌, ◌-◌, ◌/◌, ◌≤◌, ◌<◌, ◌≡◌, inl, inr, refl, true, List, Option, some, ltb, length,
  Bool-cases, arith,
}
use gjworks.Machine.{ok, out_of_fuel}
use gjworks.Integer.{ℤ, less, less_weak, less_irrefl}
use gjworks.Machine.Array.{read}
use gjworks.ArrayMerge.{search}

-- The numbers of the array before `r` are smaller than `x`, the others larger.
pub record Cut (x : ℤ) (a : List ℤ) (r : ℕ) : Type 0 where
  pub within : r ≤ length a
  pub below : (i : ℕ) → i < r → (v : ℤ) × (read a i ≡ ok v) × (less v x ≡ true)
  pub above : (i : ℕ) → r ≤ i → i < length a → (v : ℤ) × (read a i ≡ ok v) × (less x v ≡ true)

pub search-Cut :
    (fuel : ℕ) (x : ℤ) (a : List ℤ) (r lower upper : ℕ) (before : Option ℕ)
    → Cut x a r
    → lower < r
    → r ≤ upper
    → upper < length a
    → upper < lower + fuel
    → search fuel x a lower upper before ≡ ok (r - 1)
unfolding search
search-Cut zero x a r lower upper before cut lo hi len enough = absurd (omega arith)
search-Cut (suc fuel) x a r lower upper before cut lo hi len enough =
    let middle = (upper + lower) / 2 in
    let go : ltb lower upper ≡ true = ground arith in
    let bounds : (lower ≤ middle) × (middle < upper) = omega arith in
    elim (Bool-cases (ltb middle r)) [
      | inl e ↦
          let lt : middle < r = ground (arith, e) in
          let (v, at, small) = cut.below middle lt in
          elim (Bool-cases (ltb (middle + 1) r)) [
            | inl f ↦
                let lt' : middle + 1 < r = ground (arith, f) in
                let (n, at', small') = cut.below (middle + 1) lt' in
                let rest =
                  search-Cut fuel x a r (middle + 1) upper (some middle) cut lt' hi len
                    (omega (arith, bounds)) in
                ground (arith, go, at, small, at', less_weak n x small', rest)
            | inr f ↦
                let here : middle ≡ r - 1 = ground (arith, f, lt) in
                let (n, at', large) =
                  cut.above (middle + 1) (ground (arith, f)) (omega (arith, bounds)) in
                ground (arith, go, at, small, at', large, here)
          ]
      | inr e ↦
          let ge : r ≤ middle = ground (arith, e) in
          let (v, at, large) = cut.above middle ge (omega (arith, bounds.1)) in
          let rest =
            search-Cut fuel x a r lower middle (some middle) cut lo ge (omega (arith, bounds))
              (omega (arith, bounds)) in
          ground (arith, go, at, large, less_weak x v large, rest)
    ]

-- A number that the search meets in the middle is never left.
pub search_stuck :
    (fuel : ℕ) (x : ℤ) (a : List ℤ) (lower upper : ℕ) (before : Option ℕ)
    → lower < upper
    → read a ((upper + lower) / 2) ≡ ok x
    → search fuel x a lower upper before ≡ out_of_fuel
unfolding search
search_stuck zero x a lower upper before lt e = refl
search_stuck (suc fuel) x a lower upper before lt e =
    let rest = search_stuck fuel x a lower upper (some ((upper + lower) / 2)) lt e in
    ground (arith, e, less_irrefl x, rest)
