-- ===== src/ArrayMerge/Threads.antt =====
-- Where the threads place the numbers.
use gjworks.Common.{
  ℕ, zero, suc, ◌+◌, ◌-◌, ◌≤◌, ◌<◌, ◌≡◌, ◌⊎◌, inl, inr, refl, subst, ap, true, false, List, [], ◌∷◌,
  none, ltb, if◌then◌else◌, length, set, All, arith, equal-cases,
}
use gjworks.Machine.{ok, fault, out_of_fuel}
use gjworks.Integer.{ℤ, IsIncreasing, All-less, less, less_weak, less_irrefl}
use gjworks.Machine.Array.{read}
use gjworks.ArrayMerge.{position, threadfunc}
use gjworks.ArrayMerge.Search.{Cut, search-Cut}

-- `x` is not among the numbers.
abbrev pub IsNew : ℤ → List ℤ → Type 0
IsNew x a = All (λ v. (less v x ≡ true) ⊎ (less x v ≡ true)) a

-- How many of the numbers are smaller than `x`.
abbrev pub rank : ℤ → List ℤ → ℕ
rank x [] = 0
rank x (v ∷ a) = if less v x then suc (rank x a) else rank x a

rank_none : (x : ℤ) (a : List ℤ) → All (λ v. less v x ≡ false) a → rank x a ≡ 0
rank_none x [] h = refl
rank_none x (v ∷ a) (h, k) = rw (h) (rank_none x a k)

all_weak : (x : ℤ) (a : List ℤ) → All (λ w. less x w ≡ true) a → All (λ w. less w x ≡ false) a
all_weak x [] h = tt
all_weak x (w ∷ a) (h, k) = (less_weak x w h, all_weak x a k)

ok_injective : {A : Type 0} (v w : A) → ok v ≡ ok w → v ≡ w
ok_injective v w e = ap (λ r. elim r [ ok u ↦ u | fault ↦ v | out_of_fuel ↦ v ]) e

read-All :
    (P : ℤ → Type 0) (a : List ℤ) (i : ℕ)
    → All P a
    → i < length a
    → (v : ℤ) × (read a i ≡ ok v) × P v
unfolding read
read-All P [] i h lt = absurd (omega arith)
read-All P (v ∷ a) zero (h, k) lt = (v, refl, h)
read-All P (v ∷ a) (suc i) (h, k) lt = read-All P a i k (omega arith)

pub All-read : (P : ℤ → Type 0) (a : List ℤ) (i : ℕ) (x : ℤ) → All P a → read a i ≡ ok x → P x
unfolding read
All-read P [] i x h e = absurd (ground (arith, e))
All-read P (v ∷ a) zero x (h, k) e = subst P (ok_injective v x e) h
All-read P (v ∷ a) (suc i) x (h, k) e = All-read P a i x k e

read-length : (a : List ℤ) (i : ℕ) (x : ℤ) → read a i ≡ ok x → i < length a
unfolding read
read-length [] i x e = absurd (ground (arith, e))
read-length (v ∷ a) zero x e = omega arith
read-length (v ∷ a) (suc i) x e = omega (arith, read-length a i x e)

Cut-above : (x : ℤ) (a : List ℤ) → All (λ w. less x w ≡ true) a → Cut x a 0
Cut-above x a h = record {
  within = omega arith;
  below = λ i lt. absurd (omega arith);
  above = λ i le lt. read-All (λ w. less x w ≡ true) a i h lt;
}

Cut-suc : (x v : ℤ) (a : List ℤ) (r : ℕ) → less v x ≡ true → Cut x a r → Cut x (v ∷ a) (suc r)
unfolding read
Cut-suc x v a r h c = record { within = omega (arith, c.within); below = under; above = over }
  where
    under : (i : ℕ) → i < suc r → (w : ℤ) × (read (v ∷ a) i ≡ ok w) × (less w x ≡ true)
    under zero lt = (v, refl, h)
    under (suc i) lt = c.below i (omega arith)

    over :
        (i : ℕ)
        → suc r ≤ i
        → i < length (v ∷ a)
        → (w : ℤ) × (read (v ∷ a) i ≡ ok w) × (less x w ≡ true)
    over zero le lt = absurd (omega arith)
    over (suc i) le lt = c.above i (omega arith) (omega arith)

pub rank-Cut : (x : ℤ) (a : List ℤ) → IsIncreasing a → IsNew x a → Cut x a (rank x a)
rank-Cut x [] up fresh = Cut-above x [] tt
rank-Cut x (v ∷ a) (h, up) (inl k, fresh) =
    rw (k) (Cut-suc x v a (rank x a) k (rank-Cut x a up fresh))
rank-Cut x (v ∷ a) (h, up) (inr k, fresh) =
    let rest = All-less x v a k h in
    rw (less_weak x v k, rank_none x a (all_weak x a rest)) (Cut-above x (v ∷ a) (k, rest))

-- In an increasing array the number at `i` has `i` smaller ones.
pub rank-read : (a : List ℤ) (i : ℕ) (x : ℤ) → IsIncreasing a → read a i ≡ ok x → rank x a ≡ i
unfolding read
rank-read [] i x up e = absurd (ground (arith, e))
rank-read (v ∷ a) zero x (h, up) e =
    subst (λ w. rank w (v ∷ a) ≡ 0) (ok_injective v x e)
      (rw (less_irrefl v) (rank_none v a (all_weak v a h)))
rank-read (v ∷ a) (suc i) x (h, up) e =
    rw (All-read (λ w. less v w ≡ true) a i x h e) (ap suc (rank-read a i x up e))

-- The position of a number of one array that is cut by it in the other.
position-Cut :
    (fuel : ℕ) (own other : List ℤ) (cnt : ℕ) (x : ℤ) (r : ℕ)
    → read own cnt ≡ ok x
    → Cut x other r
    → 0 < length other
    → length other ≤ fuel
    → position fuel own other cnt ≡ ok (cnt + r, x)
unfolding position
position-Cut fuel own other cnt x r e c full enough = elim (equal-cases r 0) [
  | inl z ↦
      let (first, at, large) = c.above 0 (omega (arith, z)) full in ground (arith, e, at, large, z)
  | inr nz ↦
      let (first, at, small) = c.below 0 (omega (arith, nz)) in
      let weak = less_weak first x small in
      elim (equal-cases r (length other)) [
        | inl all ↦
            let (last, at', small') = c.below (length other - 1) (omega (arith, all, full)) in
            ground (arith, e, at, weak, at', small', all)
        | inr part ↦
            let (last, at', large) =
              c.above (length other - 1) (omega (arith, part, c.within)) (omega (arith, full)) in
            let found =
              search-Cut fuel x other r 0 (length other - 1) none c (omega (arith, nz))
                (omega (arith, part, c.within)) (omega (arith, full))
                (omega (arith, full, enough)) in
            let total : cnt + (r - 1) + 1 ≡ cnt + r = omega (arith, nz) in
            ground (arith, e, at, weak, at', less_weak x last large, found, total)
      ]
]

-- A thread puts the number it has to place, `x`, where as many positions are before it as the two
-- arrays together have smaller numbers, and writes nothing else. The arrays are increasing and not
-- empty, and the other one does not have `x`; the search ends within as many rounds as it is long.
pub threadfunc-rank :
    (fuel : ℕ) (arr1 arr2 arr3 : List ℤ) (count : ℕ) (x : ℤ)
    → IsIncreasing arr1
    → IsIncreasing arr2
    → 0 < length arr1
    → 0 < length arr2
    → length arr1 + length arr2 ≤ fuel
    → length arr1 + length arr2 ≤ length arr3
    → ((read arr1 count ≡ ok x) × IsNew x arr2)
      ⊎ ((length arr1 ≤ count) × (read arr2 (count - length arr1) ≡ ok x) × IsNew x arr1)
    → threadfunc fuel arr1 arr2 count arr3 ≡ ok (set arr3 (rank x arr1 + rank x arr2) x)
unfolding threadfunc
threadfunc-rank fuel arr1 arr2 arr3 count x up1 up2 full1 full2 enough room (inl (e, fresh)) =
    let c = rank-Cut x arr2 up2 fresh in
    let run = position-Cut fuel arr1 arr2 count x (rank x arr2) e c full2 (omega (arith, enough)) in
    let own = rank-read arr1 count x up1 e in
    let here = read-length arr1 count x e in
    let fits : ltb (count + rank x arr2) (length arr3) ≡ true =
      ground (arith, c.within, room, here) in
    let first : ltb count (length arr1) ≡ true = ground (arith, here) in
    rw (first, run, fits, own) refl
threadfunc-rank fuel arr1 arr2 arr3 count x up1 up2 full1 full2 enough room
      (inr (behind, e, fresh)) =
    let c = rank-Cut x arr1 up1 fresh in
    let k = count - length arr1 in
    let run = position-Cut fuel arr2 arr1 k x (rank x arr1) e c full1 (omega (arith, enough)) in
    let own = rank-read arr2 k x up2 e in
    let here = read-length arr2 k x e in
    let fits : ltb (k + rank x arr1) (length arr3) ≡ true = ground (arith, c.within, room, here) in
    let second : ltb count (length arr1) ≡ false = ground (arith, behind) in
    let swap : k + rank x arr1 ≡ rank x arr1 + rank x arr2 = omega (arith, own) in
    rw (second, run, fits, swap) refl
