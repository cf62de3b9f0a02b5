-- ===== src/ArrayMerge/Placing.antt =====
-- What each thread writes, by its index, for two arrays that the program can merge.
use gjworks.Common.{
  ℕ, zero, suc, ◌+◌, ◌-◌, ◌≤◌, ◌<◌, ◌≡◌, refl, sym, ◌∙◌, ap, inl, inr, ◌⊎◌, true, List, [], ◌∷◌,
  ◌++◌, ltb, length, length-append, set, All, All-append, Bool-cases, arith,
}
use gjworks.Machine.{ok}
use gjworks.Integer.{ℤ, pos, less, IsIncreasing}
use gjworks.Machine.Array.{read, at, read-at}
use gjworks.ArrayMerge.{threadfunc}
use gjworks.ArrayMerge.Threads.{IsNew, rank, All-read, threadfunc-rank}
use gjworks.ArrayMerge.Order.{in_order, IsDistinct, rank-append, at-rank, rank-lt}

-- Both arrays are increasing and not empty, and no number is in both; the fuel is enough for the
-- binary search.
pub record IsInput (fuel : ℕ) (arr1 arr2 : List ℤ) : Type 0 where
  pub up1 : IsIncreasing arr1
  pub up2 : IsIncreasing arr2
  pub full1 : 0 < length arr1
  pub full2 : 0 < length arr2
  pub apart : All (λ x. IsNew x arr2) arr1
  pub enough : length arr1 + length arr2 ≤ fuel

-- The number that the thread `c` places, and where.
abbrev pub number_of : List ℤ → List ℤ → ℕ → ℤ
number_of arr1 arr2 c = at (pos 0) (arr1 ++ arr2) c

abbrev pub place_of : List ℤ → List ℤ → ℕ → ℕ
place_of arr1 arr2 c = rank (number_of arr1 arr2 c) (arr1 ++ arr2)

IsNew-above : (x : ℤ) (a : List ℤ) → All (λ w. less x w ≡ true) a → IsNew x a
IsNew-above x [] h = tt
IsNew-above x (w ∷ a) (h, r) = (inr h, IsNew-above x a r)

IsNew-append : (x : ℤ) (a b : List ℤ) → IsNew x a → IsNew x b → IsNew x (a ++ b)
IsNew-append x a b h k = All-append (λ v. (less v x ≡ true) ⊎ (less x v ≡ true)) a b h k

increasing-IsDistinct : (a : List ℤ) → IsIncreasing a → IsDistinct a
increasing-IsDistinct [] up = tt
increasing-IsDistinct (x ∷ a) (h, up) = (IsNew-above x a h, increasing-IsDistinct a up)

append-IsDistinct :
    (a b : List ℤ) → IsDistinct a → IsDistinct b → All (λ x. IsNew x b) a → IsDistinct (a ++ b)
append-IsDistinct [] b da db h = db
append-IsDistinct (x ∷ a) b (new, da) db (h, r) =
    (IsNew-append x a b new h, append-IsDistinct a b da db r)

-- A number of the second array is not in the first.
IsNew-of_apart :
    (a b : List ℤ) (i : ℕ) (x : ℤ) → All (λ w. IsNew w b) a → read b i ≡ ok x → IsNew x a
IsNew-of_apart [] b i x h e = tt
IsNew-of_apart (w ∷ a) b i x (h, r) e = (
  elim (All-read (λ v. (less v w ≡ true) ⊎ (less w v ≡ true)) b i x h e) [
    | inl k ↦ inr k
    | inr k ↦ inl k
  ],
  IsNew-of_apart a b i x r e,
)

at-append_left : (o : ℤ) (a b : List ℤ) (i : ℕ) → i < length a → at o (a ++ b) i ≡ at o a i
unfolding at
at-append_left o [] b i lt = absurd (omega arith)
at-append_left o (x ∷ a) b zero lt = refl
at-append_left o (x ∷ a) b (suc i) lt = at-append_left o a b i (omega arith)

at-append_right :
    (o : ℤ) (a b : List ℤ) (i : ℕ) → length a ≤ i → at o (a ++ b) i ≡ at o b (i - length a)
unfolding at
at-append_right o [] b i le = ap (at o b) (omega arith)
at-append_right o (x ∷ a) b zero le = absurd (omega arith)
at-append_right o (x ∷ a) b (suc i) le =
    at-append_right o a b i (omega arith) ∙ ap (at o b) (omega arith)

module _ {fuel : ℕ} {arr1 arr2 : List ℤ} (input : IsInput fuel arr1 arr2) where
  pub input-IsDistinct : IsDistinct (arr1 ++ arr2)
  input-IsDistinct =
      append-IsDistinct arr1 arr2 (increasing-IsDistinct arr1 input.up1)
        (increasing-IsDistinct arr2 input.up2) input.apart

  pub threadfunc-place_of :
      (arr3 : List ℤ) (c : ℕ)
      → c < length arr1 + length arr2
      → length arr1 + length arr2 ≤ length arr3
      → threadfunc fuel arr1 arr2 c arr3
        ≡ ok (set arr3 (place_of arr1 arr2 c) (number_of arr1 arr2 c))
  threadfunc-place_of arr3 c lt room =
      let x = number_of arr1 arr2 c in
      threadfunc-rank fuel arr1 arr2 arr3 c x input.up1 input.up2 input.full1 input.full2
        input.enough room (source x refl)
      ∙ ap (λ p. ok (set arr3 p x)) (sym (rank-append x arr1 arr2))
    where
      source :
          (x : ℤ)
          → x ≡ number_of arr1 arr2 c
          → ((read arr1 c ≡ ok x) × IsNew x arr2)
            ⊎ ((length arr1 ≤ c) × (read arr2 (c - length arr1) ≡ ok x) × IsNew x arr1)
      source x e = elim (Bool-cases (ltb c (length arr1))) [
        | inl first ↦
            let here : c < length arr1 = ground (arith, first) in
            let found : read arr1 c ≡ ok x =
              read-at (pos 0) arr1 c here
              ∙ ap ok (sym (e ∙ at-append_left (pos 0) arr1 arr2 c here)) in
            inl (found, All-read (λ w. IsNew w arr2) arr1 c x input.apart found)
        | inr second ↦
            let behind : length arr1 ≤ c = ground (arith, second) in
            let found : read arr2 (c - length arr1) ≡ ok x =
              read-at (pos 0) arr2 (c - length arr1) (omega arith)
              ∙ ap ok (sym (e ∙ at-append_right (pos 0) arr1 arr2 c behind)) in
            inr (behind, found, IsNew-of_apart arr1 arr2 (c - length arr1) x input.apart found)
      ]

  -- What it writes is what the ordered list has at that place.
  pub number_of-at :
      (c : ℕ)
      → c < length arr1 + length arr2
      → at (pos 0) (in_order (arr1 ++ arr2)) (place_of arr1 arr2 c) ≡ number_of arr1 arr2 c
  number_of-at c lt =
      at-rank (pos 0) (arr1 ++ arr2) c input-IsDistinct (omega (arith, length-append arr1 arr2))

  pub place_of-lt :
      (c : ℕ) → c < length arr1 + length arr2 → place_of arr1 arr2 c < length arr1 + length arr2
  place_of-lt c lt = omega (
    arith,
    rank-lt (pos 0) (arr1 ++ arr2) c input-IsDistinct (omega (arith, length-append arr1 arr2)),
    length-append arr1 arr2,
  )
