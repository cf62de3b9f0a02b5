-- ===== src/ArrayMerge/Order.antt =====
-- The numbers of both arrays in order, as the third array is to have them.
use mathlib.Core.List.{Perm}
use mathlib.Core.List.Perm
use gjworks.Common.{
  ℕ, zero, suc, ◌+◌, ◌<◌, ◌≡◌, refl, sym, ◌∙◌, ap, subst, true, List, [], ◌∷◌, ◌++◌, if◌then◌else◌,
  length, All, Bool-cases, inl, inr, ◌⊎◌, arith,
}
use gjworks.Integer.{ℤ, less, less_weak, IsIncreasing, All-less}
use gjworks.Machine.Array.{at, read-at}
use gjworks.ArrayMerge.Threads.{IsNew, rank, rank-read}

abbrev pub insert : ℤ → List ℤ → List ℤ
insert x [] = x ∷ []
insert x (v ∷ l) = if less x v then x ∷ (v ∷ l) else v ∷ insert x l

abbrev pub in_order : List ℤ → List ℤ
in_order [] = []
in_order (x ∷ l) = insert x (in_order l)

-- No number twice.
abbrev pub IsDistinct : List ℤ → Type 0
IsDistinct [] = Unit
IsDistinct (x ∷ l) = IsNew x l × IsDistinct l

insert-Perm : (x : ℤ) (l : List ℤ) → Perm (insert x l) (x ∷ l)
insert-Perm x [] = Perm.cons x Perm.nil
insert-Perm x (v ∷ l) = elim (Bool-cases (less x v)) [
  | inl e ↦ rw (e) (Perm.refl (x ∷ (v ∷ l)))
  | inr e ↦ rw (e) (Perm.trans (Perm.cons v (insert-Perm x l)) (Perm.swap x v l))
]

pub in_order-Perm : (l : List ℤ) → Perm (in_order l) l
in_order-Perm [] = Perm.nil
in_order-Perm (x ∷ l) = Perm.trans (insert-Perm x (in_order l)) (Perm.cons x (in_order-Perm l))

insert-All : (P : ℤ → Type 0) (x : ℤ) (l : List ℤ) → P x → All P l → All P (insert x l)
insert-All P x [] h k = (h, tt)
insert-All P x (v ∷ l) h (k, r) = elim (Bool-cases (less x v)) [
  | inl e ↦ rw (e) (h, (k, r))
  | inr e ↦ rw (e) (k, insert-All P x l h r)
]

in_order-All : (P : ℤ → Type 0) (l : List ℤ) → All P l → All P (in_order l)
in_order-All P [] h = tt
in_order-All P (x ∷ l) (h, r) = insert-All P x (in_order l) h (in_order-All P l r)

insert-IsIncreasing : (x : ℤ) (l : List ℤ) → IsNew x l → IsIncreasing l → IsIncreasing (insert x l)
insert-IsIncreasing x [] new up = (tt, tt)
insert-IsIncreasing x (v ∷ l) (inl h, new) (above, up) =
    rw (less_weak v x h)
      (insert-All (λ w. less v w ≡ true) x l h above, insert-IsIncreasing x l new up)
insert-IsIncreasing x (v ∷ l) (inr h, new) (above, up) =
    rw (h) ((h, All-less x v l h above), (above, up))

pub in_order-IsIncreasing : (l : List ℤ) → IsDistinct l → IsIncreasing (in_order l)
in_order-IsIncreasing [] d = tt
in_order-IsIncreasing (x ∷ l) (new, d) =
    insert-IsIncreasing x (in_order l)
      (in_order-All (λ v. (less v x ≡ true) ⊎ (less x v ≡ true)) l new) (in_order-IsIncreasing l d)

rank-insert : (z x : ℤ) (l : List ℤ) → rank z (insert x l) ≡ rank z (x ∷ l)
rank-insert z x [] = refl
rank-insert z x (v ∷ l) = elim (Bool-cases (less x v)) [
  | inl e ↦ rw (e) refl
  | inr e ↦ rw (e) (ground (arith, rank-insert z x l))
]

pub rank-in_order : (z : ℤ) (l : List ℤ) → rank z (in_order l) ≡ rank z l
rank-in_order z [] = refl
rank-in_order z (x ∷ l) = rank-insert z x (in_order l) ∙ ground (arith, rank-in_order z l)

pub rank-append : (z : ℤ) (a b : List ℤ) → rank z (a ++ b) ≡ rank z a + rank z b
rank-append z [] b = omega arith
rank-append z (x ∷ a) b = ground (arith, rank-append z a b)

length-insert : (x : ℤ) (l : List ℤ) → length (insert x l) ≡ suc (length l)
length-insert x [] = refl
length-insert x (v ∷ l) = ground (arith, length-insert x l)

pub length-in_order : (l : List ℤ) → length (in_order l) ≡ length l
length-in_order [] = refl
length-in_order (x ∷ l) = length-insert x (in_order l) ∙ ap suc (length-in_order l)

module _ (o : ℤ) where
  -- A place of the list with one more number: it has that number, or one of the others.
  insert-at :
      (x : ℤ) (l : List ℤ) (p : ℕ)
      → p < suc (length l)
      → (at o (insert x l) p ≡ x) ⊎ ((q : ℕ) × (q < length l) × (at o (insert x l) p ≡ at o l q))
  unfolding at
  insert-at x [] zero lt = inl refl
  insert-at x [] (suc p) lt = absurd (omega arith)
  insert-at x (v ∷ l) zero lt = elim (Bool-cases (less x v)) [
    | inl e ↦ rw (e) (inl refl)
    | inr e ↦ rw (e) (inr (0, omega arith, refl))
  ]
  insert-at x (v ∷ l) (suc p) lt = elim (Bool-cases (less x v)) [
    | inl e ↦ rw (e) (inr (p, omega arith, refl))
    | inr e ↦ rw (e) (elim (insert-at x l p (omega arith)) [
      | inl f ↦ inl f
      | inr (q, h, f) ↦ inr (suc q, omega arith, f)
    ])
  ]

  at-insert_new : (x : ℤ) (l : List ℤ) → (p : ℕ) × (p < suc (length l)) × (at o (insert x l) p ≡ x)
  unfolding at
  at-insert_new x [] = (0, omega arith, refl)
  at-insert_new x (v ∷ l) = elim (Bool-cases (less x v)) [
    | inl e ↦ (0, omega arith, rw (e) refl)
    | inr e ↦ let (p, h, f) = at-insert_new x l in (suc p, omega arith, rw (e) f)
  ]

  at-insert_old :
      (x : ℤ) (l : List ℤ) (q : ℕ)
      → q < length l
      → (p : ℕ) × (p < suc (length l)) × (at o (insert x l) p ≡ at o l q)
  unfolding at
  at-insert_old x [] q lt = absurd (omega arith)
  at-insert_old x (v ∷ l) zero lt = elim (Bool-cases (less x v)) [
    | inl e ↦ (1, omega arith, rw (e) refl)
    | inr e ↦ (0, omega arith, rw (e) refl)
  ]
  at-insert_old x (v ∷ l) (suc q) lt = elim (Bool-cases (less x v)) [
    | inl e ↦ (suc (suc q), omega arith, rw (e) refl)
    | inr e ↦ let (p, h, f) = at-insert_old x l q (omega arith) in (suc p, omega arith, rw (e) f)
  ]

  -- Each place of the ordered list has the number of a place of the other, and the other way.
  pub in_order-at :
      (l : List ℤ) (p : ℕ)
      → p < length l
      → (q : ℕ) × (q < length l) × (at o (in_order l) p ≡ at o l q)
  unfolding at
  in_order-at [] p lt = absurd (omega arith)
  in_order-at (x ∷ l) p lt = elim (insert-at x (in_order l) p (omega (arith, length-in_order l))) [
    | inl e ↦ (0, omega arith, e)
    | inr (r, h, e) ↦
        let (q, k, f) = in_order-at l r (omega (arith, length-in_order l)) in
        (suc q, omega arith, e ∙ f)
  ]

  pub at-in_order :
      (l : List ℤ) (q : ℕ)
      → q < length l
      → (p : ℕ) × (p < length l) × (at o (in_order l) p ≡ at o l q)
  unfolding at
  at-in_order [] q lt = absurd (omega arith)
  at-in_order (x ∷ l) zero lt =
      let (p, h, e) = at-insert_new x (in_order l) in (p, omega (arith, length-in_order l), e)
  at-in_order (x ∷ l) (suc q) lt =
      let (r, h, e) = at-in_order l q (omega arith) in
      let (p, k, f) = at-insert_old x (in_order l) r (omega (arith, length-in_order l)) in
      (p, omega (arith, length-in_order l), f ∙ e)

  -- The number at a place of the ordered list has as many smaller ones.
  rank-at : (l : List ℤ) (p : ℕ) → IsDistinct l → p < length l → rank (at o (in_order l) p) l ≡ p
  rank-at l p d lt =
      sym (rank-in_order (at o (in_order l) p) l)
      ∙ rank-read (in_order l) p (at o (in_order l) p) (in_order-IsIncreasing l d)
          (read-at o (in_order l) p (omega (arith, length-in_order l)))

  -- So a number is in the ordered list at its rank.
  pub at-rank :
      (l : List ℤ) (q : ℕ)
      → IsDistinct l
      → q < length l
      → at o (in_order l) (rank (at o l q) l) ≡ at o l q
  at-rank l q d lt =
      let (p, h, e) = at-in_order l q lt in
      ap (λ z. at o (in_order l) (rank z l)) (sym e)
      ∙ (ap (at o (in_order l)) (rank-at l p d h) ∙ e)

  pub rank-lt : (l : List ℤ) (q : ℕ) → IsDistinct l → q < length l → rank (at o l q) l < length l
  rank-lt l q d lt =
      let (p, h, e) = at-in_order l q lt in
      subst (λ r. r < length l) (sym (rank-at l p d h) ∙ ap (λ z. rank z l) e) h

  -- And each place is the rank of a number.
  pub rank_onto :
      (l : List ℤ) (p : ℕ)
      → IsDistinct l
      → p < length l
      → (q : ℕ) × (q < length l) × (rank (at o l q) l ≡ p)
  rank_onto l p d lt =
      let (q, h, e) = in_order-at l p lt in (q, h, ap (λ z. rank z l) (sym e) ∙ rank-at l p d lt)
