-- ===== src/HeapSort/Heapify.antt =====
-- What max_heapify does to an array that is a heap but for one place.
use gjworks.Common.{
  ℕ, zero, suc, ◌+◌, ◌*◌, ◌≤◌, ◌<◌, ◌≡◌, ◌≢◌, ◌⊎◌, inl, inr, refl, sym, subst, ap, ◌∙◌, false, List,
  ==_refl, ==_other, length, equal-cases, arith,
}
use mathlib.Core.List.{Perm}
use mathlib.Core.List.Perm
use gjworks.Machine.{ok}
use gjworks.Machine.Array.{swap-Swapped, Swapped}
use gjworks.Integer.{ℤ, pos, less}
use gjworks.HeapSort.{max_heapify}
use gjworks.HeapSort.Heaps.{val, Below, parent, IsHeap, IsHeapBut, Largest, largest_of-Largest}

-- What max_heapify leaves from `a`.
pub record Heapified (a b : List ℤ) (k n : ℕ) : Type 0 where
  pub same_length : length b ≡ length a
  pub perm : Perm b a
  pub heap : IsHeap b k n
  pub kept : (q : ℕ) → n ≤ q → val b q ≡ val a q
  pub top :
      (v : ℤ)
      → ((i : ℕ) → i < n → less v (val a i) ≡ false)
      → (i : ℕ) → i < n
      → less v (val b i) ≡ false

-- A child of `j` is not larger than the largest of the three.
child-Below :
    (a : List ℤ) (j n m c : ℕ) → Largest a j n m → 0 < c → c < n → parent c ≡ j → Below a c m
child-Below a j n m c l pos_c lt e = elim (equal-cases c (2 * j + 1)) [
  | inl f ↦ subst (λ q. Below a q m) (sym f) (l.left (omega (arith, f, lt)))
  | inr nf ↦
      let f : c ≡ 2 * j + 2 = omega (arith, e, nf, pos_c) in
      subst (λ q. Below a q m) (sym f) (l.right (omega (arith, f, lt)))
]

-- No child of `j` is larger: the array is a heap.
settled : (a : List ℤ) (k j n : ℕ) → IsHeapBut a k j n → Largest a j n j → IsHeap a k n
settled a k j n but l c pos_c lt up = elim (equal-cases (parent c) j) [
  | inr ne ↦ but.rest c pos_c lt up ne
  | inl e ↦ subst (λ q. Below a c q) (sym e) (child-Below a j n j c l pos_c lt e)
]

Below-moved :
    (a b : List ℤ) (c p c' p' : ℕ)
    → val b c ≡ val a c'
    → val b p ≡ val a p'
    → Below a c' p'
    → Below b c p
Below-moved a b c p c' p' e f h = rw (e, f) h

-- After the swap with the larger child `m`, only the children of `m` may be too large.
module _ (a b : List ℤ) (k j m n : ℕ) (but : IsHeapBut a k j n) (l : Largest a j n m) (kj : k ≤ j)
    (pos_m : 0 < m) (lt_m : m < n) (e : parent m ≡ j) (up : Below a j m)
    (sw : Swapped (pos 0) a b j m) where
  sunk_rest : (c : ℕ) → 0 < c → c < n → k ≤ parent c → parent c ≢ m → Below b c (parent c)
  sunk_rest c pos_c lt le ne = elim (equal-cases c j) [
    | inl f ↦
        Below-moved a b c (parent c) m (parent c) (ap (val b) f ∙ sw.here)
          (sw.kept (parent c) (λ g. omega (arith, f, g, pos_c)) ne)
          (subst (λ q. Below a m q) (ap parent (sym f))
            (but.over m pos_m lt_m e (omega (arith, f, pos_c)) (omega (arith, f, le))))
    | inr nj ↦ elim (equal-cases c m) [
      | inl f ↦
          Below-moved a b c (parent c) j m (ap (val b) f ∙ sw.there)
            (ap (val b) (ap parent f ∙ e) ∙ sw.here) up
      | inr nm ↦ elim (equal-cases (parent c) j) [
        | inl g ↦
            Below-moved a b c (parent c) c m (sw.kept c nj nm) (ap (val b) g ∙ sw.here)
              (child-Below a j n m c l pos_c lt g)
        | inr ng ↦
            Below-moved a b c (parent c) c (parent c) (sw.kept c nj nm) (sw.kept (parent c) ng ne)
              (but.rest c pos_c lt le ng)
      ]
    ]
  ]

  sunk_over : (c : ℕ) → 0 < c → c < n → parent c ≡ m → 0 < m → k ≤ parent m → Below b c (parent m)
  sunk_over c pos_c lt f _ le =
      Below-moved a b c (parent m) c m
        (sw.kept c (λ g. omega (arith, e, f, g, pos_c, pos_m)) (λ g. omega (arith, f, g, pos_c)))
        (ap (val b) e ∙ sw.here)
        (subst (λ q. Below a c q) f
          (but.rest c pos_c lt (omega (arith, f, e, kj, le, pos_m))
            (λ g. omega (arith, f, e, g, pos_m))))

  sunk : IsHeapBut b k m n
  sunk = record { rest = sunk_rest; over = sunk_over }

Heapified-refl : (a : List ℤ) (k n : ℕ) → IsHeap a k n → Heapified a a k n
Heapified-refl a k n h = record {
  same_length = refl;
  perm = Perm.refl a;
  heap = h;
  kept = λ q le. refl;
  top = λ v t. t;
}

-- A swap in the heap, and then what makes a heap.
Heapified-swap :
    (a b c : List ℤ) (k j m n : ℕ)
    → j < n
    → m < n
    → Swapped (pos 0) a b j m
    → Heapified b c k n
    → Heapified a c k n
Heapified-swap a b c k j m n lt_j lt_m sw h = record {
  same_length = h.same_length ∙ sw.same_length;
  perm = Perm.trans h.perm sw.perm;
  heap = h.heap;
  kept = λ q le.
      h.kept q le ∙ sw.kept q (λ e. omega (arith, e, le, lt_j)) (λ e. omega (arith, e, le, lt_m));
  top = λ v t. h.top v (swapped_top v t);
}
  where
    swapped_top :
        (v : ℤ)
        → ((i : ℕ) → i < n → less v (val a i) ≡ false)
        → (i : ℕ) → i < n
        → less v (val b i) ≡ false
    swapped_top v t i lt = elim (equal-cases i j) [
      | inl e ↦ ap (λ x. less v x) (ap (val b) e ∙ sw.here) ∙ t m lt_m
      | inr ne ↦ elim (equal-cases i m) [
        | inl e ↦ ap (λ x. less v x) (ap (val b) e ∙ sw.there) ∙ t j lt_j
        | inr ne' ↦ ap (λ x. less v x) (sw.kept i ne ne') ∙ t i lt
      ]
    ]

-- max_heapify sinks the one place that may be too small: it returns, and leaves a heap of the same
-- numbers, with nothing changed behind the heap.
pub max_heapify-Heapified :
    (fuel : ℕ) (a : List ℤ) (k j n : ℕ)
    → n ≤ length a
    → j ≤ n
    → n < j + fuel
    → k ≤ j
    → IsHeapBut a k j n
    → (b : List ℤ) × (max_heapify fuel a j n ≡ ok b) × Heapified a b k n
unfolding max_heapify
max_heapify-Heapified zero a k j n len le enough kj but = absurd (omega arith)
max_heapify-Heapified (suc fuel) a k j n len le enough kj but =
    let (m, run, l) = largest_of-Largest a j n len in
    elim (equal-cases m j) [
      | inl e ↦ (
        a,
        rw (run, e, ==_refl j) refl,
        Heapified-refl a k n (settled a k j n but (subst (Largest a j n) e l)),
      )
      | inr ne ↦
          let (pos_m, lt, par, up) = moved_choice m j l.choice ne in
          let down : j < m = omega (arith, par, pos_m) in
          let (b, run', sw) = swap-Swapped (pos 0) a j m down (omega (arith, lt, len)) in
          let but' = sunk a b k j m n but l kj pos_m lt par up sw in
          let (c, run'', h) =
            max_heapify-Heapified fuel b k m n (omega (arith, sw.same_length, len))
              (omega (arith, lt)) (omega (arith, enough, down)) (omega (arith, kj, down)) but' in
          (
            c,
            rw (run, ==_other m j ne, run') run'',
            Heapified-swap a b c k j m n (omega (arith, down, lt)) lt sw h,
          )
    ]
  where
    moved_choice :
        (m j : ℕ)
        → (m ≡ j) ⊎ ((0 < m) × (m < n) × (parent m ≡ j) × Below a j m)
        → m ≢ j
        → (0 < m) × (m < n) × (parent m ≡ j) × Below a j m
    moved_choice m j (inl e) ne = absurd (ne e)
    moved_choice m j (inr h) ne = h
