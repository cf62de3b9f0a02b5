-- ===== src/HeapSort/Heaps.antt =====
-- Heaps as arrays, and the choice of the largest of a place and its children.
use gjworks.Common.{
  ℕ, ◌+◌, ◌-◌, ◌*◌, ◌/◌, ◌≤◌, ◌<◌, ◌≡◌, ◌≢◌, ◌⊎◌, inl, inr, refl, ◌∙◌, false, List, ltb, length,
  Bool-cases, arith,
}
use gjworks.Machine.{ok}
use gjworks.Machine.Array.{read-at, at}
use gjworks.Integer.{ℤ, pos, less, less_trans_not, less_weak, less_irrefl}
use gjworks.HeapSort.{larger, largest_of}

-- `a[i]`
abbrev pub val : List ℤ → ℕ → ℤ
val a i = at (pos 0) a i

-- `a[i] <= a[k]`
abbrev pub Below : List ℤ → ℕ → ℕ → Type 0
Below a i k = less (val a k) (val a i) ≡ false

abbrev pub parent : ℕ → ℕ
parent c = (c - 1) / 2

-- From `k` on, no node of the heap of size `n` is larger than its parent.
abbrev pub IsHeap : List ℤ → ℕ → ℕ → Type 0
IsHeap a k n = (c : ℕ) → 0 < c → c < n → k ≤ parent c → Below a c (parent c)

-- The same but for the children of `j`, which are not larger than the parent of `j`.
pub record IsHeapBut (a : List ℤ) (k j n : ℕ) : Type 0 where
  pub rest : (c : ℕ) → 0 < c → c < n → k ≤ parent c → parent c ≢ j → Below a c (parent c)
  pub over : (c : ℕ) → 0 < c → c < n → parent c ≡ j → 0 < j → k ≤ parent j → Below a c (parent j)

-- What the choice of the largest of three finds: `m` is `i` or a child of it.
pub record Largest (a : List ℤ) (i n m : ℕ) : Type 0 where
  pub choice : (m ≡ i) ⊎ ((0 < m) × (m < n) × (parent m ≡ i) × Below a i m)
  pub left : 2 * i + 1 < n → Below a (2 * i + 1) m
  pub right : 2 * i + 2 < n → Below a (2 * i + 2) m

larger-Below :
    (a : List ℤ) (n c largest : ℕ)
    → n ≤ length a
    → (c < n → largest < length a)
    → (m : ℕ) × (larger a n c largest ≡ ok m)
      × ((m ≡ largest) ⊎ ((m ≡ c) × (c < n)))
      × Below a largest m
      × (c < n → Below a c m)
unfolding larger
larger-Below a n c largest len here = elim (Bool-cases (ltb c n)) [
  | inr e ↦ (
    largest,
    ground arith,
    inl refl,
    less_irrefl (val a largest),
    λ lt. absurd (ground (arith, e, lt)),
  )
  | inl e ↦
      let lt : c < n = ground (arith, e) in
      let x = read-at (pos 0) a c (omega (arith, len, lt)) in
      let y = read-at (pos 0) a largest (here lt) in
      elim (Bool-cases (less (val a largest) (val a c))) [
        | inl f ↦ (
          c,
          rw (e, x, y, f) refl,
          inr (refl, lt),
          less_weak (val a largest) (val a c) f,
          λ i. less_irrefl (val a c),
        )
        | inr f ↦ (largest, rw (e, x, y, f) refl, inl refl, less_irrefl (val a largest), λ i. f)
      ]
]

Below_trans : (a : List ℤ) (i k m : ℕ) → Below a i k → Below a k m → Below a i m
Below_trans a i k m h e = less_trans_not (val a i) (val a k) (val a m) h e

pub largest_of-Largest :
    (a : List ℤ) (i n : ℕ) → n ≤ length a → (m : ℕ) × (largest_of a i n ≡ ok m) × Largest a i n m
unfolding largest_of
largest_of-Largest a i n len =
    let (l, run, which, up, left) =
      larger-Below a n (2 * i + 1) i len (λ lt. omega (arith, lt, len)) in
    let (m, run', which', up', right) =
      larger-Below a n (2 * i + 2) l len (λ lt. ground (arith, lt, len, which)) in
    (
      m,
      rw (run) run',
      record {
        choice = chosen l m which which' (Below_trans a i l m up up');
        left = λ lt. Below_trans a (2 * i + 1) l m (left lt) up';
        right = right;
      },
    )
  where
    chosen :
        (l m : ℕ)
        → ((l ≡ i) ⊎ ((l ≡ 2 * i + 1) × (2 * i + 1 < n)))
        → ((m ≡ l) ⊎ ((m ≡ 2 * i + 2) × (2 * i + 2 < n)))
        → Below a i m
        → (m ≡ i) ⊎ ((0 < m) × (m < n) × (parent m ≡ i) × Below a i m)
    chosen l m (inl e) (inl f) b = inl (f ∙ e)
    chosen l m (inr (e, lt)) (inl f) b =
        inr (omega (arith, e, f), omega (arith, e, f, lt), omega (arith, e, f), b)
    chosen l m u (inr (f, lt)) b = inr (omega (arith, f), omega (arith, f, lt), omega (arith, f), b)
