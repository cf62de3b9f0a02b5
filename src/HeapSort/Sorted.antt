-- ===== src/HeapSort/Sorted.antt =====
-- heapsort sorts.
use gjworks.Common.{
  ℕ, zero, suc, ◌-◌, ◌/◌, ◌≤◌, ◌<◌, ◌≡◌, inl, inr, refl, sym, subst, ap, ◌∙◌, false, List, length,
  equal-cases, arith,
}
use mathlib.Core.List.{Perm}
use mathlib.Core.List.Perm
use gjworks.Machine.{ok}
use gjworks.Machine.Array.{swap-Swapped, Swapped}
use gjworks.Integer.{ℤ, pos, less, less_trans_not, less_irrefl}
use gjworks.HeapSort.{build_from, build_max_heap, sort_from, heapsort}
use gjworks.HeapSort.Heaps.{val, Below, parent, IsHeap, IsHeapBut}
use gjworks.HeapSort.Heapify.{Heapified, max_heapify-Heapified}

-- A heap from `i + 1` on is one but for `i` from `i` on.
widen : (a : List ℤ) (i n : ℕ) → IsHeap a (suc i) n → IsHeapBut a i i n
widen a i n h = record {
  rest = λ c pos_c lt le ne. h c pos_c lt (omega (arith, le, ne));
  over = λ c pos_c lt e pos_i le. absurd (omega (arith, pos_i, le));
}

build_from-IsHeap :
    (fuel : ℕ) (a : List ℤ) (i n : ℕ)
    → n ≤ length a
    → i ≤ n
    → n < fuel
    → IsHeap a (suc i) n
    → (b : List ℤ) × (build_from fuel a i n ≡ ok b) × Heapified a b 0 n
unfolding build_from
build_from-IsHeap fuel a zero n len le enough h =
    max_heapify-Heapified fuel a 0 0 n len le (omega (arith, enough)) (omega arith) (widen a 0 n h)
build_from-IsHeap fuel a (suc i) n len le enough h =
    let (b, run, f) =
      max_heapify-Heapified fuel a (suc i) (suc i) n len le (omega (arith, enough)) (omega arith)
        (widen a (suc i) n h) in
    let (c, run', g) =
      build_from-IsHeap fuel b i n (omega (arith, len, f.same_length)) (omega (arith, le)) enough
        f.heap in
    (
      c,
      rw (run) run',
      record {
        same_length = g.same_length ∙ f.same_length;
        perm = Perm.trans g.perm f.perm;
        heap = g.heap;
        kept = λ q out. g.kept q out ∙ f.kept q out;
        top = λ v t. g.top v (f.top v t);
      },
    )

build_max_heap-IsHeap :
    (fuel : ℕ) (a : List ℤ) (n : ℕ)
    → n ≤ length a
    → n < fuel
    → (b : List ℤ) × (build_max_heap fuel a n ≡ ok b) × Heapified a b 0 n
unfolding build_max_heap
build_max_heap-IsHeap fuel a n len enough =
    build_from-IsHeap fuel a (n / 2) n len (omega arith) enough
      (λ c pos_c lt le. absurd (omega (arith, lt, le)))

-- The first number of a heap is a largest one.
root-Below : (fuel : ℕ) (a : List ℤ) (n c : ℕ) → IsHeap a 0 n → c < n → c ≤ fuel → Below a c 0
root-Below zero a n c h lt le =
    let z : c ≡ 0 = omega (arith, le) in subst (λ q. Below a q 0) (sym z) (less_irrefl (val a 0))
root-Below (suc fuel) a n c h lt le = elim (equal-cases c 0) [
  | inl z ↦ subst (λ q. Below a q 0) (sym z) (less_irrefl (val a 0))
  | inr nz ↦
      less_trans_not (val a c) (val a (parent c)) (val a 0)
        (h c (omega (arith, nz)) lt (omega arith))
        (root-Below fuel a n (parent c) h (omega (arith, lt, nz)) (omega (arith, le, nz)))
]

-- No number up to `n` is smaller than one before it, but for those up to `i`.
abbrev pub IsTail : List ℤ → ℕ → ℕ → Type 0
IsTail a i n = (p q : ℕ) → p < q → i < q → q < n → Below a p q

Swapped-IsHeapBut :
    (a b : List ℤ) (i : ℕ)
    → IsHeap a 0 (suc (suc i))
    → Swapped (pos 0) a b 0 (suc i)
    → IsHeapBut b 0 0 (suc i)
Swapped-IsHeapBut a b i heap sw = record {
  rest = λ c pos_c lt le ne.
      rw
        (
          sw.kept c (λ e. omega (arith, e, pos_c)) (λ e. omega (arith, e, lt)),
          sw.kept (parent c) ne (λ e. omega (arith, e, lt, pos_c)),
        )
        (heap c pos_c (omega (arith, lt)) le);
  over = λ c pos_c lt e pos_0 le. absurd (omega (arith, pos_0));
}

-- A round of the loop of heapsort: the largest number goes behind the heap.
module _ (a b c : List ℤ) (i n : ℕ) (in_n : suc i < n) (heap : IsHeap a 0 (suc (suc i)))
    (tail : IsTail a (suc i) n) (sw : Swapped (pos 0) a b 0 (suc i))
    (h : Heapified b c 0 (suc i)) where
  behind : (q : ℕ) → suc i < q → val c q ≡ val a q
  behind q lt =
      h.kept q (omega (arith, lt))
      ∙ sw.kept q (λ e. omega (arith, e, lt)) (λ e. omega (arith, e, lt))

  -- The number that went to `suc i`.
  moved : val c (suc i) ≡ val a 0
  moved = h.kept (suc i) (omega arith) ∙ sw.there

  swapped_top :
      (v : ℤ)
      → ((r : ℕ) → r < suc (suc i) → less v (val a r) ≡ false)
      → (r : ℕ) → r < suc i
      → less v (val b r) ≡ false
  swapped_top v t r lt = elim (equal-cases r 0) [
    | inl e ↦ ap (λ x. less v x) (ap (val b) e ∙ sw.here) ∙ t (suc i) (omega arith)
    | inr ne ↦
        ap (λ x. less v x) (sw.kept r ne (λ e. omega (arith, e, lt))) ∙ t r (omega (arith, lt))
  ]

  round-IsTail : IsTail c i n
  round-IsTail p q lt past in_q = elim (equal-cases q (suc i)) [
    | inl e ↦
        ap (λ x. less x (val c p)) (ap (val c) e ∙ moved)
        ∙ h.top (val a 0)
            (swapped_top (val a 0)
              (λ r in_r. root-Below r a (suc (suc i)) r heap in_r (omega arith)))
            p (omega (arith, e, lt))
    | inr ne ↦
        let far : suc i < q = omega (arith, ne, past) in
        let same = ap (λ x. less x (val c p)) (behind q far) in
        elim (equal-cases p (suc i)) [
          | inl e ↦
              same
              ∙ (ap (λ x. less (val a q) x) (ap (val c) e ∙ moved)
                  ∙ tail 0 q (omega (arith, far)) far in_q)
          | inr ne' ↦ elim (equal-cases (p - suc i) 0) [
            | inl e ↦
                same
                ∙ h.top (val a q)
                    (swapped_top (val a q) (λ r in_r. tail r q (omega (arith, in_r, far)) far in_q))
                    p (omega (arith, e, ne'))
            | inr e ↦
                same
                ∙ (ap (λ x. less (val a q) x) (behind p (omega (arith, e))) ∙ tail p q lt far in_q)
          ]
        ]
  ]

-- What heapsort leaves: the same numbers, the first `n` in order, the others as they were.
pub record Sorted (a b : List ℤ) (n : ℕ) : Type 0 where
  pub same_length : length b ≡ length a
  pub perm : Perm b a
  pub in_order : (p q : ℕ) → p < q → q < n → Below b p q
  pub kept : (q : ℕ) → n ≤ q → val b q ≡ val a q

sort_from-Sorted :
    (fuel : ℕ) (a : List ℤ) (i n : ℕ)
    → n ≤ length a
    → i < n
    → n < fuel
    → IsHeap a 0 (suc i)
    → IsTail a i n
    → (b : List ℤ) × (sort_from fuel a i ≡ ok b) × Sorted a b n
unfolding sort_from
sort_from-Sorted fuel a zero n len lt enough heap tail = (
  a,
  refl,
  record {
    same_length = refl;
    perm = Perm.refl a;
    in_order = λ p q before in_q. tail p q before (omega (arith, before)) in_q;
    kept = λ q out. refl;
  },
)
sort_from-Sorted fuel a (suc i) n len lt enough heap tail =
    let (b, run, sw) = swap-Swapped (pos 0) a 0 (suc i) (omega arith) (omega (arith, lt, len)) in
    let but = Swapped-IsHeapBut a b i heap sw in
    let (c, run', h) =
      max_heapify-Heapified fuel b 0 0 (suc i) (omega (arith, lt, len, sw.same_length))
        (omega arith) (omega (arith, enough, lt)) (omega arith) but in
    let (d, run'', s) =
      sort_from-Sorted fuel c i n (omega (arith, len, h.same_length, sw.same_length))
        (omega (arith, lt)) enough h.heap (round-IsTail a b c i n lt heap tail sw h) in
    (
      d,
      rw (run, run') run'',
      record {
        same_length = s.same_length ∙ (h.same_length ∙ sw.same_length);
        perm = Perm.trans s.perm (Perm.trans h.perm sw.perm);
        in_order = s.in_order;
        kept = λ q out.
            s.kept q out
            ∙ (h.kept q (omega (arith, out, lt))
                ∙ sw.kept q (λ e. omega (arith, e, out, lt)) (λ e. omega (arith, e, out, lt)));
      },
    )

-- heapsort returns with every array of at least `n` numbers, and leaves its first `n` numbers in
-- order, the others as they were, and the same numbers in all; each recursion of max_heapify ends
-- within `n + 1` calls.
pub heapsort-Sorted :
    (fuel : ℕ) (a : List ℤ) (n : ℕ)
    → n ≤ length a
    → n < fuel
    → (b : List ℤ) × (heapsort fuel a n ≡ ok b) × Sorted a b n
unfolding heapsort sort_from
heapsort-Sorted fuel a zero len enough =
    let (b, run, h) = build_max_heap-IsHeap fuel a 0 len enough in
    (
      b,
      rw (run) refl,
      record {
        same_length = h.same_length;
        perm = h.perm;
        in_order = λ p q before in_q. absurd (omega (arith, in_q));
        kept = h.kept;
      },
    )
heapsort-Sorted fuel a (suc n) len enough =
    let (b, run, h) = build_max_heap-IsHeap fuel a (suc n) len enough in
    let (c, run', s) =
      sort_from-Sorted fuel b n (suc n) (omega (arith, len, h.same_length)) (omega arith) enough
        h.heap (λ p q before past in_q. absurd (omega (arith, past, in_q))) in
    let last : suc n - 1 ≡ n = omega arith in
    (
      c,
      rw (run, last) run',
      record {
        same_length = s.same_length ∙ h.same_length;
        perm = Perm.trans s.perm h.perm;
        in_order = s.in_order;
        kept = λ q out. s.kept q out ∙ h.kept q out;
      },
    )
