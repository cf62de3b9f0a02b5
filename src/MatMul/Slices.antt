-- ===== src/MatMul/Slices.antt =====
-- The slices together are the product.
use gjworks.Common.{
  All, ◌^◌, ℕ, zero, suc, ◌+◌, ◌-◌, ◌*◌, ◌/◌, ◌≤◌, ◌<◌, ◌≡◌, ◌⊎◌, inl, inr, refl, sym, ◌∙◌, false,
  ◌&&◌, List, [], ◌∷◌, ◌==◌, leb, ltb, Bool-cases, arith, subst,
}
use native.Mathlib.Nat.{mul-div_cancel_left, zero-div}
use gjworks.Machine.{ok}
use gjworks.MatMul.Product.{product, rows-other, rows-product}
use gjworks.MatMul.{Matrix, size, rows, multiply, multiply_all}

-- A function that is at most `i` at first and larger at `m` passes `i` in some step before.
pub passes :
    (f : ℕ → ℕ) (i m : ℕ) → f 0 ≤ i → i < f m → (s : ℕ) × (s < m) × (f s ≤ i) × (i < f (s + 1))
passes f i zero le lt = absurd (omega (arith, le, lt))
passes f i (suc m) le lt = elim (Bool-cases (ltb i (f m))) [
  | inl e ↦
      let (s, before, x, y) = passes f i m le (ground (arith, e)) in
      (s, omega (arith, before), x, y)
  | inr e ↦
      let step : m + 1 ≡ suc m = omega arith in
      (m, omega arith, ground (arith, e), subst (λ k. i < f k) (sym step) lt)
]

-- The slice is among those that are done.
abbrev pub IsIn : ℕ → List ℕ → Type 0
IsIn s [] = ⊥
IsIn s (t ∷ slices) = (s ≡ t) ⊎ IsIn s slices

-- The row is one of the slice.
abbrev Covers : ℕ → ℕ → ℕ → Type 0
Covers num_threads s p = (s * size / num_threads ≤ p) × (p < (s + 1) * size / num_threads)

module _ (a b : Matrix) (num_threads : ℕ) (some_threads : 0 < num_threads) where
  -- A slice makes its rows those of the product, and keeps them.
  multiply-product :
      (s : ℕ) (c : Matrix)
      → (s + 1) * size < 2 ^ 31
      → (d : Matrix) × (multiply a b num_threads s c ≡ ok d)
        × ((p q : ℕ)
            → q < size
            → (c p q ≡ product a b p q) ⊎ Covers num_threads s p
            → d p q ≡ product a b p q)
  unfolding multiply
  multiply-product s c fits =
      let from = s * size / num_threads in
      let to = (s + 1) * size / num_threads in
      let times = to - from in
      let nz : (num_threads == 0) ≡ false = ground (arith, some_threads) in
      let fit : leb (2 ^ 31) ((s + 1) * size) ≡ false = ground (arith, fits) in
      (rows a b times from c, rw (nz, fit) refl, λ p q in_q h. done p q from to times refl in_q h)
    where
      done :
          (p q from to times : ℕ)
          → times ≡ to - from
          → q < size
          → (c p q ≡ product a b p q) ⊎ ((from ≤ p) × (p < to))
          → rows a b times from c p q ≡ product a b p q
      done p q from to times e in_q (inr (le, lt)) =
          rows-product a b times from c p q le (omega (arith, e, le, lt)) in_q
      done p q from to times e in_q (inl h) =
          elim (Bool-cases (leb from p && ltb p (from + times))) [
            | inl f ↦ rows-product a b times from c p q (ground (arith, f)) (ground (arith, f)) in_q
            | inr f ↦ rows-other a b times from c p q (ground (arith, f)) ∙ h
          ]

  multiply_all-done :
      (slices : List ℕ) (c : Matrix)
      → All (λ s. (s + 1) * size < 2 ^ 31) slices
      → (d : Matrix) × (multiply_all a b num_threads slices c ≡ ok d)
        × ((p q : ℕ)
            → q < size
            → (c p q ≡ product a b p q) ⊎ ((s : ℕ) × IsIn s slices × Covers num_threads s p)
            → d p q ≡ product a b p q)
  unfolding multiply_all
  multiply_all-done [] c fits = (c, refl, λ p q in_q h. none_left p q h)
    where
      none_left :
          (p q : ℕ)
          → (c p q ≡ product a b p q) ⊎ ((s : ℕ) × IsIn s [] × Covers num_threads s p)
          → c p q ≡ product a b p q
      none_left p q (inl h) = h
      none_left p q (inr (s, h, k)) = absurd h
  multiply_all-done (t ∷ slices) c (fits, rest_fit) =
      let (d, run, one) = multiply-product t c fits in
      let (e, run', rest) = multiply_all-done slices d rest_fit in
      (e, rw (run) run', λ p q in_q h. rest p q in_q (after_first d p q in_q one h))
    where
      after_first :
          (d : Matrix) (p q : ℕ)
          → q < size
          → ((p q : ℕ)
              → q < size
              → (c p q ≡ product a b p q) ⊎ Covers num_threads t p
              → d p q ≡ product a b p q)
          → (c p q ≡ product a b p q) ⊎ ((s : ℕ) × IsIn s (t ∷ slices) × Covers num_threads s p)
          → (d p q ≡ product a b p q) ⊎ ((s : ℕ) × IsIn s slices × Covers num_threads s p)
      after_first d p q in_q one (inl h) = inl (one p q in_q (inl h))
      after_first d p q in_q one (inr (s, inl h, k)) =
          inl (one p q in_q (inr (subst (λ r. Covers num_threads r p) h k)))
      after_first d p q in_q one (inr (s, inr h, k)) = inr (s, h, k)

  -- Whatever the number of threads, if it is not 0, with slices whose bounds fit in an `int`, and in whatever order the slices are done,
  -- when each of them is done the matrix is the product, modulo 2 ^ 32, whatever it was before.
  pub multiply_all-product :
      (slices : List ℕ) (c : Matrix)
      → All (λ s. (s + 1) * size < 2 ^ 31) slices
      → ((s : ℕ) → s < num_threads → IsIn s slices)
      → (d : Matrix) × (multiply_all a b num_threads slices c ≡ ok d)
        × ((p q : ℕ) → p < size → q < size → d p q ≡ product a b p q)
  multiply_all-product slices c fits every =
      let (d, run, done) = multiply_all-done slices c fits in
      (d, run, λ p q in_p in_q. done p q in_q (inr (found p in_p)))
    where
      found : (p : ℕ) → p < size → (s : ℕ) × IsIn s slices × Covers num_threads s p
      found p in_p =
          let first : 0 * size / num_threads ≤ p = rw (zero-div num_threads) (omega arith) in
          let last : p < num_threads * size / num_threads =
            rw (mul-div_cancel_left size some_threads) in_p in
          let (s, lt, x, y) = passes (λ r. r * size / num_threads) p num_threads first last in
          (s, every s lt, (x, y))
