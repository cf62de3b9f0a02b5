-- ===== src/MatMul/Product.antt =====
-- The rows that the loops of multiply fill.
use gjworks.Common.{
  ℕ, zero, suc, ◌+◌, ◌*◌, ◌%◌, ◌^◌, ◌≤◌, ◌<◌, ◌≡◌, ◌≢◌, ◌⊎◌, inl, inr, refl, sym, ap, ◌∙◌,
  equal-cases, arith, subst,
}
use gjworks.MatMul.{Matrix, size, set_at, add_products, columns, rows}

pub set_at-here : (c : Matrix) (i j v : ℕ) → set_at c i j v i j ≡ v
set_at-here c i j v = ground arith

pub set_at-other : (c : Matrix) (i j v p q : ℕ) → (p ≢ i) ⊎ (q ≢ j) → set_at c i j v p q ≡ c p q
set_at-other c i j v p q h = ground arith

module _ (a b : Matrix) where
  -- The sum of the products from `k` on, added to `v`, modulo 2 ^ 32.
  abbrev pub dot : ℕ → ℕ → ℕ → ℕ → ℕ → ℕ
  dot zero i j k v = v
  dot (suc times) i j k v = dot times i j (k + 1) ((v + a i k * b k j) % 2 ^ 32)

  -- The product of the two matrices.
  unfoldable pub product : Matrix
  product i j = dot size i j 0 0

  add_products-dot :
      (times i j k : ℕ) (c : Matrix) → add_products a b times i j k c i j ≡ dot times i j k (c i j)
  unfolding add_products
  add_products-dot zero i j k c = refl
  add_products-dot (suc times) i j k c =
      let v = (c i j + a i k * b k j) % 2 ^ 32 in
      add_products-dot times i j (k + 1) (set_at c i j v)
      ∙ ap (λ x. dot times i j (k + 1) x) (set_at-here c i j v)

  add_products-other :
      (times i j k : ℕ) (c : Matrix) (p q : ℕ)
      → (p ≢ i) ⊎ (q ≢ j)
      → add_products a b times i j k c p q ≡ c p q
  unfolding add_products
  add_products-other zero i j k c p q h = refl
  add_products-other (suc times) i j k c p q h =
      let v = (c i j + a i k * b k j) % 2 ^ 32 in
      add_products-other times i j (k + 1) (set_at c i j v) p q h ∙ set_at-other c i j v p q h

  -- An element after its loop over k.
  abbrev cell : ℕ → ℕ → Matrix → Matrix
  cell i j c = add_products a b size i j 0 (set_at c i j 0)

  cell-product : (i j : ℕ) (c : Matrix) → cell i j c i j ≡ product i j
  unfolding product
  cell-product i j c =
      add_products-dot size i j 0 (set_at c i j 0)
      ∙ ap (λ x. dot size i j 0 x) (set_at-here c i j 0)

  cell-other : (i j : ℕ) (c : Matrix) (p q : ℕ) → (p ≢ i) ⊎ (q ≢ j) → cell i j c p q ≡ c p q
  cell-other i j c p q h =
      add_products-other size i j 0 (set_at c i j 0) p q h ∙ set_at-other c i j 0 p q h

  columns-other :
      (times i j : ℕ) (c : Matrix) (p q : ℕ)
      → (p ≢ i) ⊎ (q < j)
      → columns a b times i j c p q ≡ c p q
  unfolding columns
  columns-other zero i j c p q h = refl
  columns-other (suc times) i j c p q h =
      let later : (p ≢ i) ⊎ (q < j + 1) = ground (arith, h) in
      let here : (p ≢ i) ⊎ (q ≢ j) = ground (arith, h) in
      columns-other times i (j + 1) (cell i j c) p q later ∙ cell-other i j c p q here

  columns-product :
      (times i j : ℕ) (c : Matrix) (q : ℕ)
      → j ≤ q
      → q < j + times
      → columns a b times i j c i q ≡ product i q
  unfolding columns
  columns-product zero i j c q le lt = absurd (omega (arith, le, lt))
  columns-product (suc times) i j c q le lt = elim (equal-cases q j) [
    | inl e ↦
        columns-other times i (j + 1) (cell i j c) i q (inr (omega (arith, e)))
        ∙ subst (λ r. cell i j c i r ≡ product i r) (sym e) (cell-product i j c)
    | inr ne ↦
        columns-product times i (j + 1) (cell i j c) q (omega (arith, le, ne)) (omega (arith, lt))
  ]

  pub rows-other :
      (times i : ℕ) (c : Matrix) (p q : ℕ)
      → (p < i) ⊎ (i + times ≤ p)
      → rows a b times i c p q ≡ c p q
  unfolding rows
  rows-other zero i c p q h = refl
  rows-other (suc times) i c p q h =
      let later : (p < i + 1) ⊎ (i + 1 + times ≤ p) = ground (arith, h) in
      let here : p ≢ i = ground (arith, h) in
      rows-other times (i + 1) (columns a b size i 0 c) p q later
      ∙ columns-other size i 0 c p q (inl here)

  pub rows-product :
      (times i : ℕ) (c : Matrix) (p q : ℕ)
      → i ≤ p
      → p < i + times
      → q < size
      → rows a b times i c p q ≡ product p q
  unfolding rows
  rows-product zero i c p q le lt in_q = absurd (omega (arith, le, lt))
  rows-product (suc times) i c p q le lt in_q = elim (equal-cases p i) [
    | inl e ↦
        rows-other times (i + 1) (columns a b size i 0 c) p q (inl (omega (arith, e)))
        ∙ subst (λ r. columns a b size i 0 c r q ≡ product r q) (sym e)
            (columns-product size i 0 c q (omega arith) (omega (arith, in_q)))
    | inr ne ↦
        rows-product times (i + 1) (columns a b size i 0 c) p q (omega (arith, le, ne))
          (omega (arith, lt)) in_q
  ]
