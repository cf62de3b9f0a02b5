-- ===== src/MatMul/Threads/Rows.antt =====
-- The rows that a slice has done, at each of its statements.
use native.Mathlib.Nat.{le-div_iff_mul-le, div-mul-le_self}
use gjworks.Common.{
  ℕ, ◌+◌, ◌-◌, ◌*◌, ◌/◌, ◌≤◌, ◌<◌, ◌≡◌, ◌≢◌, inl, inr, ap, ◌∙◌, ltb, Bool-cases, arith,
}
use gjworks.MatMul.{Matrix, size}
use gjworks.MatMul.Product.{dot, product}
use gjworks.MatMul.Threads.{Place, unborn, clearing, adding, ended, overflow, from_row, to_row}

div-le_div : (a b k : ℕ) → 0 < k → a ≤ b → a / k ≤ b / k
div-le_div a b k pos le = (le-div_iff_mul-le pos).1 (omega (arith, div-mul-le_self a k))

module _ (num_threads : ℕ) (some_threads : 0 < num_threads) where
  pub from-le-to : (s : ℕ) → from_row num_threads s ≤ to_row num_threads s
  from-le-to s = div-le_div (s * size) ((s + 1) * size) num_threads some_threads (omega arith)

  -- An earlier slice ends where a later one begins, or before.
  to-le-from : (s t : ℕ) → s < t → to_row num_threads s ≤ from_row num_threads t
  to-le-from s t lt = div-le_div ((s + 1) * size) (t * size) num_threads some_threads (omega arith)

  -- No row is in two slices.
  pub slices_apart :
      (s t p : ℕ)
      → s ≢ t
      → from_row num_threads s ≤ p
      → p < to_row num_threads s
      → from_row num_threads t ≤ p
      → to_row num_threads t ≤ p
  slices_apart s t p ne le lt le' = elim (Bool-cases (ltb s t)) [
    | inl e ↦ absurd (omega (arith, to-le-from s t (ground (arith, e))))
    | inr e ↦ omega (arith, to-le-from t s (ground (arith, e, ne)))
  ]

module _ (a b : Matrix) where
  -- The rows from `lo` to before `hi` are those of the product.
  abbrev pub RowsDone : Matrix → ℕ → ℕ → Type 0
  RowsDone c lo hi = (p q : ℕ) → lo ≤ p → p < hi → q < size → c p q ≡ product a b p q

  -- The slice that begins at row `lo` has done all before the element at `i` and `j`.
  pub record Before (lo i j : ℕ) (c : Matrix) : Type 0 where
    pub begun : lo ≤ i
    pub rows_done : RowsDone c lo i
    pub row_done : (q : ℕ) → q < j → c i q ≡ product a b i q

  -- What holds of the matrix for a slice of the rows from `lo` to before `hi`, by its place.
  abbrev pub Good : ℕ → ℕ → Place → Matrix → Type 0
  Good lo hi unborn c = Unit
  Good lo hi (clearing i j) c = (i < hi) × (j < size) × Before lo i j c
  Good lo hi (adding i j k) c =
      (i < hi)
      × (j < size)
      × Before lo i j c
      × (k < size)
      × (dot a b (size - k) i j k (c i j) ≡ product a b i j)
  Good lo hi ended c = RowsDone c lo hi
  Good lo hi overflow c = ⊥

  Before-same :
      (lo hi i j : ℕ) (c c' : Matrix)
      → ((p q : ℕ) → lo ≤ p → p < hi → c' p q ≡ c p q)
      → i < hi
      → Before lo i j c
      → Before lo i j c'
  Before-same lo hi i j c c' same lt h = record {
    begun = h.begun;
    rows_done = λ p q le before in_q.
        same p q le (omega (arith, before, lt)) ∙ h.rows_done p q le before in_q;
    row_done = λ q before. same i q h.begun lt ∙ h.row_done q before;
  }

  -- A slice does not see what others write in other rows.
  pub Good-same :
      (lo hi : ℕ) (w : Place) (c c' : Matrix)
      → ((p q : ℕ) → lo ≤ p → p < hi → c' p q ≡ c p q)
      → Good lo hi w c
      → Good lo hi w c'
  Good-same lo hi unborn c c' same h = tt
  Good-same lo hi (clearing i j) c c' same (lt, lt', h) =
      (lt, lt', Before-same lo hi i j c c' same lt h)
  Good-same lo hi (adding i j k) c c' same (lt, lt', h, lt'', sum) = (
    lt,
    lt',
    Before-same lo hi i j c c' same lt h,
    lt'',
    ap (λ v. dot a b (size - k) i j k v) (same i j h.begun lt) ∙ sum,
  )
  Good-same lo hi overflow c c' same h = h
  Good-same lo hi ended c c' same h = λ p q le lt in_q. same p q le lt ∙ h p q le lt in_q
