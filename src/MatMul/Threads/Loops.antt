-- ===== src/MatMul/Threads/Loops.antt =====
-- The tests of the loops of multiply: where a slice is after a statement.
use gjworks.Common.{
  ℕ, suc, ◌+◌, ◌-◌, ◌*◌, ◌%◌, ◌^◌, ◌≤◌, ◌<◌, ◌≡◌, ◌≢◌, inl, inr, refl, sym, ap, ◌∙◌, subst, ltb,
  equal-cases, Bool-cases, arith,
}
use gjworks.MatMul.{Matrix, size, set_at}
use gjworks.MatMul.Product.{dot, product, set_at-here, set_at-other}
use gjworks.MatMul.Threads.{
  Place, unborn, clearing, adding, ended, overflow, from_row, to_row, at_row, at_column, at_product,
}
use gjworks.MatMul.Threads.Rows.{RowsDone, Before, Good}

-- The statements that a slice has made.
abbrev pub progress : ℕ → ℕ → Place → ℕ
progress lo hi unborn = 0
progress lo hi (clearing i j) = (i - lo) * 20 + j * 5
progress lo hi (adding i j k) = (i - lo) * 20 + j * 5 + 1 + k
progress lo hi overflow = 0
progress lo hi ended = (hi - lo) * 20

module _ (num_threads s : ℕ) (a b : Matrix) where
  -- A place where a slice may be, after a number of statements.
  abbrev pub IsAt : Place → ℕ → Matrix → Type 0
  IsAt w n c =
      Good a b (from_row num_threads s) (to_row num_threads s) w c
      × (progress (from_row num_threads s) (to_row num_threads s) w ≡ n)
      × (w ≢ unborn)

  -- The tests of the loops lead to such places.
  pub at_row-IsAt :
      (i : ℕ) (c : Matrix)
      → from_row num_threads s ≤ i
      → i ≤ to_row num_threads s
      → RowsDone a b c (from_row num_threads s) i
      → IsAt (at_row num_threads s i) ((i - from_row num_threads s) * 20) c
  at_row-IsAt i c le le' done = elim (Bool-cases (ltb i (to_row num_threads s))) [
    | inl e ↦ rw (e) (
      (
        ground (arith, e),
        omega arith,
        record { begun = le; rows_done = done; row_done = λ q lt. absurd (omega arith) },
      ),
      omega arith,
      λ f. cc,
    )
    | inr e ↦
        let last : i ≡ to_row num_threads s = ground (arith, e, le') in
        rw (e) (
          λ p q lo hi in_q. done p q lo (omega (arith, last, hi)) in_q,
          ap (λ r. (r - from_row num_threads s) * 20) (sym last),
          λ f. cc,
        )
  ]

  at_column-IsAt :
      (i j : ℕ) (c : Matrix)
      → i < to_row num_threads s
      → j ≤ size
      → Before a b (from_row num_threads s) i j c
      → IsAt (at_column num_threads s i j) ((i - from_row num_threads s) * 20 + j * 5) c
  at_column-IsAt i j c lt le h = elim (Bool-cases (ltb j size)) [
    | inl e ↦ rw (e) ((lt, ground (arith, e), h), refl, λ f. cc)
    | inr e ↦
        let last : j ≡ size = ground (arith, e, le) in
        let (good, made, made_one) =
          at_row-IsAt (i + 1) c (omega (arith, h.begun)) (omega (arith, lt)) (λ p q lo hi in_q.
            elim (equal-cases p i) [
              | inl same ↦ rw (same) (h.row_done q (omega (arith, last, in_q)))
              | inr other ↦ h.rows_done p q lo (omega arith) in_q
            ]) in
        rw (e) (good, omega (arith, made, last, h.begun), made_one)
  ]

  pub at_product-IsAt :
      (i j k : ℕ) (c : Matrix)
      → i < to_row num_threads s
      → j < size
      → Before a b (from_row num_threads s) i j c
      → k ≤ size
      → dot a b (size - k) i j k (c i j) ≡ product a b i j
      → IsAt (at_product num_threads s i j k) ((i - from_row num_threads s) * 20 + j * 5 + 1 + k) c
  at_product-IsAt i j k c lt lt' h le sum = elim (Bool-cases (ltb k size)) [
    | inl e ↦ rw (e) ((lt, lt', h, ground (arith, e), sum), refl, λ f. cc)
    | inr e ↦
        let last : k ≡ size = ground (arith, e, le) in
        let here : c i j ≡ product a b i j =
          subst (λ r. dot a b (size - r) i j r (c i j) ≡ product a b i j) last sum in
        let (good, made, made_one) = at_column-IsAt i (j + 1) c lt (omega arith) (record {
          begun = h.begun;
          rows_done = h.rows_done;
          row_done = λ q before. elim (equal-cases q j) [
            | inl same ↦ rw (same) here
            | inr other ↦ h.row_done q (omega arith)
          ];
        }) in
        rw (e) (good, omega (arith, made, last), made_one)
  ]

  -- A statement writes the element at `i` and `j`.
  Before-set_at :
      (lo i j v : ℕ) (c : Matrix) → Before a b lo i j c → Before a b lo i j (set_at c i j v)
  Before-set_at lo i j v c h = record {
    begun = h.begun;
    rows_done = λ p q le lt in_q.
        set_at-other c i j v p q (inl (λ e. omega arith)) ∙ h.rows_done p q le lt in_q;
    row_done = λ q lt. set_at-other c i j v i q (inr (λ e. omega arith)) ∙ h.row_done q lt;
  }

  pub clear-IsAt :
      (i j : ℕ) (c : Matrix)
      → Good a b (from_row num_threads s) (to_row num_threads s) (clearing i j) c
      → IsAt
          (at_product num_threads s i j 0)
          ((i - from_row num_threads s) * 20 + j * 5 + 1)
          (set_at c i j 0)
  unfolding product
  clear-IsAt i j c (lt, lt', h) =
      let (good, made, made_one) =
        at_product-IsAt i j 0 (set_at c i j 0) lt lt'
          (Before-set_at (from_row num_threads s) i j 0 c h) (omega arith)
          (ap (λ v. dot a b size i j 0 v) (set_at-here c i j 0)) in
      (good, omega (arith, made), made_one)

  pub add-IsAt :
      (i j k : ℕ) (c : Matrix)
      → Good a b (from_row num_threads s) (to_row num_threads s) (adding i j k) c
      → IsAt
          (at_product num_threads s i j (k + 1))
          ((i - from_row num_threads s) * 20 + j * 5 + 1 + k + 1)
          (set_at c i j ((c i j + a i k * b k j) % 2 ^ 32))
  add-IsAt i j k c (lt, lt', h, in_k, sum) =
      let v = (c i j + a i k * b k j) % 2 ^ 32 in
      let left : size - k ≡ suc (size - (k + 1)) = omega (arith, in_k) in
      let rest : dot a b (size - (k + 1)) i j (k + 1) v ≡ product a b i j =
        ap (λ t. dot a b t i j k (c i j)) (sym left) ∙ sum in
      let (good, made, made_one) =
        at_product-IsAt i j (k + 1) (set_at c i j v) lt lt'
          (Before-set_at (from_row num_threads s) i j v c h) (omega (arith, in_k))
          (ap (λ x. dot a b (size - (k + 1)) i j (k + 1) x) (set_at-here c i j v) ∙ rest) in
      (good, omega (arith, made), made_one)
