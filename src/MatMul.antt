-- ===== src/MatMul.antt =====
-- Mat_Mul_Threads/mat_mul.c: the product of two matrices of SIZE rows and columns, a slice of rows
-- for each thread. An int is its 32-bit pattern; the sums and products are taken to wrap around.
pub mod Product
pub mod Slices
pub mod Threads
mod Tests
use gjworks.Common.{
  ◌||◌, leb, ℕ, zero, suc, ◌+◌, ◌-◌, ◌*◌, ◌/◌, ◌%◌, ◌^◌, Bool, ◌&&◌, List, [], ◌∷◌, ◌==◌,
  if◌then◌else◌,
}
use gjworks.Machine.{Run, ok, fault, ◌>>=◌}

abbrev pub size : ℕ
size = 4

-- `mat[i][j]`
abbrev pub Matrix : Type 0
Matrix = ℕ → ℕ → ℕ

-- `mat[i][j] = v`
abbrev pub set_at : Matrix → ℕ → ℕ → ℕ → Matrix
set_at c i j v p q = if (p == i) && (q == j) then v else c p q

-- init_matrix: the loop over the columns, `times` rounds from `j` on, and the one over the rows.
unfoldable pub init_columns : ℕ → ℕ → ℕ → Matrix → Matrix
init_columns zero i j mat = mat
init_columns (suc times) i j mat = init_columns times i (j + 1) (set_at mat i j (i + j))

unfoldable pub init_rows : ℕ → ℕ → Matrix → Matrix
unfolding init_columns
init_rows zero i mat = mat
init_rows (suc times) i mat = init_rows times (i + 1) (init_columns size i 0 mat)

unfoldable pub init_matrix : Matrix → Matrix
unfolding init_rows
init_matrix mat = init_rows size 0 mat

module _ (a b : Matrix) where
  -- The loops of multiply over k, j and i, as many rounds as the first argument says.
  unfoldable pub add_products : ℕ → ℕ → ℕ → ℕ → Matrix → Matrix
  add_products zero i j k c = c
  add_products (suc times) i j k c =
      add_products times i j (k + 1) (set_at c i j ((c i j + a i k * b k j) % 2 ^ 32))

  unfoldable pub columns : ℕ → ℕ → ℕ → Matrix → Matrix
  columns zero i j c = c
  columns (suc times) i j c = columns times i (j + 1) (add_products size i j 0 (set_at c i j 0))

  unfoldable pub rows : ℕ → ℕ → Matrix → Matrix
  rows zero i c = c
  rows (suc times) i c = rows times (i + 1) (columns size i 0 c)

  -- multiply, for the slice `s`. Without threads it divides by 0; bounds that do not fit in an `int`
  -- are undefined.
  unfoldable pub multiply : ℕ → ℕ → Matrix → Run Matrix
  multiply num_threads s c =
      let from = s * size / num_threads in
      let to = (s + 1) * size / num_threads in
      if (num_threads == 0) || leb (2 ^ 31) ((s + 1) * size)
      then fault
      else ok (rows (to - from) from c)

  -- The slices in the order in which they are done.
  unfoldable pub multiply_all : ℕ → List ℕ → Matrix → Run Matrix
  unfolding multiply rows columns add_products
  multiply_all num_threads [] c = ok c
  multiply_all num_threads (s ∷ slices) c =
      multiply num_threads s c >>= λ d. multiply_all num_threads slices d
