-- ===== src/MatMul/Tests.antt =====
-- Three threads, the last slice first.
use gjworks.Common.{ℕ, ◌+◌, ◌≤◌, ◌<◌, ◌≡◌, ◌⊎◌, refl, [], ◌∷◌, arith}
use gjworks.MatMul.{Matrix, size, set_at}
use gjworks.MatMul.Product.{product}
use gjworks.MatMul.Threads.{
  unborn, clearing, adding, joining, exited, State, main_thread, slice, put, step, Reached, begin,
  next,
}
use gjworks.MatMul.Threads.Ends.{Moves, threads-product}
use gjworks.MatMul.Slices.{IsIn}

abbrev sums : Matrix
sums i j = i + j

every : (s : ℕ) → s < 3 → IsIn s (2 ∷ 0 ∷ 1 ∷ [])
every s lt = ground arith

-- Row 1 of the product of the start matrix with itself, at column 2.
product_run : product sums sums 1 2 ≡ 40
unfolding product
product_run = refl

-- Two threads: main makes the other one, both clear an element, and main adds a product.
abbrev five_steps : State
five_steps = record {
  master = joining;
  place = put 0 (adding 0 0 1) (
      put 0 (adding 0 0 0)
        (put 1 (adding 2 0 0) (put 0 (clearing 0 0) (put 1 (clearing 2 0) (λ s. unborn)))));
  c = set_at (set_at (set_at sums 2 0 0) 0 0 0) 0 0 0;
}

five_steps-Reached : Reached 2 sums sums sums 5 five_steps
unfolding step
five_steps-Reached =
    next (slice 0)
      (next (slice 0) (next (slice 1) (next main_thread (next main_thread begin refl) refl) refl)
        refl)
      refl

threads-product_example :
    (5 ≤ 2 + 80)
    × (Moves 2 sums sums five_steps
        ⊎ (((five_steps.master ≡ joining)
              × ((p q : ℕ) → p < size → q < size → five_steps.c p q ≡ product sums sums p q))
            ⊎ (five_steps.master ≡ exited)))
threads-product_example =
    threads-product 2 sums sums sums (omega arith) (omega arith) five_steps-Reached
