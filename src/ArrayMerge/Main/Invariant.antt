-- ===== src/ArrayMerge/Main/Invariant.antt =====
-- What holds of every state that the program comes to.
use gjworks.Common.{
  ℕ, ◌+◌, ◌*◌, ◌<◌, ◌≡◌, ◌≢◌, refl, sym, ◌∙◌, ap, inl, inr, List, ◌++◌, Option, none, some,
  ==_other, ==_refl, length, equal-cases, sum_to, sum_to-change, arith,
}
use gjworks.Integer.{ℤ, pos}
use gjworks.Machine.Array.{at}
use gjworks.ArrayMerge.Order.{in_order}
use gjworks.ArrayMerge.Placing.{place_of}
use gjworks.ArrayMerge.Main.{
  Master, creating, locking, to_wait, waiting, waking, to_unlock, joining, finished, failed, Worker,
  unborn, starting, signalling, unlocking, placing, ended, State, put, size3,
}
use gjworks.ArrayMerge.Main.Phases.{Past, Now}

-- The count at a call of main.
abbrev pub counted_of : Master → ℕ → ℕ
counted_of to_unlock i = i + 1
counted_of _ i = i

-- The loop counter, and that of the joins.
abbrev pub InBounds : ℕ → Master → ℕ → Type 0
InBounds size (joining j) i = (i ≡ size) × (j < size)
InBounds size finished i = i ≡ size
InBounds size _ i = i < size

abbrev pub joined_of : ℕ → Master → ℕ
joined_of size (joining j) = j
joined_of size finished = size
joined_of size _ = 0

-- The calls that main has made, and those that a thread has made.
abbrev pub master_steps : ℕ → Master → ℕ → ℕ
master_steps size creating i = 5 * i
master_steps size locking i = 5 * i + 1
master_steps size to_wait i = 5 * i + 2
master_steps size waiting i = 5 * i + 3
master_steps size waking i = 5 * i + 3
master_steps size to_unlock i = 5 * i + 4
master_steps size (joining j) i = 5 * size + j
master_steps size finished i = 6 * size
master_steps size failed i = 5 * i + 1

abbrev pub worker_steps : Worker → ℕ
worker_steps unborn = 0
worker_steps starting = 0
worker_steps (signalling c) = 1
worker_steps (unlocking c) = 2
worker_steps (placing c) = 3
worker_steps ended = 4

abbrev pub total : ℕ → (ℕ → Worker) → ℕ
total n f = sum_to n (λ k. worker_steps (f k))

pub put_same : (k : ℕ) (w : Worker) (f : ℕ → Worker) → put k w f k ≡ w
put_same k w f = rw (==_refl k) refl

pub put_other : (k : ℕ) (w : Worker) (f : ℕ → Worker) (q : ℕ) → k ≢ q → put k w f q ≡ f q
put_other k w f q ne = rw (==_other k q ne) refl

pub total-put :
    (n k : ℕ) (w : Worker) (f : ℕ → Worker)
    → k < n
    → total n (put k w f) + worker_steps (f k) ≡ total n f + worker_steps w
total-put n k w f lt = omega (
  arith,
  sum_to-change n k (λ q. worker_steps (f q)) (λ q. worker_steps (put k w f q)) lt
      (λ q ne. ap worker_steps (put_other k w f q ne)),
  ap worker_steps (put_same k w f),
)

-- All the places of the third array whose threads have ended are as the ordered list has them.
pub record Inv (arr1 arr2 : List ℤ) (n : ℕ) (m : Master) (s : State) : Type 0 where
  pub here : s.master ≡ m
  pub long : length s.arr3 ≡ size3 arr1 arr2
  pub written :
      (k : ℕ)
      → k < size3 arr1 arr2
      → s.worker k ≡ ended
      → at (pos 0) s.arr3 (place_of arr1 arr2 k)
        ≡ at (pos 0) (in_order (arr1 ++ arr2)) (place_of arr1 arr2 k)
  pub older : (k : ℕ) → k < s.i → Past k (s.worker k)
  pub later : (k : ℕ) → s.i < k → s.worker k ≡ unborn
  pub now : Now m s.i (s.worker s.i) s.mutex_var
  pub counted : s.count ≡ counted_of m s.i
  pub bounds : InBounds (size3 arr1 arr2) m s.i
  pub joined : (k : ℕ) → k < joined_of (size3 arr1 arr2) m → s.worker k ≡ ended
  pub steps : n ≡ master_steps (size3 arr1 arr2) m s.i + total (size3 arr1 arr2) s.worker

-- The invariant after a step, if it is one.
abbrev pub Keeps : List ℤ → List ℤ → ℕ → Master → Option State → Type 0
Keeps arr1 arr2 n m none = Unit
Keeps arr1 arr2 n m (some s) = Inv arr1 arr2 n m s

-- A thread that is put elsewhere than at its end is not one of those that have ended.
pub put_ended :
    (k : ℕ) (w : Worker) (f : ℕ → Worker) (q : ℕ) → w ≢ ended → put k w f q ≡ ended → f q ≡ ended
put_ended k w f q ne e = elim (equal-cases k q) [
  | inl same ↦ absurd (ne (sym (put_same k w f) ∙ (ap (put k w f) same ∙ e)))
  | inr other ↦ sym (put_other k w f q other) ∙ e
]
