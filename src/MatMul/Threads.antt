-- ===== src/MatMul/Threads.antt =====
-- Mat_Mul_Threads/mat_mul.c: main with its threads, each of which does its slice a statement at a
-- time, and main slice 0 itself. `num_threads` is what atoi returns, if this is not negative.
pub mod Rows
pub mod Loops
pub mod Invariant
pub mod Steps
pub mod Runs
pub mod Ends
use gjworks.Common.{
  ℕ, Bool, zero, suc, ◌+◌, ◌*◌, ◌/◌, ◌%◌, ◌^◌, ◌≡◌, Option, none, some, ltb, ◌==◌, if◌then◌else◌,
}
use gjworks.MatMul.{Matrix, size, set_at}

-- The next statement of a slice: `C[i][j] = 0`, or the round `k` of the loop after it. `overflow` is
-- where a bound of the slice does not fit in an `int`, which is undefined.
pub data Place : Type 0 where
  unborn : Place
  clearing : ℕ → ℕ → Place
  adding : ℕ → ℕ → ℕ → Place
  ended overflow : Place

-- The next call of main: pthread_create for a thread, multiply(0), or, after its slice,
-- pthread_join(*threads), whose argument is not set. `exited` is its end after perror.
pub data Master : Type 0 where
  creating : ℕ → Master
  to_multiply joining exited : Master

pub record State : Type 0 where
  pub master : Master
  pub place : ℕ → Place
  pub c : Matrix

-- main, a thread that pthread_create cannot make, and the slices.
pub data Actor : Type 0 where
  main_thread no_thread : Actor
  slice : ℕ → Actor

abbrev pub put : ℕ → Place → (ℕ → Place) → ℕ → Place
put s q place t = if s == t then q else place t

abbrev pub while_running : Master → Option State → Option State
while_running exited o = none
while_running other o = o

-- exit(-1) when a thread cannot be made.
unfoldable pub give_up : Master → State → Option State
give_up (creating i) t = some (record t { master = exited })
give_up other t = none

module _ (num_threads : ℕ) where
  -- `from` and `to` of a slice.
  abbrev pub from_row : ℕ → ℕ
  from_row s = s * size / num_threads

  abbrev pub to_row : ℕ → ℕ
  to_row s = (s + 1) * size / num_threads

  -- `s`, `from` and `to` are `int`.
  abbrev pub fits_int : ℕ → Bool
  fits_int s = ltb ((s + 1) * size) (2 ^ 31)

  -- The tests of the three loops.
  abbrev pub at_row : ℕ → ℕ → Place
  at_row s i = if ltb i (to_row s) then clearing i 0 else ended

  abbrev pub at_column : ℕ → ℕ → ℕ → Place
  at_column s i j = if ltb j size then clearing i j else at_row s (i + 1)

  abbrev pub at_product : ℕ → ℕ → ℕ → ℕ → Place
  at_product s i j k = if ltb k size then adding i j k else at_column s i (j + 1)

  -- A slice up to its first statement.
  abbrev pub begin_slice : ℕ → Place
  begin_slice s = if fits_int s then at_row s (from_row s) else overflow

  abbrev pub create_or_work : ℕ → Master
  create_or_work i = if ltb i num_threads then creating i else to_multiply

  unfoldable pub main_act : Master → State → Option State
  main_act (creating i) t =
      some (record t { master = create_or_work (i + 1); place = put i (begin_slice i) t.place })
  main_act to_multiply t =
      some (record t { master = joining; place = put 0 (begin_slice 0) t.place })
  main_act joining t = none
  main_act exited t = none

module _ (num_threads : ℕ) (a b : Matrix) where
  -- The next statement of the slice `s`.
  unfoldable pub multiply_act : Place → ℕ → State → Option State
  multiply_act unborn s t = none
  multiply_act (clearing i j) s t =
      some
        (record t { c = set_at t.c i j 0; place = put s (at_product num_threads s i j 0) t.place })
  multiply_act (adding i j k) s t = some (record t {
    c = set_at t.c i j ((t.c i j + a i k * b k j) % 2 ^ 32);
    place = put s (at_product num_threads s i j (k + 1)) t.place;
  })
  multiply_act ended s t = none
  multiply_act overflow s t = none

  unfoldable pub step : Actor → State → Option State
  unfolding main_act multiply_act give_up
  step main_thread t = main_act num_threads t.master t
  step no_thread t = give_up t.master t
  step (slice s) t = while_running t.master (multiply_act (t.place s) s t)

  -- main up to the loop that makes the threads.
  abbrev pub start : Matrix → State
  start c = record { master = create_or_work num_threads 1; place = λ s. unborn; c = c }

  -- The states that the program comes to after a number of steps, in any order of the calls and
  -- statements.
  pub data Reached (c : Matrix) : ℕ → State → Type 0 where
    begin : Reached c 0 (start c)
    next :
        {n : ℕ} {t t' : State} (x : Actor)
        → Reached c n t
        → step x t ≡ some t'
        → Reached c (suc n) t'
