-- ===== src/ArrayMerge/Main.antt =====
-- array_merge_thread/array_merge_thread.c: main, which starts the threads, and the calls of the
-- threads around threadfunc's placing. A step is one call, with the code up to the next.
pub mod RoundSteps
pub mod MainSteps
pub mod Merged
pub mod LostSignal
pub mod Moves
pub mod Stops
pub mod Bounds
pub mod PlacingStep
pub mod ThreadSteps
pub mod Phases
pub mod Invariant
use gjworks.Common.{
  ℕ, zero, suc, ◌+◌, ◌≡◌, Bool, true, false, List, Option, none, some, ltb, ◌==◌, if◌then◌else◌,
  length,
}
use gjworks.Machine.{ok, fault, out_of_fuel}
use gjworks.Integer.{ℤ}
use gjworks.ArrayMerge.{threadfunc}

-- The next call of main: `creating` is pthread_create, and the others are those of the mutex and
-- the condition; a signal makes `waiting` into `waking`. `failed` is its end after perror.
pub data Master : Type 0 where
  creating locking to_wait waiting waking to_unlock : Master
  joining : ℕ → Master
  finished failed : Master

-- The next call of a thread, with its temp_cnt; `placing` is the rest of threadfunc.
pub data Worker : Type 0 where
  unborn starting : Worker
  signalling unlocking placing : ℕ → Worker
  ended : Worker

-- `i` is that of the loop that creates the threads, and `worker` is by its index in `threads`.
pub record State : Type 0 where
  pub master : Master
  pub i : ℕ
  pub count : ℕ
  pub mutex_var : Bool
  pub worker : ℕ → Worker
  pub arr3 : List ℤ

abbrev pub put : ℕ → Worker → (ℕ → Worker) → ℕ → Worker
put k w worker q = if k == q then w else worker q

-- pthread_cond_signal
abbrev pub signal : Master → Master
signal waiting = waking
signal other = other

-- main, a thread that pthread_create cannot make, and the threads.
pub data Actor : Type 0 where
  main_thread no_thread : Actor
  thread : ℕ → Actor

-- When pthread_create fails, main returns and the process ends.
unfoldable pub fail : Master → State → Option State
fail creating s = some (record s { master = failed })
fail other s = none

-- The threads end with the process.
abbrev pub while_alive : Master → Option State → Option State
while_alive failed s = none
while_alive other s = s

module _ (arr1 arr2 : List ℤ) where
  -- `arr_obj->arr3->size`
  abbrev pub size3 : ℕ
  size3 = length arr1 + length arr2

  -- The next call of main; `none` is to wait, or to have finished.
  unfoldable pub main_act : Master → State → Option State
  main_act creating s = some (record s { worker = put s.i starting s.worker; master = locking })
  main_act locking s =
      if s.mutex_var then none else some (record s { mutex_var = true; master = to_wait })
  main_act to_wait s = some (record s { mutex_var = false; master = waiting })
  main_act waiting s = none
  main_act waking s =
      if s.mutex_var
      then none
      else some (record s { mutex_var = true; count = s.count + 1; master = to_unlock })
  main_act to_unlock s = some (record s {
    mutex_var = false;
    i = s.i + 1;
    master = if ltb (s.i + 1) size3 then creating else joining 0;
  })
  main_act (joining j) s = elim (s.worker j) [
    | ended ↦ some (record s { master = if ltb (j + 1) size3 then joining (j + 1) else finished })
    | _ ↦ none
  ]
  main_act finished s = none
  main_act failed s = none

  -- main up to the loop, with what malloc left in the third array.
  abbrev pub start : List ℤ → State
  start junk = record {
    master = if ltb 0 size3 then creating else finished;
    i = 0;
    count = 0;
    mutex_var = false;
    worker = λ k. unborn;
    arr3 = junk;
  }

module _ (fuel : ℕ) (arr1 arr2 : List ℤ) where
  -- The next call of the thread `k`. There is no step where the placing is undefined or endless.
  unfoldable pub worker_act : Worker → ℕ → State → Option State
  worker_act unborn k s = none
  worker_act starting k s =
      if s.mutex_var
      then none
      else some (record s { mutex_var = true; worker = put k (signalling s.count) s.worker })
  worker_act (signalling c) k s =
      some (record s { master = signal s.master; worker = put k (unlocking c) s.worker })
  worker_act (unlocking c) k s =
      some (record s { mutex_var = false; worker = put k (placing c) s.worker })
  worker_act (placing c) k s = elim (threadfunc fuel arr1 arr2 c s.arr3) [
    | ok a ↦ some (record s { arr3 = a; worker = put k ended s.worker })
    | fault ↦ none
    | out_of_fuel ↦ none
  ]
  worker_act ended k s = none

  unfoldable pub step : Actor → State → Option State
  unfolding main_act worker_act fail
  step main_thread s = main_act arr1 arr2 s.master s
  step no_thread s = fail s.master s
  step (thread k) s = while_alive s.master (worker_act (s.worker k) k s)

  -- The states that the program comes to after a number of steps, when pthread_cond_wait returns
  -- only on a signal.
  pub data Reached (junk : List ℤ) : ℕ → State → Type 0 where
    begin : Reached junk 0 (start arr1 arr2 junk)
    next :
        {n : ℕ} {s s' : State} (a : Actor)
        → Reached junk n s
        → step a s ≡ some s'
        → Reached junk (suc n) s'
