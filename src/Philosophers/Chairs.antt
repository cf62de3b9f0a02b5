-- ===== src/Philosophers/Chairs.antt =====
-- Diners_pblm_sem/diners_pblm_sem.c: philosopher_fn with the semaphore of four chairs.
pub mod Invariant
pub mod Progress
use gjworks.Common.{
  ℕ, zero, suc, ◌+◌, ◌-◌, ◌<◌, ◌≡◌, Bool, true, false, Option, none, some, ◌==◌, if◌then◌else◌,
}
use gjworks.Philosophers.State.{
  Place, thinking, seated, one_chopstick, eating, put_right, put_both, finished, Table, right, set,
  start, lock, unlock, next_round,
}

-- `sem_wait(&four_chairs)`
unfoldable pub take_chair : ℕ → Table → Option Table
take_chair i t =
    if t.four_chairs == 0
    then none
    else some (record t { four_chairs = t.four_chairs - 1; place = set t.place i seated })

-- What philosopher `i` does next at a place; `none` is to wait, or to have finished.
unfoldable pub act : Place → ℕ → Table → Option Table
act thinking i t = take_chair i t
act seated i t = lock i i one_chopstick t
act one_chopstick i t = lock i (right i) eating t
act eating i t = some (unlock i (right i) put_right t)
act put_right i t = some (unlock i i put_both t)
act put_both i t = some (next_round i (record t { four_chairs = t.four_chairs + 1 }))
act finished i t = none

abbrev pub step : ℕ → Table → Option Table
step i t = act (t.place i) i t

-- The tables that the program can come to, with the number of steps.
pub data Reached : ℕ → Table → Type 0 where
  begin : Reached 0 start
  next :
      {n : ℕ} {t t' : Table} (i : ℕ) → i < 5 → Reached n t → step i t ≡ some t' → Reached (suc n) t'
