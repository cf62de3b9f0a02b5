-- ===== src/Philosophers/Plain.antt =====
-- Diners_pblm/diners_pblm.c: philosopher_fn without chairs.
pub mod Invariant
pub mod Waiting
pub mod Deadlock
use gjworks.Common.{
  ℕ, zero, suc, ◌+◌, ◌<◌, ◌≡◌, Bool, true, false, Option, none, some, ◌==◌, if◌then◌else◌,
}
use gjworks.Philosophers.State.{
  Place, thinking, seated, one_chopstick, eating, put_right, put_both, finished, Table, right, set,
  start, lock, unlock, next_round,
}

-- What philosopher `i` does next; `none` is to wait, or to have finished. No philosopher is ever
-- `seated` or at `put_both`.
unfoldable pub act : Place → ℕ → Table → Option Table
act thinking i t = lock i i one_chopstick t
act seated i t = none
act one_chopstick i t = lock i (right i) eating t
act eating i t = some (unlock i (right i) put_right t)
act put_right i t = some (next_round i (unlock i i put_both t))
act put_both i t = none
act finished i t = none

abbrev pub step : ℕ → Table → Option Table
step i t = act (t.place i) i t

pub data Reached : ℕ → Table → Type 0 where
  begin : Reached 0 start
  next :
      {n : ℕ} {t t' : Table} (i : ℕ) → i < 5 → Reached n t → step i t ≡ some t' → Reached (suc n) t'
