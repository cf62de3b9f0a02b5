-- ===== src/Philosophers/State.antt =====
-- The table that both dining programs share: where each philosopher is in philosopher_fn, the
-- mutexes of the chopsticks, and for Diners_pblm_sem the semaphore of the chairs.
use gjworks.Common.{ℕ, ◌+◌, ◌%◌, Bool, true, false, Option, none, some, ◌==◌, if◌then◌else◌, ltb}

-- `thinking`: before the first call that may block; `seated`: before the left chopstick;
-- `one_chopstick`: before the right one; `eating`; `put_right`, `put_both`: after each unlock;
-- `finished`: past the loop.
pub data Place : Type 0 where
  thinking seated one_chopstick eating put_right put_both finished : Place

pub record Table : Type 0 where
  pub place : ℕ → Place
  pub count : ℕ → ℕ
  pub mutex_arr : ℕ → Bool
  pub four_chairs : ℕ

abbrev pub num_rounds : ℕ
num_rounds = 5

-- `(i+1)%NUM_CHOPSTICKS`
abbrev pub right : ℕ → ℕ
right i = (i + 1) % 5

abbrev pub set {ℓ} : {A : Type ℓ} → (ℕ → A) → ℕ → A → ℕ → A
set f i x k = if i == k then x else f k

-- All threads are spawned, each mutex is open, and four chairs are free.
abbrev pub start : Table
start = record { place = λ i. thinking; count = λ i. 0; mutex_arr = λ k. false; four_chairs = 4 }

-- `pthread_mutex_lock(&mutex_arr[k])` by philosopher `i`, who goes on to `q`.
unfoldable pub lock : ℕ → ℕ → Place → Table → Option Table
lock i k q t =
    if t.mutex_arr k
    then none
    else some (record t { mutex_arr = set t.mutex_arr k true; place = set t.place i q })

-- `pthread_mutex_unlock(&mutex_arr[k])`
unfoldable pub unlock : ℕ → ℕ → Place → Table → Table
unlock i k q t = record t { mutex_arr = set t.mutex_arr k false; place = set t.place i q }

-- The end of the body of the `for`: count++ and the test.
unfoldable pub next_round : ℕ → Table → Table
next_round i t =
    let c = t.count i + 1 in
    record t {
      count = set t.count i c;
      place = set t.place i (if ltb c num_rounds then thinking else finished);
    }
