-- ===== src/Smokers.antt =====
-- Smoker_pblm/smokers_pblm.c: an agent and three smokers, with a mutex, three semaphores and a
-- condition variable. A step is one call on these or on the table. The three semaphores, the three
-- smokers and what they smoke are indexed by the pair of ingredients.
pub mod Protocol
pub mod Refinement
mod Tests
use gjworks.Common.{
  ℕ, zero, suc, ◌+◌, ◌-◌, ◌%◌, ◌^◌, ◌≡◌, Bool, true, false, Option, none, some, ◌==◌, ltb,
  if◌then◌else◌,
}

pub data Pair : Type 0 where
  tob_paper match_paper tob_match : Pair

-- Where the agent is in agent_fn: before the lock, before the three calls for a pair, in
-- pthread_cond_wait, there but signalled, before the unlock, and past the loop.
pub data Agent : Type 0 where
  at_lock at_unlock finished : Agent
  serving posting to_wait waiting waking : Pair → Agent

-- Where a smoker is in smoker_fn.
pub data Smoker : Type 0 where
  at_sem at_table consuming signalling unlocking left : Smoker

-- One value for each pair.
pub record Trio (A : Type 0) : Type 0 where
  pub first : A
  pub second : A
  pub third : A

abbrev pub get : {A : Type 0} → Pair → Trio A → A
get tob_paper t = t.first
get match_paper t = t.second
get tob_match t = t.third

abbrev pub put : {A : Type 0} → Pair → A → Trio A → Trio A
put tob_paper x t = record t { first = x }
put match_paper x t = record t { second = x }
put tob_match x t = record t { third = x }

-- `agent_round` and `turn` are the loop counters; an int is its 32-bit pattern.
pub record State : Type 0 where
  pub agent : Agent
  pub agent_round : ℕ
  pub smoker : Trio Smoker
  pub turn : Trio ℕ
  pub sem : Trio ℕ
  pub table_mutex : Bool
  pub tobacco : ℕ
  pub match_count : ℕ
  pub paper : ℕ

abbrev pub rounds : ℕ
rounds = 5

abbrev pub up : ℕ → ℕ
up n = (n + 1) % 2 ^ 32

abbrev pub down : ℕ → ℕ
down n = (n + (2 ^ 32 - 1)) % 2 ^ 32

-- serve_tob_paper, serve_match_paper and serve_tob_match
unfoldable pub serve : Pair → State → State
serve tob_paper s = record s { tobacco = up s.tobacco; paper = up s.paper }
serve match_paper s = record s { match_count = up s.match_count; paper = up s.paper }
serve tob_match s = record s { tobacco = up s.tobacco; match_count = up s.match_count }

-- consume_tob_paper, consume_match_paper and consume_tob_match
unfoldable pub consume : Pair → State → State
consume tob_paper s = record s { tobacco = down s.tobacco; paper = down s.paper }
consume match_paper s = record s { match_count = down s.match_count; paper = down s.paper }
consume tob_match s = record s { tobacco = down s.tobacco; match_count = down s.match_count }

-- What the agent does once a pair is smoked.
abbrev pub after : Pair → Agent
after tob_paper = serving match_paper
after match_paper = serving tob_match
after tob_match = at_unlock

-- A lock of the mutex; `none` is to wait.
abbrev pub lock_for : State → State → Option State
lock_for s s' = if s.table_mutex then none else some (record s' { table_mutex = true })

-- The next call of the agent; `none` is to wait, or to have finished.
unfoldable pub agent_act : Agent → State → Option State
agent_act at_lock s = lock_for s (record s { agent = serving tob_paper })
agent_act (serving k) s = some (record (serve k s) { agent = posting k })
agent_act (posting k) s = some (record s { sem = put k (get k s.sem + 1) s.sem; agent = to_wait k })
agent_act (to_wait k) s = some (record s { table_mutex = false; agent = waiting k })
agent_act (waiting k) s = none
agent_act (waking k) s = lock_for s (record s { agent = after k })
agent_act at_unlock s =
    let i = s.agent_round + 1 in
    some (record s {
      table_mutex = false;
      agent_round = i;
      agent = if ltb i rounds then at_lock else finished;
    })
agent_act finished s = none

-- pthread_cond_signal: the agent, if it waits, is to go on.
abbrev pub signal : Agent → Agent
signal (waiting k) = waking k
signal other = other

-- The next call of the smoker of `k`.
unfoldable pub smoker_act : Smoker → Pair → State → Option State
smoker_act at_sem k s =
    if get k s.sem == 0
    then none
    else some (record s { sem = put k (get k s.sem - 1) s.sem; smoker = put k at_table s.smoker })
smoker_act at_table k s = lock_for s (record s { smoker = put k consuming s.smoker })
smoker_act consuming k s = some (record (consume k s) { smoker = put k signalling s.smoker })
smoker_act signalling k s =
    some (record s { agent = signal s.agent; smoker = put k unlocking s.smoker })
smoker_act unlocking k s =
    let i = get k s.turn + 1 in
    some (record s {
      table_mutex = false;
      turn = put k i s.turn;
      smoker = put k (if ltb i rounds then at_sem else left) s.smoker;
    })
smoker_act left k s = none

pub data Thread : Type 0 where
  agent_thread : Thread
  smoker_thread : Pair → Thread

unfoldable pub step : Thread → State → Option State
unfolding agent_act smoker_act
step agent_thread s = agent_act s.agent s
step (smoker_thread k) s = smoker_act (get k s.smoker) k s

-- main: the threads are spawned, the semaphores are 0.
abbrev pub start : State
start = record {
  agent = at_lock;
  agent_round = 0;
  smoker = record { first = at_sem; second = at_sem; third = at_sem };
  turn = record { first = 0; second = 0; third = 0 };
  sem = record { first = 0; second = 0; third = 0 };
  table_mutex = false;
  tobacco = 0;
  match_count = 0;
  paper = 0;
}

-- The states that the program comes to after a number of steps, when pthread_cond_wait returns only
-- on a signal.
pub data Reached : ℕ → State → Type 0 where
  begin : Reached 0 start
  next : {n : ℕ} {s s' : State} (t : Thread) → Reached n s → step t s ≡ some s' → Reached (suc n) s'

-- The same when pthread_cond_wait may also return without one, as POSIX lets it.
pub data ReachedSpuriously : State → Type 0 where
  begin : ReachedSpuriously start
  next :
      {s s' : State} (t : Thread) → ReachedSpuriously s → step t s ≡ some s' → ReachedSpuriously s'
  spurious :
      {s : State} → ReachedSpuriously s → ReachedSpuriously (record s { agent = signal s.agent })
