-- ===== src/Smokers/Protocol.antt =====
-- The abstract protocol: one pair after another is served, taken and smoked.
use gjworks.Common.{ℕ, ◌+◌, ◌*◌, Bool, true, false, Option, none, some, ltb, if◌then◌else◌}
use gjworks.Smokers.{
  Pair, tob_paper, match_paper, tob_match, Agent, at_lock, at_unlock, finished, serving, posting,
  to_wait, waiting, waking, Smoker, at_sem, at_table, consuming, signalling, unlocking, left, Trio,
  put, State, rounds, Thread, agent_thread, smoker_thread,
}

-- How far a round is. `posted`: the agent is not yet asleep; `asleep`: it is, and the semaphore is
-- still 1; `early`: the smoker has passed the semaphore before the agent sleeps.
pub data Phase : Type 0 where
  ready release : Phase
  serve_phase post posted asleep early taken smoke tell leave wake : Pair → Phase

-- What is on the table for a pair.
abbrev pub has_tobacco : Pair → ℕ
has_tobacco match_paper = 0
has_tobacco _ = 1

abbrev pub has_match : Pair → ℕ
has_match tob_paper = 0
has_match _ = 1

abbrev pub has_paper : Pair → ℕ
has_paper tob_match = 0
has_paper _ = 1

-- A smoker between two rounds.
abbrev pub resting : ℕ → Smoker
resting turn = if ltb turn rounds then at_sem else left

-- The smokers in round `r` while `k` is on: those before have had their turn; the one of `k` is at
-- a place with its own counter.
abbrev pub smokers_at : Pair → ℕ → Smoker → Trio Smoker
smokers_at tob_paper r x = record { first = x; second = at_sem; third = at_sem }
smokers_at match_paper r x = record { first = resting (r + 1); second = x; third = at_sem }
smokers_at tob_match r x = record { first = resting (r + 1); second = resting (r + 1); third = x }

abbrev pub turns_at : Pair → ℕ → ℕ → Trio ℕ
turns_at tob_paper r x = record { first = x; second = r; third = r }
turns_at match_paper r x = record { first = r + 1; second = x; third = r }
turns_at tob_match r x = record { first = r + 1; second = r + 1; third = x }

abbrev pub no_posts : Trio ℕ
no_posts = record { first = 0; second = 0; third = 0 }

-- A state while `k` is on, with its ingredients on the table or not.
abbrev pub while_on : Pair → ℕ → Agent → Smoker → ℕ → Trio ℕ → Bool → Bool → State
while_on k r agent smoker turn sem locked served = record {
  agent = agent;
  agent_round = r;
  smoker = smokers_at k r smoker;
  turn = turns_at k r turn;
  sem = sem;
  table_mutex = locked;
  tobacco = if served then has_tobacco k else 0;
  match_count = if served then has_match k else 0;
  paper = if served then has_paper k else 0;
}

-- The state that a phase of round `r` stands for.
abbrev pub state_of : Phase → ℕ → State
state_of ready r = record {
  agent = if ltb r rounds then at_lock else finished;
  agent_round = r;
  smoker = record { first = resting r; second = resting r; third = resting r };
  turn = record { first = r; second = r; third = r };
  sem = no_posts;
  table_mutex = false;
  tobacco = 0;
  match_count = 0;
  paper = 0;
}
state_of (serve_phase k) r = while_on k r (serving k) at_sem r no_posts true false
state_of (post k) r = while_on k r (posting k) at_sem r no_posts true true
state_of (posted k) r = while_on k r (to_wait k) at_sem r (put k 1 no_posts) true true
state_of (asleep k) r = while_on k r (waiting k) at_sem r (put k 1 no_posts) false true
state_of (early k) r = while_on k r (to_wait k) at_table r no_posts true true
state_of (taken k) r = while_on k r (waiting k) at_table r no_posts false true
state_of (smoke k) r = while_on k r (waiting k) consuming r no_posts true true
state_of (tell k) r = while_on k r (waiting k) signalling r no_posts true false
state_of (leave k) r = while_on k r (waking k) unlocking r no_posts true false
state_of (wake k) r = while_on k r (waking k) (resting (r + 1)) (r + 1) no_posts false false
state_of release r = record {
  agent = at_unlock;
  agent_round = r;
  smoker = record { first = resting (r + 1); second = resting (r + 1); third = resting (r + 1) };
  turn = record { first = r + 1; second = r + 1; third = r + 1 };
  sem = no_posts;
  table_mutex = true;
  tobacco = 0;
  match_count = 0;
  paper = 0;
}

abbrev pub phase_after : Pair → Phase
phase_after tob_paper = serve_phase match_paper
phase_after match_paper = serve_phase tob_match
phase_after tob_match = release

-- The moves of the agent.
abbrev pub agent_move : Phase → ℕ → Option (Phase × ℕ)
agent_move ready r = if ltb r rounds then some (serve_phase tob_paper, r) else none
agent_move (serve_phase k) r = some (post k, r)
agent_move (post k) r = some (posted k, r)
agent_move (posted k) r = some (asleep k, r)
agent_move (early k) r = some (taken k, r)
agent_move (wake k) r = some (phase_after k, r)
agent_move release r = some (ready, r + 1)
agent_move _ r = none

-- The moves of the smoker of the pair that is on.
abbrev pub smoker_move : Phase → ℕ → Option (Phase × ℕ)
smoker_move (posted k) r = some (early k, r)
smoker_move (asleep k) r = some (taken k, r)
smoker_move (taken k) r = some (smoke k, r)
smoker_move (smoke k) r = some (tell k, r)
smoker_move (tell k) r = some (leave k, r)
smoker_move (leave k) r = some (wake k, r)
smoker_move _ r = none

-- The pair that is on, for the phases in which its smoker can move.
abbrev pub same_pair : Pair → Pair → Bool
same_pair tob_paper tob_paper = true
same_pair match_paper match_paper = true
same_pair tob_match tob_match = true
same_pair _ _ = false

abbrev pub is_on : Pair → Phase → Bool
is_on p ready = false
is_on p release = false
is_on p (serve_phase k) = same_pair p k
is_on p (post k) = same_pair p k
is_on p (posted k) = same_pair p k
is_on p (asleep k) = same_pair p k
is_on p (early k) = same_pair p k
is_on p (taken k) = same_pair p k
is_on p (smoke k) = same_pair p k
is_on p (tell k) = same_pair p k
is_on p (leave k) = same_pair p k
is_on p (wake k) = same_pair p k

abbrev pub move : Thread → Phase → ℕ → Option (Phase × ℕ)
move agent_thread f r = agent_move f r
move (smoker_thread k) f r = if is_on k f then smoker_move f r else none

-- The number of steps from the start.
abbrev pub number : Pair → ℕ
number tob_paper = 0
number match_paper = 1
number tob_match = 2

abbrev pub place : Phase → ℕ
place ready = 0
place (serve_phase k) = 1 + 9 * number k
place (post k) = 2 + 9 * number k
place (posted k) = 3 + 9 * number k
place (asleep k) = 4 + 9 * number k
place (early k) = 4 + 9 * number k
place (taken k) = 5 + 9 * number k
place (smoke k) = 6 + 9 * number k
place (tell k) = 7 + 9 * number k
place (leave k) = 8 + 9 * number k
place (wake k) = 9 + 9 * number k
place release = 28

abbrev pub steps_to : Phase → ℕ → ℕ
steps_to f r = 29 * r + place f
