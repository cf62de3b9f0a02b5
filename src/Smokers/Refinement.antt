-- ===== src/Smokers/Refinement.antt =====
-- The program against the protocol.
use gjworks.Common.{
  ℕ, suc, ◌+◌, ◌≤◌, ◌≡◌, refl, true, Option, none, some, ltb, Bool-cases, inl, inr, ◌⊎◌, sym, ap,
  ◌∙◌, subst, some-injective, equal-cases, arith,
}
use gjworks.Smokers.{
  Pair, tob_paper, match_paper, tob_match, consuming, get, State, rounds, Thread, agent_thread,
  smoker_thread, step, serve, consume, Reached, begin, next, ReachedSpuriously,
}
use gjworks.Smokers.Protocol.{
  Phase, ready, release, serve_phase, post, posted, asleep, early, taken, smoke, tell, leave, wake,
  state_of, move, agent_move, steps_to, same_pair, has_tobacco, has_match, has_paper,
}

same_pair_refl : (k : Pair) → same_pair k k ≡ true
same_pair_refl tob_paper = refl
same_pair_refl match_paper = refl
same_pair_refl tob_match = refl

abbrev pub states_of : Option (Phase × ℕ) → Option State
states_of none = none
states_of (some (f, r)) = some (state_of f r)

agent_step : (f : Phase) (r : ℕ) → step agent_thread (state_of f r) ≡ states_of (agent_move f r)
unfolding step serve consume
agent_step ready r = elim (Bool-cases (ltb r rounds)) [ inl e ↦ rw (e) refl | inr e ↦ rw (e) refl ]
agent_step f r = ground arith

smoker_step :
    (k : Pair) (f : Phase) (r : ℕ)
    → step (smoker_thread k) (state_of f r) ≡ states_of (move (smoker_thread k) f r)
unfolding step serve consume
smoker_step k f r = ground arith

-- Each step of a thread, in the state that a phase stands for, is the move of the protocol: a state
-- that a phase stands for, or waiting where the protocol has no move.
pub step-move : (t : Thread) (f : Phase) (r : ℕ) → step t (state_of f r) ≡ states_of (move t f r)
step-move agent_thread f r = agent_step f r
step-move (smoker_thread k) f r = smoker_step k f r

-- 1 while the round has steps to go.
abbrev pub pending : Phase → ℕ
pending ready = 0
pending _ = 1

-- Each move is the next step, and the rounds end with the fifth.
move_steps :
    (t : Thread) (f f' : Phase) (r r' : ℕ)
    → move t f r ≡ some (f', r')
    → pending f + r ≤ 5
    → (steps_to f' r' ≡ suc (steps_to f r)) × (pending f' + r' ≤ 5)
move_steps agent_thread f f' r r' e h = ground arith
move_steps (smoker_thread k) f f' r r' e h = ground arith

-- The phase that a state has come to.
pub record IsPhase (n : ℕ) (s : State) : Type 0 where
  pub phase : Phase
  pub turn : ℕ
  pub same : s ≡ state_of phase turn
  pub steps : n ≡ steps_to phase turn
  pub in_time : pending phase + turn ≤ 5

states_of-some :
    (m : Option (Phase × ℕ)) (s : State)
    → states_of m ≡ some s
    → (f : Phase) × (r : ℕ) × (m ≡ some (f, r)) × (s ≡ state_of f r)
states_of-some none s e = absurd (ground arith)
states_of-some (some (f, r)) s e = (f, r, refl, sym (some-injective _ _ e))

-- Each state that the program comes to is that of a phase of the protocol, at the number of steps
-- that the phase has.
pub Reached-IsPhase : {n : ℕ} {s : State} → Reached n s → IsPhase n s
Reached-IsPhase begin = record {
  phase = ready;
  turn = 0;
  same = refl;
  steps = refl;
  in_time = omega arith;
}
Reached-IsPhase (next {s' = s'} t run e) =
    let k = Reached-IsPhase run in
    let moved : states_of (move t k.phase k.turn) ≡ some s' =
      sym (step-move t k.phase k.turn) ∙ ap (step t) (sym k.same) ∙ e in
    let (f, r, m, q) = states_of-some (move t k.phase k.turn) s' moved in
    let (a, b) = move_steps t k.phase f k.turn r m k.in_time in
    record { phase = f; turn = r; same = q; steps = ap suc k.steps ∙ sym a; in_time = b }

mover :
    (f : Phase) (r : ℕ)
    → pending f + r ≤ 5
    → ((t : Thread) × (f' : Phase) × (r' : ℕ) × (move t f r ≡ some (f', r')))
      ⊎ ((f ≡ ready) × (r ≡ 5))
mover ready r h = elim (equal-cases r 5) [
  | inl e ↦ inr (refl, e)
  | inr e ↦ inl (agent_thread, serve_phase tob_paper, r, ground (arith, e))
]
mover release r h = inl (agent_thread, ready, r + 1, refl)
mover (serve_phase k) r h = inl (agent_thread, post k, r, refl)
mover (post k) r h = inl (agent_thread, posted k, r, refl)
mover (posted k) r h = inl (agent_thread, asleep k, r, refl)
mover (early k) r h = inl (agent_thread, taken k, r, refl)
mover (wake k) r h = inl (agent_thread, _, r, refl)
mover (asleep k) r h = inl (smoker_thread k, taken k, r, rw (same_pair_refl k) refl)
mover (taken k) r h = inl (smoker_thread k, smoke k, r, rw (same_pair_refl k) refl)
mover (smoke k) r h = inl (smoker_thread k, tell k, r, rw (same_pair_refl k) refl)
mover (tell k) r h = inl (smoker_thread k, leave k, r, rw (same_pair_refl k) refl)
mover (leave k) r h = inl (smoker_thread k, wake k, r, rw (same_pair_refl k) refl)

-- After each number `n` of steps some thread can make a step, or `n` is 145, the agent and the three
-- smokers have finished five rounds, and the table is empty, open and with no post left.
pub smokers_finish :
    {n : ℕ} {s : State}
    → Reached n s
    → ((t : Thread) × (s' : State) × (step t s ≡ some s')) ⊎ ((n ≡ 145) × (s ≡ state_of ready 5))
smokers_finish {n} {s} run =
    let k = Reached-IsPhase run in
    elim (mover k.phase k.turn k.in_time) [
      | inl (t, f, r, m) ↦
          inl (t, state_of f r, ap (step t) k.same ∙ step-move t k.phase k.turn ∙ ap states_of m)
      | inr (f, r) ↦
          let same : state_of k.phase k.turn ≡ state_of ready 5 =
            ap (λ p. state_of p k.turn) f ∙ ap (state_of ready) r in
          let count : steps_to k.phase k.turn ≡ 145 =
            ap (λ p. steps_to p k.turn) f ∙ ap (steps_to ready) r in
          inr (k.steps ∙ count, k.same ∙ same)
    ]

-- The ingredients of a pair, and no third.
abbrev pub Served : Pair → State → Type 0
Served k s = (s.tobacco ≡ has_tobacco k) × (s.match_count ≡ has_match k) × (s.paper ≡ has_paper k)

phase-Served :
    (k : Pair) (f : Phase) (r : ℕ)
    → get k (state_of f r).smoker ≡ consuming
    → Served k (state_of f r)
phase-Served k f r h = ground arith

-- A smoker who is about to smoke finds the two ingredients that are his on the table, once each, and
-- the third not.
pub consuming-Served :
    {n : ℕ} {s : State} → Reached n s → (k : Pair) → get k s.smoker ≡ consuming → Served k s
consuming-Served run k h =
    let p = Reached-IsPhase run in
    subst (Served k) (sym p.same)
      (phase-Served k p.phase p.turn (subst (λ x. get k x.smoker ≡ consuming) p.same h))

-- When pthread_cond_wait may return without a signal, the agent can serve the next pair before the
-- first is smoked: a state is reached with two papers on the table.
pub spurious_serves_early : (s : State) × ReachedSpuriously s × (s.paper ≡ 2)
unfolding step serve
spurious_serves_early =
    let a : ReachedSpuriously _ =
      ReachedSpuriously.next agent_thread ReachedSpuriously.begin refl in
    let b : ReachedSpuriously _ = ReachedSpuriously.next agent_thread a refl in
    let c : ReachedSpuriously _ = ReachedSpuriously.next agent_thread b refl in
    let d : ReachedSpuriously _ = ReachedSpuriously.next agent_thread c refl in
    let e : ReachedSpuriously _ = ReachedSpuriously.spurious d in
    let f : ReachedSpuriously _ = ReachedSpuriously.next agent_thread e refl in
    let g : ReachedSpuriously _ = ReachedSpuriously.next agent_thread f refl in (_, g, refl)
