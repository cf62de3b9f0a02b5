-- ===== src/Smokers/Tests.antt =====
-- The first smoker before he smokes.
use gjworks.Common.{ℕ, ◌≡◌, ◌⊎◌, refl, some}
use gjworks.Smokers.{
  tob_paper, State, Thread, agent_thread, smoker_thread, step, serve, Reached, begin, next,
}
use gjworks.Smokers.Protocol.{ready, state_of}
use gjworks.Smokers.Refinement.{IsPhase, Reached-IsPhase, smokers_finish}

consuming_run : (s : State) × Reached 6 s
unfolding step serve
consuming_run =
    let a : Reached 1 _ = next agent_thread begin refl in
    let b : Reached 2 _ = next agent_thread a refl in
    let c : Reached 3 _ = next agent_thread b refl in
    let d : Reached 4 _ = next (smoker_thread tob_paper) c refl in
    let e : Reached 5 _ = next agent_thread d refl in
    let f : Reached 6 _ = next (smoker_thread tob_paper) e refl in (_, f)

Reached-IsPhase_example : IsPhase 6 consuming_run.0
Reached-IsPhase_example = Reached-IsPhase consuming_run.1

smokers_finish_example :
    ((t : Thread) × (s' : State) × (step t consuming_run.0 ≡ some s'))
    ⊎ ((◌≡◌ {A = ℕ} 6 145) × (consuming_run.0 ≡ state_of ready 5))
smokers_finish_example = smokers_finish consuming_run.1
