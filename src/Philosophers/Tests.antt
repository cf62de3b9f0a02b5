-- ===== src/Philosophers/Tests.antt =====
-- The dining programs on the first steps of a run.
use gjworks.Common.{ℕ, ◌≡◌, ◌≢◌, ◌<◌, ◌≤◌, ◌⊎◌, refl, none, arith}
use gjworks.Philosophers.State.{Table, eating, one_chopstick, finished, right, lock}
use gjworks.Philosophers.Chopsticks.{sum5, chair_held}
use gjworks.Philosophers.Plain
use gjworks.Philosophers.Plain.Deadlock.{stuck_only_in_circle}
use gjworks.Philosophers.Chairs
use gjworks.Philosophers.Plain.Deadlock
use gjworks.Philosophers.Chairs.Progress
use gjworks.Philosophers.Chairs.Progress.{dinner_ends, neighbours_apart}

-- Philosopher 2 has a chair, takes both chopsticks and eats.
seated_run : (t : Table) × Chairs.Reached 1 t
unfolding Chairs.act Chairs.take_chair
seated_run = (_, Chairs.next 2 (omega arith) Chairs.begin refl)

left_run : (t : Table) × Chairs.Reached 2 t
unfolding Chairs.act Chairs.take_chair lock seated_run
left_run = (_, Chairs.next 2 (omega arith) seated_run.1 refl)

eating_run : (t : Table) × Chairs.Reached 3 t
unfolding Chairs.act Chairs.take_chair lock left_run seated_run
eating_run = (_, Chairs.next 2 (omega arith) left_run.1 refl)

holding_run : (t : Table) × Plain.Reached 1 t
unfolding Plain.act lock
holding_run = (_, Plain.next 2 (omega arith) Plain.begin refl)

dinner_ends_example :
    Progress.Moves eating_run.0
    ⊎ ((◌≡◌ {A = ℕ} 3 150)
        × ((i : ℕ) → i < 5 → (eating_run.0.place i ≡ finished) × (eating_run.0.count i ≡ 5)))
dinner_ends_example = dinner_ends eating_run.1

neighbours_apart_example :
    ((i : ℕ) → i < 5 → eating_run.0.place i ≡ eating → eating_run.0.place (right i) ≢ eating)
    × (sum5 (λ k. chair_held (eating_run.0.place k)) ≤ 4)
neighbours_apart_example = neighbours_apart eating_run.1

stuck_only_in_circle_example :
    Deadlock.Moves holding_run.0
    ⊎ (((i : ℕ)
          → i < 5
          → (holding_run.0.place i ≡ one_chopstick) × (Plain.step i holding_run.0 ≡ none))
        ⊎ ((◌≡◌ {A = ℕ} 1 100) × ((i : ℕ) → i < 5 → holding_run.0.place i ≡ finished)))
stuck_only_in_circle_example = stuck_only_in_circle holding_run.1
