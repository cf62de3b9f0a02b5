-- ===== src/Philosophers/Plain/Deadlock.antt =====
-- Where the dinner without chairs comes to a stop.
use gjworks.Common.{
  ℕ, ◌+◌, ◌*◌, ◌≤◌, ◌<◌, ◌≡◌, refl, ap, ◌∙◌, none, some, arith, inl, inr, ◌⊎◌, Option-cases,
  Bool-cases,
}
use gjworks.Philosophers.State.{Place, one_chopstick, eating, finished, Table, right, lock}
use gjworks.Philosophers.Chopsticks.{five, bit_le, bit, left_held, right_held, sum5}
use gjworks.Philosophers.Rounds.{unfinished, or_else, sum-none, unfinished-none}
use gjworks.Philosophers.Plain.Waiting.{Waiting, act-none, one-index, left-index, blocked, all_wait}
use gjworks.Philosophers.Plain.{act, step, Reached, begin, next}
use gjworks.Philosophers.Plain.Invariant.{index, Invariant, start-Invariant, act-Invariant}

run-Invariant : {n : ℕ} {t : Table} → Reached n t → Invariant n t
run-Invariant begin = start-Invariant
run-Invariant (next {n} {t} i hi run e) =
    act-Invariant (t.place i) i n t hi (run-Invariant run) refl e

-- A philosopher who can make a step, with the table after it.
abbrev pub Moves : Table → Type 0
Moves t = (i : ℕ) × ((i < 5) × ((t' : Table) × (step i t ≡ some t')))

move_or_wait : {n : ℕ} (t : Table) → Invariant n t → (i : ℕ) → i < 5 → Moves t ⊎ Waiting t i
move_or_wait t inv i hi = elim (Option-cases (step i t)) [
  | inl e ↦ inr (act-none (t.place i) t i hi inv.held (inv.nowhere i) refl e)
  | inr (t', e) ↦ inl (i, (hi, (t', e)))
]

sum-all : (f : ℕ → ℕ) → ((i : ℕ) → f i ≤ 1) → sum5 f ≡ 5 → (i : ℕ) → i < 5 → f i ≡ 1
sum-all f b e i hi = ground (arith, five i hi, b 0, b 1, b 2, b 3, b 4)

sum-each : (f : ℕ → ℕ) → ((i : ℕ) → i < 5 → 1 ≤ f i) → sum5 f ≡ 5 → (i : ℕ) → i < 5 → f i ≡ 1
sum-each f b e i hi = ground (
  arith,
  five i hi,
  b 0 (omega arith),
  b 1 (omega arith),
  b 2 (omega arith),
  b 3 (omega arith),
  b 4 (omega arith),
)

left_le : (p : Place) → left_held p ≤ 1
left_le p = ground arith

lock-locked : (i k : ℕ) (q : Place) (t : Table) → bit (t.mutex_arr k) ≡ 1 → lock i k q t ≡ none
unfolding lock
lock-locked i k q t h = elim (Bool-cases (t.mutex_arr k)) [
  | inl e ↦ rw (e) refl
  | inr e ↦ absurd (ground (arith, h, e))
]

-- All are one step into the round: each has one chopstick, and the neighbour has the other.
circle :
    {n : ℕ} {t : Table}
    → Invariant n t
    → sum5 (λ k. left_held (t.place k)) ≡ 5
    → sum5 (λ k. index (t.place k)) ≡ 5
    → (i : ℕ) → i < 5
    → (t.place i ≡ one_chopstick) × (step i t ≡ none)
circle {n} {t} inv l x i hi =
    let lefts : (k : ℕ) → k < 5 → left_held (t.place k) ≡ 1 =
      sum-all (λ k. left_held (t.place k)) (λ k. left_le (t.place k)) l in
    let one : t.place i ≡ one_chopstick = one-index (t.place i) (
      sum-each (λ k. index (t.place k)) (λ k hk. omega (arith, lefts k hk, left-index (t.place k)))
        x i hi) in
    let h : bit (t.mutex_arr (right i)) ≡ left_held (t.place (right i)) + right_held (t.place i) =
      inv.held i hi in
    (
      one,
      ap (λ p. act p i t) one
          ∙ blocked i t (
              lock-locked i (right i) eating t
                (omega (arith, h, lefts (right i) (omega arith), bit_le (t.mutex_arr (right i))))),
    )

circle_or_done :
    {n : ℕ} {t : Table}
    → Invariant n t
    → Waiting t 0
    → Waiting t 1
    → Waiting t 2
    → Waiting t 3
    → Waiting t 4
    → ((i : ℕ) → i < 5 → (t.place i ≡ one_chopstick) × (step i t ≡ none))
      ⊎ ((n ≡ 100) × ((i : ℕ) → i < 5 → t.place i ≡ finished))
circle_or_done {n} {t} inv a b c d e = elim (all_wait t inv.held a b c d e) [
  | inl (l, x) ↦ inl (circle inv l x)
  | inr (u, x) ↦
      let free : (i : ℕ) → i < 5 → unfinished (t.place i) ≡ 0 =
        sum-none (λ k. unfinished (t.place k)) u in
      let k : (k : ℕ)
          → k < 5
          → (t.count k + unfinished (t.place k) ≤ 5)
            × (5 ≤ t.count k + 5 * unfinished (t.place k)) =
        inv.counted in
      let each : (i : ℕ) → i < 5 → t.count i ≡ 5 = λ i hi. omega (arith, k i hi, free i hi) in
      inr (
        omega (
          arith,
          inv.steps,
          x,
          each 0 (omega arith),
          each 1 (omega arith),
          each 2 (omega arith),
          each 3 (omega arith),
          each 4 (omega arith),
        ),
        λ i hi. unfinished-none (t.place i) (free i hi),
      )
]

-- At each table that the program without chairs comes to after `n` steps, some philosopher can make
-- a step, or each of the five holds the left chopstick and waits for the right one, or all have
-- finished and `n` is 100: the circular wait is the only deadlock.
pub stuck_only_in_circle :
    {n : ℕ} {t : Table}
    → Reached n t
    → Moves t
      ⊎ (((i : ℕ) → i < 5 → (t.place i ≡ one_chopstick) × (step i t ≡ none))
          ⊎ ((n ≡ 100) × ((i : ℕ) → i < 5 → t.place i ≡ finished)))
stuck_only_in_circle {n} {t} run =
    let inv = run-Invariant run in
    let w = move_or_wait t inv in
    or_else (w 0 (omega arith)) (λ a. or_else (w 1 (omega arith)) (λ b.
      or_else (w 2 (omega arith)) (λ c.
        or_else (w 3 (omega arith))
          (λ d. or_else (w 4 (omega arith)) (λ e. inr (circle_or_done inv a b c d e))))))

-- The program without chairs can deadlock: after five steps from the start a table is reached
-- where each of the five holds the left chopstick and none can make a step.
pub deadlock_reached :
    (t : Table) × (Reached 5 t
      × ((i : ℕ) → i < 5 → (t.place i ≡ one_chopstick) × (step i t ≡ none)))
unfolding act lock
deadlock_reached =
    let r₁ : Reached 1 _ = next 0 (omega arith) begin refl in
    let r₂ : Reached 2 _ = next 1 (omega arith) r₁ refl in
    let r₃ : Reached 3 _ = next 2 (omega arith) r₂ refl in
    let r₄ : Reached 4 _ = next 3 (omega arith) r₃ refl in
    let r₅ : Reached 5 _ = next 4 (omega arith) r₄ refl in
    (_, (r₅, circle (run-Invariant r₅) refl refl))
