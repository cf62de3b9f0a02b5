-- ===== src/Philosophers/Chairs/Progress.antt =====
-- How the dinner with chairs goes on.
use gjworks.Common.{
  equal-cases, ℕ, ◌+◌, ◌*◌, ◌≤◌, ◌<◌, ◌≡◌, ◌≢◌, refl, ap, true, none, some, arith, inl, inr, ◌⊎◌,
  Option-cases, sym, ==_other,
}
use gjworks.Philosophers.State.{
  Place, thinking, seated, one_chopstick, eating, put_right, put_both, finished, Table, right,
}
use gjworks.Philosophers.Chopsticks.{
  bit_le, Held, bit, left_held, right_held, chair_held, sum5, held_left, lock-none,
}
use gjworks.Philosophers.Rounds.{unfinished, unfinished-none, or_else, sum-none, Seats}
use gjworks.Philosophers.Chairs.{act, step, take_chair, Reached, begin, next}
use gjworks.Philosophers.Chairs.Invariant.{index, Invariant, start-Invariant, act-Invariant}

run-Invariant : {n : ℕ} {t : Table} → Reached n t → Invariant n t
run-Invariant begin = start-Invariant
run-Invariant (next {n} {t} i hi run e) =
    act-Invariant (t.place i) i n t hi (run-Invariant run) refl e

-- What it is that a philosopher waits for.
abbrev Waiting : Table → ℕ → Type 0
Waiting t i =
    (right_held (t.place i) ≡ 0)
    × ((chair_held (t.place i) ≤ bit (t.mutex_arr i))
        × ((left_held (t.place i) ≤ bit (t.mutex_arr (right i)))
            × ((unfinished (t.place i) ≡ chair_held (t.place i)) ⊎ (t.four_chairs ≡ 0))))

act-none :
    (p : Place) (t : Table) (i : ℕ)
    → i < 5
    → Held t
    → t.place i ≡ p
    → act p i t ≡ none
    → Waiting t i
unfolding act take_chair
act-none thinking t i hi h at run = rw (at) (elim (equal-cases 0 t.four_chairs) [
  | inl e ↦ (refl, (ground arith, (ground arith, inr (sym e))))
  | inr e ↦ absurd (ground (arith, run, ==_other t.four_chairs 0 (λ h. e (sym h))))
])
act-none seated t i hi h at run =
    rw (at, lock-none i i one_chopstick t run) (refl, (ground arith, (ground arith, inl refl)))
act-none one_chopstick t i hi h at run =
    rw
      (
        at,
        lock-none i (right i) eating t run,
        held_left t.mutex_arr t.place i put_right true hi h (rw (at) refl),
      )
      (refl, (ground arith, (ground arith, inl refl)))
act-none eating t i hi h at run = absurd (ground arith)
act-none put_right t i hi h at run = absurd (ground arith)
act-none put_both t i hi h at run = absurd (ground arith)
act-none finished t i hi h at run = rw (at) (refl, (ground arith, (ground arith, inl refl)))

held_le : (p : Place) → (left_held p ≤ chair_held p) × (index p ≤ 5 * unfinished p)
held_le thinking = ground arith
held_le seated = ground arith
held_le one_chopstick = ground arith
held_le eating = ground arith
held_le put_right = ground arith
held_le put_both = ground arith
held_le finished = ground arith

-- When all five wait, all have finished.
all_wait :
    (t : Table)
    → Held t
    → Seats t
    → Waiting t 0
    → Waiting t 1
    → Waiting t 2
    → Waiting t 3
    → Waiting t 4
    → sum5 (λ k. unfinished (t.place k)) ≡ 0
all_wait t h s (a₀, (b₀, (c₀, d₀))) (a₁, (b₁, (c₁, d₁))) (a₂, (b₂, (c₂, d₂))) (a₃, (b₃, (c₃, d₃)))
      (a₄, (b₄, (c₄, d₄))) =
    let h₀ : bit (t.mutex_arr 1) ≡ left_held (t.place 1) + right_held (t.place 0) =
      h 0 (omega arith) in
    let h₁ : bit (t.mutex_arr 2) ≡ left_held (t.place 2) + right_held (t.place 1) =
      h 1 (omega arith) in
    let h₂ : bit (t.mutex_arr 3) ≡ left_held (t.place 3) + right_held (t.place 2) =
      h 2 (omega arith) in
    let h₃ : bit (t.mutex_arr 4) ≡ left_held (t.place 4) + right_held (t.place 3) =
      h 3 (omega arith) in
    let h₄ : bit (t.mutex_arr 0) ≡ left_held (t.place 0) + right_held (t.place 4) =
      h 4 (omega arith) in
    omega (
      arith,
      a₀,
      b₀,
      c₀,
      d₀,
      a₁,
      b₁,
      c₁,
      d₁,
      a₂,
      b₂,
      c₂,
      d₂,
      a₃,
      b₃,
      c₃,
      d₃,
      a₄,
      b₄,
      c₄,
      d₄,
      h₀,
      h₁,
      h₂,
      h₃,
      h₄,
      s,
      held_le (t.place 0),
      held_le (t.place 1),
      held_le (t.place 2),
      held_le (t.place 3),
      held_le (t.place 4),
    )

-- A philosopher who can make a step, with the table after it.
abbrev pub Moves : Table → Type 0
Moves t = (i : ℕ) × ((i < 5) × ((t' : Table) × (step i t ≡ some t')))

move_or_wait : (t : Table) → Held t → (i : ℕ) → i < 5 → Moves t ⊎ Waiting t i
move_or_wait t h i hi = elim (Option-cases (step i t)) [
  | inl e ↦ inr (act-none (t.place i) t i hi h refl e)
  | inr (t', e) ↦ inl (i, (hi, (t', e)))
]

move_or_done : (t : Table) → Held t → Seats t → Moves t ⊎ (sum5 (λ k. unfinished (t.place k)) ≡ 0)
move_or_done t h s =
    let w = move_or_wait t h in
    or_else (w 0 (omega arith)) (λ a. or_else (w 1 (omega arith)) (λ b.
      or_else (w 2 (omega arith)) (λ c.
        or_else (w 3 (omega arith))
          (λ d. or_else (w 4 (omega arith)) (λ e. inr (all_wait t h s a b c d e))))))

-- At each table that the program with chairs comes to after `n` steps, some philosopher can make a
-- step, or all five have finished their five rounds and `n` is 150: no deadlock, and an end.
pub dinner_ends :
    {n : ℕ} {t : Table}
    → Reached n t
    → Moves t ⊎ ((n ≡ 150) × ((i : ℕ) → i < 5 → (t.place i ≡ finished) × (t.count i ≡ 5)))
dinner_ends {n} {t} run =
    let inv = run-Invariant run in
    let c : (k : ℕ)
        → k < 5
        → (t.count k + unfinished (t.place k) ≤ 5) × (5 ≤ t.count k + 5 * unfinished (t.place k)) =
      inv.counted in
    elim (move_or_done t inv.held inv.seats) [
      | inl m ↦ inl m
      | inr e ↦
          let none : (i : ℕ) → i < 5 → unfinished (t.place i) ≡ 0 =
            sum-none (λ k. unfinished (t.place k)) e in
          let five_each : (i : ℕ) → i < 5 → t.count i ≡ 5 =
            λ i hi. omega (arith, c i hi, none i hi) in
          inr (
            omega (
              arith,
              e,
              inv.steps,
              five_each 0 (omega arith),
              five_each 1 (omega arith),
              five_each 2 (omega arith),
              five_each 3 (omega arith),
              five_each 4 (omega arith),
              held_le (t.place 0),
              held_le (t.place 1),
              held_le (t.place 2),
              held_le (t.place 3),
              held_le (t.place 4),
            ),
            λ i hi. (unfinished-none (t.place i) (none i hi), five_each i hi),
          )
    ]

-- Two neighbours never eat at once, and at most four philosophers have a chair.
pub neighbours_apart :
    {n : ℕ} {t : Table}
    → Reached n t
    → ((i : ℕ) → i < 5 → t.place i ≡ eating → t.place (right i) ≢ eating)
      × (sum5 (λ k. chair_held (t.place k)) ≤ 4)
neighbours_apart {n} {t} run =
    let inv = run-Invariant run in
    (
      λ i hi at at'.
          let h : bit (t.mutex_arr (right i))
              ≡ left_held (t.place (right i)) + right_held (t.place i) =
            inv.held i hi in
          let l : left_held (t.place (right i)) ≡ 1 = ap left_held at' in
          let r : right_held (t.place i) ≡ 1 = ap right_held at in
          omega (arith, h, l, r, bit_le (t.mutex_arr (right i))),
      omega (arith, inv.seats),
    )
