-- ===== src/Philosophers/Plain/Waiting.antt =====
-- What the philosophers without chairs wait for.
use gjworks.Common.{ℕ, ◌+◌, ◌≤◌, ◌<◌, ◌≡◌, refl, true, none, arith, inl, inr, ◌⊎◌}
use gjworks.Philosophers.State.{
  Place, thinking, seated, one_chopstick, eating, put_right, put_both, finished, Table, right, lock,
}
use gjworks.Philosophers.Chopsticks.{
  bit_le, zero_or_one, Held, bit, left_held, right_held, sum5, held_left, lock-none,
}
use gjworks.Philosophers.Rounds.{unfinished}
use gjworks.Philosophers.Plain.{act}
use gjworks.Philosophers.Plain.Invariant.{index, elsewhere}

-- What it is that a philosopher waits for.
abbrev pub Waiting : Table → ℕ → Type 0
Waiting t i =
    (right_held (t.place i) ≡ 0)
    × ((unfinished (t.place i) ≤ bit (t.mutex_arr i))
        × ((left_held (t.place i) ≤ bit (t.mutex_arr (right i)))
            × (index (t.place i) ≡ left_held (t.place i))))

pub act-none :
    (p : Place) (t : Table) (i : ℕ)
    → i < 5
    → Held t
    → elsewhere p ≡ 0
    → t.place i ≡ p
    → act p i t ≡ none
    → Waiting t i
unfolding act
act-none thinking t i hi h w at run =
    rw (at, lock-none i i one_chopstick t run) (refl, (ground arith, (ground arith, refl)))
act-none one_chopstick t i hi h w at run =
    rw
      (
        at,
        lock-none i (right i) eating t run,
        held_left t.mutex_arr t.place i put_right true hi h (rw (at) refl),
      )
      (refl, (ground arith, (ground arith, refl)))
act-none seated t i hi h w at run = absurd (ground arith)
act-none eating t i hi h w at run = absurd (ground arith)
act-none put_right t i hi h w at run = absurd (ground arith)
act-none put_both t i hi h w at run = absurd (ground arith)
act-none finished t i hi h w at run = rw (at) (refl, (ground arith, (ground arith, refl)))

held_le : (p : Place) → left_held p ≤ unfinished p
held_le thinking = ground arith
held_le seated = ground arith
held_le one_chopstick = ground arith
held_le eating = ground arith
held_le put_right = ground arith
held_le put_both = ground arith
held_le finished = ground arith

pub one-index : (p : Place) → index p ≡ 1 → p ≡ one_chopstick
one-index p h = ground arith

pub left-index : (p : Place) → left_held p ≤ index p
left-index p = ground arith

pub blocked : (i : ℕ) (t : Table) → lock i (right i) eating t ≡ none → act one_chopstick i t ≡ none
unfolding act
blocked i t h = h

-- When all five wait, each waits for the next one, or all have finished.
pub all_wait :
    (t : Table)
    → Held t
    → Waiting t 0
    → Waiting t 1
    → Waiting t 2
    → Waiting t 3
    → Waiting t 4
    → ((sum5 (λ k. left_held (t.place k)) ≡ 5) × (sum5 (λ k. index (t.place k)) ≡ 5))
      ⊎ ((sum5 (λ k. unfinished (t.place k)) ≡ 0) × (sum5 (λ k. index (t.place k)) ≡ 0))
all_wait t h (a₀, (b₀, (c₀, d₀))) (a₁, (b₁, (c₁, d₁))) (a₂, (b₂, (c₂, d₂))) (a₃, (b₃, (c₃, d₃)))
      (a₄, (b₄, (c₄, d₄))) =
    let h₀ : bit (t.mutex_arr 1) ≡ left_held (t.place 1) + right_held (t.place 0) =
      h 0 (omega arith) in
    let h₁ : bit (t.mutex_arr 2) ≡ left_held (t.place 2) + right_held (t.place 1) =
      h 1 (omega arith) in
    let h₂ : bit (t.mutex_arr 3) ≡ left_held (t.place 3) + right_held (t.place 2) =
      h 2 (omega arith) in
    let h₃ : bit (t.mutex_arr 4) ≡ left_held (t.place 4) + right_held (t.place 3) =
      h 3 (omega arith) in
    let h₄ : bit (t.mutex_arr 0) ≡ left_held (t.place 0) + right_held (t.place 4) =
      h 4 (omega arith) in
    elim (zero_or_one (t.mutex_arr 0)) [
      | inl z ↦ inr (omega arith, omega arith)
      | inr o ↦
          let l : sum5 (λ k. left_held (t.place k)) ≡ 5 = omega (
            arith,
            bit_le (t.mutex_arr 1),
            bit_le (t.mutex_arr 2),
            bit_le (t.mutex_arr 3),
            bit_le (t.mutex_arr 4),
          ) in
          inl (l, omega arith)
    ]
