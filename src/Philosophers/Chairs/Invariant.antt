-- ===== src/Philosophers/Chairs/Invariant.antt =====
-- What holds of every table that the program with chairs comes to.
use gjworks.Common.{
  equal-cases, ℕ, suc, ◌+◌, ◌-◌, ◌<◌, ◌≡◌, refl, Bool, true, false, some, arith, inl, inr, ==_other,
  some-injective, subst, sym,
}
use gjworks.Philosophers.State.{
  Place, thinking, seated, one_chopstick, eating, put_right, put_both, finished, Table, right, set,
  start, lock, unlock, next_round,
}
use gjworks.Philosophers.Chopsticks.{
  Held, left-Held, right-Held, place-Held, left_held, right_held, chair_held, lock-some, held_left,
  held_right,
}
use gjworks.Philosophers.Rounds.{
  unfinished, sum5-move, Counted, Seats, steps_made, place_after, place-Counted, round-Counted,
  after_none,
}
use gjworks.Philosophers.Chairs.{act, take_chair}

-- How many steps into its round a philosopher is.
abbrev pub index : Place → ℕ
index thinking = 0
index seated = 1
index one_chopstick = 2
index eating = 3
index put_right = 4
index put_both = 5
index finished = 0

pub record Invariant (n : ℕ) (t : Table) : Type 0 where
  pub held : Held t
  pub seats : Seats t
  pub counted : Counted t
  pub steps : n ≡ steps_made 6 index t

pub start-Invariant : Invariant 0 start
start-Invariant = record {
  held = λ j hj. refl;
  seats = refl;
  counted = λ k hk. ground arith;
  steps = refl;
}

-- A move within a round.
move-Invariant :
    (n : ℕ) (t : Table) (i : ℕ) (q : Place) (m : ℕ → Bool) (c : ℕ)
    → i < 5
    → Invariant n t
    → Held (record t { place = set t.place i q; mutex_arr = m })
    → unfinished q ≡ unfinished (t.place i)
    → c + chair_held q ≡ t.four_chairs + chair_held (t.place i)
    → index q ≡ suc (index (t.place i))
    → Invariant (suc n) (record t { place = set t.place i q; mutex_arr = m; four_chairs = c })
move-Invariant n t i q m c hi inv held same chairs one = record {
  held = held;
  seats = omega (arith, inv.seats, chairs, sum5-move chair_held t.place i q hi);
  counted = place-Counted t i hi q inv.counted same;
  steps = omega (arith, inv.steps, one, sum5-move index t.place i q hi);
}

round-Invariant :
    (n : ℕ) (t : Table) (i : ℕ)
    → i < 5
    → Invariant n t
    → t.place i ≡ put_both
    → Invariant (suc n) (next_round i (record t { four_chairs = t.four_chairs + 1 }))
unfolding next_round
round-Invariant n t i hi inv at =
    let c = t.count i + 1 in
    let q = place_after c in
    let l : left_held q ≡ left_held (t.place i) = rw (at) (after_none left_held refl refl c) in
    let r : right_held q ≡ right_held (t.place i) = rw (at) (after_none right_held refl refl c) in
    let h : chair_held q ≡ 0 = after_none chair_held refl refl c in
    let x : index q ≡ 0 = after_none index refl refl c in
    let h' : chair_held (t.place i) ≡ 1 = rw (at) refl in
    let x' : index (t.place i) ≡ 5 = rw (at) refl in
    record {
      held = place-Held t.mutex_arr t.place i q true hi inv.held l r;
      seats = omega (arith, inv.seats, h, h', sum5-move chair_held t.place i q hi);
      counted = round-Counted t i hi t.place inv.counted (rw (at) refl) (λ k. refl);
      steps = omega (
        arith,
        inv.steps,
        x,
        x',
        sum5-move index t.place i q hi,
        sum5-move (λ k. k) t.count i c hi,
      );
    }

-- Each step keeps the invariant, whatever the philosopher does.
pub act-Invariant :
    (p : Place) (i n : ℕ) (t : Table) {t' : Table}
    → i < 5
    → Invariant n t
    → t.place i ≡ p
    → act p i t ≡ some t'
    → Invariant (suc n) t'
unfolding act lock unlock take_chair
act-Invariant thinking i n t hi inv at run = elim (equal-cases 0 t.four_chairs) [
  | inl e ↦ absurd (ground (arith, e, run))
  | inr e ↦
      subst (Invariant (suc n))
        (some-injective _ _ (rw (==_other t.four_chairs 0 (λ h. e (sym h))) at run))
        (move-Invariant n t i seated t.mutex_arr (t.four_chairs - 1) hi inv
          (place-Held t.mutex_arr t.place i seated true hi inv.held (rw (at) refl) (rw (at) refl))
          (rw (at) refl) (rw (at) omega arith) (rw (at) refl))
]
act-Invariant seated i n t hi inv at run =
    let (free, e) = lock-some i i one_chopstick t run in
    subst (Invariant (suc n)) e (
      move-Invariant n t i one_chopstick (set t.mutex_arr i true) t.four_chairs hi inv
        (left-Held t.mutex_arr t.place i one_chopstick true hi inv.held (rw (at) refl)
          (rw (at, free) refl))
        (rw (at) refl) (rw (at) refl) (rw (at) refl))
act-Invariant one_chopstick i n t hi inv at run =
    let (free, e) = lock-some i (right i) eating t run in
    subst (Invariant (suc n)) e (
      move-Invariant n t i eating (set t.mutex_arr (right i) true) t.four_chairs hi inv
        (right-Held t.mutex_arr t.place i eating true hi inv.held (rw (at) refl)
          (rw (at, free) refl))
        (rw (at) refl) (rw (at) refl) (rw (at) refl))
act-Invariant eating i n t hi inv at run = subst (Invariant (suc n)) (some-injective _ _ run) (
    move-Invariant n t i put_right (set t.mutex_arr (right i) false) t.four_chairs hi inv
      (right-Held t.mutex_arr t.place i put_right false hi inv.held (rw (at) refl)
        (rw (at, held_right t.mutex_arr t.place i put_right true hi inv.held (rw (at) refl)) refl))
      (rw (at) refl) (rw (at) refl) (rw (at) refl))
act-Invariant put_right i n t hi inv at run = subst (Invariant (suc n)) (some-injective _ _ run) (
    move-Invariant n t i put_both (set t.mutex_arr i false) t.four_chairs hi inv
      (left-Held t.mutex_arr t.place i put_both false hi inv.held (rw (at) refl)
        (rw (at, held_left t.mutex_arr t.place i put_right true hi inv.held (rw (at) refl)) refl))
      (rw (at) refl) (rw (at) refl) (rw (at) refl))
act-Invariant put_both i n t hi inv at run =
    subst (Invariant (suc n)) (some-injective _ _ run) (round-Invariant n t i hi inv at)
act-Invariant finished i n t hi inv at run = absurd (ground arith)
