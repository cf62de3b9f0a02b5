-- ===== src/Philosophers/Plain/Invariant.antt =====
-- What holds of every table that the program without chairs comes to.
use gjworks.Common.{
  ℕ, suc, ◌+◌, ◌<◌, ◌≡◌, refl, Bool, true, false, some, some-injective, subst, sym, fun_ext,
  Bool-cases, arith, ◌==◌, inl, inr, ◌∙◌,
}
use gjworks.Philosophers.State.{
  Place, thinking, seated, one_chopstick, eating, put_right, put_both, finished, Table, right, set,
  start, unlock, next_round,
}
use gjworks.Philosophers.Chopsticks.{
  Held, left-Held, right-Held, bit, left_held, right_held, set_keep, lock-some, held_left,
  held_right,
}
use gjworks.Philosophers.Rounds.{
  unfinished, sum5-move, Counted, steps_made, place_after, place-Counted, round-Counted, after_none,
}
use gjworks.Philosophers.Plain.{act}

-- How many steps into its round a philosopher is.
abbrev pub index : Place → ℕ
index one_chopstick = 1
index eating = 2
index put_right = 3
index _ = 0

-- The places of the program with chairs that this one has not.
abbrev pub elsewhere : Place → ℕ
elsewhere seated = 1
elsewhere put_both = 1
elsewhere _ = 0

pub record Invariant (n : ℕ) (t : Table) : Type 0 where
  pub held : Held t
  pub counted : Counted t
  pub nowhere : (k : ℕ) → elsewhere (t.place k) ≡ 0
  pub steps : n ≡ steps_made 4 index t

pub start-Invariant : Invariant 0 start
start-Invariant = record {
  held = λ j hj. refl;
  counted = λ k hk. ground arith;
  nowhere = λ k. refl;
  steps = refl;
}

-- A move within a round.
move-Invariant :
    (n : ℕ) (t : Table) (i : ℕ) (q : Place) (m : ℕ → Bool)
    → i < 5
    → Invariant n t
    → Held (record t { place = set t.place i q; mutex_arr = m })
    → unfinished q ≡ unfinished (t.place i)
    → elsewhere q ≡ 0
    → index q ≡ suc (index (t.place i))
    → Invariant (suc n) (record t { place = set t.place i q; mutex_arr = m })
move-Invariant n t i q m hi inv held same known one = record {
  held = held;
  counted = place-Counted t i hi q inv.counted same;
  nowhere = λ k. set_keep elsewhere t.place i q (known ∙ sym (inv.nowhere i)) k ∙ inv.nowhere k;
  steps = omega (arith, inv.steps, one, sum5-move index t.place i q hi);
}

-- Two moves of one philosopher come to the last of them.
set_twice : (f : ℕ → Place) (i : ℕ) (p q : Place) → set f i q ≡ set (set f i p) i q
set_twice f i p q =
    fun_ext (λ k. elim (Bool-cases (i == k)) [ inl e ↦ rw (e) refl | inr e ↦ rw (e) refl ])

round-Invariant :
    (n : ℕ) (t : Table) (i : ℕ)
    → i < 5
    → Invariant n t
    → t.place i ≡ put_right
    → Invariant (suc n) (next_round i (unlock i i put_both t))
unfolding next_round unlock
round-Invariant n t i hi inv at =
    let c = t.count i + 1 in
    let q = place_after c in
    let r : right_held q ≡ right_held (t.place i) = rw (at) (after_none right_held refl refl c) in
    let x : index q ≡ 0 = after_none index refl refl c in
    let x' : index (t.place i) ≡ 3 = rw (at) refl in
    let w : elsewhere q ≡ 0 = after_none elsewhere refl refl c in
    let locked : bit (t.mutex_arr i) ≡ 1 =
      held_left t.mutex_arr t.place i put_right true hi inv.held (rw (at) refl) in
    let m = set t.mutex_arr i false in
    let counts = set t.count i c in
    subst (λ f. Invariant (suc n) (record t { place = f; count = counts; mutex_arr = m }))
      (set_twice t.place i put_both q)
      (record {
        held =
            left-Held t.mutex_arr t.place i q false hi inv.held r
              (rw (at, locked, after_none left_held refl refl c) refl);
        counted = round-Counted t i hi t.place inv.counted (rw (at) refl) (λ k. refl);
        nowhere = λ k. set_keep elsewhere t.place i q (w ∙ sym (inv.nowhere i)) k ∙ inv.nowhere k;
        steps = omega (
          arith,
          inv.steps,
          x,
          x',
          sum5-move index t.place i q hi,
          sum5-move (λ k. k) t.count i c hi,
        );
      })

-- Each step keeps the invariant, whatever the philosopher does.
pub act-Invariant :
    (p : Place) (i n : ℕ) (t : Table) {t' : Table}
    → i < 5
    → Invariant n t
    → t.place i ≡ p
    → act p i t ≡ some t'
    → Invariant (suc n) t'
unfolding act unlock
act-Invariant thinking i n t hi inv at run =
    let (free, e) = lock-some i i one_chopstick t run in
    subst (Invariant (suc n)) e (
      move-Invariant n t i one_chopstick (set t.mutex_arr i true) hi inv
        (left-Held t.mutex_arr t.place i one_chopstick true hi inv.held (rw (at) refl)
          (rw (at, free) refl))
        (rw (at) refl) refl (rw (at) refl))
act-Invariant one_chopstick i n t hi inv at run =
    let (free, e) = lock-some i (right i) eating t run in
    subst (Invariant (suc n)) e (
      move-Invariant n t i eating (set t.mutex_arr (right i) true) hi inv
        (right-Held t.mutex_arr t.place i eating true hi inv.held (rw (at) refl)
          (rw (at, free) refl))
        (rw (at) refl) refl (rw (at) refl))
act-Invariant eating i n t hi inv at run = subst (Invariant (suc n)) (some-injective _ _ run) (
    move-Invariant n t i put_right (set t.mutex_arr (right i) false) hi inv
      (right-Held t.mutex_arr t.place i put_right false hi inv.held (rw (at) refl)
        (rw (at, held_right t.mutex_arr t.place i put_right true hi inv.held (rw (at) refl)) refl))
      (rw (at) refl) refl (rw (at) refl))
act-Invariant put_right i n t hi inv at run =
    subst (Invariant (suc n)) (some-injective _ _ run) (round-Invariant n t i hi inv at)
act-Invariant seated i n t hi inv at run = absurd (ground arith)
act-Invariant put_both i n t hi inv at run = absurd (ground arith)
act-Invariant finished i n t hi inv at run = absurd (ground arith)
