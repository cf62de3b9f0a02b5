-- ===== src/Philosophers/Rounds.antt =====
-- The loop counters of the philosophers, and the chairs: what a move changes in the sums over the
-- five of them.
use gjworks.Common.{
  equal-cases, ℕ, ◌+◌, ◌*◌, ◌≤◌, ◌<◌, ◌≡◌, refl, arith, ◌==◌, if◌then◌else◌, ltb, inl, inr, ◌⊎◌,
  Bool-cases,
}
use gjworks.Philosophers.State.{Place, thinking, finished, Table, set, num_rounds}
use gjworks.Philosophers.Chopsticks.{
  five, sum5, sum5-set, chair_held, set_same, set_other, set_keep,
}

abbrev pub unfinished : Place → ℕ
unfinished finished = 0
unfinished _ = 1

pub sum5-move {ℓ} :
    {A : Type ℓ} (v : A → ℕ) (f : ℕ → A) (i : ℕ) (x : A)
    → i < 5
    → sum5 (λ k. v (set f i x k)) + v (f i) ≡ sum5 (λ k. v (f k)) + v x
sum5-move v f i x h =
    sum5-set (λ k. v (f k)) (λ k. v (set f i x k)) i (v x) h
      (λ k. elim (Bool-cases (i == k)) [ inl e ↦ rw (e) refl | inr e ↦ rw (e) refl ])

-- A philosopher has gone through all rounds exactly when finished.
abbrev pub Counted : Table → Type 0
Counted t =
    (k : ℕ)
    → k < 5
    → (t.count k + unfinished (t.place k) ≤ 5) × (5 ≤ t.count k + 5 * unfinished (t.place k))

-- Four chairs in all.
abbrev pub Seats : Table → Type 0
Seats t = t.four_chairs + sum5 (λ k. chair_held (t.place k)) ≡ 4

-- With `size` steps in a round, and a place that is `index` steps into it.
abbrev pub steps_made : ℕ → (Place → ℕ) → Table → ℕ
steps_made size index t = size * sum5 t.count + sum5 (λ k. index (t.place k))

-- The place after count++ and the test of the loop.
abbrev pub place_after : ℕ → Place
place_after c = if ltb c num_rounds then thinking else finished

pub after_none : (v : Place → ℕ) → v thinking ≡ 0 → v finished ≡ 0 → (c : ℕ) → v (place_after c) ≡ 0
after_none v a b c = elim (Bool-cases (ltb c num_rounds)) [ inl e ↦ rw (e) a | inr e ↦ rw (e) b ]

pub unfinished-none : (p : Place) → unfinished p ≡ 0 → p ≡ finished
unfinished-none p h = ground arith

pub or_else : {A B C : Type 0} → A ⊎ B → (B → A ⊎ C) → A ⊎ C
or_else (inl a) f = inl a
or_else (inr b) f = f b

pub sum-none : (f : ℕ → ℕ) → sum5 f ≡ 0 → (i : ℕ) → i < 5 → f i ≡ 0
sum-none f e i hi = ground (arith, five i hi)

module _ (t : Table) (i : ℕ) (hi : i < 5) where
  pub place-Counted :
      (q : Place)
      → Counted t
      → unfinished q ≡ unfinished (t.place i)
      → (k : ℕ) → k < 5
      → (t.count k + unfinished (set t.place i q k) ≤ 5)
        × (5 ≤ t.count k + 5 * unfinished (set t.place i q k))
  place-Counted q c same k hk =
      let e : unfinished (set t.place i q k) ≡ unfinished (t.place k) =
        set_keep unfinished t.place i q same k in
      let (a, b) = c k hk in (omega (arith, e, a), omega (arith, e, b))

  pub round-Counted :
      (place : ℕ → Place)
      → Counted t
      → unfinished (t.place i) ≡ 1
      → ((k : ℕ) → unfinished (place k) ≡ unfinished (t.place k))
      → (k : ℕ) → k < 5
      → (set t.count i (t.count i + 1) k + unfinished (set place i (place_after (t.count i + 1)) k)
          ≤ 5)
        × (5
            ≤ set t.count i (t.count i + 1) k
              + 5 * unfinished (set place i (place_after (t.count i + 1)) k))
  round-Counted place c busy same k hk = elim (equal-cases i k) [
    | inl e ↦
        rw
          (
            set_same t.count i (t.count i + 1) k e,
            set_same place i (place_after (t.count i + 1)) k e,
          )
          ground (arith, c i hi)
    | inr e ↦
        rw
          (
            set_other t.count i (t.count i + 1) k e,
            set_other place i (place_after (t.count i + 1)) k e,
          )
          ground (arith, c k hk, same k)
  ]
