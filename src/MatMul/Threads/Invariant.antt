-- ===== src/MatMul/Threads/Invariant.antt =====
-- What holds of every state that the program comes to.
use gjworks.Common.{
  ℕ, ◌+◌, ◌-◌, ◌≤◌, ◌<◌, ◌≡◌, ◌≢◌, inl, inr, refl, sym, ap, subst, Option, none, some, ==_refl,
  ==_other, equal-cases, sum_to, sum_to-change, arith,
}
use gjworks.MatMul.{Matrix, set_at}
use gjworks.MatMul.Product.{set_at-other}
use gjworks.MatMul.Threads.{
  Place, unborn, Master, creating, to_multiply, joining, exited, State, put, from_row, to_row,
  at_row,
}
use gjworks.MatMul.Threads.Rows.{Good, Good-same, from-le-to, slices_apart}
use gjworks.MatMul.Threads.Loops.{progress, IsAt, at_row-IsAt}

-- Which slices are begun, by the call of main.
abbrev pub Made : ℕ → Master → (ℕ → Place) → Type 0
Made num_threads (creating i) place =
    (0 < i)
    × (i < num_threads)
    × (place 0 ≡ unborn)
    × ((s : ℕ) → 0 < s → s < i → place s ≢ unborn)
    × ((s : ℕ) → i ≤ s → place s ≡ unborn)
Made num_threads to_multiply place =
    (place 0 ≡ unborn) × ((s : ℕ) → 0 < s → s < num_threads → place s ≢ unborn)
Made num_threads joining place = (s : ℕ) → s < num_threads → place s ≢ unborn
Made num_threads exited place = Unit

-- At least the calls that main has made.
abbrev pub master_steps : ℕ → Master → ℕ
master_steps num_threads (creating i) = i - 1
master_steps num_threads to_multiply = num_threads - 1
master_steps num_threads joining = num_threads
master_steps num_threads exited = num_threads

module _ (num_threads : ℕ) (a b : Matrix) where
  abbrev pub slice_steps : (ℕ → Place) → ℕ → ℕ
  slice_steps place s = progress (from_row num_threads s) (to_row num_threads s) (place s)

  pub record Inv (n : ℕ) (m : Master) (t : State) : Type 0 where
    pub here : t.master ≡ m
    pub good : (s : ℕ) → Good a b (from_row num_threads s) (to_row num_threads s) (t.place s) t.c
    pub made : Made num_threads m t.place
    pub late : (s : ℕ) → num_threads ≤ s → t.place s ≡ unborn
    pub steps : n ≤ master_steps num_threads m + sum_to num_threads (slice_steps t.place)

  -- The invariant after a step, if it is one.
  abbrev pub Keeps : ℕ → Master → Option State → Type 0
  Keeps n m none = Unit
  Keeps n m (some t) = Inv n m t

pub put_same : (s : ℕ) (w : Place) (f : ℕ → Place) → put s w f s ≡ w
put_same s w f = rw (==_refl s) refl

pub put_other : (s : ℕ) (w : Place) (f : ℕ → Place) (q : ℕ) → s ≢ q → put s w f q ≡ f q
put_other s w f q ne = rw (==_other s q ne) refl

module _ (num_threads : ℕ) (some_threads : 0 < num_threads) (a b : Matrix) where
  -- A slice that is begun.
  pub begun-IsAt :
      (s : ℕ) (c : Matrix)
      → IsAt num_threads s a b (at_row num_threads s (from_row num_threads s)) 0 c
  begun-IsAt s c =
      let (good, made, born) =
        at_row-IsAt num_threads s a b (from_row num_threads s) c (omega arith)
          (from-le-to num_threads some_threads s) (λ p q lo hi in_q. absurd (omega arith)) in
      (good, omega (arith, made), born)

  -- The sum after a change of one slice.
  pub slice_steps-put :
      (s : ℕ) (w : Place) (f : ℕ → Place)
      → s < num_threads
      → sum_to num_threads (slice_steps num_threads a b (put s w f))
          + slice_steps num_threads a b f s
        ≡ sum_to num_threads (slice_steps num_threads a b f)
          + progress (from_row num_threads s) (to_row num_threads s) w
  slice_steps-put s w f lt =
      let lo = from_row num_threads s in
      let hi = to_row num_threads s in
      omega (
        arith,
        sum_to-change num_threads s (slice_steps num_threads a b f)
            (slice_steps num_threads a b (put s w f)) lt
            (λ q ne.
              ap (progress (from_row num_threads q) (to_row num_threads q)) (put_other s w f q ne)),
        ap (progress lo hi) (put_same s w f),
      )

  -- The slices after main begins one.
  pub begun-Good :
      (s : ℕ) (t : State)
      → ((q : ℕ) → Good a b (from_row num_threads q) (to_row num_threads q) (t.place q) t.c)
      → (q : ℕ)
      → Good a b
          (from_row num_threads q)
          (to_row num_threads q)
          (put s (at_row num_threads s (from_row num_threads s)) t.place q)
          t.c
  begun-Good s t good q =
      let w = at_row num_threads s (from_row num_threads s) in
      elim (equal-cases s q) [
        | inl same ↦
            subst
              (λ r.
                Good a b (from_row num_threads r) (to_row num_threads r) (put s w t.place r) t.c)
              same
              (subst (λ u. Good a b (from_row num_threads s) (to_row num_threads s) u t.c)
                (sym (put_same s w t.place)) (begun-IsAt s t.c).0)
        | inr other ↦
            subst (λ u. Good a b (from_row num_threads q) (to_row num_threads q) u t.c)
              (sym (put_other s w t.place q other)) (good q)
      ]

  -- The slices after the slice `s` has written in one of its rows.
  pub written-Good :
      (s i j v : ℕ) (w : Place) (t : State)
      → from_row num_threads s ≤ i
      → i < to_row num_threads s
      → Good a b (from_row num_threads s) (to_row num_threads s) w (set_at t.c i j v)
      → ((q : ℕ) → Good a b (from_row num_threads q) (to_row num_threads q) (t.place q) t.c)
      → (q : ℕ)
      → Good a b
          (from_row num_threads q)
          (to_row num_threads q)
          (put s w t.place q)
          (set_at t.c i j v)
  written-Good s i j v w t le lt mine good q = elim (equal-cases s q) [
    | inl same ↦
        subst
          (λ r.
            Good a b (from_row num_threads r) (to_row num_threads r) (put s w t.place r)
              (set_at t.c i j v))
          same
          (subst
            (λ u. Good a b (from_row num_threads s) (to_row num_threads s) u (set_at t.c i j v))
            (sym (put_same s w t.place)) mine)
    | inr other ↦
        subst (λ u. Good a b (from_row num_threads q) (to_row num_threads q) u (set_at t.c i j v))
          (sym (put_other s w t.place q other))
          (Good-same a b (from_row num_threads q) (to_row num_threads q) (t.place q) t.c
            (set_at t.c i j v)
            (λ p r lo hi. set_at-other t.c i j v p r (
              inl (λ e. omega (
                arith,
                slices_apart num_threads some_threads s q i other le lt (omega (arith, e, lo)),
                e,
                hi,
              ))))
            (good q))
  ]
