-- ===== src/MatMul/Threads/Ends.antt =====
-- Where the program ends, whatever the order of its threads.
use native.Mathlib.Nat.{mul-div_cancel_left, zero-div}
use gjworks.Common.{
  ℕ, zero, suc, ◌+◌, ◌-◌, ◌*◌, ◌/◌, ◌%◌, ◌^◌, ◌≤◌, ◌<◌, ◌≡◌, ◌≢◌, ◌⊎◌, inl, inr, refl, ap, ◌∙◌,
  subst, some, equal-cases, sum_to, sum_to-le, arith,
}
use gjworks.MatMul.{Matrix, size, set_at}
use gjworks.MatMul.Product.{product}
use gjworks.MatMul.Slices.{passes}
use gjworks.MatMul.Threads.{
  Place, unborn, clearing, adding, ended, overflow, Master, creating, to_multiply, joining, exited,
  State, Actor, main_thread, slice, while_running, from_row, to_row, main_act, multiply_act,
  at_product, put, step, Reached,
}
use gjworks.MatMul.Threads.Rows.{Good, from-le-to}
use gjworks.MatMul.Threads.Loops.{progress}
use gjworks.MatMul.Threads.Invariant.{Made, master_steps, slice_steps, Inv}
use gjworks.MatMul.Threads.Runs.{Reached-Inv}

-- The rows of the slices together.
telescope :
    (f : ℕ → ℕ) (n : ℕ)
    → ((s : ℕ) → f s ≤ f (s + 1))
    → sum_to n (λ s. (f (s + 1) - f s) * 20) + f 0 * 20 ≡ f n * 20
telescope f zero up = omega arith
telescope f (suc n) up =
    omega (arith, telescope f n up, up n, ap f {x = n + 1} {y = suc n} (omega arith))

progress-le :
    (a b : Matrix) (lo hi : ℕ) (w : Place) (c : Matrix)
    → Good a b lo hi w c
    → progress lo hi w ≤ (hi - lo) * 20
progress-le a b lo hi unborn c h = omega arith
progress-le a b lo hi (clearing i j) c (lt, lt', h) = omega (arith, h.begun, lt, lt')
progress-le a b lo hi (adding i j k) c (lt, lt', h, lt'', sum) =
    omega (arith, h.begun, lt, lt', lt'')
progress-le a b lo hi overflow c h = absurd h
progress-le a b lo hi ended c h = omega arith

master_steps-le :
    (num_threads : ℕ) (m : Master) (place : ℕ → Place)
    → Made num_threads m place
    → master_steps num_threads m ≤ num_threads
master_steps-le num_threads (creating i) place h = omega (arith, h.1)
master_steps-le num_threads to_multiply place h = omega arith
master_steps-le num_threads joining place h = omega arith
master_steps-le num_threads exited place h = omega arith

abbrev pub Moves : ℕ → Matrix → Matrix → State → Type 0
Moves num_threads a b t = (x : Actor) × (t' : State) × (step num_threads a b x t ≡ some t')

-- The statements as steps.
clear_step :
    (num_threads : ℕ) (a b : Matrix) (i j s : ℕ) (t : State)
    → multiply_act num_threads a b (clearing i j) s t
      ≡ some (record t {
        c = set_at t.c i j 0;
        place = put s (at_product num_threads s i j 0) t.place;
      })
unfolding multiply_act
clear_step num_threads a b i j s t = refl

add_step :
    (num_threads : ℕ) (a b : Matrix) (i j k s : ℕ) (t : State)
    → multiply_act num_threads a b (adding i j k) s t
      ≡ some (record t {
        c = set_at t.c i j ((t.c i j + a i k * b k j) % 2 ^ 32);
        place = put s (at_product num_threads s i j (k + 1)) t.place;
      })
unfolding multiply_act
add_step num_threads a b i j k s t = refl

-- The slices are begun: one of them can go on, or all have ended.
all_ended :
    (num_threads n : ℕ) (a b : Matrix) (t : State)
    → ((s : ℕ) → s < n → t.place s ≢ unborn)
    → ((s : ℕ) → t.place s ≢ overflow)
    → ((s : ℕ) × (t' : State) × (multiply_act num_threads a b (t.place s) s t ≡ some t'))
      ⊎ ((s : ℕ) → s < n → t.place s ≡ ended)
all_ended num_threads zero a b t born fit = inr (λ s lt. absurd (omega arith))
all_ended num_threads (suc n) a b t born fit =
    here (t.place n) refl (all_ended num_threads n a b t (λ s lt. born s (omega arith)) fit)
  where
    act :
        (w : Place)
        → t.place n ≡ w
        → (t' : State) → multiply_act num_threads a b w n t ≡ some t'
        → (s : ℕ) × (t' : State) × (multiply_act num_threads a b (t.place s) s t ≡ some t')
    act w e t' f = (n, t', ap (λ u. multiply_act num_threads a b u n t) e ∙ f)

    here :
        (w : Place)
        → t.place n ≡ w
        → ((s : ℕ) × (t' : State) × (multiply_act num_threads a b (t.place s) s t ≡ some t'))
          ⊎ ((s : ℕ) → s < n → t.place s ≡ ended)
        → ((s : ℕ) × (t' : State) × (multiply_act num_threads a b (t.place s) s t ≡ some t'))
          ⊎ ((s : ℕ) → s < suc n → t.place s ≡ ended)
    here w e (inl moves) = inl moves
    here unborn e (inr all) = absurd (born n (omega arith) e)
    here overflow e (inr all) = absurd (fit n e)
    here (clearing i j) e (inr all) =
        inl (act (clearing i j) e _ (clear_step num_threads a b i j n t))
    here (adding i j k) e (inr all) =
        inl (act (adding i j k) e _ (add_step num_threads a b i j k n t))
    here ended e (inr all) = inr (λ s lt. elim (equal-cases s n) [
      | inl same ↦ ap t.place same ∙ e
      | inr other ↦ all s (omega arith)
    ])

module _ (num_threads : ℕ) (some_threads : 0 < num_threads) (fits : num_threads * size < 2 ^ 31)
    (a b : Matrix) (n : ℕ) (t : State) where
  steps-le : (m : Master) → Inv num_threads a b n m t → n ≤ num_threads + 80
  steps-le m v =
      let whole : num_threads * size / num_threads ≡ 4 = mul-div_cancel_left size some_threads in
      omega (
        arith,
        v.steps,
        master_steps-le num_threads m t.place v.made,
        sum_to-le num_threads (slice_steps num_threads a b t.place)
            (λ s. (to_row num_threads s - from_row num_threads s) * 20)
            (λ s lt.
              progress-le a b (from_row num_threads s) (to_row num_threads s) (t.place s) t.c
                (v.good s)),
        telescope (from_row num_threads) num_threads (from-le-to num_threads some_threads),
        whole,
      )

  ended-product :
      (m : Master)
      → Inv num_threads a b n m t
      → ((s : ℕ) → s < num_threads → t.place s ≡ ended)
      → (p q : ℕ) → p < size
      → q < size
      → t.c p q ≡ product a b p q
  ended-product m v all p q in_p in_q =
      let first : 0 * size / num_threads ≤ p = rw (zero-div num_threads) (omega arith) in
      let last : p < num_threads * size / num_threads =
        rw (mul-div_cancel_left size some_threads) in_p in
      let (s, lt, x, y) = passes (from_row num_threads) p num_threads first last in
      subst (λ w. Good a b (from_row num_threads s) (to_row num_threads s) w t.c) (all s lt)
        (v.good s) p q x y in_q

  Inv-Moves :
      (m : Master)
      → Inv num_threads a b n m t
      → Moves num_threads a b t
        ⊎ (((t.master ≡ joining) × ((p q : ℕ) → p < size → q < size → t.c p q ≡ product a b p q))
            ⊎ (t.master ≡ exited))
  unfolding step main_act
  Inv-Moves (creating i) v = inl (main_thread, _, ap (λ m. main_act num_threads m t) v.here)
  Inv-Moves to_multiply v = inl (main_thread, _, ap (λ m. main_act num_threads m t) v.here)
  Inv-Moves exited v = inr (inr v.here)
  Inv-Moves joining v =
      elim (all_ended num_threads num_threads a b t v.made (λ s e.
        subst (λ w. Good a b (from_row num_threads s) (to_row num_threads s) w t.c) e (v.good s))) [
          | inl (s, t', e) ↦ inl (
            slice s,
            t',
            ap (λ m. while_running m (multiply_act num_threads a b (t.place s) s t)) v.here ∙ e,
          )
          | inr all ↦ inr (inl (v.here, ended-product joining v all))
        ]

-- For a number of threads from 1 on whose product with SIZE fits in an `int`, as the bounds of the
-- slices then do, and in whatever order main and the slices go on, statement by statement: there are at most 80 steps and one for each thread, and at each state a
-- step can be made, or main has done its slice and is at its joins and the matrix is the product,
-- modulo 2 ^ 32, whatever it was before, or a thread could not be made and the program has ended.
pub threads-product :
    (num_threads : ℕ) (a b c : Matrix) {n : ℕ} {t : State}
    → 0 < num_threads
    → num_threads * size < 2 ^ 31
    → Reached num_threads a b c n t
    → (n ≤ num_threads + 80)
      × (Moves num_threads a b t
          ⊎ (((t.master ≡ joining) × ((p q : ℕ) → p < size → q < size → t.c p q ≡ product a b p q))
              ⊎ (t.master ≡ exited)))
threads-product num_threads a b c {n} {t} some_threads fits run =
    let v = Reached-Inv num_threads some_threads fits a b c run in
    (
      steps-le num_threads some_threads fits a b n t t.master v,
      Inv-Moves num_threads some_threads fits a b n t t.master v,
    )
