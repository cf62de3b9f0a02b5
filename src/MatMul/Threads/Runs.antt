-- ===== src/MatMul/Threads/Runs.antt =====
-- The states that a run comes to have the invariant.
use gjworks.Common.{
  ◌*◌, ◌^◌, some-injective, ℕ, suc, ◌<◌, ◌≡◌, inl, inr, refl, sym, ap, ◌∙◌, subst, Option, none,
  some, ltb, Bool-cases, arith,
}
use gjworks.MatMul.{Matrix, size}
use gjworks.MatMul.Threads.{
  Master, creating, to_multiply, joining, exited, State, Actor, main_thread, no_thread, slice,
  while_running, give_up, multiply_act, step, start, Reached, begin, next,
}
use gjworks.MatMul.Threads.Invariant.{Inv, Keeps}
use gjworks.MatMul.Threads.Steps.{next_master, main_act-Inv, give_up-Inv, multiply_act-Inv}

running-some :
    (m : Master) (o : Option State) (t' : State) → while_running m o ≡ some t' → o ≡ some t'
running-some (creating i) o t' e = e
running-some to_multiply o t' e = e
running-some joining o t' e = e
running-some exited o t' e = absurd (ground (arith, e))

give_up-creating : (m : Master) (t t' : State) → give_up m t ≡ some t' → (i : ℕ) × (m ≡ creating i)
unfolding give_up
give_up-creating (creating i) t t' e = (i, refl)
give_up-creating to_multiply t t' e = absurd (ground (arith, e))
give_up-creating joining t t' e = absurd (ground (arith, e))
give_up-creating exited t t' e = absurd (ground (arith, e))

module _ (num_threads : ℕ) (some_threads : 0 < num_threads) (fits : num_threads * size < 2 ^ 31)
    (a b : Matrix) where
  Keeps-step :
      (n : ℕ) (m : Master) (o : Option State) (t' : State)
      → Keeps num_threads a b n m o
      → o ≡ some t'
      → Inv num_threads a b n t'.master t'
  Keeps-step n m none t' h e = absurd (ground (arith, e))
  Keeps-step n m (some t) t' h e =
      subst (λ q. Inv num_threads a b n q.master q) (some-injective t t' e)
        (subst (λ q. Inv num_threads a b n q t) (sym h.here) h)

  step-Inv :
      (x : Actor) (n : ℕ) (t t' : State)
      → Inv num_threads a b n t.master t
      → step num_threads a b x t ≡ some t'
      → Inv num_threads a b (suc n) t'.master t'
  unfolding step
  step-Inv main_thread n t t' v e =
      Keeps-step (suc n) (next_master num_threads some_threads fits a b n t t.master) _ t'
        (main_act-Inv num_threads some_threads fits a b n t t.master v) e
  step-Inv no_thread n t t' v e =
      let (i, m) = give_up-creating t.master t t' e in
      Keeps-step (suc n) exited (give_up (creating i) t) t'
        (give_up-Inv num_threads some_threads fits a b n t i
          (subst (λ q. Inv num_threads a b n q t) m v))
        (ap (λ q. give_up q t) (sym m) ∙ e)
  step-Inv (slice s) n t t' v e =
      Keeps-step (suc n) t.master (multiply_act num_threads a b (t.place s) s t) t'
        (multiply_act-Inv num_threads some_threads fits a b n t t.master s (t.place s) refl v)
        (running-some t.master (multiply_act num_threads a b (t.place s) s t) t' e)

  start-Inv :
      (c : Matrix)
      → Inv num_threads a b 0 (start num_threads a b c).master (start num_threads a b c)
  start-Inv c = record {
    here = refl;
    good = λ s. tt;
    made = elim (Bool-cases (ltb 1 num_threads)) [
      | inl e ↦
          rw (e)
            (omega arith, ground (arith, e), refl, λ s lo hi. absurd (omega arith), λ s le. refl)
      | inr e ↦ rw (e) (refl, λ s lo hi. absurd (ground (arith, e)))
    ];
    late = λ s le. refl;
    steps = omega arith;
  }

  pub Reached-Inv :
      (c : Matrix) {n : ℕ} {t : State}
      → Reached num_threads a b c n t
      → Inv num_threads a b n t.master t
  Reached-Inv c begin = start-Inv c
  Reached-Inv c {t} (next {n} {t = u} x r e) = step-Inv x n u t (Reached-Inv c r) e
