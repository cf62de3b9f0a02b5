-- ===== src/ArrayMerge/Main/RoundSteps.antt =====
-- The calls of main in a round keep the invariant.
use gjworks.Common.{ℕ, suc, ◌+◌, refl, sym, ◌∙◌, ap, subst, inl, inr, true, List, Bool-cases, arith}
use gjworks.Integer.{ℤ}
use gjworks.ArrayMerge.Main.{
  creating, locking, to_wait, waiting, waking, to_unlock, failed, starting, State, size3, main_act,
  fail,
}
use gjworks.ArrayMerge.Main.Phases.{Past, Now, Now-creating, Now-locking, Now-to_wait, Now-waking}
use gjworks.ArrayMerge.Main.Invariant.{
  Inv, Keeps, put_same, put_other, put_ended, total-put, worker_steps,
}

module _ (arr1 arr2 : List ℤ) (n : ℕ) (s : State) where
  pub creating-Inv :
      Inv arr1 arr2 n creating s → Keeps arr1 arr2 (suc n) locking (main_act arr1 arr2 creating s)
  unfolding main_act
  creating-Inv v =
      let (none_yet, free) = Now-creating s.i (s.worker s.i) s.mutex_var v.now in
      record {
        here = refl;
        long = v.long;
        written = λ k lt e. v.written k lt (put_ended s.i starting s.worker k (λ p. cc) e);
        older = λ k lt.
            subst (Past k) (sym (put_other s.i starting s.worker k (λ e. omega arith)))
              (v.older k lt);
        later = λ k lt. put_other s.i starting s.worker k (λ e. omega arith) ∙ v.later k lt;
        now = rw (put_same s.i starting s.worker) free;
        counted = v.counted;
        bounds = v.bounds;
        joined = λ k lt. absurd (omega arith);
        steps = omega (
          arith,
          total-put (size3 arr1 arr2) s.i starting s.worker v.bounds,
          ap worker_steps none_yet,
          v.steps,
        );
      }

  -- pthread_create fails.
  pub fail-Inv : Inv arr1 arr2 n creating s → Keeps arr1 arr2 (suc n) failed (fail creating s)
  unfolding fail
  fail-Inv v =
      let (none_yet, free) = Now-creating s.i (s.worker s.i) s.mutex_var v.now in
      record {
        here = refl;
        long = v.long;
        written = v.written;
        older = v.older;
        later = v.later;
        now = subst (λ w. Now failed s.i w s.mutex_var) (sym none_yet) free;
        counted = v.counted;
        bounds = v.bounds;
        joined = λ k lt. absurd (omega arith);
        steps = omega (arith, v.steps);
      }

  pub locking-Inv :
      Inv arr1 arr2 n locking s → Keeps arr1 arr2 (suc n) to_wait (main_act arr1 arr2 locking s)
  unfolding main_act
  locking-Inv v = elim (Bool-cases s.mutex_var) [
    | inl e ↦ rw (e) tt
    | inr e ↦
        let go : Inv arr1 arr2 (suc n) to_wait (record s { mutex_var = true; master = to_wait }) =
          record {
            here = refl;
            long = v.long;
            written = v.written;
            older = v.older;
            later = v.later;
            now = Now-locking s.i (s.worker s.i) s.mutex_var e v.now;
            counted = v.counted;
            bounds = v.bounds;
            joined = λ k lt. absurd (omega arith);
            steps = omega (arith, v.steps);
          } in
        rw (e) go
  ]

  pub to_wait-Inv :
      Inv arr1 arr2 n to_wait s → Keeps arr1 arr2 (suc n) waiting (main_act arr1 arr2 to_wait s)
  unfolding main_act
  to_wait-Inv v = record {
    here = refl;
    long = v.long;
    written = v.written;
    older = v.older;
    later = v.later;
    now = Now-to_wait s.i (s.worker s.i) s.mutex_var v.now;
    counted = v.counted;
    bounds = v.bounds;
    joined = λ k lt. absurd (omega arith);
    steps = omega (arith, v.steps);
  }

  pub waking-Inv :
      Inv arr1 arr2 n waking s → Keeps arr1 arr2 (suc n) to_unlock (main_act arr1 arr2 waking s)
  unfolding main_act
  waking-Inv v = elim (Bool-cases s.mutex_var) [
    | inl e ↦ rw (e) tt
    | inr e ↦
        let go : Inv arr1 arr2 (suc n) to_unlock
            (record s { mutex_var = true; count = s.count + 1; master = to_unlock }) =
          record {
            here = refl;
            long = v.long;
            written = v.written;
            older = v.older;
            later = v.later;
            now = Now-waking s.i (s.worker s.i) s.mutex_var e v.now;
            counted = ap (λ c. c + 1) v.counted;
            bounds = v.bounds;
            joined = λ k lt. absurd (omega arith);
            steps = omega (arith, v.steps);
          } in
        rw (e) go
  ]
