-- ===== src/ArrayMerge/Main/ThreadSteps.antt =====
-- The calls of the threads before their placing keep the invariant.
use gjworks.Common.{
  ℕ, suc, ◌+◌, ◌<◌, ◌≡◌, ◌≢◌, refl, sym, ◌∙◌, ap, subst, inl, inr, Bool, true, false, List, ltb,
  equal-cases, Bool-cases, arith,
}
use gjworks.Integer.{ℤ}
use gjworks.ArrayMerge.Main.{
  Master, Worker, unborn, starting, signalling, unlocking, placing, ended, State, put, signal,
  size3, worker_act,
}
use gjworks.ArrayMerge.Main.Phases.{Past, Now, Now-starting, Now-signalling, Now-unlocking}
use gjworks.ArrayMerge.Main.Invariant.{
  Inv, Keeps, put_same, put_other, put_ended, total-put, worker_steps, master_steps, InBounds,
  counted_of, joined_of,
}
use gjworks.ArrayMerge.Main.Bounds.{busy-InBounds, i-le-size, counted-starting, signal-same}

module _ {arr1 arr2 : List ℤ} {n : ℕ} {m : Master} {s : State} (v : Inv arr1 arr2 n m s) where
  -- A thread that has been made.
  pub busy-lt : (k : ℕ) → s.worker k ≢ unborn → k < size3 arr1 arr2
  busy-lt k ne = elim (equal-cases k s.i) [
    | inl e ↦ rw (e) (
        busy-InBounds (size3 arr1 arr2) m s.i (s.worker s.i) s.mutex_var v.now
          (λ h. ne (ap s.worker e ∙ h)) v.bounds)
    | inr other ↦ elim (Bool-cases (ltb k s.i)) [
      | inl lt ↦ ground (arith, lt, i-le-size (size3 arr1 arr2) m s.i v.bounds)
      | inr ge ↦ absurd (ne (v.later k (ground (arith, ge, other))))
    ]
  ]

  -- Only the thread of the round can be before its unlock.
  current : (k : ℕ) (w : Worker) → s.worker k ≡ w → w ≢ unborn → w ≢ placing k → w ≢ ended → k ≡ s.i
  current k w e a b c = elim (equal-cases k s.i) [
    | inl same ↦ same
    | inr other ↦ elim (Bool-cases (ltb k s.i)) [
      | inl lt ↦ elim (v.older k (ground (arith, lt))) [
        | inl p ↦ absurd (b (sym e ∙ p))
        | inr p ↦ absurd (c (sym e ∙ p))
      ]
      | inr ge ↦ absurd (a (sym e ∙ v.later k (ground (arith, ge, other))))
    ]
  ]

  -- The thread of the round makes a call before its placing.
  moved :
      (k : ℕ) (w w' : Worker) (b : Bool) (m' x : Master)
      → x ≡ m'
      → s.worker k ≡ w
      → w ≢ unborn
      → w ≢ ended
      → w' ≢ ended
      → k ≡ s.i
      → worker_steps w' ≡ worker_steps w + 1
      → Now m' s.i w' b
      → counted_of m' s.i ≡ counted_of m s.i
      → InBounds (size3 arr1 arr2) m' s.i
      → joined_of (size3 arr1 arr2) m' ≡ joined_of (size3 arr1 arr2) m
      → master_steps (size3 arr1 arr2) m' s.i ≡ master_steps (size3 arr1 arr2) m s.i
      → Inv arr1 arr2
          (suc n)
          m'
          (record s { master = x; mutex_var = b; worker = put k w' s.worker })
  moved k w w' b m' x is_m e born going going' here up now counted bounds joined made = record {
    here = is_m;
    long = v.long;
    written = λ q lt f. v.written q lt (put_ended k w' s.worker q going' f);
    older =
        λ q lt. subst (Past q) (sym (put_other k w' s.worker q (λ f. omega arith))) (v.older q lt);
    later = λ q lt. put_other k w' s.worker q (λ f. omega arith) ∙ v.later q lt;
    now =
        subst (λ u. Now m' s.i u b)
          (sym (ap (put k w' s.worker) (sym here) ∙ put_same k w' s.worker)) now;
    counted = v.counted ∙ sym counted;
    bounds = bounds;
    joined = λ q lt.
        let done = v.joined q (omega (arith, joined)) in
        put_other k w' s.worker q (λ f. going (sym e ∙ (ap s.worker f ∙ done))) ∙ done;
    steps = omega (
      arith,
      total-put (size3 arr1 arr2) k w' s.worker (busy-lt k (λ f. born (sym e ∙ f))),
      ap worker_steps e,
      up,
      made,
      v.steps,
    );
  }

  pub Now-at : (k : ℕ) (w : Worker) → s.worker k ≡ w → k ≡ s.i → Now m s.i w s.mutex_var
  Now-at k w e here = subst (λ u. Now m s.i u s.mutex_var) (sym (ap s.worker here) ∙ e) v.now

  pub starting-Inv :
      (fuel k : ℕ)
      → s.worker k ≡ starting
      → Keeps arr1 arr2 (suc n) m (worker_act fuel arr1 arr2 starting k s)
  unfolding worker_act
  starting-Inv fuel k e = elim (Bool-cases s.mutex_var) [
    | inl taken ↦ rw (taken) tt
    | inr free ↦
        let here = current k starting e (λ p. cc) (λ p. cc) (λ p. cc) in
        let at_start = Now-at k starting e here in
        let read : s.count ≡ s.i = v.counted ∙ counted-starting m s.i s.mutex_var at_start in
        let go : Inv arr1 arr2 (suc n) m
            (record s { mutex_var = true; worker = put k (signalling s.count) s.worker }) =
          moved k starting (signalling s.count) true m s.master v.here e (λ p. cc) (λ p. cc)
            (λ p. cc) here (omega arith)
            (subst (λ c. Now m s.i (signalling c) true) (sym read)
              (Now-starting m s.i s.mutex_var free at_start))
            refl v.bounds refl refl in
        rw (free) go
  ]

  pub signalling-Inv :
      (fuel k c : ℕ)
      → s.worker k ≡ signalling c
      → Keeps arr1 arr2 (suc n) (signal m) (worker_act fuel arr1 arr2 (signalling c) k s)
  unfolding worker_act
  signalling-Inv fuel k c e =
      let here = current k (signalling c) e (λ p. cc) (λ p. cc) (λ p. cc) in
      let (counted, bounds, joined, made) = signal-same (size3 arr1 arr2) m s.i v.bounds in
      moved k (signalling c) (unlocking c) s.mutex_var (signal m) (signal s.master)
        (ap signal v.here) e (λ p. cc) (λ p. cc) (λ p. cc) here (omega arith)
        (Now-signalling m s.i c s.mutex_var (Now-at k (signalling c) e here)) counted bounds joined
        made

  pub unlocking-Inv :
      (fuel k c : ℕ)
      → s.worker k ≡ unlocking c
      → Keeps arr1 arr2 (suc n) m (worker_act fuel arr1 arr2 (unlocking c) k s)
  unfolding worker_act
  unlocking-Inv fuel k c e =
      let here = current k (unlocking c) e (λ p. cc) (λ p. cc) (λ p. cc) in
      moved k (unlocking c) (placing c) false m s.master v.here e (λ p. cc) (λ p. cc) (λ p. cc) here
        (omega arith) (Now-unlocking m s.i c s.mutex_var (Now-at k (unlocking c) e here)) refl
        v.bounds refl refl
