-- ===== src/ArrayMerge/Main/PlacingStep.antt =====
-- The placing keeps the invariant, as every call of a thread does.
use gjworks.Common.{
  ℕ, suc, ◌<◌, ◌≡◌, refl, sym, ◌∙◌, ap, subst, inl, inr, List, ◌++◌, some, ltb, length-set, set,
  equal-cases, Bool-cases, arith, ◌==◌, if◌then◌else◌, ==_refl, ==_other,
}
use gjworks.Integer.{ℤ, pos}
use gjworks.Machine.Array.{at, at-set}
use gjworks.ArrayMerge.Order.{in_order}
use gjworks.ArrayMerge.Placing.{
  IsInput, number_of, place_of, threadfunc-place_of, number_of-at, place_of-lt,
}
use gjworks.ArrayMerge.Main.{
  Master, Worker, unborn, starting, signalling, unlocking, placing, ended, State, put, signal,
  size3, worker_act,
}
use gjworks.ArrayMerge.Main.Phases.{Past, Now, Now-placing}
use gjworks.ArrayMerge.Main.Invariant.{Inv, Keeps, put_same, put_other, total-put, worker_steps}
use gjworks.ArrayMerge.Main.ThreadSteps.{
  busy-lt, Now-at, starting-Inv, signalling-Inv, unlocking-Inv,
}

module _ {arr1 arr2 : List ℤ} {n : ℕ} {m : Master} {s : State} (v : Inv arr1 arr2 n m s) where
  -- A thread that places has read its own index.
  pub placing_own : (k c : ℕ) → s.worker k ≡ placing c → c ≡ k
  placing_own k c e = elim (equal-cases k s.i) [
    | inl same ↦ (Now-placing m s.i c s.mutex_var (Now-at v k (placing c) e same)).0 ∙ sym same
    | inr other ↦ elim (Bool-cases (ltb k s.i)) [
      | inl lt ↦ elim (v.older k (ground (arith, lt))) [
        | inl p ↦ ground (arith, sym e ∙ p)
        | inr p ↦ absurd (ground (arith, sym e ∙ p))
      ]
      | inr ge ↦ absurd (ground (arith, sym e ∙ v.later k (ground (arith, ge, other))))
    ]
  ]

  module _ {fuel : ℕ} (input : IsInput fuel arr1 arr2) (k : ℕ) (e : s.worker k ≡ placing k) where
    made : k < size3 arr1 arr2
    made = busy-lt v k (λ f. absurd (ground (arith, sym e ∙ f)))

    -- The third array after the thread `k` has placed its number.
    abbrev pub placed_arr : List ℤ
    placed_arr = set s.arr3 (place_of arr1 arr2 k) (number_of arr1 arr2 k)

    pub placing-step :
        worker_act fuel arr1 arr2 (placing k) k s
        ≡ some (record s { arr3 = placed_arr; worker = put k ended s.worker })
    unfolding worker_act
    placing-step =
        rw (threadfunc-place_of input s.arr3 k made (omega (arith, v.long)), worker_act) refl

    placed-at :
        (p : ℕ)
        → at (pos 0) placed_arr p ≡ (
            if place_of arr1 arr2 k == p
            then at (pos 0) (in_order (arr1 ++ arr2)) (place_of arr1 arr2 k)
            else at (pos 0) s.arr3 p)
    placed-at p =
        at-set (pos 0) s.arr3 (place_of arr1 arr2 k) p (number_of arr1 arr2 k)
          (omega (arith, place_of-lt input k made, v.long))
        ∙ ap (λ x. if place_of arr1 arr2 k == p then x else at (pos 0) s.arr3 p)
            (sym (number_of-at input k made))

    placing-Inv :
        Inv arr1 arr2 (suc n) m (record s { arr3 = placed_arr; worker = put k ended s.worker })
    placing-Inv = record {
      here = v.here;
      long = length-set s.arr3 (place_of arr1 arr2 k) (number_of arr1 arr2 k) ∙ v.long;
      written = λ q lt f. elim (equal-cases k q) [
        | inl same ↦
            rw (← same)
              (placed-at (place_of arr1 arr2 k) ∙ rw (==_refl (place_of arr1 arr2 k)) refl)
        | inr other ↦
            placed-at (place_of arr1 arr2 q)
            ∙ keeps_right q (v.written q lt (sym (put_other k ended s.worker q other) ∙ f))
      ];
      older = λ q lt. elim (equal-cases k q) [
        | inl same ↦ inr (ap (put k ended s.worker) (sym same) ∙ put_same k ended s.worker)
        | inr other ↦ subst (Past q) (sym (put_other k ended s.worker q other)) (v.older q lt)
      ];
      later = λ q lt.
          put_other k ended s.worker q
            (λ f. absurd (ground (arith, sym e ∙ (ap s.worker f ∙ v.later q lt))))
          ∙ v.later q lt;
      now = elim (equal-cases k s.i) [
        | inl same ↦
            subst (λ u. Now m s.i u s.mutex_var)
              (sym (ap (put k ended s.worker) (sym same) ∙ put_same k ended s.worker))
              (Now-placing m s.i k s.mutex_var (Now-at v k (placing k) e same)).1
        | inr other ↦
            subst (λ u. Now m s.i u s.mutex_var) (sym (put_other k ended s.worker s.i other)) v.now
      ];
      counted = v.counted;
      bounds = v.bounds;
      joined = λ q lt. elim (equal-cases k q) [
        | inl same ↦ ap (put k ended s.worker) (sym same) ∙ put_same k ended s.worker
        | inr other ↦ put_other k ended s.worker q other ∙ v.joined q lt
      ];
      steps =
          omega
            (arith, total-put (size3 arr1 arr2) k ended s.worker made, ap worker_steps e, v.steps);
    }
      where
        keeps_right :
            (q : ℕ)
            → at (pos 0) s.arr3 (place_of arr1 arr2 q)
              ≡ at (pos 0) (in_order (arr1 ++ arr2)) (place_of arr1 arr2 q)
            → (if place_of arr1 arr2 k == place_of arr1 arr2 q
                then at (pos 0) (in_order (arr1 ++ arr2)) (place_of arr1 arr2 k)
                else at (pos 0) s.arr3 (place_of arr1 arr2 q))
              ≡ at (pos 0) (in_order (arr1 ++ arr2)) (place_of arr1 arr2 q)
        keeps_right q h = elim (equal-cases (place_of arr1 arr2 k) (place_of arr1 arr2 q)) [
          | inl same ↦ rw (same, ==_refl (place_of arr1 arr2 q)) refl
          | inr other ↦ rw (==_other (place_of arr1 arr2 k) (place_of arr1 arr2 q) other) h
        ]

    pub placing-Keeps : Keeps arr1 arr2 (suc n) m (worker_act fuel arr1 arr2 (placing k) k s)
    placing-Keeps = subst (Keeps arr1 arr2 (suc n) m) (sym placing-step) placing-Inv

-- main after a call of a thread.
abbrev pub master_after : Worker → Master → Master
master_after (signalling c) m = signal m
master_after _ m = m

pub worker_act-Inv :
    {arr1 arr2 : List ℤ} {n : ℕ} {m : Master} {s : State} {fuel : ℕ}
    → IsInput fuel arr1 arr2
    → Inv arr1 arr2 n m s
    → (k : ℕ) (w : Worker) → s.worker k ≡ w
    → Keeps arr1 arr2 (suc n) (master_after w m) (worker_act fuel arr1 arr2 w k s)
unfolding worker_act
worker_act-Inv input v k unborn e = tt
worker_act-Inv {fuel} input v k starting e = starting-Inv v fuel k e
worker_act-Inv {fuel} input v k (signalling c) e = signalling-Inv v fuel k c e
worker_act-Inv {fuel} input v k (unlocking c) e = unlocking-Inv v fuel k c e
worker_act-Inv {arr1} {arr2} {n} {m} {s} {fuel} input v k (placing c) e =
    let own : c ≡ k = placing_own v k c e in
    subst (λ d. Keeps arr1 arr2 (suc n) m (worker_act fuel arr1 arr2 (placing d) k s)) (sym own)
      (placing-Keeps v input k (e ∙ ap placing own))
worker_act-Inv input v k ended e = tt
