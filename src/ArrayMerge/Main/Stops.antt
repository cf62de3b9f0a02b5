-- ===== src/ArrayMerge/Main/Stops.antt =====
-- Where the program can stop: main may wait for a signal that was sent before.
use gjworks.Common.{
  ℕ, zero, suc, ◌+◌, ◌*◌, ◌≤◌, ◌<◌, ◌≡◌, ◌≢◌, refl, sym, ◌∙◌, ap, ◌⊎◌, inl, inr, true, List, ltb,
  if◌then◌else◌, length, equal-cases, arith,
}
use gjworks.Integer.{ℤ}
use gjworks.ArrayMerge.Placing.{IsInput}
use gjworks.ArrayMerge.Main.{
  Master, creating, locking, to_wait, waiting, waking, to_unlock, joining, finished, failed, Worker,
  unborn, starting, signalling, unlocking, placing, ended, State, size3, main_act, worker_act,
  Reached, put,
}
use gjworks.ArrayMerge.Main.Phases.{Past, Now}
use gjworks.ArrayMerge.Main.Invariant.{Inv, total, worker_steps, master_steps, InBounds}
use gjworks.ArrayMerge.Main.PlacingStep.{placing-step, placed_arr}
use gjworks.ArrayMerge.Main.Merged.{Reached-Inv}
use gjworks.ArrayMerge.Main.Moves.{Moves, thread-Moves, main-Moves, locking-Moves, waking-Moves}

-- main waits, and all threads that it has made have ended.
abbrev pub Waits : State → Type 0
Waits s = (s.master ≡ waiting) × ((k : ℕ) → k < s.i + 1 → s.worker k ≡ ended)

worker-bound : (w : Worker) → worker_steps w ≤ 4
worker-bound w = ground arith

total-bound : (n : ℕ) (f : ℕ → Worker) → total n f ≤ 4 * n
total-bound zero f = omega arith
total-bound (suc n) f = omega (arith, total-bound n f, worker-bound (f n))

master-bound :
    (size : ℕ) (m : Master) (i : ℕ) → InBounds size m i → master_steps size m i ≤ 6 * size
master-bound size creating i h = omega arith
master-bound size locking i h = omega arith
master-bound size to_wait i h = omega arith
master-bound size waiting i h = omega arith
master-bound size waking i h = omega arith
master-bound size to_unlock i h = omega arith
master-bound size (joining j) i h = omega arith
master-bound size finished i h = omega arith
master-bound size failed i h = omega arith

-- Of threads that place or have ended, one places or all have ended.
all_ended :
    (n : ℕ) (f : ℕ → Worker)
    → ((k : ℕ) → k < n → Past k (f k))
    → ((k : ℕ) × (f k ≡ placing k)) ⊎ ((k : ℕ) → k < n → f k ≡ ended)
all_ended zero f past = inr (λ k lt. absurd (omega arith))
all_ended (suc n) f past = elim (past n (omega arith)) [
  | inl p ↦ inl (n, p)
  | inr e ↦ elim (all_ended n f (λ k lt. past k (omega arith))) [
    | inl p ↦ inl p
    | inr all ↦ inr (λ k lt. elim (equal-cases k n) [
      | inl same ↦ ap f same ∙ e
      | inr other ↦ all k (omega arith)
    ])
  ]
]

-- How a state can go on: by a step, or not, for one of three reasons.
abbrev pub GoesOn : ℕ → List ℤ → List ℤ → State → Type 0
GoesOn fuel arr1 arr2 s =
    Moves fuel arr1 arr2 s ⊎ (Waits s ⊎ ((s.master ≡ finished) ⊎ (s.master ≡ failed)))

module _ {fuel : ℕ} {arr1 arr2 : List ℤ} (input : IsInput fuel arr1 arr2) {n : ℕ} {s : State} where
  placing-Moves :
      (k : ℕ) (m : Master)
      → Inv arr1 arr2 n m s
      → m ≢ failed
      → s.worker k ≡ placing k
      → Moves fuel arr1 arr2 s
  placing-Moves k m v run e =
      thread-Moves fuel arr1 arr2 s k (placing k)
        (record s { arr3 = placed_arr v input k e; worker = put k ended s.worker })
        (λ f. run (sym v.here ∙ f)) e (placing-step v input k e)

  waiting-GoesOn :
      (w : Worker)
      → Inv arr1 arr2 n waiting s
      → s.worker s.i ≡ w
      → Now waiting s.i w s.mutex_var
      → GoesOn fuel arr1 arr2 s
  unfolding worker_act
  waiting-GoesOn unborn v e now = absurd now
  waiting-GoesOn starting v e now = inl (
      thread-Moves fuel arr1 arr2 s s.i starting
        (record s { mutex_var = true; worker = put s.i (signalling s.count) s.worker })
        (λ f. absurd (ground (arith, sym v.here ∙ f))) e (rw (now) refl))
  waiting-GoesOn (signalling c) v e now = inl (
      thread-Moves fuel arr1 arr2 s s.i (signalling c) _
        (λ f. absurd (ground (arith, sym v.here ∙ f))) e refl)
  waiting-GoesOn (unlocking c) v e now = absurd now
  waiting-GoesOn (placing c) v e (own, _) =
      inl (placing-Moves s.i waiting v (λ p. cc) (e ∙ ap placing own))
  waiting-GoesOn ended v e now = elim (all_ended s.i s.worker v.older) [
    | inl (k, p) ↦ inl (placing-Moves k waiting v (λ p. cc) p)
    | inr all ↦ inr (
        inl (
          v.here,
          λ k lt. elim (equal-cases k s.i) [
            | inl same ↦ ap s.worker same ∙ e
            | inr other ↦ all k (omega arith)
          ],
        ))
  ]

  joining-GoesOn : (j : ℕ) → Inv arr1 arr2 n (joining j) s → GoesOn fuel arr1 arr2 s
  unfolding main_act
  joining-GoesOn j v = elim (v.older j (omega (arith, v.bounds))) [
    | inl p ↦ inl (placing-Moves j (joining j) v (λ q. cc) p)
    | inr e ↦ inl (
        main-Moves fuel arr1 arr2 s (joining j)
          (record s {
            master = if ltb (j + 1) (size3 arr1 arr2) then joining (j + 1) else finished;
          })
          v.here (rw (e, main_act) refl))
  ]

  Inv-GoesOn : (m : Master) → Inv arr1 arr2 n m s → GoesOn fuel arr1 arr2 s
  unfolding main_act
  Inv-GoesOn creating v = inl (main-Moves fuel arr1 arr2 s creating _ v.here refl)
  Inv-GoesOn locking v = inl (locking-Moves fuel arr1 arr2 s v.here v.now)
  Inv-GoesOn to_wait v = inl (main-Moves fuel arr1 arr2 s to_wait _ v.here refl)
  Inv-GoesOn waiting v = waiting-GoesOn (s.worker s.i) v refl v.now
  Inv-GoesOn waking v = inl (waking-Moves fuel arr1 arr2 s v.here v.now)
  Inv-GoesOn to_unlock v = inl (main-Moves fuel arr1 arr2 s to_unlock _ v.here refl)
  Inv-GoesOn (joining j) v = joining-GoesOn j v
  Inv-GoesOn finished v = inr (inr (inl v.here))
  Inv-GoesOn failed v = inr (inr (inr v.here))

-- The program makes at most ten calls for each number. At each state some thread can make a call,
-- or main waits for a signal while every thread that it has made has ended, or it has finished,
-- or pthread_create has failed: the signal that comes before the wait is the only deadlock. The
-- two arrays are increasing and not empty, and no number is in both.
pub main-stops :
    {fuel : ℕ} {arr1 arr2 junk : List ℤ} {n : ℕ} {s : State}
    → IsInput fuel arr1 arr2
    → length junk ≡ size3 arr1 arr2
    → Reached fuel arr1 arr2 junk n s
    → (n ≤ 10 * size3 arr1 arr2)
      × (Moves fuel arr1 arr2 s ⊎ (Waits s ⊎ ((s.master ≡ finished) ⊎ (s.master ≡ failed))))
main-stops {arr1} {arr2} {s} input long run =
    let v = Reached-Inv input long run in
    (
      omega (
        arith,
        v.steps,
        master-bound (size3 arr1 arr2) s.master s.i v.bounds,
        total-bound (size3 arr1 arr2) s.worker,
      ),
      Inv-GoesOn input s.master v,
    )
