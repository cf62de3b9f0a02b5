-- ===== src/ArrayMerge/Main/LostSignal.antt =====
-- A signal that comes before the wait.
use gjworks.Common.{
  ℕ, zero, suc, ◌≡◌, refl, ap, subst, inl, inr, true, false, List, ltb, set, if◌then◌else◌, length,
  equal-cases, arith,
}
use gjworks.Integer.{ℤ}
use gjworks.ArrayMerge.Placing.{IsInput, place_of, number_of}
use gjworks.ArrayMerge.Main.{
  creating, locking, to_wait, waiting, finished, unborn, starting, signalling, unlocking, placing,
  ended, State, main_thread, no_thread, thread, fail, size3, start, step, main_act, worker_act,
  Reached, begin, next, put,
}
use gjworks.ArrayMerge.Main.PlacingStep.{placing-step}
use gjworks.ArrayMerge.Main.Merged.{Reached-Inv}
use gjworks.ArrayMerge.Main.Moves.{Moves}
use gjworks.ArrayMerge.Main.Stops.{Waits}

first_number :
    {fuel : ℕ} {arr1 arr2 : List ℤ} → IsInput fuel arr1 arr2 → ltb 0 (size3 arr1 arr2) ≡ true
first_number input = ground (arith, input.full1)

module _ (arr1 arr2 junk : List ℤ) where
  -- The first thread has signalled and placed its number, and main has come to its wait after it.
  abbrev pub too_early : State
  too_early = record {
    master = waiting;
    i = 0;
    count = 0;
    mutex_var = false;
    worker = put 0 ended (
        put 0 (placing 0)
          (put 0 (unlocking 0) (put 0 (signalling 0) (put 0 starting (λ k. unborn)))));
    arr3 = set junk (place_of arr1 arr2 0) (number_of arr1 arr2 0);
  }

  too_early-stuck : (fuel : ℕ) → ¬ Moves fuel arr1 arr2 too_early
  unfolding step main_act worker_act fail
  too_early-stuck fuel (main_thread, s', e) = absurd (ground (arith, e))
  too_early-stuck fuel (no_thread, s', e) = absurd (ground (arith, e))
  too_early-stuck fuel (thread zero, s', e) = absurd (ground (arith, e))
  too_early-stuck fuel (thread (suc k), s', e) = absurd (ground (arith, e))

module _ {fuel : ℕ} {arr1 arr2 junk : List ℤ} (input : IsInput fuel arr1 arr2) where
  too_early-Reached :
      length junk ≡ size3 arr1 arr2 → Reached fuel arr1 arr2 junk 7 (too_early arr1 arr2 junk)
  unfolding step main_act worker_act
  too_early-Reached long =
      let R : ℕ → State → Type 0 = Reached fuel arr1 arr2 junk in
      let s0 : State = record (start arr1 arr2 junk) { master = creating } in
      let s1 : State = record s0 { master = locking; worker = put 0 starting s0.worker } in
      let s2 : State = record s1 { mutex_var = true; worker = put 0 (signalling 0) s1.worker } in
      let s3 : State = record s2 { worker = put 0 (unlocking 0) s2.worker } in
      let s4 : State = record s3 { mutex_var = false; worker = put 0 (placing 0) s3.worker } in
      let s5 : State = record s4 {
        worker = put 0 ended s4.worker;
        arr3 = set junk (place_of arr1 arr2 0) (number_of arr1 arr2 0);
      } in
      let s6 : State = record s5 { mutex_var = true; master = to_wait } in
      let r0 : R 0 s0 =
        subst (λ m. R 0 (record s0 { master = m }))
          (ap (λ b. if b then creating else finished) (first_number input)) begin in
      let r4 : R 4 s4 =
        next (thread 0) (next (thread 0) (next (thread 0) (next main_thread r0 refl) refl) refl)
          refl in
      let r5 : R 5 s5 =
        next (thread 0) r4 (placing-step (Reached-Inv input long r4) input 0 refl) in
      let r6 : R 6 s6 = next main_thread r5 refl in next main_thread r6 refl

  -- For all arrays that it could merge, the program can come to a deadlock within seven calls: the
  -- first thread signals before main waits, and then main waits for ever, and no thread can make
  -- a call.
  pub signal_lost :
      length junk ≡ size3 arr1 arr2
      → (s : State) × Reached fuel arr1 arr2 junk 7 s × Waits s × ¬ Moves fuel arr1 arr2 s
  signal_lost long = (
    too_early arr1 arr2 junk,
    too_early-Reached long,
    (refl, λ k lt. elim (equal-cases k 0) [ inl e ↦ rw (e) refl | inr ne ↦ absurd (omega arith) ]),
    too_early-stuck arr1 arr2 junk fuel,
  )
