-- ===== src/ArrayMerge/Main/Merged.antt =====
-- What the program comes to: the merged array, or main waiting for a signal that is past.
use mathlib.Core.List.{Perm}
use gjworks.Common.{
  some-injective, ℕ, zero, suc, ◌*◌, ◌<◌, ◌≡◌, refl, sym, ◌∙◌, ap, subst, true, List, [], ◌∷◌, ◌++◌,
  Option, none, some, ltb, length, length-append, arith,
}
use gjworks.Integer.{ℤ, pos, IsIncreasing}
use gjworks.Machine.Array.{at}
use gjworks.ArrayMerge.Order.{
  in_order, in_order-Perm, in_order-IsIncreasing, length-in_order, rank_onto,
}
use gjworks.ArrayMerge.Placing.{IsInput, input-IsDistinct}
use gjworks.ArrayMerge.Main.{
  Master, creating, locking, to_wait, waiting, waking, to_unlock, joining, finished, failed, Worker,
  unborn, ended, State, Actor, main_thread, no_thread, thread, size3, start, step, worker_act, fail,
  while_alive, Reached, begin, next,
}
use gjworks.ArrayMerge.Main.Invariant.{Inv, Keeps, total, worker_steps}
use gjworks.ArrayMerge.Main.RoundSteps.{fail-Inv}
use gjworks.ArrayMerge.Main.MainSteps.{main_act-Inv, next_master}
use gjworks.ArrayMerge.Main.PlacingStep.{worker_act-Inv, master_after}

total_none : (n : ℕ) → total n (λ k. unborn) ≡ 0
total_none zero = refl
total_none (suc n) = omega (arith, total_none n)

-- Equal lists, by their elements.
at_equal :
    (o : ℤ) (a b : List ℤ)
    → length a ≡ length b
    → ((p : ℕ) → p < length a → at o a p ≡ at o b p)
    → a ≡ b
unfolding at
at_equal o [] [] len same = refl
at_equal o [] (y ∷ b) len same = absurd (omega arith)
at_equal o (x ∷ a) [] len same = absurd (omega arith)
at_equal o (x ∷ a) (y ∷ b) len same =
    let rest = at_equal o a b (omega arith) (λ p lt. same (suc p) (omega arith)) in
    let first : x ≡ y = same 0 (omega arith) in rw (first, rest) refl

-- The state that a step gives, with main where it is.
Keeps-step :
    (arr1 arr2 : List ℤ) (n : ℕ) (m : Master) (o : Option State) (s' : State)
    → Keeps arr1 arr2 n m o
    → o ≡ some s'
    → Inv arr1 arr2 n s'.master s'
Keeps-step arr1 arr2 n m none s' h e = absurd (ground (arith, e))
Keeps-step arr1 arr2 n m (some t) s' h e =
    subst (λ q. Inv arr1 arr2 n q.master q) (some-injective t s' e)
      (subst (λ q. Inv arr1 arr2 n q t) (sym h.here) h)

alive-some : (m : Master) (o : Option State) (s' : State) → while_alive m o ≡ some s' → o ≡ some s'
alive-some creating o s' e = e
alive-some locking o s' e = e
alive-some to_wait o s' e = e
alive-some waiting o s' e = e
alive-some waking o s' e = e
alive-some to_unlock o s' e = e
alive-some (joining j) o s' e = e
alive-some finished o s' e = e
alive-some failed o s' e = absurd (ground (arith, e))

fail-creating : (m : Master) (s s' : State) → fail m s ≡ some s' → m ≡ creating
unfolding fail
fail-creating creating s s' e = refl
fail-creating locking s s' e = absurd (ground (arith, e))
fail-creating to_wait s s' e = absurd (ground (arith, e))
fail-creating waiting s s' e = absurd (ground (arith, e))
fail-creating waking s s' e = absurd (ground (arith, e))
fail-creating to_unlock s s' e = absurd (ground (arith, e))
fail-creating (joining j) s s' e = absurd (ground (arith, e))
fail-creating finished s s' e = absurd (ground (arith, e))
fail-creating failed s s' e = absurd (ground (arith, e))

total_ended : (n : ℕ) (f : ℕ → Worker) → ((k : ℕ) → k < n → f k ≡ ended) → total n f ≡ 4 * n
total_ended zero f h = refl
total_ended (suc n) f h =
    omega (arith, total_ended n f (λ k lt. h k (omega arith)), ap worker_steps (h n (omega arith)))

module _ {fuel : ℕ} {arr1 arr2 : List ℤ} (input : IsInput fuel arr1 arr2) where
  step-Inv :
      (a : Actor) (n : ℕ) (s s' : State)
      → Inv arr1 arr2 n s.master s
      → step fuel arr1 arr2 a s ≡ some s'
      → Inv arr1 arr2 (suc n) s'.master s'
  unfolding step
  step-Inv main_thread n s s' v e =
      Keeps-step arr1 arr2 (suc n) (next_master arr1 arr2 n s s.master) _ s'
        (main_act-Inv arr1 arr2 n s s.master v) e
  step-Inv no_thread n s s' v e =
      let m = fail-creating s.master s s' e in
      Keeps-step arr1 arr2 (suc n) failed (fail creating s) s'
        (fail-Inv arr1 arr2 n s (subst (λ q. Inv arr1 arr2 n q s) m v))
        (ap (λ q. fail q s) (sym m) ∙ e)
  step-Inv (thread k) n s s' v e =
      Keeps-step arr1 arr2 (suc n) (master_after (s.worker k) s.master)
        (worker_act fuel arr1 arr2 (s.worker k) k s) s' (worker_act-Inv input v k (s.worker k) refl)
        (alive-some s.master (worker_act fuel arr1 arr2 (s.worker k) k s) s' e)

  start-Inv :
      (junk : List ℤ)
      → length junk ≡ size3 arr1 arr2
      → Inv arr1 arr2 0 (start arr1 arr2 junk).master (start arr1 arr2 junk)
  start-Inv junk long =
      let some_number : ltb 0 (size3 arr1 arr2) ≡ true = ground (arith, input.full1) in
      let v : Inv arr1 arr2 0 creating (record (start arr1 arr2 junk) { master = creating }) =
        record {
          here = refl;
          long = long;
          written = λ k lt e. absurd (ground (arith, e));
          older = λ k lt. absurd (omega arith);
          later = λ k lt. refl;
          now = refl;
          counted = refl;
          bounds = omega (arith, input.full1);
          joined = λ k lt. absurd (omega arith);
          steps = omega (arith, total_none (size3 arr1 arr2));
        } in
      rw (some_number) v

  pub Reached-Inv :
      {junk : List ℤ} {n : ℕ} {s : State}
      → length junk ≡ size3 arr1 arr2
      → Reached fuel arr1 arr2 junk n s
      → Inv arr1 arr2 n s.master s
  Reached-Inv {junk} long begin = start-Inv junk long
  Reached-Inv {s} long (next {n} {s = t} a r e) = step-Inv a n t s (Reached-Inv long r) e

  all_written : {n : ℕ} {s : State} → Inv arr1 arr2 n finished s → s.arr3 ≡ in_order (arr1 ++ arr2)
  all_written {s} v =
      let len = length-append arr1 arr2 in
      let len' = length-in_order (arr1 ++ arr2) in
      at_equal (pos 0) s.arr3 (in_order (arr1 ++ arr2)) (omega (arith, v.long, len, len')) (λ p lt.
        let (q, h, e) =
          rank_onto (pos 0) (arr1 ++ arr2) p (input-IsDistinct input)
            (omega (arith, v.long, len)) in
        let done : q < size3 arr1 arr2 = omega (arith, h, len) in
        subst (λ r. at (pos 0) s.arr3 r ≡ at (pos 0) (in_order (arr1 ++ arr2)) r) e
          (v.written q done (v.joined q done)))

  -- When main finishes, the third array has the numbers of the two arrays, in increasing order,
  -- and the program has made ten calls for each of them. The two arrays are increasing and not
  -- empty, and no number is in both.
  pub main-merges :
      {junk : List ℤ} {n : ℕ} {s : State}
      → length junk ≡ size3 arr1 arr2
      → Reached fuel arr1 arr2 junk n s
      → s.master ≡ finished
      → IsIncreasing s.arr3 × Perm s.arr3 (arr1 ++ arr2) × (n ≡ 10 * size3 arr1 arr2)
  main-merges {n} {s} long run e =
      let v : Inv arr1 arr2 n finished s =
        subst (λ m. Inv arr1 arr2 n m s) e (Reached-Inv long run) in
      let same = sym (all_written v) in
      (
        subst IsIncreasing same (in_order-IsIncreasing (arr1 ++ arr2) (input-IsDistinct input)),
        subst (λ a. Perm a (arr1 ++ arr2)) same (in_order-Perm (arr1 ++ arr2)),
        omega (arith, v.steps, total_ended (size3 arr1 arr2) s.worker v.joined),
      )
