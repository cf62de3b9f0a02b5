-- ===== src/ArrayMerge/Tests.antt =====
-- The arrays 1 4 6 and 2 5.
use mathlib.Core.List.{Perm}
use gjworks.Common.{
  some-injective, ℕ, suc, ◌*◌, ◌≤◌, ◌≡◌, ◌⊎◌, refl, sym, ap, ◌∙◌, subst, inl, inr, Option, none,
  some, Option-cases, false, List, [], ◌∷◌, ◌++◌, arith,
}
use gjworks.Machine.{out_of_fuel}
use gjworks.Integer.{ℤ, pos, less, IsIncreasing}
use gjworks.Machine.Array.{read}
use gjworks.ArrayMerge.{search, threadfunc}
use gjworks.ArrayMerge.Search.{search_stuck}
use gjworks.ArrayMerge.Placing.{IsInput}
use gjworks.ArrayMerge.Main.{
  finished, failed, unborn, starting, signalling, unlocking, placing, ended, State, put, Actor,
  main_thread, thread, size3, start, step, Reached, begin, next,
}
use gjworks.ArrayMerge.Main.Merged.{main-merges}
use gjworks.ArrayMerge.Main.Moves.{Moves}
use gjworks.ArrayMerge.Main.Stops.{Waits, main-stops}
use gjworks.ArrayMerge.Main.LostSignal.{signal_lost}

abbrev arr1 : List ℤ
arr1 = pos 1 ∷ pos 4 ∷ pos 6 ∷ []

abbrev arr2 : List ℤ
arr2 = pos 2 ∷ pos 5 ∷ []

abbrev arr3 : List ℤ
arr3 = pos 0 ∷ pos 0 ∷ pos 0 ∷ pos 0 ∷ pos 0 ∷ []

-- The search for 4 among 1 4 6.
search_forever : search 1000 (pos 4) arr1 0 2 none ≡ out_of_fuel
unfolding read
search_forever = search_stuck 1000 (pos 4) arr1 0 2 none (omega arith) refl

-- The arrays 3 and 1, and what the third one holds before.
abbrev one1 : List ℤ
one1 = pos 3 ∷ []

abbrev one2 : List ℤ
one2 = pos 1 ∷ []

abbrev junk : List ℤ
junk = pos 9 ∷ pos 9 ∷ []

one-IsInput : IsInput 2 one1 one2
unfolding less
one-IsInput = record {
  up1 = (tt, tt);
  up2 = (tt, tt);
  full1 = omega arith;
  full2 = omega arith;
  apart = ((inl refl, tt), tt);
  enough = omega arith;
}

-- The calls of a schedule, one after another.
follow : List Actor → State → Option State
follow [] s = some s
follow (a ∷ l) s = elim (step 2 one1 one2 a s) [ none ↦ none | some t ↦ follow l t ]

abbrev calls : ℕ → List Actor → ℕ
calls n [] = n
calls n (a ∷ l) = calls (suc n) l

follow-Reached :
    (l : List Actor) (n : ℕ) (s t : State)
    → Reached 2 one1 one2 junk n s
    → follow l s ≡ some t
    → Reached 2 one1 one2 junk (calls n l) t
unfolding follow
follow-Reached [] n s t r e = subst (Reached 2 one1 one2 junk n) (some-injective s t e) r
follow-Reached (a ∷ l) n s t r e = elim (Option-cases (step 2 one1 one2 a s)) [
  | inl none_left ↦ absurd (ground (arith, e, none_left))
  | inr (u, f) ↦
      follow-Reached l (suc n) u t (next a r f)
        (sym (ap (λ o. elim o [ none ↦ none | some v ↦ follow l v ]) f) ∙ e)
]

-- main waits before the thread signals.
abbrev round_of : ℕ → List Actor → List Actor
round_of k l =
    main_thread
    ∷ (main_thread
        ∷ (main_thread
            ∷ (thread k
                ∷ (thread k ∷ (thread k ∷ (main_thread ∷ (main_thread ∷ (thread k ∷ l))))))))

abbrev schedule : List Actor
schedule = round_of 0 (round_of 1 (main_thread ∷ (main_thread ∷ [])))

abbrev merged : State
merged = record {
  master = finished;
  i = 2;
  count = 2;
  mutex_var = false;
  worker = put 1 ended (
      put 1 (placing 1) (
        put 1 (unlocking 1) (
          put 1 (signalling 1) (
            put 1 starting (
              put 0 ended (
                put 0 (placing 0)
                  (put 0 (unlocking 0) (put 0 (signalling 0) (put 0 starting (λ k. unborn))))))))));
  arr3 = pos 1 ∷ pos 3 ∷ [];
}

merged-Reached : Reached 2 one1 one2 junk 20 merged
unfolding follow step threadfunc less read
merged-Reached = follow-Reached schedule 0 (start one1 one2 junk) merged begin refl

main-merges_example :
    IsIncreasing (pos 1 ∷ pos 3 ∷ [])
    × Perm (pos 1 ∷ pos 3 ∷ []) (one1 ++ one2)
    × (◌≡◌ {A = ℕ} 20 (10 * size3 one1 one2))
main-merges_example = main-merges one-IsInput refl merged-Reached refl

main-stops_example :
    (20 ≤ 10 * size3 one1 one2)
    × (Moves 2 one1 one2 merged
        ⊎ (Waits merged ⊎ ((merged.master ≡ finished) ⊎ (merged.master ≡ failed))))
main-stops_example = main-stops one-IsInput refl merged-Reached

signal_lost_example : (s : State) × Reached 2 one1 one2 junk 7 s × Waits s × ¬ Moves 2 one1 one2 s
signal_lost_example = signal_lost one-IsInput refl
