-- ===== src/ArrayMerge/Main/Moves.antt =====
-- Calls that can be made.
use gjworks.Common.{
  ℕ, ◌+◌, ◌≡◌, ◌≢◌, refl, sym, ◌∙◌, ap, ◌⊎◌, inl, inr, true, false, List, Option, some, Bool-cases,
  arith,
}
use gjworks.Integer.{ℤ}
use gjworks.ArrayMerge.Main.{
  Master, creating, locking, to_wait, waiting, waking, to_unlock, joining, finished, failed, Worker,
  unborn, starting, signalling, unlocking, placing, ended, State, Actor, main_thread, thread, step,
  main_act, worker_act, while_alive,
}
use gjworks.ArrayMerge.Main.Phases.{Now}

abbrev pub Moves : ℕ → List ℤ → List ℤ → State → Type 0
Moves fuel arr1 arr2 s = (a : Actor) × (s' : State) × (step fuel arr1 arr2 a s ≡ some s')

alive : (m : Master) (o : Option State) → m ≢ failed → while_alive m o ≡ o
alive creating o ne = refl
alive locking o ne = refl
alive to_wait o ne = refl
alive waiting o ne = refl
alive waking o ne = refl
alive to_unlock o ne = refl
alive (joining j) o ne = refl
alive finished o ne = refl
alive failed o ne = absurd (ne refl)

module _ (fuel : ℕ) (arr1 arr2 : List ℤ) (s : State) where
  pub thread-Moves :
      (k : ℕ) (w : Worker) (s' : State)
      → s.master ≢ failed
      → s.worker k ≡ w
      → worker_act fuel arr1 arr2 w k s ≡ some s'
      → Moves fuel arr1 arr2 s
  unfolding step
  thread-Moves k w s' run e act = (
    thread k,
    s',
    alive s.master (worker_act fuel arr1 arr2 (s.worker k) k s) run
        ∙ (ap (λ u. worker_act fuel arr1 arr2 u k s) e ∙ act),
  )

  pub main-Moves :
      (m : Master) (s' : State)
      → s.master ≡ m
      → main_act arr1 arr2 m s ≡ some s'
      → Moves fuel arr1 arr2 s
  unfolding step
  main-Moves m s' e act = (main_thread, s', ap (λ q. main_act arr1 arr2 q s) e ∙ act)

  -- The thread of the round holds the mutex, or main can take it.
  holder-Moves :
      (m : Master) (w : Worker) (s' : State)
      → s.master ≡ m
      → m ≢ failed
      → s.worker s.i ≡ w
      → Now m s.i w s.mutex_var
      → (s.mutex_var ≡ false → main_act arr1 arr2 m s ≡ some s')
      → ((w : Worker)
          → Now m s.i w s.mutex_var
          → s.mutex_var ≡ true
          → (c : ℕ) × ((w ≡ signalling c) ⊎ (w ≡ unlocking c)))
      → Moves fuel arr1 arr2 s
  unfolding worker_act
  holder-Moves m w s' e run at now act held = elim (Bool-cases s.mutex_var) [
    | inr free ↦ main-Moves m s' e (act free)
    | inl taken ↦
        let (c, h) = held w now taken in
        elim h [
          | inl p ↦ thread-Moves s.i (signalling c) _ (λ f. run (sym e ∙ f)) (at ∙ p) refl
          | inr p ↦ thread-Moves s.i (unlocking c) _ (λ f. run (sym e ∙ f)) (at ∙ p) refl
        ]
  ]

  Now-held_locking :
      (w : Worker)
      → Now locking s.i w s.mutex_var
      → s.mutex_var ≡ true
      → (c : ℕ) × ((w ≡ signalling c) ⊎ (w ≡ unlocking c))
  Now-held_locking unborn h t = absurd h
  Now-held_locking starting h t = absurd (ground (arith, h, t))
  Now-held_locking (signalling c) h t = (c, inl refl)
  Now-held_locking (unlocking c) h t = (c, inr refl)
  Now-held_locking (placing c) (_, h) t = absurd (ground (arith, h, t))
  Now-held_locking ended h t = absurd (ground (arith, h, t))

  Now-held_waking :
      (w : Worker)
      → Now waking s.i w s.mutex_var
      → s.mutex_var ≡ true
      → (c : ℕ) × ((w ≡ signalling c) ⊎ (w ≡ unlocking c))
  Now-held_waking unborn h t = absurd h
  Now-held_waking starting h t = absurd h
  Now-held_waking (signalling c) h t = absurd h
  Now-held_waking (unlocking c) h t = (c, inr refl)
  Now-held_waking (placing c) (_, h) t = absurd (ground (arith, h, t))
  Now-held_waking ended h t = absurd (ground (arith, h, t))

  pub locking-Moves :
      s.master ≡ locking → Now locking s.i (s.worker s.i) s.mutex_var → Moves fuel arr1 arr2 s
  unfolding main_act
  locking-Moves e now =
      holder-Moves locking (s.worker s.i) (record s { mutex_var = true; master = to_wait }) e
        (λ p. cc) refl now (λ free. rw (free) refl) Now-held_locking

  pub waking-Moves :
      s.master ≡ waking → Now waking s.i (s.worker s.i) s.mutex_var → Moves fuel arr1 arr2 s
  unfolding main_act
  waking-Moves e now =
      holder-Moves waking (s.worker s.i)
        (record s { mutex_var = true; count = s.count + 1; master = to_unlock }) e (λ p. cc) refl
        now (λ free. rw (free) refl) Now-held_waking
