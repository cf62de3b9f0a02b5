-- ===== src/ArrayMerge/Main/MainSteps.antt =====
-- The calls of main keep the invariant: the end of a round and the joins.
use gjworks.Common.{
  ℕ, suc, ◌+◌, ◌*◌, ◌<◌, ◌≡◌, refl, sym, ◌∙◌, ap, subst, inl, inr, false, List, ltb, if◌then◌else◌,
  equal-cases, Bool-cases, arith,
}
use gjworks.Integer.{ℤ}
use gjworks.ArrayMerge.Main.{
  Master, creating, locking, to_wait, waiting, waking, to_unlock, joining, finished, failed, Worker,
  unborn, starting, signalling, unlocking, placing, ended, State, size3, main_act,
}
use gjworks.ArrayMerge.Main.Phases.{Past, Now, Now-to_unlock}
use gjworks.ArrayMerge.Main.Invariant.{Inv, Keeps, master_steps, InBounds, counted_of, joined_of}
use gjworks.ArrayMerge.Main.RoundSteps.{creating-Inv, locking-Inv, to_wait-Inv, waking-Inv}

module _ (arr1 arr2 : List ℤ) (n : ℕ) (s : State) where
  -- After a round every thread so far is past the mutex.
  all-Past : Inv arr1 arr2 n to_unlock s → (k : ℕ) → k < s.i + 1 → Past k (s.worker k)
  all-Past v k lt = elim (equal-cases k s.i) [
    | inl e ↦
        subst (λ q. Past q (s.worker q)) (sym e)
          (Now-to_unlock s.i (s.worker s.i) s.mutex_var v.now)
    | inr ne ↦ v.older k (omega arith)
  ]

  to_unlock-Inv :
      Inv arr1 arr2 n to_unlock s
      → let m = if ltb (s.i + 1) (size3 arr1 arr2) then creating else joining 0 in
        Keeps arr1 arr2 (suc n) m (main_act arr1 arr2 to_unlock s)
  unfolding main_act
  to_unlock-Inv v =
      let fresh : s.worker (s.i + 1) ≡ unborn = v.later (s.i + 1) (omega arith) in
      let after : (q : Master)
          → Now q (s.i + 1) (s.worker (s.i + 1)) false
          → counted_of q (s.i + 1) ≡ s.i + 1
          → InBounds (size3 arr1 arr2) q (s.i + 1)
          → joined_of (size3 arr1 arr2) q ≡ 0
          → master_steps (size3 arr1 arr2) q (s.i + 1) ≡ 5 * s.i + 5
          → Inv arr1 arr2 (suc n) q (record s { mutex_var = false; i = s.i + 1; master = q }) =
        λ q now counted bounds none_joined made. record {
          here = refl;
          long = v.long;
          written = v.written;
          older = all-Past v;
          later = λ k lt. v.later k (omega arith);
          now = now;
          counted = v.counted ∙ sym counted;
          bounds = bounds;
          joined = λ k lt. absurd (omega (arith, none_joined));
          steps = omega (arith, v.steps, made);
        } in
      elim (Bool-cases (ltb (s.i + 1) (size3 arr1 arr2))) [
        | inl e ↦
            rw (e) (after creating (rw (fresh) refl) refl (ground (arith, e)) refl (omega arith))
        | inr e ↦
            let last : s.i + 1 ≡ size3 arr1 arr2 = ground (arith, e, v.bounds) in
            rw (e) (
              after (joining 0) (rw (fresh) refl) refl (last, ground (arith, v.bounds)) refl
                (omega (arith, last)))
      ]

  joined_all :
      (m : Master) (j : ℕ)
      → joined_of (size3 arr1 arr2) m ≡ j + 1
      → Inv arr1 arr2 n (joining j) s
      → s.worker j ≡ ended
      → (k : ℕ) → k < joined_of (size3 arr1 arr2) m
      → s.worker k ≡ ended
  joined_all m j up v e k lt = elim (equal-cases k j) [
    | inl same ↦ ap s.worker same ∙ e
    | inr ne ↦ v.joined k (omega (arith, up))
  ]

  joining-Inv :
      (j : ℕ) (w : Worker)
      → s.worker j ≡ w
      → Inv arr1 arr2 n (joining j) s
      → let m = if ltb (j + 1) (size3 arr1 arr2) then joining (j + 1) else finished in
        Keeps arr1 arr2 (suc n) m (main_act arr1 arr2 (joining j) s)
  unfolding main_act
  joining-Inv j unborn e v = rw (e, Keeps) tt
  joining-Inv j starting e v = rw (e, Keeps) tt
  joining-Inv j (signalling c) e v = rw (e, Keeps) tt
  joining-Inv j (unlocking c) e v = rw (e, Keeps) tt
  joining-Inv j (placing c) e v = rw (e, Keeps) tt
  joining-Inv j ended e v =
      let after : (q : Master)
          → Now q s.i (s.worker s.i) s.mutex_var
          → counted_of q s.i ≡ s.i
          → InBounds (size3 arr1 arr2) q s.i
          → joined_of (size3 arr1 arr2) q ≡ j + 1
          → master_steps (size3 arr1 arr2) q s.i ≡ 5 * size3 arr1 arr2 + j + 1
          → Inv arr1 arr2 (suc n) q (record s { master = q }) =
        λ q now counted bounds up made. record {
          here = refl;
          long = v.long;
          written = v.written;
          older = v.older;
          later = v.later;
          now = now;
          counted = v.counted ∙ sym counted;
          bounds = bounds;
          joined = joined_all q j up v e;
          steps = omega (arith, v.steps, made);
        } in
      elim (Bool-cases (ltb (j + 1) (size3 arr1 arr2))) [
        | inl f ↦
            rw (e, Keeps, f)
              (after (joining (j + 1)) v.now refl (v.bounds.0, ground (arith, f)) refl
                (omega arith))
        | inr f ↦
            let last : size3 arr1 arr2 ≡ j + 1 = ground (arith, f, v.bounds.1) in
            rw (e, Keeps, f) (after finished v.now refl v.bounds.0 last (omega (arith, last)))
      ]

  -- The master after a call of main.
  abbrev pub next_master : Master → Master
  next_master creating = locking
  next_master locking = to_wait
  next_master to_wait = waiting
  next_master waiting = waiting
  next_master waking = to_unlock
  next_master to_unlock = if ltb (s.i + 1) (size3 arr1 arr2) then creating else joining 0
  next_master (joining j) = if ltb (j + 1) (size3 arr1 arr2) then joining (j + 1) else finished
  next_master finished = finished
  next_master failed = failed

  pub main_act-Inv :
      (m : Master)
      → Inv arr1 arr2 n m s
      → Keeps arr1 arr2 (suc n) (next_master m) (main_act arr1 arr2 m s)
  unfolding main_act
  main_act-Inv creating v = creating-Inv arr1 arr2 n s v
  main_act-Inv locking v = locking-Inv arr1 arr2 n s v
  main_act-Inv to_wait v = to_wait-Inv arr1 arr2 n s v
  main_act-Inv waiting v = tt
  main_act-Inv waking v = waking-Inv arr1 arr2 n s v
  main_act-Inv to_unlock v = to_unlock-Inv v
  main_act-Inv (joining j) v = joining-Inv j (s.worker j) refl v
  main_act-Inv finished v = tt
  main_act-Inv failed v = tt
