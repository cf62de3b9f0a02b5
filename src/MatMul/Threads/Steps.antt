-- ===== src/MatMul/Threads/Steps.antt =====
-- Every step keeps the invariant.
use gjworks.Common.{
  ℕ, true, suc, ◌+◌, ◌*◌, ◌%◌, ◌^◌, ◌≤◌, ◌<◌, ◌≡◌, ◌≢◌, inl, inr, refl, sym, ap, ◌∙◌, subst, ltb,
  equal-cases, Bool-cases, arith,
}
use gjworks.MatMul.{Matrix, size, set_at}
use gjworks.MatMul.Threads.{
  Place, unborn, clearing, adding, ended, overflow, fits_int, begin_slice, Master, creating,
  to_multiply, joining, exited, State, put, give_up, from_row, to_row, at_row, at_product,
  create_or_work, main_act, multiply_act,
}
use gjworks.MatMul.Threads.Rows.{Good}
use gjworks.MatMul.Threads.Loops.{progress, IsAt, clear-IsAt, add-IsAt}
use gjworks.MatMul.Threads.Invariant.{
  Made, master_steps, Inv, Keeps, put_same, put_other, begun-IsAt, slice_steps-put, begun-Good,
  written-Good,
}

-- A slice that is begun stays so.
Made-put :
    (num_threads : ℕ) (m : Master) (s : ℕ) (w : Place) (place : ℕ → Place)
    → place s ≢ unborn
    → w ≢ unborn
    → Made num_threads m place
    → Made num_threads m (put s w place)
Made-put num_threads m s w place old new = keeps m
  where
    unborn_still : (q : ℕ) → place q ≡ unborn → put s w place q ≡ unborn
    unborn_still q e = put_other s w place q (λ same. old (ap place same ∙ e)) ∙ e

    born_still : (q : ℕ) → place q ≢ unborn → put s w place q ≢ unborn
    born_still q ne e = elim (equal-cases s q) [
      | inl same ↦ new (sym (put_same s w place) ∙ (ap (put s w place) same ∙ e))
      | inr other ↦ ne (sym (put_other s w place q other) ∙ e)
    ]

    keeps : (m : Master) → Made num_threads m place → Made num_threads m (put s w place)
    keeps (creating i) (pos, lt, none_yet, before, after) = (
      pos,
      lt,
      unborn_still 0 none_yet,
      λ q lo hi. born_still q (before q lo hi),
      λ q le. unborn_still q (after q le),
    )
    keeps to_multiply (none_yet, before) =
        (unborn_still 0 none_yet, λ q lo hi. born_still q (before q lo hi))
    keeps joining all = λ q hi. born_still q (all q hi)
    keeps exited h = tt

module _ (num_threads : ℕ) (some_threads : 0 < num_threads) (fits : num_threads * size < 2 ^ 31)
    (a b : Matrix) (n : ℕ) (t : State) where
  begin_fits :
      (s : ℕ)
      → s < num_threads
      → begin_slice num_threads s ≡ at_row num_threads s (from_row num_threads s)
  begin_fits s lt = let e : fits_int num_threads s ≡ true = ground (arith, fits, lt) in rw (e) refl

  -- The state after the slice `s` is begun.
  abbrev begun : ℕ → Master → Place → State
  begun s m w = record t { master = m; place = put s w t.place }

  -- main begins the slice `s`, which no one has begun.
  begun-Inv :
      (s : ℕ) (m m' : Master)
      → s < num_threads
      → t.place s ≡ unborn
      → Inv num_threads a b n m t
      → master_steps num_threads m' ≡ master_steps num_threads m + 1
      → Made num_threads m' (put s (at_row num_threads s (from_row num_threads s)) t.place)
      → Inv num_threads a b (suc n) m' (record t {
        master = m';
        place = put s (at_row num_threads s (from_row num_threads s)) t.place;
      })
  begun-Inv s m m' lt none_yet v up made =
      let w = at_row num_threads s (from_row num_threads s) in
      let (good, none_made, born) = begun-IsAt num_threads some_threads a b s t.c in
      record {
        here = refl;
        good = begun-Good num_threads some_threads a b s t v.good;
        made = made;
        late = λ q le. put_other s w t.place q (λ e. omega arith) ∙ v.late q le;
        steps = omega (
          arith,
          v.steps,
          up,
          none_made,
          slice_steps-put num_threads some_threads a b s w t.place lt,
          ap (progress (from_row num_threads s) (to_row num_threads s)) none_yet,
        );
      }

  creating-Made :
      (i : ℕ) (w : Place)
      → w ≢ unborn
      → Made num_threads (creating i) t.place
      → Made num_threads (create_or_work num_threads (i + 1)) (put i w t.place)
  creating-Made i w new (pos, lt, none_yet, before, after) =
      elim (Bool-cases (ltb (i + 1) num_threads)) [
        | inl f ↦ rw (f) (
          omega arith,
          ground (arith, f),
          none_still,
          λ q lo hi. born q lo hi,
          λ q le. put_other i w t.place q (λ same. omega arith) ∙ after q (omega arith),
        )
        | inr f ↦ rw (f) (none_still, λ q lo hi. born q lo (ground (arith, f, hi)))
      ]
    where
      none_still : put i w t.place 0 ≡ unborn
      none_still = put_other i w t.place 0 (λ same. omega (arith, pos)) ∙ none_yet

      born : (q : ℕ) → 0 < q → q < i + 1 → put i w t.place q ≢ unborn
      born q lo hi g = elim (equal-cases i q) [
        | inl same ↦ new (sym (put_same i w t.place) ∙ (ap (put i w t.place) same ∙ g))
        | inr other ↦
            before q lo (omega (arith, hi, other)) (sym (put_other i w t.place q other) ∙ g)
      ]

  creating-steps :
      (i : ℕ)
      → 0 < i
      → i < num_threads
      → master_steps num_threads (create_or_work num_threads (i + 1))
        ≡ master_steps num_threads (creating i) + 1
  creating-steps i pos lt = elim (Bool-cases (ltb (i + 1) num_threads)) [
    | inl f ↦ rw (f) (omega arith)
    | inr f ↦ rw (f) (ground (arith, f))
  ]

  creating-Inv :
      (i : ℕ)
      → Inv num_threads a b n (creating i) t
      → Keeps num_threads a b
          (suc n)
          (create_or_work num_threads (i + 1))
          (main_act num_threads (creating i) t)
  unfolding main_act
  creating-Inv i v =
      let (pos, lt, none_yet, before, after) = v.made in
      let w = at_row num_threads i (from_row num_threads i) in
      subst
        (λ u.
          let m = create_or_work num_threads (i + 1) in Inv num_threads a b (suc n) m (begun i m u))
        (sym (begin_fits i lt))
        (begun-Inv i (creating i) (create_or_work num_threads (i + 1)) lt (after i (omega arith)) v
          (creating-steps i pos lt)
          (creating-Made i w (begun-IsAt num_threads some_threads a b i t.c).2 v.made))

  to_multiply-Inv :
      Inv num_threads a b n to_multiply t
      → Keeps num_threads a b (suc n) joining (main_act num_threads to_multiply t)
  unfolding main_act
  to_multiply-Inv v =
      let w = at_row num_threads 0 (from_row num_threads 0) in
      let new = (begun-IsAt num_threads some_threads a b 0 t.c).2 in
      subst (λ u. Inv num_threads a b (suc n) joining (begun 0 joining u))
        (sym (begin_fits 0 some_threads))
        (begun-Inv 0 to_multiply joining some_threads v.made.0 v (omega arith) (λ q hi e.
          elim (equal-cases 0 q) [
            | inl same ↦ new (sym (put_same 0 w t.place) ∙ (ap (put 0 w t.place) same ∙ e))
            | inr other ↦
                v.made.1 q (omega (arith, other)) hi (sym (put_other 0 w t.place q other) ∙ e)
          ]))

  pub give_up-Inv :
      (i : ℕ)
      → Inv num_threads a b n (creating i) t
      → Keeps num_threads a b (suc n) exited (give_up (creating i) t)
  unfolding give_up
  give_up-Inv i v = record {
    here = refl;
    good = v.good;
    made = tt;
    late = v.late;
    steps = omega (arith, v.steps, v.made.1);
  }

  -- The master after a call of main.
  abbrev pub next_master : Master → Master
  next_master (creating i) = create_or_work num_threads (i + 1)
  next_master to_multiply = joining
  next_master joining = joining
  next_master exited = exited

  pub main_act-Inv :
      (m : Master)
      → Inv num_threads a b n m t
      → Keeps num_threads a b (suc n) (next_master m) (main_act num_threads m t)
  unfolding main_act
  main_act-Inv (creating i) v = creating-Inv i v
  main_act-Inv to_multiply v = to_multiply-Inv v
  main_act-Inv joining v = tt
  main_act-Inv exited v = tt

  -- A statement of the slice `s`, which writes in one of its rows.
  written-Inv :
      (s i j v : ℕ) (w w' : Place) (m : Master)
      → t.place s ≡ w
      → w ≢ unborn
      → from_row num_threads s ≤ i
      → i < to_row num_threads s
      → IsAt num_threads s a b w'
          (progress (from_row num_threads s) (to_row num_threads s) w + 1)
          (set_at t.c i j v)
      → Inv num_threads a b n m t
      → Inv num_threads a b (suc n) m (record t { c = set_at t.c i j v; place = put s w' t.place })
  written-Inv s i j v w w' m e old le lt (mine, up, new) inv =
      let born : t.place s ≢ unborn = λ f. old (sym e ∙ f) in
      let in_range : s < num_threads = elim (Bool-cases (ltb s num_threads)) [
        | inl f ↦ ground (arith, f)
        | inr f ↦ absurd (born (inv.late s (ground (arith, f))))
      ] in
      record {
        here = inv.here;
        good = written-Good num_threads some_threads a b s i j v w' t le lt mine inv.good;
        made = Made-put num_threads m s w' t.place born new inv.made;
        late = λ q past.
            put_other s w' t.place q (λ f. omega (arith, f, past, in_range)) ∙ inv.late q past;
        steps = omega (
          arith,
          inv.steps,
          up,
          slice_steps-put num_threads some_threads a b s w' t.place in_range,
          ap (progress (from_row num_threads s) (to_row num_threads s)) e,
        );
      }

  pub multiply_act-Inv :
      (m : Master) (s : ℕ) (w : Place)
      → t.place s ≡ w
      → Inv num_threads a b n m t
      → Keeps num_threads a b (suc n) m (multiply_act num_threads a b w s t)
  unfolding multiply_act
  multiply_act-Inv m s unborn e v = tt
  multiply_act-Inv m s (clearing i j) e v =
      let mine =
        subst (λ u. Good a b (from_row num_threads s) (to_row num_threads s) u t.c) e (v.good s) in
      written-Inv s i j 0 (clearing i j) (at_product num_threads s i j 0) m e (λ f. cc)
        (mine.2.begun) mine.0 (clear-IsAt num_threads s a b i j t.c mine) v
  multiply_act-Inv m s (adding i j k) e v =
      let mine =
        subst (λ u. Good a b (from_row num_threads s) (to_row num_threads s) u t.c) e (v.good s) in
      written-Inv s i j ((t.c i j + a i k * b k j) % 2 ^ 32) (adding i j k)
        (at_product num_threads s i j (k + 1)) m e (λ f. cc) (mine.2.begun) mine.0
        (add-IsAt num_threads s a b i j k t.c mine) v
  multiply_act-Inv m s ended e v = tt
  multiply_act-Inv m s overflow e v = tt
