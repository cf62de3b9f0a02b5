-- ===== src/Philosophers/Chopsticks.antt =====
-- Who holds a chopstick, as numbers: the invariant of the mutexes that both programs keep.
use gjworks.Common.{
  equal-cases, ℕ, ◌+◌, ◌%◌, ◌≤◌, ◌<◌, ◌≡◌, refl, Bool, true, false, none, some, arith, ◌==◌,
  if◌then◌else◌, Bool-cases, subst, some-injective, sym, ==_iff, ◌≢◌, ap, ◌∙◌, ◌⊎◌, inl, inr,
}
use gjworks.Philosophers.State.{
  Place, seated, one_chopstick, eating, put_right, put_both, Table, right, set, lock,
}

abbrev pub bit : Bool → ℕ
bit true = 1
bit false = 0

pub bit_le : (b : Bool) → bit b ≤ 1
bit_le true = ground arith
bit_le false = ground arith

pub zero_or_one : (b : Bool) → (bit b ≡ 0) ⊎ (bit b ≡ 1)
zero_or_one true = inr refl
zero_or_one false = inl refl

-- 1 where the philosopher holds the left, the right chopstick, or a chair.
abbrev pub left_held : Place → ℕ
left_held one_chopstick = 1
left_held eating = 1
left_held put_right = 1
left_held _ = 0

abbrev pub right_held : Place → ℕ
right_held eating = 1
right_held _ = 0

abbrev pub chair_held : Place → ℕ
chair_held seated = 1
chair_held one_chopstick = 1
chair_held eating = 1
chair_held put_right = 1
chair_held put_both = 1
chair_held _ = 0

-- Mutex `k` is locked by philosopher `k` or by the one before, and never by both.
abbrev pub Held : Table → Type 0
Held t =
    (j : ℕ)
    → j < 5
    → bit (t.mutex_arr (right j)) ≡ left_held (t.place (right j)) + right_held (t.place j)

abbrev pub sum5 : (ℕ → ℕ) → ℕ
sum5 f = f 0 + f 1 + f 2 + f 3 + f 4

pub five : (i : ℕ) → i < 5 → (i ≡ 0) ⊎ ((i ≡ 1) ⊎ ((i ≡ 2) ⊎ ((i ≡ 3) ⊎ (i ≡ 4))))
five i h = ground arith

pub sum5-set :
    (f g : ℕ → ℕ) (i x : ℕ)
    → i < 5
    → ((k : ℕ) → g k ≡ (if i == k then x else f k))
    → sum5 g + f i ≡ sum5 f + x
sum5-set f g i x h e = ground (arith, five i h, e 0, e 1, e 2, e 3, e 4)

pub set_same {ℓ} : {A : Type ℓ} (f : ℕ → A) (i : ℕ) (x : A) (k : ℕ) → i ≡ k → set f i x k ≡ x
set_same f i x k e = rw ((==_iff i k).1 e) refl

pub set_other {ℓ} : {A : Type ℓ} (f : ℕ → A) (i : ℕ) (x : A) (k : ℕ) → i ≢ k → set f i x k ≡ f k
set_other f i x k e = ground (arith, ==_iff i k, Bool-cases (i == k))

-- A number that the move does not change at `i` it changes nowhere.
pub set_keep {ℓ} :
    {A : Type ℓ} (v : A → ℕ) (f : ℕ → A) (i : ℕ) (x : A)
    → v x ≡ v (f i)
    → (k : ℕ) → v (set f i x k) ≡ v (f k)
set_keep v f i x e k = elim (equal-cases i k) [
  | inl h ↦ ap v (set_same f i x k h) ∙ e ∙ ap (λ j. v (f j)) h
  | inr h ↦ ap v (set_other f i x k h)
]

module _ (m : ℕ → Bool) (place : ℕ → Place) (i : ℕ) (q : Place) (b : Bool) (hi : i < 5)
    (held : (j : ℕ)
      → j < 5
      → bit (m (right j)) ≡ left_held (place (right j)) + right_held (place j)) where
  -- Philosopher `i` takes or puts back the chopstick on the left.
  pub left-Held :
      right_held q ≡ right_held (place i)
      → bit b + left_held (place i) ≡ bit (m i) + left_held q
      → (j : ℕ) → j < 5
      → bit (set m i b (right j))
        ≡ left_held (set place i q (right j)) + right_held (set place i q j)
  left-Held same moved j hj =
      let c : right_held (set place i q j) ≡ right_held (place j) =
        set_keep right_held place i q same j in
      elim (equal-cases i (right j)) [
        | inl e ↦
            let a : bit (set m i b (right j)) ≡ bit b = ap bit (set_same m i b (right j) e) in
            let d : left_held (set place i q (right j)) ≡ left_held q =
              ap left_held (set_same place i q (right j) e) in
            let n : bit (m i) ≡ bit (m (right j)) = ap (λ k. bit (m k)) e in
            let l : left_held (place i) ≡ left_held (place (right j)) =
              ap (λ k. left_held (place k)) e in
            let h : bit (m (right j)) ≡ left_held (place (right j)) + right_held (place j) =
              held j hj in
            omega (arith, a, c, d, n, l, h, moved)
        | inr e ↦
            let a : bit (set m i b (right j)) ≡ bit (m (right j)) =
              ap bit (set_other m i b (right j) e) in
            let d : left_held (set place i q (right j)) ≡ left_held (place (right j)) =
              ap left_held (set_other place i q (right j) e) in
            let h : bit (m (right j)) ≡ left_held (place (right j)) + right_held (place j) =
              held j hj in
            omega (arith, a, c, d, h)
      ]

  -- The same on the right.
  pub right-Held :
      left_held q ≡ left_held (place i)
      → bit b + right_held (place i) ≡ bit (m (right i)) + right_held q
      → (j : ℕ) → j < 5
      → bit (set m (right i) b (right j))
        ≡ left_held (set place i q (right j)) + right_held (set place i q j)
  right-Held same moved j hj =
      let c : left_held (set place i q (right j)) ≡ left_held (place (right j)) =
        set_keep left_held place i q same (right j) in
      let h : bit (m (right j)) ≡ left_held (place (right j)) + right_held (place j) = held j hj in
      elim (equal-cases i j) [
        | inl e ↦
            let a : bit (set m (right i) b (right j)) ≡ bit b =
              ap bit (set_same m (right i) b (right j) (ap right e)) in
            let d : right_held (set place i q j) ≡ right_held q =
              ap right_held (set_same place i q j e) in
            let n : bit (m (right i)) ≡ bit (m (right j)) = ap (λ k. bit (m (right k))) e in
            let l : right_held (place i) ≡ right_held (place j) =
              ap (λ k. right_held (place k)) e in
            omega (arith, a, c, d, n, l, h, moved)
        | inr e ↦
            let apart : right i ≢ right j = λ r. e (omega arith) in
            let a : bit (set m (right i) b (right j)) ≡ bit (m (right j)) =
              ap bit (set_other m (right i) b (right j) apart) in
            let d : right_held (set place i q j) ≡ right_held (place j) =
              ap right_held (set_other place i q j e) in
            omega (arith, a, c, d, h)
      ]

  -- A move that touches no chopstick.
  pub place-Held :
      left_held q ≡ left_held (place i)
      → right_held q ≡ right_held (place i)
      → (j : ℕ) → j < 5
      → bit (m (right j)) ≡ left_held (set place i q (right j)) + right_held (set place i q j)
  place-Held l r j hj =
      held j hj
      ∙ sym (rw (set_keep left_held place i q l (right j), set_keep right_held place i q r j) refl)

  -- A chopstick that is held is locked.
  pub held_right : right_held (place i) ≡ 1 → bit (m (right i)) ≡ 1
  held_right e = omega (arith, held i hi, e, bit_le (m (right i)))

  pub held_left : left_held (place i) ≡ 1 → bit (m i) ≡ 1
  held_left e =
      let j = (i + 4) % 5 in
      let back : right j ≡ i = omega arith in
      let h : bit (m i) ≡ left_held (place i) + right_held (place j) =
        subst (λ k. bit (m k) ≡ left_held (place k) + right_held (place j)) back
          (held j (omega arith)) in
      omega (arith, h, e, bit_le (m i))

-- A lock that is taken was open.
pub lock-some :
    (i k : ℕ) (q : Place) (t : Table) {t' : Table}
    → lock i k q t ≡ some t'
    → (bit (t.mutex_arr k) ≡ 0)
      × (record t { mutex_arr = set t.mutex_arr k true; place = set t.place i q } ≡ t')
unfolding lock
lock-some i k q t run = elim (Bool-cases (t.mutex_arr k)) [
  | inl e ↦ absurd (ground arith)
  | inr e ↦ (ap bit e, some-injective _ _ (rw (e) at run))
]

pub lock-none : (i k : ℕ) (q : Place) (t : Table) → lock i k q t ≡ none → bit (t.mutex_arr k) ≡ 1
unfolding lock
lock-none i k q t run = elim (Bool-cases (t.mutex_arr k)) [
  | inl e ↦ ap bit e
  | inr e ↦ absurd (ground arith)
]
