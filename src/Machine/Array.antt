-- ===== src/Machine/Array.antt =====
-- Arrays, as lists that keep their length.
use gjworks.Common.{
  ℕ, zero, suc, ◌<◌, ◌≡◌, ◌≢◌, refl, ◌∙◌, List, [], ◌∷◌, ◌==◌, if◌then◌else◌, length, set,
  length-set, arith,
}
use mathlib.Core.List.{Perm}
use mathlib.Core.List.Perm
use gjworks.Machine.{Run, ok, fault, ◌>>=◌}

module _ {A : Type 0} where
  -- `a[i]`
  unfoldable pub read : List A → ℕ → Run A
  read [] i = fault
  read (v ∷ a) zero = ok v
  read (v ∷ a) (suc i) = read a i

  -- `a[i] = v`
  unfoldable pub write : List A → ℕ → A → Run (List A)
  unfolding read
  write a i v = read a i >>= λ old. ok (set a i v)

  -- The element at `i`, and some other past the end.
  unfoldable pub at : A → List A → ℕ → A
  at other [] i = other
  at other (v ∷ a) zero = v
  at other (v ∷ a) (suc i) = at other a i

  pub read-at : (o : A) (a : List A) (i : ℕ) → i < length a → read a i ≡ ok (at o a i)
  unfolding read at
  read-at o [] i lt = absurd (omega arith)
  read-at o (v ∷ a) zero lt = refl
  read-at o (v ∷ a) (suc i) lt = read-at o a i (omega arith)

  pub write-set : (o : A) (a : List A) (i : ℕ) (v : A) → i < length a → write a i v ≡ ok (set a i v)
  unfolding write
  write-set o a i v lt = rw (read-at o a i lt) refl

  pub at-set :
      (o : A) (a : List A) (i k : ℕ) (v : A)
      → i < length a
      → at o (set a i v) k ≡ (if i == k then v else at o a k)
  unfolding at
  at-set o [] i k v lt = absurd (omega arith)
  at-set o (x ∷ a) zero zero v lt = refl
  at-set o (x ∷ a) zero (suc k) v lt = ground arith
  at-set o (x ∷ a) (suc i) zero v lt = ground arith
  at-set o (x ∷ a) (suc i) (suc k) v lt =
      let same : (suc i == suc k) ≡ (i == k) = ground arith in
      rw (same) (at-set o a i k v (omega arith))

  -- Two elements change places.
  unfoldable pub swap : List A → ℕ → ℕ → Run (List A)
  unfolding write read
  swap a i m = read a m >>= λ temp. read a i >>= λ x. write a m x >>= λ b. write b i temp

module _ {A : Type 0} where
  set_first : (o x : A) (a : List A) (m : ℕ) → m < length a → Perm (at o a m ∷ set a m x) (x ∷ a)
  unfolding at
  set_first o x [] m lt = absurd (omega arith)
  set_first o x (y ∷ a) zero lt = Perm.swap x y a
  set_first o x (y ∷ a) (suc m) lt =
      Perm.trans (Perm.swap y (at o a m) (set a m x))
        (Perm.trans (Perm.cons y (set_first o x a m (omega arith))) (Perm.swap x y a))

  set-Perm :
      (o : A) (a : List A) (i m : ℕ)
      → i < m
      → m < length a
      → Perm (set (set a m (at o a i)) i (at o a m)) a
  unfolding at
  set-Perm o [] i m lt h = absurd (omega arith)
  set-Perm o (x ∷ a) i zero lt h = absurd (omega arith)
  set-Perm o (x ∷ a) zero (suc m) lt h = set_first o x a m (omega arith)
  set-Perm o (x ∷ a) (suc i) (suc m) lt h =
      Perm.cons x (set-Perm o a i m (omega arith) (omega arith))

  -- What a swap leaves.
  pub record Swapped (o : A) (a b : List A) (i m : ℕ) : Type 0 where
    pub same_length : length b ≡ length a
    pub perm : Perm b a
    pub here : at o b i ≡ at o a m
    pub there : at o b m ≡ at o a i
    pub kept : (k : ℕ) → k ≢ i → k ≢ m → at o b k ≡ at o a k

  pub swap-Swapped :
      (o : A) (a : List A) (i m : ℕ)
      → i < m
      → m < length a
      → (b : List A) × (swap a i m ≡ ok b) × Swapped o a b i m
  unfolding swap
  swap-Swapped o a i m lt h =
      let b = set a m (at o a i) in
      let long : length b ≡ length a = length-set a m (at o a i) in
      let i_in : i < length b = omega (arith, long) in
      (
        set b i (at o a m),
        ground (
          arith,
          read-at o a m h,
          read-at o a i (omega arith),
          write-set o a m (at o a i) h,
          write-set o b i (at o a m) i_in,
        ),
        record {
          same_length = length-set b i (at o a m) ∙ long;
          perm = set-Perm o a i m lt h;
          here = at-set o b i i (at o a m) i_in ∙ ground arith;
          there = at-set o b i m (at o a m) i_in ∙ ground (arith, at-set o a m m (at o a i) h);
          kept = λ k ne ne'.
              at-set o b i k (at o a m) i_in ∙ ground (arith, at-set o a m k (at o a i) h);
        },
      )
