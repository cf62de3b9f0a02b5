-- ===== src/Merging/Runs.antt =====
-- What the loops over runs leave.
use gjworks.Common.{
  ℕ, zero, suc, ◌+◌, ◌≤◌, ◌<◌, ◌≡◌, inl, inr, refl, ap, ◌∙◌, true, false, List, [], ◌∷◌, leb,
  length, set, length-set, equal-cases, arith,
}
use gjworks.Machine.{ok}
use gjworks.Machine.Array.{at, read-at, write-set, at-set}
use gjworks.Integer.{ℤ, pos}
use gjworks.Merging.{copy_run, copy_back}

-- `a[i]`
abbrev pub val : List ℤ → ℕ → ℤ
val a i = at (pos 0) a i

-- The `n` numbers from `i` on.
abbrev pub slice : List ℤ → ℕ → ℕ → List ℤ
slice a i zero = []
slice a i (suc n) = val a i ∷ slice a (i + 1) n

-- The numbers written from `p` on.
abbrev pub put_at : List ℤ → ℕ → List ℤ → List ℤ
put_at a p [] = a
put_at a p (v ∷ vs) = put_at (set a p v) (p + 1) vs

pub length-put_at : (vs a : List ℤ) (p : ℕ) → length (put_at a p vs) ≡ length a
length-put_at [] a p = refl
length-put_at (v ∷ vs) a p = length-put_at vs (set a p v) (p + 1) ∙ length-set a p v

pub length-slice : (a : List ℤ) (i n : ℕ) → length (slice a i n) ≡ n
length-slice a i zero = refl
length-slice a i (suc n) = ap suc (length-slice a (i + 1) n)

pub copy_run-put_at :
    (fuel n : ℕ) (arr temp : List ℤ) (i end temp_pos : ℕ)
    → i + n ≡ suc end
    → n < fuel
    → i + n ≤ length arr
    → temp_pos + n ≤ length temp
    → copy_run fuel arr temp i end temp_pos
      ≡ ok (put_at temp temp_pos (slice arr i n), temp_pos + n)
unfolding copy_run
copy_run-put_at zero n arr temp i end p e lt in_arr in_temp = absurd (omega arith)
copy_run-put_at (suc fuel) zero arr temp i end p e lt in_arr in_temp =
    let over : leb i end ≡ false = ground (arith, e) in
    let same : p ≡ p + 0 = omega arith in rw (over) (ap (λ q. ok (temp, q)) same)
copy_run-put_at (suc fuel) (suc n) arr temp i end p e lt in_arr in_temp =
    let more : leb i end ≡ true = ground (arith, e) in
    let v = val arr i in
    let rest =
      copy_run-put_at fuel n arr (set temp p v) (i + 1) end (p + 1) (omega (arith, e))
        (omega (arith, lt)) (omega (arith, in_arr)) (omega (arith, in_temp, length-set temp p v)) in
    let total : p + 1 + n ≡ p + suc n = omega arith in
    rw
      (
        more,
        read-at (pos 0) arr i (omega (arith, in_arr)),
        write-set (pos 0) temp p v (omega (arith, in_temp)),
        rest,
        total,
      )
      refl

-- A number outside what is written.
pub val-put_at :
    (vs a : List ℤ) (p k : ℕ) → p + length vs ≤ length a → k < p → val (put_at a p vs) k ≡ val a k
val-put_at [] a p k len lt = refl
val-put_at (v ∷ vs) a p k len lt =
    val-put_at vs (set a p v) (p + 1) k (omega (arith, len, length-set a p v)) (omega (arith, lt))
    ∙ at-set (pos 0) a p k v (omega (arith, len))
    ∙ ground arith

-- What is written is read again.
pub slice-put_at :
    (vs a : List ℤ) (p : ℕ) → p + length vs ≤ length a → slice (put_at a p vs) p (length vs) ≡ vs
slice-put_at [] a p len = refl
slice-put_at (v ∷ vs) a p len =
    let head : val (put_at (set a p v) (p + 1) vs) p ≡ v =
      val-put_at vs (set a p v) (p + 1) p (omega (arith, len, length-set a p v)) (omega arith)
      ∙ at-set (pos 0) a p p v (omega (arith, len))
      ∙ ground arith in
    rw (head, slice-put_at vs (set a p v) (p + 1) (omega (arith, len, length-set a p v))) refl

-- The copy back: the numbers from `from` on that were copied, and the others.
pub record Copied (arr temp new : List ℤ) (from n : ℕ) : Type 0 where
  pub same_length : length new ≡ length arr
  pub copied : (k : ℕ) → from ≤ k → k < from + n → val new k ≡ val temp k
  pub before : (k : ℕ) → k < from → val new k ≡ val arr k
  pub behind : (k : ℕ) → from + n ≤ k → val new k ≡ val arr k

pub copy_back-Copied :
    (n from : ℕ) (arr temp : List ℤ)
    → from + n ≤ length arr
    → from + n ≤ length temp
    → (new : List ℤ) × (copy_back n (from + n) arr temp ≡ ok new) × Copied arr temp new from n
unfolding copy_back
copy_back-Copied zero from arr temp in_arr in_temp = (
  arr,
  refl,
  record {
    same_length = refl;
    copied = λ k le lt. absurd (omega (arith, le, lt));
    before = λ k lt. refl;
    behind = λ k le. refl;
  },
)
copy_back-Copied (suc n) from arr temp in_arr in_temp =
    let place : from + suc n ≡ suc (from + n) = omega arith in
    let v = val temp (from + n) in
    let (new, run, c) =
      copy_back-Copied n from (set arr (from + n) v) temp
        (omega (arith, in_arr, length-set arr (from + n) v)) (omega (arith, in_temp)) in
    (
      new,
      rw
          (
            place,
            read-at (pos 0) temp (from + n) (omega (arith, in_temp)),
            write-set (pos 0) arr (from + n) v (omega (arith, in_arr)),
          )
          run,
      record {
        same_length = c.same_length ∙ length-set arr (from + n) v;
        copied = λ k le lt. elim (equal-cases k (from + n)) [
          | inl e ↦
              c.behind k (omega (arith, e))
              ∙ (at-set (pos 0) arr (from + n) k v (omega (arith, in_arr)) ∙ ground (arith, e))
          | inr ne ↦ c.copied k le (omega (arith, lt, ne))
        ];
        before = λ k lt.
            c.before k lt
            ∙ (at-set (pos 0) arr (from + n) k v (omega (arith, in_arr)) ∙ ground (arith, lt));
        behind = λ k le.
            c.behind k (omega (arith, le))
            ∙ (at-set (pos 0) arr (from + n) k v (omega (arith, in_arr)) ∙ ground (arith, le));
      },
    )

pub slice_ext :
    (a b : List ℤ) (i n : ℕ)
    → ((k : ℕ) → i ≤ k → k < i + n → val a k ≡ val b k)
    → slice a i n ≡ slice b i n
slice_ext a b i zero h = refl
slice_ext a b i (suc n) h =
    rw
      (
        h i (omega arith) (omega arith),
        slice_ext a b (i + 1) n (λ k le lt. h k (omega (arith, le)) (omega (arith, lt))),
      )
      refl
