-- ===== src/Shell/IfThenElse/Runs.antt =====
-- Which commands grsIfThenElse runs.
use gjworks.Common.{
  ℕ, ◌≤◌, ◌≡◌, refl, ◌∙◌, Bool, false, none, some, List, [], ◌∷◌, ◌++◌, ◌==◌, ltb, if◌then◌else◌,
  length, arith, Bool-cases, Option-cases, inl, inr,
}
use gjworks.Machine.{ok}
use gjworks.Shell.IfThenElse.{
  after_word, starts_fi, before_fi, skip_spaces, copy, if_word, then_word, else_word, fi_word,
  finish, cut_and_finish, else_branch, then_branch, run_condition, if_then_else,
}

fi-first : (d : List ℕ) → before_fi (fi_word ++ d) ≡ some []
unfolding before_fi starts_fi after_word
fi-first d = refl

f-later : (x : ℕ) (d : List ℕ) → starts_fi (x ∷ (fi_word ++ d)) ≡ false
unfolding starts_fi after_word
f-later x d = ground arith

starts_fi-append :
    (x y : ℕ) (c d : List ℕ) → starts_fi (x ∷ (y ∷ (c ++ d))) ≡ starts_fi (x ∷ (y ∷ c))
unfolding starts_fi after_word
starts_fi-append x y c d = ground arith

before-none :
    (x : ℕ) (c : List ℕ)
    → before_fi (x ∷ c) ≡ none
    → (starts_fi (x ∷ c) ≡ false) × (before_fi c ≡ none)
unfolding before_fi
before-none x c h = ground (arith, h, Bool-cases (starts_fi (x ∷ c)), Option-cases (before_fi c))

before-cons :
    (x : ℕ) (s c : List ℕ)
    → starts_fi (x ∷ s) ≡ false
    → before_fi s ≡ some c
    → before_fi (x ∷ s) ≡ some (x ∷ c)
unfolding before_fi
before-cons x s c h e = rw (h, e) refl

-- The first "fi" behind a text that has none.
before_fi-append : (c d : List ℕ) → before_fi c ≡ none → before_fi (c ++ (fi_word ++ d)) ≡ some c
before_fi-append [] d h = fi-first d
before_fi-append (x ∷ []) d h = before-cons x (fi_word ++ d) [] (f-later x d) (fi-first d)
before_fi-append (x ∷ (y ∷ c)) d h =
    let (a, b) = before-none x (y ∷ c) h in
    before-cons x ((y ∷ c) ++ (fi_word ++ d)) (y ∷ c) (starts_fi-append x y c (fi_word ++ d) ∙ a)
      (before_fi-append (y ∷ c) d b)

skip-append : (c d : List ℕ) → skip_spaces (c ++ (fi_word ++ d)) ≡ skip_spaces c ++ (fi_word ++ d)
unfolding skip_spaces
skip-append [] d = refl
skip-append (x ∷ c) d = elim (Bool-cases (x == 32)) [
  | inl e ↦ rw (e) (skip-append c d)
  | inr e ↦ rw (e) refl
]

skip_le : (s : List ℕ) → length (skip_spaces s) ≤ length s
unfolding skip_spaces
skip_le [] = omega arith
skip_le (x ∷ s) = ground (arith, skip_le s)

copy_short : (s : List ℕ) → length s ≤ 99 → copy s ≡ ok s
unfolding copy
copy_short s h = ground (arith, h)

before-skip : (c : List ℕ) → before_fi c ≡ none → before_fi (skip_spaces c) ≡ none
unfolding skip_spaces
before-skip [] h = h
before-skip (x ∷ c) h = elim (Bool-cases (x == 32)) [
  | inl e ↦ rw (e) (before-skip c (before-none x c h).1)
  | inr e ↦ rw (e) h
]

cut-run :
    {S : Type 0} (exec : List ℕ → S → Bool × S) (c d : List ℕ) (s : S)
    → before_fi c ≡ none
    → cut_and_finish exec (c ++ (fi_word ++ d)) s ≡ ok (finish exec c s)
unfolding cut_and_finish
cut-run exec c d s h = rw (cut_and_finish, before_fi-append c d h) refl

-- The text before the "fi", as the command of the else branch.
else-run :
    {S : Type 0} (exec : List ℕ → S → Bool × S) (c d : List ℕ) (s : S)
    → before_fi c ≡ none
    → length (c ++ (fi_word ++ d)) ≤ 99
    → else_branch exec (else_word ++ (c ++ (fi_word ++ d))) s ≡ ok (finish exec (skip_spaces c) s)
unfolding else_branch after_word
else-run exec c d s h l =
    rw
      (
        copy_short (skip_spaces (c ++ (fi_word ++ d)))
            (omega (arith, l, skip_le (c ++ (fi_word ++ d)))),
        skip-append c d,
      )
      (cut-run exec (skip_spaces c) d s (before-skip c h))

then-run :
    {S : Type 0} (exec : List ℕ → S → Bool × S) (b : List ℕ) (s : S)
    → length b ≤ 99
    → then_branch exec (then_word ++ b) s ≡ ok (finish exec (skip_spaces b) s)
unfolding then_branch after_word
then-run exec b s l = rw (copy_short (skip_spaces b) (omega (arith, l, skip_le b))) refl

fi-found :
    (c d : List ℕ)
    → before_fi c ≡ none
    → before_fi (else_word ++ (c ++ (fi_word ++ d))) ≡ some (else_word ++ c)
unfolding starts_fi after_word
fi-found c d h =
    let e = before_fi-append c d h in
    before-cons 101 _ _ refl
      (before-cons 108 _ _ refl (before-cons 115 _ _ refl (before-cons 101 _ _ refl e)))

-- "if a", "then b" and "else c fi d", with no "fi" in c and with parts of at most 99 characters: a
-- is run, then c if that gave -1 and b if not, each without the spaces before it; and the outcome
-- is that of the second command. There is no undefined behaviour.
pub if_then_else-runs :
    {S : Type 0} (exec : List ℕ → S → Bool × S) (n : ℕ) (a b c d : List ℕ) (s : S)
    → 3 ≤ n
    → before_fi c ≡ none
    → length a ≤ 99
    → length b ≤ 99
    → length (c ++ (fi_word ++ d)) ≤ 99
    → if_then_else exec n (if_word ++ a) (then_word ++ b) (else_word ++ (c ++ (fi_word ++ d))) s
      ≡ ok (
          if (exec (skip_spaces a) s).0
          then finish exec (skip_spaces c) (exec (skip_spaces a) s).1
          else finish exec (skip_spaces b) (exec (skip_spaces a) s).1)
unfolding if_then_else run_condition after_word
if_then_else-runs exec n a b c d s hn h la lb lc =
    let enough : ltb n 3 ≡ false = ground (arith, hn) in
    let r = exec (skip_spaces a) s in
    rw (enough, fi-found c d h, copy_short (skip_spaces a) (omega (arith, la, skip_le a)))
      (elim (Bool-cases r.0) [
        | inl e ↦ rw (e) (else-run exec c d r.1 h lc)
        | inr e ↦ rw (e) (then-run exec b r.1 lb)
      ])
