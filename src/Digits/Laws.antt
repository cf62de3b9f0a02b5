-- ===== src/Digits/Laws.antt =====
-- Which numbers top.c prints.
use gjworks.Common.{
  ℕ, zero, suc, ◌+◌, ◌*◌, ◌/◌, ◌%◌, ◌≤◌, ◌<◌, ◌≡◌, refl, ap, ◌∙◌, Bool, true, ◌||◌, ◌&&◌, not, List,
  [], ◌∷◌, ◌++◌, ◌==◌, if◌then◌else◌, arith, subst,
}
use gjworks.Digits.{prints_two, prints_up, prints_three, prints_four, loop, main}

-- `left` numbers from `j`, those that satisfy a test.
unfoldable pub chosen : (ℕ → Bool) → ℕ → ℕ → List ℕ
chosen test zero j = []
chosen test (suc left) j = if test j then j ∷ chosen test left (j + 1) else chosen test left (j + 1)

-- Two digits that differ by one.
abbrev pub are_close : ℕ → Bool
are_close j = (j / 10 == j % 10 + 1) || (j / 10 + 1 == j % 10)

-- Three digits in a row that go up or down by one.
unfoldable pub is_run : ℕ → ℕ → ℕ → Bool
is_run a b c = ((a == b + 1) && (b == c + 1)) || ((a + 1 == b) && (b + 1 == c))

-- What the second loop leaves out.
abbrev pub is_left_out : ℕ → Bool
is_left_out j = is_run (j / 100) (j / 10 % 10) (j % 10) || (j == 121)

prints_two-test : (j i : ℕ) → j < 100 → (prints_two j i).0 ≡ not (are_close j)
unfolding prints_two
prints_two-test j i h = let e : j / 10 % 10 ≡ j / 10 = omega arith in rw (e) ground arith

prints_three-digits :
    (a b c i : ℕ)
    → 1 ≤ a
    → a ≤ 9
    → b ≤ 9
    → c ≤ 9
    → (prints_three (100 * a + 10 * b + c) i).0
      ≡ not (is_run a b c || ((a == 1) && ((b == 2) && (c == 1))))
unfolding prints_three prints_up is_run
prints_three-digits a b c i la ha hb hc =
    let x : (100 * a + 10 * b + c) % 10 ≡ c = omega arith in
    let y : (100 * a + 10 * b + c) / 10 ≡ 10 * a + b = omega arith in
    let z : (10 * a + b) % 10 ≡ b = omega arith in
    let u : (10 * a + b) / 10 ≡ a = omega arith in
    let v : a % 10 ≡ a = omega arith in
    let w : a / 10 ≡ 0 = omega arith in rw (x, y, z, u, v, w) ground arith

equal_tests :
    (a b c j : ℕ)
    → b ≤ 9
    → c ≤ 9
    → 100 * a + 10 * b + c ≡ j
    → ((a == 1) && ((b == 2) && (c == 1))) ≡ (j == 121)
equal_tests a b c j hb hc e = ground arith

prints_three-test : (j i : ℕ) → 100 ≤ j → j < 1000 → (prints_three j i).0 ≡ not (is_left_out j)
prints_three-test j i l h =
    let a = j / 100 in
    let b = j / 10 % 10 in
    let c = j % 10 in
    let e : 100 * a + 10 * b + c ≡ j = omega arith in
    let same : ((a == 1) && ((b == 2) && (c == 1))) ≡ (j == 121) =
      equal_tests a b c j (omega arith) (omega arith) e in
    subst (λ k. (prints_three k i).0 ≡ not (is_left_out j)) e
      (prints_three-digits a b c i (omega arith) (omega arith) (omega arith) (omega arith)
        ∙ ap (λ t. not (is_run a b c || t)) same)

-- With `i` below 100 the third loop writes `j`, and leaves `i` below 100.
prints_four-all : (j i : ℕ) → i < 100 → ((prints_four j i).0 ≡ true) × ((prints_four j i).1 < 100)
unfolding prints_four
prints_four-all j i h =
    let e : i / 10 % 10 ≡ i / 10 = omega arith in
    let z : i / 10 / 10 ≡ 0 = omega arith in rw (z) ground arith

prints_three-state : (j i : ℕ) → j < 1000 → (prints_three j i).1 < 100
unfolding prints_three prints_up
prints_three-state j i h = ground arith

module _ (body : ℕ → ℕ → Bool × ℕ) (keep : ℕ → Bool) (lo hi : ℕ) where
  loop-chosen :
      ((j i : ℕ) → lo ≤ j → j < hi → (body j i).0 ≡ keep j)
      → (left j i : ℕ) → lo ≤ j
      → left + j ≤ hi
      → (loop body left j i).0 ≡ chosen keep left j
  unfolding loop chosen
  loop-chosen h zero j i l u = refl
  loop-chosen h (suc left) j i l u =
      rw
        (loop-chosen h left (j + 1) (body j i).1 (omega arith) (omega arith), h j i l (omega arith))
        refl

loop-state :
    (body : ℕ → ℕ → Bool × ℕ) (hi : ℕ)
    → ((j i : ℕ) → j < hi → (body j i).1 < 100)
    → (left j i : ℕ) → suc left + j ≤ hi
    → (loop body (suc left) j i).1 < 100
unfolding loop
loop-state body hi h zero j i u = h j i (omega arith)
loop-state body hi h (suc left) j i u = loop-state body hi h left (j + 1) (body j i).1 (omega arith)

four-chosen : (left j i : ℕ) → i < 100 → (loop prints_four left j i).0 ≡ chosen (λ k. true) left j
unfolding loop chosen
four-chosen zero j i h = refl
four-chosen (suc left) j i h =
    let (a, b) = prints_four-all j i h in
    rw (four-chosen left (j + 1) (prints_four j i).1 b, a) refl

joined : {a a' b b' c c' : List ℕ} → a ≡ a' → b ≡ b' → c ≡ c' → a ++ (b ++ c) ≡ a' ++ (b' ++ c')
joined p q r = rw (p, q, r) refl

-- The program writes, in order, the numbers from 31 to 99 whose two digits do not differ by one;
-- those from 100 to 999 whose digits do not go up or down by one, without 121; and all from 1000 to
-- 2999, whatever their digits.
pub main-chosen :
    (i : ℕ)
    → main i
      ≡ chosen (λ j. not (are_close j)) 69 31
        ++ (chosen (λ j. not (is_left_out j)) 900 100 ++ chosen (λ j. true) 2000 1000)
unfolding main
main-chosen i =
    let two = loop prints_two 69 31 i in
    let three = loop prints_three 900 100 two.1 in
    joined
      (loop-chosen prints_two (λ j. not (are_close j)) 31 100 (λ j i l h. prints_two-test j i h) 69
        31 i (omega arith) (omega arith))
      (loop-chosen prints_three (λ j. not (is_left_out j)) 100 1000 prints_three-test 900 100 two.1
        (omega arith) (omega arith))
      (four-chosen 2000 1000 three.1
        (loop-state prints_three 1000 prints_three-state 899 100 two.1 (omega arith)))
