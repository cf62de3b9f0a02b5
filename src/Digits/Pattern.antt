-- ===== src/Digits/Pattern.antt =====
-- Inc_Dec_Number_problem/Using_pattern_matching/patten_matching.c: the same task by strstr. A string
-- is the list of its characters.
use gjworks.Common.{
  ℕ, zero, suc, ◌+◌, ◌/◌, ◌%◌, ◌≤◌, ◌<◌, ◌≡◌, refl, Bool, true, false, ◌||◌, ◌&&◌, not, List, [],
  ◌∷◌, ◌==◌, if◌then◌else◌, arith, sym, ltb, Bool-cases, equal-cases,
}
use gjworks.Digits.Laws.{is_run, chosen}

-- `itoa(num, s, 10)`; ten digits are enough for an int.
unfoldable pub itoa : ℕ → ℕ → List ℕ → List ℕ
itoa zero num s = s
itoa (suc fuel) num s =
    let rest = itoa fuel (num / 10) ((48 + num % 10) ∷ s) in
    if num / 10 == 0 then (48 + num) ∷ s else rest

-- Whether the second string starts with the first.
unfoldable pub starts : List ℕ → List ℕ → Bool
starts [] t = true
starts (a ∷ s) [] = false
starts (a ∷ s) (b ∷ t) = (a == b) && starts s t

-- `strstr(t, s) != NULL`
unfoldable pub strstr : List ℕ → List ℕ → Bool
strstr [] s = starts s []
strstr (b ∷ t) s = starts s (b ∷ t) || strstr t s

abbrev pub base_string1 : List ℕ
base_string1 = 48 ∷ 49 ∷ 50 ∷ 51 ∷ 52 ∷ 53 ∷ 54 ∷ 55 ∷ 56 ∷ 57 ∷ []

abbrev pub base_string2 : List ℕ
base_string2 = 57 ∷ 56 ∷ 55 ∷ 54 ∷ 53 ∷ 52 ∷ 51 ∷ 50 ∷ 49 ∷ 48 ∷ []

unfoldable pub match_string : ℕ → Bool
match_string num = let s = itoa 10 num [] in strstr base_string1 s || strstr base_string2 s

-- The loop of main, with `left` rounds from `i`: the numbers written.
unfoldable pub numbers : ℕ → ℕ → List ℕ
numbers zero i = []
numbers (suc left) i = let rest = numbers left (i + 1) in if match_string i then rest else i ∷ rest

-- The digits of a number from 10 to 9999 go up, or down, by one.
abbrev pub is_monotone : ℕ → Bool
is_monotone n =
    let d = n % 10 in
    let c = n / 10 % 10 in
    let b = n / 100 % 10 in
    let a = n / 1000 in
    if ltb n 100
    then (c == d + 1) || (c + 1 == d)
    else if ltb n 1000
    then is_run b c d
    else is_run a b c && is_run b c d

abbrev agree : Bool → Bool → Bool
agree b c = if b then c else not c

agree_sound : (b c : Bool) → agree b c ≡ true → b ≡ c
agree_sound true c h = sym h
agree_sound false true h = absurd (ground arith)
agree_sound false false h = refl

-- A test on the `left` numbers from `i`.
every : (ℕ → Bool) → ℕ → ℕ → Bool
every test zero i = true
every test (suc left) i = test i && every test left (i + 1)

every_sound :
    (test : ℕ → Bool) (left i n : ℕ)
    → every test left i ≡ true
    → i ≤ n
    → n < left + i
    → test n ≡ true
unfolding every
every_sound test zero i n h l u = absurd (omega arith)
every_sound test (suc left) i n h l u =
    ground (arith, Bool-cases (test i), equal-cases i n, every_sound test left (i + 1) n)

all_agree : every (λ n. agree (match_string n) (is_monotone n)) 2969 31 ≡ true
unfolding every match_string itoa starts strstr is_run
all_agree = refl

-- match_string is 1 exactly for the numbers whose digits go up, or down, by one.
pub match_string-monotone : (n : ℕ) → 31 ≤ n → n < 3000 → match_string n ≡ is_monotone n
match_string-monotone n l u =
    agree_sound (match_string n) (is_monotone n) (
      every_sound (λ k. agree (match_string k) (is_monotone k)) 2969 31 n all_agree l (omega arith))

if_not : {A : Type 0} (b : Bool) (x y : A) → (if b then x else y) ≡ (if not b then y else x)
if_not true x y = refl
if_not false x y = refl

loop-chosen :
    (left i : ℕ)
    → 31 ≤ i
    → left + i ≤ 3000
    → numbers left i ≡ chosen (λ n. not (is_monotone n)) left i
unfolding numbers chosen
loop-chosen zero i l u = refl
loop-chosen (suc left) i l u =
    rw
      (
        match_string-monotone i l (omega arith),
        loop-chosen left (i + 1) (omega arith) (omega arith),
      )
      (if_not (is_monotone i) _ _)

-- The program writes, in order, the numbers from 31 to 2999 whose digits do not go up, or down, by
-- one.
pub numbers-chosen : numbers 2969 31 ≡ chosen (λ n. not (is_monotone n)) 2969 31
numbers-chosen = loop-chosen 2969 31 (omega arith) (omega arith)
