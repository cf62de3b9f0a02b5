-- ===== src/Digits.antt =====
-- Inc_Dec_Number_problem/Basic_Solution/top.c: the numbers from 31 to 2999 that it prints. Each
-- loop body gives whether `j` is written, and `i` after it. A test `x == temp-1` is written
-- `x + 1 == temp`, since temp may be 0.
pub mod Laws
pub mod Pattern
mod Tests
use gjworks.Common.{
  ℕ, zero, suc, ◌+◌, ◌-◌, ◌*◌, ◌/◌, ◌%◌, Bool, true, false, ◌||◌, not, List, [], ◌∷◌, ◌++◌, ◌==◌,
  if◌then◌else◌,
}

unfoldable pub prints_two : ℕ → ℕ → Bool × ℕ
prints_two j old =
    let temp = j % 10 in
    let i = j / 10 in if (i % 10 == temp + 1) || (i % 10 + 1 == temp) then (false, i) else (true, i)

-- The second `if` of the second loop, with what the first has left in `temp` and `i`.
unfoldable pub prints_up : ℕ → ℕ → Bool × ℕ
prints_up temp i =
    let temp' = i % 10 in
    let i' = i / 10 in
    if i % 10 + 1 == temp
    then (if i' % 10 + 1 == temp' then (false, i') else (true, i'))
    else (true, i)

unfoldable pub prints_three : ℕ → ℕ → Bool × ℕ
prints_three j old =
    let temp = j % 10 in
    let i = j / 10 in
    let temp' = i % 10 in
    let i' = i / 10 in
    if i % 10 == temp + 1
    then (if i' % 10 == temp' + 1 then (false, i') else prints_up temp' i')
    else prints_up temp i

-- The third loop divides the `i` that the round before has left.
unfoldable pub prints_four : ℕ → ℕ → Bool × ℕ
prints_four j old =
    let temp = j % 10 in
    let i = old / 10 in
    let i₁ = i / 10 in
    let i₂ = i₁ / 10 in
    let down =
      if i₁ % 10 == i % 10 + 1
      then (if i₂ % 10 == i₁ % 10 + 1 then (false, i₂) else (true, i₂))
      else (true, i₁) in
    let up =
      if i₁ % 10 + 1 == i % 10
      then (if i₂ % 10 + 1 == i₁ % 10 then (false, i₂) else (true, i₂))
      else (true, i₁) in
    if i % 10 == temp + 1 then down else if i % 10 + 1 == temp then up else (true, i)

-- `left` rounds of a loop from `j`: the numbers written to the file, and `i` after them.
unfoldable pub loop : (ℕ → ℕ → Bool × ℕ) → ℕ → ℕ → ℕ → List ℕ × ℕ
loop body zero j i = ([], i)
loop body (suc left) j i =
    let rest = loop body left (j + 1) (body j i).1 in
    (if (body j i).0 then j ∷ rest.0 else rest.0, rest.1)

-- `i` starts with whatever the stack holds.
unfoldable pub main : ℕ → List ℕ
main i =
    let two = loop prints_two 69 31 i in
    let three = loop prints_three 900 100 two.1 in
    let four = loop prints_four 2000 1000 three.1 in two.0 ++ (three.0 ++ four.0)
