-- ===== src/Shell/Alias/Lines.antt =====
-- The lines of a file that only whole lines were written to, and the pair on such a line.
use gjworks.Common.{
  ℕ, ◌-◌, ◌<◌, ◌≡◌, refl, sym, ap, ◌∙◌, true, false, ◌||◌, List, [], ◌∷◌, ◌++◌, some, ◌==◌, ==_refl,
  leb, length, Bool-cases, All, inl, inr, arith, append_assoc, All-append, All-map,
}
use gjworks.Shell.Trim.Plain.{IsPlain, trim_whitespace-word, trim_whitespace-line}
use gjworks.Shell.Trim.{is_space}
use gjworks.Shell.Words.{end_token}
use gjworks.Shell.Alias.{fgets_lines, before, from, scan_field, scan_pair, trimmed, pair_of}

-- Empty, or with a newline as last character.
abbrev pub IsEnded : List ℕ → Type 0
IsEnded [] = Unit
IsEnded (c ∷ []) = c ≡ 10
IsEnded (c ∷ (d ∷ s)) = IsEnded (d ∷ s)

lines-after :
    (room : ℕ) (line : List ℕ) (c : ℕ) (s t : List ℕ)
    → IsEnded (c ∷ s)
    → fgets_lines room line ((c ∷ s) ++ t) ≡ fgets_lines room line (c ∷ s) ++ fgets_lines 1023 [] t
unfolding fgets_lines end_token
lines-after room line c [] t h = rw (h) refl
lines-after room line c (d ∷ s) t h = elim (Bool-cases ((c == 10) || leb room 1)) [
  | inl e ↦ rw (e) (ap (λ l. (line ++ (c ∷ [])) ∷ l) (lines-after 1023 [] d s t h))
  | inr e ↦ rw (e) (lines-after (room - 1) (line ++ (c ∷ [])) d s t h)
]

-- Lines that follow whole lines are read as if they stood alone.
pub fgets_lines-append :
    (s t : List ℕ)
    → IsEnded s
    → fgets_lines 1023 [] (s ++ t) ≡ fgets_lines 1023 [] s ++ fgets_lines 1023 [] t
unfolding fgets_lines end_token
fgets_lines-append [] t h = refl
fgets_lines-append (c ∷ s) t h = lines-after 1023 [] c s t h

line-more :
    (room : ℕ) (line w : List ℕ)
    → All (λ c. (c == 10) ≡ false) w
    → length w < room
    → fgets_lines room line (w ++ (10 ∷ [])) ≡ (line ++ (w ++ (10 ∷ []))) ∷ []
unfolding fgets_lines end_token
line-more room line [] h lt = refl
line-more room line (c ∷ w) (h, k) lt =
    let big : leb room 1 ≡ false = ground arith in
    rw (h, big)
      (rw (sym (append_assoc line (c ∷ []) (w ++ (10 ∷ []))))
        (line-more (room - 1) (line ++ (c ∷ [])) w k (omega arith)))

-- A line of less than 1023 characters is read whole.
pub fgets_lines-line :
    (w : List ℕ)
    → All (λ c. (c == 10) ≡ false) w
    → length w < 1023
    → fgets_lines 1023 [] (w ++ (10 ∷ [])) ≡ (w ++ (10 ∷ [])) ∷ []
fgets_lines-line w h lt = line-more 1023 [] w h lt

before-append : (c : ℕ) (w t : List ℕ) → All (λ b. (b == c) ≡ false) w → before c (w ++ (c ∷ t)) ≡ w
unfolding before
before-append c [] t h = rw (==_refl c) refl
before-append c (d ∷ w) t (h, k) = rw (h) (ap (λ s. d ∷ s) (before-append c w t k))

before-absent : (c : ℕ) (w : List ℕ) → All (λ b. (b == c) ≡ false) w → before c w ≡ w
unfolding before
before-absent c [] h = refl
before-absent c (d ∷ w) (h, k) = rw (h) (ap (λ s. d ∷ s) (before-absent c w k))

from-append : (c : ℕ) (w t : List ℕ) → All (λ b. (b == c) ≡ false) w → from c (w ++ (c ∷ t)) ≡ c ∷ t
unfolding from
from-append c [] t h = rw (==_refl c) refl
from-append c (d ∷ w) t (h, k) = rw (h) (from-append c w t k)

plain-other : (c b : ℕ) → is_space c ≡ true → IsPlain b → (b == c) ≡ false
unfolding is_space
plain-other c b h (k, z) = elim (Bool-cases (b == c)) [
  | inl e ↦ absurd (ground (arith, e, h, k))
  | inr e ↦ e
]

pub plain-Other :
    (c : ℕ) (w : List ℕ) → is_space c ≡ true → All IsPlain w → All (λ b. (b == c) ≡ false) w
plain-Other c w h k = All-map IsPlain (λ b. (b == c) ≡ false) (λ b i. plain-other c b h i) w k

pub IsPlain-joined :
    (name value : List ℕ)
    → All IsPlain name
    → All IsPlain value
    → All IsPlain (name ++ (61 ∷ value))
unfolding is_space
IsPlain-joined name value h k = All-append IsPlain name (61 ∷ value) h ((refl, omega arith), k)

pub trimmed-word : (c : ℕ) (w : List ℕ) → All IsPlain (c ∷ w) → trimmed (c ∷ w) ≡ c ∷ w
unfolding trimmed
trimmed-word c w h = trim_whitespace-word c w h

pub trimmed-line :
    (c : ℕ) (w : List ℕ) → All IsPlain (c ∷ w) → trimmed ((c ∷ w) ++ (10 ∷ [])) ≡ c ∷ w
unfolding trimmed
trimmed-line c w h = trim_whitespace-line c w h

scan_pair-fields :
    (line : List ℕ) (n : ℕ) (name : List ℕ) (e : ℕ) (s : List ℕ) (v : ℕ) (value : List ℕ)
    → before 61 line ≡ n ∷ name
    → from 61 line ≡ e ∷ s
    → before 13 s ≡ v ∷ value
    → scan_pair line ≡ some (n ∷ name, v ∷ value)
unfolding scan_pair scan_field
scan_pair-fields line n name e s v value h k i = rw (scan_pair, h, k, i) refl

pub scan_pair-joined :
    (n : ℕ) (name : List ℕ) (v : ℕ) (value : List ℕ)
    → All (λ b. (b == 61) ≡ false) (n ∷ name)
    → All IsPlain (v ∷ value)
    → scan_pair ((n ∷ name) ++ (61 ∷ (v ∷ value))) ≡ some (n ∷ name, v ∷ value)
unfolding is_space
scan_pair-joined n name v value k i =
    scan_pair-fields _ n name 61 (v ∷ value) v value (before-append 61 (n ∷ name) (v ∷ value) k)
      (from-append 61 (n ∷ name) (v ∷ value) k)
      (before-absent 13 (v ∷ value) (plain-Other 13 (v ∷ value) refl i))

pair_of-fields :
    (line l name value : List ℕ)
    → trimmed line ≡ l
    → scan_pair l ≡ some (name, value)
    → pair_of line ≡ some (trimmed name, trimmed value)
unfolding pair_of
pair_of-fields line l name value h k = rw (pair_of, h, k) refl

-- The pair on a line that append_alias wrote.
pub pair_of-line :
    (n : ℕ) (name : List ℕ) (v : ℕ) (value : List ℕ)
    → All IsPlain (n ∷ name)
    → All (λ b. (b == 61) ≡ false) (n ∷ name)
    → All IsPlain (v ∷ value)
    → pair_of (((n ∷ name) ++ (61 ∷ (v ∷ value))) ++ (10 ∷ [])) ≡ some (n ∷ name, v ∷ value)
pair_of-line n name v value h k i =
    pair_of-fields _ ((n ∷ name) ++ (61 ∷ (v ∷ value))) (n ∷ name) (v ∷ value)
      (trimmed-line n (name ++ (61 ∷ (v ∷ value))) (IsPlain-joined (n ∷ name) (v ∷ value) h i))
      (scan_pair-joined n name v value k i)
    ∙ rw (trimmed-word n name h, trimmed-word v value i) refl
