-- ===== src/Fragments/Bits.antt =====
-- Which inodes the scan of the bitmap finds.
use gjworks.Common.{
  ℕ, zero, suc, ◌+◌, ◌*◌, ◌/◌, ◌%◌, ◌^◌, ◌≤◌, ◌<◌, ◌≡◌, refl, inl, inr, Bool, true, false, ◌&&◌,
  List, [], ◌∷◌, ◌++◌, ◌==◌, ltb, leb, length, if◌then◌else◌, arith, Bool-cases, append_nil,
  append_assoc, length-append, sym, ◌∙◌, ap, subst,
}
use native.Mathlib.Nat.{pow-suc}
use gjworks.Machine.{Run, ok, ◌>>=◌}
use gjworks.Fragments.{push, scan_bits, scan_words}

even : (x y : ℕ) → x < 2 → (x * (2 * y) == 1) ≡ false
even zero y h = ground arith
even (suc zero) y h = ground arith
even (suc (suc x)) y h = absurd (omega arith)

-- From bit 1 on, no bit gives 1 under `k & (1 << i)`.
no_bit : (k i : ℕ) → ((k / 2 ^ suc i) % 2 * 2 ^ suc i == 1) ≡ false
no_bit k i =
    subst (λ p. ((k / 2 ^ suc i) % 2 * p == 1) ≡ false) (omega (arith, pow-suc 2 i))
      (even ((k / 2 ^ suc i) % 2) (2 ^ i) (omega arith))

scan_rest :
    (map_bits k left i b : ℕ) (found : List ℕ)
    → b ≤ map_bits
    → scan_bits map_bits k left (suc i) b found ≡ ok (ltb map_bits (b + left), found)
unfolding scan_bits
scan_rest map_bits k zero i b found h = ground arith
scan_rest map_bits k (suc left) i b found h = elim (Bool-cases (leb map_bits b)) [
  | inl e ↦ let f : ltb map_bits (b + suc left) ≡ true = ground (arith, e) in rw (e, f) refl
  | inr e ↦
      let f : suc i + 1 ≡ suc (suc i) = omega arith in
      let g : b + 1 + left ≡ b + suc left = omega arith in
      rw (e, no_bit k i)
        (ap (λ j. scan_bits map_bits k left j (b + 1) found) f
          ∙ scan_rest map_bits k left (suc i) (b + 1) found (ground (arith, e))
          ∙ ap (λ n. ok (ltb map_bits n, found)) g)
]

-- One word: its bit 0, and whether the end of the map lies within it.
scan_word :
    (map_bits k left b : ℕ) (found : List ℕ)
    → length found ≤ 99
    → scan_bits map_bits k (suc left) 0 b found ≡ (
        if leb map_bits b
        then ok (true, found)
        else ok (ltb map_bits (b + 1 + left), if k % 2 == 1 then found ++ (b ∷ []) else found))
unfolding scan_bits push
scan_word map_bits k left b found h = elim (Bool-cases (leb map_bits b)) [
  | inl e ↦ rw (e) refl
  | inr e ↦
      let room : leb 100 (length found) ≡ false = ground (arith, h) in
      let bit : (k / 1) % 2 * 1 ≡ k % 2 = omega arith in
      let next : b + 1 ≤ map_bits = ground (arith, e) in
      rw (e, room, bit)
        (elim (Bool-cases (k % 2 == 1)) [
          | inl o ↦ rw (o) (scan_rest map_bits k left 0 (b + 1) (found ++ (b ∷ [])) next)
          | inr o ↦ rw (o) (scan_rest map_bits k left 0 (b + 1) found next)
        ])
]

-- The numbers of the bits 0 of the words, below the end of the map.
abbrev pub first_bits : ℕ → List ℕ → ℕ → List ℕ
first_bits map_bits [] b = []
first_bits map_bits (k ∷ words) b =
    if (k % 2 == 1) && ltb b map_bits
    then b ∷ first_bits map_bits words (b + 32)
    else first_bits map_bits words (b + 32)

first_bits-none :
    (map_bits : ℕ) (words : List ℕ) (b : ℕ) → map_bits ≤ b → first_bits map_bits words b ≡ []
first_bits-none map_bits [] b h = refl
first_bits-none map_bits (k ∷ words) b h =
    ground (arith, first_bits-none map_bits words (b + 32), Bool-cases (k % 2 == 1))

-- What follows a word.
after :
    (met : Bool) (found rest : List ℕ) (next : Run (List ℕ))
    → (met ≡ true → rest ≡ [])
    → next ≡ ok (found ++ rest)
    → (if met then ok found else next) ≡ ok (found ++ rest)
after true found rest next h e =
    ap ok (sym (append_nil found)) ∙ ap (λ s. ok (found ++ s)) (sym (h refl))
after false found rest next h e = e

-- The scan of the bitmap finds an inode only where bit 0 of a word is set, whatever the other 31
-- bits are; of those below the end of the map it finds all, while in_numb has room.
pub scan_words-first_bits :
    (map_bits : ℕ) (words : List ℕ) (b : ℕ) (found : List ℕ)
    → length found + length words ≤ 100
    → scan_words map_bits words b found ≡ ok (found ++ first_bits map_bits words b)
unfolding scan_words
scan_words-first_bits map_bits [] b found h = ap ok (sym (append_nil found))
scan_words-first_bits map_bits (k ∷ words) b found h =
    let more : (f : List ℕ)
        → length f + length words ≤ 100
        → scan_words map_bits words (b + 32) f ≡ ok (f ++ first_bits map_bits words (b + 32)) =
      λ f g. scan_words-first_bits map_bits words (b + 32) f g in
    let past : ltb map_bits (b + 1 + 31) ≡ true → first_bits map_bits words (b + 32) ≡ [] =
      λ e. first_bits-none map_bits words (b + 32) (ground (arith, e)) in
    let word = scan_word map_bits k 31 b found (omega (arith, h)) in
    let cont : Bool × List ℕ → Run (List ℕ) =
      λ r. if r.0 then ok r.1 else scan_words map_bits words (b + 32) r.1 in
    let stay = after (ltb map_bits (b + 1 + 31)) found _ _ past (more found (omega (arith, h))) in
    let took : (if ltb map_bits (b + 1 + 31)
          then ok (found ++ (b ∷ []))
          else scan_words map_bits words (b + 32) (found ++ (b ∷ [])))
        ≡ ok ((found ++ (b ∷ [])) ++ first_bits map_bits words (b + 32)) =
      after (ltb map_bits (b + 1 + 31)) (found ++ (b ∷ [])) _ _ past
        (more (found ++ (b ∷ [])) (omega (arith, h, length-append found (b ∷ [])))) in
    elim (Bool-cases (k == 0)) [
      | inl e ↦
          let z : (k % 2 == 1) ≡ false = ground (arith, e) in
          rw (e, z) (more found (omega (arith, h)))
      | inr e ↦ rw (e) (
          ap (λ r. r >>= cont) word ∙ elim (Bool-cases (leb map_bits b)) [
            | inl l ↦ rw (l) (
                ap ok (sym (append_nil found))
                ∙ ap (λ s. ok (found ++ s))
                    (sym (first_bits-none map_bits (k ∷ words) b (ground (arith, l)))))
            | inr l ↦
                let u : ltb b map_bits ≡ true = ground (arith, l) in
                elim (Bool-cases (k % 2 == 1)) [
                  | inl o ↦ rw (l, u, o) (took ∙ ap ok (append_assoc found (b ∷ []) _))
                  | inr o ↦ rw (l, u, o) stay
                ]
          ])
    ]
