-- ===== src/Shell/Trim/Plain.antt =====
-- trimWhitespace on a word, and on the line that ends with it.
use gjworks.Common.{
  ℕ, zero, suc, ◌-◌, ◌≡◌, ◌≢◌, refl, ap, ◌∙◌, false, List, [], ◌∷◌, ◌++◌, ==_other, length,
  length-append, All, arith, append_nil, sym,
}
use gjworks.Shell.Trim.{is_space, trim_whitespace, skip_space, trim_end, char_at, take}

-- A character that is neither a blank nor the NUL.
abbrev pub IsPlain : ℕ → Type 0
IsPlain c = (is_space c ≡ false) × (c ≢ 0)

trim_end-here : (s : List ℕ) (n : ℕ) → is_space (char_at s n) ≡ false → trim_end s n ≡ n
unfolding trim_end
trim_end-here s zero h = refl
trim_end-here s (suc n) h = rw (h) refl

take-append : (s t : List ℕ) → take (length s) (s ++ t) ≡ s
take-append [] t = refl
take-append (c ∷ s) t = ap (λ l. c ∷ l) (take-append s t)

last-IsPlain :
    (c : ℕ) (w t : List ℕ)
    → All IsPlain (c ∷ w)
    → is_space (char_at ((c ∷ w) ++ t) (length w)) ≡ false
last-IsPlain c [] t h = h.0.0
last-IsPlain c (d ∷ w) t h = last-IsPlain d w t h.1

char_at-behind : (s : List ℕ) (c : ℕ) → char_at (s ++ (c ∷ [])) (length s) ≡ c
char_at-behind [] c = refl
char_at-behind (d ∷ s) c = char_at-behind s c

trim_whitespace-upto :
    (c : ℕ) (s : List ℕ) (n : ℕ)
    → IsPlain c
    → trim_end (c ∷ s) (length s) ≡ n
    → (trim_whitespace [] (length (c ∷ s)) (c ∷ s)).1 ≡ take (suc n) (c ∷ s)
unfolding trim_whitespace skip_space
trim_whitespace-upto c s n h e =
    let back : suc (length s) - 1 ≡ length s = omega arith in
    rw (h.0, ==_other c 0 h.1, ==_other (suc (length s)) 0 (omega arith), back, e) refl

-- A word is its own trimmed string.
pub trim_whitespace-word :
    (c : ℕ) (w : List ℕ)
    → All IsPlain (c ∷ w)
    → (trim_whitespace [] (length (c ∷ w)) (c ∷ w)).1 ≡ c ∷ w
trim_whitespace-word c w h =
    let last : is_space (char_at (c ∷ w) (length w)) ≡ false =
      ap (λ s. is_space (char_at s (length w))) (sym (append_nil (c ∷ w)))
      ∙ last-IsPlain c w [] h in
    let all = take-append (c ∷ w) [] in
    trim_whitespace-upto c w (length w) h.0 (trim_end-here (c ∷ w) (length w) last)
    ∙ (ap (λ s. take (suc (length w)) s) (sym (append_nil (c ∷ w))) ∙ all)

-- A newline behind a word goes.
pub trim_whitespace-line :
    (c : ℕ) (w : List ℕ)
    → All IsPlain (c ∷ w)
    → (trim_whitespace [] (length ((c ∷ w) ++ (10 ∷ []))) ((c ∷ w) ++ (10 ∷ []))).1 ≡ c ∷ w
unfolding trim_end is_space
trim_whitespace-line c w h =
    let long : length (w ++ (10 ∷ [])) ≡ suc (length w) =
      omega (arith, length-append w (10 ∷ [])) in
    let here = trim_end-here ((c ∷ w) ++ (10 ∷ [])) (length w) (last-IsPlain c w (10 ∷ []) h) in
    let end : trim_end ((c ∷ w) ++ (10 ∷ [])) (length (w ++ (10 ∷ []))) ≡ length w =
      rw (long, char_at-behind w 10) here in
    trim_whitespace-upto c (w ++ (10 ∷ [])) (length w) h.0 end ∙ take-append (c ∷ w) (10 ∷ [])
