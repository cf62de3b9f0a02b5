-- ===== src/Shell/Trim.antt =====
-- Minix_shell/GRS_Source_Code/grsShellUtils.c: trimWhitespace.
pub mod Plain
use gjworks.Common.{
  ℕ, zero, suc, ◌-◌, ◌≤◌, ◌<◌, ◌≡◌, ◌≢◌, refl, sym, ap, ◌∙◌, ◌⊎◌, inl, inr, Bool, true, false, ◌||◌,
  ◌&&◌, List, [], ◌∷◌, ◌++◌, ◌==◌, leb, if◌then◌else◌, Bool-cases, ==_other, subst, All, length,
  append_nil, arith,
}

-- `isspace`, in the C locale.
unfoldable pub is_space : ℕ → Bool
is_space c = (c == 32) || (leb 9 c && leb c 13)

-- `*(s + i)`, with 0 for the NUL.
abbrev pub char_at : List ℕ → ℕ → ℕ
char_at [] i = 0
char_at (c ∷ s) zero = c
char_at (c ∷ s) (suc i) = char_at s i

abbrev pub take : ℕ → List ℕ → List ℕ
take zero s = []
take (suc n) [] = []
take (suc n) (c ∷ s) = c ∷ take n s

abbrev pub drop : ℕ → List ℕ → List ℕ
drop zero s = s
drop (suc n) [] = []
drop (suc n) (c ∷ s) = drop n s

-- `while (isspace(*in)) in++;`
unfoldable pub skip_space : List ℕ → List ℕ
skip_space [] = []
skip_space (c ∷ s) = if is_space c then skip_space s else c ∷ s

-- `while ((end > in) && isspace(*end)) end--;`, with `end` counted from `in`.
unfoldable pub trim_end : List ℕ → ℕ → ℕ
trim_end s zero = zero
trim_end s (suc end) = if is_space (char_at s (suc end)) then trim_end s end else suc end

-- The result, and the string in `out` after the call.
unfoldable pub trim_whitespace : List ℕ → ℕ → List ℕ → ℕ × List ℕ
trim_whitespace out in_len s =
    let from = skip_space s in
    let out_len = suc (trim_end from (length from - 1)) in
    if in_len == 0
    then (0, out)
    else if char_at from 0 == 0
    then (1, [])
    else (out_len, take out_len from)

-- A C string has no NUL inside.
abbrev pub IsString : List ℕ → Type 0
IsString s = All (λ c. c ≢ 0) s

abbrev pub IsSpace : List ℕ → Type 0
IsSpace s = All (λ c. is_space c ≡ true) s

-- What is left of a string `s` with blanks before and after it, if that is not empty: then `s` has a
-- character that is no blank.
pub record Trimmed (s : List ℕ) (len : ℕ) (out : List ℕ) : Type 0 where
  pub before : List ℕ
  pub after : List ℕ
  pub whole : s ≡ before ++ (out ++ after)
  pub blank_before : IsSpace before
  pub blank_after : IsSpace after
  pub len_out : len ≡ length out
  pub not_empty : 0 < len
  pub starts : is_space (char_at out 0) ≡ false
  pub ends : is_space (char_at out (len - 1)) ≡ false

take-drop : (n : ℕ) (s : List ℕ) → s ≡ take n s ++ drop n s
take-drop zero s = refl
take-drop (suc n) [] = refl
take-drop (suc n) (c ∷ s) = ap (λ t. c ∷ t) (take-drop n s)

drop-char : (n : ℕ) (s : List ℕ) → n < length s → drop n s ≡ char_at s n ∷ drop (suc n) s
drop-char n [] h = absurd (omega arith)
drop-char zero (c ∷ s) h = refl
drop-char (suc n) (c ∷ s) h = drop-char n s (omega arith)

drop-length : (s : List ℕ) → drop (length s) s ≡ []
drop-length [] = refl
drop-length (c ∷ s) = drop-length s

length-take : (n : ℕ) (s : List ℕ) → n ≤ length s → n ≡ length (take n s)
length-take zero s h = refl
length-take (suc n) [] h = absurd (omega arith)
length-take (suc n) (c ∷ s) h = ap suc (length-take n s (omega arith))

char_at-take : (n i : ℕ) (s : List ℕ) → i < n → char_at (take n s) i ≡ char_at s i
char_at-take zero i s h = absurd (omega arith)
char_at-take (suc n) i [] h = refl
char_at-take (suc n) zero (c ∷ s) h = refl
char_at-take (suc n) (suc i) (c ∷ s) h = char_at-take n i s (omega arith)

-- The end that the loop finds: blanks from there on, and none at it.
trim_end-blank :
    (s : List ℕ) (end : ℕ)
    → end < length s
    → is_space (char_at s 0) ≡ false
    → IsSpace (drop (suc end) s)
    → (trim_end s end ≤ end)
      × (IsSpace (drop (suc (trim_end s end)) s) × (is_space (char_at s (trim_end s end)) ≡ false))
unfolding trim_end
trim_end-blank s zero h f b = (omega arith, (b, f))
trim_end-blank s (suc end) h f b = elim (Bool-cases (is_space (char_at s (suc end)))) [
  | inl e ↦
      let (x, (y, z)) =
        trim_end-blank s end (omega arith) f (rw (drop-char (suc end) s h) (e, b)) in
      rw (e) (omega (arith, x), (y, z))
  | inr e ↦ rw (e) (omega arith, (b, e))
]

record Skipped (s from : List ℕ) : Type 0 where
  before : List ℕ
  whole : s ≡ before ++ from
  blank : IsSpace before
  string : IsString from
  starts : (from ≡ []) ⊎ (is_space (char_at from 0) ≡ false)

skip_space-Skipped : (s : List ℕ) → IsString s → Skipped s (skip_space s)
unfolding skip_space
skip_space-Skipped [] h = record {
  before = [];
  whole = refl;
  blank = tt;
  string = tt;
  starts = inl refl;
}
skip_space-Skipped (c ∷ s) (h, k) = elim (Bool-cases (is_space c)) [
  | inl e ↦
      let r = skip_space-Skipped s k in
      rw (e) (record {
        before = c ∷ r.before;
        whole = ap (λ t. c ∷ t) r.whole;
        blank = (e, r.blank);
        string = r.string;
        starts = r.starts;
      })
  | inr e ↦
      rw (e) (record { before = []; whole = refl; blank = tt; string = (h, k); starts = inr e })
]

-- The string from its first character that is no blank, `last` being the index of its last one.
ending_at :
    (s from : List ℕ) (last : ℕ)
    → Skipped s from
    → is_space (char_at from 0) ≡ false
    → suc last ≡ length from
    → Trimmed s (suc (trim_end from last)) (take (suc (trim_end from last)) from)
ending_at s from last k f n =
    let e = trim_end from last in
    let none : drop (suc last) from ≡ [] = rw (n) (drop-length from) in
    let (le, (blank, end)) = trim_end-blank from last (omega (arith, n)) f (rw (none) tt) in
    let back : suc e - 1 ≡ e = omega arith in
    record {
      before = k.before;
      after = drop (suc e) from;
      whole = k.whole ∙ ap (λ x. k.before ++ x) (take-drop (suc e) from);
      blank_before = k.blank;
      blank_after = blank;
      len_out = length-take (suc e) from (omega (arith, le, n));
      not_empty = omega arith;
      starts = ap is_space (char_at-take (suc e) 0 from (omega arith)) ∙ f;
      ends = rw (back) (ap is_space (char_at-take (suc e) e from (omega arith)) ∙ end);
    }

started : (c : ℕ) (t : List ℕ) → ((c ∷ t) ≡ []) ⊎ (is_space c ≡ false) → is_space c ≡ false
started c t (inl e) = absurd (ground (arith, e))
started c t (inr e) = e

blank_or_ending :
    (s from : List ℕ)
    → Skipped s from
    → let len = suc (trim_end from (length from - 1)) in
      let r : ℕ × List ℕ = if char_at from 0 == 0 then (1, []) else (len, take len from) in
      (IsSpace s × (r ≡ (1, []))) ⊎ Trimmed s r.0 r.1
blank_or_ending s [] k = inl (subst IsSpace (sym (k.whole ∙ append_nil k.before)) k.blank, refl)
blank_or_ending s (c ∷ t) k =
    let (real, _) = k.string in
    rw (==_other c 0 real)
      (inr (ending_at s (c ∷ t) (length (c ∷ t) - 1) k (started c t k.starts) (omega arith)))

-- A string of blanks only gives the empty string and the result 1; any other gives what is left of
-- it without the blanks before and after it, which is not empty, and its length; both for an `in_len`
-- that is not 0.
pub trim_whitespace-Trimmed :
    (out s : List ℕ) (in_len : ℕ)
    → in_len ≢ 0
    → IsString s
    → (IsSpace s × (trim_whitespace out in_len s ≡ (1, [])))
      ⊎ Trimmed s (trim_whitespace out in_len s).0 (trim_whitespace out in_len s).1
unfolding trim_whitespace
trim_whitespace-Trimmed out s in_len h k =
    rw (==_other in_len 0 h) (blank_or_ending s (skip_space s) (skip_space-Skipped s k))
