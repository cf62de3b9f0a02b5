-- ===== src/Integer.antt =====
-- The signed `int`s of the exercises, as far as they are compared: `<` and `==`.
use gjworks.Common.{ℕ, ◌≡◌, Bool, true, false, ltb, ◌==◌, List, [], ◌∷◌, All, arith}

pub data ℤ : Type 0 where
  pos negsuc : ℕ → ℤ

-- `a < b`
unfoldable pub less : ℤ → ℤ → Bool
less (pos a) (pos b) = ltb a b
less (pos a) (negsuc b) = false
less (negsuc a) (pos b) = true
less (negsuc a) (negsuc b) = ltb b a

-- `a == b`
unfoldable pub same : ℤ → ℤ → Bool
same (pos a) (pos b) = a == b
same (negsuc a) (negsuc b) = a == b
same _ _ = false

pub less_trans : (a b c : ℤ) → less a b ≡ true → less b c ≡ true → less a c ≡ true
unfolding less
less_trans a b c h k = ground arith

-- `a <= b <= c`, with `<=` as the negation of `<`.
pub less_trans_not : (a b c : ℤ) → less b a ≡ false → less c b ≡ false → less c a ≡ false
unfolding less
less_trans_not a b c h k = ground arith

pub less_weak : (a b : ℤ) → less a b ≡ true → less b a ≡ false
unfolding less
less_weak a b h = ground arith

pub less_irrefl : (a : ℤ) → less a a ≡ false
unfolding less
less_irrefl a = ground arith

pub same_sound : (a b : ℤ) → same a b ≡ true → a ≡ b
unfolding same
same_sound a b h = ground arith

pub same_refl : (a : ℤ) → same a a ≡ true
unfolding same
same_refl a = ground arith

pub less_antisym : (a b : ℤ) → less a b ≡ false → less b a ≡ false → same a b ≡ true
unfolding less same
less_antisym a b h k = ground arith

-- In strictly increasing order.
abbrev pub IsIncreasing : List ℤ → Type 0
IsIncreasing [] = Unit
IsIncreasing (v ∷ a) = All (λ w. less v w ≡ true) a × IsIncreasing a

-- A number that is smaller than the first is smaller than all.
pub All-less :
    (x v : ℤ) (a : List ℤ)
    → less x v ≡ true
    → All (λ w. less v w ≡ true) a
    → All (λ w. less x w ≡ true) a
All-less x v [] h k = tt
All-less x v (w ∷ a) h (k, r) = (less_trans x v w h k, All-less x v a h r)

pub less_other : (a b : ℤ) → same a b ≡ false → less a b ≡ false → less b a ≡ true
unfolding less same
less_other a b h k = ground arith
