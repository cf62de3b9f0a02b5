-- ===== src/DupRemoval/Sets.antt =====
-- The union of two increasing runs of numbers.
use gjworks.Common.{
  ℕ, suc, ◌+◌, ◌≡◌, inl, inr, refl, sym, subst, ap, Bool, true, false, ◌||◌, List, [], ◌∷◌,
  if◌then◌else◌, length, Bool-cases, All, arith,
}
use gjworks.Integer.{ℤ, IsIncreasing, All-less, less_other, less, same, same_sound}

-- The numbers of two runs in order, those of both once, if the runs are increasing; and how many
-- are in both.
abbrev pub into : ℤ → (List ℤ → List ℤ) → List ℤ → List ℤ
into x f [] = x ∷ f []
into x f (y ∷ ys) =
    let behind : List ℤ = into x f ys in
    if same x y then x ∷ f ys else if less x y then x ∷ f (y ∷ ys) else y ∷ behind

abbrev pub union : List ℤ → List ℤ → List ℤ
union [] ys = ys
union (x ∷ xs) ys = into x (union xs) ys

abbrev pub count_into : ℤ → (List ℤ → ℕ) → List ℤ → ℕ
count_into x f [] = f []
count_into x f (y ∷ ys) =
    let behind : ℕ = count_into x f ys in
    if same x y then suc (f ys) else if less x y then f (y ∷ ys) else behind

abbrev pub common : List ℤ → List ℤ → ℕ
common [] ys = 0
common (x ∷ xs) ys = count_into x (common xs) ys

pub union_nil : (xs : List ℤ) → union xs [] ≡ xs
union_nil [] = refl
union_nil (x ∷ xs) = ap (λ l. x ∷ l) (union_nil xs)

pub common_nil : (xs : List ℤ) → common xs [] ≡ 0
common_nil [] = refl
common_nil (x ∷ xs) = common_nil xs

length-into :
    (x : ℤ) (xs ys : List ℤ)
    → ((zs : List ℤ) → length (union xs zs) + common xs zs ≡ length xs + length zs)
    → length (into x (union xs) ys) + count_into x (common xs) ys ≡ suc (length xs) + length ys
length-into x xs [] h = omega (arith, h [])
length-into x xs (y ∷ ys) h = elim (Bool-cases (same x y)) [
  | inl e ↦ rw (e) (omega (arith, h ys))
  | inr e ↦ elim (Bool-cases (less x y)) [
    | inl l ↦ rw (e, l) (omega (arith, h (y ∷ ys)))
    | inr g ↦ rw (e, g) (omega (arith, length-into x xs ys h))
  ]
]

-- What is common counts once.
pub length-union : (xs ys : List ℤ) → length (union xs ys) + common xs ys ≡ length xs + length ys
length-union [] ys = omega arith
length-union (x ∷ xs) ys = length-into x xs ys (length-union xs)

into-All :
    (P : ℤ → Type 0) (x : ℤ) (xs ys : List ℤ)
    → P x
    → ((zs : List ℤ) → All P zs → All P (union xs zs))
    → All P ys
    → All P (into x (union xs) ys)
into-All P x xs [] h f a = (h, f [] tt)
into-All P x xs (y ∷ ys) h f (k, a) = elim (Bool-cases (same x y)) [
  | inl e ↦ rw (e) (h, f ys a)
  | inr e ↦ elim (Bool-cases (less x y)) [
    | inl l ↦ rw (e, l) (h, f (y ∷ ys) (k, a))
    | inr g ↦ rw (e, g) (k, into-All P x xs ys h f a)
  ]
]

pub union-All : (P : ℤ → Type 0) (xs ys : List ℤ) → All P xs → All P ys → All P (union xs ys)
union-All P [] ys h a = a
union-All P (x ∷ xs) ys (h, k) a = into-All P x xs ys h (λ zs b. union-All P xs zs k b) a

into-IsIncreasing :
    (x : ℤ) (xs ys : List ℤ)
    → All (λ w. less x w ≡ true) xs
    → ((zs : List ℤ) → IsIncreasing zs → IsIncreasing (union xs zs))
    → IsIncreasing ys
    → IsIncreasing (into x (union xs) ys)
into-IsIncreasing x xs [] h f up = (rw (union_nil xs) h, f [] tt)
into-IsIncreasing x xs (y ∷ ys) h f (k, up) = elim (Bool-cases (same x y)) [
  | inl e ↦
      let eq = same_sound x y e in
      rw (e) (
        union-All (λ w. less x w ≡ true) xs ys h
            (subst (λ v. All (λ w. less v w ≡ true) ys) (sym eq) k),
        f ys up,
      )
  | inr e ↦ elim (Bool-cases (less x y)) [
    | inl l ↦
        rw (e, l)
          (
            union-All (λ w. less x w ≡ true) xs (y ∷ ys) h (l, All-less x y ys l k),
            f (y ∷ ys) (k, up),
          )
    | inr g ↦
        let l = less_other x y e g in
        rw (e, g)
          (
            into-All (λ w. less y w ≡ true) x xs ys l
                (λ zs b. union-All (λ w. less y w ≡ true) xs zs (All-less y x xs l h) b) k,
            into-IsIncreasing x xs ys h f up,
          )
  ]
]

pub union-IsIncreasing :
    (xs ys : List ℤ) → IsIncreasing xs → IsIncreasing ys → IsIncreasing (union xs ys)
union-IsIncreasing [] ys h up = up
union-IsIncreasing (x ∷ xs) ys (h, k) up =
    into-IsIncreasing x xs ys h (λ zs u. union-IsIncreasing xs zs k u) up

-- Whether the number is in the list.
abbrev pub has : ℤ → List ℤ → Bool
has v [] = false
has v (x ∷ xs) = same x v || has v xs

or_assoc : (a b c : Bool) → (a || (b || c)) ≡ ((a || b) || c)
or_assoc true b c = refl
or_assoc false b c = refl

or_twice : (a b c : Bool) → (a || (b || c)) ≡ ((a || b) || (a || c))
or_twice true b c = refl
or_twice false b c = refl

or_swap : (a b c : Bool) → (b || (a || c)) ≡ (a || (b || c))
or_swap true true c = refl
or_swap true false c = refl
or_swap false b c = refl

has-into :
    (v x : ℤ) (xs ys : List ℤ)
    → ((zs : List ℤ) → has v (union xs zs) ≡ (has v xs || has v zs))
    → has v (into x (union xs) ys) ≡ ((same x v || has v xs) || has v ys)
has-into v x xs [] h = rw (h []) (or_assoc (same x v) (has v xs) false)
has-into v x xs (y ∷ ys) h = elim (Bool-cases (same x y)) [
  | inl e ↦
      let eq = same_sound x y e in rw (e, h ys, sym eq) (or_twice (same x v) (has v xs) (has v ys))
  | inr e ↦ elim (Bool-cases (less x y)) [
    | inl l ↦ rw (e, l, h (y ∷ ys)) (or_assoc (same x v) (has v xs) (same y v || has v ys))
    | inr g ↦ rw (e, g, has-into v x xs ys h) (or_swap (same x v || has v xs) (same y v) (has v ys))
  ]
]

pub has-union : (v : ℤ) (xs ys : List ℤ) → has v (union xs ys) ≡ (has v xs || has v ys)
has-union v [] ys = refl
has-union v (x ∷ xs) ys = has-into v x xs ys (has-union v xs)
