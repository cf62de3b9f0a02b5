-- ===== src/BinaryTree/Find.antt =====
-- What search prints.
use gjworks.Common.{
  ◌≡◌, refl, sym, Bool, true, false, ◌||◌, not, List, [], ◌∷◌, ◌++◌, if◌then◌else◌, Bool-cases, All,
  inl, inr, subst, arith,
}
use gjworks.Integer.{ℤ, less, same, same_sound, less_antisym}
use gjworks.BinaryTree.{Tree, leaf, node, print_inorder, search}
use gjworks.BinaryTree.Sorted.{AtMost, IsSorted, sorted_append}

-- Whether a number stands in a list.
abbrev pub member : ℤ → List ℤ → Bool
member v [] = false
member v (x ∷ xs) = if same v x then true else member v xs

member-append : (v : ℤ) (l r : List ℤ) → member v (l ++ r) ≡ (member v l || member v r)
member-append v [] r = refl
member-append v (x ∷ l) r = elim (Bool-cases (same v x)) [
  | inl e ↦ rw (e) refl
  | inr e ↦ rw (e) (member-append v l r)
]

-- Numbers above or below a bound that `v` is not within.
member_upper :
    (v d : ℤ) (r : List ℤ) → less v d ≡ true → All (λ x. AtMost d x) r → member v r ≡ false
member_upper v d [] h a = refl
member_upper v d (x ∷ r) h (a, b) = elim (Bool-cases (same v x)) [
  | inl e ↦ absurd (ground (arith, h, subst (λ y. less y d ≡ false) (sym (same_sound v x e)) a))
  | inr e ↦ rw (e) (member_upper v d r h b)
]

member_lower :
    (v d : ℤ) (l : List ℤ)
    → less v d ≡ false
    → same v d ≡ false
    → All (λ x. AtMost x d) l
    → member v l ≡ false
member_lower v d [] h n a = refl
member_lower v d (x ∷ l) h n (a, b) = elim (Bool-cases (same v x)) [
  | inl e ↦ absurd (
      ground
        (arith, n, less_antisym v d h (subst (λ y. less d y ≡ false) (sym (same_sound v x e)) a)))
  | inr e ↦ rw (e) (member_lower v d l h n b)
]

or_true : (b : Bool) → (b || true) ≡ true
or_true true = refl
or_true false = refl

or_false : (b : Bool) → (b || false) ≡ b
or_false true = refl
or_false false = refl

-- On a search tree, search prints "Node not found" exactly for the numbers that print_inorder does
-- not print.
pub search-missed :
    (t : Tree) (v : ℤ)
    → IsSorted (print_inorder t)
    → (search t v).missed ≡ not (member v (print_inorder t))
unfolding search print_inorder
search-missed leaf v s = refl
search-missed (node l d r) v s =
    let k = sorted_append (print_inorder l) d (print_inorder r) s in
    let m = member-append v (print_inorder l) (d ∷ print_inorder r) in
    elim (Bool-cases (same v d)) [
      | inl e ↦ rw (m, e, or_true (member v (print_inorder l))) refl
      | inr n ↦ elim (Bool-cases (less v d)) [
        | inl h ↦
            rw
              (
                m,
                n,
                h,
                member_upper v d (print_inorder r) h k.upper,
                or_false (member v (print_inorder l)),
              )
              (search-missed l v k.left)
        | inr h ↦
            rw (m, n, h, member_lower v d (print_inorder l) h n k.lower) (search-missed r v k.right)
      ]
    ]
