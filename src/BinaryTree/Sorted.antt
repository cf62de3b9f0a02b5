-- ===== src/BinaryTree/Sorted.antt =====
-- The tree as the list that print_inorder prints.
use gjworks.Common.{
  ◌≡◌, refl, sym, ap, ◌∙◌, inl, inr, true, false, List, [], ◌∷◌, ◌++◌, if◌then◌else◌, Bool-cases,
  All,
}
use gjworks.Integer.{ℤ, less, less_trans_not, less_weak}
use gjworks.BinaryTree.{Tree, leaf, node, insert, print_inorder, insert_all}
use mathlib.Core.List.{Perm, perm_middle}
use mathlib.Core.List.Perm

-- `a <= b`
abbrev pub AtMost : ℤ → ℤ → Type 0
AtMost a b = less b a ≡ false

abbrev pub IsSorted : List ℤ → Type 0
IsSorted [] = Unit
IsSorted (x ∷ xs) = All (λ y. AtMost x y) xs × IsSorted xs

-- A number put behind the last one that is not larger.
abbrev pub place : ℤ → List ℤ → List ℤ
place v [] = v ∷ []
place v (x ∷ xs) = if less v x then v ∷ (x ∷ xs) else x ∷ place v xs

pub record Split (l : List ℤ) (d : ℤ) (r : List ℤ) : Type 0 where
  pub left : IsSorted l
  pub right : IsSorted r
  pub lower : All (λ x. AtMost x d) l
  pub upper : All (λ x. AtMost d x) r

All-append : (P : ℤ → Type 0) (l r : List ℤ) → All P (l ++ r) → All P l × All P r
All-append P [] r h = (tt, h)
All-append P (x ∷ l) r (h, k) = let (a, b) = All-append P l r k in ((h, a), b)

pub sorted_append : (l : List ℤ) (d : ℤ) (r : List ℤ) → IsSorted (l ++ (d ∷ r)) → Split l d r
sorted_append [] d r (h, s) = record { left = tt; right = s; lower = tt; upper = h }
sorted_append (x ∷ l) d r (h, s) =
    let k = sorted_append l d r s in
    let (a, (b, c)) = All-append (λ y. AtMost x y) l (d ∷ r) h in
    record { left = (a, k.left); right = k.right; lower = (b, k.lower); upper = k.upper }

place_left :
    (v : ℤ) (l : List ℤ) (d : ℤ) (r : List ℤ)
    → less v d ≡ true
    → place v (l ++ (d ∷ r)) ≡ place v l ++ (d ∷ r)
place_left v [] d r h = rw (h) refl
place_left v (x ∷ l) d r h = elim (Bool-cases (less v x)) [
  | inl e ↦ rw (e) refl
  | inr e ↦ rw (e) (ap (λ s. x ∷ s) (place_left v l d r h))
]

place_right :
    (v : ℤ) (l : List ℤ) (d : ℤ) (r : List ℤ)
    → less v d ≡ false
    → All (λ x. AtMost x d) l
    → place v (l ++ (d ∷ r)) ≡ l ++ (d ∷ place v r)
place_right v [] d r h a = rw (h) refl
place_right v (x ∷ l) d r h (a, b) =
    rw (less_trans_not x d v a h) (ap (λ s. x ∷ s) (place_right v l d r h b))

-- The refinement: on a search tree, insert is the insertion into the sorted list.
pub print_inorder-insert :
    (t : Tree) (v : ℤ)
    → IsSorted (print_inorder t)
    → print_inorder (insert t v) ≡ place v (print_inorder t)
unfolding insert print_inorder
print_inorder-insert leaf v s = refl
print_inorder-insert (node l d r) v s =
    let k = sorted_append (print_inorder l) d (print_inorder r) s in
    elim (Bool-cases (less v d)) [
      | inl e ↦ rw (e) (
          ap (λ x. x ++ (d ∷ print_inorder r)) (print_inorder-insert l v k.left)
          ∙ sym (place_left v (print_inorder l) d (print_inorder r) e))
      | inr e ↦ rw (e) (
          ap (λ x. print_inorder l ++ (d ∷ x)) (print_inorder-insert r v k.right)
          ∙ sym (place_right v (print_inorder l) d (print_inorder r) e k.lower))
    ]

place-All : (P : ℤ → Type 0) (v : ℤ) (xs : List ℤ) → P v → All P xs → All P (place v xs)
place-All P v [] p a = (p, tt)
place-All P v (x ∷ xs) p (a, b) = elim (Bool-cases (less v x)) [
  | inl e ↦ rw (e) (p, (a, b))
  | inr e ↦ rw (e) (a, place-All P v xs p b)
]

All-AtMost :
    (v x : ℤ) (xs : List ℤ) → AtMost v x → All (λ y. AtMost x y) xs → All (λ y. AtMost v y) xs
All-AtMost v x [] h a = tt
All-AtMost v x (y ∷ xs) h (a, b) = (less_trans_not v x y h a, All-AtMost v x xs h b)

place-IsSorted : (v : ℤ) (xs : List ℤ) → IsSorted xs → IsSorted (place v xs)
place-IsSorted v [] s = (tt, tt)
place-IsSorted v (x ∷ xs) (a, s) = elim (Bool-cases (less v x)) [
  | inl e ↦ rw (e) ((less_weak v x e, All-AtMost v x xs (less_weak v x e) a), (a, s))
  | inr e ↦ rw (e) (place-All (λ y. AtMost x y) v xs e a, place-IsSorted v xs s)
]

place-Perm : (v : ℤ) (xs : List ℤ) → Perm (v ∷ xs) (place v xs)
place-Perm v [] = Perm.refl (v ∷ [])
place-Perm v (x ∷ xs) = elim (Bool-cases (less v x)) [
  | inl e ↦ rw (e) (Perm.refl (v ∷ (x ∷ xs)))
  | inr e ↦ rw (e) (Perm.trans (Perm.swap _ _ _) (Perm.cons x (place-Perm v xs)))
]

-- From a search tree, insertions one after another print in order: the numbers come out sorted, and
-- they are those of the tree with those inserted.
pub insert_all-sorts :
    (t : Tree) (vals : List ℤ)
    → IsSorted (print_inorder t)
    → IsSorted (print_inorder (insert_all t vals))
      × Perm (vals ++ print_inorder t) (print_inorder (insert_all t vals))
unfolding insert_all
insert_all-sorts t [] s = (s, Perm.refl (print_inorder t))
insert_all-sorts t (v ∷ vals) s =
    let e = print_inorder-insert t v s in
    let (a, b) =
      insert_all-sorts (insert t v) vals (rw (e) (place-IsSorted v (print_inorder t) s)) in
    let moved : Perm (v ∷ (vals ++ print_inorder t)) (vals ++ (v ∷ print_inorder t)) =
      Perm.symm (perm_middle vals (print_inorder t)) in
    let put : Perm (vals ++ (v ∷ print_inorder t)) (vals ++ print_inorder (insert t v)) =
      rw (e) (Perm.append_left vals (place-Perm v (print_inorder t))) in
    (a, Perm.trans moved (Perm.trans put b))
