-- ===== src/BinaryTree.antt =====
-- Basic Datastructures/BinaryTree/test.c: insertion, printing and search in a binary search tree.
pub mod Find
pub mod Sorted
mod Tests
use gjworks.Common.{ℕ, Bool, true, false, List, [], ◌∷◌, ◌++◌, if◌then◌else◌}
use gjworks.Integer.{ℤ, pos, negsuc, less, same}

-- A pointer to `struct bintree`: NULL, or the left tree, the data and the right tree.
pub data Tree : Type 0 where
  leaf : Tree
  node : Tree → ℤ → Tree → Tree

-- `insert(&tree, val)`: what `*tree` is after it.
unfoldable pub insert : Tree → ℤ → Tree
insert leaf val = node leaf val leaf
insert (node l d r) val = if less val d then node (insert l val) d r else node l d (insert r val)

-- The printing functions give the numbers printed, in order.
unfoldable pub print_preorder : Tree → List ℤ
print_preorder leaf = []
print_preorder (node l d r) = d ∷ (print_preorder l ++ print_preorder r)

unfoldable pub print_inorder : Tree → List ℤ
print_inorder leaf = []
print_inorder (node l d r) = print_inorder l ++ (d ∷ print_inorder r)

-- The subtrees are printed in order, as the code has it.
unfoldable pub print_postorder : Tree → List ℤ
print_postorder leaf = []
print_postorder (node l d r) = print_inorder l ++ (print_inorder r ++ (d ∷ []))

-- `deletetree`: the data of the nodes that are freed, in order.
unfoldable pub deletetree : Tree → List ℤ
deletetree leaf = []
deletetree (node l d r) = deletetree l ++ (deletetree r ++ (d ∷ []))

-- What a call of search returns. A call that has called itself ends with no `return`.
pub data Returned : Type 0 where
  found : Tree → Returned
  null unspecified : Returned

-- `visited` are the numbers printed; `missed` says that "Node not found" was printed.
pub record Search : Type 0 where
  pub visited : List ℤ
  pub missed : Bool
  pub returned : Returned

abbrev below : ℤ → Search → Search
below d s = record { visited = d ∷ s.visited; missed = s.missed; returned = unspecified }

unfoldable pub search : Tree → ℤ → Search
search leaf val = record { visited = []; missed = true; returned = null }
search (node l d r) val =
    let left = search l val in
    let right = search r val in
    if same val d
    then record { visited = d ∷ []; missed = false; returned = found (node l d r) }
    else if less val d
    then below d left
    else below d right

-- The insertions of main, one after another.
unfoldable pub insert_all : Tree → List ℤ → Tree
insert_all t [] = t
insert_all t (val ∷ vals) = insert_all (insert t val) vals
