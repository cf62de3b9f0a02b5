-- ===== src/BinaryTree/Tests.antt =====
-- The tree of main.
use gjworks.Common.{◌≡◌, refl, List, [], ◌∷◌, ◌++◌}
use gjworks.Integer.{ℤ, pos, negsuc, less}
use gjworks.BinaryTree.{Tree, leaf, node, insert, insert_all, print_inorder}
use gjworks.BinaryTree.Sorted.{IsSorted, insert_all-sorts}
use mathlib.Core.List.{Perm}

abbrev first_four : List ℤ
first_four = pos 9 ∷ pos 21 ∷ pos 90 ∷ pos 1 ∷ []

abbrev last_four : List ℤ
last_four = pos 67 ∷ pos 37 ∷ pos 92 ∷ negsuc 76 ∷ []

abbrev tree : Tree
tree = node (node leaf (pos 1) leaf) (pos 9) (node leaf (pos 21) (node leaf (pos 90) leaf))

tree-insert_all : insert_all leaf first_four ≡ tree
unfolding insert_all insert less
tree-insert_all = refl

tree-IsSorted : IsSorted (print_inorder tree)
unfolding print_inorder less
tree-IsSorted = ((refl, (refl, (refl, tt))), ((refl, (refl, tt)), ((refl, tt), (tt, tt))))

insert_all-sorts_example :
    IsSorted (print_inorder (insert_all tree last_four))
    × Perm (last_four ++ print_inorder tree) (print_inorder (insert_all tree last_four))
insert_all-sorts_example = insert_all-sorts tree last_four tree-IsSorted
