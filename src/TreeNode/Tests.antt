-- ===== src/TreeNode/Tests.antt =====
-- Small trees: node 1 with the children 2 and 3.
use dd_framework.Base.{◌≡◌, refl, [], ◌∷◌, ok, arith, update}
use dd_framework.TreeNode.{Tree, push_back_child, find_root, link_only, detach_sub_tree}
use dd_framework.TreeNode.Children.{IsChildren, Detached}
use dd_framework.TreeNode.Append.{push_back_child-IsChildren}
use dd_framework.TreeNode.Further.{detach-IsChildren}
use dd_framework.TreeNode.Root.{find_root-Rises}

abbrev no_tree : Tree
no_tree = record { parent = λ x. 0; child = λ x. 0; sibling_next = λ x. 0; sibling_prev = λ x. 0 }

abbrev one_child : Tree
one_child = link_only no_tree 1 2

one_child-IsChildren : IsChildren one_child 1 (2 ∷ [])
one_child-IsChildren = (refl, refl, (refl, refl), ((omega arith), tt), (tt, tt))

abbrev two_children : Tree
two_children = record {
  parent = update (update (λ x. 0) 2 1) 3 1;
  child = update (λ x. 0) 1 2;
  sibling_next = update (λ x. 0) 2 3;
  sibling_prev = update (update (λ x. 0) 2 3) 3 2;
}

two_children-IsChildren : IsChildren two_children 1 (2 ∷ 3 ∷ [])
two_children-IsChildren = (
  refl,
  refl,
  (refl, refl, refl, (refl, refl)),
  ((omega arith), ((omega arith), tt)),
  (((omega arith), tt), (tt, tt)),
)

push_back_child-IsChildren_example :
    (t' : Tree) × (push_back_child one_child 1 3 ≡ ok t') × IsChildren t' 1 (2 ∷ 3 ∷ [])
push_back_child-IsChildren_example =
    push_back_child-IsChildren one_child 1 3 (2 ∷ []) one_child-IsChildren (refl, refl, refl)
      (omega arith) ((omega arith), tt)

find_root-Rises_example : find_root 2 two_children 3 ≡ ok 1
find_root-Rises_example =
    find_root-Rises two_children 3 (1 ∷ []) 2 (refl, (omega arith), refl) (omega arith)

detach-IsChildren_example :
    (t' : Tree) × (detach_sub_tree two_children 2 ≡ ok t')
    × IsChildren t' 1 (3 ∷ [])
    × Detached t' 2
detach-IsChildren_example =
    detach-IsChildren two_children 1 2 [] (3 ∷ []) two_children-IsChildren (omega arith)
