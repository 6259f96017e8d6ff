-- ===== src/IntrusiveList/Tests.antt =====
-- The list operations at concrete nodes: the root is 0.
use dd_framework.Base.{ℕ, refl, [], ◌∷◌, ◌++◌, arith, ℕ_discrete}
use dd_framework.IntrusiveList.{Nodes, push_back, remove}
use dd_framework.IntrusiveList.Ring.{Ring, Alone}
use dd_framework.IntrusiveList.Moves.{push_back-Ring, remove-Ring}

abbrev apart_nodes : Nodes ℕ
apart_nodes = record { prev = λ x. x; next = λ x. x }

abbrev one_node : Nodes ℕ
one_node = push_back ℕ_discrete apart_nodes 0 1

abbrev two_nodes : Nodes ℕ
two_nodes = push_back ℕ_discrete one_node 0 2

empty-Ring : Ring apart_nodes 0 []
empty-Ring = record { path = (refl, refl); root_out = tt; distinct = tt }

one-Ring : Ring one_node 0 (1 ∷ [])
one-Ring = push_back-Ring ℕ_discrete apart_nodes 0 1 [] empty-Ring tt (ground arith) refl

two-Ring : Ring two_nodes 0 (1 ∷ 2 ∷ [])
two-Ring =
    push_back-Ring ℕ_discrete one_node 0 2 (1 ∷ []) one-Ring (ground arith, tt) (ground arith)
      (unfold push_back in ground arith)

remove-Ring_example :
    Ring (remove ℕ_discrete two_nodes 2) 0 ((1 ∷ []) ++ [])
    × Alone (remove ℕ_discrete two_nodes 2) 2
remove-Ring_example = remove-Ring ℕ_discrete two_nodes 0 2 (1 ∷ []) [] two-Ring
