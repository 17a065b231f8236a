-- ===== src/Tree/Expansion/Labels.antt =====
-- `Expansion` (mcts.c) and the paths that the nodes of the tree store.
use aflnet_legion.Common.{refl, none, [], ◌∷◌}
use aflnet_legion.Region.{Region}
use aflnet_legion.Tree.{GNodes, put_absent, new_tree_node_data, white, Tree}
use aflnet_legion.Tree.Children.{no_child}
use aflnet_legion.Tree.Labels.{IsLabelled, append_simulation-IsSteady}
use aflnet_legion.Tree.Expansion.{initialisation}

-- The tree at the start is labelled.
pub initialisation-IsLabelled : (g : GNodes) → IsLabelled (initialisation g).0
unfolding initialisation
initialisation-IsLabelled g =
    let path = 0 ∷ [] in
    let bare : Tree g = record {
      links = g.single;
      data_of = λ x. new_tree_node_data 0 white path;
      khmn_nodes = put_absent (λ code. none) 0;
    } in
    (append_simulation-IsSteady bare g.root path g.single_node refl).1
      (λ n c h. absurd (no_child (g.children g.single n) c (g.single_leaf n) h))
