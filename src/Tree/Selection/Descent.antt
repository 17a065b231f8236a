-- ===== src/Tree/Selection/Descent.antt =====
-- `select_tree_node` and `Selection` (mcts.c): the way down the tree to a simulation child, with the
-- way back up from nodes that have nothing left to explore. The assertions are in force: where one
-- fails, the program stops.
use aflnet_legion.Common.{
  ℕ, zero, suc, ◌+◌, Bool, true, false, ◌||◌, Option, none, some, ◌==◌, if◌then◌else◌,
}
use aflnet_legion.Tree.{GNodes, TreeNodeData, is_golden, is_black, Tree, modify, set_fully_explored}
use aflnet_legion.Tree.Selection.{
  Scores, tree_node_score, best_child, select_seed, is_fully_explored,
}

abbrev pub count_node : TreeNodeData → TreeNodeData
count_node d = record d { selected = d.selected + 1 }

module _ (g : GNodes) where
  -- Where `select_tree_node` stands, with the value of `parent_tree_node`: before the test of the
  -- outer loop, before the test of the inner one, behind the loops, or at an assertion that fails.
  pub data Place : Type 0 where
    descending climbing selected : Tree g → ℕ → Place
    stopped : Place

  -- What a call of `Selection` comes to: the tree, the simulation child and the index of its seed,
  -- a failed assertion, or the fuel's end.
  pub data Choice : Type 0 where
    chosen : Tree g → ℕ → ℕ → Choice
    failed : Choice
    no_fuel : Choice

module _ (f : Scores) {g : GNodes} where
  open f use {less, minus_infinity, is_minus_infinity}
  open g use {parent}

  abbrev pub has_black_parent : Tree g → ℕ → Bool
  has_black_parent t n = elim (parent t.links n) [
    | none ↦ false
    | some p ↦ is_black (t.data_of p).colour
  ]

  -- A round of the outer loop up to the inner one.
  unfoldable pub descend : Tree g → ℕ → Place g
  unfolding best_child
  descend t n = if is_golden (t.data_of n).colour then selected t n else elim (best_child f t n) [
    | none ↦ stopped
    | some c ↦
        let counted = modify t c count_node in
        if less minus_infinity (tree_node_score f counted c) || has_black_parent counted c
        then climbing counted c
        else stopped
  ]

  -- The body of the inner loop, and the assertion that follows when it breaks.
  unfoldable pub leave : Tree g → ℕ → Place g
  unfolding is_fully_explored
  leave t n = elim (parent t.links n) [
    | none ↦ stopped
    | some p ↦ elim (is_fully_explored f t p) [
      | none ↦ stopped
      | some explored ↦
          if explored
          then climbing (modify t p (set_fully_explored true)) p
          else if less minus_infinity (tree_node_score f t p)
          then descending t p
          else stopped
    ]
  ]

  unfoldable pub climb : Tree g → ℕ → Place g
  unfolding leave
  climb t n = if is_minus_infinity (tree_node_score f t n) then leave t n else descending t n

  unfoldable pub step : Place g → Place g
  unfolding descend climb
  step (descending t n) = descend t n
  step (climbing t n) = climb t n
  step (selected t n) = selected t n
  step stopped = stopped

  unfoldable pub select_from : ℕ → Place g → Place g
  unfolding step
  select_from zero p = p
  select_from (suc fuel) p = select_from fuel (step p)

  unfoldable pub select_tree_node : ℕ → Tree g → ℕ → Place g
  unfolding select_from
  select_tree_node fuel t n = select_from fuel (descending (modify t n count_node) n)

  -- The count that `khmn_nodes` has for an id.
  abbrev pub count_id : ℕ → Tree g → Option (Tree g)
  count_id id t = elim (t.khmn_nodes id) [
    | none ↦ none
    | some count ↦
        some (record t { khmn_nodes = λ x. if x == id then some (1 + count) else t.khmn_nodes x })
  ]

  -- The part of `Selection` behind the selection of a node. The loop that would select again starts
  -- with an assertion that the simulation child is the root.
  unfoldable pub choose : Tree g → ℕ → Choice g
  unfolding select_seed
  choose t n = elim (parent t.links n) [
    | none ↦ failed
    | some p ↦
        if less minus_infinity (tree_node_score f t p)
        then elim (count_id (t.data_of p).id t) [
          | none ↦ failed
          | some counted ↦
              let (seed, after) = select_seed f counted n in
              elim seed [ none ↦ failed | some i ↦ chosen after n i ]
        ]
        else failed
  ]

  abbrev pub choose_at : Place g → Choice g
  choose_at (descending t n) = no_fuel
  choose_at (climbing t n) = no_fuel
  choose_at (selected t n) = choose t n
  choose_at stopped = failed

  unfoldable pub selection : ℕ → Tree g → ℕ → Choice g
  unfolding select_tree_node choose
  selection fuel t root = elim (parent t.links root) [
    | none ↦ choose_at (select_tree_node fuel t root)
    | some p ↦ failed
  ]
