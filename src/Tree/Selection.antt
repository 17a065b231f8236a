-- ===== src/Tree/Selection.antt =====
-- The choice of a child and of a seed in the search tree (mcts.c). The scores are floating-point
-- numbers: their type, their order and the formula on the counts are parameters, and so is the
-- number that `g_rand_int_range` draws. Assertions are in force: where one fails the result is
-- `none`.
pub mod Best
pub mod Descent
pub mod Outcome
pub mod Marks
pub mod Termination
pub mod Kept
use aflnet_legion.Common.{
  ℕ, zero, suc, ◌+◌, ◌≤◌, ◌<◌, ◌≡◌, Bool, true, false, not, ◌&&◌, Option, none, some, List, [], ◌∷◌,
  ◌++◌, ◌==◌, if◌then◌else◌, length, get_elem?, map,
}
use aflnet_legion.Tree.{GNodes, SeedInfo, TreeNodeData, is_golden, is_black, Tree, modify}

-- What the program uses of the type `double`, and that the scores are no NaN: `<` is then the order
-- of a chain with `-INFINITY` at its lower end.
pub record Scores : Type 1 where
  pub Score : Type 0
  pub less : Score → Score → Bool
  pub minus_infinity : Score
  pub is_minus_infinity : Score → Bool
  -- the sum of the two scores of a node, on its counts and the count of its parent, if any
  pub node_uct : ℕ → ℕ → Option ℕ → Score
  -- the same for a seed and its node's count
  pub seed_uct : ℕ → ℕ → ℕ → Score
  -- `g_rand_int_range` from 0 to a bound
  pub draw : ℕ → ℕ
  pub draw_lt : (n : ℕ) → 1 ≤ n → draw n < n
  pub less_asym : (a b : Score) → less a b ≡ true → less b a ≡ false
  pub less_chain : (a b c : Score) → less a b ≡ false → less b c ≡ false → less a c ≡ false
  pub less_bottom : (a : Score) → less a minus_infinity ≡ false
  pub bottom_iff : (a : Score) → is_minus_infinity a ≡ not (less minus_infinity a)

-- The count of selections of one of the seeds.
abbrev pub count_selected : ℕ → List SeedInfo → List SeedInfo
count_selected i [] = []
count_selected zero (s ∷ seeds) = record s { selected = s.selected + 1 } ∷ seeds
count_selected (suc i) (s ∷ seeds) = s ∷ count_selected i seeds

module _ (f : Scores) where
  open f use {Score, less, minus_infinity, draw, node_uct, seed_uct, is_minus_infinity}

  -- `max_score` and the array `ties` as far as it is filled.
  pub record Ties : Type 0 where
    pub max_score : Score
    pub ties : List ℕ

  -- One round of the loop.
  unfoldable pub tie : ℕ → Score → Ties → Ties
  tie index score t = if less score t.max_score then t else record {
    max_score = score;
    ties = (if less t.max_score score then [] else t.ties) ++ index ∷ [];
  }

  unfoldable pub tie_all : ℕ → List Score → Ties → Ties
  unfolding tie
  tie_all index [] t = t
  tie_all index (score ∷ scores) t = tie_all (index + 1) scores (tie index score t)

  -- The index of the winner; with no candidate the source draws from an empty range.
  unfoldable pub best_index : List Score → Option ℕ
  unfolding tie_all
  best_index [] = none
  best_index (score ∷ []) = some 0
  best_index (score ∷ second ∷ scores) =
      let all = score ∷ second ∷ scores in
      let ties = (tie_all 0 all (record { max_score = minus_infinity; ties = [] })).ties in
      if length ties == 1 then get_elem? ties 0 else get_elem? ties (draw (length ties))

  -- The winner of a list of nodes.
  unfoldable pub best_of : (ℕ → Score) → List ℕ → Option ℕ
  unfolding best_index
  best_of score nodes = elim (best_index (map score nodes)) [
    | none ↦ none
    | some i ↦ get_elem? nodes i
  ]

  abbrev pub seed_score : TreeNodeData → SeedInfo → Score
  seed_score d s = seed_uct s.selected s.discovered d.selected

  module _ {g : GNodes} where
    open g use {children, parent}

    -- The mode `UCT`, to which `SCORE_FUNCTION` is set.
    unfoldable pub tree_node_score : Tree g → ℕ → Score
    tree_node_score t n =
        let d = t.data_of n in
        let no_seed = is_golden d.colour && length d.seeds == 0 in
        let parent_selected : Option ℕ = elim (parent t.links n) [
          | none ↦ none
          | some p ↦ some (t.data_of p).selected
        ] in
        if d.fully_explored
        then minus_infinity
        else if no_seed
        then minus_infinity
        else node_uct d.selected d.discovered parent_selected

    unfoldable pub best_child : Tree g → ℕ → Option ℕ
    unfolding best_of tree_node_score
    best_child t n = best_of (tree_node_score t) (children t.links n)

    unfoldable pub best_seed : Tree g → ℕ → Option ℕ
    unfolding best_index
    best_seed t n = let d = t.data_of n in best_index (map (seed_score d) d.seeds)

    -- The seed is chosen and counted.
    unfoldable pub select_seed : Tree g → ℕ → Option ℕ × Tree g
    unfolding best_seed modify
    select_seed t n = elim (best_seed t n) [
      | none ↦ (none, t)
      | some i ↦
          (some i, modify t n (λ (d : TreeNodeData). record d { seeds = count_selected i d.seeds }))
    ]

    -- The answer for a black node with these children; `none` where an assertion fails: it has one
    -- child, which is no simulation child.
    unfoldable pub explored_below : Tree g → List ℕ → Option Bool
    unfolding tree_node_score
    explored_below t [] = none
    explored_below t (c ∷ []) =
        if is_golden (t.data_of c).colour
        then none
        else some (is_minus_infinity (tree_node_score t c))
    explored_below t (c ∷ second ∷ rest) = none

    unfoldable pub is_fully_explored : Tree g → ℕ → Option Bool
    unfolding explored_below
    is_fully_explored t n =
        let d = t.data_of n in
        let below = explored_below t (children t.links n) in
        if d.fully_explored
        then some true
        else if not (is_black d.colour)
        then some false
        else below
