-- ===== src/Tests/Selection.antt =====
-- Selections in a small tree, and the theorems at them.
use aflnet_legion.Common.{
  ltb, not, zero, suc, ◌+◌, ℕ, ◌≡◌, ◌==◌, refl, true, false, Option, none, some, [], ◌∷◌, arith,
  if◌then◌else◌,
}
use aflnet_legion.States.{has}
use aflnet_legion.Tree.{Tree, modify, add_seed, construct_seed_with_queue_entry, is_golden}
use aflnet_legion.Tree.Selection.{Scores, best_child, tree_node_score}
use aflnet_legion.Tree.Selection.Outcome.{IsSelectable, select_tree_node-IsSelectable}
use aflnet_legion.Tree.Selection.Descent.{
  Choice, chosen, failed, no_fuel, select_tree_node, selection, select_from, step, descend, climb,
  leave, choose,
}
use aflnet_legion.Tree.Selection.Marks.{IsFinite}
use aflnet_legion.Tree.Selection.Termination.{has_returned, select_tree_node-Returns}
use aflnet_legion.Tree.Selection.Kept.{IsKeptAt, select_tree_node-IsKept}
use aflnet_legion.Tree.Selection.Best.{All, best_child-IsBest}
use aflnet_legion.Tests.Links.{parents_array, parent_of, children_from}
use aflnet_legion.Tests.Tree.{tree_at_start}

ltb_asym : (a b : ℕ) → ltb a b ≡ true → ltb b a ≡ false
ltb_asym a b h = ground (arith, h)

ltb_chain : (a b c : ℕ) → ltb a b ≡ false → ltb b c ≡ false → ltb a c ≡ false
ltb_chain a b c h k = ground (arith, h, k)

ltb_zero : (a : ℕ) → ltb a 0 ≡ false
ltb_zero a = ground arith

-- Scores that count discoveries, and a draw that always picks the first tie.
abbrev counts : Scores
counts = record {
  Score = ℕ;
  less = ltb;
  minus_infinity = 0;
  is_minus_infinity = λ a. not (ltb 0 a);
  node_uct = λ selected discovered parent_selected. discovered + 1;
  seed_uct = λ selected discovered node_selected. discovered + 1;
  draw = λ n. 0;
  draw_lt = λ n h. h;
  less_asym = ltb_asym;
  less_chain = ltb_chain;
  less_bottom = ltb_zero;
  bottom_iff = λ a. refl;
}

start_children : parents_array.children tree_at_start.links 0 ≡ 1 ∷ []
unfolding tree_at_start children_from
start_children = refl

best_child-IsBest_example :
    (c : ℕ) × (best_child counts tree_at_start 0 ≡ some c)
    × (has (parents_array.children tree_at_start.links 0) c ≡ true)
    × All
        (λ d.
          ltb (tree_node_score counts tree_at_start c) (tree_node_score counts tree_at_start d)
          ≡ false)
        (parents_array.children tree_at_start.links 0)
best_child-IsBest_example = best_child-IsBest counts tree_at_start 0 1 [] start_children

-- A seed at the simulation child of the root.
seeded : Tree parents_array
unfolding tree_at_start modify
seeded = modify tree_at_start 1 (add_seed (construct_seed_with_queue_entry 7) 0)

root_white : is_golden (seeded.data_of 0).colour ≡ false
unfolding seeded
root_white = refl

root_open : (seeded.data_of 0).fully_explored ≡ false
unfolding seeded
root_open = refl

two_parents : (n p : ℕ) → parent_of (none ∷ some 0 ∷ []) n ≡ some p → (n ≡ 1) × (p ≡ 0)
unfolding parent_of
two_parents zero p h = absurd (ground (arith, h))
two_parents (suc zero) p h = (refl, ground (arith, h))
two_parents (suc (suc n)) p h = absurd (ground (arith, h))

seeded_parents : (n p : ℕ) → parents_array.parent seeded.links n ≡ some p → (n ≡ 1) × (p ≡ 0)
unfolding seeded
seeded_parents n p h = two_parents n p h

seeded_child : (n c : ℕ) → has (parents_array.children seeded.links n) c ≡ true → (c ≡ 1) × (n ≡ 0)
seeded_child n c h = seeded_parents c n (parents_array.child_parent seeded.links n c h)

-- The height of the root and the depth of its child are 1.
seeded_finite : IsFinite parents_array seeded.links
seeded_finite = record {
  bound = 1;
  height = λ n. if n == 0 then 1 else 0;
  depth = λ n. if n == 0 then 0 else 1;
  parents = 0 ∷ [];
  height_le = λ n. ground arith;
  depth_le = λ n. ground arith;
  child_lower = λ n c h. ground (arith, (seeded_child n c h).0, (seeded_child n c h).1);
  parent_higher = λ n p h. ground (arith, (seeded_parents n p h).0, (seeded_parents n p h).1);
  is_listed = λ n p h. ground (arith, (seeded_parents n p h).1);
}

select_tree_node-IsSelectable_example : IsSelectable counts (select_tree_node counts 20 seeded 0)
select_tree_node-IsSelectable_example = select_tree_node-IsSelectable counts 20 seeded 0 root_white

select_tree_node-Returns_example : has_returned (select_tree_node counts 20 seeded 0) ≡ true
unfolding seeded_finite seeded
select_tree_node-Returns_example =
    select_tree_node-Returns counts seeded 0 20 seeded_finite root_open (omega arith)

select_tree_node-IsKept_example : IsKeptAt seeded (select_tree_node counts 20 seeded 0)
select_tree_node-IsKept_example = select_tree_node-IsKept counts seeded 20 0

abbrev is_chosen : Choice parents_array → Option (ℕ × ℕ)
is_chosen (chosen t n i) = some (n, i)
is_chosen failed = none
is_chosen no_fuel = none

-- The simulation child and its seed are chosen.
seeded_choice : is_chosen (selection counts 20 seeded 0) ≡ some (1, 0)
unfolding selection select_tree_node select_from step descend climb leave choose seeded
    tree_at_start parent_of children_from
seeded_choice = refl
