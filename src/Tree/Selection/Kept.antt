-- ===== src/Tree/Selection/Kept.antt =====
-- What `select_tree_node` (mcts.c) changes in the tree.
use aflnet_legion.Common.{
  ℕ, zero, suc, ◌≤◌, ◌≡◌, refl, sym, ap, subst, ◌∙◌, Bool, true, false, ◌||◌, some, if◌then◌else◌,
  arith, Bool-cases, Option-cases, inl, inr, ◌⊎◌, ℕ_discrete,
}
use aflnet_legion.Tree.{GNodes, TreeNodeData, is_golden, is_black, Tree, modify, set_fully_explored}
use aflnet_legion.Tree.Selection.{Scores, tree_node_score, best_child, is_fully_explored}
use aflnet_legion.Tree.Selection.Descent.{
  Place, descending, climbing, selected, stopped, descend, leave, climb, step, select_from,
  select_tree_node, count_node, has_black_parent,
}
use aflnet_legion.Tree.Selection.Marks.{mark, modify_here, modify_other}

-- The data without what a selection may change.
abbrev pub unselected : TreeNodeData → TreeNodeData
unselected d = record d { selected = 0; fully_explored = false }

-- The same data but for a larger count of selections, and a mark that a black node may have got.
pub record IsVisited (before after : TreeNodeData) : Type 0 where
  pub same : unselected after ≡ unselected before
  pub count : before.selected ≤ after.selected
  pub mark :
      after.fully_explored ≡ before.fully_explored
      ⊎ (is_black before.colour ≡ true) × (after.fully_explored ≡ true)

same-IsVisited : (d : TreeNodeData) → IsVisited d d
same-IsVisited d = record { same = refl; count = omega arith; mark = inl refl }

IsVisited-trans : (a b c : TreeNodeData) → IsVisited a b → IsVisited b c → IsVisited a c
IsVisited-trans a b c first second = record {
  same = second.same ∙ first.same;
  count = omega (arith, first.count, second.count);
  mark = elim second.mark [
    | inl kept ↦ elim first.mark [
      | inl kept_before ↦ inl (kept ∙ kept_before)
      | inr (black, marked) ↦ inr (black, kept ∙ marked)
    ]
    | inr (black, marked) ↦
        inr (ap is_black (sym (ap (λ (d : TreeNodeData). d.colour) first.same)) ∙ black, marked)
  ];
}

module _ {g : GNodes} where
  -- The links and `khmn_nodes` stay, and so does what the nodes hold but for counts and marks.
  pub record IsKept (t u : Tree g) : Type 0 where
    pub links : u.links ≡ t.links
    pub khmn_nodes : u.khmn_nodes ≡ t.khmn_nodes
    pub visited : (x : ℕ) → IsVisited (t.data_of x) (u.data_of x)

  same-IsKept : (t : Tree g) → IsKept t t
  same-IsKept t = record {
    links = refl;
    khmn_nodes = refl;
    visited = λ x. same-IsVisited (t.data_of x);
  }

  modify-IsKept :
      (t u : Tree g) (n : ℕ) (change : TreeNodeData → TreeNodeData)
      → IsKept t u
      → IsVisited (u.data_of n) (change (u.data_of n))
      → IsKept t (modify u n change)
  unfolding modify
  modify-IsKept t u n change kept step = record {
    links = kept.links;
    khmn_nodes = kept.khmn_nodes;
    visited = λ x. elim (ℕ_discrete x n) [
      | yes here ↦
          subst (λ (y : ℕ). IsVisited (t.data_of y) ((modify u n change).data_of y)) (sym here)
            (subst (IsVisited (t.data_of n)) (sym (modify_here u n change)) (
              IsVisited-trans (t.data_of n) (u.data_of n) (change (u.data_of n)) (kept.visited n)
                step))
      | no other ↦
          subst (IsVisited (t.data_of x)) (sym (modify_other u n change x other)) (kept.visited x)
    ];
  }

  count_node-IsKept : (t u : Tree g) (n : ℕ) → IsKept t u → IsKept t (modify u n count_node)
  count_node-IsKept t u n kept =
      modify-IsKept t u n count_node kept
        (record { same = refl; count = omega arith; mark = inl refl })

  -- The tree at a place, if the program has not stopped.
  abbrev pub IsKeptAt : Tree g → Place g → Type 0
  IsKeptAt t (descending u n) = IsKept t u
  IsKeptAt t (climbing u n) = IsKept t u
  IsKeptAt t (selected u n) = IsKept t u
  IsKeptAt t stopped = Unit

  if-IsKeptAt :
      (t : Tree g) (b : Bool) (p q : Place g)
      → (b ≡ true → IsKeptAt t p)
      → (b ≡ false → IsKeptAt t q)
      → IsKeptAt t (if b then p else q)
  if-IsKeptAt t true p q in_p in_q = in_p refl
  if-IsKeptAt t false p q in_p in_q = in_q refl

module _ (f : Scores) {g : GNodes} (t : Tree g) where
  open f use {less, minus_infinity, is_minus_infinity}
  open g use {parent}

  -- What is found to be fully explored was marked before or is black.
  explored_black :
      (u : Tree g) (p : ℕ)
      → is_fully_explored f u p ≡ some true
      → ((u.data_of p).fully_explored ≡ true) ⊎ (is_black (u.data_of p).colour ≡ true)
  unfolding is_fully_explored
  explored_black u p known = elim (Bool-cases (u.data_of p).fully_explored) [
    | inl marked ↦ inl marked
    | inr open_still ↦ elim (Bool-cases (is_black (u.data_of p).colour)) [
      | inl black ↦ inr black
      | inr other ↦
          let white : is_fully_explored f u p ≡ some false =
            rw (is_fully_explored, open_still, other) refl in
          absurd (ground (arith, known, white))
    ]
  ]

  mark-IsKept :
      (u : Tree g) (p : ℕ) → is_fully_explored f u p ≡ some true → IsKept t u → IsKept t (mark u p)
  mark-IsKept u p known kept = modify-IsKept t u p (set_fully_explored true) kept (record {
    same = refl;
    count = omega arith;
    mark = elim (explored_black u p known) [
      | inl marked ↦ inl (sym marked)
      | inr black ↦ inr (black, refl)
    ];
  })

  descend-IsKeptAt : (u : Tree g) (n : ℕ) → IsKept t u → IsKeptAt t (descend f u n)
  unfolding descend
  descend-IsKeptAt u n kept = elim (Bool-cases (is_golden (u.data_of n).colour)) [
    | inl is ↦ rw (descend, is) kept
    | inr other ↦ elim (Option-cases (best_child f u n)) [
      | inl e ↦ rw (descend, other, e) tt
      | inr (c, e) ↦
          let counted = modify u c count_node in
          rw (descend, other, e)
            (if-IsKeptAt t
              (less minus_infinity (tree_node_score f counted c) || has_black_parent f counted c)
              (climbing counted c) stopped (λ _. count_node-IsKept t u c kept) (λ _. tt))
    ]
  ]

  leave-IsKeptAt : (u : Tree g) (n : ℕ) → IsKept t u → IsKeptAt t (leave f u n)
  unfolding leave
  leave-IsKeptAt u n kept = elim (Option-cases (parent u.links n)) [
    | inl e ↦ rw (leave, e) tt
    | inr (p, e) ↦ elim (Option-cases (is_fully_explored f u p)) [
      | inl stops ↦ rw (leave, e, stops) tt
      | inr (explored, known) ↦
          rw (leave, e, known)
            (if-IsKeptAt t explored (climbing (mark u p) p)
              (if less minus_infinity (tree_node_score f u p) then descending u p else stopped)
              (λ all. mark-IsKept u p (known ∙ ap some all) kept)
              (λ _.
                if-IsKeptAt t (less minus_infinity (tree_node_score f u p)) (descending u p) stopped
                  (λ _. kept) (λ _. tt)))
    ]
  ]

  step-IsKeptAt : (p : Place g) → IsKeptAt t p → IsKeptAt t (step f p)
  unfolding step climb
  step-IsKeptAt (descending u n) kept = descend-IsKeptAt u n kept
  step-IsKeptAt (climbing u n) kept =
      if-IsKeptAt t (is_minus_infinity (tree_node_score f u n)) (leave f u n) (descending u n)
        (λ _. leave-IsKeptAt u n kept) (λ _. kept)
  step-IsKeptAt (selected u n) kept = kept
  step-IsKeptAt stopped kept = tt

  select_from-IsKeptAt : (fuel : ℕ) (p : Place g) → IsKeptAt t p → IsKeptAt t (select_from f fuel p)
  unfolding select_from
  select_from-IsKeptAt zero p kept = kept
  select_from-IsKeptAt (suc fuel) p kept =
      select_from-IsKeptAt fuel (step f p) (step-IsKeptAt p kept)

  -- Wherever `select_tree_node` stands, the links between the nodes and `khmn_nodes` are what they
  -- were, and every node holds what it did, with a count of selections that is not smaller and the
  -- same mark of full exploration, or a new one if the node is black.
  pub select_tree_node-IsKept : (fuel n : ℕ) → IsKeptAt t (select_tree_node f fuel t n)
  unfolding select_tree_node
  select_tree_node-IsKept fuel n =
      select_from-IsKeptAt fuel (descending (modify t n count_node) n)
        (count_node-IsKept t t n (same-IsKept t))
