-- ===== src/Tree/Selection/Outcome.antt =====
-- What `select_tree_node` (mcts.c) leads to, and that `Selection` can go on from there.
use aflnet_legion.Common.{
  ℕ, zero, suc, ◌≡◌, refl, Bool, true, false, ◌||◌, some, List, [], ◌∷◌, ◌==◌, if◌then◌else◌,
  length, arith, Bool-cases, Option-cases, inl, inr,
}
use aflnet_legion.Tree.{GNodes, SeedInfo, is_golden, Tree, modify, set_fully_explored}
use aflnet_legion.Tree.Selection.{
  Scores, tree_node_score, best_child, select_seed, is_fully_explored,
}
use aflnet_legion.Tree.Selection.Best.{best_seed-IsBest}
use aflnet_legion.Tree.Selection.Descent.{
  Place, descending, climbing, selected, stopped, descend, leave, climb, step, select_from,
  select_tree_node, count_node, has_black_parent,
}

non_empty {ℓ} :
    {A : Type ℓ} (xs : List A)
    → (length xs == 0) ≡ false
    → (x : A) × ((rest : List A) × (xs ≡ x ∷ rest))
non_empty [] h = absurd (ground (arith, h))
non_empty (x ∷ xs) h = (x, (xs, refl))

module _ (f : Scores) {g : GNodes} where
  open f use {less, minus_infinity, is_minus_infinity}
  open g use {parent}

  abbrev is_scored : Tree g → ℕ → Bool
  is_scored t n = less minus_infinity (tree_node_score f t n)

  -- A node that is not golden, or has a score.
  abbrev IsFit : Place g → Type 0
  IsFit (descending t n) = is_golden (t.data_of n).colour ≡ true → is_scored t n ≡ true
  IsFit (climbing t n) = Unit
  IsFit (selected t n) = (is_golden (t.data_of n).colour ≡ true) × (is_scored t n ≡ true)
  IsFit stopped = Unit

  if-IsFit :
      (b : Bool) (p q : Place g)
      → (b ≡ true → IsFit p)
      → (b ≡ false → IsFit q)
      → IsFit (if b then p else q)
  if-IsFit true p q in_p in_q = in_p refl
  if-IsFit false p q in_p in_q = in_q refl

  descend-IsFit : (t : Tree g) (n : ℕ) → IsFit (descending t n) → IsFit (descend f t n)
  unfolding descend
  descend-IsFit t n fit = elim (Bool-cases (is_golden (t.data_of n).colour)) [
    | inl is ↦ rw (descend, is) (is, fit is)
    | inr other ↦ elim (Option-cases (best_child f t n)) [
      | inl e ↦ rw (descend, other, e) tt
      | inr (c, e) ↦
          let counted = modify t c count_node in
          rw (descend, other, e)
            (if-IsFit (is_scored counted c || has_black_parent f counted c) (climbing counted c)
              stopped (λ _. tt) (λ _. tt))
    ]
  ]

  leave-IsFit : (t : Tree g) (n : ℕ) → IsFit (leave f t n)
  unfolding leave
  leave-IsFit t n = elim (Option-cases (parent t.links n)) [
    | inl e ↦ rw (leave, e) tt
    | inr (p, e) ↦ elim (Option-cases (is_fully_explored f t p)) [
      | inl stops ↦ rw (leave, e, stops) tt
      | inr (explored, known) ↦
          rw (leave, e, known)
            (if-IsFit explored (climbing (modify t p (set_fully_explored true)) p)
              (if is_scored t p then descending t p else stopped) (λ _. tt)
              (λ _. if-IsFit (is_scored t p) (descending t p) stopped (λ h _. h) (λ _. tt)))
    ]
  ]

  climb-IsFit : (t : Tree g) (n : ℕ) → IsFit (climb f t n)
  unfolding climb
  climb-IsFit t n =
      if-IsFit (is_minus_infinity (tree_node_score f t n)) (leave f t n) (descending t n)
        (λ _. leave-IsFit t n) (λ h _. ground (arith, h, f.bottom_iff (tree_node_score f t n)))

  step-IsFit : (p : Place g) → IsFit p → IsFit (step f p)
  unfolding step
  step-IsFit (descending t n) fit = descend-IsFit t n fit
  step-IsFit (climbing t n) fit = climb-IsFit t n
  step-IsFit (selected t n) fit = fit
  step-IsFit stopped fit = tt

  select_from-IsFit : (fuel : ℕ) (p : Place g) → IsFit p → IsFit (select_from f fuel p)
  unfolding select_from
  select_from-IsFit zero p fit = fit
  select_from-IsFit (suc fuel) p fit = select_from-IsFit fuel (step f p) (step-IsFit p fit)

  -- A golden node without seeds has no score.
  seedless :
      (t : Tree g) (n : ℕ)
      → is_golden (t.data_of n).colour ≡ true
      → (length (t.data_of n).seeds == 0) ≡ true
      → is_scored t n ≡ false
  unfolding tree_node_score
  seedless t n golden none_left = elim (Bool-cases (t.data_of n).fully_explored) [
    | inl explored ↦ rw (is_scored, tree_node_score, explored) (f.less_bottom minus_infinity)
    | inr open_still ↦
        rw (is_scored, tree_node_score, open_still, golden, none_left)
          (f.less_bottom minus_infinity)
  ]

  some_seed :
      (t : Tree g) (n : ℕ)
      → is_golden (t.data_of n).colour ≡ true
      → is_scored t n ≡ true
      → (s : SeedInfo) × ((rest : List SeedInfo) × ((t.data_of n).seeds ≡ s ∷ rest))
  some_seed t n golden scored = elim (Bool-cases (length (t.data_of n).seeds == 0)) [
    | inl none_left ↦ absurd (ground (arith, scored, seedless t n golden none_left))
    | inr seeds_left ↦ non_empty (t.data_of n).seeds seeds_left
  ]

  -- The place at which a selection of nodes may be left.
  abbrev pub IsSelectable : Place g → Type 0
  IsSelectable (descending t n) = Unit
  IsSelectable (climbing t n) = Unit
  IsSelectable (selected t n) =
      (is_golden (t.data_of n).colour ≡ true)
      × (less minus_infinity (tree_node_score f t n) ≡ true)
      × ((i : ℕ) × ((select_seed f t n).0 ≡ some i))
  IsSelectable stopped = Unit

  fit-IsSelectable : (p : Place g) → IsFit p → IsSelectable p
  unfolding select_seed
  fit-IsSelectable (descending t n) fit = tt
  fit-IsSelectable (climbing t n) fit = tt
  fit-IsSelectable (selected t n) (golden, scored) =
      let (s, (rest, e)) = some_seed t n golden scored in
      let (i, found, best) = best_seed-IsBest f t n s rest e in
      (golden, scored, (i, rw (select_seed, found) refl))
  fit-IsSelectable stopped fit = tt

  -- From a node that is not golden, for scores that are ordered as numbers are and numbers drawn
  -- below their bounds: where `select_tree_node` comes behind its loops, it is at a golden node, a
  -- simulation child, whose score is above `-INFINITY`, and `select_seed` picks a seed of it.
  pub select_tree_node-IsSelectable :
      (fuel : ℕ) (t : Tree g) (n : ℕ)
      → is_golden (t.data_of n).colour ≡ false
      → IsSelectable (select_tree_node f fuel t n)
  unfolding select_tree_node modify
  select_tree_node-IsSelectable fuel t n other =
      let p = select_tree_node f fuel t n in
      fit-IsSelectable p (
        select_from-IsFit fuel (descending (modify t n count_node) n)
          (λ golden. absurd (ground (arith, golden, other))))
