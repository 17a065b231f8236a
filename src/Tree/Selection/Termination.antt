-- ===== src/Tree/Selection/Termination.antt =====
-- The loops of `select_tree_node` (mcts.c) end: the inner one climbs and marks, the outer one goes
-- down again from above a new mark.
use aflnet_legion.Common.{
  ℕ, zero, suc, ◌+◌, ◌*◌, ◌≤◌, ◌≡◌, refl, sym, subst, ◌∙◌, Bool, true, false, ◌||◌, some,
  if◌then◌else◌, arith, Bool-cases, Option-cases, inl, inr, ◌⊎◌,
}
use aflnet_legion.States.{has}
use aflnet_legion.Tree.{GNodes, is_golden, is_black, Tree, modify}
use aflnet_legion.Tree.Selection.{Scores, tree_node_score, best_child, is_fully_explored}
use aflnet_legion.Tree.Selection.Best.{best_child-has}
use aflnet_legion.Tree.Selection.Descent.{
  Place, descending, climbing, selected, stopped, descend, leave, climb, step, select_from,
  select_tree_node, count_node, has_black_parent,
}
use aflnet_legion.Tree.Selection.Marks.{
  IsFinite, mark, modify-field, scored_open, no_bottom, below_bottom, black_below, black_parent,
  weight, counted_weight, marked_weight, first_mark,
}

-- Behind the loops, or at an assertion that fails.
abbrev pub has_returned : {g : GNodes} → Place g → Bool
has_returned (descending t n) = false
has_returned (climbing t n) = false
has_returned (selected t n) = true
has_returned stopped = true

module _ (f : Scores) {g : GNodes} {links : g.Links} (s : IsFinite g links) where
  open f use {less, minus_infinity, is_minus_infinity}
  open g use {Links, children, parent}
  open s use {bound, height, depth}

  -- A child that was just picked, under a black parent.
  abbrev IsEntered : ℕ → Tree g → ℕ → Type 0
  IsEntered m t n =
      (p : ℕ) × (parent links n ≡ some p)
      × (is_black (t.data_of p).colour ≡ true)
      × (has (children links p) n ≡ true)
      × ((t.data_of p).fully_explored ≡ false)
      × (weight s t + 2 * height n + 2 ≤ m)

  abbrev IsScored : ℕ → Tree g → ℕ → Type 0
  IsScored m t n =
      (less minus_infinity (tree_node_score f t n) ≡ true) × (weight s t + 2 * height n + 2 ≤ m)

  -- At most this many rounds are left.
  abbrev IsDue : ℕ → Place g → Type 0
  IsDue m (descending t n) =
      (t.links ≡ links)
      × ((t.data_of n).fully_explored ≡ false)
      × (weight s t + 2 * height n + 1 ≤ m)
  IsDue m (climbing t n) =
      (t.links ≡ links)
      × (IsScored m t n ⊎ (IsEntered m t n ⊎ (weight s t + 2 * bound + 2 + depth n ≤ m)))
  IsDue m (selected t n) = Unit
  IsDue m stopped = Unit

  if-IsDue :
      (m : ℕ) (b : Bool) (p q : Place g)
      → (b ≡ true → IsDue m p)
      → (b ≡ false → IsDue m q)
      → IsDue m (if b then p else q)
  if-IsDue m true p q in_p in_q = in_p refl
  if-IsDue m false p q in_p in_q = in_q refl

  counted-IsDue :
      (m : ℕ) (t : Tree g) (n c : ℕ)
      → IsDue (suc m) (descending t n)
      → has (children t.links n) c ≡ true
      → let counted = modify t c count_node in
        (less minus_infinity (tree_node_score f counted c) || has_black_parent f counted c) ≡ true
        → IsDue m (climbing counted c)
  unfolding modify
  counted-IsDue m t n c (same, open_still, due) member h =
      let counted = modify t c count_node in
      let here = subst (λ (l : Links). has (children l n) c ≡ true) same member in
      let at_most : weight s counted + 2 * height c + 2 ≤ m =
        omega (arith, due, s.child_lower n c here, counted_weight s t c) in
      elim (Bool-cases (less minus_infinity (tree_node_score f counted c))) [
        | inl scored ↦ (same, inl (scored, at_most))
        | inr unscored ↦
            let e = g.child_parent t.links n c member in
            let black = black_parent f counted n c e (ground (arith, h, unscored)) in
            (
              same,
              inr (
                  inl (
                    n,
                    g.child_parent links n c here,
                    black,
                    here,
                    modify-field t c count_node (λ d. d.fully_explored) n (λ d. refl) ∙ open_still,
                    at_most,
                  )),
            )
      ]

  descend-IsDue :
      (m : ℕ) (t : Tree g) (n : ℕ) → IsDue (suc m) (descending t n) → IsDue m (descend f t n)
  unfolding descend
  descend-IsDue m t n due = elim (Bool-cases (is_golden (t.data_of n).colour)) [
    | inl is ↦ rw (descend, is) tt
    | inr other ↦ elim (Option-cases (best_child f t n)) [
      | inl e ↦ rw (descend, other, e) tt
      | inr (c, e) ↦
          let counted = modify t c count_node in
          rw (descend, other, e)
            (if-IsDue m
              (less minus_infinity (tree_node_score f counted c) || has_black_parent f counted c)
              (climbing counted c) stopped (counted-IsDue m t n c due (best_child-has f t n c e))
              (λ _. tt))
    ]
  ]

  leave-IsEntered :
      (m : ℕ) (t : Tree g) (n : ℕ)
      → t.links ≡ links
      → is_minus_infinity (tree_node_score f t n) ≡ true
      → IsEntered (suc m) t n
      → IsDue m (leave f t n)
  unfolding leave modify
  leave-IsEntered m t n same bottom (p, e, black, member, open_still, due) =
      let e' = subst (λ (l : Links). parent l n ≡ some p) (sym same) e in
      let member' = subst (λ (l : Links). has (children l p) n ≡ true) (sym same) member in
      elim (Option-cases (is_fully_explored f t p)) [
        | inl stops ↦ rw (leave, e', stops) tt
        | inr (explored, known) ↦
            let all =
              below_bottom f t n (children t.links p) explored member' bottom
                (sym (black_below f t p open_still black) ∙ known) in
            rw (leave, e', known, all)
              (same, inr (inr (omega (arith, due, s.depth_le p, first_mark s t n p e open_still))))
      ]

  leave-IsDue :
      (m : ℕ) (t : Tree g) (n : ℕ)
      → t.links ≡ links
      → weight s t + 2 * bound + 2 + depth n ≤ suc m
      → IsDue m (leave f t n)
  unfolding leave modify
  leave-IsDue m t n same due = elim (Option-cases (parent t.links n)) [
    | inl e ↦ rw (leave, e) tt
    | inr (p, e) ↦ elim (Option-cases (is_fully_explored f t p)) [
      | inl stops ↦ rw (leave, e, stops) tt
      | inr (explored, known) ↦
          let e' = subst (λ (l : Links). parent l n ≡ some p) same e in
          rw (leave, e, known)
            (if-IsDue m explored (climbing (mark t p) p)
              (if less minus_infinity (tree_node_score f t p) then descending t p else stopped)
              (λ _.
                (same, inr (inr (omega (arith, due, s.parent_higher n p e', marked_weight s t p)))))
              (λ _.
                if-IsDue m (less minus_infinity (tree_node_score f t p)) (descending t p) stopped
                  (λ scored. (same, scored_open f t p scored, omega (arith, due, s.height_le p)))
                  (λ _. tt)))
    ]
  ]

  climb-IsDue : (m : ℕ) (t : Tree g) (n : ℕ) → IsDue (suc m) (climbing t n) → IsDue m (climb f t n)
  unfolding climb
  climb-IsDue m t n (same, due) =
      if-IsDue m (is_minus_infinity (tree_node_score f t n)) (leave f t n) (descending t n)
        (λ bottom. elim due [
          | inl (scored, at_most) ↦
              absurd (ground (arith, bottom, scored, f.bottom_iff (tree_node_score f t n)))
          | inr (inl entered) ↦ leave-IsEntered m t n same bottom entered
          | inr (inr at_most) ↦ leave-IsDue m t n same at_most
        ])
        (λ above. (
          same,
          scored_open f t n (no_bottom f t n above),
          elim due [
            | inl (scored, at_most) ↦ omega (arith, at_most)
            | inr (inl (p, e, black, member, open_still, at_most)) ↦ omega (arith, at_most)
            | inr (inr at_most) ↦ omega (arith, at_most, s.height_le n)
          ],
        ))

  step-IsDue : (m : ℕ) (p : Place g) → IsDue (suc m) p → IsDue m (step f p)
  unfolding step
  step-IsDue m (descending t n) due = descend-IsDue m t n due
  step-IsDue m (climbing t n) due = climb-IsDue m t n due
  step-IsDue m (selected t n) due = tt
  step-IsDue m stopped due = tt

  none_due : (p : Place g) → IsDue 0 p → has_returned p ≡ true
  none_due (descending t n) (same, open_still, due) = absurd (omega (arith, due))
  none_due (climbing t n) (same, due) = elim due [
    | inl (scored, at_most) ↦ absurd (omega (arith, at_most))
    | inr (inl (p, e, black, member, open_still, at_most)) ↦ absurd (omega (arith, at_most))
    | inr (inr at_most) ↦ absurd (omega (arith, at_most))
  ]
  none_due (selected t n) due = refl
  none_due stopped due = refl

  select_from-Returns :
      (fuel : ℕ) (p : Place g) → IsDue fuel p → has_returned (select_from f fuel p) ≡ true
  unfolding select_from
  select_from-Returns zero p due = none_due p due
  select_from-Returns (suc fuel) p due = select_from-Returns fuel (step f p) (step-IsDue fuel p due)

-- More rounds than the two loops can take: each mark is followed by at most one way up and one way
-- down.
abbrev pub rounds : {g : GNodes} (t : Tree g) → IsFinite g t.links → ℕ
rounds t s = weight s t + 2 * s.bound + 1

-- From a node that is not marked as fully explored, in a tree of finite height whose parents are
-- listed, `select_tree_node` leaves its loops or stops at an assertion within `rounds` rounds: this
-- many for each parent that is not marked, three times the bound on heights and depths and three,
-- and two for each level.
pub select_tree_node-Returns :
    (f : Scores) {g : GNodes} (t : Tree g) (n fuel : ℕ) (s : IsFinite g t.links)
    → (t.data_of n).fully_explored ≡ false
    → rounds t s ≤ fuel
    → has_returned (select_tree_node f fuel t n) ≡ true
unfolding select_tree_node modify
select_tree_node-Returns f t n fuel s open_still h =
    select_from-Returns f s fuel (descending (modify t n count_node) n) (
      refl,
      modify-field t n count_node (λ d. d.fully_explored) n (λ d. refl) ∙ open_still,
      omega (arith, h, s.height_le n, counted_weight s t n),
    )
