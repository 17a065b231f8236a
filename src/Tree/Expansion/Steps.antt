-- ===== src/Tree/Expansion/Steps.antt =====
-- Steps of `Expansion` (mcts.c) that leave the nodes and what identifies them.
use aflnet_legion.Common.{
  ℕ, ◌≡◌, refl, sym, ◌∙◌, Bool, true, false, not, ◌&&◌, List, Option-cases, inl, inr, if◌then◌else◌,
  arith,
}
use aflnet_legion.Region.{Region}
use aflnet_legion.Tree.{
  GNodes, NodeColour, white, red, golden, purple, black, is_golden, is_black, Tree, modify,
  append_simulation, set_colour, set_fully_explored, add_seed, construct_seed_with_queue_entry,
  get_simulation_child, add_seed_to_node,
}
use aflnet_legion.Tree.Labels.{
  IsLabelled, IsSteady, same-IsSteady, IsSteady-trans, modify-IsSteady, append_simulation-IsSteady,
  IsGrown,
}
use aflnet_legion.Tree.Expansion.{Match, add_to_simulation, correct_explored, flip, record_match}

black_plain : (c : NodeColour) → is_black c ≡ true → false ≡ is_golden c
black_plain white h = refl
black_plain red h = refl
black_plain golden h = absurd (ground (arith, h))
black_plain purple h = refl
black_plain black h = refl

first : (b d : Bool) → (b && d) ≡ true → b ≡ true
first b d h = ground arith

module _ {g : GNodes} where
  open g use {IsNode, child_node}

  -- A step that leaves nodes, labels and the labelling.
  abbrev pub IsStep : Tree g → Tree g → Type 0
  IsStep t u = IsSteady t u × (IsLabelled t → IsLabelled u)

  pub IsGrown-after :
      (t u v : Tree g) (c : ℕ) (path : List ℕ)
      → IsStep t u
      → IsGrown u v c path
      → IsGrown t v c path
  IsGrown-after t u v c path (steady, labels) grown = record {
    steady = IsSteady-trans t u v steady grown.steady;
    labels = λ labelled. grown.labels (labels labelled);
    node = grown.node;
    has_path = grown.has_path;
  }

  pub same-IsStep : (t : Tree g) → IsStep t t
  same-IsStep t = (same-IsSteady t, λ labelled. labelled)

  pub IsStep-trans : (t u v : Tree g) → IsStep t u → IsStep u v → IsStep t v
  IsStep-trans t u v (s, l) (s', l') = (IsSteady-trans t u v s s', λ labelled. l' (l labelled))

  pub if-IsStep :
      (t u v : Tree g) (b : Bool)
      → (b ≡ true → IsStep t u)
      → IsStep t v
      → IsStep t (if b then u else v)
  if-IsStep t u v true in_u in_v = in_u refl
  if-IsStep t u v false in_u in_v = in_v

  pub correct_explored-IsStep :
      (t : Tree g) (last : Bool) (n : ℕ) → IsStep t (correct_explored last n t)
  unfolding correct_explored
  correct_explored-IsStep t last n =
      if-IsStep t (modify t n (set_fully_explored false)) t
        (not last && (t.data_of n).fully_explored)
        (λ _. modify-IsSteady t n (set_fully_explored false) (refl, refl, refl)) (same-IsStep t)

  pub add_to_simulation-IsStep : (t : Tree g) (q i n : ℕ) → IsStep t (add_to_simulation q i n t)
  unfolding add_to_simulation get_simulation_child add_seed_to_node
  add_to_simulation-IsStep t q i n = elim (Option-cases (t.data_of n).simulation_child) [
    | inl e ↦ rw (e, add_to_simulation) (same-IsStep t)
    | inr (sim, e) ↦
        rw (e, add_to_simulation)
          (modify-IsSteady t sim (add_seed (construct_seed_with_queue_entry q) i)
            (refl, refl, refl))
  ]

  flip-IsStep :
      (t : Tree g) (last : Bool) (n : ℕ) (path : List ℕ)
      → IsNode t.links n
      → path ≡ (t.data_of n).path
      → IsStep t (flip last n path t)
  unfolding flip
  flip-IsStep t last n path node e =
      let whitened = modify t n (set_colour white) in
      if-IsStep t (append_simulation whitened n path) t (is_black (t.data_of n).colour && not last)
        (λ flips.
          let step = modify-IsSteady t n (set_colour white) (
            refl,
            refl,
            black_plain (t.data_of n).colour
                (first (is_black (t.data_of n).colour) (not last) flips),
          ) in
          let (node', (same_id, same_path, same_golden)) = step.0 n node in
          IsStep-trans t whitened (append_simulation whitened n path) step
            (append_simulation-IsSteady whitened n path node' (e ∙ sym same_path)))
        (same-IsStep t)

  pub record_match-IsStep :
      (t : Tree g) (q len : ℕ) (regions : List Region) (last : Bool) (m : Match) (n : ℕ)
      (path : List ℕ)
      → IsNode t.links n
      → path ≡ (t.data_of n).path
      → IsStep t (record_match q len regions last m n path t)
  unfolding record_match
  record_match-IsStep t q len regions last m n path node e =
      let flipped = flip last n path t in
      let step = flip-IsStep t last n path node e in
      if-IsStep t (add_to_simulation q m.region_index n flipped) flipped _
        (λ _.
          IsStep-trans t flipped (add_to_simulation q m.region_index n flipped) step
            (add_to_simulation-IsStep flipped q m.region_index n))
        step
