-- ===== src/Tree/Expansion/Round.antt =====
-- One round of `Expansion` (mcts.c): what it keeps of the tree, and the node it moves to.
use aflnet_legion.Common.{
  arith, ℕ, zero, suc, ◌+◌, ◌≡◌, ◌≢◌, refl, ◌∙◌, Bool, true, false, none, List, Option-cases,
  Bool-cases, ◌==◌, take, ◌-◌, inl, inr, length, if◌then◌else◌,
}
use aflnet_legion.Region.{Region}
use aflnet_legion.Tree.{
  GNodes, Tree, modify, exists_child, simulation_id, set_colour, set_fully_explored, add_seed,
  construct_seed_with_queue_entry, get_simulation_child, add_seed_to_node, white, black,
  append_simulation,
}
use aflnet_legion.Tree.Kept.{
  IsCovered, same-IsCovered, IsCovered-trans, modify-IsCovered, if-IsCovered, IsExtension-trans,
  IsFound, IsFound-trans, append_simulation-IsExtension, append_simulation-IsSame,
  append_child-IsFound,
}
use aflnet_legion.Tree.Children.{find_code-has}
use aflnet_legion.Tree.Expansion.{
  Cursor, Match, add_to_simulation, correct_explored, flip, record_match, next_node, smaller,
  count_discovered, dye, add_discovered, match_region, first_region,
}

module _ {g : GNodes} where
  open g use {IsNode, child_node}

  correct_explored-IsCovered :
      (t : Tree g) (last : Bool) (n : ℕ) → IsCovered t (correct_explored last n t)
  unfolding correct_explored
  correct_explored-IsCovered t last n =
      if-IsCovered t (modify t n (set_fully_explored false)) t _
        (modify-IsCovered t n (set_fully_explored false) (λ d. refl)) (same-IsCovered t)

  pub add_to_simulation-IsCovered :
      (t : Tree g) (q i n : ℕ) → IsCovered t (add_to_simulation q i n t)
  unfolding add_to_simulation get_simulation_child add_seed_to_node
  add_to_simulation-IsCovered t q i n = elim (Option-cases (t.data_of n).simulation_child) [
    | inl e ↦ rw (e, add_to_simulation) (same-IsCovered t)
    | inr (sim, e) ↦
        rw (e, add_to_simulation)
          (modify-IsCovered t sim (add_seed (construct_seed_with_queue_entry q) i) (λ d. refl))
  ]

  flip-IsCovered :
      (t : Tree g) (last : Bool) (n : ℕ) (path : List ℕ)
      → IsNode t.links n
      → IsCovered t (flip last n path t)
  unfolding flip
  flip-IsCovered t last n path node =
      if-IsCovered t (append_simulation (modify t n (set_colour white)) n path) t _
        (IsCovered-trans t (modify t n (set_colour white))
          (append_simulation (modify t n (set_colour white)) n path)
          (modify-IsCovered t n (set_colour white) (λ d. refl))
          (
            append_simulation-IsExtension (modify t n (set_colour white)) n path node,
            append_simulation-IsSame (modify t n (set_colour white)) n path node,
          ))
        (same-IsCovered t)

  record_match-IsCovered :
      (t : Tree g) (q len : ℕ) (regions : List Region) (last : Bool) (m : Match) (n : ℕ)
      (path : List ℕ)
      → IsNode t.links n
      → IsCovered t (record_match q len regions last m n path t)
  unfolding record_match
  record_match-IsCovered t q len regions last m n path node =
      let flipped = flip last n path t in
      if-IsCovered t (add_to_simulation q m.region_index n flipped) flipped _
        (IsCovered-trans t flipped (add_to_simulation q m.region_index n flipped)
          (flip-IsCovered t last n path node)
          (add_to_simulation-IsCovered flipped q m.region_index n))
        (flip-IsCovered t last n path node)

  -- The node that follows, whether it was there or is new.
  next_node-IsFound :
      (t : Tree g) (n code : ℕ) (new_node exactly : Bool) (path : List ℕ)
      → IsNode t.links n
      → simulation_id ≢ code
      → (new_node ≡ true → (code' : ℕ) → simulation_id ≢ code' → exists_child t n code' ≡ none)
      → let r = next_node t n code new_node exactly path in IsFound t n code r.0 r.1 r.2
  unfolding next_node exists_child
  next_node-IsFound t n code new_node exactly path node ne childless =
      elim (Option-cases (exists_child t n code)) [
        | inl e ↦
            rw (e, next_node)
              (append_child-IsFound t n code (if exactly then white else black) path node e)
        | inr (c, e) ↦ elim (Bool-cases new_node) [
          | inl is_new ↦ absurd (ground (arith, childless is_new code ne, e))
          | inr old ↦
              rw (e, old, next_node)
                record {
                  extension = (same-IsCovered t).0;
                  found = e;
                  node = child_node t.links n c (find_code-has t.data_of code c _ e);
                  childless = λ no_new. ground arith;
                }
        ]
      ]

  IsFound-after :
      (t t' t'' : Tree g) (n code c : ℕ) (new : Bool)
      → IsCovered t t'
      → IsFound t' n code new t'' c
      → IsFound t n code new t'' c
  IsFound-after t t' t'' n code c new (e, s) f = record {
    extension = IsExtension-trans t t' t'' e f.extension;
    found = f.found;
    node = f.node;
    childless = f.childless;
  }

  round-IsFound :
      (t : Tree g) (n code q len : ℕ) (regions : List Region) (last new_node : Bool) (m : Match)
      (path : List ℕ)
      → IsNode t.links n
      → simulation_id ≢ code
      → (new_node ≡ true → (code' : ℕ) → simulation_id ≢ code' → exists_child t n code' ≡ none)
      → let r = next_node (correct_explored last n t) n code new_node m.exactly path in
        IsFound t n code r.0
          (if m.exactly then record_match q len regions last m r.2 path r.1 else r.1)
          r.2
  round-IsFound t n code q len regions last new_node m path node ne childless =
      let corrected = correct_explored last n t in
      let cover = correct_explored-IsCovered t last n in
      let r = next_node corrected n code new_node m.exactly path in
      let matched = record_match q len regions last m r.2 path r.1 in
      let is_found =
        next_node-IsFound corrected n code new_node m.exactly path (cover.0.1 n node) ne
          (λ is_new code' ne'. cover.1 n code' ne' ∙ childless is_new code' ne') in
      let cover' =
        if-IsCovered r.1 matched r.1 m.exactly
          (record_match-IsCovered r.1 q len regions last m r.2 path is_found.node)
          (same-IsCovered r.1) in
      IsFound-after t corrected (if m.exactly then matched else r.1) n code r.2 r.0 cover (
        IsFound-trans corrected r.1 (if m.exactly then matched else r.1) n code r.2 r.0 is_found
          cover'.0 cover'.1)

  module _ (q : ℕ) (regions : List Region) (codes : List ℕ) where
    pub dye-IsFound :
        (path_index code : ℕ) (c : Cursor g)
        → IsNode c.tree.links c.tree_node
        → simulation_id ≢ code
        → (c.new_node ≡ true
            → (code' : ℕ) → simulation_id ≢ code'
            → exists_child c.tree c.tree_node code' ≡ none)
        → let c' = dye q regions codes path_index code c in
          IsFound c.tree c.tree_node code c'.new_node c'.tree c'.tree_node
    unfolding dye
    dye-IsFound path_index code c node ne childless =
        round-IsFound c.tree c.tree_node code q (length codes) regions
          (path_index + 1 == length codes) c.new_node
          (match_region codes regions path_index
            (smaller (length regions) (length codes) - first_region c.matching)
            (first_region c.matching) c.matching)
          (take (path_index + 1) codes) node ne childless

  pub add_discovered-IsCovered :
      (fuel new_path n : ℕ) (t : Tree g) → IsCovered t (add_discovered fuel new_path n t)
  unfolding add_discovered
  add_discovered-IsCovered zero new_path n t = same-IsCovered t
  add_discovered-IsCovered (suc fuel) new_path n t =
      let counted = modify t n (count_discovered new_path) in
      let cover = modify-IsCovered t n (count_discovered new_path) (λ d. refl) in
      elim (Option-cases (g.parent t.links n)) [
        | inl e ↦ rw (e, add_discovered) cover
        | inr (p, e) ↦
            rw (e, add_discovered)
              (IsCovered-trans t counted (add_discovered fuel new_path p counted) cover
                (add_discovered-IsCovered fuel new_path p counted))
      ]
