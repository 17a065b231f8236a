-- ===== src/States/Transitions/Overwritten.antt =====
-- A state that a region's annotation put into the table, when the graph meets it
-- (`update_state_aware_variables` in afl-fuzz.c).
use aflnet_legion.Common.{
  ℕ, ◌+◌, ◌≡◌, ◌≢◌, refl, sym, subst, ap, ◌∙◌, inl, inr, Bool, true, false, ◌||◌, none, some, List,
  [], ◌∷◌, ◌++◌, ◌==◌, arith, Bool-cases, if◌then◌else◌, ℕ_discrete,
}
use aflnet_legion.States.{new_state, Store, has, has_edge, is_state_sequence_interesting}
use aflnet_legion.States.Update.{visit_node, visit_edge, visit_sequence, update_ipsm, reach_state}
use aflnet_legion.States.Reach.{reach_state_absent}
use aflnet_legion.States.Transitions.{add_state_graph, update_ipsm_interesting}

-- How often an id stands in the array.
abbrev pub times : ℕ → List ℕ → ℕ
times id [] = 0
times id (x ∷ xs) = (if x == id then 1 else 0) + times id xs

times_other : (id x : ℕ) (xs : List ℕ) → x ≢ id → times id (xs ++ x ∷ []) ≡ times id xs
times_other id x [] ne = ground (arith, ne)
times_other id x (y ∷ xs) ne = omega (arith, times_other id x xs ne)

times_same : (id : ℕ) (xs : List ℕ) → times id (xs ++ id ∷ []) ≡ times id xs + 1
times_same id [] = ground arith
times_same id (y ∷ xs) = omega (arith, times_same id xs)

self_equal : (id : ℕ) → true ≡ (id == id)
self_equal id = ground arith

not_equal : (x id : ℕ) → x ≢ id → false ≡ (x == id)
not_equal x id ne = ground (arith, ne)

module _ (q id n : ℕ) where
  -- Before the graph meets the state, and after.
  pub record IsMet (met : Bool) (s : Store) : Type 0 where
    pub entry : s.khms_states id ≡ some (new_state id (if met then [] else q ∷ []))
    pub node : has s.ipsm_nodes id ≡ met
    pub count : times id s.state_ids ≡ n + (if met then 2 else 1)

  visit_node-other :
      (met : Bool) (x : ℕ) (s : Store) → x ≢ id → IsMet met s → IsMet met (visit_node x s)
  unfolding visit_node
  visit_node-other met x s ne h = elim (Bool-cases (has s.ipsm_nodes x)) [
    | inl old ↦ rw old h
    | inr new ↦
        let s' = record s { ipsm_nodes = x ∷ s.ipsm_nodes } in
        let (edges, nodes, table, ids) = add_state_graph x [] s' in
        let a : (x == id) ≡ false = ground (arith, ne) in
        let b : (id == x) ≡ false = ground (arith, ne) in
        rw new record {
          entry = ap (λ (t : ℕ → _). t id) table ∙ rw b h.entry;
          node = ap (λ (xs : List ℕ). has xs id) nodes ∙ rw a h.node;
          count = ap (times id) ids ∙ times_other id x s.state_ids ne ∙ h.count;
        }
  ]

  visit_node-here : (s : Store) → IsMet false s → IsMet true (visit_node id s)
  unfolding visit_node
  visit_node-here s h =
      let s' = record s { ipsm_nodes = id ∷ s.ipsm_nodes } in
      let (edges, nodes, table, ids) = add_state_graph id [] s' in
      let self : (id == id) ≡ true = ground arith in
      rw h.node record {
        entry = ap (λ (t : ℕ → _). t id) table ∙ rw self refl;
        node = ap (λ (xs : List ℕ). has xs id) nodes ∙ rw self refl;
        count = ap (times id) ids ∙ omega (arith, times_same id s.state_ids, h.count);
      }

  visit_node-again : (s : Store) → IsMet true s → IsMet true (visit_node id s)
  unfolding visit_node
  visit_node-again s h = rw h.node h

  visit_node-IsMet :
      (met : Bool) (x : ℕ) (s : Store) → IsMet met s → IsMet (met || x == id) (visit_node x s)
  visit_node-IsMet true x s h = elim (ℕ_discrete x id) [
    | yes same ↦ subst (λ (y : ℕ). IsMet true (visit_node y s)) (sym same) (visit_node-again s h)
    | no other ↦ visit_node-other true x s other h
  ]
  visit_node-IsMet false x s h = elim (ℕ_discrete x id) [
    | yes same ↦
        subst (λ (y : ℕ). IsMet (y == id) (visit_node y s)) (sym same)
          (subst (λ (b : Bool). IsMet b (visit_node id s)) (self_equal id) (visit_node-here s h))
    | no other ↦
        subst (λ (b : Bool). IsMet b (visit_node x s)) (not_equal x id other)
          (visit_node-other false x s other h)
  ]

  visit_edge-IsMet :
      (met : Bool) (from to : ℕ) (s : Store)
      → IsMet met s
      → IsMet ((met || from == id) || to == id) (visit_edge from to s)
  unfolding visit_edge
  visit_edge-IsMet met from to s h =
      let h' =
        visit_node-IsMet (met || from == id) to (visit_node from s)
          (visit_node-IsMet met from s h) in
      let s' = visit_node to (visit_node from s) in
      elim (Bool-cases (has_edge s'.ipsm_edges from to)) [
        | inl old ↦ rw old h'
        | inr new ↦ rw new record { entry = h'.entry; node = h'.node; count = h'.count }
      ]

  visit_sequence-IsMet :
      (met : Bool) (previous : ℕ) (rest : List ℕ) (s : Store)
      → (met || previous == id) ≡ met
      → IsMet met s
      → IsMet (met || has rest id) (visit_sequence previous rest s)
  unfolding visit_sequence
  visit_sequence-IsMet met previous [] s known h = subst (λ (b : Bool). IsMet b s) (ground arith) h
  visit_sequence-IsMet met previous (x ∷ rest) s known h =
      let next = visit_edge previous x s in
      let h' : IsMet (met || x == id) next =
        subst (λ (b : Bool). IsMet (b || x == id) next) known
          (visit_edge-IsMet met previous x s h) in
      subst (λ (b : Bool). IsMet b (visit_sequence x rest next)) (ground arith)
        (visit_sequence-IsMet (met || x == id) x rest next (ground arith) h')

  two-IsMet :
      (first second : ℕ) (rest : List ℕ) (s : Store)
      → has (first ∷ second ∷ rest) id ≡ true
      → IsMet false s
      → IsMet true (visit_sequence first (second ∷ rest) s)
  unfolding visit_sequence
  two-IsMet first second rest s member h =
      let met = (first == id) || second == id in
      let next = visit_edge first second s in
      subst (λ (b : Bool). IsMet b (visit_sequence second rest next)) (ground (arith, member))
        (visit_sequence-IsMet met second rest next (ground arith)
          (visit_edge-IsMet false first second s h))

reach_state-IsMet :
    (q id : ℕ) (s : Store)
    → s.khms_states id ≡ none
    → has s.ipsm_nodes id ≡ false
    → IsMet q id (times id s.state_ids) false (reach_state q id s)
reach_state-IsMet q id s absent no_node =
    let (edges, nodes, table, ids) = add_state_graph id (q ∷ []) s in
    let self : (id == id) ≡ true = ground arith in
    rw (reach_state_absent q id s absent) record {
      entry = ap (λ (t : ℕ → _). t id) table ∙ rw self refl;
      node = ap (λ (xs : List ℕ). has xs id) nodes ∙ no_node;
      count = ap (times id) ids ∙ times_same id s.state_ids;
    }

-- For a state that is neither in the table nor in the graph, and an interesting sequence of two
-- states and more that contains it: `reach_state` enters it into the table with the seed and not
-- into the graph, and `update_ipsm` then replaces this entry by one without seeds and leaves the
-- id in the array twice more than it was there before both.
pub update_ipsm-reach_state :
    (hash32 : List ℕ → ℕ) (q id first second : ℕ) (rest : List ℕ) (s : Store)
    → s.khms_states id ≡ none
    → has s.ipsm_nodes id ≡ false
    → has (first ∷ second ∷ rest) id ≡ true
    → (is_state_sequence_interesting hash32
        (reach_state q id s).khs_ipsm_paths
        (first ∷ second ∷ rest)).0
      ≡ true
    → let reached = reach_state q id s in
      let after = update_ipsm hash32 (first ∷ second ∷ rest) reached in
      (reached.khms_states id ≡ some (new_state id (q ∷ [])))
      × (has reached.ipsm_nodes id ≡ false)
      × (after.khms_states id ≡ some (new_state id []))
      × (times id after.state_ids ≡ times id s.state_ids + 2)
update_ipsm-reach_state hash32 q id first second rest s absent no_node member interesting =
    let n = times id s.state_ids in
    let reached = reach_state q id s in
    let before = reach_state-IsMet q id s absent no_node in
    let paths =
      (is_state_sequence_interesting hash32 reached.khs_ipsm_paths (first ∷ second ∷ rest)).1 in
    let met =
      subst (IsMet q id n true)
        (sym (update_ipsm_interesting hash32 first second rest reached interesting))
        (two-IsMet q id n first second rest (record reached { khs_ipsm_paths = paths }) member
          record { entry = before.entry; node = before.node; count = before.count }) in
    (before.entry, before.node, met.entry, met.count)
