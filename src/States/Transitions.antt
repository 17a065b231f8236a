-- ===== src/States/Transitions.antt =====
-- The graph of transitions after an update.
pub mod Overwritten
use aflnet_legion.Common.{
  ℕ, ◌≡◌, ◌≢◌, refl, sym, inl, inr, Bool, true, false, ◌&&◌, ◌||◌, none, some, List, [], ◌∷◌, ◌++◌,
  ◌==◌, arith, Bool-cases, subst,
}
use aflnet_legion.States.{
  new_state, Store, has, has_edge, put, expand_was_fuzzed_map, is_state_sequence_interesting,
}
use aflnet_legion.States.Once.{put_self-ne}
use aflnet_legion.States.Update.{add_state, visit_node, visit_edge, visit_sequence, update_ipsm}

-- Each step of a sequence is an edge.
abbrev pub IsPath : List (ℕ × ℕ) → List ℕ → Type 0
IsPath edges [] = Unit {0}
IsPath edges (a ∷ []) = Unit {0}
IsPath edges (a ∷ b ∷ rest) = (has_edge edges a b ≡ true) × IsPath edges (b ∷ rest)

-- What an update of the graph keeps.
abbrev pub Keeps : Store → Store → Type 0
Keeps s s' =
    ((a b : ℕ) → has_edge s.ipsm_edges a b ≡ true → has_edge s'.ipsm_edges a b ≡ true)
    × ((id : ℕ) → has s.ipsm_nodes id ≡ true → has s'.ipsm_nodes id ≡ true)

add_state_graph :
    (id : ℕ) (seeds : List ℕ) (s : Store)
    → ((add_state id seeds s).ipsm_edges ≡ s.ipsm_edges)
      × ((add_state id seeds s).ipsm_nodes ≡ s.ipsm_nodes)
      × ((add_state id seeds s).khms_states ≡ put s.khms_states id (new_state id seeds))
      × ((add_state id seeds s).state_ids ≡ s.state_ids ++ id ∷ [])
unfolding add_state expand_was_fuzzed_map
add_state_graph id seeds s = elim (Bool-cases (id == 0)) [
  | inl z ↦ rw z (refl, refl, refl, refl)
  | inr nz ↦ rw nz (refl, refl, refl, refl)
]

or_true : (p : Bool) → (p || true) ≡ true
or_true true = refl
or_true false = refl

or_right : (p q : Bool) → q ≡ true → (p || q) ≡ true
or_right true q h = refl
or_right false q h = h

visit_node-Keeps :
    (id : ℕ) (s : Store)
    → Keeps s (visit_node id s)
      × (has (visit_node id s).ipsm_nodes id ≡ true)
      × ((visit_node id s).ipsm_edges ≡ s.ipsm_edges)
unfolding visit_node
visit_node-Keeps id s = elim (Bool-cases (has s.ipsm_nodes id)) [
  | inl old ↦ rw old ((λ a b h. h, λ x h. h), old, refl)
  | inr new ↦
      let s' = record s { ipsm_nodes = id ∷ s.ipsm_nodes } in
      let (edges, nodes, table, ids) = add_state_graph id [] s' in
      let self : (id == id) ≡ true = ground arith in
      rw (new, edges, nodes, self)
        ((λ a b h. h, λ x h. or_right (id == x) (has s.ipsm_nodes x) h), refl, refl)
]

-- Every node of the graph is a state of the table.
abbrev pub AllKnown : Store → Type 0
AllKnown s = (id : ℕ) → has s.ipsm_nodes id ≡ true → s.khms_states id ≢ none

visit_node-AllKnown : (id : ℕ) (s : Store) → AllKnown s → AllKnown (visit_node id s)
unfolding visit_node
visit_node-AllKnown id s k = elim (Bool-cases (has s.ipsm_nodes id)) [
  | inl old ↦ rw old k
  | inr new ↦
      let s' = record s { ipsm_nodes = id ∷ s.ipsm_nodes } in
      let (edges, nodes, table, ids) = add_state_graph id [] s' in
      rw (new, table, nodes)
        (λ x h. elim (Bool-cases (id == x)) [
          | inl same ↦ let back : (x == id) ≡ true = ground arith in rw back (λ o. cc)
          | inr other ↦ put_self-ne s.khms_states id x (new_state id []) (k x (rw other at h))
        ])
]

visit_edge-Keeps :
    (from to : ℕ) (s : Store)
    → Keeps s (visit_edge from to s)
      × (has_edge (visit_edge from to s).ipsm_edges from to ≡ true)
      × (has (visit_edge from to s).ipsm_nodes from ≡ true)
unfolding visit_edge
visit_edge-Keeps from to s =
    let (k, here, same) = visit_node-Keeps from s in
    let (k', there, same') = visit_node-Keeps to (visit_node from s) in
    let s' = visit_node to (visit_node from s) in
    elim (Bool-cases (has_edge s'.ipsm_edges from to)) [
      | inl old ↦
          rw old ((λ a b h. k'.0 a b (k.0 a b h), λ x h. k'.1 x (k.1 x h)), old, k'.1 from here)
      | inr new ↦
          let f : (from == from) ≡ true = ground arith in
          let t : (to == to) ≡ true = ground arith in
          rw (new, f, t)
            (
              (
                λ a b h.
                    or_right (from == a && to == b) (has_edge s'.ipsm_edges a b)
                      (k'.0 a b (k.0 a b h)),
                λ x h. k'.1 x (k.1 x h),
              ),
              refl,
              k'.1 from here,
            )
    ]

visit_edge-AllKnown : (from to : ℕ) (s : Store) → AllKnown s → AllKnown (visit_edge from to s)
unfolding visit_edge
visit_edge-AllKnown from to s k =
    let s' = visit_node to (visit_node from s) in
    let both = visit_node-AllKnown to (visit_node from s) (visit_node-AllKnown from s k) in
    elim (Bool-cases (has_edge s'.ipsm_edges from to)) [
      | inl old ↦ rw old both
      | inr new ↦ rw new both
    ]

visit_sequence-IsPath :
    (first : ℕ) (rest : List ℕ) (s : Store)
    → AllKnown s
    → IsPath (visit_sequence first rest s).ipsm_edges (first ∷ rest)
      × Keeps s (visit_sequence first rest s)
      × AllKnown (visit_sequence first rest s)
unfolding visit_sequence
visit_sequence-IsPath first [] s k = (tt, (λ a b h. h, λ x h. h), k)
visit_sequence-IsPath first (next ∷ rest) s k =
    let (kept, edge, node) = visit_edge-Keeps first next s in
    let (path, kept', known) =
      visit_sequence-IsPath next rest (visit_edge first next s)
        (visit_edge-AllKnown first next s k) in
    (
      (kept'.0 first next edge, path),
      (λ a b h. kept'.0 a b (kept.0 a b h), λ x h. kept'.1 x (kept.1 x h)),
      known,
    )

visit_sequence-node :
    (first second : ℕ) (rest : List ℕ) (s : Store)
    → AllKnown s
    → has (visit_sequence first (second ∷ rest) s).ipsm_nodes first ≡ true
unfolding visit_sequence
visit_sequence-node first second rest s k =
    let (step, edge, node) = visit_edge-Keeps first second s in
    let (path, kept, known) =
      visit_sequence-IsPath second rest (visit_edge first second s)
        (visit_edge-AllKnown first second s k) in
    kept.1 first node

update_ipsm_interesting :
    (hash32 : List ℕ → ℕ) (first second : ℕ) (rest : List ℕ) (s : Store)
    → (is_state_sequence_interesting hash32 s.khs_ipsm_paths (first ∷ second ∷ rest)).0 ≡ true
    → update_ipsm hash32 (first ∷ second ∷ rest) s
      ≡ visit_sequence first (second ∷ rest) (record s {
        khs_ipsm_paths =
            (is_state_sequence_interesting hash32 s.khs_ipsm_paths (first ∷ second ∷ rest)).1;
      })
unfolding update_ipsm
update_ipsm_interesting hash32 first second rest s h = rw h refl

-- For a store whose nodes are all in the table, and a sequence of two states and more that is
-- interesting: afterwards each step of the sequence is an edge, no node and no edge is lost, the
-- nodes are again all in the table, and so is the first state of the sequence.
pub update_ipsm-IsPath :
    (hash32 : List ℕ → ℕ) (first second : ℕ) (rest : List ℕ) (s : Store)
    → AllKnown s
    → (is_state_sequence_interesting hash32 s.khs_ipsm_paths (first ∷ second ∷ rest)).0 ≡ true
    → IsPath (update_ipsm hash32 (first ∷ second ∷ rest) s).ipsm_edges (first ∷ second ∷ rest)
      × Keeps s (update_ipsm hash32 (first ∷ second ∷ rest) s)
      × AllKnown (update_ipsm hash32 (first ∷ second ∷ rest) s)
      × ((update_ipsm hash32 (first ∷ second ∷ rest) s).khms_states first ≢ none)
update_ipsm-IsPath hash32 first second rest s k interesting =
    let s' = record s {
      khs_ipsm_paths =
          (is_state_sequence_interesting hash32 s.khs_ipsm_paths (first ∷ second ∷ rest)).1;
    } in
    let (path, kept, known) = visit_sequence-IsPath first (second ∷ rest) s' k in
    let seq = first ∷ second ∷ rest in
    subst
      (λ (t : Store).
        IsPath t.ipsm_edges seq × Keeps s t × AllKnown t × (t.khms_states first ≢ none))
      (sym (update_ipsm_interesting hash32 first second rest s interesting))
      (path, kept, known, known first (visit_sequence-node first second rest s' k))
