-- ===== src/States/Consistency.antt =====
-- The table of states, the array of their ids and the map's rows fit together, and the graph's
-- update keeps that.
use aflnet_legion.Common.{
  ℕ, ◌+◌, ◌≤◌, ◌<◌, ◌≡◌, ◌≢◌, refl, sym, inl, inr, Bool, true, false, Option, none, List, [], ◌∷◌,
  ◌++◌, ◌==◌, if◌then◌else◌, length, length-append, arith, Bool-cases, ℕ_discrete, subst,
}
use aflnet_legion.States.{
  StateInfo, new_state, Store, has, has_edge, put, get_state_index, expand_was_fuzzed_map,
  is_state_sequence_interesting,
}
use aflnet_legion.States.Update.{add_state, visit_node, visit_edge, visit_sequence, update_ipsm}

-- Every state of the table is in the array.
abbrev pub AllIndexed : (ℕ → Option StateInfo) → List ℕ → Type 0
AllIndexed states ids = (id : ℕ) → states id ≢ none → get_state_index ids id < length ids

-- The row that the map has for state 0 before the state is found.
abbrev pub spare : List ℕ → ℕ
spare nodes = if has nodes 0 then 0 else 1

-- Every state of the table is in the array, the map has a row for each entry of the array, and `n`
-- columns.
abbrev pub IsConsistent : ℕ → Store → Type 0
IsConsistent n s =
    AllIndexed s.khms_states s.state_ids
    × (length s.state_ids + spare s.ipsm_nodes ≤ s.fuzzed_map_states)
    × (s.fuzzed_map_qentries ≡ n)

pub get_state_index-append_self :
    (ids : List ℕ) (id : ℕ) → get_state_index (ids ++ id ∷ []) id < length ids + 1
unfolding get_state_index
get_state_index-append_self [] id = ground arith
get_state_index-append_self (x ∷ ids) id = ground (arith, get_state_index-append_self ids id)

pub get_state_index-append :
    (ids : List ℕ) (x id : ℕ)
    → get_state_index ids x < length ids
    → get_state_index (ids ++ id ∷ []) x < length ids + 1
unfolding get_state_index
get_state_index-append [] x id h = absurd (omega arith)
get_state_index-append (y ∷ ids) x id h = ground (arith, get_state_index-append ids x id)

pub AllIndexed-put :
    (states : ℕ → Option StateInfo) (ids : List ℕ) (id : ℕ) (info : StateInfo)
    → AllIndexed states ids
    → AllIndexed (put states id info) (ids ++ id ∷ [])
AllIndexed-put states ids id info h x e =
    let size = length-append ids (id ∷ []) in
    elim (Bool-cases (x == id)) [
      | inl same ↦
          let eq : x ≡ id = ground arith in
          let self = get_state_index-append_self ids id in rw eq (omega arith)
      | inr other ↦ let old = get_state_index-append ids x id (h x (rw other at e)) in omega arith
    ]

-- An assignment to a state that is there.
pub AllIndexed-reput :
    (states : ℕ → Option StateInfo) (ids : List ℕ) (id : ℕ) (info : StateInfo)
    → AllIndexed states ids
    → states id ≢ none
    → AllIndexed (put states id info) ids
AllIndexed-reput states ids id info h there x e = elim (Bool-cases (x == id)) [
  | inl same ↦ let eq : x ≡ id = ground arith in rw eq (h id there)
  | inr other ↦ h x (rw other at e)
]

pub add_state-IsConsistent :
    (n id : ℕ) (seeds : List ℕ) (s : Store)
    → id ≢ 0
    → IsConsistent n s
    → IsConsistent n (add_state id seeds s)
unfolding add_state expand_was_fuzzed_map
add_state-IsConsistent n id seeds s ne h =
    let nonzero : (id == 0) ≡ false = ground arith in
    let size = length-append s.state_ids (id ∷ []) in
    rw nonzero (
      AllIndexed-put s.khms_states s.state_ids id (new_state id seeds) h.0,
      omega arith,
      omega arith,
    )

pub add_zero-IsConsistent :
    (n : ℕ) (s : Store)
    → IsConsistent n s
    → has s.ipsm_nodes 0 ≡ false
    → IsConsistent n (add_state 0 [] (record s { ipsm_nodes = 0 ∷ s.ipsm_nodes }))
unfolding add_state
add_zero-IsConsistent n s h new =
    let size = length-append s.state_ids (0 ∷ []) in
    let one : spare s.ipsm_nodes ≡ 1 = rw new refl in
    (AllIndexed-put s.khms_states s.state_ids 0 (new_state 0 []) h.0, omega arith, omega arith)

pub visit_node-IsConsistent :
    (n id : ℕ) (s : Store) → IsConsistent n s → IsConsistent n (visit_node id s)
unfolding visit_node
visit_node-IsConsistent n id s h = elim (Bool-cases (has s.ipsm_nodes id)) [
  | inl old ↦ rw old h
  | inr new ↦ rw new (elim (ℕ_discrete id 0) [
    | yes zero_id ↦
        subst (λ x. IsConsistent n (add_state x [] (record s { ipsm_nodes = x ∷ s.ipsm_nodes })))
          (sym zero_id) (add_zero-IsConsistent n s h (rw zero_id at new))
    | no other ↦
        let nonzero : (id == 0) ≡ false = ground arith in
        add_state-IsConsistent n id [] (record s { ipsm_nodes = id ∷ s.ipsm_nodes }) other
          (h.0, rw nonzero h.1, h.2)
  ])
]

pub visit_edge-IsConsistent :
    (n from to : ℕ) (s : Store) → IsConsistent n s → IsConsistent n (visit_edge from to s)
unfolding visit_edge
visit_edge-IsConsistent n from to s h =
    let s' = visit_node to (visit_node from s) in
    let both =
      visit_node-IsConsistent n to (visit_node from s) (visit_node-IsConsistent n from s h) in
    elim (Bool-cases (has_edge s'.ipsm_edges from to)) [
      | inl old ↦ rw old both
      | inr new ↦ rw new (both.0, both.1, both.2)
    ]

pub visit_sequence-IsConsistent :
    (n previous : ℕ) (rest : List ℕ) (s : Store)
    → IsConsistent n s
    → IsConsistent n (visit_sequence previous rest s)
unfolding visit_sequence
visit_sequence-IsConsistent n previous [] s h = h
visit_sequence-IsConsistent n previous (current ∷ rest) s h =
    visit_sequence-IsConsistent n current rest (visit_edge previous current s)
      (visit_edge-IsConsistent n previous current s h)

pub update_ipsm-IsConsistent :
    (n : ℕ) (hash32 : List ℕ → ℕ) (codes : List ℕ) (s : Store)
    → IsConsistent n s
    → IsConsistent n (update_ipsm hash32 codes s)
unfolding update_ipsm
update_ipsm-IsConsistent n hash32 codes s h =
    whichever (is_state_sequence_interesting hash32 s.khs_ipsm_paths codes).0
      (is_state_sequence_interesting hash32 s.khs_ipsm_paths codes).1 codes
  where
    whichever :
        (interesting : Bool) (paths codes' : List ℕ)
        → IsConsistent n (
            if interesting
            then (elim codes' [
              | [] ↦ record s { khs_ipsm_paths = paths }
              | first ∷ rest ↦ visit_sequence first rest (record s { khs_ipsm_paths = paths })
            ])
            else record s { khs_ipsm_paths = paths })
    whichever true paths [] = (h.0, h.1, h.2)
    whichever true paths (first ∷ rest) =
        visit_sequence-IsConsistent n first rest (record s { khs_ipsm_paths = paths })
          (h.0, h.1, h.2)
    whichever false paths codes' = (h.0, h.1, h.2)
