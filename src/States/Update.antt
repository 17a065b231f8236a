-- ===== src/States/Update.antt =====
-- `update_region_annotations` and `update_state_aware_variables` (afl-fuzz.c). The two files that
-- the latter writes, the replayable path and the graph, are output only and left out.
use aflnet_legion.Common.{
  ℕ, ◌+◌, ◌-◌, Bool, ◌&&◌, ◌||◌, Option, none, some, List, [], ◌∷◌, ◌++◌, ◌==◌, ltb, if◌then◌else◌,
  length, take, get_elem?, Bytes,
}
use aflnet_legion.Region.{Region}
use aflnet_legion.States.{
  StateInfo, new_state, Cell, not_fuzzed, Store, has, has_edge, put, get_state_index,
  expand_was_fuzzed_map, get_unique_state_count, is_state_sequence_interesting, once_each, add_path,
}

-- The result, a fatal error of the program (`PFATAL`), or an access outside of an array.
pub data Outcome {ℓ} (A : Type ℓ) : Type ℓ where
  updated : A → Outcome A
  fatal : Outcome A
  out_of_bounds : Outcome A

infixl 5 ◌>>=◌
abbrev pub ◌>>=◌ {ℓ κ} : {A : Type ℓ} {B : Type κ} → Outcome A → (A → Outcome B) → Outcome B
updated a >>= f = f a
fatal >>= f = fatal
out_of_bounds >>= f = out_of_bounds

-- `queue_entry`, as far as it is about states.
pub record QueueEntry : Type 0 where
  pub index : ℕ
  pub regions : List Region
  pub unique_state_count : ℕ

-- An assignment to a cell of `was_fuzzed_map`.
unfoldable pub mark : ℕ → ℕ → Cell → Store → Outcome Store
mark i j cell s =
    if ltb i s.fuzzed_map_states && ltb j s.fuzzed_map_qentries
    then updated (record s {
      was_fuzzed_map = λ x y. if x == i && y == j then cell else s.was_fuzzed_map x y;
    })
    else out_of_bounds

-- A new state, into the table and the array, with a row of the map unless it is state 0.
unfoldable pub add_state : ℕ → List ℕ → Store → Store
unfolding expand_was_fuzzed_map
add_state id seeds s =
    let added = record s {
      khms_states = put s.khms_states id (new_state id seeds);
      state_ids = s.state_ids ++ id ∷ [];
    } in
    if id == 0 then added else expand_was_fuzzed_map 1 0 added

-- `agnode`: a node that is not in the graph yet is added, and its state with it.
unfoldable pub visit_node : ℕ → Store → Store
unfolding add_state
visit_node id s =
    if has s.ipsm_nodes id then s else add_state id [] (record s { ipsm_nodes = id ∷ s.ipsm_nodes })

-- One step of the loop over a sequence: both nodes and the edge.
unfoldable pub visit_edge : ℕ → ℕ → Store → Store
unfolding visit_node
visit_edge from to s =
    let s' = visit_node to (visit_node from s) in
    if has_edge s'.ipsm_edges from to
    then s'
    else record s' { ipsm_edges = (from, to) ∷ s'.ipsm_edges }

unfoldable pub visit_sequence : ℕ → List ℕ → Store → Store
unfolding visit_edge
visit_sequence previous [] s = s
visit_sequence previous (current ∷ rest) s =
    visit_sequence current rest (visit_edge previous current s)

-- `if (is_state_sequence_interesting(…)) { … if (state_count > 1) … }`
unfoldable pub update_ipsm : (List ℕ → ℕ) → List ℕ → Store → Store
unfolding visit_sequence is_state_sequence_interesting
update_ipsm hash32 state_sequence s =
    let (interesting, paths) =
      is_state_sequence_interesting hash32 s.khs_ipsm_paths state_sequence in
    let s' = record s { khs_ipsm_paths = paths } in
    if interesting
    then elim state_sequence [ [] ↦ s' | first ∷ rest ↦ visit_sequence first rest s' ]
    else s'

-- The annotations of the regions that were sent: the codes in the response up to that message, or
-- none where the response did not grow. The third argument is the size before. `messages_sent` is
-- the number of sizes.
unfoldable pub annotate :
    (Bytes → List ℕ) → Bytes → ℕ → List ℕ → List Region → Outcome (List Region)
annotate extract response_buf previous [] rs = updated rs
annotate extract response_buf previous (size ∷ sizes) [] = out_of_bounds
annotate extract response_buf previous (size ∷ sizes) (r ∷ rs) =
    let codes = extract (take size response_buf) in
    let r' =
      if size == 0 || size == previous
      then record r { state_sequence = none; state_count = 0 }
      else record r { state_sequence = some codes; state_count = length codes } in
    annotate extract response_buf size sizes rs >>= λ rs'. updated (r' ∷ rs')

unfoldable pub update_region_annotations :
    (Bytes → List ℕ) → Bytes → List ℕ → List Region → Outcome (List Region)
unfolding annotate
update_region_annotations extract response_buf response_bytes rs =
    annotate extract response_buf 0 response_bytes rs

abbrev pub add_seed : ℕ → StateInfo → StateInfo
add_seed q info = record info { seeds = info.seeds ++ q ∷ [] }

-- All seeds reach the initial state.
unfoldable pub reach_initial : ℕ → Store → Outcome Store
unfolding mark
reach_initial q s = elim (s.khms_states 0) [
  | none ↦ fatal
  | some info ↦
      mark 0 q not_fuzzed (record s { khms_states = put s.khms_states 0 (add_seed q info) })
]

-- `q->regions[i].state_sequence[regional_state_count - 1]`
abbrev pub reachable_state_id : Region → Option ℕ
reachable_state_id r = elim r.state_sequence [
  | none ↦ none
  | some codes ↦ get_elem? codes (r.state_count - 1)
]

-- The table with the seed added to a state, which is new if it is not there.
unfoldable pub reach_state : ℕ → ℕ → Store → Store
unfolding add_state
reach_state q id s = elim (s.khms_states id) [
  | none ↦ add_state id (q ∷ []) s
  | some info ↦ record s { khms_states = put s.khms_states id (add_seed q info) }
]

-- The states that the regions reach.
unfoldable pub reach_regions : ℕ → List Region → Store → Outcome Store
unfolding reach_state mark get_state_index
reach_regions q [] s = updated s
reach_regions q (r ∷ rs) s =
    let skipped = reach_regions q rs s in
    let reached = λ (id : ℕ).
      (let s' = reach_state q id s in
        mark (get_state_index s'.state_ids id) q not_fuzzed s' >>= reach_regions q rs) in
    if r.state_count == 0
    then skipped
    else elim (reachable_state_id r) [ none ↦ out_of_bounds | some id ↦ reached id ]

-- `paths_discovered++` for the target state, if it is in the table.
abbrev pub discover_path : ℕ → (ℕ → Option StateInfo) → ℕ → Option StateInfo
discover_path target states = elim (states target) [
  | none ↦ states
  | some info ↦ put states target (record info { paths_discovered = info.paths_discovered + 1 })
]

abbrev pub count_paths : Bool → ℕ → List ℕ → Store → Store
count_paths dry_run target state_sequence s =
    let states = once_each add_path [] s.khms_states state_sequence in
    record s { khms_states = if dry_run then states else discover_path target states }

-- Without a response nothing happens. `response_bytes` is `NULL` until a message is sent.
unfoldable pub update_state_aware_variables :
    (List ℕ → ℕ)
    → (Bytes → List ℕ)
    → Bytes
    → List ℕ
    → ℕ
    → Bool
    → QueueEntry
    → Store
    → Outcome (QueueEntry × Store)
unfolding update_ipsm update_region_annotations reach_initial reach_regions once_each
    get_unique_state_count
update_state_aware_variables hash32 extract [] response_bytes target dry_run q s = updated (q, s)
update_state_aware_variables hash32 extract response_buf [] target dry_run q s = updated (q, s)
update_state_aware_variables hash32 extract (b ∷ bs) (n ∷ ns) target dry_run q s =
    let state_sequence = extract (b ∷ bs) in
    let s₀ = update_ipsm hash32 state_sequence s in
    update_region_annotations extract (b ∷ bs) (n ∷ ns) q.regions >>= λ regions.
    reach_initial q.index s₀ >>= λ s₁. reach_regions q.index regions s₁ >>= λ s₂. updated (
      record q { regions = regions; unique_state_count = get_unique_state_count state_sequence },
      count_paths dry_run target state_sequence s₂,
    )
