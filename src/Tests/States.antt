-- ===== src/Tests/States.antt =====
-- The states' bookkeeping on small inputs.
use aflnet_legion.Common.{
  ℕ, ltb, ◌&&◌, ◌+◌, ◌*◌, ◌≡◌, ◌≢◌, refl, true, false, none, some, List, [], ◌∷◌, if◌then◌else◌,
  length, arith, Bytes,
}
use mathlib.Core.Option.{map}
use aflnet_legion.Region.{region}
use aflnet_legion.States.{
  expand_was_fuzzed_map, new_state, unreachable, Store, has, trim, is_state_sequence_interesting,
  get_unique_state_count, update_fuzzs, add_fuzz,
}
use aflnet_legion.States.Update.{
  QueueEntry, add_state, update_ipsm, reach_state, update_state_aware_variables,
}
use aflnet_legion.States.Bounds.{IsUpdated, update_state_aware_variables-IsUpdated}
use aflnet_legion.States.Cells.{expand_was_fuzzed_map_lem}
use aflnet_legion.States.Transitions.{IsPath, Keeps, AllKnown, update_ipsm-IsPath}
use aflnet_legion.States.Transitions.Overwritten.{times, update_ipsm-reach_state}
use aflnet_legion.States.Counts.{AllDistinct, update_fuzzs_lem, get_unique_state_count_lem}
use aflnet_legion.States.Sequences.{NoThree, trim_lem, is_state_sequence_interesting-again}
use aflnet_legion.States.Selection.{Score, round_robin, favor, update_scores_and_select_next_state}
use aflnet_legion.States.Selection.Chances.{IsChosen, update_scores_and_select_next_state-IsChosen}
use aflnet_legion.States.Selection.RoundRobin.{turns, choose_target_state-turns}

-- The store after a first queue entry is added: a map of one row and one column.
abbrev initial : Store
initial = record {
  khms_states = λ id. none;
  state_ids = [];
  ipsm_nodes = [];
  ipsm_edges = [];
  khs_ipsm_paths = [];
  was_fuzzed_map = λ i j. unreachable;
  fuzzed_map_states = 1;
  fuzzed_map_qentries = 1;
}

abbrev hash : List ℕ → ℕ
hash [] = 0
hash (x ∷ xs) = 7 * x + 3 * hash xs + 1

-- One code a byte, behind the initial state.
abbrev extract : Bytes → List ℕ
extract buf = 0 ∷ buf

abbrev entry : QueueEntry
entry = record { index = 0; regions = region 0 1 ∷ region 2 4 ∷ []; unique_state_count = 0 }

update_state_aware_variables-IsUpdated_example :
    IsUpdated
      ((update_ipsm hash (extract (5 ∷ 6 ∷ [])) initial).khms_states 0 ≡ none)
      1
      (update_state_aware_variables hash extract (5 ∷ 6 ∷ []) (1 ∷ 2 ∷ []) 0 true entry initial)
update_state_aware_variables-IsUpdated_example =
    update_state_aware_variables-IsUpdated hash extract (5 ∷ 6 ∷ []) (1 ∷ 2 ∷ []) 0 true entry
      initial 1 (omega arith) (omega arith) (omega arith) (refl, (refl, tt)) (omega arith)
      ((λ id h. absurd (h refl)), omega arith, refl)

update_ipsm-IsPath_example :
    IsPath (update_ipsm hash (0 ∷ 5 ∷ []) initial).ipsm_edges (0 ∷ 5 ∷ [])
    × Keeps initial (update_ipsm hash (0 ∷ 5 ∷ []) initial)
    × AllKnown (update_ipsm hash (0 ∷ 5 ∷ []) initial)
    × ((update_ipsm hash (0 ∷ 5 ∷ []) initial).khms_states 0 ≢ none)
unfolding is_state_sequence_interesting
update_ipsm-IsPath_example = update_ipsm-IsPath hash 0 5 [] initial (λ id h. cc) refl

update_ipsm-reach_state_example :
    let reached = reach_state 0 5 initial in
    let after = update_ipsm hash (0 ∷ 5 ∷ []) reached in
    (reached.khms_states 5 ≡ some (new_state 5 (0 ∷ [])))
    × (has reached.ipsm_nodes 5 ≡ false)
    × (after.khms_states 5 ≡ some (new_state 5 []))
    × (times 5 after.state_ids ≡ times 5 initial.state_ids + 2)
unfolding reach_state add_state expand_was_fuzzed_map is_state_sequence_interesting
update_ipsm-reach_state_example =
    update_ipsm-reach_state hash 0 5 0 5 [] initial refl refl refl refl

update_fuzzs_at_input : (update_fuzzs extract (5 ∷ 5 ∷ []) initial).khms_states 5 ≡ (
    if has (extract (5 ∷ 5 ∷ [])) 5
    then map add_fuzz (initial.khms_states 5)
    else initial.khms_states 5)
update_fuzzs_at_input = update_fuzzs_lem extract (5 ∷ 5 ∷ []) initial 5

get_unique_state_count_at_input :
    (ids : List ℕ) × AllDistinct ids
    × ((id : ℕ) → has ids id ≡ has (1 ∷ 2 ∷ 1 ∷ []) id)
    × (get_unique_state_count (1 ∷ 2 ∷ 1 ∷ []) ≡ length ids)
get_unique_state_count_at_input = get_unique_state_count_lem (1 ∷ 2 ∷ 1 ∷ [])

trim_runs : trim (1 ∷ 2 ∷ 2 ∷ 2 ∷ 2 ∷ 1 ∷ []) ≡ 1 ∷ 2 ∷ 2 ∷ 1 ∷ []
unfolding trim
trim_runs = refl

trim_at_input :
    NoThree (trim (2 ∷ 2 ∷ 2 ∷ []))
    × (trim (trim (2 ∷ 2 ∷ 2 ∷ [])) ≡ trim (2 ∷ 2 ∷ 2 ∷ []))
    × ((id : ℕ) → has (trim (2 ∷ 2 ∷ 2 ∷ [])) id ≡ has (2 ∷ 2 ∷ 2 ∷ []) id)
trim_at_input = trim_lem (2 ∷ 2 ∷ 2 ∷ [])

interesting_again_at_input :
    is_state_sequence_interesting hash
      (is_state_sequence_interesting hash [] (2 ∷ 2 ∷ 2 ∷ [])).1
      (2 ∷ 2 ∷ [])
    ≡ (false, (is_state_sequence_interesting hash [] (2 ∷ 2 ∷ 2 ∷ [])).1)
unfolding trim
interesting_again_at_input =
    is_state_sequence_interesting-again hash [] (2 ∷ 2 ∷ 2 ∷ []) (2 ∷ 2 ∷ []) refl

-- Two states.
abbrev two : Store
two = record initial { khms_states = λ id. some (new_state id []); state_ids = 0 ∷ 5 ∷ [] }

-- A score that depends on nothing.
abbrev even_score : Score
even_score a b c = 1

update_scores_and_select_next_state-IsChosen_example :
    IsChosen even_score two.khms_states 1 0
      (0 ∷ 5 ∷ [])
      (update_scores_and_select_next_state even_score 1 two).0
update_scores_and_select_next_state-IsChosen_example =
    update_scores_and_select_next_state-IsChosen even_score 1 two
      ((new_state 0 [], refl), ((new_state 5 [], refl), tt)) (omega arith) (omega arith)

-- Both numbers that are possible select state 0.
last_is_never_selected :
    ((update_scores_and_select_next_state even_score 0 two).0 ≡ 0)
    × ((update_scores_and_select_next_state even_score 1 two).0 ≡ 0)
unfolding update_scores_and_select_next_state
last_is_never_selected = (refl, refl)

choose_target_state-turns_example :
    (turns even_score
        (λ n. 0)
        round_robin
        2
        (record { selected_state_index = 0; state_cycles = 3 })
        two
      ≡ some (0 ∷ 5 ∷ [], record { selected_state_index = 0; state_cycles = 3 }))
    × (turns even_score (λ n. 0) favor 2 (record { selected_state_index = 0; state_cycles = 3 }) two
        ≡ some (0 ∷ 5 ∷ [], record { selected_state_index = 0; state_cycles = 4 }))
choose_target_state-turns_example =
    choose_target_state-turns even_score (λ n. 0) two 3 (omega arith) (omega arith)

-- A second queue entry.
map_cells_at_input :
    (expand_was_fuzzed_map 0 1 initial).was_fuzzed_map 0 1
    ≡ (if ltb 0 1 && ltb 1 1 then initial.was_fuzzed_map 0 1 else unreachable)
unfolding expand_was_fuzzed_map
map_cells_at_input = expand_was_fuzzed_map_lem 0 1 initial 0 1 (omega arith) (omega arith)
