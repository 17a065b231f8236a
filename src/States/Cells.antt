-- ===== src/States/Cells.antt =====
-- What a larger map of fuzzed states holds.
use aflnet_legion.Common.{ℕ, ◌<◌, ◌≡◌, ◌&&◌, ltb, if◌then◌else◌, arith, dec_lt}
use aflnet_legion.States.{unreachable, Store, expand_was_fuzzed_map}

-- For every cell of the new map: a cell of the old map keeps its value, and a cell of a new row or a
-- new column is unreachable, whatever lay there before.
pub expand_was_fuzzed_map_lem :
    (new_states new_qentries : ℕ) (s : Store) (i j : ℕ)
    → i < (expand_was_fuzzed_map new_states new_qentries s).fuzzed_map_states
    → j < (expand_was_fuzzed_map new_states new_qentries s).fuzzed_map_qentries
    → (expand_was_fuzzed_map new_states new_qentries s).was_fuzzed_map i j ≡ (
        if ltb i s.fuzzed_map_states && ltb j s.fuzzed_map_qentries
        then s.was_fuzzed_map i j
        else unreachable)
unfolding expand_was_fuzzed_map
expand_was_fuzzed_map_lem m n s i j p q = elim (dec_lt i s.fuzzed_map_states) [
  | no new_row ↦ ground arith
  | yes old_row ↦ elim (dec_lt j s.fuzzed_map_qentries) [
    | no new_column ↦ ground arith
    | yes old_column ↦ ground arith
  ]
]
