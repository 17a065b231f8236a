-- ===== src/States/Selection.antt =====
-- `index_search`, `update_scores_and_select_next_state` and `choose_target_state` (afl-fuzz.c). The
-- score of the mode FAVOR is floating-point arithmetic and a parameter; a call `UR(n)` is a
-- parameter too, as the number it returns.
pub mod RoundRobin
pub mod Chances
use aflnet_legion.Common.{
  ℕ, zero, suc, ◌+◌, ◌≤◌, ◌<◌, ◌≡◌, Option, none, some, Bool, true, false, List, [], ◌∷◌, ◌++◌,
  ◌==◌, ltb, leb, if◌then◌else◌, length, get_or, get_elem?, add32,
}
use aflnet_legion.States.{StateInfo, Store, put}

unfoldable pub index_search : List ℕ → ℕ → ℕ
index_search [] val = 0
index_search (a ∷ rest) val =
    let later = index_search rest val in if leb val a then 0 else suc later

-- A score, from `fuzzs`, `selected_times` and `paths_discovered`.
abbrev pub Score : Type 0
Score = ℕ → ℕ → ℕ → ℕ

abbrev pub score_at : Score → StateInfo → ℕ
score_at score info = score info.fuzzs info.selected_times info.paths_discovered

-- The table with new scores for the states of the array.
unfoldable pub rescore : Score → List ℕ → (ℕ → Option StateInfo) → ℕ → Option StateInfo
rescore score [] states = states
rescore score (id ∷ ids) states = elim (states id) [
  | none ↦ rescore score ids states
  | some info ↦ rescore score ids (put states id (record info { score = score_at score info }))
]

-- The sums of the scores up to each state; `total` is the sum before the rest. A state that is not
-- in the table leaves its sum 0, as `ck_alloc` has set it. The sums are `u32`.
unfoldable pub cumulate : Score → (ℕ → Option StateInfo) → ℕ → List ℕ → List ℕ
cumulate score states total [] = []
cumulate score states total (id ∷ ids) = elim (states id) [
  | none ↦ 0 ∷ cumulate score states 0 ids
  | some info ↦ let sum = add32 total (score_at score info) in sum ∷ cumulate score states sum ids
]

-- The state for the number that `UR` returns, and the table with the new scores.
unfoldable pub update_scores_and_select_next_state : Score → ℕ → Store → ℕ × Store
unfolding index_search cumulate rescore
update_scores_and_select_next_state score rand_v s =
    let state_scores = cumulate score s.khms_states 0 s.state_ids in
    (
      get_or s.state_ids (index_search state_scores rand_v) 0,
      record s { khms_states = rescore score s.state_ids s.khms_states },
    )

-- `INVALID_SELECTION`, … of aflnet.h
pub data Mode : Type 0 where
  invalid_selection : Mode
  random_selection : Mode
  round_robin : Mode
  favor : Mode
  mcts : Mode

-- The variables `selected_state_index` and `state_cycles`.
pub record Choice : Type 0 where
  pub selected_state_index : ℕ
  pub state_cycles : ℕ

-- `selected_state_index++`, and back to 0 at the end of the array, where `state_cycles` becomes the
-- third argument.
abbrev pub next_index : ℕ → Choice → ℕ → Choice
next_index state_ids_count c cycles =
    if c.selected_state_index + 1 == state_ids_count
    then record { selected_state_index = 0; state_cycles = cycles }
    else record c { selected_state_index = c.selected_state_index + 1 }

-- A state of the array with what the call leaves; `none` is a read outside of the array.
abbrev pub chosen : Option ℕ → Choice → Store → Option (ℕ × Choice × Store)
chosen none c s = none
chosen (some id) c s = some (id, c, s)

-- The second argument is the number that `UR` returns where the mode calls it.
unfoldable pub choose_target_state : Score → ℕ → Mode → Choice → Store → Option (ℕ × Choice × Store)
unfolding update_scores_and_select_next_state
choose_target_state score rand random_selection c s =
    chosen (get_elem? s.state_ids rand) (record c { selected_state_index = rand }) s
choose_target_state score rand round_robin c s =
    chosen (get_elem? s.state_ids c.selected_state_index)
      (next_index (length s.state_ids) c c.state_cycles) s
choose_target_state score rand favor c s =
    let (id, s') = update_scores_and_select_next_state score rand s in
    if ltb c.state_cycles 5
    then chosen (get_elem? s.state_ids c.selected_state_index)
        (next_index (length s.state_ids) c (c.state_cycles + 1)) s
    else some (id, c, s')
choose_target_state score rand invalid_selection c s = some (0, c, s)
choose_target_state score rand mcts c s = some (0, c, s)
