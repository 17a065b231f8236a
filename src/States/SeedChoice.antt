-- ===== src/States/SeedChoice.antt =====
-- `choose_seed` (afl-fuzz.c). The numbers that the calls `UR(n)` return are a parameter, by the
-- number of the call.
pub mod Termination
pub mod Favored
use aflnet_legion.Common.{
  ℕ, zero, suc, ◌+◌, ◌-◌, ◌*◌, Bool, true, false, not, ◌&&◌, ◌||◌, Option, none, some, List, [],
  ◌∷◌, ◌==◌, ltb, if◌then◌else◌, length, get_elem?,
}
use aflnet_legion.States.{Cell, unreachable, not_fuzzed, fuzzed, Store, get_state_index}
use aflnet_legion.States.Selection.{
  Mode, invalid_selection, random_selection, round_robin, favor, mcts,
}

-- `queue_entry`, as far as the choice looks at it.
pub record Seed : Type 0 where
  pub index : ℕ
  pub generating_state_id : ℕ
  pub is_initial_seed : Bool
  pub favored : Bool

-- The variables that the choice reads.
pub record Situation : Type 0 where
  pub target_state_id : ℕ
  pub pending_favored : ℕ
  pub queued_paths : ℕ
  pub queue_cycle : ℕ
  pub store : Store

-- A seed with the new `selected_seed_index`; `NULL`; a read outside of the array; or the fuel has run
-- out.
pub data Pick : Type 0 where
  picked : Seed → ℕ → Pick
  no_seed : Pick
  out_of_bounds : Pick
  no_fuel : Pick

abbrev pub next_index : ℕ → ℕ → ℕ
next_index seeds_count i = if i + 1 == seeds_count then 0 else i + 1

abbrev pub pick : Option Seed → ℕ → Pick
pick none i = out_of_bounds
pick (some seed) i = picked seed i

abbrev pub is_fuzzed : Cell → Bool
is_fuzzed fuzzed = true
is_fuzzed _ = false

abbrev pub is_not_fuzzed : Cell → Bool
is_not_fuzzed not_fuzzed = true
is_not_fuzzed _ = false

-- `was_fuzzed_map[target_state_index][result->index]`
abbrev pub cell : Situation → Seed → Cell
cell c seed =
    c.store.was_fuzzed_map (get_state_index c.store.state_ids c.target_state_id) seed.index

-- The tests on `pending_favored` and behind it: whether the loop breaks with this seed, and the
-- number of the next random call. When no test applies the loop goes on.
unfoldable pub favor_test : Situation → (ℕ → ℕ) → Seed → ℕ → Bool × ℕ
unfolding get_state_index
favor_test c rand seed k =
    if not (c.pending_favored == 0)
    then if (is_fuzzed (cell c seed) || not seed.favored)
      then (not (ltb (rand k) 99), k + 1)
      else (true, k)
    else if not seed.favored && ltb 10 c.queued_paths
    then if ltb 1 c.queue_cycle && is_not_fuzzed (cell c seed)
      then (not (ltb (rand k) 75), k + 1)
      else (not (ltb (rand k) 95), k + 1)
    else (false, k)

-- The whole body behind the choice of `result`.
unfoldable pub seed_test : Situation → (ℕ → ℕ) → Seed → ℕ → Bool × ℕ
unfolding favor_test
seed_test c rand seed k =
    if not (seed.generating_state_id == c.target_state_id) && not seed.is_initial_seed
    then if ltb (rand k) 90 then (false, k + 1) else favor_test c rand seed (k + 1)
    else favor_test c rand seed k

-- `while (passed_cycles < 5)`, with fuel.
unfoldable pub loop : Situation → (ℕ → ℕ) → List Seed → ℕ → Pick → ℕ → ℕ → ℕ → Pick
unfolding seed_test
loop c rand seeds zero result i passed_cycles k = no_fuel
loop c rand seeds (suc fuel) result i passed_cycles k = elim (ltb passed_cycles 5) [
  | false ↦ result
  | true ↦ elim (get_elem? seeds i) [
    | none ↦ out_of_bounds
    | some seed ↦
        (let i' = next_index (length seeds) i in
          let passed = if i + 1 == length seeds then passed_cycles + 1 else passed_cycles in
          elim (seed_test c rand seed k).0 [
            | true ↦ picked seed i'
            | false ↦ loop c rand seeds fuel (picked seed i') i' passed (seed_test c rand seed k).1
          ])
  ]
]

-- The seeds and the index are those of the target state, which is taken to be in the table: the
-- program stops if it is not. One round for each seed and cycle, and one to see the end.
unfoldable pub choose_seed : Situation → (ℕ → ℕ) → Mode → List Seed → ℕ → Pick
unfolding loop
choose_seed c rand mode [] i = no_seed
choose_seed c rand random_selection (s ∷ seeds) i = pick (get_elem? (s ∷ seeds) (rand 0)) (rand 0)
choose_seed c rand round_robin (s ∷ seeds) i =
    pick (get_elem? (s ∷ seeds) i) (next_index (length (s ∷ seeds)) i)
choose_seed c rand favor (s ∷ seeds) i =
    if ltb 10 (length (s ∷ seeds))
    then loop c rand (s ∷ seeds) (5 * length (s ∷ seeds) + 1) no_seed i 0 0
    else pick (get_elem? (s ∷ seeds) i) (next_index (length (s ∷ seeds)) i)
choose_seed c rand invalid_selection (s ∷ seeds) i = no_seed
choose_seed c rand mcts (s ∷ seeds) i = no_seed
