-- ===== src/Tests/SeedChoice.antt =====
-- The choice of a seed on small inputs.
use aflnet_legion.Common.{ℕ, ◌≡◌, refl, none, true, false, List, [], ◌∷◌, ◌++◌, replicate, arith}
use aflnet_legion.States.{unreachable, Store}
use aflnet_legion.States.Selection.{round_robin, favor}
use aflnet_legion.States.SeedChoice.{Seed, Situation, picked, choose_seed}
use aflnet_legion.States.SeedChoice.Termination.{IsPick, choose_seed-IsPick}
use aflnet_legion.States.SeedChoice.Favored.{choose_seed-favored}

abbrev store : Store
store = record {
  khms_states = λ id. none;
  state_ids = 7 ∷ [];
  ipsm_nodes = [];
  ipsm_edges = [];
  khs_ipsm_paths = [];
  was_fuzzed_map = λ i j. unreachable;
  fuzzed_map_states = 1;
  fuzzed_map_qentries = 12;
}

abbrev situation : Situation
situation = record {
  target_state_id = 7;
  pending_favored = 0;
  queued_paths = 12;
  queue_cycle = 1;
  store = store;
}

abbrev seed : ℕ → Seed
seed i = record { index = i; generating_state_id = 7; is_initial_seed = false; favored = true }

abbrev seeds : List Seed
seeds = replicate 10 (seed 0) ++ seed 1 ∷ []

round_robin_runs :
    choose_seed situation (λ k. 0) round_robin (seed 3 ∷ seed 4 ∷ []) 1 ≡ picked (seed 4) 0
unfolding choose_seed
round_robin_runs = refl

choose_seed-IsPick_example :
    IsPick seeds (choose_seed situation (λ k. 50) round_robin seeds 4)
    × IsPick seeds (choose_seed situation (λ k. 50) favor seeds 4)
choose_seed-IsPick_example = choose_seed-IsPick situation (λ k. 50) seeds 4 (omega arith)

choose_seed-favored_example : choose_seed situation (λ k. 50) favor seeds 4 ≡ picked (seed 1) 0
choose_seed-favored_example =
    choose_seed-favored situation (λ k. 50) seeds 4 (seed 1) refl
      (refl, (refl, (refl, (refl, (refl, (refl, (refl, (refl, (refl, (refl, (refl, tt)))))))))))
      (omega arith) (omega arith) refl
