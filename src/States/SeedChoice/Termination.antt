-- ===== src/States/SeedChoice/Termination.antt =====
-- The choice among many seeds ends, with a seed of the list.
use aflnet_legion.Common.{
  ℕ, zero, suc, ◌+◌, ◌*◌, ◌<◌, ◌≡◌, refl, inl, inr, true, false, some, List, [], ◌∷◌, ◌==◌, ltb,
  if◌then◌else◌, length, get_elem?, arith, Bool-cases, lt→ltb, ℕ_discrete,
}
use aflnet_legion.States.Selection.{round_robin, favor}
use aflnet_legion.States.SeedChoice.{
  Seed, Situation, Pick, picked, no_seed, out_of_bounds, no_fuel, next_index, pick, seed_test, loop,
  choose_seed,
}

-- A seed of the list, and an index into it.
abbrev pub IsPick : List Seed → Pick → Type 0
IsPick seeds (picked seed i) = ((j : ℕ) × (get_elem? seeds j ≡ some seed)) × (i < length seeds)
IsPick seeds no_seed = ⊥
IsPick seeds out_of_bounds = ⊥
IsPick seeds no_fuel = ⊥

pub get_elem?-inside :
    (seeds : List Seed) (i : ℕ) → i < length seeds → (seed : Seed) × (get_elem? seeds i ≡ some seed)
get_elem?-inside [] i h = absurd (omega arith)
get_elem?-inside (s ∷ seeds) zero h = (s, refl)
get_elem?-inside (s ∷ seeds) (suc i) h = get_elem?-inside seeds i (omega arith)

pub next_index-lt : (n i : ℕ) → i < n → next_index n i < n
next_index-lt n i h = ground arith

module _ (c : Situation) (rand : ℕ → ℕ) (seeds : List Seed) where
  -- The rounds of so many cycles.
  abbrev pub rounds : ℕ → ℕ
  rounds zero = 0
  rounds (suc cycles) = length seeds + rounds cycles

  -- One round.
  pub loop-seed :
      (fuel i passed k : ℕ) (result : Pick) (seed : Seed)
      → passed < 5
      → get_elem? seeds i ≡ some seed
      → loop c rand seeds (suc fuel) result i passed k ≡ (elim (seed_test c rand seed k).0 [
        | true ↦ picked seed (next_index (length seeds) i)
        | false ↦
            loop c rand seeds fuel
              (picked seed (next_index (length seeds) i))
              (next_index (length seeds) i)
              (if i + 1 == length seeds then passed + 1 else passed)
              (seed_test c rand seed k).1
      ])
  unfolding loop
  loop-seed fuel i passed k result seed few e = rw (loop, lt→ltb passed 5 few, e) refl

  pub loop-over :
      (fuel i k : ℕ) (result : Pick) → loop c rand seeds (suc fuel) result i 5 k ≡ result
  unfolding loop
  loop-over fuel i k result = refl

  loop-IsPick :
      (fuel i passed cycles k : ℕ) (result : Pick)
      → passed + cycles ≡ 5
      → i < length seeds
      → rounds cycles < fuel + i
      → (cycles ≡ 0 → IsPick seeds result × (0 < fuel))
      → IsPick seeds (loop c rand seeds fuel result i passed k)
  loop-IsPick zero i passed zero k result sum inside w over =
      let (there, more) = over refl in absurd (omega arith)
  loop-IsPick zero i passed (suc cycles) k result sum inside w over = absurd (omega arith)
  loop-IsPick (suc fuel) i passed zero k result sum inside w over =
      let five : passed ≡ 5 = omega arith in rw (five, loop-over fuel i k result) ((over refl).0)
  loop-IsPick (suc fuel) i passed (suc cycles) k result sum inside w over =
      let (seed, e) = get_elem?-inside seeds i inside in
      let next = next_index-lt (length seeds) i inside in
      rw (loop-seed fuel i passed k result seed (omega arith) e)
        (elim (Bool-cases (seed_test c rand seed k).0) [
          | inl chosen ↦ rw chosen ((i, e), next)
          | inr skipped ↦ rw skipped (elim (ℕ_discrete (i + 1) (length seeds)) [
            | yes wraps ↦
                let end : (i + 1 == length seeds) ≡ true = ground arith in
                rw end (
                  loop-IsPick fuel 0 (passed + 1) cycles (seed_test c rand seed k).1 (picked seed 0)
                    (omega arith) (omega arith) (omega arith)
                    (λ z. (((i, e), omega arith), omega arith)))
            | no goes_on ↦
                let within : (i + 1 == length seeds) ≡ false = ground arith in
                rw within (
                  loop-IsPick fuel (i + 1) passed (suc cycles) (seed_test c rand seed k).1
                    (picked seed (i + 1)) sum (omega arith) (omega arith)
                    (λ z. absurd (omega arith)))
          ])
        ])

pick-IsPick :
    (seeds : List Seed) (i j : ℕ)
    → i < length seeds
    → j < length seeds
    → IsPick seeds (pick (get_elem? seeds i) j)
pick-IsPick seeds i j h g = let (seed, e) = get_elem?-inside seeds i h in rw e ((i, e), g)

-- For a state with seeds and an index into them, in any situation and for any random numbers: in the
-- modes ROUND_ROBIN and FAVOR the choice ends, within five cycles over the seeds, reads no seed
-- outside of the list, and returns a seed of the list with an index into it for the next choice.
pub choose_seed-IsPick :
    (c : Situation) (rand : ℕ → ℕ) (seeds : List Seed) (i : ℕ)
    → i < length seeds
    → IsPick seeds (choose_seed c rand round_robin seeds i)
      × IsPick seeds (choose_seed c rand favor seeds i)
unfolding choose_seed
choose_seed-IsPick c rand [] i h = absurd (omega arith)
choose_seed-IsPick c rand (s ∷ seeds) i h =
    let next = next_index-lt (length (s ∷ seeds)) i h in
    let simple = pick-IsPick (s ∷ seeds) i (next_index (length (s ∷ seeds)) i) h next in
    (
      simple,
      elim (Bool-cases (ltb 10 (length (s ∷ seeds)))) [
        | inl many ↦ rw many (
            loop-IsPick c rand (s ∷ seeds) (5 * length (s ∷ seeds) + 1) i 0 5 0 no_seed refl h
              (omega arith) (λ z. absurd (omega arith)))
        | inr few ↦ rw few simple
      ],
    )
