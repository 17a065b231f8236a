-- ===== src/States/SeedChoice/Favored.antt =====
-- Seeds that are favored while none is pending are never chosen but at the end of the last cycle.
use aflnet_legion.Common.{
  ℕ, zero, suc, ◌+◌, ◌-◌, ◌*◌, ◌<◌, ◌≡◌, refl, sym, ap, ◌∙◌, inl, inr, true, false, not, ◌&&◌,
  Option, none, some, List, [], ◌∷◌, ◌==◌, ltb, length, get_elem?, arith, Bool-cases, lt→ltb,
  ℕ_discrete,
}
use aflnet_legion.States.Selection.{favor}
use aflnet_legion.States.SeedChoice.{
  Seed, Situation, Pick, picked, no_seed, favor_test, seed_test, loop, choose_seed,
}
use aflnet_legion.States.SeedChoice.Termination.{get_elem?-inside, rounds, loop-seed, loop-over}

favor_test-favored :
    (c : Situation) (rand : ℕ → ℕ) (seed : Seed) (k : ℕ)
    → c.pending_favored ≡ 0
    → seed.favored ≡ true
    → (favor_test c rand seed k).0 ≡ false
unfolding favor_test
favor_test-favored c rand seed k p f = rw (p, f) refl

seed_test-favored :
    (c : Situation) (rand : ℕ → ℕ) (seed : Seed) (k : ℕ)
    → c.pending_favored ≡ 0
    → seed.favored ≡ true
    → (seed_test c rand seed k).0 ≡ false
unfolding seed_test
seed_test-favored c rand seed k p f =
    elim (Bool-cases
      (not (seed.generating_state_id == c.target_state_id) && not seed.is_initial_seed)) [
        | inl other ↦ rw other (elim (Bool-cases (ltb (rand k) 90)) [
          | inl likely ↦ rw likely refl
          | inr unlikely ↦ rw unlikely (favor_test-favored c rand seed (k + 1) p f)
        ])
        | inr own ↦ rw own (favor_test-favored c rand seed k p f)
      ]

abbrev pub AllFavored : List Seed → Type 0
AllFavored [] = Unit {0}
AllFavored (s ∷ seeds) = (s.favored ≡ true) × AllFavored seeds

AllFavored-get_elem? :
    (seeds : List Seed) (i : ℕ) (seed : Seed)
    → AllFavored seeds
    → get_elem? seeds i ≡ some seed
    → seed.favored ≡ true
AllFavored-get_elem? [] i seed h e = cc
AllFavored-get_elem? (s ∷ seeds) zero seed h e =
    ap (λ (o : Option Seed). elim o [ none ↦ true | some t ↦ t.favored ]) (sym e) ∙ h.0
AllFavored-get_elem? (s ∷ seeds) (suc i) seed h e = AllFavored-get_elem? seeds i seed h.1 e

module _ (c : Situation) (rand : ℕ → ℕ) (seeds : List Seed) (none_pending : c.pending_favored ≡ 0)
    (all : AllFavored seeds) (last : Seed)
    (is_last : get_elem? seeds (length seeds - 1) ≡ some last) where
  loop-last :
      (fuel i passed cycles k : ℕ) (result : Pick)
      → passed + cycles ≡ 5
      → i < length seeds
      → rounds c rand seeds cycles < fuel + i
      → (cycles ≡ 0 → (result ≡ picked last 0) × (0 < fuel))
      → loop c rand seeds fuel result i passed k ≡ picked last 0
  loop-last zero i passed zero k result sum inside w over =
      let (there, more) = over refl in absurd (omega arith)
  loop-last zero i passed (suc cycles) k result sum inside w over = absurd (omega arith)
  loop-last (suc fuel) i passed zero k result sum inside w over =
      let five : passed ≡ 5 = omega arith in
      rw (five, loop-over c rand seeds fuel i k result) ((over refl).0)
  loop-last (suc fuel) i passed (suc cycles) k result sum inside w over =
      let (seed, e) = get_elem?-inside seeds i inside in
      let skipped =
        seed_test-favored c rand seed k none_pending (AllFavored-get_elem? seeds i seed all e) in
      rw (loop-seed c rand seeds fuel i passed k result seed (omega arith) e, skipped)
        (elim (ℕ_discrete (i + 1) (length seeds)) [
          | yes wraps ↦
              let end : (i + 1 == length seeds) ≡ true = ground arith in
              let index : length seeds - 1 ≡ i = omega arith in
              let same : some seed ≡ some last = sym e ∙ rw index at is_last in
              let same' : seed ≡ last =
                ap (λ (o : Option Seed). elim o [ none ↦ seed | some t ↦ t ]) same in
              rw end (
                loop-last fuel 0 (passed + 1) cycles (seed_test c rand seed k).1 (picked seed 0)
                  (omega arith) (omega arith) (omega arith)
                  (λ z. (ap (λ t. picked t 0) same', omega arith)))
          | no goes_on ↦
              let within : (i + 1 == length seeds) ≡ false = ground arith in
              rw within (
                loop-last fuel (i + 1) passed (suc cycles) (seed_test c rand seed k).1
                  (picked seed (i + 1)) sum (omega arith) (omega arith) (λ z. absurd (omega arith)))
        ])

-- For more than ten seeds, all of them favored, and no favored seed pending in the queue: the mode
-- FAVOR returns the last seed of the list, whichever seed it starts at and whatever the random
-- numbers are, so that no other seed is ever chosen.
pub choose_seed-favored :
    (c : Situation) (rand : ℕ → ℕ) (seeds : List Seed) (i : ℕ) (last : Seed)
    → c.pending_favored ≡ 0
    → AllFavored seeds
    → 10 < length seeds
    → i < length seeds
    → get_elem? seeds (length seeds - 1) ≡ some last
    → choose_seed c rand favor seeds i ≡ picked last 0
unfolding choose_seed
choose_seed-favored c rand [] i last p all many h is_last = absurd (omega arith)
choose_seed-favored c rand (s ∷ seeds) i last p all many h is_last =
    rw (lt→ltb 10 (length (s ∷ seeds)) many) (
      loop-last c rand (s ∷ seeds) p all last is_last (5 * length (s ∷ seeds) + 1) i 0 5 0 no_seed
        refl h (omega arith) (λ z. absurd (omega arith)))
