-- ===== src/States/Selection/RoundRobin.antt =====
-- Round robin, and the first cycles of the mode FAVOR.
use mathlib.Core.List.{append_assoc}
use aflnet_legion.Common.{
  ℕ, zero, suc, ◌+◌, ◌≤◌, ◌<◌, ◌≡◌, refl, sym, ap, ◌∙◌, Option, none, some, true, false, List, [],
  ◌∷◌, ◌++◌, ◌==◌, length, length-append, get_elem?, arith, lt→ltb,
}
use aflnet_legion.States.{Store}
use aflnet_legion.States.Selection.{
  Score, Mode, round_robin, favor, Choice, next_index, choose_target_state,
}

-- A call, and the calls that follow it.
abbrev pub and_then :
    Option (ℕ × Choice × Store)
    → (Choice → Store → Option (List ℕ × Choice))
    → Option (List ℕ × Choice)
and_then none f = none
and_then (some (id, c, s)) f = elim (f c s) [ none ↦ none | some (ids, c') ↦ some (id ∷ ids, c') ]

-- So many calls one after the other: the states they return, and the variables after them. The
-- numbers that `UR` returns are a parameter, by the calls that are left.
unfoldable pub turns : Score → (ℕ → ℕ) → Mode → ℕ → Choice → Store → Option (List ℕ × Choice)
unfolding choose_target_state
turns score rand mode zero c s = some ([], c)
turns score rand mode (suc n) c s =
    and_then (choose_target_state score (rand n) mode c s) (turns score rand mode n)

get_elem?-middle :
    (earlier later : List ℕ) (id : ℕ) → get_elem? (earlier ++ id ∷ later) (length earlier) ≡ some id
get_elem?-middle [] later id = refl
get_elem?-middle (x ∷ earlier) later id = get_elem?-middle earlier later id

abbrev choice : ℕ → ℕ → Choice
choice i cycles = record { selected_state_index = i; state_cycles = cycles }

-- What the cycle count becomes at the end of the array.
abbrev pub after_cycle : Mode → ℕ → ℕ
after_cycle favor cycles = cycles + 1
after_cycle _ cycles = cycles

module _ (score : Score) (rand : ℕ → ℕ) (s : Store) where
  -- A call in round robin and one in the first five cycles of FAVOR.
  round_robin_step :
      (i cycles id n : ℕ)
      → get_elem? s.state_ids i ≡ some id
      → choose_target_state score n round_robin (choice i cycles) s
        ≡ some (id, next_index (length s.state_ids) (choice i cycles) cycles, s)
  unfolding choose_target_state
  round_robin_step i cycles id n e = rw e refl

  favor_step :
      (i cycles id n : ℕ)
      → cycles < 5
      → get_elem? s.state_ids i ≡ some id
      → choose_target_state score n favor (choice i cycles) s
        ≡ some (id, next_index (length s.state_ids) (choice i cycles) (cycles + 1), s)
  unfolding choose_target_state
  favor_step i cycles id n few e = rw (lt→ltb cycles 5 few, e) refl

  module _ (mode : Mode) (cycles : ℕ)
      (step : (i id n : ℕ)
        → get_elem? s.state_ids i ≡ some id
        → choose_target_state score n mode (choice i cycles) s
          ≡ some (
            id,
            next_index (length s.state_ids) (choice i cycles) (after_cycle mode cycles),
            s,
          )) where
    turns_step :
        (i id n : ℕ)
        → get_elem? s.state_ids i ≡ some id
        → turns score rand mode (suc n) (choice i cycles) s
          ≡ and_then
              (some (
                id,
                next_index (length s.state_ids) (choice i cycles) (after_cycle mode cycles),
                s,
              ))
              (turns score rand mode n)
    unfolding turns
    turns_step i id n e = ap (λ o. and_then o (turns score rand mode n)) (step i id (rand n) e)

    turns_zero : (c : Choice) → turns score rand mode 0 c s ≡ some ([], c)
    unfolding turns
    turns_zero c = refl

    turns_next :
        (i id n : ℕ) (c : Choice) (rest : List ℕ) (c' : Choice)
        → get_elem? s.state_ids i ≡ some id
        → next_index (length s.state_ids) (choice i cycles) (after_cycle mode cycles) ≡ c
        → turns score rand mode n c s ≡ some (rest, c')
        → turns score rand mode (suc n) (choice i cycles) s ≡ some (id ∷ rest, c')
    turns_next i id n c rest c' e next later =
        turns_step i id n e
        ∙ ap (λ (d : Choice). and_then (some (id, d, s)) (turns score rand mode n)) next
        ∙ ap (λ (o : Option (List ℕ × Choice)). and_then (some (id, c, s)) (λ d t. o)) later

    turns_from :
        (earlier : List ℕ) (id : ℕ) (later : List ℕ)
        → s.state_ids ≡ earlier ++ id ∷ later
        → turns score rand mode (length (id ∷ later)) (choice (length earlier) cycles) s
          ≡ some (id ∷ later, choice 0 (after_cycle mode cycles))
    turns_from earlier id [] e =
        let here : get_elem? s.state_ids (length earlier) ≡ some id =
          rw e (get_elem?-middle earlier [] id) in
        let size : length s.state_ids ≡ length earlier + 1 =
          rw e (length-append earlier (id ∷ [])) in
        let last : (length earlier + 1 == length s.state_ids) ≡ true = ground arith in
        turns_next (length earlier) id 0 (choice 0 (after_cycle mode cycles)) []
          (choice 0 (after_cycle mode cycles)) here (rw last refl)
          (turns_zero (choice 0 (after_cycle mode cycles)))
    turns_from earlier id (next ∷ later) e =
        let here : get_elem? s.state_ids (length earlier) ≡ some id =
          rw e (get_elem?-middle earlier (next ∷ later) id) in
        let size : length s.state_ids ≡ length earlier + length (id ∷ next ∷ later) =
          rw e (length-append earlier (id ∷ next ∷ later)) in
        let more : (length earlier + 1 == length s.state_ids) ≡ false = ground arith in
        let index : length (earlier ++ id ∷ []) ≡ length earlier + 1 =
          length-append earlier (id ∷ []) in
        let rest =
          turns_from (earlier ++ id ∷ []) next later
            (e ∙ sym (append_assoc earlier (id ∷ []) (next ∷ later))) in
        let rest' : turns score rand mode (length (next ∷ later))
              (choice (length earlier + 1) cycles) s
            ≡ some (next ∷ later, choice 0 (after_cycle mode cycles)) =
          rw (← index) rest in
        turns_next (length earlier) id (length (next ∷ later)) (choice (length earlier + 1) cycles)
          (next ∷ later) (choice 0 (after_cycle mode cycles)) here (rw more refl) rest'

-- From index 0, as many calls as there are states return the states in the order of the array, each
-- once, and leave the index 0, so that the next cycle starts again: in the mode ROUND_ROBIN, which
-- leaves the number of cycles, and in the mode FAVOR as long as fewer than five cycles are counted,
-- which adds one. No random number is used.
pub choose_target_state-turns :
    (score : Score) (rand : ℕ → ℕ) (s : Store) (cycles : ℕ)
    → 1 ≤ length s.state_ids
    → cycles < 5
    → (turns score rand round_robin (length s.state_ids) (choice 0 cycles) s
        ≡ some (s.state_ids, choice 0 cycles))
      × (turns score rand favor (length s.state_ids) (choice 0 cycles) s
          ≡ some (s.state_ids, choice 0 (cycles + 1)))
choose_target_state-turns score rand s cycles h few = of s.state_ids refl h
  where
    of :
        (ids : List ℕ)
        → s.state_ids ≡ ids
        → 1 ≤ length ids
        → (turns score rand round_robin (length ids) (choice 0 cycles) s
            ≡ some (ids, choice 0 cycles))
          × (turns score rand favor (length ids) (choice 0 cycles) s
              ≡ some (ids, choice 0 (cycles + 1)))
    of [] e h = absurd (omega arith)
    of (id ∷ later) e h = (
      turns_from score rand s round_robin cycles
          (λ i x n. round_robin_step score rand s i cycles x n) [] id later e,
      turns_from score rand s favor cycles (λ i x n. favor_step score rand s i cycles x n few) [] id
          later e,
    )
