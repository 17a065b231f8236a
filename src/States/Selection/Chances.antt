-- ===== src/States/Selection/Chances.antt =====
-- Which state a random number selects.
use aflnet_legion.Common.{
  ℕ, ◌+◌, ◌≤◌, ◌<◌, ◌≡◌, refl, ap, ◌⊎◌, inl, inr, Option, none, some, List, [], ◌∷◌, ◌++◌, leb,
  length, get_or, arith, Bool-cases, add32, u32_mod,
}
use aflnet_legion.States.{StateInfo, Store}
use aflnet_legion.States.Selection.{
  index_search, Score, score_at, cumulate, update_scores_and_select_next_state,
}

-- The score of a state of the table, and the sum for several.
abbrev pub score_of : Score → Option StateInfo → ℕ
score_of score none = 0
score_of score (some info) = score_at score info

abbrev pub total : Score → (ℕ → Option StateInfo) → List ℕ → ℕ
total score states [] = 0
total score states (id ∷ ids) = score_of score (states id) + total score states ids

abbrev pub AllFound : (ℕ → Option StateInfo) → List ℕ → Type 0
AllFound states [] = Unit {0}
AllFound states (id ∷ ids) = ((info : StateInfo) × (states id ≡ some info)) × AllFound states ids

nonempty :
    (score : Score) (states : ℕ → Option StateInfo) (ids : List ℕ)
    → 0 < total score states ids
    → 1 ≤ length ids
nonempty score states [] h = absurd (omega arith)
nonempty score states (id ∷ ids) h = omega arith

module _ (score : Score) (states : ℕ → Option StateInfo) (val : ℕ) where
  -- The state that is found from a sum on: the number is behind the states before it and not behind
  -- the state.
  abbrev pub IsChosen : ℕ → List ℕ → ℕ → Type 0
  IsChosen before ids id =
      (earlier : List ℕ) × (later : List ℕ) × (ids ≡ earlier ++ id ∷ later)
      × ((earlier ≡ []) ⊎ (before + total score states earlier < val))
      × (val ≤ before + total score states earlier + score_of score (states id))

  cumulate_found :
      (before id : ℕ) (ids : List ℕ) (info : StateInfo)
      → states id ≡ some info
      → before + score_at score info < u32_mod
      → cumulate score states before (id ∷ ids)
        ≡ (before + score_at score info) ∷ cumulate score states (before + score_at score info) ids
  unfolding cumulate
  cumulate_found before id ids info e small =
      let same : add32 before (score_at score info) ≡ before + score_at score info = omega arith in
      rw (cumulate, e, same) refl

  pub index_search-cumulate :
      (ids : List ℕ) (before : ℕ)
      → AllFound states ids
      → before + total score states ids < u32_mod
      → val ≤ before + total score states ids
      → 1 ≤ length ids
      → (id : ℕ) × (get_or ids (index_search (cumulate score states before ids) val) 0 ≡ id)
        × IsChosen before ids id
  unfolding index_search
  index_search-cumulate [] before all small h ne = absurd (omega arith)
  index_search-cumulate (id ∷ ids) before all small h ne =
      let ((info, e), rest) = all in
      let here : score_of score (states id) ≡ score_at score info = rw e refl in
      rw (cumulate_found before id ids info e (omega arith))
        (elim (Bool-cases (leb val (before + score_at score info))) [
          | inl first ↦ (id, rw first refl, ([], ids, refl, inl refl, ground arith))
          | inr further ↦
              let beyond : before + score_at score info < val = ground arith in
              let (id', same, (earlier, later, split, low, high)) =
                index_search-cumulate ids (before + score_at score info) rest (omega arith)
                  (omega arith) (nonempty score states ids (omega arith)) in
              let low' : before + (score_of score (states id) + total score states earlier) < val =
                elim low [
                  | inl none_there ↦ rw (none_there) (omega arith)
                  | inr some_there ↦ omega arith
                ] in
              (
                id',
                rw further same,
                (id ∷ earlier, later, ap (◌∷◌ id) split, inr low', omega arith),
              )
        ])

-- For states that are all in the table, with scores whose sum is a `u32`, and a number below this
-- sum: the state that is selected is the one for which the number lies above the sum of the scores before it, or which
-- is the first, and at most at the sum with its own score.
pub update_scores_and_select_next_state-IsChosen :
    (score : Score) (rand_v : ℕ) (s : Store)
    → AllFound s.khms_states s.state_ids
    → total score s.khms_states s.state_ids < u32_mod
    → rand_v < total score s.khms_states s.state_ids
    → IsChosen score s.khms_states rand_v 0 s.state_ids
        (update_scores_and_select_next_state score rand_v s).0
unfolding update_scores_and_select_next_state
update_scores_and_select_next_state-IsChosen score rand_v s all small h =
    let (id, same, chosen) =
      index_search-cumulate score s.khms_states rand_v s.state_ids 0 all (omega arith) (omega arith)
        (nonempty score s.khms_states s.state_ids (omega arith)) in
    rw same chosen
