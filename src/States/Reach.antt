-- ===== src/States/Reach.antt =====
-- `reach_initial`, `reach_state` and `reach_regions` stay in the map and keep it consistent.
use aflnet_legion.Common.{
  ℕ, suc, ◌-◌, ◌<◌, ◌≡◌, ◌≢◌, refl, inl, inr, true, false, ◌&&◌, Option, none, some, List, [], ◌∷◌,
  ◌==◌, if◌then◌else◌, length, get_elem?, arith, Option-cases, lt→ltb, ℕ_discrete,
}
use aflnet_legion.Region.{Region}
use aflnet_legion.States.{
  StateInfo, new_state, Cell, not_fuzzed, Store, put, get_state_index, expand_was_fuzzed_map,
}
use aflnet_legion.States.Once.{put_self-ne}
use aflnet_legion.States.Update.{
  Outcome, updated, fatal, out_of_bounds, ◌>>=◌, mark, add_state, add_seed, reach_initial,
  reachable_state_id, reach_state, reach_regions,
}
use aflnet_legion.States.Consistency.{IsConsistent, AllIndexed-reput, add_state-IsConsistent}

-- The outcome is no access outside of an array, a store that it holds is consistent and has
-- state 0, and a fatal error implies `F`.
abbrev pub IsSafe : Type 0 → ℕ → Outcome Store → Type 0
IsSafe F n (updated s) = IsConsistent n s × (s.khms_states 0 ≢ none)
IsSafe F n fatal = F
IsSafe F n out_of_bounds = ⊥

pub mark_inside :
    (i j : ℕ) (cell : Cell) (s : Store)
    → i < s.fuzzed_map_states
    → j < s.fuzzed_map_qentries
    → mark i j cell s
      ≡ updated (record s {
        was_fuzzed_map = λ x y. if x == i && y == j then cell else s.was_fuzzed_map x y;
      })
unfolding mark
mark_inside i j cell s p q =
    rw (lt→ltb i s.fuzzed_map_states p, lt→ltb j s.fuzzed_map_qentries q) refl

pub mark-IsSafe :
    (F : Type 0) (n i q : ℕ) (s : Store)
    → IsConsistent n s
    → s.khms_states 0 ≢ none
    → i < s.fuzzed_map_states
    → q < n
    → IsSafe F n (mark i q not_fuzzed s)
mark-IsSafe F n i q s h z p b =
    rw (mark_inside i q not_fuzzed s p (omega arith)) ((h.0, h.1, h.2), z)

pub reach_initial_found :
    (q : ℕ) (s : Store) (info : StateInfo)
    → s.khms_states 0 ≡ some info
    → reach_initial q s
      ≡ mark 0 q not_fuzzed (record s { khms_states = put s.khms_states 0 (add_seed q info) })
unfolding reach_initial
reach_initial_found q s info e = rw (reach_initial, e) refl

pub reach_initial_absent : (q : ℕ) (s : Store) → s.khms_states 0 ≡ none → reach_initial q s ≡ fatal
unfolding reach_initial
reach_initial_absent q s e = rw (reach_initial, e) refl

pub reach_initial-IsSafe :
    (n q : ℕ) (s : Store)
    → IsConsistent n s
    → q < n
    → IsSafe (s.khms_states 0 ≡ none) n (reach_initial q s)
reach_initial-IsSafe n q s h b = elim (Option-cases (s.khms_states 0)) [
  | inl absent ↦ rw (reach_initial_absent q s absent) absent
  | inr (info, e) ↦
      let there : s.khms_states 0 ≢ none = λ o. cc in
      let indexed = AllIndexed-reput s.khms_states s.state_ids 0 (add_seed q info) h.0 there in
      let zero_index = h.0 0 there in
      rw (reach_initial_found q s info e) (
        mark-IsSafe (s.khms_states 0 ≡ none) n 0 q
          (record s { khms_states = put s.khms_states 0 (add_seed q info) }) (indexed, h.1, h.2)
          (put_self-ne s.khms_states 0 0 (add_seed q info) there) (omega arith) b)
]

pub reach_state_found :
    (q id : ℕ) (s : Store) (info : StateInfo)
    → s.khms_states id ≡ some info
    → reach_state q id s ≡ record s { khms_states = put s.khms_states id (add_seed q info) }
unfolding reach_state
reach_state_found q id s info e = rw (reach_state, e) refl

pub reach_state_absent :
    (q id : ℕ) (s : Store) → s.khms_states id ≡ none → reach_state q id s ≡ add_state id (q ∷ []) s
unfolding reach_state
reach_state_absent q id s e = rw (reach_state, e) refl

pub add_state_table :
    (id : ℕ) (seeds : List ℕ) (s : Store)
    → id ≢ 0
    → (add_state id seeds s).khms_states ≡ put s.khms_states id (new_state id seeds)
unfolding add_state expand_was_fuzzed_map
add_state_table id seeds s ne = let nonzero : (id == 0) ≡ false = ground arith in rw nonzero refl

pub put_same-ne :
    (states : ℕ → Option StateInfo) (id : ℕ) (info : StateInfo) → put states id info id ≢ none
put_same-ne states id info e =
    let self : (id == id) ≡ true = ground arith in some-ne-none (rw self at e)
  where
    some-ne-none : some info ≡ none → ⊥
    some-ne-none e' = cc

-- The store stays consistent, and state 0 and the reached state are in the table afterwards.
pub reach_state-IsConsistent :
    (n q id : ℕ) (s : Store)
    → IsConsistent n s
    → s.khms_states 0 ≢ none
    → IsConsistent n (reach_state q id s)
      × ((reach_state q id s).khms_states 0 ≢ none)
      × ((reach_state q id s).khms_states id ≢ none)
reach_state-IsConsistent n q id s h z = elim (Option-cases (s.khms_states id)) [
  | inl absent ↦
      let ne : id ≢ 0 = λ e. z (rw (← e) absent) in
      rw (reach_state_absent q id s absent) (
        add_state-IsConsistent n id (q ∷ []) s ne h,
        rw (add_state_table id (q ∷ []) s ne)
            (put_self-ne s.khms_states id 0 (new_state id (q ∷ [])) z),
        rw (add_state_table id (q ∷ []) s ne)
            (put_same-ne s.khms_states id (new_state id (q ∷ []))),
      )
  | inr (info, e) ↦
      let there : s.khms_states id ≢ none = λ o. cc in
      rw (reach_state_found q id s info e) (
        (AllIndexed-reput s.khms_states s.state_ids id (add_seed q info) h.0 there, h.1, h.2),
        put_self-ne s.khms_states id 0 (add_seed q info) z,
        put_same-ne s.khms_states id (add_seed q info),
      )
]

-- A region's annotation: no sequence and the count 0, or a sequence and its length.
abbrev pub Matches : Option (List ℕ) → ℕ → Type 0
Matches none count = count ≡ 0
Matches (some codes) count = count ≡ length codes

abbrev pub AllAnnotated : List Region → Type 0
AllAnnotated [] = Unit {0}
AllAnnotated (r ∷ rs) = Matches r.state_sequence r.state_count × AllAnnotated rs

pub last_elem :
    (codes : List ℕ) → length codes ≢ 0 → (id : ℕ) × (get_elem? codes (length codes - 1) ≡ some id)
last_elem [] h = absurd (h refl)
last_elem (c ∷ []) h = (c, refl)
last_elem (c ∷ d ∷ cs) h =
    let (id, e) = last_elem (d ∷ cs) (omega arith) in
    let next : length (c ∷ d ∷ cs) - 1 ≡ suc (length (d ∷ cs) - 1) = omega arith in (id, rw next e)

pub reachable_state_id_lem :
    (r : Region)
    → Matches r.state_sequence r.state_count
    → r.state_count ≢ 0
    → (id : ℕ) × (reachable_state_id r ≡ some id)
reachable_state_id_lem r m ne = of r.state_sequence r.state_count m ne
  where
    of :
        (sequence : Option (List ℕ)) (count : ℕ)
        → Matches sequence count
        → count ≢ 0
        → (id : ℕ) × ((elim sequence [ none ↦ none | some codes ↦ get_elem? codes (count - 1) ])
            ≡ some id)
    of none count m ne = absurd (ne m)
    of (some codes) count m ne = let (id, e) = last_elem codes (omega arith) in (id, rw m e)

pub bind-IsSafe :
    (F : Type 0) (n : ℕ) (o : Outcome Store) (f : Store → Outcome Store)
    → IsSafe F n o
    → ((s : Store) → IsSafe F n (updated s) → IsSafe F n (f s))
    → IsSafe F n (o >>= f)
bind-IsSafe F n (updated s) f h g = g s h
bind-IsSafe F n fatal f h g = h
bind-IsSafe F n out_of_bounds f h g = h

pub reach_regions-IsSafe :
    (F : Type 0) (n q : ℕ) (rs : List Region) (s : Store)
    → q < n
    → AllAnnotated rs
    → IsSafe F n (updated s)
    → IsSafe F n (reach_regions q rs s)
unfolding reach_regions
reach_regions-IsSafe F n q [] s b a h = h
reach_regions-IsSafe F n q (r ∷ rs) s b a h = elim (ℕ_discrete r.state_count 0) [
  | yes none_there ↦
      let skip : (r.state_count == 0) ≡ true = ground arith in
      rw (reach_regions, skip) (reach_regions-IsSafe F n q rs s b a.1 h)
  | no some_there ↦
      let visit : (r.state_count == 0) ≡ false = ground arith in
      let (id, e) = reachable_state_id_lem r a.0 some_there in
      let (c, z, there) = reach_state-IsConsistent n q id s h.0 h.1 in
      let inside = c.0 id there in
      rw (reach_regions, visit, e)
        (bind-IsSafe F n
          (mark (get_state_index (reach_state q id s).state_ids id) q not_fuzzed
            (reach_state q id s))
          (reach_regions q rs)
          (mark-IsSafe F n (get_state_index (reach_state q id s).state_ids id) q
            (reach_state q id s) c z (omega arith) b)
          (λ s' h'. reach_regions-IsSafe F n q rs s' b a.1 h'))
]
