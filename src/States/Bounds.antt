-- ===== src/States/Bounds.antt =====
-- `update_state_aware_variables` stays in its arrays.
use aflnet_legion.Common.{
  ℕ, ◌≤◌, ◌<◌, ◌≡◌, ◌≢◌, refl, inl, inr, Bool, true, false, ◌||◌, Option, none, some, List, [], ◌∷◌,
  ◌==◌, if◌then◌else◌, length, take, Bytes, arith, Bool-cases,
}
use aflnet_legion.Region.{Region}
use aflnet_legion.States.{StateInfo, Store, once_each, add_path}
use aflnet_legion.States.Once.{
  SameDomain, then_SameDomain, once_each-SameDomain, discover_path-SameDomain,
}
use aflnet_legion.States.Update.{
  Outcome, updated, fatal, out_of_bounds, ◌>>=◌, QueueEntry, update_ipsm, annotate,
  update_region_annotations, reach_initial, reach_regions, discover_path, count_paths,
  update_state_aware_variables,
}
use aflnet_legion.States.Consistency.{IsConsistent, update_ipsm-IsConsistent}
use aflnet_legion.States.Reach.{IsSafe, reach_initial-IsSafe, AllAnnotated, reach_regions-IsSafe}

annotate_lem :
    (extract : Bytes → List ℕ) (buf : Bytes) (previous : ℕ) (sizes : List ℕ) (rs : List Region)
    → AllAnnotated rs
    → length sizes ≤ length rs
    → (rs' : List Region) × (annotate extract buf previous sizes rs ≡ updated rs')
      × AllAnnotated rs'
unfolding annotate
annotate_lem extract buf previous [] rs a h = (rs, refl, a)
annotate_lem extract buf previous (size ∷ sizes) [] a h = absurd (omega arith)
annotate_lem extract buf previous (size ∷ sizes) (r ∷ rs) a h =
    let (rs', e, a') = annotate_lem extract buf size sizes rs a.1 (omega arith) in
    elim (Bool-cases (size == 0 || size == previous)) [
      | inl none_there ↦ (
        record r { state_sequence = none; state_count = 0 } ∷ rs',
        rw (e, none_there) refl,
        (refl, a'),
      )
      | inr some_there ↦ (
        record r {
          state_sequence = some (extract (take size buf));
          state_count = length (extract (take size buf));
        }
            ∷ rs',
        rw (e, some_there) refl,
        (refl, a'),
      )
    ]

-- The outcome is no access outside of an array; the new store is consistent and has state 0, and
-- the entry's regions are annotated; a fatal error implies `F`.
abbrev pub IsUpdated : Type 0 → ℕ → Outcome (QueueEntry × Store) → Type 0
IsUpdated F n (updated (q, s)) =
    IsConsistent n s × (s.khms_states 0 ≢ none) × AllAnnotated q.regions
IsUpdated F n fatal = F
IsUpdated F n out_of_bounds = ⊥

count_paths-IsConsistent :
    (n target : ℕ) (dry_run : Bool) (codes : List ℕ) (s : Store)
    → IsConsistent n s
    → s.khms_states 0 ≢ none
    → IsConsistent n (count_paths dry_run target codes s)
      × ((count_paths dry_run target codes s).khms_states 0 ≢ none)
count_paths-IsConsistent n target dry_run codes s h z = by_domain dry_run
  where
    states : ℕ → Option StateInfo
    states = once_each add_path [] s.khms_states codes

    domain :
        (dry : Bool)
        → SameDomain s.khms_states (if dry then states else discover_path target states)
    domain true = once_each-SameDomain add_path codes [] s.khms_states
    domain false =
        then_SameDomain s.khms_states states (discover_path target states)
          (once_each-SameDomain add_path codes [] s.khms_states)
          (discover_path-SameDomain target states)

    by_domain :
        (dry : Bool)
        → IsConsistent n (count_paths dry target codes s)
          × ((count_paths dry target codes s).khms_states 0 ≢ none)
    by_domain dry = ((λ id there. h.0 id ((domain dry id).1 there), h.1, h.2), (domain dry 0).0 z)

bind-IsUpdated :
    (F : Type 0) (n : ℕ) (o : Outcome Store) (f : Store → Outcome (QueueEntry × Store))
    → IsSafe F n o
    → ((s : Store) → IsSafe F n (updated s) → IsUpdated F n (f s))
    → IsUpdated F n (o >>= f)
bind-IsUpdated F n (updated s) f h g = g s h
bind-IsUpdated F n fatal f h g = h
bind-IsUpdated F n out_of_bounds f h g = h

-- After a response, for a store whose ids, rows and columns fit together, a queue entry that has a
-- column, regions whose annotations are as long as their counts say, and no more messages sent than
-- the entry has regions: the update writes nothing outside of the map and of the regions, the new
-- store fits together again and has state 0, the regions' annotations are as long as their counts
-- say, and the fatal error needs a state 0 that is still missing once the graph is updated.
pub update_state_aware_variables-IsUpdated :
    (hash32 : List ℕ → ℕ) (extract : Bytes → List ℕ) (buf : Bytes) (sizes : List ℕ) (target : ℕ)
    (dry_run : Bool) (q : QueueEntry) (s : Store) (n : ℕ)
    → 1 ≤ length buf
    → 1 ≤ length sizes
    → length sizes ≤ length q.regions
    → AllAnnotated q.regions
    → q.index < n
    → IsConsistent n s
    → IsUpdated
        ((update_ipsm hash32 (extract buf) s).khms_states 0 ≡ none)
        n
        (update_state_aware_variables hash32 extract buf sizes target dry_run q s)
unfolding update_state_aware_variables update_region_annotations
update_state_aware_variables-IsUpdated hash32 extract [] sizes target dry_run q s n p r fits a b h =
    absurd (omega arith)
update_state_aware_variables-IsUpdated hash32 extract (b₀ ∷ buf) [] target dry_run q s n p r fits a
      b h =
    absurd (omega arith)
update_state_aware_variables-IsUpdated hash32 extract (b₀ ∷ buf) (size ∷ sizes) target dry_run q s n
      p r fits a b h =
    let codes = extract (b₀ ∷ buf) in
    let s₀ = update_ipsm hash32 codes s in
    let (regions, e, a') = annotate_lem extract (b₀ ∷ buf) 0 (size ∷ sizes) q.regions a fits in
    let F : Type 0 = s₀.khms_states 0 ≡ none in
    let first = reach_initial-IsSafe n q.index s₀ (update_ipsm-IsConsistent n hash32 codes s h) b in
    rw (update_state_aware_variables, e)
      (bind-IsUpdated F n (reach_initial q.index s₀) _ first (λ s₁ h₁.
        bind-IsUpdated F n (reach_regions q.index regions s₁) _
          (reach_regions-IsSafe F n q.index regions s₁ b a' h₁)
          (λ s₂ h₂.
            let (c, z) = count_paths-IsConsistent n target dry_run codes s₂ h₂.0 h₂.1 in
            (c, z, a'))))
