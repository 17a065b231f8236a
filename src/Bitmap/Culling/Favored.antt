-- ===== src/Bitmap/Culling/Favored.antt =====
-- `update_bitmap_score` and then `cull_queue` (afl-fuzz.c): what an entry's trace hits is hit by a
-- favored entry.
use aflnet_legion.Common.{
  times64, ℕ, zero, suc, ◌+◌, ◌≤◌, ◌<◌, ◌≡◌, sym, ap, subst, ◌∙◌, Bool, true, false, ◌&&◌, Option,
  some, ◌==◌, ltb, arith, if◌then◌else◌, Array, Bool-cases, Option-cases, inl, inr, ◌⊎◌, ℕ_discrete,
  u32_mod,
}
use aflnet_legion.States.{Store}
use aflnet_legion.Bitmap.Culling.{
  Queue, change, release_slot, win, rate, rate_from, update_bitmap_score, cull_queue,
}
use aflnet_legion.Bitmap.Culling.Cover.{IsCovered, cull_queue-IsCovered}
use aflnet_legion.Bitmap.Culling.Rated.{IsSound, update_bitmap_score-IsSound}
use aflnet_legion.Bitmap.Culling.Refs.{put_slot, put_slot_here, put_slot_other}

-- The slot has a winner.
abbrev IsHeld : (ℕ → Option ℕ) → ℕ → Type 0
IsHeld top k = (x : ℕ) × (top k ≡ some x)

put_slot-IsHeld :
    (i k q : ℕ) (top : ℕ → Option ℕ) → (k ≡ i) ⊎ IsHeld top k → IsHeld (put_slot i (some q) top) k
put_slot-IsHeld i k q top held = elim (ℕ_discrete k i) [
  | yes here ↦ (q, put_slot_here i k (some q) top here)
  | no ne ↦ elim held [
    | inl here ↦ absurd (ne here)
    | inr (x, e) ↦ (x, put_slot_other i k (some q) top ne ∙ e)
  ]
]

either : {C D E : Type 0} → (C × D) ⊎ E → C ⊎ E
either (inl (c, d)) = inl c
either (inr e) = inr e

unset_held : {C E : Type 0} (b : Bool) → b ≡ true → (C × (b ≡ false)) ⊎ E → E
unset_held b e (inl (c, d)) = absurd (ground (arith, e, d))
unset_held b e (inr held) = held

winner_at :
    {D : Type 0} (i k t : ℕ) (top : ℕ → Option ℕ)
    → top i ≡ some t
    → ((k ≡ i) × D) ⊎ IsHeld top k
    → IsHeld top k
winner_at i k t top e (inl (here, d)) = (t, ap top here ∙ e)
winner_at i k t top e (inr held) = held

module _ (map_size q : ℕ) (trace_bits : Array) where
  win-IsHeld :
      (i k : ℕ) (s : Queue)
      → (k ≡ i) ⊎ IsHeld s.top_rated k
      → IsHeld (win map_size q trace_bits i s).top_rated k
  unfolding win
  win-IsHeld i k s held = put_slot-IsHeld i k q s.top_rated held

  if-IsHeld :
      (b : Bool) (k : ℕ) (s s' : Queue)
      → IsHeld s.top_rated k
      → IsHeld s'.top_rated k
      → IsHeld (if b then s else s').top_rated k
  if-IsHeld true k s s' held held' = held
  if-IsHeld false k s s' held held' = held'

  -- A hit byte has a winner afterwards, and no slot loses its winner.
  rate-IsHeld :
      (i k : ℕ) (s : Queue)
      → ((k ≡ i) × ((trace_bits i == 0) ≡ false)) ⊎ IsHeld s.top_rated k
      → IsHeld (rate map_size q trace_bits i s).top_rated k
  unfolding rate
  rate-IsHeld i k s held = elim (Bool-cases (trace_bits i == 0)) [
    | inl unset ↦ rw (rate, unset) (unset_held (trace_bits i == 0) unset held)
    | inr set ↦ elim (Option-cases (s.top_rated i)) [
      | inl e ↦ rw (rate, set, e) (win-IsHeld i k s (either held))
      | inr (t, e) ↦
          let old = s.entries t in
          let new = s.entries q in
          let fewer = ltb new.unique_state_count old.unique_state_count in
          let slower = fewer && ltb (times64 old.exec_us old.len) (times64 new.exec_us new.len) in
          let released = record s { entries = change t (release_slot map_size) s.entries } in
          let next = win map_size q trace_bits i released in
          let before = winner_at i k t s.top_rated e held in
          rw (rate, set, e)
            (if-IsHeld fewer k s (if slower then s else next) before
              (if-IsHeld slower k s next before (win-IsHeld i k released (inr before))))
    ]
  ]

  rate_from-IsHeld :
      (left i k : ℕ) (s : Queue)
      → ((i ≤ k) × (k < i + left) × ((trace_bits k == 0) ≡ false)) ⊎ IsHeld s.top_rated k
      → IsHeld (rate_from map_size left q trace_bits i s).top_rated k
  unfolding rate_from
  rate_from-IsHeld zero i k s (inl (from, below, set)) = absurd (omega arith)
  rate_from-IsHeld zero i k s (inr held) = held
  rate_from-IsHeld (suc left) i k s (inl (from, below, set)) = elim (ℕ_discrete i k) [
    | yes here ↦ rate_from-IsHeld left (i + 1) k (rate map_size q trace_bits i s) (
        inr (
          rate-IsHeld i k s
            (inl (sym here, subst (λ (x : ℕ). (trace_bits x == 0) ≡ false) (sym here) set))))
    | no ne ↦
        rate_from-IsHeld left (i + 1) k (rate map_size q trace_bits i s)
          (inl (omega (arith, ne), omega arith, set))
  ]
  rate_from-IsHeld (suc left) i k s (inr held) =
      rate_from-IsHeld left (i + 1) k (rate map_size q trace_bits i s)
        (inr (rate-IsHeld i k s (inr held)))

update_bitmap_score-IsHeld :
    (map_size q : ℕ) (trace_bits : Array) (i : ℕ) (s : Queue)
    → i < map_size
    → (trace_bits i == 0) ≡ false
    → IsHeld (update_bitmap_score map_size q trace_bits s).top_rated i
unfolding update_bitmap_score
update_bitmap_score-IsHeld map_size q trace_bits i s h set =
    rate_from-IsHeld map_size q trace_bits map_size 0 i s (inl (omega arith, omega arith, set))

-- For a map of fewer than 2 ^ 32 bytes, when `tc_ref` counts the slots of each entry, top-rated
-- entries have compact traces that hit their bytes, and the rated entry's compact trace, if it has
-- one, hits every byte of the current trace: if `update_bitmap_score` leaves `score_changed` set
-- and `dumb_mode` is not set, then after `cull_queue` each byte of the current trace is hit by the
-- compact trace of a favored entry.
pub cull_queue-update_bitmap_score :
    (map_size q target_state_id i : ℕ) (trace_bits : Array) (store : Store) (s : Queue)
    → map_size < u32_mod
    → IsSound map_size q trace_bits s
    → (update_bitmap_score map_size q trace_bits s).score_changed ≡ true
    → i < map_size
    → (trace_bits i == 0) ≡ false
    → IsCovered
        (cull_queue map_size store target_state_id false
          (update_bitmap_score map_size q trace_bits s)).entries
        i
cull_queue-update_bitmap_score map_size q target_state_id i trace_bits store s bound sound changed h
      set =
    let s' = update_bitmap_score map_size q trace_bits s in
    let (counted, rated, traced) =
      update_bitmap_score-IsSound map_size q trace_bits s bound sound in
    let (x, top) = update_bitmap_score-IsHeld map_size q trace_bits i s h set in
    cull_queue-IsCovered map_size target_state_id i x store s' rated changed h top
