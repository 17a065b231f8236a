-- ===== src/Bitmap/Culling/Rated.antt =====
-- `update_bitmap_score` (afl-fuzz.c): what it keeps of the slots, of the counts of references and of
-- the compact traces.
use aflnet_legion.Common.{
  times64, ℕ, zero, suc, ◌+◌, ◌≤◌, ◌<◌, ◌≡◌, refl, Bool, true, false, ◌&&◌, ◌==◌, ltb, arith,
  if◌then◌else◌, Array, Bool-cases, Option-cases, inl, inr, u32_mod,
}
use aflnet_legion.Bitmap.Culling.{
  Queue, change, release_slot, win, rate, rate_from, update_bitmap_score,
}
use aflnet_legion.Bitmap.Culling.Cover.{IsRated}
use aflnet_legion.Bitmap.Culling.Released.{
  IsCounted, IsTraced, empty-IsOpen, release-IsOpen, release_back,
}
use aflnet_legion.Bitmap.Culling.Taken.{win-IsRated}

module _ (map_size : ℕ) where
  -- The three properties together.
  abbrev pub IsSound : ℕ → Array → Queue → Type 0
  IsSound q trace_bits s =
      IsCounted map_size s × IsRated map_size s × IsTraced map_size trace_bits q s.entries

  if-IsSound :
      (b : Bool) (q : ℕ) (trace_bits : Array) (s s' : Queue)
      → (b ≡ true → IsSound q trace_bits s)
      → (b ≡ false → IsSound q trace_bits s')
      → IsSound q trace_bits (if b then s else s')
  if-IsSound true q trace_bits s s' then_sound else_sound = then_sound refl
  if-IsSound false q trace_bits s s' then_sound else_sound = else_sound refl

  -- One byte of the trace keeps all three.
  rate-IsSound :
      (i q : ℕ) (trace_bits : Array) (s : Queue)
      → map_size < u32_mod
      → i < map_size
      → IsSound q trace_bits s
      → IsSound q trace_bits (rate map_size q trace_bits i s)
  unfolding rate
  rate-IsSound i q trace_bits s bound h (counted, rated, traced) =
      elim (Bool-cases (trace_bits i == 0)) [
        | inl unset ↦ rw (rate, unset) (counted, rated, traced)
        | inr set ↦ elim (Option-cases (s.top_rated i)) [
          | inl e ↦
              rw (rate, set, e)
                (win-IsRated map_size i q trace_bits s h set traced
                  (empty-IsOpen map_size i s h counted rated e))
          | inr (t, e) ↦
              let released = record s { entries = change t (release_slot map_size) s.entries } in
              let old = s.entries t in
              let new = s.entries q in
              let fewer = ltb new.unique_state_count old.unique_state_count in
              let slower =
                fewer && ltb (times64 old.exec_us old.len) (times64 new.exec_us new.len) in
              let next = win map_size q trace_bits i released in
              let won =
                win-IsRated map_size i q trace_bits released h set
                  (λ mini kept. traced mini (release_back map_size t q s.entries mini kept))
                  (release-IsOpen map_size i t s bound h counted rated e) in
              rw (rate, set, e)
                (if-IsSound fewer q trace_bits s (if slower then s else next)
                  (λ _. (counted, rated, traced))
                  (λ _.
                    if-IsSound slower q trace_bits s next (λ _. (counted, rated, traced))
                      (λ _. won)))
        ]
      ]

  rate_from-IsSound :
      (left i q : ℕ) (trace_bits : Array) (s : Queue)
      → map_size < u32_mod
      → i + left ≤ map_size
      → IsSound q trace_bits s
      → IsSound q trace_bits (rate_from map_size left q trace_bits i s)
  unfolding rate_from
  rate_from-IsSound zero i q trace_bits s bound h sound = sound
  rate_from-IsSound (suc left) i q trace_bits s bound h sound =
      rate_from-IsSound left (i + 1) q trace_bits (rate map_size q trace_bits i s) bound
        (omega arith) (rate-IsSound i q trace_bits s bound (omega arith) sound)

-- For a map of fewer than 2 ^ 32 bytes, `update_bitmap_score` of an entry keeps these three
-- properties together: every entry's `tc_ref` is the number of slots of `top_rated` that it holds;
-- the top-rated entry of a byte has a compact trace that hits the byte; the compact trace that the
-- rated entry has, if any, hits every byte of the current trace.
pub update_bitmap_score-IsSound :
    (map_size q : ℕ) (trace_bits : Array) (s : Queue)
    → map_size < u32_mod
    → IsSound map_size q trace_bits s
    → IsSound map_size q trace_bits (update_bitmap_score map_size q trace_bits s)
unfolding update_bitmap_score
update_bitmap_score-IsSound map_size q trace_bits s bound sound =
    rate_from-IsSound map_size map_size 0 q trace_bits s bound (omega arith) sound
