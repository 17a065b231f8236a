-- ===== src/Mutation.antt =====
-- Parts of the mutation stages (afl-fuzz.c): the length of a block, the score of an entry and the
-- test for a walking bit flip. The values of `random` are a parameter.
pub mod Flips
pub mod Bounds
use Prim.Native.Nat.{min}
use aflnet_legion.Common.{
  ℕ, zero, suc, ◌+◌, ◌-◌, ◌*◌, ◌/◌, ◌%◌, ◌^◌, Bool, true, false, not, ◌&&◌, ◌||◌, Option, none,
  some, ◌==◌, ltb, leb, if◌then◌else◌, add32, sub32, u32_mod, times32, times64,
}

-- The result of `UR`, which divides by its argument.
unfoldable pub ur : ℕ → ℕ → Option ℕ
ur random limit = if limit == 0 then none else some (random % limit)

abbrev pub havoc_blk_small : ℕ
havoc_blk_small = 32

abbrev pub havoc_blk_medium : ℕ
havoc_blk_medium = 128

abbrev pub havoc_blk_large : ℕ
havoc_blk_large = 1500

abbrev pub havoc_blk_xl : ℕ
havoc_blk_xl = 32768

-- `min_value` and `max_value`, from the value of the `switch` and that of `UR(10)`.
unfoldable pub block_range : ℕ → ℕ → ℕ × ℕ
block_range zero ten = (1, havoc_blk_small)
block_range (suc zero) ten = (havoc_blk_small, havoc_blk_medium)
block_range (suc (suc n)) ten =
    if ten == 0 then (havoc_blk_large, havoc_blk_xl) else (havoc_blk_medium, havoc_blk_large)

-- The end of the function: a length between the two values and not above the limit.
unfoldable pub block_len : ℕ → ℕ → ℕ × ℕ → Option ℕ
unfolding ur
block_len random limit (min_value, max_value) =
    let min_value = if leb limit min_value then 1 else min_value in
    elim (ur random (add32 (sub32 (min max_value limit) min_value) 1)) [
      | none ↦ none
      | some more ↦ some (add32 min_value more)
    ]

-- The three values of `random` in the order in which they are drawn; the second is not drawn in
-- the first two cases.
unfoldable pub choose_block_len : ℕ → Bool → ℕ → ℕ → ℕ → ℕ → Option ℕ
unfolding block_len block_range ur
choose_block_len queue_cycle run_over10m first second third limit =
    let rlim = if run_over10m then min queue_cycle 3 else 1 in
    elim (ur first rlim) [
      | none ↦ none
      | some case_value ↦ block_len third limit (block_range case_value (second % 10))
    ]

-- A queue entry as far as its score depends on it.
pub record Scored : Type 0 where
  pub exec_us : ℕ
  pub bitmap_size : ℕ
  pub handicap : ℕ
  pub depth : ℕ

abbrev pub havoc_max_mult : ℕ
havoc_max_mult = 16

-- A quotient that is stored as `u32`; a division by 0 stops the program.
unfoldable pub average : ℕ → ℕ → Option ℕ
average total count = if count == 0 then none else some (total / count % u32_mod)

-- Two tests on products with the floating-point constants 0.1 and 0.3, which are not exact, are
-- parameters; the products with quarters are exact.
module _ (tenth_above three_tenths_above : ℕ → ℕ → Bool) where
  unfoldable pub speed_score : ℕ → ℕ → ℕ
  speed_score exec_us avg =
      if tenth_above exec_us avg
      then 10
      else if ltb (4 * avg) exec_us
      then 25
      else if ltb (2 * avg) exec_us
      then 50
      else if ltb (4 * avg) (3 * exec_us)
      then 75
      else if ltb (times64 exec_us 4) avg
      then 300
      else if ltb (times64 exec_us 3) avg
      then 200
      else if ltb (times64 exec_us 2) avg
      then 150
      else 100

  unfoldable pub coverage_score : ℕ → ℕ → ℕ → ℕ
  coverage_score bitmap_size avg perf_score =
      if three_tenths_above bitmap_size avg
      then times32 perf_score 3
      else if ltb (2 * avg) bitmap_size
      then times32 perf_score 2
      else if ltb (4 * avg) (3 * bitmap_size)
      then perf_score * 3 / 2
      else if ltb (times32 bitmap_size 3) avg
      then perf_score / 4
      else if ltb (times32 bitmap_size 2) avg
      then perf_score / 2
      else if ltb (3 * bitmap_size) (2 * avg)
      then perf_score * 3 / 4
      else perf_score

  -- The score and the handicap that is left.
  unfoldable pub handicap_score : ℕ → ℕ → ℕ × ℕ
  handicap_score handicap perf_score =
      if leb 4 handicap
      then (times32 perf_score 4, handicap - 4)
      else if handicap == 0
      then (perf_score, handicap)
      else (times32 perf_score 2, handicap - 1)

  unfoldable pub depth_score : ℕ → ℕ → ℕ
  depth_score depth perf_score =
      if leb depth 3
      then perf_score
      else if leb depth 7
      then times32 perf_score 2
      else if leb depth 13
      then times32 perf_score 3
      else if leb depth 25
      then times32 perf_score 4
      else times32 perf_score 5

  -- From the two averages: the score, and the entry afterwards.
  unfoldable pub score_with : ℕ → ℕ → Scored → ℕ × Scored
  unfolding speed_score coverage_score handicap_score depth_score
  score_with avg_exec_us avg_bitmap_size q =
      let fast = speed_score q.exec_us avg_exec_us in
      let wide = coverage_score q.bitmap_size avg_bitmap_size fast in
      let late = handicap_score q.handicap wide in
      let deep = depth_score q.depth late.0 in
      let limit = havoc_max_mult * 100 in
      (if ltb limit deep then limit else deep, record q { handicap = late.1 })

  unfoldable pub calculate_score : ℕ → ℕ → ℕ → ℕ → Scored → Option (ℕ × Scored)
  unfolding score_with average
  calculate_score total_cal_us total_cal_cycles total_bitmap_size total_bitmap_entries q =
      elim (average total_cal_us total_cal_cycles) [
        | none ↦ none
        | some avg_exec_us ↦ elim (average total_bitmap_size total_bitmap_entries) [
          | none ↦ none
          | some avg_bitmap_size ↦ some (score_with avg_exec_us avg_bitmap_size q)
        ]
      ]

-- The loop of `could_be_bitflip`: the shift and what is left, on fuel.
unfoldable pub shift_loop : ℕ → ℕ → ℕ → ℕ × ℕ
shift_loop zero sh xor_val = (sh, xor_val)
shift_loop (suc fuel) sh xor_val =
    let more = shift_loop fuel (sh + 1) (xor_val / 2) in
    if xor_val % 2 == 1 then (sh, xor_val) else more

unfoldable pub is_pattern : ℕ × ℕ → Bool
is_pattern (sh, xor_val) =
    if xor_val == 1 || xor_val == 3 || xor_val == 15
    then true
    else if not (sh % 8 == 0)
    then false
    else xor_val == 0xff || xor_val == 0xffff || xor_val == 0xffffffff

-- A word has 32 bits, so that a set bit is met in fewer rounds.
unfoldable pub could_be_bitflip : ℕ → Bool
unfolding shift_loop is_pattern
could_be_bitflip xor_val = if xor_val == 0 then true else is_pattern (shift_loop 32 0 xor_val)
