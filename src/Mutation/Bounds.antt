-- ===== src/Mutation/Bounds.antt =====
-- The bounds of `choose_block_len` and `calculate_score` (afl-fuzz.c).
use Prim.Native.Nat.{min}
use native.Mathlib.Nat.{mod-lt, zero-lt-suc}
use aflnet_legion.Common.{
  ℕ, zero, suc, ◌+◌, ◌-◌, ◌%◌, ◌≤◌, ◌<◌, ◌≡◌, refl, Bool, Option, some, leb, if◌then◌else◌, add32,
  sub32, u32_mod, arith, subst, sym,
}
use aflnet_legion.Mutation.{
  ur, block_range, block_len, choose_block_len, Scored, speed_score, coverage_score, handicap_score,
  depth_score, score_with,
}

ur-some : (random limit : ℕ) → 1 ≤ limit → ur random limit ≡ some (random % limit)
unfolding ur
ur-some random limit h = ground arith

rest_lt : (random limit : ℕ) → 1 ≤ limit → random % limit < limit
rest_lt random zero h = absurd (omega (arith, h))
rest_lt random (suc limit) h = omega (arith, mod-lt random (zero-lt-suc limit))

-- A range that starts at 1 or later and does not end before it starts.
abbrev IsRange : ℕ × ℕ → Type 0
IsRange (low, high) = (1 ≤ low) × (low ≤ high) × (high ≤ 32768)

block_range-IsRange : (case_value ten : ℕ) → IsRange (block_range case_value ten)
unfolding block_range
block_range-IsRange zero ten = (omega arith, omega arith, omega arith)
block_range-IsRange (suc zero) ten = (omega arith, omega arith, omega arith)
block_range-IsRange (suc (suc n)) ten = (ground arith, ground arith, ground arith)

width_lem :
    (low high : ℕ) → 1 ≤ low → low ≤ high → high ≤ 32768 → add32 (sub32 high low) 1 ≡ high - low + 1
width_lem low high one ordered capped = omega arith

small_sum : (a b : ℕ) → a + b < 65536 → add32 a b ≡ a + b
small_sum a b h = omega arith

abbrev IsLength : ℕ → Option ℕ → Type 0
IsLength limit o = (len : ℕ) × (o ≡ some len) × (1 ≤ len) × (len ≤ limit) × (len ≤ 32768)

block_len-IsLength :
    (random limit low high : ℕ)
    → 1 ≤ limit
    → limit < u32_mod
    → IsRange (low, high)
    → IsLength limit (block_len random limit (low, high))
unfolding block_len
block_len-IsLength random limit low high h bound (one_low, ordered, capped) =
    let first = if leb limit low then 1 else low in
    let width = add32 (sub32 (min high limit) first) 1 in
    let top_le : min high limit ≤ 32768 = ground arith in
    let starts : (1 ≤ first) × (first ≤ min high limit) = (ground arith, ground arith) in
    let is_width : width ≡ min high limit - first + 1 =
      width_lem first (min high limit) starts.0 starts.1 top_le in
    let some_width : 1 ≤ width = subst (λ (w : ℕ). 1 ≤ w) (sym is_width) (omega arith) in
    let below = rest_lt random width some_width in
    let whole : add32 first (random % width) ≡ first + random % width =
      small_sum first (random % width)
        (omega (arith, below, is_width, starts.0, starts.1, top_le)) in
    (
      add32 first (random % width),
      rw (ur-some random width some_width, block_len) refl,
      omega (arith, whole, starts.0),
      omega (arith, whole, below, is_width, starts.1),
      omega (arith, whole, below, is_width, starts.1),
    )

speed_score-bounds :
    (tenth three : ℕ → ℕ → Bool) (exec_us avg : ℕ)
    → (10 ≤ speed_score tenth three exec_us avg) × (speed_score tenth three exec_us avg ≤ 300)
unfolding speed_score
speed_score-bounds tenth three exec_us avg = (ground arith, ground arith)

coverage_score-bounds :
    (tenth three : ℕ → ℕ → Bool) (size avg p : ℕ)
    → 10 ≤ p
    → p ≤ 300
    → (2 ≤ coverage_score tenth three size avg p) × (coverage_score tenth three size avg p ≤ 900)
unfolding coverage_score
coverage_score-bounds tenth three size avg p low high = (ground arith, ground arith)

handicap_score-bounds :
    (tenth three : ℕ → ℕ → Bool) (handicap p : ℕ)
    → 2 ≤ p
    → p ≤ 900
    → (2 ≤ (handicap_score tenth three handicap p).0)
      × ((handicap_score tenth three handicap p).0 ≤ 3600)
unfolding handicap_score
handicap_score-bounds tenth three handicap p low high = (ground arith, ground arith)

handicap_less :
    (tenth three : ℕ → ℕ → Bool) (handicap p : ℕ)
    → (handicap_score tenth three handicap p).1 ≤ handicap
unfolding handicap_score
handicap_less tenth three handicap p = ground arith

depth_score-bounds :
    (tenth three : ℕ → ℕ → Bool) (depth p : ℕ)
    → 2 ≤ p
    → p ≤ 3600
    → 2 ≤ depth_score tenth three depth p
unfolding depth_score
depth_score-bounds tenth three depth p low high = ground arith

-- For a `queue_cycle` of at least 1, a limit that is a positive `u32` and any values of `random`, `choose_block_len` gives a length from 1 to the limit, and at most 32768.
pub choose_block_len-IsLength :
    (queue_cycle : ℕ) (run_over10m : Bool) (first second third limit : ℕ)
    → 1 ≤ queue_cycle
    → 1 ≤ limit
    → limit < u32_mod
    → (len : ℕ) × (choose_block_len queue_cycle run_over10m first second third limit ≡ some len)
      × (1 ≤ len)
      × (len ≤ limit)
      × (len ≤ 32768)
unfolding choose_block_len
choose_block_len-IsLength queue_cycle run_over10m first second third limit some_cycle h bound =
    let rlim = if run_over10m then min queue_cycle 3 else 1 in
    let (low, high) = block_range (first % rlim) (second % 10) in
    let (len, e, one, in_limit, in_max) =
      block_len-IsLength third limit low high h bound
        (block_range-IsRange (first % rlim) (second % 10)) in
    (len, rw (ur-some first rlim (ground arith), choose_block_len) e, one, in_limit, in_max)

-- Whatever the averages and the entry, and whatever the two inexact tests find, the score is from 2
-- to 1600, so that no product wraps on the way, and the handicap does not grow.
pub score_with-bounds :
    (tenth three : ℕ → ℕ → Bool) (avg_exec_us avg_bitmap_size : ℕ) (q : Scored)
    → let (score, q') = score_with tenth three avg_exec_us avg_bitmap_size q in
      (2 ≤ score) × (score ≤ 1600) × (q'.handicap ≤ q.handicap)
unfolding score_with
score_with-bounds tenth three avg_exec_us avg_bitmap_size q =
    let fast = speed_score tenth three q.exec_us avg_exec_us in
    let wide = coverage_score tenth three q.bitmap_size avg_bitmap_size fast in
    let late = handicap_score tenth three q.handicap wide in
    let deep = depth_score tenth three q.depth late.0 in
    let a = speed_score-bounds tenth three q.exec_us avg_exec_us in
    let b = coverage_score-bounds tenth three q.bitmap_size avg_bitmap_size fast a.0 a.1 in
    let c = handicap_score-bounds tenth three q.handicap wide b.0 b.1 in
    let d = depth_score-bounds tenth three q.depth late.0 c.0 c.1 in
    (ground (arith, d), ground arith, handicap_less tenth three q.handicap wide)
