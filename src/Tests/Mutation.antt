-- ===== src/Tests/Mutation.antt =====
-- Lengths, scores and flips, and the theorems at them.
use aflnet_legion.Common.{ℕ, ◌≡◌, ◌≤◌, ◌↔◌, refl, Bool, true, false, some, ltb, ◌*◌, arith}
use aflnet_legion.Mutation.{
  choose_block_len, block_len, block_range, ur, Scored, score_with, speed_score, coverage_score,
  calculate_score, average, handicap_score, depth_score, could_be_bitflip, shift_loop, is_pattern,
}
use aflnet_legion.Mutation.Bounds.{choose_block_len-IsLength, score_with-bounds}
use aflnet_legion.Mutation.Flips.{IsFlip, could_be_bitflip-IsFlip}

block_len_runs : choose_block_len 3 true 5 7 1000 200 ≡ some 179
unfolding choose_block_len block_len block_range ur
block_len_runs = refl

choose_block_len-IsLength_example :
    (len : ℕ) × (choose_block_len 3 true 5 7 1000 200 ≡ some len)
    × (1 ≤ len)
    × (len ≤ 200)
    × (len ≤ 32768)
choose_block_len-IsLength_example =
    choose_block_len-IsLength 3 true 5 7 1000 200 (omega arith) (omega arith) (omega arith)

abbrev tenth : ℕ → ℕ → Bool
tenth value avg = ltb (10 * avg) value

abbrev three_tenths : ℕ → ℕ → Bool
three_tenths value avg = ltb (10 * avg) (3 * value)

abbrev entry : Scored
entry = record { exec_us = 100; bitmap_size = 500; handicap = 6; depth = 9 }

score_runs :
    calculate_score tenth three_tenths 9000 9 4000 10 entry
    ≡ some (1600, record entry { handicap = 2 })
unfolding calculate_score average score_with speed_score coverage_score handicap_score depth_score
score_runs = refl

score_with-bounds_at_input :
    let (score, q') = score_with tenth three_tenths 1000 400 entry in
    (2 ≤ score) × (score ≤ 1600) × (q'.handicap ≤ 6)
score_with-bounds_at_input = score_with-bounds tenth three_tenths 1000 400 entry

flip_runs : could_be_bitflip 0xff00 ≡ true
unfolding could_be_bitflip shift_loop is_pattern
flip_runs = refl

-- Eight bits that do not start at a byte's place.
no_flip_runs : could_be_bitflip 0xff0 ≡ false
unfolding could_be_bitflip shift_loop is_pattern
no_flip_runs = refl

could_be_bitflip-IsFlip_example : (could_be_bitflip 0xff00 ≡ true) ↔ IsFlip 0xff00
could_be_bitflip-IsFlip_example = could_be_bitflip-IsFlip 0xff00 (omega arith)
