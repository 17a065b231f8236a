-- ===== src/Seeds.antt =====
-- `preprocess_queue_entry` (mcts.c): what a seed's regions become before the search tree takes them.
-- The log messages and the assertions, which are disabled by an option, are left out.
pub mod Compaction
use aflnet_legion.Common.{
  ℕ, zero, suc, ◌+◌, ◌-◌, Bool, true, false, not, ◌&&◌, Option, none, some, List, [], ◌∷◌, ◌==◌,
  ltb, leb, if◌then◌else◌, length, get_or, set, map,
}
use aflnet_legion.Region.{Region, region}

-- `state_sequence == NULL`
abbrev pub is_null : Region → Bool
is_null r = elim r.state_sequence [ none ↦ true | some codes ↦ false ]

abbrev pub region_at : List Region → ℕ → Region
region_at regions i = get_or regions i (region 0 0)

-- The inner `while`: how many regions from `at` on are null, of at most so many.
unfoldable pub count_null : ℕ → List Region → ℕ → ℕ
count_null zero regions at = 0
count_null (suc left) regions at =
    let later = count_null left regions (at + 1) in
    if is_null (region_at regions at) then suc later else 0

-- The `for` from `region_index` on, with the rounds that are left: the array and `region_count`
-- afterwards.
unfoldable pub compact : ℕ → List Region → ℕ → ℕ → ℕ → List Region × ℕ
unfolding count_null
compact zero regions region_count region_index null_region_count = (regions, region_count)
compact (suc left) regions region_count region_index null_region_count =
    let unchanged = compact left regions region_count (region_index + 1) null_region_count in
    let nulls =
      null_region_count
      + count_null (region_count - (region_index + null_region_count)) regions
          (region_index + null_region_count) in
    let moved =
      compact left (set regions region_index (region_at regions (region_index + nulls)))
        region_count (region_index + 1) nulls in
    if null_region_count == 0 && not (is_null (region_at regions region_index))
    then unchanged
    else if leb region_count (region_index + nulls)
    then (regions, region_index)
    else moved

unfoldable pub remove_null_regions : List Region → ℕ → List Region × ℕ
unfolding compact
remove_null_regions regions region_count = compact region_count regions region_count 0 0

abbrev pub truncated_state_count : ℕ
truncated_state_count = 200

-- The count alone is cut; the sequence stays.
abbrev pub truncate : Region → Region
truncate r =
    if ltb r.state_count truncated_state_count
    then r
    else record r { state_count = truncated_state_count }

-- The first `region_count` elements.
unfoldable pub truncate_long_regions : List Region → ℕ → List Region
truncate_long_regions regions zero = regions
truncate_long_regions [] (suc n) = []
truncate_long_regions (r ∷ regions) (suc n) = truncate r ∷ truncate_long_regions regions n

unfoldable pub preprocess_queue_entry : List Region → ℕ → List Region × ℕ
unfolding remove_null_regions truncate_long_regions
preprocess_queue_entry regions region_count =
    let (regions', region_count') = remove_null_regions regions region_count in
    (truncate_long_regions regions' region_count', region_count')
