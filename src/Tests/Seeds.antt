-- ===== src/Tests/Seeds.antt =====
-- Preprocessing of a seed's regions on a small input.
use aflnet_legion.Common.{◌≡◌, refl, some, List, [], ◌∷◌, length, map}
use aflnet_legion.Region.{Region, region}
use aflnet_legion.Seeds.{truncate, remove_null_regions, preprocess_queue_entry}
use aflnet_legion.Seeds.Compaction.{non_null, Holds, AllReady, preprocess_queue_entry-non_null}

abbrev answered : Region
answered = record {
  start_byte = 0;
  end_byte = 1;
  state_sequence = some (0 ∷ 5 ∷ []);
  state_count = 2;
}

abbrev regions : List Region
regions = region 0 1 ∷ answered ∷ region 2 3 ∷ region 4 5 ∷ answered ∷ []

compaction_runs :
    remove_null_regions regions 5
    ≡ (answered ∷ answered ∷ region 2 3 ∷ region 4 5 ∷ answered ∷ [], 2)
unfolding remove_null_regions
compaction_runs = refl

preprocess_queue_entry-non_null_example :
    Holds (map truncate (non_null regions)) (preprocess_queue_entry regions (length regions))
    × AllReady (map truncate (non_null regions))
preprocess_queue_entry-non_null_example = preprocess_queue_entry-non_null regions
