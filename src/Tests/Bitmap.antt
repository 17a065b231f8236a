-- ===== src/Tests/Bitmap.antt =====
-- The bitmap and the queue on small inputs.
use aflnet_legion.Common.{
  ℕ, ◌≡◌, ◌||◌, ◌&&◌, ◌==◌, ltb, ◌&&◌, if◌then◌else◌, not, refl, true, false, none, some, List, [],
  ◌∷◌, arith, map, Bytes, Array,
}
use aflnet_legion.States.{Store, not_fuzzed}
use aflnet_legion.Bitmap.{has_new_bits, classify_counts, count_class_lookup8}
use aflnet_legion.Bitmap.News.{map_news, clear_map, has_new_bits-news, has_new_bits-again}
use aflnet_legion.Bitmap.Classes.{classify_counts-map}
use aflnet_legion.Bitmap.Culling.{Entry, Queue, update_bitmap_score, cull_queue}
use aflnet_legion.Bitmap.Culling.Cover.{IsCovered, cull_queue-IsCovered}
use aflnet_legion.Bitmap.Culling.Rated.{IsSound, update_bitmap_score-IsSound}
use aflnet_legion.Bitmap.Culling.Winner.{winner, update_bitmap_score-winner}
use aflnet_legion.Bitmap.Culling.Favored.{cull_queue-update_bitmap_score}

-- Two words of four bytes: a byte that is hit for the first time, and a new count of another.
abbrev current : List Bytes
current = (0 ∷ 1 ∷ 0 ∷ 0 ∷ []) ∷ (0 ∷ 0 ∷ 0 ∷ 2 ∷ []) ∷ []

abbrev virgin : List Bytes
virgin = (255 ∷ 255 ∷ 255 ∷ 255 ∷ []) ∷ (255 ∷ 255 ∷ 255 ∷ 254 ∷ []) ∷ []

has_new_bits_runs :
    has_new_bits true current virgin false
    ≡ (2, (255 ∷ 254 ∷ 255 ∷ 255 ∷ []) ∷ (255 ∷ 255 ∷ 255 ∷ 252 ∷ []) ∷ [], true)
unfolding has_new_bits
has_new_bits_runs = refl

has_new_bits-news_example : has_new_bits true current virgin false ≡ (
  map_news current virgin,
  clear_map current virgin,
  (not (map_news current virgin == 0) && true) || false,
)
has_new_bits-news_example = has_new_bits-news true false current virgin (ground arith)

has_new_bits-again_at_input :
    let (ret, virgin', changed') = has_new_bits true current virgin false in
    let (ret', virgin'', changed'') = has_new_bits true current virgin' changed' in
    (ret' ≡ 0) × (changed'' ≡ changed')
has_new_bits-again_at_input = has_new_bits-again true false current virgin (ground arith)

classify_counts-map_example :
    classify_counts ((0 ∷ 3 ∷ 200 ∷ 9 ∷ []) ∷ [])
    ≡ map (map count_class_lookup8) ((0 ∷ 3 ∷ 200 ∷ 9 ∷ []) ∷ [])
classify_counts-map_example = classify_counts-map ((0 ∷ 3 ∷ 200 ∷ 9 ∷ []) ∷ []) (ground arith)

abbrev store : Store
store = record {
  khms_states = λ id. none;
  state_ids = 7 ∷ [];
  ipsm_nodes = [];
  ipsm_edges = [];
  khs_ipsm_paths = [];
  was_fuzzed_map = λ i j. not_fuzzed;
  fuzzed_map_states = 1;
  fuzzed_map_qentries = 12;
}

abbrev entry : ℕ → Entry
entry q = record {
  exec_us = 10;
  len = 4;
  unique_state_count = q;
  generating_state_id = 7;
  index = q;
  is_initial_seed = false;
  favored = false;
  fs_redundant = false;
  tc_ref = 0;
  trace_mini = none;
}

abbrev queue : Queue
queue = record {
  entries = entry;
  queue = 1 ∷ 2 ∷ [];
  top_rated = λ i. none;
  score_changed = false;
  queued_favored = 0;
  pending_favored = 0;
}

-- The trace hits bytes 0 to 2 of a map of 8.
abbrev trace_bits : Array
trace_bits i = if ltb i 3 then 1 else 0

queue-IsSound : IsSound 8 1 trace_bits queue
queue-IsSound = (λ q. refl, (λ i q h e. ground (arith, e)), λ mini e. ground (arith, e))

update_bitmap_score-IsSound_example :
    IsSound 8 1 trace_bits (update_bitmap_score 8 1 trace_bits queue)
update_bitmap_score-IsSound_example =
    update_bitmap_score-IsSound 8 1 trace_bits queue (omega arith) queue-IsSound

queue_changed : (update_bitmap_score 8 1 trace_bits queue).score_changed ≡ true
unfolding update_bitmap_score
queue_changed = refl

queue_top : (update_bitmap_score 8 1 trace_bits queue).top_rated 1 ≡ some 1
unfolding update_bitmap_score
queue_top = refl

cull_queue-update_bitmap_score_example :
    IsCovered (cull_queue 8 store 7 false (update_bitmap_score 8 1 trace_bits queue)).entries 2
cull_queue-update_bitmap_score_example =
    cull_queue-update_bitmap_score 8 1 7 2 trace_bits store queue (omega arith) queue-IsSound
      queue_changed (omega arith) refl

cull_queue-IsCovered_example :
    IsCovered (cull_queue 8 store 7 false (update_bitmap_score 8 1 trace_bits queue)).entries 1
cull_queue-IsCovered_example =
    cull_queue-IsCovered 8 7 1 1 store (update_bitmap_score 8 1 trace_bits queue)
      (update_bitmap_score-IsSound 8 1 trace_bits queue (omega arith) queue-IsSound).1 queue_changed
      (omega arith) queue_top

update_bitmap_score-winner_example :
    (update_bitmap_score 8 1 trace_bits queue).top_rated 2
    ≡ (if ltb 2 8 && not (trace_bits 2 == 0) then winner 1 entry none else none)
update_bitmap_score-winner_example = update_bitmap_score-winner 8 1 2 trace_bits queue
