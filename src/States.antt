-- ===== src/States.antt =====
-- The bookkeeping of the server's states (afl-fuzz.c): the table of states, the map of what was
-- fuzzed at which state, the graph of transitions, and the small functions on them. The hash tables
-- of khash.h and the graph of graphviz are third-party code, of which the program uses the usual
-- operations: a table is a function, a hash set and a graph are lists. The colours of the graph are
-- left out.
pub mod Sequences
pub mod Update
pub mod Once
pub mod Consistency
pub mod Reach
pub mod Bounds
pub mod Transitions
pub mod Cells
pub mod Counts
pub mod Selection
pub mod SeedChoice
use aflnet_legion.Common.{
  ℕ, zero, suc, ◌+◌, ◌-◌, Bool, true, false, ◌&&◌, ◌||◌, Option, none, some, List, [], ◌∷◌, ◌++◌,
  ◌==◌, ltb, leb, if◌then◌else◌, length, take, get_elem?, Bytes,
}
use aflnet_legion.Region.{Region}

-- `state_info_t`. A seed is the index of its queue entry; `seeds_count` is the list's length.
pub record StateInfo : Type 0 where
  pub id : ℕ
  pub is_covered : ℕ
  pub paths : ℕ
  pub paths_discovered : ℕ
  pub selected_times : ℕ
  pub fuzzs : ℕ
  pub score : ℕ
  pub selected_seed_index : ℕ
  pub seeds : List ℕ

-- What a newly discovered state starts with.
abbrev pub new_state : ℕ → List ℕ → StateInfo
new_state id seeds = record {
  id = id;
  is_covered = 1;
  paths = 0;
  paths_discovered = 0;
  selected_times = 0;
  fuzzs = 0;
  score = 1;
  selected_seed_index = 0;
  seeds = seeds;
}

-- The values of `was_fuzzed_map`: -1, 0 and 1.
pub data Cell : Type 0 where
  unreachable : Cell
  not_fuzzed : Cell
  fuzzed : Cell

-- The variables of afl-fuzz.c that describe states.
pub record Store : Type 0 where
  pub khms_states : ℕ → Option StateInfo
  pub state_ids : List ℕ
  pub ipsm_nodes : List ℕ
  pub ipsm_edges : List (ℕ × ℕ)
  pub khs_ipsm_paths : List ℕ
  pub was_fuzzed_map : ℕ → ℕ → Cell
  pub fuzzed_map_states : ℕ
  pub fuzzed_map_qentries : ℕ

-- `kh_get` on a set, and on the names of the graph's nodes.
abbrev pub has : List ℕ → ℕ → Bool
has [] id = false
has (x ∷ xs) id = x == id || has xs id

abbrev pub has_edge : List (ℕ × ℕ) → ℕ → ℕ → Bool
has_edge [] from to = false
has_edge ((a, b) ∷ es) from to = (a == from && b == to) || has_edge es from to

-- `kh_put` and an assignment to the value.
abbrev pub put : (ℕ → Option StateInfo) → ℕ → StateInfo → ℕ → Option StateInfo
put states id info x = if x == id then some info else states x

unfoldable pub get_state_index : List ℕ → ℕ → ℕ
get_state_index [] state_id = 0
get_state_index (x ∷ xs) state_id =
    let later = get_state_index xs state_id in if x == state_id then 0 else suc later

-- New rows and columns are unreachable; the other cells stay.
unfoldable pub expand_was_fuzzed_map : ℕ → ℕ → Store → Store
expand_was_fuzzed_map new_states new_qentries s = record s {
  was_fuzzed_map = λ i j.
      if (leb s.fuzzed_map_states i && ltb i (s.fuzzed_map_states + new_states))
        || (leb s.fuzzed_map_qentries j && ltb j (s.fuzzed_map_qentries + new_qentries))
      then unreachable
      else s.was_fuzzed_map i j;
  fuzzed_map_states = s.fuzzed_map_states + new_states;
  fuzzed_map_qentries = s.fuzzed_map_qentries + new_qentries;
}

-- The loop, with the ids it has put into its hash set and what it has counted.
unfoldable pub count_unique : List ℕ → ℕ → List ℕ → ℕ
count_unique khs result [] = result
count_unique khs result (id ∷ ids) =
    let old = count_unique khs result ids in
    let new = count_unique (id ∷ khs) (result + 1) ids in if has khs id then old else new

unfoldable pub get_unique_state_count : List ℕ → ℕ
unfolding count_unique
get_unique_state_count state_sequence = count_unique [] 0 state_sequence

-- The loop that leaves out a state equal to the two before it, from position 2 on. The first two
-- arguments are the states before the rest of the sequence.
unfoldable pub trim_from : ℕ → ℕ → List ℕ → List ℕ
trim_from b a [] = []
trim_from b a (x ∷ xs) = let rest = trim_from a x xs in if x == a && x == b then rest else x ∷ rest

unfoldable pub trim : List ℕ → List ℕ
unfolding trim_from
trim (b ∷ a ∷ xs) = b ∷ a ∷ trim_from b a xs
trim xs = xs

-- The answer and the set of hashes afterwards. The hash function is hash.h's MurmurHash3, a parameter.
unfoldable pub is_state_sequence_interesting : (List ℕ → ℕ) → List ℕ → List ℕ → Bool × List ℕ
unfolding trim
is_state_sequence_interesting hash32 khs_ipsm_paths state_sequence =
    let hash_key = hash32 (trim state_sequence) in
    if has khs_ipsm_paths hash_key
    then (false, khs_ipsm_paths)
    else (true, hash_key ∷ khs_ipsm_paths)

-- `f` on the states of a sequence that are in the table, once each: the loops of `update_fuzzs` and
-- of `update_state_aware_variables`, which add 1 to a counter.
unfoldable pub once_each :
    (StateInfo → StateInfo) → List ℕ → (ℕ → Option StateInfo) → List ℕ → ℕ → Option StateInfo
once_each f khs states [] = states
once_each f khs states (id ∷ ids) =
    let old = once_each f khs states ids in
    let found = λ (info : StateInfo). once_each f (id ∷ khs) (put states id (f info)) ids in
    let absent = once_each f (id ∷ khs) states ids in
    if has khs id then old else elim (states id) [ none ↦ absent | some info ↦ found info ]

abbrev pub add_fuzz : StateInfo → StateInfo
add_fuzz info = record info { fuzzs = info.fuzzs + 1 }

abbrev pub add_path : StateInfo → StateInfo
add_path info = record info { paths = info.paths + 1 }

-- `update_fuzzs`, with the extractor of response codes as a parameter.
unfoldable pub update_fuzzs : (Bytes → List ℕ) → Bytes → Store → Store
unfolding once_each
update_fuzzs extract_response_codes response_buf s = record s {
  khms_states = once_each add_fuzz [] s.khms_states (extract_response_codes response_buf);
}
