-- ===== src/Bitmap/Culling.antt =====
-- The queue and the bitmap (afl-fuzz.c): `minimize_bits`, `update_bitmap_score` and `cull_queue`.
-- `MAP_SIZE` is a parameter, 65536 in the program. Queue entries are their addresses.
pub mod Compact
pub mod Refs
pub mod Released
pub mod Taken
pub mod Rated
pub mod Favored
pub mod Winner
pub mod Cover
use Prim.Native.Nat.{bit_and, bit_or}
use aflnet_legion.Common.{
  ℕ, zero, suc, ◌+◌, ◌-◌, ◌*◌, ◌/◌, ◌%◌, Bool, true, false, not, ◌&&◌, ◌||◌, Option, none, some,
  List, [], ◌∷◌, ◌==◌, ltb, if◌then◌else◌, Array, write, shift_one, sub32, times64,
}
use aflnet_legion.States.{Store, Cell, not_fuzzed, get_state_index}
use aflnet_legion.Bitmap.{invert}

-- `queue_entry`, as far as the culling reads and writes it.
pub record Entry : Type 0 where
  pub exec_us : ℕ
  pub len : ℕ
  pub unique_state_count : ℕ
  pub generating_state_id : ℕ
  pub index : ℕ
  pub is_initial_seed : Bool
  pub favored : Bool
  pub fs_redundant : Bool
  pub tc_ref : ℕ
  pub trace_mini : Option Array

-- The variables of the fuzzer that are about the queue; `queue` lists the entries from the first.
pub record Queue : Type 0 where
  pub entries : ℕ → Entry
  pub queue : List ℕ
  pub top_rated : ℕ → Option ℕ
  pub score_changed : Bool
  pub queued_favored : ℕ
  pub pending_favored : ℕ

-- An assignment to fields of an entry.
unfoldable pub change : ℕ → (Entry → Entry) → (ℕ → Entry) → ℕ → Entry
change q f entries x = if x == q then f (entries q) else entries x

-- A loop over the entries of the queue.
unfoldable pub for_each : List ℕ → (Entry → Entry) → (ℕ → Entry) → ℕ → Entry
unfolding change
for_each [] f entries = entries
for_each (q ∷ qs) f entries = for_each qs f (change q f entries)

abbrev pub unfavor : Entry → Entry
unfavor e = if e.is_initial_seed then e else record e { favored = false }

-- `mark_as_redundant`, without the file that it makes or removes.
abbrev pub mark_as_redundant : Entry → Entry
mark_as_redundant e = record e { fs_redundant = not e.favored }

-- The loop from `i` on, with the rounds that are left.
unfoldable pub minimize_from : ℕ → ℕ → Array → Array → Array
minimize_from zero i src dst = dst
minimize_from (suc left) i src dst =
    minimize_from left (i + 1) src
      (if src i == 0 then dst else write dst (i / 8) (bit_or (dst (i / 8)) (shift_one (i % 8))))

module _ (map_size : ℕ) where
  unfoldable pub minimize_bits : Array → Array → Array
  unfolding minimize_from
  minimize_bits dst src = minimize_from map_size 0 src dst

  -- `ck_alloc` clears what it allocates.
  abbrev pub allocated : Array
  allocated j = 0

  abbrev pub take_slot : Array → Entry → Entry
  take_slot trace_bits e = record e {
    tc_ref = e.tc_ref + 1;
    trace_mini = elim e.trace_mini [
      | none ↦ some (minimize_bits allocated trace_bits)
      | some mini ↦ some mini
    ];
  }

  abbrev pub release_slot : Entry → Entry
  release_slot e = record e {
    tc_ref = sub32 e.tc_ref 1;
    trace_mini = if sub32 e.tc_ref 1 == 0 then none else e.trace_mini;
  }

  -- The entry wins the slot.
  unfoldable pub win : ℕ → Array → ℕ → Queue → Queue
  unfolding change
  win q trace_bits i s = record s {
    entries = change q (take_slot trace_bits) s.entries;
    top_rated = λ x. if x == i then some q else s.top_rated x;
    score_changed = true;
  }

  -- One byte of the trace. The two tests of the source are made in its order.
  unfoldable pub rate : ℕ → Array → ℕ → Queue → Queue
  unfolding win change
  rate q trace_bits i s =
      let e = s.entries q in
      let fav_factor = times64 e.exec_us e.len in
      if trace_bits i == 0 then s else elim (s.top_rated i) [
        | none ↦ win q trace_bits i s
        | some top ↦
            let t = s.entries top in
            if ltb e.unique_state_count t.unique_state_count
            then s
            else if ltb e.unique_state_count t.unique_state_count
                && ltb (times64 t.exec_us t.len) fav_factor
            then s
            else win q trace_bits i (record s { entries = change top release_slot s.entries })
      ]

  unfoldable pub rate_from : ℕ → ℕ → Array → ℕ → Queue → Queue
  unfolding rate
  rate_from zero q trace_bits i s = s
  rate_from (suc left) q trace_bits i s =
      rate_from left q trace_bits (i + 1) (rate q trace_bits i s)

  unfoldable pub update_bitmap_score : ℕ → Array → Queue → Queue
  unfolding rate_from
  update_bitmap_score q trace_bits s = rate_from map_size q trace_bits 0 s

  -- `temp_v & ~trace_mini`, for every byte of the compact map.
  unfoldable pub strike : Array → Array → Array
  strike mini temp_v j =
      if ltb j (map_size / 8) && not (mini j == 0)
      then bit_and (temp_v j) (invert (mini j))
      else temp_v j

  abbrev pub mini_of : Entry → Array
  mini_of e = elim e.trace_mini [ none ↦ allocated | some mini ↦ mini ]

  module _ (store : Store) (target_state_id : ℕ) where
    abbrev pub is_pending : Entry → Bool
    is_pending e =
        (e.generating_state_id == target_state_id || e.is_initial_seed)
        && elim (store.was_fuzzed_map (get_state_index store.state_ids target_state_id) e.index) [
          | not_fuzzed ↦ true
          | _ ↦ false
        ]

    -- The winner of a slot becomes favored.
    unfoldable pub favor : ℕ → Queue → Queue
    unfolding change
    favor top s = record s {
      entries = change top (λ (e : Entry). record e { favored = true }) s.entries;
      queued_favored = s.queued_favored + 1;
      pending_favored =
          if is_pending (s.entries top) then s.pending_favored + 1 else s.pending_favored;
    }

    -- One slot, with `temp_v` as what is not yet captured.
    unfoldable pub cull : ℕ → Array × Queue → Array × Queue
    unfolding strike favor
    cull i (temp_v, s) = elim (s.top_rated i) [
      | none ↦ (temp_v, s)
      | some top ↦
          if bit_and (temp_v (i / 8)) (shift_one (i % 8)) == 0
          then (temp_v, s)
          else (strike (mini_of (s.entries top)) temp_v, favor top s)
    ]

    unfoldable pub cull_from : ℕ → ℕ → Array × Queue → Array × Queue
    unfolding cull
    cull_from zero i c = c
    cull_from (suc left) i c = cull_from left (i + 1) (cull i c)

    unfoldable pub cull_queue : Bool → Queue → Queue
    unfolding cull_from for_each
    cull_queue dumb_mode s =
        let begun = record s {
          entries = for_each s.queue unfavor s.entries;
          score_changed = false;
          queued_favored = 0;
          pending_favored = 0;
        } in
        let culled = (cull_from map_size 0 ((λ j. 255), begun)).1 in
        if dumb_mode || not s.score_changed
        then s
        else record culled { entries = for_each culled.queue mark_as_redundant culled.entries }
