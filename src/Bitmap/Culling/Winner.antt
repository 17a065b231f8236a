-- ===== src/Bitmap/Culling/Winner.antt =====
-- `update_bitmap_score` (afl-fuzz.c): who holds a slot afterwards.
use aflnet_legion.Common.{
  ℕ, zero, suc, ◌+◌, ◌≡◌, ◌≢◌, refl, sym, ap, subst, ◌∙◌, Bool, true, false, not, ◌&&◌, Option,
  none, some, ◌==◌, ltb, leb, arith, if◌then◌else◌, Array, Bool-cases, Option-cases, inl, inr,
  ℕ_discrete,
}
use aflnet_legion.Bitmap.Culling.{
  Entry, Queue, change, release_slot, take_slot, win, rate, rate_from, update_bitmap_score,
}
use aflnet_legion.Bitmap.Culling.Refs.{put_slot_here, put_slot_other}

-- The entry wins a slot that is free, or whose holder has seen no more states.
abbrev pub winner : ℕ → (ℕ → Entry) → Option ℕ → Option ℕ
winner q entries none = some q
winner q entries (some t) =
    if ltb (entries q).unique_state_count (entries t).unique_state_count then some t else some q

-- The counts of states are the same.
abbrev IsSameCount : (ℕ → Entry) → (ℕ → Entry) → Type 0
IsSameCount entries later = (x : ℕ) → (later x).unique_state_count ≡ (entries x).unique_state_count

winner-IsSameCount :
    (q : ℕ) (entries later : ℕ → Entry) (slot : Option ℕ)
    → IsSameCount entries later
    → winner q later slot ≡ winner q entries slot
winner-IsSameCount q entries later none same = refl
winner-IsSameCount q entries later (some t) same = rw (same q, same t) refl

change-IsSameCount :
    (x : ℕ) (f : Entry → Entry) (entries : ℕ → Entry)
    → ((e : Entry) → (f e).unique_state_count ≡ e.unique_state_count)
    → IsSameCount entries (change x f entries)
unfolding change
change-IsSameCount x f entries keeps y = ground (arith, keeps (entries x))

-- The range of the loop, one round further.
shift_here :
    {v' : Option ℕ} (i k left : ℕ) (b : Bool) (v w w' : Option ℕ)
    → k ≡ i
    → v' ≡ (if b then v else w)
    → (if leb (i + 1) k && ltb k (i + 1 + left) && not b then w' else v')
      ≡ (if leb i k && ltb k (i + suc left) && not b then w else v)
shift_here i k left true v w w' e r = ground (arith, e, r)
shift_here i k left false v w w' e r = ground (arith, e, r)

shift_there :
    {v v' w w' : Option ℕ} (i k left : ℕ) (b : Bool)
    → k ≢ i
    → w' ≡ w
    → v' ≡ v
    → (if leb (i + 1) k && ltb k (i + 1 + left) && not b then w' else v')
      ≡ (if leb i k && ltb k (i + suc left) && not b then w else v)
shift_there i k left b ne e_w e_v = rw (e_w, e_v) (ground (arith, ne))

module _ (map_size q : ℕ) (trace_bits : Array) where
  win-IsSameCount :
      (i : ℕ) (s : Queue) → IsSameCount s.entries (win map_size q trace_bits i s).entries
  unfolding win
  win-IsSameCount i s = change-IsSameCount q (take_slot map_size trace_bits) s.entries (λ e. refl)

  -- What one byte of the trace does to the slots and the counts.
  record IsRound (i : ℕ) (s s' : Queue) : Type 0 where
    counts : IsSameCount s.entries s'.entries
    here :
        s'.top_rated i
        ≡ (if trace_bits i == 0 then s.top_rated i else winner q s.entries (s.top_rated i))
    there : (k : ℕ) → k ≢ i → s'.top_rated k ≡ s.top_rated k

  rate-IsRound : (i : ℕ) (s : Queue) → IsRound i s (rate map_size q trace_bits i s)
  unfolding rate win
  rate-IsRound i s = elim (Bool-cases (trace_bits i == 0)) [
    | inl unset ↦
        rw (rate, unset) record { counts = λ x. refl; here = rw unset refl; there = λ k ne. refl }
    | inr set ↦ elim (Option-cases (s.top_rated i)) [
      | inl e ↦
          rw (rate, set, e)
            record {
              counts = win-IsSameCount i s;
              here = put_slot_here i i (some q) s.top_rated refl ∙ rw (set, e) refl;
              there = λ k ne. put_slot_other i k (some q) s.top_rated ne;
            }
      | inr (t, e) ↦
          let fewer = ltb (s.entries q).unique_state_count (s.entries t).unique_state_count in
          let released = record s { entries = change t (release_slot map_size) s.entries } in
          elim (Bool-cases fewer) [
            | inl few ↦
                rw (rate, set, e, few)
                  record { counts = λ x. refl; here = rw (set, e, few) refl; there = λ k ne. refl }
            | inr many ↦
                rw (rate, set, e, many)
                  record {
                    counts = λ x.
                        win-IsSameCount i released x
                        ∙ change-IsSameCount t (release_slot map_size) s.entries (λ d. refl) x;
                    here = put_slot_here i i (some q) s.top_rated refl ∙ rw (set, e, many) refl;
                    there = λ k ne. put_slot_other i k (some q) s.top_rated ne;
                  }
          ]
    ]
  ]

  rate_from-winner :
      (left i k : ℕ) (s : Queue)
      → (rate_from map_size left q trace_bits i s).top_rated k ≡ (
          if leb i k && ltb k (i + left) && not (trace_bits k == 0)
          then winner q s.entries (s.top_rated k)
          else s.top_rated k)
  unfolding rate_from
  rate_from-winner zero i k s = ground arith
  rate_from-winner (suc left) i k s =
      let s' = rate map_size q trace_bits i s in
      let round = rate-IsRound i s in
      rate_from-winner left (i + 1) k s' ∙ elim (ℕ_discrete k i) [
        | yes e ↦
            shift_here i k left (trace_bits k == 0) (s.top_rated k)
              (winner q s.entries (s.top_rated k)) (winner q s'.entries (s'.top_rated k)) e
              (subst
                (λ (x : ℕ). s'.top_rated x ≡ (
                  if trace_bits x == 0 then s.top_rated x else winner q s.entries (s.top_rated x)))
                (sym e) round.here)
        | no ne ↦
            shift_there i k left (trace_bits k == 0) ne
              (ap (winner q s'.entries) (round.there k ne)
                ∙ winner-IsSameCount q s.entries s'.entries (s.top_rated k) round.counts)
              (round.there k ne)
      ]

-- After `update_bitmap_score` of an entry, a byte below `MAP_SIZE` that the trace hits has that
-- entry as its top-rated one, unless it had one with a larger count of states before, which then
-- stays, whatever the speeds and sizes of the two; every other byte keeps what it had.
pub update_bitmap_score-winner :
    (map_size q i : ℕ) (trace_bits : Array) (s : Queue)
    → (update_bitmap_score map_size q trace_bits s).top_rated i ≡ (
        if ltb i map_size && not (trace_bits i == 0)
        then winner q s.entries (s.top_rated i)
        else s.top_rated i)
unfolding update_bitmap_score
update_bitmap_score-winner map_size q i trace_bits s =
    rate_from-winner map_size q trace_bits map_size 0 i s ∙ ground arith
