-- ===== src/Bitmap/Culling/Cover.antt =====
-- `cull_queue` (afl-fuzz.c): the favored entries hit every byte that has a top-rated entry.
use Prim.Native.Nat.{bit_and, min}
use aflnet_legion.Common.{
  ℕ, zero, suc, ◌+◌, ◌-◌, ◌/◌, ◌%◌, ◌≤◌, ◌<◌, ◌≡◌, refl, sym, ap, subst, ◌∙◌, ◌⊎◌, inl, inr, Bool,
  true, false, not, ◌&&◌, Option, none, some, List, [], ◌∷◌, ◌==◌, ==_iff, arith, if◌then◌else◌,
  Array, Bool-cases, Option-cases, ℕ_discrete, ltb, bit, bit-bit_and, bit-complement, bit_and_bound,
  bit_le, bit_unset, shift_one, all_below, all_below_sound,
}
use aflnet_legion.States.{Store}
use aflnet_legion.Bitmap.{invert}
use aflnet_legion.Bitmap.Culling.Compact.{hit}
use aflnet_legion.Bitmap.Culling.{
  Entry, Queue, change, strike, mini_of, favor, cull, cull_from, for_each, unfavor,
  mark_as_redundant, cull_queue, allocated,
}

-- A favored entry whose trace hits the byte.
abbrev pub IsCovered : (ℕ → Entry) → ℕ → Type 0
IsCovered entries i =
    (q : ℕ) × (mini : Array) × ((entries q).favored ≡ true)
    × ((entries q).trace_mini ≡ some mini)
    × (hit mini i ≡ 1)

-- Every byte with a top-rated entry is hit by the entry's trace, which is kept.
abbrev pub IsRated : ℕ → Queue → Type 0
IsRated map_size s =
    (i q : ℕ)
    → i < map_size
    → s.top_rated i ≡ some q
    → (mini : Array) × ((s.entries q).trace_mini ≡ some mini)
      × (hit mini i ≡ 1)
      × ((j : ℕ) → mini j < 256)

-- The entries keep their traces, and the favored ones stay so.
abbrev IsLater : (ℕ → Entry) → (ℕ → Entry) → Type 0
IsLater entries later =
    (q : ℕ)
    → ((later q).trace_mini ≡ (entries q).trace_mini)
      × ((entries q).favored ≡ true → (later q).favored ≡ true)

later-IsCovered :
    (entries later : ℕ → Entry) (i : ℕ)
    → IsLater entries later
    → IsCovered entries i
    → IsCovered later i
later-IsCovered entries later i is_later (q, mini, favored, kept, hits) =
    (q, mini, (is_later q).1 favored, (is_later q).0 ∙ kept, hits)

zero_bit : (t m : ℕ) → m ≤ 1 → min t (1 - m) ≡ 0 → (t ≡ 0) ⊎ (m ≡ 1)
zero_bit zero m h e = inl refl
zero_bit (suc t) m h e = inr (omega arith)

IsLater-trans : (a b c : ℕ → Entry) → IsLater a b → IsLater b c → IsLater a c
IsLater-trans a b c first second q = ((second q).0 ∙ (first q).0, λ f. (second q).1 ((first q).1 f))

module _ (map_size : ℕ) where
  -- What is no longer in `temp_v` is covered.
  abbrev IsCaptured : Array → (ℕ → Entry) → Type 0
  IsCaptured temp_v entries =
      ((j : ℕ) → temp_v j < 256) × ((i : ℕ) → i < map_size → hit temp_v i ≡ 0 → IsCovered entries i)

  hit-strike :
      (mini temp_v : Array) (i : ℕ)
      → ((j : ℕ) → mini j < 256)
      → hit (strike map_size mini temp_v) i ≡ 0
      → (hit temp_v i ≡ 0) ⊎ (hit mini i ≡ 1)
  unfolding strike
  hit-strike mini temp_v i bytes h =
      let m = mini (i / 8) in
      let t = temp_v (i / 8) in
      let k = i % 8 in
      elim (Bool-cases (ltb (i / 8) (map_size / 8) && not (m == 0))) [
        | inl struck ↦ zero_bit (bit k t) (bit k m) (bit_le k m) (
            omega (
              arith,
              subst (λ (b : Bool). bit k (if b then bit_and t (invert m) else t) ≡ 0) struck h,
              bit-bit_and k t (invert m),
              bit-complement 8 k m (omega arith) (bytes (i / 8)),
            ))
        | inr same ↦
            inl (subst (λ (b : Bool). bit k (if b then bit_and t (invert m) else t) ≡ 0) same h)
      ]

  strike-bytes :
      (mini temp_v : Array) (j : ℕ) → temp_v j < 256 → strike map_size mini temp_v j < 256
  unfolding strike
  strike-bytes mini temp_v j h = ground (arith, bit_and_bound (temp_v j) (invert (mini j)))

  -- One slot of the loop: what was captured stays so, and the slot is covered afterwards.
  mini_of_kept : (e : Entry) (mini : Array) → e.trace_mini ≡ some mini → mini_of map_size e ≡ mini
  mini_of_kept e mini kept =
      ap (λ (t : Option Array). elim t [ none ↦ allocated map_size | some m ↦ m ]) kept

  module _ (store : Store) (target_state_id : ℕ) where
    favor-IsLater :
        (top : ℕ) (s : Queue)
        → IsLater s.entries (favor map_size store target_state_id top s).entries
    unfolding favor change
    favor-IsLater top s q = ground arith

    favor-favored :
        (top : ℕ) (s : Queue)
        → ((favor map_size store target_state_id top s).entries top).favored ≡ true
    unfolding favor change
    favor-favored top s = ground arith

    favor-IsCovered :
        (top i : ℕ) (s : Queue) (mini : Array)
        → (s.entries top).trace_mini ≡ some mini
        → hit mini i ≡ 1
        → IsCovered (favor map_size store target_state_id top s).entries i
    favor-IsCovered top i s mini kept hits =
        (top, mini, favor-favored top s, (favor-IsLater top s top).0 ∙ kept, hits)

    strike-IsCaptured :
        (top : ℕ) (temp_v mini : Array) (s : Queue)
        → (s.entries top).trace_mini ≡ some mini
        → ((j : ℕ) → mini j < 256)
        → IsCaptured temp_v s.entries
        → IsCaptured
            (strike map_size mini temp_v)
            (favor map_size store target_state_id top s).entries
    strike-IsCaptured top temp_v mini s kept bytes (small, captured) = (
      λ j. strike-bytes mini temp_v j (small j),
      λ i h gone. elim (hit-strike mini temp_v i bytes gone) [
        | inl before ↦
            later-IsCovered s.entries (favor map_size store target_state_id top s).entries i
              (favor-IsLater top s) (captured i h before)
        | inr hits ↦ favor-IsCovered top i s mini kept hits
      ],
    )

    cull-IsCaptured :
        (i : ℕ) (temp_v : Array) (s : Queue)
        → i < map_size
        → IsRated map_size s
        → IsCaptured temp_v s.entries
        → let (temp_v', s') = cull map_size store target_state_id i (temp_v, s) in
          IsCaptured temp_v' s'.entries
          × IsLater s.entries s'.entries
          × (s'.top_rated ≡ s.top_rated)
          × ((s.top_rated i ≡ none) ⊎ IsCovered s'.entries i)
    unfolding cull favor
    cull-IsCaptured i temp_v s h rated captured = elim (Option-cases (s.top_rated i)) [
      | inl e ↦ rw (cull, e) (captured, (λ q. (refl, λ f. f)), refl, inl refl)
      | inr (top, e) ↦ elim (Bool-cases (bit_and (temp_v (i / 8)) (shift_one (i % 8)) == 0)) [
        | inl gone ↦
            rw (cull, e, gone)
              (
                captured,
                (λ q. (refl, λ f. f)),
                refl,
                inr (
                    captured.1 i h (
                      bit_unset (i % 8) (temp_v (i / 8))
                        ((==_iff (bit_and (temp_v (i / 8)) (shift_one (i % 8))) 0).0 gone))),
              )
        | inr left ↦
            let (mini, kept, hits, bytes) = rated i top h e in
            rw (cull, e, left, mini_of_kept (s.entries top) mini kept)
              (
                strike-IsCaptured top temp_v mini s kept bytes captured,
                favor-IsLater top s,
                refl,
                inr (favor-IsCovered top i s mini kept hits),
              )
      ]
    ]

    slot_later :
        {slot : Option ℕ} (later last : ℕ → Entry) (i : ℕ)
        → IsLater later last
        → (slot ≡ none) ⊎ IsCovered later i
        → (slot ≡ none) ⊎ IsCovered last i
    slot_later later last i is_later (inl e) = inl e
    slot_later later last i is_later (inr covered) =
        inr (later-IsCovered later last i is_later covered)

    IsLater-IsRated :
        (s s' : Queue)
        → IsLater s.entries s'.entries
        → s'.top_rated ≡ s.top_rated
        → IsRated map_size s
        → IsRated map_size s'
    IsLater-IsRated s s' later same rated i q h e =
        let (mini, kept, hits, bytes) =
          rated i q h (sym (ap (λ (f : ℕ → Option ℕ). f i) same) ∙ e) in
        (mini, (later q).0 ∙ kept, hits, bytes)

    cull_from-IsCovered :
        (left i : ℕ) (temp_v : Array) (s : Queue)
        → i + left ≡ map_size
        → IsRated map_size s
        → IsCaptured temp_v s.entries
        → let s' = (cull_from map_size store target_state_id left i (temp_v, s)).1 in
          IsLater s.entries s'.entries
          × ((k : ℕ) → i ≤ k → k < map_size → (s.top_rated k ≡ none) ⊎ IsCovered s'.entries k)
    unfolding cull_from
    cull_from-IsCovered zero i temp_v s e rated captured =
        ((λ q. (refl, λ f. f)), λ k h below. absurd (omega arith))
    cull_from-IsCovered (suc left) i temp_v s e rated captured =
        let (temp_v', s') = cull map_size store target_state_id i (temp_v, s) in
        let last = (cull_from map_size store target_state_id left (i + 1) (temp_v', s')).1 in
        let (captured', later, same, here) =
          cull-IsCaptured i temp_v s (omega arith) rated captured in
        let (later', beyond) =
          cull_from-IsCovered left (i + 1) temp_v' s' (omega arith)
            (IsLater-IsRated s s' later same rated) captured' in
        (
          IsLater-trans s.entries s'.entries last.entries later later',
          λ k from below. elim (ℕ_discrete i k) [
            | yes e_k ↦
                subst (λ (x : ℕ). (s.top_rated x ≡ none) ⊎ IsCovered last.entries x) e_k
                  (slot_later s'.entries last.entries i later' here)
            | no ne ↦
                subst (λ (f : ℕ → Option ℕ). (f k ≡ none) ⊎ IsCovered last.entries k) same
                  (beyond k (omega (arith, ne)) below)
          ],
        )

-- A loop over the queue keeps what each assignment keeps.
change-trace_mini :
    (f : Entry → Entry) (x : ℕ) (entries : ℕ → Entry) (q : ℕ)
    → ((e : Entry) → (f e).trace_mini ≡ e.trace_mini)
    → (change x f entries q).trace_mini ≡ (entries q).trace_mini
unfolding change
change-trace_mini f x entries q keeps = ground (arith, keeps (entries x))

for_each-trace_mini :
    (f : Entry → Entry) (qs : List ℕ) (entries : ℕ → Entry) (q : ℕ)
    → ((e : Entry) → (f e).trace_mini ≡ e.trace_mini)
    → (for_each qs f entries q).trace_mini ≡ (entries q).trace_mini
unfolding for_each
for_each-trace_mini f [] entries q keeps = refl
for_each-trace_mini f (x ∷ qs) entries q keeps =
    for_each-trace_mini f qs (change x f entries) q keeps ∙ change-trace_mini f x entries q keeps

change-favored :
    (f : Entry → Entry) (x : ℕ) (entries : ℕ → Entry) (q : ℕ)
    → ((e : Entry) → (f e).favored ≡ e.favored)
    → (change x f entries q).favored ≡ (entries q).favored
unfolding change
change-favored f x entries q keeps = ground (arith, keeps (entries x))

for_each-favored :
    (f : Entry → Entry) (qs : List ℕ) (entries : ℕ → Entry) (q : ℕ)
    → ((e : Entry) → (f e).favored ≡ e.favored)
    → (for_each qs f entries q).favored ≡ (entries q).favored
unfolding for_each
for_each-favored f [] entries q keeps = refl
for_each-favored f (x ∷ qs) entries q keeps =
    for_each-favored f qs (change x f entries) q keeps ∙ change-favored f x entries q keeps

unfavor_keeps : (e : Entry) → (unfavor e).trace_mini ≡ e.trace_mini
unfavor_keeps e = ground arith

full_table : all_below 8 (λ k. bit k 255 == 1) ≡ true
full_table = refl

nothing_captured : (k : ℕ) → k < 8 → bit k 255 ≡ 0 → ⊥
nothing_captured k h e =
    omega (arith, (==_iff (bit k 255) 1).0 (all_below_sound 8 (λ x. bit x 255 == 1) k full_table h))

not_none : {slot : Option ℕ} {q : ℕ} {C : Type 0} → slot ≡ some q → (slot ≡ none) ⊎ C → C
not_none e (inl absent) = absurd (ground (arith, e, absent))
not_none e (inr c) = c

-- When every byte below `MAP_SIZE` that has a top-rated entry is hit by that entry's compact trace,
-- `score_changed` is set and `dumb_mode` is not, then after `cull_queue` each byte that has a top-
-- rated entry is hit by the compact trace of a favored entry.
pub cull_queue-IsCovered :
    (map_size target_state_id i q : ℕ) (store : Store) (s : Queue)
    → IsRated map_size s
    → s.score_changed ≡ true
    → i < map_size
    → s.top_rated i ≡ some q
    → IsCovered (cull_queue map_size store target_state_id false s).entries i
unfolding cull_queue
cull_queue-IsCovered map_size target_state_id i q store s rated changed h top =
    let begun = record s {
      entries = for_each s.queue unfavor s.entries;
      score_changed = false;
      queued_favored = 0;
      pending_favored = 0;
    } in
    let culled = (cull_from map_size store target_state_id map_size 0 ((λ j. 255), begun)).1 in
    let begun_rated : IsRated map_size begun = λ k r below e.
      let (mini, kept, hits, bytes) = rated k r below e in
      (mini, for_each-trace_mini unfavor s.queue s.entries r unfavor_keeps ∙ kept, hits, bytes) in
    let (later, covered) =
      cull_from-IsCovered map_size store target_state_id map_size 0 (λ j. 255) begun (omega arith)
        begun_rated
        (
          (λ j. omega arith),
          λ k below gone. absurd (nothing_captured (k % 8) (omega arith) gone),
        ) in
    rw (cull_queue, changed)
      (later-IsCovered culled.entries (for_each culled.queue mark_as_redundant culled.entries) i
        (λ r. (
          for_each-trace_mini mark_as_redundant culled.queue culled.entries r (λ e. refl),
          λ f. for_each-favored mark_as_redundant culled.queue culled.entries r (λ e. refl) ∙ f,
        ))
        (not_none top (covered i (omega arith) h)))
