-- ===== src/Seeds/Compaction.antt =====
-- Compaction in place keeps the regions with states, in their order.
use mathlib.Core.List.{append_assoc, append-nil}
use aflnet_legion.Common.{
  ℕ, zero, suc, ◌+◌, ◌-◌, ◌≤◌, ◌<◌, ◌≡◌, refl, sym, ap, ◌∙◌, true, false, not, ◌&&◌, List, [], ◌∷◌,
  ◌++◌, ◌==◌, ltb, leb, if◌then◌else◌, length, length-append, take, set, map, arith, Bool-cases,
  inl, inr, length-map, ℕ_discrete, take_all,
}
use aflnet_legion.Region.{Region}
use aflnet_legion.Seeds.{
  truncated_state_count, is_null, region_at, count_null, compact, remove_null_regions, truncate,
  truncate_long_regions, preprocess_queue_entry,
}

-- The regions that are not null.
abbrev pub non_null : List Region → List Region
non_null [] = []
non_null (r ∷ rs) = if is_null r then non_null rs else r ∷ non_null rs

region_at-append :
    (done rest : List Region) (j : ℕ)
    → region_at (done ++ rest) (length done + j) ≡ region_at rest j
region_at-append [] rest j = let e : 0 + j ≡ j = omega arith in rw e refl
region_at-append (d ∷ done) rest j =
    let e : suc (length done) + j ≡ suc (length done + j) = omega arith in
    rw e (region_at-append done rest j)

set-append :
    (done rest : List Region) (r x : Region)
    → set (done ++ r ∷ rest) (length done) x ≡ done ++ x ∷ rest
set-append [] rest r x = refl
set-append (d ∷ done) rest r x = ap (◌∷◌ d) (set-append done rest r x)

take-append : (xs ys : List Region) → take (length xs) (xs ++ ys) ≡ xs
take-append [] ys = refl
take-append (x ∷ xs) ys = ap (◌∷◌ x) (take-append xs ys)

region_at-middle :
    (junk : List Region) (r : Region) (rest : List Region)
    → region_at (junk ++ (r ∷ rest)) (length junk) ≡ r
region_at-middle [] r rest = refl
region_at-middle (j ∷ junk) r rest = region_at-middle junk r rest

-- One round of the loop, by cases.
module _ (left : ℕ) (regions : List Region) (n i k : ℕ) where
  compact-keep :
      k ≡ 0
      → is_null (region_at regions i) ≡ false
      → compact (suc left) regions n i k ≡ compact left regions n (i + 1) k
  unfolding compact
  compact-keep z there = let first : (k == 0) ≡ true = ground arith in rw (first, there) refl

  compact-end : 1 ≤ k → n ≤ i + k → compact (suc left) regions n i k ≡ (regions, i)
  unfolding compact count_null
  compact-end one over =
      let later : (k == 0) ≡ false = ground arith in
      let none_left : n - (i + k) ≡ 0 = omega arith in
      let stays : k + 0 ≡ k = omega arith in
      let stop : leb n (i + k) ≡ true = ground arith in rw (later, none_left, stays, stop) refl

  compact-move :
      1 ≤ k
      → i + k < n
      → is_null (region_at regions (i + k)) ≡ false
      → compact (suc left) regions n i k
        ≡ compact left (set regions i (region_at regions (i + k))) n (i + 1) k
  unfolding compact count_null
  compact-move one inside there =
      let later : (k == 0) ≡ false = ground arith in
      let some_left : n - (i + k) ≡ suc (n - (i + k) - 1) = omega arith in
      let stays : k + 0 ≡ k = omega arith in
      let go_on : leb n (i + k) ≡ false = ground arith in
      rw (later, some_left, there, stays, go_on) refl

  compact-null :
      i + k < n
      → is_null (region_at regions (i + k)) ≡ true
      → compact (suc left) regions n i k ≡ compact (suc left) regions n i (k + 1)
  unfolding compact count_null
  compact-null inside null =
      let some_left : n - (i + k) ≡ suc (n - (i + (k + 1))) = omega arith in
      let more : k + suc (count_null (n - (i + (k + 1))) regions (i + k + 1))
          ≡ k + 1 + count_null (n - (i + (k + 1))) regions (i + k + 1) =
        omega arith in
      let same : i + k + 1 ≡ i + (k + 1) = omega arith in
      let later : (k + 1 == 0) ≡ false = ground arith in
      let not_kept : (k == 0 && not (is_null (region_at regions i))) ≡ false =
        elim (ℕ_discrete k 0) [
          | yes z ↦
              let here : i + k ≡ i = omega arith in
              let null_here : is_null (region_at regions i) ≡ true = rw here at null in
              rw (null_here, z) refl
          | no nz ↦ let nonzero : (k == 0) ≡ false = ground arith in rw nonzero refl
        ] in
      rw (not_kept, later, some_left, null, more, same) refl

  compact-zero : compact 0 regions n i k ≡ (regions, n)
  unfolding compact
  compact-zero = refl

-- The first elements of an array, as many as the count says, are these.
abbrev pub Holds : List Region → List Region × ℕ → Type 0
Holds expected (regions, count) = (take count regions ≡ expected) × (count ≡ length expected)

-- The region behind the gap.
next_region :
    (rest done junk regions : List Region) (r : Region) (i k : ℕ)
    → regions ≡ done ++ (junk ++ r ∷ rest)
    → i ≡ length done
    → k ≡ length junk
    → region_at regions (i + k) ≡ r
next_region rest done junk regions r i k e ei ek =
    rw (e, ei, ek)
      (region_at-append done (junk ++ (r ∷ rest)) (length junk) ∙ region_at-middle junk r rest)

compact-Holds :
    (rest done junk regions : List Region) (n i k left : ℕ)
    → regions ≡ done ++ (junk ++ rest)
    → n ≡ length done + (length junk + length rest)
    → i ≡ length done
    → k ≡ length junk
    → left ≡ length junk + length rest
    → Holds (done ++ non_null rest) (compact left regions n i k)
compact-Holds [] done [] regions n i k left e en ei ek el =
    let over : left ≡ 0 = omega arith in
    let size : n ≡ length done = omega arith in
    rw (over, compact-zero 0 regions n i k, e, append-nil done, size) (take_all done, refl)
compact-Holds [] done (j ∷ junk) regions n i k left e en ei ek el =
    let one_left : left ≡ suc (length junk) = omega arith in
    rw
      (
        one_left,
        compact-end (length junk) regions n i k (omega arith) (omega arith),
        e,
        ei,
        append-nil done,
      )
      (take-append done ((j ∷ junk) ++ []), refl)
compact-Holds (r ∷ rest) done [] regions n i k left e en ei ek el =
    let one_left : left ≡ suc (length rest) = omega arith in
    let at = next_region rest done [] regions r i k e ei ek in
    let here : i + k ≡ i = omega arith in
    elim (Bool-cases (is_null r)) [
      | inl null ↦
          let later =
            compact-Holds rest done (r ∷ []) regions n i (k + 1) left e (omega arith) ei
              (omega arith) (omega arith) in
          rw (null, one_left, compact-null (length rest) regions n i k (omega arith) (rw at null))
            (rw one_left at later)
      | inr there ↦
          let whole : regions ≡ (done ++ r ∷ []) ++ rest =
            e ∙ sym (append_assoc done (r ∷ []) rest) in
          let size = length-append done (r ∷ []) in
          let later =
            compact-Holds rest (done ++ r ∷ []) [] regions n (i + 1) k (length rest) whole
              (omega arith) (omega arith) ek (omega arith) in
          rw
            (
              there,
              one_left,
              compact-keep (length rest) regions n i k ek (rw (rw here at at) there),
            )
            (rw (append_assoc done (r ∷ []) (non_null rest)) at later)
    ]
compact-Holds (r ∷ rest) done (j ∷ junk) regions n i k left e en ei ek el =
    let one_left : left ≡ suc (length junk + length (r ∷ rest)) = omega arith in
    let at = next_region rest done (j ∷ junk) regions r i k e ei ek in
    let size = length-append junk (r ∷ []) in
    elim (Bool-cases (is_null r)) [
      | inl null ↦
          let whole : regions ≡ done ++ ((j ∷ junk ++ r ∷ []) ++ rest) =
            e ∙ ap (λ t. done ++ (j ∷ t)) (sym (append_assoc junk (r ∷ []) rest)) in
          let later =
            compact-Holds rest done (j ∷ junk ++ r ∷ []) regions n i (k + 1) left whole
              (omega arith) ei (omega arith) (omega arith) in
          rw
            (
              null,
              one_left,
              compact-null (length junk + length (r ∷ rest)) regions n i k (omega arith)
                  (rw at null),
            )
            (rw one_left at later)
      | inr there ↦
          let moved : set regions i r ≡ (done ++ r ∷ []) ++ ((junk ++ r ∷ []) ++ rest) =
            rw (e, ei) (set-append done (junk ++ r ∷ rest) j r)
            ∙ sym (
                append_assoc done (r ∷ []) ((junk ++ r ∷ []) ++ rest)
                ∙ ap (λ t. done ++ (r ∷ t)) (append_assoc junk (r ∷ []) rest)) in
          let size' = length-append done (r ∷ []) in
          let later =
            compact-Holds rest (done ++ r ∷ []) (junk ++ r ∷ []) (set regions i r) n (i + 1) k
              (length junk + length (r ∷ rest)) moved (omega arith) (omega arith) (omega arith)
              (omega arith) in
          rw
            (
              there,
              one_left,
              compact-move (length junk + length (r ∷ rest)) regions n i k (omega arith)
                  (omega arith) (rw at there),
              at,
            )
            (rw (append_assoc done (r ∷ []) (non_null rest)) at later)
    ]

-- For every array of regions: compaction in place leaves the regions with states, in their order, as
-- the first elements of the array, and their number as the count.
pub remove_null_regions-non_null :
    (regions : List Region)
    → Holds (non_null regions) (remove_null_regions regions (length regions))
unfolding remove_null_regions
remove_null_regions-non_null regions =
    compact-Holds regions [] [] regions (length regions) 0 0 (length regions) refl (omega arith)
      refl refl (omega arith)

take-truncate_long_regions :
    (n : ℕ) (regions : List Region)
    → take n (truncate_long_regions regions n) ≡ map truncate (take n regions)
unfolding truncate_long_regions
take-truncate_long_regions zero regions = refl
take-truncate_long_regions (suc n) [] = refl
take-truncate_long_regions (suc n) (r ∷ regions) =
    ap (◌∷◌ (truncate r)) (take-truncate_long_regions n regions)

-- A region with states, of which at most 200 count.
abbrev pub AllReady : List Region → Type 0
AllReady [] = Unit {0}
AllReady (r ∷ rs) = (is_null r ≡ false) × (r.state_count ≤ 200) × AllReady rs

truncate_lem : (r : Region) → (is_null (truncate r) ≡ is_null r) × ((truncate r).state_count ≤ 200)
truncate_lem r = elim (Bool-cases (ltb r.state_count truncated_state_count)) [
  | inl few ↦ rw few (refl, ground arith)
  | inr many ↦ rw many (refl, omega arith)
]

map-AllReady : (regions : List Region) → AllReady (map truncate (non_null regions))
map-AllReady [] = tt
map-AllReady (r ∷ regions) = elim (Bool-cases (is_null r)) [
  | inl null ↦ rw null (map-AllReady regions)
  | inr there ↦
      let (same, few) = truncate_lem r in rw there (same ∙ there, few, map-AllReady regions)
]

-- For every array of regions, what a seed keeps of them before the search tree takes it: as the
-- first elements of the array, as many as the new count says, the regions with states, in their
-- order, with counts above 200 cut to 200; each of them has states, and counts at most 200.
pub preprocess_queue_entry-non_null :
    (regions : List Region)
    → Holds (map truncate (non_null regions)) (preprocess_queue_entry regions (length regions))
      × AllReady (map truncate (non_null regions))
unfolding preprocess_queue_entry
preprocess_queue_entry-non_null regions =
    let (same, count) = remove_null_regions-non_null regions in
    let (array, n) = remove_null_regions regions (length regions) in
    (
      (
        take-truncate_long_regions n array ∙ ap (map truncate) same,
        count ∙ sym (length-map (non_null regions) truncate),
      ),
      map-AllReady regions,
    )
