-- ===== src/States/Counts.antt =====
-- Each state of a sequence counts once, however often the sequence visits it.
use aflnet_legion.Common.{
  ℕ, ◌+◌, ◌≡◌, refl, ◌∙◌, inl, inr, Bool, true, false, not, ◌&&◌, Option, List, [], ◌∷◌, ◌==◌,
  if◌then◌else◌, length, Bytes, arith, Bool-cases, Option-cases,
}
use mathlib.Core.Option.{map}
use aflnet_legion.States.{
  StateInfo, Store, has, put, once_each, count_unique, get_unique_state_count, add_fuzz,
  update_fuzzs,
}
use aflnet_legion.States.Once.{once_each_seen, once_each_absent, once_each_found}

eq_lem : (a b : ℕ) → (a == b) ≡ true → a ≡ b
eq_lem a b h = ground arith

module _ (f : StateInfo → StateInfo) (x : ℕ) where
  -- What the loop leaves at `x`, if the hash set and the rest of the sequence have `x` or not.
  abbrev left : Bool → Bool → Option StateInfo → Option StateInfo
  left seen comes info = if not seen && comes then map f info else info

  once_each_lem :
      (ids khs : List ℕ) (t : ℕ → Option StateInfo)
      → once_each f khs t ids x ≡ left (has khs x) (has ids x) (t x)
  unfolding once_each
  once_each_lem [] khs t = elim (Bool-cases (has khs x)) [ inl e ↦ rw e refl | inr e ↦ rw e refl ]
  once_each_lem (id ∷ ids) khs t = elim (Bool-cases (has khs id)) [
    | inl seen ↦ rw (once_each_seen f khs ids id t seen) (
        once_each_lem ids khs t ∙ elim (Bool-cases (id == x)) [
          | inl same ↦ rw (same, ← eq_lem id x same, seen) refl
          | inr other ↦ rw other refl
        ])
    | inr new ↦ elim (Option-cases (t id)) [
      | inl absent ↦ rw (once_each_absent f khs ids id t new absent) (
          once_each_lem ids (id ∷ khs) t ∙ elim (Bool-cases (id == x)) [
            | inl same ↦ rw (same, ← eq_lem id x same, new, absent) refl
            | inr other ↦ rw other refl
          ])
      | inr (info, e) ↦ rw (once_each_found f khs ids id t info new e) (
          once_each_lem ids (id ∷ khs) (put t id (f info)) ∙ elim (Bool-cases (id == x)) [
            | inl same ↦
                rw (same, ← eq_lem id x same, new, e)
                  (let self : (id == id) ≡ true = ground arith in rw self refl)
            | inr other ↦ let away : (x == id) ≡ false = ground arith in rw (other, away) refl
          ])
    ]
  ]

-- For every state, what `update_fuzzs` leaves in the table: a state that is in the table and in the
-- sequence of the response has one fuzz more, however often the sequence visits it, and every other
-- state is as before.
pub update_fuzzs_lem :
    (extract : Bytes → List ℕ) (buf : Bytes) (s : Store) (id : ℕ)
    → (update_fuzzs extract buf s).khms_states id
      ≡ (if has (extract buf) id then map add_fuzz (s.khms_states id) else s.khms_states id)
unfolding update_fuzzs
update_fuzzs_lem extract buf s id = once_each_lem add_fuzz id (extract buf) [] s.khms_states

abbrev pub AllDistinct : List ℕ → Type 0
AllDistinct [] = Unit {0}
AllDistinct (x ∷ xs) = (has xs x ≡ false) × AllDistinct xs

count_unique_lem :
    (seq khs : List ℕ) (result : ℕ)
    → (ids : List ℕ) × AllDistinct ids
      × ((x : ℕ) → has ids x ≡ (not (has khs x) && has seq x))
      × (count_unique khs result seq ≡ result + length ids)
unfolding count_unique
count_unique_lem [] khs result = (
  [],
  tt,
  (λ x. elim (Bool-cases (has khs x)) [ inl e ↦ rw e refl | inr e ↦ rw e refl ]),
  omega arith,
)
count_unique_lem (id ∷ seq) khs result = elim (Bool-cases (has khs id)) [
  | inl seen ↦
      let (ids, d, m, e) = count_unique_lem seq khs result in
      (
        ids,
        d,
        (λ x. m x ∙ elim (Bool-cases (id == x)) [
          | inl same ↦ rw (same, ← eq_lem id x same, seen) refl
          | inr other ↦ rw other refl
        ]),
        rw seen e,
      )
  | inr new ↦
      let (ids, d, m, e) = count_unique_lem seq (id ∷ khs) (result + 1) in
      let self : (id == id) ≡ true = ground arith in
      (
        id ∷ ids,
        (rw (m id, self) refl, d),
        (λ x. elim (Bool-cases (id == x)) [
          | inl same ↦ rw (same, ← eq_lem id x same, new) refl
          | inr other ↦ rw (m x, other) refl
        ]),
        rw new (e ∙ omega arith),
      )
]

-- The number of unique states is the length of a list without duplicates that has the same states
-- as the sequence.
pub get_unique_state_count_lem :
    (state_sequence : List ℕ)
    → (ids : List ℕ) × AllDistinct ids
      × ((id : ℕ) → has ids id ≡ has state_sequence id)
      × (get_unique_state_count state_sequence ≡ length ids)
unfolding get_unique_state_count
get_unique_state_count_lem seq =
    let (ids, d, m, e) = count_unique_lem seq [] 0 in (ids, d, m, omega (arith, e))
