-- ===== src/States/Sequences.antt =====
-- The sequences of states: what is trimmed, and which are interesting.
use aflnet_legion.Common.{
  ℕ, ◌≡◌, refl, sym, ap, ◌∙◌, inl, inr, Bool, true, false, ◌&&◌, ◌||◌, List, [], ◌∷◌, ◌==◌, arith,
  Bool-cases, subst,
}
use aflnet_legion.States.{has, trim, trim_from, is_state_sequence_interesting}

-- No state of the rest, which stands behind `b` and `a`, is equal to the two before it.
abbrev pub NoThreeFrom : ℕ → ℕ → List ℕ → Type 0
NoThreeFrom b a [] = Unit {0}
NoThreeFrom b a (x ∷ xs) = ((x == a && x == b) ≡ false) × NoThreeFrom a x xs

abbrev pub NoThree : List ℕ → Type 0
NoThree (b ∷ a ∷ xs) = NoThreeFrom b a xs
NoThree (a ∷ []) = Unit {0}
NoThree [] = Unit {0}

and_lem : (p q : Bool) → (p && q) ≡ true → (p ≡ true) × (q ≡ true)
and_lem true q h = (refl, h)
and_lem false q h = cc

trim_from_lem : (xs : List ℕ) (b a : ℕ) → NoThreeFrom b a (trim_from b a xs)
unfolding trim_from
trim_from_lem [] b a = tt
trim_from_lem (x ∷ xs) b a = elim (Bool-cases (x == a && x == b)) [
  | inl same ↦
      let (first, second) = and_lem (x == a) (x == b) same in
      let eq : a ≡ x = ground arith in
      let eq' : b ≡ x = ground arith in
      rw same (
        subst (λ y. NoThreeFrom y a (trim_from a x xs)) (eq ∙ sym eq')
          (subst (λ y. NoThreeFrom a y (trim_from a x xs)) (sym eq) (trim_from_lem xs a x)))
  | inr other ↦ rw other (other, trim_from_lem xs a x)
]

trim_from_idem : (xs : List ℕ) (b a : ℕ) → NoThreeFrom b a xs → trim_from b a xs ≡ xs
unfolding trim_from
trim_from_idem [] b a h = refl
trim_from_idem (x ∷ xs) b a h = rw (h.0) (ap (◌∷◌ x) (trim_from_idem xs a x h.1))

dropped :
    (p q t h r : Bool)
    → r ≡ q
    → (q || (r || t)) ≡ (q || (r || h))
    → (p || (q || t)) ≡ (p || (q || (r || h)))
dropped true q t h r same e = refl
dropped false true t h r same e = refl
dropped false false t h r same e = rw same (rw same at e)

trim_from-has :
    (xs : List ℕ) (b a id : ℕ)
    → (b == id || (a == id || has (trim_from b a xs) id)) ≡ (b == id || (a == id || has xs id))
unfolding trim_from
trim_from-has [] b a id = refl
trim_from-has (x ∷ xs) b a id =
    let rest = trim_from-has xs a x id in
    elim (Bool-cases (x == a && x == b)) [
      | inl same ↦
          let (first, second) = and_lem (x == a) (x == b) same in
          let eq : x ≡ a = ground arith in
          rw same (
            dropped (b == id) (a == id) (has (trim_from a x xs) id) (has xs id) (x == id)
              (ap (λ y. y == id) eq) rest)
      | inr other ↦ rw other (ap (λ c. b == id || c) rest)
    ]

-- For every sequence: what is left after trimming has no three equal states in a row, trimming it
-- again changes nothing, and it visits the same states.
pub trim_lem :
    (xs : List ℕ)
    → NoThree (trim xs) × (trim (trim xs) ≡ trim xs) × ((id : ℕ) → has (trim xs) id ≡ has xs id)
unfolding trim
trim_lem [] = (tt, refl, λ id. refl)
trim_lem (a ∷ []) = (tt, refl, λ id. refl)
trim_lem (b ∷ a ∷ xs) = (
  trim_from_lem xs b a,
  ap (λ t. b ∷ a ∷ t) (trim_from_idem (trim_from b a xs) b a (trim_from_lem xs b a)),
  trim_from-has xs b a,
)

-- A sequence is interesting at most once: whatever the answer, and for every hash function, the set
-- of hashes afterwards makes every sequence with the same trimmed form uninteresting, and asking
-- again does not change it.
pub is_state_sequence_interesting-again :
    (hash32 : List ℕ → ℕ) (khs xs ys : List ℕ)
    → trim ys ≡ trim xs
    → is_state_sequence_interesting hash32 (is_state_sequence_interesting hash32 khs xs).1 ys
      ≡ (false, (is_state_sequence_interesting hash32 khs xs).1)
unfolding is_state_sequence_interesting
is_state_sequence_interesting-again hash32 khs xs ys h =
    elim (Bool-cases (has khs (hash32 (trim xs)))) [
      | inl old ↦ rw (h, old, old) refl
      | inr new ↦
          let self : (hash32 (trim xs) == hash32 (trim xs)) ≡ true = ground arith in
          rw (h, new, self) refl
    ]
