-- ===== src/States/Once.antt =====
-- `once_each` and `discover_path` change values, and no keys, of the table of states.
use aflnet_legion.Common.{
  ℕ, ◌+◌, ◌≡◌, ◌≢◌, refl, inl, inr, true, false, Option, none, some, List, [], ◌∷◌, ◌==◌, arith,
  Bool-cases, Option-cases,
}
use aflnet_legion.States.{StateInfo, has, put, once_each}
use aflnet_legion.States.Update.{discover_path}

pub put_self-ne :
    (states : ℕ → Option StateInfo) (id x : ℕ) (info : StateInfo)
    → states x ≢ none
    → put states id info x ≢ none
put_self-ne states id x info h e = elim (Bool-cases (x == id)) [
  | inl same ↦ cc
  | inr other ↦ h (rw other at e)
]

-- The two tables have the same states.
abbrev pub SameDomain : (ℕ → Option StateInfo) → (ℕ → Option StateInfo) → Type 0
SameDomain t u = (x : ℕ) → (t x ≢ none → u x ≢ none) × (u x ≢ none → t x ≢ none)

pub put-SameDomain :
    (t : ℕ → Option StateInfo) (id : ℕ) (old info : StateInfo)
    → t id ≡ some old
    → SameDomain t (put t id info)
put-SameDomain t id old info e x = (
  put_self-ne t id x info,
  λ there. elim (Bool-cases (x == id)) [
    | inl same ↦ let eq : x ≡ id = ground arith in rw eq (λ o. cc)
    | inr other ↦ rw other at there
  ],
)

pub then_SameDomain :
    (t u v : ℕ → Option StateInfo) → SameDomain t u → SameDomain u v → SameDomain t v
then_SameDomain t u v p q x = (λ h. (q x).0 ((p x).0 h), λ h. (p x).1 ((q x).1 h))

pub once_each_seen :
    (f : StateInfo → StateInfo) (khs ids : List ℕ) (id : ℕ) (t : ℕ → Option StateInfo)
    → has khs id ≡ true
    → once_each f khs t (id ∷ ids) ≡ once_each f khs t ids
unfolding once_each
once_each_seen f khs ids id t seen = rw (once_each, seen) refl

pub once_each_absent :
    (f : StateInfo → StateInfo) (khs ids : List ℕ) (id : ℕ) (t : ℕ → Option StateInfo)
    → has khs id ≡ false
    → t id ≡ none
    → once_each f khs t (id ∷ ids) ≡ once_each f (id ∷ khs) t ids
unfolding once_each
once_each_absent f khs ids id t new absent = rw (once_each, new, absent) refl

pub once_each_found :
    (f : StateInfo → StateInfo) (khs ids : List ℕ) (id : ℕ) (t : ℕ → Option StateInfo)
    (info : StateInfo)
    → has khs id ≡ false
    → t id ≡ some info
    → once_each f khs t (id ∷ ids) ≡ once_each f (id ∷ khs) (put t id (f info)) ids
unfolding once_each
once_each_found f khs ids id t info new e = rw (once_each, new, e) refl

pub once_each-SameDomain :
    (f : StateInfo → StateInfo) (ids khs : List ℕ) (t : ℕ → Option StateInfo)
    → SameDomain t (once_each f khs t ids)
unfolding once_each
once_each-SameDomain f [] khs t = λ x. (λ h. h, λ h. h)
once_each-SameDomain f (id ∷ ids) khs t = elim (Bool-cases (has khs id)) [
  | inl seen ↦ rw (once_each_seen f khs ids id t seen) (once_each-SameDomain f ids khs t)
  | inr new ↦ elim (Option-cases (t id)) [
    | inl absent ↦
        rw (once_each_absent f khs ids id t new absent) (once_each-SameDomain f ids (id ∷ khs) t)
    | inr (info, e) ↦ rw (once_each_found f khs ids id t info new e) (
        then_SameDomain t (put t id (f info)) (once_each f (id ∷ khs) (put t id (f info)) ids)
          (put-SameDomain t id info (f info) e)
          (once_each-SameDomain f ids (id ∷ khs) (put t id (f info))))
  ]
]

pub discover_path_absent :
    (target : ℕ) (t : ℕ → Option StateInfo) → t target ≡ none → discover_path target t ≡ t
discover_path_absent target t e = rw (discover_path, e) refl

pub discover_path_found :
    (target : ℕ) (t : ℕ → Option StateInfo) (info : StateInfo)
    → t target ≡ some info
    → discover_path target t
      ≡ put t target (record info { paths_discovered = info.paths_discovered + 1 })
discover_path_found target t info e = rw (discover_path, e) refl

pub discover_path-SameDomain :
    (target : ℕ) (t : ℕ → Option StateInfo) → SameDomain t (discover_path target t)
discover_path-SameDomain target t = elim (Option-cases (t target)) [
  | inl absent ↦ rw (discover_path_absent target t absent) (λ x. (λ h. h, λ h. h))
  | inr (info, e) ↦ rw (discover_path_found target t info e) (
      put-SameDomain t target info (record info { paths_discovered = info.paths_discovered + 1 }) e)
]
