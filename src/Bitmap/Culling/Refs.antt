-- ===== src/Bitmap/Culling/Refs.antt =====
-- How many slots of `top_rated` an entry holds (afl-fuzz.c).
use aflnet_legion.Common.{
  ℕ, zero, suc, ◌+◌, ◌≤◌, ◌<◌, ◌≡◌, ◌≢◌, refl, sym, Option, none, some, ◌==◌, arith, if◌then◌else◌,
  ℕ_discrete,
}

-- 1 if the slot is held by the entry, else 0.
abbrev pub holds : Option ℕ → ℕ → ℕ
holds none q = 0
holds (some x) q = if x == q then 1 else 0

-- The slots below a bound that the entry holds.
abbrev pub refs : ℕ → (ℕ → Option ℕ) → ℕ → ℕ
refs zero top q = 0
refs (suc n) top q = holds (top n) q + refs n top q

-- An assignment to a slot.
abbrev pub put_slot : ℕ → Option ℕ → (ℕ → Option ℕ) → ℕ → Option ℕ
put_slot i slot top x = if x == i then slot else top x

put_slot_self : (i : ℕ) (slot : Option ℕ) (top : ℕ → Option ℕ) → put_slot i slot top i ≡ slot
put_slot_self i slot top = ground arith

pub put_slot_other :
    (i k : ℕ) (slot : Option ℕ) (top : ℕ → Option ℕ) → k ≢ i → put_slot i slot top k ≡ top k
put_slot_other i k slot top ne = ground arith

pub put_slot_here :
    (i k : ℕ) (slot : Option ℕ) (top : ℕ → Option ℕ) → k ≡ i → put_slot i slot top k ≡ slot
put_slot_here i k slot top e = ground arith

refs_beyond :
    (n i q : ℕ) (slot : Option ℕ) (top : ℕ → Option ℕ)
    → n ≤ i
    → refs n (put_slot i slot top) q ≡ refs n top q
refs_beyond zero i q slot top h = refl
refs_beyond (suc n) i q slot top h =
    rw (put_slot_other i n slot top (omega arith), refs_beyond n i q slot top (omega arith)) refl

pub refs-put_slot :
    (n i q : ℕ) (slot : Option ℕ) (top : ℕ → Option ℕ)
    → i < n
    → refs n (put_slot i slot top) q + holds (top i) q ≡ refs n top q + holds slot q
refs-put_slot zero i q slot top h = absurd (omega arith)
refs-put_slot (suc n) i q slot top h = elim (ℕ_discrete n i) [
  | yes e ↦
      rw (sym e, put_slot_self n slot top, refs_beyond n n q slot top (omega arith)) (omega arith)
  | no ne ↦
      rw (put_slot_other i n slot top ne)
        (omega (arith, refs-put_slot n i q slot top (omega (arith, ne))))
]

pub refs-holds : (n i q : ℕ) (top : ℕ → Option ℕ) → i < n → holds (top i) q ≤ refs n top q
refs-holds n i q top h = omega (arith, refs-put_slot n i q none top h)

pub holds_self : (q : ℕ) → holds (some q) q ≡ 1
holds_self q = ground arith

pub holds_other : (x q : ℕ) → x ≢ q → holds (some x) q ≡ 0
holds_other x q ne = ground arith

holds_le : (slot : Option ℕ) (q : ℕ) → holds slot q ≤ 1
holds_le none q = omega arith
holds_le (some x) q = ground arith

pub refs_le : (n q : ℕ) (top : ℕ → Option ℕ) → refs n top q ≤ n
refs_le zero q top = omega arith
refs_le (suc n) q top = omega (arith, holds_le (top n) q, refs_le n q top)
