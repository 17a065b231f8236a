-- ===== src/Bitmap/Culling/Released.antt =====
-- A slot of `top_rated` that `update_bitmap_score` (afl-fuzz.c) takes from its holder.
use aflnet_legion.Common.{
  ℕ, ◌≤◌, ◌<◌, ◌≡◌, ◌≢◌, sym, ap, subst, ◌∙◌, Bool, true, false, Option, none, some, ◌==◌, arith,
  if◌then◌else◌, Array, ℕ_discrete, sub32, u32_mod,
}
use aflnet_legion.Bitmap.Culling.{Entry, Queue, change, release_slot}
use aflnet_legion.Bitmap.Culling.Compact.{hit}
use aflnet_legion.Bitmap.Culling.Cover.{IsRated}
use aflnet_legion.Bitmap.Culling.Refs.{
  holds, refs, put_slot, put_slot_other, refs-put_slot, refs-holds, holds_self, holds_other,
  refs_le,
}

-- The count of references of an entry is the number of slots that it holds.
abbrev pub IsCounted : ℕ → Queue → Type 0
IsCounted map_size s = (q : ℕ) → (s.entries q).tc_ref ≡ refs map_size s.top_rated q

-- The compact trace that an entry has, if any, hits every byte of the trace.
abbrev pub IsTraced : ℕ → Array → ℕ → (ℕ → Entry) → Type 0
IsTraced map_size trace_bits q entries =
    (mini : Array)
    → (entries q).trace_mini ≡ some mini
    → ((i : ℕ) → i < map_size → (trace_bits i == 0) ≡ false → hit mini i ≡ 1)
      × ((j : ℕ) → mini j < 256)

-- The same with one slot left out.
abbrev pub IsOpen : ℕ → ℕ → Queue → Type 0
IsOpen map_size i s =
    ((q : ℕ) → (s.entries q).tc_ref ≡ refs map_size (put_slot i none s.top_rated) q)
    × ((k q : ℕ)
        → k < map_size
        → k ≢ i
        → s.top_rated k ≡ some q
        → (mini : Array) × ((s.entries q).trace_mini ≡ some mini)
          × (hit mini k ≡ 1)
          × ((j : ℕ) → mini j < 256))

pub change_same :
    (x : ℕ) (f : Entry → Entry) (entries : ℕ → Entry) → change x f entries x ≡ f (entries x)
unfolding change
change_same x f entries = ground arith

pub change_other :
    (x y : ℕ) (f : Entry → Entry) (entries : ℕ → Entry) → x ≢ y → change x f entries y ≡ entries y
unfolding change
change_other x y f entries ne = ground arith

had_trace :
    {mini : Array} (b : Bool) (o : Option Array)
    → (if b then none else o) ≡ some mini
    → o ≡ some mini
had_trace true o e = absurd (ground (arith, e))
had_trace false o e = e

module _ (map_size : ℕ) where
  pub empty-IsOpen :
      (i : ℕ) (s : Queue)
      → i < map_size
      → IsCounted map_size s
      → IsRated map_size s
      → s.top_rated i ≡ none
      → IsOpen map_size i s
  empty-IsOpen i s h counted rated e = (
    λ q. omega (
      arith,
      counted q,
      refs-put_slot map_size i q none s.top_rated h,
      ap (λ (slot : Option ℕ). holds slot q) e,
    ),
    λ k q below ne top. rated k q below top,
  )

  slot_holds : (slot : Option ℕ) (q : ℕ) → slot ≡ some q → holds slot q ≡ 1
  slot_holds slot q e = ap (λ (x : Option ℕ). holds x q) e ∙ holds_self q

  one_less :
      (i t : ℕ) (s : Queue)
      → map_size < u32_mod
      → i < map_size
      → IsCounted map_size s
      → s.top_rated i ≡ some t
      → sub32 (s.entries t).tc_ref 1 ≡ refs map_size (put_slot i none s.top_rated) t
  one_less i t s bound h counted e = omega (
    arith,
    counted t,
    refs-put_slot map_size i t none s.top_rated h,
    slot_holds (s.top_rated i) t e,
    refs_le map_size t s.top_rated,
  )

  still_held :
      (i k t : ℕ) (s : Queue)
      → k < map_size
      → k ≢ i
      → s.top_rated k ≡ some t
      → 1 ≤ refs map_size (put_slot i none s.top_rated) t
  still_held i k t s below ne top = omega (
    arith,
    refs-holds map_size k t (put_slot i none s.top_rated) below,
    slot_holds (put_slot i none s.top_rated k) t (put_slot_other i k none s.top_rated ne ∙ top),
  )

  kept_trace :
      (e : Entry) → 1 ≤ sub32 e.tc_ref 1 → (release_slot map_size e).trace_mini ≡ e.trace_mini
  kept_trace e h = ground arith

  release_kept :
      (i t k q : ℕ) (s : Queue)
      → map_size < u32_mod
      → i < map_size
      → IsCounted map_size s
      → s.top_rated i ≡ some t
      → k < map_size
      → k ≢ i
      → s.top_rated k ≡ some q
      → (change t (release_slot map_size) s.entries q).trace_mini ≡ (s.entries q).trace_mini
  release_kept i t k q s bound h counted e below ne top = elim (ℕ_discrete t q) [
    | yes same ↦
        subst
          (λ (x : ℕ).
            (change t (release_slot map_size) s.entries x).trace_mini ≡ (s.entries x).trace_mini)
          same
          (ap (λ (x : Entry). x.trace_mini) (change_same t (release_slot map_size) s.entries)
            ∙ kept_trace (s.entries t) (
                omega (
                  arith,
                  one_less i t s bound h counted e,
                  still_held i k t s below ne (top ∙ ap some (sym same)),
                )))
    | no other ↦
        ap (λ (x : Entry). x.trace_mini) (change_other t q (release_slot map_size) s.entries other)
  ]

  pub release-IsOpen :
      (i t : ℕ) (s : Queue)
      → map_size < u32_mod
      → i < map_size
      → IsCounted map_size s
      → IsRated map_size s
      → s.top_rated i ≡ some t
      → IsOpen map_size i (record s { entries = change t (release_slot map_size) s.entries })
  release-IsOpen i t s bound h counted rated e = (
    λ q. elim (ℕ_discrete t q) [
      | yes same ↦
          subst
            (λ (x : ℕ).
              (change t (release_slot map_size) s.entries x).tc_ref
              ≡ refs map_size (put_slot i none s.top_rated) x)
            same
            (ap (λ (x : Entry). x.tc_ref) (change_same t (release_slot map_size) s.entries)
              ∙ one_less i t s bound h counted e)
      | no ne ↦
          ap (λ (x : Entry). x.tc_ref) (change_other t q (release_slot map_size) s.entries ne)
          ∙ omega (
            arith,
            counted q,
            refs-put_slot map_size i q none s.top_rated h,
            ap (λ (x : Option ℕ). holds x q) e,
            holds_other t q ne,
          )
    ],
    λ k q below ne top.
        let (mini, kept, hits, bytes) = rated k q below top in
        (mini, release_kept i t k q s bound h counted e below ne top ∙ kept, hits, bytes),
  )

  pub release_back :
      (t q : ℕ) (entries : ℕ → Entry) (mini : Array)
      → (change t (release_slot map_size) entries q).trace_mini ≡ some mini
      → (entries q).trace_mini ≡ some mini
  release_back t q entries mini kept = elim (ℕ_discrete t q) [
    | yes same ↦
        subst
          (λ (y : ℕ).
            (change t (release_slot map_size) entries y).trace_mini ≡ some mini
            → (entries y).trace_mini ≡ some mini)
          same
          (λ e. had_trace (sub32 (entries t).tc_ref 1 == 0) (entries t).trace_mini (
            sym (ap (λ (x : Entry). x.trace_mini) (change_same t (release_slot map_size) entries))
            ∙ e))
          kept
    | no ne ↦
        sym (ap (λ (x : Entry). x.trace_mini) (change_other t q (release_slot map_size) entries ne))
        ∙ kept
  ]
