-- ===== src/Bitmap/Culling/Taken.antt =====
-- A slot of `top_rated` that `update_bitmap_score` (afl-fuzz.c) gives to an entry.
use aflnet_legion.Common.{
  ℕ, ◌+◌, ◌<◌, ◌≡◌, refl, sym, ap, subst, ◌∙◌, false, Option, none, some, ◌==◌, arith, Array,
  Option-cases, inl, inr, ℕ_discrete,
}
use aflnet_legion.Bitmap.Culling.{Entry, Queue, change, take_slot, win, minimize_bits, allocated}
use aflnet_legion.Bitmap.Culling.Compact.{hit, minimize_bits-hit, minimize_bits-bytes}
use aflnet_legion.Bitmap.Culling.Cover.{IsRated}
use aflnet_legion.Bitmap.Culling.Refs.{
  holds, refs, put_slot, put_slot_other, put_slot_here, refs-put_slot, holds_self, holds_other,
}
use aflnet_legion.Bitmap.Culling.Released.{IsCounted, IsTraced, IsOpen, change_same, change_other}

same_entry : (q x : ℕ) → some q ≡ some x → q ≡ x
same_entry q x e = ground (arith, e)

same_mini : (m n : Array) → some m ≡ some n → m ≡ n
same_mini m n e = ap (λ (o : Option Array). elim o [ none ↦ m | some a ↦ a ]) e

module _ (map_size : ℕ) where
  taken :
      (i q x : ℕ) (top : ℕ → Option ℕ)
      → i < map_size
      → refs map_size (put_slot i (some q) top) x
        ≡ refs map_size (put_slot i none top) x + holds (some q) x
  taken i q x top h =
      omega
        (arith, refs-put_slot map_size i x (some q) top h, refs-put_slot map_size i x none top h)

  win_count :
      (i q x : ℕ) (trace_bits : Array) (s : Queue)
      → i < map_size
      → (s.entries x).tc_ref ≡ refs map_size (put_slot i none s.top_rated) x
      → (change q (take_slot map_size trace_bits) s.entries x).tc_ref
        ≡ refs map_size (put_slot i (some q) s.top_rated) x
  win_count i q x trace_bits s h counted = elim (ℕ_discrete q x) [
    | yes same ↦
        subst
          (λ (y : ℕ).
            (s.entries y).tc_ref ≡ refs map_size (put_slot i none s.top_rated) y
            → (change q (take_slot map_size trace_bits) s.entries y).tc_ref
              ≡ refs map_size (put_slot i (some q) s.top_rated) y)
          same
          (λ count.
            ap (λ (e : Entry). e.tc_ref) (change_same q (take_slot map_size trace_bits) s.entries)
            ∙ omega (arith, count, taken i q q s.top_rated h, holds_self q))
          counted
    | no ne ↦
        ap (λ (e : Entry). e.tc_ref) (change_other q x (take_slot map_size trace_bits) s.entries ne)
        ∙ omega (arith, counted, taken i q x s.top_rated h, holds_other q x ne)
  ]

  -- The compact trace that the winner has afterwards.
  take_traced :
      (q : ℕ) (trace_bits : Array) (entries : ℕ → Entry)
      → IsTraced map_size trace_bits q entries
      → (mini : Array) × ((change q (take_slot map_size trace_bits) entries q).trace_mini
          ≡ some mini)
        × ((i : ℕ) → i < map_size → (trace_bits i == 0) ≡ false → hit mini i ≡ 1)
        × ((j : ℕ) → mini j < 256)
  take_traced q trace_bits entries traced =
      let same =
        ap (λ (e : Entry). e.trace_mini) (change_same q (take_slot map_size trace_bits) entries) in
      elim (Option-cases (entries q).trace_mini) [
        | inl e ↦ (
          minimize_bits map_size (allocated map_size) trace_bits,
          same ∙ rw e refl,
          λ i h set. minimize_bits-hit map_size trace_bits i ∙ ground (arith),
          minimize_bits-bytes map_size trace_bits,
        )
        | inr (mini, e) ↦ (mini, same ∙ rw e refl, (traced mini e).0, (traced mini e).1)
      ]

  take_keeps :
      (q x : ℕ) (trace_bits : Array) (entries : ℕ → Entry) (mini : Array)
      → (entries x).trace_mini ≡ some mini
      → (change q (take_slot map_size trace_bits) entries x).trace_mini ≡ some mini
  take_keeps q x trace_bits entries mini kept = elim (ℕ_discrete q x) [
    | yes same ↦
        subst
          (λ (y : ℕ).
            (entries y).trace_mini ≡ some mini
            → (change q (take_slot map_size trace_bits) entries y).trace_mini ≡ some mini)
          same
          (λ e.
            ap (λ (t : Entry). t.trace_mini) (change_same q (take_slot map_size trace_bits) entries)
            ∙ rw e refl)
          kept
    | no ne ↦
        ap (λ (t : Entry). t.trace_mini)
          (change_other q x (take_slot map_size trace_bits) entries ne)
        ∙ kept
  ]

  pub win-IsRated :
      (i q : ℕ) (trace_bits : Array) (s : Queue)
      → i < map_size
      → (trace_bits i == 0) ≡ false
      → IsTraced map_size trace_bits q s.entries
      → IsOpen map_size i s
      → let s' = win map_size q trace_bits i s in
        IsCounted map_size s' × IsRated map_size s' × IsTraced map_size trace_bits q s'.entries
  unfolding win
  win-IsRated i q trace_bits s h set traced (counted, rated) = (
    λ x. win_count i q x trace_bits s h (counted x),
    λ k x below top. elim (ℕ_discrete k i) [
      | yes here ↦
          let (mini, kept, hits, bytes) = take_traced q trace_bits s.entries traced in
          subst
            (λ (y : ℕ).
              (m : Array) × ((change q (take_slot map_size trace_bits) s.entries y).trace_mini
                ≡ some m)
              × (hit m k ≡ 1)
              × ((j : ℕ) → m j < 256))
            (same_entry q x (sym (put_slot_here i k (some q) s.top_rated here) ∙ top))
            (mini, kept, subst (λ (y : ℕ). hit mini y ≡ 1) (sym here) (hits i h set), bytes)
      | no ne ↦
          let (mini, kept, hits, bytes) =
            rated k x below ne (sym (put_slot_other i k (some q) s.top_rated ne) ∙ top) in
          (mini, take_keeps q x trace_bits s.entries mini kept, hits, bytes)
    ],
    λ mini kept.
        let (mini', kept', hits, bytes) = take_traced q trace_bits s.entries traced in
        subst
          (λ (m : Array).
            ((j : ℕ) → j < map_size → (trace_bits j == 0) ≡ false → hit m j ≡ 1)
            × ((j : ℕ) → m j < 256))
          (same_mini mini' mini (sym kept' ∙ kept)) (hits, bytes),
  )
