-- ===== src/Bitmap/Culling/Compact.antt =====
-- `minimize_bits` (afl-fuzz.c): the bits of the compact map.
use Prim.Native.Nat.{bit_or}
use aflnet_legion.Common.{
  ℕ, zero, suc, ◌+◌, ◌/◌, ◌%◌, ◌<◌, ◌≡◌, ◌≢◌, sym, ap, subst, ◌∙◌, false, not, ◌&&◌, ◌==◌, arith,
  if◌then◌else◌, Array, Bool-cases, ℕ_discrete, inl, inr, write, leb, ltb, bit, bit-bit_or, bit_le,
  bit_zero, bit_or_bound, bit-shift_one_same, bit-shift_one_other, shift_one_bound, shift_one,
}
use aflnet_legion.Bitmap.Culling.{minimize_from, minimize_bits, allocated}

-- The bit of a compact map for a byte of the bitmap.
abbrev pub hit : Array → ℕ → ℕ
hit mini i = bit (i % 8) (mini (i / 8))

abbrev set_hit : Array → ℕ → Array
set_hit dst i = write dst (i / 8) (bit_or (dst (i / 8)) (shift_one (i % 8)))

write_other : (dst : Array) (i j v : ℕ) → i ≢ j → write dst i v j ≡ dst j
write_other dst i j v ne = ground arith

write_same : (dst : Array) (i v : ℕ) → write dst i v i ≡ v
write_same dst i v = ground arith

hit-set_hit : (dst : Array) (i : ℕ) → hit (set_hit dst i) i ≡ 1
hit-set_hit dst i =
    ap (bit (i % 8)) (write_same dst (i / 8) (bit_or (dst (i / 8)) (shift_one (i % 8))))
    ∙ omega (
      arith,
      bit-bit_or (i % 8) (dst (i / 8)) (shift_one (i % 8)),
      bit-shift_one_same (i % 8),
      bit_le (i % 8) (dst (i / 8)),
    )

set_other_bit :
    (dst : Array) (i k : ℕ)
    → k % 8 ≢ i % 8
    → bit (k % 8) (write dst (k / 8) (bit_or (dst (k / 8)) (shift_one (i % 8))) (k / 8)) ≡ hit dst k
set_other_bit dst i k ne =
    ap (bit (k % 8)) (write_same dst (k / 8) (bit_or (dst (k / 8)) (shift_one (i % 8))))
    ∙ omega (
      arith,
      bit-bit_or (k % 8) (dst (k / 8)) (shift_one (i % 8)),
      bit-shift_one_other (k % 8) (i % 8) ne,
    )

hit-set_hit_other : (dst : Array) (i k : ℕ) → i ≢ k → hit (set_hit dst i) k ≡ hit dst k
hit-set_hit_other dst i k ne = elim (ℕ_discrete (i / 8) (k / 8)) [
  | yes same ↦
      subst
        (λ (x : ℕ).
          bit (k % 8) (write dst x (bit_or (dst x) (shift_one (i % 8))) (k / 8)) ≡ hit dst k)
        (sym same) (set_other_bit dst i k (omega (arith, ne, same)))
  | no other ↦
      ap (bit (k % 8))
        (write_other dst (i / 8) (k / 8) (bit_or (dst (i / 8)) (shift_one (i % 8))) other)
]

hit-minimize_from :
    (left i k : ℕ) (src dst : Array)
    → hit (minimize_from left i src dst) k
      ≡ (if leb i k && ltb k (i + left) && not (src k == 0) then 1 else hit dst k)
unfolding minimize_from
hit-minimize_from zero i k src dst = ground arith
hit-minimize_from (suc left) i k src dst = elim (Bool-cases (src i == 0)) [
  | inl e ↦ rw e (ground (arith, hit-minimize_from left (i + 1) k src dst))
  | inr e ↦ elim (ℕ_discrete i k) [
    | yes here ↦ rw e (
        ground (
          arith,
          hit-minimize_from left (i + 1) k src (set_hit dst i),
          subst (λ (x : ℕ). hit (set_hit dst i) x ≡ 1) here (hit-set_hit dst i),
          subst (λ (x : ℕ). (src x == 0) ≡ false) here e,
        ))
    | no other ↦ rw e (
        ground (
          arith,
          hit-minimize_from left (i + 1) k src (set_hit dst i),
          hit-set_hit_other dst i k other,
        ))
  ]
]

set_hit-bytes : (dst : Array) (i : ℕ) → ((j : ℕ) → dst j < 256) → (j : ℕ) → set_hit dst i j < 256
set_hit-bytes dst i bytes j = ground (
  arith,
  bytes j,
  bit_or_bound 8 (dst (i / 8)) (shift_one (i % 8)) (bytes (i / 8))
      (shift_one_bound 8 (i % 8) (omega arith)),
)

minimize_from-bytes :
    (left i : ℕ) (src dst : Array)
    → ((j : ℕ) → dst j < 256)
    → (j : ℕ) → minimize_from left i src dst j < 256
unfolding minimize_from
minimize_from-bytes zero i src dst bytes = bytes
minimize_from-bytes (suc left) i src dst bytes =
    minimize_from-bytes left (i + 1) src (if src i == 0 then dst else set_hit dst i)
      (λ j. ground (arith, bytes j, set_hit-bytes dst i bytes j))

-- `minimize_bits` into a cleared map sets the bits of the bytes below `MAP_SIZE` that are not 0,
-- and no others.
pub minimize_bits-hit :
    (map_size : ℕ) (src : Array) (i : ℕ)
    → hit (minimize_bits map_size (allocated map_size) src) i
      ≡ (if ltb i map_size && not (src i == 0) then 1 else 0)
unfolding minimize_bits
minimize_bits-hit map_size src i =
    ground (arith, hit-minimize_from map_size 0 i src (allocated map_size), bit_zero (i % 8))

pub minimize_bits-bytes :
    (map_size : ℕ) (src : Array) (j : ℕ) → minimize_bits map_size (allocated map_size) src j < 256
unfolding minimize_bits
minimize_bits-bytes map_size src j =
    minimize_from-bytes map_size 0 src (allocated map_size) (λ k. omega arith) j
