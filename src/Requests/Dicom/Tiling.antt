-- ===== src/Requests/Dicom/Tiling.antt =====
-- The DICOM extractor comes to an end, and its regions cover the buffer.
use aflnet_legion.Common.{
  ℕ, zero, suc, ◌+◌, ◌-◌, ◌≤◌, ◌<◌, ◌≡◌, ◌^◌, Option, none, some, List, arith, length, Bytes,
  Bool-cases, inl, inr, false, ltb, leb, subst, ◌||◌, add32, sub32,
}
use aflnet_legion.Region.{Region, region, IsTiling, covered}
use aflnet_legion.Requests.Framed.{found}
use aflnet_legion.Requests.Dicom.{
  loop, packet_length, leftover, out_of_bounds, extract_requests_dicom,
}

-- Where the packet's last byte lies in the buffer, no sum has wrapped.
pub no_wrap :
    (n at packet : ℕ)
    → n < 2 ^ 31
    → at < n
    → packet < 2 ^ 32
    → out_of_bounds n at (sub32 (add32 at packet) 1) ≡ false
    → (add32 at packet ≡ sub32 (add32 at packet) 1 + 1)
      × (at ≤ sub32 (add32 at packet) 1)
      × (packet ≤ add32 at packet)
      × (add32 at packet ≤ n)
no_wrap n at packet small h p o = ground arith

module _ (n : ℕ) where
  abbrev pub TilesWhole : ℕ → Option (List Region) → Type 0
  TilesWhole from none = ⊥
  TilesWhole from (some rs) = IsTiling from rs × (covered from rs ≡ n)

  pub found-TilesWhole :
      (from e : ℕ) (rest : Option (List Region))
      → from ≤ e
      → TilesWhole (e + 1) rest
      → TilesWhole from (found (region from e) rest)
  found-TilesWhole from e none h t = t
  found-TilesWhole from e (some rs) h t = ground arith

  leftover-TilesWhole : (at : ℕ) → at ≤ n → TilesWhole at (some (leftover n at))
  leftover-TilesWhole at h = ground arith

  loop-TilesWhole :
      (buf : Bytes)
      → n < 2 ^ 31
      → (fuel at : ℕ) → at ≤ n
      → n - at < fuel
      → TilesWhole at (loop fuel buf n at)
  unfolding loop
  loop-TilesWhole buf small zero at h w = absurd (omega arith)
  loop-TilesWhole buf small (suc fuel) at h w =
      let packet = packet_length buf at in
      let next = add32 at packet in
      let end = sub32 next 1 in
      elim (Bool-cases (leb n at)) [
        | inl over ↦ rw over (leftover-TilesWhole at h)
        | inr inside ↦ elim (Bool-cases (leb n (add32 at 2) || leb n (add32 at 5))) [
          | inl short ↦ rw (inside, short) (leftover-TilesWhole at h)
          | inr full ↦ elim (Bool-cases (out_of_bounds n at end)) [
            | inl out ↦ rw (inside, full, out) (leftover-TilesWhole at h)
            | inr fits ↦
                let f = no_wrap n at packet small (ground arith) (omega arith) fits in
                let safe : (ltb next at || ltb next packet) ≡ false = ground arith in
                rw (inside, full, fits, safe)
                  (found-TilesWhole at end (loop fuel buf n next) f.1 (
                    subst (λ x. TilesWhole x (loop fuel buf n next)) f.0
                      (loop-TilesWhole buf small fuel next f.3 (omega arith))))
          ]
        ]
      ]

-- For every buffer below 2 GB the DICOM extractor comes to an end within one round a byte and one
-- more, and its regions start at the buffer's first byte, follow one another with no gap or
-- overlap, hold at least one byte each, and end with the buffer, whatever lengths the headers state.
pub extract_requests_dicom-TilesWhole :
    (buf : Bytes) → length buf < 2 ^ 31 → TilesWhole (length buf) 0 (extract_requests_dicom buf)
unfolding extract_requests_dicom
extract_requests_dicom-TilesWhole buf small =
    loop-TilesWhole (length buf) buf small (length buf + 1) 0 (omega arith) (omega arith)
