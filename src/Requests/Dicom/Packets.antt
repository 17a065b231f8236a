-- ===== src/Requests/Dicom/Packets.antt =====
-- The DICOM extractor undoes the concatenation of packets.
use mathlib.Core.List.{append-nil, append_assoc}
use aflnet_legion.Common.{
  ℕ, zero, suc, ◌+◌, ◌-◌, ◌/◌, ◌%◌, ◌≤◌, ◌<◌, ◌≡◌, ◌^◌, refl, sym, ap, ◌∙◌, false, ◌||◌, some, List,
  [], ◌∷◌, ◌++◌, map, arith, length, length-append, Bytes, add32, sub32, ltb, leb,
}
use aflnet_legion.Region.{region, regions_of, concat}
use aflnet_legion.Requests.Framed.{found}
use aflnet_legion.Requests.Framed.Records.{get_or-append}
use aflnet_legion.Requests.Dicom.{
  loop, fuel_for, packet_length, out_of_bounds, extract_requests_dicom,
}

pub record Packet : Type 0 where
  pub kind : ℕ
  pub reserved : ℕ
  pub payload : Bytes

-- The header states the payload's size in network order.
abbrev pub header : ℕ → ℕ → ℕ → Bytes
header kind reserved size =
    kind
    ∷ reserved
    ∷ (size / 16777216 % 256)
    ∷ (size / 65536 % 256)
    ∷ (size / 256 % 256)
    ∷ (size % 256)
    ∷ []

abbrev pub encode : Packet → Bytes
encode p = header p.kind p.reserved (length p.payload) ++ p.payload

packet_length-encode :
    (pre : Bytes) (p : Packet) (rest : Bytes)
    → length p.payload < 2 ^ 31 - 6
    → packet_length (pre ++ (encode p ++ rest)) (length pre) ≡ length p.payload + 6
packet_length-encode pre p rest h =
    rw
      (
        get_or-append pre (encode p ++ rest) 2,
        get_or-append pre (encode p ++ rest) 3,
        get_or-append pre (encode p ++ rest) 4,
        get_or-append pre (encode p ++ rest) 5,
      )
      (omega arith)

module _ (n : ℕ) (buf : Bytes) where
  loop-packet :
      (fuel at size : ℕ)
      → n < 2 ^ 31
      → packet_length buf at ≡ size
      → 6 ≤ size
      → at + size ≤ n
      → loop (suc fuel) buf n at ≡ found (region at (at + size - 1)) (loop fuel buf n (at + size))
  unfolding loop
  loop-packet fuel at size small e six fits =
      let a : add32 at size ≡ at + size = omega arith in
      let b : sub32 (at + size) 1 ≡ at + size - 1 = omega arith in
      let i : leb n at ≡ false = ground arith in
      let j : (leb n (add32 at 2) || leb n (add32 at 5)) ≡ false = ground arith in
      let k : out_of_bounds n at (at + size - 1) ≡ false = ground arith in
      let l : (ltb (at + size) at || ltb (at + size) size) ≡ false = ground arith in
      rw (e, a, b, i, j, k, l)

  loop-end : (fuel : ℕ) → loop (suc fuel) buf n n ≡ some []
  unfolding loop
  loop-end fuel = ground arith

loop-packets :
    (ps : List Packet) (pre : Bytes) (n fuel : ℕ)
    → n ≡ length (pre ++ concat (map encode ps))
    → n < 2 ^ 31
    → n - length pre < fuel
    → loop fuel (pre ++ concat (map encode ps)) n (length pre)
      ≡ some (regions_of (length pre) (map encode ps))
loop-packets ps pre n zero e small w = elim w [ ]
loop-packets [] pre n (suc fuel) e small w =
    let at : length pre ≡ n = rw (append-nil pre) at (sym e) in rw at (loop-end n _ fuel)
loop-packets (p ∷ ps) pre n (suc fuel) e small w =
    let rest = concat (map encode ps) in
    let buf = pre ++ (encode p ++ rest) in
    let whole : (pre ++ encode p) ++ rest ≡ buf = append_assoc pre (encode p) rest in
    let at : length (pre ++ encode p) ≡ length pre + length (encode p) =
      length-append pre (encode p) in
    let size : n ≡ length pre + (length (encode p) + length rest) =
      e
      ∙ length-append pre (encode p ++ rest)
      ∙ ap (λ k. length pre + k) (length-append (encode p) rest) in
    let six : length p.payload + 6 ≡ length (encode p) = omega arith in
    let ih =
      loop-packets ps (pre ++ encode p) n fuel (e ∙ ap length (sym whole)) small (omega arith) in
    loop-packet n buf fuel (length pre) (length (encode p)) small
      (packet_length-encode pre p rest (omega arith) ∙ six) (omega arith) (omega arith)
    ∙ ap (found (region (length pre) (length pre + length (encode p) - 1)))
        (rw at at (rw whole at ih))

-- The DICOM extractor splits a sequence of packets, below 2 GB in all, each with a header that
-- states the size of its payload, into exactly those packets.
pub extract_requests_dicom-packets :
    (ps : List Packet)
    → length (concat (map encode ps)) < 2 ^ 31
    → extract_requests_dicom (concat (map encode ps)) ≡ some (regions_of 0 (map encode ps))
unfolding extract_requests_dicom
extract_requests_dicom-packets ps small =
    loop-packets ps [] (length (concat (map encode ps))) (fuel_for (concat (map encode ps))) refl
      small (omega arith)
