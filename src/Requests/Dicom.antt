-- ===== src/Requests/Dicom.antt =====
-- `extract_requests_dicom` (aflnet.c): packets of a 6-byte header, whose last four bytes are the
-- size of the rest. The sums are `unsigned int` and wrap; the code tests for that.
pub mod Tiling
pub mod Packets
use aflnet_legion.Common.{
  ℕ, zero, suc, ◌+◌, ◌-◌, Bool, true, false, ◌&&◌, ◌||◌, Option, none, some, List, [], ◌∷◌, ltb,
  leb, if◌then◌else◌, length, get_or, Bytes, be32, sub32, add32,
}
use aflnet_legion.Region.{Region, region}
use aflnet_legion.Requests.Framed.{found}

-- `packet_length`: the length in the header at `byte_count`, and 6.
abbrev pub packet_length : Bytes → ℕ → ℕ
packet_length buf at =
    add32
      (be32 (get_or buf (at + 2) 0) (get_or buf (at + 3) 0) (get_or buf (at + 4) 0)
        (get_or buf (at + 5) 0))
      6

-- The `if` behind the loop: what is left is one region.
abbrev pub leftover : ℕ → ℕ → List Region
leftover buf_size byte_count =
    if ltb byte_count buf_size && ltb 0 buf_size then region byte_count (buf_size - 1) ∷ [] else []

-- `end < start`, `end >= buf_size`
abbrev pub out_of_bounds : ℕ → ℕ → ℕ → Bool
out_of_bounds buf_size start end = ltb end start || leb buf_size end

-- The loop and the `if` behind it. `none` means that the fuel ran out.
unfoldable pub loop : ℕ → Bytes → ℕ → ℕ → Option (List Region)
loop zero buf buf_size byte_count = none
loop (suc fuel) buf buf_size byte_count =
    let packet = packet_length buf byte_count in
    let end = sub32 (add32 byte_count packet) 1 in
    let next = add32 byte_count packet in
    let r = region byte_count end in
    let go_on = found r (loop fuel buf buf_size next) in
    if leb buf_size byte_count
    then some (leftover buf_size byte_count)
    else if leb buf_size (add32 byte_count 2) || leb buf_size (add32 byte_count 5)
    then some (leftover buf_size byte_count)
    else if out_of_bounds buf_size byte_count end
    then some (leftover buf_size byte_count)
    else if ltb next byte_count || ltb next packet
    then some (r ∷ leftover buf_size byte_count)
    else go_on

-- Every packet that is taken has at least one byte.
abbrev pub fuel_for : Bytes → ℕ
fuel_for buf = length buf + 1

unfoldable pub extract_requests_dicom : Bytes → Option (List Region)
unfolding loop
extract_requests_dicom buf = loop (fuel_for buf) buf (length buf) 0
