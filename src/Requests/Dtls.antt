-- ===== src/Requests/Dtls.antt =====
-- `extract_requests_dtls12` (aflnet.c): a region starts where a content type and the version of
-- DTLS 1.2 stand. `memcmp` looks at two bytes behind the content type; where the buffer has only
-- one there, the read is out of bounds, and the model faults (`none`).
pub mod Tiling
use aflnet_legion.Common.{
  ℕ, ◌+◌, ◌-◌, Bool, true, false, ◌&&◌, Option, none, some, List, [], ◌∷◌, ◌==◌, ltb, leb,
  if◌then◌else◌, length, Bytes,
}
use aflnet_legion.Region.{Region, region, or_whole}
use aflnet_legion.Requests.Framed.{found, close_list}

-- `b >= CCS_CONTENT_TYPE && b <= HEARTBEAT_CONTENT_TYPE`
abbrev pub is_content_type : ℕ → Bool
is_content_type b = leb 0x14 b && leb b 0x18

-- `memcmp(…, dtls12_version, 2) == 0` on what lies behind the content type.
abbrev pub is_version : Bytes → Option Bool
is_version (a ∷ b ∷ rest) = some (a == 0xFE && b == 0xFD)
is_version (a ∷ []) = none
is_version [] = none

-- `byte_count > 3 && buf_size - byte_count > 1`, and the content type.
abbrev pub may_start : ℕ → ℕ → ℕ → Bool
may_start buf_size byte_count b =
    ltb 3 byte_count && ltb 1 (buf_size - byte_count) && is_content_type b

-- The loop, over the bytes from `byte_count` on.
unfoldable pub scan : ℕ → ℕ → ℕ → Bytes → Option (List Region)
scan buf_size cur_start byte_count [] = some []
scan buf_size cur_start byte_count (b ∷ bs) =
    let new_record =
      found (region cur_start (byte_count - 1)) (scan buf_size byte_count (byte_count + 1) bs) in
    let next = scan buf_size cur_start (byte_count + 1) bs in
    let other =
      if byte_count == buf_size - 1 then some (region cur_start byte_count ∷ []) else next in
    if may_start buf_size byte_count b
    then elim (is_version bs) [ none ↦ none | some same ↦ if same then new_record else other ]
    else other

unfoldable pub extract_requests_dtls12 : Bytes → Option (List Region)
unfolding scan or_whole
extract_requests_dtls12 buf = close_list (length buf) (scan (length buf) 0 0 buf)
