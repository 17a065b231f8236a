-- ===== src/Requests/Lines/Tiling.antt =====
-- The regions of the terminator-based extractors cover the buffer without gap or overlap.
use aflnet_legion.Common.{
  ℕ, zero, suc, ◌+◌, ◌≤◌, ◌<◌, ◌≡◌, ◌⊎◌, inr, refl, Bool, List, [], ◌∷◌, arith, length, Bytes,
  Array, write,
}
use aflnet_legion.Region.{Region, or_whole, IsTiling, covered}
use aflnet_legion.Requests.Lines.{
  Scan, start, ends_line, ends_header, next_message, advance, scan, extract_requests_smtp,
  extract_requests_ftp, extract_requests_rtsp,
}

module _ (ends : Array → ℕ → Bool) (n : ℕ) where
  scan-IsTiling :
      (bs : Bytes) (s : Scan) → s.cur_start ≤ s.cur_end → IsTiling s.cur_start (scan ends n s bs)
  unfolding scan
  scan-IsTiling [] s h = tt
  scan-IsTiling (b ∷ bs) s h =
      let mem = write s.mem s.mem_count b in
      ground (
        arith,
        scan-IsTiling bs (next_message mem s) (omega arith),
        scan-IsTiling bs (advance mem s) (omega arith),
      )

  -- With at least two bytes left, or at the start of a message, the loop ends at the end of the
  -- buffer or leaves one byte.
  scan-covered :
      (bs : Bytes) (s : Scan)
      → s.cur_end + length bs ≡ n
      → (s.cur_end + 1 < n) ⊎ (s.cur_start ≡ s.cur_end)
      → (covered s.cur_start (scan ends n s bs) ≡ n)
        ⊎ (covered s.cur_start (scan ends n s bs) + 1 ≡ n)
  unfolding scan
  scan-covered [] s e h = ground arith
  scan-covered (b ∷ []) s e h = ground arith
  scan-covered (b ∷ c ∷ bs) s e h =
      let mem = write s.mem s.mem_count b in
      ground (
        arith,
        scan-covered (c ∷ bs) (next_message mem s) (omega arith) (inr refl),
        scan-covered (c ∷ bs) (advance mem s) (omega arith),
      )

-- `regions` tile a buffer of `n` bytes from its start, to the end or to the last byte but one.
abbrev pub Covers : ℕ → List Region → Type 0
Covers n regions = IsTiling 0 regions × ((covered 0 regions ≡ n) ⊎ (covered 0 regions + 1 ≡ n))

pub or_whole-Covers :
    (n : ℕ) (regions : List Region) → Covers n regions → Covers n (or_whole n regions)
unfolding or_whole
or_whole-Covers zero [] h = h
or_whole-Covers (suc n) [] h = ground arith
or_whole-Covers n (r ∷ rs) h = h

scan-Covers :
    (ends : Array → ℕ → Bool) (buf : Bytes)
    → Covers (length buf) (or_whole (length buf) (scan ends (length buf) start buf))
scan-Covers ends buf = or_whole-Covers (length buf) (scan ends (length buf) start buf) (
  scan-IsTiling ends (length buf) buf start (omega arith),
  scan-covered ends (length buf) buf start (omega arith) (inr refl),
)

-- For every buffer, the regions of the SMTP, of the FTP and of the RTSP extractor start at the
-- buffer's first byte, follow one another with no gap or overlap, hold at least one byte each, and
-- reach the end of the buffer or leave out its last byte alone.
pub extract_requests-Covers :
    (buf : Bytes)
    → Covers (length buf) (extract_requests_smtp buf)
      × Covers (length buf) (extract_requests_ftp buf)
      × Covers (length buf) (extract_requests_rtsp buf)
unfolding extract_requests_smtp extract_requests_ftp extract_requests_rtsp
extract_requests-Covers buf =
    (scan-Covers ends_line buf, scan-Covers ends_line buf, scan-Covers ends_header buf)
