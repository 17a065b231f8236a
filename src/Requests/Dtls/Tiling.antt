-- ===== src/Requests/Dtls/Tiling.antt =====
-- The DTLS extractor covers every buffer on which it does not read out of bounds.
use aflnet_legion.Common.{
  ℕ, zero, suc, ◌+◌, ◌-◌, ◌≤◌, ◌<◌, ◌≡◌, ◌⊎◌, inl, inr, false, ◌&&◌, Option, none, some, List, [],
  ◌∷◌, ◌++◌, arith, length, length-append, Bytes, ◌==◌, Bool-cases,
}
use aflnet_legion.Region.{Region, region, or_whole}
use aflnet_legion.Requests.Framed.{found, close_list}
use aflnet_legion.Requests.Dicom.Tiling.{TilesWhole, found-TilesWhole}
use aflnet_legion.Requests.Dtls.{scan, may_start, extract_requests_dtls12}

-- The last byte but one does not look like the start of a record.
abbrev pub NoStart : ℕ → ℕ → Type 0
NoStart at b = (at < 4) ⊎ ((b < 0x14) ⊎ (0x18 < b))

module _ (n b c : ℕ) where
  found_before :
      (at cs : ℕ) (rest : Option (List Region))
      → cs < at
      → TilesWhole n at rest
      → TilesWhole n cs (found (region cs (at - 1)) rest)
  found_before at cs rest h t =
      let e : at - 1 + 1 ≡ at = omega arith in
      found-TilesWhole n cs (at - 1) rest (omega arith) (rw e t)

  -- One byte with at least two behind it, from what holds of the loop behind it.
  scan-step :
      (x y z : ℕ) (bs : Bytes) (cs at : ℕ)
      → at + 1 < n
      → (cs < at) ⊎ (at ≤ 3)
      → TilesWhole n cs (scan n cs (at + 1) (y ∷ z ∷ bs))
      → TilesWhole n at (scan n at (at + 1) (y ∷ z ∷ bs))
      → TilesWhole n cs (scan n cs at (x ∷ y ∷ z ∷ bs))
  unfolding scan
  scan-step x y z bs cs at inside h next started =
      let more : (at == n - 1) ≡ false = ground arith in
      let same = y == 0xFE && z == 0xFD in
      elim (Bool-cases (may_start n at x)) [
        | inr other ↦ rw (scan, other, more) next
        | inl start ↦ elim (Bool-cases same) [
          | inr differs ↦ rw (scan, start, differs, more) next
          | inl version ↦ rw (scan, start, version) (found_before at cs _ (ground arith) started)
        ]
      ]

  scan-TilesWhole :
      (pre : Bytes) (cs at : ℕ)
      → at + length pre + 2 ≡ n
      → cs ≤ at
      → NoStart (at + length pre) b
      → (cs < at) ⊎ (at ≤ 3)
      → TilesWhole n cs (scan n cs at (pre ++ b ∷ c ∷ []))
  scan-TilesWhole [] cs at e h s z = unfold scan in ground arith
  scan-TilesWhole (x ∷ []) cs at e h s z =
      scan-step x b c [] cs at (omega arith) z
        (scan-TilesWhole [] cs (at + 1) (omega arith) (omega arith) (omega arith) (omega arith))
        (scan-TilesWhole [] at (at + 1) (omega arith) (omega arith) (omega arith) (omega arith))
  scan-TilesWhole (x ∷ y ∷ []) cs at e h s z =
      scan-step x y b (c ∷ []) cs at (omega arith) z
        (scan-TilesWhole (y ∷ []) cs (at + 1) (omega arith) (omega arith) (omega arith)
          (omega arith))
        (scan-TilesWhole (y ∷ []) at (at + 1) (omega arith) (omega arith) (omega arith)
          (omega arith))
  scan-TilesWhole (x ∷ y ∷ w ∷ pre) cs at e h s z =
      scan-step x y w (pre ++ b ∷ c ∷ []) cs at (omega arith) z
        (scan-TilesWhole (y ∷ w ∷ pre) cs (at + 1) (omega arith) (omega arith) (omega arith)
          (omega arith))
        (scan-TilesWhole (y ∷ w ∷ pre) at (at + 1) (omega arith) (omega arith) (omega arith)
          (omega arith))

  scan-over_read :
      (pre : Bytes) (cs at : ℕ)
      → at + length pre + 2 ≡ n
      → 4 ≤ at + length pre
      → 0x14 ≤ b
      → b ≤ 0x18
      → scan n cs at (pre ++ b ∷ c ∷ []) ≡ none
  unfolding scan
  scan-over_read [] cs at e f l u = ground arith
  scan-over_read (x ∷ []) cs at e f l u =
      ground (arith, scan-over_read [] cs (at + 1), scan-over_read [] at (at + 1))
  scan-over_read (x ∷ y ∷ pre) cs at e f l u =
      ground (arith, scan-over_read (y ∷ pre) cs (at + 1), scan-over_read (y ∷ pre) at (at + 1))

close_list-TilesWhole :
    (n : ℕ) (o : Option (List Region)) → TilesWhole n 0 o → TilesWhole n 0 (close_list n o)
unfolding or_whole
close_list-TilesWhole n none h = h
close_list-TilesWhole zero (some []) h = h
close_list-TilesWhole (suc n) (some []) h = ground arith
close_list-TilesWhole n (some (r ∷ rs)) h = h

-- On a buffer of at least two bytes whose last byte but one stands among the first four or is no
-- DTLS content type, the DTLS extractor reads in bounds and its regions start at the buffer's first
-- byte, follow one another with no gap or overlap, hold at least one byte each, and end with it.
pub extract_requests_dtls12-TilesWhole :
    (pre : Bytes) (b c : ℕ)
    → NoStart (length pre) b
    → TilesWhole (length (pre ++ b ∷ c ∷ [])) 0 (extract_requests_dtls12 (pre ++ b ∷ c ∷ []))
unfolding extract_requests_dtls12
extract_requests_dtls12-TilesWhole pre b c h =
    let n = length (pre ++ b ∷ c ∷ []) in
    let e : n ≡ length pre + 2 = length-append pre (b ∷ c ∷ []) in
    close_list-TilesWhole n _
      (scan-TilesWhole n b c pre 0 0 (omega arith) (omega arith) (omega arith) (omega arith))

-- On a buffer whose last byte but one has at least four bytes before it and is a DTLS content type,
-- the DTLS extractor reads one byte behind the buffer.
pub extract_requests_dtls12-over_read :
    (pre : Bytes) (b c : ℕ)
    → 4 ≤ length pre
    → 0x14 ≤ b
    → b ≤ 0x18
    → extract_requests_dtls12 (pre ++ b ∷ c ∷ []) ≡ none
unfolding extract_requests_dtls12
extract_requests_dtls12-over_read pre b c f l u =
    let n = length (pre ++ b ∷ c ∷ []) in
    let e : n ≡ length pre + 2 = length-append pre (b ∷ c ∷ []) in
    rw (scan-over_read n b c pre 0 0 (omega arith) (omega arith) l u)
