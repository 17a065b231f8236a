-- ===== src/Requests/Lines/RoundTrip.antt =====
-- The terminator-based extractors undo the concatenation of well-formed messages.
use aflnet_legion.Common.{
  ℕ, ◌+◌, ◌≤◌, ◌≡◌, ◌≢◌, refl, ap, ◌∙◌, Bool, false, List, [], ◌∷◌, ◌++◌, map, arith, length,
  length-append, Bytes, Array, write, fill,
}
use mathlib.Core.List.{append-nil, append_assoc}
use native.Mathlib.Nat.{zero-add}
use aflnet_legion.Region.{region, or_whole, regions_of, concat}
use aflnet_legion.Requests.Lines.{
  Scan, start, advance, scan, ends_line, ends_header, extract_requests_smtp, extract_requests_ftp,
}

-- Text with no line feed.
abbrev pub NoFeed : Bytes → Type 0
NoFeed [] = Unit {0}
NoFeed (b ∷ bs) = (b ≢ 0x0A) × NoFeed bs

abbrev pub IsText : Bytes → Type 0
IsText text = (1 ≤ length text) × NoFeed text

abbrev pub AllText : List Bytes → Type 0
AllText [] = Unit {0}
AllText (t ∷ ts) = IsText t × AllText ts

-- A line: the text, a carriage return and a line feed.
abbrev pub line : Bytes → Bytes
line text = text ++ 0x0D ∷ 0x0A ∷ []

-- The state after the bytes `bs`, in none of which a message ends.
abbrev pub after : Scan → Bytes → Scan
after s bs = record s {
  mem = fill s.mem s.mem_count bs;
  mem_count = s.mem_count + length bs;
  cur_end = s.cur_end + length bs;
}

module _ (n : ℕ) (ends : Array → ℕ → Bool)
    (at_feed : (mem : Array) (i : ℕ) → mem i ≢ 0x0A → ends mem i ≡ false) where
  pub scan-NoFeed :
      (text rest : Bytes) (s : Scan)
      → NoFeed text
      → s.cur_end + length text + 2 ≤ n
      → scan ends n s (text ++ rest) ≡ scan ends n (after s text) rest
  unfolding scan
  scan-NoFeed [] rest s h e = ground arith
  scan-NoFeed (b ∷ text) rest s h e = ground (
    arith,
    at_feed (write s.mem s.mem_count b) s.mem_count,
    scan-NoFeed text rest (advance (write s.mem s.mem_count b) s) h.1 (omega arith),
  )

ends_line-at_feed : (mem : Array) (i : ℕ) → mem i ≢ 0x0A → ends_line mem i ≡ false
unfolding ends_line
ends_line-at_feed mem i h = ground arith

pub ends_header-at_feed : (mem : Array) (i : ℕ) → mem i ≢ 0x0A → ends_header mem i ≡ false
unfolding ends_header
ends_header-at_feed mem i h = ground arith

-- The state at the start of the message behind one of `k` bytes.
abbrev pub reset : Array → ℕ → Scan
reset mem at = record { mem = mem; mem_count = 0; cur_start = at; cur_end = at }

module _ (n : ℕ) where
  scan_crlf :
      (s : Scan) (rest : Bytes)
      → 1 ≤ s.mem_count
      → s.cur_end + 2 + length rest ≡ n
      → scan ends_line n s (0x0D ∷ 0x0A ∷ rest)
        ≡ region s.cur_start (s.cur_end + 1)
          ∷ scan ends_line n
              (reset (fill s.mem s.mem_count (0x0D ∷ 0x0A ∷ [])) (s.cur_end + 2))
              rest
  unfolding scan ends_line
  scan_crlf s [] h e = ground arith
  scan_crlf s (r ∷ rest) h e = ground arith

  scan-line :
      (text rest : Bytes) (mem : Array) (at : ℕ)
      → IsText text
      → at + length text + 2 + length rest ≡ n
      → scan ends_line n (reset mem at) (line text ++ rest)
        ≡ region at (at + length text + 1)
          ∷ scan ends_line n
              (reset
                (fill (fill mem 0 text) (length text) (0x0D ∷ 0x0A ∷ []))
                (at + length text + 2))
              rest
  scan-line [] rest mem at h e = absurd (omega arith)
  scan-line (b ∷ bs) rest mem at h e = rw (append_assoc (b ∷ bs) (0x0D ∷ 0x0A ∷ []) rest) (
      scan-NoFeed n ends_line ends_line-at_feed (b ∷ bs) (0x0D ∷ 0x0A ∷ rest) (reset mem at) h.1
        (omega arith)
      ∙ scan_crlf (after (reset mem at) (b ∷ bs)) rest (omega arith) (omega arith)
      ∙ simp zero-add)

  -- A single byte behind the last line is read and not put into any region.
  scan-lines :
      (ts : List Bytes) (rest : Bytes) (mem : Array) (at : ℕ)
      → AllText ts
      → length rest ≤ 1
      → at + length (concat (map line ts) ++ rest) ≡ n
      → scan ends_line n (reset mem at) (concat (map line ts) ++ rest) ≡ regions_of at (map line ts)
  scan-lines [] [] mem at h short e = unfold scan in refl
  scan-lines [] (x ∷ []) mem at h short e = unfold scan ends_line in ground arith
  scan-lines [] (x ∷ y ∷ rest) mem at h short e = absurd (omega arith)
  scan-lines (t ∷ ts) rest mem at h short e =
      let more = concat (map line ts) ++ rest in
      let m = fill (fill mem 0 t) (length t) (0x0D ∷ 0x0A ∷ []) in
      let size : length (line t) ≡ length t + 2 =
        length-append t (0x0D ∷ 0x0A ∷ []) ∙ omega arith in
      let total : length ((line t ++ concat (map line ts)) ++ rest) ≡ length t + 2 + length more =
        rw (append_assoc (line t) (concat (map line ts)) rest)
          (length-append (line t) more ∙ ap (λ k. k + length more) size) in
      rw (append_assoc (line t) (concat (map line ts)) rest) (
        scan-line t more mem at h.0 (omega arith)
        ∙ ap (◌∷◌ (region at (at + length t + 1)))
            (scan-lines ts rest m (at + length t + 2) h.1 short (omega arith))
        ∙ ground arith)

or_whole-lines :
    (ts : List Bytes) (n : ℕ)
    → n ≡ length (concat (map line ts))
    → or_whole n (regions_of 0 (map line ts)) ≡ regions_of 0 (map line ts)
unfolding or_whole
or_whole-lines [] n e = rw e
or_whole-lines (t ∷ ts) n e = refl

scan-all_lines :
    (ts : List Bytes)
    → AllText ts
    → or_whole
        (length (concat (map line ts)))
        (scan ends_line (length (concat (map line ts))) start (concat (map line ts)))
      ≡ regions_of 0 (map line ts)
scan-all_lines ts h =
    let whole = concat (map line ts) in
    let scanned =
      scan-lines (length whole) ts [] (λ i. 0) 0 h (omega arith)
        (rw (append-nil whole) (omega arith)) in
    rw (rw (append-nil whole) at scanned) (or_whole-lines ts (length whole) refl)

-- The SMTP and the FTP extractor split a sequence of lines, each a non-empty text without line
-- feeds behind which CR LF stands, into exactly those lines.
pub extract_requests-lines :
    (ts : List Bytes)
    → AllText ts
    → (extract_requests_smtp (concat (map line ts)) ≡ regions_of 0 (map line ts))
      × (extract_requests_ftp (concat (map line ts)) ≡ regions_of 0 (map line ts))
unfolding extract_requests_smtp extract_requests_ftp
extract_requests-lines ts h = (scan-all_lines ts h, scan-all_lines ts h)

scan-trailing_byte :
    (t : Bytes) (ts : List Bytes) (x : ℕ)
    → AllText (t ∷ ts)
    → or_whole (length (concat (map line (t ∷ ts)) ++ x ∷ [])) (
        scan ends_line
          (length (concat (map line (t ∷ ts)) ++ x ∷ []))
          start
          (concat (map line (t ∷ ts)) ++ x ∷ []))
      ≡ regions_of 0 (map line (t ∷ ts))
unfolding or_whole
scan-trailing_byte t ts x h = rw (
    scan-lines (length (concat (map line (t ∷ ts)) ++ x ∷ [])) (t ∷ ts) (x ∷ []) (λ i. 0) 0 h
      (omega arith) (omega arith))

-- For at least one line, each a non-empty text without line feeds behind which CR LF stands, and one
-- more byte: the SMTP and the FTP extractor return the regions of the lines, and none for the byte.
pub extract_requests-trailing_byte :
    (t : Bytes) (ts : List Bytes) (x : ℕ)
    → AllText (t ∷ ts)
    → (extract_requests_smtp (concat (map line (t ∷ ts)) ++ x ∷ [])
        ≡ regions_of 0 (map line (t ∷ ts)))
      × (extract_requests_ftp (concat (map line (t ∷ ts)) ++ x ∷ [])
          ≡ regions_of 0 (map line (t ∷ ts)))
unfolding extract_requests_smtp extract_requests_ftp
extract_requests-trailing_byte t ts x h = (scan-trailing_byte t ts x h, scan-trailing_byte t ts x h)
