-- ===== src/Requests/Lines/Headers.antt =====
-- RTSP: requests are header lines and an empty line.
use aflnet_legion.Common.{
  ℕ, suc, ◌+◌, ◌-◌, ◌≤◌, ◌<◌, ◌≡◌, ◌≢◌, refl, ap, ◌∙◌, true, List, [], ◌∷◌, ◌++◌, map, arith,
  length, length-append, Bytes, Array, write, fill,
}
use mathlib.Core.List.{append-nil, append_assoc}
use aflnet_legion.Region.{region, regions_of, concat}
use aflnet_legion.Requests.Lines.RoundTrip.{
  NoFeed, IsText, AllText, line, after, reset, scan-NoFeed, ends_header-at_feed,
}
use aflnet_legion.Requests.Lines.{Scan, scan, ends_header, extract_requests_rtsp}

-- A request: header lines, and an empty line.
abbrev pub request : List Bytes → Bytes
request headers = concat (map line headers) ++ 0x0D ∷ 0x0A ∷ []

abbrev pub AllRequests : List (List Bytes) → Type 0
AllRequests [] = Unit {0}
AllRequests (r ∷ rs) = (1 ≤ length r) × AllText r × AllRequests rs

fill_last :
    (b : ℕ) (text : Bytes) (mem : Array) (i : ℕ)
    → NoFeed (b ∷ text)
    → fill mem i (b ∷ text) (i + length text) ≢ 0x0A
fill_last b [] mem i h = ground arith
fill_last b (c ∷ text) mem i h = ground (arith, fill_last c text (write mem i b) (i + 1) h.1)

module _ (n : ℕ) where
  -- The end of a header line: the byte before it is no line feed, so no request ends here.
  scan_header_crlf :
      (s : Scan) (rest : Bytes)
      → 1 ≤ s.mem_count
      → s.mem (s.mem_count - 1) ≢ 0x0A
      → 2 ≤ length rest
      → s.cur_end + 2 + length rest ≡ n
      → scan ends_header n s (0x0D ∷ 0x0A ∷ rest)
        ≡ scan ends_header n (after s (0x0D ∷ 0x0A ∷ [])) rest
  unfolding scan ends_header
  scan_header_crlf s rest h f two e = ground arith

ends_header_blank :
    (mem : Array) (i : ℕ)
    → 3 < i
    → mem (i - 3) ≡ 0x0D
    → mem (i - 2) ≡ 0x0A
    → mem (i - 1) ≡ 0x0D
    → mem i ≡ 0x0A
    → ends_header mem i ≡ true
unfolding ends_header
ends_header_blank mem i h e f g k = ground arith

blank_hit :
    (s : Scan) (k : ℕ)
    → s.mem_count ≡ k + 2
    → 1 ≤ k
    → s.mem k ≡ 0x0D
    → s.mem (k + 1) ≡ 0x0A
    → ends_header (fill s.mem s.mem_count (0x0D ∷ 0x0A ∷ [])) (s.mem_count + 1) ≡ true
blank_hit s k c one f g =
    let first = write s.mem s.mem_count 0x0D in
    let i : k + 3 - 3 ≡ k = omega arith in
    let j : k + 3 - 2 ≡ k + 1 = omega arith in
    let l : k + 3 - 1 ≡ k + 2 = omega arith in
    let m : s.mem_count + 1 ≡ k + 3 = omega arith in
    rw m (
      ends_header_blank (write first (k + 3) 0x0A) (k + 3) (omega arith) (rw i (ground arith))
        (rw j (ground arith)) (rw l (ground arith)) (ground arith))

module _ (n : ℕ) where
  -- The empty line.
  scan_blank :
      (s : Scan) (rest : Bytes) (k : ℕ)
      → s.mem_count ≡ k + 2
      → 1 ≤ k
      → s.mem k ≡ 0x0D
      → s.mem (k + 1) ≡ 0x0A
      → s.cur_end + 2 + length rest ≡ n
      → scan ends_header n s (0x0D ∷ 0x0A ∷ rest)
        ≡ region s.cur_start (s.cur_end + 1)
          ∷ scan ends_header n
              (reset (fill s.mem s.mem_count (0x0D ∷ 0x0A ∷ [])) (s.cur_end + 2))
              rest
  unfolding scan
  scan_blank s [] k c one f g e =
      ground (arith, ends_header-at_feed (write s.mem s.mem_count 0x0D) s.mem_count)
  scan_blank s (r ∷ rest) k c one f g e =
      let first = write s.mem s.mem_count 0x0D in
      ground (arith, blank_hit s k c one f g, ends_header-at_feed first s.mem_count)

  -- The state behind complete header lines: the last two bytes are CR LF, and a line stands before.
  record Between (s : Scan) (from : Scan) (size : ℕ) : Type 0 where
    k : ℕ
    count_is : s.mem_count ≡ k + 2
    line_before : 1 ≤ k
    cr : s.mem k ≡ 0x0D
    lf : s.mem (k + 1) ≡ 0x0A
    start_is : s.cur_start ≡ from.cur_start
    end_is : s.cur_end ≡ from.cur_end + size

  scan_header :
      (t rest : Bytes) (s : Scan)
      → IsText t
      → 2 ≤ length rest
      → s.cur_end + length (line t) + length rest ≡ n
      → (s' : Scan) × (scan ends_header n s (line t ++ rest) ≡ scan ends_header n s' rest)
        × Between s' s (length (line t))
  scan_header [] rest s h two e = absurd (omega arith)
  scan_header (b ∷ bs) rest s h two e =
      let t = b ∷ bs in
      let size : length (line t) ≡ length t + 2 =
        length-append t (0x0D ∷ 0x0A ∷ []) ∙ omega arith in
      let last : (after s t).mem ((after s t).mem_count - 1) ≢ 0x0A =
        let i : s.mem_count + suc (length bs) - 1 ≡ s.mem_count + length bs = omega arith in
        rw i (fill_last b bs s.mem s.mem_count h.1) in
      (
        after (after s t) (0x0D ∷ 0x0A ∷ []),
        rw (append_assoc t (0x0D ∷ 0x0A ∷ []) rest) (
            scan-NoFeed n ends_header ends_header-at_feed t (0x0D ∷ 0x0A ∷ rest) s h.1 (omega arith)
            ∙ scan_header_crlf n (after s t) rest (omega arith) last two (omega arith)),
        record {
          k = s.mem_count + length t;
          count_is = refl;
          line_before = omega arith;
          cr = ground arith;
          lf = ground arith;
          start_is = refl;
          end_is = omega arith;
        },
      )

  scan_headers :
      (t : Bytes) (ts : List Bytes) (rest : Bytes) (s : Scan)
      → AllText (t ∷ ts)
      → 2 ≤ length rest
      → s.cur_end + length (concat (map line (t ∷ ts))) + length rest ≡ n
      → (s' : Scan) × (scan ends_header n s (concat (map line (t ∷ ts)) ++ rest)
          ≡ scan ends_header n s' rest)
        × Between s' s (length (concat (map line (t ∷ ts))))
  scan_headers t [] rest s h two e =
      rw (append-nil (line t)) (scan_header t rest s h.0 two (rw (append-nil (line t)) at e))
  scan_headers t (u ∷ us) rest s h two e =
      let more = concat (map line (u ∷ us)) in
      let size : length (line t ++ more) ≡ length (line t) + length more =
        length-append (line t) more in
      let behind : length (more ++ rest) ≡ length more + length rest = length-append more rest in
      let (s', same, b) = scan_header t (more ++ rest) s h.0 (omega arith) (omega arith) in
      let (s'', same', b') = scan_headers u us rest s' h.1 two (let e' = b.end_is in omega arith) in
      (
        s'',
        rw (append_assoc (line t) more rest) (same ∙ same'),
        record {
          k = b'.k;
          count_is = b'.count_is;
          line_before = b'.line_before;
          cr = b'.cr;
          lf = b'.lf;
          start_is = b'.start_is ∙ b.start_is;
          end_is = let e1 = b.end_is in let e2 = b'.end_is in omega arith;
        },
      )

  scan-request :
      (r : List Bytes) (rest : Bytes) (mem : Array) (at : ℕ)
      → 1 ≤ length r
      → AllText r
      → at + length (request r) + length rest ≡ n
      → (mem' : Array) × (scan ends_header n (reset mem at) (request r ++ rest)
          ≡ region at (at + length (request r) - 1)
            ∷ scan ends_header n (reset mem' (at + length (request r))) rest)
  scan-request [] rest mem at ne h e = absurd (omega arith)
  scan-request (t ∷ ts) rest mem at ne h e =
      let more = concat (map line (t ∷ ts)) in
      let crlf : Bytes = 0x0D ∷ 0x0A ∷ [] in
      let size : length (request (t ∷ ts)) ≡ length more + 2 =
        length-append more crlf ∙ omega arith in
      let (s', same, b) =
        scan_headers t ts (crlf ++ rest) (reset mem at) h (omega arith) (omega arith) in
      let st = b.start_is in
      let en = b.end_is in
      let last : s'.cur_end + 1 ≡ at + length (request (t ∷ ts)) - 1 = omega arith in
      let next : s'.cur_end + 2 ≡ at + length (request (t ∷ ts)) = omega arith in
      (
        fill s'.mem s'.mem_count crlf,
        rw (append_assoc more crlf rest) (
            same
            ∙ scan_blank s' rest b.k b.count_is b.line_before b.cr b.lf (omega arith)
            ∙ rw (st, last, next)),
      )

  scan-requests :
      (rs : List (List Bytes)) (mem : Array) (at : ℕ)
      → AllRequests rs
      → at + length (concat (map request rs)) ≡ n
      → scan ends_header n (reset mem at) (concat (map request rs)) ≡ regions_of at (map request rs)
  scan-requests [] mem at h e = unfold scan in refl
  scan-requests (r ∷ rs) mem at h e =
      let size : length (request r ++ concat (map request rs))
          ≡ length (request r) + length (concat (map request rs)) =
        length-append (request r) (concat (map request rs)) in
      let (mem', same) = scan-request r (concat (map request rs)) mem at h.0 h.1 (omega arith) in
      same
      ∙ ap (◌∷◌ (region at (at + length (request r) - 1)))
          (scan-requests rs mem' (at + length (request r)) h.2 (omega arith))

-- The RTSP extractor splits a sequence of requests, each at least one non-empty header line and an
-- empty line, all with CR LF behind them, into exactly those requests.
pub extract_requests_rtsp-requests :
    (rs : List (List Bytes))
    → AllRequests rs
    → extract_requests_rtsp (concat (map request rs)) ≡ regions_of 0 (map request rs)
unfolding extract_requests_rtsp
extract_requests_rtsp-requests [] h = refl
extract_requests_rtsp-requests (r ∷ rs) h =
    rw (scan-requests (length (concat (map request (r ∷ rs)))) (r ∷ rs) (λ i. 0) 0 h (omega arith))
      refl
