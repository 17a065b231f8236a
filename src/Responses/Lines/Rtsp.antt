-- ===== src/Responses/Lines/Rtsp.antt =====
-- RTSP responses: status lines among header lines.
use aflnet_legion.Common.{
  ℕ, ◌+◌, ◌<◌, ◌≡◌, refl, ap, ◌∙◌, Bool, List, [], ◌∷◌, ◌++◌, map, arith, length, Bytes, Array,
  write, fill, fill_before, true, false, ◌==◌, ◌&&◌, leb,
}
use aflnet_legion.Region.{concat}
use aflnet_legion.Requests.Lines.RoundTrip.{NoFeed, line}
use aflnet_legion.Responses.Lines.{scan, rtsp_line, is_status_line, extract_response_codes_rtsp}
use aflnet_legion.Responses.Lines.Codes.{
  Reply, code, IsReply, spelled, NoFeed-spelled, behind, behind_lem, scan-line, atoi_code,
}

-- Does a text begin with "RTSP/"?
abbrev pub begins_rtsp : Bytes → Bool
begins_rtsp (a ∷ b ∷ c ∷ d ∷ e ∷ rest) =
    a == b'R' && b == b'T' && c == b'S' && d == b'P' && e == b'/'
begins_rtsp _ = false

-- A line of a response: the status line, whose code and reason stand behind the version, or another
-- line.
pub data ResponseLine : Type 0 where
  status : Reply → ResponseLine
  other : Bytes → ResponseLine

abbrev pub text_of : ResponseLine → Bytes
text_of (status r) = b'R' ∷ b'T' ∷ b'S' ∷ b'P' ∷ b'/' ∷ b'1' ∷ b'.' ∷ b'0' ∷ b' ' ∷ spelled r
text_of (other text) = text

abbrev pub IsLine : ResponseLine → Type 0
IsLine (status r) = IsReply r
IsLine (other text) = NoFeed text × (begins_rtsp text ≡ false)

abbrev pub AllLines : List ResponseLine → Type 0
AllLines [] = Unit {0}
AllLines (l ∷ ls) = IsLine l × AllLines ls

-- The states that the status lines report.
abbrev pub codes_of : List ResponseLine → List ℕ
codes_of [] = []
codes_of (status r ∷ ls) = code r ∷ codes_of ls
codes_of (other text ∷ ls) = codes_of ls

abbrev pub encode_line : ResponseLine → Bytes
encode_line l = line (text_of l)

module _ (mem : Array) (a b c d e : ℕ) (rest : Bytes) where
  abbrev five : Array
  five = write (write (write (write (write mem 0 a) 1 b) 2 c) 3 d) 4 e

  five_at : (j : ℕ) → j < 5 → behind rtsp_line mem (a ∷ b ∷ c ∷ d ∷ e ∷ rest) j ≡ five j
  five_at j h =
      behind_lem rtsp_line mem (a ∷ b ∷ c ∷ d ∷ e ∷ rest) j (omega arith)
      ∙ fill_before rest five 5 j h

  -- The test of the loop at the end of a line of five bytes and more looks at these five.
  is_status_line-begins :
      is_status_line
        (behind rtsp_line mem (a ∷ b ∷ c ∷ d ∷ e ∷ rest))
        (length (a ∷ b ∷ c ∷ d ∷ e ∷ rest) + 1)
      ≡ begins_rtsp (a ∷ b ∷ c ∷ d ∷ e ∷ rest)
  is_status_line-begins =
      let long : leb 5 (length (a ∷ b ∷ c ∷ d ∷ e ∷ rest) + 1) ≡ true = ground arith in
      rw (
        long,
        five_at 0 (omega arith),
        five_at 1 (omega arith),
        five_at 2 (omega arith),
        five_at 3 (omega arith),
        five_at 4 (omega arith),
      )

not_status :
    (mem : Array) (text : Bytes)
    → begins_rtsp text ≡ false
    → is_status_line (behind rtsp_line mem text) (length text + 1) ≡ false
not_status mem [] h = ground arith
not_status mem (a ∷ []) h = ground arith
not_status mem (a ∷ b ∷ []) h = ground arith
not_status mem (a ∷ b ∷ c ∷ []) h = ground arith
not_status mem (a ∷ b ∷ c ∷ d ∷ []) h = ground arith
not_status mem (a ∷ b ∷ c ∷ d ∷ e ∷ rest) h = is_status_line-begins mem a b c d e rest ∙ h

scan-other :
    (mem : Array) (text rest : Bytes)
    → NoFeed text
    → begins_rtsp text ≡ false
    → scan rtsp_line mem 0 (line text ++ rest) ≡ scan rtsp_line (behind rtsp_line mem text) 0 rest
scan-other mem text rest h o = scan-line rtsp_line text rest mem h ∙ rw (not_status mem text o)

NoFeed-status : (r : Reply) → IsReply r → NoFeed (text_of (status r))
NoFeed-status r h =
    let t = NoFeed-spelled r h in
    (
      omega arith,
      (
        omega arith,
        (
          omega arith,
          (
            omega arith,
            (omega arith, (omega arith, (omega arith, (omega arith, (omega arith, t))))),
          ),
        ),
      ),
    )

scan-status :
    (mem : Array) (r : Reply) (rest : Bytes)
    → IsReply r
    → scan rtsp_line mem 0 (encode_line (status r) ++ rest)
      ≡ code r ∷ scan rtsp_line (behind rtsp_line mem (text_of (status r))) 0 rest
scan-status mem r rest h =
    let text = text_of (status r) in
    let m = behind rtsp_line mem text in
    let at = λ (j : ℕ) (p : j < length text). behind_lem rtsp_line mem text j p in
    let twelve = fill mem 0 (
      b'R'
      ∷ b'T'
      ∷ b'S'
      ∷ b'P'
      ∷ b'/'
      ∷ b'1'
      ∷ b'.'
      ∷ b'0'
      ∷ b' '
      ∷ (b'0' + r.hundreds)
      ∷ (b'0' + r.tens)
      ∷ (b'0' + r.units)
      ∷ []) in
    let tail = λ (j : ℕ) (p : j < 12). fill_before r.text twelve 12 j p in
    let x : m 9 ≡ b'0' + r.hundreds = at 9 (omega arith) ∙ tail 9 (omega arith) in
    let y : m 10 ≡ b'0' + r.tens = at 10 (omega arith) ∙ tail 10 (omega arith) in
    let z : m 11 ≡ b'0' + r.units = at 11 (omega arith) ∙ tail 11 (omega arith) in
    let value = atoi_code r.hundreds r.tens r.units h.1 h.2 h.3 in
    let nonzero : (code r == 0) ≡ false = let p = h.0 in ground arith in
    let st =
      is_status_line-begins mem b'R' b'T' b'S' b'P' b'/' (b'1' ∷ b'.' ∷ b'0' ∷ b' ' ∷ spelled r) in
    scan-line rtsp_line text rest mem (NoFeed-status r h) ∙ rw (st, x, y, z, value, nonzero)

scan-lines :
    (ls : List ResponseLine) (mem : Array)
    → AllLines ls
    → scan rtsp_line mem 0 (concat (map encode_line ls)) ≡ codes_of ls
unfolding scan
scan-lines [] mem h = refl
scan-lines (status r ∷ ls) mem h =
    scan-status mem r (concat (map encode_line ls)) h.0
    ∙ ap (◌∷◌ (code r)) (scan-lines ls (behind rtsp_line mem (text_of (status r))) h.1)
scan-lines (other text ∷ ls) mem h =
    scan-other mem text (concat (map encode_line ls)) h.0.0 h.0.1
    ∙ scan-lines ls (behind rtsp_line mem text) h.1

-- For a sequence of lines with CR LF, each a status line "RTSP/1.0" with a three-digit code that is
-- not 000 or a line that does not begin with "RTSP/", the RTSP extractor returns the initial state
-- and then exactly the codes of the status lines, whatever the other lines hold.
pub extract_response_codes_rtsp-lines :
    (ls : List ResponseLine)
    → AllLines ls
    → extract_response_codes_rtsp (concat (map encode_line ls)) ≡ 0 ∷ codes_of ls
unfolding extract_response_codes_rtsp
extract_response_codes_rtsp-lines ls h = ap (◌∷◌ 0) (scan-lines ls (λ i. 0) h)
