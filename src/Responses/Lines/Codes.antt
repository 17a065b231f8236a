-- ===== src/Responses/Lines/Codes.antt =====
-- What the line-based extractors return for well-formed replies, for empty lines, and in general.
use mathlib.Core.List.{append-nil, append_assoc}
use native.Mathlib.Nat.{zero-add}
use aflnet_legion.Common.{
  ℕ, ◌+◌, ◌-◌, ◌*◌, ◌≤◌, ◌<◌, ◌≡◌, refl, ap, ◌∙◌, List, [], ◌∷◌, ◌++◌, map, arith, length, Bytes,
  Array, write, fill, fill_before, true, false, ◌==◌,
}
use aflnet_legion.Region.{concat}
use aflnet_legion.Requests.Lines.RoundTrip.{NoFeed, line}
use aflnet_legion.Responses.Lines.{
  is_space, is_digit, LineEnd, scan, resume, digits, signed, atoi, smtp_line,
  extract_response_codes_smtp, extract_response_codes_ftp,
}

module _ (at_end : Array → ℕ → LineEnd) where
  scan-NoFeed :
      (text rest : Bytes) (mem : Array) (k : ℕ)
      → NoFeed text
      → scan at_end mem k (text ++ rest) ≡ scan at_end (fill mem k text) (k + length text) rest
  unfolding scan
  scan-NoFeed [] rest mem k h = ground arith
  scan-NoFeed (b ∷ text) rest mem k h =
      ground (arith, scan-NoFeed text rest (write mem k b) (k + 1) h.1)

  scan_crlf :
      (rest : Bytes) (mem : Array) (k : ℕ)
      → scan at_end mem k (0x0D ∷ 0x0A ∷ rest)
        ≡ resume
            (at_end (fill mem k (0x0D ∷ 0x0A ∷ [])) (k + 1))
            (scan at_end (fill mem k (0x0D ∷ 0x0A ∷ [])) 0 rest)
  unfolding scan
  scan_crlf rest mem k = ground arith

  -- The contents of the buffer behind a line.
  abbrev pub behind : Array → Bytes → Array
  behind mem text = fill (fill mem 0 text) (length text) (0x0D ∷ 0x0A ∷ [])

  pub scan-line :
      (text rest : Bytes) (mem : Array)
      → NoFeed text
      → scan at_end mem 0 (line text ++ rest)
        ≡ resume (at_end (behind mem text) (length text + 1)) (scan at_end (behind mem text) 0 rest)
  scan-line text rest mem h = rw (append_assoc text (0x0D ∷ 0x0A ∷ []) rest) (
      scan-NoFeed text (0x0D ∷ 0x0A ∷ rest) mem 0 h
      ∙ rw (zero-add (length text)) (scan_crlf rest (fill mem 0 text) (length text)))

-- A three-digit code and the text behind it.
pub record Reply : Type 0 where
  pub hundreds : ℕ
  pub tens : ℕ
  pub units : ℕ
  pub text : Bytes

abbrev pub code : Reply → ℕ
code r = 100 * r.hundreds + 10 * r.tens + r.units

abbrev pub IsReply : Reply → Type 0
IsReply r = (1 ≤ code r) × (r.hundreds < 10) × (r.tens < 10) × (r.units < 10) × NoFeed r.text

abbrev pub spelled : Reply → Bytes
spelled r = (b'0' + r.hundreds) ∷ (b'0' + r.tens) ∷ (b'0' + r.units) ∷ r.text

abbrev pub encode : Reply → Bytes
encode r = line (spelled r)

abbrev pub AllReplies : List Reply → Type 0
AllReplies [] = Unit {0}
AllReplies (r ∷ rs) = IsReply r × AllReplies rs

is_digit_lem : (h : ℕ) → h < 10 → is_digit (b'0' + h) ≡ true
is_digit_lem h p = ground arith

signed_digit : (h : ℕ) (cs : Bytes) → h < 10 → signed ((b'0' + h) ∷ cs) ≡ digits h cs
unfolding signed
signed_digit h cs p =
    let minus : (b'0' + h == b'-') ≡ false = ground arith in
    let plus : (b'0' + h == b'+') ≡ false = ground arith in
    let value : 0 * 10 + (b'0' + h - b'0') ≡ h = omega arith in
    rw (minus, plus, digits, is_digit_lem h p, value)

digits_digit :
    (acc h : ℕ) (cs : Bytes) → h < 10 → digits acc ((b'0' + h) ∷ cs) ≡ digits (acc * 10 + h) cs
unfolding digits
digits_digit acc h cs p =
    let value : b'0' + h - b'0' ≡ h = omega arith in rw (is_digit_lem h p, value)

atoi_digit : (h : ℕ) (cs : Bytes) → h < 10 → atoi ((b'0' + h) ∷ cs) ≡ digits h cs
unfolding atoi
atoi_digit h cs p =
    let space : is_space (b'0' + h) ≡ false = ground arith in rw (space) (signed_digit h cs p)

pub atoi_code :
    (h t u : ℕ)
    → h < 10
    → t < 10
    → u < 10
    → atoi ((b'0' + h) ∷ (b'0' + t) ∷ (b'0' + u) ∷ []) ≡ 100 * h + 10 * t + u
atoi_code h t u p q r =
    atoi_digit h ((b'0' + t) ∷ (b'0' + u) ∷ []) p
    ∙ digits_digit h t ((b'0' + u) ∷ []) q
    ∙ digits_digit (h * 10 + t) u [] r
    ∙ unfold digits in omega arith

-- The white space of an empty line is skipped.
atoi_unit : (u : ℕ) → u < 10 → atoi (0x0D ∷ 0x0A ∷ (b'0' + u) ∷ []) ≡ u
unfolding atoi
atoi_unit u p = atoi_digit u [] p ∙ unfold digits in refl

-- An end of line leaves the line's own bytes.
pub behind_lem :
    (at_end : Array → ℕ → LineEnd) (mem : Array) (text : Bytes) (j : ℕ)
    → j < length text
    → behind at_end mem text j ≡ fill mem 0 text j
behind_lem at_end mem text j h = fill_before (0x0D ∷ 0x0A ∷ []) (fill mem 0 text) (length text) j h

pub NoFeed-spelled : (r : Reply) → IsReply r → NoFeed (spelled r)
NoFeed-spelled r h = let t = h.4 in (omega arith, (omega arith, (omega arith, t)))

module _ (r : Reply) (h : IsReply r) (mem : Array) where
  spelled_at :
      (behind smtp_line mem (spelled r) 0 ≡ b'0' + r.hundreds)
      × (behind smtp_line mem (spelled r) 1 ≡ b'0' + r.tens)
      × (behind smtp_line mem (spelled r) 2 ≡ b'0' + r.units)
  spelled_at =
      let start =
        write (write (write mem 0 (b'0' + r.hundreds)) 1 (b'0' + r.tens)) 2 (b'0' + r.units) in
      (
        behind_lem smtp_line mem (spelled r) 0 (omega arith)
            ∙ fill_before r.text start 3 0 (omega arith),
        behind_lem smtp_line mem (spelled r) 1 (omega arith)
            ∙ fill_before r.text start 3 1 (omega arith),
        behind_lem smtp_line mem (spelled r) 2 (omega arith)
            ∙ fill_before r.text start 3 2 (omega arith),
      )

  scan-reply :
      (rest : Bytes)
      → scan smtp_line mem 0 (encode r ++ rest)
        ≡ code r ∷ scan smtp_line (behind smtp_line mem (spelled r)) 0 rest
  scan-reply rest =
      let (a, b, c) = spelled_at in
      let value = atoi_code r.hundreds r.tens r.units h.1 h.2 h.3 in
      let nonzero : (code r == 0) ≡ false = let p = h.0 in ground arith in
      scan-line smtp_line (spelled r) rest mem (NoFeed-spelled r h) ∙ rw (a, b, c, value, nonzero)

scan-replies :
    (rs : List Reply) (rest : Bytes) (mem : Array)
    → AllReplies rs
    → (mem' : Array) × (scan smtp_line mem 0 (concat (map encode rs) ++ rest)
        ≡ map code rs ++ scan smtp_line mem' 0 rest)
scan-replies [] rest mem h = (mem, refl)
scan-replies (r ∷ rs) rest mem h =
    let (mem', same) = scan-replies rs rest (behind smtp_line mem (spelled r)) h.1 in
    (
      mem',
      rw (append_assoc (encode r) (concat (map encode rs)) rest)
          (scan-reply r h.0 mem (concat (map encode rs) ++ rest) ∙ ap (◌∷◌ (code r)) same),
    )

scan-AllReplies :
    (rs : List Reply)
    → AllReplies rs
    → scan smtp_line (λ i. 0) 0 (concat (map encode rs)) ≡ map code rs
unfolding scan
scan-AllReplies rs h =
    let (mem', same) = scan-replies rs [] (λ i. 0) h in
    (rw (append-nil (concat (map encode rs)), append-nil (map code rs)) at same)

-- For a sequence of reply lines, each a three-digit code that is not 000, a text without line feeds
-- and CR LF, the SMTP and the FTP extractor return the initial state and then exactly the codes.
pub extract_response_codes-replies :
    (rs : List Reply)
    → AllReplies rs
    → (extract_response_codes_smtp (concat (map encode rs)) ≡ 0 ∷ map code rs)
      × (extract_response_codes_ftp (concat (map encode rs)) ≡ 0 ∷ map code rs)
unfolding extract_response_codes_smtp extract_response_codes_ftp
extract_response_codes-replies rs h =
    (ap (◌∷◌ 0) (scan-AllReplies rs h), ap (◌∷◌ 0) (scan-AllReplies rs h))

abbrev pub empty_line : Bytes
empty_line = 0x0D ∷ 0x0A ∷ []

scan-reply-empty :
    (r : Reply)
    → IsReply r
    → 1 ≤ r.units
    → scan smtp_line (λ i. 0) 0 (encode r ++ empty_line) ≡ code r ∷ r.units ∷ []
unfolding scan
scan-reply-empty r h one =
    let mem = behind smtp_line (λ i. 0) (spelled r) in
    let (a, b, c) = spelled_at r h (λ i. 0) in
    let value = atoi_unit r.units h.3 in
    let nonzero : (r.units == 0) ≡ false = ground arith in
    scan-reply r h (λ i. 0) empty_line
    ∙ ap (◌∷◌ (code r)) (scan_crlf smtp_line [] mem 0 ∙ rw (c, value, nonzero))

-- An empty line behind a reply is taken for a response code: the extractors read the third byte of
-- the line before it, still in the buffer, so that the last digit of its code, unless it is 0,
-- becomes a state that the server never reported.
pub extract_response_codes-empty_line :
    (r : Reply)
    → IsReply r
    → 1 ≤ r.units
    → (extract_response_codes_smtp (encode r ++ empty_line) ≡ 0 ∷ code r ∷ r.units ∷ [])
      × (extract_response_codes_ftp (encode r ++ empty_line) ≡ 0 ∷ code r ∷ r.units ∷ [])
unfolding extract_response_codes_smtp extract_response_codes_ftp
extract_response_codes-empty_line r h one =
    (ap (◌∷◌ 0) (scan-reply-empty r h one), ap (◌∷◌ 0) (scan-reply-empty r h one))
