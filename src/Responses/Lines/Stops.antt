-- ===== src/Responses/Lines/Stops.antt =====
-- Where the extractors of response codes by lines (aflnet.c) stop.
use aflnet_legion.Common.{
  ℕ, ◌+◌, ◌≡◌, refl, ap, List, [], ◌∷◌, map, Bytes, Array, write, ◌==◌, inl, inr, Bool-cases,
  if◌then◌else◌,
}
use aflnet_legion.Responses.Lines.{
  scan, resume, code_at, smtp_line, rtsp_line, is_status_line, ends_line, stop_at_zero,
  extract_response_codes_smtp, extract_response_codes_ftp, extract_response_codes_rtsp,
}

-- What `mem` and `mem_count` are at the end of each line of a buffer.
pub record Line : Type 0 where
  pub mem : Array
  pub mem_count : ℕ

unfoldable pub lines : Array → ℕ → Bytes → List Line
lines mem mem_count [] = []
lines mem₀ mem_count (b ∷ bs) =
    let mem = write mem₀ mem_count b in
    let later = lines mem 0 bs in
    let same_line = lines mem (mem_count + 1) bs in
    if ends_line mem mem_count
    then record { mem = mem; mem_count = mem_count } ∷ later
    else same_line

-- The lines that begin with "RTSP/".
unfoldable pub status_lines : List Line → List Line
status_lines [] = []
status_lines (l ∷ ls) =
    let rest = status_lines ls in if is_status_line l.mem l.mem_count then l ∷ rest else rest

-- A sequence up to its first 0.
unfoldable pub until_zero : List ℕ → List ℕ
until_zero [] = []
until_zero (c ∷ cs) = let rest = until_zero cs in if c == 0 then [] else c ∷ rest

-- The code that begins at an index of a line.
abbrev pub code_from : ℕ → Line → ℕ
code_from i l = code_at l.mem i

resume-until_zero :
    (c : ℕ) (cs : List ℕ) → resume (stop_at_zero c) (until_zero cs) ≡ until_zero (c ∷ cs)
unfolding until_zero
resume-until_zero c cs = elim (Bool-cases (c == 0)) [
  | inl zero_code ↦ rw (zero_code, until_zero) refl
  | inr other ↦ rw (other, until_zero) refl
]

scan_smtp :
    (bs : Bytes) (mem : Array) (i : ℕ)
    → scan smtp_line mem i bs ≡ until_zero (map (code_from 0) (lines mem i bs))
unfolding scan lines
scan_smtp [] mem i = unfold until_zero in refl
scan_smtp (b ∷ bs) mem i =
    let m = write mem i b in
    elim (Bool-cases (ends_line m i)) [
      | inl ends ↦
          rw (ends, scan, lines, scan_smtp bs m 0)
            (resume-until_zero (code_at m 0) (map (code_from 0) (lines m 0 bs)))
      | inr further ↦ rw (further, scan, lines) (scan_smtp bs m (i + 1))
    ]

scan_rtsp :
    (bs : Bytes) (mem : Array) (i : ℕ)
    → scan rtsp_line mem i bs ≡ until_zero (map (code_from 9) (status_lines (lines mem i bs)))
unfolding scan lines status_lines
scan_rtsp [] mem i = unfold until_zero in refl
scan_rtsp (b ∷ bs) mem i =
    let m = write mem i b in
    elim (Bool-cases (ends_line m i)) [
      | inr further ↦ rw (further, scan, lines) (scan_rtsp bs m (i + 1))
      | inl ends ↦ elim (Bool-cases (is_status_line m i)) [
        | inl status ↦
            rw (ends, status, scan, lines, status_lines, scan_rtsp bs m 0)
              (resume-until_zero (code_at m 9) (map (code_from 9) (status_lines (lines m 0 bs))))
        | inr other ↦ rw (ends, other, scan, lines, status_lines) (scan_rtsp bs m 0)
      ]
    ]

-- For every buffer: the SMTP and FTP extractors return the initial state 0 and then the codes that
-- begin the lines of the buffer, up to the first line whose code reads as 0 and without it, whatever
-- follows; the RTSP extractor returns the initial state and then, in the same way, the codes at
-- index 9 of the lines that begin with "RTSP/".
pub extract_response_codes-until_zero :
    (buf : Bytes)
    → let all = lines (λ i. 0) 0 buf in
      (extract_response_codes_smtp buf ≡ 0 ∷ until_zero (map (code_from 0) all))
      × (extract_response_codes_ftp buf ≡ 0 ∷ until_zero (map (code_from 0) all))
      × (extract_response_codes_rtsp buf ≡ 0 ∷ until_zero (map (code_from 9) (status_lines all)))
unfolding extract_response_codes_smtp extract_response_codes_ftp extract_response_codes_rtsp
extract_response_codes-until_zero buf =
    let codes = ap (◌∷◌ 0) (scan_smtp buf (λ i. 0) 0) in
    (codes, codes, ap (◌∷◌ 0) (scan_rtsp buf (λ i. 0) 0))
