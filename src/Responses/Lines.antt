-- ===== src/Responses/Lines.antt =====
-- `extract_response_codes_smtp`, `_ftp` and `_rtsp` (aflnet.c): one code a line. The three loops
-- differ in what they do at the end of a line.
pub mod Codes
pub mod Rtsp
pub mod Stops
use aflnet_legion.Common.{
  ℕ, ◌+◌, ◌-◌, ◌*◌, ◌%◌, Bool, ◌&&◌, ◌||◌, List, [], ◌∷◌, ◌==◌, ltb, leb, if◌then◌else◌, Bytes,
  Array, write, sub32,
}

-- C's `atoi` on at most three characters, as the `unsigned int` it is cast to: white space, a
-- sign, digits.
abbrev pub is_space : ℕ → Bool
is_space c = c == 32 || (leb 9 c && leb c 13)

abbrev pub is_digit : ℕ → Bool
is_digit c = leb b'0' c && leb c b'9'

unfoldable pub digits : ℕ → Bytes → ℕ
digits acc [] = acc
digits acc (c ∷ cs) = if is_digit c then digits (acc * 10 + (c - b'0')) cs else acc

unfoldable pub signed : Bytes → ℕ
unfolding digits
signed [] = 0
signed (c ∷ cs) =
    if c == b'-'
    then sub32 0 (digits 0 cs)
    else if c == b'+'
    then digits 0 cs
    else digits 0 (c ∷ cs)

unfoldable pub atoi : Bytes → ℕ
unfolding signed
atoi [] = 0
atoi (c ∷ cs) = if is_space c then atoi cs else signed (c ∷ cs)

-- `memcpy(temp, …, 4); temp[3] = 0x0; atoi(temp)`
abbrev pub code_at : Array → ℕ → ℕ
code_at mem i = atoi (mem i ∷ mem (i + 1) ∷ mem (i + 2) ∷ [])

-- What happens at the end of a line: the loop breaks, the line is dropped, or its code is stored.
pub data LineEnd : Type 0 where
  stop : LineEnd
  drop_line : LineEnd
  store : ℕ → LineEnd

-- `if (message_code == 0) break;`
abbrev pub stop_at_zero : ℕ → LineEnd
stop_at_zero code = if code == 0 then stop else store code

abbrev pub smtp_line : Array → ℕ → LineEnd
smtp_line mem mem_count = stop_at_zero (code_at mem 0)

-- `(mem_count >= 5) && (memcmp(mem, rtsp, 5) == 0)`
abbrev pub is_status_line : Array → ℕ → Bool
is_status_line mem mem_count =
    leb 5 mem_count
    && (mem 0 == 0x52 && mem 1 == 0x54 && mem 2 == 0x53 && mem 3 == 0x50 && mem 4 == 0x2F)

abbrev pub rtsp_line : Array → ℕ → LineEnd
rtsp_line mem mem_count =
    if is_status_line mem mem_count then stop_at_zero (code_at mem 9) else drop_line

-- `(mem_count > 0) && (memcmp(&mem[mem_count - 1], terminator, 2) == 0)`
abbrev pub ends_line : Array → ℕ → Bool
ends_line mem mem_count = ltb 0 mem_count && (mem (mem_count - 1) == 0x0D && mem mem_count == 0x0A)

-- What a line's end leads to, with the rest of the loop.
abbrev pub resume : LineEnd → List ℕ → List ℕ
resume stop rest = []
resume drop_line rest = rest
resume (store code) rest = code ∷ rest

-- The loop over the bytes that are left. `mem` keeps the bytes of older lines behind those of the
-- current one.
unfoldable pub scan : (Array → ℕ → LineEnd) → Array → ℕ → Bytes → List ℕ
scan at_end mem mem_count [] = []
scan at_end mem₀ mem_count (b ∷ bs) =
    let mem = write mem₀ mem_count b in
    let new_line = scan at_end mem 0 bs in
    let same_line = scan at_end mem (mem_count + 1) bs in
    if ends_line mem mem_count then resume (at_end mem mem_count) new_line else same_line

unfoldable pub extract_response_codes_smtp : Bytes → List ℕ
unfolding scan atoi
extract_response_codes_smtp buf = 0 ∷ scan smtp_line (λ i. 0) 0 buf

unfoldable pub extract_response_codes_ftp : Bytes → List ℕ
unfolding scan atoi
extract_response_codes_ftp buf = 0 ∷ scan smtp_line (λ i. 0) 0 buf

unfoldable pub extract_response_codes_rtsp : Bytes → List ℕ
unfolding scan atoi
extract_response_codes_rtsp buf = 0 ∷ scan rtsp_line (λ i. 0) 0 buf
