-- ===== src/Requests/Lines.antt =====
-- `extract_requests_smtp`, `extract_requests_ftp` and `extract_requests_rtsp` (aflnet.c): messages
-- that end in a terminator. The three loops differ in the terminator's test alone. Offsets stay at
-- most `buf_size`, an `unsigned int`, so that none of the counters wraps.
pub mod Tiling
pub mod RoundTrip
pub mod Headers
use aflnet_legion.Common.{
  ℕ, ◌+◌, ◌-◌, Bool, ◌&&◌, List, [], ◌∷◌, ◌==◌, ltb, if◌then◌else◌, length, Bytes, Array, write,
}
use aflnet_legion.Region.{Region, region, or_whole}

-- The loop's variables. `mem` holds the bytes of the current message, and older ones behind them.
pub record Scan : Type 0 where
  pub mem : Array
  pub mem_count : ℕ
  pub cur_start : ℕ
  pub cur_end : ℕ

abbrev pub start : Scan
start = record { mem = λ i. 0; mem_count = 0; cur_start = 0; cur_end = 0 }

-- `(mem_count > 1) && (memcmp(&mem[mem_count - 1], terminator, 2) == 0)`
unfoldable pub ends_line : Array → ℕ → Bool
ends_line mem mem_count = ltb 1 mem_count && mem (mem_count - 1) == 0x0D && mem mem_count == 0x0A

-- `(mem_count > 3) && (memcmp(&mem[mem_count - 3], terminator, 4) == 0)`
unfoldable pub ends_header : Array → ℕ → Bool
ends_header mem mem_count =
    ltb 3 mem_count
    && mem (mem_count - 3) == 0x0D
    && mem (mem_count - 2) == 0x0A
    && mem (mem_count - 1) == 0x0D
    && mem mem_count == 0x0A

-- `mem_count = 0; cur_start = cur_end + 1; cur_end = cur_start`
abbrev pub next_message : Array → Scan → Scan
next_message mem s = record {
  mem = mem;
  mem_count = 0;
  cur_start = s.cur_end + 1;
  cur_end = s.cur_end + 1;
}

-- `mem_count++; cur_end++`
abbrev pub advance : Array → Scan → Scan
advance mem s = record s { mem = mem; mem_count = s.mem_count + 1; cur_end = s.cur_end + 1 }

-- The `while` over the bytes that are left, with the terminator's test as a parameter.
unfoldable pub scan : (Array → ℕ → Bool) → ℕ → Scan → Bytes → List Region
scan ends buf_size s [] = []
scan ends buf_size s (b ∷ bs) =
    let mem = write s.mem s.mem_count b in
    let after_message = scan ends buf_size (next_message mem s) bs in
    let advanced = scan ends buf_size (advance mem s) bs in
    if ends mem s.mem_count
    then region s.cur_start s.cur_end ∷ after_message
    else if s.cur_end + 1 == buf_size - 1
    then region s.cur_start (s.cur_end + 1) ∷ []
    else advanced

unfoldable pub extract_requests_smtp : Bytes → List Region
unfolding scan ends_line or_whole
extract_requests_smtp buf = or_whole (length buf) (scan ends_line (length buf) start buf)

unfoldable pub extract_requests_ftp : Bytes → List Region
unfolding scan ends_line or_whole
extract_requests_ftp buf = or_whole (length buf) (scan ends_line (length buf) start buf)

unfoldable pub extract_requests_rtsp : Bytes → List Region
unfolding scan ends_header or_whole
extract_requests_rtsp buf = or_whole (length buf) (scan ends_header (length buf) start buf)
