-- ===== src/Requests/Framed.antt =====
-- `extract_requests_tls` and `extract_requests_ssh` (aflnet.c): messages whose header says how long
-- they are. The two loops differ in what they do once a header is complete.
-- Offsets stay at most `buf_size`, an `unsigned int`, so that none of the counters wraps.
pub mod Tiling
pub mod Records
use aflnet_legion.Common.{
  ℕ, zero, suc, ◌+◌, ◌-◌, ◌*◌, Bool, true, false, ◌&&◌, Option, none, some, List, [], ◌∷◌, ◌==◌,
  ltb, leb, if◌then◌else◌, length, get_or, Bytes, Array, write, be16, be32, sub32, add32,
}
use aflnet_legion.Region.{Region, region, or_whole}

-- The loop's variables. `mem` holds the bytes of the current message, and older ones behind them.
pub record Cursor : Type 0 where
  pub byte_count : ℕ
  pub mem : Array
  pub mem_count : ℕ
  pub cur_start : ℕ
  pub cur_end : ℕ

abbrev pub start : Cursor
start = record { byte_count = 0; mem = λ i. 0; mem_count = 0; cur_start = 0; cur_end = 0 }

-- One round of the loop: it goes on, goes on with a region more, or breaks with a last region.
pub data Round : Type 0 where
  go_on : Cursor → Round
  emit : Region → Cursor → Round
  break_with : Region → Round

-- `memcpy(&mem[mem_count], buf + byte_count++, 1)`
abbrev pub read : Bytes → Cursor → Cursor
read buf s = record s {
  byte_count = s.byte_count + 1;
  mem = write s.mem s.mem_count (get_or buf s.byte_count 0);
}

-- The loop that skips the payload: `byte_count` and `cur_end` after it, for `bytes_to_skip` rounds.
unfoldable pub skip : ℕ → ℕ → ℕ → ℕ → ℕ × ℕ
skip buf_size zero byte_count cur_end = (byte_count, cur_end)
skip buf_size (suc left) byte_count cur_end = elim (ltb byte_count buf_size) [
  | true ↦ skip buf_size left (byte_count + 1) (cur_end + 1)
  | false ↦ (byte_count, cur_end)
]

-- `if (byte_count < buf_size) { byte_count--; cur_end--; }`
abbrev pub step_back : ℕ → ℕ × ℕ → ℕ × ℕ
step_back buf_size (byte_count, cur_end) =
    if ltb byte_count buf_size then (byte_count - 1, cur_end - 1) else (byte_count, cur_end)

-- `if (cur_end < buf_size - 1) { mem_count = 0; cur_start = cur_end + 1; cur_end = cur_start; }`
abbrev pub after_region : ℕ → Cursor → Cursor
after_region buf_size s =
    if ltb s.cur_end (buf_size - 1)
    then record s { mem_count = 0; cur_start = s.cur_end + 1; cur_end = s.cur_end + 1 }
    else s

-- The region that ends at `cur_end`, and the state behind it.
abbrev pub close : ℕ → Cursor → Round
close buf_size s = emit (region s.cur_start s.cur_end) (after_region buf_size s)

-- A header is complete: skip what it announces, and close the region.
unfoldable pub skip_payload : ℕ → ℕ → Cursor → Round
unfolding skip
skip_payload buf_size bytes_to_skip s =
    let (byte_count, cur_end) =
      step_back buf_size (skip buf_size bytes_to_skip s.byte_count s.cur_end) in
    close buf_size (record s { byte_count = byte_count; cur_end = cur_end })

-- The header is not complete yet.
unfoldable pub next_byte : ℕ → Cursor → Round
next_byte buf_size s =
    let s' = record s { mem_count = s.mem_count + 1; cur_end = s.cur_end + 1 } in
    if s'.cur_end == buf_size - 1 then break_with (region s'.cur_start s'.cur_end) else go_on s'

-- TLS: a header of 5 bytes, of which the last two are the payload's size.
unfoldable pub tls_round : Bytes → ℕ → Cursor → Round
unfolding skip_payload next_byte
tls_round buf buf_size s₀ =
    let s = read buf s₀ in
    if leb 5 s.mem_count
    then skip_payload buf_size (be16 (s.mem 3) (s.mem 4)) s
    else next_byte buf_size s

-- SSH identification: read on to CR LF. The first argument is `buf_size - byte_count`.
pub find_terminator : ℕ → Bytes → Cursor → Cursor
find_terminator zero buf s = s
find_terminator (suc left) buf s =
    elim (s.mem (s.mem_count - 1) == 0x0D && s.mem s.mem_count == 0x0A) [
      | true ↦ s
      | false ↦ find_terminator left buf (record s {
        mem_count = s.mem_count + 1;
        mem = write s.mem (s.mem_count + 1) (get_or buf s.byte_count 0);
        byte_count = s.byte_count + 1;
        cur_end = s.cur_end + 1;
      })
    ]

-- `!strncmp(mem, "SSH-", 4)`
abbrev pub is_identification : Array → Bool
is_identification mem = mem 0 == b'S' && mem 1 == b'S' && mem 2 == b'H' && mem 3 == b'-'

-- `message_size - 2`, and 8 more for the MAC unless the message belongs to the key exchange.
abbrev pub ssh_bytes_to_skip : ℕ → ℕ → ℕ
ssh_bytes_to_skip message_size message_code =
    if leb 20 message_code && leb message_code 49
    then sub32 message_size 2
    else add32 (sub32 message_size 2) 8

unfoldable pub ssh_round : Bytes → ℕ → Cursor → Round
unfolding skip_payload next_byte find_terminator
ssh_round buf buf_size s₀ =
    let s = read buf s₀ in
    if leb 6 s.mem_count
    then if is_identification s.mem
      then close buf_size (find_terminator (buf_size - s.byte_count) buf s)
      else skip_payload buf_size
          (ssh_bytes_to_skip (be32 (s.mem 0) (s.mem 1) (s.mem 2) (s.mem 3)) (s.mem 5)) s
    else next_byte buf_size s

abbrev pub found : Region → Option (List Region) → Option (List Region)
found r none = none
found r (some rs) = some (r ∷ rs)

-- What a round leads to, with the rest of the loop as a function.
abbrev pub resume : (Cursor → Option (List Region)) → Round → Option (List Region)
resume rest (go_on s) = rest s
resume rest (emit r s) = found r (rest s)
resume rest (break_with r) = some (r ∷ [])

-- `while (byte_count < buf_size)`, with fuel; `none` means that the fuel ran out.
unfoldable pub loop : (Cursor → Round) → ℕ → ℕ → Cursor → Option (List Region)
loop round buf_size zero s = none
loop round buf_size (suc fuel) s = elim (ltb s.byte_count buf_size) [
  | false ↦ some []
  | true ↦ resume (loop round buf_size fuel) (round s)
]

abbrev pub close_list : ℕ → Option (List Region) → Option (List Region)
close_list buf_size none = none
close_list buf_size (some rs) = some (or_whole buf_size rs)

-- A round either takes a byte or starts a new message without one: two rounds a byte are enough.
abbrev pub rounds : ℕ → ℕ
rounds buf_size = 2 * buf_size + 2

unfoldable pub extract_requests_tls : Bytes → Option (List Region)
unfolding loop tls_round or_whole
extract_requests_tls buf =
    close_list (length buf)
      (loop (tls_round buf (length buf)) (length buf) (rounds (length buf)) start)

unfoldable pub extract_requests_ssh : Bytes → Option (List Region)
unfolding loop ssh_round or_whole
extract_requests_ssh buf =
    close_list (length buf)
      (loop (ssh_round buf (length buf)) (length buf) (rounds (length buf)) start)
