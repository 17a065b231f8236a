-- ===== src/Responses/Tls.antt =====
-- `extract_response_codes_tls` (aflnet.c), which reads seven bytes of a record before it looks at
-- them, and `extract_response_codes_dicom`.
pub mod Termination
pub mod Records
use aflnet_legion.Common.{
  ℕ, zero, suc, ◌+◌, ◌-◌, ◌*◌, Bool, true, false, Option, none, some, List, [], ◌∷◌, ◌==◌, ltb, leb,
  if◌then◌else◌, length, get_or, Bytes, Array, write, be16, sub32,
}
use aflnet_legion.Requests.Framed.{skip}

-- The loop's variables. `mem` holds the bytes of the current record, and older ones behind them.
pub record Reader : Type 0 where
  pub byte_count : ℕ
  pub mem : Array
  pub mem_count : ℕ

abbrev pub start : Reader
start = record { byte_count = 0; mem = λ i. 0; mem_count = 0 }

-- `memcpy(&mem[mem_count], buf + byte_count++, 1)`
abbrev pub read : Bytes → Reader → Reader
read buf s = record s {
  byte_count = s.byte_count + 1;
  mem = write s.mem s.mem_count (get_or buf s.byte_count 0);
}

-- `(content_type << 8) + message_type`; the type of application data is not looked at.
abbrev pub message_code : Array → ℕ
message_code mem = mem 0 * 256 + (if mem 0 == 0x17 then 0xFF else mem 5)

-- `byte_count` behind the loop that skips the payload, and a step back within the buffer. The number
-- of bytes to skip, `message_size - 1`, wraps for an empty payload.
unfoldable pub after_payload : ℕ → ℕ → ℕ → ℕ
unfolding skip
after_payload buf_size message_size byte_count =
    let behind = (skip buf_size (sub32 message_size 1) byte_count 0).0 in
    if ltb behind buf_size then behind - 1 else behind

abbrev pub next_record : ℕ → Reader → Reader
next_record buf_size s = record s {
  byte_count = after_payload buf_size (be16 (s.mem 3) (s.mem 4)) s.byte_count;
  mem_count = 0;
}

abbrev pub store : ℕ → Option (List ℕ) → Option (List ℕ)
store code none = none
store code (some codes) = some (code ∷ codes)

-- `while (byte_count < buf_size)`, with fuel; `none` means that the fuel ran out.
unfoldable pub loop : ℕ → Bytes → ℕ → Reader → Option (List ℕ)
unfolding after_payload
loop zero buf buf_size s = none
loop (suc fuel) buf buf_size s₀ = elim (ltb s₀.byte_count buf_size) [
  | false ↦ some []
  | true ↦
      (let s = read buf s₀ in
        elim (leb 6 s.mem_count) [
          | true ↦ store (message_code s.mem) (loop fuel buf buf_size (next_record buf_size s))
          | false ↦ loop fuel buf buf_size (record s { mem_count = s.mem_count + 1 })
        ])
]

-- A round takes a byte or starts a record without one: two rounds a byte are enough.
unfoldable pub extract_response_codes_tls : Bytes → Option (List ℕ)
unfolding loop
extract_response_codes_tls buf = store 0 (loop (2 * length buf + 2) buf (length buf) start)

unfoldable pub extract_response_codes_dicom : Bytes → List ℕ
extract_response_codes_dicom [] = []
extract_response_codes_dicom (pdu_type ∷ rest) = 0 ∷ pdu_type ∷ []
