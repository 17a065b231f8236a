-- ===== src/Responses/Dtls.antt =====
-- `extract_response_codes_dtls12` and `read_bytes_to_uint32` (aflnet.c).
pub mod Termination
use aflnet_legion.Common.{
  ℕ, zero, suc, ◌+◌, ◌-◌, ◌*◌, Bool, true, false, ◌&&◌, Option, none, some, List, [], ◌∷◌, ◌==◌,
  ltb, leb, if◌then◌else◌, length, get_elem?, Bytes, sub32, add32, u32_mod, ◌%◌, max_alloc,
}
use aflnet_legion.Requests.Dtls.{is_content_type}

-- A run that ends, that reads behind the buffer, that `ck_realloc` aborts, or that has used up its
-- fuel.
pub data Run : Type 0 where
  done : List ℕ → Run
  out_of_bounds : Run
  aborted : Run
  no_fuel : Run

infixl 5 ◌>>=◌
abbrev pub ◌>>=◌ {ℓ κ} : {A : Type ℓ} {B : Type κ} → Option A → (A → Option B) → Option B
none >>= f = none
some a >>= f = f a

-- `read_bytes_to_uint32`: big-endian, and modulo 2 ^ 32. The first argument counts the bytes.
unfoldable pub read_bytes : ℕ → Bytes → ℕ → ℕ → Option ℕ
read_bytes zero buf offset val = some val
read_bytes (suc n) buf offset val = elim (get_elem? buf offset) [
  | none ↦ none
  | some b ↦ read_bytes n buf (offset + 1) (add32 (val * 256 % u32_mod) b)
]

unfoldable pub read_bytes_to_uint32 : Bytes → ℕ → ℕ → Option ℕ
unfolding read_bytes
read_bytes_to_uint32 buf offset num_bytes = read_bytes num_bytes buf offset 0

abbrev pub unknown_message_type : ℕ
unknown_message_type = 0xFF

abbrev pub malformed_message_type : ℕ
malformed_message_type = 0xFE

-- The cases `HS_CONTENT_TYPE`, `CCS_CONTENT_TYPE` and `ALERT_CONTENT_TYPE` of the switch.
unfoldable pub handshake_type : Bytes → ℕ → ℕ → Option ℕ
unfolding read_bytes_to_uint32
handshake_type buf at record_length = get_elem? buf (at + 13) >>= λ hs_msg_type.
    if leb 12 record_length
    then (read_bytes_to_uint32 buf (at + 22) 3 >>= λ frag_length.
        some (if sub32 record_length frag_length == 12 then hs_msg_type else unknown_message_type))
    else some malformed_message_type

unfoldable pub exact_type : Bytes → ℕ → ℕ → ℕ → Option ℕ
exact_type buf at record_length size =
    if record_length == size
    then get_elem? buf (at + 12 + size)
    else if ltb size record_length
    then some unknown_message_type
    else some malformed_message_type

-- The message type of a record at `at`. The test for a record that exceeds the buffer compares an
-- unsigned difference with 0. The switch's default case is left out: `is_content_type` holds here.
unfoldable pub message_type : Bytes → ℕ → ℕ → ℕ → ℕ → Option ℕ
unfolding handshake_type exact_type
message_type buf buf_size at content_type record_length =
    if ltb (sub32 (sub32 (sub32 buf_size at) 13) record_length) 0
    then some malformed_message_type
    else if content_type == 0x16
    then handshake_type buf at record_length
    else if content_type == 0x14
    then exact_type buf at record_length 1
    else if content_type == 0x15
    then exact_type buf at record_length 2
    else if content_type == 0x17
    then some unknown_message_type
    else if leb 3 record_length
    then some unknown_message_type
    else some malformed_message_type

-- The bytes at `at` begin a record: its header and one byte more lie in the buffer, and it has a
-- content type and the version of DTLS 1.2.
abbrev pub is_byte : Bytes → ℕ → (ℕ → Bool) → Bool
is_byte buf i test = elim (get_elem? buf i) [ none ↦ false | some b ↦ test b ]

unfoldable pub is_record : Bytes → ℕ → ℕ → Bool
is_record buf buf_size at =
    ltb 13 (buf_size - at)
    && is_byte buf at is_content_type
    && is_byte buf (at + 1) (λ b. b == 0xFE)
    && is_byte buf (at + 2) (λ b. b == 0xFD)

-- A record's content type, length and status code.
pub record Header : Type 0 where
  pub record_length : ℕ
  pub status_code : ℕ

unfoldable pub header : Bytes → ℕ → ℕ → Option Header
unfolding message_type
header buf buf_size at = do
  content_type ← get_elem? buf at
  record_length ← read_bytes_to_uint32 buf (at + 11) 2
  m ← message_type buf buf_size at content_type record_length
  some (record { record_length = record_length; status_code = content_type * 256 + m })

abbrev pub push : ℕ → Run → Run
push code (done codes) = done (code ∷ codes)
push code out_of_bounds = out_of_bounds
push code aborted = aborted
push code no_fuel = no_fuel

-- The code is stored in an array of `unsigned int`, which grows by one element.
abbrev pub next_record : (ℕ → ℕ → Run) → ℕ → ℕ → Option Header → Run
next_record rest at state_count none = out_of_bounds
next_record rest at state_count (some h) =
    let later = rest (add32 at h.record_length) (state_count + 1) in
    if ltb max_alloc ((state_count + 1) * 4) then aborted else push h.status_code later

-- The loop from `byte_count` and `state_count` on, for at most so many rounds.
unfoldable pub loop : ℕ → Bytes → ℕ → ℕ → ℕ → Run
unfolding header is_record
loop zero buf buf_size at state_count = no_fuel
loop (suc fuel) buf buf_size at state_count = elim (ltb at buf_size) [
  | false ↦ done []
  | true ↦ elim (is_record buf buf_size at) [
    | true ↦ next_record (loop fuel buf buf_size) at state_count (header buf buf_size at)
    | false ↦ loop fuel buf buf_size (at + 1) state_count
  ]
]

unfoldable pub extract_response_codes_dtls12 : ℕ → Bytes → Run
unfolding loop
extract_response_codes_dtls12 fuel buf = push 0 (loop fuel buf (length buf) 0 1)
