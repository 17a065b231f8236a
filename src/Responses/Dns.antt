-- ===== src/Responses/Dns.antt =====
-- `extract_response_codes_dns` (aflnet.c): one code where a question's name ends.
pub mod Answers
use aflnet_legion.Common.{
  ℕ, zero, suc, ◌+◌, ◌-◌, ◌*◌, ◌%◌, List, [], ◌∷◌, ltb, if◌then◌else◌, Bytes, Array, write, u32_mod,
}
use aflnet_legion.Requests.Dns.{ends_name}

-- An element of the `char` array `mem`, which is signed on the x86 targets, as an `unsigned int`.
abbrev pub char_value : ℕ → ℕ
char_value b = if ltb b 128 then b else u32_mod - 256 + b

-- `(unsigned int) ((mem[2] << 8) + mem[3])`
abbrev pub message_code : Array → ℕ
message_code mem = (char_value (mem 2) * 256 + char_value (mem 3)) % u32_mod

-- The `for` over the bytes from `byte_count` on. The first argument counts the bytes behind the
-- null byte that are passed without being read.
unfoldable pub scan : ℕ → Array → ℕ → Bytes → List ℕ
scan skipping mem mem_count [] = []
scan (suc skipping) mem mem_count (b ∷ bs) = scan skipping mem mem_count bs
scan zero mem₀ mem_count (b ∷ bs) =
    let mem = write mem₀ mem_count b in
    let after_name = scan 5 mem 0 bs in
    let next = scan 0 mem (mem_count + 1) bs in
    if ends_name mem mem_count then message_code mem ∷ after_name else next

unfoldable pub extract_response_codes_dns : Bytes → List ℕ
unfolding scan
extract_response_codes_dns buf = 0 ∷ scan 0 (λ i. 0) 0 buf
