-- ===== src/Responses/Dns/Answers.antt =====
-- What the DNS extractor of response codes returns for a response with a short answer.
use aflnet_legion.Common.{
  ℕ, zero, suc, ◌+◌, ◌*◌, ◌%◌, ◌^◌, ◌≤◌, ◌<◌, ◌≡◌, refl, ap, ◌∙◌, true, [], ◌∷◌, ◌++◌, length,
  Bytes, Array, write, fill, fill_before, u32_mod, arith,
}
use aflnet_legion.Requests.Dns.{ends_name}
use aflnet_legion.Requests.Dns.Queries.{NoNull}
use aflnet_legion.Responses.Dns.{char_value, message_code, scan, extract_response_codes_dns}

scan-header :
    (bs rest : Bytes) (mem : Array) (k : ℕ)
    → k + length bs ≤ 12
    → scan 0 mem k (bs ++ rest) ≡ scan 0 (fill mem k bs) (k + length bs) rest
unfolding scan
scan-header [] rest mem k h = ground arith
scan-header (b ∷ bs) rest mem k h =
    ground (arith, scan-header bs rest (write mem k b) (k + 1) (omega arith))

scan-name :
    (bs rest : Bytes) (mem : Array) (k : ℕ)
    → NoNull bs
    → scan 0 mem k (bs ++ rest) ≡ scan 0 (fill mem k bs) (k + length bs) rest
unfolding scan
scan-name [] rest mem k h = ground arith
scan-name (b ∷ bs) rest mem k h = ground (arith, scan-name bs rest (write mem k b) (k + 1) h.1)

scan-null :
    (rest : Bytes) (mem : Array) (k : ℕ)
    → 12 ≤ k
    → scan 0 mem k (0 ∷ rest) ≡ message_code (write mem k 0) ∷ scan 5 (write mem k 0) 0 rest
unfolding scan
scan-null rest mem k h =
    let ends : ends_name (write mem k 0) k ≡ true = ground arith in rw ends refl

scan-short :
    (bs : Bytes) (skipping : ℕ) (mem : Array) (k : ℕ)
    → k + length bs ≤ 12 + skipping
    → scan skipping mem k bs ≡ []
unfolding scan
scan-short [] skipping mem k h = refl
scan-short (b ∷ bs) (suc skipping) mem k h = scan-short bs skipping mem k (omega arith)
scan-short (b ∷ bs) zero mem k h =
    ground (arith, scan-short bs 0 (write mem k b) (k + 1) (omega arith))

module _ (a b c d : ℕ) (more name rest : Bytes) (eight : length more ≡ 8) (bytes : NoNull name)
    (short : length rest ≤ 17) where
  abbrev response : Bytes
  response = (a ∷ b ∷ c ∷ d ∷ more) ++ (name ++ 0 ∷ rest)

  abbrev four : Array
  four = write (write (write (write (λ i. 0) 0 a) 1 b) 2 c) 3 d

  abbrev at_null : Array
  at_null = write (fill (fill (λ i. 0) 0 (a ∷ b ∷ c ∷ d ∷ more)) 12 name) (12 + length name) 0

  at_null_lem : (j : ℕ) → j < 4 → at_null j ≡ four j
  at_null_lem j h =
      fill_before (0 ∷ []) (fill (fill (λ i. 0) 0 (a ∷ b ∷ c ∷ d ∷ more)) 12 name)
        (12 + length name) j (omega arith)
      ∙ fill_before name (fill (λ i. 0) 0 (a ∷ b ∷ c ∷ d ∷ more)) 12 j (omega arith)
      ∙ fill_before more four 4 j h

  scan-response : scan 0 (λ i. 0) 0 response ≡ ((char_value c * 256 + char_value d) % u32_mod) ∷ []
  scan-response =
      let size : 0 + length (a ∷ b ∷ c ∷ d ∷ more) ≡ 12 = omega arith in
      let skipped : scan 5 at_null 0 rest ≡ [] = scan-short rest 5 at_null 0 (omega arith) in
      scan-header (a ∷ b ∷ c ∷ d ∷ more) (name ++ 0 ∷ rest) (λ i. 0) 0 (omega arith)
      ∙ rw size (scan-name name (0 ∷ rest) (fill (λ i. 0) 0 (a ∷ b ∷ c ∷ d ∷ more)) 12 bytes)
      ∙ scan-null rest (fill (fill (λ i. 0) 0 (a ∷ b ∷ c ∷ d ∷ more)) 12 name) (12 + length name)
          (omega arith)
      ∙ rw (skipped, at_null_lem 2 (omega arith), at_null_lem 3 (omega arith)) refl

-- For a response with a header of twelve bytes, whose third and fourth byte, the flags, are below
-- 128, a name without null bytes and its null byte, and at most 17 bytes behind it: the DNS
-- extractor returns the initial state and one code, the 16-bit number of the flags.
pub extract_response_codes_dns-flags :
    (a b c d : ℕ) (more name rest : Bytes)
    → length more ≡ 8
    → NoNull name
    → length rest ≤ 17
    → c < 128
    → d < 128
    → extract_response_codes_dns ((a ∷ b ∷ c ∷ d ∷ more) ++ (name ++ 0 ∷ rest))
      ≡ 0 ∷ (c * 256 + d) ∷ []
unfolding extract_response_codes_dns
extract_response_codes_dns-flags a b c d more name rest eight bytes short p q =
    let code : (char_value c * 256 + char_value d) % u32_mod ≡ c * 256 + d = ground arith in
    ap (◌∷◌ 0) (scan-response a b c d more name rest eight bytes short ∙ rw code refl)

-- For a response with a header of twelve bytes, whose third byte has the highest bit, as the flags
-- of every response have, a name without null bytes and its null byte, and at most 17 bytes behind
-- it: the one code that is stored behind the initial state is from 2 ^ 31 on, and so is not the
-- 16-bit number of the flags.
pub extract_response_codes_dns-signed :
    (a b c d : ℕ) (more name rest : Bytes)
    → length more ≡ 8
    → NoNull name
    → length rest ≤ 17
    → 128 ≤ c
    → c < 256
    → d < 256
    → (code : ℕ) × (extract_response_codes_dns ((a ∷ b ∷ c ∷ d ∷ more) ++ (name ++ 0 ∷ rest))
        ≡ 0 ∷ code ∷ [])
      × (2 ^ 31 ≤ code)
unfolding extract_response_codes_dns
extract_response_codes_dns-signed a b c d more name rest eight bytes short high p q =
    let large : 2 ^ 31 ≤ (char_value c * 256 + char_value d) % u32_mod = ground arith in
    (
      (char_value c * 256 + char_value d) % u32_mod,
      ap (◌∷◌ 0) (scan-response a b c d more name rest eight bytes short),
      large,
    )
