-- ===== src/Responses/Tls/Termination.antt =====
-- The loop over TLS records ends on every buffer.
use aflnet_legion.Common.{
  ℕ, zero, suc, ◌+◌, ◌-◌, ◌*◌, ◌≤◌, ◌<◌, ◌≡◌, refl, true, Option, some, List, [], ◌∷◌, leb,
  if◌then◌else◌, length, Bytes, be16, sub32, arith, dec_lt, lt→ltb,
}
use aflnet_legion.Requests.Framed.Records.{skip-min}
use aflnet_legion.Responses.Tls.{
  Reader, start, read, message_code, after_payload, next_record, store, loop,
  extract_response_codes_tls,
}

module _ (buf : Bytes) (n : ℕ) where
  pub loop-over : (f : ℕ) (s : Reader) → n ≤ s.byte_count → loop (suc f) buf n s ≡ some []
  unfolding loop
  loop-over f s h = ground arith

  pub loop-byte :
      (f : ℕ) (s : Reader)
      → s.byte_count < n
      → s.mem_count < 6
      → loop (suc f) buf n s ≡ loop f buf n (record (read buf s) { mem_count = s.mem_count + 1 })
  unfolding loop
  loop-byte f s h m = ground arith

  pub loop-record :
      (f : ℕ) (s : Reader)
      → s.byte_count < n
      → 6 ≤ s.mem_count
      → loop (suc f) buf n s
        ≡ store (message_code (read buf s).mem) (loop f buf n (next_record n (read buf s)))
  unfolding loop
  loop-record f s h m =
      let full : leb 6 s.mem_count ≡ true = ground arith in
      rw (lt→ltb s.byte_count n h, loop, full) refl

  after_payload-ge : (size at : ℕ) → at ≤ n → at ≤ after_payload n size at + 1
  unfolding after_payload
  after_payload-ge size at h = rw (skip-min n (sub32 size 1) at 0 h) (ground arith)

  -- What is left to do, in rounds.
  abbrev weight : Reader → ℕ
  weight s = 2 * (n - s.byte_count) + (if leb 6 s.mem_count then 1 else 0)

  store-some :
      (code : ℕ) (o : Option (List ℕ))
      → (codes : List ℕ) × (o ≡ some codes)
      → (codes : List ℕ) × (store code o ≡ some codes)
  store-some code o (codes, e) = (code ∷ codes, rw e refl)

  loop-some : (f : ℕ) (s : Reader) → weight s < f → (codes : List ℕ) × (loop f buf n s ≡ some codes)
  loop-some zero s w = absurd (omega arith)
  loop-some (suc f) s w = elim (dec_lt s.byte_count n) [
    | no over ↦ ([], loop-over f s (omega arith))
    | yes inside ↦ elim (dec_lt s.mem_count 6) [
      | yes few ↦
          let s' : Reader = record (read buf s) { mem_count = s.mem_count + 1 } in
          let less : weight s' < f = ground arith in
          rw (loop-byte f s inside few) (loop-some f s' less)
      | no full ↦
          let s' : Reader = next_record n (read buf s) in
          let more =
            after_payload-ge (be16 ((read buf s).mem 3) ((read buf s).mem 4)) (s.byte_count + 1)
              (omega arith) in
          let less : weight s' < f = ground arith in
          rw (loop-record f s inside (omega arith))
            (store-some (message_code (read buf s).mem) (loop f buf n s') (loop-some f s' less))
    ]
  ]

-- For every buffer, the TLS extractor of response codes returns, with the initial state 0 first.
pub extract_response_codes_tls-returns :
    (buf : Bytes) → (codes : List ℕ) × (extract_response_codes_tls buf ≡ some (0 ∷ codes))
unfolding extract_response_codes_tls
extract_response_codes_tls-returns buf =
    let (codes, e) = loop-some buf (length buf) (2 * length buf + 2) start (omega arith) in
    (codes, rw e refl)
