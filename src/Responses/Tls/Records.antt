-- ===== src/Responses/Tls/Records.antt =====
-- What the TLS extractor of response codes reports for a sequence of records.
use Prim.Native.Nat.{min}
use mathlib.Core.List.{append-nil, append_assoc}
use aflnet_legion.Common.{
  ℕ, zero, suc, ◌+◌, ◌-◌, ◌*◌, ◌≤◌, ◌<◌, ◌≡◌, refl, sym, ap, ◌∙◌, false, some, List, [], ◌∷◌, ◌++◌,
  map, ltb, if◌then◌else◌, ◌==◌, length, length-append, get_or, Bytes, Array, be16, sub32, arith,
  dec_lt, lt→ltb,
}
use aflnet_legion.Region.{concat}
use aflnet_legion.Requests.Framed.Records.{skip-min, TlsRecord, encode, get_or-append}
use aflnet_legion.Responses.Tls.{
  Reader, read, message_code, after_payload, store, loop, extract_response_codes_tls,
}
use aflnet_legion.Responses.Tls.Termination.{loop-over, loop-byte, loop-record}

-- The code of a record: its content type and the first byte of its payload, or 255 for application
-- data.
abbrev pub code_of : TlsRecord → ℕ
code_of r = r.content_type * 256 + (if r.content_type == 0x17 then 0xFF else get_or r.payload 0 0)

abbrev pub AllNonempty : List TlsRecord → Type 0
AllNonempty [] = Unit {0}
AllNonempty (r ∷ rs) = (1 ≤ length r.payload) × AllNonempty rs

-- The codes of the records but of a last one whose payload is a single byte.
abbrev pub reported : List TlsRecord → List ℕ
reported [] = []
reported (r ∷ []) = if ltb 1 (length r.payload) then code_of r ∷ [] else []
reported (r ∷ q ∷ rs) = code_of r ∷ reported (q ∷ rs)

module _ (buf : Bytes) (n : ℕ) where
  abbrev at_start : Array → ℕ → Reader
  at_start mem at = record { byte_count = at; mem = mem; mem_count = 0 }

  abbrev taken : Reader → Reader
  taken s = record (read buf s) { mem_count = s.mem_count + 1 }

  abbrev taken6 : Reader → Reader
  taken6 s = taken (taken (taken (taken (taken (taken s)))))

  header :
      (f : ℕ) (mem : Array) (at : ℕ)
      → at + 6 ≤ n
      → loop (suc (suc (suc (suc (suc (suc f)))))) buf n (at_start mem at)
        ≡ loop f buf n (taken6 (at_start mem at))
  header f mem at h =
      loop-byte buf n _ _ (omega arith) (omega arith)
      ∙ loop-byte buf n _ _ (omega arith) (omega arith)
      ∙ loop-byte buf n _ _ (omega arith) (omega arith)
      ∙ loop-byte buf n _ _ (omega arith) (omega arith)
      ∙ loop-byte buf n _ _ (omega arith) (omega arith)
      ∙ loop-byte buf n _ _ (omega arith) (omega arith)

  abbrev mem7 : Array → ℕ → Array
  mem7 mem at = (read buf (taken6 (at_start mem at))).mem

  -- What the buffer has at a record: its content type, size and the byte behind the header.
  abbrev Announces : ℕ → TlsRecord → Type 0
  Announces at r =
      (get_or buf at 0 ≡ r.content_type)
      × (be16 (get_or buf (at + 3) 0) (get_or buf (at + 4) 0) ≡ length r.payload)
      × (get_or buf (at + 5) 0 ≡ get_or r.payload 0 0)

  mem7_lem :
      (mem : Array) (at : ℕ) (r : TlsRecord)
      → Announces at r
      → (message_code (mem7 mem at) ≡ code_of r)
        × (be16 (mem7 mem at 3) (mem7 mem at 4) ≡ length r.payload)
  mem7_lem mem at r a =
      let e3 : at + 1 + 1 + 1 ≡ at + 3 = omega arith in
      let e4 : at + 1 + 1 + 1 + 1 ≡ at + 4 = omega arith in
      let e5 : at + 1 + 1 + 1 + 1 + 1 ≡ at + 5 = omega arith in
      (rw (e5, a.0, a.2) refl, rw (e4, e3) (a.1))

  after_payload-more :
      (size at : ℕ)
      → 1 ≤ size
      → size < 65536
      → 1 ≤ at
      → at + size - 1 < n
      → after_payload n size at ≡ at + size - 2
  unfolding after_payload
  after_payload-more size at s f o h =
      let left : sub32 size 1 ≡ size - 1 = omega arith in
      let m : min (size - 1) (n - at) ≡ size - 1 = omega arith in
      rw (left, skip-min n (size - 1) at 0 (omega arith), m) (ground arith)

  after_payload-last :
      (size at : ℕ)
      → 1 ≤ size
      → size < 65536
      → at ≤ n
      → n ≤ at + size - 1
      → after_payload n size at ≡ n
  unfolding after_payload
  after_payload-last size at s f o h =
      let left : sub32 size 1 ≡ size - 1 = omega arith in
      let m : min (size - 1) (n - at) ≡ n - at = omega arith in
      rw (left, skip-min n (size - 1) at 0 (omega arith), m) (ground arith)

  record_step :
      (f : ℕ) (mem : Array) (at : ℕ) (r : TlsRecord)
      → Announces at r
      → at + 7 ≤ n
      → loop (suc (suc (suc (suc (suc (suc (suc f))))))) buf n (at_start mem at)
        ≡ store
            (code_of r)
            (loop f buf n (at_start (mem7 mem at) (after_payload n (length r.payload) (at + 7))))
  record_step f mem at r a h =
      let (code, size) = mem7_lem mem at r a in
      let e7 : at + 1 + 1 + 1 + 1 + 1 + 1 + 1 ≡ at + 7 = omega arith in
      header (suc f) mem at (omega arith)
      ∙ loop-record buf n f (taken6 (at_start mem at)) (omega arith) (omega arith)
      ∙ rw (code, size, e7) refl

  -- The last record, with one byte of payload and with more.
  last_record :
      (f : ℕ) (mem : Array) (at : ℕ) (r : TlsRecord)
      → Announces at r
      → 1 ≤ length r.payload
      → n ≡ at + 5 + length r.payload
      → loop (suc (suc (suc (suc (suc (suc (suc (suc f)))))))) buf n (at_start mem at)
        ≡ some (reported (r ∷ []))
  last_record f mem at r a one e = elim (dec_lt 1 (length r.payload)) [
    | no single ↦
        let small : ltb 1 (length r.payload) ≡ false = ground arith in
        header (suc (suc f)) mem at (omega arith)
        ∙ loop-over buf n (suc f) (taken6 (at_start mem at)) (omega arith)
        ∙ rw small refl
    | yes more ↦
        let end =
          after_payload-last (length r.payload) (at + 7) one r.fits (omega arith) (omega arith) in
        record_step (suc f) mem at r a (omega arith)
        ∙ rw
            (
              end,
              loop-over buf n f (at_start (mem7 mem at) n) (omega arith),
              lt→ltb 1 (length r.payload) more,
            )
            refl
  ]

  inner_record :
      (f : ℕ) (mem : Array) (at : ℕ) (r : TlsRecord)
      → Announces at r
      → 1 ≤ length r.payload
      → at + 11 + length r.payload ≤ n
      → loop (suc (suc (suc (suc (suc (suc (suc f))))))) buf n (at_start mem at)
        ≡ store (code_of r) (loop f buf n (at_start (mem7 mem at) (at + (5 + length r.payload))))
  inner_record f mem at r a one h =
      let end =
        after_payload-more (length r.payload) (at + 7) one r.fits (omega arith) (omega arith) in
      let same : at + 7 + length r.payload - 2 ≡ at + (5 + length r.payload) = omega arith in
      record_step f mem at r a (omega arith) ∙ rw (end, same) refl

first_of : (xs ys : Bytes) → 1 ≤ length xs → get_or (xs ++ ys) 0 0 ≡ get_or xs 0 0
first_of [] ys h = absurd (omega arith)
first_of (x ∷ xs) ys h = refl

Announces-encode :
    (pre : Bytes) (r : TlsRecord) (rest : Bytes) (n : ℕ)
    → 1 ≤ length r.payload
    → Announces (pre ++ (encode r ++ rest)) n (length pre) r
Announces-encode pre r rest n one =
    let zeroth = get_or-append pre (encode r ++ rest) 0 in
    let none_more : length pre + 0 ≡ length pre = omega arith in
    rw (← none_more) (
      zeroth,
      rw (none_more, get_or-append pre (encode r ++ rest) 3, get_or-append pre (encode r ++ rest) 4)
          (let f = r.fits in omega arith),
      rw (none_more, get_or-append pre (encode r ++ rest) 5) (first_of r.payload rest one),
    )

records_reported :
    (rs : List TlsRecord) (pre : Bytes) (n f : ℕ) (mem : Array)
    → AllNonempty rs
    → n ≡ length (pre ++ concat (map encode rs))
    → 2 * (n - length pre) + 1 < f
    → loop f
        (pre ++ concat (map encode rs))
        n
        (at_start (pre ++ concat (map encode rs)) n mem (length pre))
      ≡ some (reported rs)
records_reported [] pre n zero mem h e w = absurd (omega arith)
records_reported [] pre n (suc f) mem h e w =
    loop-over _ n f _ (let s = rw (append-nil pre) at e in omega arith)
records_reported (r ∷ []) pre n f mem h e w =
    let one = h.0 in
    let size : n ≡ length pre + 5 + length r.payload =
      e ∙ length-append pre (encode r ++ []) ∙ rw (append-nil r.payload) (omega arith) in
    let fuel : f ≡ suc (suc (suc (suc (suc (suc (suc (suc (f - 8)))))))) = omega arith in
    rw fuel (
      last_record (pre ++ (encode r ++ [])) n (f - 8) mem (length pre) r
        (Announces-encode pre r [] n one) one size)
records_reported (r ∷ q ∷ rs) pre n f mem h e w =
    let rest = concat (map encode (q ∷ rs)) in
    let buf = pre ++ (encode r ++ rest) in
    let one = h.0 in
    let next_one = h.1.0 in
    let whole : (pre ++ encode r) ++ rest ≡ buf = append_assoc pre (encode r) rest in
    let at : length (pre ++ encode r) ≡ length pre + length (encode r) =
      length-append pre (encode r) in
    let size : n ≡ length pre + (length (encode r) + length rest) =
      e
      ∙ length-append pre (encode r ++ rest)
      ∙ ap (λ k. length pre + k) (length-append (encode r) rest) in
    let long : 6 ≤ length rest =
      let l = length-append (encode q) (concat (map encode rs)) in omega arith in
    let fuel : f ≡ suc (suc (suc (suc (suc (suc (suc (f - 7))))))) = omega arith in
    let five : 5 + length r.payload ≡ length (encode r) = omega arith in
    let ih =
      records_reported (q ∷ rs) (pre ++ encode r) n (f - 7) (mem7 buf n mem (length pre)) h.1
        (e ∙ ap length (sym whole)) (omega arith) in
    rw fuel (
      inner_record buf n (f - 7) mem (length pre) r (Announces-encode pre r rest n one) one
        (omega arith)
      ∙ rw five (ap (store (code_of r)) (rw at at (rw whole at ih))))

-- For a sequence of TLS records, none of them with an empty payload, the TLS extractor of response
-- codes returns the initial state and one code a record, the content type and the first byte of the
-- payload or 255 for application data, but nothing for a last record whose payload is one byte.
pub extract_response_codes_tls-records :
    (rs : List TlsRecord)
    → AllNonempty rs
    → extract_response_codes_tls (concat (map encode rs)) ≡ some (0 ∷ reported rs)
unfolding extract_response_codes_tls
extract_response_codes_tls-records rs h =
    let n = length (concat (map encode rs)) in
    rw (records_reported rs [] n (2 * n + 2) (λ i. 0) h refl (omega arith)) refl
