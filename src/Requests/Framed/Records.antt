-- ===== src/Requests/Framed/Records.antt =====
-- The TLS extractor undoes the concatenation of TLS records.
use Prim.Native.Nat.{min}
use mathlib.Core.List.{append-nil, append_assoc}
use native.Mathlib.Nat.{zero-add}
use aflnet_legion.Common.{
  ℕ, zero, suc, ◌+◌, ◌-◌, ◌*◌, ◌/◌, ◌%◌, ◌≤◌, ◌<◌, ◌≡◌, ◌≢◌, refl, sym, ap, ◌∙◌, dec_lt, some, List,
  [], ◌∷◌, ◌++◌, map, arith, length, length-append, get_or, Bytes, Array, be16,
}
use aflnet_legion.Region.{region, regions_of, concat}
use aflnet_legion.Requests.Framed.{
  Cursor, emit, read, skip, skip_payload, resume, tls_round, loop, found, rounds,
  extract_requests_tls,
}

-- Content type, version, and the payload, whose size the header can express.
pub record TlsRecord : Type 0 where
  pub content_type : ℕ
  pub major : ℕ
  pub minor : ℕ
  pub payload : Bytes
  pub fits : length payload < 65536

abbrev pub encode : TlsRecord → Bytes
encode r =
    r.content_type
    ∷ r.major
    ∷ r.minor
    ∷ (length r.payload / 256)
    ∷ (length r.payload % 256)
    ∷ r.payload

pub skip-min :
    (n left bc ce : ℕ)
    → bc ≤ n
    → skip n left bc ce ≡ (bc + min left (n - bc), ce + min left (n - bc))
unfolding skip
skip-min n zero bc ce h = ground arith
skip-min n (suc left) bc ce h = ground (arith, skip-min n left (bc + 1) (ce + 1))

-- One header byte read.
abbrev taken : Bytes → Cursor → Cursor
taken buf s = record (read buf s) { mem_count = s.mem_count + 1; cur_end = s.cur_end + 1 }

module _ (n : ℕ) (buf : Bytes) where
  tls_go_on :
      (f : ℕ) (s : Cursor)
      → s.byte_count < n
      → s.mem_count < 5
      → s.cur_end + 1 ≢ n - 1
      → loop (tls_round buf n) n (suc f) s ≡ loop (tls_round buf n) n f (taken buf s)
  unfolding loop tls_round
  tls_go_on f s h m e = ground arith

  tls_break :
      (f : ℕ) (s : Cursor)
      → s.byte_count < n
      → s.mem_count < 5
      → s.cur_end + 1 ≡ n - 1
      → loop (tls_round buf n) n (suc f) s ≡ some (region s.cur_start (n - 1) ∷ [])
  unfolding loop tls_round
  tls_break f s h m e = ground arith

  tls_full :
      (f : ℕ) (s : Cursor)
      → s.byte_count < n
      → 5 ≤ s.mem_count
      → loop (tls_round buf n) n (suc f) s
        ≡ resume
            (loop (tls_round buf n) n f)
            (skip_payload n (be16 ((read buf s).mem 3) ((read buf s).mem 4)) (read buf s))
  unfolding loop tls_round
  tls_full f s h m = ground arith

  tls_over : (f : ℕ) (s : Cursor) → s.byte_count ≡ n → loop (tls_round buf n) n (suc f) s ≡ some []
  unfolding loop
  tls_over f s h = ground arith

  abbrev at_start : Array → ℕ → Cursor
  at_start mem at = record {
    byte_count = at;
    mem = mem;
    mem_count = 0;
    cur_start = at;
    cur_end = at;
  }

  abbrev taken5 : Cursor → Cursor
  taken5 s = taken buf (taken buf (taken buf (taken buf (taken buf s))))

  -- Five header bytes, with more than one byte behind them.
  tls_header :
      (f : ℕ) (mem : Array) (at : ℕ)
      → at + 7 ≤ n
      → loop (tls_round buf n) n (suc (suc (suc (suc (suc f))))) (at_start mem at)
        ≡ loop (tls_round buf n) n f (taken5 (at_start mem at))
  tls_header f mem at h =
      tls_go_on _ _ (omega arith) (omega arith) (omega arith)
      ∙ tls_go_on _ _ (omega arith) (omega arith) (omega arith)
      ∙ tls_go_on _ _ (omega arith) (omega arith) (omega arith)
      ∙ tls_go_on _ _ (omega arith) (omega arith) (omega arith)
      ∙ tls_go_on _ _ (omega arith) (omega arith) (omega arith)

  tls_short :
      (f : ℕ) (mem : Array) (at : ℕ)
      → (at + 5 ≤ n)
      → (n ≤ at + 6)
      → loop (tls_round buf n) n (suc (suc (suc (suc (suc f))))) (at_start mem at)
        ≡ some (region at (n - 1) ∷ [])
  tls_short f mem at h k = elim (dec_lt (at + 5) n) [
    | no five ↦
        tls_go_on _ _ (omega arith) (omega arith) (omega arith)
        ∙ tls_go_on _ _ (omega arith) (omega arith) (omega arith)
        ∙ tls_go_on _ _ (omega arith) (omega arith) (omega arith)
        ∙ tls_break _ _ (omega arith) (omega arith) (omega arith)
    | yes six ↦
        tls_go_on _ _ (omega arith) (omega arith) (omega arith)
        ∙ tls_go_on _ _ (omega arith) (omega arith) (omega arith)
        ∙ tls_go_on _ _ (omega arith) (omega arith) (omega arith)
        ∙ tls_go_on _ _ (omega arith) (omega arith) (omega arith)
        ∙ tls_break _ _ (omega arith) (omega arith) (omega arith)
  ]

  skip_payload-more :
      (left : ℕ) (s : Cursor)
      → s.byte_count + left < n
      → 0 < s.cur_end
      → s.cur_end + 1 ≡ s.byte_count
      → skip_payload n left s
        ≡ emit (region s.cur_start (s.cur_end + left - 1)) (at_start s.mem (s.cur_end + left))
  unfolding skip_payload
  skip_payload-more left s h c e =
      let m : min left (n - s.byte_count) ≡ left = omega arith in
      rw (skip-min n left s.byte_count s.cur_end (omega arith), m) (ground arith)

  skip_payload-last :
      (left : ℕ) (s : Cursor)
      → s.byte_count ≤ n
      → n ≤ s.byte_count + left
      → s.cur_end + 1 ≡ s.byte_count
      → skip_payload n left s
        ≡ emit (region s.cur_start (n - 1)) (record s { byte_count = n; cur_end = n - 1 })
  unfolding skip_payload
  skip_payload-last left s h c e =
      let m : min left (n - s.byte_count) ≡ n - s.byte_count = omega arith in
      rw (skip-min n left s.byte_count s.cur_end (omega arith), m) (ground arith)

  abbrev mem5 : Array → ℕ → Array
  mem5 mem at = (read buf (taken5 (at_start mem at))).mem

  -- The size that the loop takes from a header.
  abbrev Announces : ℕ → ℕ → Type 0
  Announces at size = be16 (get_or buf (at + 3) 0) (get_or buf (at + 4) 0) ≡ size

  mem5_lem :
      (mem : Array) (at : ℕ)
      → be16 (mem5 mem at 3) (mem5 mem at 4) ≡ be16 (get_or buf (at + 3) 0) (get_or buf (at + 4) 0)
  mem5_lem mem at =
      let e3 : at + 1 + 1 + 1 ≡ at + 3 = omega arith in
      let e4 : at + 1 + 1 + 1 + 1 ≡ at + 4 = omega arith in rw (e4, e3)

  tls_record-more :
      (f : ℕ) (mem : Array) (at size : ℕ)
      → Announces at size
      → at + 6 + size < n
      → loop (tls_round buf n) n (suc (suc (suc (suc (suc (suc f)))))) (at_start mem at)
        ≡ found
            (region at (at + (5 + size) - 1))
            (loop (tls_round buf n) n f (at_start (mem5 mem at) (at + (5 + size))))
  tls_record-more f mem at size a h =
      let s = read buf (taken5 (at_start mem at)) in
      let last : s.cur_end + size ≡ at + (5 + size) = omega arith in
      tls_header (suc f) mem at (omega arith)
      ∙ tls_full f (taken5 (at_start mem at)) (omega arith) (omega arith)
      ∙ rw (
        mem5_lem mem at,
        a,
        skip_payload-more size s (omega arith) (omega arith) (omega arith),
        last,
      )

  tls_record-last :
      (f : ℕ) (mem : Array) (at size : ℕ)
      → Announces at size
      → n ≡ at + 5 + size
      → loop (tls_round buf n) n (suc (suc (suc (suc (suc (suc (suc f))))))) (at_start mem at)
        ≡ some (region at (n - 1) ∷ [])
  tls_record-last f mem at size a h = elim (dec_lt n (at + 7)) [
    | yes short ↦ tls_short (suc (suc f)) mem at (omega arith) (omega arith)
    | no long ↦
        let s = read buf (taken5 (at_start mem at)) in
        tls_header (suc (suc f)) mem at (omega arith)
        ∙ tls_full (suc f) (taken5 (at_start mem at)) (omega arith) (omega arith)
        ∙ rw (
          mem5_lem mem at,
          a,
          skip_payload-last size s (omega arith) (omega arith) (omega arith),
          resume,
          tls_over f (record s { byte_count = n; cur_end = n - 1 }) refl,
        )
  ]

pub get_or-append :
    (pre rest : Bytes) (j : ℕ) → get_or (pre ++ rest) (length pre + j) 0 ≡ get_or rest j 0
get_or-append [] rest j = rw (zero-add j)
get_or-append (b ∷ pre) rest j =
    let e : suc (length pre) + j ≡ suc (length pre + j) = omega arith in
    rw e (get_or-append pre rest j)

Announces-encode :
    (pre : Bytes) (r : TlsRecord) (rest : Bytes) (n : ℕ)
    → Announces n (pre ++ (encode r ++ rest)) (length pre) (length r.payload)
Announces-encode pre r rest n =
    rw (get_or-append pre (encode r ++ rest) 3, get_or-append pre (encode r ++ rest) 4)
      (let f = r.fits in omega arith)

tls_records :
    (rs : List TlsRecord) (pre : Bytes) (n f : ℕ) (mem : Array)
    → n ≡ length (pre ++ concat (map encode rs))
    → 2 * (n - length pre) < f
    → loop
        (tls_round (pre ++ concat (map encode rs)) n)
        n
        f
        (at_start n (pre ++ concat (map encode rs)) mem (length pre))
      ≡ some (regions_of (length pre) (map encode rs))
tls_records [] pre n zero mem e w = elim w [ ]
tls_records [] pre n (suc f) mem e w = tls_over n _ f _ (rw (append-nil pre) at (sym e))
tls_records (r ∷ []) pre n f mem e w =
    let buf = pre ++ concat (map encode (r ∷ [])) in
    let size : n ≡ length pre + 5 + length r.payload =
      e ∙ length-append pre (encode r ++ []) ∙ rw (append-nil r.payload) (omega arith) in
    let fuel : f ≡ suc (suc (suc (suc (suc (suc (suc (f - 7))))))) = omega arith in
    let end : n - 1 ≡ length pre + length (encode r) - 1 = omega arith in
    rw fuel (
      tls_record-last n buf (f - 7) mem (length pre) (length r.payload)
        (Announces-encode pre r [] n) size
      ∙ rw end)
tls_records (r ∷ q ∷ rs) pre n f mem e w =
    let rest = concat (map encode (q ∷ rs)) in
    let buf = pre ++ (encode r ++ rest) in
    let whole : (pre ++ encode r) ++ rest ≡ buf = append_assoc pre (encode r) rest in
    let at : length (pre ++ encode r) ≡ length pre + length (encode r) =
      length-append pre (encode r) in
    let size : n ≡ length pre + (length (encode r) + length rest) =
      e
      ∙ length-append pre (encode r ++ rest)
      ∙ ap (λ k. length pre + k) (length-append (encode r) rest) in
    let long : 5 ≤ length rest = omega arith in
    let fuel : f ≡ suc (suc (suc (suc (suc (suc (f - 6)))))) = omega arith in
    let five : 5 + length r.payload ≡ length (encode r) = omega arith in
    let m = mem5 n buf mem (length pre) in
    let ih =
      tls_records (q ∷ rs) (pre ++ encode r) n (f - 6) m (e ∙ ap length (sym whole))
        (omega arith) in
    rw fuel (
      tls_record-more n buf (f - 6) mem (length pre) (length r.payload)
        (Announces-encode pre r rest n) (omega arith)
      ∙ rw five (
          ap (found (region (length pre) (length pre + length (encode r) - 1)))
            (rw at at (rw whole at ih))))

-- The TLS extractor splits a sequence of TLS records, each a header of five bytes that states the
-- payload's size and a payload of that size below 65536, into exactly those records.
pub extract_requests_tls-records :
    (rs : List TlsRecord)
    → extract_requests_tls (concat (map encode rs)) ≡ some (regions_of 0 (map encode rs))
unfolding extract_requests_tls
extract_requests_tls-records [] = refl
extract_requests_tls-records (r ∷ rs) =
    let n = length (concat (map encode (r ∷ rs))) in
    rw (tls_records (r ∷ rs) [] n (rounds n) (λ i. 0) refl (omega arith)) refl
