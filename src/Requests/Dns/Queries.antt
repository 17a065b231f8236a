-- ===== src/Requests/Dns/Queries.antt =====
-- The DNS extractor undoes the concatenation of queries, and may point behind a truncated one.
use mathlib.Core.List.{append_assoc}
use aflnet_legion.Common.{
  ℕ, zero, suc, ◌+◌, ◌-◌, ◌≤◌, ◌<◌, ◌≡◌, ◌≢◌, refl, ap, ◌∙◌, true, false, ◌==◌, if◌then◌else◌, List,
  [], ◌∷◌, ◌++◌, map, arith, length, length-append, Bytes, Array, write, fill,
}
use aflnet_legion.Region.{region, regions_of, concat}
use aflnet_legion.Requests.Dns.{Query, ends_name, scan, extract_requests_dns}

abbrev pub NoNull : Bytes → Type 0
NoNull [] = Unit {0}
NoNull (b ∷ bs) = (b ≢ 0) × NoNull bs

-- The 12-byte header, the name without its null byte, and the four bytes of type and class.
pub record Message : Type 0 where
  pub header : Bytes
  pub name : Bytes
  pub tail : Bytes
  pub header_size : length header ≡ 12
  pub name_bytes : NoNull name
  pub tail_size : length tail ≡ 4

abbrev pub encode : Message → Bytes
encode m = m.header ++ (m.name ++ 0 ∷ m.tail)

abbrev after : Query → Bytes → Query
after s bs = record s {
  mem = fill s.mem s.mem_count bs;
  mem_count = s.mem_count + length bs;
  cur_end = s.cur_end + length bs;
}

module _ (n : ℕ) where
  scan-header :
      (bs rest : Bytes) (s : Query)
      → s.mem_count + length bs ≤ 12
      → s.cur_end + length bs + 2 ≤ n
      → scan 0 n s (bs ++ rest) ≡ scan 0 n (after s bs) rest
  unfolding scan
  scan-header [] rest s h e = ground arith
  scan-header (b ∷ bs) rest s h e = ground (
    arith,
    scan-header bs rest
        (record s {
          mem = write s.mem s.mem_count b;
          mem_count = s.mem_count + 1;
          cur_end = s.cur_end + 1;
        })
        (omega arith) (omega arith),
  )

  scan-name :
      (bs rest : Bytes) (s : Query)
      → NoNull bs
      → s.cur_end + length bs + 2 ≤ n
      → scan 0 n s (bs ++ rest) ≡ scan 0 n (after s bs) rest
  unfolding scan
  scan-name [] rest s h e = ground arith
  scan-name (b ∷ bs) rest s h e = ground (
    arith,
    scan-name bs rest
        (record s {
          mem = write s.mem s.mem_count b;
          mem_count = s.mem_count + 1;
          cur_end = s.cur_end + 1;
        })
        h.1 (omega arith),
  )

  scan-skip : (bs rest : Bytes) (s : Query) → scan (length bs) n s (bs ++ rest) ≡ scan 0 n s rest
  unfolding scan
  scan-skip [] rest s = refl
  scan-skip (b ∷ bs) rest s = scan-skip bs rest s

  scan-truncated : (bs : Bytes) (k : ℕ) (s : Query) → length bs ≤ k → scan k n s bs ≡ []
  unfolding scan
  scan-truncated [] k s h = refl
  scan-truncated (b ∷ bs) zero s h = elim h [ ]
  scan-truncated (b ∷ bs) (suc k) s h = scan-truncated bs k s (omega arith)

  abbrev reset : Array → ℕ → Query
  reset mem at = record { mem = mem; mem_count = 0; cur_start = at; cur_end = at }

  -- The null byte behind the name.
  scan-null :
      (s : Query) (bs : Bytes)
      → 12 ≤ s.mem_count
      → scan 0 n s (0 ∷ bs)
        ≡ region s.cur_start (s.cur_end + 4)
          ∷ (if s.cur_end + 4 == n - 1
              then []
              else scan 4 n (reset (write s.mem s.mem_count 0) (s.cur_end + 5)) bs)
  unfolding scan
  scan-null s bs h =
      let e : s.cur_end + 4 + 1 ≡ s.cur_end + 5 = omega arith in
      let z : ends_name (write s.mem s.mem_count 0) s.mem_count ≡ true = ground arith in rw (z, e)

  -- The loop up to and with the null byte.
  scan-question :
      (header name rest : Bytes) (mem : Array) (at : ℕ)
      → length header ≡ 12
      → NoNull name
      → 1 ≤ length rest
      → at + 12 + length name + 1 + length rest ≤ n
      → (mem' : Array) × (scan 0 n (reset mem at) (header ++ (name ++ 0 ∷ rest))
          ≡ region at (at + 16 + length name)
            ∷ (if at + 16 + length name == n - 1
                then []
                else scan 4 n (reset mem' (at + 17 + length name)) rest))
  scan-question header name rest mem at h z one e =
      let s = after (after (reset mem at) header) name in
      let last : s.cur_end + 4 ≡ at + 16 + length name = omega arith in
      let next : s.cur_end + 5 ≡ at + 17 + length name = omega arith in
      (
        write s.mem s.mem_count 0,
        scan-header header (name ++ 0 ∷ rest) (reset mem at) (omega arith) (omega arith)
            ∙ scan-name name (0 ∷ rest) (after (reset mem at) header) z (omega arith)
            ∙ scan-null s rest (omega arith)
            ∙ rw (last, next),
      )

  -- The bytes of type and class are passed over; at the buffer's end the loop breaks instead.
  scan-tail :
      (tail rest : Bytes) (s : Query) (end : ℕ)
      → length tail ≡ 4
      → end + 1 + length rest ≡ n
      → (if end == n - 1 then [] else scan 4 n s (tail ++ rest)) ≡ scan 0 n s rest
  scan-tail tail [] s end t e =
      let z : (end == n - 1) ≡ true = ground arith in rw z (unfold scan in refl)
  scan-tail tail (r ∷ rest) s end t e =
      let z : (end == n - 1) ≡ false = ground arith in rw (z, ← t) (scan-skip tail (r ∷ rest) s)

  scan-message :
      (m : Message) (rest : Bytes) (mem : Array) (at : ℕ)
      → at + length (encode m) + length rest ≡ n
      → (mem' : Array) × (scan 0 n (reset mem at) (encode m ++ rest)
          ≡ region at (at + length (encode m) - 1)
            ∷ scan 0 n (reset mem' (at + length (encode m))) rest)
  scan-message m rest mem at e =
      let shape : encode m ++ rest ≡ m.header ++ (m.name ++ 0 ∷ (m.tail ++ rest)) =
        append_assoc m.header (m.name ++ 0 ∷ m.tail) rest
        ∙ ap (λ x. m.header ++ x) (append_assoc m.name (0 ∷ m.tail) rest) in
      let hs = m.header_size in
      let ts = m.tail_size in
      let size : length (encode m) ≡ length m.header + (length m.name + (suc (length m.tail))) =
        length-append m.header (m.name ++ 0 ∷ m.tail)
        ∙ ap (λ k. length m.header + k) (length-append m.name (0 ∷ m.tail)) in
      let behind : length (m.tail ++ rest) ≡ length m.tail + length rest =
        length-append m.tail rest in
      let (mem', q) =
        scan-question m.header m.name (m.tail ++ rest) mem at hs m.name_bytes (omega arith)
          (omega arith) in
      let last : at + 16 + length m.name ≡ at + length (encode m) - 1 = omega arith in
      let next : at + 17 + length m.name ≡ at + length (encode m) = omega arith in
      let t =
        scan-tail m.tail rest (reset mem' (at + 17 + length m.name)) (at + 16 + length m.name) ts
          (omega arith) in
      (mem', rw shape (q ∙ ap (◌∷◌ (region at (at + 16 + length m.name))) t ∙ rw (last, next)))

  scan-messages :
      (ms : List Message) (mem : Array) (at : ℕ)
      → at + length (concat (map encode ms)) ≡ n
      → scan 0 n (reset mem at) (concat (map encode ms)) ≡ regions_of at (map encode ms)
  scan-messages [] mem at e = unfold scan in refl
  scan-messages (m ∷ ms) mem at e =
      let size : length (encode m ++ concat (map encode ms))
          ≡ length (encode m) + length (concat (map encode ms)) =
        length-append (encode m) (concat (map encode ms)) in
      let (mem', same) = scan-message m (concat (map encode ms)) mem at (omega arith) in
      same
      ∙ ap (◌∷◌ (region at (at + length (encode m) - 1)))
          (scan-messages ms mem' (at + length (encode m)) (omega arith))

-- The DNS extractor splits a sequence of queries, each a header of 12 bytes, a name without null
-- bytes, a null byte and four more bytes, into exactly those queries.
pub extract_requests_dns-messages :
    (ms : List Message)
    → extract_requests_dns (concat (map encode ms)) ≡ regions_of 0 (map encode ms)
unfolding extract_requests_dns
extract_requests_dns-messages [] = refl
extract_requests_dns-messages (m ∷ ms) =
    rw (scan-messages (length (concat (map encode (m ∷ ms)))) (m ∷ ms) (λ i. 0) 0 (omega arith))
      refl

-- A query that is cut off within the four bytes behind its name, with at least one of them there,
-- gets a region whose last byte lies behind the buffer.
pub extract_requests_dns-past_end :
    (header name short : Bytes)
    → length header ≡ 12
    → NoNull name
    → 1 ≤ length short
    → length short < 4
    → (extract_requests_dns (header ++ (name ++ 0 ∷ short)) ≡ region 0 (16 + length name) ∷ [])
      × (length (header ++ (name ++ 0 ∷ short)) ≤ 16 + length name)
unfolding extract_requests_dns
extract_requests_dns-past_end header name short h z one few =
    let buf = header ++ (name ++ 0 ∷ short) in
    let n = length buf in
    let size : n ≡ length header + (length name + suc (length short)) =
      length-append header (name ++ 0 ∷ short)
      ∙ ap (λ k. length header + k) (length-append name (0 ∷ short)) in
    let (mem', q) = scan-question n header name short (λ i. 0) 0 h z one (omega arith) in
    let beyond : (0 + 16 + length name == n - 1) ≡ false = ground arith in
    let end : 0 + 16 + length name ≡ 16 + length name = omega arith in
    (
      rw
          (
            q,
            beyond,
            scan-truncated n short 4 (reset n mem' (0 + 17 + length name)) (omega arith),
            end,
          )
          refl,
      omega arith,
    )
