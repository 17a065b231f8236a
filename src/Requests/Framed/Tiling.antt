-- ===== src/Requests/Framed/Tiling.antt =====
-- The TLS and SSH extractors come to an end on every buffer, and their regions cover it.
use aflnet_legion.Common.{
  ℕ, zero, suc, ◌+◌, ◌-◌, ◌*◌, ◌≤◌, ◌<◌, ◌≡◌, ◌⊎◌, inl, inr, refl, sym, subst, dec_lt, lt→ltb, ◌∙◌,
  Option, none, some, List, [], arith, length, get_or, write, ltb, leb, Bytes, if◌then◌else◌,
  Bool-cases,
}
use aflnet_legion.Region.{Region, IsTiling, covered}
use aflnet_legion.Requests.Lines.Tiling.{Covers, or_whole-Covers}
use aflnet_legion.Requests.Framed.{
  Cursor, Round, go_on, emit, break_with, start, read, skip, close, skip_payload, next_byte,
  is_identification, resume, close_list, rounds, extract_requests_tls, extract_requests_ssh,
  tls_round, ssh_round, find_terminator, loop, found,
}

module _ (n : ℕ) where
  skip_lem :
      (left bc ce : ℕ)
      → bc ≤ n
      → ((skip n left bc ce).0 ≤ n)
        × (bc ≤ (skip n left bc ce).0)
        × ((skip n left bc ce).1 + bc ≡ (skip n left bc ce).0 + ce)
  unfolding skip
  skip_lem zero bc ce h = omega arith
  skip_lem (suc left) bc ce h = ground (arith, skip_lem left (bc + 1) (ce + 1))

  -- At the head of the loop: `byte_count` is `cur_end`. One byte is left only at the start of a
  -- message, and if it has been read then the loop is at its end.
  abbrev pub Running : Cursor → Type 0
  Running s =
      (s.cur_end ≡ s.byte_count)
      × (s.cur_start + s.mem_count ≡ s.cur_end)
      × (s.byte_count ≤ n)
      × ((s.byte_count + 1 < n)
          ⊎ ((s.mem_count ≡ 0) ⊎ ((s.byte_count ≡ n) × (s.cur_start + 1 ≡ n))))

  -- The rounds that are left at most: two for a byte, and one for a message that has begun.
  abbrev pub weight : Cursor → ℕ
  weight s = 2 * (n - s.byte_count) + (if leb 1 s.mem_count then 1 else 0)

  -- A region that starts where the message does; behind it a message starts or the buffer ends.
  abbrev pub Emits : Cursor → Region → Cursor → Type 0
  Emits s r s' =
      (r.start_byte ≡ s.cur_start)
      × (s.cur_start ≤ r.end_byte)
      × (r.end_byte + 1 ≡ s'.byte_count)
      × (s'.byte_count ≤ n)
      × ((s'.byte_count ≡ n)
          ⊎ ((s'.cur_end ≡ s'.byte_count) × (s'.cur_start ≡ s'.byte_count) × (s'.mem_count ≡ 0)))

  abbrev pub GoodRound : Cursor → Round → Type 0
  GoodRound s (go_on s') = Running s' × (s'.cur_start ≡ s.cur_start) × (weight s' < weight s)
  GoodRound s (emit r s') = Emits s r s' × (weight s' < weight s)
  GoodRound s (break_with r) =
      (r.start_byte ≡ s.cur_start) × (s.cur_start ≤ r.end_byte) × (r.end_byte + 1 ≡ n)

  -- Closing a region at a state in which `cur_end` is the last byte read.
  pub close-GoodRound :
      (s₀ s : Cursor)
      → s.cur_start ≤ s.cur_end
      → s.cur_end + 1 ≡ s.byte_count
      → s.byte_count ≤ n
      → s.cur_start ≡ s₀.cur_start
      → (s₀.byte_count < s.byte_count)
        ⊎ ((s₀.byte_count ≡ s.byte_count) × (s.byte_count < n) × (1 ≤ s₀.mem_count))
      → GoodRound s₀ (close n s)
  close-GoodRound s₀ s h e b c p = ground arith

  skip_payload-GoodRound :
      (s₀ s : Cursor) (left : ℕ)
      → 1 ≤ s₀.mem_count
      → s.byte_count ≡ s₀.byte_count + 1
      → s.byte_count ≤ n
      → s.cur_end + 1 ≡ s.byte_count
      → s.cur_start < s.cur_end
      → s.cur_start ≡ s₀.cur_start
      → GoodRound s₀ (skip_payload n left s)
  unfolding skip_payload
  skip_payload-GoodRound s₀ s left m b bn e h c =
      let k = skip_lem left s.byte_count s.cur_end bn in
      elim (Bool-cases (ltb (skip n left s.byte_count s.cur_end).0 n)) [
        | inl more ↦
            rw more
              (close-GoodRound s₀ _ (ground arith) (ground arith) (ground arith) c (ground arith))
        | inr last ↦
            rw last
              (close-GoodRound s₀ _ (ground arith) (ground arith) (ground arith) c (ground arith))
      ]

  next_byte-GoodRound :
      (s₀ s : Cursor)
      → Running s₀
      → s₀.byte_count < n
      → s.byte_count ≡ s₀.byte_count + 1
      → s.mem_count ≡ s₀.mem_count
      → s.cur_start ≡ s₀.cur_start
      → s.cur_end ≡ s₀.cur_end
      → GoodRound s₀ (next_byte n s)
  unfolding next_byte
  next_byte-GoodRound s₀ s r h b m c e = ground arith

  find_terminator_lem :
      (left : ℕ) (buf : Bytes) (s : Cursor)
      → left + s.byte_count ≡ n
      → s.cur_end + 1 ≡ s.byte_count
      → (s.byte_count ≤ (find_terminator left buf s).byte_count)
        × ((find_terminator left buf s).byte_count ≤ n)
        × ((find_terminator left buf s).cur_end + 1 ≡ (find_terminator left buf s).byte_count)
        × ((find_terminator left buf s).cur_start ≡ s.cur_start)
  unfolding find_terminator
  find_terminator_lem zero buf s h e = omega arith
  find_terminator_lem (suc left) buf s h e = ground (
    arith,
    find_terminator_lem left buf
        (record s {
          mem_count = s.mem_count + 1;
          mem = write s.mem (s.mem_count + 1) (get_or buf s.byte_count 0);
          byte_count = s.byte_count + 1;
          cur_end = s.cur_end + 1;
        })
        (omega arith) (omega arith),
  )

  tls_round-GoodRound :
      (buf : Bytes) (s : Cursor) → Running s → s.byte_count < n → GoodRound s (tls_round buf n s)
  unfolding tls_round
  tls_round-GoodRound buf s r h = elim (Bool-cases (leb 5 s.mem_count)) [
    | inl full ↦ rw full (
        skip_payload-GoodRound s (read buf s) _ (ground arith) refl (omega arith) (omega arith)
          (ground arith) refl)
    | inr short ↦ rw short (next_byte-GoodRound s (read buf s) r h refl refl refl refl)
  ]

  ssh_round-GoodRound :
      (buf : Bytes) (s : Cursor) → Running s → s.byte_count < n → GoodRound s (ssh_round buf n s)
  unfolding ssh_round
  ssh_round-GoodRound buf s r h = elim (Bool-cases (leb 6 s.mem_count)) [
    | inl full ↦ elim (Bool-cases (is_identification (read buf s).mem)) [
      | inl ident ↦
          let f =
            find_terminator_lem (n - (s.byte_count + 1)) buf (read buf s) (omega arith)
              (omega arith) in
          rw (full, ident)
            (close-GoodRound s (find_terminator (n - (s.byte_count + 1)) buf (read buf s))
              (ground arith) f.2 f.1 f.3 (ground arith))
      | inr other ↦
          rw (full, other)
            (skip_payload-GoodRound s (read buf s) _ (ground arith) refl (omega arith) (omega arith)
              (ground arith) refl)
    ]
    | inr short ↦ rw short (next_byte-GoodRound s (read buf s) r h refl refl refl refl)
  ]

  -- What the loop returns: a result, and one that tiles the rest of the buffer.
  abbrev pub Tiles : ℕ → Option (List Region) → Type 0
  Tiles from none = ⊥
  Tiles from (some rs) = IsTiling from rs × ((covered from rs ≡ n) ⊎ (covered from rs + 1 ≡ n))

  found-Tiles :
      (from : ℕ) (r : Region) (rest : Option (List Region))
      → r.start_byte ≡ from
      → from ≤ r.end_byte
      → Tiles (r.end_byte + 1) rest
      → Tiles from (found r rest)
  found-Tiles from r none s e h = h
  found-Tiles from r (some rs) s e h = ground arith

  resume-Tiles :
      (fuel : ℕ) (rest : Cursor → Option (List Region))
      → ((s : Cursor) → Running s → weight s < fuel → Tiles s.cur_start (rest s))
      → ((s : Cursor) → s.byte_count ≡ n → 0 < fuel → rest s ≡ some [])
      → (s : Cursor) (o : Round) → weight s ≤ fuel
      → GoodRound s o
      → Tiles s.cur_start (resume rest o)
  resume-Tiles fuel rest run over s (go_on s') w g =
      subst (λ x. Tiles x (rest s')) g.1 (run s' g.0 (omega arith))
  resume-Tiles fuel rest run over s (emit r s') w ((a, b, c, d, inl e), g) =
      found-Tiles s.cur_start r (rest s') a b (rw (over s' e (omega arith)) (tt, inl (omega arith)))
  resume-Tiles fuel rest run over s (emit r s') w ((a, b, c, d, inr (e, f, z)), g) =
      found-Tiles s.cur_start r (rest s') a b
        (rw (c ∙ sym f) (run s' (e, omega arith, d, inr (inl z)) (omega arith)))
  resume-Tiles fuel rest run over s (break_with r) w g = ground arith

  loop-over :
      (round : Cursor → Round) (fuel : ℕ) (s : Cursor)
      → s.byte_count ≡ n
      → 0 < fuel
      → loop round n fuel s ≡ some []
  unfolding loop
  loop-over round zero s e h = absurd (omega arith)
  loop-over round (suc fuel) s e h = ground arith

  loop-more :
      (round : Cursor → Round) (fuel : ℕ) (s : Cursor)
      → s.byte_count < n
      → loop round n (suc fuel) s ≡ resume (loop round n fuel) (round s)
  unfolding loop
  loop-more round fuel s h = rw (lt→ltb s.byte_count n h, loop)

  loop-Tiles :
      (round : Cursor → Round)
      → ((s : Cursor) → Running s → s.byte_count < n → GoodRound s (round s))
      → (fuel : ℕ) (s : Cursor) → Running s
      → weight s < fuel
      → Tiles s.cur_start (loop round n fuel s)
  loop-Tiles round good zero s r w = absurd (omega arith)
  loop-Tiles round good (suc fuel) s r w = elim (dec_lt s.byte_count n) [
    | no over ↦ rw (loop-over round (suc fuel) s (omega arith) (omega arith)) (ground arith)
    | yes more ↦ rw (loop-more round fuel s more) (
        resume-Tiles fuel (loop round n fuel) (loop-Tiles round good fuel) (loop-over round fuel) s
          (round s) (omega arith) (good s r more))
  ]

-- The result is there, and its regions tile a buffer of `n` bytes.
abbrev pub Returns : ℕ → Option (List Region) → Type 0
Returns n none = ⊥
Returns n (some rs) = Covers n rs

close_list-Returns : (n : ℕ) (o : Option (List Region)) → Tiles n 0 o → Returns n (close_list n o)
close_list-Returns n none h = h
close_list-Returns n (some rs) h = or_whole-Covers n rs h

-- For every buffer the loops of the TLS and of the SSH extractor come to an end within two rounds a
-- byte and two more, and the regions start at the buffer's first byte, follow one another with no
-- gap or overlap, hold at least one byte each, and reach the end of the buffer or leave out its
-- last byte alone, whatever sizes the headers announce.
pub extract_requests-Returns :
    (buf : Bytes)
    → Returns (length buf) (extract_requests_tls buf)
      × Returns (length buf) (extract_requests_ssh buf)
unfolding extract_requests_tls extract_requests_ssh
extract_requests-Returns buf =
    let n = length buf in
    (
      close_list-Returns n _ (
          loop-Tiles n _ (tls_round-GoodRound n buf) (rounds n) start (omega arith) (ground arith)),
      close_list-Returns n _ (
          loop-Tiles n _ (ssh_round-GoodRound n buf) (rounds n) start (omega arith) (ground arith)),
    )
