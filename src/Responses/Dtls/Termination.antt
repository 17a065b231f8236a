-- ===== src/Responses/Dtls/Termination.antt =====
-- When the loop over the records ends, and when it does not.
use aflnet_legion.Common.{
  ℕ, zero, suc, ◌+◌, ◌-◌, ◌*◌, ◌==◌, if◌then◌else◌, ◌≤◌, ◌<◌, ◌≡◌, ◌≢◌, ◌^◌, refl, ◌∙◌, true, false,
  Option, none, some, [], ◌∷◌, arith, length, Bytes, get_elem?, add32, Bool-cases, Option-cases,
  inl, inr, dec_lt, lt→ltb, ltb, leb, max_alloc, ℕ_discrete, Bool, ◌⊎◌,
}
use aflnet_legion.Responses.Dtls.{
  read_bytes_to_uint32, ◌>>=◌, Run, done, out_of_bounds, aborted, no_fuel, is_record, Header,
  header, message_type, push, next_record, loop, extract_response_codes_dtls12,
}

loop-record :
    (fuel : ℕ) (buf : Bytes) (n at count : ℕ)
    → at < n
    → is_record buf n at ≡ true
    → loop (suc fuel) buf n at count ≡ next_record (loop fuel buf n) at count (header buf n at)
unfolding loop
loop-record fuel buf n at count h r = rw (lt→ltb at n h, loop, r)

-- A record whose header states the length 0, with the bytes of its epoch and sequence number.
abbrev pub empty_record : ℕ → (a b c d e f g h : ℕ) → ℕ → Bytes → Bytes
empty_record content_type a b c d e f g h byte rest =
    content_type ∷ 0xFE ∷ 0xFD ∷ a ∷ b ∷ c ∷ d ∷ e ∷ f ∷ g ∷ h ∷ 0 ∷ 0 ∷ byte ∷ rest

push-if :
    (b : Bool) (code : ℕ)
    → push code (if b then aborted else no_fuel) ≡ (if b then aborted else no_fuel)
push-if true code = refl
push-if false code = refl

module _ (t a b c d e f g h x : ℕ) (rest : Bytes) (l : 0x14 ≤ t) (u : t ≤ 0x18) where
  abbrev buffer : Bytes
  buffer = empty_record t a b c d e f g h x rest

  -- A round at such a record stores a code and stays where it is.
  header-empty :
      (n : ℕ)
      → header buffer n 0
        ≡ some (record {
          record_length = 0;
          status_code = t * 256 + (if t == 0x17 then 0xFF else 0xFE);
        })
  unfolding header
  header-empty n = ground arith

  is_record-empty : (n : ℕ) → 13 < n → is_record buffer n 0 ≡ true
  unfolding is_record
  is_record-empty n m = ground arith

  loop-empty :
      (n fuel count : ℕ)
      → 13 < n
      → count ≤ 2 ^ 28
      → loop fuel buffer n 0 count ≡ (if leb (2 ^ 28 + 1 - count) fuel then aborted else no_fuel)
  loop-empty n zero count m h =
      let early : leb (2 ^ 28 + 1 - count) 0 ≡ false = ground arith in
      rw early (unfold loop in refl)
  loop-empty n (suc fuel) count m h =
      loop-record fuel buffer n 0 count (omega arith) (is_record-empty n m)
      ∙ rw (header-empty n) (elim (ℕ_discrete count (2 ^ 28)) [
        | yes full ↦
            let over : ltb max_alloc ((count + 1) * 4) ≡ true = ground (arith, full) in
            let now : leb (2 ^ 28 + 1 - count) (suc fuel) ≡ true = ground (arith, full) in
            rw (over, now) refl
        | no room ↦
            let fits : ltb max_alloc ((count + 1) * 4) ≡ false = ground (arith, room, h) in
            let next : leb (2 ^ 28 + 1 - (count + 1)) fuel ≡ leb (2 ^ 28 + 1 - count) (suc fuel) =
              ground (arith, room, h) in
            rw (fits, loop-empty n fuel (count + 1) m (omega (arith, room, h)), next)
              (push-if (leb (2 ^ 28 + 1 - count) (suc fuel))
                (t * 256 + (if t == 0x17 then 0xFF else 0xFE)))
      ])

-- A DTLS record of length 0 at the start of the server's response keeps the extractor of response
-- codes in its loop until `ck_realloc` aborts the program in round 2 ^ 28: with fewer rounds it is
-- still in the loop, and with this many and more it has been aborted.
pub extract_response_codes_dtls12-aborted :
    (t a b c d e f g h x : ℕ) (rest : Bytes)
    → 0x14 ≤ t
    → t ≤ 0x18
    → (fuel : ℕ)
    → extract_response_codes_dtls12 fuel (empty_record t a b c d e f g h x rest)
      ≡ (if leb (2 ^ 28) fuel then aborted else no_fuel)
unfolding extract_response_codes_dtls12
extract_response_codes_dtls12-aborted t a b c d e f g h x rest l u fuel =
    rw
      (loop-empty t a b c d e f g h x rest l u (length (empty_record t a b c d e f g h x rest)) fuel
        1 (omega arith) (omega arith))
      (push-if (leb (2 ^ 28) fuel) 0)

-- No record states the length 0.
abbrev pub NoEmptyRecord : Bytes → Type 0
NoEmptyRecord buf =
    (at : ℕ) (r : Header)
    → is_record buf (length buf) at ≡ true
    → header buf (length buf) at ≡ some r
    → 1 ≤ r.record_length

-- The fuel was enough, and only a buffer of 2 ^ 28 bytes and more leads to an abort.
abbrev IsEnded : ℕ → Run → Type 0
IsEnded n (done codes) = Unit
IsEnded n out_of_bounds = Unit
IsEnded n aborted = 2 ^ 28 ≤ n
IsEnded n no_fuel = ⊥

push-IsEnded : (n code : ℕ) (r : Run) → IsEnded n r → IsEnded n (push code r)
push-IsEnded n code (done codes) h = tt
push-IsEnded n code out_of_bounds h = tt
push-IsEnded n code aborted h = h
push-IsEnded n code no_fuel h = h

next_record-IsEnded :
    (rest : ℕ → ℕ → Run) (n at count : ℕ) (h : Header)
    → count ≤ n
    → IsEnded n (rest (add32 at h.record_length) (count + 1))
    → IsEnded n (next_record rest at count (some h))
next_record-IsEnded rest n at count h few ended =
    elim (Bool-cases (ltb max_alloc ((count + 1) * 4))) [
      | inl over ↦ rw over (ground (arith, over, few))
      | inr fits ↦
          rw fits (push-IsEnded n h.status_code (rest (add32 at h.record_length) (count + 1)) ended)
    ]

abbrev pub AllBytes : Bytes → Type 0
AllBytes [] = Unit {0}
AllBytes (b ∷ bs) = (b < 256) × AllBytes bs

get_elem?-lt : (buf : Bytes) (i v : ℕ) → AllBytes buf → get_elem? buf i ≡ some v → v < 256
get_elem?-lt [] i v h e = cc
get_elem?-lt (b ∷ bs) zero v h e = ground arith
get_elem?-lt (b ∷ bs) (suc i) v h e = get_elem?-lt bs i v h.1 e

read_two-lt :
    (buf : Bytes) (i v : ℕ) → AllBytes buf → read_bytes_to_uint32 buf i 2 ≡ some v → v < 2 ^ 16
unfolding read_bytes_to_uint32
read_two-lt buf i v h e = elim (Option-cases (get_elem? buf i)) [
  | inl none₀ ↦ absurd (ground arith)
  | inr (a, ea) ↦ elim (Option-cases (get_elem? buf (i + 1))) [
    | inl none₁ ↦ absurd (ground arith)
    | inr (b, eb) ↦
        let p = get_elem?-lt buf i a h ea in let q = get_elem?-lt buf (i + 1) b h eb in ground arith
  ]
]

bind-eq-some :
    {A B : Type 0} (m : Option A) (f : A → Option B) {b : B}
    → (m >>= f) ≡ some b
    → (a : A) × (m ≡ some a) × (f a ≡ some b)
bind-eq-some none f h = cc
bind-eq-some (some a) f h = (a, refl, h)

record_length-lt :
    (buf : Bytes) (n at : ℕ) (r : Header)
    → AllBytes buf
    → header buf n at ≡ some r
    → r.record_length < 2 ^ 16
unfolding header
record_length-lt buf n at r h e =
    let (t, p, e₁) = bind-eq-some (get_elem? buf at) _ e in
    let (size, q, e₂) = bind-eq-some (read_bytes_to_uint32 buf (at + 11) 2) _ e₁ in
    let (m, o, e₃) = bind-eq-some (message_type buf n at t size) _ e₂ in
    let fits = read_two-lt buf (at + 11) size h q in
    let same : size ≡ r.record_length = ground arith in rw (← same) fits

loop-over :
    (fuel : ℕ) (buf : Bytes) (n at count : ℕ) → n ≤ at → loop (suc fuel) buf n at count ≡ done []
unfolding loop
loop-over fuel buf n at count h = ground arith

loop-other :
    (fuel : ℕ) (buf : Bytes) (n at count : ℕ)
    → at < n
    → is_record buf n at ≡ false
    → loop (suc fuel) buf n at count ≡ loop fuel buf n (at + 1) count
unfolding loop
loop-other fuel buf n at count h r = rw (lt→ltb at n h, loop, r)

loop-ends :
    (buf : Bytes)
    → AllBytes buf
    → NoEmptyRecord buf
    → length buf < 2 ^ 31
    → (fuel at count : ℕ) → length buf - at < fuel
    → count ≤ at + 1
    → IsEnded (length buf) (loop fuel buf (length buf) at count)
loop-ends buf all r small zero at count w few = absurd (omega arith)
loop-ends buf all r small (suc fuel) at count w few = elim (dec_lt at (length buf)) [
  | no over ↦ rw (loop-over fuel buf (length buf) at count (omega arith)) tt
  | yes inside ↦ elim (Bool-cases (is_record buf (length buf) at)) [
    | inr other ↦
        rw (loop-other fuel buf (length buf) at count inside other)
          (loop-ends buf all r small fuel (at + 1) count (omega arith) (omega arith))
    | inl found ↦
        rw (loop-record fuel buf (length buf) at count inside found)
          (elim (Option-cases (header buf (length buf) at)) [
            | inl fault ↦ rw fault tt
            | inr (h, e) ↦
                let size = record_length-lt buf (length buf) at h all e in
                let some_bytes = r at h found e in
                rw e (
                  next_record-IsEnded (loop fuel buf (length buf)) (length buf) at count h
                    (omega arith)
                    (loop-ends buf all r small fuel (add32 at h.record_length) (count + 1)
                      (omega arith) (omega arith)))
          ])
  ]
]

ended-ne-no_fuel : (n : ℕ) (r : Run) → IsEnded n r → r ≢ no_fuel
ended-ne-no_fuel n (done codes) h = λ e. cc
ended-ne-no_fuel n out_of_bounds h = λ e. cc
ended-ne-no_fuel n aborted h = λ e. cc
ended-ne-no_fuel n no_fuel h = absurd h

ended-ne-aborted : (n : ℕ) (r : Run) → IsEnded n r → (r ≢ aborted) ⊎ (2 ^ 28 ≤ n)
ended-ne-aborted n (done codes) h = inl (λ e. cc)
ended-ne-aborted n out_of_bounds h = inl (λ e. cc)
ended-ne-aborted n aborted h = inr h
ended-ne-aborted n no_fuel h = absurd h

-- For a response below 2 GB in which no record states the length 0, the DTLS extractor ends within
-- one round a byte and one more; an allocation aborts it only if the response has 2 ^ 28 bytes and
-- more, and else it returns or reads behind the buffer.
pub extract_response_codes_dtls12-ends :
    (buf : Bytes)
    → AllBytes buf
    → NoEmptyRecord buf
    → length buf < 2 ^ 31
    → let run = extract_response_codes_dtls12 (length buf + 1) buf in
      (run ≢ no_fuel) × ((run ≢ aborted) ⊎ (2 ^ 28 ≤ length buf))
unfolding extract_response_codes_dtls12
extract_response_codes_dtls12-ends buf all r small =
    let inner = loop (length buf + 1) buf (length buf) 0 1 in
    let ended =
      push-IsEnded (length buf) 0 inner
        (loop-ends buf all r small (length buf + 1) 0 1 (omega arith) (omega arith)) in
    (
      ended-ne-no_fuel (length buf) (push 0 inner) ended,
      ended-ne-aborted (length buf) (push 0 inner) ended,
    )
