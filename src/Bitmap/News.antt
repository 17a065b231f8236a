-- ===== src/Bitmap/News.antt =====
-- `has_new_bits` (afl-fuzz.c) against a description of the map byte by byte.
use Prim.Native.Nat.{bit_and, max}
use aflnet_legion.Common.{
  ℕ, ◌≤◌, ◌<◌, ◌≡◌, refl, ap, ◌∙◌, Bool, true, false, not, ◌&&◌, ◌||◌, List, [], ◌∷◌, ◌==◌, ltb,
  arith, if◌then◌else◌, Bytes, Bool-cases, inl, inr, bit_and_none, bit_and_parts, bit_and_apart,
  bit_and_bound, all_below, all_below_sound, ==_iff,
}
use aflnet_legion.Bitmap.{
  is_set, meets, hits_pristine, clear, invert, new_ret, has_new_from, has_new_bits,
}

-- Two words of bytes, of one length.
abbrev pub AreBytes : Bytes → Bytes → Type 0
AreBytes [] [] = Unit {0}
AreBytes (c ∷ cs) (v ∷ vs) = (c < 256) × (v < 256) × AreBytes cs vs
AreBytes _ _ = ⊥

abbrev pub AreMaps : List Bytes → List Bytes → Type 0
AreMaps [] [] = Unit {0}
AreMaps (c ∷ cs) (v ∷ vs) = AreBytes c v × AreMaps cs vs
AreMaps _ _ = ⊥

-- What a byte of the trace brings: 2 if it is hit and was never hit before, 1 if it has a bit that
-- was not seen, else 0.
abbrev pub byte_news : ℕ → ℕ → ℕ
byte_news c v = if not (c == 0) && v == 0xFF then 2 else if bit_and c v == 0 then 0 else 1

abbrev pub word_news : Bytes → Bytes → ℕ
word_news (c ∷ cs) (v ∷ vs) = max (byte_news c v) (word_news cs vs)
word_news _ _ = 0

abbrev pub map_news : List Bytes → List Bytes → ℕ
map_news (c ∷ cs) (v ∷ vs) = max (word_news c v) (map_news cs vs)
map_news _ _ = 0

-- Every byte without the bits of the trace.
abbrev pub clear_map : List Bytes → List Bytes → List Bytes
clear_map (c ∷ cs) (v ∷ vs) = clear c v ∷ clear_map cs vs
clear_map _ vs = vs

full_mask_table : all_below 256 (λ c. bit_and c 0xFF == c) ≡ true
full_mask_table = refl

full_mask : (c v : ℕ) → c < 256 → v ≡ 0xFF → bit_and c v ≡ c
full_mask c v h e =
    ap (bit_and c) e
    ∙ (==_iff (bit_and c 0xFF) c).0
        (all_below_sound 256 (λ x. bit_and x 0xFF == x) c full_mask_table h)

apart : (b rest : Bool) → (not b || rest) ≡ false → (b ≡ true) × (rest ≡ false)
apart b rest h = ground arith

kept_bits : (c v : ℕ) → c < 256 → v < 256 → bit_and c v ≡ 0 → bit_and v (invert c) ≡ v
kept_bits c v hc hv e = omega (arith, bit_and_parts 8 c v hc hv)

byte_news_none : (c v : ℕ) → c < 256 → bit_and c v ≡ 0 → byte_news c v ≡ 0
byte_news_none c v hc e = ground (arith, full_mask c v hc)

word_news_none :
    (c v : Bytes) → AreBytes c v → meets c v ≡ false → (word_news c v ≡ 0) × (clear c v ≡ v)
word_news_none [] [] bytes h = (refl, refl)
word_news_none [] (_ ∷ _) bytes h = absurd bytes
word_news_none (_ ∷ _) [] bytes h = absurd bytes
word_news_none (c ∷ cs) (v ∷ vs) (hc, hv, bytes) h =
    let (none_here, none_later) = apart (bit_and c v == 0) (meets cs vs) h in
    let e = (==_iff (bit_and c v) 0).0 none_here in
    let (rest, kept) = word_news_none cs vs bytes none_later in
    (omega (arith, byte_news_none c v hc e, rest), rw (kept_bits c v hc hv e, kept) refl)

abbrev worth : Bool → Bool → ℕ
worth true met = 2
worth false true = 1
worth false false = 0

worth-max : (p m q n : Bool) → max (worth p m) (worth q n) ≡ worth (p || q) (m || n)
worth-max true m true n = refl
worth-max true m false true = refl
worth-max true m false false = refl
worth-max false true true n = refl
worth-max false false true n = refl
worth-max false true false true = refl
worth-max false true false false = refl
worth-max false false false true = refl
worth-max false false false false = refl

byte_news-worth :
    (c v : ℕ) → byte_news c v ≡ worth (not (c == 0) && v == 0xFF) (not (bit_and c v == 0))
byte_news-worth c v = ground arith

word_news-worth :
    (c v : Bytes) → AreBytes c v → word_news c v ≡ worth (hits_pristine c v) (meets c v)
word_news-worth [] [] bytes = refl
word_news-worth [] (_ ∷ _) bytes = absurd bytes
word_news-worth (_ ∷ _) [] bytes = absurd bytes
word_news-worth (c ∷ cs) (v ∷ vs) (hc, hv, bytes) =
    rw (byte_news-worth c v, word_news-worth cs vs bytes)
      (worth-max (not (c == 0) && v == 0xFF) (not (bit_and c v == 0)) (hits_pristine cs vs)
        (meets cs vs))

new_ret-worth :
    {news : ℕ} (p : Bool) (ret : ℕ)
    → ret ≤ 2
    → news ≡ worth p true
    → let next = if ltb ret 2 then (if p then 2 else 1) else ret in
      (next ≡ max ret news) × (next ≤ 2)
new_ret-worth true ret le e = ground arith
new_ret-worth false ret le e = ground arith

-- The value of `ret` is the maximum so far.
new_ret-max :
    (c v : Bytes) (ret : ℕ)
    → AreBytes c v
    → meets c v ≡ true
    → ret ≤ 2
    → (new_ret c v ret ≡ max ret (word_news c v)) × (new_ret c v ret ≤ 2)
new_ret-max c v ret bytes h le =
    new_ret-worth (hits_pristine c v) ret le
      (word_news-worth c v bytes ∙ ap (worth (hits_pristine c v)) h)

not_set : (c v : Bytes) → AreBytes c v → is_set c ≡ false → meets c v ≡ false
not_set [] [] bytes h = refl
not_set [] (_ ∷ _) bytes h = absurd bytes
not_set (_ ∷ _) [] bytes h = absurd bytes
not_set (c ∷ cs) (v ∷ vs) (hc, hv, bytes) h =
    let (zero_here, zero_later) = apart (c == 0) (is_set cs) h in
    let e = ap (λ (x : ℕ). bit_and x v) ((==_iff c 0).0 zero_here) ∙ bit_and_none v in
    rw (e, not_set cs vs bytes zero_later) refl

both : (b d : Bool) → (b && d) ≡ true → d ≡ true
both b d h = ground arith

not_both : (b d : Bool) → (b && d) ≡ false → (b ≡ false → d ≡ false) → d ≡ false
not_both true d h k = h
not_both false d h k = k refl

-- The loop computes the maximum of the news and clears every byte.
has_new_from-news :
    (ret : ℕ) (current virgin : List Bytes)
    → AreMaps current virgin
    → ret ≤ 2
    → has_new_from ret current virgin
      ≡ (max ret (map_news current virgin), clear_map current virgin)
unfolding has_new_from
has_new_from-news ret [] [] maps le = ap (λ (r : ℕ). (r, [])) (omega arith)
has_new_from-news ret [] (_ ∷ _) maps le = absurd maps
has_new_from-news ret (_ ∷ _) [] maps le = absurd maps
has_new_from-news ret (c ∷ current) (v ∷ virgin) (bytes, maps) le =
    elim (Bool-cases (is_set c && meets c v)) [
      | inl new ↦
          let (is_max, le') = new_ret-max c v ret bytes (both (is_set c) (meets c v) new) le in
          rw (new, has_new_from-news (new_ret c v ret) current virgin maps le')
            (ap (λ (r : ℕ). (r, clear c v ∷ clear_map current virgin)) (omega (arith, is_max)))
      | inr old ↦
          let (no_news, kept) =
            word_news_none c v bytes (not_both (is_set c) (meets c v) old (not_set c v bytes)) in
          rw (old, has_new_from-news ret current virgin maps le, kept)
            (ap (λ (r : ℕ). (r, v ∷ clear_map current virgin)) (omega (arith, no_news)))
    ]

has_new_from_start :
    (current virgin : List Bytes)
    → AreMaps current virgin
    → has_new_from 0 current virgin ≡ (map_news current virgin, clear_map current virgin)
has_new_from_start current virgin maps =
    has_new_from-news 0 current virgin maps (omega arith)
    ∙ ap (λ (r : ℕ). (r, clear_map current virgin)) (omega arith)

if-or : (b d : Bool) → (if b then true else d) ≡ (b || d)
if-or true d = refl
if-or false d = refl

-- For a trace and a virgin map of bytes, in words of the same lengths, `has_new_bits` returns the
-- largest of the values of the single bytes (2 for a byte that is hit and is 255 in the virgin map,
-- else 1 if the two bytes have a bit in common, else 0), leaves each byte of the virgin map without
-- the bits of the trace, and sets `bitmap_changed` if the result is not 0 and the map is
-- `virgin_bits`.
pub has_new_bits-news :
    (is_virgin_bits changed : Bool) (current virgin : List Bytes)
    → AreMaps current virgin
    → has_new_bits is_virgin_bits current virgin changed ≡ (
      map_news current virgin,
      clear_map current virgin,
      (not (map_news current virgin == 0) && is_virgin_bits) || changed,
    )
unfolding has_new_bits
has_new_bits-news is_virgin_bits changed current virgin maps =
    rw
      (
        has_new_bits,
        has_new_from_start current virgin maps,
        if-or (not (map_news current virgin == 0) && is_virgin_bits) changed,
      )
      refl

clear-AreBytes :
    (c v : Bytes) → AreBytes c v → AreBytes c (clear c v) × (word_news c (clear c v) ≡ 0)
clear-AreBytes [] [] bytes = (tt, refl)
clear-AreBytes [] (_ ∷ _) bytes = absurd bytes
clear-AreBytes (_ ∷ _) [] bytes = absurd bytes
clear-AreBytes (c ∷ cs) (v ∷ vs) (hc, hv, bytes) =
    let (bytes', none_later) = clear-AreBytes cs vs bytes in
    let none_here = byte_news_none c (bit_and v (invert c)) hc (bit_and_apart 8 c v hc hv) in
    ((hc, omega (arith, bit_and_bound v (invert c)), bytes'), omega (arith, none_here, none_later))

clear_map-AreMaps :
    (current virgin : List Bytes)
    → AreMaps current virgin
    → AreMaps current (clear_map current virgin) × (map_news current (clear_map current virgin) ≡ 0)
clear_map-AreMaps [] [] maps = (tt, refl)
clear_map-AreMaps [] (_ ∷ _) maps = absurd maps
clear_map-AreMaps (_ ∷ _) [] maps = absurd maps
clear_map-AreMaps (c ∷ current) (v ∷ virgin) (bytes, maps) =
    let (bytes', none_here) = clear-AreBytes c v bytes in
    let (maps', none_later) = clear_map-AreMaps current virgin maps in
    ((bytes', maps'), omega (arith, none_here, none_later))

-- For a trace and a virgin map of bytes, in words of the same lengths, a second call of
-- `has_new_bits` with the same trace returns 0 and leaves `bitmap_changed` as the first call left
-- it.
pub has_new_bits-again :
    (is_virgin_bits changed : Bool) (current virgin : List Bytes)
    → AreMaps current virgin
    → let (ret, virgin', changed') = has_new_bits is_virgin_bits current virgin changed in
      let (ret', virgin'', changed'') = has_new_bits is_virgin_bits current virgin' changed' in
      (ret' ≡ 0) × (changed'' ≡ changed')
has_new_bits-again is_virgin_bits changed current virgin maps =
    let virgin' = clear_map current virgin in
    let changed' = (not (map_news current virgin == 0) && is_virgin_bits) || changed in
    let (maps', no_news) = clear_map-AreMaps current virgin maps in
    rw
      (
        has_new_bits-news is_virgin_bits changed current virgin maps,
        has_new_bits-news is_virgin_bits changed' current virgin' maps',
        no_news,
      )
      (refl, refl)
