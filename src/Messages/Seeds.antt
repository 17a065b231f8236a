-- ===== src/Messages/Seeds.antt =====
-- Regions to messages and back, and messages to the seed's file.
use mathlib.Core.List.{append-nil}
use aflnet_legion.Common.{
  max_alloc, ℕ, zero, suc, ◌+◌, ◌-◌, ◌^◌, ◌≤◌, ◌<◌, ◌≡◌, refl, ap, ◌∙◌, false, some, List, [], ◌∷◌,
  ◌++◌, map, ◌==◌, ltb, length, take, drop, Bytes, sub32, arith, take_all, length-drop,
}
use aflnet_legion.Region.{Region, region, IsTiling, covered}
use aflnet_legion.Messages.{
  Message, fread, construct_kl_messages, convert_from, convert_kl_messages_to_regions, stored,
  save_kl_messages_to_file,
}
use aflnet_legion.Messages.Packed.{packed, total_size, stored_messages-some}
use aflnet_legion.Messages.Replay.{drop_nil}

-- A region with its annotation reset.
abbrev pub unannotated : Region → Region
unannotated r = region r.start_byte r.end_byte

covered-ge : (a : ℕ) (rs : List Region) → IsTiling a rs → a ≤ covered a rs
covered-ge a [] t = omega arith
covered-ge a (r ∷ rs) t = let later = covered-ge (r.end_byte + 1) rs t.2 in omega arith

-- The size of a region that begins at `a`.
size_lem :
    (a : ℕ) (r : Region)
    → r.start_byte ≡ a
    → a ≤ r.end_byte
    → r.end_byte < 2 ^ 31
    → sub32 (r.end_byte + 1) r.start_byte ≡ r.end_byte + 1 - a
size_lem a r s e small = omega arith

-- What is read for regions of admissible sizes.
abbrev messages : Bytes → List Region → List Message
messages file [] = []
messages file (r ∷ rs) =
    let len = sub32 (r.end_byte + 1) r.start_byte in
    record { mdata = fread len file; msize = len } ∷ messages (drop len file) rs

construct_kl_messages-some :
    (rs : List Region) (file : Bytes) (a : ℕ)
    → IsTiling a rs
    → covered a rs ≤ 2 ^ 30
    → construct_kl_messages file rs ≡ some (messages file rs)
unfolding construct_kl_messages
construct_kl_messages-some [] file a t small = refl
construct_kl_messages-some (r ∷ rs) file a t small =
    let later = covered-ge (r.end_byte + 1) rs t.2 in
    let len = sub32 (r.end_byte + 1) r.start_byte in
    let size = size_lem a r t.0 t.1 (omega arith) in
    let some_bytes : (len == 0) ≡ false = ground arith in
    let not_many : ltb max_alloc len ≡ false = ground arith in
    rw
      (
        some_bytes,
        not_many,
        construct_kl_messages-some rs (drop len file) (r.end_byte + 1) t.2 small,
      )
      refl

convert_from-construct :
    (rs : List Region) (file : Bytes) (a max : ℕ)
    → IsTiling a rs
    → covered a rs ≤ 2 ^ 31
    → length rs ≤ max
    → convert_from max a (messages file rs) ≡ some (map unannotated rs)
unfolding convert_from
convert_from-construct [] file a max t small fits = ground arith
convert_from-construct (r ∷ rs) file a zero t small fits = absurd (omega arith)
convert_from-construct (r ∷ rs) file a (suc max) t small fits =
    let later = covered-ge (r.end_byte + 1) rs t.2 in
    let len = sub32 (r.end_byte + 1) r.start_byte in
    let size = size_lem a r t.0 t.1 (omega arith) in
    let next : a + len ≡ r.end_byte + 1 = omega arith in
    let last : a + len - 1 ≡ r.end_byte = omega arith in
    let positive : (a + len == 0) ≡ false = ground arith in
    let rest =
      convert_from-construct rs (drop len file) (r.end_byte + 1) max t.2 small (omega arith) in
    rw (positive, last, next, rest, t.0) refl

-- For regions that follow one another from the start of a seed of at most 1 GB, and a bound that
-- admits all of them: the messages are read for the regions without a fatal error, and convert back
-- to the same regions, with their annotations reset, whatever the file holds.
pub convert_kl_messages_to_regions-construct_kl_messages :
    (file : Bytes) (rs : List Region) (max_count : ℕ)
    → IsTiling 0 rs
    → covered 0 rs ≤ 2 ^ 30
    → length rs ≤ max_count
    → (ms : List Message) × (construct_kl_messages file rs ≡ some ms)
      × (convert_kl_messages_to_regions ms max_count ≡ some (map unannotated rs))
unfolding convert_kl_messages_to_regions
convert_kl_messages_to_regions-construct_kl_messages file rs max t small fits = (
  messages file rs,
  construct_kl_messages-some rs file 0 t small,
  convert_from-construct rs file 0 max t (omega arith) fits,
)

take_add : (m n : ℕ) (xs : Bytes) → take (m + n) xs ≡ take m xs ++ take n (drop m xs)
take_add zero n xs = let none_first : 0 + n ≡ n = omega arith in rw none_first refl
take_add (suc m) zero [] = let sum : suc m + 0 ≡ suc m = omega arith in rw sum refl
take_add (suc m) (suc n) [] = let sum : suc m + suc n ≡ suc (m + suc n) = omega arith in rw sum refl
take_add (suc m) n (x ∷ xs) =
    let first : suc m + n ≡ suc (m + n) = omega arith in rw first (ap (◌∷◌ x) (take_add m n xs))

fread-take : (n : ℕ) (file : Bytes) → n ≤ length file → fread n file ≡ take n file
unfolding fread
fread-take zero file h = refl
fread-take (suc n) [] h = absurd (omega arith)
fread-take (suc n) (b ∷ file) h = ap (◌∷◌ b) (fread-take n file (omega arith))

take_idem : (n : ℕ) (xs : Bytes) → n ≤ length xs → take n (take n xs) ≡ take n xs
take_idem zero xs h = refl
take_idem (suc n) [] h = refl
take_idem (suc n) (x ∷ xs) h = ap (◌∷◌ x) (take_idem n xs (omega arith))

packed-construct :
    (rs : List Region) (file : Bytes) (a max : ℕ)
    → IsTiling a rs
    → covered a rs ≤ 2 ^ 31
    → length rs ≤ max
    → covered a rs ≤ a + length file
    → packed false max (messages file rs) ≡ take (covered a rs - a) file
unfolding packed stored
packed-construct [] file a max t small fits holds =
    let none_left : a - a ≡ 0 = omega arith in rw none_left refl
packed-construct (r ∷ rs) file a zero t small fits holds = absurd (omega arith)
packed-construct (r ∷ rs) file a (suc max) t small fits holds =
    let later = covered-ge (r.end_byte + 1) rs t.2 in
    let len = sub32 (r.end_byte + 1) r.start_byte in
    let size = size_lem a r t.0 t.1 (omega arith) in
    let left = length-drop len file in
    let sum : covered (r.end_byte + 1) rs - a
        ≡ len + (covered (r.end_byte + 1) rs - (r.end_byte + 1)) =
      omega arith in
    let rest =
      packed-construct rs (drop len file) (r.end_byte + 1) max t.2 small (omega arith)
        (omega arith) in
    rw
      (
        sum,
        take_add len (covered (r.end_byte + 1) rs - (r.end_byte + 1)) file,
        fread-take len file (omega arith),
        take_idem len file (omega arith),
        rest,
      )
      refl

total_size-messages :
    (rs : List Region) (file : Bytes) (a max : ℕ)
    → IsTiling a rs
    → covered a rs ≤ 2 ^ 31
    → a + total_size false max (messages file rs) ≤ covered a rs
total_size-messages [] file a zero t small = omega arith
total_size-messages [] file a (suc max) t small = omega arith
total_size-messages (r ∷ rs) file a zero t small = omega (arith, covered-ge (r.end_byte + 1) rs t.2)
total_size-messages (r ∷ rs) file a (suc max) t small =
    let later = covered-ge (r.end_byte + 1) rs t.2 in
    let len = sub32 (r.end_byte + 1) r.start_byte in
    let size = size_lem a r t.0 t.1 (omega arith) in
    omega (arith, size, total_size-messages rs (drop len file) (r.end_byte + 1) max t.2 small)

-- For regions that follow one another and cover a whole seed of at most 1 GB, and a bound that
-- admits all of them: the messages are read for them without a fatal error, and saved without sizes
-- to a new file, where no allocation aborts the program, they are the seed.
pub save_kl_messages_to_file-construct_kl_messages :
    (file : Bytes) (rs : List Region) (max_count : ℕ)
    → IsTiling 0 rs
    → covered 0 rs ≡ length file
    → length file ≤ 2 ^ 30
    → length rs ≤ max_count
    → (ms : List Message) × (construct_kl_messages file rs ≡ some ms)
      × (save_kl_messages_to_file ms [] false max_count ≡ some file)
unfolding save_kl_messages_to_file
save_kl_messages_to_file-construct_kl_messages file rs max t whole small fits =
    let mem = packed false max (messages file rs) in
    let all : covered 0 rs - 0 ≡ length file = omega arith in
    let room =
      stored_messages-some false max 0 (messages file rs)
        (omega (arith, total_size-messages rs file 0 max t (omega arith))) in
    (
      messages file rs,
      construct_kl_messages-some rs file 0 t (omega arith),
      rw (save_kl_messages_to_file, room, drop_nil (length mem), append-nil mem)
          (ap some (
            packed-construct rs file 0 max t (omega arith) fits (omega arith)
            ∙ rw (all) (take_all file))),
    )
