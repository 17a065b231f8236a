-- ===== src/Bitmap.antt =====
-- The coverage bitmap (afl-fuzz.c). The functions go over the map a word at a time; a word is the
-- list of its bytes, eight or, without `WORD_SIZE_64`, four of them, on which `&` and `~` act one
-- by one. A word of the map is unsigned and is 0 when its bytes are.
pub mod News
pub mod Classes
pub mod Culling
use Prim.Native.Nat.{bit_and, bit_or}
use aflnet_legion.Common.{
  ℕ, zero, suc, ◌+◌, ◌-◌, ◌*◌, ◌/◌, ◌%◌, Bool, true, false, not, ◌&&◌, ◌||◌, List, [], ◌∷◌, ◌++◌,
  ◌==◌, ltb, leb, if◌then◌else◌, map, Bytes,
}

-- `*mem` is not 0.
abbrev pub is_set : Bytes → Bool
is_set [] = false
is_set (b ∷ bs) = not (b == 0) || is_set bs

-- `*current & *virgin` is not 0.
abbrev pub meets : Bytes → Bytes → Bool
meets (c ∷ cs) (v ∷ vs) = not (bit_and c v == 0) || meets cs vs
meets _ _ = false

-- `cur[i] && vir[i] == 0xff` for one of the bytes.
abbrev pub hits_pristine : Bytes → Bytes → Bool
hits_pristine (c ∷ cs) (v ∷ vs) = (not (c == 0) && v == 0xFF) || hits_pristine cs vs
hits_pristine _ _ = false

-- `~` of a byte.
abbrev pub invert : ℕ → ℕ
invert b = 255 - b

-- `*virgin &= ~*current`
abbrev pub clear : Bytes → Bytes → Bytes
clear (c ∷ cs) (v ∷ vs) = bit_and v (invert c) ∷ clear cs vs
clear _ vs = vs

-- `ret` after a word.
abbrev pub new_ret : Bytes → Bytes → ℕ → ℕ
new_ret cur vir ret = if ltb ret 2 then (if hits_pristine cur vir then 2 else 1) else ret

-- The loop over the words of `trace_bits` and of `virgin_map`, from a value of `ret`.
unfoldable pub has_new_from : ℕ → List Bytes → List Bytes → ℕ × List Bytes
has_new_from ret (cur ∷ current) (vir ∷ virgin) =
    let old = has_new_from ret current virgin in
    let new = has_new_from (new_ret cur vir ret) current virgin in
    if is_set cur && meets cur vir then (new.0, clear cur vir ∷ new.1) else (old.0, vir ∷ old.1)
has_new_from ret _ virgin = (ret, virgin)

-- `is_virgin_bits` says whether the map is `virgin_bits`: the result, the map and `bitmap_changed`.
unfoldable pub has_new_bits : Bool → List Bytes → List Bytes → Bool → ℕ × List Bytes × Bool
unfolding has_new_from
has_new_bits is_virgin_bits current virgin bitmap_changed =
    let (ret, virgin') = has_new_from 0 current virgin in
    (ret, virgin', if not (ret == 0) && is_virgin_bits then true else bitmap_changed)

-- The bytes of a word that are not 0, one test each.
abbrev pub count_set : Bytes → ℕ
count_set [] = 0
count_set (b ∷ bs) = (if b == 0 then 0 else 1) + count_set bs

unfoldable pub count_bytes : List Bytes → ℕ
count_bytes [] = 0
count_bytes (v ∷ mem) = let rest = count_bytes mem in if is_set v then count_set v + rest else rest

abbrev pub is_full : Bytes → Bool
is_full [] = true
is_full (b ∷ bs) = b == 0xFF && is_full bs

abbrev pub count_not_full : Bytes → ℕ
count_not_full [] = 0
count_not_full (b ∷ bs) = (if b == 0xFF then 0 else 1) + count_not_full bs

unfoldable pub count_non_255_bytes : List Bytes → ℕ
count_non_255_bytes [] = 0
count_non_255_bytes (v ∷ mem) =
    let rest = count_non_255_bytes mem in if is_full v then rest else count_not_full v + rest

abbrev pub simplify_lookup : ℕ → ℕ
simplify_lookup b = if b == 0 then 1 else 128

-- The constant `0x01..01`.
abbrev pub ones : Bytes → Bytes
ones [] = []
ones (b ∷ bs) = 1 ∷ ones bs

unfoldable pub simplify_trace : List Bytes → List Bytes
simplify_trace [] = []
simplify_trace (w ∷ mem) = (if is_set w then map simplify_lookup w else ones w) ∷ simplify_trace mem

unfoldable pub count_class_lookup8 : ℕ → ℕ
count_class_lookup8 b =
    if leb b 2
    then b
    else if leb b 3
    then 4
    else if leb b 7
    then 8
    else if leb b 15
    then 16
    else if leb b 31
    then 32
    else if leb b 127
    then 64
    else 128

-- The table that `init_count_class16` fills: the entry at `(b1 << 8) + b2`.
unfoldable pub count_class_lookup16 : ℕ → ℕ
unfolding count_class_lookup8
count_class_lookup16 v =
    bit_or (count_class_lookup8 (v / 256) * 256) (count_class_lookup8 (v % 256))

-- The halves `mem16[0]`, `mem16[1]` and so on, the low byte first.
unfoldable pub classify_halves : Bytes → Bytes
unfolding count_class_lookup16
classify_halves (low ∷ high ∷ bs) =
    let v = count_class_lookup16 (high * 256 + low) in v % 256 ∷ v / 256 ∷ classify_halves bs
classify_halves bs = bs

unfoldable pub classify_counts : List Bytes → List Bytes
unfolding classify_halves
classify_counts [] = []
classify_counts (w ∷ mem) = (if is_set w then classify_halves w else w) ∷ classify_counts mem
