-- ===== src/Bitmap/Classes.antt =====
-- The passes over the bitmap that skip empty words (afl-fuzz.c), against passes over every byte.
use Prim.Native.Nat.{bit_or}
use aflnet_legion.Common.{
  ℕ, ◌+◌, ◌*◌, ◌/◌, ◌%◌, ◌<◌, ◌≡◌, refl, ap, Bool, true, false, not, ◌&&◌, ◌||◌, List, [], ◌∷◌,
  ◌++◌, ◌==◌, ltb, ltb→lt, arith, if◌then◌else◌, Bytes, Bool-cases, inl, inr, map, all_below,
  all_below_sound, ==_iff,
}
use aflnet_legion.Region.{concat}
use aflnet_legion.Bitmap.{
  is_set, count_set, count_bytes, is_full, count_not_full, count_non_255_bytes, simplify_lookup,
  ones, simplify_trace, count_class_lookup8, count_class_lookup16, classify_halves, classify_counts,
}

apart : (b rest : Bool) → (not b || rest) ≡ false → (b ≡ true) × (rest ≡ false)
apart b rest h = ground arith

-- A word that is 0 has no byte that is not.
simplify_empty : (w : Bytes) → is_set w ≡ false → map simplify_lookup w ≡ ones w
simplify_empty [] h = refl
simplify_empty (b ∷ bs) h =
    let (zero_here, zero_later) = apart (b == 0) (is_set bs) h in
    rw (zero_here, simplify_empty bs zero_later) refl

-- `simplify_trace` replaces each byte by its entry in `simplify_lookup`, in the words that it skips
-- too.
pub simplify_trace-map : (mem : List Bytes) → simplify_trace mem ≡ map (map simplify_lookup) mem
unfolding simplify_trace
simplify_trace-map [] = refl
simplify_trace-map (w ∷ mem) = elim (Bool-cases (is_set w)) [
  | inl e ↦ rw (e, simplify_trace-map mem) refl
  | inr e ↦ rw (e, simplify_trace-map mem, simplify_empty w e) refl
]

count_set-append : (xs ys : Bytes) → count_set (xs ++ ys) ≡ count_set xs + count_set ys
count_set-append [] ys = omega arith
count_set-append (x ∷ xs) ys = omega (arith, count_set-append xs ys)

count_not_full-append :
    (xs ys : Bytes) → count_not_full (xs ++ ys) ≡ count_not_full xs + count_not_full ys
count_not_full-append [] ys = omega arith
count_not_full-append (x ∷ xs) ys = omega (arith, count_not_full-append xs ys)

count_set_empty : (w : Bytes) → is_set w ≡ false → count_set w ≡ 0
count_set_empty [] h = refl
count_set_empty (b ∷ bs) h = ground (arith, count_set_empty bs)

count_not_full_full : (w : Bytes) → is_full w ≡ true → count_not_full w ≡ 0
count_not_full_full [] h = refl
count_not_full_full (b ∷ bs) h = ground (arith, count_not_full_full bs)

count_skip :
    {here whole : ℕ} (later : ℕ) (b : Bool)
    → (b ≡ false → here ≡ 0)
    → here + later ≡ whole
    → (if b then here + later else later) ≡ whole
count_skip later true skip e = e
count_skip later false skip e = omega (arith, skip refl, e)

count_skip_not :
    {here whole : ℕ} (later : ℕ) (b : Bool)
    → (b ≡ true → here ≡ 0)
    → here + later ≡ whole
    → (if b then later else here + later) ≡ whole
count_skip_not later true skip e = omega (arith, skip refl, e)
count_skip_not later false skip e = e

-- `count_bytes` counts the bytes of the map that are not 0, and `count_non_255_bytes` those that
-- are not 255.
pub count_bytes_lem :
    (mem : List Bytes)
    → (count_bytes mem ≡ count_set (concat mem))
      × (count_non_255_bytes mem ≡ count_not_full (concat mem))
unfolding count_bytes count_non_255_bytes
count_bytes_lem [] = (refl, refl)
count_bytes_lem (w ∷ mem) =
    let (set, not_full) = count_bytes_lem mem in
    (
      count_skip (count_bytes mem) (is_set w) (count_set_empty w)
          (omega (arith, set, count_set-append w (concat mem))),
      count_skip_not (count_non_255_bytes mem) (is_full w) (count_not_full_full w)
          (omega (arith, not_full, count_not_full-append w (concat mem))),
    )

-- The values of the table, and how two of them are joined.
is_class : ℕ → Bool
is_class n =
    n == 0 || n == 1 || n == 2 || n == 4 || n == 8 || n == 16 || n == 32 || n == 64 || n == 128

lookup8_table :
    all_below 256 (λ b. is_class (count_class_lookup8 b) && ltb (count_class_lookup8 b) 129) ≡ true
unfolding is_class count_class_lookup8
lookup8_table = refl

both : (b d : Bool) → (b && d) ≡ true → (b ≡ true) × (d ≡ true)
both b d h = ground arith

lookup8_class :
    (b : ℕ) → b < 256 → (is_class (count_class_lookup8 b) ≡ true) × (count_class_lookup8 b < 129)
lookup8_class b h =
    let (class, small) = both (is_class (count_class_lookup8 b)) (ltb (count_class_lookup8 b) 129) (
      all_below_sound 256 (λ x. is_class (count_class_lookup8 x) && ltb (count_class_lookup8 x) 129)
        b lookup8_table h) in
    (class, ltb→lt (count_class_lookup8 b) 129 small)

joins : ℕ → Bool
unfolding is_class
joins a = all_below 129 (λ b. not (is_class b) || bit_or (a * 256) b == a * 256 + b)

joins_table : all_below 129 (λ a. not (is_class a) || joins a) ≡ true
unfolding joins is_class
joins_table = refl

implied : (b d : Bool) → (not b || d) ≡ true → b ≡ true → d ≡ true
implied b d h k = ground arith

joined :
    (a b : ℕ)
    → a < 129
    → b < 129
    → is_class a ≡ true
    → is_class b ≡ true
    → bit_or (a * 256) b ≡ a * 256 + b
unfolding joins
joined a b ha hb ca cb =
    let row =
      implied (is_class a) (joins a)
        (all_below_sound 129 (λ x. not (is_class x) || joins x) a joins_table ha) ca in
    (==_iff (bit_or (a * 256) b) (a * 256 + b)).0 (
      implied (is_class b) (bit_or (a * 256) b == a * 256 + b)
        (all_below_sound 129 (λ x. not (is_class x) || bit_or (a * 256) x == a * 256 + x) b row hb)
        cb)

high_byte : (low high : ℕ) → low < 256 → (high * 256 + low) / 256 ≡ high
high_byte low high h = omega arith

low_byte : (low high : ℕ) → low < 256 → (high * 256 + low) % 256 ≡ low
low_byte low high h = omega arith

lookup16_joined :
    (low high : ℕ)
    → low < 256
    → high < 256
    → count_class_lookup16 (high * 256 + low)
      ≡ count_class_lookup8 high * 256 + count_class_lookup8 low
unfolding count_class_lookup16
lookup16_joined low high hl hh =
    let (class_low, small_low) = lookup8_class low hl in
    let (class_high, small_high) = lookup8_class high hh in
    rw (high_byte low high hl, low_byte low high hl)
      (joined (count_class_lookup8 high) (count_class_lookup8 low) small_high small_low class_high
        class_low)

-- A half of a word is looked up as its two bytes are.
lookup16_lem :
    (low high : ℕ)
    → low < 256
    → high < 256
    → (count_class_lookup16 (high * 256 + low) % 256 ≡ count_class_lookup8 low)
      × (count_class_lookup16 (high * 256 + low) / 256 ≡ count_class_lookup8 high)
lookup16_lem low high hl hh =
    let e = lookup16_joined low high hl hh in
    let small = (lookup8_class low hl).1 in (omega (arith, e, small), omega (arith, e, small))

-- Words of bytes that have halves.
abbrev pub HasHalves : Bytes → Type 0
HasHalves [] = Unit {0}
HasHalves (low ∷ []) = ⊥
HasHalves (low ∷ high ∷ bs) = (low < 256) × (high < 256) × HasHalves bs

abbrev pub AllHaveHalves : List Bytes → Type 0
AllHaveHalves [] = Unit {0}
AllHaveHalves (w ∷ mem) = HasHalves w × AllHaveHalves mem

classify_halves-map : (w : Bytes) → HasHalves w → classify_halves w ≡ map count_class_lookup8 w
unfolding classify_halves
classify_halves-map [] h = refl
classify_halves-map (low ∷ []) h = absurd h
classify_halves-map (low ∷ high ∷ bs) (hl, hh, h) =
    let (e_low, e_high) = lookup16_lem low high hl hh in
    rw (e_low, e_high, classify_halves-map bs h) refl

cons_class : {b : ℕ} {bs bs' : Bytes} → b ≡ 0 → bs ≡ bs' → (b ∷ bs) ≡ (count_class_lookup8 b ∷ bs')
unfolding count_class_lookup8
cons_class e rest = rw (e, rest) refl

classify_empty : (w : Bytes) → is_set w ≡ false → w ≡ map count_class_lookup8 w
unfolding count_class_lookup8
classify_empty [] h = refl
classify_empty (b ∷ bs) h =
    let (zero_here, zero_later) = apart (b == 0) (is_set bs) h in
    cons_class ((==_iff b 0).0 zero_here) (classify_empty bs zero_later)

-- For words of bytes with even lengths, `classify_counts`, which looks up two bytes at a time and
-- skips the words that are 0, replaces each byte by its entry in `count_class_lookup8`.
pub classify_counts-map :
    (mem : List Bytes) → AllHaveHalves mem → classify_counts mem ≡ map (map count_class_lookup8) mem
unfolding classify_counts
classify_counts-map [] h = refl
classify_counts-map (w ∷ mem) (hw, h) = elim (Bool-cases (is_set w)) [
  | inl e ↦ rw (e, classify_counts-map mem h, classify_halves-map w hw) refl
  | inr e ↦
      rw (e, classify_counts-map mem h)
        (ap (λ (x : Bytes). x ∷ map (map count_class_lookup8) mem) (classify_empty w e))
]
