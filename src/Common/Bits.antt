-- ===== src/Common/Bits.antt =====
-- The bits of numbers, and the operations of C on them.
use Prim.Native.Nat.{
  ℕ, zero, suc, ◌+◌, ◌-◌, ◌*◌, ◌/◌, ◌%◌, ◌≤◌, ◌<◌, min, max, bit_and, bit_or, digits,
  bit_and-bitwise, bit_or-bitwise,
}
use mathlib.Core.Bool.{Bool, true, ◌&&◌}
use mathlib.Core.Path.{◌≡◌, refl, sym, ap, ◌∙◌}
use mathlib.Core.Logic.{◌≢◌}
use native.Mathlib.Nat.{mul_assoc}
use native.Mathlib.Omega.{arith}

-- A count of digits to go serves as soon as it is no less than the number.
module _ (z : ℕ → ℕ) (f : ℕ → ℕ → ℕ) where
  digits_any : (n m a b : ℕ) → a ≤ n → a ≤ m → digits z f n a b ≡ digits z f m a b
  digits_any zero zero a b h k = refl
  digits_any zero (suc m) zero b h k = refl
  digits_any zero (suc m) (suc a) b h k = absurd (omega arith)
  digits_any (suc n) zero zero b h k = refl
  digits_any (suc n) zero (suc a) b h k = absurd (omega arith)
  digits_any (suc n) (suc m) zero b h k = refl
  digits_any (suc n) (suc m) (suc a) b h k =
      ap (λ (rest : ℕ). rest * 2 + f (suc a % 2) (b % 2))
        (digits_any n m (suc a / 2) (b / 2) (omega arith) (omega arith))

pub bit_and_none : (b : ℕ) → bit_and 0 b ≡ 0
bit_and_none b = bit_and-bitwise 0 b

-- The lowest digit apart from the others.
pub bit_and_low : (a b : ℕ) → bit_and a b ≡ bit_and (a / 2) (b / 2) * 2 + min (a % 2) (b % 2)
bit_and_low zero b = omega (arith, bit_and_none b, bit_and_none (b / 2))
bit_and_low (suc a) b =
    bit_and-bitwise (suc a) b
    ∙ ap (λ (rest : ℕ). rest * 2 + min (suc a % 2) (b % 2))
        (digits_any (λ x. zero) min a (suc a / 2) (suc a / 2) (b / 2) (omega arith) (omega arith)
          ∙ sym (bit_and-bitwise (suc a / 2) (b / 2)))

-- The bit at a place, counted from the lowest.
abbrev pub bit : ℕ → ℕ → ℕ
bit zero a = a % 2
bit (suc k) a = bit k (a / 2)

pub bit-bit_and : (k a b : ℕ) → bit k (bit_and a b) ≡ min (bit k a) (bit k b)
bit-bit_and zero a b = omega (arith, bit_and_low a b)
bit-bit_and (suc k) a b =
    ap (bit k) (omega (arith, bit_and_low a b)) ∙ bit-bit_and k (a / 2) (b / 2)

-- `1 << k`.
abbrev pub shift_one : ℕ → ℕ
shift_one zero = 1
shift_one (suc k) = shift_one k * 2

-- `~` of a number with so many bits.
abbrev pub complement : ℕ → ℕ → ℕ
complement n a = shift_one n - 1 - a

complement_low :
    (n a : ℕ)
    → a < shift_one (suc n)
    → (complement (suc n) a / 2 ≡ complement n (a / 2))
      × (complement (suc n) a % 2 ≡ 1 - a % 2)
      × (a / 2 < shift_one n)
complement_low n a h = (omega arith, omega arith, omega arith)

pub bit-complement : (n k a : ℕ) → k < n → a < shift_one n → bit k (complement n a) ≡ 1 - bit k a
bit-complement zero k a h b = absurd (omega arith)
bit-complement (suc n) zero a h b = (complement_low n a b).1
bit-complement (suc n) (suc k) a h b =
    ap (bit k) (complement_low n a b).0
    ∙ bit-complement n k (a / 2) (omega arith) (complement_low n a b).2

-- A number is made of its bits under a mask and its bits under the mask's complement.
pub bit_and_parts :
    (n a b : ℕ) → a < shift_one n → b < shift_one n → bit_and a b + bit_and b (complement n a) ≡ b
bit_and_parts zero zero zero h k = refl
bit_and_parts zero zero (suc b) h k = absurd (omega arith)
bit_and_parts zero (suc a) b h k = absurd (omega arith)
bit_and_parts (suc n) a b h k = omega (
  arith,
  bit_and_low a b,
  bit_and_low b (complement (suc n) a),
  ap (bit_and (b / 2)) (complement_low n a h).0,
  (complement_low n a h).1,
  bit_and_parts n (a / 2) (b / 2) (omega arith) (omega arith),
)

rest_high :
    (n a b : ℕ)
    → a < shift_one (suc n)
    → bit_and b (complement (suc n) a) / 2 ≡ bit_and (b / 2) (complement n (a / 2))
rest_high n a b h =
    omega
      (arith, bit_and_low b (complement (suc n) a), ap (bit_and (b / 2)) (complement_low n a h).0)

-- What is left without the mask has nothing in common with it.
pub bit_and_apart :
    (n a b : ℕ) → a < shift_one n → b < shift_one n → bit_and a (bit_and b (complement n a)) ≡ 0
bit_and_apart zero zero b h k = bit_and_none (bit_and b (complement 0 0))
bit_and_apart zero (suc a) b h k = absurd (omega arith)
bit_and_apart (suc n) a b h k =
    let rest = bit_and b (complement (suc n) a) in
    omega (
      arith,
      bit_and_low a rest,
      bit_and_low b (complement (suc n) a),
      (complement_low n a h).1,
      ap (bit_and (a / 2)) (rest_high n a b h),
      bit_and_apart n (a / 2) (b / 2) (omega arith) (omega arith),
    )

bit_and_below : (n a b : ℕ) → a ≤ n → bit_and a b ≤ b
bit_and_below n zero b h = omega (arith, bit_and_none b)
bit_and_below zero (suc a) b h = absurd (omega arith)
bit_and_below (suc n) (suc a) b h =
    omega (arith, bit_and_low (suc a) b, bit_and_below n (suc a / 2) (b / 2) (omega arith))

pub bit_and_bound : (a b : ℕ) → bit_and a b ≤ b
bit_and_bound a b = bit_and_below a a b (omega arith)

halved : (n : ℕ) → n * 2 / 2 ≡ n
halved n = omega arith

-- A test of one bit, as `a & (1 << k)` makes it.
pub bit_and-shift_one : (k a : ℕ) → bit_and a (shift_one k) ≡ bit k a * shift_one k
bit_and-shift_one zero a = omega (arith, bit_and_low a 1, bit_and_bound (a / 2) 0)
bit_and-shift_one (suc k) a = omega (
  arith,
  bit_and_low a (shift_one k * 2),
  ap (bit_and (a / 2)) (halved (shift_one k)),
  bit_and-shift_one k (a / 2),
  mul_assoc (bit k (a / 2)) (shift_one k) 2,
)

-- A test of all numbers below a bound, by evaluation.
abbrev pub all_below : ℕ → (ℕ → Bool) → Bool
all_below zero p = true
all_below (suc n) p = p n && all_below n p

pub all_below_sound : (n : ℕ) (p : ℕ → Bool) (x : ℕ) → all_below n p ≡ true → x < n → p x ≡ true
all_below_sound zero p x all h = absurd (omega arith)
all_below_sound (suc n) p x all h = ground (arith, all_below_sound n p x)

pub bit_le : (k a : ℕ) → bit k a ≤ 1
bit_le zero a = omega arith
bit_le (suc k) a = bit_le k (a / 2)

shift_one_positive : (k : ℕ) → 1 ≤ shift_one k
shift_one_positive zero = omega arith
shift_one_positive (suc k) = omega (arith, shift_one_positive k)

no_bit : (b s : ℕ) → b ≤ 1 → 1 ≤ s → b * s ≡ 0 → b ≡ 0
no_bit zero s h p e = refl
no_bit (suc zero) s h p e = absurd (omega arith)
no_bit (suc (suc b)) s h p e = absurd (omega arith)

-- A bit whose test fails is 0.
pub bit_unset : (k a : ℕ) → bit_and a (shift_one k) ≡ 0 → bit k a ≡ 0
bit_unset k a e =
    no_bit (bit k a) (shift_one k) (bit_le k a) (shift_one_positive k)
      (sym (bit_and-shift_one k a) ∙ e)

bit_or_none : (b : ℕ) → bit_or 0 b ≡ b
bit_or_none b = bit_or-bitwise 0 b

bit_or_low : (a b : ℕ) → bit_or a b ≡ bit_or (a / 2) (b / 2) * 2 + max (a % 2) (b % 2)
bit_or_low zero b = omega (arith, bit_or_none b, bit_or_none (b / 2))
bit_or_low (suc a) b =
    bit_or-bitwise (suc a) b
    ∙ ap (λ (rest : ℕ). rest * 2 + max (suc a % 2) (b % 2))
        (digits_any (λ x. x) max a (suc a / 2) (suc a / 2) (b / 2) (omega arith) (omega arith)
          ∙ sym (bit_or-bitwise (suc a / 2) (b / 2)))

pub bit-bit_or : (k a b : ℕ) → bit k (bit_or a b) ≡ max (bit k a) (bit k b)
bit-bit_or zero a b = omega (arith, bit_or_low a b)
bit-bit_or (suc k) a b = ap (bit k) (omega (arith, bit_or_low a b)) ∙ bit-bit_or k (a / 2) (b / 2)

pub bit_or_bound : (n a b : ℕ) → a < shift_one n → b < shift_one n → bit_or a b < shift_one n
bit_or_bound zero zero zero h k = omega (arith, bit_or_none 0)
bit_or_bound zero zero (suc b) h k = absurd (omega arith)
bit_or_bound zero (suc a) b h k = absurd (omega arith)
bit_or_bound (suc n) a b h k =
    omega (arith, bit_or_low a b, bit_or_bound n (a / 2) (b / 2) (omega arith) (omega arith))

pub bit_zero : (k : ℕ) → bit k 0 ≡ 0
bit_zero zero = refl
bit_zero (suc k) = bit_zero k

pub bit-shift_one_same : (k : ℕ) → bit k (shift_one k) ≡ 1
bit-shift_one_same zero = refl
bit-shift_one_same (suc k) = ap (bit k) (halved (shift_one k)) ∙ bit-shift_one_same k

pub bit-shift_one_other : (k j : ℕ) → k ≢ j → bit k (shift_one j) ≡ 0
bit-shift_one_other zero zero ne = absurd (ne refl)
bit-shift_one_other zero (suc j) ne = omega arith
bit-shift_one_other (suc k) zero ne = bit_zero k
bit-shift_one_other (suc k) (suc j) ne =
    ap (bit k) (halved (shift_one j)) ∙ bit-shift_one_other k j (λ e. ne (ap suc e))

pub shift_one_bound : (n k : ℕ) → k < n → shift_one k < shift_one n
shift_one_bound zero k h = absurd (omega arith)
shift_one_bound (suc n) zero h = omega (arith, shift_one_positive n)
shift_one_bound (suc n) (suc k) h = omega (arith, shift_one_bound n k (omega arith))
