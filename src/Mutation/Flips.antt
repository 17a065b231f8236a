-- ===== src/Mutation/Flips.antt =====
-- `could_be_bitflip` (afl-fuzz.c) against the flips that the deterministic stages make.
use aflnet_legion.Common.{
  ℕ, zero, suc, ◌+◌, ◌*◌, ◌/◌, ◌%◌, ◌^◌, ◌≤◌, ◌<◌, ◌≡◌, ◌↔◌, ◌⊎◌, refl, Bool, true, ◌||◌, ◌==◌,
  if◌then◌else◌, arith, ap, subst, sym, ◌∙◌, Bool-cases, inl, inr, shift_one, shift_one_bound,
  ℕ_discrete, dec_lt,
}
use aflnet_legion.Mutation.{shift_loop, is_pattern, could_be_bitflip}

-- One, two or four bits; eight, sixteen or thirty-two.
abbrev pub is_small : ℕ → Bool
is_small p = p == 1 || p == 3 || p == 15

abbrev pub is_wide : ℕ → Bool
is_wide p = p == 0xff || p == 0xffff || p == 0xffffffff

-- No change, a few bits anywhere, or whole bytes at a byte's place.
abbrev pub IsFlip : ℕ → Type 0
IsFlip x =
    (x ≡ 0)
    ⊎ ((sh : ℕ) × ((p : ℕ) × (x ≡ p * shift_one sh)
          × ((is_small p ≡ true) ⊎ (is_wide p ≡ true) × (sh % 8 ≡ 0))))

half_power : (p n : ℕ) → (p * (n * 2) / 2 ≡ p * n) × (p * (n * 2) % 2 ≡ 0)
half_power p n =
    let e : p * (n * 2) ≡ (p * n) * 2 = omega arith in (rw e (omega arith), rw e (omega arith))

pair_path : (a b c d : ℕ) → a ≡ c → b ≡ d → ◌≡◌ {A = ℕ × ℕ} (a, b) (c, d)
pair_path a b c d e h = ap (λ (x : ℕ). (x, b)) e ∙ ap (λ (y : ℕ). (c, y)) h

shift_odd : (fuel sh x : ℕ) → x % 2 ≡ 1 → shift_loop (suc fuel) sh x ≡ (sh, x)
unfolding shift_loop
shift_odd fuel sh x odd = rw (shift_loop, odd) refl

shift_even :
    (fuel sh x : ℕ) → x % 2 ≡ 0 → shift_loop (suc fuel) sh x ≡ shift_loop fuel (sh + 1) (x / 2)
unfolding shift_loop
shift_even fuel sh x even = rw (shift_loop, even) refl

shift_loop-odd :
    (k fuel sh p : ℕ) → p % 2 ≡ 1 → k < fuel → shift_loop fuel sh (p * shift_one k) ≡ (sh + k, p)
shift_loop-odd k zero sh p odd h = absurd (omega (arith, h))
shift_loop-odd zero (suc fuel) sh p odd h =
    shift_odd fuel sh (p * 1) (omega (arith, odd))
    ∙ pair_path sh (p * 1) (sh + 0) p (omega arith) (omega arith)
shift_loop-odd (suc k) (suc fuel) sh p odd h =
    let half = half_power p (shift_one k) in
    shift_even fuel sh (p * (shift_one k * 2)) half.1
    ∙ ap (shift_loop fuel (sh + 1)) half.0
    ∙ shift_loop-odd k fuel (sh + 1) p odd (omega (arith, h))
    ∙ pair_path (sh + 1 + k) p (sh + suc k) p (omega arith) refl

double : (x p n : ℕ) → x % 2 ≡ 0 → x / 2 ≡ p * n → x ≡ p * (n * 2)
double x p n even e =
    let whole : x ≡ (x / 2) * 2 = omega (arith, even) in
    whole ∙ ap (λ (y : ℕ). y * 2) e ∙ (omega arith)

factor :
    (fuel x : ℕ)
    → 1 ≤ x
    → x < shift_one fuel
    → (k : ℕ) × ((p : ℕ) × (x ≡ p * shift_one k) × (p % 2 ≡ 1) × (k < fuel))
factor zero x one h = absurd (omega (arith, one, h))
factor (suc fuel) x one h = elim (ℕ_discrete (x % 2) 1) [
  | yes odd ↦ (0, (x, omega arith, odd, omega arith))
  | no even ↦
      let (k, (p, e, odd, below)) =
        factor fuel (x / 2) (omega (arith, one, even)) (omega (arith, h)) in
      (suc k, (p, double x p (shift_one k) (omega (arith, even)) e, odd, omega (arith, below)))
]

could_be_bitflip-odd :
    (k p : ℕ)
    → p % 2 ≡ 1
    → k < 32
    → could_be_bitflip (p * shift_one k)
      ≡ (if p * shift_one k == 0 then true else is_pattern (k, p))
unfolding could_be_bitflip
could_be_bitflip-odd k p odd h =
    let looped : ◌≡◌ {A = ℕ × ℕ} (shift_loop 32 0 (p * shift_one k)) (k, p) =
      shift_loop-odd k 32 0 p odd h ∙ pair_path (0 + k) p k p (omega arith) refl in
    rw (could_be_bitflip, looped) refl

pattern_odd : (p : ℕ) → (is_small p ≡ true) ⊎ (is_wide p ≡ true) → p % 2 ≡ 1
pattern_odd p (inl h) = ground (arith, h)
pattern_odd p (inr h) = ground (arith, h)

is_pattern_iff :
    (sh p : ℕ) → is_pattern (sh, p) ≡ true → (is_small p ≡ true) ⊎ (is_wide p ≡ true) × (sh % 8 ≡ 0)
unfolding is_pattern
is_pattern_iff sh p h = elim (Bool-cases (is_small p)) [
  | inl small ↦ inl small
  | inr other ↦ inr (ground (arith, h, other), ground (arith, h, other))
]

is_pattern-small : (sh p : ℕ) → is_small p ≡ true → is_pattern (sh, p) ≡ true
unfolding is_pattern
is_pattern-small sh p h = ground (arith, h)

is_pattern-wide : (sh p : ℕ) → is_wide p ≡ true → sh % 8 ≡ 0 → is_pattern (sh, p) ≡ true
unfolding is_pattern
is_pattern-wide sh p h even = ground (arith, h, even)

no_zero : (n p : ℕ) → p % 2 ≡ 1 → 1 ≤ n → 1 ≤ p * n
no_zero n zero odd h = absurd (omega (arith, odd))
no_zero n (suc p) odd h = omega (arith, h)

shift_one_some : (k : ℕ) → 1 ≤ shift_one k
shift_one_some zero = omega arith
shift_one_some (suc k) = omega (arith, shift_one_some k)

far_shift : (sh : ℕ) → 32 ≤ sh → shift_one 32 ≤ shift_one sh
far_shift sh h = elim (ℕ_discrete sh 32) [
  | yes same ↦ rw same (omega arith)
  | no other ↦ omega (arith, shift_one_bound sh 32 (omega (arith, h, other)))
]

in_word : (sh p : ℕ) → p % 2 ≡ 1 → p * shift_one sh < shift_one 32 → sh < 32
in_word sh zero odd h = absurd (omega (arith, odd))
in_word sh (suc p) odd h = elim (dec_lt sh 32) [
  | yes below ↦ below
  | no above ↦ absurd (omega (arith, h, far_shift sh (omega (arith, above))))
]

flips-odd : (k p : ℕ) → p % 2 ≡ 1 → k < 32 → could_be_bitflip (p * shift_one k) ≡ is_pattern (k, p)
flips-odd k p odd h =
    let some_bit = no_zero (shift_one k) p odd (shift_one_some k) in
    could_be_bitflip-odd k p odd h ∙ ground (arith, some_bit)

from_flip : (x : ℕ) → x < shift_one 32 → IsFlip x → could_be_bitflip x ≡ true
unfolding could_be_bitflip
from_flip x bound (inl none_set) = rw none_set refl
from_flip x bound (inr (sh, (p, e, kind))) =
    let odd = pattern_odd p (elim kind [ inl small ↦ inl small | inr (wide, at) ↦ inr wide ]) in
    let below = in_word sh p odd (subst (λ (y : ℕ). y < shift_one 32) e bound) in
    ap could_be_bitflip e ∙ flips-odd sh p odd below ∙ elim kind [
      | inl small ↦ is_pattern-small sh p small
      | inr (wide, at) ↦ is_pattern-wide sh p wide at
    ]

to_flip : (x : ℕ) → x < shift_one 32 → could_be_bitflip x ≡ true → IsFlip x
to_flip zero bound h = inl refl
to_flip (suc x) bound h =
    let (k, (p, e, odd, below)) = factor 32 (suc x) (omega arith) bound in
    inr (k, (p, e, is_pattern_iff k p (sym (ap could_be_bitflip e ∙ flips-odd k p odd below) ∙ h)))

-- For a `u32`, `could_be_bitflip` says yes exactly if the number is 0, a run of one, two or four set
-- bits at any place, or a run of eight, sixteen or thirty-two at a multiple of eight.
pub could_be_bitflip-IsFlip : (x : ℕ) → x < 2 ^ 32 → (could_be_bitflip x ≡ true) ↔ IsFlip x
could_be_bitflip-IsFlip x bound =
    let bound' : x < shift_one 32 = bound in (to_flip x bound', from_flip x bound')
