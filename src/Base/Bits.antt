-- ===== src/Base/Bits.antt =====
-- `&` with masks, as arithmetic: the low k bits are the remainder by 2 ^ k, and a mask whose low
-- k bits are zero acts on the quotient.
use Prim.Native.Nat.{
  ℕ, zero, suc, ◌+◌, ◌-◌, ◌*◌, ◌/◌, ◌%◌, ◌^◌, ◌≤◌, ◌<◌, min, digits, bit_and, bit_and-bitwise,
}
use mathlib.Core.Path.{◌≡◌, refl, ap, sym, ◌∙◌}
use native.Mathlib.Nat.{pow-suc, pow-succ', one-le-pow, mod-lt, div-add-mod', div-div-eq-div-mul}
use native.Mathlib.Decide.{ℕ_discrete}
use native.Mathlib.Omega.{arith}

-- The fuel of the definition behind `bit_and` does not matter once it covers the first number.
fuel-irrelevant :
    (m n a b : ℕ) → a ≤ m → a ≤ n → digits (λ _. 0) min m a b ≡ digits (λ _. 0) min n a b
fuel-irrelevant zero zero a b p q = refl
fuel-irrelevant zero (suc n) zero b p q = refl
fuel-irrelevant (suc m) zero zero b p q = refl
fuel-irrelevant (suc m) (suc n) zero b p q = refl
fuel-irrelevant zero n (suc a) b p q = absurd (omega arith)
fuel-irrelevant (suc m) zero (suc a) b p q = absurd (omega arith)
fuel-irrelevant (suc m) (suc n) (suc a) b p q =
    ap (λ t. t * 2 + min (suc a % 2) (b % 2))
      (fuel-irrelevant m n (suc a / 2) (b / 2) (omega arith) (omega arith))

pub bit_and-halves : (a b : ℕ) → bit_and a b ≡ 2 * bit_and (a / 2) (b / 2) + min (a % 2) (b % 2)
bit_and-halves zero b = omega (arith, bit_and-bitwise zero b, bit_and-bitwise (zero / 2) (b / 2))
bit_and-halves (suc a) b = omega (
  arith,
  bit_and-bitwise (suc a) b,
  bit_and-bitwise (suc a / 2) (b / 2),
  fuel-irrelevant (suc a / 2) a (suc a / 2) (b / 2) (omega arith) (omega arith),
)

zero_right : (fuel a : ℕ) → a ≤ fuel → bit_and a 0 ≡ 0
zero_right fuel zero h = refl
zero_right zero (suc a) h = absurd (omega arith)
zero_right (suc fuel) (suc a) h =
    omega (arith, bit_and-halves (suc a) 0, zero_right fuel (suc a / 2) (omega arith))

pub bit_and-zero : (a : ℕ) → bit_and a 0 ≡ 0
bit_and-zero a = zero_right a a (omega arith)

pub zero-bit_and : (b : ℕ) → bit_and 0 b ≡ 0
zero-bit_and b = bit_and-bitwise 0 b

mask_fields : (k q r : ℕ) → r < 2 ^ k → bit_and (q * 2 ^ k + r) (2 ^ k - 1) ≡ r
mask_fields zero q r h = omega (arith, bit_and-zero (q * 2 ^ zero + r))
mask_fields (suc k) q r h = ground (
  arith,
  pow-suc 2 k,
  bit_and-halves (q * 2 ^ suc k + r) (2 ^ suc k - 1),
  ap (λ (t : ℕ). q * t) (pow-suc 2 k),
  mask_fields k q (r / 2) (omega (arith, pow-suc 2 k)),
)

pub bit_and-mask : (k a : ℕ) → bit_and a (2 ^ k - 1) ≡ a % 2 ^ k
bit_and-mask k a =
    let fields = mask_fields k (a / 2 ^ k) (a % 2 ^ k) (mod-lt a (one-le-pow k 2 (omega arith))) in
    rw (div-add-mod' a (2 ^ k)) at fields

bit_and-even : (a p : ℕ) → bit_and a (2 * p) ≡ 2 * bit_and (a / 2) p
bit_and-even a p =
    let half : 2 * p / 2 ≡ p = omega arith in
    let step = bit_and-halves a (2 * p) in rw half at step ∙ omega arith

pub bit_and-shifted : (k a m : ℕ) → bit_and a (m * 2 ^ k) ≡ bit_and (a / 2 ^ k) m * 2 ^ k
bit_and-shifted zero a m =
    let e : m * 2 ^ zero ≡ m = omega arith in
    let f : a / 2 ^ zero ≡ a = omega arith in rw (e, f) (omega arith)
bit_and-shifted (suc k) a m =
    let twice : m * 2 ^ suc k ≡ 2 * (m * 2 ^ k) =
      omega (arith, ap (λ (t : ℕ). m * t) (pow-suc 2 k)) in
    let quotient : a / 2 ^ suc k ≡ a / 2 / 2 ^ k =
      rw (pow-succ' 2 k) (sym (div-div-eq-div-mul a 2 (2 ^ k))) in
    rw (twice, quotient, bit_and-even, bit_and-shifted k (a / 2) m)
      (omega (arith, ap (λ (t : ℕ). bit_and (a / 2 / 2 ^ k) m * t) (pow-suc 2 k)))

self : (fuel a : ℕ) → a ≤ fuel → bit_and a a ≡ a
self fuel zero h = zero-bit_and 0
self zero (suc a) h = absurd (omega arith)
self (suc fuel) (suc a) h =
    omega (arith, bit_and-halves (suc a) (suc a), self fuel (suc a / 2) (omega arith))

-- No bit is shared by a number and its predecessor: then it is a power of two.
power_of_no_shared_bit :
    (fuel a : ℕ) → a ≤ fuel → 0 < a → bit_and a (a - 1) ≡ 0 → (k : ℕ) × (a ≡ 2 ^ k)
power_of_no_shared_bit zero a h pos e = absurd (omega arith)
power_of_no_shared_bit (suc fuel) a h pos e = elim (ℕ_discrete (a % 2) 0) [
  | yes even ↦
      let pred : (a - 1) / 2 ≡ a / 2 - 1 = omega arith in
      let (k, p) =
        power_of_no_shared_bit fuel (a / 2) (omega arith) (omega arith)
          (rw (← pred) (omega (arith, bit_and-halves a (a - 1)))) in
      (suc k, omega (arith, p, pow-suc 2 k))
  | no odd ↦
      let pred : (a - 1) / 2 ≡ a / 2 = omega arith in
      let step = bit_and-halves a (a - 1) in
      (0, omega (arith, rw pred at step, self (a / 2) (a / 2) (omega arith)))
]

pub power_of_bit_and : (a : ℕ) → 0 < a → bit_and a (a - 1) ≡ 0 → (k : ℕ) × (a ≡ 2 ^ k)
power_of_bit_and a = power_of_no_shared_bit a a (omega arith)
