-- ===== src/Kfifo/Alloc/Fls.antt =====
-- `generic_fls` and the position of the highest set bit; `roundup_pow_of_two` and the powers of two.
use utils_modules.Base.{
  ℕ, zero, suc, ◌+◌, ◌-◌, ◌*◌, ◌/◌, ◌%◌, ◌^◌, ◌≤◌, ◌<◌, ◌≡◌, refl, sym, ap, ◌∙◌, ◌⊎◌, inl, inr,
  arith, bit_and, ◌==◌, Bool-cases, ◌≢◌, dec_lt, ==_iff,
}
use native.Mathlib.Nat.{
  pow-suc, one-le-pow, mod-eq_of_lt, mul_assoc, mul-le-mul_right, le_of_mul-le-mul_right,
  lt_of_mul-lt-mul_right, mul-lt-mul_of_pos_right, div-lt_iff_lt-mul, le-div_iff_mul-le,
}
use utils_modules.Base.Bits.{bit_and-mask, bit_and-shifted}
use utils_modules.Kfifo.Alloc.{fls_step, fls_steps, generic_fls, roundup_pow_of_two}

pub two_pow-add : (a b : ℕ) → 2 ^ (a + b) ≡ 2 ^ a * 2 ^ b
two_pow-add a zero = let e : a + zero ≡ a = omega arith in rw e (omega arith)
two_pow-add a (suc b) =
    let e : a + suc b ≡ suc (a + b) = omega arith in
    rw (e, pow-suc 2 (a + b), pow-suc 2 b, two_pow-add a b) (omega arith)

-- The loop's pair: `x` shifted so far, with its highest bit among the top `s`.
record Shifted (x s : ℕ) (p : ℕ × ℕ) : Type 0 where
  scaled : p.0 ≡ x * 2 ^ (32 - p.1)
  low : 2 ^ (32 - s) ≤ p.0
  high : p.0 < 2 ^ 32
  left : s ≤ p.1
  most : p.1 ≤ 32

-- A mask of the top `s` bits tests whether a word lies below `2 ^ (32 - s)`.
top_bits :
    (s k mask x : ℕ)
    → k + s ≡ 32
    → mask ≡ (2 ^ s - 1) * 2 ^ k
    → bit_and x mask ≡ x / 2 ^ k % 2 ^ s * 2 ^ k
top_bits s k mask x e m = rw (m, bit_and-shifted k x (2 ^ s - 1), bit_and-mask s (x / 2 ^ k))

below_of_no_bits : (y p s : ℕ) → 0 < p → y < s * p → y / p % s * p ≡ 0 → y < p
below_of_no_bits y p s pos h e = elim (dec_lt y p) [
  | yes lt ↦ lt
  | no ge ↦
      let small : y / p % s ≡ y / p = mod-eq_of_lt ((div-lt_iff_lt-mul pos).1 h) in
      let large : 1 * p ≤ y / p * p =
        mul-le-mul_right p ((le-div_iff_mul-le pos).1 (omega arith)) in
      absurd (omega (arith, ap (λ (t : ℕ). t * p) small))
]

above_of_bits : (y p s : ℕ) → y / p % s * p ≢ 0 → p ≤ y
above_of_bits y p s ne = grind arith

module _ (x s k mask y r : ℕ) (word : k + s ≡ 32) (le : s ≤ k) (m : mask ≡ (2 ^ s - 1) * 2 ^ k)
    (v : Shifted x (s + s) (y, r)) where
  product : 2 ^ s * 2 ^ k ≡ 2 ^ 32
  product = let e : s + k ≡ 32 = omega arith in sym (two_pow-add s k) ∙ ap (λ t. 2 ^ t) e

  shift : y < 2 ^ k → Shifted x s (y * 2 ^ s % 2 ^ 32, r - s)
  shift lt = record {
    scaled =
        kept
        ∙ ap (λ (t : ℕ). t * 2 ^ s) v.scaled
        ∙ mul_assoc x (2 ^ (32 - r)) (2 ^ s)
        ∙ ap (λ t. x * t) more;
    low = rw (kept, bottom) (mul-le-mul_right (2 ^ s) v.low);
    high = omega arith;
    left = omega (arith, v.left);
    most = omega (arith, v.most);
  }
    where
      kept : y * 2 ^ s % 2 ^ 32 ≡ y * 2 ^ s
      kept = mod-eq_of_lt (
          omega
            (arith, mul-lt-mul_of_pos_right {k = 2 ^ s} lt (one-le-pow s 2 (omega arith)), product))

      more : 2 ^ (32 - r) * 2 ^ s ≡ 2 ^ (32 - (r - s))
      more = sym (two_pow-add (32 - r) s) ∙ ap (λ t. 2 ^ t) (sum v.left v.most)
        where
          sum : s + s ≤ r → r ≤ 32 → 32 - r + s ≡ 32 - (r - s)
          sum p q = omega arith

      bottom : 2 ^ (32 - s) ≡ 2 ^ (32 - (s + s)) * 2 ^ s
      bottom = ap (λ t. 2 ^ t) (omega arith) ∙ two_pow-add (32 - (s + s)) s

  keep : 2 ^ k ≤ y → Shifted x s (y, r)
  keep h = record {
    scaled = v.scaled;
    low = let e : 32 - s ≡ k = omega arith in rw e h;
    high = v.high;
    left = omega (arith, v.left);
    most = v.most;
  }

  fls_step-Shifted : Shifted x s (fls_step mask s (y, r))
  unfolding fls_step
  fls_step-Shifted = elim (Bool-cases (bit_and y mask == 0)) [
    | inl t ↦ rw t (
        shift (
          below_of_no_bits y (2 ^ k) (2 ^ s) (one-le-pow k 2 (omega arith))
            (omega (arith, product, v.high)) (sym (top_bits s k mask y word m) ∙ ground arith)))
    | inr t ↦ rw t (
        keep (
          above_of_bits y (2 ^ k) (2 ^ s)
            (λ none_set. cc ((==_iff _ 0).1 (top_bits s k mask y word m ∙ none_set)))))
  ]

fls_steps-Shifted : (x : ℕ) → 0 < x → x < 2 ^ 32 → Shifted x 1 (fls_steps x)
unfolding fls_steps
fls_steps-Shifted x pos word = fls_step-Shifted x 1 31 0x8000_0000 _ _ refl (omega arith) refl (
    fls_step-Shifted x 2 30 0xc000_0000 _ _ refl (omega arith) refl (
      fls_step-Shifted x 4 28 0xf000_0000 _ _ refl (omega arith) refl (
        fls_step-Shifted x 8 24 0xff00_0000 _ _ refl (omega arith) refl (
          fls_step-Shifted x 16 16 0xffff_0000 x 32 refl (omega arith) refl (record {
            scaled = omega arith;
            low = omega arith;
            high = word;
            left = omega arith;
            most = omega arith;
          })))))

-- A shifted word between 2 ^ 31 and 2 ^ 32 brackets the number itself.
bracket : (x y r : ℕ) → Shifted x 1 (y, r) → (2 ^ (r - 1) ≤ x) × (x < 2 ^ r)
bracket x y r v = (
  le_of_mul-le-mul_right (omega (arith, v.low, v.scaled, lower)) positive,
  lt_of_mul-lt-mul_right (2 ^ (32 - r)) (omega (arith, v.high, v.scaled, upper)),
)
  where
    positive : 0 < 2 ^ (32 - r)
    positive = one-le-pow (32 - r) 2 (omega arith)

    lower : 2 ^ (r - 1) * 2 ^ (32 - r) ≡ 2 ^ 31
    lower =
        let e : r - 1 + (32 - r) ≡ 31 = omega (arith, v.left, v.most) in
        sym (two_pow-add (r - 1) (32 - r)) ∙ ap (λ t. 2 ^ t) e

    upper : 2 ^ r * 2 ^ (32 - r) ≡ 2 ^ 32
    upper =
        let e : r + (32 - r) ≡ 32 = omega (arith, v.left, v.most) in
        sym (two_pow-add r (32 - r)) ∙ ap (λ t. 2 ^ t) e

-- Of a nonzero 32-bit number `generic_fls` gives the position of the highest set bit, counted from
-- 1; of 0 it gives 0.
pub generic_fls_lem :
    (x : ℕ)
    → x < 2 ^ 32
    → ((x ≡ 0) × (generic_fls x ≡ 0))
      ⊎ (0 < generic_fls x)
        × (generic_fls x ≤ 32)
        × (2 ^ (generic_fls x - 1) ≤ x)
        × (x < 2 ^ generic_fls x)
unfolding generic_fls
generic_fls_lem zero h = inl (refl, refl)
generic_fls_lem (suc m) h =
    let v = fls_steps-Shifted (suc m) (omega arith) h in
    let b = bracket (suc m) (fls_steps (suc m)).0 (fls_steps (suc m)).1 v in
    let e : generic_fls (suc m) ≡ (fls_steps (suc m)).1 = ground arith in
    rw e (inr (v.left, v.most, b.0, b.1))

two_pow-pred : (k : ℕ) → 2 ^ k ≤ 2 * 2 ^ (k - 1)
two_pow-pred zero = omega arith
two_pow-pred (suc k) = let e : suc k - 1 ≡ k = omega arith in rw e (omega (arith, pow-suc 2 k))

-- For 1 < x ≤ 2 ^ 32 the result of `roundup_pow_of_two` is a power of two, is at least x, and is
-- less than twice x.
pub roundup_bounds :
    (x : ℕ)
    → 1 < x
    → x ≤ 2 ^ 32
    → (k : ℕ) × (k ≤ 32) × (roundup_pow_of_two x ≡ 2 ^ k) × (x ≤ 2 ^ k) × (2 ^ k < 2 * x)
unfolding roundup_pow_of_two
roundup_bounds x low high =
    let word : (x + 2 ^ 64 - 1) % 2 ^ 64 % 2 ^ 32 ≡ x - 1 = omega arith in
    (generic_fls (x - 1), below.0, rw word, omega (arith, below.2), omega (arith, below.1, double))
  where
    below :
        (generic_fls (x - 1) ≤ 32)
        × (2 ^ (generic_fls (x - 1) - 1) ≤ x - 1)
        × (x - 1 < 2 ^ generic_fls (x - 1))
    below = elim (generic_fls_lem (x - 1) (omega arith)) [
      | inl z ↦ absurd (omega (arith, z.0))
      | inr b ↦ (b.1, b.2, b.3)
    ]

    double : 2 ^ generic_fls (x - 1) ≤ 2 * 2 ^ (generic_fls (x - 1) - 1)
    double = elim (generic_fls_lem (x - 1) (omega arith)) [
      | inl z ↦ absurd (omega (arith, z.0))
      | inr b ↦ two_pow-pred (generic_fls (x - 1))
    ]
