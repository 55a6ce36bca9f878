-- ===== src/Base/Words.antt =====
-- Unsigned 32-bit arithmetic, and remainders by powers of two.
use Prim.Native.Nat.{ℕ, zero, suc, ◌+◌, ◌-◌, ◌%◌, ◌^◌, ◌≤◌, ◌<◌, ◌∣◌}
use mathlib.Core.Path.{◌≡◌, ap, sym, ◌∙◌}
use native.Mathlib.Nat.{
  pow-suc, dvd_refl, dvd_trans, dvd-mul_right, mod-mod_of_dvd, mod-add-mod, mod-eq_of_lt,
  mod-eq-sub-mod,
}
use native.Mathlib.Omega.{arith}
use utils_modules.Base.Tests.{ltb, if◌then◌else◌}

abbrev pub u32_mod : ℕ
u32_mod = 2 ^ 32

abbrev pub add32 : ℕ → ℕ → ℕ
add32 a b = (a + b) % 2 ^ 32

abbrev pub sub32 : ℕ → ℕ → ℕ
sub32 a b = (a + 2 ^ 32 - b) % 2 ^ 32

two_pow_dvd : (k n d : ℕ) → n ≡ k + d → 2 ^ k ∣ 2 ^ n
two_pow_dvd k n zero e = let e' : n ≡ k = omega arith in rw e' (dvd_refl (2 ^ k))
two_pow_dvd k zero (suc d) e = absurd (omega arith)
two_pow_dvd k (suc n) (suc d) e =
    rw (pow-suc 2 n) (dvd_trans (2 ^ k) (two_pow_dvd k n d (omega arith)) (dvd-mul_right (2 ^ n) 2))

-- The low bits of a sum do not see that it wrapped round.
pub wrapped-mod : (k x j : ℕ) → k ≤ 32 → (x % 2 ^ 32 + j) % 2 ^ k ≡ (x + j) % 2 ^ k
wrapped-mod k x j h =
    sym (mod-add-mod (x % 2 ^ 32) (2 ^ k) j)
    ∙ ap (λ (t : ℕ). (t + j) % 2 ^ k)
        (mod-mod_of_dvd (2 ^ k) x (two_pow_dvd k 32 (32 - k) (omega arith)))
    ∙ mod-add-mod x (2 ^ k) j

-- The index `j` steps after `off`, going round at `size`.
abbrev pub wrap : ℕ → ℕ → ℕ
wrap size x = if ltb x size then x else x - size

pub mod-eq-wrap : (size x j : ℕ) → 0 < size → j < size → (x + j) % size ≡ wrap size (x % size + j)
mod-eq-wrap size x j p h = ground (
  arith,
  mod-add-mod x size j,
  mod-eq_of_lt {n = x % size + j} {m = size},
  mod-eq_of_lt {n = x % size + j - size} {m = size},
  mod-eq-sub-mod {n = x % size + j} {m = size},
)
