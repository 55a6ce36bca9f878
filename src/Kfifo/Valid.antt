-- ===== src/Kfifo/Valid.antt =====
-- The representation invariant of `struct kfifo`, and the arithmetic of its indices.
use utils_modules.Base.{ℕ, ◌+◌, ◌-◌, ◌%◌, ◌^◌, ◌≤◌, ◌<◌, ◌≡◌, sym, ◌∙◌, arith, length}
use utils_modules.Base.Bits.{bit_and-mask}
use utils_modules.Base.Words.{add32, sub32, wrap, wrapped-mod, mod-eq-wrap}
use native.Mathlib.Nat.{one-le-pow, pow-le-pow_right, mod-lt}
use utils_modules.Kfifo.{Kfifo, offset, len}

pub record IsValid (f : Kfifo) : Type 0 where
  pub order : ℕ
  pub small : order < 32
  pub power : f.size ≡ 2 ^ order
  pub storage : length f.buffer ≡ f.size
  pub in_word : f.in_index < 2 ^ 32
  pub out_word : f.out_index < 2 ^ 32
  pub within : len f ≤ f.size

module _ {f : Kfifo} (v : IsValid f) where
  open v use {order, small, power}

  pub size_pos : 0 < f.size
  size_pos = omega (arith, one-le-pow order 2 (omega arith))

  pub size-le : f.size ≤ 2 ^ 31
  size-le = omega (arith, pow-le-pow_right {n = 2} (omega arith) {i = order} {j = 31} (omega arith))

  -- `index & (size - 1)` is the remainder by the size.
  pub offset-eq-mod : (index : ℕ) → offset f index ≡ index % f.size
  offset-eq-mod index =
      let mask : sub32 f.size 1 ≡ 2 ^ order - 1 = omega (arith, size_pos, size-le) in
      rw (mask, power) (bit_and-mask order index)

  pub offset-lt : (index : ℕ) → offset f index < f.size
  offset-lt index = omega (arith, offset-eq-mod index, mod-lt index size_pos)

  pub wrapped-mod_size : (x j : ℕ) → (x % 2 ^ 32 + j) % f.size ≡ (x + j) % f.size
  wrapped-mod_size x j = rw power (wrapped-mod order x j (omega arith))

  -- The byte `j` after an index that may have wrapped lies `j` steps round from its offset.
  pub mod-eq-wrap-offset :
      (x index j : ℕ)
      → index ≡ x % 2 ^ 32
      → j < f.size
      → (x + j) % f.size ≡ wrap f.size (offset f index + j)
  mod-eq-wrap-offset x index j e h =
      rw (offset-eq-mod index, e)
        (sym (wrapped-mod_size x j) ∙ mod-eq-wrap f.size (x % 2 ^ 32) j size_pos h)

  -- The free space as `__kfifo_put` computes it.
  pub free_lem : add32 (sub32 f.size f.in_index) f.out_index ≡ f.size - len f
  unfolding len
  free_lem = omega (arith, size-le)

  pub in-eq-add : f.in_index ≡ (f.out_index + len f) % 2 ^ 32
  unfolding len
  in-eq-add = omega arith
