-- ===== src/Kfifo/Alloc.antt =====
-- The creation of a FIFO: `generic_fls`, `roundup_pow_of_two`, `kfifo_init` and `kfifo_alloc`.
pub mod Fls
pub mod Create
use utils_modules.Base.{
  ℕ, ◌+◌, ◌-◌, ◌*◌, ◌%◌, ◌^◌, bit_and, Bool, true, false, not, List, Option, none, some, ltb, ◌==◌,
  if◌then◌else◌,
}
use utils_modules.Base.Words.{sub32}
use utils_modules.Kfifo.{Kfifo}

-- One test of `generic_fls`, on the bit pattern of `x`: `x <<= s; r -= s;` where no bit of the
-- mask is set.
unfoldable pub fls_step : ℕ → ℕ → ℕ × ℕ → ℕ × ℕ
fls_step mask s (x, r) = if bit_and x mask == 0 then (x * 2 ^ s % 2 ^ 32, r - s) else (x, r)

unfoldable pub fls_steps : ℕ → ℕ × ℕ
fls_steps x = fls_step 0x8000_0000 1 (
    fls_step 0xc000_0000 2
      (fls_step 0xf000_0000 4 (fls_step 0xff00_0000 8 (fls_step 0xffff_0000 16 (x, 32)))))

unfoldable pub generic_fls : ℕ → ℕ
generic_fls x = if x == 0 then 0 else (fls_steps x).1

-- The argument of `generic_fls` is the low word of `x - 1`.
pub roundup_pow_of_two : ℕ → ℕ
roundup_pow_of_two x = 2 ^ generic_fls ((x + 2 ^ 64 - 1) % 2 ^ 64 % 2 ^ 32)

-- `assert` failed, the null pointer, or a FIFO.
pub data Outcome : Type 0 where
  aborted : Outcome
  null : Outcome
  ready : Kfifo → Outcome

-- `assert(test)`: nothing is tested where NDEBUG is defined.
abbrev pub assert_then : Bool → Bool → Outcome → Outcome
assert_then true test next = next
assert_then false true next = next
assert_then false false next = aborted

abbrev pub sizeof_kfifo : ℕ
sizeof_kfifo = 32

-- `malloc` gives the bytes of a new region, or none.
module _ (ndebug : Bool) (malloc : ℕ → Option (List ℕ)) where
  pub init : List ℕ → ℕ → Outcome
  init buffer size =
      assert_then ndebug (not (bit_and size (sub32 size 1) == 0)) (elim (malloc sizeof_kfifo) [
        | none ↦ null
        | some _ ↦ ready (record { buffer = buffer; size = size; in_index = 0; out_index = 0 })
      ])

  -- `kfifo_alloc` from the call of `malloc` on.
  pub alloc_sized : ℕ → Outcome
  alloc_sized size = elim (malloc size) [ none ↦ null | some buffer ↦ init buffer size ]

  pub alloc : ℕ → Outcome
  alloc size =
      if bit_and size (sub32 size 1) == 0
      then alloc_sized size
      else assert_then ndebug (ltb 0x8000_0000 size)
          (alloc_sized (roundup_pow_of_two size % 2 ^ 32))
