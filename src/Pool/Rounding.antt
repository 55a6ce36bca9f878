-- ===== src/Pool/Rounding.antt =====
-- The rounding of sizes and addresses to `POOL_ALIGNMENT`, and what `block->end - block->current`
-- leaves.
use utils_modules.Base.{
  ℕ, ◌+◌, ◌-◌, ◌*◌, ◌/◌, ◌%◌, ◌^◌, ◌≤◌, ◌<◌, ◌≡◌, refl, arith, bit_and, some, none,
}
use native.Mathlib.Nat.{div-mul-le_self, lt-div-mul-add, mod-eq_of_lt}
use utils_modules.Base.Bits.{bit_and-mask, bit_and-shifted}
use utils_modules.Pool.{
  Block, align_ptr, round_size, alloc_from_block, block_size, new_block, sizeof_block,
}

low_two : (x : ℕ) → bit_and x 3 ≡ x % 4
low_two x = bit_and-mask 2 x

clear_low_two : (x : ℕ) → x < 2 ^ 64 → bit_and x (2 ^ 64 - 4) ≡ x / 4 * 4
clear_low_two x h =
    let q : bit_and (x / 2 ^ 2) (2 ^ 62 - 1) ≡ x / 4 % 2 ^ 62 = bit_and-mask 62 (x / 4) in
    omega (arith, bit_and-shifted 2 x (2 ^ 62 - 1), q)

pub align_ptr-bounds :
    (p : ℕ) → p < 2 ^ 64 → (p ≤ align_ptr p) × (align_ptr p < p + 4) × (align_ptr p % 4 ≡ 0)
unfolding align_ptr
align_ptr-bounds p h = omega (arith, low_two ((2 ^ 64 - p) % 2 ^ 64))

-- A size that leaves room to round is rounded up to a multiple of 4, by 3 at most.
pub round_size-bounds :
    (size : ℕ)
    → size + 4 < 2 ^ 64
    → (size ≤ round_size size) × (round_size size < size + 4) × (round_size size % 4 ≡ 0)
unfolding round_size
round_size-bounds size h = ground (arith, low_two size, clear_low_two ((size + 4) % 2 ^ 64))

pub round_size-overflow : (size : ℕ) → 2 ^ 64 < size + 4 → size < 2 ^ 64 → round_size size ≡ 0
unfolding round_size
round_size-overflow size h k = ground (arith, low_two size, clear_low_two ((size + 4) % 2 ^ 64))

-- A block whose pointers are in order.
pub record IsBlock (b : Block) : Type 0 where
  pub header : b.base + sizeof_block ≤ b.start
  pub opened : b.start ≤ b.current
  pub filled : b.current ≤ b.end
  pub word : b.end < 2 ^ 64
  pub aligned : b.current % 4 ≡ 0

-- The size of the new block suffices: `assert(p != NULL)` of `mdl_pool_allocate_find` holds.
pub block_size-enough :
    (increment size : ℕ)
    → 0 < increment
    → size + increment + 44 < 2 ^ 64
    → (size + 44 ≤ block_size increment size) × (block_size increment size ≤ size + increment + 44)
unfolding block_size
block_size-enough increment size pos h =
    let total : (size + increment + 40 + 4) % 2 ^ 64 ≡ size + increment + 44 = omega arith in
    let test : (size + 40 + 4) % 2 ^ 64 ≡ size + 44 = omega arith in
    let under = div-mul-le_self (size + increment + 44) increment in
    let over = lt-div-mul-add {a = size + increment + 44} {b = increment} pos in
    let word : (size + increment + 44) / increment * increment % 2 ^ 64
        ≡ (size + increment + 44) / increment * increment =
      mod-eq_of_lt (omega arith) in
    rw (total, test, word) (ground arith)

-- A block made of fresh memory, aligned as `malloc` aligns, starts at its header's end.
pub new_block-IsBlock :
    (base size : ℕ)
    → base % 4 ≡ 0
    → base + size < 2 ^ 64
    → sizeof_block ≤ size
    → IsBlock (new_block base size)
      × ((new_block base size).start ≡ base + sizeof_block)
      × ((new_block base size).current ≡ base + sizeof_block)
      × ((new_block base size).end ≡ base + size)
unfolding new_block
new_block-IsBlock base size al word le =
    let b = align_ptr-bounds (base + 40) (omega arith) in
    (
      record {
        header = omega arith;
        opened = b.0;
        filled = omega arith;
        word = word;
        aligned = b.2;
      },
      refl,
      omega arith,
      refl,
    )

-- What `mdl_pool_alloc_from_block` returns, by whether the rounded size fits.
pub alloc_from_block-fits :
    (b : Block) (size : ℕ)
    → IsBlock b
    → b.current + round_size size ≤ b.end
    → alloc_from_block b size ≡ some (b.current, record b { current = b.current + round_size size })
unfolding alloc_from_block
alloc_from_block-fits b size v h = ground arith

pub alloc_from_block-short :
    (b : Block) (size : ℕ)
    → IsBlock b
    → b.end < b.current + round_size size
    → alloc_from_block b size ≡ none
unfolding alloc_from_block
alloc_from_block-short b size v h = ground arith
