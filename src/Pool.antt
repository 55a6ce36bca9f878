-- ===== src/Pool.antt =====
-- pool/pool.h and pool/pool.c: a pool hands out memory from blocks that it takes from a factory.
-- Addresses and sizes are 64-bit numbers; the sizes of the structs are those of an LP64 target.
pub mod Factory
pub mod Rounding
pub mod Used
pub mod Valid
pub mod Allocate
pub mod Disjoint
pub mod Life
pub mod Bump
mod Tests
use utils_modules.Base.{
  ℕ, ◌+◌, ◌-◌, ◌*◌, ◌/◌, ◌%◌, ◌^◌, bit_and, Bool, List, [], ◌∷◌, Option, none, some, ltb, leb, ◌==◌,
  if◌then◌else◌, ◌||◌, ◌&&◌,
}
use Factory.{Policy, Result, done, aborted, fault, ◌>>=◌, ◌>>◌, assert}

abbrev pub pool_alignment : ℕ
pool_alignment = 4

abbrev pub sizeof_pool : ℕ
sizeof_pool = 104

abbrev pub sizeof_block : ℕ
sizeof_block = 40

-- `struct mdl_pool_block_s`, at the address `base`.
pub record Block : Type 0 where
  pub base : ℕ
  pub start : ℕ
  pub current : ℕ
  pub end : ℕ

-- `struct mdl_pool_s`, at the address `self`. `blocks` is the list at `block_head_list`, head
-- first; `callback` stands for the function of that name, and `calls` are the sizes that it was called
-- with, the last first.
pub record Pool : Type 0 where
  pub self : ℕ
  pub name : List ℕ
  pub callback : ℕ
  pub capacity : ℕ
  pub increment_size : ℕ
  pub blocks : List Block
  pub calls : List ℕ

-- `ALIGN_PTR(p, POOL_ALIGNMENT)`.
unfoldable pub align_ptr : ℕ → ℕ
align_ptr p = p + bit_and ((2 ^ 64 - p) % 2 ^ 64) (pool_alignment - 1)

-- `size` as `mdl_pool_alloc_from_block` rounds it; `size_t` addition wraps.
unfoldable pub round_size : ℕ → ℕ
round_size size =
    if bit_and size (pool_alignment - 1) == 0
    then size
    else bit_and ((size + pool_alignment) % 2 ^ 64) (2 ^ 64 - pool_alignment)

-- `mdl_pool_alloc_from_block`: the address given and the block after it.
unfoldable pub alloc_from_block : Block → ℕ → Option (ℕ × Block)
alloc_from_block b size =
    if leb (round_size size) ((b.end + 2 ^ 64 - b.current) % 2 ^ 64)
    then some (b.current, record b { current = b.current + round_size size })
    else none

-- The loop of `mdl_pool_allocate_find` over the blocks.
unfoldable pub find_block : List Block → ℕ → Option (ℕ × List Block)
find_block [] size = none
find_block (b ∷ bs) size =
    let rest = find_block bs size in
    elim (alloc_from_block b size) [
      | some (p, b') ↦ some (p, b' ∷ bs)
      | none ↦ elim rest [ some (p, bs') ↦ some (p, b ∷ bs') | none ↦ none ]
    ]

-- The size of the block that `mdl_pool_allocate_find` asks for.
unfoldable pub block_size : ℕ → ℕ → ℕ
block_size increment size =
    if ltb increment ((size + sizeof_block + pool_alignment) % 2 ^ 64)
    then (size + increment + sizeof_block + pool_alignment)
      % 2 ^ 64
      / increment
      * increment
      % 2 ^ 64
    else increment

-- A block of `size` bytes at the address `base`.
unfoldable pub new_block : ℕ → ℕ → Block
new_block base size = record {
  base = base;
  start = base + sizeof_block;
  current = align_ptr (base + sizeof_block);
  end = base + size;
}

module _ (policy : Policy) where
  open policy use {State, block_alloc, block_free}

  -- `mdl_pool_create_block`.
  unfoldable pub create_block : Pool → ℕ → State → Result (Option Block × Pool × State)
  create_block pool size s = do
    assert (leb sizeof_block size)
    let (got, s') = block_alloc size s
    elim got [
      | none ↦ done (none, record pool { calls = size ∷ pool.calls }, s')
      | some base ↦ done (
        some (new_block base size),
        record pool {
          capacity = (pool.capacity + size) % 2 ^ 64;
          blocks = new_block base size ∷ pool.blocks;
        },
        s',
      )
    ]

  -- The end of `mdl_pool_allocate_find`: the address from the block created, which stands first.
  unfoldable pub take_from_new : Pool → Block → ℕ → State → Result (Option ℕ × Pool × State)
  take_from_new pool b size s = elim (alloc_from_block b size) [
    | none ↦ aborted
    | some (p, b') ↦ elim pool.blocks [
      | [] ↦ fault
      | _ ∷ bs ↦ done (some p, record pool { blocks = b' ∷ bs }, s)
    ]
  ]

  -- The part of `mdl_pool_allocate_find` behind its loop.
  unfoldable pub expand : Pool → ℕ → State → Result (Option ℕ × Pool × State)
  expand pool size s =
      if pool.increment_size == 0
      then done (none, record pool { calls = size ∷ pool.calls }, s)
      else do
        (created, pool', s') ← create_block pool (block_size pool.increment_size size) s
        elim created [ none ↦ done (none, pool', s') | some b ↦ take_from_new pool' b size s' ]

  -- `mdl_pool_allocate_find`.
  unfoldable pub allocate_find : Pool → ℕ → State → Result (Option ℕ × Pool × State)
  allocate_find pool size s = elim (find_block pool.blocks size) [
    | some (p, bs) ↦ done (some p, record pool { blocks = bs }, s)
    | none ↦ expand pool size s
  ]

  alloc_with : Pool → List Block → ℕ → State → Result (Option ℕ × Pool × State)
  alloc_with pool [] size s = fault
  alloc_with pool (b ∷ bs) size s = elim (alloc_from_block b size) [
    | some (p, b') ↦ done (some p, record pool { blocks = b' ∷ bs }, s)
    | none ↦ allocate_find pool size s
  ]

  -- `mdl_pool_alloc`: the first block, then all; a pool with no block is a fault.
  unfoldable pub alloc : Pool → ℕ → State → Result (Option ℕ × Pool × State)
  unfolding alloc_with
  alloc pool size s = alloc_with pool pool.blocks size s
