-- ===== src/Pool/Life.antt =====
-- The creation, the reset and the end of a pool, its figures, and `mdl_pool_calloc`.
pub mod Created
pub mod Reset
pub mod Limits
use utils_modules.Base.{
  ℕ, zero, suc, ◌+◌, ◌-◌, ◌*◌, ◌%◌, ◌^◌, List, [], ◌∷◌, ◌++◌, Option, none, some, leb, set, take,
  replicate,
}
use utils_modules.Pool.Factory.{Policy, Result, done, aborted, fault, ◌>>=◌, ◌>>◌, assert}
use utils_modules.Pool.{Block, Pool, sizeof_pool, sizeof_block, align_ptr, alloc}

abbrev pub max_obj_name : ℕ
max_obj_name = 32

-- `strncpy(pool->name, name, MAX_OBJ_NAME)` with a NUL at the end, or an empty name.
name_bytes : Option (List ℕ) → List ℕ → List ℕ
name_bytes none old = set old 0 0
name_bytes (some name) old =
    set (take max_obj_name (name ++ replicate max_obj_name 0)) (max_obj_name - 1) 0

-- `mdl_pool_init_int`.
unfoldable pub init_int : Pool → Option (List ℕ) → ℕ → ℕ → Pool
unfolding name_bytes
init_int pool name increment callback = record pool {
  increment_size = increment;
  callback = callback;
  name = name_bytes name pool.name;
}

-- The first block, behind the pool's own struct.
unfoldable pub first_block : ℕ → ℕ → Block
first_block buffer initial = record {
  base = buffer + sizeof_pool;
  start = buffer + sizeof_pool + sizeof_block;
  current = align_ptr (buffer + sizeof_pool + sizeof_block);
  end = buffer + initial;
}

abbrev pub or_default : Option ℕ → ℕ → ℕ
or_default none d = d
or_default (some c) d = c

-- The addresses walked by `list_for_each_prev` in `reset_pool`: the null pointer, or a block with
-- those before it.
pub data Node : Type 0 where
  null : Node
  at : List Block → Block → Node

-- The last block of a list that is not empty.
unfoldable pub last_node : List Block → Block → List Block → Node
last_node before b [] = at before b
last_node before b (c ∷ cs) = last_node (before ++ (b ∷ [])) c cs

-- `list_del` leaves null pointers in the node that it takes out.
abbrev pub prev_of_deleted : Node
prev_of_deleted = null

-- `mdl_pool_get_used_size`.
unfoldable pub used_sum : List Block → ℕ
used_sum [] = 0
used_sum (b ∷ bs) = (b.current - b.start + sizeof_block) + used_sum bs

unfoldable pub used_size : Pool → ℕ
used_size pool = (sizeof_pool + used_sum pool.blocks) % 2 ^ 64

module _ (policy : Policy) where
  open policy use {State, block_alloc, block_free}

  -- `mdl_pool_create_int`.
  unfoldable pub create_int :
      Option (List ℕ) → ℕ → ℕ → Option ℕ → State → Result (Option Pool × State)
  create_int name initial increment callback s = do
    assert (leb (sizeof_pool + sizeof_block) initial)
    let (got, s') = block_alloc initial s
    elim got [
      | none ↦ done (none, s')
      | some buffer ↦
          let zeroed : Pool = record {
            self = buffer;
            name = replicate max_obj_name 0;
            callback = 0;
            capacity = 0;
            increment_size = 0;
            blocks = first_block buffer initial ∷ [];
            calls = [];
          } in
          done (
            some (record (init_int zeroed name increment (or_default callback policy.callback)) {
              capacity = initial;
            }),
            s',
          )
    ]

  -- The loop of `reset_pool`, with the block that it breaks at.
  unfoldable pub reset_loop : ℕ → Pool → Node → State → Result (Block × Pool × State)
  reset_loop zero pool node s = fault
  reset_loop (suc fuel) pool null s = fault
  reset_loop (suc fuel) pool (at [] b) s = done (b, pool, s)
  reset_loop (suc fuel) pool (at (c ∷ cs) b) s =
      reset_loop fuel (record pool { blocks = c ∷ cs }) prev_of_deleted
        (block_free b.base (b.end - b.base) s)

  unfoldable pub reset_from : Pool → List Block → State → Result (Pool × State)
  reset_from pool [] s = done (pool, s)
  reset_from pool (b ∷ bs) s = do
    (block, pool', s') ← reset_loop 2 pool (last_node [] b bs) s
    done (
      record pool' {
        blocks = record block { current = align_ptr block.start } ∷ [];
        capacity = block.end - pool.self;
      },
      s',
    )

  -- `reset_pool`, and `mdl_pool_reset`.
  unfoldable pub reset : Pool → State → Result (Pool × State)
  reset pool s = reset_from pool pool.blocks s

  unfoldable pub destroy_from : Pool → List Block → State → Result State
  destroy_from pool [] s = fault
  destroy_from pool (b ∷ bs) s = do
    (pool', s') ← reset pool s
    done (block_free pool.self (b.end - pool.self) s')

  -- `mdl_pool_destroy_int`: `block` is the first of the list.
  unfoldable pub destroy_int : Pool → State → Result State
  destroy_int pool s = destroy_from pool pool.blocks s

  -- `mdl_pool_calloc`: the address and the count of the bytes cleared.
  unfoldable pub calloc : Pool → ℕ → ℕ → State → Result (Option (ℕ × ℕ) × Pool × State)
  calloc pool count size s = do
    (got, pool', s') ← alloc policy pool (size * count % 2 ^ 64) s
    done (elim got [ none ↦ none | some p ↦ some (p, size * count % 2 ^ 64) ], pool', s')

  -- `mdl_pool_zalloc`.
  unfoldable pub zalloc : Pool → ℕ → State → Result (Option (ℕ × ℕ) × Pool × State)
  zalloc pool size s = calloc pool 1 size s
