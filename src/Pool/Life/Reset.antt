-- ===== src/Pool/Life/Reset.antt =====
-- `reset_pool` and `mdl_pool_destroy_int`, on a pool with its first block alone and on one that has
-- grown.
use utils_modules.Base.{ℕ, ◌-◌, ◌%◌, ◌^◌, ◌<◌, ◌≡◌, refl, arith, List, [], ◌∷◌, ◌++◌, false}
use utils_modules.Pool.Factory.{Policy, done, fault}
use utils_modules.Pool.{Block, Pool, align_ptr}
use utils_modules.Pool.Rounding.{align_ptr-bounds}
use utils_modules.Pool.Used.{used}
use utils_modules.Pool.Life.{
  at, last_node, reset_loop, reset_from, reset, destroy_from, destroy_int,
}

-- Of a list with two blocks or more, the last has one before it.
last_node-behind :
    (c b : Block) (before bs : List Block)
    → (d : Block) × (ds : List Block) × (e : Block) × (last_node (c ∷ before) b bs ≡ at (d ∷ ds) e)
unfolding last_node
last_node-behind c b before [] = (c, before, b, refl)
last_node-behind c b before (x ∷ xs) = last_node-behind c x (before ++ (b ∷ [])) xs

module _ (policy : Policy) where
  open policy use {State, block_free}

  -- `reset_pool` on a pool with one block that holds the pool's struct and starts at an aligned
  -- address makes all of the block free again: no address counts as handed out, and the capacity
  -- is what lies from the pool to the block's end.
  pub reset_single :
      (pool : Pool) (b : Block) (s : State)
      → pool.blocks ≡ b ∷ []
      → b.start % 4 ≡ 0
      → b.start < 2 ^ 64
      → (pool' : Pool) × (reset policy pool s ≡ done (pool', s))
        × (pool'.blocks ≡ record b { current = b.start } ∷ [])
        × (pool'.capacity ≡ b.end - pool.self)
        × ((a : ℕ) → used pool'.blocks a ≡ false)
        × (pool'.self ≡ pool.self)
  unfolding reset reset_from reset_loop last_node
  reset_single pool b s e al word =
      let (lo, hi, al') = align_ptr-bounds b.start word in
      let same : align_ptr b.start ≡ b.start = omega arith in
      (
        record pool { blocks = record b { current = b.start } ∷ []; capacity = b.end - pool.self },
        rw (e, reset_from, same) refl,
        refl,
        refl,
        λ a. ground arith,
        refl,
      )

  -- `mdl_pool_destroy_int` of a pool with one block gives its memory back.
  pub destroy_single :
      (pool : Pool) (b : Block) (s : State)
      → pool.blocks ≡ b ∷ []
      → b.start % 4 ≡ 0
      → b.start < 2 ^ 64
      → destroy_int policy pool s ≡ done (block_free pool.self (b.end - pool.self) s)
  unfolding destroy_int destroy_from
  destroy_single pool b s e al word =
      let (_, e', _, _, _, _) = reset_single pool b s e al word in rw (e, destroy_from, e') refl

  -- `reset_pool` on a pool of two blocks or more follows a null pointer.
  pub reset_grown :
      (pool : Pool) (b c : Block) (bs : List Block) (s : State)
      → pool.blocks ≡ b ∷ c ∷ bs
      → (reset policy pool s ≡ fault) × (destroy_int policy pool s ≡ fault)
  unfolding reset reset_from destroy_int destroy_from reset_loop last_node
  reset_grown pool b c bs s e =
      let (d, ds, last, e') = last_node-behind b c [] bs in
      let broken : reset policy pool s ≡ fault = rw (e, reset_from, e') refl in
      (broken, rw (e, destroy_from, broken) refl)
