-- ===== src/Pool/Life/Limits.antt =====
-- Sizes near 2 ^ 64, and the figures of a pool.
use utils_modules.Base.{ℕ, ◌+◌, ◌^◌, ◌≤◌, ◌<◌, ◌≡◌, arith, List, [], ◌∷◌, some}
use utils_modules.Pool.{Block, Pool, alloc_from_block, sizeof_pool}
use utils_modules.Pool.Rounding.{round_size-overflow}
use utils_modules.Pool.Used.{Separate}
use utils_modules.Pool.Valid.{span_sum, IsPool}
use utils_modules.Pool.Factory.{Range}
use utils_modules.Pool.Life.{used_sum, used_size}

-- A request of more than 2 ^ 64 - 4 bytes succeeds in every block, even a full one: its size wraps
-- round to 0, and the block is left as it was.
pub alloc_from_block-overflow :
    (b : Block) (size : ℕ)
    → 2 ^ 64 < size + 4
    → size < 2 ^ 64
    → alloc_from_block b size ≡ some (b.current, b)
unfolding alloc_from_block
alloc_from_block-overflow b size h k =
    let e : b.current + 0 ≡ b.current = omega arith in
    rw (round_size-overflow size h k, e) (ground arith)

used_sum-le : (bs : List Block) → Separate bs → used_sum bs ≤ span_sum bs
unfolding used_sum
used_sum-le [] h = omega arith
used_sum-le (b ∷ bs) (v, _, h) = omega (arith, used_sum-le bs h, v.header, v.opened, v.filled)

-- The used size of a valid pool that does not span the address space is at most its capacity, and
-- covers at least the pool's own struct.
pub used_size-le-capacity :
    (live : List Range) (pool : Pool)
    → IsPool live pool
    → sizeof_pool + span_sum pool.blocks < 2 ^ 64
    → (used_size pool ≤ pool.capacity) × (sizeof_pool ≤ used_size pool)
unfolding used_size
used_size-le-capacity live pool v h = omega (arith, v.counted, used_sum-le pool.blocks v.separate)
