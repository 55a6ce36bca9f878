-- ===== src/DefaultPolicy/Tests.antt =====
-- The default policy of a caching factory over the memory of the pool's tests.
use utils_modules.Base.{◌≡◌, refl, arith, List, [], ◌∷◌, some}
use utils_modules.Pool.Factory.{Range}
use utils_modules.Pool.Bump.{bump_alloc, bump_granted, bump_refused}
use utils_modules.DefaultPolicy.{
  Heap, HeapLaws, Counters, default_block_alloc, cpool_hooks, cpool_on_block_alloc, told,
  malloc_told,
}
use utils_modules.DefaultPolicy.Laws
use utils_modules.DefaultPolicy.Laws.{default_block_alloc_lem}
use utils_modules.DefaultPolicy.Accounts
use utils_modules.DefaultPolicy.Accounts.{default_block_alloc-Counted}

abbrev heap : Heap
heap = record { Memory = List Range; malloc = bump_alloc; free = λ p m. m }

abbrev heap_laws : HeapLaws heap
heap_laws = record { live = λ m. m; granted = bump_granted; refused = bump_refused }

abbrev counters : Counters
counters = record { used_size = 100; peak_used_size = 512 }

peak_test : default_block_alloc cpool_hooks heap 500 (counters, []) ≡ (
  some 4096,
  (record { used_size = 600; peak_used_size = 600 }, record { first = 4096; size = 500 } ∷ []),
)
unfolding default_block_alloc told malloc_told cpool_on_block_alloc
peak_test = refl

default_block_alloc_lem_example :
    Laws.Outcome cpool_hooks heap heap_laws 500
      (counters, [])
      (default_block_alloc cpool_hooks heap 500 (counters, []))
default_block_alloc_lem_example =
    default_block_alloc_lem cpool_hooks heap heap_laws 500 (counters, [])

default_block_alloc-Counted_example :
    Accounts.Counted heap 500 counters (default_block_alloc cpool_hooks heap 500 (counters, []))
default_block_alloc-Counted_example =
    default_block_alloc-Counted heap 500 counters [] (omega arith) (omega arith)
