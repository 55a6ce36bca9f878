-- ===== src/DefaultPolicy/Accounts.antt =====
-- The factory's used and peak sizes over the blocks that the default policy gives and takes.
use utils_modules.Base.{ℕ, ◌+◌, ◌^◌, ◌≤◌, ◌<◌, ◌≡◌, refl, ◌⊎◌, inl, inr, arith, Option, none, some}
use utils_modules.DefaultPolicy.{
  Heap, Counters, malloc_told, told, default_block_alloc, default_block_free, cpool_hooks,
  cpool_on_block_alloc, cpool_on_block_free,
}

module _ (heap : Heap) where
  open heap use {Memory, malloc}

  -- What a request does to the counters.
  abbrev pub Counted : ℕ → Counters → Option ℕ × (Counters × Memory) → Type 0
  Counted size c r =
      (r.1.0.used_size ≤ r.1.0.peak_used_size)
      × (c.peak_used_size ≤ r.1.0.peak_used_size)
      × (((p : ℕ) × (r.0 ≡ some p)
            × (r.1.0.used_size ≡ c.used_size + size)
            × ((default_block_free cpool_hooks heap p size r.1).0.used_size ≡ c.used_size))
          ⊎ ((r.0 ≡ none) × (r.1.0.used_size ≡ c.used_size)))

  malloc_told-Counted :
      (size : ℕ) (c : Counters) (q : Option ℕ × Memory)
      → c.used_size ≤ c.peak_used_size
      → c.used_size + size < 2 ^ 64
      → Counted size c (malloc_told cpool_hooks heap size (cpool_on_block_alloc size c).1 q)
  unfolding malloc_told cpool_on_block_alloc cpool_on_block_free default_block_free
  malloc_told-Counted size c (none, m) le small =
      (ground arith, ground arith, inr (refl, omega arith))
  malloc_told-Counted size c (some p, m) le small =
      (ground arith, ground arith, inl (p, refl, omega arith, omega arith))

  -- The default policy under a caching factory, for a size that does not bring the used size to 2 ^ 64:
  -- the peak size does not fall and stays at least the used size. A block given adds its size to the
  -- used size, and its release takes it off again; a refused request leaves the used size.
  pub default_block_alloc-Counted :
      (size : ℕ) (c : Counters) (m : Memory)
      → c.used_size ≤ c.peak_used_size
      → c.used_size + size < 2 ^ 64
      → Counted size c (default_block_alloc cpool_hooks heap size (c, m))
  unfolding default_block_alloc told cpool_on_block_alloc
  default_block_alloc-Counted size c m le small =
      malloc_told-Counted size c (malloc (size + 0) m) le small
