-- ===== src/DefaultPolicy.antt =====
-- pool/policy.c: the policy over `malloc` and `free`, which tells the factory of each block; and the
-- two functions of pool/caching.c that it tells, which keep the factory's used and peak sizes.
pub mod Laws
pub mod Accounts
mod Tests
use utils_modules.Base.{
  ℕ, ◌+◌, ◌-◌, ◌*◌, ◌%◌, ◌^◌, ◌≤◌, ◌<◌, ◌≡◌, Bool, true, false, List, ◌∷◌, Option, none, some, ltb,
  All, if◌then◌else◌,
}
use utils_modules.Pool.Factory.{Policy, Range, Apart}

-- `malloc` and `free`, over the state of the memory.
pub record Heap : Type 1 where
  pub Memory : Type 0
  pub malloc : ℕ → Memory → Option ℕ × Memory
  pub free : ℕ → Memory → Memory

-- A range that `malloc` gives is aligned, lies in the address space and overlaps no live one.
pub record HeapLaws (heap : Heap) : Type 1 where
  pub live : heap.Memory → List Range
  pub granted :
      (size base : ℕ) (m m' : heap.Memory)
      → heap.malloc size m ≡ (some base, m')
      → (base % 4 ≡ 0)
        × (base + size < 2 ^ 64)
        × All (Apart (record { first = base; size = size })) (live m)
        × (live m' ≡ record { first = base; size = size } ∷ live m)
  pub refused : (size : ℕ) (m m' : heap.Memory) → heap.malloc size m ≡ (none, m') → live m' ≡ live m

-- `on_block_alloc` and `on_block_free` of a factory, each of which may be NULL.
pub record Hooks : Type 1 where
  pub Factory : Type 0
  pub on_block_alloc : Option (ℕ → Factory → Bool × Factory)
  pub on_block_free : Option (ℕ → Factory → Factory)

-- SIG_SIZE, where the signatures are switched off.
abbrev pub sig_size : ℕ
sig_size = 0

-- The function `default_pool_callback`.
abbrev pub default_pool_callback : ℕ
default_pool_callback = 1

module _ (hooks : Hooks) (heap : Heap) where
  open hooks use {Factory, on_block_alloc, on_block_free}
  open heap use {Memory, malloc, free}

  abbrev pub tell_alloc : ℕ → Factory → Bool × Factory
  tell_alloc size f = elim on_block_alloc [ none ↦ (true, f) | some h ↦ h size f ]

  abbrev pub tell_free : ℕ → Factory → Factory
  tell_free size f = elim on_block_free [ none ↦ f | some h ↦ h size f ]

  malloc_told : ℕ → Factory → Option ℕ × Memory → Option ℕ × (Factory × Memory)
  malloc_told size f (none, m) = (none, (tell_free size f, m))
  malloc_told size f (some p, m) = (some p, (f, m))

  told : ℕ → Bool × Factory → Memory → Option ℕ × (Factory × Memory)
  unfolding malloc_told
  told size (false, f) m = (none, (f, m))
  told size (true, f) m = malloc_told size f (malloc (size + 2 * sig_size) m)

  -- `default_block_alloc`.
  unfoldable pub default_block_alloc : ℕ → Factory × Memory → Option ℕ × (Factory × Memory)
  unfolding told
  default_block_alloc size s = told size (tell_alloc size s.0) s.1

  -- `default_block_free`.
  unfoldable pub default_block_free : ℕ → ℕ → Factory × Memory → Factory × Memory
  default_block_free mem size s = (tell_free size s.0, free mem s.1)

  -- `mdl_pool_factory_default_policy`.
  pub default_policy : Policy
  default_policy = record {
    State = Factory × Memory;
    block_alloc = default_block_alloc;
    block_free = default_block_free;
    callback = default_pool_callback;
  }

-- `used_size` and `peak_used_size` of `struct mdl_caching_pool_s`.
pub record Counters : Type 0 where
  pub used_size : ℕ
  pub peak_used_size : ℕ

-- `cpool_on_block_alloc`, which returns 1.
unfoldable pub cpool_on_block_alloc : ℕ → Counters → Bool × Counters
cpool_on_block_alloc sz c =
    let used = (c.used_size + sz) % 2 ^ 64 in
    (
      true,
      record {
        used_size = used;
        peak_used_size = if ltb c.peak_used_size used then used else c.peak_used_size;
      },
    )

-- `cpool_on_block_free`.
unfoldable pub cpool_on_block_free : ℕ → Counters → Counters
cpool_on_block_free sz c = record c { used_size = (c.used_size + 2 ^ 64 - sz) % 2 ^ 64 }

abbrev pub cpool_hooks : Hooks
cpool_hooks = record {
  Factory = Counters;
  on_block_alloc = some cpool_on_block_alloc;
  on_block_free = some cpool_on_block_free;
}
