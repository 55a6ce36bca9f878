-- ===== src/Caching.antt =====
-- pool/caching.c: a factory that keeps released pools in 16 lists by size, to hand them out again.
-- Every operation runs under the factory's lock. The counters of the blocks in use are part of the
-- policy's state (see DefaultPolicy).
pub mod Sizes
pub mod Valid
pub mod Create
pub mod Release
mod Tests
use utils_modules.Base.{
  ℕ, zero, suc, ◌+◌, ◌-◌, ◌%◌, ◌^◌, Bool, true, false, List, [], ◌∷◌, ◌++◌, Option, none, some, ltb,
  leb, ◌==◌, if◌then◌else◌, ◌||◌, get_or, set, replicate,
}
use utils_modules.Pool.Factory.{Policy, Result, done, aborted, fault, ◌>>=◌, ◌>>◌, assert}
use utils_modules.Pool.{Pool}
use utils_modules.Pool.Life.{init_int, or_default, create_int, reset, destroy_int}

abbrev pub caching_pool_array_size : ℕ
caching_pool_array_size = 16

abbrev pub pool_sizes : List ℕ
pool_sizes =
    256 ∷ 512 ∷ 1024 ∷ 2048 ∷ 4096 ∷ 8192 ∷ 12288 ∷ 16384 ∷ 20480 ∷ 24576 ∷ 28672 ∷ 32768 ∷ 40960
    ∷ 49152 ∷ 57344 ∷ 65536 ∷ []

abbrev pub size_at : ℕ → ℕ
size_at i = get_or pool_sizes i 0

abbrev pub start_size : ℕ
start_size = 5

-- A pool with its `data_factory`, the index of its list.
pub record Entry : Type 0 where
  pub pool : Pool
  pub index : ℕ

-- `struct mdl_caching_pool_s` without the lock.
pub record Caching : Type 0 where
  pub capacity : ℕ
  pub max_capacity : ℕ
  pub used_count : ℕ
  pub free_list : List (List Entry)
  pub used_list : List Entry

-- The loop of `cpool_create_pool` towards smaller sizes, with `++idx` behind it; its index is one
-- above the code's.
unfoldable pub index_down : ℕ → ℕ → ℕ
index_down zero initial = 0
index_down (suc i) initial =
    let rest = index_down i initial in if leb initial (size_at i) then rest else suc i

-- The loop towards larger sizes; the fuel is what is left of the array.
unfoldable pub index_up : ℕ → ℕ → ℕ → ℕ
index_up zero idx initial = idx
index_up (suc fuel) idx initial =
    let rest = index_up fuel (suc idx) initial in if ltb (size_at idx) initial then rest else idx

unfoldable pub size_index : ℕ → ℕ
size_index initial =
    if leb initial (size_at start_size)
    then index_down start_size initial
    else index_up (caching_pool_array_size - 6) 6 initial

-- The pool enters the used list.
unfoldable pub put_in_use : Caching → Pool → ℕ → Caching
put_in_use cp pool idx = record cp {
  used_list = record { pool = pool; index = idx } ∷ cp.used_list;
  used_count = (cp.used_count + 1) % 2 ^ 64;
}

-- `list_del` of the pool at the address `self`: its entry, and the list without it.
unfoldable pub take_out : ℕ → List Entry → Option (Entry × List Entry)
take_out self [] = none
take_out self (e ∷ es) =
    let rest = take_out self es in
    if e.pool.self == self
    then some (e, es)
    else elim rest [ none ↦ none | some (d, ds) ↦ some (d, e ∷ ds) ]

-- The head of a list of free pools is reused.
unfoldable pub reuse : Caching → ℕ → Entry → List Entry → Option (List ℕ) → ℕ → ℕ → Pool × Caching
reuse cp idx e es name increment callback =
    let pool = init_int e.pool name increment callback in
    (
      pool,
      put_in_use
          (record cp {
            free_list = set cp.free_list idx es;
            capacity = if ltb pool.capacity cp.capacity then cp.capacity - pool.capacity else 0;
          })
          pool idx,
    )

unfoldable pub shelved : Caching → Pool → ℕ → Caching
shelved cp pool i = record cp {
  free_list = set cp.free_list i (record { pool = pool; index = i } ∷ get_or cp.free_list i []);
  capacity = (cp.capacity + pool.capacity) % 2 ^ 64;
}

module _ (policy : Policy) where
  open policy use {State}

  unfoldable pub create_new :
      Caching → ℕ → Option (List ℕ) → ℕ → ℕ → ℕ → State → Result (Option Pool × Caching × State)
  create_new cp idx name initial increment callback s = do
    (got, s') ←
        create_int policy name (if ltb idx caching_pool_array_size then size_at idx else initial)
          increment (some callback) s
    done (elim got [ none ↦ (none, cp, s') | some pool ↦ (some pool, put_in_use cp pool idx, s') ])

  unfoldable pub create_from :
      Caching
      → ℕ
      → List Entry
      → Option (List ℕ)
      → ℕ
      → ℕ
      → ℕ
      → State
      → Result (Option Pool × Caching × State)
  create_from cp idx [] name initial increment callback s =
      create_new cp idx name initial increment callback s
  create_from cp idx (e ∷ es) name initial increment callback s =
      let (pool, cp') = reuse cp idx e es name increment callback in done (some pool, cp', s)

  -- `cpool_create_pool`.
  unfoldable pub create :
      Caching → Option (List ℕ) → ℕ → ℕ → Option ℕ → State → Result (Option Pool × Caching × State)
  create cp name initial increment callback s =
      let cb = or_default callback policy.callback in
      let idx = size_index initial in
      if idx == caching_pool_array_size
      then create_new cp idx name initial increment cb s
      else create_from cp idx (get_or cp.free_list idx []) name initial increment cb s

  unfoldable pub give_up : Caching → Pool → State → Result (Caching × State)
  give_up cp pool s = do s' ← destroy_int policy pool s; done (cp, s')

  -- The pool goes to its free list, or away where its index is out of range; the assertion comes
  -- first.
  unfoldable pub shelve : Caching → Pool → ℕ → State → Result (Caching × State)
  shelve cp pool i s = do
    assert (ltb i caching_pool_array_size)
    if leb caching_pool_array_size i then give_up cp pool s else done (shelved cp pool i, s)

  -- `cpool_release_pool` of an entry already out of the used list.
  unfoldable pub release_entry : Caching → Entry → State → Result (Caching × State)
  release_entry cp e s =
      if (ltb (size_at (caching_pool_array_size - 1)) e.pool.capacity
        || ltb cp.max_capacity ((cp.capacity + e.pool.capacity) % 2 ^ 64))
      then give_up cp e.pool s
      else do (pool, s') ← reset policy e.pool s; shelve cp pool (e.index % 2 ^ 32) s'

  -- `cpool_release_pool`: a pool that is not in the used list is a fault.
  unfoldable pub release : Caching → ℕ → State → Result (Caching × State)
  release cp self s = elim (take_out self cp.used_list) [
    | none ↦ fault
    | some (e, es) ↦
        release_entry
          (record cp { used_list = es; used_count = (cp.used_count + 2 ^ 64 - 1) % 2 ^ 64 }) e s
  ]

  -- The loops of `mdl_caching_pool_destroy`. After its body, which takes the node out of the list
  -- and frees it, a loop reads the node's `next`.
  unfoldable pub destroy_lists : List (List Entry) → State → Result State
  destroy_lists [] s = done s
  destroy_lists ([] ∷ ls) s = destroy_lists ls s
  destroy_lists ((e ∷ es) ∷ ls) s = do s' ← destroy_int policy e.pool s; fault

  -- `mdl_caching_pool_destroy`.
  unfoldable pub destroy : Caching → State → Result State
  destroy cp s = destroy_lists (cp.free_list ++ (cp.used_list ∷ [])) s

-- `mdl_caching_pool_init`.
unfoldable pub init : ℕ → Caching
init max_capacity = record {
  capacity = 0;
  max_capacity = max_capacity;
  used_count = 0;
  free_list = replicate caching_pool_array_size [];
  used_list = [];
}
