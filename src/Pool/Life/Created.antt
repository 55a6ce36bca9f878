-- ===== src/Pool/Life/Created.antt =====
-- A pool as `mdl_pool_create_int` leaves it.
use utils_modules.Base.{
  ℕ, ◌+◌, ◌%◌, ◌^◌, ◌≤◌, ◌<◌, ◌≡◌, refl, ap, ◌⊎◌, inl, inr, arith, List, [], ◌∷◌, Option, some,
  none, false, le→leb, replicate,
}
use utils_modules.Pool.Factory.{Policy, PolicyLaws, Result, done}
use utils_modules.Pool.{Pool, sizeof_pool, sizeof_block}
use utils_modules.Pool.Rounding.{IsBlock, align_ptr-bounds}
use utils_modules.Pool.Used.{used}
use utils_modules.Pool.Valid.{IsPool}
use utils_modules.Pool.Life.{init_int, first_block, or_default, create_int, max_obj_name}

first_block-IsBlock :
    (buffer initial : ℕ)
    → buffer % 4 ≡ 0
    → buffer + initial < 2 ^ 64
    → 144 ≤ initial
    → IsBlock (first_block buffer initial)
      × ((first_block buffer initial).start ≡ (first_block buffer initial).current)
unfolding first_block
first_block-IsBlock buffer initial al word le =
    let b = align_ptr-bounds (buffer + sizeof_pool + sizeof_block) (omega arith) in
    (
      record {
        header = omega arith;
        opened = b.0;
        filled = omega arith;
        word = word;
        aligned = b.2;
      },
      omega arith,
    )

created : Policy → Option (List ℕ) → ℕ → ℕ → ℕ → Option ℕ → Pool
unfolding first_block
created policy name buffer initial increment callback =
    record (init_int
      (record {
        self = buffer;
        name = replicate max_obj_name 0;
        callback = 0;
        capacity = 0;
        increment_size = 0;
        blocks = first_block buffer initial ∷ [];
        calls = [];
      })
      name increment (or_default callback policy.callback)) { capacity = initial }

module _ (policy : Policy) (laws : PolicyLaws policy) where
  open policy use {State, block_alloc}
  open laws use {live, granted, refused}

  abbrev pub Outcome : ℕ → ℕ → Option ℕ → State → Result (Option Pool × State) → Type 0
  Outcome initial increment callback s r =
      ((pool : Pool) × (s' : State) × (r ≡ done (some pool, s'))
        × (block_alloc initial s ≡ (some pool.self, s'))
        × IsPool (live s') pool
        × ((a : ℕ) → used pool.blocks a ≡ false)
        × (pool.capacity ≡ initial)
        × (pool.increment_size ≡ increment)
        × (pool.callback ≡ or_default callback policy.callback)
        × (pool.blocks ≡ first_block pool.self initial ∷ [])
        × (pool.self % 4 ≡ 0)
        × (pool.self + initial < 2 ^ 64))
      ⊎ ((s' : State) × (r ≡ done (none, s'))
          × (block_alloc initial s ≡ (none, s'))
          × (live s' ≡ live s))

  create_with :
      (name : Option (List ℕ)) (initial increment : ℕ) (callback : Option ℕ) (s : State)
      (r : Option ℕ × State)
      → block_alloc initial s ≡ r
      → 144 ≤ initial
      → Outcome initial increment callback s (create_int policy name initial increment callback s)
  unfolding create_int created init_int first_block
  create_with name initial increment callback s (none, s') e le =
      inr (s', rw (le→leb _ _ le, ap (λ t. t.0) e, ap (λ t. t.1) e), e, refused initial s s' e)
  create_with name initial increment callback s (some buffer, s') e le =
      let (al, word, _, more) = granted initial buffer s s' e in
      let (b, empty) = first_block-IsBlock buffer initial al word le in
      inl (
        created policy name buffer initial increment callback,
        s',
        rw (le→leb _ _ le, ap (λ t. t.0) e, ap (λ t. t.1) e),
        e,
        record {
          separate = (b, tt, tt);
          owned = rw more (inl (omega arith), tt);
          present = λ e. cc;
          counted = omega arith;
        },
        λ a. ground (arith, empty),
        refl,
        refl,
        refl,
        refl,
        al,
        word,
      )

  -- `mdl_pool_create_int` with an initial size that covers both structs fails no assertion and asks
  -- the factory once, for the initial size. Where the factory gives memory it returns a valid pool in
  -- that memory which has handed out nothing, with the initial size as its capacity, the increment,
  -- and the callback given or else the policy's; where it refuses, it returns NULL.
  pub create_int_lem :
      (name : Option (List ℕ)) (initial increment : ℕ) (callback : Option ℕ) (s : State)
      → sizeof_pool + sizeof_block ≤ initial
      → Outcome initial increment callback s (create_int policy name initial increment callback s)
  create_int_lem name initial increment callback s =
      create_with name initial increment callback s (block_alloc initial s) refl
