-- ===== src/Thread/Create/Objects.antt =====
-- The objects that thread/thread.c takes from a pool lie apart from each other and from what the pool
-- handed out before.
use utils_modules.Base.{
  ℕ, ◌+◌, ◌^◌, ◌%◌, ◌≤◌, ◌<◌, ◌≡◌, refl, ◌⊎◌, inl, inr, arith, Option, some, none, Bool, true,
  false, length, ap,
}
use utils_modules.Pool.Factory.{Policy, PolicyLaws, done}
use utils_modules.Pool.{Pool, alloc}
use utils_modules.Pool.Used.{in_range, used}
use utils_modules.Pool.Valid.{IsPool}
use utils_modules.Pool.Allocate.{alloc_lem}
use utils_modules.Pool.Disjoint.{bit}
use utils_modules.Thread.{Pthread, MdlMutex, init_mutex}
use utils_modules.Thread.Create.{sizeof_mutex, sizeof_atomic, mutex_create, atomic_create_in}

-- How many of the ranges asked for, and of what the pool handed out, an address lies in.
abbrev share : Option ℕ → ℕ → ℕ → ℕ
share none n a = 0
share (some p) n a = bit (in_range p n a)

-- How many calls an allocation adds to those of the callback.
abbrev refusals : Option ℕ → ℕ
refusals none = 1
refusals (some p) = 0

module _ (policy : Policy) (laws : PolicyLaws policy) where
  open policy use {State}
  open laws use {live}

  -- What one call of `mdl_pool_alloc` for `n` bytes keeps and adds.
  record Took (n : ℕ) (pool : Pool) (got : Option ℕ) (pool' : Pool) (s' : State) : Type 0 where
    valid : IsPool (live s') pool'
    increment : pool'.increment_size ≡ pool.increment_size
    shares : (a : ℕ) → share got n a + bit (used pool.blocks a) ≤ bit (used pool'.blocks a)
    called : length pool'.calls ≡ length pool.calls + refusals got

  alloc_once :
      (pool : Pool) (n : ℕ) (s : State)
      → IsPool (live s) pool
      → n + pool.increment_size + 44 < 2 ^ 64
      → (got : Option ℕ) × (pool' : Pool) × (s' : State) × (alloc policy pool n s
          ≡ done (got, pool', s'))
        × Took n pool got pool' s'
  alloc_once pool n s v h = elim (alloc_lem policy laws pool n s v h) [
    | inl (p, pool', s', one, v', g, inc, same) ↦ (
      some p,
      pool',
      s',
      one,
      record {
        valid = v';
        increment = inc;
        shares = λ a. ground (arith, g.grown a, g.fresh a);
        called = omega (arith, ap length same);
      },
    )
    | inr (m, s', one, v', _) ↦ (
      none,
      _,
      s',
      one,
      record { valid = v'; increment = refl; shares = λ a. omega arith; called = omega arith },
    )
  ]

  module _ (p : Pthread) where
    -- The ranges of an atomic number and its mutex.
    abbrev pub atomic_share : Option (ℕ × ℕ × MdlMutex p × ℕ) → ℕ → ℕ
    atomic_share none a = 0
    atomic_share (some (at, m_at, m, v)) a =
        bit (in_range at sizeof_atomic a) + bit (in_range m_at sizeof_mutex a)

    -- An atomic number with a mutex that is free; or none, because the pool called its callback or
    -- `init_mutex` failed.
    abbrev pub AtomicMade : ℕ → Bool → Pool → Option (ℕ × ℕ × MdlMutex p × ℕ) → Pool → Type 0
    AtomicMade initial ok pool none pool' =
        (length pool'.calls ≡ length pool.calls + 1)
        ⊎ ((ok ≡ false) × (length pool'.calls ≡ length pool.calls))
    AtomicMade initial ok pool (some (at, m_at, m, v)) pool' =
        (ok ≡ true)
        × (length pool'.calls ≡ length pool.calls)
        × (m ≡ init_mutex p false)
        × (v ≡ initial % 2 ^ 64)

    abbrev AtomicCreated : Pool → ℕ → Bool → State → Type 0
    AtomicCreated pool initial ok s =
        (made : Option (ℕ × ℕ × MdlMutex p × ℕ)) × (pool' : Pool) × (s' : State) × (atomic_create_in
            policy p pool initial ok s
          ≡ done (made, pool', s'))
        × IsPool (live s') pool'
        × ((a : ℕ) → atomic_share made a + bit (used pool.blocks a) ≤ bit (used pool'.blocks a))
        × AtomicMade initial ok pool made pool'

    after_mutex :
        (pool : Pool) (initial : ℕ) (ok : Bool) (s : State) (at : ℕ) (pool1 : Pool) (s1 : State)
        (got : Option ℕ) (pool2 : Pool) (s2 : State)
        → alloc policy pool sizeof_atomic s ≡ done (some at, pool1, s1)
        → Took sizeof_atomic pool (some at) pool1 s1
        → alloc policy pool1 sizeof_mutex s1 ≡ done (got, pool2, s2)
        → Took sizeof_mutex pool1 got pool2 s2
        → AtomicCreated pool initial ok s
    unfolding atomic_create_in mutex_create
    after_mutex pool initial ok s at pool1 s1 none pool2 s2 one t two u = (
      none,
      pool2,
      s2,
      rw (one, two) refl,
      u.valid,
      λ a. omega (arith, t.shares a, u.shares a),
      inl (omega (arith, t.called, u.called)),
    )
    after_mutex pool initial true s at pool1 s1 (some m_at) pool2 s2 one t two u = (
      some (at, m_at, init_mutex p false, initial % 2 ^ 64),
      pool2,
      s2,
      rw (one, two) refl,
      u.valid,
      λ a. omega (arith, t.shares a, u.shares a),
      (refl, omega (arith, t.called, u.called), refl, refl),
    )
    after_mutex pool initial false s at pool1 s1 (some m_at) pool2 s2 one t two u = (
      none,
      pool2,
      s2,
      rw (one, two) refl,
      u.valid,
      λ a. omega (arith, t.shares a, u.shares a),
      inr (refl, omega (arith, t.called, u.called)),
    )

    after_struct :
        (pool : Pool) (initial : ℕ) (ok : Bool) (s : State) (got : Option ℕ) (pool1 : Pool)
        (s1 : State)
        → pool.increment_size + 164 < 2 ^ 64
        → alloc policy pool sizeof_atomic s ≡ done (got, pool1, s1)
        → Took sizeof_atomic pool got pool1 s1
        → AtomicCreated pool initial ok s
    unfolding atomic_create_in
    after_struct pool initial ok s none pool1 s1 h one t =
        (none, pool1, s1, rw one refl, t.valid, t.shares, inl t.called)
    after_struct pool initial ok s (some at) pool1 s1 h one t =
        let (got, pool2, s2, two, u) =
          alloc_once pool1 sizeof_mutex s1 t.valid (omega (arith, t.increment)) in
        after_mutex pool initial ok s at pool1 s1 got pool2 s2 one t two u

    -- `mdl_atomic_create` on a valid pool, for sizes that do not bring those computed from them to
    -- 2 ^ 64, keeps the pool valid. It gives a number with the value, and a free simple mutex, in two
    -- ranges that overlap neither each other nor what was handed out before; or it gives FAILURE,
    -- when the pool has refused memory and called its callback once, or `init_mutex` has failed.
    pub atomic_create_lem :
        (pool : Pool) (initial : ℕ) (ok : Bool) (s : State)
        → IsPool (live s) pool
        → pool.increment_size + 164 < 2 ^ 64
        → (made : Option (ℕ × ℕ × MdlMutex p × ℕ)) × (pool' : Pool) × (s' : State)
          × (atomic_create_in policy p pool initial ok s ≡ done (made, pool', s'))
          × IsPool (live s') pool'
          × ((a : ℕ) → atomic_share made a + bit (used pool.blocks a) ≤ bit (used pool'.blocks a))
          × AtomicMade initial ok pool made pool'
    atomic_create_lem pool initial ok s v h =
        let (got, pool1, s1, one, t) = alloc_once pool sizeof_atomic s v (omega arith) in
        after_struct pool initial ok s got pool1 s1 h one t
