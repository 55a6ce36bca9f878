-- ===== src/Thread/Create.antt =====
-- thread/thread.c: mutexes, atomic numbers, semaphores and threads whose structs come from a pool. The
-- sizes are those of an LP64 target.
pub mod Objects
use utils_modules.Base.{
  ℕ, ◌+◌, ◌%◌, ◌^◌, ◌==◌, Bool, true, false, Option, none, some, if◌then◌else◌,
}
use utils_modules.Pool.Factory.{Policy, Result, done, fault, ◌>>=◌}
use utils_modules.Pool.{Pool, alloc}
use utils_modules.Pool.Life.{zalloc}
use utils_modules.Thread.{
  Pthread, MdlMutex, Caller, pending, crashed, returned, init_mutex, mutex_lock,
}

abbrev pub sizeof_mutex : ℕ
sizeof_mutex = 120

abbrev pub sizeof_atomic : ℕ
sizeof_atomic = 16

abbrev pub sizeof_sem : ℕ
sizeof_sem = 40

abbrev pub sizeof_sem_t : ℕ
sizeof_sem_t = 32

abbrev pub sizeof_thread : ℕ
sizeof_thread = 104

-- What `mdl_thread_create` comes to: it waits, reads through a null pointer, gives FAILURE, or gives a thread.
pub data Creation {ℓ} (A : Type ℓ) : Type ℓ where
  waits : Creation A
  crashes : Creation A
  failed : Creation A
  created : A → Creation A

module _ (policy : Policy) (p : Pthread) where
  open policy use {State}

  -- `mdl_mutex_create`, of a recursive mutex or a simple one: its address and the mutex, or none for
  -- FAILURE. `ok` says whether all calls of `init_mutex` succeed.
  unfoldable pub mutex_create :
      Pool → Bool → Bool → State → Result (Option (ℕ × MdlMutex p) × Pool × State)
  mutex_create pool recursive ok s = do
    (got, pool', s') ← alloc policy pool sizeof_mutex s
    elim got [
      | none ↦ done (none, pool', s')
      | some at ↦ done (if ok then some (at, init_mutex p recursive) else none, pool', s')
    ]

  -- `mdl_atomic_create`: the address of the struct, that of its mutex, the mutex and the value.
  unfoldable pub atomic_create_in :
      Pool → ℕ → Bool → State → Result (Option (ℕ × ℕ × MdlMutex p × ℕ) × Pool × State)
  atomic_create_in pool initial ok s = do
    (got, pool', s') ← alloc policy pool sizeof_atomic s
    elim got [
      | none ↦ done (none, pool', s')
      | some at ↦ do
        (made, pool'', s'') ← mutex_create pool' false ok s'
        elim made [
          | none ↦ done (none, pool'', s'')
          | some (m_at, m) ↦ done (some (at, m_at, m, initial % 2 ^ 64), pool'', s'')
        ]
    ]

  -- `mdl_sem_create`: the addresses of the struct and of the semaphore. `ok` says whether `sem_init`
  -- succeeds; at a null pointer it is a fault.
  unfoldable pub sem_create : Pool → Bool → State → Result (Option (ℕ × ℕ) × Pool × State)
  sem_create pool ok s = do
    (got, pool', s') ← alloc policy pool sizeof_sem s
    elim got [
      | none ↦ done (none, pool', s')
      | some at ↦ do
        (got', pool'', s'') ← alloc policy pool' sizeof_sem_t s'
        elim got' [
          | none ↦ fault
          | some at' ↦ done (if ok then some (at, at') else none, pool'', s'')
        ]
    ]

  -- The mutex of a thread that is created suspended, which its creator locks.
  unfoldable pub suspension :
      Caller → Pool → Bool → State → Result (Creation (ℕ × MdlMutex p) × Pool × State)
  suspension self pool ok s = do
    (made, pool', s') ← mutex_create pool false ok s
    elim made [
      | none ↦ done (failed, pool', s')
      | some (at, m) ↦ done (
        (elim (mutex_lock p self m) [
          | pending ↦ waits
          | crashed ↦ crashes
          | returned (_, m') ↦ created (at, m')
        ]),
        pool',
        s',
      )
    ]

  -- `mdl_thread_create` by the thread `self`: the address of the struct, and the mutex of a thread
  -- that is suspended. `started` says whether `pthread_create` succeeds.
  unfoldable pub thread_create :
      Caller
      → Pool
      → Bool
      → Bool
      → Bool
      → State
      → Result (Creation (ℕ × Option (ℕ × MdlMutex p)) × Pool × State)
  thread_create self pool suspended ok started s = do
    (got, pool', s') ← zalloc policy pool sizeof_thread s
    elim got [
      | none ↦ done (failed, pool', s')
      | some (at, _) ↦
          if suspended
          then (do
            (held, pool'', s'') ← suspension self pool' ok s'
            elim held [
              | waits ↦ done (waits, pool'', s'')
              | crashes ↦ done (crashes, pool'', s'')
              | failed ↦ done (failed, pool'', s'')
              | created m ↦ done (if started then created (at, some m) else failed, pool'', s'')
            ])
          else done (if started then created (at, none) else failed, pool', s')
    ]
