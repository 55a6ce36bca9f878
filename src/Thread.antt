-- ===== src/Thread.antt =====
-- thread/thread.c and thread.h: mutexes, atomic numbers and suspended threads over the mutexes of
-- pthread, with MUTEX_DEBUG, as the header has it. The names are left out, but not the reads
-- through the caller's record, which is null for a thread that has not been registered.
pub mod Create
pub mod Semaphore
pub mod Registry
pub mod Release
pub mod Destroy
pub mod Atomic
mod ObjectTests
mod Tests
use utils_modules.Base.{
  ℕ, zero, suc, ◌+◌, ◌-◌, ◌%◌, ◌^◌, ◌≤◌, ◌<◌, ◌≡◌, Bool, true, false, not, Option, none, some, ltb,
  leb, ◌==◌, ◌&&◌, if◌then◌else◌,
}

-- `pthread_mutex_t`, normal or recursive. A call is made by a thread, and gives a status, 0 for success;
-- to lock gives none when the thread has to wait.
pub record Pthread : Type 1 where
  pub Mutex : Type 0
  pub init : Bool → Mutex
  pub lock : ℕ → Mutex → Option (ℕ × Mutex)
  pub unlock : ℕ → Mutex → ℕ × Mutex
  pub trylock : ℕ → Mutex → ℕ × Mutex
  pub destroy : Mutex → ℕ × Mutex

abbrev pub ebusy : ℕ
ebusy = 16

-- What POSIX says of them: who holds a mutex, how often, and what the calls make of that.
pub record PthreadLaws (p : Pthread) : Type 1 where
  pub holder : p.Mutex → Option (ℕ × ℕ)
  pub is_recursive : p.Mutex → Bool
  pub holder-init : (r : Bool) → holder (p.init r) ≡ none
  pub is_recursive-init : (r : Bool) → is_recursive (p.init r) ≡ r
  pub lock_free :
      (t : ℕ) (m : p.Mutex)
      → holder m ≡ none
      → (m' : p.Mutex) × (p.lock t m ≡ some (0, m'))
        × (holder m' ≡ some (t, 1))
        × (is_recursive m' ≡ is_recursive m)
  pub lock_again :
      (t n : ℕ) (m : p.Mutex)
      → is_recursive m ≡ true
      → holder m ≡ some (t, n)
      → (m' : p.Mutex) × (p.lock t m ≡ some (0, m'))
        × (holder m' ≡ some (t, suc n))
        × (is_recursive m' ≡ is_recursive m)
  pub lock_held :
      (t u n : ℕ) (m : p.Mutex)
      → is_recursive m ≡ false
      → holder m ≡ some (u, n)
      → p.lock t m ≡ none
  pub lock_other :
      (t u n : ℕ) (m : p.Mutex) → ¬ (t ≡ u) → holder m ≡ some (u, n) → p.lock t m ≡ none
  pub unlock_last :
      (t : ℕ) (m : p.Mutex)
      → holder m ≡ some (t, 1)
      → (m' : p.Mutex) × (p.unlock t m ≡ (0, m')) × (holder m' ≡ none)
  pub unlock_more :
      (t n : ℕ) (m : p.Mutex)
      → holder m ≡ some (t, suc (suc n))
      → (m' : p.Mutex) × (p.unlock t m ≡ (0, m')) × (holder m' ≡ some (t, suc n))
  pub destroy_free : (m : p.Mutex) → holder m ≡ none → (m' : p.Mutex) × (p.destroy m ≡ (0, m'))
  pub destroy_held : (t n : ℕ) (m : p.Mutex) → holder m ≡ some (t, n) → p.destroy m ≡ (ebusy, m)

-- What a call comes to: it waits, it reads through a null pointer, or it comes back.
pub data Call {ℓ} (A : Type ℓ) : Type ℓ where
  pending : Call A
  crashed : Call A
  returned : A → Call A

infixl 5 ◌>>=◌
abbrev pub ◌>>=◌ {ℓ κ} : {A : Type ℓ} {B : Type κ} → Call A → (A → Call B) → Call B
pending >>= f = pending
crashed >>= f = crashed
returned a >>= f = f a

-- A thread that calls: whether it has a record (else `mdl_thread_this` gives a null pointer), and whether
-- the messages of level 6 are logged.
pub record Caller : Type 0 where
  pub thread : ℕ
  pub registered : Bool
  pub logged : Bool

-- `mdl_thread_this`.
unfoldable pub this_thread : Caller → Option ℕ
this_thread c = if c.registered then some c.thread else none

-- `mutex->owner == mdl_thread_this()`, where both may be null.
unfoldable pub is_thread : Option ℕ → Option ℕ → Bool
is_thread none none = true
is_thread none (some self) = false
is_thread (some t) none = false
is_thread (some t) (some self) = t == self

-- The name in the caller's record is read, always or where a message of level 6 is logged, before the
-- rest of the call.
unfoldable pub named {ℓ} : {A : Type ℓ} → Caller → Call A → Call A
named c next = if c.registered then next else crashed

unfoldable pub log_named {ℓ} : {A : Type ℓ} → Caller → Call A → Call A
unfolding named
log_named c next = if c.logged then named c next else next

module _ (p : Pthread) where
  open p use {Mutex, init, lock, unlock, trylock, destroy}

  -- `mdl_mutex_t`.
  pub record MdlMutex : Type 0 where
    pub mutex : Mutex
    pub owner : Option ℕ
    pub nesting_level : ℕ

  -- `init_mutex`, of a recursive mutex or a simple one.
  unfoldable pub init_mutex : Bool → MdlMutex
  init_mutex recursive = record { mutex = init recursive; owner = none; nesting_level = 0 }

  unfoldable pub acquired : Caller → MdlMutex → ℕ × Mutex → Call (Bool × MdlMutex)
  acquired c m (status, mutex) =
      if status == 0
      then named c (
          returned (
            true,
            record {
              mutex = mutex;
              owner = this_thread c;
              nesting_level = (m.nesting_level + 1) % 2 ^ 32;
            },
          ))
      else log_named c (returned (false, record m { mutex = mutex }))

  -- `mdl_mutex_lock` and `mdl_mutex_trylock`.
  unfoldable pub mutex_lock : Caller → MdlMutex → Call (Bool × MdlMutex)
  mutex_lock c m =
      log_named c (elim (lock c.thread m.mutex) [ none ↦ pending | some r ↦ acquired c m r ])

  unfoldable pub mutex_trylock : Caller → MdlMutex → Call (Bool × MdlMutex)
  mutex_trylock c m = log_named c (acquired c m (trylock c.thread m.mutex))

  -- `mdl_mutex_unlock`. The level is an int, kept as its word of 32 bits.
  unfoldable pub disowned : MdlMutex → MdlMutex
  disowned m =
      let level : ℕ = (m.nesting_level + (2 ^ 32 - 1)) % 2 ^ 32 in
      if level == 0
      then record m { owner = none; nesting_level = 0 }
      else record m { nesting_level = level }

  unfoldable pub mutex_unlock : Caller → MdlMutex → Call (Bool × MdlMutex)
  mutex_unlock c m =
      let locked : Call (Bool × MdlMutex) = elim (lock c.thread m.mutex) [
        | none ↦ pending
        | some r ↦ returned (r.0 == 0, record (disowned m) { mutex = r.1 })
      ] in
      if is_thread m.owner (this_thread c) then log_named c locked else returned (false, m)

  -- `mdl_mutex_destroy`: the tries that are left, and the last status.
  unfoldable pub destroy_tries : ℕ → ℕ → ℕ → Mutex → ℕ × Mutex
  destroy_tries self zero status m = (status, m)
  destroy_tries self (suc k) status m =
      let status' : ℕ = (destroy m).0 in
      let unlocked : ℕ × Mutex = destroy_tries self k status' (unlock self (destroy m).1).1 in
      let again : ℕ × Mutex = destroy_tries self k status' (destroy m).1 in
      if status' == 0 then destroy m else if leb 1 k && status' == ebusy then unlocked else again

  unfoldable pub mutex_destroy : Caller → MdlMutex → Call (Bool × MdlMutex)
  mutex_destroy c m =
      let r : ℕ × Mutex = destroy_tries c.thread 4 0 m.mutex in
      log_named c (returned (r.0 == 0, record m { mutex = r.1 }))

  -- `mdl_mutex_islocked`.
  unfoldable pub mutex_islocked : Caller → MdlMutex → Bool
  mutex_islocked c m = is_thread m.owner (this_thread c)

  -- `mdl_atomic_t`, its value a 64-bit word.
  pub record Atom : Type 0 where
    pub guard : MdlMutex
    pub value : ℕ

  unfoldable pub atomic_create : ℕ → Atom
  atomic_create initial = record { guard = init_mutex false; value = initial % 2 ^ 64 }

  -- The value is changed under the mutex; each function gives the new value.
  unfoldable pub atomic_update : Caller → (ℕ → ℕ) → Atom → Call (ℕ × Atom)
  atomic_update c f a = mutex_lock c a.guard >>= (λ l.
      mutex_unlock c (l.1)
      >>= (λ u. returned (f a.value, record { guard = u.1; value = f a.value })))

  unfoldable pub atomic_set : Caller → ℕ → Atom → Call (ℕ × Atom)
  atomic_set c v a = atomic_update c (λ x. v % 2 ^ 64) a

  unfoldable pub atomic_get : Caller → Atom → Call (ℕ × Atom)
  atomic_get c a = atomic_update c (λ x. x) a

  unfoldable pub atomic_add_and_get : Caller → ℕ → Atom → Call (ℕ × Atom)
  atomic_add_and_get c v a = atomic_update c (λ x. (x + v) % 2 ^ 64) a

  unfoldable pub atomic_inc_and_get : Caller → Atom → Call (ℕ × Atom)
  atomic_inc_and_get c a = atomic_update c (λ x. (x + 1) % 2 ^ 64) a

  unfoldable pub atomic_dec_and_get : Caller → Atom → Call (ℕ × Atom)
  atomic_dec_and_get c a = atomic_update c (λ x. (x + (2 ^ 64 - 1)) % 2 ^ 64) a

  -- `mdl_thread_create` of a suspended thread, by the thread `c`, and `mdl_thread_resume`.
  unfoldable pub create_suspended : Caller → Call (Bool × MdlMutex)
  create_suspended c = mutex_lock c (init_mutex false)

  unfoldable pub thread_resume : Caller → MdlMutex → Call (Bool × MdlMutex)
  thread_resume c suspended = mutex_lock c suspended

  -- What a thread that was created suspended does before it calls the user's function.
  unfoldable pub await_resume : Caller → MdlMutex → Call (Bool × MdlMutex)
  await_resume c suspended = mutex_lock c suspended >>= (λ l. mutex_unlock c (l.1))
