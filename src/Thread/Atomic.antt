-- ===== src/Thread/Atomic.antt =====
-- The functions of thread/thread.c that rest on a simple mutex: the atomic numbers, and suspended threads.
use utils_modules.Base.{ℕ, ◌≡◌, ◌∙◌, true, false, none, refl}
use utils_modules.Thread.{
  Pthread, PthreadLaws, MdlMutex, Caller, pending, returned, init_mutex, mutex_lock, atomic_update,
  atomic_set, atomic_get, atomic_inc_and_get, atomic_dec_and_get, atomic_add_and_get, atomic_create,
  create_suspended, thread_resume, await_resume,
}
use utils_modules.Thread.Release.{log_named_lem, lock-IsHeld, unlock_waits, IsHeld}

module _ (p : Pthread) (laws : PthreadLaws p) where
  open p use {Mutex, lock}
  open laws use {holder, is_recursive, holder-init, is_recursive-init, lock_other, lock_held}

  -- A simple mutex that was just made is locked.
  init-Locks :
      (c : Caller)
      → c.registered ≡ true
      → (m : MdlMutex p) × (mutex_lock p c (init_mutex p false) ≡ returned (true, m))
        × IsHeld p laws c.thread m
        × (is_recursive m.mutex ≡ false)
  unfolding init_mutex
  init-Locks c known =
      let (m, locked, held, same) =
        lock-IsHeld p laws c (init_mutex p false) known (holder-init false) refl in
      (m, locked, held, same ∙ is_recursive-init false)

  update_waits :
      (self : Caller) (v : ℕ) (f : ℕ → ℕ)
      → self.registered ≡ true
      → atomic_update p self f (atomic_create p v) ≡ pending
  unfolding atomic_update atomic_create
  update_waits self v f known =
      let (m, locked, held, simple) = init-Locks self known in
      rw (locked, unlock_waits p laws self m known held simple) refl

  -- None of the functions that read or change an atomic number that `mdl_atomic_create` has made
  -- returns to a registered thread: each waits where it means to release the mutex.
  pub atomic_waits :
      (self : Caller) (v w : ℕ)
      → self.registered ≡ true
      → (atomic_get p self (atomic_create p v) ≡ pending)
        × (atomic_set p self w (atomic_create p v) ≡ pending)
        × (atomic_inc_and_get p self (atomic_create p v) ≡ pending)
        × (atomic_dec_and_get p self (atomic_create p v) ≡ pending)
        × (atomic_add_and_get p self w (atomic_create p v) ≡ pending)
  unfolding atomic_get atomic_set atomic_inc_and_get atomic_dec_and_get atomic_add_and_get
  atomic_waits self v w known = (
    update_waits self v _ known,
    update_waits self v _ known,
    update_waits self v _ known,
    update_waits self v _ known,
    update_waits self v _ known,
  )

  waits_for :
      (c : Caller) (m : MdlMutex p)
      → c.registered ≡ true
      → lock c.thread m.mutex ≡ none
      → mutex_lock p c m ≡ pending
  unfolding mutex_lock
  waits_for c m known waits = log_named_lem c _ known ∙ rw waits refl

  -- A thread that is created suspended waits, and `mdl_thread_resume` by the thread that created it
  -- waits as well: the first holds the mutex from then on, and nothing lets the new thread go on.
  pub resume_waits :
      (self new : Caller)
      → self.registered ≡ true
      → new.registered ≡ true
      → ¬ (new.thread ≡ self.thread)
      → (m : MdlMutex p) × (create_suspended p self ≡ returned (true, m))
        × (await_resume p new m ≡ pending)
        × (thread_resume p self m ≡ pending)
  unfolding create_suspended await_resume thread_resume
  resume_waits self new known known' other =
      let (m, locked, held, simple) = init-Locks self known in
      let new_waits =
        waits_for new m known' (lock_other new.thread self.thread 1 m.mutex other (held.0)) in
      (
        m,
        locked,
        rw new_waits refl,
        waits_for self m known (lock_held self.thread self.thread 1 m.mutex simple (held.0)),
      )
