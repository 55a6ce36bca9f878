-- ===== src/Thread/Release.antt =====
-- `mdl_mutex_unlock` of thread/thread.c locks the mutex of pthread once more.
use utils_modules.Base.{
  ℕ, ◌+◌, ◌-◌, ◌%◌, ◌^◌, ◌≡◌, ◌∙◌, ◌⊎◌, inl, inr, Bool-cases, ◌==◌, true, false, none, some, arith,
  refl, ap,
}
use utils_modules.Thread.{
  Pthread, PthreadLaws, MdlMutex, Caller, Call, pending, returned, this_thread, named, log_named,
  acquired, mutex_lock, mutex_unlock, is_thread, disowned,
}

-- A registered thread reads its name without a fault.
pub named_lem {ℓ} : {A : Type ℓ} (c : Caller) (r : Call A) → c.registered ≡ true → named c r ≡ r
unfolding named
named_lem c r e = rw e refl

pub log_named_lem {ℓ} :
    {A : Type ℓ} (c : Caller) (r : Call A) → c.registered ≡ true → log_named c r ≡ r
unfolding log_named named
log_named_lem c r e = elim (Bool-cases c.logged) [
  | inl on ↦ rw (on, e) refl
  | inr off ↦ rw off refl
]

pub this_lem : (c : Caller) → c.registered ≡ true → this_thread c ≡ some c.thread
unfolding this_thread
this_lem c e = rw e refl

module _ (p : Pthread) (laws : PthreadLaws p) where
  open p use {Mutex, lock}
  open laws use {holder, is_recursive, lock_free, lock_again, lock_held, lock_other}

  -- The owner that is noted is the holder, for a mutex held once.
  abbrev pub IsHeld : ℕ → MdlMutex p → Type 0
  IsHeld t m = (holder m.mutex ≡ some (t, 1)) × (m.owner ≡ some t) × (m.nesting_level ≡ 1)

  pub lock-IsHeld :
      (c : Caller) (m : MdlMutex p)
      → c.registered ≡ true
      → holder m.mutex ≡ none
      → m.nesting_level ≡ 0
      → (m' : MdlMutex p) × (mutex_lock p c m ≡ returned (true, m'))
        × IsHeld c.thread m'
        × (is_recursive m'.mutex ≡ is_recursive m.mutex)
  unfolding mutex_lock acquired
  lock-IsHeld c m known free level =
      let (x, locked, held, same) = lock_free c.thread m.mutex free in
      (
        record { mutex = x; owner = this_thread c; nesting_level = (m.nesting_level + 1) % 2 ^ 32 },
        log_named_lem c _ known ∙ rw locked (named_lem c _ known),
        (held, this_lem c known, ap (λ n. (n + 1) % 2 ^ 32) level),
        same,
      )

  pub own_lock :
      (c : Caller) (m : MdlMutex p)
      → c.registered ≡ true
      → m.owner ≡ some c.thread
      → is_thread m.owner (this_thread c) ≡ true
  unfolding is_thread this_thread
  own_lock c m known own = let e : (c.thread == c.thread) ≡ true = ground arith in rw (own, known) e

  pub unlock_waits :
      (c : Caller) (m : MdlMutex p)
      → c.registered ≡ true
      → IsHeld c.thread m
      → is_recursive m.mutex ≡ false
      → mutex_unlock p c m ≡ pending
  unfolding mutex_unlock
  unlock_waits c m known v simple =
      let waits = lock_held c.thread c.thread 1 m.mutex simple (v.0) in
      rw (own_lock c m known (v.1)) (log_named_lem c _ known ∙ rw waits refl)

  unlock_locks :
      (c : Caller) (m : MdlMutex p)
      → c.registered ≡ true
      → IsHeld c.thread m
      → is_recursive m.mutex ≡ true
      → (m' : MdlMutex p) × (mutex_unlock p c m ≡ returned (true, m'))
        × (m'.owner ≡ none)
        × (holder m'.mutex ≡ some (c.thread, 2))
  unfolding mutex_unlock disowned
  unlock_locks c m known v again =
      let (x, locked, held, same) = lock_again c.thread 1 m.mutex again (v.0) in
      let last : ((m.nesting_level + (2 ^ 32 - 1)) % 2 ^ 32 == 0) ≡ true =
        ap (λ n. (n + (2 ^ 32 - 1)) % 2 ^ 32 == 0) (v.2) in
      (
        record { mutex = x; owner = none; nesting_level = 0 },
        rw (own_lock c m known (v.1)) (log_named_lem c _ known ∙ rw (locked, last) refl),
        refl,
        held,
      )

  other_waits :
      (d : Caller) (t n : ℕ) (m : MdlMutex p)
      → d.registered ≡ true
      → ¬ (d.thread ≡ t)
      → holder m.mutex ≡ some (t, n)
      → mutex_lock p d m ≡ pending
  unfolding mutex_lock
  other_waits d t n m known other held =
      log_named_lem d _ known ∙ rw (lock_other d.thread t n m.mutex other held) refl

  -- After a registered thread has locked a mutex that was free, its call of `mdl_mutex_unlock` does not
  -- release it. If the mutex is simple, the call waits, on a mutex that its own thread holds. If it is
  -- recursive, the call returns success and notes no owner, but the thread then holds the mutex twice,
  -- and `mdl_mutex_lock` of any other registered thread waits.
  pub mutex_unlock_keeps :
      (c d : Caller) (m : MdlMutex p)
      → c.registered ≡ true
      → d.registered ≡ true
      → holder m.mutex ≡ none
      → m.nesting_level ≡ 0
      → ¬ (d.thread ≡ c.thread)
      → (m' : MdlMutex p) × (mutex_lock p c m ≡ returned (true, m'))
        × (((is_recursive m.mutex ≡ false) × (mutex_unlock p c m' ≡ pending))
            ⊎ ((m'' : MdlMutex p) × (is_recursive m.mutex ≡ true)
                × (mutex_unlock p c m' ≡ returned (true, m''))
                × (m''.owner ≡ none)
                × (holder m''.mutex ≡ some (c.thread, 2))
                × (mutex_lock p d m'' ≡ pending)))
  mutex_unlock_keeps c d m known known' free level other =
      let (m', locked, held, same) = lock-IsHeld c m known free level in
      elim (Bool-cases (is_recursive m.mutex)) [
        | inl again ↦
            let (m'', unlocked, none_noted, twice) = unlock_locks c m' known held (same ∙ again) in
            let waits = other_waits d c.thread 2 m'' known' other twice in
            (m', locked, inr (m'', again, unlocked, none_noted, twice, waits))
        | inr simple ↦ (m', locked, inl (simple, unlock_waits c m' known held (same ∙ simple)))
      ]
