-- ===== src/Thread/Destroy.antt =====
-- `mdl_mutex_destroy` of thread/thread.c, which tries four times.
use utils_modules.Base.{
  ℕ, zero, suc, ◌≡◌, ◌==◌, ◌&&◌, leb, true, false, none, some, arith, ap, ap₂, ◌∙◌,
}
use utils_modules.Thread.{
  Pthread, PthreadLaws, MdlMutex, Caller, returned, destroy_tries, mutex_destroy,
}
use utils_modules.Thread.Release.{log_named_lem}

module _ (p : Pthread) (laws : PthreadLaws p) where
  open p use {Mutex, destroy, unlock}
  open laws use {holder, unlock_last, unlock_more, destroy_free, destroy_held}

  tries_free :
      (self k status : ℕ) (m : Mutex)
      → holder m ≡ none
      → (destroy_tries p self (suc k) status m).0 ≡ 0
  unfolding destroy_tries
  tries_free self k status m free =
      let (m', done) = destroy_free m free in
      let zero_status : ((destroy m).0 == 0) ≡ true = ap (λ r. r.0 == 0) done in
      rw zero_status (ap (λ r. r.0) done)

  tries_last :
      (self n status : ℕ) (m : Mutex)
      → holder m ≡ some (self, n)
      → (destroy_tries p self 1 status m).0 ≡ 16
  unfolding destroy_tries
  tries_last self n status m held =
      let busy = destroy_held self n m held in
      let no_success : ((destroy m).0 == 0) ≡ false = ap (λ r. r.0 == 0) busy in
      rw no_success (ap (λ r. r.0) busy)

  tries_again :
      (self n k status : ℕ) (m m' : Mutex)
      → holder m ≡ some (self, n)
      → unlock self m ≡ (0, m')
      → destroy_tries p self (suc (suc k)) status m ≡ destroy_tries p self (suc k) 16 m'
  unfolding destroy_tries
  tries_again self n k status m m' held unlocked =
      let busy = destroy_held self n m held in
      let no_success : ((destroy m).0 == 0) ≡ false = ap (λ r. r.0 == 0) busy in
      let retried : leb 1 (suc k) && (destroy m).0 == 16 ≡ true =
        ground (arith, ap (λ r. r.0) busy) in
      rw (no_success, retried)
        (ap₂ (λ s x. destroy_tries p self (suc k) s x) (ap (λ r. r.0) busy)
          (ap (λ r. (unlock self r.1).1) busy ∙ ap (λ r. r.1) unlocked))

  -- A mutex that the thread holds `n + 1` times, with `k + 1` tries left.
  tries_held :
      (self n k status : ℕ) (m : Mutex)
      → holder m ≡ some (self, suc n)
      → ((destroy_tries p self (suc k) status m).0 == 0) ≡ leb (suc n) k
  tries_held self n zero status m held =
      ap (λ s. s == 0) (tries_last self (suc n) status m held) ∙ ground arith
  tries_held self zero (suc k) status m held =
      let (m', unlocked, free) = unlock_last self m held in
      ap (λ r. r.0 == 0) (tries_again self 1 k status m m' held unlocked)
      ∙ ap (λ s. s == 0) (tries_free self k 16 m' free)
      ∙ ground arith
  tries_held self (suc n) (suc k) status m held =
      let (m', unlocked, fewer) = unlock_more self n m held in
      ap (λ r. r.0 == 0) (tries_again self (suc (suc n)) k status m m' held unlocked)
      ∙ tries_held self n k 16 m' fewer
      ∙ ground arith

  -- `mdl_mutex_destroy` by a registered thread that holds the mutex, `n + 1` times, succeeds just when it
  -- holds it at most three times: each of the first three tries that finds it held releases it once.
  pub mutex_destroy_lem :
      (c : Caller) (n : ℕ) (m : MdlMutex p)
      → c.registered ≡ true
      → holder m.mutex ≡ some (c.thread, suc n)
      → (m' : MdlMutex p) × (mutex_destroy p c m ≡ returned (leb (suc n) 3, m'))
  unfolding mutex_destroy
  mutex_destroy_lem c n m known held = (
    record m { mutex = (destroy_tries p c.thread 4 0 m.mutex).1 },
    log_named_lem c _ known
        ∙ ap (λ b. returned (b, record m { mutex = (destroy_tries p c.thread 4 0 m.mutex).1 }))
            (tries_held c.thread n 3 0 m.mutex held),
  )
