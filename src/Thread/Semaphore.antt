-- ===== src/Thread/Semaphore.antt =====
-- thread/thread.c: semaphores over those of POSIX. A call gives whether it succeeded; to wait may also fail,
-- as when a signal comes, and gives none while it waits.
use utils_modules.Base.{ℕ, Bool, true, false, Option, none, some, if◌then◌else◌}
use utils_modules.Thread.{Call, pending, returned, Caller, log_named}

-- `sem_t`.
pub record PosixSem : Type 1 where
  pub Sem : Type 0
  pub init : ℕ → Option Sem
  pub wait : Sem → Option (Bool × Sem)
  pub trywait : Sem → Bool × Sem
  pub post : Sem → Bool × Sem
  pub destroy : Sem → Bool

module _ (p : PosixSem) where
  open p use {Sem, wait, trywait, post, destroy}

  -- `mdl_sem_wait`, `mdl_sem_trywait`, `mdl_sem_post` and `mdl_sem_destroy`.
  unfoldable pub sem_wait : Caller → Sem → Call (Bool × Sem)
  sem_wait c s =
      let waited : Call (Bool × Sem) = elim (wait s) [
        | none ↦ pending
        | some r ↦ returned (if r.0 then true else false, r.1)
      ] in
      log_named c waited

  -- The message is logged on success only.
  unfoldable pub sem_trywait : Caller → Sem → Call (Bool × Sem)
  sem_trywait c s =
      let r : Bool × Sem = trywait s in
      if r.0 then log_named c (returned (true, r.1)) else returned (false, r.1)

  unfoldable pub sem_post : Caller → Sem → Call (Bool × Sem)
  sem_post c s =
      let r : Bool × Sem = post s in log_named c (returned (if r.0 then true else false, r.1))

  unfoldable pub sem_destroy : Caller → Sem → Call Bool
  sem_destroy c s = log_named c (returned (if destroy s then true else false))
