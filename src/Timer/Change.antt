-- ===== src/Timer/Change.antt =====
-- `KillTimer` and `ChangeTimerTime` on valid timers.
use utils_modules.Base.{
  ℕ, ◌<◌, ◌≤◌, ◌≡◌, refl, ap, ◌⊎◌, inl, inr, arith, true, false, Bool-cases, leb, ◌==◌, ◌||◌,
}
use utils_modules.Timer.{
  Time, Timer, Timers, update, add_time, interval_of, insert_timer, retire, kill_timer,
  change_timer_time, get_timer_time,
}
use utils_modules.Timer.Links.{Clist, ClistLaws, remove}
use utils_modules.Timer.Valid.{
  IsTimers, erase-IsOut, update-IsOut, insert_timer-IsTimers, retire-IsTimers,
}
use utils_modules.Timer.Set.{same_at, Armed, armed}

module _ (clist : Clist) (laws : ClistLaws clist) where
  open clist use {Chain, walk, list_init, push_back, erase}
  open laws use {walk-list_init, walk-push_back, walk-erase}

  retired_time : (t : Timers clist) (id : ℕ) → get_timer_time clist id (retire clist t id) ≡ 0
  unfolding get_timer_time retire
  retired_time t id =
      let idle : (update t.timers id (record (t.timers id) { state = 0 }) id).state ≡ 0 =
        ap (λ (x : Timer). x.state) (same_at t.timers id (record (t.timers id) { state = 0 })) in
      ground (arith, idle)

  -- `KillTimer` on valid timers leaves them as they are, where the id is out of range or free, or
  -- frees the timer: they are valid, and its interval reads as 0.
  pub kill_timer_lem :
      (id : ℕ) (t : Timers clist)
      → IsTimers clist t
      → ((kill_timer clist id t ≡ t) × (get_timer_time clist id t ≡ 0))
        ⊎ (IsTimers clist (kill_timer clist id t)
            × ((t.timers id).state ≡ 1)
            × (get_timer_time clist id (kill_timer clist id t) ≡ 0)
            × (walk (kill_timer clist id t).work ≡ remove id (walk t.work)))
  unfolding kill_timer get_timer_time retire
  kill_timer_lem id t v = elim (Bool-cases (leb 4095 id || (t.timers id).state == 0)) [
    | inl e ↦ inl (rw e refl, rw e refl)
    | inr e ↦
        let l : id < 4095 = ground (arith, e) in
        let busy : (t.timers id).state ≡ 1 = ground (arith, e, v.state id l, v.once id l) in
        let killed : kill_timer clist id t ≡ retire clist (record t { work = erase id t.work }) id =
          rw e refl in
        inr (
          rw e (
              retire-IsTimers clist laws (record t { work = erase id t.work }) id
                (erase-IsOut clist laws t id v l (λ z. absurd (omega arith)))),
          busy,
          rw killed (retired_time (record t { work = erase id t.work }) id),
          rw e (walk-erase id t.work),
        )
  ]

  -- `ChangeTimerTime` on valid timers reports an error and leaves them as they are, only where the id is
  -- out of range, the time is 0 or the timer is free; or it starts the time of the timer again, with the
  -- new interval.
  pub change_timer_time_lem :
      (id ms : ℕ) (now : Time) (t : Timers clist)
      → IsTimers clist t
      → ((change_timer_time clist id ms now t ≡ (false, t))
          × ((4095 ≤ id) ⊎ (ms ≡ 0) ⊎ ((t.timers id).state ≡ 0)))
        ⊎ ((t' : Timers clist) × (change_timer_time clist id ms now t ≡ (true, t'))
            × ((t.timers id).state ≡ 1)
            × (1 ≤ ms)
            × Armed clist laws id ms now t')
  unfolding change_timer_time insert_timer
  change_timer_time_lem id ms now t v =
      elim (Bool-cases (leb 4095 id || ms == 0 || (t.timers id).state == 0)) [
        | inl e ↦ inl (rw e refl, ground (arith, e))
        | inr e ↦
            let l : id < 4095 = ground (arith, e) in
            let busy : (t.timers id).state ≡ 1 = ground (arith, e, v.state id l, v.once id l) in
            let timer = record (t.timers id) {
              interval = interval_of ms;
              tv = add_time now (interval_of ms);
            } in
            let out =
              update-IsOut clist laws (record t { work = erase id t.work }) id timer
                (erase-IsOut clist laws t id v l (λ z. absurd (omega arith))) (v.named id l) in
            let at = same_at t.timers id timer in
            let moved = record t { timers = update t.timers id timer; work = erase id t.work } in
            inr (
              insert_timer clist moved id,
              rw e refl,
              busy,
              ground (arith, e),
              armed clist laws (insert_timer clist moved id) id ms now
                  (insert_timer-IsTimers clist laws moved id out (rw at busy)) l (rw at busy)
                  (rw at refl) (rw at refl),
            )
      ]
