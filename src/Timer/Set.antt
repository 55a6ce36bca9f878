-- ===== src/Timer/Set.antt =====
-- `SetTimer` and `SetMsgTimer` on valid timers.
use utils_modules.Base.{
  ℕ, ◌+◌, ◌*◌, ◌/◌, ◌<◌, ◌≡◌, refl, ap, ◌∙◌, ◌⊎◌, inl, inr, arith, List, [], ◌∷◌, Option, some,
  none, true, false, Bool-cases, leb, ◌==◌, if◌then◌else◌, ◌||◌,
}
use utils_modules.Timer.{
  Time, Timer, Timers, update, add_time, interval_of, insert_timer, get_timer_id, first_free, start,
  set_msg_timer, get_timer_time,
}
use utils_modules.Timer.Links.{Clist, ClistLaws}
use utils_modules.Timer.Valid.{
  count, IsTimers, IsOut, pop_free-IsOut, update-IsOut, insert_timer-IsTimers,
}

interval_of-back : (ms : ℕ) → (interval_of ms).sec * 1000 + (interval_of ms).usec / 1000 ≡ ms
unfolding interval_of
interval_of-back ms = omega arith

pub same_at : (timers : ℕ → Timer) (i : ℕ) (t : Timer) → update timers i t i ≡ t
same_at timers i t = let here : (i == i) ≡ true = ground arith in rw here refl

module _ (clist : Clist) (laws : ClistLaws clist) where
  open clist use {Chain, walk, list_init, push_back, erase}
  open laws use {walk-list_init, walk-push_back, walk-erase}

  -- The timer `id` is at work for `ms` milliseconds from `now` on.
  abbrev pub Armed : ℕ → ℕ → Time → Timers clist → Type 0
  Armed id ms now t =
      IsTimers clist t
      × (id < 4095)
      × ((t.timers id).state ≡ 1)
      × ((t.timers id).tv ≡ add_time now (interval_of ms))
      × (get_timer_time clist id t ≡ ms)

  pub armed :
      (t : Timers clist) (id ms : ℕ) (now : Time)
      → IsTimers clist t
      → id < 4095
      → (t.timers id).state ≡ 1
      → (t.timers id).tv ≡ add_time now (interval_of ms)
      → (t.timers id).interval ≡ interval_of ms
      → Armed id ms now t
  unfolding get_timer_time
  armed t id ms now v l st tv iv =
      let inside : (leb 4095 id || (t.timers id).state == 0) ≡ false = ground (arith, st) in
      (v, l, st, tv, rw (inside, iv) (interval_of-back ms))

  start-IsTimers :
      (t : Timers clist) (id : ℕ) (timer : Timer)
      → IsOut clist t id
      → timer.id ≡ id
      → timer.state ≡ 1
      → IsTimers clist (start clist t id timer)
  unfolding start insert_timer
  start-IsTimers t id timer v named busy =
      let w =
        insert_timer-IsTimers clist laws (record t { timers = update t.timers id timer }) id
          (update-IsOut clist laws t id timer v named) (rw (same_at t.timers id timer) busy) in
      record { sorted = w.sorted; once = w.once; state = w.state; named = w.named; below = w.below }

  start-Armed :
      (t : Timers clist) (id ms : ℕ) (now : Time) (timer : Timer)
      → IsOut clist t id
      → timer.id ≡ id
      → timer.state ≡ 1
      → timer.tv ≡ add_time now (interval_of ms)
      → timer.interval ≡ interval_of ms
      → Armed id ms now (start clist t id timer) × ((start clist t id timer).timers id ≡ timer)
  unfolding start insert_timer
  start-Armed t id ms now timer v named busy tv iv =
      let at = same_at t.timers id timer in
      (
        armed (start clist t id timer) id ms now (start-IsTimers t id timer v named busy) v.within
            (rw at busy) (rw at tv) (rw at iv),
        at,
      )

  -- What `GetTimerID` takes.
  get_timer_id_lem :
      (t : Timers clist) (xs : List ℕ)
      → IsTimers clist t
      → walk t.free ≡ xs
      → ((get_timer_id clist t ≡ (none, t)) × (xs ≡ []))
        ⊎ ((id : ℕ) × (t' : Timers clist) × (get_timer_id clist t ≡ (some id, t'))
            × IsOut clist t' id
            × (t'.timers ≡ t.timers)
            × ((t.timers id).state ≡ 0))
  unfolding get_timer_id first_free
  get_timer_id_lem t [] v e = inl (rw (e, first_free) refl, refl)
  get_timer_id_lem t (i ∷ is) v e =
      let o = pop_free-IsOut clist laws t i is v e in
      let there : count i (walk t.free) ≡ (if i == i then 1 else 0) + count i is = ap (count i) e in
      inr (
        i,
        record t { free = clist.pop_front t.free },
        rw (e, first_free, v.named i o.within) refl,
        o,
        refl,
        ground (arith, v.state i o.within, v.once i o.within, there),
      )

  -- A timer is refused: nothing is to be done, the time is 0, or no timer is free.
  abbrev pub Refused {ℓ} : {A : Type ℓ} → ℕ → Option A → Timers clist → Type ℓ
  Refused ms action t = (action ≡ none) ⊎ (ms ≡ 0) ⊎ (walk t.free ≡ [])

  -- `SetMsgTimer` on valid timers leaves them as they are and reports an error, or takes a timer that
  -- was free and puts it to work with the queue and the number of times given. It leaves the
  -- function of the timer's last use in place.
  pub set_msg_timer_lem :
      (ms : ℕ) (msgid : Option ℕ) (times : ℕ) (now : Time) (t : Timers clist)
      → IsTimers clist t
      → (set_msg_timer clist ms msgid times now t ≡ (none, t))
        ⊎ ((id : ℕ) × (t' : Timers clist) × (set_msg_timer clist ms msgid times now t
              ≡ (some id, t'))
            × Armed id ms now t'
            × ((t.timers id).state ≡ 0)
            × ((t'.timers id).msgid ≡ msgid)
            × ((t'.timers id).times ≡ times)
            × ((t'.timers id).func ≡ (t.timers id).func))
  unfolding set_msg_timer
  set_msg_timer_lem ms none times now t v = inl refl
  set_msg_timer_lem ms (some m) times now t v = elim (Bool-cases (ms == 0)) [
    | inl e ↦ inl (rw e refl)
    | inr e ↦ elim (get_timer_id_lem t (walk t.free) v refl) [
      | inl (out, empty) ↦ inl (rw (e, ap (λ x. x.0) out, ap (λ x. x.1) out) refl)
      | inr (id, t', got, o, same, idle) ↦
          let timer = record (t'.timers id) {
            state = 1;
            id = id;
            interval = interval_of ms;
            tv = add_time now (interval_of ms);
            msgid = some m;
            times = times;
          } in
          let (a, at) = start-Armed t' id ms now timer o refl refl refl refl in
          inr (
            id,
            start clist t' id timer,
            rw (e, ap (λ x. x.0) got, ap (λ x. x.1) got) refl,
            a,
            idle,
            ap (λ (x : Timer). x.msgid) at,
            ap (λ (x : Timer). x.times) at,
            ap (λ (x : Timer). x.func) at ∙ ap (λ (f : ℕ → Timer). (f id).func) same,
          )
    ]
  ]
