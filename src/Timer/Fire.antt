-- ===== src/Timer/Fire.antt =====
-- The branch of `thread_timer` for a timer that is due.
use utils_modules.Base.{
  ℕ, ◌+◌, ◌-◌, ◌≡◌, refl, sym, ap, ◌∙◌, ◌⊎◌, inl, inr, arith, List, ◌∷◌, Option, some, none,
  Bool-cases, ◌==◌, if◌then◌else◌,
}
use utils_modules.Timer.{
  Timer, Timers, Event, called, sent, failed, update, add_time, insert_timer, retire, send, fire,
}
use utils_modules.Timer.Links.{Clist, ClistLaws}
use utils_modules.Timer.Valid.{
  count, IsTimers, IsOut, pop_work-IsOut, update-IsOut, insert_timer-IsTimers, retire-IsTimers,
}
use utils_modules.Timer.Set.{same_at}

-- What a due timer does: its function, or else a message, or else nothing.
abbrev pub due_event : Timer → ℕ → Event
due_event timer i = elim timer.func [
  | some f ↦ called f timer.parameter
  | none ↦ elim timer.msgid [ some m ↦ sent m i | none ↦ failed i ]
]

-- The last part of `fire`, by the timer's function and queue.
fire_as :
    (clist : Clist) → Timers clist → Timers clist → ℕ → Option ℕ → Option ℕ → Event × Timers clist
fire_as clist t t' i (some f) msgid = (called f (t.timers i).parameter, insert_timer clist t' i)
fire_as clist t t' i none (some m) = send clist t' i m
fire_as clist t t' i none none = (failed i, retire clist t' i)

module _ (clist : Clist) (laws : ClistLaws clist) where
  open clist use {Chain, walk, pop_front}

  -- The timer after it was due: at work again an interval later, or free, where it sends and its
  -- number of times has come to its end or it has neither a function nor a queue.
  abbrev pub After : Timer → Timer → Type 0
  After old new =
      ((new.state ≡ 1) × (new.tv ≡ add_time old.tv old.interval))
      ⊎ ((new.state ≡ 0) × (old.func ≡ none) × ((old.msgid ≡ none) ⊎ (old.times ≡ 1)))

  abbrev pub Fired : Timers clist → ℕ → Event × Timers clist → Type 0
  Fired t i r =
      (r.0 ≡ due_event (t.timers i) i) × IsTimers clist r.1 × After (t.timers i) (r.1.timers i)

  -- The message branch, for a timer that has left the list.
  Sent : Timers clist → ℕ → ℕ → Event × Timers clist → Type 0
  Sent t i m r =
      (r.0 ≡ sent m i)
      × IsTimers clist r.1
      × ((((r.1.timers i).state ≡ 1) × ((r.1.timers i).tv ≡ (t.timers i).tv))
          ⊎ (((r.1.timers i).state ≡ 0) × ((t.timers i).times ≡ 1)))

  retired-state : (t : Timers clist) (i : ℕ) → ((retire clist t i).timers i).state ≡ 0
  unfolding retire
  retired-state t i =
      ap (λ (x : Timer). x.state) (same_at t.timers i (record (t.timers i) { state = 0 }))

  sent_on :
      (t t' : Timers clist) (i m : ℕ)
      → IsOut clist t' i
      → (t'.timers i).state ≡ 1
      → (t'.timers i).tv ≡ (t.timers i).tv
      → Sent t i m (sent m i, insert_timer clist t' i)
  unfolding insert_timer Sent
  sent_on t t' i m out busy tv =
      (refl, insert_timer-IsTimers clist laws t' i out busy, inl (busy, tv))

  sent_last :
      (t t' : Timers clist) (i m : ℕ)
      → IsOut clist t' i
      → (t.timers i).times ≡ 1
      → Sent t i m (sent m i, retire clist t' i)
  unfolding Sent
  sent_last t t' i m out one =
      (refl, retire-IsTimers clist laws t' i out, inr (retired-state t' i, one))

  send_lem :
      (t : Timers clist) (i m : ℕ)
      → IsOut clist t i
      → (t.timers i).state ≡ 1
      → Sent t i m (send clist t i m)
  unfolding send
  send_lem t i m out busy =
      let named = out.named i out.within in
      let less = record (t.timers i) { times = (t.timers i).times - 1 } in
      let t' : Timers clist = record t { timers = update t.timers i less } in
      let at = same_at t.timers i less in
      let out' = update-IsOut clist laws t i less out named in
      elim (Bool-cases ((t.timers i).times == 0)) [
        | inl e ↦
            let eq : send clist t i m ≡ (sent m i, insert_timer clist t i) =
              rw (e, send, named) refl in
            rw eq (sent_on t t i m out busy refl)
        | inr e ↦ elim (Bool-cases ((t.timers i).times - 1 == 0)) [
          | inl last ↦
              let eq : send clist t i m ≡ (sent m i, retire clist t' i) =
                rw (e, last, send, named) refl in
              rw eq (sent_last t t' i m out' (ground (arith, e, last)))
          | inr more ↦
              let eq : send clist t i m ≡ (sent m i, insert_timer clist t' i) =
                rw (e, more, send, named) refl in
              rw eq (sent_on t t' i m out' (rw at busy) (rw at refl))
        ]
      ]

  -- The timer after its message.
  Sent-Fired :
      (t t' : Timers clist) (i m : ℕ) (r : Event × Timers clist)
      → Sent t' i m r
      → (t'.timers i).tv ≡ add_time (t.timers i).tv (t.timers i).interval
      → (t'.timers i).times ≡ (t.timers i).times
      → (t.timers i).func ≡ none
      → (t.timers i).msgid ≡ some m
      → Fired t i r
  unfolding Sent
  Sent-Fired t t' i m r (ev, v, inl (busy, tv)) moved times fe me =
      (rw (fe, me) ev, v, inl (busy, tv ∙ moved))
  Sent-Fired t t' i m r (ev, v, inr (idle, one)) moved times fe me =
      (rw (fe, me) ev, v, inr (idle, fe, inr (sym times ∙ one)))

  called-Fired :
      (t t' : Timers clist) (i f : ℕ)
      → IsOut clist t' i
      → (t'.timers i).state ≡ 1
      → (t'.timers i).tv ≡ add_time (t.timers i).tv (t.timers i).interval
      → (t.timers i).func ≡ some f
      → Fired t i (called f (t.timers i).parameter, insert_timer clist t' i)
  unfolding insert_timer
  called-Fired t t' i f out busy moved fe =
      (rw fe refl, insert_timer-IsTimers clist laws t' i out busy, inl (busy, moved))

  fire_to :
      (t t' : Timers clist) (i : ℕ) (func msgid : Option ℕ)
      → IsOut clist t' i
      → (t'.timers i).state ≡ 1
      → (t'.timers i).tv ≡ add_time (t.timers i).tv (t.timers i).interval
      → (t'.timers i).times ≡ (t.timers i).times
      → fire clist t i ≡ fire_as clist t t' i func msgid
      → (t.timers i).func ≡ func
      → (t.timers i).msgid ≡ msgid
      → Fired t i (fire clist t i)
  unfolding fire_as
  fire_to t t' i (some f) msgid out busy tv times eq fe me =
      rw eq (called-Fired t t' i f out busy tv fe)
  fire_to t t' i none (some m) out busy tv times eq fe me =
      rw eq (Sent-Fired t t' i m (send clist t' i m) (send_lem t' i m out busy) tv times fe me)
  fire_to t t' i none none out busy tv times eq fe me =
      rw eq (
        rw (fe, me) refl,
        retire-IsTimers clist laws t' i out,
        inr (retired-state t' i, fe, inl me),
      )

  fire_eq :
      (t : Timers clist) (i : ℕ) (func msgid : Option ℕ)
      → (t.timers i).id ≡ i
      → (t.timers i).func ≡ func
      → (t.timers i).msgid ≡ msgid
      → fire clist t i
        ≡ fire_as clist t
            (record t {
              timers =
                  update t.timers i
                    (record (t.timers i) { tv = add_time (t.timers i).tv (t.timers i).interval });
              work = pop_front t.work;
            })
            i
            func
            msgid
  unfolding fire fire_as
  fire_eq t i (some f) msgid named fe me = rw (fe, fire, fe, named) refl
  fire_eq t i none (some m) named fe me = rw (fe, fire, me, fe, me) refl
  fire_eq t i none none named fe me = rw (fe, fire, me, fe, me) refl

  fire_by :
      (t : Timers clist) (i : ℕ) (is : List ℕ) (func msgid : Option ℕ)
      → IsTimers clist t
      → walk t.work ≡ i ∷ is
      → (t.timers i).func ≡ func
      → (t.timers i).msgid ≡ msgid
      → Fired t i (fire clist t i)
  unfolding fire
  fire_by t i is func msgid v e fe me =
      let out = pop_work-IsOut clist laws t i is v e in
      let there : count i (walk t.work) ≡ (if i == i then 1 else 0) + count i is = ap (count i) e in
      let busy : (t.timers i).state ≡ 1 =
        ground (arith, there, v.state i out.within, v.once i out.within) in
      let moved = record (t.timers i) { tv = add_time (t.timers i).tv (t.timers i).interval } in
      let t' : Timers clist = record t {
        timers = update t.timers i moved;
        work = pop_front t.work;
      } in
      let named = v.named i out.within in
      let out' = update-IsOut clist laws (record t { work = pop_front t.work }) i moved out named in
      let at = same_at t.timers i moved in
      fire_to t t' i func msgid out' (rw at busy) (rw at refl) (rw at refl)
        (fire_eq t i func msgid named fe me) fe me

  -- A due timer acts as `due_event` says, the timers stay valid, and the timer is as `After` says.
  pub fire_lem :
      (t : Timers clist) (i : ℕ) (is : List ℕ)
      → IsTimers clist t
      → walk t.work ≡ i ∷ is
      → Fired t i (fire clist t i)
  fire_lem t i is v e = fire_by t i is (t.timers i).func (t.timers i).msgid v e refl refl
