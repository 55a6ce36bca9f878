-- ===== src/Timer.antt =====
-- timer/module_timer.c and module_timer.h: timers in an array, in a list of those at work, the
-- earliest first, or in a list of free ones. Each function runs under the semaphore `g_sem`. Time is
-- in natural numbers; an interval, a message queue or a number of times that is not positive, where
-- the code tests for that, is 0 or none.
pub mod Links
pub mod Order
pub mod Valid
pub mod Set
pub mod Change
pub mod Init
pub mod Fire
pub mod Tick
pub mod Stale
mod Tests
use utils_modules.Base.{
  ℕ, zero, suc, ◌+◌, ◌-◌, ◌*◌, ◌/◌, ◌%◌, Bool, true, false, List, [], ◌∷◌, Option, none, some, ltb,
  leb, ◌==◌, if◌then◌else◌, ◌||◌, ◌&&◌,
}
use Links.{Clist}

abbrev pub max_timer_number : ℕ
max_timer_number = 4095

-- `struct timeval`.
pub record Time : Type 0 where
  pub sec : ℕ
  pub usec : ℕ

-- `st_timer` without its list node.
pub record Timer : Type 0 where
  pub state : ℕ
  pub times : ℕ
  pub msgid : Option ℕ
  pub id : ℕ
  pub tv : Time
  pub interval : Time
  pub func : Option ℕ
  pub parameter : ℕ

-- `cmptime`: is the first time the second one or later?
unfoldable pub cmptime : Time → Time → Bool
cmptime src dst = ltb dst.sec src.sec || (src.sec == dst.sec && leb dst.usec src.usec)

-- A time later by an interval, the microseconds carried.
unfoldable pub add_time : Time → Time → Time
add_time t i = record {
  sec = (t.sec + i.sec) + (t.usec + i.usec) / 1000000;
  usec = (t.usec + i.usec) % 1000000;
}

unfoldable pub interval_of : ℕ → Time
interval_of ms = record { sec = ms / 1000; usec = ms % 1000 * 1000 }

abbrev pub update : (ℕ → Timer) → ℕ → Timer → ℕ → Timer
update timers i t j = if i == j then t else timers j

-- What one round of the thread does.
pub data Event : Type 0 where
  asleep : Event
  dropped : ℕ → Event
  called : ℕ → ℕ → Event
  sent : ℕ → ℕ → Event
  failed : ℕ → Event
  waits : Time → Event

module _ (clist : Clist) where
  open clist use {Chain, walk, list_init, push_front, push_back, insert, erase, pop_front}

  -- `g_timerArray`, `g_listTimerWork`, `g_listTimerFree`, and the posts of `g_sem_new`.
  pub record Timers : Type 0 where
    pub timers : ℕ → Timer
    pub work : Chain
    pub free : Chain
    pub posts : ℕ

  -- The loop of `insertTimer`: the first timer at work that is not earlier.
  unfoldable pub find_later : (ℕ → Timer) → Time → List ℕ → Option ℕ
  find_later timers tv [] = none
  find_later timers tv (x ∷ xs) =
      let rest = find_later timers tv xs in if cmptime (timers x).tv tv then some x else rest

  place_in : (ℕ → Timer) → ℕ → Chain → List ℕ → Chain
  place_in timers i work [] = push_front i work
  place_in timers i work (x ∷ xs) = elim (find_later timers (timers i).tv (x ∷ xs)) [
    | some at ↦ insert at i work
    | none ↦ push_back i work
  ]

  -- `insertTimer`.
  unfoldable pub insert_timer : Timers → ℕ → Timers
  unfolding place_in
  insert_timer t i = record t { work = place_in t.timers i t.work (walk t.work) }

  first_free : Timers → List ℕ → Option ℕ × Timers
  first_free t [] = (none, t)
  first_free t (i ∷ _) = (some (t.timers i).id, record t { free = pop_front t.free })

  -- `GetTimerID`.
  unfoldable pub get_timer_id : Timers → Option ℕ × Timers
  unfolding first_free
  get_timer_id t = first_free t (walk t.free)

  -- The timer of the array that `SetTimer` or `SetMsgTimer` has written goes to work.
  unfoldable pub start : Timers → ℕ → Timer → Timers
  start t id timer =
      let t' = insert_timer (record t { timers = update t.timers id timer }) id in
      record t' { posts = t'.posts + 1 }

  -- `SetTimer` at the time `now`.
  unfoldable pub set_timer : ℕ → Option ℕ → ℕ → Time → Timers → Option ℕ × Timers
  set_timer ms none parameter now t = (none, t)
  set_timer ms (some f) parameter now t =
      if ms == 0
      then (none, t)
      else let (got, t') = get_timer_id t in
        elim got [
          | none ↦ (none, t')
          | some id ↦ (
            some id,
            start t' id (record (t'.timers id) {
              state = 1;
              id = id;
              interval = interval_of ms;
              tv = add_time now (interval_of ms);
              func = some f;
              parameter = parameter;
              msgid = none;
            }),
          )
        ]

  -- `SetMsgTimer` at the time `now`.
  unfoldable pub set_msg_timer : ℕ → Option ℕ → ℕ → Time → Timers → Option ℕ × Timers
  set_msg_timer ms none times now t = (none, t)
  set_msg_timer ms (some msgid) times now t =
      if ms == 0
      then (none, t)
      else let (got, t') = get_timer_id t in
        elim got [
          | none ↦ (none, t')
          | some id ↦ (
            some id,
            start t' id (record (t'.timers id) {
              state = 1;
              id = id;
              interval = interval_of ms;
              tv = add_time now (interval_of ms);
              msgid = some msgid;
              times = times;
            }),
          )
        ]

  -- The timer stops and is free.
  unfoldable pub retire : Timers → ℕ → Timers
  retire t i = record t {
    timers = update t.timers i (record (t.timers i) { state = 0 });
    free = push_back i t.free;
  }

  -- `KillTimer`.
  unfoldable pub kill_timer : ℕ → Timers → Timers
  kill_timer id t =
      if leb max_timer_number id || (t.timers id).state == 0
      then t
      else retire (record t { work = erase id t.work }) id

  -- `ChangeTimerTime` at the time `now`: whether it returns TIMER_OK.
  unfoldable pub change_timer_time : ℕ → ℕ → Time → Timers → Bool × Timers
  change_timer_time id ms now t =
      if leb max_timer_number id || ms == 0 || (t.timers id).state == 0 then (false, t) else (
        true,
        insert_timer
            (record t {
              timers = update t.timers id (record (t.timers id) {
                interval = interval_of ms;
                tv = add_time now (interval_of ms);
              });
              work = erase id t.work;
            })
            id,
      )

  -- `GetTimerTime`.
  unfoldable pub get_timer_time : ℕ → Timers → ℕ
  get_timer_time id t =
      if leb max_timer_number id || (t.timers id).state == 0
      then 0
      else (t.timers id).interval.sec * 1000 + (t.timers id).interval.usec / 1000

  -- The message branch of the thread.
  unfoldable pub send : Timers → ℕ → ℕ → Event × Timers
  send t i msgid =
      if (t.timers i).times == 0
      then (sent msgid (t.timers i).id, insert_timer t (t.timers i).id)
      else let t' = record t {
        timers = update t.timers i (record (t.timers i) { times = (t.timers i).times - 1 });
      } in
        if (t.timers i).times - 1 == 0
        then (sent msgid (t.timers i).id, retire t' i)
        else (sent msgid (t.timers i).id, insert_timer t' (t.timers i).id)

  -- The timer is due: it is moved on by its interval, taken from the list, and acted on.
  unfoldable pub fire : Timers → ℕ → Event × Timers
  fire t i =
      let timer = record (t.timers i) { tv = add_time (t.timers i).tv (t.timers i).interval } in
      let t' = record t { timers = update t.timers i timer; work = pop_front t.work } in
      elim timer.func [
        | some f ↦ (called f timer.parameter, insert_timer t' timer.id)
        | none ↦ elim timer.msgid [ some msgid ↦ send t' i msgid | none ↦ (failed i, retire t' i) ]
      ]

  tick_at : Time → Timers → List ℕ → Event × Timers
  tick_at now t [] = (asleep, t)
  tick_at now t (i ∷ _) =
      if (t.timers i).state == 0
      then (dropped i, record t { work = pop_front t.work; free = push_back i t.free })
      else if cmptime now (t.timers i).tv
      then fire t i
      else (waits (t.timers i).tv, t)

  -- One round of `thread_timer` at the time `now`.
  unfoldable pub tick : Time → Timers → Event × Timers
  unfolding tick_at
  tick now t = tick_at now t (walk t.work)

  -- The loop of `timerInit`.
  unfoldable pub free_from : ℕ → ℕ → Chain → Chain
  free_from zero b free = free
  free_from (suc n) b free = free_from n (suc b) (push_back b free)

  -- `timerInit` the first time.
  unfoldable pub timer_init : Timers
  timer_init = record {
    timers = λ i. record {
      state = 0;
      times = 0;
      msgid = some 0;
      id = i;
      tv = record { sec = 0; usec = 0 };
      interval = record { sec = 0; usec = 0 };
      func = none;
      parameter = 0;
    };
    work = list_init;
    free = free_from max_timer_number 0 list_init;
    posts = 0;
  }
