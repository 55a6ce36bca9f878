-- ===== src/Timer/Tests.antt =====
-- The timers over lists of numbers.
use utils_modules.Base.{
  ℕ, zero, suc, ltb, ◌==◌, if◌then◌else◌, ◌≡◌, ◌≤◌, refl, ◌⊎◌, arith, List, [], ◌∷◌, ◌++◌, some,
  true, false,
}
use utils_modules.Timer.{
  Time, Timer, Timers, called, set_msg_timer, kill_timer, change_timer_time, get_timer_time,
  insert_timer, tick, add_time, interval_of, get_timer_id, first_free, start, place_in, cmptime,
}
use utils_modules.Timer.Links.{Clist, ClistLaws, put_before, remove, tail}
use utils_modules.Timer.Order.{IsSorted, insert_timer-IsSorted}
use utils_modules.Timer.Valid.{count, IsTimers}
use utils_modules.Timer.Set
use utils_modules.Timer.Set.{set_msg_timer_lem}
use utils_modules.Timer.Change.{kill_timer_lem, change_timer_time_lem}
use utils_modules.Timer.Stale.{set_msg_timer-stale}
use utils_modules.Timer.Tick

abbrev chains : Clist
chains = record {
  Chain = List ℕ;
  walk = λ l. l;
  list_init = [];
  push_front = λ i l. i ∷ l;
  push_back = λ i l. l ++ (i ∷ []);
  insert = put_before;
  erase = remove;
  pop_front = tail;
}

abbrev chains_laws : ClistLaws chains
chains_laws = record {
  walk-list_init = refl;
  walk-push_front = λ i l. refl;
  walk-push_back = λ i l. refl;
  walk-insert = λ at i l. refl;
  walk-erase = λ i l. refl;
  walk-pop_front = λ l. refl;
}

abbrev noon : Time
noon = record { sec = 43200; usec = 999999 }

-- Every timer below a number, the last first.
below_list : ℕ → List ℕ
below_list zero = []
below_list (suc n) = n ∷ below_list n

count-below_list : (n i : ℕ) → count i (below_list n) ≡ (if ltb i n then 1 else 0)
unfolding below_list
count-below_list zero i = ground arith
count-below_list (suc n) i = ground (arith, count-below_list n i)

-- A timer whose last function was 5.
abbrev timer : ℕ → ℕ → Timer
timer state i = record {
  state = state;
  times = 1;
  msgid = some 9;
  id = i;
  tv = record { sec = 43200; usec = 0 };
  interval = record { sec = 1; usec = 500000 };
  func = some 5;
  parameter = 6;
}

abbrev all_free : Timers chains
all_free = record { timers = timer 0; work = []; free = below_list 4095; posts = 0 }

abbrev one_busy : Timers chains
one_busy = record {
  timers = λ i. timer (if 4094 == i then 1 else 0) i;
  work = 4094 ∷ [];
  free = below_list 4094;
  posts = 1;
}

all_free-IsTimers : IsTimers chains all_free
all_free-IsTimers = record {
  sorted = tt;
  once = λ i l. ground (arith, count-below_list 4095 i);
  state = λ i l. refl;
  named = λ i l. refl;
  below = λ i l. ground (arith, count-below_list 4095 i);
}

one_busy-IsTimers : IsTimers chains one_busy
one_busy-IsTimers = record {
  sorted = (tt, tt);
  once = λ i l. ground (arith, count-below_list 4094 i);
  state = λ i l. ground arith;
  named = λ i l. refl;
  below = λ i l. ground (arith, count-below_list 4094 i);
}

insert_timer-IsSorted_example :
    IsSorted (insert_timer chains one_busy 7).timers (insert_timer chains one_busy 7).work
insert_timer-IsSorted_example = insert_timer-IsSorted chains chains_laws one_busy 7 (tt, tt)

kill_timer_lem_example :
    ((kill_timer chains 4094 one_busy ≡ one_busy) × (get_timer_time chains 4094 one_busy ≡ 0))
    ⊎ (IsTimers chains (kill_timer chains 4094 one_busy)
        × ((one_busy.timers 4094).state ≡ 1)
        × (get_timer_time chains 4094 (kill_timer chains 4094 one_busy) ≡ 0)
        × ((kill_timer chains 4094 one_busy).work ≡ remove 4094 (4094 ∷ [])))
kill_timer_lem_example = kill_timer_lem chains chains_laws 4094 one_busy one_busy-IsTimers

change_timer_time_lem_example :
    ((change_timer_time chains 4094 250 noon one_busy ≡ (false, one_busy))
      × ((4095 ≤ 4094) ⊎ ((◌≡◌ {A = ℕ} 250 0) ⊎ ((one_busy.timers 4094).state ≡ 0))))
    ⊎ ((t : Timers chains) × (change_timer_time chains 4094 250 noon one_busy ≡ (true, t))
        × ((one_busy.timers 4094).state ≡ 1)
        × (1 ≤ 250)
        × Set.Armed chains chains_laws 4094 250 noon t)
change_timer_time_lem_example =
    change_timer_time_lem chains chains_laws 4094 250 noon one_busy one_busy-IsTimers

abbrev taken : Timers chains
taken = (set_msg_timer chains 1500 (some 9) 1 noon all_free).1

taken_test : set_msg_timer chains 1500 (some 9) 1 noon all_free ≡ (some 4094, taken)
unfolding set_msg_timer get_timer_id first_free below_list
taken_test = refl

abbrev evening : Time
evening = record { sec = 64800; usec = 0 }

set_msg_timer-stale_example : (tick chains evening taken).0 ≡ called 5 (taken.timers 4094).parameter
unfolding set_msg_timer get_timer_id first_free below_list start insert_timer place_in cmptime
    add_time interval_of
set_msg_timer-stale_example =
    set_msg_timer-stale chains chains_laws 1500 9 1 4094 5 [] noon evening all_free taken
      all_free-IsTimers taken_test refl refl refl
