-- ===== src/Timer/Init.antt =====
-- `timerInit`.
use utils_modules.Base.{ℕ, zero, suc, ◌+◌, ◌≡◌, refl, ap, arith, ltb, leb, if◌then◌else◌, ◌&&◌}
use utils_modules.Timer.{free_from, timer_init}
use utils_modules.Timer.Links.{Clist, ClistLaws}
use utils_modules.Timer.Valid.{count, count-append, IsTimers}

module _ (clist : Clist) (laws : ClistLaws clist) where
  open clist use {Chain, walk, list_init, push_back, erase}
  open laws use {walk-list_init, walk-push_back, walk-erase}

  count-free_from :
      (n b i : ℕ) (l : Chain)
      → count i (walk (free_from clist n b l))
        ≡ count i (walk l) + (if leb b i && ltb i (b + n) then 1 else 0)
  unfolding free_from
  count-free_from zero b i l = ground arith
  count-free_from (suc n) b i l = ground (
    arith,
    count-free_from n (suc b) i (push_back b l),
    ap (count i) (walk-push_back b l),
    count-append i b (walk l),
  )

  -- `timerInit` leaves every timer free.
  pub timer_init-IsTimers : IsTimers clist (timer_init clist)
  unfolding timer_init
  timer_init-IsTimers = record {
    sorted = rw walk-list_init tt;
    once = λ i l. ground (arith, count-free_from 4095 0 i list_init, ap (count i) walk-list_init);
    state = λ i l. rw walk-list_init refl;
    named = λ i l. refl;
    below = λ i l. ground (arith, count-free_from 4095 0 i list_init, ap (count i) walk-list_init);
  }
