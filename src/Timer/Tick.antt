-- ===== src/Timer/Tick.antt =====
-- One round of `thread_timer` on valid timers.
use utils_modules.Base.{
  ℕ, ◌+◌, ◌≡◌, refl, sym, ap, subst, ◌⊎◌, inl, inr, arith, List, [], ◌∷◌, true, false, Bool-cases,
  ◌==◌, if◌then◌else◌,
}
use utils_modules.Timer.{Time, Timer, Timers, Event, asleep, waits, cmptime, tick_at, tick}
use utils_modules.Timer.Links.{Clist, ClistLaws}
use utils_modules.Timer.Order.{NotBefore, IsSorted}
use utils_modules.Timer.Valid.{count, IsTimers, pop_work-IsOut}
use utils_modules.Timer.Fire.{due_event, After, fire_lem}

-- No timer of the list is due.
abbrev pub NoneDue : Time → (ℕ → Timer) → List ℕ → Type 0
NoneDue now timers [] = Unit {0}
NoneDue now timers (x ∷ xs) = (cmptime now (timers x).tv ≡ false) × NoneDue now timers xs

cmptime-not_due :
    (now a b : Time) → cmptime now a ≡ false → cmptime b a ≡ true → cmptime now b ≡ false
unfolding cmptime
cmptime-not_due now a b h k = ground (arith, h, k)

NotBefore-NoneDue :
    (now tv : Time) (timers : ℕ → Timer) (xs : List ℕ)
    → cmptime now tv ≡ false
    → NotBefore timers tv xs
    → NoneDue now timers xs
NotBefore-NoneDue now tv timers [] h n = tt
NotBefore-NoneDue now tv timers (x ∷ xs) h (n, ns) =
    (cmptime-not_due now tv (timers x).tv h n, NotBefore-NoneDue now tv timers xs h ns)

module _ (clist : Clist) (laws : ClistLaws clist) where
  open clist use {Chain, walk, pop_front}

  abbrev pub Round : Time → Timers clist → Event × Timers clist → Type 0
  Round now t r =
      (NoneDue now t.timers (walk t.work)
        × (r.1 ≡ t)
        × ((r.0 ≡ asleep) ⊎ ((tv : Time) × (r.0 ≡ waits tv) × (cmptime now tv ≡ false))))
      ⊎ ((i : ℕ) × (is : List ℕ) × (walk t.work ≡ i ∷ is)
          × (cmptime now (t.timers i).tv ≡ true)
          × (r.0 ≡ due_event (t.timers i) i)
          × IsTimers clist r.1
          × After clist laws (t.timers i) (r.1.timers i))

  tick_at-Round :
      (now : Time) (t : Timers clist) (xs : List ℕ)
      → IsTimers clist t
      → walk t.work ≡ xs
      → Round now t (tick_at clist now t xs)
  unfolding tick_at
  tick_at-Round now t [] v e = inl (subst (NoneDue now t.timers) (sym e) tt, refl, inl refl)
  tick_at-Round now t (i ∷ is) v e =
      let out = pop_work-IsOut clist laws t i is v e in
      let there : count i (walk t.work) ≡ (if i == i then 1 else 0) + count i is = ap (count i) e in
      let busy : ((t.timers i).state == 0) ≡ false = ground (arith, there, v.state i out.within) in
      elim (Bool-cases (cmptime now (t.timers i).tv)) [
        | inl due ↦
            let (ev, v', after) = fire_lem clist laws t i is v e in
            inr (i, is, e, due, rw (busy, due) ev, rw (busy, due) v', rw (busy, due) after)
        | inr early ↦ inl (
          rw e (
            early,
            NotBefore-NoneDue now (t.timers i).tv t.timers is early
                (subst (IsSorted t.timers) e v.sorted).0,
          ),
          rw (busy, early) refl,
          inr ((t.timers i).tv, rw (busy, early) refl, early),
        )
      ]

  pub tick_lem : (now : Time) (t : Timers clist) → IsTimers clist t → Round now t (tick clist now t)
  unfolding tick
  tick_lem now t v = tick_at-Round now t (walk t.work) v refl
