-- ===== src/Timer/Stale.antt =====
-- A function that `SetMsgTimer` leaves in a timer.
use utils_modules.Base.{
  ℕ, ◌≡◌, refl, sym, ap, ap₂, ◌∙◌, subst, inl, inr, List, ◌∷◌, some, none, true, false,
}
use utils_modules.Timer.{Time, Timers, called, cmptime, tick, set_msg_timer}
use utils_modules.Timer.Links.{Clist, ClistLaws}
use utils_modules.Timer.Valid.{IsTimers}
use utils_modules.Timer.Set.{set_msg_timer_lem}
use utils_modules.Timer.Fire.{due_event}
use utils_modules.Timer.Tick.{NoneDue, tick_lem}

some-none : (i : ℕ) → some i ≡ none → ⊥
some-none i e = cc

from_some : {i j : ℕ} → some i ≡ some j → i ≡ j
from_some e = cc

module _ (clist : Clist) (laws : ClistLaws clist) where
  open clist use {Chain, walk, pop_front}

  called_first :
      (later : Time) (t : Timers clist) (id f : ℕ) (is : List ℕ)
      → IsTimers clist t
      → walk t.work ≡ id ∷ is
      → cmptime later (t.timers id).tv ≡ true
      → (t.timers id).func ≡ some f
      → (tick clist later t).0 ≡ called f (t.timers id).parameter
  called_first later t id f is v e due old = elim (tick_lem clist laws later t v) [
    | inl (none_due, _, _) ↦
        let early : cmptime later (t.timers id).tv ≡ false =
          (subst (NoneDue later t.timers) e none_due).0 in
        absurd cc
    | inr (i, js, e', _, ev, _, _) ↦
        let same : i ≡ id = cc in
        ev
        ∙ subst (λ j. due_event (t.timers j) j ≡ called f (t.timers id).parameter) (sym same)
            (rw old refl)
  ]

  -- When a timer that `SetMsgTimer` has set is due and first at work, and was last in use with a
  -- function, the thread calls that function, and sends no message to the queue.
  pub set_msg_timer-stale :
      (ms msgid times id f : ℕ) (is : List ℕ) (now later : Time) (t t' : Timers clist)
      → IsTimers clist t
      → set_msg_timer clist ms (some msgid) times now t ≡ (some id, t')
      → (t.timers id).func ≡ some f
      → walk t'.work ≡ id ∷ is
      → cmptime later (t'.timers id).tv ≡ true
      → (tick clist later t').0 ≡ called f (t'.timers id).parameter
  set_msg_timer-stale ms msgid times id f is now later t t' v set old e due =
      elim (set_msg_timer_lem clist laws ms (some msgid) times now t v) [
        | inl out ↦ absurd (some-none id (sym (ap (λ x. x.0) set) ∙ ap (λ x. x.0) out))
        | inr (i, u, got, a, _, _, _, kept) ↦
            let same_id : i ≡ id = from_some (sym (ap (λ x. x.0) got) ∙ ap (λ x. x.0) set) in
            let same : u ≡ t' = sym (ap (λ x. x.1) got) ∙ ap (λ x. x.1) set in
            called_first later t' id f is (subst (IsTimers clist) same a.0) e due (
              ap₂ (λ (w : Timers clist) (j : ℕ). (w.timers j).func) (sym same) (sym same_id)
              ∙ kept
              ∙ ap (λ (j : ℕ). (t.timers j).func) same_id
              ∙ old)
      ]
