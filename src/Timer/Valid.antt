-- ===== src/Timer/Valid.antt =====
-- The invariant of the timers, and how a timer leaves and enters the lists.
use utils_modules.Base.{
  ℕ, ◌+◌, ◌≤◌, ◌<◌, ◌≡◌, ◌≢◌, refl, ap, ◌∙◌, subst, inl, inr, arith, List, [], ◌∷◌, ◌++◌, false,
  Bool-cases, ==_iff, dec_lt, ◌==◌, if◌then◌else◌,
}
use utils_modules.Timer.{Time, Timer, Timers, update, cmptime, insert_timer, retire}
use utils_modules.Timer.Links.{Clist, ClistLaws, remove, tail}
use utils_modules.Timer.Order.{NotBefore, IsSorted, place, walk-insert_timer, insert_timer-IsSorted}

-- How often a timer stands in a list.
abbrev pub count : ℕ → List ℕ → ℕ
count i [] = 0
count i (x ∷ xs) = (if x == i then 1 else 0) + count i xs

pub count-append : (i j : ℕ) (xs : List ℕ) → count i (xs ++ (j ∷ [])) ≡ count i (j ∷ xs)
count-append i j [] = refl
count-append i j (x ∷ xs) = omega (arith, count-append i j xs)

count-place :
    (timers : ℕ → Timer) (i j : ℕ) (xs : List ℕ) → count i (place timers j xs) ≡ count i (j ∷ xs)
count-place timers i j [] = refl
count-place timers i j (x ∷ xs) = elim (Bool-cases (cmptime (timers x).tv (timers j).tv)) [
  | inl e ↦ rw e refl
  | inr e ↦ rw e (omega (arith, count-place timers i j xs))
]

count-remove :
    (i j : ℕ) (xs : List ℕ)
    → 0 < count j xs
    → count i xs ≡ (if j == i then 1 else 0) + count i (remove j xs)
count-remove i j [] h = absurd (omega arith)
count-remove i j (x ∷ xs) h = elim (Bool-cases (x == j)) [
  | inl e ↦ let same : x ≡ j = (==_iff x j).0 e in rw (e, same) refl
  | inr e ↦
      let rest : 0 < count j xs = ground (arith, h, e) in
      rw e (omega (arith, count-remove i j xs rest))
]

NotBefore-update :
    (timers : ℕ → Timer) (i : ℕ) (t : Timer) (tv : Time) (xs : List ℕ)
    → count i xs ≡ 0
    → NotBefore timers tv xs
    → NotBefore (update timers i t) tv xs
NotBefore-update timers i t tv [] c n = tt
NotBefore-update timers i t tv (x ∷ xs) c (n, ns) =
    let other : (i == x) ≡ false = ground (arith, c) in
    let rest : count i xs ≡ 0 = ground (arith, c) in
    (rw other n, NotBefore-update timers i t tv xs rest ns)

IsSorted-update :
    (timers : ℕ → Timer) (i : ℕ) (t : Timer) (xs : List ℕ)
    → count i xs ≡ 0
    → IsSorted timers xs
    → IsSorted (update timers i t) xs
IsSorted-update timers i t [] c s = tt
IsSorted-update timers i t (x ∷ xs) c (n, s) =
    let other : (i == x) ≡ false = ground (arith, c) in
    let rest : count i xs ≡ 0 = ground (arith, c) in
    (
      rw other (NotBefore-update timers i t (timers x).tv xs rest n),
      IsSorted-update timers i t xs rest s,
    )

NotBefore-remove :
    (timers : ℕ → Timer) (i : ℕ) (tv : Time) (xs : List ℕ)
    → NotBefore timers tv xs
    → NotBefore timers tv (remove i xs)
NotBefore-remove timers i tv [] n = tt
NotBefore-remove timers i tv (x ∷ xs) (n, ns) = elim (Bool-cases (x == i)) [
  | inl e ↦ rw e ns
  | inr e ↦ rw e (n, NotBefore-remove timers i tv xs ns)
]

IsSorted-remove :
    (timers : ℕ → Timer) (i : ℕ) (xs : List ℕ) → IsSorted timers xs → IsSorted timers (remove i xs)
IsSorted-remove timers i [] s = tt
IsSorted-remove timers i (x ∷ xs) (n, s) = elim (Bool-cases (x == i)) [
  | inl e ↦ rw e s
  | inr e ↦ rw e (NotBefore-remove timers i (timers x).tv xs n, IsSorted-remove timers i xs s)
]

module _ (clist : Clist) where
  open clist use {walk, erase, pop_front, push_back}

  -- The list at work is in order of time, every timer of the array stands once in one of the two
  -- lists, nothing else does, and `state` tells in which.
  pub record IsTimers (t : Timers clist) : Type 0 where
    pub sorted : IsSorted t.timers (walk t.work)
    pub once : (i : ℕ) → i < 4095 → count i (walk t.work) + count i (walk t.free) ≡ 1
    pub state : (i : ℕ) → i < 4095 → (t.timers i).state ≡ count i (walk t.work)
    pub named : (i : ℕ) → i < 4095 → (t.timers i).id ≡ i
    pub below : (i : ℕ) → 4095 ≤ i → count i (walk t.work) + count i (walk t.free) ≡ 0

  -- The same but for the timer `id`, which stands in neither list.
  pub record IsOut (t : Timers clist) (id : ℕ) : Type 0 where
    pub sorted : IsSorted t.timers (walk t.work)
    pub once :
        (i : ℕ)
        → i < 4095
        → count i (walk t.work) + count i (walk t.free) + (if id == i then 1 else 0) ≡ 1
    pub state : (i : ℕ) → i < 4095 → (id == i) ≡ false → (t.timers i).state ≡ count i (walk t.work)
    pub named : (i : ℕ) → i < 4095 → (t.timers i).id ≡ i
    pub below : (i : ℕ) → 4095 ≤ i → count i (walk t.work) + count i (walk t.free) ≡ 0
    pub within : id < 4095

  absent : (t : Timers clist) (id : ℕ) → IsOut t id → count id (walk t.work) ≡ 0
  absent t id v = ground (arith, v.once id v.within)

  module _ (laws : ClistLaws clist) where
    open laws use {walk-push_back, walk-erase, walk-pop_front}

    -- The first free timer leaves.
    pub pop_free-IsOut :
        (t : Timers clist) (i : ℕ) (is : List ℕ)
        → IsTimers t
        → walk t.free ≡ i ∷ is
        → IsOut (record t { free = pop_front t.free }) i
    pop_free-IsOut t i is v e =
        let left : walk (pop_front t.free) ≡ is = walk-pop_front t.free ∙ ap tail e in
        let split : (j : ℕ) → count j (walk t.free) ≡ (if i == j then 1 else 0) + count j is =
          λ j. ap (count j) e in
        record {
          sorted = v.sorted;
          once = λ j l. rw left (omega (arith, v.once j l, split j));
          state = λ j l _. v.state j l;
          named = v.named;
          below = λ j l. rw left (omega (arith, v.below j l, split j));
          within = elim (dec_lt i 4095) [ yes l ↦ l | no l ↦ ground (arith, v.below i, split i) ];
        }

    -- A timer at work leaves.
    pub erase-IsOut :
        (t : Timers clist) (i : ℕ)
        → IsTimers t
        → i < 4095
        → (t.timers i).state ≢ 0
        → IsOut (record t { work = erase i t.work }) i
    erase-IsOut t i v l busy =
        let there : 0 < count i (walk t.work) = elim (dec_lt 0 (count i (walk t.work))) [
          | yes h ↦ h
          | no h ↦ absurd (busy (omega (arith, v.state i l)))
        ] in
        record {
          sorted = rw (walk-erase i t.work) (IsSorted-remove t.timers i (walk t.work) v.sorted);
          once = λ j k.
              rw (walk-erase i t.work)
                (omega (arith, v.once j k, count-remove j i (walk t.work) there));
          state = λ j k other.
              rw (walk-erase i t.work)
                (ground (arith, v.state j k, count-remove j i (walk t.work) there, other));
          named = v.named;
          below = λ j k.
              rw (walk-erase i t.work)
                (omega (arith, v.below j k, count-remove j i (walk t.work) there));
          within = l;
        }

    -- The first timer at work leaves.
    pub pop_work-IsOut :
        (t : Timers clist) (i : ℕ) (is : List ℕ)
        → IsTimers t
        → walk t.work ≡ i ∷ is
        → IsOut (record t { work = pop_front t.work }) i
    pop_work-IsOut t i is v e =
        let left : walk (pop_front t.work) ≡ is = walk-pop_front t.work ∙ ap tail e in
        let split : (j : ℕ) → count j (walk t.work) ≡ (if i == j then 1 else 0) + count j is =
          λ j. ap (count j) e in
        record {
          sorted = rw left (subst (IsSorted t.timers) e v.sorted).1;
          once = λ j l. rw left (omega (arith, v.once j l, split j));
          state = λ j l other. rw left (ground (arith, v.state j l, split j, other));
          named = v.named;
          below = λ j l. rw left (omega (arith, v.below j l, split j));
          within = elim (dec_lt i 4095) [ yes l ↦ l | no l ↦ ground (arith, v.below i, split i) ];
        }

    -- A timer outside of the lists is written to.
    pub update-IsOut :
        (t : Timers clist) (id : ℕ) (timer : Timer)
        → IsOut t id
        → timer.id ≡ id
        → IsOut (record t { timers = update t.timers id timer }) id
    update-IsOut t id timer v e = record {
      sorted = IsSorted-update t.timers id timer (walk t.work) (absent t id v) v.sorted;
      once = v.once;
      state = λ i l other. rw other (v.state i l other);
      named = λ i l. elim (Bool-cases (id == i)) [
        | inl same ↦ rw same (e ∙ (==_iff id i).0 same)
        | inr other ↦ rw other (v.named i l)
      ];
      below = v.below;
      within = v.within;
    }

    -- It goes to work.
    pub insert_timer-IsTimers :
        (t : Timers clist) (id : ℕ)
        → IsOut t id
        → (t.timers id).state ≡ 1
        → IsTimers (insert_timer clist t id)
    unfolding insert_timer
    insert_timer-IsTimers t id v e = record {
      sorted = insert_timer-IsSorted clist laws t id v.sorted;
      once = λ i l.
          rw (walk-insert_timer clist laws t id)
            (omega (arith, v.once i l, count-place t.timers i id (walk t.work)));
      state = λ i l. rw (walk-insert_timer clist laws t id) (elim (Bool-cases (id == i)) [
        | inl same ↦
            let at : id ≡ i = (==_iff id i).0 same in
            let one : (t.timers i).state ≡ 1 = subst (λ j. (t.timers j).state ≡ 1) at e in
            ground (arith, one, v.once i l, count-place t.timers i id (walk t.work), same)
        | inr other ↦
            ground (arith, v.state i l other, count-place t.timers i id (walk t.work), other)
      ]);
      named = v.named;
      below = λ i l.
          rw (walk-insert_timer clist laws t id)
            (ground (arith, v.below i l, count-place t.timers i id (walk t.work), v.within));
    }

    -- It stops.
    pub retire-IsTimers : (t : Timers clist) (id : ℕ) → IsOut t id → IsTimers (retire clist t id)
    unfolding retire
    retire-IsTimers t id v = record {
      sorted = IsSorted-update t.timers id _ (walk t.work) (absent t id v) v.sorted;
      once = λ i l.
          rw (walk-push_back id t.free)
            (omega (arith, v.once i l, count-append i id (walk t.free)));
      state = λ i l. elim (Bool-cases (id == i)) [
        | inl same ↦ rw same (ground (arith, v.once i l, same))
        | inr other ↦ rw other (v.state i l other)
      ];
      named = λ i l. elim (Bool-cases (id == i)) [
        | inl same ↦ rw same (v.named id v.within ∙ (==_iff id i).0 same)
        | inr other ↦ rw other (v.named i l)
      ];
      below = λ i l.
          rw (walk-push_back id t.free)
            (ground (arith, v.below i l, count-append i id (walk t.free), v.within));
    }
