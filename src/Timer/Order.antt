-- ===== src/Timer/Order.antt =====
-- `insertTimer` and the order of the timers at work.
use utils_modules.Base.{
  ℕ, ◌≡◌, refl, ap, ◌∙◌, ◌⊎◌, inl, inr, arith, List, [], ◌∷◌, ◌++◌, Option, some, none, Bool, true,
  false, Bool-cases, ==_iff, ◌==◌, if◌then◌else◌,
}
use utils_modules.Timer.{Time, Timer, Timers, cmptime, find_later, place_in, insert_timer}
use utils_modules.Timer.Links.{Clist, ClistLaws, put_before}

-- Each time is the one before it or later.
abbrev pub NotBefore : (ℕ → Timer) → Time → List ℕ → Type 0
NotBefore timers tv [] = Unit {0}
NotBefore timers tv (x ∷ xs) = (cmptime (timers x).tv tv ≡ true) × NotBefore timers tv xs

abbrev pub IsSorted : (ℕ → Timer) → List ℕ → Type 0
IsSorted timers [] = Unit {0}
IsSorted timers (x ∷ xs) = NotBefore timers (timers x).tv xs × IsSorted timers xs

cmptime_trans : (a b c : Time) → cmptime a b ≡ true → cmptime b c ≡ true → cmptime a c ≡ true
unfolding cmptime
cmptime_trans a b c h k = ground (arith, h, k)

cmptime_total : (a b : Time) → cmptime a b ≡ false → cmptime b a ≡ true
unfolding cmptime
cmptime_total a b h = ground (arith, h)

-- The list with `i` before the first timer that is not earlier.
abbrev pub place : (ℕ → Timer) → ℕ → List ℕ → List ℕ
place timers i [] = i ∷ []
place timers i (x ∷ xs) =
    if cmptime (timers x).tv (timers i).tv then i ∷ x ∷ xs else x ∷ place timers i xs

NotBefore-later :
    (timers : ℕ → Timer) (a b : Time) (xs : List ℕ)
    → cmptime a b ≡ true
    → NotBefore timers a xs
    → NotBefore timers b xs
NotBefore-later timers a b [] h n = tt
NotBefore-later timers a b (x ∷ xs) h (n, ns) =
    (cmptime_trans (timers x).tv a b n h, NotBefore-later timers a b xs h ns)

NotBefore-place :
    (timers : ℕ → Timer) (i : ℕ) (tv : Time) (xs : List ℕ)
    → cmptime (timers i).tv tv ≡ true
    → NotBefore timers tv xs
    → NotBefore timers tv (place timers i xs)
NotBefore-place timers i tv [] h n = (h, tt)
NotBefore-place timers i tv (x ∷ xs) h (n, ns) =
    elim (Bool-cases (cmptime (timers x).tv (timers i).tv)) [
      | inl e ↦ rw e (h, (n, ns))
      | inr e ↦ rw e (n, NotBefore-place timers i tv xs h ns)
    ]

place-IsSorted :
    (timers : ℕ → Timer) (i : ℕ) (xs : List ℕ)
    → IsSorted timers xs
    → IsSorted timers (place timers i xs)
place-IsSorted timers i [] s = (tt, tt)
place-IsSorted timers i (x ∷ xs) (n, s) = elim (Bool-cases (cmptime (timers x).tv (timers i).tv)) [
  | inl e ↦ rw e ((e, NotBefore-later timers (timers x).tv (timers i).tv xs e n), (n, s))
  | inr e ↦ rw e (
    NotBefore-place timers i (timers x).tv xs (cmptime_total _ _ e) n,
    place-IsSorted timers i xs s,
  )
]

module _ (clist : Clist) (laws : ClistLaws clist) where
  open clist use {Chain, walk, insert, push_back}
  open laws use {walk-push_front, walk-push_back, walk-insert}

  picked :
      (c : Bool) (x at : ℕ) (rest : Option ℕ)
      → (if c then some x else rest) ≡ some at
      → ((c ≡ true) × (x ≡ at)) ⊎ ((c ≡ false) × (rest ≡ some at))
  picked true x at rest e = inl (refl, cc)
  picked false x at rest e = inr (refl, e)

  passed :
      (c : Bool) (x : ℕ) (rest : Option ℕ)
      → (if c then some x else rest) ≡ none
      → (c ≡ false) × (rest ≡ none)
  passed true x rest e = absurd cc
  passed false x rest e = (refl, e)

  found_later :
      (timers : ℕ → Timer) (tv : Time) (xs : List ℕ) (at : ℕ)
      → find_later clist timers tv xs ≡ some at
      → cmptime (timers at).tv tv ≡ true
  unfolding find_later
  found_later timers tv [] at e = absurd cc
  found_later timers tv (x ∷ xs) at e =
      elim (picked (cmptime (timers x).tv tv) x at (find_later clist timers tv xs) e) [
        | inl (c, same) ↦ rw same at c
        | inr (_, rest) ↦ found_later timers tv xs at rest
      ]

  -- The list after `list_insert` at the place that the loop finds, and after `list_push_back`.
  put_before-found :
      (timers : ℕ → Timer) (i : ℕ) (xs : List ℕ) (at : ℕ)
      → find_later clist timers (timers i).tv xs ≡ some at
      → put_before at i xs ≡ place timers i xs
  unfolding find_later
  put_before-found timers i [] at e = absurd cc
  put_before-found timers i (x ∷ xs) at e =
      elim (picked (cmptime (timers x).tv (timers i).tv) x at
        (find_later clist timers (timers i).tv xs) e) [
          | inl (c, same) ↦ let here : (x == at) ≡ true = ground (arith, same) in rw (c, here) refl
          | inr (c, rest) ↦
              let ahead = put_before-found timers i xs at rest in
              elim (Bool-cases (x == at)) [
                | inl here ↦
                    let same : x ≡ at = (==_iff x at).0 here in
                    let late : cmptime (timers x).tv (timers i).tv ≡ true =
                      rw same (found_later timers (timers i).tv xs at rest) in
                    absurd cc
                | inr there ↦ rw (c, there) (ap (λ t. x ∷ t) ahead)
              ]
        ]

  append-passed :
      (timers : ℕ → Timer) (i : ℕ) (xs : List ℕ)
      → find_later clist timers (timers i).tv xs ≡ none
      → xs ++ (i ∷ []) ≡ place timers i xs
  unfolding find_later
  append-passed timers i [] e = refl
  append-passed timers i (x ∷ xs) e =
      let (c, rest) =
        passed (cmptime (timers x).tv (timers i).tv) x (find_later clist timers (timers i).tv xs)
          e in
      rw c (ap (λ t. x ∷ t) (append-passed timers i xs rest))

  walk-place_in :
      (timers : ℕ → Timer) (i : ℕ) (work : Chain) (xs : List ℕ) (got : Option ℕ)
      → walk work ≡ xs
      → find_later clist timers (timers i).tv xs ≡ got
      → walk (place_in clist timers i work xs) ≡ place timers i xs
  unfolding place_in
  walk-place_in timers i work [] got w e = walk-push_front i work ∙ ap (λ t. i ∷ t) w
  walk-place_in timers i work (x ∷ xs) none w e =
      rw (e, place_in, walk-push_back, w) (append-passed timers i (x ∷ xs) e)
  walk-place_in timers i work (x ∷ xs) (some at) w e =
      rw (e, place_in, walk-insert, w) (put_before-found timers i (x ∷ xs) at e)

  -- `insertTimer` puts the timer before the first at work that is not earlier than it, or last.
  pub walk-insert_timer :
      (t : Timers clist) (i : ℕ)
      → walk (insert_timer clist t i).work ≡ place t.timers i (walk t.work)
  unfolding insert_timer
  walk-insert_timer t i = walk-place_in t.timers i t.work (walk t.work) _ refl refl

  -- `insertTimer` keeps the list in order of time.
  pub insert_timer-IsSorted :
      (t : Timers clist) (i : ℕ)
      → IsSorted t.timers (walk t.work)
      → IsSorted (insert_timer clist t i).timers (walk (insert_timer clist t i).work)
  unfolding insert_timer
  insert_timer-IsSorted t i s =
      rw (walk-insert_timer t i) (place-IsSorted t.timers i (walk t.work) s)
