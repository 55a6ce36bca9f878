-- ===== src/Thread/Tests.antt =====
-- Mutexes as records, for the theorems on thread/thread.c.
use utils_modules.Base.{
  ℕ, zero, suc, ◌≡◌, ◌∙◌, ◌⊎◌, ◌==◌, Bool, true, false, Option, none, some, arith, refl, ap,
  if◌then◌else◌, ◌&&◌,
}
use utils_modules.Thread.{
  Pthread, PthreadLaws, MdlMutex, Caller, pending, crashed, returned, acquired, named, log_named,
  mutex_lock, mutex_unlock,
}
use utils_modules.Thread.Release.{mutex_unlock_keeps}

record Cell : Type 0 where
  recursive : Bool
  held : Option (ℕ × ℕ)

lock_cell : ℕ → Cell → Option (ℕ × ℕ) → Option (ℕ × Cell)
lock_cell t m none = some (0, record m { held = some (t, 1) })
lock_cell t m (some (u, n)) =
    if m.recursive && t == u then some (0, record m { held = some (t, suc n) }) else none

unlock_cell : ℕ → Cell → Option (ℕ × ℕ) → ℕ × Cell
unlock_cell t m none = (1, m)
unlock_cell t m (some (u, zero)) = (1, m)
unlock_cell t m (some (u, suc zero)) = if t == u then (0, record m { held = none }) else (1, m)
unlock_cell t m (some (u, suc (suc n))) =
    if t == u then (0, record m { held = some (u, suc n) }) else (1, m)

trylock_cell : Cell → Option (ℕ × Cell) → ℕ × Cell
trylock_cell m none = (16, m)
trylock_cell m (some r) = r

destroy_cell : Cell → Option (ℕ × ℕ) → ℕ × Cell
destroy_cell m none = (0, m)
destroy_cell m (some h) = (16, m)

abbrev cells : Pthread
cells = record {
  Mutex = Cell;
  init = λ r. record { recursive = r; held = none };
  lock = λ t m. lock_cell t m m.held;
  unlock = λ t m. unlock_cell t m m.held;
  trylock = λ t m. trylock_cell m (lock_cell t m m.held);
  destroy = λ m. destroy_cell m m.held;
}

lock_free :
    (t : ℕ) (m : Cell)
    → m.held ≡ none
    → (m' : Cell) × (lock_cell t m m.held ≡ some (0, m'))
      × (m'.held ≡ some (t, 1))
      × (m'.recursive ≡ m.recursive)
unfolding lock_cell
lock_free t m e = (record m { held = some (t, 1) }, rw e refl, refl, refl)

lock_again :
    (t n : ℕ) (m : Cell)
    → m.recursive ≡ true
    → m.held ≡ some (t, n)
    → (m' : Cell) × (lock_cell t m m.held ≡ some (0, m'))
      × (m'.held ≡ some (t, suc n))
      × (m'.recursive ≡ m.recursive)
unfolding lock_cell
lock_again t n m r e =
    let own : m.recursive && t == t ≡ true = ground (arith, r) in
    (record m { held = some (t, suc n) }, ap (lock_cell t m) e ∙ rw own refl, refl, refl)

lock_held :
    (t u n : ℕ) (m : Cell)
    → m.recursive ≡ false
    → m.held ≡ some (u, n)
    → lock_cell t m m.held ≡ none
unfolding lock_cell
lock_held t u n m r e =
    let no_own : m.recursive && t == u ≡ false = ground (arith, r) in
    ap (lock_cell t m) e ∙ rw no_own refl

lock_other : (t u n : ℕ) (m : Cell) → ¬ (t ≡ u) → m.held ≡ some (u, n) → lock_cell t m m.held ≡ none
unfolding lock_cell
lock_other t u n m other e =
    let no_own : m.recursive && t == u ≡ false = ground arith in
    ap (lock_cell t m) e ∙ rw no_own refl

own : (t : ℕ) → (t == t) ≡ true
own t = ground arith

unlock_last :
    (t : ℕ) (m : Cell)
    → m.held ≡ some (t, 1)
    → (m' : Cell) × (unlock_cell t m m.held ≡ (0, m')) × (m'.held ≡ none)
unfolding unlock_cell
unlock_last t m e = (record m { held = none }, ap (unlock_cell t m) e ∙ rw (own t) refl, refl)

unlock_more :
    (t n : ℕ) (m : Cell)
    → m.held ≡ some (t, suc (suc n))
    → (m' : Cell) × (unlock_cell t m m.held ≡ (0, m')) × (m'.held ≡ some (t, suc n))
unfolding unlock_cell
unlock_more t n m e =
    (record m { held = some (t, suc n) }, ap (unlock_cell t m) e ∙ rw (own t) refl, refl)

destroy_free : (m : Cell) → m.held ≡ none → (m' : Cell) × (destroy_cell m m.held ≡ (0, m'))
unfolding destroy_cell
destroy_free m e = (m, ap (destroy_cell m) e)

destroy_held : (t n : ℕ) (m : Cell) → m.held ≡ some (t, n) → destroy_cell m m.held ≡ (16, m)
unfolding destroy_cell
destroy_held t n m e = ap (destroy_cell m) e

abbrev cells_laws : PthreadLaws cells
cells_laws = record {
  holder = λ m. m.held;
  is_recursive = λ m. m.recursive;
  holder-init = λ r. refl;
  is_recursive-init = λ r. refl;
  lock_free = lock_free;
  lock_again = lock_again;
  lock_held = lock_held;
  lock_other = lock_other;
  unlock_last = unlock_last;
  unlock_more = unlock_more;
  destroy_free = destroy_free;
  destroy_held = destroy_held;
}

abbrev simple : MdlMutex cells
simple = record {
  mutex = record { recursive = false; held = none };
  owner = none;
  nesting_level = 0;
}

abbrev thrice : MdlMutex cells
thrice = record {
  mutex = record { recursive = true; held = some (7, 3) };
  owner = some 7;
  nesting_level = 3;
}

abbrev seven : Caller
seven = record { thread = 7; registered = true; logged = true }

abbrev eight : Caller
eight = record { thread = 8; registered = true; logged = false }

-- A thread without a record locks the mutex and then reads its name through a null pointer.
abbrev stranger : Caller
stranger = record { thread = 9; registered = false; logged = false }

stranger_test : mutex_lock cells stranger simple ≡ crashed
unfolding mutex_lock acquired log_named named lock_cell
stranger_test = refl

mutex_unlock_keeps_example :
    (m : MdlMutex cells) × (mutex_lock cells seven simple ≡ returned (true, m))
    × (((false ≡ false) × (mutex_unlock cells seven m ≡ pending))
        ⊎ ((n : MdlMutex cells) × (false ≡ true)
            × (mutex_unlock cells seven m ≡ returned (true, n))
            × (n.owner ≡ none)
            × (n.mutex.held ≡ some (7, 2))
            × (mutex_lock cells eight n ≡ pending)))
mutex_unlock_keeps_example =
    mutex_unlock_keeps cells cells_laws seven eight simple refl refl refl refl
      (λ e. absurd (omega arith))
