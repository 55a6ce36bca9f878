-- ===== src/Thread/ObjectTests.antt =====
-- Runs of the theorems on the objects and records of thread/thread.c.
use utils_modules.Base.{
  ℕ, ◌+◌, ◌≤◌, ◌≡◌, refl, arith, List, [], ◌∷◌, Bool, true, false, Option, none, some, map, inl,
}
use utils_modules.Pool.Factory.{Range, done}
use utils_modules.Pool.{Block, Pool}
use utils_modules.Pool.Bump.{bump, bump_laws}
use utils_modules.Pool.Used.{used}
use utils_modules.Pool.Valid.{IsPool}
use utils_modules.Pool.Disjoint.{bit}
use utils_modules.Pool.Rounding.{IsBlock}
use utils_modules.Thread.{Pthread, MdlMutex}
use utils_modules.Thread.Create.{atomic_create_in}
use utils_modules.Thread.Create.Objects.{atomic_share, AtomicMade, atomic_create_lem}
use utils_modules.Thread.Registry.{Threads, thread_init, thread_dump}
use utils_modules.Thread.Registry.Dump.{
  Registration, registers, starts, run_registrations, started, thread_dump_lists,
}

-- Two threads, with a registration between their starts.
abbrev events : List Registration
events = starts 11 100 true ∷ registers 12 200 true ∷ starts 13 300 true ∷ []

abbrev fresh : Threads
fresh = record { own = λ i. none; tid = λ r. 0; head_set = false; nodes = []; broken = false }

thread_dump_lists_example :
    (t : Threads) × (run_registrations events ((thread_init 10 true true fresh).1) ≡ some t)
    × (thread_dump t ≡ some (10 ∷ map (λ p. p.1) (started events [])))
thread_dump_lists_example =
    thread_dump_lists 10 events fresh
      (omega arith, refl, (omega arith, refl, (omega arith, refl, tt)))

-- A pool of 1024 bytes at 4096.
abbrev memory : List Range
memory = record { first = 4096; size = 1024 } ∷ []

abbrev first : Block
first = record { base = 4200; start = 4240; current = 4240; end = 5120 }

abbrev ready : Pool
ready = record {
  self = 4096;
  name = [];
  callback = 7;
  capacity = 1024;
  increment_size = 128;
  blocks = first ∷ [];
  calls = [];
}

first-IsBlock : IsBlock first
first-IsBlock = record {
  header = omega arith;
  opened = omega arith;
  filled = omega arith;
  word = omega arith;
  aligned = refl;
}

ready-IsPool : IsPool memory ready
ready-IsPool = record {
  separate = (first-IsBlock, tt, tt);
  owned = (inl (omega arith, omega arith), tt);
  present = λ e. cc;
  counted = refl;
}

-- Mutexes that nobody locks.
abbrev idle : Pthread
idle = record {
  Mutex = Bool;
  init = λ r. r;
  lock = λ t m. some (0, m);
  unlock = λ t m. (0, m);
  trylock = λ t m. (0, m);
  destroy = λ m. (0, m);
}

atomic_create_lem_example :
    (made : Option (ℕ × ℕ × MdlMutex idle × ℕ)) × (pool' : Pool) × (s' : List Range)
    × (atomic_create_in bump idle ready 5 true memory ≡ done (made, pool', s'))
    × IsPool s' pool'
    × ((a : ℕ)
        → atomic_share bump bump_laws idle made a + bit (used ready.blocks a)
          ≤ bit (used pool'.blocks a))
    × AtomicMade bump bump_laws idle 5 true ready made pool'
atomic_create_lem_example =
    atomic_create_lem bump bump_laws idle ready 5 true memory ready-IsPool (omega arith)
