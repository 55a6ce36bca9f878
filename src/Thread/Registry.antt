-- ===== src/Thread/Registry.antt =====
-- thread/thread.c: which record a thread finds as its own, and the list of threads that hangs at that of
-- the main thread. A record is named by its address, `main_thread` by 0; the names are left out. `none`
-- is a use of a null pointer.
pub mod Dump
use utils_modules.Base.{
  ℕ, zero, suc, List, [], ◌∷◌, Option, none, some, Bool, true, false, not, ◌&&◌, ◌||◌, ◌==◌,
  if◌then◌else◌, map,
}

-- `main_thread`, as a record.
abbrev pub main_thread : ℕ
main_thread = 0

-- What the threads have stored under `thread_tls_id`, the `tid` of each record, and the list at
-- `main_thread.node_thread`: whether its head is set, its nodes, the first one first, and whether the
-- pointers of one of them were cleared.
pub record Threads : Type 0 where
  pub own : ℕ → Option ℕ
  pub tid : ℕ → ℕ
  pub head_set : Bool
  pub nodes : List ℕ
  pub broken : Bool

abbrev pub update {ℓ} : {A : Type ℓ} → (ℕ → A) → ℕ → A → ℕ → A
update f k v i = if i == k then v else f i

abbrev pub listed_in : ℕ → List ℕ → Bool
listed_in r [] = false
listed_in r (n ∷ ns) = n == r || listed_in r ns

-- `bzero` of a record.
unfoldable pub cleared : ℕ → Threads → Threads
cleared desc t = record t {
  tid = update t.tid desc 0;
  head_set = t.head_set && not (desc == main_thread);
  broken = t.broken || listed_in desc t.nodes;
}

-- `mdl_thread_register` by the thread `self`; `ok` says whether `pthread_setspecific` succeeds.
unfoldable pub thread_register : ℕ → ℕ → Bool → Threads → Bool × Threads
thread_register self desc ok t =
    let begun : Threads = record (cleared desc t) { tid = update t.tid desc self } in
    if ok
    then (
      true,
      record begun {
        own = update t.own self (some desc);
        head_set = true;
        nodes = [];
        broken = false;
      },
    )
    else (false, cleared desc begun)

-- `mdl_thread_init` by the main thread; `key` says whether `pthread_key_create` succeeds.
unfoldable pub thread_init : ℕ → Bool → Bool → Threads → Bool × Threads
thread_init self key ok t = if key then thread_register self main_thread ok t else (false, t)

-- What `thread_main` does before it waits to be resumed: whether it goes on.
unfoldable pub thread_main : ℕ → ℕ → Bool → Threads → Option (Bool × Threads)
thread_main self rec ok t =
    if ok
    then (if t.head_set
        then some (
          true,
          record t {
            own = update t.own self (some rec);
            tid = update t.tid rec self;
            nodes = rec ∷ t.nodes;
          },
        )
        else none)
    else some (false, t)

-- `mdl_thread_this` and `mdl_thread_is_register`.
unfoldable pub thread_this : ℕ → Threads → Option ℕ
thread_this self t = t.own self

unfoldable pub thread_is_register : ℕ → Threads → Bool
thread_is_register self t = elim (t.own self) [ none ↦ false | some r ↦ true ]

-- `mdl_thread_join`; `joined` says whether `pthread_join` succeeds.
unfoldable pub thread_join : ℕ → ℕ → Bool → Threads → Bool
thread_join self rec joined t = elim (thread_this self t) [
  | none ↦ joined
  | some r ↦ if r == rec then false else joined
]

-- The ids that `mdl_thread_dump` prints.
unfoldable pub thread_dump : Threads → Option (List ℕ)
thread_dump t =
    if t.head_set && not t.broken then some (t.tid main_thread ∷ map t.tid t.nodes) else none
