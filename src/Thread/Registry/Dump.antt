-- ===== src/Thread/Registry/Dump.antt =====
-- What `mdl_thread_dump` of thread/thread.c lists after registrations and starts of threads.
use utils_modules.Base.{
  ℕ, ◌<◌, ◌≡◌, refl, ap, ap₂, ◌∙◌, arith, List, [], ◌∷◌, Option, some, Bool, true, false, ◌==◌,
  if◌then◌else◌, map, ◌>>=◌,
}
use utils_modules.Thread.Registry.{
  Threads, main_thread, update, listed_in, cleared, thread_register, thread_init, thread_main,
  thread_dump,
}

-- A thread `self` registers a record, or starts with one; `ok` is as above.
pub data Registration : Type 0 where
  registers : ℕ → ℕ → Bool → Registration
  starts : ℕ → ℕ → Bool → Registration

unfoldable pub run_registrations : List Registration → Threads → Option Threads
run_registrations [] t = some t
run_registrations (registers self desc ok ∷ es) t =
    run_registrations es ((thread_register self desc ok t).1)
run_registrations (starts self rec ok ∷ es) t =
    thread_main self rec ok t >>= (λ r. run_registrations es (r.1))

-- The records and ids of the threads that have started since the last registration that succeeded,
-- the last one first, after those of `acc`.
abbrev pub started : List Registration → List (ℕ × ℕ) → List (ℕ × ℕ)
started [] acc = acc
started (registers self desc ok ∷ es) acc = started es (if ok then [] else acc)
started (starts self rec ok ∷ es) acc = started es (if ok then (rec, self) ∷ acc else acc)

-- Each record is used by one thread: none is that of the main thread or one that is listed.
abbrev pub Apart : List Registration → List (ℕ × ℕ) → Type 0
Apart [] acc = Unit {0}
Apart (registers self desc ok ∷ es) acc =
    (0 < desc) × (listed_in desc (map (λ p. p.0) acc) ≡ false) × Apart es (if ok then [] else acc)
Apart (starts self rec ok ∷ es) acc =
    (0 < rec)
    × (listed_in rec (map (λ p. p.0) acc) ≡ false)
    × Apart es (if ok then (rec, self) ∷ acc else acc)

-- The list holds the records of `acc`, and these the ids.
record Lists (main_tid : ℕ) (acc : List (ℕ × ℕ)) (t : Threads) : Type 0 where
  set : t.head_set ≡ true
  whole : t.broken ≡ false
  main : t.tid main_thread ≡ main_tid
  records : t.nodes ≡ map (λ p. p.0) acc
  ids : map t.tid t.nodes ≡ map (λ p. p.1) acc

map-update :
    (f : ℕ → ℕ) (k v : ℕ) (ns : List ℕ) → listed_in k ns ≡ false → map (update f k v) ns ≡ map f ns
map-update f k v [] h = refl
map-update f k v (n ∷ ns) h =
    let other : (n == k) ≡ false = ground (arith, h) in
    let rest : listed_in k ns ≡ false = ground (arith, h) in
    ap₂ (λ x xs. x ∷ xs) (rw other refl) (map-update f k v ns rest)

register-Lists :
    (main_tid self desc : ℕ) (ok : Bool) (acc : List (ℕ × ℕ)) (t : Threads)
    → 0 < desc
    → listed_in desc (map (λ p. p.0) acc) ≡ false
    → Lists main_tid acc t
    → Lists main_tid (if ok then [] else acc) ((thread_register self desc ok t).1)
unfolding thread_register cleared
register-Lists main_tid self desc true acc t pos apart l =
    let not_main : (main_thread == desc) ≡ false = ground arith in
    record { set = refl; whole = refl; main = rw not_main l.main; records = refl; ids = refl }
register-Lists main_tid self desc false acc t pos apart l =
    let not_main : (main_thread == desc) ≡ false = ground arith in
    let not_main' : (desc == main_thread) ≡ false = ground arith in
    let not_listed : listed_in desc t.nodes ≡ false = ap (listed_in desc) l.records ∙ apart in
    record {
      set = rw (l.set, not_main') refl;
      whole = rw (l.whole, not_listed) refl;
      main = rw not_main l.main;
      records = l.records;
      ids =
          map-update _ desc 0 t.nodes not_listed
          ∙ (map-update t.tid desc self t.nodes not_listed ∙ l.ids);
    }

main-Lists :
    (main_tid self rec : ℕ) (ok : Bool) (acc : List (ℕ × ℕ)) (t : Threads)
    → 0 < rec
    → listed_in rec (map (λ p. p.0) acc) ≡ false
    → Lists main_tid acc t
    → (t' : Threads) × (thread_main self rec ok t ≡ some (ok, t'))
      × Lists main_tid (if ok then (rec, self) ∷ acc else acc) t'
unfolding thread_main
main-Lists main_tid self rec true acc t pos apart l =
    let not_main : (main_thread == rec) ≡ false = ground arith in
    let own : (rec == rec) ≡ true = ground arith in
    let not_listed : listed_in rec t.nodes ≡ false = ap (listed_in rec) l.records ∙ apart in
    (
      record t {
        own = update t.own self (some rec);
        tid = update t.tid rec self;
        nodes = rec ∷ t.nodes;
      },
      rw l.set refl,
      record {
        set = l.set;
        whole = l.whole;
        main = rw not_main l.main;
        records = ap (λ ns. rec ∷ ns) l.records;
        ids =
            ap₂ (λ x xs. x ∷ xs) (rw own refl)
              (map-update t.tid rec self t.nodes not_listed ∙ l.ids);
      },
    )
main-Lists main_tid self rec false acc t pos apart l = (t, refl, l)

dump-Lists :
    (main_tid : ℕ) (acc : List (ℕ × ℕ)) (t : Threads)
    → Lists main_tid acc t
    → thread_dump t ≡ some (main_tid ∷ map (λ p. p.1) acc)
unfolding thread_dump
dump-Lists main_tid acc t l = rw (l.set, l.whole) (ap₂ (λ x xs. some (x ∷ xs)) l.main l.ids)

run_registrations-Lists :
    (main_tid : ℕ) (es : List Registration) (acc : List (ℕ × ℕ)) (t : Threads)
    → Apart es acc
    → Lists main_tid acc t
    → (t' : Threads) × (run_registrations es t ≡ some t') × Lists main_tid (started es acc) t'
unfolding run_registrations
run_registrations-Lists main_tid [] acc t a l = (t, refl, l)
run_registrations-Lists main_tid (registers self desc ok ∷ es) acc t (pos, apart, a) l =
    run_registrations-Lists main_tid es (if ok then [] else acc)
      ((thread_register self desc ok t).1) a
      (register-Lists main_tid self desc ok acc t pos apart l)
run_registrations-Lists main_tid (starts self rec ok ∷ es) acc t (pos, apart, a) l =
    let (t1, e1, l1) = main-Lists main_tid self rec ok acc t pos apart l in
    let (t2, e2, l2) =
      run_registrations-Lists main_tid es (if ok then (rec, self) ∷ acc else acc) t1 a l1 in
    (t2, rw e1 e2, l2)

init-Lists : (main_tid : ℕ) (t : Threads) → Lists main_tid [] ((thread_init main_tid true true t).1)
unfolding thread_init thread_register cleared
init-Lists main_tid t = record { set = refl; whole = refl; main = refl; records = refl; ids = refl }

-- After `mdl_thread_init` by the main thread, and any registrations and starts of threads with records
-- of their own, `mdl_thread_dump` lists the main thread and those threads that have started since the
-- last registration that succeeded, the last one first: a registration takes all earlier threads off
-- the list, and does not put its own on it.
pub thread_dump_lists :
    (main_tid : ℕ) (es : List Registration) (t : Threads)
    → Apart es []
    → (t' : Threads) × (run_registrations es ((thread_init main_tid true true t).1) ≡ some t')
      × (thread_dump t' ≡ some (main_tid ∷ map (λ p. p.1) (started es [])))
thread_dump_lists main_tid es t a =
    let (t', e, l) = run_registrations-Lists main_tid es [] _ a (init-Lists main_tid t) in
    (t', e, dump-Lists main_tid (started es []) t' l)
