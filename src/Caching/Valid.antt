-- ===== src/Caching/Valid.antt =====
-- The invariant of a caching factory.
use utils_modules.Base.{
  ℕ, zero, suc, ◌+◌, ◌-◌, ◌%◌, ◌^◌, ◌≤◌, ◌<◌, ◌≡◌, refl, ap, ◌∙◌, subst, ◌⊎◌, if◌then◌else◌, arith,
  List, [], ◌∷◌, Option, some, none, All, length, get_or, set, ◌==◌, Bool, true, false, inl, inr,
}
use utils_modules.Pool.{Block, Pool}
use utils_modules.Caching.{Entry, Caching, size_at, take_out, put_in_use, init}

-- The pool has one block, and is `size` bytes in all.
pub record Whole (size : ℕ) (pool : Pool) (b : Block) : Type 0 where
  pub blocks : pool.blocks ≡ b ∷ []
  pub aligned : b.start % 4 ≡ 0
  pub word : b.start < 2 ^ 64
  pub span : b.end - pool.self ≡ size
  pub capacity : pool.capacity ≡ size

-- A free pool of list `i`: nothing in it is handed out.
abbrev pub Shelved : ℕ → Entry → Type 0
Shelved i e = (b : Block) × Whole (size_at i) e.pool b × (b.current ≡ b.start) × (e.index ≡ i)

abbrev pub ShelvedFrom : ℕ → List (List Entry) → Type 0
ShelvedFrom i [] = Unit {0}
ShelvedFrom i (l ∷ ls) = All (Shelved i) l × ShelvedFrom (suc i) ls

-- A pool in use, where it has not grown: its size is that of its list, or above all.
abbrev pub InUse : Entry → Type 0
InUse e =
    (e.index ≤ 16)
    × ((b : Block)
        → e.pool.blocks ≡ b ∷ []
        → Whole e.pool.capacity e.pool b
          × (e.index < 16 → e.pool.capacity ≡ size_at e.index)
          × (e.index ≡ 16 → 65536 < e.pool.capacity))

abbrev pub sum : List Entry → ℕ
sum [] = 0
sum (e ∷ es) = e.pool.capacity + sum es

abbrev pub total : List (List Entry) → ℕ
total [] = 0
total (l ∷ ls) = sum l + total ls

pub record IsCaching (cp : Caching) : Type 0 where
  pub lists : length cp.free_list ≡ 16
  pub shelved : ShelvedFrom 0 cp.free_list
  pub counted : cp.capacity ≡ total cp.free_list
  pub limit : cp.capacity ≤ cp.max_capacity
  pub room : cp.max_capacity + 65536 < 2 ^ 64
  pub used : cp.used_count ≡ length cp.used_list % 2 ^ 64
  pub in_use : All InUse cp.used_list

pub ShelvedFrom-get :
    (i k j : ℕ) (ls : List (List Entry))
    → ShelvedFrom i ls
    → j ≡ i + k
    → All (Shelved j) (get_or ls k [])
ShelvedFrom-get i k j [] h e = tt
ShelvedFrom-get i zero j (l ∷ ls) (h, _) e = let same : j ≡ i = omega arith in rw same h
ShelvedFrom-get i (suc k) j (l ∷ ls) (_, hs) e = ShelvedFrom-get (suc i) k j ls hs (omega arith)

pub ShelvedFrom-set :
    (i k j : ℕ) (ls : List (List Entry)) (l : List Entry)
    → ShelvedFrom i ls
    → j ≡ i + k
    → All (Shelved j) l
    → ShelvedFrom i (set ls k l)
ShelvedFrom-set i k j [] l h e a = tt
ShelvedFrom-set i zero j (x ∷ xs) l (_, hs) e a = let same : i ≡ j = omega arith in (rw same a, hs)
ShelvedFrom-set i (suc k) j (x ∷ xs) l (h, hs) e a =
    (h, ShelvedFrom-set (suc i) k j xs l hs (omega arith) a)

pub total-set :
    (k : ℕ) (ls : List (List Entry)) (l : List Entry)
    → k < length ls
    → total (set ls k l) + sum (get_or ls k []) ≡ total ls + sum l
total-set k [] l h = absurd (omega arith)
total-set zero (x ∷ xs) l h = omega arith
total-set (suc k) (x ∷ xs) l h = omega (arith, total-set k xs l (omega arith))

taken :
    (d : Entry) (ds : List Entry) (e : Entry) (es : List Entry) (here : Bool)
    (rest : Option (Entry × List Entry))
    → if◌then◌else◌ {A = Option (Entry × List Entry)} here
        (some (d, ds))
        (elim rest [ none ↦ none | some (x, xs) ↦ some (x, d ∷ xs) ])
      ≡ some (e, es)
    → ((d ≡ e) × (ds ≡ es)) ⊎ ((xs : List Entry) × (rest ≡ some (e, xs)) × (d ∷ xs ≡ es))
taken d ds e es true rest t = inl (cc, cc)
taken d ds e es false none t = absurd cc
taken d ds e es false (some (x, xs)) t = inr (xs, cc, cc)

-- What `list_del` takes from the used list.
pub take_out-All :
    (self : ℕ) (ds : List Entry) (e : Entry) (es : List Entry)
    → take_out self ds ≡ some (e, es)
    → All InUse ds
    → InUse e × All InUse es × (length ds ≡ suc (length es))
unfolding take_out
take_out-All self [] e es t h = absurd cc
take_out-All self (d ∷ ds) e es t h =
    elim (taken d ds e es (d.pool.self == self) (take_out self ds) t) [
      | inl (same, rest) ↦
          (subst InUse same h.0, subst (All InUse) rest h.1, ap (λ x. suc (length x)) rest)
      | inr (xs, found, rest) ↦
          let (one, others, count) = take_out-All self ds e xs found h.1 in
          (one, subst (All InUse) rest (h.0, others), ap suc count ∙ ap (λ x. suc (length x)) rest)
    ]

-- A factory as `mdl_caching_pool_init` leaves it.
pub init-IsCaching : (max : ℕ) → max + 65536 < 2 ^ 64 → IsCaching (init max)
unfolding init
init-IsCaching max h = record {
  lists = refl;
  shelved = (
    tt,
    (tt, (tt, (tt, (tt, (tt, (tt, (tt, (tt, (tt, (tt, (tt, (tt, (tt, (tt, (tt, tt))))))))))))))),
  );
  counted = refl;
  limit = omega arith;
  room = h;
  used = refl;
  in_use = tt;
}

pub put_in_use-IsCaching :
    (cp : Caching) (pool : Pool) (idx : ℕ)
    → IsCaching cp
    → InUse (record { pool = pool; index = idx })
    → IsCaching (put_in_use cp pool idx)
unfolding put_in_use
put_in_use-IsCaching cp pool idx v h = record {
  lists = v.lists;
  shelved = v.shelved;
  counted = v.counted;
  limit = v.limit;
  room = v.room;
  used = omega (arith, v.used);
  in_use = (h, v.in_use);
}
