-- ===== src/Caching/Release.antt =====
-- `cpool_release_pool` and `mdl_caching_pool_destroy`.
use utils_modules.Base.{
  ℕ, ◌+◌, ◌-◌, ◌%◌, ◌^◌, ◌≤◌, ◌<◌, ◌≡◌, refl, ap, ◌∙◌, ◌⊎◌, inl, inr, arith, List, [], ◌∷◌, ◌++◌,
  some, Bool, true, false, length, get_or, set, length-set, leb, ltb, dec_lt, dec_le, if◌then◌else◌,
  ◌||◌, lt→ltb,
}
use utils_modules.Pool.Factory.{Policy, Result, done, fault}
use utils_modules.Pool.{Block, Pool}
use utils_modules.Pool.Used.{used}
use utils_modules.Pool.Life.{reset, reset_from, reset_loop, last_node, destroy_int, destroy_from}
use utils_modules.Pool.Life.Reset.{reset_single, destroy_single, reset_grown}
use utils_modules.Caching.{
  Entry, Caching, size_at, take_out, shelved, shelve, give_up, release_entry, release,
  destroy_lists, destroy,
}
use utils_modules.Caching.Valid.{
  Whole, InUse, IsCaching, ShelvedFrom-get, ShelvedFrom-set, total-set, take_out-All,
}

-- A pool given back enters the list of its index.
shelved-IsCaching :
    (cp : Caching) (pool : Pool) (b : Block) (i : ℕ)
    → IsCaching cp
    → i < 16
    → Whole (size_at i) pool b
    → b.current ≡ b.start
    → cp.capacity + pool.capacity ≤ cp.max_capacity
    → IsCaching (shelved cp pool i)
unfolding shelved
shelved-IsCaching cp pool b i v l w fresh fits =
    let old = ShelvedFrom-get 0 i i cp.free_list v.shelved (omega arith) in
    let moved =
      total-set i cp.free_list (record { pool = pool; index = i } ∷ get_or cp.free_list i [])
        (omega (arith, v.lists)) in
    record {
      lists = length-set cp.free_list i _ ∙ v.lists;
      shelved =
          ShelvedFrom-set 0 i i cp.free_list _ v.shelved (omega arith) ((b, w, fresh, refl), old);
      counted = omega (arith, v.counted, moved, v.room);
      limit = omega (arith, v.room);
      room = v.room;
      used = v.used;
      in_use = v.in_use;
    }

-- A pool in use that is not above all sizes has a list.
listed :
    (e : Entry)
    → InUse e
    → (b : Block) → e.pool.blocks ≡ b ∷ []
    → e.pool.capacity ≤ 65536
    → e.index < 16
listed e u b bs small = elim (dec_lt e.index 16) [
  | yes l ↦ l
  | no out ↦ absurd (omega (arith, u.0, (u.1 b bs).2 (omega (arith, u.0))))
]

-- The pools of some lists.
abbrev pub held : List (List Entry) → ℕ
held [] = 0
held (l ∷ ls) = length l + held ls

held-append : (ls : List (List Entry)) (l : List Entry) → held (ls ++ (l ∷ [])) ≡ held ls + length l
held-append [] l = omega arith
held-append (x ∷ xs) l = omega (arith, held-append xs l)

if-same {ℓ} : {A : Type ℓ} → (c : Bool) (x : A) → (if c then x else x) ≡ x
if-same true x = refl
if-same false x = refl

module _ (policy : Policy) where
  open policy use {State, block_free}

  -- A pool that is not above all sizes and fits into the factory is kept: reset, with all of its block
  -- free, it heads the list of its index, and the policy is not called.
  abbrev pub Kept : Caching → Entry → Block → Caching → State → State → Type 0
  Kept cp e b cp' s s' =
      (e.pool.capacity ≤ 65536)
      × ((cp.capacity + e.pool.capacity) % 2 ^ 64 ≤ cp.max_capacity)
      × (s' ≡ s)
      × ((pool : Pool) × (cp'.free_list
            ≡ set cp.free_list e.index
                (record { pool = pool; index = e.index } ∷ get_or cp.free_list e.index []))
          × (pool.self ≡ e.pool.self)
          × (pool.blocks ≡ record b { current = b.start } ∷ [])
          × ((a : ℕ) → used pool.blocks a ≡ false))

  -- Any other pool is given back: its memory goes to the policy, and the free lists are as they were.
  abbrev pub GivenBack : Caching → Entry → Block → Caching → State → State → Type 0
  GivenBack cp e b cp' s s' =
      ((65536 < e.pool.capacity) ⊎ (cp.max_capacity < (cp.capacity + e.pool.capacity) % 2 ^ 64))
      × (s' ≡ block_free e.pool.self (b.end - e.pool.self) s)
      × (cp'.free_list ≡ cp.free_list)
      × (cp'.capacity ≡ cp.capacity)

  abbrev pub Outcome :
      Caching → Entry → Block → List Entry → State → Result (Caching × State) → Type 0
  Outcome cp e b es s r =
      (cp' : Caching) × (s' : State) × (r ≡ done (cp', s'))
      × IsCaching cp'
      × (cp'.used_list ≡ es)
      × (Kept cp e b cp' s s' ⊎ GivenBack cp e b cp' s s')

  entry_gone :
      (cp : Caching) (e : Entry) (b : Block) (s : State)
      → IsCaching cp
      → Whole e.pool.capacity e.pool b
      → (65536 < e.pool.capacity) ⊎ (cp.max_capacity < (cp.capacity + e.pool.capacity) % 2 ^ 64)
      → Outcome cp e b cp.used_list s (give_up policy cp e.pool s)
  unfolding give_up
  entry_gone cp e b s v w over = (
    cp,
    block_free e.pool.self (b.end - e.pool.self) s,
    rw (destroy_single policy e.pool b s w.blocks w.aligned w.word) refl,
    v,
    refl,
    inr (over, refl, refl, refl),
  )

  entry_kept :
      (cp : Caching) (e : Entry) (b : Block) (s : State)
      → IsCaching cp
      → InUse e
      → e.pool.blocks ≡ b ∷ []
      → e.pool.capacity ≤ 65536
      → (cp.capacity + e.pool.capacity) % 2 ^ 64 ≤ cp.max_capacity
      → Outcome cp e b cp.used_list s (release_entry policy cp e s)
  unfolding release_entry shelve shelved
  entry_kept cp e b s v u bs small fits =
      let (w, at, big) = u.1 b bs in
      let l : e.index < 16 = listed e u b bs small in
      let (pool, cleared, blocks, cap, empty, self) =
        reset_single policy e.pool b s bs w.aligned w.word in
      let same : pool.capacity ≡ e.pool.capacity = cap ∙ w.span in
      let stays : (ltb 65536 e.pool.capacity
            || ltb cp.max_capacity ((cp.capacity + e.pool.capacity) % 2 ^ 64))
          ≡ false =
        ground arith in
      let word : e.index % 2 ^ 32 ≡ e.index = omega arith in
      let inside : leb 16 e.index ≡ false = ground arith in
      (
        shelved cp pool e.index,
        s,
        rw (stays, cleared, word, lt→ltb _ _ l, inside) refl,
        shelved-IsCaching cp pool (record b { current = b.start }) e.index v l
            (record {
              blocks = blocks;
              aligned = w.aligned;
              word = w.word;
              span = ap (λ t. b.end - t) self ∙ w.span ∙ at l;
              capacity = same ∙ at l;
            })
            refl (omega (arith, same, v.limit, v.room)),
        refl,
        inl (small, fits, refl, (pool, refl, self, blocks, empty)),
      )

  entry_lem :
      (cp : Caching) (e : Entry) (b : Block) (s : State)
      → IsCaching cp
      → InUse e
      → e.pool.blocks ≡ b ∷ []
      → Outcome cp e b cp.used_list s (release_entry policy cp e s)
  unfolding release_entry
  entry_lem cp e b s v u bs = elim (dec_le e.pool.capacity 65536) [
    | yes small ↦ elim (dec_le ((cp.capacity + e.pool.capacity) % 2 ^ 64) cp.max_capacity) [
      | yes fits ↦ entry_kept cp e b s v u bs small fits
      | no full ↦
          let over : (ltb 65536 e.pool.capacity
                || ltb cp.max_capacity ((cp.capacity + e.pool.capacity) % 2 ^ 64))
              ≡ true =
            ground arith in
          rw over (entry_gone cp e b s v (u.1 b bs).0 (inr (omega arith)))
    ]
    | no large ↦
        let over : (ltb 65536 e.pool.capacity
              || ltb cp.max_capacity ((cp.capacity + e.pool.capacity) % 2 ^ 64))
            ≡ true =
          ground arith in
        rw over (entry_gone cp e b s v (u.1 b bs).0 (inl (omega arith)))
  ]

  -- `cpool_release_pool` on a valid factory, of a pool in the used list that has not grown, fails no
  -- assertion and leaves a valid factory with the pool out of the used list. If the pool is not above
  -- all sizes and fits into the factory, then it heads the free list of its index, with nothing in it
  -- handed out, and the policy is not called; else its memory was given back to the policy, and the free
  -- lists and their capacity are as they were.
  pub release_lem :
      (cp : Caching) (self : ℕ) (e : Entry) (es : List Entry) (b : Block) (s : State)
      → IsCaching cp
      → take_out self cp.used_list ≡ some (e, es)
      → length cp.used_list < 2 ^ 64
      → e.pool.blocks ≡ b ∷ []
      → Outcome cp e b es s (release policy cp self s)
  unfolding release
  release_lem cp self e es b s v t few bs =
      let (one, others, count) = take_out-All self cp.used_list e es t v.in_use in
      rw (t, release)
        (entry_lem
          (record cp { used_list = es; used_count = (cp.used_count + 2 ^ 64 - 1) % 2 ^ 64 }) e b s
          (record {
            lists = v.lists;
            shelved = v.shelved;
            counted = v.counted;
            limit = v.limit;
            room = v.room;
            used = omega (arith, v.used, count);
            in_use = others;
          })
          one bs)

  -- `cpool_release_pool` of a pool that has grown follows a null pointer.
  pub release_grown :
      (cp : Caching) (self : ℕ) (e : Entry) (es : List Entry) (b c : Block) (bs : List Block)
      (s : State)
      → take_out self cp.used_list ≡ some (e, es)
      → e.pool.blocks ≡ b ∷ c ∷ bs
      → release policy cp self s ≡ fault
  unfolding release release_entry give_up
  release_grown cp self e es b c bs s t grown =
      let (broken, gone) = reset_grown policy e.pool b c bs s grown in
      rw (t, release, broken, gone) (if-same _ fault)

  destroy_int_cases :
      (pool : Pool) (s : State) (bs : List Block)
      → pool.blocks ≡ bs
      → (destroy_int policy pool s ≡ fault) ⊎ ((s' : State) × (destroy_int policy pool s ≡ done s'))
  unfolding destroy_int destroy_from reset reset_from reset_loop last_node
  destroy_int_cases pool s [] e = inl (rw (e, destroy_from) refl)
  destroy_int_cases pool s (b ∷ []) e =
      inr (block_free pool.self (b.end - pool.self) s, rw (e, destroy_from, e, reset_from) refl)
  destroy_int_cases pool s (b ∷ c ∷ bs) e = inl (reset_grown policy pool b c bs s e).1

  destroy_lists-held :
      (ls : List (List Entry)) (s : State) → 0 < held ls → destroy_lists policy ls s ≡ fault
  unfolding destroy_lists
  destroy_lists-held [] s h = absurd (omega arith)
  destroy_lists-held ([] ∷ ls) s h = destroy_lists-held ls s (omega arith)
  destroy_lists-held ((e ∷ es) ∷ ls) s h = elim (destroy_int_cases e.pool s e.pool.blocks refl) [
    | inl bad ↦ rw bad refl
    | inr (s', ok) ↦ rw ok refl
  ]

  -- `mdl_caching_pool_destroy` of a factory that has a pool, free or in use, follows a bad pointer.
  pub destroy-held :
      (cp : Caching) (s : State)
      → 0 < held cp.free_list + length cp.used_list
      → destroy policy cp s ≡ fault
  unfolding destroy
  destroy-held cp s h =
      destroy_lists-held (cp.free_list ++ (cp.used_list ∷ [])) s
        (omega (arith, held-append cp.free_list cp.used_list))
