-- ===== src/Caching/Create.antt =====
-- `cpool_create_pool` on a valid factory.
use utils_modules.Base.{
  ℕ, ◌+◌, ◌-◌, ◌%◌, ◌^◌, ◌≤◌, ◌<◌, ◌≡◌, refl, sym, ap, ◌∙◌, subst, ◌⊎◌, inl, inr, arith, List, [],
  ◌∷◌, Option, some, none, All, true, false, get_or, set, length-set, ltb, ◌==◌, if◌then◌else◌,
}
use utils_modules.Pool.Factory.{Policy, PolicyLaws, Result, done}
use utils_modules.Pool.{Block, Pool}
use utils_modules.Pool.Used.{used}
use utils_modules.Pool.Life.{init_int, first_block, or_default}
use utils_modules.Pool.Life.Created.{create_int_lem}
use utils_modules.Caching.{
  Entry, Caching, size_at, size_index, caching_pool_array_size, put_in_use, reuse, create_new,
  create_from, create,
}
use utils_modules.Caching.Sizes.{Least, size_index_lem, size_at_mono}
use utils_modules.Caching.Valid.{
  Whole, Shelved, InUse, sum, IsCaching, ShelvedFrom-get, ShelvedFrom-set, total-set,
  put_in_use-IsCaching,
}

-- The size of the pool that is created for an index.
abbrev Suits : ℕ → ℕ → ℕ → Type 0
Suits initial idx n =
    (initial ≤ n) × (144 ≤ n) × (idx ≤ 16) × (idx < 16 → n ≡ size_at idx) × (idx ≡ 16 → 65536 < n)

size-Suits :
    (initial idx : ℕ)
    → Least initial idx
    → Suits initial idx (if ltb idx 16 then size_at idx else initial)
size-Suits initial idx (inl (e, big)) =
    let same : (if ltb idx 16 then size_at idx else initial) ≡ initial = ground arith in
    rw same (omega arith, omega arith, omega arith, λ l. absurd (omega arith), λ _. big)
size-Suits initial idx (inr (l, le, _)) =
    let same : (if ltb idx 16 then size_at idx else initial) ≡ size_at idx = ground arith in
    let above = size_at_mono 0 idx (omega arith) l in
    rw same (le, omega arith, omega arith, λ _. refl, λ e. absurd (omega arith))

-- The factory without the head of a free list.
without : Caching → ℕ → Entry → List Entry → Caching
without cp idx e es = record cp {
  free_list = set cp.free_list idx es;
  capacity = if ltb e.pool.capacity cp.capacity then cp.capacity - e.pool.capacity else 0;
}

without-IsCaching :
    (cp : Caching) (idx : ℕ) (e : Entry) (es : List Entry)
    → IsCaching cp
    → idx < 16
    → get_or cp.free_list idx [] ≡ e ∷ es
    → IsCaching (without cp idx e es)
unfolding without
without-IsCaching cp idx e es v l head =
    let shelf =
      subst (All (Shelved idx)) head
        (ShelvedFrom-get 0 idx idx cp.free_list v.shelved (omega arith)) in
    let weight : sum (get_or cp.free_list idx []) ≡ e.pool.capacity + sum es = ap sum head in
    let moved = total-set idx cp.free_list es (omega (arith, v.lists)) in
    record {
      lists = length-set cp.free_list idx es ∙ v.lists;
      shelved = ShelvedFrom-set 0 idx idx cp.free_list es v.shelved (omega arith) shelf.1;
      counted = ground (arith, v.counted, weight, moved);
      limit = ground (arith, v.limit);
      room = v.room;
      used = v.used;
      in_use = v.in_use;
    }

reused-InUse :
    (idx : ℕ) (e : Entry) (name : Option (List ℕ)) (increment callback : ℕ)
    → idx < 16
    → Shelved idx e
    → InUse (record { pool = init_int e.pool name increment callback; index = idx })
unfolding init_int
reused-InUse idx e name increment callback l (b, w, _, _) = (
  omega arith,
  λ c bs.
      let same : b ≡ c = cc in
      (
        record {
          blocks = bs;
          aligned = subst (λ (d : Block). d.start % 4 ≡ 0) same w.aligned;
          word = subst (λ (d : Block). d.start < 2 ^ 64) same w.word;
          span =
              subst (λ (d : Block). d.end - e.pool.self ≡ e.pool.capacity) same
                (w.span ∙ sym w.capacity);
          capacity = refl;
        },
        λ _. w.capacity,
        λ all. absurd (omega arith),
      ),
)

Shelved-empty : (idx : ℕ) (e : Entry) → Shelved idx e → (a : ℕ) → used e.pool.blocks a ≡ false
Shelved-empty idx e (b, w, fresh, _) a = rw w.blocks (ground (arith, fresh))

module _ (policy : Policy) (laws : PolicyLaws policy) where
  open policy use {State, block_alloc}

  -- The size of the pool that is created for a size asked for.
  abbrev pub new_size : ℕ → ℕ
  new_size initial =
      if ltb (size_index initial) caching_pool_array_size
      then size_at (size_index initial)
      else initial

  -- No pool of the index is kept.
  abbrev pub NoneKept : Caching → ℕ → Type 0
  NoneKept cp initial =
      (size_index initial ≡ caching_pool_array_size)
      ⊎ (get_or cp.free_list (size_index initial) [] ≡ [])

  -- Where the pool comes from: the head of the free list of its index, or else the policy.
  abbrev pub Source : Caching → ℕ → State → Pool → State → Type 0
  Source cp initial s pool s' =
      ((e : Entry) × (es : List Entry) × (get_or cp.free_list (size_index initial) [] ≡ e ∷ es)
        × (pool.self ≡ e.pool.self)
        × (s' ≡ s))
      ⊎ (NoneKept cp initial × (block_alloc (new_size initial) s ≡ (some pool.self, s')))

  abbrev pub Outcome : Caching → ℕ → ℕ → ℕ → State → Result (Option Pool × Caching × State) → Type 0
  Outcome cp initial increment callback s r =
      ((pool : Pool) × (cp' : Caching) × (s' : State) × (r ≡ done (some pool, cp', s'))
        × Source cp initial s pool s'
        × IsCaching cp'
        × (initial ≤ pool.capacity)
        × ((a : ℕ) → used pool.blocks a ≡ false)
        × (pool.increment_size ≡ increment)
        × (pool.callback ≡ callback)
        × (cp'.used_list ≡ record { pool = pool; index = size_index initial } ∷ cp.used_list))
      ⊎ ((s' : State) × (r ≡ done (none, cp, s'))
          × NoneKept cp initial
          × (block_alloc (new_size initial) s ≡ (none, s')))

  created-InUse :
      (pool : Pool) (n initial idx : ℕ)
      → pool.blocks ≡ first_block pool.self n ∷ []
      → pool.self % 4 ≡ 0
      → pool.self + n < 2 ^ 64
      → pool.capacity ≡ n
      → Suits initial idx n
      → InUse (record { pool = pool; index = idx })
  unfolding first_block
  created-InUse pool n initial idx bs al word cap (_, le, lim, at, over) = (
    lim,
    λ b e.
        let same : first_block pool.self n ≡ b = cc in
        (
          subst (λ c. Whole pool.capacity pool c) same
              (record {
                blocks = bs;
                aligned = omega arith;
                word = omega arith;
                span = omega arith;
                capacity = refl;
              }),
          λ l. cap ∙ at l,
          λ all. omega (arith, cap, over all),
        ),
  )

  new_lem :
      (cp : Caching) (name : Option (List ℕ)) (initial increment callback : ℕ) (s : State) (n : ℕ)
      → IsCaching cp
      → Suits initial (size_index initial) n
      → n ≡ (if ltb (size_index initial) 16 then size_at (size_index initial) else initial)
      → NoneKept cp initial
      → Outcome cp initial increment callback s
          (create_new policy cp (size_index initial) name initial increment callback s)
  unfolding create_new put_in_use
  new_lem cp name initial increment callback s n v h e kept =
      elim (create_int_lem policy laws name n increment (some callback) s h.1) [
        | inl (pool, s', made, asked, _, empty, cap, inc, cb, bs, al, word) ↦ inl (
          pool,
          put_in_use cp pool (size_index initial),
          s',
          rw (sym e, made) refl,
          inr (kept, ap (λ k. block_alloc k s) (sym e) ∙ asked),
          put_in_use-IsCaching cp pool (size_index initial) v
              (created-InUse pool n initial (size_index initial) bs al word cap h),
          omega (arith, h.0),
          empty,
          inc,
          cb,
          refl,
        )
        | inr (s', out, asked, _) ↦
            inr (s', rw (sym e, out) refl, kept, ap (λ k. block_alloc k s) (sym e) ∙ asked)
      ]

  reuse_lem :
      (cp : Caching) (e : Entry) (es : List Entry) (name : Option (List ℕ))
      (initial increment callback : ℕ) (s : State)
      → IsCaching cp
      → size_index initial < 16
      → initial ≤ size_at (size_index initial)
      → get_or cp.free_list (size_index initial) [] ≡ e ∷ es
      → Outcome cp initial increment callback s
          (create_from policy cp (size_index initial) (e ∷ es) name initial increment callback s)
  unfolding create_from reuse init_int put_in_use without
  reuse_lem cp e es name initial increment callback s v l le head =
      let idx = size_index initial in
      let shelf =
        subst (All (Shelved idx)) head
          (ShelvedFrom-get 0 idx idx cp.free_list v.shelved (omega arith)) in
      inl (
        init_int e.pool name increment callback,
        put_in_use (without cp idx e es) (init_int e.pool name increment callback) idx,
        s,
        refl,
        inl (e, es, head, refl, refl),
        put_in_use-IsCaching (without cp idx e es) (init_int e.pool name increment callback) idx
            (without-IsCaching cp idx e es v l head)
            (reused-InUse idx e name increment callback l shelf.0),
        omega (arith, shelf.0.1.capacity),
        Shelved-empty idx e shelf.0,
        refl,
        refl,
        refl,
      )

  create_cases :
      (cp : Caching) (name : Option (List ℕ)) (initial increment callback : ℕ) (s : State)
      (slot : List Entry)
      → IsCaching cp
      → size_index initial < 16
      → initial ≤ size_at (size_index initial)
      → Suits initial
          (size_index initial)
          (if ltb (size_index initial) 16 then size_at (size_index initial) else initial)
      → get_or cp.free_list (size_index initial) [] ≡ slot
      → Outcome cp initial increment callback s
          (create_from policy cp (size_index initial) slot name initial increment callback s)
  unfolding create_from
  create_cases cp name initial increment callback s [] v l le h e =
      new_lem cp name initial increment callback s _ v h refl (inr e)
  create_cases cp name initial increment callback s (d ∷ ds) v l le h e =
      reuse_lem cp d ds name initial increment callback s v l le e

  -- `cpool_create_pool` on a valid factory fails no assertion, whatever the size. It returns a pool
  -- of at least the size asked for, of which nothing is handed out, with the increment and the
  -- callback given or else the policy's; the pool heads the used list, and the factory is valid. The
  -- pool is the head of the free list of its index, the policy not being asked; or, no pool of the index
  -- being kept, the policy gave its memory. Or else no pool of the index was kept and the policy, asked
  -- for the size of the index, refused: it returns NULL and the factory is as it was.
  pub create_lem :
      (cp : Caching) (name : Option (List ℕ)) (initial increment : ℕ) (callback : Option ℕ)
      (s : State)
      → IsCaching cp
      → Outcome cp initial increment
          (or_default callback policy.callback)
          s
          (create policy cp name initial increment callback s)
  unfolding create
  create_lem cp name initial increment callback s v =
      let h = size-Suits initial (size_index initial) (size_index_lem initial) in
      elim (size_index_lem initial) [
        | inl (e, _) ↦
            let all : (size_index initial == 16) ≡ true = ground arith in
            rw all (
              new_lem cp name initial increment (or_default callback policy.callback) s _ v h refl
                (inl e))
        | inr (l, le, _) ↦
            let some_left : (size_index initial == 16) ≡ false = ground arith in
            rw some_left (
              create_cases cp name initial increment (or_default callback policy.callback) s _ v l
                le h refl)
      ]
