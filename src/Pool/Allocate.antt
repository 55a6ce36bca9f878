-- ===== src/Pool/Allocate.antt =====
-- `mdl_pool_alloc` on a valid pool, on every branch.
use utils_modules.Base.{
  ℕ, ◌+◌, ◌%◌, ◌^◌, ◌≤◌, ◌<◌, ◌≡◌, refl, ap, sym, subst, ◌∙◌, ◌⊎◌, inl, inr, arith, List, [], ◌∷◌,
  Option, some, none, true, false, ◌||◌, le→leb, ◌==◌, Bool-cases, dec_le,
}
use utils_modules.Pool.Factory.{Policy, PolicyLaws, Range, Result, done, ◌>>=◌}
use utils_modules.Pool.{
  Block, Pool, round_size, block_size, new_block, create_block, take_from_new, expand,
  allocate_find, alloc, alloc_with, sizeof_block,
}
use utils_modules.Pool.Rounding.{
  round_size-bounds, block_size-enough, new_block-IsBlock, alloc_from_block-fits,
  alloc_from_block-short,
}
use utils_modules.Pool.Used.{in_range, used, Separate, Grants, Full, first-Grants, find_block_lem}
use utils_modules.Pool.Valid.{IsPool, Spans-nil, new_block-Clear, owned-cons, Spans-IsPool}

-- `p` is an aligned range of the rounded size, none of it used before, and the used addresses are
-- those used before and the range.
pub record Granted (size : ℕ) (bs bs' : List Block) (p : ℕ) : Type 0 where
  pub aligned : p % 4 ≡ 0
  pub long : size ≤ round_size size
  pub word : p + round_size size < 2 ^ 64
  pub fresh : (a : ℕ) → in_range p (round_size size) a ≡ true → used bs a ≡ false
  pub grown : (a : ℕ) → used bs' a ≡ (in_range p (round_size size) a || used bs a)

Grants-Granted :
    (size : ℕ) (bs bs' : List Block) (p : ℕ)
    → size + 4 < 2 ^ 64
    → Grants size bs bs' p
    → Granted size bs bs' p
Grants-Granted size bs bs' p h g = record {
  aligned = g.aligned;
  long = (round_size-bounds size h).0;
  word = g.word;
  fresh = g.fresh;
  grown = g.grown;
}

-- The same for a range from a new block, none of which was used.
new-Granted :
    (b : Block) (bs bs' : List Block) (size p : ℕ)
    → b.start ≡ b.current
    → size + 4 < 2 ^ 64
    → Grants size (b ∷ bs) bs' p
    → Granted size bs bs' p
new-Granted b bs bs' size p e h g = record {
  aligned = g.aligned;
  long = (round_size-bounds size h).0;
  word = g.word;
  fresh = λ a i. ground (arith, g.fresh a i);
  grown = λ a. ground (arith, g.grown a);
}

module _ (policy : Policy) (laws : PolicyLaws policy) where
  open policy use {State, block_alloc}
  open laws use {live, granted, refused}

  -- The allocation succeeds and grants a range, or the callback is called, once, with the pool
  -- as it was and no block with room.
  abbrev pub Outcome : Pool → ℕ → State → Result (Option ℕ × Pool × State) → Type 0
  Outcome pool size s r =
      ((p : ℕ) × (pool' : Pool) × (s' : State) × (r ≡ done (some p, pool', s'))
        × IsPool (live s') pool'
        × Granted size pool.blocks pool'.blocks p
        × (pool'.increment_size ≡ pool.increment_size)
        × (pool'.calls ≡ pool.calls))
      ⊎ ((n : ℕ) × (s' : State) × (r ≡ done (none, record pool { calls = n ∷ pool.calls }, s'))
          × IsPool (live s') (record pool { calls = n ∷ pool.calls })
          × Full size pool.blocks)

  recalled :
      (pool : Pool) (n : ℕ) (rs rs' : List Range)
      → rs' ≡ rs
      → IsPool rs pool
      → IsPool rs' (record pool { calls = n ∷ pool.calls })
  recalled pool n rs rs' e v = record {
    separate = v.separate;
    owned = rw e v.owned;
    present = v.present;
    counted = v.counted;
  }

  create_block-refused :
      (pool : Pool) (size : ℕ) (s s' : State)
      → sizeof_block ≤ size
      → block_alloc size s ≡ (none, s')
      → create_block policy pool size s ≡ done (none, record pool { calls = size ∷ pool.calls }, s')
  unfolding create_block
  create_block-refused pool size s s' h e = rw (le→leb _ _ h, ap (λ t. t.0) e, ap (λ t. t.1) e)

  abbrev extended : Pool → ℕ → ℕ → Pool
  extended pool base size = record pool {
    capacity = (pool.capacity + size) % 2 ^ 64;
    blocks = new_block base size ∷ pool.blocks;
  }

  create_block-granted :
      (pool : Pool) (size base : ℕ) (s s' : State)
      → sizeof_block ≤ size
      → block_alloc size s ≡ (some base, s')
      → create_block policy pool size s
        ≡ done (some (new_block base size), extended pool base size, s')
  unfolding create_block
  create_block-granted pool size base s s' h e = rw (le→leb _ _ h, ap (λ t. t.0) e, ap (λ t. t.1) e)

  extended-IsPool :
      (pool : Pool) (size base : ℕ) (s s' : State)
      → IsPool (live s) pool
      → sizeof_block ≤ size
      → block_alloc size s ≡ (some base, s')
      → IsPool (live s') (extended pool base size)
  unfolding new_block
  extended-IsPool pool size base s s' v h e =
      let (al, word, apart, more) = granted size base s s' e in
      let (b, _, _, _) = new_block-IsBlock base size al word h in
      rw more (record {
        separate = (b, new_block-Clear base size (live s) pool.blocks apart v.owned, v.separate);
        owned = (inl (omega arith), owned-cons _ (live s) pool.blocks v.owned);
        present = λ c. cc;
        counted = omega (arith, v.counted);
      })

  -- The new block gives its first bytes.
  take_lem :
      (pool : Pool) (size n base : ℕ) (s s' : State)
      → IsPool (live s) pool
      → size + 4 < 2 ^ 64
      → size + 44 ≤ n
      → block_alloc n s ≡ (some base, s')
      → Outcome pool size s (take_from_new policy (extended pool base n) (new_block base n) size s')
  unfolding take_from_new
  take_lem pool size n base s s' v small enough e =
      let v' = extended-IsPool pool n base s s' v (omega arith) e in
      let (al, word, _, _) = granted n base s s' e in
      let (b, start, current, end) = new_block-IsBlock base n al word (omega arith) in
      let fits : (new_block base n).current + round_size size ≤ (new_block base n).end =
        omega (arith, current, end, round_size-bounds size small) in
      let g = first-Grants (new_block base n) pool.blocks size v'.separate small fits in
      inl (
        (new_block base n).current,
        record (extended pool base n) {
          blocks =
              record (new_block base n) { current = (new_block base n).current + round_size size }
              ∷ pool.blocks;
        },
        s',
        rw (alloc_from_block-fits (new_block base n) size b fits, take_from_new),
        Spans-IsPool (live s') (extended pool base n) _ pool.blocks v' g.separate g.span,
        new-Granted (new_block base n) pool.blocks _ size _ (start ∙ sym current) small g,
        refl,
        refl,
      )

  expand_with :
      (pool : Pool) (size n : ℕ) (s : State) (r : Option ℕ × State)
      → block_alloc n s ≡ r
      → IsPool (live s) pool
      → size + 4 < 2 ^ 64
      → size + 44 ≤ n
      → Full size pool.blocks
      → Outcome pool size s (
          create_block policy pool n s >>= λ t. elim t.0 [
            | none ↦ done (none, t.1, t.2)
            | some b ↦ take_from_new policy t.1 b size t.2
          ])
  expand_with pool size n s (none, s') e v small enough full =
      rw (create_block-refused pool n s s' (omega arith) e)
        (inr (n, s', refl, recalled pool n (live s) (live s') (refused n s s' e) v, full))
  expand_with pool size n s (some base, s') e v small enough full =
      rw (create_block-granted pool n base s s' (omega arith) e)
        (take_lem pool size n base s s' v small enough e)

  expand_lem :
      (pool : Pool) (size : ℕ) (s : State)
      → IsPool (live s) pool
      → size + pool.increment_size + 44 < 2 ^ 64
      → Full size pool.blocks
      → Outcome pool size s (expand policy pool size s)
  unfolding expand
  expand_lem pool size s v small full = elim (Bool-cases (pool.increment_size == 0)) [
    | inl z ↦ rw z (inr (size, s, refl, recalled pool size (live s) (live s) refl v, full))
    | inr z ↦ rw z (
        expand_with pool size (block_size pool.increment_size size) s _ refl v (omega arith)
          (block_size-enough pool.increment_size size (ground arith) small).0 full)
  ]

  from_blocks :
      (pool : Pool) (size p : ℕ) (bs : List Block) (s : State)
      → IsPool (live s) pool
      → size + 4 < 2 ^ 64
      → Grants size pool.blocks bs p
      → Outcome pool size s (done (some p, record pool { blocks = bs }, s))
  from_blocks pool size p [] s v small g = absurd (v.present (Spans-nil pool.blocks g.span))
  from_blocks pool size p (b ∷ bs) s v small g = inl (
    p,
    record pool { blocks = b ∷ bs },
    s,
    refl,
    Spans-IsPool (live s) pool b bs v g.separate g.span,
    Grants-Granted size pool.blocks (b ∷ bs) p small g,
    refl,
    refl,
  )

  allocate_find_lem :
      (pool : Pool) (size : ℕ) (s : State)
      → IsPool (live s) pool
      → size + pool.increment_size + 44 < 2 ^ 64
      → Outcome pool size s (allocate_find policy pool size s)
  unfolding allocate_find
  allocate_find_lem pool size s v small =
      elim (find_block_lem pool.blocks size v.separate (omega arith)) [
        | inl (miss, full) ↦ rw (miss, allocate_find) (expand_lem pool size s v small full)
        | inr (p, bs, hit, g) ↦
            rw (hit, allocate_find) (from_blocks pool size p bs s v (omega arith) g)
      ]

  alloc_with_lem :
      (pool : Pool) (bs : List Block) (size : ℕ) (s : State)
      → pool.blocks ≡ bs
      → IsPool (live s) pool
      → size + pool.increment_size + 44 < 2 ^ 64
      → Outcome pool size s (alloc_with policy pool bs size s)
  unfolding alloc_with
  alloc_with_lem pool [] size s e v small = absurd (v.present e)
  alloc_with_lem pool (b ∷ bs) size s e v small =
      let sep : Separate (b ∷ bs) = subst Separate e v.separate in
      elim (dec_le (b.current + round_size size) b.end) [
        | yes fits ↦
            let g = first-Grants b bs size sep (omega arith) fits in
            let b' : Block = record b { current = b.current + round_size size } in
            rw (alloc_from_block-fits b size sep.0 fits, alloc_with)
              (from_blocks pool size b.current (b' ∷ bs) s v (omega arith)
                (subst (λ t. Grants size t (b' ∷ bs) b.current) (sym e) g))
        | no short ↦
            rw (alloc_from_block-short b size sep.0 (omega arith), alloc_with)
              (allocate_find_lem pool size s v small)
      ]

  -- `mdl_pool_alloc` on a valid pool, for a size that does not bring the sizes computed from it to
  -- 2 ^ 64, fails no assertion and follows no bad pointer. It returns an address p, and then p is
  -- aligned, none of the rounded size from p on was handed out before, exactly these addresses are
  -- added to those handed out, and the pool is valid; or it returns NULL, and then no block had
  -- room, the pool is as it was, and the callback was called once.
  pub alloc_lem :
      (pool : Pool) (size : ℕ) (s : State)
      → IsPool (live s) pool
      → size + pool.increment_size + 44 < 2 ^ 64
      → Outcome pool size s (alloc policy pool size s)
  unfolding alloc
  alloc_lem pool size s = alloc_with_lem pool pool.blocks size s refl
