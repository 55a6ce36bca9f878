-- ===== src/DefaultPolicy/Laws.antt =====
-- The default policy and the laws that pools rely on.
use utils_modules.Base.{
  ℕ, ◌+◌, ◌%◌, ◌^◌, ◌<◌, ◌≡◌, refl, sym, ap, ◌⊎◌, inl, inr, arith, Bool, true, false, ◌∷◌, Option,
  none, some, All,
}
use utils_modules.Pool.Factory.{PolicyLaws, Apart}
use utils_modules.DefaultPolicy.{
  Heap, HeapLaws, Hooks, tell_alloc, tell_free, malloc_told, told, default_block_alloc,
  default_policy,
}

some-none : {i : ℕ} → some i ≡ none → ⊥
some-none e = cc

module _ (hooks : Hooks) (heap : Heap) (laws : HeapLaws heap) where
  open hooks use {Factory, on_block_alloc, on_block_free}
  open heap use {Memory, malloc}
  open laws use {live, granted, refused}

  -- What `malloc` returned, from what the policy returns.
  malloc_told-some :
      (size base : ℕ) (f : Factory) (q : Option ℕ × Memory) (s : Factory × Memory)
      → malloc_told hooks heap size f q ≡ (some base, s)
      → q ≡ (some base, s.1)
  unfolding malloc_told
  malloc_told-some size base f (none, m) s e = absurd (some-none (sym (ap (λ t. t.0) e)))
  malloc_told-some size base f (some p, m) s e = ap (λ t. (t.0, t.1.1)) e

  told-some :
      (size base : ℕ) (r : Bool × Factory) (m : Memory) (s : Factory × Memory)
      → told hooks heap size r m ≡ (some base, s)
      → malloc size m ≡ (some base, s.1)
  unfolding told
  told-some size base (false, f) m s e = absurd (some-none (sym (ap (λ t. t.0) e)))
  told-some size base (true, f) m s e =
      let same : size + 0 ≡ size = omega arith in
      rw same at (malloc_told-some size base f (malloc (size + 0) m) s e)

  malloc_told-none :
      (size : ℕ) (f : Factory) (q : Option ℕ × Memory) (s : Factory × Memory)
      → malloc_told hooks heap size f q ≡ (none, s)
      → q ≡ (none, s.1)
  unfolding malloc_told
  malloc_told-none size f (none, m) s e = ap (λ t. (t.0, t.1.1)) e
  malloc_told-none size f (some p, m) s e = absurd (some-none (ap (λ t. t.0) e))

  told-none :
      (size : ℕ) (r : Bool × Factory) (m : Memory) (s : Factory × Memory)
      → told hooks heap size r m ≡ (none, s)
      → live s.1 ≡ live m
  unfolding told
  told-none size (false, f) m s e = ap (λ t. live t.1.1) (sym e)
  told-none size (true, f) m s e =
      refused (size + 0) m s.1 (malloc_told-none size f (malloc (size + 0) m) s e)

  -- The laws that pools rely on, of the default policy over `malloc` and `free`, whatever functions
  -- of the factory it tells.
  pub default_policy-PolicyLaws : PolicyLaws (default_policy hooks heap)
  unfolding default_policy default_block_alloc
  default_policy-PolicyLaws = record {
    live = λ s. live s.1;
    granted = λ size base s s' e.
        granted size base s.1 s'.1 (told-some size base (tell_alloc hooks heap size s.0) s.1 s' e);
    refused = λ size s s' e. told-none size (tell_alloc hooks heap size s.0) s.1 s' e;
  }

  -- What the factory answers when it is told of an allocation, and its state after that; without a
  -- function it agrees.
  abbrev pub Answers : ℕ → Factory → Bool → Factory → Type 0
  Answers size f ok f' =
      ((on_block_alloc ≡ none) × (ok ≡ true) × (f' ≡ f))
      ⊎ ((h : ℕ → Factory → Bool × Factory) × (on_block_alloc ≡ some h) × (h size f ≡ (ok, f')))

  -- The factory is told that a block is gone; without a function it stays as it is.
  abbrev pub ToldFree : ℕ → Factory → Factory → Type 0
  ToldFree size f f' =
      ((on_block_free ≡ none) × (f' ≡ f))
      ⊎ ((h : ℕ → Factory → Factory) × (on_block_free ≡ some h) × (f' ≡ h size f))

  -- The factory refuses; or it agrees, and then `malloc` gives nothing, or gives a block.
  abbrev pub Outcome : ℕ → Factory × Memory → Option ℕ × (Factory × Memory) → Type 0
  Outcome size s r =
      ((f : Factory) × Answers size (s.0) false f × (r ≡ (none, (f, s.1))))
      ⊎ ((f : Factory) × (f' : Factory) × (m : Memory) × Answers size (s.0) true f
          × (malloc size (s.1) ≡ (none, m))
          × ToldFree size f f'
          × (r ≡ (none, (f', m)))
          × (live m ≡ live (s.1)))
      ⊎ ((f : Factory) × (base : ℕ) × (m : Memory) × Answers size (s.0) true f
          × (malloc size (s.1) ≡ (some base, m))
          × (r ≡ (some base, (f, m)))
          × (base % 4 ≡ 0)
          × (base + size < 2 ^ 64)
          × All (Apart (record { first = base; size = size })) (live (s.1))
          × (live m ≡ record { first = base; size = size } ∷ live (s.1)))

  tell_alloc-Answers :
      (size : ℕ) (f : Factory) (o : Option (ℕ → Factory → Bool × Factory))
      → on_block_alloc ≡ o
      → (ok : Bool) × (f' : Factory) × (tell_alloc hooks heap size f ≡ (ok, f'))
        × Answers size f ok f'
  tell_alloc-Answers size f none e = (true, f, rw e refl, inl (e, refl, refl))
  tell_alloc-Answers size f (some h) e = ((h size f).0, (h size f).1, rw e refl, inr (h, e, refl))

  tell_free-ToldFree :
      (size : ℕ) (f : Factory) (o : Option (ℕ → Factory → Factory))
      → on_block_free ≡ o
      → ToldFree size f (tell_free hooks heap size f)
  tell_free-ToldFree size f none e = inl (e, rw e refl)
  tell_free-ToldFree size f (some h) e = inr (h, e, rw e refl)

  malloc_told-Outcome :
      (size : ℕ) (s : Factory × Memory) (f : Factory) (q : Option ℕ × Memory)
      → Answers size (s.0) true f
      → malloc size (s.1) ≡ q
      → Outcome size s (malloc_told hooks heap size f q)
  unfolding malloc_told
  malloc_told-Outcome size s f (none, m) a e = inr (
      inl (
        f,
        tell_free hooks heap size f,
        m,
        a,
        e,
        tell_free-ToldFree size f on_block_free refl,
        refl,
        refused size (s.1) m e,
      ))
  malloc_told-Outcome size s f (some base, m) a e =
      let (al, word, apart, more) = granted size base (s.1) m e in
      inr (inr (f, base, m, a, e, refl, al, word, apart, more))

  told-Outcome :
      (size : ℕ) (s : Factory × Memory) (ok : Bool) (f : Factory)
      → Answers size (s.0) ok f
      → Outcome size s (told hooks heap size (ok, f) (s.1))
  unfolding told
  told-Outcome size s false f a = inl (f, a, refl)
  told-Outcome size s true f a =
      let same : size + 0 ≡ size = omega arith in
      rw same (malloc_told-Outcome size s f (malloc size (s.1)) a refl)

  -- `default_block_alloc` first asks the function of the factory for allocations, if there is one. If it
  -- refuses, then `malloc` is not called and NULL is returned. If it agrees, or there is none, and
  -- `malloc` gives nothing, then the function for freed blocks is told of the size, if there is one, and
  -- NULL is returned. If `malloc` gives a block, then that is returned; it is aligned, lies in the
  -- address space, overlaps no live one and is live from then on.
  pub default_block_alloc_lem :
      (size : ℕ) (s : Factory × Memory) → Outcome size s (default_block_alloc hooks heap size s)
  unfolding default_block_alloc
  default_block_alloc_lem size s =
      let (ok, f, e, a) = tell_alloc-Answers size (s.0) on_block_alloc refl in
      rw e (told-Outcome size s ok f a)
