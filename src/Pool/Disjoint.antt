-- ===== src/Pool/Disjoint.antt =====
-- A client's allocations from one pool, one after another, and the addresses that they give.
use utils_modules.Base.{
  ℕ, ◌+◌, ◌^◌, ◌≤◌, ◌<◌, ◌≡◌, refl, inl, inr, arith, List, [], ◌∷◌, Option, some, none, Bool, All,
  if◌then◌else◌,
}
use utils_modules.Pool.Factory.{Policy, PolicyLaws, Result, done, ◌>>=◌}
use utils_modules.Pool.{Block, Pool, alloc}
use utils_modules.Pool.Used.{in_range, used}
use utils_modules.Pool.Valid.{IsPool}
use utils_modules.Pool.Allocate.{Granted, alloc_lem}

-- An address returned and the size asked for.
abbrev pub Grant : Type 0
Grant = ℕ × ℕ

-- How many of the grants the address lies in.
abbrev pub owners : List Grant → ℕ → ℕ
owners [] a = 0
owners ((p, n) ∷ gs) a = (if in_range p n a then 1 else 0) + owners gs a

abbrev pub bit : Bool → ℕ
bit b = if b then 1 else 0

-- The grant of one call, before those of the later ones.
abbrev pub add_grant : Option ℕ → ℕ → List Grant → List Grant
add_grant none n gs = gs
add_grant (some p) n gs = (p, n) ∷ gs

-- The step of one grant, at one address.
one_grant :
    (size p a : ℕ) (bs bs' : List Block)
    → Granted size bs bs' p
    → bit (in_range p size a) + bit (used bs a) ≤ bit (used bs' a)
one_grant size p a bs bs' g = ground (arith, g.grown a, g.fresh a)

module _ (policy : Policy) (laws : PolicyLaws policy) where
  open policy use {State}
  open laws use {live}

  pub alloc_all : Pool → List ℕ → State → Result (List Grant × Pool × State)
  alloc_all pool [] s = done ([], pool, s)
  alloc_all pool (n ∷ ns) s = do
    (got, pool', s') ← alloc policy pool n s
    (grants, pool'', s'') ← alloc_all pool' ns s'
    done (add_grant got n grants, pool'', s'')

  -- Any sequence of `mdl_pool_alloc` calls on a valid pool runs, keeps the pool valid, and gives no
  -- address twice: an address lies in at most one of the ranges granted, in none if it was handed
  -- out before, and it counts as handed out afterwards if it lies in one.
  pub alloc_all_disjoint :
      (ns : List ℕ) (pool : Pool) (s : State)
      → IsPool (live s) pool
      → All (λ n. n + pool.increment_size + 44 < 2 ^ 64) ns
      → (grants : List Grant) × (pool' : Pool) × (s' : State) × (alloc_all pool ns s
          ≡ done (grants, pool', s'))
        × IsPool (live s') pool'
        × ((a : ℕ) → owners grants a + bit (used pool.blocks a) ≤ bit (used pool'.blocks a))
  unfolding alloc_all
  alloc_all_disjoint [] pool s v h = ([], pool, s, refl, v, λ a. omega arith)
  alloc_all_disjoint (n ∷ ns) pool s v h = elim (alloc_lem policy laws pool n s v h.0) [
    | inl (p, pool', s', one, v', g, inc, _) ↦
        let (grants, pool'', s'', rest, v'', sep) =
          alloc_all_disjoint ns pool' s' v' (rw inc h.1) in
        (
          (p, n) ∷ grants,
          pool'',
          s'',
          rw (one, rest),
          v'',
          λ a. omega (arith, sep a, one_grant n p a pool.blocks pool'.blocks g),
        )
    | inr (m, s', one, v', _) ↦
        let (grants, pool'', s'', rest, v'', sep) = alloc_all_disjoint ns _ s' v' h.1 in
        (grants, pool'', s'', rw (one, rest), v'', λ a. omega (arith, sep a))
  ]
