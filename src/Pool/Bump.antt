-- ===== src/Pool/Bump.antt =====
-- A factory for the tests, which moves upwards through the address space and takes nothing back.
use utils_modules.Base.{
  ℕ, ◌+◌, ◌*◌, ◌%◌, ◌^◌, ◌≤◌, ◌<◌, ◌≡◌, refl, sym, ap, inr, arith, List, [], ◌∷◌, Option, some,
  none, ltb, All, if◌then◌else◌, dec_lt,
}
use utils_modules.Pool.Factory.{Policy, PolicyLaws, Range, Apart}

abbrev pub top : List Range → ℕ
top [] = 1024
top (r ∷ rs) = r.first + r.size + top rs

abbrev pub bump_alloc : ℕ → List Range → Option ℕ × List Range
bump_alloc size rs =
    if ltb (4 * top rs + size) (2 ^ 64)
    then (some (4 * top rs), record { first = 4 * top rs; size = size } ∷ rs)
    else (none, rs)

abbrev pub bump : Policy
bump = record {
  State = List Range;
  block_alloc = bump_alloc;
  block_free = λ p n rs. rs;
  callback = 7;
}

below-Apart :
    (rs : List Range) (base size : ℕ)
    → top rs ≤ base
    → All (Apart (record { first = base; size = size })) rs
below-Apart [] base size h = tt
below-Apart (r ∷ rs) base size h = (inr (omega arith), below-Apart rs base size (omega arith))

pub bump_granted :
    (size base : ℕ) (rs rs' : List Range)
    → bump_alloc size rs ≡ (some base, rs')
    → (base % 4 ≡ 0)
      × (base + size < 2 ^ 64)
      × All (Apart (record { first = base; size = size })) rs
      × (rs' ≡ record { first = base; size = size } ∷ rs)
bump_granted size base rs rs' e = elim (dec_lt (4 * top rs + size) (2 ^ 64)) [
  | yes h ↦
      let at : 4 * top rs ≡ base = ground (arith, ap (λ t. t.0) e) in
      let then' : record { first = 4 * top rs; size = size } ∷ rs ≡ rs' =
        ground (arith, ap (λ t. t.1) e) in
      (omega arith, omega arith, below-Apart rs base size (omega arith), rw (sym then', at) refl)
  | no h ↦ ground (arith, ap (λ t. t.0) e)
]

pub bump_refused : (size : ℕ) (rs rs' : List Range) → bump_alloc size rs ≡ (none, rs') → rs' ≡ rs
bump_refused size rs rs' e = ground (arith, ap (λ t. t.0) e, ap (λ t. t.1) e)

abbrev pub bump_laws : PolicyLaws bump
bump_laws = record { live = λ rs. rs; granted = bump_granted; refused = bump_refused }
