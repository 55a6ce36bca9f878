-- ===== src/Caching/Sizes.antt =====
-- The list that `cpool_create_pool` chooses for a size.
use utils_modules.Base.{
  ℕ, zero, suc, ◌+◌, ◌≤◌, ◌<◌, ◌≡◌, ◌⊎◌, inl, inr, arith, leb, List, [], ◌∷◌, get_or, length,
  le→leb, lt→ltb, dec_le, dec_lt, false,
}
use utils_modules.Caching.{size_at, pool_sizes, index_down, index_up, size_index}

abbrev Ascends : ℕ → List ℕ → Type 0
Ascends m [] = Unit {0}
Ascends m (x ∷ xs) = (m ≤ x) × Ascends x xs

get_or-Ascends : (m : ℕ) (xs : List ℕ) (i : ℕ) → Ascends m xs → i < length xs → m ≤ get_or xs i 0
get_or-Ascends m [] i h l = absurd (omega arith)
get_or-Ascends m (x ∷ xs) zero h l = h.0
get_or-Ascends m (x ∷ xs) (suc i) h l = omega (arith, h.0, get_or-Ascends x xs i h.1 (omega arith))

get_or_mono :
    (m : ℕ) (xs : List ℕ) (i j : ℕ)
    → Ascends m xs
    → i ≤ j
    → j < length xs
    → get_or xs i 0 ≤ get_or xs j 0
get_or_mono m [] i j h le l = absurd (omega arith)
get_or_mono m (x ∷ xs) zero zero h le l = omega arith
get_or_mono m (x ∷ xs) zero (suc j) h le l = get_or-Ascends x xs j h.1 (omega arith)
get_or_mono m (x ∷ xs) (suc i) zero h le l = absurd (omega arith)
get_or_mono m (x ∷ xs) (suc i) (suc j) h le l = get_or_mono x xs i j h.1 (omega arith) (omega arith)

pool_sizes-Ascends : Ascends 0 pool_sizes
pool_sizes-Ascends = (
  omega arith,
  (
    omega arith,
    (
      omega arith,
      (
        omega arith,
        (
          omega arith,
          (
            omega arith,
            (
              omega arith,
              (
                omega arith,
                (
                  omega arith,
                  (
                    omega arith,
                    (
                      omega arith,
                      (omega arith, (omega arith, (omega arith, (omega arith, (omega arith, tt))))),
                    ),
                  ),
                ),
              ),
            ),
          ),
        ),
      ),
    ),
  ),
)

pub size_at_mono : (i j : ℕ) → i ≤ j → j < 16 → size_at i ≤ size_at j
size_at_mono i j le l = get_or_mono 0 pool_sizes i j pool_sizes-Ascends le l

-- The index of the least size that is not below the one asked for, or 16 where each is below it.
abbrev pub Least : ℕ → ℕ → Type 0
Least initial r =
    ((r ≡ 16) × (size_at 15 < initial))
    ⊎ ((r < 16) × (initial ≤ size_at r) × ((j : ℕ) → j < r → size_at j < initial))

index_down_lem :
    (i initial : ℕ) → i < 16 → initial ≤ size_at i → Least initial (index_down i initial)
unfolding index_down
index_down_lem zero initial l h = inr (omega arith, h, λ j b. absurd (omega arith))
index_down_lem (suc i) initial l h = elim (dec_le initial (size_at i)) [
  | yes le ↦ rw (le→leb _ _ le) (index_down_lem i initial (omega arith) le)
  | no gt ↦
      let stop : index_down (suc i) initial ≡ suc i = ground arith in
      rw stop (inr (l, h, λ j b. omega (arith, size_at_mono j i (omega arith) (omega arith))))
]

index_up_lem :
    (fuel idx initial : ℕ)
    → idx + fuel ≡ 16
    → ((j : ℕ) → j < idx → size_at j < initial)
    → Least initial (index_up fuel idx initial)
unfolding index_up
index_up_lem zero idx initial e below = inl (omega arith, below 15 (omega arith))
index_up_lem (suc fuel) idx initial e below = elim (dec_lt (size_at idx) initial) [
  | yes lt ↦ rw (lt→ltb _ _ lt) (
      index_up_lem fuel (suc idx) initial (omega arith)
        (λ j b. omega (arith, size_at_mono j idx (omega arith) (omega arith))))
  | no ge ↦
      let stop : index_up (suc fuel) idx initial ≡ idx = ground arith in
      rw stop (inr (omega arith, omega arith, below))
]

-- `cpool_create_pool` takes the index of the least of the sizes that is not below the size asked
-- for, and 16 where each is below it.
pub size_index_lem : (initial : ℕ) → Least initial (size_index initial)
unfolding size_index
size_index_lem initial = elim (dec_le initial (size_at 5)) [
  | yes le ↦ rw (le→leb _ _ le) (index_down_lem 5 initial (omega arith) le)
  | no gt ↦
      let far : leb initial (size_at 5) ≡ false = ground arith in
      rw far (
        index_up_lem 10 6 initial (omega arith)
          (λ j b. omega (arith, size_at_mono j 5 (omega arith) (omega arith))))
]
