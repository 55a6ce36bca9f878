-- ===== src/Pool/Factory.antt =====
-- `struct mdl_pool_factory_policy_s`: where pools take their blocks from, as an interface, with
-- what `malloc` and `free` promise of it, and the outcome of code with assertions.
use utils_modules.Base.{
  ℕ, ◌+◌, ◌%◌, ◌^◌, ◌≤◌, ◌<◌, ◌≡◌, ◌⊎◌, Bool, true, false, List, ◌∷◌, Option, none, some, All,
}

-- A value, a failed `assert`, or a use of a pointer that is not valid.
pub data Result {ℓ} (A : Type ℓ) : Type ℓ where
  done : A → Result A
  aborted : Result A
  fault : Result A

infixl 5 ◌>>=◌ ◌>>◌
abbrev pub ◌>>=◌ {ℓ κ} : {A : Type ℓ} {B : Type κ} → Result A → (A → Result B) → Result B
done a >>= f = f a
aborted >>= f = aborted
fault >>= f = fault

abbrev pub ◌>>◌ {ℓ κ} : {A : Type ℓ} {B : Type κ} → Result A → Result B → Result B
m >> k = m >>= λ _. k

abbrev pub assert : Bool → Result (Unit {0})
assert true = done tt
assert false = aborted

-- A range of addresses: its first, and how many.
pub record Range : Type 0 where
  pub first : ℕ
  pub size : ℕ

abbrev pub Apart : Range → Range → Type 0
Apart r q = (r.first + r.size ≤ q.first) ⊎ (q.first + q.size ≤ r.first)

-- `block_alloc` and `block_free` over the state of the factory and of the memory below it, and the
-- default callback.
pub record Policy : Type 1 where
  pub State : Type 0
  pub block_alloc : ℕ → State → Option ℕ × State
  pub block_free : ℕ → ℕ → State → State
  pub callback : ℕ

-- What pools rely on: the live ranges of memory, and that a new range is aligned, lies in the
-- address space, and overlaps no live one.
pub record PolicyLaws (policy : Policy) : Type 1 where
  pub live : policy.State → List Range
  pub granted :
      (size base : ℕ) (s s' : policy.State)
      → policy.block_alloc size s ≡ (some base, s')
      → (base % 4 ≡ 0)
        × (base + size < 2 ^ 64)
        × All (Apart (record { first = base; size = size })) (live s)
        × (live s' ≡ record { first = base; size = size } ∷ live s)
  pub refused :
      (size : ℕ) (s s' : policy.State) → policy.block_alloc size s ≡ (none, s') → live s' ≡ live s
