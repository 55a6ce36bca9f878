-- ===== src/Sort/Merge.antt =====
-- What the merge sort of datastruct/sort.c leaves in the array, and what it returns.
use utils_modules.Base.{ℕ, ◌≤◌, ◌≡◌, List, length, take, ◌⊎◌, Option, some, none}
use utils_modules.Sort.Bubble.{IsSorted, count}

-- A part and what it becomes.
abbrev pub IsSortOf : List ℕ → List ℕ → Type 0
IsSortOf a b = IsSorted b × (length b ≡ length a) × ((v : ℕ) → count v b ≡ count v a)

-- The array is sorted, and the memory is as long as it was and starts with a part of two or more numbers.
abbrev Merges : List ℕ → List ℕ → Option (List ℕ × Option (List ℕ)) → Type 0
Merges a res r =
    (b : List ℕ) × (res' : List ℕ) × (r ≡ some (b, some res'))
    × IsSortOf a b
    × (length res' ≡ length res)
    × (2 ≤ length a → take (length a) res' ≡ b)

-- The null pointer is not followed, or stays what it is.
abbrev IsNull : Option (List ℕ × Option (List ℕ)) → Type 0
IsNull r = (r ≡ none) ⊎ ((b : List ℕ) × (r ≡ some (b, none)))
