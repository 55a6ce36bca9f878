-- ===== src/Base/Table.antt =====
-- A list given by its entries: `table n f` is `f 0, …, f (n - 1)`.
use Prim.Native.Nat.{ℕ, zero, suc, ◌+◌, ◌-◌, ◌≤◌, ◌<◌}
use mathlib.Core.Path.{◌≡◌, refl, ap, ap₂, ◌∙◌}
use mathlib.Core.List.{List, [], ◌∷◌, ◌++◌}
use native.Mathlib.Omega.{arith}
use utils_modules.Base.Lists.{length, get_or, take, drop}

module _ {ℓ} {A : Type ℓ} where
  abbrev pub table : ℕ → (ℕ → A) → List A
  table zero f = []
  table (suc n) f = f 0 ∷ table n (λ i. f (suc i))

module _ {ℓ} {A : Type ℓ} where
  pub length-table : (n : ℕ) (f : ℕ → A) → length (table n f) ≡ n
  length-table zero f = refl
  length-table (suc n) f = ap suc (length-table n (λ i. f (suc i)))

  pub table-ext : (n : ℕ) (f g : ℕ → A) → ((i : ℕ) → i < n → f i ≡ g i) → table n f ≡ table n g
  table-ext zero f g h = refl
  table-ext (suc n) f g h =
      ap₂ ◌∷◌ (h 0 (omega arith))
        (table-ext n (λ i. f (suc i)) (λ i. g (suc i)) (λ i lt. h (suc i) (omega arith)))

  pub table-append :
      (m n k : ℕ) (f g : ℕ → A)
      → k ≡ m + n
      → ((i : ℕ) → i < n → f (m + i) ≡ g i)
      → table k f ≡ table m f ++ table n g
  table-append zero n k f g e h =
      ap (λ t. table t f) (omega arith) ∙ table-ext n f g (λ i lt. ap f (omega arith) ∙ h i lt)
  table-append (suc m) n zero f g e h = absurd (omega arith)
  table-append (suc m) n (suc k) f g e h =
      ap (λ t. f 0 ∷ t)
        (table-append m n k (λ i. f (suc i)) g (omega arith) (λ i lt. ap f (omega arith) ∙ h i lt))

  pub take-eq-table :
      (n : ℕ) (xs : List A) (d : A) → n ≤ length xs → take n xs ≡ table n (λ i. get_or xs i d)
  take-eq-table zero xs d h = refl
  take-eq-table (suc n) [] d h = absurd (omega arith)
  take-eq-table (suc n) (x ∷ xs) d h = ap (λ t. x ∷ t) (take-eq-table n xs d (omega arith))

  pub take-table : (m n : ℕ) (f : ℕ → A) → m ≤ n → take m (table n f) ≡ table m f
  take-table zero n f h = refl
  take-table (suc m) zero f h = absurd (omega arith)
  take-table (suc m) (suc n) f h = ap (λ t. f 0 ∷ t) (take-table m n (λ i. f (suc i)) (omega arith))

  pub drop-table :
      (m n : ℕ) (f g : ℕ → A)
      → ((i : ℕ) → i < n - m → f (m + i) ≡ g i)
      → drop m (table n f) ≡ table (n - m) g
  drop-table zero n f g h =
      table-ext n f g (λ i lt. ap f (omega arith) ∙ h i (omega arith))
      ∙ ap (λ t. table t g) (let e : n ≡ n - 0 = omega arith in e)
  drop-table (suc m) zero f g h = let e : 0 - suc m ≡ 0 = omega arith in rw e
  drop-table (suc m) (suc n) f g h =
      let e : suc n - suc m ≡ n - m = omega arith in
      rw e (drop-table m n (λ i. f (suc i)) g (λ i lt. ap f (omega arith) ∙ h i (omega arith)))

  -- Lists of one length with the same entries are equal.
  pub list-ext :
      (xs ys : List A) (d : A)
      → length xs ≡ length ys
      → ((i : ℕ) → i < length xs → get_or xs i d ≡ get_or ys i d)
      → xs ≡ ys
  list-ext [] [] d e h = refl
  list-ext [] (y ∷ ys) d e h = absurd (omega arith)
  list-ext (x ∷ xs) [] d e h = absurd (omega arith)
  list-ext (x ∷ xs) (y ∷ ys) d e h =
      ap₂ ◌∷◌ (h 0 (omega arith)) (list-ext xs ys d (omega arith) (λ i lt. h (suc i) (omega arith)))

  pub get_or-table : (n : ℕ) (f : ℕ → A) (i : ℕ) (d : A) → i < n → get_or (table n f) i d ≡ f i
  get_or-table zero f i d h = absurd (omega arith)
  get_or-table (suc n) f zero d h = refl
  get_or-table (suc n) f (suc i) d h = get_or-table n (λ k. f (suc k)) i d (omega arith)
