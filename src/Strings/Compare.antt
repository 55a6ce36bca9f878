-- ===== src/Strings/Compare.antt =====
-- What `module_rstrncmp` of datastruct/module_string.c tells of two blocks.
use utils_modules.Base.{
  ℕ, zero, suc, ◌-◌, ◌≤◌, ◌<◌, ◌≡◌, refl, sym, ap, ap₂, ◌∙◌, ◌↔◌, arith, List, [], ◌∷◌, ◌++◌, some,
  length, take, ◌==◌, if◌then◌else◌, Bool, true, false, length-take, length-append, inl, inr,
  Bool-cases, get_elem?, ==_iff, some-injective,
}
use utils_modules.Base.Int.{ℤ, pos, sub_ℕ}
use mathlib.Core.List.{reverse, reverse-append, reverse-reverse, reverse-cons}
use utils_modules.Strings.{compare_loop, rstrncmp}

-- The difference of the first bytes that differ.
abbrev pub difference : List ℕ → List ℕ → ℤ
difference [] ys = pos 0
difference (x ∷ xs) [] = pos 0
difference (x ∷ xs) (y ∷ ys) = if x == y then difference xs ys else sub_ℕ x y

difference_self : (xs : List ℕ) → difference xs xs ≡ pos 0
difference_self [] = refl
difference_self (x ∷ xs) = let same : (x == x) ≡ true = ground arith in rw same (difference_self xs)

sub_ℕ-ne : (x y : ℕ) → (x == y) ≡ false → sub_ℕ x y ≡ pos 0 → ⊥
sub_ℕ-ne x y other e = ground arith

difference-eq : (xs ys : List ℕ) → length xs ≡ length ys → difference xs ys ≡ pos 0 → xs ≡ ys
difference-eq [] [] l e = refl
difference-eq [] (y ∷ ys) l e = absurd (omega arith)
difference-eq (x ∷ xs) [] l e = absurd (omega arith)
difference-eq (x ∷ xs) (y ∷ ys) l e = elim (Bool-cases (x == y)) [
  | inl same ↦
      ap₂ (λ z zs. z ∷ zs) ((==_iff x y).0 same) (difference-eq xs ys (omega arith) (rw same at e))
  | inr other ↦ absurd (sub_ℕ-ne x y other (rw other at e))
]

-- A byte of a block.
get_elem?-in : (xs : List ℕ) (i : ℕ) → i < length xs → (x : ℕ) × (get_elem? xs i ≡ some x)
get_elem?-in [] i h = absurd (omega arith)
get_elem?-in (x ∷ xs) zero h = (x, refl)
get_elem?-in (x ∷ xs) (suc i) h = get_elem?-in xs i (omega arith)

take-suc :
    (xs : List ℕ) (i x : ℕ) → get_elem? xs i ≡ some x → take (suc i) xs ≡ take i xs ++ (x ∷ [])
take-suc [] i x e = absurd (cc)
take-suc (y ∷ xs) zero x e = ap (λ z. z ∷ []) (some-injective e)
take-suc (y ∷ xs) (suc i) x e = ap (λ t. y ∷ t) (take-suc xs i x e)

reverse-take :
    (xs : List ℕ) (i x : ℕ)
    → get_elem? xs i ≡ some x
    → reverse (take (suc i) xs) ≡ x ∷ reverse (take i xs)
reverse-take xs i x e = ap reverse (take-suc xs i x e) ∙ reverse-append (take i xs) (x ∷ [])

some_if : (b : Bool) (x y : ℤ) → (if b then some x else some y) ≡ some (if b then x else y)
some_if true x y = refl
some_if false x y = refl

compare_loop_lem :
    (n : ℕ) (s1 s2 : List ℕ)
    → n < length s1
    → n < length s2
    → compare_loop n s1 s2
      ≡ some (difference (reverse (take (suc n) s1)) (reverse (take (suc n) s2)))
unfolding compare_loop
compare_loop_lem zero s1 s2 h k =
    let (c1, e1) = get_elem?-in s1 0 h in
    let (c2, e2) = get_elem?-in s2 0 k in
    rw e1
      (rw e2 (rw (reverse-take s1 0 c1 e1) (rw (reverse-take s2 0 c2 e2) (some_if (c1 == c2) _ _))))
compare_loop_lem (suc n) s1 s2 h k =
    let (c1, e1) = get_elem?-in s1 (suc n) h in
    let (c2, e2) = get_elem?-in s2 (suc n) k in
    rw e1 (
      rw e2 (
        rw (reverse-take s1 (suc n) c1 e1) (
          rw (reverse-take s2 (suc n) c2 e2)
            (rw (compare_loop_lem n s1 s2 (omega arith) (omega arith)) (some_if (c1 == c2) _ _)))))

rstrncmp_value :
    (n : ℕ) (s1 s2 : List ℕ)
    → n ≤ length s1
    → n ≤ length s2
    → rstrncmp s1 s2 n ≡ some (difference (reverse (take n s1)) (reverse (take n s2)))
unfolding rstrncmp
rstrncmp_value zero s1 s2 h k = refl
rstrncmp_value (suc n) s1 s2 h k =
    let some_left : (suc n == 0) ≡ false = ground arith in
    let one_less : suc n - 1 ≡ n = omega arith in
    rw some_left (rw one_less (compare_loop_lem n s1 s2 (omega arith) (omega arith)))

reverse-injective : (xs ys : List ℕ) → reverse xs ≡ reverse ys → xs ≡ ys
reverse-injective xs ys e = sym (reverse-reverse xs) ∙ (ap reverse e ∙ reverse-reverse ys)

length-reverse : (xs : List ℕ) → length (reverse xs) ≡ length xs
length-reverse [] = refl
length-reverse (x ∷ xs) =
    omega
      (arith, ap length (reverse-cons x xs), length-append (reverse xs) (x ∷ []), length-reverse xs)

-- `module_rstrncmp` of two blocks of at least `n` bytes gives the difference of the last bytes of the
-- first `n` that differ, and 0 exactly when the first `n` are the same.
pub rstrncmp_lem :
    (s1 s2 : List ℕ) (n : ℕ)
    → n ≤ length s1
    → n ≤ length s2
    → (rstrncmp s1 s2 n ≡ some (difference (reverse (take n s1)) (reverse (take n s2))))
      × ((rstrncmp s1 s2 n ≡ some (pos 0)) ↔ (take n s1 ≡ take n s2))
rstrncmp_lem s1 s2 n h k =
    let value = rstrncmp_value n s1 s2 h k in
    let same_length : length (take n s1) ≡ length (take n s2) =
      omega (arith, length-take n s1, length-take n s2) in
    (
      value,
      (
        λ e. reverse-injective (take n s1) (take n s2) (
            difference-eq (reverse (take n s1)) (reverse (take n s2))
              (length-reverse (take n s1) ∙ (same_length ∙ sym (length-reverse (take n s2))))
              (some-injective (sym value ∙ e))),
        λ e.
            value
            ∙ ap some (
                ap (λ t. difference (reverse (take n s1)) (reverse t)) (sym e)
                ∙ difference_self (reverse (take n s1))),
      ),
    )
