-- ===== src/Sort/Rearrange.antt =====
-- Arrays whose numbers are the same but for their order in one part: what the quick sort of
-- datastruct/sort.c keeps.
use utils_modules.Base.{
  ℕ, zero, suc, ◌+◌, ◌≤◌, ◌<◌, ◌≡◌, ◌⊎◌, inl, inr, refl, sym, ap, ◌∙◌, arith, List, [], ◌∷◌, length,
  get_or, set, length-set, ◌==◌, if◌then◌else◌, subst, ℕ_discrete,
}
use utils_modules.Sort.Bubble.{count}

pub get_or-set_self : (a : List ℕ) (i v : ℕ) → i < length a → get_or (set a i v) i 0 ≡ v
get_or-set_self [] i v h = absurd (omega arith)
get_or-set_self (x ∷ a) zero v h = refl
get_or-set_self (x ∷ a) (suc i) v h = get_or-set_self a i v (omega arith)

pub get_or-set_other : (a : List ℕ) (i k v : ℕ) → ¬ (k ≡ i) → get_or (set a i v) k 0 ≡ get_or a k 0
get_or-set_other [] i k v h = refl
get_or-set_other (x ∷ a) zero zero v h = absurd (h refl)
get_or-set_other (x ∷ a) zero (suc k) v h = refl
get_or-set_other (x ∷ a) (suc i) zero v h = refl
get_or-set_other (x ∷ a) (suc i) (suc k) v h = get_or-set_other a i k v (λ e. h (ap suc e))

pub set_same : (a : List ℕ) (i : ℕ) → set a i (get_or a i 0) ≡ a
set_same [] i = refl
set_same (x ∷ a) zero = refl
set_same (x ∷ a) (suc i) = ap (λ t. x ∷ t) (set_same a i)

-- A write takes one number away and adds one.
pub count-set :
    (a : List ℕ) (i x v : ℕ)
    → i < length a
    → count v (set a i x) + (if get_or a i 0 == v then 1 else 0)
      ≡ count v a + (if x == v then 1 else 0)
count-set [] i x v h = absurd (omega arith)
count-set (y ∷ a) zero x v h = omega arith
count-set (y ∷ a) (suc i) x v h = omega (arith, count-set a i x v (omega arith))

-- From `a` to `b` numbers change places within [left, past).
pub record Rearranged (left past : ℕ) (a b : List ℕ) : Type 1 where
  pub long : length b ≡ length a
  pub same : (v : ℕ) → count v b ≡ count v a
  pub outside : (k : ℕ) → (k < left) ⊎ (past ≤ k) → get_or b k 0 ≡ get_or a k 0
  pub inside :
      (P : ℕ → Type 0)
      → ((k : ℕ) → left ≤ k → k < past → P (get_or a k 0))
      → (k : ℕ) → left ≤ k
      → k < past
      → P (get_or b k 0)

module _ (left past : ℕ) where
  pub Rearranged-refl : (a : List ℕ) → Rearranged left past a a
  Rearranged-refl a = record {
    long = refl;
    same = λ v. refl;
    outside = λ k h. refl;
    inside = λ P h. h;
  }

  pub Rearranged-trans :
      (a b c : List ℕ)
      → Rearranged left past a b
      → Rearranged left past b c
      → Rearranged left past a c
  Rearranged-trans a b c p q = record {
    long = q.long ∙ p.long;
    same = λ v. q.same v ∙ p.same v;
    outside = λ k h. q.outside k h ∙ p.outside k h;
    inside = λ P h. q.inside P (p.inside P h);
  }

  -- A part of the part.
  pub Rearranged-wider :
      (l p : ℕ) (a b : List ℕ) → left ≤ l → p ≤ past → Rearranged l p a b → Rearranged left past a b
  Rearranged-wider l p a b h g r = record {
    long = r.long;
    same = r.same;
    outside = λ k o. r.outside k (wider_outside k o);
    inside = λ P f k from to. elim (range_cases k) [
      | inl (i, j) ↦ r.inside P (λ k' s t. f k' (omega arith) (omega arith)) k i j
      | inr o ↦ subst P (sym (r.outside k o)) (f k from to)
    ];
  }
    where
      wider_outside : (k : ℕ) → (k < left) ⊎ (past ≤ k) → (k < l) ⊎ (p ≤ k)
      wider_outside k (inl o) = inl (omega arith)
      wider_outside k (inr o) = inr (omega arith)

      range_cases : (k : ℕ) → ((l ≤ k) × (k < p)) ⊎ ((k < l) ⊎ (p ≤ k))
      range_cases k = ground arith

apart : (left past k n : ℕ) → (k < left) ⊎ (past ≤ k) → left ≤ n → n < past → ¬ (k ≡ n)
apart left past k n (inl o) h g e = omega arith
apart left past k n (inr o) h g e = omega arith

-- A number `t` is put to the place `j` in place of `i`, where the number of `j` goes.
pub move-Rearranged :
    (left past : ℕ) (a : List ℕ) (i j t : ℕ)
    → left ≤ i
    → i < past
    → left ≤ j
    → j < past
    → past ≤ length a
    → ¬ (i ≡ j)
    → Rearranged left past (set a i t) (set (set a i (get_or a j 0)) j t)
move-Rearranged left past a i j t h g h' g' w other =
    let before : List ℕ = set a i t in
    let middle : List ℕ = set a i (get_or a j 0) in
    let after : List ℕ = set middle j t in
    let in_middle : j < length middle = omega (arith, length-set a i (get_or a j 0)) in
    let at_j : get_or middle j 0 ≡ get_or a j 0 =
      get_or-set_other a i j (get_or a j 0) (λ e. other (sym e)) in
    let at_i : get_or after i 0 ≡ get_or before j 0 =
      get_or-set_other middle j i t other
      ∙ (get_or-set_self a i (get_or a j 0) (omega arith)
          ∙ sym (get_or-set_other a i j t (λ e. other (sym e)))) in
    let at_end : get_or after j 0 ≡ get_or before i 0 =
      get_or-set_self middle j t in_middle ∙ sym (get_or-set_self a i t (omega arith)) in
    let elsewhere : (k : ℕ) → ¬ (k ≡ i) → ¬ (k ≡ j) → get_or after k 0 ≡ get_or before k 0 =
      λ k not_i not_j.
        get_or-set_other middle j k t not_j
        ∙ (get_or-set_other a i k (get_or a j 0) not_i ∙ sym (get_or-set_other a i k t not_i)) in
    record {
      long = length-set middle j t ∙ (length-set a i (get_or a j 0) ∙ sym (length-set a i t));
      same = λ v. omega (
        arith,
        count-set a i t v (omega arith),
        count-set a i (get_or a j 0) v (omega arith),
        count-set middle j t v in_middle,
        ap {B = ℕ} (λ z. if z == v then 1 else 0) at_j,
      );
      outside = λ k o. elsewhere k (apart left past k i o h g) (apart left past k j o h' g');
      inside = λ P f k from to. elim (ℕ_discrete k j) [
        | yes e ↦ subst P (sym (ap (λ n. get_or after n 0) e ∙ at_end)) (f i h g)
        | no not_j ↦ elim (ℕ_discrete k i) [
          | yes e ↦ subst P (sym (ap (λ n. get_or after n 0) e ∙ at_i)) (f j h' g')
          | no not_i ↦ subst P (sym (elsewhere k not_i not_j)) (f k from to)
        ]
      ];
    }
