-- ===== src/Sort/Quick.antt =====
-- What the quick sort of datastruct/sort.c leaves in the array.
use utils_modules.Base.{
  ℕ, zero, suc, ◌+◌, ◌-◌, ◌≤◌, ◌<◌, ◌≡◌, inl, inr, sym, ap, ◌∙◌, arith, List, [], ◌∷◌, length,
  get_or, Bool-cases, subst, ltb, ℕ_discrete, dec_lt, All,
}
use utils_modules.Sort.{adjust_array, quick_sort_part, quick_sort}
use utils_modules.Sort.Bubble.{IsSorted, count}
use utils_modules.Sort.Rearrange.{Rearranged, Rearranged-refl, Rearranged-trans, Rearranged-wider}
use utils_modules.Sort.Partition.{Parted, adjust_array-Parted}

-- In order within [left, past).
abbrev Ordered : ℕ → ℕ → List ℕ → Type 0
Ordered left past a = (k : ℕ) → left ≤ k → suc k < past → get_or a k 0 ≤ get_or a (suc k) 0

-- Both sides of a parted array in order, one after the other.
join-Ordered :
    (left past i : ℕ) (a b c : List ℕ)
    → Parted left past (get_or a i 0) a i i
    → Rearranged left i a b
    → Ordered left i b
    → Rearranged (i + 1) past b c
    → Ordered (i + 1) past c
    → Ordered left past c
join-Ordered left past i a b c p r o s q k from to =
    let pivot : ℕ = get_or a i 0 in
    let lower : (k : ℕ) → left ≤ k → k < i → get_or c k 0 ≤ pivot = λ k g f.
      subst (λ n. n ≤ pivot) (sym (s.outside k (inl (omega arith))))
        (r.inside (λ n. n ≤ pivot) p.lower k g f) in
    let upper : (k : ℕ) → i < k → k < past → pivot ≤ get_or c k 0 = λ k g f.
      s.inside (λ n. pivot ≤ n)
        (λ k' g' f'.
          subst (λ n. pivot ≤ n) (sym (r.outside k' (inr (omega arith))))
            (p.upper k' (omega arith) f'))
        k (omega arith) f in
    let middle : get_or c i 0 ≡ pivot =
      s.outside i (inl (omega arith)) ∙ r.outside i (inr (omega arith)) in
    elim (dec_lt (suc k) i) [
      | yes both_low ↦
          let first : get_or c k 0 ≡ get_or b k 0 = s.outside k (inl (omega arith)) in
          let second : get_or c (suc k) 0 ≡ get_or b (suc k) 0 =
            s.outside (suc k) (inl (omega arith)) in
          omega (arith, first, second, o k from both_low)
      | no at_least ↦ elim (dec_lt i k) [
        | yes both_high ↦ q k (omega arith) to
        | no at_most ↦ elim (ℕ_discrete k i) [
          | yes e ↦
              let at_pivot : get_or c k 0 ≡ pivot = ap (λ n. get_or c n 0) e ∙ middle in
              omega (arith, at_pivot, upper (suc k) (omega arith) to)
          | no other ↦
              let next_pivot : get_or c (suc k) 0 ≡ pivot =
                let e : suc k ≡ i = omega (arith, other) in ap (λ n. get_or c n 0) e ∙ middle in
              omega (arith, next_pivot, lower k from (omega (arith, other)))
        ]
      ]
    ]

quick_sort_part-Ordered :
    (fuel : ℕ) (a : List ℕ) (left past : ℕ)
    → past ≤ length a
    → past ≤ left + fuel
    → (let b = quick_sort_part fuel a left past in Rearranged left past a b × Ordered left past b)
unfolding quick_sort_part
quick_sort_part-Ordered zero a left past w h =
    (Rearranged-refl left past a, λ k g f. absurd (omega arith))
quick_sort_part-Ordered (suc fuel) a left past w h = elim (Bool-cases (ltb (left + 1) past)) [
  | inl on ↦
      let two : left + 1 < past = ground arith in
      let parts : List ℕ × ℕ = adjust_array a left (past - 1) in
      let i : ℕ = parts.1 in
      let (p, r) = adjust_array-Parted a left past two w in
      let a' : List ℕ = quick_sort_part fuel (parts.0) left i in
      let (r1, o1) =
        quick_sort_part-Ordered fuel (parts.0) left i (omega (arith, r.long, p.last))
          (omega (arith, p.last)) in
      let (r2, o2) =
        quick_sort_part-Ordered fuel a' (i + 1) past (omega (arith, r.long, r1.long))
          (omega (arith, p.first)) in
      let b : List ℕ = quick_sort_part fuel a' (i + 1) past in
      rw on (
        Rearranged-trans left past a (parts.0) b r (
            Rearranged-trans left past (parts.0) a' b
              (Rearranged-wider left past left i (parts.0) a' (omega arith) (omega (arith, p.last))
                r1)
              (Rearranged-wider left past (i + 1) past a' b (omega (arith, p.first)) (omega arith)
                r2)),
        join-Ordered left past i (parts.0) a' b p r1 o1 r2 o2,
      )
  | inr one ↦ rw one (
    Rearranged-refl left past a,
    λ k g f. absurd (let few : past ≤ left + 1 = ground arith in omega arith),
  )
]

Ordered-least :
    (x b : ℕ) (xs : List ℕ)
    → b ≤ x
    → ((k : ℕ) → suc k < suc (length xs) → get_or (x ∷ xs) k 0 ≤ get_or (x ∷ xs) (suc k) 0)
    → All (λ y. b ≤ y) xs
Ordered-least x b [] h o = tt
Ordered-least x b (y ∷ ys) h o =
    let next : x ≤ y = o 0 (omega arith) in
    (omega arith, Ordered-least y b ys (omega arith) (λ k g. o (suc k) (omega arith)))

Ordered-IsSorted : (a : List ℕ) → Ordered 0 (length a) a → IsSorted a
Ordered-IsSorted [] o = tt
Ordered-IsSorted (x ∷ xs) o = (
  Ordered-least x x xs (omega arith) (λ k g. o k (omega arith) g),
  Ordered-IsSorted xs (λ k g f. o (suc k) (omega arith) (omega arith)),
)

-- `quick_sort` of an array with its length gives the same numbers, each as often, in order.
pub quick_sort_lem :
    (a : List ℕ) (n : ℕ)
    → n ≡ length a
    → IsSorted (quick_sort a n) × ((v : ℕ) → count v (quick_sort a n) ≡ count v a)
unfolding quick_sort
quick_sort_lem a n e =
    let (r, o) = quick_sort_part-Ordered n a 0 n (omega arith) (omega arith) in
    (
      Ordered-IsSorted (quick_sort_part n a 0 n)
          (subst (λ m. Ordered 0 m (quick_sort_part n a 0 n)) (e ∙ sym r.long) o),
      r.same,
    )
