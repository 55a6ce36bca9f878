-- ===== src/Sort/Bubble.antt =====
-- The order of what `bubble_sort` leaves, and how often each number stands in it.
use utils_modules.Base.{
  ℕ, zero, suc, ◌+◌, ◌-◌, ◌≤◌, ◌≡◌, refl, sym, ap, ◌∙◌, arith, List, [], ◌∷◌, ◌++◌, append-nil, All,
  length, ltb, ◌==◌, if◌then◌else◌,
}
use utils_modules.Sort.{bubble_pass, bubble_rounds, bubble_sort}

abbrev pub IsSorted : List ℕ → Type 0
IsSorted [] = Unit {0}
IsSorted (x ∷ xs) = All (λ y. x ≤ y) xs × IsSorted xs

-- How often a number stands in a list.
abbrev pub count : ℕ → List ℕ → ℕ
count v [] = 0
count v (x ∷ xs) = (if x == v then 1 else 0) + count v xs

pub count-append : (v : ℕ) (xs ys : List ℕ) → count v (xs ++ ys) ≡ count v xs + count v ys
count-append v [] ys = omega arith
count-append v (x ∷ xs) ys = omega (arith, count-append v xs ys)

-- A pass moves a largest number to the end of the part that it goes through.
record Passed (x : ℕ) (ys back : List ℕ) (r : List ℕ) : Type 0 where
  front : List ℕ
  top : ℕ
  split : r ≡ front ++ (top ∷ back)
  long : length front ≡ length ys
  largest : All (λ z. z ≤ top) front
  first : x ≤ top
  bounded : (b : ℕ) → All (λ z. z ≤ b) (x ∷ ys) → All (λ z. z ≤ b) front × (top ≤ b)
  same : (v : ℕ) → count v (front ++ (top ∷ [])) ≡ count v (x ∷ ys)

bubble_pass-Passed :
    (m x : ℕ) (ys back : List ℕ)
    → length ys ≡ m
    → Passed x ys back (bubble_pass m (x ∷ (ys ++ back)))
unfolding bubble_pass
bubble_pass-Passed zero x [] back e = record {
  front = [];
  top = x;
  split = refl;
  long = refl;
  largest = tt;
  first = omega arith;
  bounded = λ b h. (tt, h.0);
  same = λ v. refl;
}
bubble_pass-Passed zero x (y ∷ ys) back e = absurd (omega arith)
bubble_pass-Passed (suc m) x [] back e = absurd (omega arith)
bubble_pass-Passed (suc m) x (y ∷ ys) back e =
    let p = bubble_pass-Passed m (if ltb y x then x else y) ys back (omega arith) in
    record {
      front = (if ltb y x then y else x) ∷ p.front;
      top = p.top;
      split = ap (λ t. (if ltb y x then y else x) ∷ t) p.split;
      long = ap suc p.long;
      largest = (ground (arith, p.first), p.largest);
      first = ground (arith, p.first);
      bounded = λ b h.
          let (below, last) = p.bounded b (ground (arith, h.0, h.1.0), h.1.1) in
          ((ground (arith, h.0, h.1.0), below), last);
      same = λ v. ground (arith, p.same v);
    }

-- Every number of the one list is at most every number of the other.
abbrev Below : List ℕ → List ℕ → Type 0
Below xs [] = Unit {0}
Below xs (b ∷ bs) = All (λ x. x ≤ b) xs × Below xs bs

Below-Passed :
    (x : ℕ) (ys back r bs : List ℕ) (p : Passed x ys back r)
    → Below (x ∷ ys) bs
    → Below p.front bs × All (λ b. p.top ≤ b) bs
Below-Passed x ys back r [] p h = (tt, tt)
Below-Passed x ys back r (b ∷ bs) p (h, hs) =
    let (below, last) = p.bounded b h in
    let (belows, lasts) = Below-Passed x ys back r bs p hs in ((below, belows), (last, lasts))

Below-single : (x : ℕ) (bs : List ℕ) → Below (x ∷ []) bs → All (λ y. x ≤ y) bs
Below-single x [] h = tt
Below-single x (b ∷ bs) (h, hs) = (h.0, Below-single x bs hs)

-- The rounds, with the sorted part at the back.
bubble_rounds-IsSorted :
    (k : ℕ) (xs front back : List ℕ)
    → xs ≡ front ++ back
    → length front ≡ suc k
    → IsSorted back
    → Below front back
    → IsSorted (bubble_rounds k xs)
unfolding bubble_rounds
bubble_rounds-IsSorted k xs [] back e l s b = absurd (omega arith)
bubble_rounds-IsSorted zero xs (x ∷ []) back e l s b = rw e (Below-single x back b, s)
bubble_rounds-IsSorted zero xs (x ∷ y ∷ ys) back e l s b = absurd (omega arith)
bubble_rounds-IsSorted (suc k) xs (x ∷ ys) back e l s b =
    let p = bubble_pass-Passed (suc k) x ys back (omega arith) in
    let (below, last) = Below-Passed x ys back (bubble_pass (suc k) (x ∷ (ys ++ back))) back p b in
    rw e (
      bubble_rounds-IsSorted k (bubble_pass (suc k) (x ∷ (ys ++ back))) p.front (p.top ∷ back)
        p.split (omega (arith, p.long)) (last, s) (p.largest, below))

Passed-count :
    (x : ℕ) (ys back r : List ℕ) (v : ℕ)
    → Passed x ys back r
    → count v r ≡ count v (x ∷ (ys ++ back))
Passed-count x ys back r v p = omega (
  arith,
  ap (count v) p.split,
  count-append v p.front (p.top ∷ back),
  count-append v p.front (p.top ∷ []),
  p.same v,
  count-append v ys back,
)

bubble_rounds-count :
    (k : ℕ) (xs front back : List ℕ) (v : ℕ)
    → xs ≡ front ++ back
    → length front ≡ suc k
    → count v (bubble_rounds k xs) ≡ count v xs
unfolding bubble_rounds
bubble_rounds-count k xs [] back v e l = absurd (omega arith)
bubble_rounds-count zero xs (x ∷ ys) back v e l = refl
bubble_rounds-count (suc k) xs (x ∷ ys) back v e l =
    let p = bubble_pass-Passed (suc k) x ys back (omega arith) in
    let rest =
      bubble_rounds-count k (bubble_pass (suc k) (x ∷ (ys ++ back))) p.front (p.top ∷ back) v
        p.split (omega (arith, p.long)) in
    rw e (rest ∙ Passed-count x ys back _ v p)

-- `bubble_sort` of an array with its length gives the same numbers, each as often, in order.
pub bubble_sort_lem :
    (a : List ℕ) (n : ℕ)
    → n ≡ length a
    → IsSorted (bubble_sort a n) × ((v : ℕ) → count v (bubble_sort a n) ≡ count v a)
unfolding bubble_sort bubble_rounds
bubble_sort_lem [] n e = let none_left : n - 1 ≡ 0 = omega arith in rw none_left (tt, λ v. refl)
bubble_sort_lem (x ∷ xs) n e =
    let whole : x ∷ xs ≡ (x ∷ xs) ++ [] = sym (append-nil (x ∷ xs)) in
    (
      bubble_rounds-IsSorted (n - 1) (x ∷ xs) (x ∷ xs) [] whole (omega arith) tt tt,
      λ v. bubble_rounds-count (n - 1) (x ∷ xs) (x ∷ xs) [] v whole (omega arith),
    )
