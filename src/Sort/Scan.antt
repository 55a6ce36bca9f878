-- ===== src/Sort/Scan.antt =====
-- The two inner loops of `adjust_array` of datastruct/sort.c: where they stop.
use utils_modules.Base.{
  ℕ, zero, suc, ◌+◌, ◌≤◌, ◌<◌, ◌≡◌, inl, inr, sym, arith, List, get_or, Bool-cases, subst, ltb, leb,
  ◌&&◌, ℕ_discrete,
}
use utils_modules.Sort.{scan_down, scan_up}

-- Where `j` stops: above it are numbers of at least `tmp`, at it a smaller one, unless it meets `i`.
pub record Down (a : List ℕ) (tmp i j : ℕ) (j' : ℕ) : Type 0 where
  pub least : i ≤ j'
  pub most : j' ≤ j
  pub above : (k : ℕ) → j' < k → k ≤ j → tmp ≤ get_or a k 0
  pub smaller : i < j' → get_or a j' 0 < tmp

pub scan_down-Down : (a : List ℕ) (tmp i j : ℕ) → i ≤ j → Down a tmp i j (scan_down a tmp i j)
unfolding scan_down
scan_down-Down a tmp i zero h = record {
  least = h;
  most = omega arith;
  above = λ k g f. absurd (omega arith);
  smaller = λ g. absurd (omega arith);
}
scan_down-Down a tmp i (suc j) h =
    elim (Bool-cases (ltb i (suc j) && leb tmp (get_or a (suc j) 0))) [
      | inl on ↦
          let before : i ≤ j = ground arith in
          let large : tmp ≤ get_or a (suc j) 0 = ground arith in
          let rest = scan_down-Down a tmp i j before in
          rw on record {
            least = rest.least;
            most = omega (arith, rest.most);
            above = λ k g f. elim (ℕ_discrete k (suc j)) [
              | yes e ↦ subst (λ n. tmp ≤ get_or a n 0) (sym e) large
              | no other ↦ rest.above k g (omega (arith, other))
            ];
            smaller = rest.smaller;
          }
      | inr stop ↦ rw stop record {
        least = h;
        most = omega arith;
        above = λ k g f. absurd (omega arith);
        smaller = λ g. ground (arith, stop, g);
      }
    ]

-- Where `i` stops: below it are numbers smaller than `tmp`, at it one of at least `tmp`, unless it
-- meets `j`.
pub record Up (a : List ℕ) (tmp i j : ℕ) (i' : ℕ) : Type 0 where
  pub least : i ≤ i'
  pub most : i' ≤ j
  pub below : (k : ℕ) → i ≤ k → k < i' → get_or a k 0 < tmp
  pub larger : i' < j → tmp ≤ get_or a i' 0

pub scan_up-Up : (a : List ℕ) (tmp n i j : ℕ) → j ≡ i + n → Up a tmp i j (scan_up a tmp n i)
unfolding scan_up
scan_up-Up a tmp zero i j e = record {
  least = omega arith;
  most = omega arith;
  below = λ k g f. absurd (omega arith);
  larger = λ g. absurd (omega arith);
}
scan_up-Up a tmp (suc n) i j e = elim (Bool-cases (ltb (get_or a i 0) tmp)) [
  | inl on ↦
      let small : get_or a i 0 < tmp = ground arith in
      let rest = scan_up-Up a tmp n (i + 1) j (omega arith) in
      rw on record {
        least = omega (arith, rest.least);
        most = rest.most;
        below = λ k g f. elim (ℕ_discrete k i) [
          | yes e ↦ subst (λ n. get_or a n 0 < tmp) (sym e) small
          | no other ↦ rest.below k (omega (arith, other)) f
        ];
        larger = rest.larger;
      }
  | inr stop ↦ rw stop record {
    least = omega arith;
    most = omega arith;
    below = λ k g f. absurd (omega arith);
    larger = λ g. ground (arith, stop);
  }
]
