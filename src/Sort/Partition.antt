-- ===== src/Sort/Partition.antt =====
-- `adjust_array` of datastruct/sort.c parts a piece of the array at the number that stood first.
use utils_modules.Base.{
  ℕ, zero, suc, ◌+◌, ◌-◌, ◌≤◌, ◌<◌, ◌≡◌, inl, inr, refl, sym, ap, ◌∙◌, arith, List, length, get_or,
  set, length-set, if◌then◌else◌, Bool-cases, subst, ltb, ℕ_discrete, dec_lt,
}
use utils_modules.Sort.{scan_down, scan_up, adjust_loop, adjust_array}
use utils_modules.Sort.Scan.{Down, Up, scan_down-Down, scan_up-Up}
use utils_modules.Sort.Rearrange.{
  Rearranged, Rearranged-refl, Rearranged-trans, move-Rearranged, get_or-set_self, get_or-set_other,
  set_same,
}

-- In [left, past), below `i` are numbers of at most `tmp`, and above `j` of at least `tmp`.
pub record Parted (left past tmp : ℕ) (a : List ℕ) (i j : ℕ) : Type 0 where
  pub first : left ≤ i
  pub meet : i ≤ j
  pub last : j < past
  pub lower : (k : ℕ) → left ≤ k → k < i → get_or a k 0 ≤ tmp
  pub upper : (k : ℕ) → j < k → k < past → tmp ≤ get_or a k 0

-- What half a round does: the free place goes from `i` to `h`.
record Half (left past tmp : ℕ) (a : List ℕ) (h : ℕ) (a' : List ℕ) (i' j' h' : ℕ) : Type 1 where
  parted : Parted left past tmp a' i' j'
  moved : Rearranged left past (set a h tmp) (set a' h' tmp)
  long : length a' ≡ length a

module _ (left past tmp : ℕ) where
  -- What is above the place where `j` stops.
  upper_of :
      (a : List ℕ) (i j j1 : ℕ)
      → Parted left past tmp a i j
      → Down a tmp i j j1
      → (k : ℕ) → j1 < k
      → k < past
      → tmp ≤ get_or a k 0
  upper_of a i j j1 p d k g f = elim (dec_lt j k) [
    | yes o ↦ p.upper k o f
    | no o ↦ d.above k g (omega (arith, o))
  ]

  -- What is below the place where `i` stops.
  lower_of :
      (a : List ℕ) (i j i2 : ℕ)
      → Parted left past tmp a i j
      → Up a tmp i j i2
      → (k : ℕ) → left ≤ k
      → k < i2
      → get_or a k 0 ≤ tmp
  lower_of a i j i2 p u k g f = elim (dec_lt k i) [
    | yes o ↦ p.lower k g o
    | no o ↦ let small = u.below k (omega (arith, o)) f in omega (arith, small)
  ]

  from_right :
      (a : List ℕ) (i j j1 : ℕ)
      → past ≤ length a
      → Parted left past tmp a i j
      → Down a tmp i j j1
      → Half left past tmp a i
          (if ltb i j1 then set a i (get_or a j1 0) else a)
          (if ltb i j1 then i + 1 else i)
          j1
          j1
  from_right a i j j1 w p d = elim (Bool-cases (ltb i j1)) [
    | inl on ↦
        let apart : i < j1 = ground arith in
        let moved : List ℕ = set a i (get_or a j1 0) in
        rw on record {
          parted = record {
            first = omega (arith, p.first);
            meet = omega arith;
            last = omega (arith, d.most, p.last);
            lower = λ k g f. elim (ℕ_discrete k i) [
              | yes e ↦
                  subst (λ n. n ≤ tmp)
                    (sym (
                      ap (λ n. get_or moved n 0) e
                      ∙ get_or-set_self a i (get_or a j1 0) (omega (arith, p.last, p.meet))))
                    (omega (arith, d.smaller apart))
              | no other ↦
                  subst (λ n. n ≤ tmp) (sym (get_or-set_other a i k (get_or a j1 0) other))
                    (p.lower k g (omega (arith, other)))
            ];
            upper = λ k g f.
                subst (λ n. tmp ≤ n)
                  (sym (get_or-set_other a i k (get_or a j1 0) (λ e. omega arith)))
                  (upper_of a i j j1 p d k g f);
          };
          moved =
              move-Rearranged left past a i j1 tmp p.first (omega (arith, p.meet, p.last))
                (omega (arith, p.first)) (omega (arith, d.most, p.last)) w (λ e. omega arith);
          long = length-set a i (get_or a j1 0);
        }
    | inr stop ↦
        let same : j1 ≡ i = ground (arith, d.least, stop) in
        rw stop record {
          parted = record {
            first = p.first;
            meet = d.least;
            last = omega (arith, d.most, p.last);
            lower = p.lower;
            upper = upper_of a i j j1 p d;
          };
          moved =
              subst (λ n. Rearranged left past (set a i tmp) (set a n tmp)) (sym same)
                (Rearranged-refl left past (set a i tmp));
          long = refl;
        }
  ]

  from_left :
      (a : List ℕ) (i j i2 : ℕ)
      → past ≤ length a
      → Parted left past tmp a i j
      → Up a tmp i j i2
      → Half left past tmp a j
          (if ltb i2 j then set a j (get_or a i2 0) else a)
          i2
          (if ltb i2 j then j - 1 else j)
          i2
  from_left a i j i2 w p u = elim (Bool-cases (ltb i2 j)) [
    | inl on ↦
        let apart : i2 < j = ground arith in
        let moved : List ℕ = set a j (get_or a i2 0) in
        rw on record {
          parted = record {
            first = omega (arith, p.first, u.least);
            meet = omega arith;
            last = omega (arith, p.last);
            lower = λ k g f.
                subst (λ n. n ≤ tmp)
                  (sym (get_or-set_other a j k (get_or a i2 0) (λ e. omega arith)))
                  (lower_of a i j i2 p u k g f);
            upper = λ k g f. elim (ℕ_discrete k j) [
              | yes e ↦
                  subst (λ n. tmp ≤ n)
                    (sym (
                      ap (λ n. get_or moved n 0) e
                      ∙ get_or-set_self a j (get_or a i2 0) (omega (arith, p.last))))
                    (u.larger apart)
              | no other ↦
                  subst (λ n. tmp ≤ n) (sym (get_or-set_other a j k (get_or a i2 0) other))
                    (p.upper k (omega (arith, other)) f)
            ];
          };
          moved =
              move-Rearranged left past a j i2 tmp (omega (arith, p.first, p.meet)) p.last
                (omega (arith, p.first, u.least)) (omega (arith, p.last)) w (λ e. omega arith);
          long = length-set a j (get_or a i2 0);
        }
    | inr stop ↦
        let same : i2 ≡ j = ground (arith, u.most, stop) in
        rw stop record {
          parted = record {
            first = omega (arith, p.first, u.least);
            meet = u.most;
            last = p.last;
            lower = lower_of a i j i2 p u;
            upper = p.upper;
          };
          moved =
              subst (λ n. Rearranged left past (set a j tmp) (set a n tmp)) (sym same)
                (Rearranged-refl left past (set a j tmp));
          long = refl;
        }
  ]

  met-Half :
      (a : List ℕ) (i j : ℕ) → j ≤ i → Parted left past tmp a i j → Half left past tmp a i a i i i
  met-Half a i j h p =
      let same : j ≡ i = omega (arith, p.meet) in
      record {
        parted = subst (λ n. Parted left past tmp a i n) same p;
        moved = Rearranged-refl left past (set a i tmp);
        long = refl;
      }

  adjust_loop-Half :
      (fuel : ℕ) (a : List ℕ) (i j : ℕ)
      → past ≤ length a
      → j ≤ i + fuel
      → Parted left past tmp a i j
      → (let r = adjust_loop fuel a tmp i j in Half left past tmp a i (r.0) (r.1) (r.1) (r.1))
  unfolding adjust_loop
  adjust_loop-Half zero a i j w h p = met-Half a i j (omega arith) p
  adjust_loop-Half (suc fuel) a i j w h p = elim (Bool-cases (ltb i j)) [
    | inl on ↦
        let j1 : ℕ = scan_down a tmp i j in
        let d = scan_down-Down a tmp i j p.meet in
        let first = from_right a i j j1 w p d in
        let a1 : List ℕ = if ltb i j1 then set a i (get_or a j1 0) else a in
        let i1 : ℕ = if ltb i j1 then i + 1 else i in
        let i2 : ℕ = scan_up a1 tmp (j1 - i1) i1 in
        let u = scan_up-Up a1 tmp (j1 - i1) i1 j1 (omega (arith, first.parted.meet)) in
        let second = from_left a1 i1 j1 i2 (omega (arith, first.long)) first.parted u in
        let a2 : List ℕ = if ltb i2 j1 then set a1 j1 (get_or a1 i2 0) else a1 in
        let j2 : ℕ = if ltb i2 j1 then j1 - 1 else j1 in
        let closer : j2 ≤ i2 + fuel = ground (arith, on, d.least, d.most, u.least) in
        let rest =
          adjust_loop-Half fuel a2 i2 j2 (omega (arith, first.long, second.long)) closer
            second.parted in
        rw on record {
          parted = rest.parted;
          moved =
              Rearranged-trans left past _ _ _ first.moved
                (Rearranged-trans left past _ _ _ second.moved rest.moved);
          long = rest.long ∙ (second.long ∙ first.long);
        }
    | inr stop ↦ rw stop (met-Half a i j (ground arith) p)
  ]

-- `adjust_array` of a part of two numbers or more: the numbers of the part change places only, and the
-- one that stood first then parts the smaller from the larger.
pub adjust_array-Parted :
    (a : List ℕ) (left past : ℕ)
    → left + 1 < past
    → past ≤ length a
    → (let r = adjust_array a left (past - 1) in
        Parted left past (get_or (r.0) (r.1) 0) (r.0) (r.1) (r.1) × Rearranged left past a (r.0))
unfolding adjust_array
adjust_array-Parted a left past h w =
    let tmp : ℕ = get_or a left 0 in
    let r : List ℕ × ℕ = adjust_loop (past - 1 - left) a tmp left (past - 1) in
    let start : Parted left past tmp a left (past - 1) = record {
      first = omega arith;
      meet = omega arith;
      last = omega arith;
      lower = λ k g f. absurd (omega arith);
      upper = λ k g f. absurd (omega arith);
    } in
    let half =
      adjust_loop-Half left past tmp (past - 1 - left) a left (past - 1) w (omega arith) start in
    let p = half.parted in
    let pivot : get_or (set (r.0) (r.1) tmp) (r.1) 0 ≡ tmp =
      get_or-set_self (r.0) (r.1) tmp (omega (arith, half.long, p.last)) in
    (
      rw pivot record {
        first = p.first;
        meet = omega arith;
        last = p.last;
        lower = λ k g f.
            subst (λ n. n ≤ tmp) (sym (get_or-set_other (r.0) (r.1) k tmp (λ e. omega arith)))
              (p.lower k g f);
        upper = λ k g f.
            subst (λ n. tmp ≤ n) (sym (get_or-set_other (r.0) (r.1) k tmp (λ e. omega arith)))
              (p.upper k g f);
      },
      subst (λ b. Rearranged left past b (set (r.0) (r.1) tmp)) (set_same a left) half.moved,
    )
