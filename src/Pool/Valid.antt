-- ===== src/Pool/Valid.antt =====
-- The invariant of a pool over the memory that its factory has given out.
use utils_modules.Base.{
  ℕ, ◌+◌, ◌-◌, ◌%◌, ◌^◌, ◌≤◌, ◌≡◌, refl, ap, ◌∙◌, ◌≢◌, ◌⊎◌, inl, inr, arith, List, [], ◌∷◌, All,
}
use utils_modules.Pool.Factory.{Range, Apart}
use utils_modules.Pool.{Block, Pool, new_block, sizeof_pool}
use utils_modules.Pool.Used.{Clear, Separate, Spans, SameSpace}

-- The block lies in a live range.
abbrev pub OwnedBy : List Range → Block → Type 0
OwnedBy [] b = ⊥
OwnedBy (r ∷ rs) b = ((r.first ≤ b.base) × (b.end ≤ r.first + r.size)) ⊎ OwnedBy rs b

-- What the memory of the blocks sums to.
abbrev pub span_sum : List Block → ℕ
span_sum [] = 0
span_sum (b ∷ bs) = (b.end - b.base) + span_sum bs

pub record IsPool (live : List Range) (pool : Pool) : Type 0 where
  pub separate : Separate pool.blocks
  pub owned : All (OwnedBy live) pool.blocks
  pub present : pool.blocks ≢ []
  pub counted : pool.capacity ≡ (sizeof_pool + span_sum pool.blocks) % 2 ^ 64

clear_of_range :
    (r : Range) (rs : List Range) (b : Block)
    → All (Apart r) rs
    → OwnedBy rs b
    → (r.first + r.size ≤ b.base) ⊎ (b.end ≤ r.first)
clear_of_range r [] b h o = absurd o
clear_of_range r (q ∷ rs) b (inl h, hs) (inl o) = inl (omega arith)
clear_of_range r (q ∷ rs) b (inr h, hs) (inl o) = inr (omega arith)
clear_of_range r (q ∷ rs) b (_, hs) (inr o) = clear_of_range r rs b hs o

-- A block made of a new range is clear of the blocks in the live ones.
pub new_block-Clear :
    (base size : ℕ) (rs : List Range) (bs : List Block)
    → All (Apart (record { first = base; size = size })) rs
    → All (OwnedBy rs) bs
    → Clear (new_block base size) bs
unfolding new_block
new_block-Clear base size rs [] h o = tt
new_block-Clear base size rs (b ∷ bs) h (o, os) = (
  clear_of_range (record { first = base; size = size }) rs b h o,
  new_block-Clear base size rs bs h os,
)

pub owned-cons :
    (r : Range) (rs : List Range) (bs : List Block)
    → All (OwnedBy rs) bs
    → All (OwnedBy (r ∷ rs)) bs
owned-cons r rs [] h = tt
owned-cons r rs (b ∷ bs) (h, hs) = (inr h, owned-cons r rs bs hs)

OwnedBy-SameSpace : (rs : List Range) (b c : Block) → SameSpace b c → OwnedBy rs b → OwnedBy rs c
OwnedBy-SameSpace [] b c e o = o
OwnedBy-SameSpace (r ∷ rs) b c e (inl o) = inl (omega arith)
OwnedBy-SameSpace (r ∷ rs) b c e (inr o) = inr (OwnedBy-SameSpace rs b c e o)

pub owned-Spans :
    (rs : List Range) (bs cs : List Block) → Spans bs cs → All (OwnedBy rs) bs → All (OwnedBy rs) cs
owned-Spans rs [] [] s h = tt
owned-Spans rs [] (_ ∷ _) s h = absurd s
owned-Spans rs (_ ∷ _) [] s h = absurd s
owned-Spans rs (b ∷ bs) (c ∷ cs) (e, s) (h, hs) =
    (OwnedBy-SameSpace rs b c e h, owned-Spans rs bs cs s hs)

pub Spans-nil : (bs : List Block) → Spans bs [] → bs ≡ []
Spans-nil [] s = refl
Spans-nil (_ ∷ _) s = absurd s

pub span_sum-Spans : (bs cs : List Block) → Spans bs cs → span_sum bs ≡ span_sum cs
span_sum-Spans [] [] s = refl
span_sum-Spans [] (_ ∷ _) s = absurd s
span_sum-Spans (_ ∷ _) [] s = absurd s
span_sum-Spans (b ∷ bs) (c ∷ cs) (e, s) = omega (arith, span_sum-Spans bs cs s)

-- An allocation from the blocks there keeps the invariant.
pub Spans-IsPool :
    (rs : List Range) (pool : Pool) (b : Block) (bs : List Block)
    → IsPool rs pool
    → Separate (b ∷ bs)
    → Spans pool.blocks (b ∷ bs)
    → IsPool rs (record pool { blocks = b ∷ bs })
Spans-IsPool rs pool b bs v sep s = record {
  separate = sep;
  owned = owned-Spans rs pool.blocks (b ∷ bs) s v.owned;
  present = λ e. cc;
  counted =
      v.counted
      ∙ ap (λ (t : ℕ). (sizeof_pool + t) % 2 ^ 64) (span_sum-Spans pool.blocks (b ∷ bs) s);
}
