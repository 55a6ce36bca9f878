-- ===== src/Pool/Used.antt =====
-- The addresses that a pool has handed out.
use utils_modules.Base.{
  ℕ, ◌+◌, ◌%◌, ◌^◌, ◌≤◌, ◌<◌, ◌≡◌, refl, ◌⊎◌, inl, inr, arith, List, [], ◌∷◌, some, none, Bool,
  true, false, ◌||◌, ◌&&◌, ltb, leb, All, dec_le,
}
use utils_modules.Pool.{Block, round_size, find_block}
use utils_modules.Pool.Rounding.{
  IsBlock, round_size-bounds, alloc_from_block-fits, alloc_from_block-short,
}

-- The address lies in the `n` bytes from `p` on.
abbrev pub in_range : ℕ → ℕ → ℕ → Bool
in_range p n a = leb p a && ltb a (p + n)

-- The address was handed out from the block, or lies in the bytes skipped at its start.
abbrev pub used_in : Block → ℕ → Bool
used_in b a = leb b.start a && ltb a b.current

abbrev pub used : List Block → ℕ → Bool
used [] a = false
used (b ∷ bs) a = used_in b a || used bs a

-- No two blocks overlap.
abbrev pub Clear : Block → List Block → Type 0
Clear b [] = Unit {0}
Clear b (c ∷ cs) = ((b.end ≤ c.base) ⊎ (c.end ≤ b.base)) × Clear b cs

abbrev pub Separate : List Block → Type 0
Separate [] = Unit {0}
Separate (b ∷ bs) = IsBlock b × Clear b bs × Separate bs

-- The same memory, after an allocation.
abbrev pub SameSpace : Block → Block → Type 0
SameSpace b c = (b.base ≡ c.base) × (b.start ≡ c.start) × (b.end ≡ c.end)

-- An address inside a block is not used in blocks clear of it.
pub not_used_elsewhere :
    (b : Block) (bs : List Block) (a : ℕ)
    → Clear b bs
    → Separate bs
    → b.base ≤ a
    → a < b.end
    → used bs a ≡ false
not_used_elsewhere b [] a cl sp lo hi = refl
not_used_elsewhere b (c ∷ cs) a (cl, cls) (v, _, sp) lo hi =
    ground (arith, not_used_elsewhere b cs a cls sp lo hi)

-- The address lies in the memory of a block.
abbrev pub covers : List Block → ℕ → Bool
covers [] a = false
covers (b ∷ bs) a = (leb b.base a && ltb a b.end) || covers bs a

covered_elsewhere :
    (b : Block) (bs : List Block) (a : ℕ)
    → IsBlock b
    → Clear b bs
    → covers bs a ≡ true
    → used_in b a ≡ false
covered_elsewhere b [] a v cl h = cc
covered_elsewhere b (c ∷ cs) a v (cl, cls) h = ground (arith, covered_elsewhere b cs a v cls)

-- The memory of a block list, which allocation does not change.
abbrev pub Spans : List Block → List Block → Type 0
Spans [] [] = Unit {0}
Spans [] (_ ∷ _) = ⊥
Spans (_ ∷ _) [] = ⊥
Spans (b ∷ bs) (c ∷ cs) = SameSpace b c × Spans bs cs

pub Spans-refl : (bs : List Block) → Spans bs bs
Spans-refl [] = tt
Spans-refl (b ∷ bs) = ((refl, refl, refl), Spans-refl bs)

pub Clear-Spans :
    (b c : Block) (bs cs : List Block) → SameSpace b c → Spans bs cs → Clear b bs → Clear c cs
Clear-Spans b c [] [] e s h = tt
Clear-Spans b c [] (_ ∷ _) e s h = absurd s
Clear-Spans b c (_ ∷ _) [] e s h = absurd s
Clear-Spans b c (d ∷ bs) (d' ∷ cs) e (ed, s) (h, hs) = (ground arith, Clear-Spans b c bs cs e s hs)

-- One allocation of `size` bytes from the blocks: what it returns is an aligned range that was not
-- used, and then the used addresses are those used before and the range.
pub record Grants (size : ℕ) (bs bs' : List Block) (p : ℕ) : Type 0 where
  pub aligned : p % 4 ≡ 0
  pub word : p + round_size size < 2 ^ 64
  pub inside : (a : ℕ) → in_range p (round_size size) a ≡ true → covers bs a ≡ true
  pub fresh : (a : ℕ) → in_range p (round_size size) a ≡ true → used bs a ≡ false
  pub grown : (a : ℕ) → used bs' a ≡ (in_range p (round_size size) a || used bs a)
  pub separate : Separate bs'
  pub span : Spans bs bs'

-- Taking from the first block.
pub first-Grants :
    (b : Block) (bs : List Block) (size : ℕ)
    → Separate (b ∷ bs)
    → size + 4 < 2 ^ 64
    → b.current + round_size size ≤ b.end
    → Grants size (b ∷ bs) (record b { current = b.current + round_size size } ∷ bs) b.current
first-Grants b bs size (v, cl, sp) small fits = record {
  aligned = v.aligned;
  word = omega (arith, v.word);
  inside = λ a h. ground (arith, v.header, v.opened);
  fresh = λ a h. ground (arith, v.header, v.opened, not_used_elsewhere b bs a cl sp);
  grown = λ a. ground (arith, v.opened);
  separate = (taken, Clear-Spans b after bs bs (refl, refl, refl) (Spans-refl bs) cl, sp);
  span = ((refl, refl, refl), Spans-refl bs);
}
  where
    after : Block
    after = record b { current = b.current + round_size size }

    taken : IsBlock after
    taken = record {
      header = v.header;
      opened = omega (arith, v.opened);
      filled = fits;
      word = v.word;
      aligned = omega (arith, v.aligned, round_size-bounds size small);
    }

-- Taking from a later block.
later-Grants :
    (b : Block) (bs bs' : List Block) (size p : ℕ)
    → Separate (b ∷ bs)
    → Grants size bs bs' p
    → Grants size (b ∷ bs) (b ∷ bs') p
later-Grants b bs bs' size p (v, cl, sp) g = record {
  aligned = g.aligned;
  word = g.word;
  inside = λ a h. ground (arith, g.inside a h);
  fresh = λ a h. ground (arith, g.fresh a h, covered_elsewhere b bs a v cl (g.inside a h));
  grown = λ a. ground (arith, g.grown a);
  separate = (v, Clear-Spans b b bs bs' (refl, refl, refl) g.span cl, g.separate);
  span = ((refl, refl, refl), g.span);
}

-- The blocks all have less than the rounded size left.
abbrev pub Full : ℕ → List Block → Type 0
Full size bs = All (λ b. b.end < b.current + round_size size) bs

pub find_block_lem :
    (bs : List Block) (size : ℕ)
    → Separate bs
    → size + 4 < 2 ^ 64
    → ((find_block bs size ≡ none) × Full size bs)
      ⊎ ((p : ℕ) × (bs' : List Block) × (find_block bs size ≡ some (p, bs')) × Grants size bs bs' p)
unfolding find_block
find_block_lem [] size sp small = inl (refl, tt)
find_block_lem (b ∷ bs) size (v, cl, sp) small = elim (dec_le (b.current + round_size size) b.end) [
  | yes fits ↦ inr (
    b.current,
    _,
    ground (arith, alloc_from_block-fits b size v fits),
    first-Grants b bs size (v, cl, sp) small fits,
  )
  | no short ↦
      let miss = alloc_from_block-short b size v (omega arith) in
      elim (find_block_lem bs size sp small) [
        | inl (none_fit, full) ↦ inl (ground (arith, miss, none_fit), (omega arith, full))
        | inr (p, bs', hit, g) ↦
            inr (p, b ∷ bs', ground (arith, miss, hit), later-Grants b bs bs' size p (v, cl, sp) g)
      ]
]
