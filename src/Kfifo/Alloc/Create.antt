-- ===== src/Kfifo/Alloc/Create.antt =====
-- What `kfifo_init` and `kfifo_alloc` create, with their assertions and without.
use utils_modules.Base.{
  ℕ, zero, suc, ◌-◌, ◌*◌, ◌^◌, ◌≤◌, ◌<◌, ◌≡◌, refl, ◌∙◌, ◌⊎◌, inl, inr, arith, bit_and, true, false,
  List, [], Option, some, length, Bool-cases, Option-cases, dec_lt, dec_le, ltb→lt, ◌==◌, ltb,
  ==_iff, ◌%◌,
}
use native.Mathlib.Nat.{one-le-pow, pow-le-pow_right, mod_self, mod-eq_of_lt}
use utils_modules.Base.Bits.{bit_and-mask, zero-bit_and, power_of_bit_and}
use utils_modules.Base.Words.{sub32}
use utils_modules.Kfifo.{Kfifo, len}
use utils_modules.Kfifo.Contents.{contents}
use utils_modules.Kfifo.Valid.{IsValid}
use utils_modules.Kfifo.Alloc.{
  Outcome, aborted, null, ready, init, alloc, alloc_sized, roundup_pow_of_two,
}
use utils_modules.Kfifo.Alloc.Fls.{roundup_bounds}

-- The test of the comments, "a power of 2", on a power of two.
power_test : (k : ℕ) → k < 32 → bit_and (2 ^ k) (sub32 (2 ^ k) 1) ≡ 0
power_test k h =
    let mask : sub32 (2 ^ k) 1 ≡ 2 ^ k - 1 = omega (
      arith,
      one-le-pow k 2 (omega arith),
      pow-le-pow_right {n = 2} (omega arith) {i = k} {j = 31} (omega arith),
    ) in
    rw mask (bit_and-mask k (2 ^ k) ∙ mod_self (2 ^ k))

two_pow-mod_high : (k : ℕ) → k ≤ 32 → 2 ^ 31 < 2 ^ k → 2 ^ k % 2 ^ 32 ≡ 0
two_pow-mod_high k le lt = elim (dec_le k 31) [
  | yes small ↦
      absurd (omega (arith, pow-le-pow_right {n = 2} (omega arith) {i = k} {j = 31} small))
  | no large ↦ let e : k ≡ 32 = omega arith in rw e
]

order-lt : (k : ℕ) → 2 ^ k ≤ 2 ^ 31 → k < 32
order-lt k h = elim (dec_lt k 32) [
  | yes lt ↦ lt
  | no ge ↦
      absurd (omega (arith, pow-le-pow_right {n = 2} (omega arith) {i = 32} {j = k} (omega arith)))
]

power-lt : (k : ℕ) → k < 32 → 2 ^ k < 2 ^ 32
power-lt k h = omega (arith, pow-le-pow_right {n = 2} (omega arith) {i = k} {j = 31} (omega arith))

round-lt : (k size : ℕ) → 2 ^ k < 2 * size → size ≤ 2 ^ 31 → k < 32
round-lt k size h le = elim (dec_lt k 32) [
  | yes lt ↦ lt
  | no ge ↦
      absurd (omega (arith, pow-le-pow_right {n = 2} (omega arith) {i = 32} {j = k} (omega arith)))
]

more : (size : ℕ) → 0 < size → (bit_and size (sub32 size 1) == 0) ≡ false → 1 < size
more zero pos t = absurd (omega arith)
more (suc zero) pos t = cc
more (suc (suc n)) pos t = omega arith

module _ (malloc : ℕ → Option (List ℕ)) where
  -- With its assertion on, `kfifo_init` aborts on every power of two.
  pub init-aborts : (buffer : List ℕ) (k : ℕ) → k < 32 → init false malloc buffer (2 ^ k) ≡ aborted
  unfolding init
  init-aborts buffer k h = rw (power_test k h)

  sized-never_ready :
      (size : ℕ)
      → bit_and size (sub32 size 1) ≡ 0
      → (alloc_sized false malloc size ≡ aborted) ⊎ (alloc_sized false malloc size ≡ null)
  unfolding alloc_sized init
  sized-never_ready size e = elim (Option-cases (malloc size)) [
    | inl out ↦ inr (rw (out, alloc_sized))
    | inr (buffer, got) ↦ inl (rw (got, alloc_sized, e))
  ]

  -- With the assertions on, `kfifo_alloc` never returns a FIFO, whatever the size asked for: it
  -- aborts, or memory is out.
  pub alloc-never_ready :
      (size : ℕ)
      → size < 2 ^ 32
      → (alloc false malloc size ≡ aborted) ⊎ (alloc false malloc size ≡ null)
  unfolding alloc
  alloc-never_ready size h = elim (Bool-cases (bit_and size (sub32 size 1) == 0)) [
    | inl t ↦ rw t (sized-never_ready size ((==_iff _ 0).0 t))
    | inr t ↦ elim (Bool-cases (ltb 0x8000_0000 size)) [
      | inl big ↦
          let (k, le, e, above, _) =
            roundup_bounds size (omega (arith, ltb→lt _ _ big)) (omega arith) in
          let z : roundup_pow_of_two size % 2 ^ 32 ≡ 0 =
            rw e (two_pow-mod_high k le (omega (arith, ltb→lt _ _ big))) in
          rw (t, big, z) (sized-never_ready 0 (zero-bit_and (sub32 0 1)))
      | inr small ↦ inl (rw (t, small))
    ]
  ]

  module _ (sized : (n : ℕ) (bytes : List ℕ) → malloc n ≡ some bytes → length bytes ≡ n) where
    -- The outcome is the null pointer, or a valid empty FIFO of the size given.
    abbrev Created : ℕ → Outcome → Type 0
    Created size o =
        (o ≡ null) ⊎ ((f : Kfifo) × (o ≡ ready f) × IsValid f × (contents f ≡ []) × (f.size ≡ size))

    sized-Created :
        (size k : ℕ) → size ≡ 2 ^ k → k < 32 → Created size (alloc_sized true malloc size)
    unfolding alloc_sized init len
    sized-Created size k e lt = elim (Option-cases (malloc size)) [
      | inl out ↦ inl (rw (out, alloc_sized))
      | inr (buffer, got) ↦ elim (Option-cases (malloc 32)) [
        | inl out ↦ inl (rw (got, alloc_sized, out))
        | inr (bytes, node) ↦ inr (
          record { buffer = buffer; size = size; in_index = 0; out_index = 0 },
          rw (got, alloc_sized, node),
          record {
            order = k;
            small = lt;
            power = e;
            storage = sized size buffer got;
            in_word = omega arith;
            out_word = omega arith;
            within = omega arith;
          },
          refl,
          refl,
        )
      ]
    ]

    -- Outcome of a size that the caller's size bounds on both sides.
    abbrev Suits : ℕ → Outcome → Type 0
    Suits size o =
        (o ≡ null)
        ⊎ ((f : Kfifo) × (o ≡ ready f)
            × IsValid f
            × (contents f ≡ [])
            × (size ≤ f.size)
            × (f.size < 2 * size))

    Created-Suits :
        (size given : ℕ) (o : Outcome)
        → Created given o
        → size ≤ given
        → given < 2 * size
        → Suits size o
    Created-Suits size given o (inl e) low high = inl e
    Created-Suits size given o (inr (f, e, v, c, s)) low high =
        inr (f, e, v, c, omega arith, omega arith)

    -- With the assertions compiled out, `kfifo_alloc` of 1 to 2 ^ 31 bytes returns the null pointer
    -- or a valid empty FIFO whose size is at least what was asked for and less than twice that.
    pub alloc-IsValid :
        (size : ℕ)
        → 0 < size
        → size ≤ 2 ^ 31
        → (alloc true malloc size ≡ null)
          ⊎ ((f : Kfifo) × (alloc true malloc size ≡ ready f)
              × IsValid f
              × (contents f ≡ [])
              × (size ≤ f.size)
              × (f.size < 2 * size))
    unfolding alloc
    alloc-IsValid size pos le = elim (Bool-cases (bit_and size (sub32 size 1) == 0)) [
      | inl t ↦
          let mask : sub32 size 1 ≡ size - 1 = omega arith in
          let alone : bit_and size (size - 1) ≡ 0 = rw mask at ((==_iff _ 0).0 t) in
          let (k, e) = power_of_bit_and size pos alone in
          rw t (
            Created-Suits size size _ (sized-Created size k e (order-lt k (omega arith)))
              (omega arith) (omega arith))
      | inr t ↦
          let (k, _, e, above, below) = roundup_bounds size (more size pos t) (omega arith) in
          let lt : k < 32 = round-lt k size below le in
          let fits : 2 ^ k % 2 ^ 32 ≡ 2 ^ k = mod-eq_of_lt (power-lt k lt) in
          rw (t, e, fits)
            (Created-Suits size (2 ^ k) _ (sized-Created (2 ^ k) k refl lt) above below)
    ]
