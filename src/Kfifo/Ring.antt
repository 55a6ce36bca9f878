-- ===== src/Kfifo/Ring.antt =====
-- The two `memcpy` calls of `__kfifo_put` and of `__kfifo_get`, read as one access that goes round
-- at the end of the buffer.
use utils_modules.Base.{
  ℕ, ◌+◌, ◌-◌, ◌≤◌, ◌<◌, min, ◌≡◌, refl, ap, ◌∙◌, ◌⊎◌, inl, inr, List, some, arith, length, get_or,
  dec_lt,
}
use utils_modules.Base.Words.{wrap}
use utils_modules.Base.Memory.{
  memcpy, copied, memcpy-in_bounds, length-copied, copied-inside, copied-outside,
}

module _ (buf : List ℕ) (size off n : ℕ) (storage : length buf ≡ size) (off_in : off < size)
    (fits : n ≤ size) where
  -- How much goes up to the end of the buffer.
  abbrev pub upper : ℕ
  upper = min n (size - off)

  module _ (src : List ℕ) (enough : n ≤ length src) where
    abbrev pub first : List ℕ
    first = copied buf off src 0 upper

    length-first : length first ≡ length buf
    length-first = length-copied buf off src 0 upper (omega arith) (omega arith)

    abbrev pub written : List ℕ
    written = copied first 0 src upper (n - upper)

    pub write-first : memcpy buf off src 0 upper ≡ some first
    write-first = memcpy-in_bounds buf off src 0 upper (omega arith) (omega arith)

    pub write-second : memcpy first 0 src upper (n - upper) ≡ some written
    write-second =
        memcpy-in_bounds first 0 src upper (n - upper) (omega (arith, length-first)) (omega arith)

    pub length-written : length written ≡ size
    length-written =
        length-copied first 0 src upper (n - upper) (omega (arith, length-first)) (omega arith)
        ∙ length-first
        ∙ storage

    first-outside : (p : ℕ) → (p < off) ⊎ (off + upper ≤ p) → get_or first p 0 ≡ get_or buf p 0
    first-outside p h = copied-outside buf off src 0 upper (omega arith) (omega arith) p h

    second-outside : (p : ℕ) → n - upper ≤ p → get_or written p 0 ≡ get_or first p 0
    second-outside p h =
        copied-outside first 0 src upper (n - upper) (omega (arith, length-first)) (omega arith) p
          (inr (omega arith))

    pub written-inside : (j : ℕ) → j < n → get_or written (wrap size (off + j)) 0 ≡ get_or src j 0
    written-inside j lt = elim (dec_lt (off + j) size) [
      | yes low ↦
          let e : wrap size (off + j) ≡ off + j = ground arith in
          let z : 0 + j ≡ j = omega arith in
          rw e (
            second-outside (off + j) (omega arith)
            ∙ copied-inside buf off src 0 upper (omega arith) (omega arith) (off + j) j refl
                (omega arith)
            ∙ ap (λ t. get_or src t 0) z)
      | no high ↦
          let e : wrap size (off + j) ≡ j - upper = ground arith in
          let k : upper + (j - upper) ≡ j = omega arith in
          rw e (
            copied-inside first 0 src upper (n - upper) (omega (arith, length-first)) (omega arith)
              (j - upper) (j - upper) (omega arith) (omega arith)
            ∙ ap (λ t. get_or src t 0) k)
    ]

    pub written-outside :
        (j : ℕ)
        → n ≤ j
        → j < size
        → get_or written (wrap size (off + j)) 0 ≡ get_or buf (wrap size (off + j)) 0
    written-outside j le lt =
        second-outside (wrap size (off + j)) (ground arith)
        ∙ first-outside (wrap size (off + j)) (ground arith)

  module _ (dst : List ℕ) (room : n ≤ length dst) where
    abbrev pub head : List ℕ
    head = copied dst 0 buf off upper

    length-head : length head ≡ length dst
    length-head = length-copied dst 0 buf off upper (omega arith) (omega arith)

    abbrev pub fetched : List ℕ
    fetched = copied head upper buf 0 (n - upper)

    pub read-head : memcpy dst 0 buf off upper ≡ some head
    read-head = memcpy-in_bounds dst 0 buf off upper (omega arith) (omega arith)

    pub read-rest : memcpy head upper buf 0 (n - upper) ≡ some fetched
    read-rest =
        memcpy-in_bounds head upper buf 0 (n - upper) (omega (arith, length-head)) (omega arith)

    pub length-fetched : length fetched ≡ length dst
    length-fetched =
        length-copied head upper buf 0 (n - upper) (omega (arith, length-head)) (omega arith)
        ∙ length-head

    pub fetched-inside : (j : ℕ) → j < n → get_or fetched j 0 ≡ get_or buf (wrap size (off + j)) 0
    fetched-inside j lt = elim (dec_lt j upper) [
      | yes low ↦
          let e : wrap size (off + j) ≡ off + j = ground arith in
          rw e (
            copied-outside head upper buf 0 (n - upper) (omega (arith, length-head)) (omega arith) j
              (inl low)
            ∙ copied-inside dst 0 buf off upper (omega arith) (omega arith) j j (omega arith)
                (omega arith))
      | no high ↦
          let e : wrap size (off + j) ≡ j - upper = ground arith in
          rw e (
            copied-inside head upper buf 0 (n - upper) (omega (arith, length-head)) (omega arith) j
              (j - upper) (omega arith) (omega arith)
            ∙ ap (λ t. get_or buf t 0) (omega arith))
    ]

    pub fetched-outside : (j : ℕ) → n ≤ j → get_or fetched j 0 ≡ get_or dst j 0
    fetched-outside j le =
        copied-outside head upper buf 0 (n - upper) (omega (arith, length-head)) (omega arith) j
          (inr (omega arith))
        ∙ copied-outside dst 0 buf off upper (omega arith) (omega arith) j (inr (omega arith))
