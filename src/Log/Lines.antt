-- ===== src/Log/Lines.antt =====
-- The steps of `log_core` of log/log.c on a buffer that holds a text and zeros behind it.
use utils_modules.Base.{
  ℕ, zero, suc, ◌+◌, ◌-◌, ◌*◌, ◌≤◌, ◌<◌, ◌≡◌, refl, sym, ap, ap₂, ◌∙◌, arith, List, [], ◌∷◌, ◌++◌,
  append_assoc, some, Bool, true, false, ltb, leb, ◌==◌, if◌then◌else◌, length, take, drop,
  replicate, length-append, length-take, length-replicate, take-append_length, take-all, All,
  append-nil,
}
use utils_modules.Base.Memory.{splice}
use utils_modules.Log.{empty_buffer, log_max_size, print, Part, print_parts, print_indent, end_line}

-- A text and zeros to the end of the buffer.
unfoldable pub padded : List ℕ → List ℕ
padded text = text ++ replicate (log_max_size - length text) 0

-- The buffer at the start.
pub empty-padded : empty_buffer ≡ padded []
unfolding empty_buffer padded
empty-padded = refl

drop-replicate : (k m r : ℕ) → r ≡ m - k → drop k (replicate {A = ℕ} m 0) ≡ replicate r 0
drop-replicate zero m r e = let same : m ≡ r = omega arith in ap (λ n. replicate n 0) same
drop-replicate (suc k) zero r e =
    let none_left : 0 ≡ r = omega arith in ap (λ n. replicate n 0) none_left
drop-replicate (suc k) (suc m) r e = drop-replicate k m r (omega arith)

drop-text :
    (s : List ℕ) (n k m r : ℕ)
    → n ≡ length s + k
    → r ≡ m - k
    → drop n (s ++ replicate m 0) ≡ replicate r 0
drop-text [] n k m r d e = drop-replicate n m r (omega arith)
drop-text (x ∷ s) zero k m r d e = absurd (omega arith)
drop-text (x ∷ s) (suc n) k m r d e = drop-text s n k m r (omega arith) e

splice-text :
    (s t : List ℕ) (n m : ℕ)
    → n ≡ length s
    → splice (s ++ replicate m 0) n t ≡ s ++ (t ++ replicate (m - length t) 0)
splice-text s t n m e =
    ap₂ (λ a b. a ++ (t ++ b)) (take-append_length s (replicate m 0) n e)
      (drop-text s (n + length t) (length t) m (m - length t) (omega arith) refl)

-- Text behind a text, within the buffer.
splice-padded : (s t : List ℕ) (n : ℕ) → n ≡ length s → splice (padded s) n t ≡ padded (s ++ t)
unfolding padded
splice-padded s t n e =
    let rest : log_max_size - length s - length t ≡ log_max_size - length (s ++ t) =
      omega (arith, length-append s t) in
    splice-text s t n (log_max_size - length s) e
    ∙ (ap (λ k. s ++ (t ++ replicate k 0)) rest
        ∙ sym (append_assoc s t (replicate (log_max_size - length (s ++ t)) 0)))

replicate-end : (m : ℕ) → replicate m 0 ++ (0 ∷ []) ≡ replicate {A = ℕ} (suc m) 0
replicate-end zero = refl
replicate-end (suc m) = ap (λ t. 0 ∷ t) (replicate-end m)

-- A terminating 0 does not change a buffer with room behind its text.
padded-end : (s : List ℕ) → length s < log_max_size → padded (s ++ (0 ∷ [])) ≡ padded s
unfolding padded
padded-end s h =
    let more : log_max_size - length s ≡ suc (log_max_size - length (s ++ (0 ∷ []))) =
      omega (arith, length-append s (0 ∷ [])) in
    append_assoc s (0 ∷ []) (replicate (log_max_size - length (s ++ (0 ∷ []))) 0)
    ∙ ap (λ k. s ++ replicate k 0) (sym more)

-- A print of a text appends what there is room for, and counts all of it.
pub print-padded :
    (s t : List ℕ)
    → length s + 1 < log_max_size
    → print t (padded s, length s)
      ≡ some (padded (s ++ take (log_max_size - 2 - length s) t), length s + length t)
unfolding print
print-padded s t h =
    let inside : ltb (log_max_size - 1) (length s) ≡ false = ground arith in
    let unfilled : (length s == log_max_size - 1) ≡ false = ground arith in
    let kept = take (log_max_size - 2 - length s) t in
    let short : length (s ++ kept) < log_max_size =
      omega (arith, length-append s kept, length-take (log_max_size - 2 - length s) t) in
    let written : splice (padded s) (length s) (kept ++ (0 ∷ [])) ≡ padded (s ++ kept) =
      splice-padded s (kept ++ (0 ∷ [])) (length s) refl
      ∙ (ap padded (sym (append_assoc s kept (0 ∷ []))) ∙ padded-end (s ++ kept) short) in
    rw inside (rw unfilled (ap (λ b. some (b, length s + length t)) written))

pub print-room :
    (s t : List ℕ)
    → length s + length t + 1 < log_max_size
    → print t (padded s, length s) ≡ some (padded (s ++ t), length (s ++ t))
print-room s t h =
    print-padded s t (omega arith)
    ∙ ap₂ (λ k n. some (padded (s ++ k), n))
        (take-all (log_max_size - 2 - length s) t (omega arith)) (sym (length-append s t))

-- The text that parts make behind a text.
unfoldable pub texts : List Part → List ℕ → List ℕ
texts [] s = s
texts (part ∷ parts) s = texts parts (if part.0 then s ++ part.1 (length s) else s)

-- Every part is at most so long.
abbrev pub Short : ℕ → Part → Type 0
Short bound part = (len : ℕ) → length (part.1 len) ≤ bound

pub length-texts :
    (bound : ℕ) (parts : List Part) (s : List ℕ)
    → All (Short bound) parts
    → length (texts parts s) ≤ length s + length parts * bound
unfolding texts
length-texts bound [] s h = omega arith
length-texts bound ((true, f) ∷ parts) s (h, hs) = omega (
  arith,
  length-texts bound parts (s ++ f (length s)) hs,
  length-append s (f (length s)),
  h (length s),
)
length-texts bound ((false, f) ∷ parts) s (h, hs) = omega (arith, length-texts bound parts s hs)

-- Parts with room for all of them.
pub print_parts-padded :
    (bound : ℕ) (parts : List Part) (s : List ℕ)
    → All (Short bound) parts
    → length s + length parts * bound + 1 < log_max_size
    → print_parts parts (padded s, length s) ≡ some (padded (texts parts s), length (texts parts s))
unfolding print_parts texts
print_parts-padded bound [] s h r = refl
print_parts-padded bound ((true, f) ∷ parts) s (h, hs) r =
    rw (print-room s (f (length s)) (omega (arith, h (length s)))) (
      print_parts-padded bound parts (s ++ f (length s)) hs
        (omega (arith, length-append s (f (length s)), h (length s))))
print_parts-padded bound ((false, f) ∷ parts) s (h, hs) r =
    print_parts-padded bound parts s hs (omega arith)

pub print_indent-padded :
    (s : List ℕ) (indent : ℕ)
    → length s + indent < log_max_size
    → print_indent indent (padded s, length s)
      ≡ some (padded (s ++ replicate indent 46), length (s ++ replicate indent 46))
unfolding print_indent
print_indent-padded s indent h =
    let inside : ltb log_max_size (length s + indent) ≡ false = ground arith in
    rw inside (
      ap₂ (λ b n. some (b, n)) (splice-padded s (replicate indent 46) (length s) refl)
        (omega (arith, length-append s (replicate indent 46), length-replicate {A = ℕ} indent 46)))

-- The last character is 0 already.
padded-last :
    (s : List ℕ)
    → length s < log_max_size
    → splice (padded s) (log_max_size - 1) (0 ∷ []) ≡ padded s
unfolding padded
padded-last s h =
    let m : ℕ = log_max_size - 1 - length s in
    let body : List ℕ = s ++ replicate m 0 in
    let room : log_max_size - length s ≡ suc m = omega arith in
    let shape : padded s ≡ body ++ replicate 1 0 =
      ap (λ k. s ++ replicate k 0) room
      ∙ (ap (λ t. s ++ t) (sym (replicate-end m))
          ∙ sym (append_assoc s (replicate m 0) (0 ∷ []))) in
    rw shape (
      splice-text body (0 ∷ []) (log_max_size - 1) 1
        (omega (arith, length-append s (replicate m 0), length-replicate {A = ℕ} m 0)))

-- The end of a line with room.
pub end_line-room :
    (newline : Bool) (s : List ℕ)
    → length s + 1 < log_max_size
    → end_line newline (padded s, length s) ≡ (
      padded (s ++ (if newline then 10 ∷ [] else [])),
      length (s ++ (if newline then 10 ∷ [] else [])),
    )
unfolding end_line
end_line-room true s h =
    let unfilled : leb (log_max_size - 1) (length s) ≡ false = ground arith in
    rw unfilled (
      ap₂ (λ b n. (b, n))
        (ap (λ b. splice b (log_max_size - 1) (0 ∷ [])) (splice-padded s (10 ∷ []) (length s) refl)
          ∙ padded-last (s ++ (10 ∷ [])) (omega (arith, length-append s (10 ∷ []))))
        (omega (arith, length-append s (10 ∷ []))))
end_line-room false s h =
    let unfilled : leb (log_max_size - 1) (length s) ≡ false = ground arith in
    rw unfilled (rw (append-nil s) (ap (λ b. (b, length s)) (padded-last s (omega arith))))

-- The end of a line that was cut.
pub end_line-cut :
    (newline : Bool) (s : List ℕ) (n : ℕ)
    → length s < log_max_size
    → log_max_size ≤ n + 1
    → end_line newline (padded s, n) ≡ (padded s, n)
unfolding end_line
end_line-cut newline s n h cut =
    let full : leb (log_max_size - 1) n ≡ true = ground arith in
    rw full (ap (λ b. (b, n)) (padded-last s h))
