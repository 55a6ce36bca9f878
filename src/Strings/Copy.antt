-- ===== src/Strings/Copy.antt =====
-- What `module_cpystrn` of datastruct/module_string.c writes and returns.
use utils_modules.Base.{
  ℕ, zero, suc, ◌+◌, ◌-◌, ◌≤◌, ◌<◌, ◌≡◌, refl, arith, List, [], ◌∷◌, ◌++◌, some, All, length, take,
  drop, min, ◌==◌, if◌then◌else◌, false,
}
use utils_modules.Strings.{copy_loop, cpystrn}

-- The bytes of a text, none of which ends it.
abbrev pub IsText : List ℕ → Type 0
IsText = All (λ c. 0 < c)

copy_loop_lem :
    (n : ℕ) (dst text rest : List ℕ)
    → IsText text
    → min n (length text) < length dst
    → copy_loop n dst (text ++ (0 ∷ rest))
      ≡ some (take n text ++ (0 ∷ drop (min n (length text) + 1) dst), min n (length text))
unfolding copy_loop
copy_loop_lem n [] text rest t h = absurd (omega arith)
copy_loop_lem zero (d ∷ dst) text rest t h =
    let none_left : min 0 (length text) ≡ 0 = omega arith in rw none_left refl
copy_loop_lem (suc n) (d ∷ dst) [] rest t h =
    let none_left : min (suc n) 0 ≡ 0 = omega arith in rw none_left refl
copy_loop_lem (suc n) (d ∷ dst) (c ∷ text) rest (p, t) h =
    let shorter : min (suc n) (suc (length text)) ≡ suc (min n (length text)) = omega arith in
    let further : suc (min n (length text)) + 1 ≡ suc (min n (length text) + 1) = omega arith in
    let more : (c == 0) ≡ false = ground arith in
    let last : min n (length text) + 1 ≡ suc (min n (length text)) = omega arith in
    rw more
      (rw (copy_loop_lem n dst text rest t (omega arith)) (rw shorter (rw further (rw last refl))))

-- `module_cpystrn` of a text with its end, into memory with room for what it copies: at most `n - 1`
-- bytes of the text and an end behind them, whose place it returns; for the size 0 it writes nothing.
pub cpystrn_lem :
    (dst text rest : List ℕ) (n : ℕ)
    → IsText text
    → min n (length text + 1) ≤ length dst
    → cpystrn dst (text ++ (0 ∷ rest)) n
      ≡ some (
          if n == 0 then (dst, 0) else (
            take (n - 1) text ++ (0 ∷ drop (min (n - 1) (length text) + 1) dst),
            min (n - 1) (length text),
          ))
unfolding cpystrn
cpystrn_lem dst text rest zero t h = refl
cpystrn_lem dst text rest (suc n) t h =
    let some_left : (suc n == 0) ≡ false = ground arith in
    let one_less : suc n - 1 ≡ n = omega arith in
    rw some_left (rw one_less (copy_loop_lem n dst text rest t (omega arith)))
