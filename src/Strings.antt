-- ===== src/Strings.antt =====
-- datastruct/module_string.c: the bounded copy of a string, and the comparison of two blocks of bytes
-- from their ends. Memory is the list of bytes from a pointer on; `none` is an access behind it.
pub mod Copy
pub mod Compare
mod Tests
use utils_modules.Base.{
  ℕ, zero, suc, ◌+◌, ◌-◌, List, [], ◌∷◌, Option, none, some, ◌==◌, if◌then◌else◌, ◌>>=◌, get_elem?,
}
use utils_modules.Base.Int.{ℤ, pos, sub_ℕ}

-- The loop of `module_cpystrn` with `n` rounds left: what is behind `dst`, and how far `dst` goes on.
unfoldable pub copy_loop : ℕ → List ℕ → List ℕ → Option (List ℕ × ℕ)
copy_loop n [] src = none
copy_loop zero (d ∷ dst) src = some (0 ∷ dst, 0)
copy_loop (suc n) (d ∷ dst) [] = none
copy_loop (suc n) (d ∷ dst) (s ∷ src) =
    let more : Option (List ℕ × ℕ) = copy_loop n dst src >>= (λ r. some (s ∷ r.0, r.1 + 1)) in
    if s == 0 then some (0 ∷ dst, 0) else more

-- `module_cpystrn`: the memory at `dst`, and the distance from `dst` of the pointer that it returns.
unfoldable pub cpystrn : List ℕ → List ℕ → ℕ → Option (List ℕ × ℕ)
cpystrn dst src n = if n == 0 then some (dst, 0) else copy_loop (n - 1) dst src

-- The loop of `module_rstrncmp` from the index `n` down.
unfoldable pub compare_loop : ℕ → List ℕ → List ℕ → Option ℤ
compare_loop zero s1 s2 = do
  c1 ← get_elem? s1 0
  c2 ← get_elem? s2 0
  if c1 == c2 then some (pos 0) else some (sub_ℕ c1 c2)
compare_loop (suc n) s1 s2 =
    let rest : Option ℤ = compare_loop n s1 s2 in
    do
      c1 ← get_elem? s1 (suc n)
      c2 ← get_elem? s2 (suc n)
      if c1 == c2 then rest else some (sub_ℕ c1 c2)

-- `module_rstrncmp`.
unfoldable pub rstrncmp : List ℕ → List ℕ → ℕ → Option ℤ
rstrncmp s1 s2 n = if n == 0 then some (pos 0) else compare_loop (n - 1) s1 s2
