-- ===== src/Strings/Tests.antt =====
-- Runs of the string functions.
use utils_modules.Base.{
  ℕ, ◌-◌, ◌+◌, ◌≡◌, ◌↔◌, refl, arith, List, [], ◌∷◌, ◌++◌, some, take, drop, min, length, ◌==◌,
  if◌then◌else◌,
}
use utils_modules.Base.Int.{pos, negsuc}
use mathlib.Core.List.{reverse}
use utils_modules.Strings.{cpystrn, copy_loop, rstrncmp, compare_loop}
use utils_modules.Strings.Copy.{cpystrn_lem}
use utils_modules.Strings.Compare.{difference, rstrncmp_lem}

-- "abc" and "xbc".
abbrev abc : List ℕ
abc = 97 ∷ 98 ∷ 99 ∷ []

abbrev xbc : List ℕ
xbc = 120 ∷ 98 ∷ 99 ∷ []

abbrev room : List ℕ
room = 1 ∷ 1 ∷ 1 ∷ 1 ∷ 1 ∷ []

cut_test : cpystrn room (abc ++ (0 ∷ [])) 3 ≡ some (97 ∷ 98 ∷ 0 ∷ 1 ∷ 1 ∷ [], 2)
unfolding cpystrn copy_loop
cut_test = refl

order_test : rstrncmp abc xbc 3 ≡ some (negsuc 22)
unfolding rstrncmp compare_loop
order_test = refl

cpystrn_lem_example :
    cpystrn room (abc ++ (0 ∷ [])) 3
    ≡ some (
        if 3 == 0 then (room, 0) else (
          take (3 - 1) abc ++ (0 ∷ drop (min (3 - 1) (length abc) + 1) room),
          min (3 - 1) (length abc),
        ))
cpystrn_lem_example = cpystrn_lem room abc [] 3 (omega arith) (omega arith)

rstrncmp_lem_example :
    (rstrncmp abc xbc 3 ≡ some (difference (reverse (take 3 abc)) (reverse (take 3 xbc))))
    × ((rstrncmp abc xbc 3 ≡ some (pos 0)) ↔ (take 3 abc ≡ take 3 xbc))
rstrncmp_lem_example = rstrncmp_lem abc xbc 3 (omega arith) (omega arith)
