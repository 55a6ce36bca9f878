-- ===== src/Timer/Links.antt =====
-- The circular list of `clist.h`, which the timers include from outside the repository, as an
-- interface: what a walk from `list_begin` to `list_end` meets, and what each operation does to it.
-- A node is the number of its timer.
use utils_modules.Base.{ℕ, ◌≡◌, List, [], ◌∷◌, ◌++◌, ◌==◌, if◌then◌else◌}

pub record Clist : Type 1 where
  pub Chain : Type 0
  pub walk : Chain → List ℕ
  pub list_init : Chain
  pub push_front : ℕ → Chain → Chain
  pub push_back : ℕ → Chain → Chain
  -- `list_insert(at, node)`.
  pub insert : ℕ → ℕ → Chain → Chain
  pub erase : ℕ → Chain → Chain
  pub pop_front : Chain → Chain

abbrev pub put_before : ℕ → ℕ → List ℕ → List ℕ
put_before at i [] = []
put_before at i (x ∷ xs) = if x == at then i ∷ x ∷ xs else x ∷ put_before at i xs

abbrev pub remove : ℕ → List ℕ → List ℕ
remove i [] = []
remove i (x ∷ xs) = if x == i then xs else x ∷ remove i xs

abbrev pub tail : List ℕ → List ℕ
tail [] = []
tail (x ∷ xs) = xs

pub record ClistLaws (c : Clist) : Type 0 where
  pub walk-list_init : c.walk c.list_init ≡ []
  pub walk-push_front : (i : ℕ) (l : c.Chain) → c.walk (c.push_front i l) ≡ i ∷ c.walk l
  pub walk-push_back : (i : ℕ) (l : c.Chain) → c.walk (c.push_back i l) ≡ c.walk l ++ (i ∷ [])
  pub walk-insert : (at i : ℕ) (l : c.Chain) → c.walk (c.insert at i l) ≡ put_before at i (c.walk l)
  pub walk-erase : (i : ℕ) (l : c.Chain) → c.walk (c.erase i l) ≡ remove i (c.walk l)
  pub walk-pop_front : (l : c.Chain) → c.walk (c.pop_front l) ≡ tail (c.walk l)
