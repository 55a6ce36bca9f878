-- ===== src/Pool/Tests.antt =====
-- The pool's theorems on the factory of Bump.
use utils_modules.Base.{ℕ, ◌+◌, ◌≤◌, ◌≡◌, refl, inl, arith, List, [], ◌∷◌, replicate, some, none}
use utils_modules.Pool.Factory.{Range, done}
use utils_modules.Pool.{Block, Pool, align_ptr, alloc, alloc_from_block, round_size}
use utils_modules.Pool.Bump.{bump, bump_laws}
use utils_modules.Pool.Used.{used}
use utils_modules.Pool.Valid.{IsPool}
use utils_modules.Pool.Rounding.{IsBlock}
use utils_modules.Pool.Allocate
use utils_modules.Pool.Allocate.{alloc_lem}
use utils_modules.Pool.Disjoint.{Grant, alloc_all, alloc_all_disjoint, owners, bit}
use utils_modules.Pool.Life.{first_block, init_int, create_int}
use utils_modules.Pool.Life.Created
use utils_modules.Pool.Life.Created.{create_int_lem}

-- A pool of 256 bytes at 4096, and what it leaves of the address space.
abbrev memory : List Range
memory = record { first = 4096; size = 256 } ∷ []

abbrev first : Block
first = record { base = 4200; start = 4240; current = 4240; end = 4352 }

abbrev ready : Pool
ready = record {
  self = 4096;
  name = [];
  callback = 7;
  capacity = 256;
  increment_size = 128;
  blocks = first ∷ [];
  calls = [];
}

first-IsBlock : IsBlock first
first-IsBlock = record {
  header = omega arith;
  opened = omega arith;
  filled = omega arith;
  word = omega arith;
  aligned = refl;
}

ready-IsPool : IsPool memory ready
ready-IsPool = record {
  separate = (first-IsBlock, tt, tt);
  owned = (inl (omega arith, omega arith), tt);
  present = λ e. cc;
  counted = refl;
}

-- The second request is rounded up, and the third one takes a new block.
abbrev second : Block
second = record { base = 21504; start = 21544; current = 21544; end = 21760 }

abbrev grown : Pool
grown = record ready { blocks = second ∷ first ∷ [] }

first_request :
    alloc bump ready 30 memory
    ≡ done (some 4240, record ready { blocks = record first { current = 4272 } ∷ [] }, memory)
unfolding alloc alloc_from_block round_size
first_request = refl

create_int_test :
    create_int bump none 256 128 none []
    ≡ done (some (record ready { name = replicate 32 0 }), memory)
unfolding create_int first_block init_int align_ptr
create_int_test = refl

alloc_lem_example : Allocate.Outcome bump bump_laws ready 200 memory (alloc bump ready 200 memory)
alloc_lem_example = alloc_lem bump bump_laws ready 200 memory ready-IsPool (omega arith)

alloc_all_disjoint_example :
    (grants : List Grant) × (pool : Pool) × (s : List Range) × (alloc_all bump bump_laws ready
        (30 ∷ 10 ∷ 200 ∷ [])
        memory
      ≡ done (grants, pool, s))
    × IsPool s pool
    × ((a : ℕ) → owners grants a + bit (used ready.blocks a) ≤ bit (used pool.blocks a))
alloc_all_disjoint_example =
    alloc_all_disjoint bump bump_laws (30 ∷ 10 ∷ 200 ∷ []) ready memory ready-IsPool
      (omega arith, (omega arith, (omega arith, tt)))

create_int_lem_example :
    Created.Outcome bump bump_laws 256 128 none []
      (create_int bump (some (97 ∷ [])) 256 128 none [])
create_int_lem_example =
    create_int_lem bump bump_laws (some (97 ∷ [])) 256 128 none [] (omega arith)
