-- ===== src/Caching/Tests.antt =====
-- The caching factory over the factory of the pool's tests.
use utils_modules.Base.{◌≡◌, refl, subst, arith, [], ◌∷◌, some, none, replicate}
use utils_modules.Pool.{Block}
use utils_modules.Pool.Bump.{bump, bump_laws}
use utils_modules.Caching.{Entry, Caching, take_out, create, release}
use utils_modules.Caching.Valid.{IsCaching, Whole}
use utils_modules.Caching.Create
use utils_modules.Caching.Create.{create_lem}
use utils_modules.Caching.Release
use utils_modules.Caching.Release.{release_lem, release_grown, destroy-held, held}

abbrev block : Block
block = record { base = 4200; start = 4240; current = 4300; end = 4608 }

-- A pool of 512 bytes in use.
abbrev busy : Entry
busy = record {
  pool = record {
    self = 4096;
    name = [];
    callback = 7;
    capacity = 512;
    increment_size = 128;
    blocks = block ∷ [];
    calls = [];
  };
  index = 1;
}

abbrev grown : Entry
grown = record busy { pool = record busy.pool { blocks = block ∷ block ∷ [] } }

abbrev factory : Entry → Caching
factory e = record {
  capacity = 0;
  max_capacity = 4096;
  used_count = 1;
  free_list = replicate 16 [];
  used_list = e ∷ [];
}

busy-IsCaching : IsCaching (factory busy)
busy-IsCaching = record {
  lists = refl;
  shelved = (
    tt,
    (tt, (tt, (tt, (tt, (tt, (tt, (tt, (tt, (tt, (tt, (tt, (tt, (tt, (tt, (tt, tt))))))))))))))),
  );
  counted = refl;
  limit = omega arith;
  room = omega arith;
  used = refl;
  in_use = (
    (
      omega arith,
      λ b e.
          let same : block ≡ b = cc in
          (
            subst (λ c. Whole 512 busy.pool c) same
                (record {
                  blocks = refl;
                  aligned = refl;
                  word = omega arith;
                  span = omega arith;
                  capacity = refl;
                }),
            λ _. refl,
            λ all. absurd (omega arith),
          ),
    ),
    tt,
  );
}

taken_out : (e : Entry) → e.pool.self ≡ 4096 → take_out 4096 (factory e).used_list ≡ some (e, [])
unfolding take_out
taken_out e same = ground (arith, same)

create_lem_example :
    Create.Outcome bump bump_laws
      (factory busy)
      300
      64
      9
      []
      (create bump (factory busy) none 300 64 (some 9) [])
create_lem_example = create_lem bump bump_laws (factory busy) none 300 64 (some 9) [] busy-IsCaching

release_lem_example :
    Release.Outcome bump (factory busy) busy block [] [] (release bump (factory busy) 4096 [])
release_lem_example =
    release_lem bump (factory busy) 4096 busy [] block [] busy-IsCaching (taken_out busy refl)
      (omega arith) refl
