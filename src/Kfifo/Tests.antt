-- ===== src/Kfifo/Tests.antt =====
-- Runs of the FIFO's functions, and the theorems at concrete inputs.
use utils_modules.Base.{
  ℕ, ◌≡◌, refl, ◌⊎◌, arith, false, List, [], ◌∷◌, ◌++◌, Option, some, none, length, replicate,
  length-replicate, subst,
}
use utils_modules.Kfifo.{Kfifo, len, put, get}
use utils_modules.Base.Memory.{memcpy}
use utils_modules.Kfifo.Contents.{contents}
use utils_modules.Kfifo.Queue
use utils_modules.Kfifo.Valid.{IsValid}
use utils_modules.Kfifo.Refine.{put_refines, get_refines}
use utils_modules.Kfifo.Stream.{Op, puts, gets, run, Trace, run_conserves}
use utils_modules.Kfifo.Alloc.{aborted, null, generic_fls, fls_step, fls_steps, alloc}
use utils_modules.Kfifo.Alloc.Create.{alloc-never_ready}

-- Three bytes, 6, 7 and 8, held round the end of the buffer by indices that have wrapped.
abbrev wrapped : Kfifo
wrapped = record {
  buffer = 8 ∷ 0 ∷ 0 ∷ 0 ∷ 0 ∷ 0 ∷ 6 ∷ 7 ∷ [];
  size = 8;
  in_index = 1;
  out_index = 0xffff_fffe;
}

wrapped-IsValid : IsValid wrapped
unfolding len
wrapped-IsValid = record {
  order = 3;
  small = omega arith;
  power = refl;
  storage = refl;
  in_word = omega arith;
  out_word = omega arith;
  within = omega arith;
}

contents-wrapped : contents wrapped ≡ 6 ∷ 7 ∷ 8 ∷ []
unfolding len
contents-wrapped = refl

put_short :
    put wrapped (1 ∷ 2 ∷ 3 ∷ 4 ∷ 5 ∷ 9 ∷ []) 6
    ≡ some (5, record wrapped { buffer = 8 ∷ 1 ∷ 2 ∷ 3 ∷ 4 ∷ 5 ∷ 6 ∷ 7 ∷ []; in_index = 6 })
unfolding put memcpy
put_short = refl

put_beyond_source : put wrapped (1 ∷ []) 2 ≡ none
unfolding put memcpy
put_beyond_source = refl

put_refines_example :
    (count : ℕ) × (f' : Kfifo) × (put wrapped (1 ∷ 2 ∷ []) 2 ≡ some (count, f'))
    × IsValid f'
    × (f'.size ≡ wrapped.size)
    × ((count, contents f') ≡ Queue.put wrapped.size (contents wrapped) (1 ∷ 2 ∷ []) 2)
put_refines_example = put_refines wrapped-IsValid (1 ∷ 2 ∷ []) 2 (omega arith)

get_refines_example :
    (count : ℕ) × (out : List ℕ) × (f' : Kfifo) × (get wrapped (0 ∷ 0 ∷ []) 2
      ≡ some (count, out, f'))
    × IsValid f'
    × (f'.size ≡ wrapped.size)
    × ((count, out, contents f') ≡ Queue.get (contents wrapped) (0 ∷ 0 ∷ []) 2)
get_refines_example = get_refines wrapped-IsValid (0 ∷ 0 ∷ []) 2 (omega arith)

abbrev calls : List Op
calls = puts (1 ∷ 2 ∷ []) 2 ∷ gets (0 ∷ 0 ∷ 0 ∷ 0 ∷ []) 4 ∷ []

run_conserves_example :
    (t : Trace) × (run wrapped calls ≡ some t)
    × IsValid t.state
    × (contents wrapped ++ t.accepted ≡ t.delivered ++ contents t.state)
run_conserves_example = run_conserves wrapped wrapped-IsValid calls (omega arith)

fls_runs : generic_fls 40 ≡ 6
unfolding generic_fls fls_steps fls_step
fls_runs = refl

-- A `malloc` that always has memory, all zero.
abbrev zeroed : ℕ → Option (List ℕ)
zeroed n = some (replicate n 0)

zeroed-length : (n : ℕ) (bytes : List ℕ) → zeroed n ≡ some bytes → length bytes ≡ n
zeroed-length n bytes e =
    let p : replicate n 0 ≡ bytes = cc in subst (λ t. length t ≡ n) p (length-replicate n 0)

alloc-never_ready_example : (alloc false zeroed 6 ≡ aborted) ⊎ (alloc false zeroed 6 ≡ null)
alloc-never_ready_example = alloc-never_ready zeroed 6 (omega arith)
