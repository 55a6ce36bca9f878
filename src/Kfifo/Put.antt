-- ===== src/Kfifo/Put.antt =====
-- `__kfifo_put` on a valid FIFO.
use utils_modules.Base.{
  ℕ, ◌+◌, ◌-◌, ◌%◌, ◌≤◌, ◌<◌, min, ◌≡◌, sym, ap, ap₂, ◌∙◌, List, some, ◌++◌, arith, length, get_or,
  take,
}
use native.Mathlib.Nat.{add-mod_right}
use utils_modules.Base.Table.{table-ext, table-append, take-eq-table}
use utils_modules.Base.Words.{add32, sub32, wrap}
use utils_modules.Kfifo.{Kfifo, offset, len, put}
use utils_modules.Kfifo.Contents.{contents}
use utils_modules.Kfifo.Ring
use utils_modules.Kfifo.Valid.{IsValid, size-le, offset-lt, mod-eq-wrap-offset, free_lem, in-eq-add}

module _ {f : Kfifo} (v : IsValid f) (src : List ℕ) (n : ℕ) (enough : n ≤ length src) where
  abbrev pub taken : ℕ
  taken = min n (f.size - len f)

  abbrev pub buffer' : List ℕ
  buffer' =
      Ring.written f.buffer f.size (offset f f.in_index) taken v.storage (offset-lt v f.in_index)
        (omega arith) src (omega arith)

  abbrev pub after_put : Kfifo
  after_put = record f { buffer = buffer'; in_index = add32 f.in_index taken }

  len-after_put : len after_put ≡ len f + taken
  unfolding len
  len-after_put = omega (arith, size-le v)

  pub put-eq : put f src n ≡ some (taken, after_put)
  unfolding put
  put-eq =
      let to_end : sub32 f.size (offset f f.in_index) ≡ f.size - offset f f.in_index =
        omega (arith, size-le v, offset-lt v f.in_index) in
      rw (
        free_lem v,
        to_end,
        Ring.write-first f.buffer f.size (offset f f.in_index) taken v.storage
            (offset-lt v f.in_index) (omega arith) src (omega arith),
        Ring.write-second f.buffer f.size (offset f f.in_index) taken v.storage
            (offset-lt v f.in_index) (omega arith) src (omega arith),
      )

  pub after_put-IsValid : IsValid after_put
  after_put-IsValid = record {
    order = v.order;
    small = v.small;
    power = v.power;
    storage =
        Ring.length-written f.buffer f.size (offset f f.in_index) taken v.storage
          (offset-lt v f.in_index) (omega arith) src (omega arith);
    in_word = omega arith;
    out_word = v.out_word;
    within = omega (arith, len-after_put, v.within);
  }

  new_bytes :
      (i : ℕ) → i < taken → get_or buffer' ((f.out_index + (len f + i)) % f.size) 0 ≡ get_or src i 0
  new_bytes i lt =
      let group : f.out_index + (len f + i) ≡ (f.out_index + len f) + i = omega arith in
      rw
        (group, mod-eq-wrap-offset v (f.out_index + len f) f.in_index i (in-eq-add v) (omega arith))
        (Ring.written-inside f.buffer f.size (offset f f.in_index) taken v.storage
          (offset-lt v f.in_index) (omega arith) src (omega arith) i lt)

  old_bytes :
      (i : ℕ)
      → i < len f
      → get_or buffer' ((f.out_index + i) % f.size) 0
        ≡ get_or f.buffer ((f.out_index + i) % f.size) 0
  old_bytes i lt =
      let round : (f.out_index + i) % f.size
          ≡ wrap f.size (offset f f.in_index + (f.size - len f + i)) =
        sym (add-mod_right (f.out_index + i) f.size)
        ∙ ap (λ (t : ℕ). t % f.size) (regroup v.within)
        ∙ mod-eq-wrap-offset v (f.out_index + len f) f.in_index (f.size - len f + i) (in-eq-add v)
            (omega (arith, v.within)) in
      rw round (
        Ring.written-outside f.buffer f.size (offset f f.in_index) taken v.storage
          (offset-lt v f.in_index) (omega arith) src (omega arith) (f.size - len f + i)
          (omega arith) (omega (arith, v.within)))
    where
      regroup :
          len f ≤ f.size → f.out_index + i + f.size ≡ f.out_index + len f + (f.size - len f + i)
      regroup h = omega arith

  pub contents-after_put : contents after_put ≡ contents f ++ take taken src
  contents-after_put =
      table-append (len f) taken (len after_put) _ (λ i. get_or src i 0) len-after_put new_bytes
      ∙ ap₂ ◌++◌ (table-ext (len f) _ _ old_bytes) (sym (take-eq-table taken src 0 (omega arith)))
