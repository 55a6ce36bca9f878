-- ===== src/Kfifo/Get.antt =====
-- `__kfifo_get` on a valid FIFO.
use utils_modules.Base.{
  ℕ, ◌+◌, ◌-◌, ◌%◌, ◌≤◌, ◌<◌, min, ◌≡◌, refl, sym, ap, ◌∙◌, List, some, ◌++◌, arith, length, get_or,
  take, drop, length-append, length-take, length-drop, get_or-append_left, get_or-append_right,
  get_or-take, get_or-drop, dec_lt,
}
use utils_modules.Base.Table.{table, drop-table, list-ext, get_or-table}
use utils_modules.Base.Words.{add32, sub32}
use utils_modules.Kfifo.{Kfifo, offset, len, get}
use utils_modules.Kfifo.Contents.{contents, length-contents}
use utils_modules.Kfifo.Ring
use utils_modules.Kfifo.Valid.{IsValid, size-le, offset-lt, mod-eq-wrap-offset, wrapped-mod_size}

module _ {f : Kfifo} (v : IsValid f) (dst : List ℕ) (n : ℕ) (room : n ≤ length dst) where
  abbrev pub given : ℕ
  given = min n (len f)

  pub given-le : given ≤ f.size
  given-le = omega (arith, v.within)

  abbrev pub out_buffer : List ℕ
  out_buffer =
      Ring.fetched f.buffer f.size (offset f f.out_index) given v.storage (offset-lt v f.out_index)
        given-le dst (omega arith)

  abbrev pub after_get : Kfifo
  after_get = record f { out_index = add32 f.out_index given }

  len-after_get : len after_get ≡ len f - given
  unfolding len
  len-after_get = omega (arith, size-le v, v.in_word, v.out_word)

  pub get-eq : get f dst n ≡ some (given, out_buffer, after_get)
  unfolding get
  get-eq =
      let to_end : sub32 f.size (offset f f.out_index) ≡ f.size - offset f f.out_index =
        omega (arith, size-le v, offset-lt v f.out_index) in
      let held : sub32 f.in_index f.out_index ≡ len f = unfold len in refl in
      rw (
        held,
        to_end,
        Ring.read-head f.buffer f.size (offset f f.out_index) given v.storage
            (offset-lt v f.out_index) given-le dst (omega arith),
        Ring.read-rest f.buffer f.size (offset f f.out_index) given v.storage
            (offset-lt v f.out_index) given-le dst (omega arith),
      )

  pub after_get-IsValid : IsValid after_get
  after_get-IsValid = record {
    order = v.order;
    small = v.small;
    power = v.power;
    storage = v.storage;
    in_word = v.in_word;
    out_word = omega arith;
    within = omega (arith, len-after_get, v.within);
  }

  pub contents-after_get : contents after_get ≡ drop given (contents f)
  contents-after_get =
      ap (λ t. table t (λ i. get_or f.buffer ((after_get.out_index + i) % f.size) 0)) len-after_get
      ∙ sym (
          drop-table given (len f) _ (λ i. get_or f.buffer ((after_get.out_index + i) % f.size) 0)
            shifted)
    where
      shifted :
          (i : ℕ)
          → i < len f - given
          → get_or f.buffer ((f.out_index + (given + i)) % f.size) 0
            ≡ get_or f.buffer ((after_get.out_index + i) % f.size) 0
      shifted i lt =
          let group : f.out_index + (given + i) ≡ (f.out_index + given) + i = omega arith in
          rw group
            (ap (λ t. get_or f.buffer t 0) (sym (wrapped-mod_size v (f.out_index + given) i)))

  length-out_buffer : length out_buffer ≡ length dst
  length-out_buffer =
      Ring.length-fetched f.buffer f.size (offset f f.out_index) given v.storage
        (offset-lt v f.out_index) given-le dst (omega arith)

  -- The destination holds the oldest bytes, and what it held behind them.
  pub out_buffer_lem : out_buffer ≡ take given (contents f) ++ drop given dst
  out_buffer_lem =
      list-ext out_buffer (take given (contents f) ++ drop given dst) 0
        (omega (
          arith,
          length-out_buffer,
          length-append (take given (contents f)) (drop given dst),
          chunk,
          length-drop given dst,
        ))
        λ i lt. elim (dec_lt i given) [
          | yes low ↦
              Ring.fetched-inside f.buffer f.size (offset f f.out_index) given v.storage
                (offset-lt v f.out_index) given-le dst (omega arith) i low
              ∙ sym (
                  get_or-append_left (take given (contents f)) (drop given dst) i 0
                    (omega (arith, chunk))
                  ∙ get_or-take given (contents f) i 0 low
                  ∙ get_or-table (len f) _ i 0 (omega arith)
                  ∙ ap (λ t. get_or f.buffer t 0)
                      (mod-eq-wrap-offset v f.out_index f.out_index i (omega (arith, v.out_word))
                        (omega (arith, v.within))))
          | no high ↦
              Ring.fetched-outside f.buffer f.size (offset f f.out_index) given v.storage
                (offset-lt v f.out_index) given-le dst (omega arith) i (omega arith)
              ∙ sym (
                  get_or-append_right (take given (contents f)) (drop given dst) i (i - given) 0
                    (omega (arith, chunk))
                  ∙ get_or-drop given dst (i - given) i 0 (omega arith))
        ]
    where
      chunk : length (take given (contents f)) ≡ given
      chunk = omega (arith, length-take given (contents f), length-contents f)
