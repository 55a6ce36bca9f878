-- ===== src/Kfifo/Refine.antt =====
-- `__kfifo_put`, `__kfifo_get` and `kfifo_get` against the queue of the bytes held.
use utils_modules.Base.{
  ℕ, ◌≤◌, ◌≡◌, refl, sym, true, ◌∙◌, inl, inr, List, [], some, arith, length, ◌==◌, Bool-cases,
}
use utils_modules.Kfifo.Queue
use utils_modules.Kfifo.{Kfifo, len, put, get, locked_get, rewind, reset}
use utils_modules.Kfifo.Contents.{contents, length-contents}
use utils_modules.Kfifo.Valid.{IsValid}
use utils_modules.Kfifo.Put.{taken, after_put, put-eq, after_put-IsValid, contents-after_put}
use utils_modules.Kfifo.Get.{
  given, after_get, out_buffer, get-eq, after_get-IsValid, contents-after_get, out_buffer_lem,
}

-- On a valid FIFO and a source of at least `n` bytes, `__kfifo_put` makes no access outside a
-- buffer, returns the count of `Queue.put`, and leaves a valid FIFO of the same size that holds the
-- queue of `Queue.put`.
pub put_refines :
    {f : Kfifo} (v : IsValid f) (src : List ℕ) (n : ℕ)
    → n ≤ length src
    → (count : ℕ) × (f' : Kfifo) × (put f src n ≡ some (count, f'))
      × IsValid f'
      × (f'.size ≡ f.size)
      × ((count, contents f') ≡ Queue.put f.size (contents f) src n)
unfolding Queue.put
put_refines {f} v src n h = (
  taken v src n h,
  after_put v src n h,
  put-eq v src n h,
  after_put-IsValid v src n h,
  refl,
  rw (contents-after_put v src n h, length-contents f),
)

-- On a valid FIFO and a destination of at least `n` bytes, `__kfifo_get` makes no access outside a
-- buffer, returns the count of `Queue.get`, fills the destination as `Queue.get` does, its bytes
-- behind the count untouched, and leaves a valid FIFO of the same size that holds the rest.
pub get_refines :
    {f : Kfifo} (v : IsValid f) (dst : List ℕ) (n : ℕ)
    → n ≤ length dst
    → (count : ℕ) × (out : List ℕ) × (f' : Kfifo) × (get f dst n ≡ some (count, out, f'))
      × IsValid f'
      × (f'.size ≡ f.size)
      × ((count, out, contents f') ≡ Queue.get (contents f) dst n)
unfolding Queue.get
get_refines {f} v dst n h = (
  given v dst n h,
  out_buffer v dst n h,
  after_get v dst n h,
  get-eq v dst n h,
  after_get-IsValid v dst n h,
  refl,
  rw (contents-after_get v dst n h, out_buffer_lem v dst n h, length-contents f),
)

-- Setting the indices of an empty FIFO to 0 cannot be seen.
rewind-IsValid : (f : Kfifo) → IsValid f → IsValid (rewind f)
unfolding rewind len
rewind-IsValid f v = elim (Bool-cases (f.in_index == f.out_index)) [
  | inl e ↦ rw e (record {
    order = v.order;
    small = v.small;
    power = v.power;
    storage = v.storage;
    in_word = omega arith;
    out_word = omega arith;
    within = omega arith;
  })
  | inr e ↦ rw e v
]

size-rewind : (f : Kfifo) → (rewind f).size ≡ f.size
unfolding rewind
size-rewind f = ground arith

len-same_index : (f : Kfifo) → (f.in_index == f.out_index) ≡ true → len f ≡ 0
unfolding len
len-same_index f e = ground arith

contents-empty : (f : Kfifo) → len f ≡ 0 → contents f ≡ []
contents-empty f e = rw e

contents-rewind : (f : Kfifo) → contents (rewind f) ≡ contents f
unfolding rewind reset
contents-rewind f = elim (Bool-cases (f.in_index == f.out_index)) [
  | inl e ↦
      rw e (
        contents-empty (reset f) (unfold len in refl) ∙ sym (contents-empty f (len-same_index f e)))
  | inr e ↦ rw e
]

-- `kfifo_get`, which sets the indices of an emptied FIFO to 0, gives what `Queue.get` gives too.
pub locked_get_refines :
    {f : Kfifo} (v : IsValid f) (dst : List ℕ) (n : ℕ)
    → n ≤ length dst
    → (count : ℕ) × (out : List ℕ) × (f' : Kfifo) × (locked_get f dst n ≡ some (count, out, f'))
      × IsValid f'
      × (f'.size ≡ f.size)
      × ((count, out, contents f') ≡ Queue.get (contents f) dst n)
unfolding locked_get
locked_get_refines {f} v dst n h =
    let (count, out, f', run, v', same, agrees) = get_refines v dst n h in
    (
      count,
      out,
      rewind f',
      rw run,
      rewind-IsValid f' v',
      size-rewind f' ∙ same,
      rw (contents-rewind f') agrees,
    )

-- `__kfifo_reset` leaves a valid FIFO of the same size with no bytes.
pub reset-IsValid : {f : Kfifo} → IsValid f → IsValid (reset f) × (contents (reset f) ≡ [])
unfolding reset len
reset-IsValid v = (
  record {
    order = v.order;
    small = v.small;
    power = v.power;
    storage = v.storage;
    in_word = omega arith;
    out_word = omega arith;
    within = omega arith;
  },
  refl,
)
