-- ===== src/Kfifo.antt =====
-- datastruct/kfifo.h and datastruct/kfifo.c: a byte FIFO over a buffer whose size is a power of
-- two, with free-running 32-bit indices.
pub mod Valid
pub mod Ring
pub mod Contents
pub mod Put
pub mod Get
pub mod Queue
pub mod Refine
pub mod Stream
pub mod Alloc
mod Tests
use utils_modules.Base.{ℕ, ◌-◌, min, bit_and, List, Option, none, some, ◌==◌, if◌then◌else◌}
use utils_modules.Base.{◌>>=◌}
use utils_modules.Base.Words.{add32, sub32}
use utils_modules.Base.Memory.{memcpy}

-- `struct kfifo` without its lock; `in` and `out` are `in_index` and `out_index`.
pub record Kfifo : Type 0 where
  pub buffer : List ℕ
  pub size : ℕ
  pub in_index : ℕ
  pub out_index : ℕ

-- `fifo->in & (fifo->size - 1)`.
abbrev pub offset : Kfifo → ℕ → ℕ
offset f index = bit_and index (sub32 f.size 1)

-- `__kfifo_reset`.
pub reset : Kfifo → Kfifo
reset f = record f { in_index = 0; out_index = 0 }

-- `__kfifo_len`.
pub len : Kfifo → ℕ
len f = sub32 f.in_index f.out_index

-- `__kfifo_put`: the count of bytes copied and the new state. `none` is an access out of a buffer.
pub put : Kfifo → List ℕ → ℕ → Option (ℕ × Kfifo)
put f src n = do
  let count = min n (add32 (sub32 f.size f.in_index) f.out_index)
  let l = min count (sub32 f.size (offset f f.in_index))
  first ← memcpy f.buffer (offset f f.in_index) src 0 l
  second ← memcpy first 0 src l (count - l)
  some (count, record f { buffer = second; in_index = add32 f.in_index count })

-- `__kfifo_get`: the count of bytes copied, the destination and the new state.
pub get : Kfifo → List ℕ → ℕ → Option (ℕ × List ℕ × Kfifo)
get f dst n = do
  let count = min n (sub32 f.in_index f.out_index)
  let l = min count (sub32 f.size (offset f f.out_index))
  first ← memcpy dst 0 f.buffer (offset f f.out_index) l
  second ← memcpy first l f.buffer 0 (count - l)
  some (count, second, record f { out_index = add32 f.out_index count })

-- The body of `kfifo_get` under its lock: an emptied FIFO has its indices set to 0.
rewind : Kfifo → Kfifo
rewind f = if f.in_index == f.out_index then record f { in_index = 0; out_index = 0 } else f

pub locked_get : Kfifo → List ℕ → ℕ → Option (ℕ × List ℕ × Kfifo)
unfolding rewind
locked_get f dst n = do (count, out, f') ← get f dst n; some (count, out, rewind f')
