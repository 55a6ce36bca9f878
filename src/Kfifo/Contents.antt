-- ===== src/Kfifo/Contents.antt =====
-- The bytes that a FIFO holds, oldest first.
use utils_modules.Base.{ℕ, ◌+◌, ◌%◌, ◌≡◌, List, length, get_or}
use utils_modules.Base.Table.{table, length-table}
use utils_modules.Kfifo.{Kfifo, len}

-- From `out` on, going round at the size.
abbrev pub contents : Kfifo → List ℕ
contents f = table (len f) (λ i. get_or f.buffer ((f.out_index + i) % f.size) 0)

pub length-contents : (f : Kfifo) → length (contents f) ≡ len f
length-contents f = length-table (len f) _
