-- ===== src/Kfifo/Queue.antt =====
-- What a byte FIFO of capacity `cap` promises: a list of bytes, oldest first.
use utils_modules.Base.{ℕ, ◌-◌, min, List, ◌++◌, length, take, drop}

-- As many bytes of `src` as fit, at most `n`, go to the end.
unfoldable pub put : ℕ → List ℕ → List ℕ → ℕ → ℕ × List ℕ
put cap q src n = let count = min n (cap - length q) in (count, q ++ take count src)

-- The oldest bytes, at most `n`, overwrite the front of `dst`.
unfoldable pub get : List ℕ → List ℕ → ℕ → ℕ × List ℕ × List ℕ
get q dst n = let count = min n (length q) in (count, take count q ++ drop count dst, drop count q)
