-- ===== src/Udp/Seq.antt =====
-- The comparisons of packet numbers, `CMP_SEQ` and `CMP_SEQ_ORDER` of udp/ex_udp.h. Packets are
-- counted without bound, and the number that travels is the count modulo 2044.
use utils_modules.Base.{ℕ, ◌+◌, ◌%◌, ◌≤◌, ◌<◌, ◌≡◌, Bool, true, false, ltb, leb, ◌&&◌, ◌||◌, arith}

unfoldable pub cmp_seq : ℕ → ℕ → Bool
cmp_seq head tail =
    (ltb tail head && ltb head (tail + 511)) || (ltb head tail && ltb (head + 1533) tail)

unfoldable pub cmp_seq_order : ℕ → ℕ → ℕ → Bool
cmp_seq_order head mid tail =
    (leb head mid && (ltb mid tail && ltb tail (head + 511)))
    || (leb head mid && (ltb tail head && ltb (tail + 1533) head))
    || (ltb tail head && (ltb mid tail && ltb (tail + 1533) head))

pub cmp_seq-ahead : (n r : ℕ) → r < n → n < r + 511 → cmp_seq (n % 2044) (r % 2044) ≡ true
unfolding cmp_seq
cmp_seq-ahead n r h k = ground arith

pub cmp_seq-behind : (n r : ℕ) → n ≤ r → r ≤ n + 1533 → cmp_seq (n % 2044) (r % 2044) ≡ false
unfolding cmp_seq
cmp_seq-behind n r h k = ground arith

pub cmp_seq_order-inside :
    (a n b : ℕ)
    → a ≤ n
    → n < b
    → b ≤ a + 510
    → cmp_seq_order (a % 2044) (n % 2044) (b % 2044) ≡ true
unfolding cmp_seq_order
cmp_seq_order-inside a n b h k w = ground arith

pub cmp_seq_order-behind :
    (a n b : ℕ)
    → n < a
    → a ≤ b
    → b ≤ a + 510
    → b ≤ n + 2044
    → cmp_seq_order (a % 2044) (n % 2044) (b % 2044) ≡ false
unfolding cmp_seq_order
cmp_seq_order-behind a n b h k w x = ground arith
