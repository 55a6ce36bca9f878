-- ===== src/Udp/Clock.antt =====
-- `GET_MS_DIFF` of udp/ex_udp.h: the milliseconds from one time to another, the seconds modulo 2^21.
-- The result is signed, so it is compared with a number of milliseconds by cases.
use utils_modules.Base.{ℕ, ◌+◌, ◌-◌, ◌*◌, ◌/◌, ◌%◌, Bool, ltb, leb, if◌then◌else◌}
use utils_modules.Timer.{Time}

unfoldable pub sec_diff : Time → Time → ℕ
sec_diff a b = (a.sec + (2097152 - b.sec % 2097152)) % 2097152

-- `GET_MS_DIFF(a, b) < ms`.
unfoldable pub ms_diff_below : Time → Time → ℕ → Bool
ms_diff_below a b ms =
    if leb b.usec a.usec
    then ltb (sec_diff a b * 1000 + (a.usec - b.usec) / 1000) ms
    else ltb (sec_diff a b * 1000) (ms + (b.usec - a.usec) / 1000)

-- `GET_MS_DIFF(a, b) & 0x1FFFFF`.
unfoldable pub ms_diff_masked : Time → Time → ℕ
ms_diff_masked a b =
    if leb b.usec a.usec
    then (sec_diff a b * 1000 + (a.usec - b.usec) / 1000) % 2097152
    else (sec_diff a b * 1000 + (2097152 - (b.usec - a.usec) / 1000 % 2097152)) % 2097152
