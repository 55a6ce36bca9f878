-- ===== src/Udp/Listen.antt =====
-- `thread_listen` of udp/ex_udp.c: what it does with one link, and the memory of deleted links.
use utils_modules.Base.{
  ℕ, ◌+◌, ◌*◌, ◌%◌, List, [], ◌∷◌, ◌++◌, Option, none, some, ◌==◌, ltb, if◌then◌else◌, ◌>>=◌,
}
use utils_modules.Timer.{Time}
use utils_modules.Udp.{
  Datagram, Link, is_joined, send_msg, type_byte, link_syn, ex_udp_ver, zero_packet,
}
use utils_modules.Udp.Clock.{ms_diff_below}
use utils_modules.Udp.Sock.{Sock}
use utils_modules.Udp.Send.{seq_check_now}
use utils_modules.Udp.Table.{put_at}

-- The heartbeat: the numbers of this side.
unfoldable pub heartbeat : Link → Option (List Datagram)
heartbeat l =
    if is_joined l.link_state
    then send_msg l
        (record zero_packet {
          type = type_byte link_syn;
          checksum = ex_udp_ver;
          seq = l.seq_max_send;
        })
        8
      >>= (λ one. some (one.0 ∷ []))
    else some []

-- What the thread does with a link before the check of the numbers: nothing, or a heartbeat, or the
-- link is given up.
pub data Watch : Type 0 where
  watched : Link → List Datagram → Watch
  given_up : Watch

-- `interval` and `times` are set by `setListenTime`; `timeout_times` is a byte.
unfoldable pub watch : ℕ → ℕ → Sock → Link → Time → Option Watch
watch interval times s l now =
    if l.timeout.sec == 0
    then some (watched (record l { timeout = now; timeout_times = 1 }) [])
    else if ms_diff_below s.time_listen l.timeout (interval * l.timeout_times)
    then some (watched l [])
    else if ltb times l.timeout_times
    then some given_up
    else heartbeat l
      >>= (λ out. some (watched (record l { timeout_times = (l.timeout_times + 1) % 256 }) out))

unfoldable pub check_watched :
    ℕ → Sock → Time → List ℕ → Watch → Option (Option (Sock × Link × List Datagram))
check_watched interval s now bytes given_up = some none
check_watched interval s now bytes (watched l out) =
    seq_check_now interval s l now bytes >>= (λ r. some (some (r.0, (r.1).link, out ++ (r.1).out)))

-- One link in a round of the thread: `none` inside if it is to be deleted.
unfoldable pub listen_link :
    ℕ → ℕ → Sock → Link → Time → List ℕ → Option (Option (Sock × Link × List Datagram))
listen_link interval times s l now bytes =
    watch interval times s l now >>= check_watched interval s now bytes

-- Deleted links are freed five seconds later, the oldest first.
unfoldable pub free_old : (ℕ → Option Link) → Time → List ℕ → Option ((ℕ → Option Link) × List ℕ)
free_old links now [] = some (links, [])
free_old links now (a ∷ more) =
    let rest : Option ((ℕ → Option Link) × List ℕ) = free_old (put_at links a none) now more in
    links a
    >>= (λ l. if ms_diff_below now l.timeout_free 5001 then some (links, a ∷ more) else rest)
