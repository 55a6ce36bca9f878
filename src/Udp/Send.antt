-- ===== src/Udp/Send.antt =====
-- The sending side of a link, udp/ex_udp.c: the rounds of `exSend`, and `SeqCheck`, which asks the
-- receiver how far it has read.
use utils_modules.Base.{
  ℕ, zero, suc, ◌+◌, ◌/◌, ◌%◌, Bool, true, false, not, List, [], ◌∷◌, Option, none, some, ◌==◌,
  if◌then◌else◌, ◌&&◌, ◌>>=◌,
}
use utils_modules.Timer.{Time}
use utils_modules.Udp.{
  Packet, Datagram, Link, user_data, seq_check, type_byte, is_joined, zero_packet, store, next_seq,
  send_msg, copy_to, max_packet_number, len_packet_head,
}
use utils_modules.Udp.Clock.{ms_diff_below}
use utils_modules.Udp.Sock.{Sock, ctl_interval_time}
use utils_modules.Udp.Messages.{Reply}

-- Is there an entry for one more packet?
unfoldable pub has_room : Link → Bool
has_room l =
    not l.priority_send_lack
    && not ((l.seq_max_send + 1) % max_packet_number == l.seq_check_send % max_packet_number)

-- The packet that `exSend` writes in its entry.
unfoldable pub fill : Link → List ℕ → ℕ → Packet
fill l buf len = record (l.send_slots (l.seq_max_send % max_packet_number)) {
  seq = l.seq_max_send;
  seq_check = next_seq l.seq_check_send;
  type = type_byte user_data;
  len = len_packet_head + len;
  buf = copy_to (l.send_slots (l.seq_max_send % max_packet_number)).buf buf len;
}

-- What one round of the loop of `exSend` comes to: the packet was sent, `sendto` failed, or there was
-- no room; then the call returns 0, or waits, without a limit or for some milliseconds.
pub data SendRound : Type 0 where
  sent_packet : Datagram → SendRound
  send_failed : SendRound
  no_room : SendRound
  send_waits : Option ℕ → SendRound

unfoldable pub send_wait : Option ℕ → SendRound
send_wait none = send_waits none
send_wait (some zero) = no_room
send_wait (some (suc ms)) = send_waits (some (suc ms))

unfoldable pub after_send : Bool → ℕ → Sock → Link → Time → Datagram → SendRound × Sock × Link
after_send true interval s l now d = (
  sent_packet d,
  ctl_interval_time interval s now,
  record l { seq_max_send = next_seq l.seq_max_send },
)
after_send false interval s l now d = (send_failed, s, l)

-- `sends` tells whether `sendto` succeeds. `len` is at most a packet's data, so that one round sends
-- all of it.
unfoldable pub send_round :
    Bool → ℕ → Sock → Link → List ℕ → ℕ → Time → Option (SendRound × Sock × Link)
send_round sends interval s l buf len now =
    if has_room l
    then send_msg l (fill l buf len) (len_packet_head + len) >>= (λ one. some (
        after_send sends interval s
          (record l {
            send_slots = store l.send_slots (l.seq_max_send % max_packet_number) (one.1);
          })
          now (one.0)))
    else some (send_wait l.wait_time, s, l)

-- `SeqCheck` at the time `now`, whose bytes the packet carries.
unfoldable pub check_packet : Link → List ℕ → Packet
check_packet l bytes = record zero_packet {
  type = type_byte seq_check;
  seq = l.seq_max_send;
  seq_check = next_seq l.seq_check_send;
  len = len_packet_head + 16;
  buf = copy_to zero_packet.buf bytes 16;
}

unfoldable pub send_check : ℕ → Sock → Link → Time → List ℕ → Option (Sock × Reply)
send_check interval s l now bytes =
    send_msg l (check_packet l bytes) (len_packet_head + 16) >>= (λ one. some (
      ctl_interval_time interval s now,
      record { ok = true; link = record l { timeout_send = now }; out = one.0 ∷ [] },
    ))

unfoldable pub seq_check_now : ℕ → Sock → Link → Time → List ℕ → Option (Sock × Reply)
seq_check_now interval s l now bytes =
    if is_joined l.link_state && ms_diff_below s.time_listen l.timeout interval
    then if l.seq_max_send == next_seq l.seq_check_send
      then some (s, record { ok = true; link = l; out = [] })
      else if ms_diff_below now l.timeout_send (l.timeout_check_lack.usec / 1000)
      then some (s, record { ok = false; link = l; out = [] })
      else send_check interval s l now bytes
    else some (s, record { ok = true; link = l; out = [] })
