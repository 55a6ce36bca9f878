-- ===== src/Udp/Channel.antt =====
-- One direction of a link, from `exSend` at one side to `exRecv` at the other, over a network that
-- loses, repeats and reorders datagrams, udp/ex_udp.c. Of what the receiver sends back, any list of
-- lacking packets and any request for a report may come, at any time; so may, at both sides, requests,
-- answers and confirmations of the link. Those of a side that is not connected are left out: such a
-- request makes a connected side start anew, which ends the stream of messages.
use utils_modules.Base.{
  ℕ, suc, ◌+◌, ◌≤◌, ◌≡◌, true, false, List, [], ◌∷◌, ◌++◌, length, take, map, get_elem?, some,
}
use utils_modules.Timer.{Time}
use utils_modules.Udp.{Packet, Datagram, Link, is_joined}
use utils_modules.Udp.Greetings.{Greets}
use utils_modules.Udp.Sock.{Sock}
use utils_modules.Udp.Messages.{Reply, seq_report_ack, seq_lack_ack, seq_report_at}
use utils_modules.Udp.Send.{sent_packet, send_failed, send_round}
use utils_modules.Udp.Receive.{got, user_data_recv, recv_round, received, seq_check_ack}

-- The two links; the messages that `exSend` took and those that `exRecv` gave; and the datagrams that
-- were sent, each with the number that was next, to be sent or to be read, when it was.
pub record Channel : Type 0 where
  pub sender : Link
  pub receiver : Link
  pub accepted : List (List ℕ)
  pub delivered : List (List ℕ)
  pub wire : List (ℕ × Datagram)
  pub reports : List (ℕ × Datagram)

abbrev pub next_sent : Channel → ℕ
next_sent c = suc (length c.accepted)

abbrev pub next_read : Channel → ℕ
next_read c = suc (length c.delivered)

abbrev pub stamped : ℕ → List Datagram → List (ℕ × Datagram)
stamped t ds = map (λ d. (t, d)) ds

-- A step of one of the two sides, of the messages numbered by `msg`. A datagram with data comes at the
-- latest when 1024 packets are read that were not yet sent when it was, and a report when 2043 packets
-- are sent.
pub data Step (msg : ℕ → List ℕ) (c : Channel) (c' : Channel) : Type 0 where
  sends :
      (interval : ℕ) (s s' : Sock) (buf : List ℕ) (len : ℕ) (now : Time) (d : Datagram) (l : Link)
      → len ≡ length (msg (next_sent c))
      → 1 ≤ len
      → len ≤ 1464
      → take len buf ≡ msg (next_sent c)
      → send_round true interval s c.sender buf len now ≡ some (sent_packet d, s', l)
      → c' ≡ record c {
        sender = l;
        accepted = c.accepted ++ (take len buf ∷ []);
        wire = (next_sent c, d) ∷ c.wire;
      }
      → Step msg c c'
  fails :
      (interval : ℕ) (s s' : Sock) (buf : List ℕ) (len : ℕ) (now : Time) (l : Link)
      → len ≡ length (msg (next_sent c))
      → 1 ≤ len
      → len ≤ 1464
      → take len buf ≡ msg (next_sent c)
      → send_round false interval s c.sender buf len now ≡ some (send_failed, s', l)
      → c' ≡ record c { sender = l }
      → Step msg c c'
  data_comes :
      (i t : ℕ) (d : Datagram) (s : Sock)
      → get_elem? c.wire i ≡ some (t, d)
      → next_read c ≤ t + 1024
      → c' ≡ record c { receiver = (user_data_recv s c.receiver (received d)).2 }
      → Step msg c c'
  reads :
      (fuel : ℕ) (buf out : List ℕ) (n : ℕ) (now : Time) (l : Link) (ds : List Datagram)
      → recv_round fuel c.receiver buf now ≡ some (got n out, l, ds)
      → c' ≡ record c { receiver = l; delivered = c.delivered ++ (take n out ∷ []) }
      → Step msg c c'
  reported :
      (fuel : ℕ) (now : Time) (r : Reply) (d : Datagram) (ds : List Datagram)
      → seq_report_at fuel c.receiver now ≡ some r
      → r.out ≡ d ∷ ds
      → c' ≡ record c { receiver = r.link; reports = (next_read c, d) ∷ c.reports }
      → Step msg c c'
  check_comes :
      (s s' : Sock) (pa : Packet) (r : Reply)
      → seq_check_ack s c.receiver pa ≡ some (s', r)
      → c' ≡ record c { receiver = r.link; reports = stamped (next_read c) r.out ++ c.reports }
      → Step msg c c'
  report_comes :
      (i t : ℕ) (d : Datagram) (echo : List ℕ → Time) (now : Time)
      → get_elem? c.reports i ≡ some (t, d)
      → next_sent c ≤ t + 2043
      → c' ≡ record c { sender = (seq_report_ack echo c.sender (received d) now).1 }
      → Step msg c c'
  lack_comes :
      (pa : Packet) (r : Reply)
      → seq_lack_ack c.sender pa ≡ some r
      → c' ≡ record c { sender = r.link; wire = stamped (next_sent c) r.out ++ c.wire }
      → Step msg c c'
  receiver_greeted :
      (pa : Packet) (l : Link)
      → Greets c.receiver pa l
      → c' ≡ record c { receiver = l }
      → Step msg c c'
  sender_greeted :
      (pa : Packet) (l : Link) → Greets c.sender pa l → c' ≡ record c { sender = l } → Step msg c c'

pub data Reach (msg : ℕ → List ℕ) (c : Channel) : Channel → Type 0 where
  here : Reach msg c c
  next : {d e : Channel} → Reach msg c d → Step msg d e → Reach msg c e

-- A channel of two links that were just set up.
abbrev pub IsFresh : Channel → Type 0
IsFresh c =
    (is_joined c.sender.link_state ≡ true)
    × (c.sender.seq_check_send ≡ 0)
    × (c.sender.seq_max_send ≡ 1)
    × (is_joined c.receiver.link_state ≡ true)
    × (c.receiver.seq_read ≡ 1)
    × ((i : ℕ) → (c.receiver.recv_slots i).len ≡ 0)
    × (c.accepted ≡ [])
    × (c.delivered ≡ [])
    × (c.wire ≡ [])
    × (c.reports ≡ [])
