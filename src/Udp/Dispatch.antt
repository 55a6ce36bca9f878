-- ===== src/Udp/Dispatch.antt =====
-- The threads of a socket, udp/ex_udp.c: `thread_recv`, which takes a datagram, and `thread_listen`,
-- which checks a link from time to time.
use utils_modules.Base.{
  ℕ, ◌+◌, ◌*◌, Bool, not, List, [], ◌∷◌, Option, none, some, ◌==◌, ltb, leb, if◌then◌else◌, ◌||◌,
  ◌&&◌, ◌>>=◌,
}
use utils_modules.Timer.{Time}
use utils_modules.Udp.{
  Packet, Datagram, Link, LinkState, idle, half, joined, is_joined, is_half, zero_packet, send_msg,
  type_byte, link_syn, link_syn_ack, link_ack, max_packet_seq, ex_udp_ver,
}
use utils_modules.Udp.Clock.{ms_diff_below}
use utils_modules.Udp.Sock.{Sock, is_some}
use utils_modules.Udp.Messages.{seq_report_ack, seq_lack_ack}
use utils_modules.Udp.Receive.{received, user_data_recv, seq_check_ack}
use utils_modules.Udp.Table.{get_link, del_list, put_at}

-- The entries are made empty if packet 1 was received, and the next packet to be read is set.
unfoldable pub reset_slots : Link → ℕ → Packet
reset_slots l =
    let slots : ℕ → Packet =
      if (l.recv_slots 1).seq == 1 then (λ i. zero_packet) else l.recv_slots in
    put_at slots 0 (record (slots 0) { seq = 1 })

unfoldable pub restart : Link → ℕ → Link
restart l seq = record l { recv_slots = reset_slots l; seq_read = seq }

-- This side is half connected and the other side is connected.
unfoldable pub half_to_joined : Link → Packet → Link
half_to_joined l pa =
    if is_half l.link_state && pa.state == 2
    then record (restart l pa.seq_check) { link_state = joined }
    else l

unfoldable pub touch : Link → Link
touch l = record l { timeout = record (l.timeout) { sec = 0 } }

-- `LINK_SYN`.
unfoldable pub syn_state : Packet → LinkState
syn_state pa = if pa.state == 2 then idle else half

unfoldable pub syn_link : Link → Packet → Link
syn_link l pa =
    let l1 : Link = if ltb pa.state 2 then restart l pa.seq_check else l in
    if is_joined l1.link_state
    then l1
    else record l1 { link_state = syn_state pa; seq_read = pa.seq_check }

unfoldable pub on_syn : Link → Packet → Option (Link × List Datagram)
on_syn l pa =
    send_msg (syn_link l pa) (record pa { type = type_byte link_syn_ack }) 8
    >>= (λ one. some (syn_link l pa, one.0 ∷ []))

-- `LINK_SYN_ACK`: the head of the packet is used for the answer, and then read again.
unfoldable pub syn_ack_answer : Link → Packet → Option (Link × Packet × List Datagram)
syn_ack_answer l pa =
    if ltb pa.state 2
    then send_msg (restart l pa.seq_check) (record pa { type = type_byte link_ack }) 8
      >>= (λ one. some (restart l pa.seq_check, one.1, one.0 ∷ []))
    else some (l, pa, [])

unfoldable pub syn_ack_join : Link → Packet → Link
syn_ack_join l pa =
    if is_joined l.link_state then l else record l { link_state = joined; seq_read = pa.seq_check }

unfoldable pub syn_ack_sock : ℕ → Sock → Link → Sock
syn_ack_sock interval s l =
    if ms_diff_below s.time_listen l.timeout interval
    then s
    else record s { listen_posts = s.listen_posts + 1 }

unfoldable pub on_syn_ack : Link → Packet → Option (Link × List Datagram)
on_syn_ack l pa =
    syn_ack_answer l pa
    >>= (λ r. some (record (syn_ack_join (r.0) (r.1)) { send_posts = (r.0).send_posts + 1 }, r.2))

-- `LINK_ACK`.
unfoldable pub on_ack : Link → Link
on_ack l = if is_joined l.link_state then l else record l { link_state = joined }

-- What the switch of `thread_recv` does with a packet of a link: the link stays, or is deleted.
pub data Handled : Type 0 where
  stays : Sock → Link → List Datagram → Handled
  unlinks : Handled

module _ (echo : List ℕ → Time) (interval : ℕ) where
  unfoldable pub switch : Sock → Link → Packet → Time → Option Handled
  switch s l pa now =
      if pa.type == 1
      then on_syn l pa >>= (λ r. some (stays s (r.0) (r.1)))
      else if pa.type == 2
      then on_syn_ack l pa >>= (λ r. some (stays (syn_ack_sock interval s l) (r.0) (r.1)))
      else if pa.type == 3
      then some (stays s (on_ack l) [])
      else if pa.type == 4
      then some (stays (user_data_recv s l pa).1 (user_data_recv s l pa).2 [])
      else if pa.type == 5
      then seq_check_ack s l pa >>= (λ r. some (stays (r.0) (r.1).link (r.1).out))
      else if pa.type == 6
      then some (stays s (seq_report_ack echo l pa now).1 [])
      else if pa.type == 7
      then seq_lack_ack l pa >>= (λ r. some (stays s r.link r.out))
      else some unlinks

  -- A packet of a link, once the link is found.
  unfoldable pub on_packet : Sock → Link → Packet → Time → Option Handled
  on_packet s l pa now = switch s (touch (half_to_joined l pa)) pa now

-- The datagrams that `thread_recv` looks at: a type, a number in range, and the version when a link is
-- asked for. A datagram here is not shorter than a head, as the code demands of it.
unfoldable pub is_valid : Packet → Bool
is_valid pa =
    leb 1 pa.type
    && leb pa.type 8
    && ltb pa.seq max_packet_seq
    && (not (pa.type == 1) || pa.checksum == ex_udp_ver)

-- The state of the socket, what was sent, and the id of a link whose end the message queue is told.
pub record RecvOutcome : Type 0 where
  pub sock : Sock
  pub out : List Datagram
  pub told : Option ℕ

unfoldable pub tell : Sock → Link → Option ℕ
tell s l = if is_some s.msgid then some (l.id + l.socket * 65536) else none

module _ (echo : List ℕ → Time) (interval : ℕ) where
  -- The link that stays is written back; one that ends is deleted.
  unfoldable pub finish : Sock → ℕ → Link → Time → Handled → Option RecvOutcome
  finish s a l0 now (stays s' l out) =
      some
        (record { sock = record s' { links = put_at s'.links a (some l) }; out = out; told = none })
  finish s a l0 now unlinks =
      del_list (record s { links = put_at s.links a (some l0) }) a now
      >>= (λ r. some (record { sock = r.1; out = r.2; told = tell s l0 }))

  unfoldable pub on_linked : Sock → Packet → Time → Option ℕ → Option RecvOutcome
  on_linked s pa now none = some (record { sock = s; out = []; told = none })
  on_linked s pa now (some a) =
      s.links a
      >>= (λ l. on_packet echo interval s l pa now >>= finish s a (touch (half_to_joined l pa)) now)

  -- One round of `thread_recv`, with the result of `malloc`; of a socket that is closed the thread ends.
  unfoldable pub recv_datagram : Sock → Option ℕ → Datagram → Time → Option RecvOutcome
  recv_datagram s mem d now =
      if s.is_open && is_valid (received d)
      then get_link s mem d.ip d.port d.type now >>= (λ r. on_linked (r.1) (received d) now (r.0))
      else some (record { sock = s; out = []; told = none })

-- `exConnect`: the packet that asks for a link.
unfoldable pub connect_packet : Packet
connect_packet = record zero_packet {
  type = type_byte link_syn;
  checksum = ex_udp_ver;
  seq = 1;
  seq_check = 1;
  len = 8;
}
