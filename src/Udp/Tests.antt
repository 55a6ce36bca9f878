-- ===== src/Udp/Tests.antt =====
-- Links, channels and sockets with numbers, for the theorems on udp/ex_udp.c.
use utils_modules.Base.{
  ℕ, ◌+◌, ◌-◌, ◌/◌, ◌≡◌, refl, inl, true, false, List, [], ◌∷◌, ◌++◌, some, none, arith, subst, All,
  map,
}
use utils_modules.Timer.{Time}
use utils_modules.Udp.{
  Packet, Datagram, Link, joined, is_joined, holds, zero_packet, copy_to, next_seq, type_byte,
  store, state_byte, send_msg, datagram, stamp,
}
use utils_modules.Udp.Clock.{ms_diff_below, sec_diff}
use utils_modules.Udp.Sock.{Sock, ctl_interval_time, is_some}
use utils_modules.Udp.Messages.{
  Reply, Lacks, seq_lack_at, seq_lack_ack, lack_loop, lack_start, get_words,
}
use utils_modules.Udp.Receive.{
  received, user_data_recv, recv_round, advance, got, wanted, keep_packet, notify_read, recv_packet,
  to_read, data_size,
}
use utils_modules.Udp.Seq.{cmp_seq}
use utils_modules.Udp.Send.{send_round, has_room, fill, after_send}
use utils_modules.Udp.Numbered.{IsPacket, IsSender, IsReceiver}
use utils_modules.Udp.Channel.{Channel, IsFresh, Step, here, next, sends, data_comes, reads}
use utils_modules.Udp.Handshake.{quiet}
use utils_modules.Udp.Delivery.{delivers_in_order}
use utils_modules.Udp.Repair.{repairs_loss}
use utils_modules.Udp.Dispatch.{touch, on_syn, connect_packet}
use utils_modules.Udp.Again.{request_delivers_again}
use utils_modules.Udp.Lacking.{lack_loop_ends}
use utils_modules.Udp.Listing.{lacking, Lists, seq_lack_at_lem}
use utils_modules.Udp.Acks.{seq_lack_ack_resends, Stops, IsGenuine}

abbrev pub at : ℕ → Time
at s = record { sec = s; usec = 0 }

-- Each message is one byte.
abbrev bytes : ℕ → List ℕ
bytes n = (60 + n) ∷ []

abbrev pub empty : Packet
empty = record { type = 0; state = 0; seq = 0; seq_check = 0; checksum = 0; buf = []; len = 0 }

abbrev pub packet1 : Packet
packet1 = record {
  type = 4;
  state = 2;
  seq = 1;
  seq_check = 1;
  checksum = 0;
  buf = 61 ∷ 0 ∷ [];
  len = 9;
}

-- A link that is up, with nothing sent or received, and one that has sent packet 1.
abbrev pub link0 : Link
link0 = record {
  link_state = joined;
  id = 0;
  socket = 3;
  port = 4000;
  ip = 9;
  timeout_free = at 0;
  priority_send_lack = false;
  accept = true;
  timeout_times = 1;
  timeout = at 5;
  timeout_send = at 0;
  timeout_check_lack = record { sec = 0; usec = 20000 };
  timeout_report_lack = at 0;
  wait_time = none;
  recv_posts = 0;
  send_posts = 0;
  seq_read = 1;
  seq_read_max = 2;
  seq_max_send = 1;
  seq_check_send = 0;
  recv_slots = λ i. empty;
  send_slots = λ i. packet1;
}

abbrev link1 : Link
link1 = record link0 { seq_max_send = 2 }

abbrev pub sock0 : Sock
sock0 = record {
  is_open = true;
  socket = 3;
  msgid = none;
  wait_time = none;
  time_send = at 0;
  time_listen = at 100;
  links = λ a. none;
  list = [];
  free_list = [];
  next_listen_link = none;
  by_port = λ p. [];
  by_id = λ i. none;
  read_ids = [];
  free_ids = 7 ∷ 8 ∷ [];
  accept_posts = 0;
  listen_posts = 0;
  recv_to_msg_posts = 0;
}

link1-IsSender : IsSender bytes 0 2 link1
unfolding is_joined
link1-IsSender = (
  refl,
  refl,
  refl,
  omega arith,
  omega arith,
  λ n a b.
      let one : 1 ≡ n = omega arith in
      (
        subst (λ k. IsPacket bytes k packet1) one (refl, refl, omega arith, omega arith, refl),
        refl,
      ),
)

link0-IsReceiver : IsReceiver bytes 2 1 link0
unfolding is_joined
link0-IsReceiver = (refl, refl, λ i lt. inl refl)

link0-late : ms_diff_below (at 1) (at 0) 20 ≡ false
unfolding ms_diff_below sec_diff
link0-late = refl

link0-lacks : holds link0.recv_slots 1 ≡ false
unfolding holds
link0-lacks = refl

repairs_loss_example :
    (lack : Datagram) × (d : Datagram) × (ds : List Datagram) × (lacks : Reply) × (again : Reply)
    × (l : Link) × (seq_lack_at 600 link0 (at 1) ≡ some lacks)
    × (lacks.out ≡ lack ∷ [])
    × (seq_lack_ack link1 (received lack) ≡ some again)
    × (again.out ≡ d ∷ ds)
    × ((user_data_recv sock0 lacks.link (received d)).2 ≡ l)
    × (recv_round 600 l (1 ∷ 2 ∷ []) (at 1) ≡ some (got 1 (61 ∷ 2 ∷ []), advance l, []))
repairs_loss_example =
    repairs_loss bytes 0 2 1 600 sock0 link1 link0 (at 1) (1 ∷ 2 ∷ []) link1-IsSender
      link0-IsReceiver (omega arith) (omega arith) refl link0-lacks link0-late (omega arith)

-- Packet 1 is sent, comes, and is read.
abbrev sent : Packet
sent = stamp link0 (fill link0 (61 ∷ 0 ∷ []) 1)

abbrev sent_link : Link
sent_link = record link0 { send_slots = store link0.send_slots 1 sent; seq_max_send = next_seq 1 }

abbrev sent_datagram : Datagram
sent_datagram = datagram link0 sent 9

abbrev receiver1 : Link
receiver1 = (user_data_recv sock0 link0 (received sent_datagram)).2

abbrev channel0 : Channel
channel0 = quiet link0 link0

abbrev channel1 : Channel
channel1 = record channel0 {
  sender = sent_link;
  accepted = (61 ∷ []) ∷ [];
  wire = (1, sent_datagram) ∷ [];
}

abbrev channel2 : Channel
channel2 = record channel1 { receiver = receiver1 }

abbrev channel3 : Channel
channel3 = record channel2 { receiver = advance receiver1; delivered = (61 ∷ []) ∷ [] }

channel0-IsFresh : IsFresh channel0
unfolding is_joined
channel0-IsFresh = (refl, refl, refl, refl, refl, λ i. refl, refl, refl, refl, refl)

sends1 : Step bytes channel0 channel1
unfolding send_round has_room fill copy_to send_msg datagram stamp after_send ctl_interval_time
    type_byte state_byte next_seq store zero_packet
sends1 =
    sends 3000 sock0 (ctl_interval_time 3000 sock0 (at 1)) (61 ∷ 0 ∷ []) 1 (at 1) sent_datagram
      sent_link refl (omega arith) (omega arith) refl refl refl

comes1 : Step bytes channel1 channel2
comes1 = data_comes 0 1 sent_datagram sock0 refl (omega arith) refl

reads1 : Step bytes channel2 channel3
unfolding send_msg fill copy_to datagram stamp type_byte state_byte next_seq store zero_packet
    received user_data_recv is_joined wanted cmp_seq holds keep_packet notify_read is_some
    recv_round recv_packet to_read data_size advance
reads1 = reads 600 (1 ∷ 2 ∷ []) (61 ∷ 2 ∷ []) 1 (at 1) (advance receiver1) [] refl refl

delivers_in_order_example : (rest : List (List ℕ)) × (((61 ∷ []) ∷ []) ≡ ((61 ∷ []) ∷ []) ++ rest)
delivers_in_order_example =
    delivers_in_order bytes channel0 channel3 channel0-IsFresh
      (next (next (next here sends1) comes1) reads1)

seq_lack_at_lem_example :
    (out : List Datagram) × (seq_lack_at 600 link0 (at 1)
      ≡ some (record { ok = true; link = record link0 { timeout_report_lack = at 1 }; out = out }))
    × Lists (lacking link0.recv_slots 1 1) out
seq_lack_at_lem_example =
    seq_lack_at_lem 600 link0 (at 1) 1 2 0 (omega arith) refl refl refl (omega arith) link0-late

lack_loop_ends_example : (s : Lacks) × (lack_loop 3000 link0 lack_start 2000 ≡ some s)
lack_loop_ends_example = lack_loop_ends 3000 link0 lack_start 2000 (omega arith) (omega arith)

-- A list with the numbers 1 and 9, of which only the first was sent.
abbrev lack_packet : Packet
lack_packet = record empty { type = 7; buf = 1 ∷ 0 ∷ 9 ∷ 0 ∷ []; len = 12 }

seq_lack_ack_resends_example :
    (r : Reply) × (rest : List ℕ) × (seq_lack_ack link1 lack_packet ≡ some r)
    × (get_words ((12 - 8) / 2) lack_packet.buf ≡ map (λ d. d.seq) r.out ++ rest)
    × Stops bytes 0 2 rest
    × All (IsGenuine bytes 0 2) r.out
    × IsSender bytes 0 2 r.link
    × (r.link.priority_send_lack ≡ false)
seq_lack_ack_resends_example = seq_lack_ack_resends bytes 0 2 link1 lack_packet link1-IsSender

-- Packet 1 was read, and packet 2 is next; then the request and packet 1 come again.
abbrev read_on : Link
read_on = record link0 {
  seq_read = 2;
  recv_slots = store link0.recv_slots 1 (record packet1 { len = 0 });
}

read_on-first : (read_on.recv_slots 1).seq ≡ 1
unfolding store
read_on-first = refl

request_delivers_again_example :
    (l : Link) × (m : Link) × (answer : Datagram) × (on_syn (touch read_on) connect_packet
      ≡ some (l, answer ∷ []))
    × ((user_data_recv sock0 l (received sent_datagram)).2 ≡ m)
    × (recv_round 600 m (1 ∷ 2 ∷ []) (at 1) ≡ some (got 1 (61 ∷ 2 ∷ []), advance m, []))
unfolding is_joined stamp fill store copy_to zero_packet type_byte datagram
request_delivers_again_example =
    request_delivers_again bytes sock0 read_on sent_datagram 600 (1 ∷ 2 ∷ []) (at 1) refl
      read_on-first (refl, refl, refl, omega arith, omega arith)
