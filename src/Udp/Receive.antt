-- ===== src/Udp/Receive.antt =====
-- The packets that come in, udp/ex_udp.c: `UserDataRecv` and `SeqCheckAck` in the thread that
-- receives, and `exRecv` and `SendToMsgQueue`, which read.
use utils_modules.Base.{
  ℕ, zero, suc, ◌+◌, ◌-◌, ◌%◌, Bool, true, false, not, List, [], ◌∷◌, Option, none, some, ltb, ◌==◌,
  if◌then◌else◌, ◌||◌, take, ◌>>=◌, min, length,
}
use utils_modules.Timer.{Time}
use utils_modules.Udp.{
  Packet, Datagram, Link, seq_report, type_byte, is_joined, zero_packet, store, next_seq,
  previous_seq, holds, send_msg, copy_to, max_packet_number, max_packet_data_size, len_packet_head,
}
use utils_modules.Udp.Seq.{cmp_seq, cmp_seq_order}
use utils_modules.Udp.Sock.{Sock, is_some, add_list_read, del_list_read}
use utils_modules.Udp.Messages.{Reply, seq_report_at}

-- `recvfrom` into a packet of zeros.
unfoldable pub received : Datagram → Packet
received d = record {
  type = d.type;
  state = d.state;
  seq = d.seq;
  seq_check = d.seq_check;
  checksum = d.checksum;
  buf = copy_to zero_packet.buf d.payload (min (length d.payload) max_packet_data_size);
  len = len_packet_head + min (length d.payload) max_packet_data_size;
}

-- The thread that feeds the message queue is told of a link, if there is a queue.
unfoldable pub notify_read : Sock → ℕ → Sock
notify_read s id = if is_some s.msgid then add_list_read s id else s

unfoldable pub wanted : Link → Packet → Bool
wanted l pa = cmp_seq pa.seq l.seq_read || pa.seq == l.seq_read

-- The packet is put in its entry.
unfoldable pub keep_packet : Link → Packet → Link
keep_packet l pa = record l {
  recv_slots = store l.recv_slots (pa.seq % max_packet_number) pa;
  recv_posts = if pa.seq == l.seq_read then l.recv_posts + 1 else l.recv_posts;
}

-- `UserDataRecv`.
unfoldable pub user_data_recv : Sock → Link → Packet → Bool × Sock × Link
user_data_recv s l pa =
    if not (is_joined l.link_state)
    then (false, s, l)
    else if not (wanted l pa)
    then (false, s, l)
    else if holds l.recv_slots pa.seq
    then (true, s, l)
    else (true, (if pa.seq == l.seq_read then notify_read s l.id else s), keep_packet l pa)

-- `SeqCheckAck`: the answer is the packet itself, with the number read and the time it carries.
unfoldable pub check_answer : Link → Packet → Option (List Datagram)
check_answer l pa =
    if pa.seq_check == l.seq_read
    then some []
    else send_msg l (record pa { type = type_byte seq_report; seq = previous_seq l.seq_read })
        pa.len
      >>= (λ sent. some (sent.0 ∷ []))

unfoldable pub seq_check_ack : Sock → Link → Packet → Option (Sock × Reply)
seq_check_ack s l pa =
    if not (is_joined l.link_state)
    then some (s, record { ok = false; link = l; out = [] })
    else if l.seq_read == pa.seq || cmp_seq_order pa.seq_check l.seq_read pa.seq
    then check_answer l pa >>= (λ out. some (
      notify_read s l.id,
      record {
        ok = true;
        link = record l { seq_read_max = pa.seq; recv_posts = l.recv_posts + 1 };
        out = out;
      },
    ))
    else some (s, record { ok = false; link = l; out = [] })

-- The packet with the number `SeqRead` is taken out.
unfoldable pub to_read : Link → Packet
to_read l = l.recv_slots (l.seq_read % max_packet_number)

unfoldable pub advance : Link → Link
advance l = record l {
  recv_slots = store l.recv_slots (l.seq_read % max_packet_number) (record (to_read l) { len = 0 });
  seq_read = next_seq l.seq_read;
}

-- What one round of the loop of `exRecv` comes to: the length and the buffer after the packet was
-- copied to it, the exit on a length that is too large, or no packet; then the call returns 0, or
-- waits, without a limit or for some milliseconds.
pub data RecvRound : Type 0 where
  got : ℕ → List ℕ → RecvRound
  recv_exit : RecvRound
  no_data : RecvRound
  recv_waits : Option ℕ → RecvRound

unfoldable pub recv_wait : Option ℕ → RecvRound
recv_wait none = recv_waits none
recv_wait (some zero) = no_data
recv_wait (some (suc ms)) = recv_waits (some (suc ms))

-- The length of the data in a packet, a `USHORT`.
unfoldable pub data_size : Packet → ℕ
data_size pa = (pa.len + 65528) % 65536

unfoldable pub recv_packet : Link → List ℕ → RecvRound × Link
recv_packet l buf = if ltb max_packet_data_size (data_size (to_read l)) then (recv_exit, l) else (
  got (data_size (to_read l)) (copy_to buf (to_read l).buf (data_size (to_read l))),
  advance l,
)

-- One round of `exRecv` into a buffer, with what it sends.
unfoldable pub recv_round : ℕ → Link → List ℕ → Time → Option (RecvRound × Link × List Datagram)
recv_round fuel l buf now =
    if holds l.recv_slots l.seq_read
    then some ((recv_packet l buf).0, (recv_packet l buf).1, [])
    else seq_report_at fuel l now >>= (λ r. some (recv_wait l.wait_time, r.link, r.out))

-- What `msgsnd` comes to: queued or refused; or the link was deleted meanwhile.
pub data QueueSend : Type 0 where
  queued refused unlinked : QueueSend

-- The loop of `SendToMsgQueue` ends by itself, or the function returns from inside it.
pub record Queued : Type 0 where
  pub bufs : List (List ℕ)
  pub ended : Bool
  pub link : Link

unfoldable pub queue_one : QueueSend → Link → List ℕ → Option Queued → Option Queued
queue_one queued l bytes rest = rest >>= (λ q. some (record q { bufs = bytes ∷ q.bufs }))
queue_one refused l bytes rest = some (record { bufs = []; ended = true; link = l })
queue_one unlinked l bytes rest = some (record { bufs = bytes ∷ []; ended = false; link = l })

-- The loop of `SendToMsgQueue`, with the results of its calls of `msgsnd`: as many packets are read
-- as there are results at most. The copy of a packet that is shorter than its head is undefined.
unfoldable pub queue_packets : Link → List QueueSend → Option Queued
queue_packets l [] = some (record { bufs = []; ended = true; link = l })
queue_packets l (r ∷ rs) =
    let rest : Option Queued = queue_packets (advance l) rs in
    if not (holds l.recv_slots l.seq_read)
    then some (record { bufs = []; ended = true; link = l })
    else if ltb (to_read l).len len_packet_head
    then none
    else if ltb max_packet_data_size ((to_read l).len - len_packet_head)
    then some (record { bufs = []; ended = false; link = l })
    else queue_one r l (take ((to_read l).len - len_packet_head) (to_read l).buf) rest

-- `SendToMsgQueue`.
unfoldable pub after_queue : ℕ → Sock → Queued → Time → Option (List (List ℕ) × Sock × Reply)
after_queue fuel s q now =
    if q.ended
    then seq_report_at fuel q.link now >>= (λ r. some (q.bufs, del_list_read s q.link.id, r))
    else some (q.bufs, s, record { ok = true; link = q.link; out = [] })

unfoldable pub send_to_msg_queue :
    ℕ → Sock → Link → List QueueSend → Time → Option (List (List ℕ) × Sock × Reply)
send_to_msg_queue fuel s l rs now =
    if is_some s.msgid
    then queue_packets l rs >>= (λ q. after_queue fuel s q now)
    else some ([], s, record { ok = true; link = l; out = [] })
