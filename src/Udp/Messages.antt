-- ===== src/Udp/Messages.antt =====
-- The numbers a receiver reports and the packets it lacks, udp/ex_udp.c: `SeqReport` and `SeqLack`
-- at the receiver, `SeqReportAck` and `SeqLackAck` at the sender.
use utils_modules.Base.{
  ℕ, zero, suc, ◌+◌, ◌-◌, ◌*◌, ◌/◌, ◌%◌, Bool, true, false, not, List, [], ◌∷◌, ◌++◌, Option, none,
  some, ltb, ◌==◌, if◌then◌else◌, ◌&&◌, set, ◌>>=◌,
}
use utils_modules.Timer.{Time}
use utils_modules.Udp.{
  Packet, Datagram, Link, seq_report, seq_lack, type_byte, is_joined, zero_packet, store, next_seq,
  previous_seq, holds, send_msg, max_packet_number, max_packet_seq, max_packet_size,
  max_packet_data_size, len_packet_head,
}
use utils_modules.Udp.Seq.{cmp_seq, cmp_seq_order}
use utils_modules.Udp.Clock.{ms_diff_below, ms_diff_masked}

-- What a handler returns, EX_UDP_OK or not, the link it leaves and the datagrams it sends.
pub record Reply : Type 0 where
  pub ok : Bool
  pub link : Link
  pub out : List Datagram

-- A `USHORT` written at an offset of a buffer.
unfoldable pub put_word : List ℕ → ℕ → ℕ → List ℕ
put_word buf offset w = set (set buf offset (w % 256)) (offset + 1) (w / 256)

-- The first `n` words of a buffer.
unfoldable pub get_words : ℕ → List ℕ → List ℕ
get_words zero buf = []
get_words (suc n) [] = []
get_words (suc n) (lo ∷ []) = []
get_words (suc n) (lo ∷ hi ∷ buf) = (lo + 256 * hi) ∷ get_words n buf

-- The variables of `SeqLack`: `iLackCount`, the offset of `usp`, the packet and what was sent.
pub record Lacks : Type 0 where
  pub count : ℕ
  pub offset : ℕ
  pub pa : Packet
  pub out : List Datagram

-- The body of the loop for a number that is lacking: it is written, and a full packet is sent.
unfoldable pub lack_write : Lacks → ℕ → Lacks
lack_write s seq = record s {
  count = s.count + 1;
  offset = s.offset + 2;
  pa = record s.pa { buf = put_word s.pa.buf s.offset seq };
}

unfoldable pub lack_full : Link → Lacks → Option Lacks
lack_full l s = do
  (sent, pa) ← send_msg l (record s.pa { len = max_packet_size }) max_packet_size
  some (record s { offset = 0; pa = pa; out = s.out ++ (sent ∷ []) })

unfoldable pub lack_one : Link → Lacks → ℕ → Option Lacks
lack_one l s seq =
    if holds l.recv_slots seq
    then some s
    else if (s.count + 1) * 2 % max_packet_data_size == 0
    then lack_full l (lack_write s seq)
    else some (lack_write s seq)

-- The loop from a number up to `SeqReadMax`, at least once.
unfoldable pub lack_loop : ℕ → Link → Lacks → ℕ → Option Lacks
lack_loop zero l s seq = none
lack_loop (suc fuel) l s seq = do
  s' ← lack_one l s seq
  if next_seq seq == l.seq_read_max then some s' else lack_loop fuel l s' (next_seq seq)

unfoldable pub lack_start : Lacks
lack_start = record {
  count = 0;
  offset = 0;
  pa = record zero_packet { type = type_byte seq_lack };
  out = [];
}

-- The words left over are sent after the loop.
unfoldable pub lack_rest : Link → Lacks → ℕ → Option (List Datagram)
lack_rest l s bytes =
    if bytes == 0
    then some s.out
    else send_msg l (record s.pa { len = len_packet_head + bytes }) (len_packet_head + bytes)
      >>= λ sent. some (s.out ++ (sent.0 ∷ []))

unfoldable pub report_lacks : ℕ → Link → Time → Option Reply
report_lacks fuel l now = do
  s ← lack_loop fuel l lack_start l.seq_read
  out ← lack_rest l s (s.count * 2 % max_packet_data_size)
  some (record { ok = true; link = record l { timeout_report_lack = now }; out = out })

-- `SeqLack` at the time `now`.
unfoldable pub seq_lack_at : ℕ → Link → Time → Option Reply
seq_lack_at fuel l now =
    if ms_diff_below now l.timeout_report_lack (l.timeout_check_lack.usec / 1000)
    then some (record { ok = false; link = l; out = [] })
    else if cmp_seq l.seq_read_max l.seq_read
    then report_lacks fuel l now
    else some (record { ok = true; link = l; out = [] })

-- `SeqReport`.
unfoldable pub report_packet : Link → Packet
report_packet l = record zero_packet {
  type = type_byte seq_report;
  seq = previous_seq l.seq_read;
  len = len_packet_head;
}

unfoldable pub report_and_lack : ℕ → Link → Time → Option Reply
report_and_lack fuel l now = do
  (sent, pa) ← send_msg l (report_packet l) len_packet_head
  r ← seq_lack_at fuel l now
  some (record r { ok = true; out = sent ∷ r.out })

unfoldable pub seq_report_at : ℕ → Link → Time → Option Reply
seq_report_at fuel l now =
    if is_joined l.link_state
    then report_and_lack fuel l now
    else some (record { ok = true; link = l; out = [] })

-- `SeqReportAck`: the interval of the checks, from the time that the report brings back.
unfoldable pub check_interval : Time → ℕ → Time
check_interval t usec =
    if ltb t.usec usec
    then record { sec = 0; usec = t.usec * 2 }
    else if ltb (usec * 2) t.usec
    then record { sec = 0; usec = if ltb 10000 t.usec then t.usec / 2 else t.usec }
    else t

-- `echo` reads a `struct timeval` from the bytes of a packet.
unfoldable pub seq_report_ack : (List ℕ → Time) → Link → Packet → Time → Bool × Link
seq_report_ack echo l pa now =
    if not (is_joined l.link_state)
    then (false, l)
    else if cmp_seq_order l.seq_check_send pa.seq l.seq_max_send
    then (
      true,
      record l {
        seq_check_send = pa.seq;
        send_posts = l.send_posts + 1;
        timeout_check_lack =
            if ltb len_packet_head pa.len
            then check_interval l.timeout_check_lack (ms_diff_masked now (echo pa.buf) * 1000)
            else l.timeout_check_lack;
      },
    )
    else (true, l)

-- `SeqLackAck`: an entry of the array is sent again.
unfoldable pub resend_slot : Link → ℕ → Option (Datagram × Link)
resend_slot l w = do
  (sent, pa) ←
      send_msg l (l.send_slots (w % max_packet_number)) (l.send_slots (w % max_packet_number)).len
  some (sent, record l { send_slots = store l.send_slots (w % max_packet_number) pa })

unfoldable pub resend : Link → ℕ → List ℕ → Option (List Datagram × Link)
resend l from [] = some ([], l)
resend l from (w ∷ ws) =
    if ltb w max_packet_seq && cmp_seq_order from w l.seq_max_send
    then resend_slot l w
      >>= (λ one. resend (one.1) from ws >>= (λ more. some (one.0 ∷ more.0, more.1)))
    else some ([], l)

unfoldable pub seq_lack_ack : Link → Packet → Option Reply
seq_lack_ack l pa =
    if not (is_joined l.link_state)
    then some (record { ok = false; link = l; out = [] })
    else resend (record l { priority_send_lack = true }) (next_seq l.seq_check_send)
        (get_words ((pa.len - len_packet_head) / 2) pa.buf)
      >>= λ r. some (record {
        ok = true;
        link = record (r.1) { priority_send_lack = false; send_posts = l.send_posts + 1 };
        out = r.0;
      })
