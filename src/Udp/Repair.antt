-- ===== src/Udp/Repair.antt =====
-- A lost packet is sent again and delivered, over the links of Udp/Channel.antt, udp/ex_udp.c.
use utils_modules.Base.{
  ℕ, suc, ◌+◌, ◌-◌, ◌*◌, ◌/◌, ◌%◌, ◌≤◌, ◌<◌, ◌≡◌, true, false, List, [], ◌∷◌, ◌++◌, length, take,
  drop, min, arith, refl, ap, sym, ◌∙◌, subst, some, map, All, take-all,
}
use utils_modules.Timer.{Time}
use utils_modules.Udp.{Packet, Datagram, Link, holds, zero_packet, copy_to}
use utils_modules.Udp.Clock.{ms_diff_below}
use utils_modules.Udp.Sock.{Sock}
use utils_modules.Udp.Messages.{Reply, get_words, seq_lack_at, seq_lack_ack}
use utils_modules.Udp.Receive.{got, received, user_data_recv, recv_round, advance}
use utils_modules.Udp.Numbered.{IsSender, IsReceiver}
use utils_modules.Udp.Sender.{IsData}
use utils_modules.Udp.Receiver.{user_data_recv_keeps}
use utils_modules.Udp.Reader.{recv_round_delivers}
use utils_modules.Udp.Acks.{seq_lack_ack_resends, IsGenuine, Stops}
use utils_modules.Udp.Invariant.{received-IsPacket}
use utils_modules.Udp.Lacking.{bytes_of, get_words-bytes_of}
use utils_modules.Udp.Listing.{lacking, Lists, seq_lack_at_lem, length-lacking}

length-bytes_of : (ws : List ℕ) → length (bytes_of ws) ≡ 2 * length ws
length-bytes_of [] = refl
length-bytes_of (w ∷ ws) = omega (arith, length-bytes_of ws)

-- The words of a packet that carries a list.
received-words :
    (d : Datagram) (ws : List ℕ)
    → d.payload ≡ bytes_of ws
    → length ws ≤ 510
    → get_words (((received d).len - 8) / 2) (received d).buf ≡ ws
unfolding received copy_to
received-words d ws e h =
    let n : ℕ = min (length d.payload) 1464 in
    let len : length d.payload ≡ 2 * length ws = ap length e ∙ length-bytes_of ws in
    let size : n ≡ 2 * length ws = omega (arith, len) in
    let count : (8 + n - 8) / 2 ≡ length ws = omega (arith, size) in
    let whole : take n d.payload ≡ bytes_of ws = take-all n d.payload (omega (arith, len)) ∙ e in
    rw (count, whole) (get_words-bytes_of ws (drop n zero_packet.buf))

-- The first of the packets sent again, if a list starts with the number of an unacknowledged packet.
first-resent :
    (msg : ℕ → List ℕ) (acked sent read : ℕ) (out : List Datagram) (ws rest : List ℕ)
    → acked < read
    → read < sent
    → sent ≤ acked + 510
    → (read % 2044) ∷ ws ≡ map (λ d. d.seq) out ++ rest
    → Stops msg acked sent rest
    → All (IsGenuine msg acked sent) out
    → (d : Datagram) × (ds : List Datagram) × (out ≡ d ∷ ds) × IsData msg read d
first-resent msg acked sent read [] ws [] a b w e stops all = absurd cc
first-resent msg acked sent read [] ws (x ∷ rest) a b w e stops all =
    absurd (stops (read, a, b, (let f : x ≡ read % 2044 = cc in f)))
first-resent msg acked sent read (d ∷ ds) ws rest a b w e stops ((n, c, f, g), all) =
    let seq : read % 2044 ≡ d.seq = cc in
    let cong : read % 2044 ≡ n % 2044 = seq ∙ g.1 in
    let same : n ≡ read = omega arith in (d, ds, refl, subst (λ k. IsData msg k d) same g)

module _ (msg : ℕ → List ℕ) (acked sent read : ℕ) where
  -- If the packet to be read was sent and is not in its entry, the receiver knows the next number to be
  -- sent, and it is time to report, then the loss is repaired by one exchange: `SeqLack` sends one list
  -- of lacking packets, `SeqLackAck` of that list sends the packet first, `UserDataRecv` of it puts it in
  -- its entry, and then a round of `exRecv` returns its message.
  pub repairs_loss :
      (fuel : ℕ) (s : Sock) (sender receiver : Link) (now : Time) (buf : List ℕ)
      → IsSender msg acked sent sender
      → IsReceiver msg sent read receiver
      → acked < read
      → read < sent
      → receiver.seq_read_max ≡ sent % 2044
      → holds receiver.recv_slots receiver.seq_read ≡ false
      → ms_diff_below now receiver.timeout_report_lack (receiver.timeout_check_lack.usec / 1000)
        ≡ false
      → 510 ≤ fuel
      → (lack : Datagram) × (d : Datagram) × (ds : List Datagram) × (lacks : Reply)
        × (again : Reply) × (l : Link) × (seq_lack_at fuel receiver now ≡ some lacks)
        × (lacks.out ≡ lack ∷ [])
        × (seq_lack_ack sender (received lack) ≡ some again)
        × (again.out ≡ d ∷ ds)
        × ((user_data_recv s lacks.link (received d)).2 ≡ l)
        × (recv_round fuel l buf now
            ≡ some
                (got (length (msg read)) (msg read ++ drop (length (msg read)) buf), advance l, []))
  unfolding received
  repairs_loss fuel s sender receiver now buf w v a b m gone t f =
      let n : ℕ = sent - read - 1 in
      let slots : ℕ → Packet = receiver.recv_slots in
      let ws : List ℕ = lacking slots (read + 1) n in
      let (out, listed, lists) =
        seq_lack_at_lem fuel receiver now read sent n f (v.1) m (omega arith) (omega (arith, w.4))
          t in
      let gone' : holds slots (read % 2044) ≡ false = ap (holds slots) (sym (v.1)) ∙ gone in
      let all : lacking slots read (suc n) ≡ (read % 2044) ∷ ws = rw gone' refl in
      let (lack, one, type, bytes) = subst (λ t. Lists t out) all lists in
      let words =
        received-words lack ((read % 2044) ∷ ws) bytes
          (omega (arith, length-lacking slots (read + 1) n, w.4)) in
      let (again, rest, resent, split, stops, genuine, w', free) =
        seq_lack_ack_resends msg acked sent sender (received lack) w in
      let (d, ds, first, g) =
        first-resent msg acked sent read again.out ws rest a b (w.4) (sym words ∙ split) stops
          genuine in
      let link : Link = record receiver { timeout_report_lack = now } in
      let (ok, v', held) =
        user_data_recv_keeps msg sent read s link (received d) read v
          (received-IsPacket msg read d g) b (omega arith) (omega arith) in
      let l : Link = (user_data_recv s link (received d)).2 in
      let held' : holds l.recv_slots l.seq_read ≡ true =
        ap (holds l.recv_slots) (v'.1 ∙ sym (g.1)) ∙ held (omega arith) in
      let (sent_lt, round, v'') = recv_round_delivers msg sent read fuel l buf now v' held' in
      (
        lack,
        d,
        ds,
        record { ok = true; link = link; out = out },
        again,
        l,
        listed,
        one,
        resent,
        first,
        refl,
        round,
      )
