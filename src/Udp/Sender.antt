-- ===== src/Udp/Sender.antt =====
-- What the sending side of a link keeps: the packets that are not acknowledged, each with its number
-- and its message, udp/ex_udp.c. `msg` numbers the messages from 1, `acked` is the last number that
-- was acknowledged and `sent` the next to be sent.
use utils_modules.Base.{
  ℕ, ◌+◌, ◌-◌, ◌%◌, ◌≤◌, ◌<◌, ◌≡◌, Bool, true, false, not, List, length, take, drop, arith, ltb,
  leb, ◌&&◌, refl, ap, sym, ◌∙◌, subst, if◌then◌else◌, ℕ_discrete, some, ltb→lt, take-append_length,
}
use utils_modules.Timer.{Time}
use utils_modules.Udp.{
  Packet, Datagram, Link, store, next_seq, copy_to, send_msg, datagram, stamp, type_byte,
}
use utils_modules.Udp.Sock.{Sock, ctl_interval_time}
use utils_modules.Udp.Send.{sent_packet, send_failed, after_send, has_room, fill, send_round}
use utils_modules.Udp.Numbered.{IsPacket, IsSender, slot-mod, next_seq-mod, store-same, store-other}

module _ (msg : ℕ → List ℕ) where
  -- A datagram that carries the message numbered `n`.
  abbrev pub IsData : ℕ → Datagram → Type 0
  IsData n d =
      (d.type ≡ 4)
      × (d.seq ≡ n % 2044)
      × (d.payload ≡ msg n)
      × (1 ≤ length (msg n))
      × (length (msg n) ≤ 1464)

  -- `SendMsg` of a packet with its number sends its message.
  pub send_msg-IsData :
      (l : Link) (pa : Packet) (n : ℕ)
      → IsPacket msg n pa
      → pa.type ≡ 4
      → (d : Datagram) × (pa' : Packet) × (send_msg l pa pa.len ≡ some (d, pa'))
        × IsData n d
        × IsPacket msg n pa'
        × (pa'.type ≡ 4)
  unfolding send_msg datagram stamp
  send_msg-IsData l pa n p t =
      let long : leb 8 pa.len ≡ true = ground (arith, p.1) in
      let size : pa.len - 8 ≡ length (msg n) = omega (arith, p.1) in
      (
        datagram l (stamp l pa) pa.len,
        stamp l pa,
        rw long refl,
        (t, p.0, rw size (p.4), p.2, p.3),
        p,
        t,
      )

module _ (msg : ℕ → List ℕ) (acked sent : ℕ) where
  -- An entry of the array that is written with a packet with its number.
  pub store-IsSender :
      (slots : ℕ → Packet) (n k : ℕ) (pa : Packet)
      → IsPacket msg n pa × (pa.type ≡ 4)
      → acked < n
      → n < acked + 511
      → acked < k
      → k < acked + 511
      → ((k ≡ n → ⊥) → IsPacket msg k (slots (k % 511)) × ((slots (k % 511)).type ≡ 4))
      → IsPacket msg k (store slots (n % 511) pa (k % 511))
        × ((store slots (n % 511) pa (k % 511)).type ≡ 4)
  store-IsSender slots n k pa p a b c d old = elim (ℕ_discrete n k) [
    | yes e ↦
        rw (store-same slots (n % 511) (k % 511) pa (omega (arith, e)))
          (subst (λ j. IsPacket msg j pa × (pa.type ≡ 4)) e p)
    | no ne ↦
        rw (store-other slots (n % 511) (k % 511) pa (λ e. ne (omega arith)))
          (old (λ e. ne (sym e)))
  ]

  -- At a link that keeps the packets from `acked` to `sent`, `exSend` finds an entry just when fewer
  -- than 509 packets are unacknowledged and no packets are being sent again.
  pub has_room-window :
      (l : Link)
      → IsSender msg acked sent l
      → has_room l ≡ (not l.priority_send_lack && ltb (sent + 1) (acked + 511))
  unfolding has_room
  has_room-window l v =
      let e : (l.seq_max_send + 1) % 511 ≡ (sent + 1) % 511 = rw (v.2) (omega arith) in
      let f : l.seq_check_send % 511 ≡ acked % 511 = rw (v.1) (omega arith) in
      rw (e, f) (ground (arith, v.3, v.4))

  fill-IsPacket :
      (l : Link) (buf : List ℕ) (len : ℕ)
      → IsSender msg acked sent l
      → len ≡ length (msg sent)
      → 1 ≤ len
      → len ≤ 1464
      → take len buf ≡ msg sent
      → IsPacket msg sent (fill l buf len) × ((fill l buf len).type ≡ 4)
  unfolding fill copy_to type_byte
  fill-IsPacket l buf len v e lo hi m =
      let old : List ℕ = (l.send_slots (l.seq_max_send % 511)).buf in
      (
        (
          v.2,
          ap (λ n. 8 + n) e,
          omega arith,
          omega arith,
          rw m (take-append_length (msg sent) (drop len old) (length (msg sent)) refl),
        ),
        refl,
      )

  -- The link once the packet is in its entry.
  after_send-IsSender :
      (sends : Bool) (interval : ℕ) (s : Sock) (l : Link) (now : Time) (d : Datagram)
      → IsSender msg acked sent l
      → sent + 1 < acked + 511
      → IsPacket msg sent (l.send_slots (sent % 511)) × ((l.send_slots (sent % 511)).type ≡ 4)
      → (s' : Sock) × (l' : Link) × (after_send sends interval s l now d
          ≡ (if sends then sent_packet d else send_failed, s', l'))
        × IsSender msg acked (if sends then sent + 1 else sent) l'
        × (l'.priority_send_lack ≡ l.priority_send_lack)
  unfolding after_send
  after_send-IsSender false interval s l now d v room p = (s, l, refl, v, refl)
  after_send-IsSender true interval s l now d v room p = (
    ctl_interval_time interval s now,
    record l { seq_max_send = next_seq l.seq_max_send },
    refl,
    (
      v.0,
      v.1,
      rw (v.2) (next_seq-mod sent),
      omega (arith, v.3),
      omega arith,
      λ n a b. elim (ℕ_discrete sent n) [
        | yes e ↦
            subst
              (λ k. IsPacket msg k (l.send_slots (k % 511)) × ((l.send_slots (k % 511)).type ≡ 4)) e
              p
        | no ne ↦ v.5 n a (omega arith)
      ],
    ),
    refl,
  )

  -- At such a link, a round of `exSend` of the message whose turn it is, when there is an entry for
  -- it, ends without leaving the program: if `sendto` succeeds then a datagram with its number and its
  -- message is sent and the next number is to be sent; if it fails nothing is sent and the number
  -- stays. The unacknowledged packets are in their entries in both cases.
  pub send_round_keeps :
      (sends : Bool) (interval : ℕ) (s : Sock) (l : Link) (buf : List ℕ) (len : ℕ) (now : Time)
      → IsSender msg acked sent l
      → has_room l ≡ true
      → len ≡ length (msg sent)
      → 1 ≤ len
      → len ≤ 1464
      → take len buf ≡ msg sent
      → (d : Datagram) × (s' : Sock) × (l' : Link) × (send_round sends interval s l buf len now
          ≡ some (if sends then sent_packet d else send_failed, s', l'))
        × IsData msg sent d
        × IsSender msg acked (if sends then sent + 1 else sent) l'
        × (l'.priority_send_lack ≡ l.priority_send_lack)
  unfolding send_round
  send_round_keeps sends interval s l buf len now v room e lo hi m =
      let (p, t) = fill-IsPacket l buf len v e lo hi m in
      let (d, pa, done, g, p', t') = send_msg-IsData msg l (fill l buf len) sent p t in
      let size : (fill l buf len).len ≡ 8 + len = p.1 ∙ ap (λ n. 8 + n) (sym e) in
      let done' : send_msg l (fill l buf len) (8 + len) ≡ some (d, pa) =
        subst (λ n. send_msg l (fill l buf len) n ≡ some (d, pa)) size done in
      let slot : l.seq_max_send % 511 ≡ sent % 511 = rw (v.2) (slot-mod sent) in
      let l1 : Link = record l { send_slots = store l.send_slots (l.seq_max_send % 511) pa } in
      let free : sent + 1 < acked + 511 =
        ltb→lt (sent + 1) (acked + 511) (ground (arith, has_room-window l v, room)) in
      let kept : (n : ℕ)
          → acked < n
          → n < sent + 1
          → IsPacket msg n (l1.send_slots (n % 511)) × ((l1.send_slots (n % 511)).type ≡ 4) =
        λ n a b. rw slot (
          store-IsSender l.send_slots sent n pa (p', t') v.3 (omega (arith, v.4)) a (omega arith)
            (λ ne. v.5 n a (omega arith))) in
      let v1 : IsSender msg acked sent l1 =
        (v.0, v.1, v.2, v.3, v.4, λ n a b. kept n a (omega arith)) in
      let (s', l', after, v', same) =
        after_send-IsSender sends interval s l1 now d v1 free (kept sent v.3 (omega arith)) in
      (d, s', l', rw (room, done', after) refl, g, v', same)
