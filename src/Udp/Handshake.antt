-- ===== src/Udp/Handshake.antt =====
-- The three packets that set up a link, udp/ex_udp.c: `exConnect` asks, `thread_recv` of the other side
-- answers, and that of the first side confirms.
use utils_modules.Base.{true, ap, ap₂, sym, subst, ℕ, ◌+◌, ◌≡◌, refl, List, [], ◌∷◌, some, arith}
use utils_modules.Timer.{Time}
use utils_modules.Udp.{
  idle, joined, Packet, Datagram, Link, is_joined, is_half, zero_packet, send_msg, datagram, stamp,
  type_byte, state_byte, next_seq,
}
use utils_modules.Udp.Sock.{Sock}
use utils_modules.Udp.Receive.{received}
use utils_modules.Udp.Table.{new_link, put_at, first_slot}
use utils_modules.Udp.Dispatch.{
  stays, on_packet, switch, connect_packet, half_to_joined, touch, restart, reset_slots, syn_link,
  syn_state, on_syn, on_syn_ack, syn_ack_answer, syn_ack_join, syn_ack_sock, on_ack,
}
use utils_modules.Udp.Channel.{Channel, IsFresh}

-- A channel over which nothing was sent.
abbrev pub quiet : Link → Link → Channel
quiet a b = record {
  sender = a;
  receiver = b;
  accepted = [];
  delivered = [];
  wire = [];
  reports = [];
}

slots-empty : (i : ℕ) → (put_at first_slot 0 (record (first_slot 0) { seq = 1 }) i).len ≡ 0
unfolding put_at first_slot zero_packet
slots-empty i = ground arith

module _ (echo : List ℕ → Time) (interval : ℕ) where
  -- A link is asked for, the request is answered, and the answer is confirmed.
  abbrev pub Shakes : Sock → Link → Sock → Link → Time → Link → Sock → Link → Type 0
  Shakes sa a sb b now b' sa' a' =
      (d : Datagram) × (e : Datagram) × (half_b : Link) × (on_packet echo interval sb b
          connect_packet now
        ≡ some (stays sb half_b (d ∷ [])))
      × (on_packet echo interval sa a (received d) now ≡ some (stays sa' a' (e ∷ [])))
      × (on_packet echo interval sb half_b (received e) now ≡ some (stays sb b' []))

  -- Both links are up, and the next packet that is read at one side is the one behind the last that
  -- was confirmed at the other.
  abbrev pub IsMatched : Link → Link → Type 0
  IsMatched l r =
      (is_joined l.link_state ≡ true)
      × (r.seq_read ≡ next_seq l.seq_check_send)
      × (is_joined r.link_state ≡ true)
      × (l.seq_read ≡ next_seq r.seq_check_send)

  -- What the two sides have to send is as it was.
  abbrev pub IsUnsent : Link → Link → Type 0
  IsUnsent l l' =
      (l'.seq_check_send ≡ l.seq_check_send)
      × (l'.seq_max_send ≡ l.seq_max_send)
      × (l'.send_slots ≡ l.send_slots)

  abbrev pub Joins : Sock → Link → Sock → Link → Time → Type 0
  Joins sa a sb b now =
      (a' : Link) × (b' : Link) × (sa' : Sock) × Shakes sa a sb b now b' sa' a'
      × IsMatched a' b'
      × IsUnsent a a'
      × IsUnsent b b'

  -- A link is asked for, and the answer is not confirmed.
  abbrev pub Rejoins : Sock → Link → Sock → Link → Time → Type 0
  Rejoins sa a sb b now =
      (a' : Link) × (b' : Link) × (sa' : Sock) × (d : Datagram) × (on_packet echo interval sb b
          connect_packet now
        ≡ some (stays sb b' (d ∷ [])))
      × (on_packet echo interval sa a (received d) now ≡ some (stays sa' a' []))
      × IsMatched a' b'
      × IsUnsent a a'
      × IsUnsent b b'

  idle-Joins :
      (sa sb : Sock) (a0 b0 : Link) (now : Time)
      → Joins sa
          (record a0 { link_state = idle; seq_check_send = 0 })
          sb
          (record b0 { link_state = idle; seq_check_send = 0 })
          now
  unfolding on_packet switch connect_packet half_to_joined on_syn is_half send_msg type_byte
      syn_link touch restart reset_slots syn_state on_syn_ack syn_ack_answer syn_ack_join on_ack
      received datagram stamp state_byte next_seq is_joined zero_packet
  idle-Joins sa sb a0 b0 now =
      let a : Link = touch (record a0 { link_state = idle; seq_check_send = 0 }) in
      let b : Link = touch (record b0 { link_state = idle; seq_check_send = 0 }) in
      let half_b : Link = syn_link b connect_packet in
      let d : Datagram = datagram half_b (stamp half_b (record connect_packet { type = 2 })) 8 in
      let pa : Packet = received d in
      let a1 : Link = restart a pa.seq_check in
      let pa' : Packet = stamp a1 (record pa { type = 3 }) in
      let a' : Link = record (syn_ack_join a1 pa') { send_posts = a1.send_posts + 1 } in
      (
        a',
        on_ack (touch half_b),
        syn_ack_sock interval sa a,
        (d, datagram a1 pa' 8, half_b, refl, refl, refl),
        (refl, refl, refl, refl),
        (refl, refl, refl),
        (refl, refl, refl),
      )

  joined-Rejoins :
      (sa sb : Sock) (a0 b0 : Link) (now : Time)
      → Rejoins sa
          (record a0 { link_state = idle; seq_check_send = 0 })
          sb
          (record b0 { link_state = joined })
          now
  unfolding on_packet switch connect_packet half_to_joined on_syn is_half send_msg type_byte
      syn_link touch restart reset_slots syn_state on_syn_ack syn_ack_answer syn_ack_join on_ack
      received datagram stamp state_byte next_seq is_joined zero_packet
  joined-Rejoins sa sb a0 b0 now =
      let a : Link = touch (record a0 { link_state = idle; seq_check_send = 0 }) in
      let b : Link = touch (record b0 { link_state = joined }) in
      let b' : Link = syn_link b connect_packet in
      let d : Datagram = datagram b' (stamp b' (record connect_packet { type = 2 })) 8 in
      let a' : Link = record (syn_ack_join a (received d)) { send_posts = a.send_posts + 1 } in
      (
        a',
        b',
        syn_ack_sock interval sa a,
        d,
        refl,
        refl,
        (refl, refl, refl, refl),
        (refl, refl, refl),
        (refl, refl, refl),
      )

  -- The side that asks has a link that is not connected, of which no packet that was sent is confirmed;
  -- what it has read before does not matter, here and at the other side. If the link of the other side is
  -- not connected either, and none of its packets is confirmed, then the packet of `exConnect`, the answer
  -- and the confirmation set both up. If the other side still is connected, with any numbers, then the
  -- request and the answer do. In both cases each side reads on behind the last packet that is confirmed at
  -- the other side, and what it has to send is as it was.
  pub handshake-Joins :
      (sa sb : Sock) (a b : Link) (now : Time)
      → a.link_state ≡ idle
      → a.seq_check_send ≡ 0
      → (b.link_state ≡ idle → b.seq_check_send ≡ 0 → Joins sa a sb b now)
        × (b.link_state ≡ joined → Rejoins sa a sb b now)
  handshake-Joins sa sb a b now ia ca =
      let same_a : record a { link_state = idle; seq_check_send = 0 } ≡ a =
        ap₂ (λ st c. record a { link_state = st; seq_check_send = c }) (sym ia) (sym ca) in
      (
        λ ib cb.
            let same_b : record b { link_state = idle; seq_check_send = 0 } ≡ b =
              ap₂ (λ st c. record b { link_state = st; seq_check_send = c }) (sym ib) (sym cb) in
            subst (λ x. Joins sa x sb b now) same_a
              (subst (λ y. Joins sa (record a { link_state = idle; seq_check_send = 0 }) sb y now)
                same_b (idle-Joins sa sb a b now)),
        λ jb.
            let same_b : record b { link_state = joined } ≡ b =
              ap (λ st. record b { link_state = st }) (sym jb) in
            subst (λ x. Rejoins sa x sb b now) same_a
              (subst (λ y. Rejoins sa (record a { link_state = idle; seq_check_send = 0 }) sb y now)
                same_b (joined-Rejoins sa sb a b now)),
      )

  -- Two links that `get_link` has just made, one at each side, are set up by the packet of `exConnect`,
  -- the answer of the other side and the confirmation of the first: then both are up, and each is ready
  -- to send its first packet to the other.
  pub new_links_join :
      (sa sb : Sock) (ip_a port_a id_a ip_b port_b id_b : ℕ) (now : Time)
      → (a' : Link) × (b' : Link) × (sa' : Sock) × Shakes sa
          (new_link sa ip_b port_b id_a now)
          sb
          (new_link sb ip_a port_a id_b now)
          now
          b'
          sa'
          a'
        × IsFresh (quiet a' b')
        × IsFresh (quiet b' a')
  unfolding on_packet switch connect_packet half_to_joined on_syn new_link is_half send_msg
      type_byte syn_link touch restart reset_slots syn_state on_syn_ack syn_ack_answer syn_ack_join
      on_ack received datagram stamp state_byte next_seq is_joined zero_packet first_slot
  new_links_join sa sb ip_a port_a id_a ip_b port_b id_b now =
      let a : Link = touch (new_link sa ip_b port_b id_a now) in
      let b : Link = touch (new_link sb ip_a port_a id_b now) in
      let half_b : Link = syn_link b connect_packet in
      let d : Datagram = datagram half_b (stamp half_b (record connect_packet { type = 2 })) 8 in
      let pa : Packet = received d in
      let a1 : Link = restart a pa.seq_check in
      let pa' : Packet = stamp a1 (record pa { type = 3 }) in
      let a' : Link = record (syn_ack_join a1 pa') { send_posts = a1.send_posts + 1 } in
      let b' : Link = on_ack (touch half_b) in
      (
        a',
        b',
        syn_ack_sock interval sa a,
        (d, datagram a1 pa' 8, half_b, refl, refl, refl),
        (refl, refl, refl, refl, refl, slots-empty, refl, refl, refl, refl),
        (refl, refl, refl, refl, refl, slots-empty, refl, refl, refl, refl),
      )
