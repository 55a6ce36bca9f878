-- ===== src/Udp/Again.antt =====
-- A request for a link that comes to a link that is connected, udp/ex_udp.c: `thread_recv` starts the
-- receiver anew.
use utils_modules.Base.{
  ℕ, ◌≡◌, refl, sym, ap, ◌∙◌, inl, arith, true, List, [], ◌∷◌, ◌++◌, some, length, drop, ◌==◌,
}
use utils_modules.Timer.{Time}
use utils_modules.Udp.{Datagram, Link, is_joined, send_msg, zero_packet, holds}
use utils_modules.Udp.Sock.{Sock}
use utils_modules.Udp.Table.{put_at}
use utils_modules.Udp.Receive.{received, user_data_recv, recv_round, got, advance}
use utils_modules.Udp.Dispatch.{touch, restart, reset_slots, syn_link, on_syn, connect_packet}
use utils_modules.Udp.Numbered.{IsReceiver}
use utils_modules.Udp.Sender.{IsData}
use utils_modules.Udp.Receiver.{user_data_recv_keeps}
use utils_modules.Udp.Reader.{recv_round_delivers}
use utils_modules.Udp.Invariant.{received-IsPacket}

module _ (msg : ℕ → List ℕ) where
  reset_slots-empty : (l : Link) (i : ℕ) → (l.recv_slots 1).seq ≡ 1 → (reset_slots l i).len ≡ 0
  unfolding reset_slots put_at zero_packet
  reset_slots-empty l i first =
      let came : ((l.recv_slots 1).seq == 1) ≡ true = ground (arith, first) in
      rw came (ground arith)

  asked-IsReceiver :
      (l : Link)
      → is_joined l.link_state ≡ true
      → (l.recv_slots 1).seq ≡ 1
      → IsReceiver msg 2 1 (syn_link (touch l) connect_packet)
  unfolding syn_link restart touch connect_packet is_joined zero_packet
  asked-IsReceiver l up first = rw up (up, refl, λ i lt. inl (reset_slots-empty (touch l) i first))

  -- A link is connected, and its receiver has taken packet 1. However far it has been read, when the
  -- request of `exConnect` comes, a second time or from a side that starts anew, then it is answered, and
  -- a datagram with packet 1 that comes after it, a second time as well, is given to `exRecv` again.
  pub request_delivers_again :
      (s : Sock) (l : Link) (d : Datagram) (fuel : ℕ) (buf : List ℕ) (now : Time)
      → is_joined l.link_state ≡ true
      → (l.recv_slots 1).seq ≡ 1
      → IsData msg 1 d
      → (l' : Link) × (l'' : Link) × (answer : Datagram) × (on_syn (touch l) connect_packet
          ≡ some (l', answer ∷ []))
        × ((user_data_recv s l' (received d)).2 ≡ l'')
        × (recv_round fuel l'' buf now
            ≡ some (got (length (msg 1)) (msg 1 ++ drop (length (msg 1)) buf), advance l'', []))
  unfolding on_syn send_msg received
  request_delivers_again s l d fuel buf now up first g =
      let l' : Link = syn_link (touch l) connect_packet in
      let (ok, v, held) =
        user_data_recv_keeps msg 2 1 s l' (received d) 1 (asked-IsReceiver l up first)
          (received-IsPacket msg 1 d g) (omega arith) (omega arith) (omega arith) in
      let l'' : Link = (user_data_recv s l' (received d)).2 in
      let there : holds l''.recv_slots l''.seq_read ≡ true =
        ap (holds l''.recv_slots) (v.1 ∙ sym (g.1)) ∙ held (omega arith) in
      let (_, round, _) = recv_round_delivers msg 2 1 fuel l'' buf now v there in
      (l', l'', _, refl, refl, round)
