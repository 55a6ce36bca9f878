-- ===== src/Udp/Receiver.antt =====
-- What the receiving side of a link keeps: a packet that is in the window of the next 511 is kept,
-- and packets are read in order, udp/ex_udp.c.
use utils_modules.Base.{
  ℕ, ◌+◌, ◌%◌, ◌≤◌, ◌<◌, ◌≡◌, inl, inr, Bool, true, false, List, arith, leb, ◌==◌, refl, ◌∙◌,
  if◌then◌else◌, le→leb, Bool-cases, dec_le, ℕ_discrete,
}
use utils_modules.Udp.{Packet, Link, is_joined, holds, store}
use utils_modules.Udp.Seq.{cmp_seq}
use utils_modules.Udp.Sock.{Sock}
use utils_modules.Udp.Receive.{wanted, keep_packet, user_data_recv, notify_read}
use utils_modules.Udp.Numbered.{IsPacket, IsKept, IsReceiver, store-same, store-other}

module _ (s : Sock) (l : Link) (pa : Packet) (up : is_joined l.link_state ≡ true) where
  recv_old : wanted l pa ≡ false → user_data_recv s l pa ≡ (false, s, l)
  unfolding user_data_recv
  recv_old w = rw (up, w) refl

  recv_again :
      wanted l pa ≡ true → holds l.recv_slots pa.seq ≡ true → user_data_recv s l pa ≡ (true, s, l)
  unfolding user_data_recv
  recv_again w h = rw (up, w, h) refl

  recv_new :
      wanted l pa ≡ true
      → holds l.recv_slots pa.seq ≡ false
      → user_data_recv s l pa
        ≡ (true, (if pa.seq == l.seq_read then notify_read s l.id else s), keep_packet l pa)
  unfolding user_data_recv
  recv_new w h = rw (up, w, h) refl

module _ (msg : ℕ → List ℕ) (sent read : ℕ) where
  wanted-window :
      (l : Link) (pa : Packet) (n : ℕ)
      → l.seq_read ≡ read % 2044
      → pa.seq ≡ n % 2044
      → read ≤ n + 1533
      → n < read + 511
      → wanted l pa ≡ leb read n
  unfolding wanted cmp_seq
  wanted-window l pa n e f h k = rw (e, f) (ground arith)

  slot_after_store :
      (slots : ℕ → Packet) (pa : Packet) (n i : ℕ)
      → IsPacket msg n pa
      → read ≤ n
      → n < read + 511
      → n < sent
      → i < 511
      → IsKept msg sent read i (slots i)
      → IsKept msg sent read i (store slots (pa.seq % 511) pa i)
  slot_after_store slots pa n i p h k s lt old = elim (ℕ_discrete (pa.seq % 511) i) [
    | yes e ↦
        rw (store-same slots (pa.seq % 511) i pa e) (inr (n, h, k, s, omega (arith, p.0, e), p))
    | no ne ↦ rw (store-other slots (pa.seq % 511) i pa ne) old
  ]

  holds-kept :
      (slots : ℕ → Packet) (pa : Packet) (n : ℕ)
      → IsPacket msg n pa
      → holds (store slots (pa.seq % 511) pa) pa.seq ≡ true
  unfolding holds
  holds-kept slots pa n p =
      rw (store-same slots (pa.seq % 511) (pa.seq % 511) pa refl) (ground (arith, p.1, p.2))

  -- What a call of `UserDataRecv` comes to.
  abbrev Received : Packet → ℕ → Bool × Sock × Link → Type 0
  Received pa n r =
      (r.0 ≡ leb read n)
      × IsReceiver msg sent read (r.2)
      × (read ≤ n → holds (r.2).recv_slots pa.seq ≡ true)

  -- At a link that is up, `UserDataRecv` of a genuine packet that was sent, is not 511 or more ahead
  -- of the next to be read, and is at most 1533 behind it, returns EX_UDP_OK just when the packet is
  -- not yet read, and then the packet is in its entry; every entry still is empty or has the packet
  -- of its number among the next 511.
  pub user_data_recv_keeps :
      (s : Sock) (l : Link) (pa : Packet) (n : ℕ)
      → IsReceiver msg sent read l
      → IsPacket msg n pa
      → n < sent
      → n < read + 511
      → read ≤ n + 1533
      → Received pa n (user_data_recv s l pa)
  unfolding keep_packet
  user_data_recv_keeps s l pa n v p k ahead behind =
      let w = wanted-window l pa n v.1 p.0 behind ahead in
      elim (dec_le read n) [
        | no lt ↦
            rw (recv_old s l pa v.0 (w ∙ ground arith)) (ground arith, v, λ le. absurd (lt le))
        | yes le ↦
            let t : wanted l pa ≡ true = w ∙ le→leb read n le in
            elim (Bool-cases (holds l.recv_slots pa.seq)) [
              | inl h ↦ rw (recv_again s l pa v.0 t h) (ground arith, v, λ _. h)
              | inr h ↦ rw (recv_new s l pa v.0 t h) (
                ground arith,
                (v.0, v.1, λ i lt. slot_after_store l.recv_slots pa n i p le ahead k lt (v.2 i lt)),
                λ _. holds-kept l.recv_slots pa n p,
              )
            ]
      ]
