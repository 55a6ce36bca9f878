-- ===== src/Udp/Reader.antt =====
-- Reading: `exRecv` hands over the messages in the order of their numbers, udp/ex_udp.c.
use utils_modules.Base.{
  ℕ, ◌+◌, ◌%◌, ◌≤◌, ◌<◌, ◌≡◌, inl, inr, true, false, List, [], ◌++◌, length, drop, arith, ltb, refl,
  subst, ℕ_discrete, some,
}
use utils_modules.Timer.{Time}
use utils_modules.Udp.{Link, holds, copy_to}
use utils_modules.Udp.Receive.{got, to_read, advance, data_size, recv_packet, recv_round}
use utils_modules.Udp.Numbered.{
  IsPacket, IsReceiver, slot-mod, next_seq-mod, store-same, store-other,
}

module _ (msg : ℕ → List ℕ) (sent read : ℕ) where
  -- The packet under the number to be read is the one with that number.
  next-IsPacket :
      (l : Link)
      → IsReceiver msg sent read l
      → holds l.recv_slots l.seq_read ≡ true
      → (read < sent) × IsPacket msg read (to_read l)
  unfolding to_read holds
  next-IsPacket l v h =
      let e : l.seq_read ≡ read % 2044 = v.1 in
      let slot : l.seq_read % 511 ≡ read % 511 = rw e (slot-mod read) in
      let len : 1 ≤ (l.recv_slots (l.seq_read % 511)).len = ground (arith, h) in
      let seq : (l.recv_slots (l.seq_read % 511)).seq ≡ l.seq_read = ground (arith, h) in
      elim (v.2 (l.seq_read % 511) (omega arith)) [
        | inl empty ↦ absurd (omega arith)
        | inr (n, ge, lt, s, i, p) ↦
            let same : n ≡ read = omega arith in
            (omega arith, subst (λ k. IsPacket msg k (l.recv_slots (l.seq_read % 511))) same p)
      ]

  advance-IsReceiver :
      (l : Link) → IsReceiver msg sent read l → IsReceiver msg sent (read + 1) (advance l)
  unfolding advance
  advance-IsReceiver l v = (
    v.0,
    rw (v.1) (next_seq-mod read),
    λ i lt. elim (ℕ_discrete (l.seq_read % 511) i) [
      | yes e ↦
          rw (store-same l.recv_slots (l.seq_read % 511) i (record (to_read l) { len = 0 }) e)
            (inl refl)
      | no ne ↦
          rw (store-other l.recv_slots (l.seq_read % 511) i (record (to_read l) { len = 0 }) ne)
            (elim (v.2 i lt) [
              | inl empty ↦ inl empty
              | inr (n, ge, below, s, slot, p) ↦
                  let e : l.seq_read ≡ read % 2044 = v.1 in
                  let other : ¬ (n ≡ read) = λ same. ne (omega arith) in
                  inr (n, omega arith, omega arith, s, slot, p)
            ])
    ],
  )

  -- At a link that is up, if the packet to be read is in its entry, then it is one that was sent, a
  -- round of `exRecv` returns the length of its message, the message comes first in the buffer and
  -- the rest of the buffer is as before, nothing is sent, and the packet after it is the next to be
  -- read.
  pub recv_round_delivers :
      (fuel : ℕ) (l : Link) (buf : List ℕ) (now : Time)
      → IsReceiver msg sent read l
      → holds l.recv_slots l.seq_read ≡ true
      → (read < sent)
        × (recv_round fuel l buf now
            ≡ some
                (got (length (msg read)) (msg read ++ drop (length (msg read)) buf), advance l, []))
        × IsReceiver msg sent (read + 1) (advance l)
  unfolding recv_round recv_packet data_size copy_to
  recv_round_delivers fuel l buf now v h =
      let (sent', p) = next-IsPacket l v h in
      let size : ((to_read l).len + 65528) % 65536 ≡ length (msg read) =
        omega (arith, p.1, p.2, p.3) in
      let small : ltb 1464 (length (msg read)) ≡ false = ground (arith, p) in
      (sent', rw (h, size, small, p.4) refl, advance-IsReceiver l v)
