-- ===== src/Udp/Invariant.antt =====
-- What holds of a channel, Udp/Channel.antt, at all times: the messages that `exSend` took and those
-- that `exRecv` gave are the first of the messages, in order.
use utils_modules.Base.{
  ℕ, suc, ◌+◌, ◌-◌, ◌%◌, ◌≤◌, ◌<◌, ◌≡◌, inl, inr, List, [], ◌∷◌, ◌++◌, length, take, drop, arith,
  refl, ap, sym, ◌∙◌, All, length-append, min, take-append_length, append-nil,
}
use utils_modules.Base.Table.{table, table-append}
use utils_modules.Udp.{Datagram, Link, zero_packet, copy_to}
use utils_modules.Udp.Numbered.{IsPacket, IsSender, IsReceiver}
use utils_modules.Udp.Sender.{IsData}
use utils_modules.Udp.Channel.{Channel, next_sent, next_read}
use utils_modules.Udp.Receive.{received}

module _ (msg : ℕ → List ℕ) where
  -- A datagram with data is not much older than its message, and a report has a number that was read.
  abbrev pub OnWire : ℕ → ℕ × Datagram → Type 0
  OnWire sent (t, d) = (n : ℕ) × (n < sent) × (t ≤ n + 509) × IsData msg n d

  abbrev pub IsReport : ℕ → ℕ × Datagram → Type 0
  IsReport read (t, d) = (1 ≤ t) × (t ≤ read) × (d.seq ≡ (t - 1) % 2044)

  -- `sent` and `read` are the next numbers to be sent and read.
  abbrev pub IsChannel : ℕ → ℕ → Channel → Type 0
  IsChannel sent read c =
      (sent ≡ next_sent c)
      × (read ≡ next_read c)
      × (read ≤ sent)
      × ((acked : ℕ) × (acked < read) × IsSender msg acked sent c.sender)
      × IsReceiver msg sent read c.receiver
      × (c.accepted ≡ table (length c.accepted) (λ i. msg (suc i)))
      × (c.delivered ≡ table (length c.delivered) (λ i. msg (suc i)))
      × All (OnWire sent) c.wire
      × All (IsReport read) c.reports

  pub received-IsPacket : (n : ℕ) (d : Datagram) → IsData msg n d → IsPacket msg n (received d)
  unfolding received copy_to
  received-IsPacket n d g =
      let m : ℕ = length (msg n) in
      let size : min (length d.payload) 1464 ≡ m = omega (arith, ap length (g.2), g.4) in
      let whole : take m d.payload ≡ msg n =
        rw (g.2)
          (ap (λ t. take m t) (sym (append-nil (msg n))) ∙ take-append_length (msg n) [] m refl) in
      (
        g.1,
        ap (λ k. 8 + k) size,
        g.3,
        g.4,
        rw (size, whole) (take-append_length (msg n) (drop m zero_packet.buf) m refl),
      )

  pub IsReceiver-more :
      (sent read : ℕ) (l : Link) → IsReceiver msg sent read l → IsReceiver msg (sent + 1) read l
  IsReceiver-more sent read l v = (
    v.0,
    v.1,
    λ i lt. elim (v.2 i lt) [
      | inl empty ↦ inl empty
      | inr (n, a, b, c, e, p) ↦ inr (n, a, b, omega arith, e, p)
    ],
  )

  -- One more message at the end of a list of messages.
  pub messages-snoc :
      (ms : List (List ℕ)) (m : List ℕ)
      → ms ≡ table (length ms) (λ i. msg (suc i))
      → m ≡ msg (suc (length ms))
      → ms ++ (m ∷ []) ≡ table (length (ms ++ (m ∷ []))) (λ i. msg (suc i))
  messages-snoc ms m e f =
      ap (λ t. t ++ (m ∷ [])) e
      ∙ sym (
          table-append (length ms) 1 (length (ms ++ (m ∷ []))) (λ i. msg (suc i)) (λ i. m)
            (length-append ms (m ∷ [])) (λ i lt. ap msg (omega arith) ∙ sym f))
