-- ===== src/Udp/Numbered.antt =====
-- Packets counted without bound: which message a packet of a link carries, and what holds of the two
-- arrays of a link, udp/ex_udp.c. A message is numbered by `msg`, from 1.
use utils_modules.Base.{ℕ, ◌+◌, ◌-◌, ◌%◌, ◌≤◌, ◌<◌, ◌≡◌, ◌⊎◌, true, List, length, take, arith}
use utils_modules.Udp.{Packet, Link, is_joined, next_seq, previous_seq, store}

module _ (msg : ℕ → List ℕ) where
  -- The packet is the one numbered `n`, and carries its message.
  abbrev pub IsPacket : ℕ → Packet → Type 0
  IsPacket n p =
      (p.seq ≡ n % 2044)
      × (p.len ≡ 8 + length (msg n))
      × (1 ≤ length (msg n))
      × (length (msg n) ≤ 1464)
      × (take (length (msg n)) p.buf ≡ msg n)

  -- `read` is the number of the next packet to be read, and `sent` that of the next to be sent. An
  -- entry is empty or holds the packet of its number among the next 511.
  abbrev pub IsKept : ℕ → ℕ → ℕ → Packet → Type 0
  IsKept sent read i p =
      (p.len ≡ 0)
      ⊎ ((n : ℕ) × (read ≤ n) × (n < read + 511) × (n < sent) × (n % 511 ≡ i) × IsPacket n p)

  abbrev pub IsReceiver : ℕ → ℕ → Link → Type 0
  IsReceiver sent read l =
      (is_joined l.link_state ≡ true)
      × (l.seq_read ≡ read % 2044)
      × ((i : ℕ) → i < 511 → IsKept sent read i (l.recv_slots i))

  -- `acked` is the last number that was acknowledged; the packets after it are in their entries.
  abbrev pub IsSender : ℕ → ℕ → Link → Type 0
  IsSender acked sent l =
      (is_joined l.link_state ≡ true)
      × (l.seq_check_send ≡ acked % 2044)
      × (l.seq_max_send ≡ sent % 2044)
      × (acked < sent)
      × (sent ≤ acked + 510)
      × ((n : ℕ)
          → acked < n
          → n < sent
          → IsPacket n (l.send_slots (n % 511)) × ((l.send_slots (n % 511)).type ≡ 4))

pub slot-mod : (n : ℕ) → n % 2044 % 511 ≡ n % 511
slot-mod n = omega arith

pub next_seq-mod : (n : ℕ) → next_seq (n % 2044) ≡ (n + 1) % 2044
unfolding next_seq
next_seq-mod n = omega arith

pub previous_seq-mod : (n : ℕ) → 1 ≤ n → previous_seq (n % 2044) ≡ (n - 1) % 2044
unfolding previous_seq
previous_seq-mod n h = ground arith

pub store-same : (slots : ℕ → Packet) (i j : ℕ) (p : Packet) → i ≡ j → store slots i p j ≡ p
unfolding store
store-same slots i j p e = ground arith

pub store-other :
    (slots : ℕ → Packet) (i j : ℕ) (p : Packet) → ¬ (i ≡ j) → store slots i p j ≡ slots j
unfolding store
store-other slots i j p e = ground arith
