-- ===== src/Udp/Acks.antt =====
-- What a report or a list of lacking packets does to the sender, udp/ex_udp.c: `SeqReportAck` and
-- `SeqLackAck`. The numbers are those of Udp/Sender.antt.
use utils_modules.Base.{
  ℕ, ◌+◌, ◌-◌, ◌/◌, ◌%◌, ◌≤◌, ◌<◌, ◌≡◌, inl, inr, true, false, List, [], ◌∷◌, ◌++◌, arith, ltb, leb,
  ◌&&◌, refl, ap, ap₂, sym, ◌∙◌, subst, if◌then◌else◌, Bool-cases, dec_le, some, le→leb, map, All,
}
use utils_modules.Timer.{Time}
use utils_modules.Udp.{Packet, Datagram, Link, store, next_seq}
use utils_modules.Udp.Seq.{cmp_seq_order, cmp_seq_order-inside, cmp_seq_order-behind}
use utils_modules.Udp.Messages.{Reply, seq_report_ack, resend, resend_slot, seq_lack_ack, get_words}
use utils_modules.Udp.Numbered.{IsSender, slot-mod, next_seq-mod}
use utils_modules.Udp.Sender.{IsData, send_msg-IsData, store-IsSender}

module _ (msg : ℕ → List ℕ) (acked sent : ℕ) where
  -- At a link that keeps the packets from `acked` to `sent`, `SeqReportAck` of a report of the number
  -- `k` below `sent`, which is at most 2044 behind, makes `k` the last number acknowledged if it is
  -- not below `acked`, and changes nothing of what the sender keeps if it is.
  pub seq_report_ack_keeps :
      (echo : List ℕ → Time) (l : Link) (pa : Packet) (now : Time) (k : ℕ)
      → IsSender msg acked sent l
      → pa.seq ≡ k % 2044
      → k < sent
      → sent ≤ k + 2044
      → ((seq_report_ack echo l pa now).0 ≡ true)
        × IsSender msg (if leb acked k then k else acked) sent ((seq_report_ack echo l pa now).1)
  unfolding seq_report_ack
  seq_report_ack_keeps echo l pa now k v e lt old = elim (dec_le acked k) [
    | yes le ↦
        let inside : cmp_seq_order l.seq_check_send pa.seq l.seq_max_send ≡ true =
          rw (v.1, v.2, e) (cmp_seq_order-inside acked k sent le lt v.4) in
        let b : leb acked k ≡ true = le→leb acked k le in
        rw (v.0, inside, b)
          (refl, (v.0, e, v.2, lt, omega (arith, v.4), λ n a c. v.5 n (omega arith) c))
    | no gt ↦
        let behind : cmp_seq_order l.seq_check_send pa.seq l.seq_max_send ≡ false =
          rw (v.1, v.2, e)
            (cmp_seq_order-behind acked k sent (omega arith) (omega (arith, v.3)) v.4 old) in
        let b : leb acked k ≡ false = ground arith in rw (v.0, behind, b) (refl, v)
  ]

  abbrev IsUnacked : ℕ → Type 0
  IsUnacked w = (n : ℕ) × (acked < n) × (n < sent) × (w ≡ n % 2044)

  -- The words that `SeqLackAck` accepts are the numbers of the unacknowledged packets.
  word-IsUnacked :
      (w : ℕ)
      → acked < sent
      → sent ≤ acked + 510
      → ltb w 2044 && cmp_seq_order (next_seq (acked % 2044)) w (sent % 2044) ≡ true
      → IsUnacked w
  unfolding cmp_seq_order next_seq
  word-IsUnacked w h k t =
      let n : ℕ = acked + 1 + (w + 2044 - (acked + 1) % 2044) % 2044 in
      let small : w < 2044 = ground (arith, t) in (n, omega arith, ground arith, omega arith)

  unacked-word :
      (n : ℕ)
      → sent ≤ acked + 510
      → acked < n
      → n < sent
      → ltb (n % 2044) 2044 && cmp_seq_order (next_seq (acked % 2044)) (n % 2044) (sent % 2044)
        ≡ true
  unacked-word n k a b =
      rw (next_seq-mod acked, cmp_seq_order-inside (acked + 1) n sent (omega arith) b (omega arith))
        (ground arith)

  -- The datagram has the number of an unacknowledged packet, and carries its message.
  abbrev pub IsGenuine : Datagram → Type 0
  IsGenuine d = (n : ℕ) × (acked < n) × (n < sent) × IsData msg n d

  abbrev pub Stops : List ℕ → Type 0
  Stops [] = Unit
  Stops (w ∷ ws) = ¬ IsUnacked w

  resend_slot-IsGenuine :
      (l : Link) (n : ℕ)
      → IsSender msg acked sent l
      → acked < n
      → n < sent
      → (d : Datagram) × (l' : Link) × (resend_slot l (n % 2044) ≡ some (d, l'))
        × IsData msg n d
        × IsSender msg acked sent l'
        × (l'.priority_send_lack ≡ l.priority_send_lack)
  unfolding resend_slot
  resend_slot-IsGenuine l n v a b =
      let (p, t) = v.5 n a b in
      let (d, pa, done, g, p', t') = send_msg-IsData msg l (l.send_slots (n % 511)) n p t in
      let slots : ℕ → Packet = store l.send_slots (n % 511) pa in
      (
        d,
        record l { send_slots = slots },
        rw (slot-mod n, done) refl,
        g,
        (
          v.0,
          v.1,
          v.2,
          v.3,
          v.4,
          λ k c e.
              store-IsSender msg acked sent l.send_slots n k pa (p', t') a (omega (arith, v.4)) c
                (omega (arith, v.4)) (λ ne. v.5 k c e),
        ),
        refl,
      )

  -- `SeqLackAck`, for a list of words: the words are taken up to the first that is not the number of
  -- an unacknowledged packet, each of these packets is sent again with its message, and nothing else
  -- is sent.
  pub resend_keeps :
      (l : Link) (ws : List ℕ)
      → IsSender msg acked sent l
      → (ds : List Datagram) × (l' : Link) × (rest : List ℕ) × (resend l
            (next_seq (acked % 2044))
            ws
          ≡ some (ds, l'))
        × (ws ≡ map (λ d. d.seq) ds ++ rest)
        × Stops rest
        × All IsGenuine ds
        × IsSender msg acked sent l'
        × (l'.priority_send_lack ≡ l.priority_send_lack)
  unfolding resend
  resend_keeps l [] v = ([], l, [], refl, refl, tt, tt, v, refl)
  resend_keeps l (w ∷ ws) v =
      let from : ℕ = next_seq (acked % 2044) in
      elim (Bool-cases (ltb w 2044 && cmp_seq_order from w (sent % 2044))) [
        | inl t ↦
            let (n, a, b, e) = word-IsUnacked w v.3 v.4 t in
            let t' : ltb w 2044 && cmp_seq_order from w l.seq_max_send ≡ true = rw (v.2) t in
            let (d, l1, one, g, v1, same) = resend_slot-IsGenuine l n v a b in
            let one' : resend_slot l w ≡ some (d, l1) = rw e one in
            let (ds, l', rest, more, split, stops, all, v', same') = resend_keeps l1 ws v1 in
            (
              d ∷ ds,
              l',
              rest,
              rw (t', one', more) refl,
              ap₂ ◌∷◌ (e ∙ sym (g.1)) split,
              stops,
              ((n, a, b, g), all),
              v',
              same' ∙ same,
            )
        | inr f ↦
            let stuck : ¬ IsUnacked w = λ (n, a, b, e).
              let t : ltb w 2044 && cmp_seq_order from w (sent % 2044) ≡ true =
                rw e (unacked-word n v.4 a b) in
              absurd (ground (arith, t, f)) in
            let f' : ltb w 2044 && cmp_seq_order from w l.seq_max_send ≡ false = rw (v.2) f in
            ([], l, w ∷ ws, rw f' refl, refl, stuck, tt, v, refl)
      ]

  -- At a link that keeps the packets from `acked` to `sent`, `SeqLackAck` of any packet does not
  -- leave the program: it takes the words up to the first that is not the number of an unacknowledged
  -- packet, sends each of these packets again with its number and its message, and nothing else, and
  -- then lets new packets be sent.
  pub seq_lack_ack_resends :
      (l : Link) (pa : Packet)
      → IsSender msg acked sent l
      → (r : Reply) × (rest : List ℕ) × (seq_lack_ack l pa ≡ some r)
        × (get_words ((pa.len - 8) / 2) pa.buf ≡ map (λ d. d.seq) r.out ++ rest)
        × Stops rest
        × All IsGenuine r.out
        × IsSender msg acked sent r.link
        × (r.link.priority_send_lack ≡ false)
  unfolding seq_lack_ack
  seq_lack_ack_resends l pa v =
      let l0 : Link = record l { priority_send_lack = true } in
      let (ds, l', rest, done, split, stops, all, v', same) =
        resend_keeps l0 (get_words ((pa.len - 8) / 2) pa.buf) v in
      let done' : resend l0 (next_seq l.seq_check_send) (get_words ((pa.len - 8) / 2) pa.buf)
          ≡ some (ds, l') =
        subst (λ f. resend l0 f (get_words ((pa.len - 8) / 2) pa.buf) ≡ some (ds, l'))
          (ap next_seq (sym (v.1))) done in
      (
        record {
          ok = true;
          link = record l' { priority_send_lack = false; send_posts = l.send_posts + 1 };
          out = ds;
        },
        rest,
        rw (v.0, done') refl,
        split,
        stops,
        all,
        v',
        refl,
      )
