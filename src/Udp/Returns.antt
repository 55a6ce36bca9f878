-- ===== src/Udp/Returns.antt =====
-- The steps of a channel, Udp/Channel.antt, that send reports and lists of lacking packets back, and
-- those that take them.
use utils_modules.Base.{
  ℕ, ◌+◌, ◌-◌, ◌%◌, ◌≤◌, ◌<◌, ◌≡◌, List, [], ◌∷◌, ◌++◌, arith, leb, ap, sym, ◌∙◌, subst,
  if◌then◌else◌, some, some-injective, All-get, All-append, All, get_elem?,
}
use utils_modules.Timer.{Time}
use utils_modules.Udp.{Packet, Datagram, Link, is_joined, previous_seq}
use utils_modules.Udp.Numbered.{IsKept, IsSender, IsReceiver, previous_seq-mod}
use utils_modules.Udp.Acks.{seq_report_ack_keeps, seq_lack_ack_resends, IsGenuine}
use utils_modules.Udp.Channel.{Channel, next_sent, stamped}
use utils_modules.Udp.Receive.{received}
use utils_modules.Udp.Sock.{Sock}
use utils_modules.Udp.Replies.{SameReader, Reports, seq_report_at-Reports, seq_check_ack-Reports}
use utils_modules.Udp.Messages.{Reply, seq_report_ack, seq_lack_ack, seq_report_at}
use utils_modules.Udp.Receive.{seq_check_ack}
use utils_modules.Udp.Invariant.{OnWire, IsReport, IsChannel}

module _ (msg : ℕ → List ℕ) where
  SameReader-IsReceiver :
      (sent read : ℕ) (l l' : Link)
      → SameReader l l'
      → IsReceiver msg sent read l
      → IsReceiver msg sent read l'
  SameReader-IsReceiver sent read l l' (a, b, c) v = (
    ap is_joined a ∙ v.0,
    b ∙ v.1,
    subst (λ t. (i : ℕ) → i < 511 → IsKept msg sent read i (t i)) (sym c) v.2,
  )

  Reports-IsReport :
      (read seq : ℕ) (d : Datagram)
      → 1 ≤ read
      → seq ≡ read % 2044
      → Reports seq d
      → IsReport msg read (read, d)
  Reports-IsReport read seq d h e g =
      (h, omega arith, g.1 ∙ ap previous_seq e ∙ previous_seq-mod read h)

  pub step-reported :
      (sent read : ℕ) (c : Channel) (fuel : ℕ) (now : Time) (r : Reply) (d : Datagram)
      (ds : List Datagram)
      → IsChannel msg sent read c
      → seq_report_at fuel c.receiver now ≡ some r
      → r.out ≡ d ∷ ds
      → IsChannel msg sent read (record c { receiver = r.link; reports = (read, d) ∷ c.reports })
  step-reported sent read c fuel now r d ds v e o =
      let (same, (d', ds', o', g)) = seq_report_at-Reports fuel c.receiver now r ((v.4).0) e in
      let first : d' ≡ d = (let p : d' ∷ ds' ≡ d ∷ ds = sym o' ∙ o in cc) in
      (
        v.0,
        v.1,
        v.2,
        v.3,
        SameReader-IsReceiver sent read c.receiver r.link same v.4,
        v.5,
        v.6,
        v.7,
        (
          Reports-IsReport read c.receiver.seq_read d (omega (arith, v.1)) ((v.4).1)
              (subst (Reports c.receiver.seq_read) first g),
          v.8,
        ),
      )

  stamped-IsReport :
      (read seq : ℕ) (ds : List Datagram)
      → 1 ≤ read
      → seq ≡ read % 2044
      → All (Reports seq) ds
      → All (IsReport msg read) (stamped read ds)
  stamped-IsReport read seq [] h e g = tt
  stamped-IsReport read seq (d ∷ ds) h e g =
      (Reports-IsReport read seq d h e (g.0), stamped-IsReport read seq ds h e (g.1))

  pub step-check :
      (sent read : ℕ) (c : Channel) (s s' : Sock) (pa : Packet) (r : Reply)
      → IsChannel msg sent read c
      → seq_check_ack s c.receiver pa ≡ some (s', r)
      → IsChannel msg sent read
          (record c { receiver = r.link; reports = stamped read r.out ++ c.reports })
  step-check sent read c s s' pa r v e =
      let (same, g) = seq_check_ack-Reports s s' c.receiver pa r e in
      (
        v.0,
        v.1,
        v.2,
        v.3,
        SameReader-IsReceiver sent read c.receiver r.link same v.4,
        v.5,
        v.6,
        v.7,
        All-append (IsReport msg read) (stamped read r.out) c.reports
            (stamped-IsReport read c.receiver.seq_read r.out (omega (arith, v.1)) ((v.4).1) g) v.8,
      )

  pub step-report :
      (sent read : ℕ) (c : Channel) (i t : ℕ) (d : Datagram) (echo : List ℕ → Time) (now : Time)
      → IsChannel msg sent read c
      → get_elem? c.reports i ≡ some (t, d)
      → next_sent c ≤ t + 2043
      → IsChannel msg sent read
          (record c { sender = (seq_report_ack echo c.sender (received d) now).1 })
  unfolding received
  step-report sent read c i t d echo now v e age =
      let (pos, le, seq) = All-get (IsReport msg read) c.reports i (t, d) v.8 e in
      let (acked, lt, w) = v.3 in
      let k : ℕ = t - 1 in
      let r =
        seq_report_ack_keeps msg acked sent echo c.sender (received d) now k w seq
          (omega (arith, v.2)) (omega (arith, v.0)) in
      (
        v.0,
        v.1,
        v.2,
        (if leb acked k then k else acked, ground arith, r.1),
        v.4,
        v.5,
        v.6,
        v.7,
        v.8,
      )

  stamped-OnWire :
      (acked sent : ℕ) (ds : List Datagram)
      → sent ≤ acked + 510
      → All (IsGenuine msg acked sent) ds
      → All (OnWire msg sent) (stamped sent ds)
  stamped-OnWire acked sent [] h g = tt
  stamped-OnWire acked sent (d ∷ ds) h ((n, a, b, p), g) =
      ((n, b, omega arith, p), stamped-OnWire acked sent ds h g)

  pub step-lack :
      (sent read : ℕ) (c : Channel) (pa : Packet) (r : Reply)
      → IsChannel msg sent read c
      → seq_lack_ack c.sender pa ≡ some r
      → IsChannel msg sent read (record c { sender = r.link; wire = stamped sent r.out ++ c.wire })
  step-lack sent read c pa r v e =
      let (acked, lt, w) = v.3 in
      let (r', rest, run, split, stops, all, w', free) =
        seq_lack_ack_resends msg acked sent c.sender pa w in
      let same : r' ≡ r = some-injective (sym run ∙ e) in
      (
        v.0,
        v.1,
        v.2,
        (acked, lt, subst (λ t. IsSender msg acked sent t.link) same w'),
        v.4,
        v.5,
        v.6,
        All-append (OnWire msg sent) (stamped sent r.out) c.wire
            (stamped-OnWire acked sent r.out w.4
              (subst (λ t. All (IsGenuine msg acked sent) t.out) same all))
            v.7,
        v.8,
      )
