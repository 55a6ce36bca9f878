-- ===== src/Udp/Steps.antt =====
-- The steps of a channel, Udp/Channel.antt, that send, receive and read messages.
use utils_modules.Base.{
  ℕ, ◌+◌, ◌≤◌, ◌<◌, ◌≡◌, true, false, List, [], ◌∷◌, ◌++◌, length, take, drop, arith, refl, ap, sym,
  ◌∙◌, subst, some, some-injective, All-get, All-impl, get_elem?, length-append, take-append_length,
}
use utils_modules.Timer.{Time}
use utils_modules.Udp.{Datagram, Link}
use utils_modules.Udp.Numbered.{IsSender, IsReceiver}
use utils_modules.Udp.Sender.{IsData, send_round_keeps}
use utils_modules.Udp.Receiver.{user_data_recv_keeps}
use utils_modules.Udp.Reader.{recv_round_delivers}
use utils_modules.Udp.Channel.{Channel, next_sent, next_read}
use utils_modules.Udp.Receive.{received}
use utils_modules.Udp.Sock.{Sock}
use utils_modules.Udp.Replies.{holds-got}
use utils_modules.Udp.Receive.{got, user_data_recv, recv_round}
use utils_modules.Udp.Rounds.{has_room-sent, has_room-failed}
use utils_modules.Udp.Invariant.{
  OnWire, IsReport, IsChannel, received-IsPacket, IsReceiver-more, messages-snoc,
}
use utils_modules.Udp.Send.{sent_packet, send_failed, send_round}

module _ (msg : ℕ → List ℕ) where
  -- One more packet that was sent.
  IsChannel-sent :
      (sent read : ℕ) (c : Channel) (l : Link) (m : List ℕ) (d : Datagram)
      → IsChannel msg sent read c
      → ((acked : ℕ) × (acked < read) × IsSender msg acked (sent + 1) l)
      → m ≡ msg sent
      → IsData msg sent d
      → IsChannel msg
          (sent + 1)
          read
          (record c { sender = l; accepted = c.accepted ++ (m ∷ []); wire = (sent, d) ∷ c.wire })
  IsChannel-sent sent read c l m d v w e g = (
    omega (arith, v.0, length-append c.accepted (m ∷ [])),
    v.1,
    omega (arith, v.2),
    w,
    IsReceiver-more msg sent read c.receiver v.4,
    messages-snoc msg c.accepted m v.5 (e ∙ ap msg v.0),
    v.6,
    (
      (sent, omega arith, omega arith, g),
      All-impl (OnWire msg sent) (OnWire msg (sent + 1)) c.wire
          (λ td (n, a, b, h). (n, omega arith, b, h)) v.7,
    ),
    v.8,
  )

  pub step-sends :
      (sent read : ℕ) (c : Channel) (interval : ℕ) (s s' : Sock) (buf : List ℕ) (len : ℕ)
      (now : Time) (d : Datagram) (l : Link)
      → IsChannel msg sent read c
      → len ≡ length (msg (next_sent c))
      → 1 ≤ len
      → len ≤ 1464
      → take len buf ≡ msg (next_sent c)
      → send_round true interval s c.sender buf len now ≡ some (sent_packet d, s', l)
      → IsChannel msg (sent + 1) read (record c {
        sender = l;
        accepted = c.accepted ++ (take len buf ∷ []);
        wire = (sent, d) ∷ c.wire;
      })
  step-sends sent read c interval s s' buf len now d l v e lo hi m done =
      let (acked, a, w) = v.3 in
      let room = has_room-sent interval s s' c.sender l buf len now d done in
      let e' : len ≡ length (msg sent) = e ∙ ap (λ n. length (msg n)) (sym v.0) in
      let m' : take len buf ≡ msg sent = m ∙ ap msg (sym v.0) in
      let (d', s'', l', run, g, w', same) =
        send_round_keeps msg acked sent true interval s c.sender buf len now w room e' lo hi m' in
      let both = some-injective (sym run ∙ done) in
      let ds : d' ≡ d = (let p : sent_packet d' ≡ sent_packet d = ap (λ t. t.0) both in cc) in
      IsChannel-sent sent read c l (take len buf) d v
        (acked, a, subst (IsSender msg acked (sent + 1)) (ap (λ t. t.2) both) w') m'
        (subst (IsData msg sent) ds g)

  pub step-fails :
      (sent read : ℕ) (c : Channel) (interval : ℕ) (s s' : Sock) (buf : List ℕ) (len : ℕ)
      (now : Time) (l : Link)
      → IsChannel msg sent read c
      → len ≡ length (msg (next_sent c))
      → 1 ≤ len
      → len ≤ 1464
      → take len buf ≡ msg (next_sent c)
      → send_round false interval s c.sender buf len now ≡ some (send_failed, s', l)
      → IsChannel msg sent read (record c { sender = l })
  step-fails sent read c interval s s' buf len now l v e lo hi m done =
      let (acked, a, w) = v.3 in
      let room = has_room-failed interval s s' c.sender l buf len now done in
      let e' : len ≡ length (msg sent) = e ∙ ap (λ n. length (msg n)) (sym v.0) in
      let m' : take len buf ≡ msg sent = m ∙ ap msg (sym v.0) in
      let (d', s'', l', run, g, w', same) =
        send_round_keeps msg acked sent false interval s c.sender buf len now w room e' lo hi m' in
      let both = some-injective (sym run ∙ done) in
      (
        v.0,
        v.1,
        v.2,
        (acked, a, subst (IsSender msg acked sent) (ap (λ t. t.2) both) w'),
        v.4,
        v.5,
        v.6,
        v.7,
        v.8,
      )

  pub step-data :
      (sent read : ℕ) (c : Channel) (i t : ℕ) (d : Datagram) (s : Sock)
      → IsChannel msg sent read c
      → get_elem? c.wire i ≡ some (t, d)
      → next_read c ≤ t + 1024
      → IsChannel msg sent read
          (record c { receiver = (user_data_recv s c.receiver (received d)).2 })
  step-data sent read c i t d s v e age =
      let (n, a, b, g) = All-get (OnWire msg sent) c.wire i (t, d) v.7 e in
      let (acked, lt, w) = v.3 in
      let r =
        user_data_recv_keeps msg sent read s c.receiver (received d) n v.4
          (received-IsPacket msg n d g) a (omega (arith, w.4)) (omega (arith, v.1)) in
      (v.0, v.1, v.2, v.3, r.1, v.5, v.6, v.7, v.8)

  pub step-reads :
      (sent read : ℕ) (c : Channel) (fuel : ℕ) (buf out : List ℕ) (n : ℕ) (now : Time) (l : Link)
      (ds : List Datagram)
      → IsChannel msg sent read c
      → recv_round fuel c.receiver buf now ≡ some (got n out, l, ds)
      → IsChannel msg sent
          (read + 1)
          (record c { receiver = l; delivered = c.delivered ++ (take n out ∷ []) })
  step-reads sent read c fuel buf out n now l ds v e =
      let held = holds-got fuel c.receiver l buf out n now ds e in
      let (below, run, v') = recv_round_delivers msg sent read fuel c.receiver buf now v.4 held in
      let both = some-injective (sym run ∙ e) in
      let m : ℕ = length (msg read) in
      let round : got m (msg read ++ drop m buf) ≡ got n out = ap (λ t. t.0) both in
      let size : m ≡ n = cc in
      let bytes : msg read ++ drop m buf ≡ out = cc in
      let given : take n out ≡ msg read =
        rw⁻¹ (size, bytes) (take-append_length (msg read) (drop m buf) m refl) in
      let (acked, lt, w) = v.3 in
      (
        v.0,
        omega (arith, v.1, length-append c.delivered (take n out ∷ [])),
        omega arith,
        (acked, omega arith, w),
        subst (IsReceiver msg sent (read + 1)) (ap (λ t. t.1) both) v',
        v.5,
        messages-snoc msg c.delivered (take n out) v.6 (given ∙ ap msg v.1),
        v.7,
        All-impl (IsReport msg read) (IsReport msg (read + 1)) c.reports
            (λ td (a, b, h). (a, omega arith, h)) v.8,
      )
