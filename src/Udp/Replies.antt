-- ===== src/Udp/Replies.antt =====
-- What the receiver of a link sends back, udp/ex_udp.c: its reports have the number before the next to
-- be read, and the link keeps its numbers and its packets.
use utils_modules.Base.{
  ℕ, ◌%◌, ◌/◌, ◌*◌, ◌≡◌, inl, inr, true, false, not, List, [], ◌∷◌, refl, ap, sym, ◌∙◌, subst, ◌||◌,
  bind_inverse, if_inverse, Option, zero, suc, some, none, some-injective, All, ◌==◌, leb,
}
use utils_modules.Timer.{Time}
use utils_modules.Udp.{
  Packet, Datagram, Link, is_joined, previous_seq, send_msg, datagram, stamp, holds, type_byte,
}
use utils_modules.Udp.Seq.{cmp_seq, cmp_seq_order}
use utils_modules.Udp.Clock.{ms_diff_below}
use utils_modules.Udp.Sock.{Sock}
use utils_modules.Udp.Messages.{
  Reply, seq_lack_at, report_lacks, lack_loop, lack_rest, lack_start, seq_report_at,
  report_and_lack, report_packet,
}
use utils_modules.Udp.Receive.{got, seq_check_ack, check_answer, recv_round, recv_wait}

-- The numbers and the packets of the receiving side are the same.
abbrev pub SameReader : Link → Link → Type 0
SameReader l l' =
    (l'.link_state ≡ l.link_state) × (l'.seq_read ≡ l.seq_read) × (l'.recv_slots ≡ l.recv_slots)

report_lacks-SameReader :
    (fuel : ℕ) (l : Link) (now : Time) (r : Reply)
    → report_lacks fuel l now ≡ some r
    → SameReader l r.link
unfolding report_lacks
report_lacks-SameReader fuel l now r e =
    let (s, h, e') = bind_inverse (lack_loop fuel l lack_start l.seq_read) _ r e in
    let (out, h', e'') = bind_inverse (lack_rest l s (s.count * 2 % 1464)) _ r e' in
    subst (λ t. SameReader l t.link) (some-injective e'') (refl, refl, refl)

pub seq_lack_at-SameReader :
    (fuel : ℕ) (l : Link) (now : Time) (r : Reply)
    → seq_lack_at fuel l now ≡ some r
    → SameReader l r.link
unfolding seq_lack_at
seq_lack_at-SameReader fuel l now r e =
    elim (if_inverse (ms_diff_below now l.timeout_report_lack (l.timeout_check_lack.usec / 1000)) _
      _ _ e) [
        | inl (c, done) ↦ subst (λ t. SameReader l t.link) (some-injective done) (refl, refl, refl)
        | inr (c, more) ↦ elim (if_inverse (cmp_seq l.seq_read_max l.seq_read) _ _ _ more) [
          | inl (d, lacks) ↦ report_lacks-SameReader fuel l now r lacks
          | inr (d, done) ↦
              subst (λ t. SameReader l t.link) (some-injective done) (refl, refl, refl)
        ]
      ]

-- A datagram that reports the number before the next to be read.
abbrev pub Reports : ℕ → Datagram → Type 0
Reports seq d = (d.type ≡ 6) × (d.seq ≡ previous_seq seq)

send_msg-fields :
    (l : Link) (pa pa' : Packet) (len : ℕ) (d : Datagram)
    → send_msg l pa len ≡ some (d, pa')
    → (d.type ≡ pa.type) × (d.seq ≡ pa.seq)
unfolding send_msg datagram stamp
send_msg-fields l pa pa' len d e = elim (if_inverse (leb 8 len) _ _ _ e) [
  | inl (c, done) ↦
      let same : datagram l (stamp l pa) len ≡ d = ap (λ t. t.0) (some-injective done) in
      (ap (λ t. t.type) (sym same), ap (λ t. t.seq) (sym same))
  | inr (c, done) ↦ absurd cc
]

-- At a link that is up, `SeqReport` first sends a report of the number before the next to be read.
pub seq_report_at-Reports :
    (fuel : ℕ) (l : Link) (now : Time) (r : Reply)
    → is_joined l.link_state ≡ true
    → seq_report_at fuel l now ≡ some r
    → SameReader l r.link
      × ((d : Datagram) × (ds : List Datagram) × (r.out ≡ d ∷ ds) × Reports l.seq_read d)
unfolding seq_report_at report_and_lack report_packet type_byte
seq_report_at-Reports fuel l now r up e = elim (if_inverse (is_joined l.link_state) _ _ _ e) [
  | inl (c, e') ↦
      let ((d, pa), h, e2) = bind_inverse (send_msg l (report_packet l) 8) _ _ e' in
      let (r', h', e3) = bind_inverse (seq_lack_at fuel l now) _ _ e2 in
      let same = some-injective e3 in
      (
        subst (λ t. SameReader l t.link) same (seq_lack_at-SameReader fuel l now r' h'),
        (d, r'.out, ap (λ t. t.out) (sym same), send_msg-fields l (report_packet l) pa 8 d h),
      )
  | inr (c, e') ↦ absurd (let f : true ≡ false = sym up ∙ c in cc)
]

check_answer-Reports :
    (l : Link) (pa : Packet) (out : List Datagram)
    → check_answer l pa ≡ some out
    → All (Reports l.seq_read) out
unfolding check_answer type_byte
check_answer-Reports l pa out e = elim (if_inverse (pa.seq_check == l.seq_read) _ _ _ e) [
  | inl (c, done) ↦ subst (All (Reports l.seq_read)) (some-injective done) tt
  | inr (c, e') ↦
      let ((d, pa'), h, e2) =
        bind_inverse (send_msg l (record pa { type = 6; seq = previous_seq l.seq_read }) pa.len) _ _
          e' in
      subst (All (Reports l.seq_read)) (some-injective e2) (
        send_msg-fields l (record pa { type = 6; seq = previous_seq l.seq_read }) pa' pa.len d h,
        tt,
      )
]

pub seq_check_ack-Reports :
    (s s' : Sock) (l : Link) (pa : Packet) (r : Reply)
    → seq_check_ack s l pa ≡ some (s', r)
    → SameReader l r.link × All (Reports l.seq_read) r.out
unfolding seq_check_ack
seq_check_ack-Reports s s' l pa r e =
    let stays : some (s, record { ok = false; link = l; out = [] }) ≡ some (s', r)
        → SameReader l r.link × All (Reports l.seq_read) r.out =
      λ done.
        subst (λ t. SameReader l (t.1).link × All (Reports l.seq_read) (t.1).out)
          (some-injective done) ((refl, refl, refl), tt) in
    elim (if_inverse (not (is_joined l.link_state)) _ _ _ e) [
      | inl (c, done) ↦ stays done
      | inr (c, more) ↦
          elim (if_inverse (l.seq_read == pa.seq || cmp_seq_order pa.seq_check l.seq_read pa.seq) _
            _ _ more) [
              | inl (d, e') ↦
                  let (out, h, e2) = bind_inverse (check_answer l pa) _ _ e' in
                  subst (λ t. SameReader l (t.1).link × All (Reports l.seq_read) (t.1).out)
                    (some-injective e2) ((refl, refl, refl), check_answer-Reports l pa out h)
              | inr (d, done) ↦ stays done
            ]
    ]

wait-not-got : (o : Option ℕ) (n : ℕ) (out : List ℕ) → ¬ (recv_wait o ≡ got n out)
unfolding recv_wait
wait-not-got none n out e = cc
wait-not-got (some zero) n out e = cc
wait-not-got (some (suc ms)) n out e = cc

-- A round of `exRecv` that returns data had the packet to be read.
pub holds-got :
    (fuel : ℕ) (l l' : Link) (buf out : List ℕ) (n : ℕ) (now : Time) (ds : List Datagram)
    → recv_round fuel l buf now ≡ some (got n out, l', ds)
    → holds l.recv_slots l.seq_read ≡ true
unfolding recv_round
holds-got fuel l l' buf out n now ds e = elim (if_inverse (holds l.recv_slots l.seq_read) _ _ _ e) [
  | inl (c, done) ↦ c
  | inr (c, e') ↦
      let (r, h, e2) = bind_inverse (seq_report_at fuel l now) _ _ e' in
      absurd (wait-not-got l.wait_time n out (ap (λ t. t.0) (some-injective e2)))
]
