-- ===== src/Udp/Listing.antt =====
-- `SeqLack` reports just the packets that are not in their entries, udp/ex_udp.c.
use utils_modules.Base.{
  ℕ, zero, suc, ◌+◌, ◌-◌, ◌*◌, ◌/◌, ◌%◌, ◌≤◌, ◌<◌, ◌≡◌, inl, inr, true, false, List, [], ◌∷◌, ◌++◌,
  length, take, arith, refl, ap, sym, ◌∙◌, subst, if◌then◌else◌, Bool-cases, some, ◌==◌, leb,
  length-append, append-nil, append_assoc, length-replicate,
}
use utils_modules.Timer.{Time}
use utils_modules.Udp.{
  Packet, Datagram, Link, holds, next_seq, send_msg, datagram, stamp, zero_packet, type_byte,
}
use utils_modules.Udp.Messages.{
  Lacks, lack_write, lack_one, lack_loop, lack_start, lack_rest, report_lacks, seq_lack_at,
}
use utils_modules.Udp.Seq.{cmp_seq, cmp_seq-ahead}
use utils_modules.Udp.Clock.{ms_diff_below}
use utils_modules.Udp.Numbered.{next_seq-mod}
use utils_modules.Udp.Lacking.{bytes_of, bytes_of-append, take-put_word, length-put_word}

-- The numbers that are lacking among the `n` from `r` on.
abbrev pub lacking : (ℕ → Packet) → ℕ → ℕ → List ℕ
lacking slots r zero = []
lacking slots r (suc n) =
    let rest : List ℕ = lacking slots (r + 1) n in
    if holds slots (r % 2044) then rest else (r % 2044) ∷ rest

-- The words written so far, and no packet was sent yet.
abbrev IsListing : List ℕ → Lacks → Type 0
IsListing ws s =
    (s.count ≡ length ws)
    × (s.offset ≡ 2 * length ws)
    × (s.out ≡ [])
    × (s.pa.type ≡ 7)
    × (length s.pa.buf ≡ 1464)
    × (take (2 * length ws) s.pa.buf ≡ bytes_of ws)

lack_write-IsListing :
    (ws : List ℕ) (s : Lacks) (w : ℕ)
    → IsListing ws s
    → length ws < 732
    → IsListing (ws ++ (w ∷ [])) (lack_write s w)
unfolding lack_write
lack_write-IsListing ws s w v h =
    let len : length (ws ++ (w ∷ [])) ≡ length ws + 1 = length-append ws (w ∷ []) in
    let twice : 2 * length (ws ++ (w ∷ [])) ≡ s.offset + 2 = omega (arith, v.1, len) in
    (
      omega (arith, v.0, len),
      sym twice,
      v.2,
      v.3,
      length-put_word s.pa.buf s.offset w ∙ v.4,
      rw twice (take-put_word s.pa.buf s.offset w (omega (arith, v.1, v.4)))
          ∙ ap (λ t. t ++ ((w % 256) ∷ (w / 256) ∷ [])) (ap (λ k. take k s.pa.buf) v.1 ∙ v.5)
          ∙ sym (bytes_of-append ws (w ∷ [])),
    )

lack_one-IsListing :
    (l : Link) (ws : List ℕ) (s : Lacks) (r n : ℕ)
    → IsListing ws s
    → length ws < 510
    → (s' : Lacks) × (ws' : List ℕ) × (lack_one l s (r % 2044) ≡ some s')
      × IsListing ws' s'
      × (length ws' ≤ length ws + 1)
      × (ws' ++ lacking l.recv_slots (r + 1) n ≡ ws ++ lacking l.recv_slots r (suc n))
unfolding lack_one
lack_one-IsListing l ws s r n v h = elim (Bool-cases (holds l.recv_slots (r % 2044))) [
  | inl kept ↦ (s, ws, rw kept refl, v, omega arith, rw kept refl)
  | inr lacks ↦
      let more : ((s.count + 1) * 2 % 1464 == 0) ≡ false = ground (arith, v.0) in
      (
        lack_write s (r % 2044),
        ws ++ ((r % 2044) ∷ []),
        rw (lacks, more) refl,
        lack_write-IsListing ws s (r % 2044) v (omega arith),
        omega (arith, length-append ws ((r % 2044) ∷ [])),
        append_assoc ws ((r % 2044) ∷ []) (lacking l.recv_slots (r + 1) n) ∙ rw lacks refl,
      )
]

lack_loop-IsListing :
    (n fuel : ℕ) (l : Link) (ws : List ℕ) (s : Lacks) (r max : ℕ)
    → IsListing ws s
    → l.seq_read_max ≡ max % 2044
    → max ≡ r + suc n
    → n < fuel
    → length ws + suc n ≤ 510
    → (s' : Lacks) × (lack_loop fuel l s (r % 2044) ≡ some s')
      × IsListing (ws ++ lacking l.recv_slots r (suc n)) s'
unfolding lack_loop
lack_loop-IsListing n zero l ws s r max v m e f k = absurd (omega arith)
lack_loop-IsListing zero (suc fuel) l ws s r max v m e f k =
    let (s', ws', one, v', len, split) = lack_one-IsListing l ws s r zero v (omega arith) in
    let last : (next_seq (r % 2044) == l.seq_read_max) ≡ true =
      rw (next_seq-mod r, m, e) (ground arith) in
    (s', rw (one, last) refl, subst (λ t. IsListing t s') (sym (append-nil ws') ∙ split) v')
lack_loop-IsListing (suc n) (suc fuel) l ws s r max v m e f k =
    let (s', ws', one, v', len, split) = lack_one-IsListing l ws s r (suc n) v (omega arith) in
    let again : (next_seq (r % 2044) == l.seq_read_max) ≡ false =
      rw (next_seq-mod r, m, e) (ground arith) in
    let (s'', rest, v'') =
      lack_loop-IsListing n fuel l ws' s' (r + 1) max v' m (omega arith) (omega arith)
        (omega arith) in
    (s'', rw (one, again, next_seq-mod r) rest, subst (λ t. IsListing t s'') split v'')

pub length-lacking : (slots : ℕ → Packet) (r n : ℕ) → length (lacking slots r n) ≤ n
length-lacking slots r zero = omega arith
length-lacking slots r (suc n) = ground (arith, length-lacking slots (r + 1) n)

-- What is sent for a list of numbers: nothing, or one packet with their bytes.
abbrev pub Lists : List ℕ → List Datagram → Type 0
Lists [] out = out ≡ []
Lists (w ∷ ws) out =
    (d : Datagram) × (out ≡ d ∷ []) × (d.type ≡ 7) × (d.payload ≡ bytes_of (w ∷ ws))

lack_rest-Lists :
    (l : Link) (ws : List ℕ) (s : Lacks)
    → IsListing ws s
    → length ws ≤ 510
    → (out : List Datagram) × (lack_rest l s (s.count * 2 % 1464) ≡ some out) × Lists ws out
unfolding lack_rest send_msg datagram stamp
lack_rest-Lists l [] s v h =
    let none_left : (s.count * 2 % 1464 == 0) ≡ true = ground (arith, v.0) in
    (s.out, rw none_left refl, v.2)
lack_rest-Lists l (w ∷ ws) s v h =
    let size : s.count * 2 % 1464 ≡ 2 * length (w ∷ ws) = omega (arith, v.0) in
    let some_left : (2 * length (w ∷ ws) == 0) ≡ false = ground arith in
    let bytes : ℕ = 2 * length (w ∷ ws) in
    let head : leb 8 (8 + bytes) ≡ true = ground arith in
    let body : 8 + bytes - 8 ≡ bytes = omega arith in
    let pa : Packet = record s.pa { len = 8 + bytes } in
    let d : Datagram = datagram l (stamp l pa) (8 + bytes) in
    (
      d ∷ [],
      rw (size, some_left, head) (ap (λ t. some (t ++ (d ∷ []))) v.2),
      (d, refl, v.3, rw body v.5),
    )

lack_start-IsListing : IsListing [] lack_start
unfolding lack_start zero_packet type_byte
lack_start-IsListing = (refl, refl, refl, refl, length-replicate {A = ℕ} 1464 0, refl)

-- If the time to report has come, and the number that the sender reported is at most 510 ahead of the
-- next to be read, then `SeqLack` ends and returns EX_UDP_OK: it sends nothing if each packet up to
-- that number is in its entry, and else one packet with just the numbers of those that are not, in
-- order; of the link only the time of the report changes.
pub seq_lack_at_lem :
    (fuel : ℕ) (l : Link) (now : Time) (read max n : ℕ)
    → 510 ≤ fuel
    → l.seq_read ≡ read % 2044
    → l.seq_read_max ≡ max % 2044
    → max ≡ read + suc n
    → suc n ≤ 510
    → ms_diff_below now l.timeout_report_lack (l.timeout_check_lack.usec / 1000) ≡ false
    → (out : List Datagram) × (seq_lack_at fuel l now
        ≡ some (record { ok = true; link = record l { timeout_report_lack = now }; out = out }))
      × Lists (lacking l.recv_slots read (suc n)) out
unfolding seq_lack_at report_lacks
seq_lack_at_lem fuel l now read max n f e m d k t =
    let window : cmp_seq l.seq_read_max l.seq_read ≡ true =
      rw (e, m) (cmp_seq-ahead max read (omega arith) (omega arith)) in
    let (s, looped, v) =
      lack_loop-IsListing n fuel l [] lack_start read max lack_start-IsListing m d (omega arith)
        (omega arith) in
    let looped' : lack_loop fuel l lack_start l.seq_read ≡ some s =
      ap (λ r. lack_loop fuel l lack_start r) e ∙ looped in
    let (out, sent, lists) =
      lack_rest-Lists l (lacking l.recv_slots read (suc n)) s v
        (omega (arith, length-lacking l.recv_slots read (suc n))) in
    (out, rw (t, window, looped', sent) refl, lists)
