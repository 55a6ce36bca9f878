-- ===== src/Udp/Rounds.antt =====
-- A round of `exSend` that sends, or whose `sendto` fails, had an entry for the packet, udp/ex_udp.c.
use utils_modules.Base.{
  ℕ, zero, suc, ◌≡◌, inl, inr, Bool, true, false, List, refl, ap, sym, ◌∙◌, Bool-cases, Option,
  some, none, some-injective,
}
use utils_modules.Timer.{Time}
use utils_modules.Udp.{Datagram, Link}
use utils_modules.Udp.Sock.{Sock}
use utils_modules.Udp.Send.{sent_packet, send_failed, send_wait, has_room, send_round}

wait-not-sent : (o : Option ℕ) (d : Datagram) → ¬ (send_wait o ≡ sent_packet d)
unfolding send_wait
wait-not-sent none d e = cc
wait-not-sent (some zero) d e = cc
wait-not-sent (some (suc ms)) d e = cc

wait-not-failed : (o : Option ℕ) → ¬ (send_wait o ≡ send_failed)
unfolding send_wait
wait-not-failed none e = cc
wait-not-failed (some zero) e = cc
wait-not-failed (some (suc ms)) e = cc

waits_without_room :
    (sends : Bool) (interval : ℕ) (s : Sock) (l : Link) (buf : List ℕ) (len : ℕ) (now : Time)
    → has_room l ≡ false
    → send_round sends interval s l buf len now ≡ some (send_wait l.wait_time, s, l)
unfolding send_round
waits_without_room sends interval s l buf len now h = rw h refl

pub has_room-sent :
    (interval : ℕ) (s s' : Sock) (l l' : Link) (buf : List ℕ) (len : ℕ) (now : Time) (d : Datagram)
    → send_round true interval s l buf len now ≡ some (sent_packet d, s', l')
    → has_room l ≡ true
has_room-sent interval s s' l l' buf len now d e = elim (Bool-cases (has_room l)) [
  | inl h ↦ h
  | inr h ↦
      let w = waits_without_room true interval s l buf len now h in
      let same : send_wait l.wait_time ≡ sent_packet d =
        ap (λ t. t.0) (some-injective (sym w ∙ e)) in
      absurd (wait-not-sent l.wait_time d same)
]

pub has_room-failed :
    (interval : ℕ) (s s' : Sock) (l l' : Link) (buf : List ℕ) (len : ℕ) (now : Time)
    → send_round false interval s l buf len now ≡ some (send_failed, s', l')
    → has_room l ≡ true
has_room-failed interval s s' l l' buf len now e = elim (Bool-cases (has_room l)) [
  | inl h ↦ h
  | inr h ↦
      let w = waits_without_room false interval s l buf len now h in
      let same : send_wait l.wait_time ≡ send_failed = ap (λ t. t.0) (some-injective (sym w ∙ e)) in
      absurd (wait-not-failed l.wait_time same)
]
