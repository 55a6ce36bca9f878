-- ===== src/Udp/Greetings.antt =====
-- The packets of `thread_recv` of udp/ex_udp.c that ask for a link, answer and confirm, when they come
-- to a link that is connected.
use utils_modules.Base.{
  ℕ, ◌+◌, ◌≡◌, refl, sym, ap, ◌∙◌, true, false, List, [], some, ltb, some-injective, subst,
}
use utils_modules.Udp.{Packet, Datagram, Link, is_joined, send_msg}
use utils_modules.Udp.Dispatch.{
  touch, syn_link, on_syn, on_syn_ack, syn_ack_answer, syn_ack_join, on_ack,
}
use utils_modules.Udp.Numbered.{IsSender, IsReceiver}

-- What such a packet makes of a link: a request or an answer of a side that is connected, or a
-- confirmation.
pub data Greets (l : Link) (pa : Packet) (l' : Link) : Type 0 where
  asks :
      (out : List Datagram)
      → ltb pa.state 2 ≡ false
      → on_syn (touch l) pa ≡ some (l', out)
      → Greets l pa l'
  answers :
      (out : List Datagram)
      → ltb pa.state 2 ≡ false
      → on_syn_ack (touch l) pa ≡ some (l', out)
      → Greets l pa l'
  confirms : l' ≡ on_ack (touch l) → Greets l pa l'

syn_link-stays :
    (l : Link) (pa : Packet)
    → is_joined l.link_state ≡ true
    → ltb pa.state 2 ≡ false
    → syn_link (touch l) pa ≡ touch l
unfolding syn_link touch
syn_link-stays l pa up state = rw (state, up) refl

on_syn_ack-stays :
    (l : Link) (pa : Packet)
    → is_joined l.link_state ≡ true
    → ltb pa.state 2 ≡ false
    → on_syn_ack (touch l) pa ≡ some (record (touch l) { send_posts = l.send_posts + 1 }, [])
unfolding on_syn_ack syn_ack_answer syn_ack_join touch
on_syn_ack-stays l pa up state = rw (state, up) refl

on_ack-stays : (l : Link) → is_joined l.link_state ≡ true → on_ack (touch l) ≡ touch l
unfolding on_ack touch
on_ack-stays l up = rw up refl

-- The link with its time unset, and its senders woken or not.
Greets-touch :
    (l l' : Link) (pa : Packet)
    → is_joined l.link_state ≡ true
    → Greets l pa l'
    → (posts : ℕ) × (l' ≡ record (touch l) { send_posts = posts })
unfolding on_syn send_msg touch
Greets-touch l l' pa up (asks out state e) =
    (l.send_posts, sym (ap (λ r. r.0) (some-injective e)) ∙ syn_link-stays l pa up state)
Greets-touch l l' pa up (answers out state e) = (
  l.send_posts + 1,
  sym (ap (λ r. r.0) (some-injective (sym (on_syn_ack-stays l pa up state) ∙ e))),
)
Greets-touch l l' pa up (confirms e) = (l.send_posts, e ∙ on_ack-stays l up)

module _ (msg : ℕ → List ℕ) where
  pub Greets-IsReceiver :
      (sent read : ℕ) (l l' : Link) (pa : Packet)
      → Greets l pa l'
      → IsReceiver msg sent read l
      → IsReceiver msg sent read l'
  unfolding touch
  Greets-IsReceiver sent read l l' pa g v =
      let (posts, e) = Greets-touch l l' pa (v.0) g in subst (IsReceiver msg sent read) (sym e) v

  pub Greets-IsSender :
      (acked sent : ℕ) (l l' : Link) (pa : Packet)
      → Greets l pa l'
      → IsSender msg acked sent l
      → IsSender msg acked sent l'
  unfolding touch
  Greets-IsSender acked sent l l' pa g v =
      let (posts, e) = Greets-touch l l' pa (v.0) g in subst (IsSender msg acked sent) (sym e) v
