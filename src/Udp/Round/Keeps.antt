-- ===== src/Udp/Round/Keeps.antt =====
-- What a turn of `thread_listen` of udp/ex_udp.c leaves as it was: the other links, and their order.
use utils_modules.Base.{
  ℕ, ◌/◌, ◌+◌, ◌≡◌, ◌≢◌, refl, ap, subst, ◌∙◌, ◌⊎◌, inl, inr, arith, Bool, true, false, not, List,
  Option, none, some, if◌then◌else◌, ◌>>=◌, ◌==◌, ◌&&◌, bind_inverse, if_inverse, some-injective,
}
use utils_modules.Timer.{Time}
use utils_modules.Udp.{Link, Datagram, send_msg, is_joined, next_seq, len_packet_head}
use utils_modules.Udp.Clock.{ms_diff_below}
use utils_modules.Udp.Sock.{Sock, list_erase, ctl_interval_time}
use utils_modules.Udp.Messages.{Reply}
use utils_modules.Udp.Send.{seq_check_now, send_check, check_packet}
use utils_modules.Udp.Table.{put_at, del_list, removed, unchain}
use utils_modules.Udp.Listen.{Watch, watched, given_up, watch, check_watched, listen_link}
use utils_modules.Udp.Round.{Turn, Walked, settle, visit}

-- All that a call may return.
abbrev pub Gives {ℓ} : {A : Type ℓ} → Option A → (A → Type 0) → Type ℓ
Gives o P = (x : _) → o ≡ some x → P x

if-Gives {ℓ} :
    {A : Type ℓ} (P : A → Type 0) (c : Bool) (x y : Option A)
    → Gives x P
    → Gives y P
    → Gives (if c then x else y) P
if-Gives P true x y p q = p
if-Gives P false x y p q = q

some-Gives {ℓ} : {A : Type ℓ} (P : A → Type 0) (x : A) → P x → Gives (some x) P
some-Gives P x p y e = subst P (some-injective e) p

bind-Gives {ℓ κ} :
    {A : Type ℓ} {B : Type κ} (P : B → Type 0) (o : Option A) (f : A → Option B)
    → ((x : A) → Gives (f x) P)
    → Gives (o >>= f) P
bind-Gives P o f p y e = let (x, at, e') = bind_inverse o f y e in p x y e'

-- The links, their list and their chains are the same.
abbrev pub IsSame : Sock → Sock → Type 0
IsSame s s' = (s'.list ≡ s.list) × (s'.links ≡ s.links) × (s'.by_port ≡ s.by_port)

if-IsSame :
    (s s1 s2 : Sock) (c : Bool) → IsSame s s1 → IsSame s s2 → IsSame s (if c then s1 else s2)
if-IsSame s s1 s2 true p q = p
if-IsSame s s1 s2 false p q = q

ctl_interval_time-IsSame :
    (interval : ℕ) (s : Sock) (now : Time) → IsSame s (ctl_interval_time interval s now)
unfolding ctl_interval_time
ctl_interval_time-IsSame interval s now =
    let posted : Sock = record s { time_send = now; listen_posts = s.listen_posts + 1 } in
    let sent : Sock = record s { time_send = now } in
    let late : Bool = not (ms_diff_below s.time_listen s.time_send interval) in
    if-IsSame s s (if late then posted else sent) (not s.is_open) (refl, refl, refl)
      (if-IsSame s posted sent late (refl, refl, refl) (refl, refl, refl))

-- The socket of a check.
abbrev ChecksSame : Sock → Sock × Reply → Type 0
ChecksSame s r = IsSame s (r.0)

seq_check_now-IsSame :
    (interval : ℕ) (s : Sock) (l : Link) (now : Time) (bytes : List ℕ)
    → Gives (seq_check_now interval s l now bytes) (ChecksSame s)
unfolding seq_check_now send_check
seq_check_now-IsSame interval s l now bytes r e =
    let P : Sock × Reply → Type 0 = ChecksSame s in
    let keeps : (r' : Reply) → Gives (some (s, r')) P =
      λ r'. some-Gives P (s, r') (refl, refl, refl) in
    let up : Bool = is_joined l.link_state && ms_diff_below s.time_listen l.timeout interval in
    elim (if_inverse up _ _ _ e) [
      | inr (other, e1) ↦ keeps _ r e1
      | inl (same, e1) ↦ elim (if_inverse (l.seq_max_send == next_seq l.seq_check_send) _ _ _ e1) [
        | inl (none_left, e2) ↦ keeps _ r e2
        | inr (left, e2) ↦
            let early : Bool =
              ms_diff_below now l.timeout_send (l.timeout_check_lack.usec / 1000) in
            elim (if_inverse early _ _ _ e2) [
              | inl (soon, e3) ↦ keeps _ r e3
              | inr (late, e3) ↦
                  let (one, sent, e4) =
                    bind_inverse (send_msg l (check_packet l bytes) (len_packet_head + 16)) _ r
                      e3 in
                  some-Gives P _ (ctl_interval_time-IsSame interval s now) r e4
            ]
      ]
    ]

-- The result of `listen_link`.
abbrev pub ListensSame : Sock → Option (Sock × Link × List Datagram) → Type 0
ListensSame s none = Unit
ListensSame s (some r) = IsSame s (r.0)

check_watched-ListensSame :
    (interval : ℕ) (s : Sock) (now : Time) (bytes : List ℕ) (w : Watch)
    → Gives (check_watched interval s now bytes w) (ListensSame s)
unfolding check_watched
check_watched-ListensSame interval s now bytes given_up y e =
    subst (ListensSame s) (some-injective e) tt
check_watched-ListensSame interval s now bytes (watched l out) y e =
    let (r, at, e') = bind_inverse (seq_check_now interval s l now bytes) _ y e in
    some-Gives (ListensSame s) _ (seq_check_now-IsSame interval s l now bytes r at) y e'

pub listen_link-ListensSame :
    (interval times : ℕ) (s : Sock) (l : Link) (now : Time) (bytes : List ℕ)
    → Gives (listen_link interval times s l now bytes) (ListensSame s)
unfolding listen_link
listen_link-ListensSame interval times s l now bytes =
    bind-Gives (ListensSame s) (watch interval times s l now) _
      (check_watched-ListensSame interval s now bytes)

-- After a turn for the link at `a`: it is in the list or not, and the other links are as they were.
abbrev pub IsTurned : ℕ → Sock → Sock → Type 0
IsTurned a s s' =
    ((s'.list ≡ s.list) ⊎ (s'.list ≡ list_erase a s.list))
    × ((b : ℕ) → b ≢ a → s'.links b ≡ s.links b)

put_at-elsewhere : (f : ℕ → Option Link) (a b : ℕ) (o : Option Link) → b ≢ a → put_at f a o b ≡ f b
unfolding put_at
put_at-elsewhere f a b o n = ground arith

removed-IsTurned :
    (s : Sock) (a : ℕ) (l : Link) (chain : List ℕ) (now : Time)
    → IsTurned a s (removed s a l chain now)
unfolding removed
removed-IsTurned s a l chain now = (inr refl, λ b n. put_at-elsewhere s.links a b _ n)

abbrev DeletesTurned : ℕ → Sock → Bool × Sock × List Datagram → Type 0
DeletesTurned a s r = IsTurned a s (r.1)

del_list-DeletesTurned :
    (s : Sock) (a : ℕ) (now : Time) → Gives (del_list s a now) (DeletesTurned a s)
unfolding del_list
del_list-DeletesTurned s a now =
    let P : Bool × Sock × List Datagram → Type 0 = DeletesTurned a s in
    bind-Gives P (s.links a) _ (λ l. if-Gives P _ _ _ (some-Gives P _ (inl refl, λ b n. refl)) (
      bind-Gives P _ _ (λ fin.
        bind-Gives P (unchain s.links l.ip s.socket (s.by_port l.port)) _
          (λ chain. some-Gives P _ (removed-IsTurned s a l chain now)))))

abbrev WalksTurned : ℕ → Sock → Walked → Type 0
WalksTurned a s r = IsTurned a s r.sock

settle-WalksTurned :
    (s : Sock) (a : ℕ) (l : Link) (now : Time) (o : Option (Sock × Link × List Datagram))
    → ListensSame s o
    → Gives (settle s a l now o) (WalksTurned a s)
unfolding settle
settle-WalksTurned s a l now none same y e =
    let (r, at, e') = bind_inverse (del_list s a now) _ y e in
    some-Gives (WalksTurned a s) _ (del_list-DeletesTurned s a now r at) y e'
settle-WalksTurned s a l now (some (s', l', out)) (order, links, _) y e =
    some-Gives (WalksTurned a s) _
      (inl order, λ b n. put_at-elsewhere s'.links a b _ n ∙ ap (λ f. f b) links) y e

pub visit-IsTurned :
    (interval times : ℕ) (s : Sock) (a : ℕ) (l : Link) (t : Turn) (r : Walked)
    → visit interval times s a l t ≡ some r
    → IsTurned a s r.sock
unfolding visit
visit-IsTurned interval times s a l t r e =
    let (o, at, e') = bind_inverse (listen_link interval times s l t.now t.bytes) _ r e in
    settle-WalksTurned s a l t.now o (listen_link-ListensSame interval times s l t.now t.bytes o at)
      r e'
