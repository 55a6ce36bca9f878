-- ===== src/Udp/Connect/Tries.antt =====
-- `exConnect` of udp/ex_udp.c ends, and what it gives.
use utils_modules.Base.{
  ℕ, zero, suc, ◌≤◌, ◌≡◌, refl, ◌∙◌, ◌⊎◌, inl, inr, arith, Bool, true, false, not, List, [], ◌∷◌,
  Option, none, some, if◌then◌else◌, ◌>>=◌, All, length, Bool-cases, ◌==◌, ◌&&◌,
}
use utils_modules.Udp.{Link}
use utils_modules.Udp.Sock.{Sock}
use utils_modules.Udp.Table.{put_at, find_connected}
use utils_modules.Udp.Connect.{
  Wake, woken, link_id, CallEnd, waiting, closed, refused, linked, Connected, give_back, take_link,
  one_more, look_up, connect_loop, ex_connect,
}

-- Every link of the list is in memory.
abbrev pub IsLive : Sock → Type 0
IsLive s = All (λ a. (l : Link) × (s.links a ≡ some l)) s.list

-- The other threads keep it so.
abbrev pub KeepsLive : Wake → Type 0
KeepsLive w = (s : Sock) → IsLive s → IsLive (w.change s)

woken-IsLive : (w : Wake) (s : Sock) → KeepsLive w → IsLive s → IsLive (woken w s)
unfolding woken
woken-IsLive w s k v = elim (Bool-cases w.passed) [
  | inl on ↦ rw on (k s v)
  | inr off ↦ rw off (k s v)
]

-- How a call of at most `times` requests may end.
abbrev pub EndsAs : ℕ → ℕ → ℕ → CallEnd → Connected → Type 0
EndsAs ip port times waiting c = ⊥
EndsAs ip port times closed c = (c.sock.is_open ≡ false) × (c.requests ≤ times)
EndsAs ip port times refused c = (c.priority ≡ false) × (c.requests ≡ times)
EndsAs ip port times (linked a id) c =
    (l : Link) × (c.sock.links a ≡ some l)
    × (l.ip ≡ ip)
    × (l.port ≡ port)
    × (l.accept ≡ true)
    × (id ≡ link_id c.sock l)
    × (c.priority ≡ false)
    × (c.requests ≤ times)

find_connected_lem :
    (links : ℕ → Option Link) (ip port : ℕ) (chain : List ℕ)
    → All (λ a. (l : Link) × (links a ≡ some l)) chain
    → (find_connected links ip port chain ≡ some none)
      ⊎ ((a : ℕ) × (l : Link) × (find_connected links ip port chain ≡ some (some a))
          × (links a ≡ some l)
          × (l.ip ≡ ip)
          × (l.port ≡ port))
unfolding find_connected
find_connected_lem links ip port [] v = inl refl
find_connected_lem links ip port (a ∷ chain) (here, v) =
    let (l, at) = here in
    elim (Bool-cases (l.ip == ip && l.port == port)) [
      | inl same ↦
          let same_ip : l.ip ≡ ip = ground (arith, same) in
          let same_port : l.port ≡ port = ground (arith, same) in
          inr (a, l, rw at (rw same refl), at, same_ip, same_port)
      | inr other ↦ rw at (rw other (find_connected_lem links ip port chain v))
    ]

one_more-EndsAs :
    (ip port times : ℕ) (e : CallEnd) (c : Connected)
    → EndsAs ip port times e c
    → EndsAs ip port (suc times) e (one_more c)
unfolding one_more
one_more-EndsAs ip port times waiting c v = v
one_more-EndsAs ip port times closed c (o, n) = (o, omega arith)
one_more-EndsAs ip port times refused c (p, n) = (p, omega arith)
one_more-EndsAs ip port times (linked a id) c (l, at, i, q, t, d, p, n) =
    (l, at, i, q, t, d, p, omega arith)

put_at-found : (f : ℕ → Option Link) (a : ℕ) (o : Option Link) → put_at f a o a ≡ o
unfolding put_at
put_at-found f a o = ground arith

take_link-EndsAs :
    (ip port times a : ℕ) (s : Sock) (l : Link)
    → s.links a ≡ some l
    → l.ip ≡ ip
    → l.port ≡ port
    → (c : Connected) × (take_link s a ≡ some c) × EndsAs ip port (suc times) c.result c
unfolding take_link give_back link_id
take_link-EndsAs ip port times a s l at i q = (
  record {
    result = linked a (link_id s l);
    sock = give_back (record s { links = put_at s.links a (some (record l { accept = true })) });
    priority = false;
    requests = 1;
  },
  rw at refl,
  (record l { accept = true }, put_at-found s.links a _, i, q, refl, refl, refl, omega arith),
)

-- The call comes to an end.
abbrev Ends : ℕ → ℕ → ℕ → Option Connected → Type 0
Ends ip port times o = (c : Connected) × (o ≡ some c) × EndsAs ip port times c.result c

look_up-Ends :
    (ip port times : ℕ) (s : Sock) (again : Option Connected)
    → IsLive s
    → Ends ip port (suc times) again
    → Ends ip port (suc times) (look_up s ip port again)
unfolding look_up
look_up-Ends ip port times s again v (c, e, ends) =
    elim (find_connected_lem s.links ip port s.list v) [
      | inl missed ↦ (c, rw (missed, look_up) e, ends)
      | inr (a, l, found, at, i, q) ↦
          let (c', e', ends') = take_link-EndsAs ip port times a s l at i q in
          (c', rw (found, look_up) e', ends')
    ]

-- The tests of one round, over whatever follows them.
round-Ends :
    (ip port times : ℕ) (o p : Bool) (shut found again : Option Connected)
    → (o ≡ false → Ends ip port times shut)
    → Ends ip port times found
    → Ends ip port times again
    → Ends ip port times (if not o then shut else if p then found else again)
round-Ends ip port times false p shut found again x y z = x refl
round-Ends ip port times true true shut found again x y z = y
round-Ends ip port times true false shut found again x y z = z

one_more-Ends :
    (ip port times : ℕ) (o : Option Connected)
    → Ends ip port times o
    → Ends ip port (suc times) (o >>= (λ c. some (one_more c)))
unfolding one_more
one_more-Ends ip port times o (c, e, ends) =
    (one_more c, rw e refl, one_more-EndsAs ip port times c.result c ends)

connect_loop-Ends :
    (ip port times : ℕ) (ws : List Wake) (s : Sock)
    → times ≤ length ws
    → All KeepsLive ws
    → IsLive s
    → Ends ip port times (connect_loop ip port times ws s)
unfolding connect_loop
connect_loop-Ends ip port zero ws s h k v = (_, refl, (refl, refl))
connect_loop-Ends ip port (suc times) [] s h k v = absurd (omega arith)
connect_loop-Ends ip port (suc times) (w ∷ ws) s h (kw, k) v =
    let s' : Sock = woken w s in
    let v' : IsLive s' = woken-IsLive w s kw v in
    let again =
      one_more-Ends ip port times _ (connect_loop-Ends ip port times ws s' (omega arith) k v') in
    round-Ends ip port (suc times) s'.is_open w.passed _ _ _
      (λ shut. (_, refl, (shut, omega arith))) (look_up-Ends ip port times s' _ v' again) again

if_open : (b : Bool) (x y : Option Connected) → b ≡ true → (if b then x else y) ≡ x
if_open b x y on = rw on refl

-- `exConnect` on an open socket whose links are in memory, and stay so while it waits, ends after at
-- most `MAX_LINK_TIMES` waits. It has seen the socket closed; or it has sent all its requests in
-- vain, or it gives the id of a link with the ip and the port, which is then taken: in both cases
-- `connectPriority` is not set any more.
pub ex_connect_ends :
    (ip port times : ℕ) (ws : List Wake) (s : Sock)
    → times ≤ length ws
    → All KeepsLive ws
    → IsLive s
    → s.is_open ≡ true
    → (c : Connected) × (ex_connect times ip port ws s ≡ some c) × EndsAs ip port times c.result c
unfolding ex_connect
ex_connect_ends ip port times ws s h k v on =
    let (c, e, ends) = connect_loop-Ends ip port times ws s h k v in (c, if_open _ _ _ on ∙ e, ends)
