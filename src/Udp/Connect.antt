-- ===== src/Udp/Connect.antt =====
-- `exConnect` and `exAccept` of udp/ex_udp.c, as loops over what wakes them: the other threads change
-- the socket while the call waits.
pub mod Tries
pub mod Taken
pub mod Takes
use utils_modules.Base.{
  ℕ, zero, suc, ◌+◌, ◌-◌, ◌*◌, Bool, true, false, not, List, [], ◌∷◌, Option, none, some,
  if◌then◌else◌, ◌>>=◌,
}
use utils_modules.Udp.{Link}
use utils_modules.Udp.Sock.{Sock}
use utils_modules.Udp.Table.{put_at, find_connected, get_link_accept}

-- A wait for `semAccept` that ends: whether the semaphore was passed, or the time was over; whether
-- `connectPriority` is set then; and what became of the socket, the semaphore not yet counted down.
pub record Wake : Type 0 where
  pub passed : Bool
  pub priority : Bool
  pub change : Sock → Sock

-- The socket at the end of a wait.
unfoldable pub woken : Wake → Sock → Sock
woken w s =
    let s' : Sock = w.change s in
    if w.passed then record s' { accept_posts = s'.accept_posts - 1 } else s'

-- What the caller of the id gets: `pslink->id | sock << 16`.
unfoldable pub link_id : Sock → Link → ℕ
link_id s l = l.id + s.socket * 65536

-- How a call comes to its end, `waiting` if it has not.
pub data CallEnd : Type 0 where
  waiting : CallEnd
  closed : CallEnd
  refused : CallEnd
  linked : ℕ → ℕ → CallEnd

-- The end of `exConnect`, with the socket, `connectPriority`, and how many requests were sent.
pub record Connected : Type 0 where
  pub result : CallEnd
  pub sock : Sock
  pub priority : Bool
  pub requests : ℕ

-- The semaphore is posted for a call of `exAccept`.
unfoldable pub give_back : Sock → Sock
give_back s = record s { accept_posts = s.accept_posts + 1 }

unfoldable pub take_link : Sock → ℕ → Option Connected
take_link s a = s.links a >>= (λ l. some (record {
  result = linked a (link_id s l);
  sock = give_back (record s { links = put_at s.links a (some (record l { accept = true })) });
  priority = false;
  requests = 1;
}))

unfoldable pub one_more : Connected → Connected
one_more c = record c { requests = c.requests + 1 }

-- The search after a wait that passed the semaphore.
unfoldable pub look_up : Sock → ℕ → ℕ → Option Connected → Option Connected
look_up s ip port again =
    find_connected s.links ip port s.list
    >>= (λ found. elim found [ some a ↦ take_link s a | none ↦ again ])

-- The loop of `exConnect` with `times` requests left; the list ends while the call still waits.
unfoldable pub connect_loop : ℕ → ℕ → ℕ → List Wake → Sock → Option Connected
connect_loop ip port zero ws s =
    some (record { result = refused; sock = give_back s; priority = false; requests = 0 })
connect_loop ip port (suc times) [] s =
    some (record { result = waiting; sock = s; priority = true; requests = 1 })
connect_loop ip port (suc times) (w ∷ ws) s =
    let s' : Sock = woken w s in
    let again : Option Connected = connect_loop ip port times ws s' >>= (λ c. some (one_more c)) in
    if not s'.is_open
    then some (record { result = closed; sock = s'; priority = true; requests = 1 })
    else if w.passed
    then look_up s' ip port again
    else again

-- `exConnect` to an address that `inet_addr` understands, with `MAX_LINK_TIMES` requests.
unfoldable pub ex_connect : ℕ → ℕ → ℕ → List Wake → Sock → Option Connected
ex_connect times ip port ws s =
    if s.is_open
    then connect_loop ip port times ws s
    else some (record { result = closed; sock = s; priority = false; requests = 0 })

-- The loop of `exAccept` after a search that found a link, or none.
unfoldable pub accept_next : List Wake → Option ℕ × Sock → Option (CallEnd × Sock)
accept_next ws (some a, s) = s.links a >>= (λ l. some (linked a (link_id s l), s))
accept_next [] (none, s) = some (waiting, s)
accept_next (w ∷ ws) (none, s) =
    let s' : Sock = woken w s in
    let search : Option (CallEnd × Sock) = get_link_accept s' >>= accept_next ws in
    let give_way : Option (CallEnd × Sock) = accept_next ws (none, give_back s') in
    if not s'.is_open then some (closed, s') else if w.priority then give_way else search

-- `exAccept`.
unfoldable pub ex_accept : List Wake → Sock → Option (CallEnd × Sock)
ex_accept ws s = if s.is_open then get_link_accept s >>= accept_next ws else some (closed, s)
