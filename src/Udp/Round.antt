-- ===== src/Udp/Round.antt =====
-- A round of `thread_listen` of udp/ex_udp.c: the memory of old links, the wait, and the walk over the
-- links, while the other threads change the socket.
pub mod Keeps
pub mod Sweep
pub mod Returns
pub mod Finish
use utils_modules.Base.{
  ℕ, ◌-◌, Bool, true, false, not, List, [], ◌∷◌, ◌++◌, Option, none, some, if◌then◌else◌, ◌>>=◌,
}
use utils_modules.Timer.{Time}
use utils_modules.Udp.{Datagram, Link, LinkState, deleted}
use utils_modules.Udp.Clock.{ms_diff_below}
use utils_modules.Udp.Sock.{Sock}
use utils_modules.Udp.Table.{put_at, list_next, del_list}
use utils_modules.Udp.Dispatch.{tell}
use utils_modules.Udp.Listen.{listen_link, free_old}

-- `list_begin`.
unfoldable pub list_begin : List ℕ → Option ℕ
list_begin [] = none
list_begin (a ∷ more) = some a

unfoldable pub list_empty : List ℕ → Bool
list_empty [] = true
list_empty (a ∷ more) = false

unfoldable pub is_deleted : LinkState → Bool
is_deleted deleted = true
is_deleted state = false

-- A turn of the walk: what the other threads did to the socket before it, the time, and its bytes.
pub record Turn : Type 0 where
  pub change : Sock → Sock
  pub now : Time
  pub bytes : List ℕ

-- The socket, the datagrams that were sent, and the ids whose end the message queue was told.
pub record Walked : Type 0 where
  pub sock : Sock
  pub out : List Datagram
  pub told : List ℕ

unfoldable pub after : Walked → Walked → Walked
after r more = record more { out = r.out ++ more.out; told = r.told ++ more.told }

unfoldable pub told_ids : Option ℕ → List ℕ
told_ids none = []
told_ids (some id) = id ∷ []

-- A link that is looked at: it is deleted, or what `listen_link` made of it is stored.
unfoldable pub settle :
    Sock → ℕ → Link → Time → Option (Sock × Link × List Datagram) → Option Walked
settle s a l now none =
    del_list s a now >>= (λ r. some (record { sock = r.1; out = r.2; told = told_ids (tell s l) }))
settle s a l now (some (s', l', out)) =
    some (record { sock = record s' { links = put_at s'.links a (some l') }; out = out; told = [] })

unfoldable pub visit : ℕ → ℕ → Sock → ℕ → Link → Turn → Option Walked
visit interval times s a l t = listen_link interval times s l t.now t.bytes >>= settle s a l t.now

-- The walk from a link on, or from the end of the list; `false` if the turns end before it does. The
-- link that follows is read while the link is still in the list.
unfoldable pub walk : ℕ → ℕ → List Turn → Option ℕ → Sock → Option (Bool × Walked)
walk interval times ts none s = some (true, record { sock = s; out = []; told = [] })
walk interval times [] (some a) s = some (false, record { sock = s; out = []; told = [] })
walk interval times (t ∷ ts) (some a) s =
    let s' : Sock = t.change s in
    let jump : Option (Bool × Walked) = walk interval times ts s'.next_listen_link s' in
    s'.links a >>= (λ l.
      let look : Option (Bool × Walked) = visit interval times s' a l t >>= (λ r.
        walk interval times ts (list_next a s'.list) r.sock
        >>= (λ more. some (more.0, after r (more.1)))) in
      if is_deleted l.link_state then jump else look)

-- The milliseconds that the thread waits: for old links, for data that was sent, for the next check,
-- or an hour where there is no link. `had_old` tells whether links waited to be freed.
unfoldable pub listen_wait : ℕ → Bool → Sock → ℕ
listen_wait interval had_old s =
    if had_old
    then 10
    else if ms_diff_below s.time_listen s.time_send interval
    then 10
    else if list_empty s.list
    then 3600000
    else interval

-- All deleted links are freed.
unfoldable pub free_all : (ℕ → Option Link) → List ℕ → Option (ℕ → Option Link)
free_all links [] = some links
free_all links (a ∷ more) = links a >>= (λ l. free_all (put_at links a none) more)

-- The end of a round: the thread ended, and the socket was freed, or the walk came to its end, or not.
pub data Round : Type 0 where
  ended : (ℕ → Option Link) → Round
  walked : ℕ → Bool → Walked → Round

-- The round from the wait on; `passed` tells whether the semaphore was passed.
unfoldable pub after_wait : ℕ → ℕ → ℕ → Bool → List Turn → Sock → Option Round
after_wait interval times wait passed ts s =
    let s' : Sock = if passed then record s { listen_posts = s.listen_posts - 1 } else s in
    let close : Option Round = free_all s'.links s'.free_list >>= (λ links. some (ended links)) in
    let look : Option Round =
      walk interval times ts (list_begin s'.list) s' >>= (λ r. some (walked wait (r.0) (r.1))) in
    if s'.is_open then look else close

-- A round of `thread_listen` that starts at the time `now`.
unfoldable pub listen_round : ℕ → ℕ → Time → (Sock → Sock) → Bool → List Turn → Sock → Option Round
listen_round interval times now change passed ts s =
    let s1 : Sock = record s { time_listen = now } in
    free_old s1.links now s1.free_list >>= (λ r.
      let s2 : Sock = record s1 { links = r.0; free_list = r.1 } in
      let wait : ℕ = listen_wait interval (not (list_empty s1.free_list)) s2 in
      after_wait interval times wait passed ts (change s2))
