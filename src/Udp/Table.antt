-- ===== src/Udp/Table.antt =====
-- The links of a socket, udp/ex_udp.c: `add_list`, `get_link`, `del_list`, `GetLinkAccept` and the
-- searches of the calls. `none` where one of these reads a link that was freed.
use utils_modules.Base.{
  ℕ, ◌+◌, ◌%◌, Bool, true, false, not, List, [], ◌∷◌, ◌++◌, Option, none, some, ◌==◌, ltb, leb,
  if◌then◌else◌, ◌||◌, ◌&&◌, ◌>>=◌,
}
use utils_modules.Timer.{Time}
use utils_modules.Udp.{
  Packet, Datagram, Link, idle, deleted, zero_packet, send_msg, type_byte, link_syn, link_syn_ack,
  link_fin,
}
use utils_modules.Udp.Sock.{Sock, is_some, list_erase, del_list_read}

unfoldable pub put_at {ℓ} : {A : Type ℓ} → (ℕ → A) → ℕ → A → ℕ → A
put_at f i x j = if i == j then x else f j

-- A link after `memset` and `CREATE_LINK`, and then `add_list`.
unfoldable pub first_slot : ℕ → Packet
first_slot i = if i == 0 then record zero_packet { seq = 1 } else zero_packet

unfoldable pub new_link : Sock → ℕ → ℕ → ℕ → Time → Link
new_link s ip port id now = record {
  link_state = idle;
  id = id;
  socket = s.socket;
  port = port;
  ip = ip;
  timeout_free = record { sec = 0; usec = 0 };
  priority_send_lack = false;
  accept = false;
  timeout_times = 1;
  timeout = record { sec = 0; usec = 0 };
  timeout_send = now;
  timeout_check_lack = record { sec = 0; usec = 20000 };
  timeout_report_lack = record { sec = 0; usec = 0 };
  wait_time = s.wait_time;
  recv_posts = 1;
  send_posts = 1;
  seq_read = 1;
  seq_read_max = 0;
  seq_max_send = 1;
  seq_check_send = 0;
  recv_slots = first_slot;
  send_slots = first_slot;
}

-- `add_list` of a link at an address that was allocated; without a free id the link is freed.
unfoldable pub add_list : Sock → List ℕ → ℕ → ℕ → ℕ → Time → Option ℕ × Sock
add_list s [] a ip port now = (none, record s { links = put_at s.links a none })
add_list s (id ∷ ids) a ip port now = (
  some a,
  record s {
    free_ids = ids;
    links = put_at s.links a (some (new_link s ip port id now));
    by_id = put_at s.by_id id (some a);
    list = s.list ++ (a ∷ []);
    accept_posts = s.accept_posts + 1;
    listen_posts = s.listen_posts + 1;
  },
)

-- The links of a port are searched for an ip.
unfoldable pub find_ip : (ℕ → Option Link) → ℕ → List ℕ → Option (Option ℕ)
find_ip links ip [] = some none
find_ip links ip (a ∷ chain) =
    let rest : Option (Option ℕ) = find_ip links ip chain in
    links a >>= (λ l. if l.ip == ip then some (some a) else rest)

unfoldable pub is_syn : ℕ → Bool
is_syn type = type == type_byte link_syn || type == type_byte link_syn_ack

-- `get_link`, with the result of `malloc`.
unfoldable pub create_link : Sock → Option ℕ → ℕ → ℕ → Time → Option ℕ × Sock
create_link s none ip port now = (none, s)
create_link s (some a) ip port now =
    add_list (record s { by_port = put_at s.by_port port (s.by_port port ++ (a ∷ [])) }) s.free_ids
      a ip port now

unfoldable pub found_or_created : Sock → Option ℕ → ℕ → ℕ → ℕ → Time → Option ℕ → Option ℕ × Sock
found_or_created s mem ip port type now (some a) = (some a, s)
found_or_created s mem ip port type now none =
    if is_syn type && s.is_open then create_link s mem ip port now else (none, s)

-- `get_link`; `pLinkPortArray` has 65535 entries, and the port 65535 is read behind them.
unfoldable pub get_link : Sock → Option ℕ → ℕ → ℕ → ℕ → Time → Option (Option ℕ × Sock)
get_link s mem ip port type now =
    let search : Option (Option ℕ × Sock) =
      find_ip s.links ip (s.by_port port)
      >>= (λ found. some (found_or_created s mem ip port type now found)) in
    if leb 65535 port then none else search

-- `GetLinkAccept`: the first link of the list that no call has taken.
unfoldable pub find_unaccepted : (ℕ → Option Link) → List ℕ → Option (Option ℕ)
find_unaccepted links [] = some none
find_unaccepted links (a ∷ chain) =
    let rest : Option (Option ℕ) = find_unaccepted links chain in
    links a >>= (λ l. if l.accept then rest else some (some a))

unfoldable pub mark_accepted : Sock → ℕ → Link → Sock
mark_accepted s a l = record s {
  links = put_at s.links a (some (record l { accept = true; wait_time = s.wait_time }));
}

unfoldable pub accept_found : Sock → Option ℕ → Option (Option ℕ × Sock)
accept_found s none = some (none, s)
accept_found s (some a) = s.links a >>= (λ l. some (some a, mark_accepted s a l))

unfoldable pub get_link_accept : Sock → Option (Option ℕ × Sock)
get_link_accept s = find_unaccepted s.links s.list >>= accept_found s

-- `exConnect`: the link of an address that was set up.
unfoldable pub find_connected : (ℕ → Option Link) → ℕ → ℕ → List ℕ → Option (Option ℕ)
find_connected links ip port [] = some none
find_connected links ip port (a ∷ chain) =
    let rest : Option (Option ℕ) = find_connected links ip port chain in
    links a >>= (λ l. if l.ip == ip && l.port == port then some (some a) else rest)

-- `del_list`: the link is taken out of the chain of its port.
unfoldable pub unchain : (ℕ → Option Link) → ℕ → ℕ → List ℕ → Option (List ℕ)
unchain links ip socket [] = some []
unchain links ip socket (a ∷ chain) =
    let rest : Option (List ℕ) = unchain links ip socket chain in
    links a >>= (λ l.
      if l.ip == ip && l.socket == socket then some chain else rest >>= (λ bs. some (a ∷ bs)))

-- What follows a node in a list.
unfoldable pub list_next : ℕ → List ℕ → Option ℕ
list_next a [] = none
list_next a (x ∷ []) = none
list_next a (x ∷ y ∷ ys) = let rest = list_next a (y ∷ ys) in if x == a then some y else rest

unfoldable pub removed : Sock → ℕ → Link → List ℕ → Time → Sock
removed s a l chain now =
    let s' : Sock = if is_some s.msgid then del_list_read s l.id else s in
    record s' {
      by_id = put_at s.by_id l.id none;
      next_listen_link = list_next a s.list;
      list = list_erase a s.list;
      by_port = put_at s.by_port l.port chain;
      links = put_at s.links a (
          some (record l {
            link_state = deleted;
            timeout_free = now;
            recv_posts = l.recv_posts + 1;
            send_posts = l.send_posts + 1;
          }));
      free_list = s.free_list ++ (a ∷ []);
      free_ids = s.free_ids ++ (l.id ∷ []);
      listen_posts = s.listen_posts + 1;
    }

unfoldable pub del_list : Sock → ℕ → Time → Option (Bool × Sock × List Datagram)
del_list s a now = s.links a >>= (λ l.
    if ltb 4095 l.id || not (is_some (s.by_id l.id))
    then some (false, s, [])
    else send_msg l (record zero_packet { type = type_byte link_fin }) 8 >>= (λ fin.
      unchain s.links l.ip s.socket (s.by_port l.port)
      >>= (λ chain. some (true, removed s a l chain now, fin.0 ∷ []))))

-- `GET_LINK_FOR_ID`: the link of an id that a call was given, of a socket that is open.
unfoldable pub link_for_id : Sock → ℕ → Option ℕ
link_for_id s id = if s.is_open then s.by_id (id % 4096) else none

-- `setWaitTime` of a link, `none` for a negative number.
unfoldable pub set_wait : Sock → Option ℕ → ℕ → Option (Bool × Sock)
set_wait s ms a = s.links a >>= (λ l.
    some (true, record s { links = put_at s.links a (some (record l { wait_time = ms })) }))

unfoldable pub set_wait_at : Sock → Option ℕ → Option ℕ → Option (Bool × Sock)
set_wait_at s ms none = some (false, s)
set_wait_at s ms (some a) = set_wait s ms a

unfoldable pub set_wait_time : Sock → ℕ → Option ℕ → Option (Bool × Sock)
set_wait_time s id ms = set_wait_at s ms (link_for_id s id)

-- `setListenTime`: the interval of the checks, in milliseconds, and how many of them.
unfoldable pub set_listen_time : ℕ × ℕ → ℕ → ℕ → Bool × (ℕ × ℕ)
set_listen_time old ms times =
    if ltb ms 10 then (false, old) else if ltb times 1 then (false, old) else (true, (ms, times))
