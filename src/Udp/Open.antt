-- ===== src/Udp/Open.antt =====
-- The life of a socket, udp/ex_udp.c: the state that `exSocket` sets up, `setMsgQueue` and `exClose`.
use utils_modules.Base.{
  ℕ, zero, suc, ◌+◌, Bool, true, false, List, [], ◌∷◌, ◌++◌, Option, none, some, if◌then◌else◌,
  ◌>>=◌,
}
use utils_modules.Base.Table.{table}
use utils_modules.Timer.{Time}
use utils_modules.Udp.{Datagram}
use utils_modules.Udp.Sock.{Sock, is_some}
use utils_modules.Udp.Table.{del_list}

-- `exSocket`, of a socket that the system gave, with the waiting time set for all: every id is free.
unfoldable pub new_sock : ℕ → Option ℕ → Sock
new_sock socket wait_time = record {
  is_open = true;
  socket = socket;
  msgid = none;
  wait_time = wait_time;
  time_send = record { sec = 0; usec = 0 };
  time_listen = record { sec = 0; usec = 0 };
  links = λ a. none;
  list = [];
  free_list = [];
  next_listen_link = none;
  by_port = λ p. [];
  by_id = λ i. none;
  read_ids = [];
  free_ids = table 4096 (λ i. i);
  accept_posts = 0;
  listen_posts = 0;
  recv_to_msg_posts = 0;
}

-- `setMsgQueue`, with a number that is not negative.
unfoldable pub set_msg_queue : Sock → ℕ → Bool × Sock
set_msg_queue s msgid =
    if s.is_open
    then (true, record s { msgid = some msgid; read_ids = []; recv_to_msg_posts = 0 })
    else (false, s)

-- The loop of `exClose` over the links, and the posts that let the threads see that it is closed.
unfoldable pub close_links : ℕ → Sock → Time → List ℕ → Option (Sock × List Datagram)
close_links zero s now listed = none
close_links (suc fuel) s now [] = some (s, [])
close_links (suc fuel) s now (a ∷ more) =
    del_list s a now
    >>= (λ r. close_links fuel (r.1) now (r.1).list >>= (λ q. some (q.0, r.2 ++ q.1)))

unfoldable pub wake_all : Sock → Sock
wake_all s = record s {
  accept_posts = s.accept_posts + 1;
  listen_posts = s.listen_posts + 1;
  recv_to_msg_posts = if is_some s.msgid then s.recv_to_msg_posts + 1 else s.recv_to_msg_posts;
}

unfoldable pub ex_close : ℕ → Sock → Time → Option (Bool × Sock × List Datagram)
ex_close fuel s now =
    if s.is_open
    then close_links fuel (record s { is_open = false }) now s.list
      >>= (λ q. some (true, wake_all (q.0), q.1))
    else some (false, s, [])
