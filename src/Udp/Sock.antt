-- ===== src/Udp/Sock.antt =====
-- `st_sock` of udp/ex_udp.h, and the list of the links that have packets for the message queue. A
-- link stands at an address; the arrays and lists of a socket hold addresses.
use utils_modules.Base.{
  ℕ, ◌+◌, Bool, true, false, not, List, [], ◌∷◌, ◌++◌, Option, none, some, ◌==◌, if◌then◌else◌,
  ◌||◌,
}
use utils_modules.Timer.{Time}
use utils_modules.Udp.{Link}
use utils_modules.Udp.Clock.{ms_diff_below}

-- `linkState` is 1 while `is_open`. `links` is the memory the links are in, `by_port` the array
-- `pLinkPortArray` with the chains along `same_port_next`, `by_id` the array `pLinkIDArray`,
-- `read_ids` the list of `stIDListMsgRead` and `free_ids` that of `stIDListAllocation`.
pub record Sock : Type 0 where
  pub is_open : Bool
  pub socket : ℕ
  pub msgid : Option ℕ
  pub wait_time : Option ℕ
  pub time_send : Time
  pub time_listen : Time
  pub links : ℕ → Option Link
  pub list : List ℕ
  pub free_list : List ℕ
  pub next_listen_link : Option ℕ
  pub by_port : ℕ → List ℕ
  pub by_id : ℕ → Option ℕ
  pub read_ids : List ℕ
  pub free_ids : List ℕ
  pub accept_posts : ℕ
  pub listen_posts : ℕ
  pub recv_to_msg_posts : ℕ

unfoldable pub is_some {ℓ} : {A : Type ℓ} → Option A → Bool
is_some none = false
is_some (some a) = true

unfoldable pub mem? : ℕ → List ℕ → Bool
mem? x [] = false
mem? x (y ∷ ys) = x == y || mem? x ys

-- The list without its first `x`.
unfoldable pub list_erase : ℕ → List ℕ → List ℕ
list_erase x [] = []
list_erase x (y ∷ ys) = let rest = list_erase x ys in if x == y then ys else y ∷ rest

-- `add_listRead` and `del_listRead`: a node that is in no list is linked to itself.
unfoldable pub add_list_read : Sock → ℕ → Sock
add_list_read s id = if mem? id s.read_ids then s else record s {
  read_ids = s.read_ids ++ (id ∷ []);
  recv_to_msg_posts = s.recv_to_msg_posts + 1;
}

unfoldable pub del_list_read : Sock → ℕ → Sock
del_list_read s id =
    if mem? id s.read_ids then record s { read_ids = list_erase id s.read_ids } else s

-- `ctlIntervalTime`, at the time `now`, the links checked every `interval` milliseconds.
unfoldable pub ctl_interval_time : ℕ → Sock → Time → Sock
ctl_interval_time interval s now =
    if not s.is_open
    then s
    else if not (ms_diff_below s.time_listen s.time_send interval)
    then record s { time_send = now; listen_posts = s.listen_posts + 1 }
    else record s { time_send = now }
