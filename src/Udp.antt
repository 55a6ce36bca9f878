-- ===== src/Udp.antt =====
-- udp/ex_udp.c and ex_udp.h: numbered packets over UDP, kept by the sender until they are
-- acknowledged and by the receiver until they are read. A handler runs as one step; the time of day
-- and the result of a system call are arguments, and what a handler sends is a list of datagrams.
-- A semaphore that lets one thread work at a time is not in the state, and one that wakes a thread
-- is the number of its posts.
pub mod Seq
pub mod Clock
pub mod Sock
pub mod Messages
pub mod Receive
pub mod Send
pub mod Numbered
pub mod Receiver
pub mod Reader
pub mod Sender
pub mod Acks
pub mod Greetings
pub mod Channel
pub mod Invariant
pub mod Rounds
pub mod Replies
pub mod Steps
pub mod Returns
pub mod Delivery
pub mod Lacking
pub mod Listing
pub mod Repair
pub mod Again
pub mod Table
pub mod Lookup
pub mod Open
pub mod Dispatch
pub mod Connect
pub mod Listen
pub mod Handshake
pub mod Round
pub mod Silence
mod Tests
mod SockTests
mod ConnectTests
mod RoundTests
use utils_modules.Base.{
  ℕ, zero, suc, ◌+◌, ◌-◌, ◌%◌, Bool, true, false, List, [], ◌∷◌, ◌++◌, Option, none, some, ltb, leb,
  ◌==◌, if◌then◌else◌, ◌&&◌, ◌||◌, take, drop, length, replicate,
}
use utils_modules.Timer.{Time}

abbrev pub max_packet_number : ℕ
max_packet_number = 511

abbrev pub max_packet_seq : ℕ
max_packet_seq = 2044

abbrev pub max_packet_size : ℕ
max_packet_size = 1472

abbrev pub len_packet_head : ℕ
len_packet_head = 8

abbrev pub max_packet_data_size : ℕ
max_packet_data_size = 1464

abbrev pub ex_udp_ver : ℕ
ex_udp_ver = 18

-- `e_packet_type`, and the byte that stands for each.
pub data PacketType : Type 0 where
  default_null link_syn link_syn_ack link_ack user_data : PacketType
  seq_check seq_report seq_lack link_fin : PacketType

unfoldable pub type_byte : PacketType → ℕ
type_byte default_null = 0
type_byte link_syn = 1
type_byte link_syn_ack = 2
type_byte link_ack = 3
type_byte user_data = 4
type_byte seq_check = 5
type_byte seq_report = 6
type_byte seq_lack = 7
type_byte link_fin = 8

-- `linkState`: -1 once deleted, 0, 1 when the other side has asked for a link, 2 when it is up.
pub data LinkState : Type 0 where
  deleted idle half joined : LinkState

unfoldable pub state_byte : LinkState → ℕ
state_byte deleted = 255
state_byte idle = 0
state_byte half = 1
state_byte joined = 2

-- `linkState == 2`; no state is above it, so `linkState < 2` is the contrary.
unfoldable pub is_joined : LinkState → Bool
is_joined deleted = false
is_joined idle = false
is_joined half = false
is_joined joined = true

unfoldable pub is_half : LinkState → Bool
is_half deleted = false
is_half idle = false
is_half half = true
is_half joined = false

-- `s_packet_all`: the head, the bytes of `buf`, and `len`, which counts the head.
pub record Packet : Type 0 where
  pub type : ℕ
  pub state : ℕ
  pub seq : ℕ
  pub seq_check : ℕ
  pub checksum : ℕ
  pub buf : List ℕ
  pub len : ℕ

-- What goes over the network: the address, the head and the bytes that follow it.
pub record Datagram : Type 0 where
  pub ip : ℕ
  pub port : ℕ
  pub type : ℕ
  pub state : ℕ
  pub seq : ℕ
  pub seq_check : ℕ
  pub checksum : ℕ
  pub payload : List ℕ

-- A packet after `memset`.
unfoldable pub zero_packet : Packet
zero_packet = record {
  type = 0;
  state = 0;
  seq = 0;
  seq_check = 0;
  checksum = 0;
  buf = replicate max_packet_data_size 0;
  len = 0;
}

-- `memcpy` of the first `n` bytes of `src` to the start of a buffer.
unfoldable pub copy_to : List ℕ → List ℕ → ℕ → List ℕ
copy_to dst src n = take n src ++ drop n dst

-- `s_link`, with the posts of `semRecvList` and `semSendList`.
pub record Link : Type 0 where
  pub link_state : LinkState
  pub id : ℕ
  pub socket : ℕ
  pub port : ℕ
  pub ip : ℕ
  pub timeout_free : Time
  pub priority_send_lack : Bool
  pub accept : Bool
  pub timeout_times : ℕ
  pub timeout : Time
  pub timeout_send : Time
  pub timeout_check_lack : Time
  pub timeout_report_lack : Time
  pub wait_time : Option ℕ
  pub recv_posts : ℕ
  pub send_posts : ℕ
  pub seq_read : ℕ
  pub seq_read_max : ℕ
  pub seq_max_send : ℕ
  pub seq_check_send : ℕ
  pub recv_slots : ℕ → Packet
  pub send_slots : ℕ → Packet

-- An assignment to an entry of one of the two arrays.
unfoldable pub store : (ℕ → Packet) → ℕ → Packet → ℕ → Packet
store slots i p j = if i == j then p else slots j

-- `(x + 1) % MAX_PACKET_SEQ`, and the number before one.
unfoldable pub next_seq : ℕ → ℕ
next_seq x = (x + 1) % max_packet_seq

unfoldable pub previous_seq : ℕ → ℕ
previous_seq x = if x == 0 then max_packet_seq - 1 else x - 1

-- Is the packet `seq` in its entry of the array, with data that was not read?
unfoldable pub holds : (ℕ → Packet) → ℕ → Bool
holds slots seq =
    (slots (seq % max_packet_number)).seq == seq && leb 1 (slots (seq % max_packet_number)).len

-- `SendMsg`: the packet's head is filled in, and `len` bytes are sent; the program exits on less
-- than a head.
unfoldable pub stamp : Link → Packet → Packet
stamp l pa = record pa { state = state_byte l.link_state; seq_check = next_seq l.seq_check_send }

unfoldable pub datagram : Link → Packet → ℕ → Datagram
datagram l pa len = record {
  ip = l.ip;
  port = l.port;
  type = pa.type;
  state = pa.state;
  seq = pa.seq;
  seq_check = pa.seq_check;
  checksum = pa.checksum;
  payload = take (len - len_packet_head) pa.buf;
}

unfoldable pub send_msg : Link → Packet → ℕ → Option (Datagram × Packet)
send_msg l pa len =
    if leb len_packet_head len then some (datagram l (stamp l pa) len, stamp l pa) else none
