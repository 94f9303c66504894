-- ===== src/Net/State.antt =====
-- The tables of src/netstack.c and src/socket.c, and the devices of src/drivers/include/netdev.h.
use lite_bsd.Prelude.{
  ℕ, suc, Bool, true, false, Option, none, some, List, [], ◌∷◌, if◌then◌else◌, get_or, set,
  replicate,
}
use mathlib.Core.Option

pub record ArpEntry : Type 0 where
  pub ip : ℕ
  pub mac : List ℕ
  pub valid : Bool

-- `struct dgram_packet`; `len` is the length of `content`.
pub record Packet : Type 0 where
  pub src_ip : ℕ
  pub src_port : ℕ
  pub content : List ℕ

pub data TcpState : Type 0 where
  closed : TcpState
  syn_sent : TcpState
  established : TcpState
  fin_wait1 : TcpState
  fin_wait2 : TcpState
  close_wait : TcpState
  last_ack : TcpState
  time_wait : TcpState
  listening : TcpState

-- The children of a listening socket are places in the table. `rx_stream_buf` is `none` for NULL.
pub record Socket : Type 0 where
  pub domain : ℕ
  pub type : ℕ
  pub protocol : ℕ
  pub state : ℕ
  pub local_ip : ℕ
  pub local_port : ℕ
  pub remote_ip : ℕ
  pub remote_port : ℕ
  pub tcp_state : TcpState
  pub local_seq : ℕ
  pub remote_seq : ℕ
  pub ack_seq : ℕ
  pub remote_window : ℕ
  pub fin_received : Bool
  pub rx_stream_buf : Option (List ℕ)
  pub rx_head : ℕ
  pub rx_tail : ℕ
  pub rx_count : ℕ
  pub dgram_queue : List Packet
  pub dgram_head : ℕ
  pub dgram_tail : ℕ
  pub dgram_count : ℕ
  pub flags : ℕ
  pub nonblocking : Bool
  pub error : ℕ
  pub ref_count : ℕ
  pub accept_queue : List ℕ
  pub accept_count : ℕ
  pub parent_listen : Option ℕ

-- `s_arp_table`, `s_ip_id`, `s_sockets`, `s_ephemeral_port`, and the frames that the drivers have sent.
pub record Network : Type 0 where
  pub arp_table : List ArpEntry
  pub ip_id : ℕ
  pub sockets : List Socket
  pub ephemeral_port : ℕ
  pub wire : List (List ℕ)

-- `struct net_device`. The driver's `send` returns 0, which is `true`, or -1; `poll` may be NULL, and
-- hands the frames that have come to `ethernet_rx`. The addresses are as in memory.
pub record Device : Type 0 where
  pub mac : List ℕ
  pub ip : ℕ
  pub netmask : ℕ
  pub gateway : ℕ
  pub flags : ℕ
  pub send : List ℕ → Network → Network × Bool
  pub poll : Option (Network → Network)

abbrev pub sock_stream : ℕ
sock_stream = 1

abbrev pub sock_dgram : ℕ
sock_dgram = 2

abbrev pub sock_raw : ℕ
sock_raw = 3

-- The first element that passes a test, by its place.
unfoldable pub find_index {ℓ} : {A : Type ℓ} → (A → Bool) → List A → Option ℕ
find_index p [] = none
find_index p (x ∷ xs) = let rest = Option.map suc (find_index p xs) in if p x then some 0 else rest

abbrev pub no_packet : Packet
no_packet = record { src_ip = 0; src_port = 0; content = [] }

-- A socket that is in no use, in place of those out of the table.
abbrev pub no_socket : Socket
no_socket = record {
  domain = 0;
  type = 0;
  protocol = 0;
  state = 0;
  local_ip = 0;
  local_port = 0;
  remote_ip = 0;
  remote_port = 0;
  tcp_state = closed;
  local_seq = 0;
  remote_seq = 0;
  ack_seq = 0;
  remote_window = 0;
  fin_received = false;
  rx_stream_buf = none;
  rx_head = 0;
  rx_tail = 0;
  rx_count = 0;
  dgram_queue = replicate 16 no_packet;
  dgram_head = 0;
  dgram_tail = 0;
  dgram_count = 0;
  flags = 0;
  nonblocking = false;
  error = 0;
  ref_count = 0;
  accept_queue = [];
  accept_count = 0;
  parent_listen = none;
}

-- `&s_sockets[i]`, read and changed.
abbrev pub sock_at : ℕ → Network → Socket
sock_at i net = get_or net.sockets i no_socket

abbrev pub put_sock : ℕ → Socket → Network → Network
put_sock i s net = record net { sockets = set net.sockets i s }

abbrev pub has_buffer : Option (List ℕ) → Bool
has_buffer none = false
has_buffer (some buf) = true
