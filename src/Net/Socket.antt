-- ===== src/Net/Socket.antt =====
-- The calls of src/socket.c on a socket, which is given by its place in the table.
use lite_bsd.Prelude.{
  ℕ, zero, suc, ◌+◌, ◌-◌, ◌*◌, Bool, true, false, not, ◌&&◌, ◌||◌, Option, none, some, List, [],
  ◌++◌, ◌==◌, ltb, if◌then◌else◌, get_or, bit_and, add32, add16, take, drop,
}
use lite_bsd.Net.State.{
  Socket, Network, Device, TcpState, closed, syn_sent, established, fin_wait1, listening,
  sock_stream, sock_dgram, sock_raw, find_index, sock_at, put_sock,
}
use lite_bsd.Net.Devices.{netdev_poll_all}
use lite_bsd.Net.Tcp.{tcp_send_packet, syn_flag}

-- What a call returns: a number, or the negative of one.
pub data Result : Type 0 where
  returned : ℕ → Result
  failed : ℕ → Result

unfoldable pub next_ephemeral_port : Network → Network × ℕ
next_ephemeral_port net =
    let next = add16 net.ephemeral_port 1 in
    (record net { ephemeral_port = if ltb 65000 next then 49152 else next }, net.ephemeral_port)

-- A new socket in the place of an old one, of which the queue and the buffer are kept. `memory` is
-- what the heap returns for a buffer.
abbrev pub rx_memory : ℕ → List ℕ → Option (List ℕ) → Option (List ℕ)
rx_memory kind memory (some buf) = some buf
rx_memory kind memory none = if kind == sock_stream then some memory else none

abbrev pub fresh_socket : ℕ → ℕ → ℕ → ℕ → List ℕ → Socket → Socket
fresh_socket domain kind protocol port memory old = record old {
  domain = domain;
  type = kind;
  protocol = protocol;
  state = 1;
  ref_count = 1;
  local_ip = 0;
  local_port = port;
  remote_ip = 0;
  remote_port = 0;
  tcp_state = closed;
  local_seq = 0;
  remote_seq = 0;
  ack_seq = 0;
  remote_window = 65535;
  fin_received = false;
  rx_head = 0;
  rx_tail = 0;
  rx_count = 0;
  rx_stream_buf = rx_memory kind memory old.rx_stream_buf;
  dgram_head = 0;
  dgram_tail = 0;
  dgram_count = 0;
  flags = 0;
  nonblocking = false;
  error = 0;
  accept_count = 0;
  parent_listen = none;
}

abbrev pub is_unused : Socket → Bool
is_unused s = s.ref_count == 0

unfoldable pub create_at : ℕ → ℕ → ℕ → List ℕ → Option ℕ → Network → Network × Option ℕ
unfolding next_ephemeral_port
create_at domain kind protocol memory none net = (net, none)
create_at domain kind protocol memory (some i) net =
    let (net', port) = next_ephemeral_port net in
    (put_sock i (fresh_socket domain kind protocol port memory (sock_at i net')) net', some i)

unfoldable pub sock_create : ℕ → ℕ → ℕ → List ℕ → Network → Network × Option ℕ
unfolding create_at
sock_create domain kind protocol memory net =
    if not (domain == 2) && not (domain == 1)
    then (net, none)
    else create_at domain kind protocol memory (find_index is_unused net.sockets) net

unfoldable pub sock_destroy : ℕ → Network → Network
sock_destroy i net =
    put_sock i (record (sock_at i net) { state = 0; ref_count = 0; tcp_state = closed }) net

unfoldable pub sock_bind : ℕ → ℕ → ℕ → Network → Network
sock_bind i ip port net =
    put_sock i (record (sock_at i net) { local_ip = ip; local_port = port }) net

unfoldable pub sock_listen : ℕ → Network → Network × Result
sock_listen i net =
    let s = sock_at i net in
    if not (s.type == sock_stream)
    then (net, failed 1)
    else (put_sock i (record s { tcp_state = listening }) net, returned 0)

abbrev pub is_established : TcpState → Bool
is_established established = true
is_established t = false

abbrev pub is_syn_sent : TcpState → Bool
is_syn_sent syn_sent = true
is_syn_sent t = false

abbrev pub is_closed : TcpState → Bool
is_closed closed = true
is_closed t = false

abbrev pub is_listening : TcpState → Bool
is_listening listening = true
is_listening t = false

-- `while (sock->accept_count == 0 && timeout_ms > 0)`; `true` where it ends with 0 returned.
unfoldable pub accept_wait : List Device → ℕ → ℕ → Network → Network × Bool
accept_wait devices i zero net = (net, false)
accept_wait devices i (suc t) net =
    let now = netdev_poll_all devices net in
    let later = accept_wait devices i t now in
    if not ((sock_at i net).accept_count == 0)
    then (net, false)
    else if (sock_at i now).nonblocking
    then (now, true)
    else later

-- The child at the front of the queue.
unfoldable pub take_child : ℕ → Network × Bool → Network × Option ℕ
take_child i (net, true) = (net, none)
take_child i (net, false) =
    let s = sock_at i net in
    let n = s.accept_count - 1 in
    if s.accept_count == 0 then (net, none) else (
      put_sock i
          (record s {
            accept_queue = take n (drop 1 s.accept_queue) ++ drop n s.accept_queue;
            accept_count = n;
          })
          net,
      some (get_or s.accept_queue 0 0),
    )

unfoldable pub sock_accept : List Device → ℕ → Network → Network × Option ℕ
unfolding accept_wait take_child
sock_accept devices i net =
    if is_listening (sock_at i net).tcp_state
    then take_child i (accept_wait devices i 5000 net)
    else (net, none)

abbrev pub send_syn : List Device → ℕ → Network → Network
send_syn devices i net = (tcp_send_packet devices i syn_flag [] net).0

-- The loop of `sock_connect`; the number is that of an error that ends it.
unfoldable pub connect_wait : List Device → ℕ → ℕ → Network → Network × Option ℕ
connect_wait devices i zero net = (net, none)
connect_wait devices i (suc t) net =
    let now = netdev_poll_all devices net in
    let s = sock_at i now in
    let again =
      if (suc t == 2000) && is_syn_sent s.tcp_state then send_syn devices i now else now in
    let later = connect_wait devices i t again in
    if is_established (sock_at i net).tcp_state
    then (net, none)
    else if is_established s.tcp_state
    then (now, none)
    else if not (s.error == 0)
    then (now, some s.error)
    else later

unfoldable pub connected : ℕ → Network × Option ℕ → Network × Result
connected i (net, some error) = (net, failed error)
connected i (net, none) =
    let s = sock_at i net in
    if is_established s.tcp_state
    then (net, returned 0)
    else (put_sock i (record s { tcp_state = closed; error = 110 }) net, failed 110)

abbrev pub dial : Socket → Socket
dial s = record s {
  tcp_state = syn_sent;
  local_seq = add32 100000 (s.local_port * 100);
  remote_seq = 0;
  error = 0;
  fin_received = false;
}

unfoldable pub sock_connect : List Device → ℕ → ℕ → ℕ → Network → Network × Result
unfolding connect_wait connected
sock_connect devices i ip port net =
    let s = record (sock_at i net) { remote_ip = ip; remote_port = port } in
    if (s.type == sock_dgram) || (s.type == sock_raw)
    then (put_sock i s net, returned 0)
    else if not (s.type == sock_stream)
    then (put_sock i s net, failed 1)
    else connected i (connect_wait devices i 4000 (send_syn devices i (put_sock i (dial s) net)))

unfoldable pub sock_close : List Device → ℕ → Network → Network
sock_close devices i net =
    let s = sock_at i net in
    let sent = (tcp_send_packet devices i 17 [] net).0 in
    let s' = sock_at i sent in
    let ended =
      if (s.type == sock_stream) && is_established s.tcp_state
      then put_sock i (record s' { local_seq = add32 s'.local_seq 1; tcp_state = fin_wait1 }) sent
      else net in
    put_sock i (record (sock_at i ended) { state = 0; ref_count = 0 }) ended

-- `revents`, of the bits POLLIN and POLLOUT.
abbrev pub may_read : Socket → Bool
may_read s =
    if s.type == sock_stream
    then ltb 0 s.rx_count || (s.fin_received || is_closed s.tcp_state)
    else ltb 0 s.dgram_count

abbrev pub may_write : Socket → Bool
may_write s = not (s.type == sock_stream) || is_established s.tcp_state

unfoldable pub sock_poll : Socket → ℕ → ℕ
sock_poll s events =
    (if not (bit_and events 1 == 0) && may_read s then 1 else 0)
    + (if not (bit_and events 4 == 0) && may_write s then 4 else 0)
