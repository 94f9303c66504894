-- ===== src/Net/Tcp.antt =====
-- The TCP half of src/socket.c: segments, and `socket_tcp_input` with the receive buffer.
use lite_bsd.Prelude.{
  ℕ, suc, ◌+◌, ◌-◌, ◌/◌, ◌%◌, Bool, true, false, not, ◌&&◌, ◌||◌, Option, none, some, List, [], ◌∷◌,
  ◌++◌, ◌==◌, ltb, if◌then◌else◌, set, length, bit_and, add32,
}
use mathlib.Core.Option
use lite_bsd.Net.Bytes.{put16, put32, net_htons, net_htonl, net_ntohs, net_ntohl}
use lite_bsd.Net.Checksum.{word_sum, fold_carry}
use lite_bsd.Net.State.{
  Socket, Network, Device, TcpState, closed, syn_sent, established, fin_wait1, fin_wait2,
  close_wait, last_ack, time_wait, listening, sock_stream, find_index, sock_at, put_sock,
  has_buffer,
}
use lite_bsd.Net.Send.{ipv4_send}
use lite_bsd.Net.Devices.{netdev_get_default}

-- `TCP_FLAG_FIN`, `TCP_FLAG_SYN`, `TCP_FLAG_RST`, `TCP_FLAG_PSH`, `TCP_FLAG_ACK`
abbrev pub fin_flag : ℕ
fin_flag = 1

abbrev pub syn_flag : ℕ
syn_flag = 2

abbrev pub rst_flag : ℕ
rst_flag = 4

abbrev pub psh_flag : ℕ
psh_flag = 8

abbrev pub ack_flag : ℕ
ack_flag = 16

abbrev pub has_flag : ℕ → ℕ → Bool
has_flag f flags = not (bit_and flags f == 0)

-- The fields of a `struct tcp_hdr` that is received, as they are in memory.
pub record Segment : Type 0 where
  pub seq : ℕ
  pub ack : ℕ
  pub flags : ℕ
  pub window : ℕ

unfoldable pub tcp_checksum : ℕ → ℕ → List ℕ → ℕ
tcp_checksum src_ip dst_ip segment =
    let sum = word_sum 0 segment in
    let addresses =
      add32 (add32 (add32 (add32 sum (src_ip % 65536)) (src_ip / 65536)) (dst_ip % 65536))
        (dst_ip / 65536) in
    let all = add32 (add32 addresses (net_htons 6)) (net_htons (length segment)) in
    65535 - fold_carry 3 all % 65536

abbrev pub tcp_front : Socket → ℕ → List ℕ
tcp_front s flags =
    put16 (net_htons s.local_port)
    ++ put16 (net_htons s.remote_port)
    ++ put32 (net_htonl s.local_seq)
    ++ put32 (if has_flag ack_flag flags then net_htonl s.remote_seq else 0)
    ++ (0x50 ∷ flags ∷ [])
    ++ put16 (net_htons 65535)

unfoldable pub tcp_segment : Socket → ℕ → ℕ → List ℕ → List ℕ
unfolding tcp_checksum
tcp_segment s dev_ip flags payload =
    let front = tcp_front s flags in
    let sum = tcp_checksum dev_ip s.remote_ip (front ++ (0 ∷ 0 ∷ 0 ∷ 0 ∷ []) ++ payload) in
    front ++ put16 sum ++ (0 ∷ 0 ∷ []) ++ payload

unfoldable pub tcp_send_on : Option Device → Socket → ℕ → List ℕ → Network → Network × Bool
unfolding tcp_segment
tcp_send_on none s flags payload net = (net, false)
tcp_send_on (some dev) s flags payload net =
    ipv4_send dev s.remote_ip 6 (tcp_segment s dev.ip flags payload) net

-- `tcp_send_packet` for the socket at the place `i`.
unfoldable pub tcp_send_packet : List Device → ℕ → ℕ → List ℕ → Network → Network × Bool
unfolding tcp_send_on
tcp_send_packet devices i flags payload net =
    tcp_send_on (netdev_get_default devices) (sock_at i net) flags payload net

-- The loop that puts what has come into the receive buffer, as far as there is room.
abbrev pub put_rx : ℕ → Socket → Socket
put_rx b s = record s {
  rx_stream_buf = Option.map (λ buf. set buf s.rx_tail b) s.rx_stream_buf;
  rx_tail = (s.rx_tail + 1) % 65536;
  rx_count = suc s.rx_count;
}

unfoldable pub put_all_rx : List ℕ → Socket → Socket
put_all_rx [] s = s
put_all_rx (b ∷ bs) s = put_all_rx bs (if ltb s.rx_count 65536 then put_rx b s else s)

unfoldable pub take_payload : List Device → ℕ → List ℕ → Network → Network
unfolding put_all_rx tcp_send_packet
take_payload devices i payload net =
    let s = sock_at i net in
    let s' = put_all_rx payload s in
    if ltb 0 (length payload) && has_buffer s.rx_stream_buf
    then (tcp_send_packet devices i ack_flag []
        (put_sock i (record s' { remote_seq = add32 s'.remote_seq (length payload) }) net)).0
    else net

abbrev pub passive : TcpState → TcpState
passive established = close_wait
passive t = t

unfoldable pub take_fin : List Device → ℕ → ℕ → Network → Network
unfolding tcp_send_packet
take_fin devices i flags net =
    let s = sock_at i net in
    let sent =
      (tcp_send_packet devices i ack_flag []
        (put_sock i (record s { fin_received = true; remote_seq = add32 s.remote_seq 1 }) net)).0 in
    let s' = sock_at i sent in
    if has_flag fin_flag flags
    then put_sock i (record s' { tcp_state = passive s'.tcp_state }) sent
    else net

unfoldable pub take_handshake : List Device → ℕ → Segment → Network → Network
unfolding tcp_send_packet
take_handshake devices i seg net =
    let s = sock_at i net in
    let s' = record s {
      remote_seq = add32 (net_ntohl seg.seq) 1;
      local_seq = net_ntohl seg.ack;
      remote_window = net_ntohs seg.window;
      tcp_state = established;
    } in
    if has_flag syn_flag seg.flags && has_flag ack_flag seg.flags
    then (tcp_send_packet devices i ack_flag [] (put_sock i s' net)).0
    else net

abbrev pub take_data : List Device → ℕ → Segment → List ℕ → Network → Network
take_data devices i seg payload net =
    take_fin devices i seg.flags (take_payload devices i payload net)

unfoldable pub in_state : TcpState → List Device → ℕ → Segment → List ℕ → Network → Network
unfolding take_handshake take_fin take_payload
in_state syn_sent devices i seg payload net = take_handshake devices i seg net
in_state established devices i seg payload net = take_data devices i seg payload net
in_state fin_wait1 devices i seg payload net = take_data devices i seg payload net
in_state fin_wait2 devices i seg payload net = take_data devices i seg payload net
in_state closed devices i seg payload net = net
in_state close_wait devices i seg payload net = net
in_state last_ack devices i seg payload net = net
in_state time_wait devices i seg payload net = net
in_state listening devices i seg payload net = net

unfoldable pub tcp_to : List Device → Option ℕ → Segment → List ℕ → Network → Network
unfolding in_state
tcp_to devices none seg payload net = net
tcp_to devices (some i) seg payload net =
    let s = sock_at i net in
    if has_flag rst_flag seg.flags
    then put_sock i (record s { tcp_state = closed; error = 104 }) net
    else in_state s.tcp_state devices i seg payload net

abbrev pub takes_tcp : ℕ → ℕ → Socket → Bool
takes_tcp src_ip dst_port s =
    not ((s.ref_count == 0) || not (s.type == sock_stream))
    && ((s.local_port == dst_port) && ((s.remote_ip == 0) || (s.remote_ip == src_ip)))

unfoldable pub socket_tcp_input : List Device → ℕ → ℕ → Segment → List ℕ → Network → Network
unfolding tcp_to
socket_tcp_input devices src_ip dst_port seg payload net =
    tcp_to devices (find_index (takes_tcp src_ip dst_port) net.sockets) seg payload net
