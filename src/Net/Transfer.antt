-- ===== src/Net/Transfer.antt =====
-- `sock_sendto` and `sock_recvfrom` of src/socket.c.
use lite_bsd.Prelude.{
  ℕ, zero, suc, ◌+◌, ◌-◌, ◌%◌, Bool, ◌||◌, Option, none, some, List, [], ◌∷◌, ◌++◌, ◌==◌, ltb, min,
  if◌then◌else◌, get_or, length, add32, take, drop,
}
use lite_bsd.Net.Bytes.{put16, net_htons}
use lite_bsd.Net.State.{
  Socket, Packet, no_packet, Network, Device, sock_stream, sock_dgram, sock_raw, sock_at, put_sock,
}
use lite_bsd.Net.Send.{ipv4_send}
use lite_bsd.Net.Devices.{netdev_get_default, netdev_poll_all}
use lite_bsd.Net.Tcp.{tcp_send_packet}
use lite_bsd.Net.Socket.{Result, returned, failed, is_established, is_closed}

abbrev pub advance : ℕ → ℕ → Network → Network
advance i n net =
    let s = sock_at i net in put_sock i (record s { local_seq = add32 s.local_seq n }) net

-- The loop over the chunks of a stream of `len` bytes. The fuel is the number of bytes: every round
-- sends at least one.
unfoldable pub send_chunks : ℕ → List Device → ℕ → ℕ → List ℕ → Network → Network × Result
send_chunks zero devices i len buf net = (net, returned len)
send_chunks (suc fuel) devices i len [] net = (net, returned len)
send_chunks (suc fuel) devices i len (b ∷ bs) net =
    let remaining = suc (length bs) in
    let chunk = min 1460 remaining in
    let sent = tcp_send_packet devices i 24 (take chunk (b ∷ bs)) net in
    let later = send_chunks fuel devices i len (drop chunk (b ∷ bs)) (advance i chunk sent.0) in
    if sent.1
    then later
    else (sent.0, if len == remaining then failed 1 else returned (len - remaining))

-- The result of `ipv4_send` for `len` bytes.
abbrev pub all_or_error : ℕ → Network × Bool → Network × Result
all_or_error len (net, sent) = (net, if sent then returned len else failed 1)

unfoldable pub send_on : Option Device → ℕ → ℕ → ℕ → List ℕ → Network → Network × Result
send_on none proto target len payload net = (net, failed 1)
send_on (some dev) proto target len payload net =
    all_or_error len (ipv4_send dev target proto payload net)

-- The lengths are cut down to 16 bits.
abbrev pub udp_packet : ℕ → ℕ → List ℕ → List ℕ
udp_packet local_port target_port buf =
    let len = length buf % 65536 in
    take ((8 + len) % 65536) (
      put16 (net_htons local_port)
      ++ put16 (net_htons target_port)
      ++ put16 (net_htons (8 + len))
      ++ (0 ∷ 0 ∷ [])
      ++ buf)

abbrev pub send_raw : Option Device → ℕ → ℕ → List ℕ → Network → Network × Result
send_raw dev protocol target buf net =
    send_on dev (if protocol == 0 then 1 else protocol % 256) target (length buf)
      (take (length buf % 65536) buf) net

unfoldable pub sock_sendto : List Device → ℕ → List ℕ → ℕ → ℕ → Network → Network × Result
unfolding send_chunks send_on
sock_sendto devices i buf dst_ip dst_port net =
    let s = sock_at i net in
    let target_ip = if dst_ip == 0 then s.remote_ip else dst_ip in
    let target_port = if dst_port == 0 then s.remote_port else dst_port in
    let len = length buf in
    if len == 0
    then (net, returned 0)
    else if s.type == sock_stream
    then (if is_established s.tcp_state
        then send_chunks len devices i len buf net
        else (net, failed 1))
    else if s.type == sock_dgram
    then send_on (netdev_get_default devices) 17 target_ip len
        (udp_packet s.local_port target_port buf) net
    else if s.type == sock_raw
    then send_raw (netdev_get_default devices) s.protocol target_ip buf net
    else (net, failed 1)

-- The loop that waits for bytes; the result is there where it ends the call.
unfoldable pub rx_wait : List Device → ℕ → ℕ → Network → Network × Option Result
rx_wait devices i zero net = (net, none)
rx_wait devices i (suc t) net =
    let now = netdev_poll_all devices net in
    let s = sock_at i now in
    let later = rx_wait devices i t now in
    if ltb 0 (sock_at i net).rx_count
    then (net, none)
    else if ltb 0 s.rx_count
    then (now, none)
    else if s.fin_received || is_closed s.tcp_state
    then (now, some (returned 0))
    else if s.nonblocking
    then (now, some (failed 35))
    else later

-- The copy out of the receive buffer: the bytes, and the head behind them.
unfoldable pub copy_rx : ℕ → ℕ → List ℕ → List ℕ × ℕ
copy_rx zero head buf = ([], head)
copy_rx (suc n) head buf =
    let (bytes, head') = copy_rx n ((head + 1) % 65536) buf in (get_or buf head 0 ∷ bytes, head')

abbrev pub buffer_of : Option (List ℕ) → List ℕ
buffer_of none = []
buffer_of (some buf) = buf

unfoldable pub take_rx : ℕ → Socket → Socket × List ℕ × Result
unfolding copy_rx
take_rx len s =
    let to_copy = min len s.rx_count in
    let (bytes, head) = copy_rx to_copy s.rx_head (buffer_of s.rx_stream_buf) in
    if s.rx_count == 0
    then (s, [], if s.fin_received then returned 0 else failed 35)
    else (record s { rx_head = head; rx_count = s.rx_count - to_copy }, bytes, returned to_copy)

-- What a read returns: the bytes, the number and the sender, where it is stored.
pub record Received : Type 0 where
  pub bytes : List ℕ
  pub result : Result
  pub from : Option (ℕ × ℕ)

abbrev pub ended : Result → Received
ended r = record { bytes = []; result = r; from = none }

abbrev pub taken_rx : ℕ → ℕ → Network → Network × Received
taken_rx i len net =
    let (s, bytes, r) = take_rx len (sock_at i net) in
    (put_sock i s net, record { bytes = bytes; result = r; from = none })

unfoldable pub recv_stream : ℕ → ℕ → Network × Option Result → Network × Received
unfolding take_rx
recv_stream i len (net, some r) = (net, ended r)
recv_stream i len (net, none) = taken_rx i len net

unfoldable pub dgram_wait : List Device → ℕ → ℕ → Network → Network × Option Result
dgram_wait devices i zero net = (net, none)
dgram_wait devices i (suc t) net =
    let now = netdev_poll_all devices net in
    let s = sock_at i now in
    let later = dgram_wait devices i t now in
    if ltb 0 (sock_at i net).dgram_count
    then (net, none)
    else if ltb 0 s.dgram_count
    then (now, none)
    else if s.nonblocking
    then (now, some (failed 35))
    else later

-- The packet at the head of the queue.
unfoldable pub take_packet : Socket → Socket × Option Packet
take_packet s = if s.dgram_count == 0 then (s, none) else (
  record s { dgram_head = (s.dgram_head + 1) % 16; dgram_count = s.dgram_count - 1 },
  some (get_or s.dgram_queue s.dgram_head no_packet),
)

-- What of a packet is put into a buffer of `len` bytes; the rest is lost.
abbrev pub packet_bytes : ℕ → Option Packet → Received
packet_bytes len none = ended (failed 35)
packet_bytes len (some p) =
    let bytes = take len p.content in
    record { bytes = bytes; result = returned (length bytes); from = some (p.src_ip, p.src_port) }

unfoldable pub recv_packet : ℕ → ℕ → Network × Option Result → Network × Received
unfolding take_packet
recv_packet i len (net, some r) = (net, ended r)
recv_packet i len (net, none) =
    let (s, p) = take_packet (sock_at i net) in (put_sock i s net, packet_bytes len p)

unfoldable pub sock_recvfrom : List Device → ℕ → ℕ → Network → Network × Received
unfolding rx_wait recv_stream dgram_wait recv_packet
sock_recvfrom devices i len net =
    if len == 0
    then (net, ended (returned 0))
    else if (sock_at i net).type == sock_stream
    then recv_stream i len (rx_wait devices i 5000 net)
    else recv_packet i len (dgram_wait devices i 3000 net)
