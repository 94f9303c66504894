-- ===== src/Net/Traffic.antt =====
-- The calls of src/socket.c that send, receive, connect and close keep the tables in order, and so do
-- sequences of all calls and of frames that come in.
use lite_bsd.Prelude.{
  ℕ, zero, suc, ◌+◌, ◌-◌, ◌%◌, ◌≡◌, inl, inr, not, ◌&&◌, ◌||◌, Option, none, some, List, [], ◌∷◌,
  ◌==◌, ltb, min, if◌then◌else◌, Bool-cases, arith, length, take, drop, add32,
}
use mathlib.Core.Path.{subst}
use lite_bsd.Circle.{IsCircle, IsCircle-take}
use lite_bsd.Net.State.{
  Socket, Network, Device, closed, fin_wait1, sock_at, put_sock, sock_stream, sock_dgram, sock_raw,
}
use lite_bsd.Net.Devices.{netdev_get_default, netdev_poll_all}
use lite_bsd.Net.Tcp.{tcp_send_packet}
use lite_bsd.Net.Socket.{
  Result, returned, failed, is_established, is_syn_sent, is_closed, send_syn, connect_wait,
  connected, dial, sock_connect, sock_close,
}
use lite_bsd.Net.Transfer.{
  advance, send_chunks, send_on, udp_packet, send_raw, sock_sendto, rx_wait, copy_rx, buffer_of,
  take_rx, ended, recv_stream, dgram_wait, take_packet, recv_packet, sock_recvfrom,
}
use lite_bsd.Net.Sound.{Tables, IsRing, Fine, Sound, sock_at-Fine, put_sock-Sound, AllRespect}
use lite_bsd.Net.Through.{OnDevice, ipv4_send-Keeps, default-OnDevice, netdev_poll_all-Keeps}
use lite_bsd.Net.Kept.{tcp_send_packet-Sound, if_Sound}
use lite_bsd.Net.Stream.{copy_rx-Copied}
use lite_bsd.Net.Steps.{if_first, alter-Sound}

take_rx-Fine : (len : ℕ) (s : Socket) → Fine s → Fine (take_rx len s).0
unfolding take_rx
take_rx-Fine len s f = elim (Bool-cases (s.rx_count == 0)) [
  | inl nothing ↦ rw nothing f
  | inr something ↦ rw something (f.0, ring s.rx_stream_buf f.1, f.2)
]
  where
    ring :
        (o : Option (List ℕ))
        → IsRing s.rx_head s.rx_tail s.rx_count o
        → IsRing
            (copy_rx (min len s.rx_count) s.rx_head (buffer_of o)).1
            s.rx_tail
            (s.rx_count - min len s.rx_count)
            o
    ring none r = tt
    ring (some buf) r =
        let n = min len s.rx_count in
        let whole : s.rx_count ≡ n + (s.rx_count - n) = omega arith in
        (copy_rx-Copied n (s.rx_count - n) s.rx_head s.rx_tail buf
          (subst (λ k. IsCircle 65536 s.rx_head s.rx_tail k buf) whole r)).0

take_packet-Fine : (s : Socket) → Fine s → Fine (take_packet s).0
unfolding take_packet
take_packet-Fine s f = elim (Bool-cases (s.dgram_count == 0)) [
  | inl nothing ↦ rw nothing f
  | inr something ↦
      let more : s.dgram_count ≡ suc (s.dgram_count - 1) = ground arith in
      rw something (
        f.0,
        f.1,
        IsCircle-take 16 s.dgram_head s.dgram_tail (s.dgram_count - 1) s.dgram_queue
            (subst (λ k. IsCircle 16 s.dgram_head s.dgram_tail k s.dgram_queue) more f.2),
      )
]

module _ (devices : List Device) (r : AllRespect devices) where
  send_syn-Sound : (i : ℕ) (net : Network) → Sound net → Sound (send_syn devices i net)
  send_syn-Sound i net h = tcp_send_packet-Sound devices i 2 [] net r h

  connect_wait-Sound :
      (t i : ℕ) (net : Network) → Sound net → Sound (connect_wait devices i t net).0
  unfolding connect_wait
  connect_wait-Sound zero i net h = h
  connect_wait-Sound (suc t) i net h =
      let now = netdev_poll_all devices net in
      let s = sock_at i now in
      let retry = (suc t == 2000) && is_syn_sent s.tcp_state in
      let again = if retry then send_syn devices i now else now in
      let later = connect_wait devices i t again in
      let h1 = netdev_poll_all-Keeps Tables devices net r h in
      let h2 = if_Sound retry (send_syn devices i now) now (send_syn-Sound i now h1) h1 in
      let by_error = if not (s.error == 0) then (now, some s.error) else later in
      let by_state = if is_established s.tcp_state then (now, none) else by_error in
      if_first (is_established (sock_at i net).tcp_state) (net, none) by_state h
        (if_first (is_established s.tcp_state) (now, none) by_error h1
          (if_first (not (s.error == 0)) (now, some s.error) later h1
            (connect_wait-Sound t i again h2)))

  connected-Sound : (i : ℕ) (x : Network × Option ℕ) → Sound x.0 → Sound (connected i x).0
  unfolding connected
  connected-Sound i (net, some error) h = h
  connected-Sound i (net, none) h =
      let s = sock_at i net in
      let s' = record s { tcp_state = closed; error = 110 } in
      if_first (is_established s.tcp_state) (net, returned 0) (put_sock i s' net, failed 110) h
        (alter-Sound i net s' h (λ f. f))

  pub sock_connect-Sound :
      (i ip port : ℕ) (net : Network) → Sound net → Sound (sock_connect devices i ip port net).0
  unfolding sock_connect
  sock_connect-Sound i ip port net h =
      let s = record (sock_at i net) { remote_ip = ip; remote_port = port } in
      let h1 = alter-Sound i net s h (λ f. f) in
      let start = send_syn devices i (put_sock i (dial s) net) in
      let x = connect_wait devices i 4000 start in
      let by_kind =
        if not (s.type == sock_stream) then (put_sock i s net, failed 1) else connected i x in
      if_first ((s.type == sock_dgram) || (s.type == sock_raw)) (put_sock i s net, returned 0)
        by_kind h1
        (if_first (not (s.type == sock_stream)) (put_sock i s net, failed 1) (connected i x) h1
          (connected-Sound i x (
            connect_wait-Sound 4000 i start (
              send_syn-Sound i (put_sock i (dial s) net) (alter-Sound i net (dial s) h (λ f. f))))))

  pub sock_close-Sound : (i : ℕ) (net : Network) → Sound net → Sound (sock_close devices i net)
  unfolding sock_close
  sock_close-Sound i net h =
      let s = sock_at i net in
      let sent = (tcp_send_packet devices i 17 [] net).0 in
      let s' = sock_at i sent in
      let hung_up =
        put_sock i (record s' { local_seq = add32 s'.local_seq 1; tcp_state = fin_wait1 }) sent in
      let open_stream = (s.type == sock_stream) && is_established s.tcp_state in
      let ended = if open_stream then hung_up else net in
      let h1 = tcp_send_packet-Sound devices i 17 [] net r h in
      let h2 =
        if_Sound open_stream hung_up net
          (alter-Sound i sent
            (record s' { local_seq = add32 s'.local_seq 1; tcp_state = fin_wait1 }) h1 (λ f. f))
          h in
      alter-Sound i ended (record (sock_at i ended) { state = 0; ref_count = 0 }) h2 (λ f. f)

  send_chunks-Sound :
      (fuel i len : ℕ) (buf : List ℕ) (net : Network)
      → Sound net
      → Sound (send_chunks fuel devices i len buf net).0
  unfolding send_chunks
  send_chunks-Sound zero i len buf net h = h
  send_chunks-Sound (suc fuel) i len [] net h = h
  send_chunks-Sound (suc fuel) i len (b ∷ bs) net h =
      let remaining = suc (length bs) in
      let chunk = min 1460 remaining in
      let sent = tcp_send_packet devices i 24 (take chunk (b ∷ bs)) net in
      let next = advance i chunk sent.0 in
      let h1 = tcp_send_packet-Sound devices i 24 (take chunk (b ∷ bs)) net r h in
      let s = sock_at i sent.0 in
      if_first sent.1 (send_chunks fuel devices i len (drop chunk (b ∷ bs)) next)
        (sent.0, if len == remaining then failed 1 else returned (len - remaining))
        (send_chunks-Sound fuel i len (drop chunk (b ∷ bs)) next
          (alter-Sound i sent.0 (record s { local_seq = add32 s.local_seq chunk }) h1 (λ f. f)))
        h1

  send_on-Sound :
      (o : Option Device) (proto target len : ℕ) (payload : List ℕ) (net : Network)
      → OnDevice Tables o
      → Sound net
      → Sound (send_on o proto target len payload net).0
  unfolding send_on
  send_on-Sound none proto target len payload net d h = h
  send_on-Sound (some dev) proto target len payload net d h =
      ipv4_send-Keeps Tables dev target proto payload net d h

  pub sock_sendto-Sound :
      (i : ℕ) (buf : List ℕ) (dst_ip dst_port : ℕ) (net : Network)
      → Sound net
      → Sound (sock_sendto devices i buf dst_ip dst_port net).0
  unfolding sock_sendto
  sock_sendto-Sound i buf dst_ip dst_port net h =
      let s = sock_at i net in
      let target_ip = if dst_ip == 0 then s.remote_ip else dst_ip in
      let target_port = if dst_port == 0 then s.remote_port else dst_port in
      let len = length buf in
      let dev = netdev_get_default devices in
      let d = default-OnDevice Tables devices r in
      let raw = send_raw dev s.protocol target_ip buf net in
      let packet = udp_packet s.local_port target_port buf in
      let datagram = send_on dev 17 target_ip len packet net in
      let stream = send_chunks len devices i len buf net in
      let by_raw = if s.type == sock_raw then raw else (net, failed 1) in
      let by_dgram = if s.type == sock_dgram then datagram else by_raw in
      let by_state = if is_established s.tcp_state then stream else (net, failed 1) in
      let by_stream = if s.type == sock_stream then by_state else by_dgram in
      if_first (len == 0) (net, returned 0) by_stream h
        (if_first (s.type == sock_stream) by_state by_dgram
          (if_first (is_established s.tcp_state) stream (net, failed 1)
            (send_chunks-Sound len i len buf net h) h)
          (if_first (s.type == sock_dgram) datagram by_raw
            (send_on-Sound dev 17 target_ip len packet net d h)
            (if_first (s.type == sock_raw) raw (net, failed 1)
              (send_on-Sound dev (if s.protocol == 0 then 1 else s.protocol % 256) target_ip len
                (take (len % 65536) buf) net d h)
              h)))

  rx_wait-Sound : (t i : ℕ) (net : Network) → Sound net → Sound (rx_wait devices i t net).0
  unfolding rx_wait
  rx_wait-Sound zero i net h = h
  rx_wait-Sound (suc t) i net h =
      let now = netdev_poll_all devices net in
      let s = sock_at i now in
      let later = rx_wait devices i t now in
      let h' = netdev_poll_all-Keeps Tables devices net r h in
      let by_flag = if s.nonblocking then (now, some (failed 35)) else later in
      let by_end =
        if s.fin_received || is_closed s.tcp_state then (now, some (returned 0)) else by_flag in
      let by_count = if ltb 0 s.rx_count then (now, none) else by_end in
      if_first (ltb 0 (sock_at i net).rx_count) (net, none) by_count h
        (if_first (ltb 0 s.rx_count) (now, none) by_end h'
          (if_first (s.fin_received || is_closed s.tcp_state) (now, some (returned 0)) by_flag h'
            (if_first s.nonblocking (now, some (failed 35)) later h' (rx_wait-Sound t i now h'))))

  dgram_wait-Sound : (t i : ℕ) (net : Network) → Sound net → Sound (dgram_wait devices i t net).0
  unfolding dgram_wait
  dgram_wait-Sound zero i net h = h
  dgram_wait-Sound (suc t) i net h =
      let now = netdev_poll_all devices net in
      let s = sock_at i now in
      let later = dgram_wait devices i t now in
      let h' = netdev_poll_all-Keeps Tables devices net r h in
      let by_flag = if s.nonblocking then (now, some (failed 35)) else later in
      let by_count = if ltb 0 s.dgram_count then (now, none) else by_flag in
      if_first (ltb 0 (sock_at i net).dgram_count) (net, none) by_count h
        (if_first (ltb 0 s.dgram_count) (now, none) by_flag h'
          (if_first s.nonblocking (now, some (failed 35)) later h' (dgram_wait-Sound t i now h')))

  recv_stream-Sound :
      (i len : ℕ) (x : Network × Option Result) → Sound x.0 → Sound (recv_stream i len x).0
  unfolding recv_stream
  recv_stream-Sound i len (net, some result) h = h
  recv_stream-Sound i len (net, none) h =
      put_sock-Sound i (take_rx len (sock_at i net)).0 net h
        (take_rx-Fine len (sock_at i net) (sock_at-Fine i net h))

  recv_packet-Sound :
      (i len : ℕ) (x : Network × Option Result) → Sound x.0 → Sound (recv_packet i len x).0
  unfolding recv_packet
  recv_packet-Sound i len (net, some result) h = h
  recv_packet-Sound i len (net, none) h =
      put_sock-Sound i (take_packet (sock_at i net)).0 net h
        (take_packet-Fine (sock_at i net) (sock_at-Fine i net h))

  pub sock_recvfrom-Sound :
      (i len : ℕ) (net : Network) → Sound net → Sound (sock_recvfrom devices i len net).0
  unfolding sock_recvfrom
  sock_recvfrom-Sound i len net h =
      let stream = rx_wait devices i 5000 net in
      let packet = dgram_wait devices i 3000 net in
      let by_kind =
        if (sock_at i net).type == sock_stream
        then recv_stream i len stream
        else recv_packet i len packet in
      if_first (len == 0) (net, ended (returned 0)) by_kind h
        (if_first ((sock_at i net).type == sock_stream) (recv_stream i len stream)
          (recv_packet i len packet) (recv_stream-Sound i len stream (rx_wait-Sound 5000 i net h))
          (recv_packet-Sound i len packet (dgram_wait-Sound 3000 i net h)))
