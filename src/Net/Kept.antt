-- ===== src/Net/Kept.antt =====
-- What the sockets take from the network keeps the tables in order: the three inputs of src/socket.c.
use mathlib.Core.Option
use lite_bsd.Prelude.{
  ℕ, suc, ◌+◌, ◌%◌, ◌<◌, inl, inr, Bool, true, false, ◌&&◌, Option, none, some, List, [], ◌∷◌, ltb,
  if◌then◌else◌, Bool-cases, arith, set, length, map, take, add32,
}
use lite_bsd.Circle.{IsCircle-put}
use lite_bsd.Net.Bytes.{net_ntohs, net_ntohl}
use lite_bsd.Net.State.{
  Socket, Packet, Network, Device, TcpState, closed, syn_sent, established, fin_wait1, fin_wait2,
  close_wait, last_ack, time_wait, listening, find_index, sock_at, put_sock, has_buffer,
}
use lite_bsd.Net.Devices.{netdev_get_default}
use lite_bsd.Net.Tcp.{
  Segment, tcp_segment, tcp_send_on, tcp_send_packet, put_rx, put_all_rx, take_payload, passive,
  take_fin, take_handshake, in_state, tcp_to, takes_tcp, socket_tcp_input, has_flag, fin_flag,
  syn_flag, rst_flag, ack_flag,
}
use lite_bsd.Net.Datagram.{
  put_packet, takes_udp, udp_to, socket_udp_input, takes_icmp, icmp_message, socket_icmp_input,
}
use lite_bsd.Net.Sound.{
  Tables, IsRing, Fine, AllFine, Sound, sock_at-Fine, put_sock-Sound, AllRespect,
}
use lite_bsd.Net.Through.{OnDevice, ipv4_send-Keeps, default-OnDevice}

pub if_Sound : (b : Bool) (x y : Network) → Sound x → Sound y → Sound (if b then x else y)
if_Sound true x y f g = f
if_Sound false x y f g = g

put_rx-Fine : (b : ℕ) (s : Socket) → s.rx_count < 65536 → Fine s → Fine (put_rx b s)
put_rx-Fine b s room f = (f.0, ring s.rx_stream_buf f.1, f.2)
  where
    ring :
        (o : Option (List ℕ))
        → IsRing s.rx_head s.rx_tail s.rx_count o
        → IsRing s.rx_head
            ((s.rx_tail + 1) % 65536)
            (suc s.rx_count)
            (Option.map (λ buf. set buf s.rx_tail b) o)
    ring none r = tt
    ring (some buf) r = IsCircle-put 65536 s.rx_head s.rx_tail s.rx_count buf b r room

put_all_rx-Fine : (bs : List ℕ) (s : Socket) → Fine s → Fine (put_all_rx bs s)
unfolding put_all_rx
put_all_rx-Fine [] s f = f
put_all_rx-Fine (b ∷ bs) s f =
    put_all_rx-Fine bs (if ltb s.rx_count 65536 then put_rx b s else s)
      (elim (Bool-cases (ltb s.rx_count 65536)) [
        | inl room ↦ rw room (put_rx-Fine b s (ground arith) f)
        | inr full ↦ rw full f
      ])

put_packet-Fine : (p : Packet) (s : Socket) → Fine s → Fine (put_packet p s)
unfolding put_packet
put_packet-Fine p s f = elim (Bool-cases (ltb s.dgram_count 16)) [
  | inl room ↦ rw room (
    f.0,
    f.1,
    IsCircle-put 16 s.dgram_head s.dgram_tail s.dgram_count s.dgram_queue p f.2 (ground arith),
  )
  | inr full ↦ rw full f
]

pub tcp_send_packet-Sound :
    (devices : List Device) (i flags : ℕ) (payload : List ℕ) (net : Network)
    → AllRespect devices
    → Sound net
    → Sound (tcp_send_packet devices i flags payload net).0
unfolding tcp_send_packet tcp_send_on
tcp_send_packet-Sound devices i flags payload net r s =
    on (netdev_get_default devices) (default-OnDevice Tables devices r)
  where
    on :
        (o : Option Device)
        → OnDevice Tables o
        → Sound (tcp_send_on o (sock_at i net) flags payload net).0
    on none h = s
    on (some dev) h =
        ipv4_send-Keeps Tables dev (sock_at i net).remote_ip 6
          (tcp_segment (sock_at i net) dev.ip flags payload) net h s

module _ (devices : List Device) (r : AllRespect devices) where
  ack-Sound :
      (i : ℕ) (s : Socket) (net : Network)
      → Sound net
      → Fine s
      → Sound (tcp_send_packet devices i ack_flag [] (put_sock i s net)).0
  ack-Sound i s net h f =
      tcp_send_packet-Sound devices i ack_flag [] (put_sock i s net) r (put_sock-Sound i s net h f)

  take_payload-Sound :
      (i : ℕ) (payload : List ℕ) (net : Network)
      → Sound net
      → Sound (take_payload devices i payload net)
  unfolding take_payload
  take_payload-Sound i payload net h =
      let s = sock_at i net in
      let s' = put_all_rx payload s in
      elim (Bool-cases (ltb 0 (length payload) && has_buffer s.rx_stream_buf)) [
        | inl some_bytes ↦ rw some_bytes (
            ack-Sound i (record s' { remote_seq = add32 s'.remote_seq (length payload) }) net h
              (put_all_rx-Fine payload s (sock_at-Fine i net h)))
        | inr no_bytes ↦ rw no_bytes h
      ]

  take_fin-Sound : (i flags : ℕ) (net : Network) → Sound net → Sound (take_fin devices i flags net)
  unfolding take_fin
  take_fin-Sound i flags net h =
      let s = sock_at i net in
      let t = record s { fin_received = true; remote_seq = add32 s.remote_seq 1 } in
      let sent = (tcp_send_packet devices i ack_flag [] (put_sock i t net)).0 in
      let h' = ack-Sound i t net h (sock_at-Fine i net h) in
      let s' = sock_at i sent in
      elim (Bool-cases (has_flag fin_flag flags)) [
        | inl fin ↦ rw fin (
            put_sock-Sound i (record s' { tcp_state = passive s'.tcp_state }) sent h'
              (sock_at-Fine i sent h'))
        | inr going ↦ rw going h
      ]

  take_handshake-Sound :
      (i : ℕ) (seg : Segment) (net : Network) → Sound net → Sound (take_handshake devices i seg net)
  unfolding take_handshake
  take_handshake-Sound i seg net h =
      let s = sock_at i net in
      let s' = record s {
        remote_seq = add32 (net_ntohl seg.seq) 1;
        local_seq = net_ntohl seg.ack;
        remote_window = net_ntohs seg.window;
        tcp_state = established;
      } in
      elim (Bool-cases (has_flag syn_flag seg.flags && has_flag ack_flag seg.flags)) [
        | inl both ↦ rw both (ack-Sound i s' net h (sock_at-Fine i net h))
        | inr other ↦ rw other h
      ]

  in_state-Sound :
      (t : TcpState) (i : ℕ) (seg : Segment) (payload : List ℕ) (net : Network)
      → Sound net
      → Sound (in_state t devices i seg payload net)
  unfolding in_state
  in_state-Sound syn_sent i seg payload net h = take_handshake-Sound i seg net h
  in_state-Sound established i seg payload net h =
      take_fin-Sound i seg.flags (take_payload devices i payload net)
        (take_payload-Sound i payload net h)
  in_state-Sound fin_wait1 i seg payload net h =
      take_fin-Sound i seg.flags (take_payload devices i payload net)
        (take_payload-Sound i payload net h)
  in_state-Sound fin_wait2 i seg payload net h =
      take_fin-Sound i seg.flags (take_payload devices i payload net)
        (take_payload-Sound i payload net h)
  in_state-Sound closed i seg payload net h = h
  in_state-Sound close_wait i seg payload net h = h
  in_state-Sound last_ack i seg payload net h = h
  in_state-Sound time_wait i seg payload net h = h
  in_state-Sound listening i seg payload net h = h

  pub socket_tcp_input-Sound :
      (src_ip dst_port : ℕ) (seg : Segment) (payload : List ℕ) (net : Network)
      → Sound net
      → Sound (socket_tcp_input devices src_ip dst_port seg payload net)
  unfolding socket_tcp_input tcp_to
  socket_tcp_input-Sound src_ip dst_port seg payload net h =
      to (find_index (takes_tcp src_ip dst_port) net.sockets)
    where
      to : (o : Option ℕ) → Sound (tcp_to devices o seg payload net)
      to none = h
      to (some i) =
          let s = sock_at i net in
          elim (Bool-cases (has_flag rst_flag seg.flags)) [
            | inl reset ↦ rw reset (
                put_sock-Sound i (record s { tcp_state = closed; error = 104 }) net h
                  (sock_at-Fine i net h))
            | inr going ↦ rw going (in_state-Sound s.tcp_state i seg payload net h)
          ]

  pub socket_udp_input-Sound :
      (src_ip src_port dst_port : ℕ) (payload : List ℕ) (net : Network)
      → Sound net
      → Sound (socket_udp_input src_ip src_port dst_port payload net)
  unfolding socket_udp_input udp_to
  socket_udp_input-Sound src_ip src_port dst_port payload net h =
      to (find_index (takes_udp dst_port) net.sockets)
        (record { src_ip = src_ip; src_port = src_port; content = take 1500 payload })
    where
      to : (o : Option ℕ) (p : Packet) → Sound (udp_to o p net)
      to none p = h
      to (some i) p =
          put_sock-Sound i (put_packet p (sock_at i net)) net h
            (put_packet-Fine p (sock_at i net) (sock_at-Fine i net h))

  pub socket_icmp_input-Sound :
      (src_ip kind code id seq : ℕ) (payload : List ℕ) (net : Network)
      → Sound net
      → Sound (socket_icmp_input src_ip kind code id seq payload net)
  unfolding socket_icmp_input
  socket_icmp_input-Sound src_ip kind code id seq payload net h = (
    all
        (record {
          src_ip = src_ip;
          src_port = 0;
          content = take 1500 (icmp_message kind code id seq payload);
        })
        net.sockets h.0,
    h.1,
    h.2,
  )
    where
      all :
          (p : Packet) (ss : List Socket)
          → AllFine ss
          → AllFine (map (λ s. if takes_icmp s then put_packet p s else s) ss)
      all p [] f = tt
      all p (s ∷ ss) f = (
        elim (Bool-cases (takes_icmp s)) [
          | inl takes ↦ rw takes (put_packet-Fine p s f.0)
          | inr not_for ↦ rw not_for f.0
        ],
        all p ss f.1,
      )
