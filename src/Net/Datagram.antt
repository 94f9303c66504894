-- ===== src/Net/Datagram.antt =====
-- The queue of datagrams of src/socket.c: `socket_udp_input` and `socket_icmp_input`.
use lite_bsd.Prelude.{
  ℕ, suc, ◌+◌, ◌%◌, Bool, not, ◌&&◌, ◌||◌, Option, none, some, List, [], ◌∷◌, ◌++◌, ◌==◌, ltb,
  if◌then◌else◌, set, map, take,
}
use lite_bsd.Net.Bytes.{put16, net_htons}
use lite_bsd.Net.State.{
  Socket, Packet, Network, sock_dgram, sock_raw, find_index, sock_at, put_sock,
}

-- The packet goes behind those that wait, unless there are 16 of them.
unfoldable pub put_packet : Packet → Socket → Socket
put_packet p s =
    if ltb s.dgram_count 16
    then record s {
      dgram_queue = set s.dgram_queue s.dgram_tail p;
      dgram_tail = (s.dgram_tail + 1) % 16;
      dgram_count = suc s.dgram_count;
    }
    else s

abbrev pub takes_udp : ℕ → Socket → Bool
takes_udp dst_port s =
    not ((s.ref_count == 0) || not (s.type == sock_dgram))
    && ((s.local_port == dst_port) || (s.local_port == 0))

unfoldable pub udp_to : Option ℕ → Packet → Network → Network
unfolding put_packet
udp_to none p net = net
udp_to (some i) p net = put_sock i (put_packet p (sock_at i net)) net

unfoldable pub socket_udp_input : ℕ → ℕ → ℕ → List ℕ → Network → Network
unfolding udp_to
socket_udp_input src_ip src_port dst_port payload net =
    udp_to (find_index (takes_udp dst_port) net.sockets)
      (record { src_ip = src_ip; src_port = src_port; content = take 1500 payload }) net

abbrev pub takes_icmp : Socket → Bool
takes_icmp s = not ((s.ref_count == 0) || not (s.type == sock_raw)) && (s.protocol == 1)

-- The message as it was, but for its checksum, which is 0.
abbrev pub icmp_message : ℕ → ℕ → ℕ → ℕ → List ℕ → List ℕ
icmp_message kind code id seq payload =
    (kind ∷ code ∷ 0 ∷ 0 ∷ []) ++ put16 (net_htons id) ++ put16 (net_htons seq) ++ payload

-- `socket_icmp_input`: every raw socket for ICMP has a copy.
unfoldable pub socket_icmp_input : ℕ → ℕ → ℕ → ℕ → ℕ → List ℕ → Network → Network
unfolding put_packet
socket_icmp_input src_ip kind code id seq payload net =
    let p : Packet = record {
      src_ip = src_ip;
      src_port = 0;
      content = take 1500 (icmp_message kind code id seq payload);
    } in
    record net { sockets = map (λ s. if takes_icmp s then put_packet p s else s) net.sockets }
