-- ===== src/Net/Tests.antt =====
-- The network at small states: a device that records what is sent, and three sockets.
use lite_bsd.Prelude.{
  ℕ, ◌+◌, ◌-◌, ◌≡◌, refl, true, none, some, [], ◌∷◌, ◌++◌, replicate, length, arith,
}
use lite_bsd.Circle.{IsCircle}
use lite_bsd.Net.Bytes.{mem_of, net_htons}
use lite_bsd.Net.Checksum.{
  net_checksum, word_sum, fold_carry, total, residue, sealed, net_checksum-residue,
  net_checksum-sealed,
}
use lite_bsd.Net.State.{
  Socket, Network, Device, no_socket, established, close_wait, find_index, sock_at,
}
use lite_bsd.Net.Send.{
  ipv4_send, arp_add_entry, arp_lookup, renew_entry, fill_entry, ip_packet, no_entry,
}
use lite_bsd.Net.Arp.{Learns, arp_add_entry-Learns}
use lite_bsd.Net.Devices.{netdev_get_default}
use lite_bsd.Net.Tcp.{
  Segment, socket_tcp_input, tcp_to, in_state, take_fin, take_payload, put_all_rx, tcp_send_packet,
  tcp_send_on, tcp_segment, tcp_checksum,
}
use lite_bsd.Net.Datagram.{socket_udp_input}
use lite_bsd.Net.Receive.{ipv4_rx}
use lite_bsd.Net.Transfer.{udp_packet}
use lite_bsd.Net.Carry.{ipv4_rx-udp_packet}
use lite_bsd.Net.Socket.{sock_accept}
use lite_bsd.Net.Stream.{waiting, IsStream, arrive, read, after, after-queue}
use lite_bsd.Net.Moves.{Steps}
use lite_bsd.Net.States.{socket_tcp_input-Steps}
use lite_bsd.Net.Sound.{Sound, no_socket-Fine}
use lite_bsd.Net.Events.{
  listen, bind, receive, happen_all, happen_all-Sound, sock_accept-happen_all,
}

abbrev lab : Device
lab = record {
  mac = 2 ∷ 0 ∷ 0 ∷ 0 ∷ 0 ∷ 1 ∷ [];
  ip = 0x0200000a;
  netmask = 0x00ffffff;
  gateway = 0x0100000a;
  flags = 1;
  send = λ frame net. (record net { wire = frame ∷ net.wire }, true);
  poll = none;
}

abbrev stream_socket : Socket
stream_socket = record no_socket {
  type = 1;
  state = 1;
  ref_count = 1;
  local_port = 80;
  tcp_state = established;
  rx_stream_buf = some (replicate 65536 0);
}

stream_socket-IsStream : IsStream stream_socket
stream_socket-IsStream = (replicate 65536 0, record { at = refl; ring = empty })
  where
    empty : IsCircle {A = ℕ} 65536 0 0 0 (replicate 65536 0)
    empty = record {
      whole = refl;
      head_in = omega arith;
      tail_in = omega arith;
      fits = omega arith;
      ahead = λ h. refl;
      behind = λ h. absurd (omega arith);
    }

abbrev quiet_net : Network
quiet_net = record {
  arp_table = record { ip = 7; mac = replicate 6 1; valid = true } ∷ no_entry ∷ [];
  ip_id = 1000;
  sockets = record no_socket { type = 1; ref_count = 1; local_port = 80 } ∷ no_socket ∷ [];
  ephemeral_port = 49152;
  wire = [];
}

quiet_net-Sound : Sound quiet_net
quiet_net-Sound = ((no_socket-Fine, (no_socket-Fine, tt)), omega arith, omega arith)

-- The words 0x4500 and 0x0003 in the order of the network.
net_checksum_words : net_checksum (0x45 ∷ 0 ∷ 0 ∷ 3 ∷ []) ≡ net_htons 0xbafc
unfolding net_checksum word_sum fold_carry net_htons
net_checksum_words = refl

net_checksum-residue_example :
    net_checksum (0x45 ∷ 0 ∷ 0 ∷ []) ≡ 65535 - residue (total (0x45 ∷ 0 ∷ 0 ∷ []))
net_checksum-residue_example =
    net_checksum-residue (0x45 ∷ 0 ∷ 0 ∷ []) (omega arith, (omega arith, (omega arith, tt)))
      (omega arith)

net_checksum-sealed_example : net_checksum (sealed (0 ∷ 0 ∷ []) (9 ∷ 1 ∷ 7 ∷ [])) ≡ 0
net_checksum-sealed_example =
    net_checksum-sealed (0 ∷ 0 ∷ []) (9 ∷ 1 ∷ 7 ∷ [])
      (
        omega arith,
        (
          omega arith,
          (omega arith, (omega arith, (omega arith, (omega arith, (omega arith, tt))))),
        ),
      )
      refl (omega arith)

arp_lookup_learnt :
    arp_lookup 9 (arp_add_entry 9 (replicate 6 5) quiet_net.arp_table) ≡ some (replicate 6 5)
unfolding arp_lookup arp_add_entry renew_entry fill_entry find_index
arp_lookup_learnt = refl

arp_add_entry-Learns_example :
    Learns 9
      (replicate 6 5)
      quiet_net.arp_table
      (arp_add_entry 9 (replicate 6 5) quiet_net.arp_table)
arp_add_entry-Learns_example = arp_add_entry-Learns 9 (replicate 6 5) quiet_net.arp_table

ipv4_rx-udp_packet_example :
    ipv4_rx
      (lab ∷ [])
      lab
      (mem_of (ip_packet 1000 17 0x0300000a 0x0200000a (udp_packet 53 4000 (1 ∷ 2 ∷ []))))
      (20 + length (udp_packet 53 4000 (1 ∷ 2 ∷ [])))
      quiet_net
    ≡ socket_udp_input 0x0300000a 53 4000 (1 ∷ 2 ∷ []) quiet_net
ipv4_rx-udp_packet_example =
    ipv4_rx-udp_packet (lab ∷ []) lab 1000 0x0300000a 0x0200000a 53 4000 (1 ∷ 2 ∷ []) quiet_net
      (omega arith) (omega arith) (omega arith) (omega arith)

after-queue_example :
    IsStream (after (arrive (1 ∷ 2 ∷ 3 ∷ []) ∷ read 2 ∷ []) stream_socket).0
    × (waiting stream_socket ++ (after (arrive (1 ∷ 2 ∷ 3 ∷ []) ∷ read 2 ∷ []) stream_socket).1
        ≡ (after (arrive (1 ∷ 2 ∷ 3 ∷ []) ∷ read 2 ∷ []) stream_socket).2
          ++ waiting (after (arrive (1 ∷ 2 ∷ 3 ∷ []) ∷ read 2 ∷ []) stream_socket).0)
after-queue_example =
    after-queue (arrive (1 ∷ 2 ∷ 3 ∷ []) ∷ read 2 ∷ []) stream_socket stream_socket-IsStream

happen_all-Sound_example :
    Sound (happen_all (lab ∷ []) (bind 0 0 8080 ∷ listen 0 ∷ receive 0 4 ∷ []) quiet_net)
happen_all-Sound_example =
    happen_all-Sound (lab ∷ []) ((λ frame net h. h, λ net h. h), tt)
      (bind 0 0 8080 ∷ listen 0 ∷ receive 0 4 ∷ []) quiet_net (tt, (tt, (tt, tt))) quiet_net-Sound

sock_accept-happen_all_example :
    (sock_accept (lab ∷ []) 0 (happen_all (lab ∷ []) (listen 0 ∷ []) quiet_net)).1 ≡ none
sock_accept-happen_all_example =
    sock_accept-happen_all (lab ∷ []) ((λ frame net h. h, λ net h. h), tt) (listen 0 ∷ []) quiet_net
      0 (tt, tt) quiet_net-Sound

abbrev last_segment : Segment
last_segment = record { seq = 0; ack = 0; flags = 17; window = 0 }

-- The second socket waits for a connection on the port, the first is connected to another host.
abbrev busy_net : Network
busy_net = record quiet_net {
  sockets = record stream_socket { remote_ip = 9 } ∷ stream_socket ∷ [];
}

socket_tcp_input_fin :
    (sock_at 1 (socket_tcp_input (lab ∷ []) 0x0300000a 80 last_segment [] busy_net)).tcp_state
    ≡ close_wait
unfolding socket_tcp_input find_index tcp_to in_state take_fin take_payload put_all_rx
    tcp_send_packet tcp_send_on tcp_segment tcp_checksum ipv4_send netdev_get_default
socket_tcp_input_fin = refl

socket_tcp_input-Steps_example :
    Steps 0x0300000a 80 17 busy_net
      (socket_tcp_input (lab ∷ []) 0x0300000a 80 last_segment [] busy_net)
socket_tcp_input-Steps_example =
    socket_tcp_input-Steps (lab ∷ []) (λ ss. ((λ frame net h. h, λ net h. h), tt)) 0x0300000a 80
      last_segment [] busy_net
