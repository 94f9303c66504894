-- ===== src/Net/Receive.antt =====
-- The receivers of src/netstack.c: `ethernet_rx` and what it calls.
use lite_bsd.Prelude.{
  ℕ, ◌+◌, ◌-◌, ◌*◌, ◌/◌, ◌%◌, not, ◌&&◌, ◌||◌, List, [], ◌∷◌, ◌==◌, ltb, leb, min, if◌then◌else◌,
}
use lite_bsd.Net.Bytes.{Mem, skip, bytes, get16, get32, net_ntohs}
use lite_bsd.Net.Checksum.{sealed}
use lite_bsd.Net.State.{Network, Device}
use lite_bsd.Net.Send.{arp_add_entry, arp_packet, ethernet_send, ipv4_send}
use lite_bsd.Net.Tcp.{Segment, socket_tcp_input}
use lite_bsd.Net.Datagram.{socket_udp_input, socket_icmp_input}

abbrev pub arp_reply : Device → Mem → List ℕ
arp_reply dev p = arp_packet 2 dev.mac dev.ip (bytes 6 (skip 8 p)) (get32 p 14)

unfoldable pub arp_rx : Device → Mem → ℕ → Network → Network
arp_rx dev p len net =
    let sender_mac = bytes 6 (skip 8 p) in
    let learnt = record net { arp_table = arp_add_entry (get32 p 14) sender_mac net.arp_table } in
    if ltb len 28
    then net
    else if (net_ntohs (get16 p 6) == 1) && (get32 p 24 == dev.ip)
    then (ethernet_send dev sender_mac 0x806 (arp_reply dev p) learnt).0
    else learnt

-- The reply to an echo request of `len` bytes.
abbrev pub echo_reply : Mem → ℕ → List ℕ
echo_reply p len = sealed (0 ∷ 0 ∷ []) (bytes (len - 4) (skip 4 p))

abbrev pub answer_echo : Device → ℕ → Mem → ℕ → Network → Network
answer_echo dev src_ip p len net =
    if p 0 == 8 then (ipv4_send dev src_ip 1 (echo_reply p len) net).0 else net

unfoldable pub icmp_rx : Device → ℕ → Mem → ℕ → Network → Network
icmp_rx dev src_ip p len net =
    let len' = if p 0 == 8 then min len 1500 else len in
    if ltb len 8
    then net
    else socket_icmp_input src_ip (p 0) (p 1) (net_ntohs (get16 p 4)) (net_ntohs (get16 p 6))
        (bytes (len' - 8) (skip 8 p)) (answer_echo dev src_ip p len' net)

unfoldable pub udp_rx : ℕ → Mem → ℕ → Network → Network
udp_rx src_ip p payload_len net =
    let udp_len = min (net_ntohs (get16 p 4)) payload_len in
    if leb 8 payload_len
    then socket_udp_input src_ip (net_ntohs (get16 p 0)) (net_ntohs (get16 p 2))
        (bytes (udp_len - 8) (skip 8 p)) net
    else net

unfoldable pub tcp_rx : List Device → ℕ → Mem → ℕ → Network → Network
tcp_rx devices src_ip p payload_len net =
    let header = p 12 / 16 % 16 * 4 in
    let seg : Segment = record {
      seq = get32 p 4;
      ack = get32 p 8;
      flags = p 13;
      window = get16 p 14;
    } in
    if leb 20 payload_len && (leb 20 header && leb header payload_len)
    then socket_tcp_input devices src_ip (net_ntohs (get16 p 2)) seg
        (bytes (payload_len - header) (skip header p)) net
    else net

-- What an IP packet carries, by its protocol.
unfoldable pub ip_carries : List Device → Device → ℕ → ℕ → Mem → ℕ → Network → Network
ip_carries devices dev proto src_ip p len net =
    if proto == 1
    then icmp_rx dev src_ip p len net
    else if proto == 17
    then udp_rx src_ip p len net
    else if proto == 6
    then tcp_rx devices src_ip p len net
    else net

-- `payload_len` is a `uint16_t`, which wraps round where the length in the header is below `ihl`.
unfoldable pub ipv4_rx : List Device → Device → Mem → ℕ → Network → Network
ipv4_rx devices dev p len net =
    let ver = p 0 / 16 % 16 in
    let ihl = p 0 % 16 * 4 in
    let total_len = min (net_ntohs (get16 p 2)) len in
    let payload_len = (total_len + 65536 - ihl) % 65536 in
    if ltb len 20 || (not (ver == 4) || (ltb ihl 20 || ltb len ihl))
    then net
    else ip_carries devices dev (p 9) (get32 p 12) (skip ihl p) payload_len net

unfoldable pub ethernet_rx : List Device → Device → Mem → ℕ → Network → Network
ethernet_rx devices dev p len net =
    let ethertype = net_ntohs (get16 p 12) in
    if ltb len 14
    then net
    else if ethertype == 0x806
    then arp_rx dev (skip 14 p) (len - 14) net
    else if ethertype == 0x800
    then ipv4_rx devices dev (skip 14 p) (len - 14) net
    else net
