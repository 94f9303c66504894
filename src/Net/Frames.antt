-- ===== src/Net/Frames.antt =====
-- What comes in from the network keeps the tables in order: `ethernet_rx` of src/netstack.c down to the
-- sockets.
use lite_bsd.Prelude.{
  ℕ, ◌+◌, ◌-◌, ◌*◌, ◌/◌, ◌%◌, inl, inr, not, ◌&&◌, ◌||◌, List, ◌==◌, ltb, leb, min, if◌then◌else◌,
  Bool-cases,
}
use lite_bsd.Net.Bytes.{Mem, skip, bytes, get16, get32, net_ntohs}
use lite_bsd.Net.State.{Network, Device}
use lite_bsd.Net.Send.{arp_add_entry}
use lite_bsd.Net.Tcp.{Segment, socket_tcp_input}
use lite_bsd.Net.Datagram.{socket_udp_input}
use lite_bsd.Net.Receive.{
  arp_reply, arp_rx, echo_reply, answer_echo, icmp_rx, udp_rx, tcp_rx, ip_carries, ipv4_rx,
  ethernet_rx,
}
use lite_bsd.Net.Sound.{Tables, Sound, Respects, AllRespect}
use lite_bsd.Net.Through.{ethernet_send-Keeps, ipv4_send-Keeps}
use lite_bsd.Net.Kept.{
  if_Sound, socket_tcp_input-Sound, socket_udp_input-Sound, socket_icmp_input-Sound,
}

module _ (devices : List Device) (r : AllRespect devices) (dev : Device) (d : Respects dev) where
  arp_rx-Sound : (p : Mem) (len : ℕ) (net : Network) → Sound net → Sound (arp_rx dev p len net)
  unfolding arp_rx
  arp_rx-Sound p len net h = elim (Bool-cases (ltb len 28)) [
    | inl short ↦ rw short h
    | inr on ↦ rw on (elim (Bool-cases ((net_ntohs (get16 p 6) == 1) && (get32 p 24 == dev.ip))) [
      | inl asked ↦ rw asked (
          ethernet_send-Keeps Tables dev (bytes 6 (skip 8 p)) 0x806 (arp_reply dev p)
            (record net {
              arp_table = arp_add_entry (get32 p 14) (bytes 6 (skip 8 p)) net.arp_table;
            })
            d h)
      | inr other ↦ rw other h
    ])
  ]

  icmp_rx-Sound :
      (src_ip : ℕ) (p : Mem) (len : ℕ) (net : Network)
      → Sound net
      → Sound (icmp_rx dev src_ip p len net)
  unfolding icmp_rx
  icmp_rx-Sound src_ip p len net h =
      let len' = if p 0 == 8 then min len 1500 else len in
      elim (Bool-cases (ltb len 8)) [
        | inl short ↦ rw short h
        | inr on ↦ rw on (
            socket_icmp_input-Sound devices r src_ip (p 0) (p 1) (net_ntohs (get16 p 4))
              (net_ntohs (get16 p 6)) (bytes (len' - 8) (skip 8 p))
              (answer_echo dev src_ip p len' net) (answer src_ip p len' net h))
      ]
    where
      answer :
          (src_ip : ℕ) (p : Mem) (len : ℕ) (net : Network)
          → Sound net
          → Sound (answer_echo dev src_ip p len net)
      answer src_ip p len net h = elim (Bool-cases (p 0 == 8)) [
        | inl echo ↦ rw echo (ipv4_send-Keeps Tables dev src_ip 1 (echo_reply p len) net d h)
        | inr other ↦ rw other h
      ]

  udp_rx-Sound :
      (src_ip : ℕ) (p : Mem) (len : ℕ) (net : Network) → Sound net → Sound (udp_rx src_ip p len net)
  unfolding udp_rx
  udp_rx-Sound src_ip p len net h =
      let payload = bytes (min (net_ntohs (get16 p 4)) len - 8) (skip 8 p) in
      if_Sound (leb 8 len)
        (socket_udp_input src_ip (net_ntohs (get16 p 0)) (net_ntohs (get16 p 2)) payload net) net
        (socket_udp_input-Sound devices r src_ip (net_ntohs (get16 p 0)) (net_ntohs (get16 p 2))
          payload net h)
        h

  tcp_rx-Sound :
      (src_ip : ℕ) (p : Mem) (len : ℕ) (net : Network)
      → Sound net
      → Sound (tcp_rx devices src_ip p len net)
  unfolding tcp_rx
  tcp_rx-Sound src_ip p len net h =
      let header = p 12 / 16 % 16 * 4 in
      let payload = bytes (len - header) (skip header p) in
      let seg : Segment = record {
        seq = get32 p 4;
        ack = get32 p 8;
        flags = p 13;
        window = get16 p 14;
      } in
      if_Sound (leb 20 len && (leb 20 header && leb header len))
        (socket_tcp_input devices src_ip (net_ntohs (get16 p 2)) seg payload net) net
        (socket_tcp_input-Sound devices r src_ip (net_ntohs (get16 p 2)) seg payload net h) h

  ip_carries-Sound :
      (proto src_ip : ℕ) (p : Mem) (len : ℕ) (net : Network)
      → Sound net
      → Sound (ip_carries devices dev proto src_ip p len net)
  unfolding ip_carries
  ip_carries-Sound proto src_ip p len net h =
      let as_tcp = if proto == 6 then tcp_rx devices src_ip p len net else net in
      let as_udp = if proto == 17 then udp_rx src_ip p len net else as_tcp in
      if_Sound (proto == 1) (icmp_rx dev src_ip p len net) as_udp (icmp_rx-Sound src_ip p len net h)
        (if_Sound (proto == 17) (udp_rx src_ip p len net) as_tcp (udp_rx-Sound src_ip p len net h) (
          if_Sound (proto == 6) (tcp_rx devices src_ip p len net) net
            (tcp_rx-Sound src_ip p len net h) h))

  ipv4_rx-Sound :
      (p : Mem) (len : ℕ) (net : Network) → Sound net → Sound (ipv4_rx devices dev p len net)
  unfolding ipv4_rx
  ipv4_rx-Sound p len net h =
      let ihl = p 0 % 16 * 4 in
      let n = (min (net_ntohs (get16 p 2)) len + 65536 - ihl) % 65536 in
      if_Sound (ltb len 20 || (not (p 0 / 16 % 16 == 4) || (ltb ihl 20 || ltb len ihl))) net
        (ip_carries devices dev (p 9) (get32 p 12) (skip ihl p) n net) h
        (ip_carries-Sound (p 9) (get32 p 12) (skip ihl p) n net h)

  -- Whatever frame comes in, the tables are in order afterwards: no place of a queue lies outside of
  -- it, no queue holds more than it has room for, and the next port is one of the ephemeral ones.
  pub ethernet_rx-Sound :
      (p : Mem) (len : ℕ) (net : Network) → Sound net → Sound (ethernet_rx devices dev p len net)
  unfolding ethernet_rx
  ethernet_rx-Sound p len net h =
      let kind = net_ntohs (get16 p 12) in
      let as_ip = if kind == 0x800 then ipv4_rx devices dev (skip 14 p) (len - 14) net else net in
      let as_arp = if kind == 0x806 then arp_rx dev (skip 14 p) (len - 14) net else as_ip in
      if_Sound (ltb len 14) net as_arp h (
        if_Sound (kind == 0x806) (arp_rx dev (skip 14 p) (len - 14) net) as_ip
          (arp_rx-Sound (skip 14 p) (len - 14) net h)
          (if_Sound (kind == 0x800) (ipv4_rx devices dev (skip 14 p) (len - 14) net) net
            (ipv4_rx-Sound (skip 14 p) (len - 14) net h) h))
