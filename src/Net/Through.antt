-- ===== src/Net/Through.antt =====
-- What the senders of src/netstack.c and the devices leave true of the sockets and the next port: all
-- that the drivers leave true.
use lite_bsd.Prelude.{
  ℕ, zero, suc, inl, inr, Option, none, some, List, [], ◌∷◌, ◌++◌, add16, ◌==◌, ltb, Bool-cases,
  length, replicate, bit_and,
}
use lite_bsd.Net.State.{Socket, Network, Device}
use lite_bsd.Net.Bytes.{put16, net_htons}
use lite_bsd.Net.Send.{
  ethernet_send, polled, or_later, arp_wait, arp_ask, arp_resolve, arp_lookup, arp_packet,
  broadcast_mac, ip_packet, next_hop, ipv4_to, ipv4_send,
}
use lite_bsd.Net.Devices.{first_physical, or_first, netdev_get_default, netdev_poll_all}

module _ (Q : List Socket → ℕ → Type 0) where
  abbrev pub Holds : Network → Type 0
  Holds net = Q net.sockets net.ephemeral_port

  -- A driver that leaves it true, as `ethernet_rx` does, which it calls.
  abbrev pub Keeps : Device → Type 0
  Keeps dev =
      ((frame : List ℕ) (net : Network) → Holds net → Holds (dev.send frame net).0)
      × ((net : Network) → Holds net → Holds (polled dev.poll net))

  abbrev pub AllKeep : List Device → Type 0
  AllKeep [] = Unit
  AllKeep (dev ∷ devices) = Keeps dev × AllKeep devices

  pub ethernet_send-Keeps :
      (dev : Device) (dst : List ℕ) (type : ℕ) (payload : List ℕ) (net : Network)
      → Keeps dev
      → Holds net
      → Holds (ethernet_send dev dst type payload net).0
  unfolding ethernet_send
  ethernet_send-Keeps dev dst type payload net r s = elim (Bool-cases (ltb 1500 (length payload))) [
    | inl long ↦ rw long s
    | inr fits ↦ rw fits (r.0 (dst ++ dev.mac ++ put16 (net_htons type) ++ payload) net s)
  ]

  arp_wait-Keeps :
      (retries : ℕ) (dev : Device) (ip : ℕ) (net : Network)
      → Keeps dev
      → Holds net
      → Holds (arp_wait retries dev ip net).0
  unfolding arp_wait
  arp_wait-Keeps zero dev ip net r s = s
  arp_wait-Keeps (suc retries) dev ip net r s =
      let now = polled dev.poll net in
      let s' = r.1 net s in
      later (arp_lookup ip now.arp_table) now (arp_wait retries dev ip now) s'
        (arp_wait-Keeps retries dev ip now r s')
    where
      later :
          (o : Option (List ℕ)) (net : Network) (x : Network × Option (List ℕ))
          → Holds net
          → Holds x.0
          → Holds (or_later o net x).0
      later none net x s t = t
      later (some mac) net x s t = s

  arp_resolve-Keeps :
      (dev : Device) (ip : ℕ) (net : Network)
      → Keeps dev
      → Holds net
      → Holds (arp_resolve dev ip net).0
  unfolding arp_resolve arp_ask
  arp_resolve-Keeps dev ip net r s = elim (Bool-cases (ip == 0xffffffff)) [
    | inl all ↦ rw all s
    | inr one ↦ rw one (ask (arp_lookup ip net.arp_table) net s)
  ]
    where
      ask : (o : Option (List ℕ)) (net : Network) → Holds net → Holds (arp_ask dev ip o net).0
      ask (some mac) net s = s
      ask none net s =
          let request = arp_packet 1 dev.mac dev.ip (replicate 6 0) ip in
          arp_wait-Keeps 200 dev ip (ethernet_send dev broadcast_mac 0x806 request net).0 r
            (ethernet_send-Keeps dev broadcast_mac 0x806 request net r s)

  pub ipv4_send-Keeps :
      (dev : Device) (dst proto : ℕ) (payload : List ℕ) (net : Network)
      → Keeps dev
      → Holds net
      → Holds (ipv4_send dev dst proto payload net).0
  unfolding ipv4_send ipv4_to
  ipv4_send-Keeps dev dst proto payload net r s = elim (Bool-cases (ltb 1480 (length payload))) [
    | inl long ↦ rw long s
    | inr fits ↦ rw fits (
        to (arp_resolve dev (next_hop dev dst) net)
          (arp_resolve-Keeps dev (next_hop dev dst) net r s))
  ]
    where
      to : (x : Network × Option (List ℕ)) → Holds x.0 → Holds (ipv4_to dev dst proto payload x).0
      to (net, none) s = s
      to (net, some mac) s =
          ethernet_send-Keeps dev mac 0x800 (ip_packet net.ip_id proto dev.ip dst payload)
            (record net { ip_id = add16 net.ip_id 1 }) r s

  -- The device that a socket sends on.
  abbrev pub OnDevice : Option Device → Type 0
  OnDevice none = Unit
  OnDevice (some dev) = Keeps dev

  first_physical-OnDevice :
      (devices : List Device) → AllKeep devices → OnDevice (first_physical devices)
  unfolding first_physical
  first_physical-OnDevice [] r = tt
  first_physical-OnDevice (dev ∷ devices) r = elim (Bool-cases (bit_and dev.flags 8 == 0)) [
    | inl physical ↦ rw physical r.0
    | inr loopback ↦ rw loopback (first_physical-OnDevice devices r.1)
  ]

  or_first-OnDevice :
      (o : Option Device) (devices : List Device)
      → OnDevice o
      → AllKeep devices
      → OnDevice (or_first o devices)
  unfolding or_first
  or_first-OnDevice (some dev) devices h r = h
  or_first-OnDevice none [] h r = tt
  or_first-OnDevice none (dev ∷ devices) h r = r.0

  pub default-OnDevice :
      (devices : List Device) → AllKeep devices → OnDevice (netdev_get_default devices)
  unfolding netdev_get_default
  default-OnDevice devices r =
      or_first-OnDevice (first_physical devices) devices (first_physical-OnDevice devices r) r

  pub netdev_poll_all-Keeps :
      (devices : List Device) (net : Network)
      → AllKeep devices
      → Holds net
      → Holds (netdev_poll_all devices net)
  unfolding netdev_poll_all
  netdev_poll_all-Keeps [] net r s = s
  netdev_poll_all-Keeps (dev ∷ devices) net r s =
      netdev_poll_all-Keeps devices (polled dev.poll net) r.1 (r.0.1 net s)
