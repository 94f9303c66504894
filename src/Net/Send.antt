-- ===== src/Net/Send.antt =====
-- The senders of src/netstack.c: `arp_resolve`, `ethernet_send` and `ipv4_send`, and `arp_add_entry`.
use lite_bsd.Prelude.{
  ℕ, zero, suc, ◌+◌, Bool, true, false, not, ◌&&◌, Option, none, some, List, [], ◌∷◌, ◌++◌, ◌==◌,
  ltb, if◌then◌else◌, get_or, set, replicate, length, bit_and, add16,
}
use lite_bsd.Net.Bytes.{put16, put32, net_htons}
use lite_bsd.Net.Checksum.{sealed}
use lite_bsd.Net.State.{ArpEntry, Network, Device, find_index}

abbrev pub arp_hit : ℕ → ArpEntry → Bool
arp_hit ip e = e.valid && (e.ip == ip)

abbrev pub no_entry : ArpEntry
no_entry = record { ip = 0; mac = replicate 6 0; valid = false }

-- `arp_add_entry`: the entry for the address, or else the first one that is not valid.
unfoldable pub fill_entry : ℕ → List ℕ → Option ℕ → List ArpEntry → List ArpEntry
fill_entry ip mac none table = table
fill_entry ip mac (some i) table = set table i (record { ip = ip; mac = mac; valid = true })

unfoldable pub renew_entry : ℕ → List ℕ → Option ℕ → List ArpEntry → List ArpEntry
unfolding fill_entry find_index
renew_entry ip mac none table = fill_entry ip mac (find_index (λ e. not e.valid) table) table
renew_entry ip mac (some i) table = set table i (record (get_or table i no_entry) { mac = mac })

unfoldable pub arp_add_entry : ℕ → List ℕ → List ArpEntry → List ArpEntry
unfolding renew_entry
arp_add_entry ip mac table = renew_entry ip mac (find_index (arp_hit ip) table) table

-- The loop over the table in `arp_resolve`.
abbrev pub mac_of : List ArpEntry → Option ℕ → Option (List ℕ)
mac_of table none = none
mac_of table (some i) = some (get_or table i no_entry).mac

unfoldable pub arp_lookup : ℕ → List ArpEntry → Option (List ℕ)
unfolding find_index
arp_lookup ip table = mac_of table (find_index (arp_hit ip) table)

abbrev pub broadcast_mac : List ℕ
broadcast_mac = replicate 6 255

-- `struct arp_hdr` as bytes.
abbrev pub arp_packet : ℕ → List ℕ → ℕ → List ℕ → ℕ → List ℕ
arp_packet opcode sender_mac sender_ip target_mac target_ip =
    put16 (net_htons 1)
    ++ put16 (net_htons 0x800)
    ++ (6 ∷ 4 ∷ [])
    ++ put16 (net_htons opcode)
    ++ sender_mac
    ++ put32 sender_ip
    ++ target_mac
    ++ put32 target_ip

unfoldable pub ethernet_send : Device → List ℕ → ℕ → List ℕ → Network → Network × Bool
ethernet_send dev dst_mac ethertype payload net =
    if ltb 1500 (length payload)
    then (net, false)
    else dev.send (dst_mac ++ dev.mac ++ put16 (net_htons ethertype) ++ payload) net

abbrev pub polled : Option (Network → Network) → Network → Network
polled none net = net
polled (some poll) net = poll net

-- The retries of `arp_resolve`: each polls the device and looks again.
abbrev pub or_later :
    Option (List ℕ) → Network → Network × Option (List ℕ) → Network × Option (List ℕ)
or_later none net later = later
or_later (some mac) net later = (net, some mac)

unfoldable pub arp_wait : ℕ → Device → ℕ → Network → Network × Option (List ℕ)
arp_wait zero dev ip net = (net, none)
arp_wait (suc retries) dev ip net =
    let now = polled dev.poll net in
    let later = arp_wait retries dev ip now in or_later (arp_lookup ip now.arp_table) now later

unfoldable pub arp_ask : Device → ℕ → Option (List ℕ) → Network → Network × Option (List ℕ)
unfolding arp_wait ethernet_send
arp_ask dev ip (some mac) net = (net, some mac)
arp_ask dev ip none net =
    let request = arp_packet 1 dev.mac dev.ip (replicate 6 0) ip in
    arp_wait 200 dev ip (ethernet_send dev broadcast_mac 0x806 request net).0

unfoldable pub arp_resolve : Device → ℕ → Network → Network × Option (List ℕ)
unfolding arp_ask arp_lookup
arp_resolve dev ip net =
    if ip == 0xffffffff
    then (net, some broadcast_mac)
    else arp_ask dev ip (arp_lookup ip net.arp_table) net

-- `struct ip_hdr` up to the checksum, and behind it.
abbrev pub ip_front : ℕ → ℕ → ℕ → List ℕ
ip_front len id proto =
    (0x45 ∷ 0 ∷ []) ++ put16 (net_htons len) ++ put16 (net_htons id) ++ (0 ∷ 0 ∷ 64 ∷ proto ∷ [])

abbrev pub ip_back : ℕ → ℕ → List ℕ
ip_back src dst = put32 src ++ put32 dst

abbrev pub ip_packet : ℕ → ℕ → ℕ → ℕ → List ℕ → List ℕ
ip_packet id proto src dst payload =
    sealed (ip_front (20 + length payload) id proto) (ip_back src dst) ++ payload

abbrev pub next_hop : Device → ℕ → ℕ
next_hop dev dst =
    if not (dst == 0xffffffff) && not (bit_and dst dev.netmask == bit_and dev.ip dev.netmask)
    then dev.gateway
    else dst

unfoldable pub ipv4_to : Device → ℕ → ℕ → List ℕ → Network × Option (List ℕ) → Network × Bool
unfolding ethernet_send
ipv4_to dev dst proto payload (net, none) = (net, false)
ipv4_to dev dst proto payload (net, some mac) =
    ethernet_send dev mac 0x800 (ip_packet net.ip_id proto dev.ip dst payload)
      (record net { ip_id = add16 net.ip_id 1 })

unfoldable pub ipv4_send : Device → ℕ → ℕ → List ℕ → Network → Network × Bool
unfolding ipv4_to arp_resolve
ipv4_send dev dst proto payload net =
    if ltb 1480 (length payload)
    then (net, false)
    else ipv4_to dev dst proto payload (arp_resolve dev (next_hop dev dst) net)
