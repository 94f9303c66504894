-- ===== src/Net/Carry.antt =====
-- What `ipv4_rx` makes of the packets that `ipv4_send` builds, and of the datagrams of `sock_sendto`.
use mathlib.Core.Path.{fun_ext}
use lite_bsd.Prelude.{
  ℕ, suc, ◌+◌, ◌-◌, ◌*◌, ◌/◌, ◌%◌, ◌<◌, ◌≤◌, ◌≡◌, refl, ap, ◌∙◌, true, false, not, ◌||◌, List, [],
  ◌∷◌, ◌++◌, ◌==◌, ltb, leb, min, arith, get_or, length, take_all,
}
use lite_bsd.Net.Bytes.{
  Mem, skip, bytes, mem_of, put16, get16, get32, net_htons, net_ntohs, net_ntohs-net_htons,
  net_htons-lt,
}
use lite_bsd.Net.Checksum.{sealed}
use lite_bsd.Net.State.{Network, Device}
use lite_bsd.Net.Send.{ip_packet, ip_front, ip_back}
use lite_bsd.Net.Transfer.{udp_packet}
use lite_bsd.Net.Datagram.{socket_udp_input}
use lite_bsd.Net.Receive.{ip_carries, ipv4_rx, udp_rx}

get_or-append : (l m : List ℕ) (i : ℕ) → get_or (l ++ m) (length l + i) 0 ≡ get_or m i 0
get_or-append [] m i = ap (λ k. get_or m k 0) (omega arith)
get_or-append (x ∷ l) m i =
    ap (λ k. get_or (x ∷ (l ++ m)) k 0) (shift (length l) i) ∙ get_or-append l m i
  where
    shift : (a b : ℕ) → suc a + b ≡ suc (a + b)
    shift a b = omega arith

-- A pointer behind the first part of a buffer points to the second.
pub skip-append : (l m : List ℕ) → skip (length l) (mem_of (l ++ m)) ≡ mem_of m
skip-append l m = fun_ext (λ i. get_or-append l m i)

pub bytes-mem_of : (l : List ℕ) → bytes (length l) (mem_of l) ≡ l
bytes-mem_of [] = refl
bytes-mem_of (x ∷ l) =
    ap (λ p. x ∷ bytes (length l) p) (skip-append (x ∷ []) l) ∙ ap (λ k. x ∷ k) (bytes-mem_of l)

-- A packet with a header of 20 bytes and a length that is that of the header and `n` bytes.
pub ipv4_rx-plain :
    (devices : List Device) (dev : Device) (p : Mem) (n : ℕ) (net : Network)
    → p 0 ≡ 0x45
    → net_ntohs (get16 p 2) ≡ 20 + n
    → n < 65516
    → ipv4_rx devices dev p (20 + n) net
      ≡ ip_carries devices dev (p 9) (get32 p 12) (skip 20 p) n net
unfolding ipv4_rx
ipv4_rx-plain devices dev p n net version total h =
    let accepted : (ltb (20 + n) 20
          || (not (p 0 / 16 % 16 == 4) || (ltb (p 0 % 16 * 4) 20 || ltb (20 + n) (p 0 % 16 * 4))))
        ≡ false =
      rw version (ground arith) in
    let payload : (min (net_ntohs (get16 p 2)) (20 + n) + 65536 - p 0 % 16 * 4) % 65536 ≡ n =
      rw (version, total) (left n h) in
    rw accepted (
      ap (λ k. ip_carries devices dev (p 9) (get32 p 12) (skip (p 0 % 16 * 4) p) k net) payload
      ∙ ap (λ k. ip_carries devices dev (p 9) (get32 p 12) (skip (k % 16 * 4) p) n net) version)
  where
    left : (n : ℕ) → n < 65516 → (min (20 + n) (20 + n) + 65536 - 20) % 65536 ≡ n
    left n h = ground arith

-- The packet that `ipv4_send` builds is taken with its protocol, its source and its payload.
pub ipv4_rx-ip_packet :
    (devices : List Device) (dev : Device) (id proto src dst : ℕ) (payload : List ℕ) (net : Network)
    → src < 4294967296
    → length payload < 65516
    → ipv4_rx devices dev (mem_of (ip_packet id proto src dst payload)) (20 + length payload) net
      ≡ ip_carries devices dev proto src (mem_of payload) (length payload) net
ipv4_rx-ip_packet devices dev id proto src dst payload net s h =
    let p = mem_of (ip_packet id proto src dst payload) in
    let total : net_ntohs (get16 p 2) ≡ 20 + length payload =
      ap net_ntohs (back (net_htons (20 + length payload)) (net_htons-lt (20 + length payload)))
      ∙ net_ntohs-net_htons (20 + length payload) (omega arith) in
    ipv4_rx-plain devices dev p (length payload) net refl total h
    ∙ ap (λ a. ip_carries devices dev proto a (skip 20 p) (length payload) net) (back32 src s)
    ∙ ap (λ q. ip_carries devices dev proto src q (length payload) net)
        (skip-append (sealed (ip_front (20 + length payload) id proto) (ip_back src dst)) payload)
  where
    back : (x : ℕ) → x < 65536 → x % 256 + 256 * (x / 256 % 256) ≡ x
    back x h = omega arith

    back32 :
        (x : ℕ)
        → x < 4294967296
        → x % 256
            + 256 * (x / 256 % 256)
            + 65536 * (x / 65536 % 256)
            + 16777216 * (x / 16777216 % 256)
          ≡ x
    back32 x h = omega arith

abbrev pub udp_header : ℕ → ℕ → ℕ → List ℕ
udp_header local_port target_port len =
    put16 (net_htons local_port)
    ++ put16 (net_htons target_port)
    ++ put16 (net_htons (8 + len))
    ++ (0 ∷ 0 ∷ [])

whole_packet :
    (local_port target_port : ℕ) (buf : List ℕ)
    → length buf ≤ 1472
    → udp_packet local_port target_port buf ≡ udp_header local_port target_port (length buf) ++ buf
whole_packet local_port target_port buf h =
    let e : length buf % 65536 ≡ length buf = omega arith in
    rw e (
      take_all ((8 + length buf) % 65536) (udp_header local_port target_port (length buf) ++ buf)
        (omega arith))

read_field :
    (x : ℕ) → x < 65536 → net_ntohs (net_htons x % 256 + 256 * (net_htons x / 256 % 256)) ≡ x
read_field x h = ap net_ntohs (back (net_htons x) (net_htons-lt x)) ∙ net_ntohs-net_htons x h
  where
    back : (x : ℕ) → x < 65536 → x % 256 + 256 * (x / 256 % 256) ≡ x
    back x h = omega arith

udp_rx-header :
    (src local_port target_port : ℕ) (buf : List ℕ) (net : Network)
    → local_port < 65536
    → target_port < 65536
    → length buf ≤ 1472
    → udp_rx src
        (mem_of (udp_header local_port target_port (length buf) ++ buf))
        (8 + length buf)
        net
      ≡ socket_udp_input src local_port target_port buf net
unfolding udp_rx
udp_rx-header src local_port target_port buf net l t h =
    let long : leb 8 (8 + length buf) ≡ true = ground arith in
    let len : min
            (net_ntohs
              (net_htons (8 + length buf) % 256 + 256 * (net_htons (8 + length buf) / 256 % 256)))
            (8 + length buf)
          - 8
        ≡ length buf =
      rw (read_field (8 + length buf) (omega arith)) (omega arith) in
    rw long (
      rw (read_field local_port l) (
        rw (read_field target_port t) (
          rw len (
            ap (λ b. socket_udp_input src local_port target_port b net)
              (ap (bytes (length buf))
                  (skip-append (udp_header local_port target_port (length buf)) buf)
                ∙ bytes-mem_of buf)))))

carried_udp :
    (devices : List Device) (dev : Device) (src : ℕ) (p : Mem) (len : ℕ) (net : Network)
    → ip_carries devices dev 17 src p len net ≡ udp_rx src p len net
unfolding ip_carries
carried_udp devices dev src p len net = refl

-- A datagram of up to 1472 bytes that `sock_sendto` builds and `ipv4_send` packs is handed to the
-- sockets of the receiver with its two ports and all of its bytes.
pub ipv4_rx-udp_packet :
    (devices : List Device) (dev : Device) (id src dst local_port target_port : ℕ) (buf : List ℕ)
    (net : Network)
    → src < 4294967296
    → local_port < 65536
    → target_port < 65536
    → length buf ≤ 1472
    → ipv4_rx devices dev
        (mem_of (ip_packet id 17 src dst (udp_packet local_port target_port buf)))
        (20 + length (udp_packet local_port target_port buf))
        net
      ≡ socket_udp_input src local_port target_port buf net
ipv4_rx-udp_packet devices dev id src dst local_port target_port buf net s l t h =
    let packet = udp_header local_port target_port (length buf) ++ buf in
    ap (λ m. ipv4_rx devices dev (mem_of (ip_packet id 17 src dst m)) (20 + length m) net)
      (whole_packet local_port target_port buf h)
    ∙ ipv4_rx-ip_packet devices dev id 17 src dst packet net s (omega arith)
    ∙ carried_udp devices dev src (mem_of packet) (length packet) net
    ∙ ap (λ n. udp_rx src (mem_of packet) n net) (omega arith)
    ∙ udp_rx-header src local_port target_port buf net l t h
