-- ===== src/Net/Bytes.antt =====
-- Bytes in memory and the byte orders of src/include/netstack.h. The processor is little-endian.
use lite_bsd.Prelude.{ℕ, zero, suc, ◌+◌, ◌*◌, ◌/◌, ◌%◌, ◌<◌, ◌≡◌, List, [], ◌∷◌, arith, get_or}

-- What a pointer points to, byte by byte.
abbrev pub Mem : Type 0
Mem = ℕ → ℕ

abbrev pub skip : ℕ → Mem → Mem
skip k p i = p (k + i)

abbrev pub bytes : ℕ → Mem → List ℕ
bytes zero p = []
bytes (suc n) p = p 0 ∷ bytes n (skip 1 p)

abbrev pub mem_of : List ℕ → Mem
mem_of l i = get_or l i 0

abbrev pub put16 : ℕ → List ℕ
put16 v = v % 256 ∷ v / 256 % 256 ∷ []

abbrev pub put32 : ℕ → List ℕ
put32 v = v % 256 ∷ v / 256 % 256 ∷ v / 65536 % 256 ∷ v / 16777216 % 256 ∷ []

abbrev pub get16 : Mem → ℕ → ℕ
get16 p i = p i + 256 * p (i + 1)

abbrev pub get32 : Mem → ℕ → ℕ
get32 p i = p i + 256 * p (i + 1) + 65536 * p (i + 2) + 16777216 * p (i + 3)

unfoldable pub net_htons : ℕ → ℕ
net_htons x = x % 256 * 256 + x / 256 % 256

abbrev pub net_ntohs : ℕ → ℕ
net_ntohs x = net_htons x

unfoldable pub net_htonl : ℕ → ℕ
net_htonl x =
    x % 256 * 16777216 + x / 256 % 256 * 65536 + x / 65536 % 256 * 256 + x / 16777216 % 256

abbrev pub net_ntohl : ℕ → ℕ
net_ntohl x = net_htonl x

-- A port or a length that is brought into the order of the network and back is unchanged.
pub net_ntohs-net_htons : (x : ℕ) → x < 65536 → net_ntohs (net_htons x) ≡ x
unfolding net_htons
net_ntohs-net_htons x h = omega arith

pub net_ntohl-net_htonl : (x : ℕ) → x < 4294967296 → net_ntohl (net_htonl x) ≡ x
unfolding net_htonl
net_ntohl-net_htonl x h = omega arith

pub net_htons-lt : (x : ℕ) → net_htons x < 65536
unfolding net_htons
net_htons-lt x = omega arith

-- A field of 16 bits is read as it was written.
pub get16-put16 : (x : ℕ) → x < 65536 → get16 (mem_of (put16 x)) 0 ≡ x
get16-put16 x h = omega arith
