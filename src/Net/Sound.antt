-- ===== src/Net/Sound.antt =====
-- The invariant of the tables of src/socket.c, and how it passes through src/netstack.c.
use lite_bsd.Prelude.{
  ℕ, zero, suc, ◌≤◌, ◌≡◌, refl, Option, none, some, List, [], ◌∷◌, arith, get_or, set,
}
use lite_bsd.Circle.{IsCircle}
use lite_bsd.Net.State.{Socket, Network, Device, no_socket, sock_at, put_sock}
use lite_bsd.Net.Through.{Keeps, AllKeep}

abbrev pub IsRing : ℕ → ℕ → ℕ → Option (List ℕ) → Type 0
IsRing head tail count none = Unit
IsRing head tail count (some buf) = IsCircle 65536 head tail count buf

-- A socket has no children that wait, and its two queues are circles.
abbrev pub Fine : Socket → Type 0
Fine s =
    (s.accept_count ≡ 0)
    × IsRing s.rx_head s.rx_tail s.rx_count s.rx_stream_buf
    × IsCircle 16 s.dgram_head s.dgram_tail s.dgram_count s.dgram_queue

abbrev pub AllFine : List Socket → Type 0
AllFine [] = Unit
AllFine (s ∷ ss) = Fine s × AllFine ss

abbrev pub Tables : List Socket → ℕ → Type 0
Tables sockets port = AllFine sockets × (49152 ≤ port) × (port ≤ 65000)

abbrev pub Sound : Network → Type 0
Sound net = Tables net.sockets net.ephemeral_port

pub no_socket-Fine : Fine no_socket
no_socket-Fine = (
  refl,
  tt,
  record {
    whole = refl;
    head_in = omega arith;
    tail_in = omega arith;
    fits = omega arith;
    ahead = λ h. refl;
    behind = λ h. absurd (omega arith);
  },
)

AllFine-get : (ss : List Socket) (i : ℕ) → AllFine ss → Fine (get_or ss i no_socket)
AllFine-get [] i f = no_socket-Fine
AllFine-get (s ∷ ss) zero f = f.0
AllFine-get (s ∷ ss) (suc i) f = AllFine-get ss i f.1

AllFine-set : (ss : List Socket) (i : ℕ) (s : Socket) → AllFine ss → Fine s → AllFine (set ss i s)
AllFine-set [] i s f g = tt
AllFine-set (t ∷ ss) zero s f g = (g, f.1)
AllFine-set (t ∷ ss) (suc i) s f g = (f.0, AllFine-set ss i s f.1 g)

pub sock_at-Fine : (i : ℕ) (net : Network) → Sound net → Fine (sock_at i net)
sock_at-Fine i net s = AllFine-get net.sockets i s.0

pub put_sock-Sound :
    (i : ℕ) (s : Socket) (net : Network) → Sound net → Fine s → Sound (put_sock i s net)
put_sock-Sound i s net f g = (AllFine-set net.sockets i s f.0 g, f.1, f.2)

-- A driver that keeps the tables in order.
abbrev pub Respects : Device → Type 0
Respects dev = Keeps Tables dev

abbrev pub AllRespect : List Device → Type 0
AllRespect devices = AllKeep Tables devices
