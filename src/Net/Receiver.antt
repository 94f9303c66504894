-- ===== src/Net/Receiver.antt =====
-- The socket that a TCP segment is for, in the search of `socket_tcp_input` of src/socket.c.
use mathlib.Core.Option
use lite_bsd.Prelude.{
  ℕ, zero, suc, ◌<◌, ◌≡◌, ◌≢◌, ◌==◌, arith, ◌⊎◌, inl, inr, Bool, true, false, Option, none, some,
  List, [], ◌∷◌, Bool-cases, get_or, length,
}
use lite_bsd.Net.State.{Socket, find_index, no_socket}
use lite_bsd.Net.Tcp.{takes_tcp}

-- The socket is a stream in use on the port, without a peer or with this one.
abbrev pub Receives : ℕ → ℕ → Socket → Type 0
Receives src_ip dst_port s =
    (s.ref_count ≢ 0)
    × (s.type ≡ 1)
    × (s.local_port ≡ dst_port)
    × ((s.remote_ip ≡ 0) ⊎ (s.remote_ip ≡ src_ip))

-- What the search for the socket finds.
abbrev pub Found : (Socket → Bool) → List Socket → Option ℕ → Type 0
Found p ss none = (j : ℕ) → p (get_or ss j no_socket) ≡ false
Found p ss (some i) =
    (p (get_or ss i no_socket) ≡ true)
    × (i < length ss)
    × ((j : ℕ) → j < i → p (get_or ss j no_socket) ≡ false)

Found-cons :
    (p : Socket → Bool) (s : Socket) (ss : List Socket) (o : Option ℕ)
    → p s ≡ false
    → Found p ss o
    → Found p (s ∷ ss) (Option.map suc o)
Found-cons p s ss none miss f = λ j. at j
  where
    at : (j : ℕ) → p (get_or (s ∷ ss) j no_socket) ≡ false
    at zero = miss
    at (suc j) = f j
Found-cons p s ss (some i) miss f = (f.0, omega (arith, f.1), at)
  where
    at : (j : ℕ) → j < suc i → p (get_or (s ∷ ss) j no_socket) ≡ false
    at zero h = miss
    at (suc j) h = f.2 j (omega arith)

pub find_index-Found :
    (p : Socket → Bool) (ss : List Socket) → p no_socket ≡ false → Found p ss (find_index p ss)
unfolding find_index
find_index-Found p [] e = λ j. e
find_index-Found p (s ∷ ss) e = elim (Bool-cases (p s)) [
  | inl hit ↦ rw hit (hit, omega arith, λ j h. absurd (omega arith))
  | inr miss ↦ rw miss (Found-cons p s ss (find_index p ss) miss (find_index-Found p ss e))
]

pub takes_tcp-Receives :
    (src_ip dst_port : ℕ) (s : Socket)
    → takes_tcp src_ip dst_port s ≡ true
    → Receives src_ip dst_port s
takes_tcp-Receives src_ip dst_port s h = (
  λ e. ground arith,
  ground arith,
  ground arith,
  elim (Bool-cases (s.remote_ip == 0)) [
    | inl free ↦ inl (ground arith)
    | inr other ↦ inr (ground arith)
  ],
)

pub misses :
    (src_ip dst_port : ℕ) (s : Socket)
    → takes_tcp src_ip dst_port s ≡ false
    → ¬ Receives src_ip dst_port s
misses src_ip dst_port s h (used, kind, port, inl free) = ground (arith, used)
misses src_ip dst_port s h (used, kind, port, inr peer) = ground (arith, used)
