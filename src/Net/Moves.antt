-- ===== src/Net/Moves.antt =====
-- Which socket a TCP segment moves and to what state, for `socket_tcp_input` of src/socket.c.
use lite_bsd.Prelude.{
  ℕ, zero, suc, ◌<◌, ◌≡◌, ◌||◌, ◌==◌, bit_and, refl, sym, ap, ◌∙◌, inl, inr, ◌⊎◌, List, [], ◌∷◌,
  if◌then◌else◌, get_or, set, length,
}
use lite_bsd.Circle.{get_or-set_self}
use lite_bsd.Net.State.{
  Socket, Network, TcpState, closed, syn_sent, established, close_wait, sock_at, put_sock,
  no_socket,
}
use lite_bsd.Net.Receiver.{Receives}

-- The state after a segment without RST: bits 2 and 16 are SYN and ACK, bit 1 is FIN.
abbrev pub moved : ℕ → TcpState → TcpState
moved flags syn_sent =
    if (bit_and flags 2 == 0) || (bit_and flags 16 == 0) then syn_sent else established
moved flags established = if bit_and flags 1 == 0 then established else close_wait
moved flags t = t

-- The state after a segment; bit 4 is RST.
abbrev pub next_state : ℕ → TcpState → TcpState
next_state flags t = if bit_and flags 4 == 0 then moved flags t else closed

abbrev pub state_of : ℕ → Network → TcpState
state_of j net = (sock_at j net).tcp_state

set-cases :
    (ss : List Socket) (i j : ℕ) (s : Socket)
    → (get_or (set ss i s) j no_socket ≡ get_or ss j no_socket)
      ⊎ ((i ≡ j) × (get_or (set ss i s) j no_socket ≡ s))
set-cases [] i j s = inl refl
set-cases (t ∷ ss) zero zero s = inr (refl, refl)
set-cases (t ∷ ss) zero (suc j) s = inl refl
set-cases (t ∷ ss) (suc i) zero s = inl refl
set-cases (t ∷ ss) (suc i) (suc j) s = elim (set-cases ss i j s) [
  | inl e ↦ inl e
  | inr e ↦ inr (ap suc e.0, e.1)
]

abbrev pub SameStates : Network → Network → Type 0
SameStates net net' = (j : ℕ) → state_of j net' ≡ state_of j net

-- The socket at the place gets the state, and no other changes its own.
abbrev pub Becomes : ℕ → TcpState → Network → Network → Type 0
Becomes i t net net' =
    (state_of i net' ≡ t) × ((j : ℕ) → (j ≡ i) ⊎ (state_of j net' ≡ state_of j net))

-- The first socket that receives the segment moves, and if there is none, none moves.
abbrev pub Steps : ℕ → ℕ → ℕ → Network → Network → Type 0
Steps src_ip dst_port flags net net' =
    (((j : ℕ) → ¬ Receives src_ip dst_port (sock_at j net)) × SameStates net net')
    ⊎ ((i : ℕ) × Receives src_ip dst_port (sock_at i net)
        × ((j : ℕ) → j < i → ¬ Receives src_ip dst_port (sock_at j net))
        × Becomes i (next_state flags (state_of i net)) net net')

pub put_sock-Becomes :
    (i : ℕ) (s : Socket) (net : Network)
    → i < length net.sockets
    → Becomes i s.tcp_state net (put_sock i s net)
put_sock-Becomes i s net inside = (
  ap (λ t. t.tcp_state) (get_or-set_self no_socket net.sockets i s inside),
  λ j. elim (set-cases net.sockets i j s) [
    | inl e ↦ inr (ap (λ t. t.tcp_state) e)
    | inr e ↦ inl (sym e.0)
  ],
)

pub put_sock-SameStates :
    (i : ℕ) (s : Socket) (net : Network)
    → s.tcp_state ≡ state_of i net
    → SameStates net (put_sock i s net)
put_sock-SameStates i s net h j = elim (set-cases net.sockets i j s) [
  | inl e ↦ ap (λ t. t.tcp_state) e
  | inr (at, e) ↦ ap (λ t. t.tcp_state) e ∙ h ∙ ap (λ k. state_of k net) at
]

pub Same-Becomes :
    (i : ℕ) (t : TcpState) (a b c : Network) → SameStates a b → Becomes i t b c → Becomes i t a c
Same-Becomes i t a b c e (at, off) =
    (at, λ j. elim (off j) [ inl here ↦ inl here | inr same ↦ inr (same ∙ e j) ])

pub Becomes-Same :
    (i : ℕ) (t : TcpState) (a b c : Network) → Becomes i t a b → SameStates b c → Becomes i t a c
Becomes-Same i t a b c (at, off) e =
    (e i ∙ at, λ j. elim (off j) [ inl here ↦ inl here | inr same ↦ inr (e j ∙ same) ])

pub unmoved : (i : ℕ) (t : TcpState) (net : Network) → state_of i net ≡ t → Becomes i t net net
unmoved i t net e = (e, λ j. inr refl)
