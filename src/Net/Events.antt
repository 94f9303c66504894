-- ===== src/Net/Events.antt =====
-- Sequences of frames that come in and of calls of src/socket.c.
use lite_bsd.Prelude.{ℕ, ◌≡◌, none, List, [], ◌∷◌, length}
use lite_bsd.Net.Bytes.{Mem}
use lite_bsd.Net.State.{Network, Device}
use lite_bsd.Net.Receive.{ethernet_rx}
use lite_bsd.Net.Socket.{
  sock_create, sock_destroy, sock_bind, sock_listen, sock_accept, sock_connect, sock_close,
}
use lite_bsd.Net.Transfer.{sock_sendto, sock_recvfrom}
use lite_bsd.Net.Sound.{Sound, Respects, AllRespect}
use lite_bsd.Net.Frames.{ethernet_rx-Sound}
use lite_bsd.Net.Steps.{
  sock_create-Sound, sock_destroy-Sound, sock_bind-Sound, sock_listen-Sound, sock_accept-none,
}
use lite_bsd.Net.Traffic.{
  sock_connect-Sound, sock_close-Sound, sock_sendto-Sound, sock_recvfrom-Sound,
}

pub data Event : Type 0 where
  frame : Device → Mem → ℕ → Event
  create : ℕ → ℕ → ℕ → List ℕ → Event
  destroy : ℕ → Event
  bind : ℕ → ℕ → ℕ → Event
  listen : ℕ → Event
  accept : ℕ → Event
  connect : ℕ → ℕ → ℕ → Event
  send : ℕ → List ℕ → ℕ → ℕ → Event
  receive : ℕ → ℕ → Event
  close : ℕ → Event

unfoldable pub happen : List Device → Event → Network → Network
happen devices (frame dev p len) net = ethernet_rx devices dev p len net
happen devices (create domain kind protocol memory) net =
    (sock_create domain kind protocol memory net).0
happen devices (destroy i) net = sock_destroy i net
happen devices (bind i ip port) net = sock_bind i ip port net
happen devices (listen i) net = (sock_listen i net).0
happen devices (accept i) net = (sock_accept devices i net).0
happen devices (connect i ip port) net = (sock_connect devices i ip port net).0
happen devices (send i buf ip port) net = (sock_sendto devices i buf ip port net).0
happen devices (receive i len) net = (sock_recvfrom devices i len net).0
happen devices (close i) net = sock_close devices i net

-- A frame comes from a driver that keeps the tables in order; the heap gives the 65536 bytes asked for.
abbrev pub Fair : Event → Type 0
Fair (frame dev p len) = Respects dev
Fair (create domain kind protocol memory) = length memory ≡ 65536
Fair (destroy i) = Unit
Fair (bind i ip port) = Unit
Fair (listen i) = Unit
Fair (accept i) = Unit
Fair (connect i ip port) = Unit
Fair (send i buf ip port) = Unit
Fair (receive i len) = Unit
Fair (close i) = Unit

abbrev pub AllFair : List Event → Type 0
AllFair [] = Unit
AllFair (e ∷ es) = Fair e × AllFair es

unfoldable pub happen_all : List Device → List Event → Network → Network
happen_all devices [] net = net
happen_all devices (e ∷ es) net = happen_all devices es (happen devices e net)

module _ (devices : List Device) (r : AllRespect devices) where
  happen-Sound : (e : Event) (net : Network) → Fair e → Sound net → Sound (happen devices e net)
  unfolding happen
  happen-Sound (frame dev p len) net f h = ethernet_rx-Sound devices r dev f p len net h
  happen-Sound (create domain kind protocol memory) net f h =
      sock_create-Sound domain kind protocol memory net f h
  happen-Sound (destroy i) net f h = sock_destroy-Sound i net h
  happen-Sound (bind i ip port) net f h = sock_bind-Sound i ip port net h
  happen-Sound (listen i) net f h = sock_listen-Sound i net h
  happen-Sound (accept i) net f h = (sock_accept-none devices r i net h).1
  happen-Sound (connect i ip port) net f h = sock_connect-Sound devices r i ip port net h
  happen-Sound (send i buf ip port) net f h = sock_sendto-Sound devices r i buf ip port net h
  happen-Sound (receive i len) net f h = sock_recvfrom-Sound devices r i len net h
  happen-Sound (close i) net f h = sock_close-Sound devices r i net h

  -- Whatever frames come in and whatever calls are made, with drivers that keep the tables in order and
  -- a heap that gives 65536 bytes for a buffer, tables that were in order stay so: no socket has a child
  -- that waits, the places and the count of every receive buffer and of every queue of datagrams fit
  -- together and lie inside, and the next port is from 49152 to 65000.
  pub happen_all-Sound :
      (es : List Event) (net : Network) → AllFair es → Sound net → Sound (happen_all devices es net)
  unfolding happen_all
  happen_all-Sound [] net f h = h
  happen_all-Sound (e ∷ es) net f h =
      happen_all-Sound es (happen devices e net) f.1 (happen-Sound e net f.0 h)

  -- `sock_accept` returns no socket, whatever frames came in and whatever calls were made since the
  -- tables were in order, with drivers that keep them so and a heap that gives 65536 bytes for a buffer.
  pub sock_accept-happen_all :
      (es : List Event) (net : Network) (i : ℕ)
      → AllFair es
      → Sound net
      → (sock_accept devices i (happen_all devices es net)).1 ≡ none
  sock_accept-happen_all es net i f h =
      (sock_accept-none devices r i (happen_all devices es net) (happen_all-Sound es net f h)).0
