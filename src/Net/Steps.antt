-- ===== src/Net/Steps.antt =====
-- The calls of src/socket.c keep the tables in order.
use lite_bsd.Prelude.{
  ℕ, zero, suc, ◌≤◌, ◌≡◌, refl, sym, ap, inl, inr, Bool, true, false, not, ◌&&◌, Option, none, some,
  List, ◌==◌, ltb, if◌then◌else◌, Bool-cases, arith, length, add16,
}
use mathlib.Core.Path.{subst}
use lite_bsd.Circle.{IsCircle}
use lite_bsd.Net.State.{
  Socket, Network, Device, closed, listening, find_index, sock_at, put_sock, sock_stream,
}
use lite_bsd.Net.Devices.{netdev_poll_all}
use lite_bsd.Net.Socket.{
  returned, failed, next_ephemeral_port, rx_memory, fresh_socket, is_unused, create_at, sock_create,
  sock_destroy, sock_bind, sock_listen, is_listening, accept_wait, take_child, sock_accept,
}
use lite_bsd.Net.Sound.{Tables, IsRing, Fine, Sound, sock_at-Fine, put_sock-Sound, AllRespect}
use lite_bsd.Net.Through.{netdev_poll_all-Keeps}

-- A pair that is chosen by a test.
pub if_first {ℓ} :
    {A : Type ℓ} (b : Bool) (x y : Network × A)
    → Sound x.0
    → Sound y.0
    → Sound (if b then x else y).0
if_first true x y f g = f
if_first false x y f g = g

fresh-Fine :
    (domain kind protocol port : ℕ) (memory : List ℕ) (old : Socket)
    → length memory ≡ 65536
    → Fine old
    → Fine (fresh_socket domain kind protocol port memory old)
fresh-Fine domain kind protocol port memory old l f = (
  refl,
  ring old.rx_stream_buf f.1,
  record {
    whole = f.2.whole;
    head_in = omega arith;
    tail_in = omega arith;
    fits = omega arith;
    ahead = λ h. refl;
    behind = λ h. absurd (omega arith);
  },
)
  where
    empty : (buf : List ℕ) → length buf ≡ 65536 → IsCircle 65536 0 0 0 buf
    empty buf l = record {
      whole = l;
      head_in = omega arith;
      tail_in = omega arith;
      fits = omega arith;
      ahead = λ h. refl;
      behind = λ h. absurd (omega arith);
    }

    ring :
        (o : Option (List ℕ))
        → IsRing old.rx_head old.rx_tail old.rx_count o
        → IsRing 0 0 0 (rx_memory kind memory o)
    ring (some buf) r = empty buf r.whole
    ring none r = elim (Bool-cases (kind == sock_stream)) [
      | inl stream ↦ rw stream (empty memory l)
      | inr other ↦ rw other tt
    ]

next_port-Sound : (net : Network) → Sound net → Sound (next_ephemeral_port net).0
unfolding next_ephemeral_port
next_port-Sound net h = (h.0, low net.ephemeral_port h.1 h.2, high net.ephemeral_port h.1 h.2)
  where
    low :
        (p : ℕ)
        → 49152 ≤ p
        → p ≤ 65000
        → 49152 ≤ (if ltb 65000 (add16 p 1) then 49152 else add16 p 1)
    low p a b = ground arith

    high :
        (p : ℕ)
        → 49152 ≤ p
        → p ≤ 65000
        → (if ltb 65000 (add16 p 1) then 49152 else add16 p 1) ≤ 65000
    high p a b = ground arith

pub sock_create-Sound :
    (domain kind protocol : ℕ) (memory : List ℕ) (net : Network)
    → length memory ≡ 65536
    → Sound net
    → Sound (sock_create domain kind protocol memory net).0
unfolding sock_create create_at
sock_create-Sound domain kind protocol memory net l h =
    if_first (not (domain == 2) && not (domain == 1)) (net, none)
      (create_at domain kind protocol memory (find_index is_unused net.sockets) net) h
      (at (find_index is_unused net.sockets))
  where
    at : (o : Option ℕ) → Sound (create_at domain kind protocol memory o net).0
    at none = h
    at (some i) =
        let (net', port) = next_ephemeral_port net in
        put_sock-Sound i (fresh_socket domain kind protocol port memory (sock_at i net')) net'
          (next_port-Sound net h)
          (fresh-Fine domain kind protocol port memory (sock_at i net') l
            (sock_at-Fine i net' (next_port-Sound net h)))

-- What a change of fields outside of the queues does.
pub alter-Sound :
    (i : ℕ) (net : Network) (s : Socket)
    → Sound net
    → (Fine (sock_at i net) → Fine s)
    → Sound (put_sock i s net)
alter-Sound i net s h k = put_sock-Sound i s net h (k (sock_at-Fine i net h))

pub sock_destroy-Sound : (i : ℕ) (net : Network) → Sound net → Sound (sock_destroy i net)
unfolding sock_destroy
sock_destroy-Sound i net h =
    alter-Sound i net (record (sock_at i net) { state = 0; ref_count = 0; tcp_state = closed }) h
      (λ f. f)

pub sock_bind-Sound : (i ip port : ℕ) (net : Network) → Sound net → Sound (sock_bind i ip port net)
unfolding sock_bind
sock_bind-Sound i ip port net h =
    alter-Sound i net (record (sock_at i net) { local_ip = ip; local_port = port }) h (λ f. f)

pub sock_listen-Sound : (i : ℕ) (net : Network) → Sound net → Sound (sock_listen i net).0
unfolding sock_listen
sock_listen-Sound i net h =
    let s = sock_at i net in
    if_first (not (s.type == sock_stream)) (net, failed 1)
      (put_sock i (record s { tcp_state = listening }) net, returned 0) h
      (alter-Sound i net (record s { tcp_state = listening }) h (λ f. f))

module _ (devices : List Device) (r : AllRespect devices) where
  accept_wait-Sound : (t i : ℕ) (net : Network) → Sound net → Sound (accept_wait devices i t net).0
  unfolding accept_wait
  accept_wait-Sound zero i net h = h
  accept_wait-Sound (suc t) i net h =
      let now = netdev_poll_all devices net in
      let h' = netdev_poll_all-Keeps Tables devices net r h in
      let later = accept_wait devices i t now in
      let on = if (sock_at i now).nonblocking then (now, true) else later in
      if_first (not ((sock_at i net).accept_count == 0)) (net, false) on h
        (if_first (sock_at i now).nonblocking (now, true) later h' (accept_wait-Sound t i now h'))

  -- There is no child to take.
  take_child-none : (i : ℕ) (x : Network × Bool) → Sound x.0 → take_child i x ≡ (x.0, none)
  unfolding take_child
  take_child-none i (net, true) h = refl
  take_child-none i (net, false) h = rw (sock_at-Fine i net h).0 refl

  -- In tables that are in order, `sock_accept` returns no socket: nothing ever enters the queue of
  -- children.
  pub sock_accept-none :
      (i : ℕ) (net : Network)
      → Sound net
      → ((sock_accept devices i net).1 ≡ none) × Sound (sock_accept devices i net).0
  unfolding sock_accept
  sock_accept-none i net h = elim (Bool-cases (is_listening (sock_at i net).tcp_state)) [
    | inl listens ↦
        let x = accept_wait devices i 5000 net in
        let h' = accept_wait-Sound 5000 i net h in
        let e = take_child-none i x h' in
        rw listens (ap (λ y. y.1) e, subst Sound (sym (ap (λ y. y.0) e)) h')
    | inr other ↦ rw other (refl, h)
  ]
