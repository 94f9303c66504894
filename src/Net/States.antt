-- ===== src/Net/States.antt =====
-- The states of a TCP connection in `socket_tcp_input` of src/socket.c.
use mathlib.Core.Path.{subst}
use lite_bsd.Prelude.{
  ℕ, ◌<◌, ◌≡◌, ◌==◌, bit_and, length-set, arith, refl, ap, ◌∙◌, inl, inr, Bool, true, false, ◌&&◌,
  Option, none, some, List, [], ◌∷◌, ltb, if◌then◌else◌, Bool-cases, get_or, length, add32,
}
use lite_bsd.Net.Bytes.{net_ntohs, net_ntohl}
use lite_bsd.Net.State.{
  Socket, Network, Device, TcpState, closed, syn_sent, established, fin_wait1, fin_wait2,
  close_wait, last_ack, time_wait, listening, find_index, sock_at, put_sock, no_socket, has_buffer,
}
use lite_bsd.Net.Devices.{netdev_get_default}
use lite_bsd.Net.Tcp.{
  Segment, ack_flag, tcp_segment, tcp_send_on, tcp_send_packet, put_rx, put_all_rx, take_payload,
  passive, take_fin, take_handshake, take_data, in_state, tcp_to, takes_tcp, socket_tcp_input,
}
use lite_bsd.Net.Receiver.{Found, find_index-Found, takes_tcp-Receives, misses}
use lite_bsd.Net.Through.{AllKeep, OnDevice, ipv4_send-Keeps, default-OnDevice}
use lite_bsd.Net.Moves.{
  moved, state_of, SameStates, Becomes, Steps, put_sock-Becomes, put_sock-SameStates, Same-Becomes,
  Becomes-Same, unmoved,
}

-- The drivers hand in no other frame while they send.
abbrev pub Silent : List Device → Type 0
Silent devices = (ss : List Socket) → AllKeep (λ sockets port. sockets ≡ ss) devices

put_all_rx-state : (bs : List ℕ) (s : Socket) → (put_all_rx bs s).tcp_state ≡ s.tcp_state
unfolding put_all_rx
put_all_rx-state [] s = refl
put_all_rx-state (b ∷ bs) s =
    put_all_rx-state bs (if ltb s.rx_count 65536 then put_rx b s else s)
    ∙ same (ltb s.rx_count 65536)
  where
    same : (r : Bool) → (if r then put_rx b s else s).tcp_state ≡ s.tcp_state
    same true = refl
    same false = refl

module _ (devices : List Device) (r : Silent devices) where
  tcp_send_packet-sockets :
      (i flags : ℕ) (payload : List ℕ) (net : Network)
      → (tcp_send_packet devices i flags payload net).0.sockets ≡ net.sockets
  unfolding tcp_send_packet tcp_send_on
  tcp_send_packet-sockets i flags payload net =
      on (netdev_get_default devices)
        (default-OnDevice (λ sockets port. sockets ≡ net.sockets) devices (r net.sockets))
    where
      on :
          (o : Option Device)
          → OnDevice (λ sockets port. sockets ≡ net.sockets) o
          → (tcp_send_on o (sock_at i net) flags payload net).0.sockets ≡ net.sockets
      on none h = refl
      on (some dev) h =
          ipv4_send-Keeps (λ sockets port. sockets ≡ net.sockets) dev (sock_at i net).remote_ip 6
            (tcp_segment (sock_at i net) dev.ip flags payload) net h refl

  tcp_send_packet-SameStates :
      (i flags : ℕ) (payload : List ℕ) (net : Network)
      → SameStates net (tcp_send_packet devices i flags payload net).0
  tcp_send_packet-SameStates i flags payload net j =
      ap (λ ss. (get_or ss j no_socket).tcp_state) (tcp_send_packet-sockets i flags payload net)

  take_payload-SameStates :
      (i : ℕ) (payload : List ℕ) (net : Network)
      → SameStates net (take_payload devices i payload net)
  unfolding take_payload
  take_payload-SameStates i payload net j =
      let s = sock_at i net in
      let s' = put_all_rx payload s in
      let t = record s' { remote_seq = add32 s'.remote_seq (length payload) } in
      elim (Bool-cases (ltb 0 (length payload) && has_buffer s.rx_stream_buf)) [
        | inl some_bytes ↦ rw some_bytes (
            tcp_send_packet-SameStates i ack_flag [] (put_sock i t net) j
            ∙ put_sock-SameStates i t net (put_all_rx-state payload s) j)
        | inr no_bytes ↦ rw no_bytes refl
      ]

  take_payload-length :
      (i : ℕ) (payload : List ℕ) (net : Network)
      → length (take_payload devices i payload net).sockets ≡ length net.sockets
  unfolding take_payload
  take_payload-length i payload net =
      let s = sock_at i net in
      let s' = put_all_rx payload s in
      let t = record s' { remote_seq = add32 s'.remote_seq (length payload) } in
      elim (Bool-cases (ltb 0 (length payload) && has_buffer s.rx_stream_buf)) [
        | inl some_bytes ↦ rw some_bytes (
            ap length (tcp_send_packet-sockets i ack_flag [] (put_sock i t net))
            ∙ length-set net.sockets i t)
        | inr no_bytes ↦ rw no_bytes refl
      ]

  take_fin-Becomes :
      (i flags : ℕ) (net : Network)
      → i < length net.sockets
      → Becomes i
          (if bit_and flags 1 == 0 then state_of i net else passive (state_of i net))
          net
          (take_fin devices i flags net)
  unfolding take_fin
  take_fin-Becomes i flags net inside =
      let s = sock_at i net in
      let t = record s { fin_received = true; remote_seq = add32 s.remote_seq 1 } in
      let told = put_sock i t net in
      let sent = (tcp_send_packet devices i ack_flag [] told).0 in
      let same : SameStates net sent =
        λ j. tcp_send_packet-SameStates i ack_flag [] told j ∙ put_sock-SameStates i t net refl j in
      let long : length sent.sockets ≡ length net.sockets =
        ap length (tcp_send_packet-sockets i ack_flag [] told) ∙ length-set net.sockets i t in
      let s' = record (sock_at i sent) { tcp_state = passive (state_of i sent) } in
      elim (Bool-cases (bit_and flags 1 == 0)) [
        | inl going ↦ rw going (unmoved i (state_of i net) net refl)
        | inr fin ↦ rw fin (
            Same-Becomes i (passive (state_of i net)) net sent (put_sock i s' sent) same (
              subst (λ u. Becomes i (passive u) sent (put_sock i s' sent)) (same i)
                (put_sock-Becomes i s' sent (omega (arith, long)))))
      ]

  take_handshake-Becomes :
      (i : ℕ) (seg : Segment) (net : Network)
      → i < length net.sockets
      → state_of i net ≡ syn_sent
      → Becomes i (moved seg.flags syn_sent) net (take_handshake devices i seg net)
  unfolding take_handshake
  take_handshake-Becomes i seg net inside e =
      let s' = record (sock_at i net) {
        remote_seq = add32 (net_ntohl seg.seq) 1;
        local_seq = net_ntohl seg.ack;
        remote_window = net_ntohs seg.window;
        tcp_state = established;
      } in
      let up = put_sock i s' net in
      let done =
        Becomes-Same i established net up (tcp_send_packet devices i ack_flag [] up).0
          (put_sock-Becomes i s' net inside) (tcp_send_packet-SameStates i ack_flag [] up) in
      elim (Bool-cases (bit_and seg.flags 2 == 0)) [
        | inl no_syn ↦ rw no_syn (unmoved i syn_sent net e)
        | inr syn ↦ elim (Bool-cases (bit_and seg.flags 16 == 0)) [
          | inl no_ack ↦ rw (syn, no_ack) (unmoved i syn_sent net e)
          | inr ack ↦ rw (syn, ack) done
        ]
      ]

  take_data-Becomes :
      (i : ℕ) (seg : Segment) (payload : List ℕ) (net : Network)
      → i < length net.sockets
      → Becomes i
          (if bit_and seg.flags 1 == 0 then state_of i net else passive (state_of i net))
          net
          (take_data devices i seg payload net)
  take_data-Becomes i seg payload net inside =
      let fed = take_payload devices i payload net in
      let same = take_payload-SameStates i payload net in
      let over : TcpState → TcpState = λ t. if bit_and seg.flags 1 == 0 then t else passive t in
      Same-Becomes i (over (state_of i net)) net fed (take_fin devices i seg.flags fed) same (
        subst (λ t. Becomes i (over t) fed (take_fin devices i seg.flags fed)) (same i)
          (take_fin-Becomes i seg.flags fed (omega (arith, take_payload-length i payload net))))

  -- A FIN moves no state but ESTABLISHED.
  waits :
      (t : TcpState) (i : ℕ) (seg : Segment) (payload : List ℕ) (net : Network)
      → i < length net.sockets
      → state_of i net ≡ t
      → passive t ≡ t
      → Becomes i t net (take_data devices i seg payload net)
  waits t i seg payload net inside e p =
      subst (λ u. Becomes i u net (take_data devices i seg payload net))
        (each (bit_and seg.flags 1 == 0)) (take_data-Becomes i seg payload net inside)
    where
      each : (b : Bool) → (if b then state_of i net else passive (state_of i net)) ≡ t
      each true = e
      each false = ap passive e ∙ p

  in_state-Becomes :
      (t : TcpState) (i : ℕ) (seg : Segment) (payload : List ℕ) (net : Network)
      → i < length net.sockets
      → state_of i net ≡ t
      → Becomes i (moved seg.flags t) net (in_state t devices i seg payload net)
  unfolding in_state
  in_state-Becomes syn_sent i seg payload net l e = take_handshake-Becomes i seg net l e
  in_state-Becomes established i seg payload net l e =
      subst
        (λ t.
          Becomes i (if bit_and seg.flags 1 == 0 then t else passive t) net
            (take_data devices i seg payload net))
        e (take_data-Becomes i seg payload net l)
  in_state-Becomes fin_wait1 i seg payload net l e = waits fin_wait1 i seg payload net l e refl
  in_state-Becomes fin_wait2 i seg payload net l e = waits fin_wait2 i seg payload net l e refl
  in_state-Becomes closed i seg payload net l e = unmoved i closed net e
  in_state-Becomes close_wait i seg payload net l e = unmoved i close_wait net e
  in_state-Becomes last_ack i seg payload net l e = unmoved i last_ack net e
  in_state-Becomes time_wait i seg payload net l e = unmoved i time_wait net e
  in_state-Becomes listening i seg payload net l e = unmoved i listening net e

  -- With drivers that hand in no other frame while they send, a TCP segment moves the first stream
  -- socket in use that has its port and its sender, or no peer, and no other, and none if there is no
  -- such socket. RST takes it to CLOSED. Without RST, SYN with ACK takes it from SYN_SENT to
  -- ESTABLISHED, FIN from ESTABLISHED to CLOSE_WAIT, and else the state stays.
  pub socket_tcp_input-Steps :
      (src_ip dst_port : ℕ) (seg : Segment) (payload : List ℕ) (net : Network)
      → Steps src_ip dst_port seg.flags net
          (socket_tcp_input devices src_ip dst_port seg payload net)
  unfolding socket_tcp_input tcp_to
  socket_tcp_input-Steps src_ip dst_port seg payload net =
      to (find_index (takes_tcp src_ip dst_port) net.sockets)
        (find_index-Found (takes_tcp src_ip dst_port) net.sockets refl)
    where
      to :
          (o : Option ℕ)
          → Found (takes_tcp src_ip dst_port) net.sockets o
          → Steps src_ip dst_port seg.flags net (tcp_to devices o seg payload net)
      to none f = inl ((λ j. misses src_ip dst_port (sock_at j net) (f j)), λ j. refl)
      to (some i) (hit, inside, before) =
          let s = sock_at i net in
          inr (
            i,
            takes_tcp-Receives src_ip dst_port s hit,
            (λ j h. misses src_ip dst_port (sock_at j net) (before j h)),
            elim (Bool-cases (bit_and seg.flags 4 == 0)) [
              | inl going ↦ rw going (in_state-Becomes s.tcp_state i seg payload net inside refl)
              | inr rst ↦
                  rw rst
                    (put_sock-Becomes i (record s { tcp_state = closed; error = 104 }) net inside)
            ],
          )
