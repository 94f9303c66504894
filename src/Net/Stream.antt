-- ===== src/Net/Stream.antt =====
-- The receive buffer of a stream socket of src/socket.c as a queue of bytes.
use mathlib.Core.Option
use mathlib.Core.Path.{subst}
use lite_bsd.Prelude.{
  ℕ, zero, suc, ◌+◌, ◌-◌, ◌%◌, ◌<◌, ◌≡◌, refl, sym, ap, ◌∙◌, inl, inr, some, List, [], ◌∷◌, ◌++◌,
  ◌==◌, ltb, min, if◌then◌else◌, Bool-cases, arith, get_or, set, length, take, append-nil,
  append_assoc,
}
use lite_bsd.Circle.{items, IsCircle, IsCircle-take, IsCircle-put, items-put}
use lite_bsd.Net.State.{Socket}
use lite_bsd.Net.Tcp.{put_rx, put_all_rx}
use lite_bsd.Net.Socket.{Result, returned, failed}
use lite_bsd.Net.Transfer.{copy_rx, buffer_of, take_rx}

-- The bytes that wait in the buffer, in order.
abbrev pub waiting : Socket → List ℕ
waiting s = items 0 65536 s.rx_count s.rx_head (buffer_of s.rx_stream_buf)

-- A socket whose buffer is `buf`.
pub record Held (s : Socket) (buf : List ℕ) : Type 0 where
  pub at : s.rx_stream_buf ≡ some buf
  pub ring : IsCircle 65536 s.rx_head s.rx_tail s.rx_count buf

abbrev in_buffer : Socket → List ℕ → List ℕ
in_buffer s buf = items 0 65536 s.rx_count s.rx_head buf

put_rx-Held :
    (b : ℕ) (s : Socket) (buf : List ℕ)
    → Held s buf
    → s.rx_count < 65536
    → Held (put_rx b s) (set buf s.rx_tail b)
      × (in_buffer (put_rx b s) (set buf s.rx_tail b) ≡ in_buffer s buf ++ (b ∷ []))
put_rx-Held b s buf h room = (
  record {
    at = ap (Option.map (λ l. set l s.rx_tail b)) h.at;
    ring = IsCircle-put 65536 s.rx_head s.rx_tail s.rx_count buf b h.ring room;
  },
  items-put 0 65536 s.rx_count s.rx_head s.rx_tail buf b h.ring room,
)

take_none : (n : ℕ) → take {A = ℕ} n [] ≡ []
take_none zero = refl
take_none (suc n) = refl

take_more :
    (b room count : ℕ) (bs : List ℕ)
    → room ≡ suc (65536 - suc count)
    → take room (b ∷ bs) ≡ b ∷ take (65536 - suc count) bs
take_more b room count bs e = ap (λ n. take n (b ∷ bs)) e

-- The buffer that holds the bytes behind those of `buf`.
abbrev Fills : List ℕ → Socket → List ℕ → Socket → Type 0
Fills bs s buf s' =
    (buf' : List ℕ) × Held s' buf'
    × (in_buffer s' buf' ≡ in_buffer s buf ++ take (65536 - s.rx_count) bs)

put_all_rx-Held :
    (bs : List ℕ) (s : Socket) (buf : List ℕ) → Held s buf → Fills bs s buf (put_all_rx bs s)
unfolding put_all_rx
put_all_rx-Held [] s buf h = (
  buf,
  h,
  sym (append-nil (in_buffer s buf))
      ∙ ap (λ l. in_buffer s buf ++ l) (sym (take_none (65536 - s.rx_count))),
)
put_all_rx-Held (b ∷ bs) s buf h = elim (Bool-cases (ltb s.rx_count 65536)) [
  | inl room ↦
      let one = put_rx-Held b s buf h (ground arith) in
      let rest = put_all_rx-Held bs (put_rx b s) (set buf s.rx_tail b) one.0 in
      let more = take_more b (65536 - s.rx_count) s.rx_count bs (ground arith) in
      let e : (if ltb s.rx_count 65536 then put_rx b s else s) ≡ put_rx b s = rw room refl in
      subst (λ t. Fills (b ∷ bs) s buf (put_all_rx bs t)) (sym e)
        (
          rest.0,
          rest.1,
          rest.2
              ∙ ap (λ l. l ++ take (65536 - suc s.rx_count) bs) one.1
              ∙ append_assoc (in_buffer s buf) (b ∷ []) (take (65536 - suc s.rx_count) bs)
              ∙ ap (λ l. in_buffer s buf ++ l) (sym more),
        )
  | inr full ↦
      let rest = put_all_rx-Held bs s buf h in
      let nothing : 65536 - s.rx_count ≡ 0 = ground arith in
      let e : (if ltb s.rx_count 65536 then put_rx b s else s) ≡ s = rw full refl in
      subst (λ t. Fills (b ∷ bs) s buf (put_all_rx bs t)) (sym e)
        (
          rest.0,
          rest.1,
          rest.2
              ∙ ap (λ n. in_buffer s buf ++ take n bs) nothing
              ∙ ap (λ n. in_buffer s buf ++ take n (b ∷ bs)) (sym nothing),
        )
]

-- The socket has a buffer, and its places and its count fit together.
abbrev pub IsStream : Socket → Type 0
IsStream s = (buf : List ℕ) × Held s buf

waiting-buf : (s : Socket) (buf : List ℕ) → Held s buf → waiting s ≡ in_buffer s buf
waiting-buf s buf h = ap (λ o. in_buffer s (buffer_of o)) h.at

pub put_all_rx-queue :
    (bs : List ℕ) (s : Socket)
    → IsStream s
    → IsStream (put_all_rx bs s)
      × (waiting (put_all_rx bs s) ≡ waiting s ++ take (65536 - s.rx_count) bs)
put_all_rx-queue bs s (buf, h) =
    let f = put_all_rx-Held bs s buf h in
    (
      (f.0, f.1),
      waiting-buf (put_all_rx bs s) f.0 f.1
          ∙ f.2
          ∙ ap (λ l. l ++ take (65536 - s.rx_count) bs) (sym (waiting-buf s buf h)),
    )

-- The copy takes the first `n` bytes and leaves the others.
abbrev pub Copied : ℕ → ℕ → ℕ → ℕ → List ℕ → List ℕ × ℕ → Type 0
Copied n left head tail buf x =
    IsCircle 65536 x.1 tail left buf
    × (length x.0 ≡ n)
    × (items 0 65536 (n + left) head buf ≡ x.0 ++ items 0 65536 left x.1 buf)

pub copy_rx-Copied :
    (n left head tail : ℕ) (buf : List ℕ)
    → IsCircle 65536 head tail (n + left) buf
    → Copied n left head tail buf (copy_rx n head buf)
unfolding copy_rx
copy_rx-Copied zero left head tail buf c = (
  subst (λ k. IsCircle 65536 head tail k buf) zero_add c,
  refl,
  ap (λ k. items 0 65536 k head buf) zero_add,
)
  where
    zero_add : 0 + left ≡ left
    zero_add = omega arith
copy_rx-Copied (suc n) left head tail buf c =
    let c' = subst (λ k. IsCircle 65536 head tail k buf) (suc_add n left) c in
    let rest =
      copy_rx-Copied n left ((head + 1) % 65536) tail buf
        (IsCircle-take 65536 head tail (n + left) buf c') in
    (
      rest.0,
      ap suc rest.1,
      ap (λ k. items 0 65536 k head buf) (suc_add n left) ∙ ap (λ l. get_or buf head 0 ∷ l) rest.2,
    )
  where
    suc_add : (n left : ℕ) → suc n + left ≡ suc (n + left)
    suc_add n left = omega arith

-- What a read of `len` bytes does to a stream.
pub record Read (len : ℕ) (s : Socket) (x : Socket × List ℕ × Result) : Type 0 where
  pub kept : IsStream x.0
  pub queue : waiting s ≡ x.1 ++ waiting x.0
  pub amount : length x.1 ≡ min len s.rx_count
  pub ended : s.rx_count ≡ 0 → x.2 ≡ (if s.fin_received then returned 0 else failed 35)
  pub result : 0 < s.rx_count → x.2 ≡ returned (length x.1)

pub take_rx-Read : (len : ℕ) (s : Socket) → IsStream s → Read len s (take_rx len s)
unfolding take_rx
take_rx-Read len s (buf, h) = elim (Bool-cases (s.rx_count == 0)) [
  | inl nothing ↦ rw nothing (record {
    kept = (buf, h);
    queue = refl;
    amount = ground arith;
    ended = λ e. refl;
    result = λ e. absurd (ground arith);
  })
  | inr something ↦
      let n = min len s.rx_count in
      let left = s.rx_count - n in
      let whole : s.rx_count ≡ n + left = omega arith in
      let c =
        copy_rx-Copied n left s.rx_head s.rx_tail buf
          (subst (λ k. IsCircle 65536 s.rx_head s.rx_tail k buf) whole h.ring) in
      let b : buffer_of s.rx_stream_buf ≡ buf = ap buffer_of h.at in
      let y = copy_rx n s.rx_head (buffer_of s.rx_stream_buf) in
      let c' : Copied n left s.rx_head s.rx_tail buf y =
        subst (λ k. Copied n left s.rx_head s.rx_tail buf (copy_rx n s.rx_head k)) (sym b) c in
      rw something (record {
        kept = (buf, record { at = h.at; ring = c'.0 });
        queue =
            waiting-buf s buf h
            ∙ ap (λ k. items 0 65536 k s.rx_head buf) whole
            ∙ c'.2
            ∙ ap (λ k. y.0 ++ items 0 65536 left y.1 k) (sym b);
        amount = c'.1;
        ended = λ e. absurd (ground arith);
        result = λ e. ap returned (sym c'.1);
      })
]

-- Bytes that come and reads, in any order.
pub data Event : Type 0 where
  arrive : List ℕ → Event
  read : ℕ → Event

-- The socket afterwards, the bytes that were taken in and those that were read.
unfoldable pub after : List Event → Socket → Socket × List ℕ × List ℕ
after [] s = (s, [], [])
after (arrive bs ∷ events) s =
    let (s', taken, out) = after events (put_all_rx bs s) in
    (s', take (65536 - s.rx_count) bs ++ taken, out)
after (read len ∷ events) s =
    let x = take_rx len s in let (s', taken, out) = after events x.0 in (s', taken, x.1 ++ out)

-- A stream whose buffer is in order is a queue: whatever comes and is read in whatever order, the bytes that were read and
-- those that still wait are those that waited before and those that were taken in, in their order.
pub after-queue :
    (events : List Event) (s : Socket)
    → IsStream s
    → IsStream (after events s).0
      × (waiting s ++ (after events s).1 ≡ (after events s).2 ++ waiting (after events s).0)
unfolding after
after-queue [] s i = (i, append-nil (waiting s))
after-queue (arrive bs ∷ events) s i =
    let put = put_all_rx-queue bs s i in
    let s1 = put_all_rx bs s in
    let ih = after-queue events s1 put.0 in
    (
      ih.0,
      sym (append_assoc (waiting s) (take (65536 - s.rx_count) bs) (after events s1).1)
          ∙ ap (λ l. l ++ (after events s1).1) (sym put.1)
          ∙ ih.1,
    )
after-queue (read len ∷ events) s i =
    let r = take_rx-Read len s i in
    let x = take_rx len s in
    let ih = after-queue events x.0 r.kept in
    (
      ih.0,
      ap (λ l. l ++ (after events x.0).1) r.queue
          ∙ append_assoc x.1 (waiting x.0) (after events x.0).1
          ∙ ap (λ l. x.1 ++ l) ih.1
          ∙ sym (append_assoc x.1 (after events x.0).2 (waiting (after events x.0).0)),
    )
