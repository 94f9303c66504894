-- ===== src/Sys/Transfer.antt =====
-- What `sys_write` and `sys_read` of src/syscall.c do to a pipe, with what they return.
use lite_bsd.Prelude.{
  ℕ, ◌-◌, ◌≤◌, ◌<◌, ◌≡◌, refl, sym, ap, ◌∙◌, ◌⊎◌, inl, inr, Bool, true, false, ◌&&◌, not, List, [],
  ◌∷◌, ◌++◌, ltb, ◌==◌, Bool-cases, append-nil, arith, length, take, take_all, min, length-append,
}
use lite_bsd.Sched.File.{Pipe}
use lite_bsd.Sys.Pipe.{Moved, moved, again, waits, write_loop, pipe_write, read_loop, pipe_read}
use lite_bsd.Sys.Fifo.{IsPipe, queued, Queued, write_loop-Queued, Dequeued, read_loop-Dequeued}

-- The reply to a write of `len` bytes of which `n` found room.
abbrev pub WriteReply : Pipe → ℕ → ℕ → Moved → Type 0
WriteReply p len n (moved k) =
    (k ≡ n) × ((n ≡ len) ⊎ (p.nonblocking ≡ true)) × ((len ≡ 0) ⊎ (0 < n))
WriteReply p len n again = (n ≡ 0) × (0 < len) × (p.nonblocking ≡ true)
WriteReply p len n (waits k) = (k ≡ n) × (n < len) × (p.nonblocking ≡ false)

pub record PipeWritten (p : Pipe) (bytes : List ℕ) (x : Pipe × Moved) : Type 0 where
  pub written : ℕ
  pub fits : written ≡ min (length bytes) (p.size - p.count)
  pub queue : Queued p (take written bytes) x.0
  pub reply : WriteReply p (length bytes) written x.1

-- A write to a pipe puts as many of the bytes as there is room for behind those that it holds. It
-- returns their number; where bytes are left over it waits, or a pipe that does not block returns
-- the number, and -35 for none.
pub pipe_write-PipeWritten :
    (bytes : List ℕ) (p : Pipe) → IsPipe p → PipeWritten p bytes (pipe_write bytes p)
unfolding pipe_write
pipe_write-PipeWritten bytes p i =
    let (e, q) = write_loop-Queued bytes p i in
    let n = (write_loop bytes p).1 in
    elim (Bool-cases (ltb n (length bytes) && not p.nonblocking)) [
      | inl sleeps ↦ rw sleeps (record {
        written = n;
        fits = e;
        queue = q;
        reply = asleep n (length bytes) p.nonblocking sleeps;
      })
      | inr on ↦ rw on (elim (Bool-cases ((n == 0) && ltb 0 (length bytes))) [
        | inl nothing ↦
            rw nothing (record { written = n; fits = e; queue = q; reply = ground arith })
        | inr something ↦ rw something (record {
          written = n;
          fits = e;
          queue = q;
          reply = (
            refl,
            all n (length bytes) p.nonblocking on (omega (arith, e)),
            some_of n (length bytes) something,
          );
        })
      ])
    ]
  where
    asleep : (n l : ℕ) (b : Bool) → (ltb n l && not b) ≡ true → (n ≡ n) × (n < l) × (b ≡ false)
    asleep n l b h = ground arith

    all : (n l : ℕ) (b : Bool) → (ltb n l && not b) ≡ false → n ≤ l → (n ≡ l) ⊎ (b ≡ true)
    all n l b h k = ground arith

    some_of : (n l : ℕ) → ((n == 0) && ltb 0 l) ≡ false → (l ≡ 0) ⊎ (0 < n)
    some_of n l h = ground arith

-- The reply to a read of at most `count` bytes that gave `n`.
abbrev pub ReadReply : Pipe → ℕ → ℕ → Moved → Type 0
ReadReply p count n (moved k) =
    (k ≡ n)
    × ((0 < n) ⊎ (p.write_ref ≡ 0))
    × ((n ≡ count) ⊎ (p.write_ref ≡ 0) ⊎ (p.nonblocking ≡ true))
ReadReply p count n again = (n ≡ 0) × (0 < p.write_ref) × ((count ≡ 0) ⊎ (p.nonblocking ≡ true))
ReadReply p count n (waits k) = (k ≡ n) × (n < count) × (0 < p.write_ref) × (p.nonblocking ≡ false)

pub record PipeRead (p : Pipe) (count : ℕ) (x : Pipe × List ℕ × Moved) : Type 0 where
  pub taken : length x.1 ≡ min count p.count
  pub queue : Dequeued p x.1 x.0
  pub reply : ReadReply p count (length x.1) x.2

-- A read from a pipe takes its oldest bytes, as many as are asked for and there. It returns their
-- number; where more are asked for it waits, but for a pipe without a writer, which has ended, and
-- one that does not block, which returns -35 for none.
pub pipe_read-PipeRead : (count : ℕ) (p : Pipe) → IsPipe p → PipeRead p count (pipe_read count p)
unfolding pipe_read
pipe_read-PipeRead count p i =
    let (e, q) = read_loop-Dequeued count p i in
    let n = length (read_loop count p).1 in
    elim (Bool-cases (ltb n count && ltb 0 p.write_ref && not p.nonblocking)) [
      | inl sleeps ↦
          rw sleeps (record {
            taken = e;
            queue = q;
            reply = asleep n count p.write_ref p.nonblocking sleeps;
          })
      | inr on ↦ rw on (elim (Bool-cases ((n == 0) && ltb 0 p.write_ref)) [
        | inl nothing ↦ rw nothing (record {
          taken = e;
          queue = q;
          reply = none_read n count p.write_ref p.nonblocking on nothing;
        })
        | inr something ↦ rw something (record {
          taken = e;
          queue = q;
          reply = some_read n count p.write_ref p.nonblocking on something (omega (arith, e));
        })
      ])
    ]
  where
    asleep :
        (n k w : ℕ) (b : Bool)
        → (ltb n k && ltb 0 w && not b) ≡ true
        → (n ≡ n) × (n < k) × (0 < w) × (b ≡ false)
    asleep n k w b h = ground arith

    none_read :
        (n k w : ℕ) (b : Bool)
        → (ltb n k && ltb 0 w && not b) ≡ false
        → ((n == 0) && ltb 0 w) ≡ true
        → (n ≡ 0) × (0 < w) × ((k ≡ 0) ⊎ (b ≡ true))
    none_read n k w b h g = ground arith

    some_read :
        (n k w : ℕ) (b : Bool)
        → (ltb n k && ltb 0 w && not b) ≡ false
        → ((n == 0) && ltb 0 w) ≡ false
        → n ≤ k
        → (n ≡ n) × ((0 < n) ⊎ (w ≡ 0)) × ((n ≡ k) ⊎ (w ≡ 0) ⊎ (b ≡ true))
    some_read n k w b h g l = ground arith

prefix_whole : (l r b : List ℕ) → l ++ r ≡ b → length l ≡ length b → l ≡ b
prefix_whole l [] b e h = sym (append-nil l) ∙ e
prefix_whole l (x ∷ r) b e h =
    absurd (omega (arith, h, length-append l (x ∷ r), ap (λ (k : List ℕ). length k) e))

-- Bytes written to an empty pipe that has room for them are read back as they were.
pub pipe_read-pipe_write :
    (bytes : List ℕ) (p : Pipe)
    → IsPipe p
    → p.count ≡ 0
    → length bytes ≤ p.size
    → (pipe_read (length bytes) (pipe_write bytes p).0).1 ≡ bytes
pipe_read-pipe_write bytes p i empty room =
    let w = pipe_write-PipeWritten bytes p i in
    let p' = (pipe_write bytes p).0 in
    let r = pipe_read-PipeRead (length bytes) p' w.queue.sound in
    let out = (pipe_read (length bytes) p').1 in
    let all : take w.written bytes ≡ bytes = take_all w.written bytes (omega (arith, w.fits)) in
    let nothing : queued p ≡ [] = rw empty refl in
    let held : out ++ queued (pipe_read (length bytes) p').0 ≡ bytes =
      sym r.queue.before ∙ w.queue.now ∙ ap (λ l. l ++ take w.written bytes) nothing ∙ all in
    prefix_whole out (queued (pipe_read (length bytes) p').0) bytes held
      (omega (arith, r.taken, w.queue.counted, ap (λ (k : List ℕ). length k) all))
