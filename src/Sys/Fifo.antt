-- ===== src/Sys/Fifo.antt =====
-- A pipe of src/syscall.c is a queue of at most `size` bytes.
use mathlib.Core.Path.{subst}
use lite_bsd.Prelude.{
  ℕ, zero, suc, ◌+◌, ◌-◌, ◌<◌, ◌≡◌, refl, sym, ap, ◌∙◌, inl, inr, false, List, [], ◌∷◌, ◌++◌, leb,
  ◌==◌, Bool-cases, append-nil, append_assoc, arith, length, take, min, get_or,
}
use lite_bsd.Circle.{items, IsCircle, IsCircle-put, IsCircle-take, items-put}
use lite_bsd.Sched.File.{Pipe}
use lite_bsd.Sys.Pipe.{put_byte, drop_byte, write_loop, read_loop}

abbrev pub IsPipe : Pipe → Type 0
IsPipe p = IsCircle p.size p.read_pos p.write_pos p.count p.buffer

-- The bytes in the pipe, the oldest first.
abbrev pub queued : Pipe → List ℕ
queued p = items 0 p.size p.count p.read_pos p.buffer

-- What a transfer leaves as it was.
pub record SameEnds (p p' : Pipe) : Type 0 where
  pub size : p'.size ≡ p.size
  pub write_ref : p'.write_ref ≡ p.write_ref
  pub read_ref : p'.read_ref ≡ p.read_ref
  pub nonblocking : p'.nonblocking ≡ p.nonblocking

SameEnds-trans : {a b c : Pipe} → SameEnds a b → SameEnds b c → SameEnds a c
SameEnds-trans p q = record {
  size = q.size ∙ p.size;
  write_ref = q.write_ref ∙ p.write_ref;
  read_ref = q.read_ref ∙ p.read_ref;
  nonblocking = q.nonblocking ∙ p.nonblocking;
}

SameEnds-refl : (p : Pipe) → SameEnds p p
SameEnds-refl p = record { size = refl; write_ref = refl; read_ref = refl; nonblocking = refl }

-- The bytes `bytes` have gone into the pipe.
pub record Queued (p : Pipe) (bytes : List ℕ) (p' : Pipe) : Type 0 where
  pub sound : IsPipe p'
  pub now : queued p' ≡ queued p ++ bytes
  pub counted : p'.count ≡ p.count + length bytes
  pub ends : SameEnds p p'

put_byte-Queued :
    (b : ℕ) (p : Pipe) → IsPipe p → p.count < p.size → Queued p (b ∷ []) (put_byte b p)
unfolding put_byte
put_byte-Queued b p i room = record {
  sound = IsCircle-put p.size p.read_pos p.write_pos p.count p.buffer b i room;
  now = items-put 0 p.size p.count p.read_pos p.write_pos p.buffer b i room;
  counted = omega arith;
  ends = record { size = refl; write_ref = refl; read_ref = refl; nonblocking = refl };
}

Queued-none : (p : Pipe) → IsPipe p → Queued p [] p
Queued-none p i = record {
  sound = i;
  now = sym (append-nil (queued p));
  counted = omega arith;
  ends = SameEnds-refl p;
}

Queued-cons :
    (b : ℕ) (bytes : List ℕ) (p p' p'' : Pipe)
    → Queued p (b ∷ []) p'
    → Queued p' bytes p''
    → Queued p (b ∷ bytes) p''
Queued-cons b bytes p p' p'' q r = record {
  sound = r.sound;
  now = r.now ∙ ap (λ l. l ++ bytes) q.now ∙ append_assoc (queued p) (b ∷ []) bytes;
  counted = omega (arith, q.counted, r.counted);
  ends = SameEnds-trans q.ends r.ends;
}

-- The loop writes what there is room for, the first bytes first.
pub write_loop-Queued :
    (bytes : List ℕ) (p : Pipe)
    → IsPipe p
    → ((write_loop bytes p).1 ≡ min (length bytes) (p.size - p.count))
      × Queued p (take (write_loop bytes p).1 bytes) (write_loop bytes p).0
unfolding write_loop
write_loop-Queued [] p i = (omega arith, Queued-none p i)
write_loop-Queued (b ∷ bs) p i = elim (Bool-cases (leb p.size p.count)) [
  | inl full ↦ rw full (ground arith, Queued-none p i)
  | inr room ↦
      let one = put_byte-Queued b p i (ground arith) in
      let (n, rest) = write_loop-Queued bs (put_byte b p) one.sound in
      rw room (
        omega (arith, n, one.counted, one.ends.size, i.fits, leb_false p.size p.count room),
        Queued-cons b (take (write_loop bs (put_byte b p)).1 bs) p (put_byte b p)
            (write_loop bs (put_byte b p)).0 one rest,
      )
]
  where
    leb_false : (a b : ℕ) → leb a b ≡ false → b < a
    leb_false a b h = ground arith

-- The bytes `bytes` have come out of the pipe.
pub record Dequeued (p : Pipe) (bytes : List ℕ) (p' : Pipe) : Type 0 where
  pub sound : IsPipe p'
  pub before : queued p ≡ bytes ++ queued p'
  pub ends : SameEnds p p'

drop_byte-Dequeued :
    (p : Pipe)
    → IsPipe p
    → (p.count == 0) ≡ false
    → Dequeued p (get_or p.buffer p.read_pos 0 ∷ []) (drop_byte p)
unfolding drop_byte
drop_byte-Dequeued p i some_left =
    let back : suc (p.count - 1) ≡ p.count = ground arith in
    record {
      sound =
          IsCircle-take p.size p.read_pos p.write_pos (p.count - 1) p.buffer
            (subst (λ n. IsCircle p.size p.read_pos p.write_pos n p.buffer) (sym back) i);
      before = ap (λ n. items 0 p.size n p.read_pos p.buffer) (sym back);
      ends = record { size = refl; write_ref = refl; read_ref = refl; nonblocking = refl };
    }

pub read_loop-Dequeued :
    (k : ℕ) (p : Pipe)
    → IsPipe p
    → (length (read_loop k p).1 ≡ min k p.count) × Dequeued p (read_loop k p).1 (read_loop k p).0
unfolding read_loop drop_byte
read_loop-Dequeued zero p i =
    (omega arith, record { sound = i; before = refl; ends = SameEnds-refl p })
read_loop-Dequeued (suc k) p i = elim (Bool-cases (p.count == 0)) [
  | inl empty ↦ rw empty (ground arith, record { sound = i; before = refl; ends = SameEnds-refl p })
  | inr full ↦
      let one = drop_byte-Dequeued p i full in
      let (n, rest) = read_loop-Dequeued k (drop_byte p) one.sound in
      rw full (
        counted k p (length (read_loop k (drop_byte p)).1) full n,
        record {
          sound = rest.sound;
          before = one.before ∙ ap (λ l. get_or p.buffer p.read_pos 0 ∷ l) rest.before;
          ends = SameEnds-trans one.ends rest.ends;
        },
      )
]
  where
    counted :
        (k : ℕ) (p : Pipe) (n : ℕ)
        → (p.count == 0) ≡ false
        → n ≡ min k (p.count - 1)
        → suc n ≡ min (suc k) p.count
    counted k p n h e = ground arith
