-- ===== src/Sys/Tests.antt =====
-- The calls of src/syscall.c on pipes and descriptors, and the theorems at small stores.
use lite_bsd.Prelude.{
  ℕ, ◌+◌, ◌≡◌, refl, true, false, Option, none, some, List, [], ◌∷◌, replicate, ◌==◌, ◌++◌,
  if◌then◌else◌, arith, Bool-cases, inl, inr,
}
use lite_bsd.Sched.File.{File, Pipe, Store, alloc_fd, alloc_from}
use lite_bsd.Sys.Pipe.{waits, pipe_write, pipe_read, write_loop, put_byte}
use lite_bsd.Sys.Fifo.{IsPipe}
use lite_bsd.Sys.Transfer.{
  PipeWritten, PipeRead, pipe_write-PipeWritten, pipe_read-PipeRead, pipe_read-pipe_write,
}
use lite_bsd.Sys.Descriptor.{sys_pipe, fork_fds, pipe_first, pipe_second}
use lite_bsd.Sys.Count.{Counted, holds}
use lite_bsd.Sys.Refs.{fork_fds-Counted}
use lite_bsd.Sys.Calls.{dup, dup2, close, run_all, Ready, run_all-Ready}
use lite_bsd.Sys.Make.{Fresh}
use lite_bsd.Sys.Leak.{Leaked, sys_pipe_leak}

-- Two bytes are held, round the end of the four places.
abbrev small : Pipe
small = record {
  buffer = 12 ∷ 0 ∷ 0 ∷ 11 ∷ [];
  size = 4;
  read_pos = 3;
  write_pos = 1;
  count = 2;
  read_ref = 1;
  write_ref = 1;
  nonblocking = false;
}

small-IsPipe : IsPipe small
small-IsPipe = record {
  whole = refl;
  head_in = omega arith;
  tail_in = omega arith;
  fits = omega arith;
  ahead = λ h. omega arith;
  behind = λ h. omega arith;
}

abbrev unused : Pipe
unused = record small { count = 0; write_pos = 3 }

unused-IsPipe : IsPipe unused
unused-IsPipe = record {
  whole = refl;
  head_in = omega arith;
  tail_in = omega arith;
  fits = omega arith;
  ahead = λ h. omega arith;
  behind = λ h. omega arith;
}

pipe_write_small : (pipe_write (7 ∷ 8 ∷ 9 ∷ []) small).1 ≡ waits 2
unfolding pipe_write write_loop put_byte
pipe_write_small = refl

pipe_write-PipeWritten_example :
    PipeWritten small (7 ∷ 8 ∷ 9 ∷ []) (pipe_write (7 ∷ 8 ∷ 9 ∷ []) small)
pipe_write-PipeWritten_example = pipe_write-PipeWritten (7 ∷ 8 ∷ 9 ∷ []) small small-IsPipe

pipe_read-PipeRead_example : PipeRead small 2 (pipe_read 2 small)
pipe_read-PipeRead_example = pipe_read-PipeRead 2 small small-IsPipe

pipe_read-pipe_write_example :
    (pipe_read 3 (pipe_write (7 ∷ 8 ∷ 9 ∷ []) unused).0).1 ≡ 7 ∷ 8 ∷ 9 ∷ []
pipe_read-pipe_write_example =
    pipe_read-pipe_write (7 ∷ 8 ∷ 9 ∷ []) unused unused-IsPipe refl (omega arith)

-- The file 7, which two slots of the task and one of another task hold.
abbrev shared_file : File
shared_file = record {
  node = some (0x2f ∷ []);
  offset = 0;
  flags = 0;
  ref_count = 3;
  pipe = none;
  read_end = true;
  sock = none;
}

abbrev shared_store : Store
shared_store = record {
  files = λ f. if f == 7 then some shared_file else none;
  pipes = λ p. none;
  closed_nodes = [];
  closed_socks = [];
  next = 100;
  left_over = λ f. none;
}

abbrev two_slots : List (Option ℕ)
two_slots = some 7 ∷ some 7 ∷ replicate 14 none

abbrev elsewhere : ℕ → ℕ
elsewhere f = if f == 7 then 1 else 0

shared-Counted : Counted elsewhere (two_slots, shared_store)
unfolding Counted
shared-Counted = λ f. elim (Bool-cases (f == 7)) [
  | inl here ↦ let at : f ≡ 7 = ground arith in rw at (omega arith)
  | inr there ↦ rw there (ground arith)
]

shared-Fresh : Fresh shared_store
shared-Fresh = λ f h. let above : (f == 7) ≡ false = ground arith in rw above refl

fork_fds-Counted_example :
    Counted (λ f. elsewhere f + holds f two_slots) (two_slots, fork_fds two_slots shared_store)
fork_fds-Counted_example =
    fork_fds-Counted elsewhere two_slots two_slots shared_store (λ f. omega arith) shared-Counted

-- The slot 15 alone is free.
abbrev full_slots : List (Option ℕ)
full_slots = some 7 ∷ some 7 ∷ replicate 13 (some 7) ++ (none ∷ [])

abbrev full_store : Store
full_store = record shared_store {
  files = λ f. if f == 7 then some (record shared_file { ref_count = 15 }) else none;
}

full-Counted : Counted (λ f. 0) (full_slots, full_store)
unfolding Counted
full-Counted = λ f. elim (Bool-cases (f == 7)) [
  | inl here ↦ let at : f ≡ 7 = ground arith in rw at (omega arith)
  | inr there ↦ rw there (ground arith)
]

full-Fresh : Fresh full_store
full-Fresh = λ f h. let above : (f == 7) ≡ false = ground arith in rw above refl

sys_pipe_leak_example :
    Leaked full_slots full_store (sys_pipe (replicate 4096 0) (full_slots, full_store)).0
unfolding sys_pipe pipe_first alloc_fd alloc_from pipe_second
sys_pipe_leak_example =
    sys_pipe_leak (λ f. 0) (replicate 4096 0) full_slots full_store refl full-Fresh full-Counted
      refl

shared-Ready : Ready elsewhere (two_slots, shared_store)
shared-Ready = record { slots = refl; fresh = shared-Fresh; counted = shared-Counted }

run_all-Ready_example :
    Ready elsewhere (run_all (dup 1 ∷ dup2 0 9 ∷ close 3 ∷ []) (two_slots, shared_store))
run_all-Ready_example =
    run_all-Ready elsewhere (dup 1 ∷ dup2 0 9 ∷ close 3 ∷ []) (two_slots, shared_store) shared-Ready
      (tt, (refl, (tt, tt)))
