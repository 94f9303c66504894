-- ===== src/Sys/Leak.antt =====
-- What `sys_pipe` of src/syscall.c leaves where it fails.
use lite_bsd.Prelude.{
  ℕ, ◌+◌, ◌≡◌, refl, ap, ◌∙◌, true, false, Option, none, some, List, leb, ◌==◌, if◌then◌else◌,
  arith, set, length,
}
use lite_bsd.Sched.Slots.{slot, alloc_fd-Allocs, Allocs, set_back}
use lite_bsd.Sys.Pipe.{new_pipe}
use lite_bsd.Sched.File.{
  Pipe, less_end, drop_pipe, close_pipe, drop_file, Store, drop_slot, release_fd, alloc_fd,
}
use lite_bsd.Sys.Descriptor.{
  Slots, Ends, ends, no_ends, pipe_file, make_pipe, pipe_first, pipe_second, sys_pipe,
}
use lite_bsd.Sys.Count.{one_less, holds, Counted, drop_file-files}
use lite_bsd.Sys.Make.{Fresh, Fresh-count, slot-set_self}

drop_slot-files_ne :
    (f g : ℕ) (st : Store) → (g == f) ≡ false → (drop_slot (some f) st).files g ≡ st.files g
unfolding drop_slot
drop_slot-files_ne f g st h =
    drop_file-files f g (st.files f) st refl
    ∙ ap (λ b. if b then one_less (st.files f) else st.files g) h

made-second :
    (buffer : List ℕ) (st : Store)
    → (make_pipe buffer st).files (st.next + 1)
      ≡ some (pipe_file st.next false (st.left_over (st.next + 1)))
unfolding make_pipe
made-second buffer st =
    let self : (st.next + 1 == st.next + 1) ≡ true = ground arith in rw self refl

made-pipe :
    (buffer : List ℕ) (st : Store) → (make_pipe buffer st).pipes st.next ≡ some (new_pipe buffer)
unfolding make_pipe
made-pipe buffer st = let self : (st.next == st.next) ≡ true = ground arith in rw self refl

-- Releasing the file of the read end leaves the pipe.
released-pipe :
    (buffer : List ℕ) (st : Store)
    → (drop_slot (some st.next) (make_pipe buffer st)).pipes st.next
      ≡ some (less_end true (new_pipe buffer))
unfolding drop_slot drop_file close_pipe drop_pipe make_pipe
released-pipe buffer st =
    let self : (st.next == st.next) ≡ true = ground arith in
    let apart : (st.next == st.next + 1) ≡ false = ground arith in
    rw (self, apart) (rw self (rw self refl))

-- The slots are as before and none holds the file of the write end, which has one reference, and the
-- pipe still has a writer.
abbrev pub Leaked : List (Option ℕ) → Store → Slots → Type 0
Leaked fds st (fds', st') =
    (fds' ≡ fds)
    × (holds (st.next + 1) fds' ≡ 0)
    × (st'.files (st.next + 1) ≡ some (pipe_file st.next false (st.left_over (st.next + 1))))
    × ((p : Pipe) × (st'.pipes st.next ≡ some p) × (p.write_ref ≡ 1))

abbrev Leaks : List (Option ℕ) → Store → Slots × Ends → Type 0
Leaks fds st (x, no_ends) = Leaked fds st x
Leaks fds st (x, ends r w) = Unit

released-Leaks :
    (buffer : List ℕ) (r : ℕ) (fds fds1 : List (Option ℕ)) (st : Store)
    (o : Option (ℕ × List (Option ℕ)))
    → length fds ≡ 16
    → holds (st.next + 1) fds ≡ 0
    → Allocs 13 3 st.next fds (some (r, fds1))
    → Leaks fds st (pipe_second r o (fds1, make_pipe buffer st))
unfolding pipe_second release_fd
released-Leaks buffer r fds fds1 st (some (w, fds2)) l free a = tt
released-Leaks buffer r fds fds1 st none l free a =
    let inside : leb 16 r ≡ false = ground (arith, a.1) in
    let here : slot fds1 r ≡ some st.next =
      ap (λ k. slot k r) a.4 ∙ slot-set_self fds r (some st.next) (omega (arith, a.1)) in
    let apart : (st.next + 1 == st.next) ≡ false = ground arith in
    let back : set fds1 r none ≡ fds = ap (λ k. set k r none) a.4 ∙ set_back fds r st.next a.2 in
    rw inside (
      back,
      ap (holds (st.next + 1)) back ∙ free,
      ap (λ o. (drop_slot o (make_pipe buffer st)).files (st.next + 1)) here
          ∙ drop_slot-files_ne st.next (st.next + 1) (make_pipe buffer st) apart
          ∙ made-second buffer st,
      (
        less_end true (new_pipe buffer),
        ap (λ o. (drop_slot o (make_pipe buffer st)).pipes st.next) here ∙ released-pipe buffer st,
        refl,
      ),
    )

first-Leaks :
    (buffer : List ℕ) (fds : List (Option ℕ)) (st : Store) (o : Option (ℕ × List (Option ℕ)))
    → length fds ≡ 16
    → holds (st.next + 1) fds ≡ 0
    → Allocs 13 3 st.next fds o
    → Leaks fds st (pipe_first st.next o (fds, make_pipe buffer st))
unfolding pipe_first
first-Leaks buffer fds st none l free a =
    (refl, free, made-second buffer st, (new_pipe buffer, made-pipe buffer st, refl))
first-Leaks buffer fds st (some (r, fds1)) l free a =
    released-Leaks buffer r fds fds1 st (alloc_fd (st.next + 1) fds1) l free a

failed-Leaked :
    (fds : List (Option ℕ)) (st : Store) (x : Slots) (e : Ends)
    → e ≡ no_ends
    → Leaks fds st (x, e)
    → Leaked fds st x
failed-Leaked fds st x no_ends h k = k
failed-Leaked fds st x (ends r w) h k = cc

-- Whenever `sys_pipe` of a task with 16 slots returns -1, with the reference counts equal to the
-- slots and the pointers from the next one on unused, the slots are as before and none holds the
-- file that it made for the write end; but this file stands in the store with one reference, and
-- the pipe with one writer.
pub sys_pipe_leak :
    (others : ℕ → ℕ) (buffer : List ℕ) (fds : List (Option ℕ)) (st : Store)
    → length fds ≡ 16
    → Fresh st
    → Counted others (fds, st)
    → (sys_pipe buffer (fds, st)).1 ≡ no_ends
    → Leaked fds st (sys_pipe buffer (fds, st)).0
unfolding sys_pipe
sys_pipe_leak others buffer fds st l fresh c e =
    let unheld : holds (st.next + 1) fds ≡ 0 =
      omega (arith, Fresh-count others (st.next + 1) fds st fresh (omega arith) c) in
    let x = sys_pipe buffer (fds, st) in
    failed-Leaked fds st x.0 x.1 e
      (first-Leaks buffer fds st (alloc_fd st.next fds) l unheld (alloc_fd-Allocs st.next fds))
