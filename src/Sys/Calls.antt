-- ===== src/Sys/Calls.antt =====
-- Sequences of the calls of src/syscall.c that work on the descriptors of a task.
use mathlib.Core.Path.{subst}
use lite_bsd.Prelude.{
  ℕ, ◌+◌, ◌≤◌, ◌≡◌, ◌≢◌, refl, sym, ap, ◌∙◌, inl, inr, false, Option, none, some, List, [], ◌∷◌,
  leb, ◌==◌, Bool-cases, arith, length, length-set,
}
use lite_bsd.Sched.Slots.{alloc_fd-Allocs, Allocs}
use lite_bsd.Sched.File.{File, Store, alloc_fd}
use lite_bsd.Sys.Descriptor.{
  OpenNodes, Slots, Ends, ends, no_ends, sys_dup, sys_dup2, sys_close, slot_of, seek_file,
  seek_slot, sys_lseek, make_pipe, pipe_first, pipe_second, sys_pipe,
}
use lite_bsd.Sys.Count.{Counted, Sound, holds}
use lite_bsd.Sys.Refs.{sys_dup-Counted, sys_dup2-Counted, sys_close-Counted}
use lite_bsd.Sys.Quiet.{Quiet, sys_dup-Quiet, sys_dup2-Quiet, sys_close-Quiet}
use lite_bsd.Sys.Make.{Fresh, Piped, sys_pipe-Piped}

pub data Request : Type 0 where
  dup : ℕ → Request
  dup2 : ℕ → ℕ → Request
  close : ℕ → Request
  seek : OpenNodes → ℕ → ℕ → ℕ → Request
  make : List ℕ → Request

unfoldable pub run : Request → Slots → Slots
run (dup fd) x = (sys_dup fd x).0
run (dup2 old new) x = (sys_dup2 old new x).0
run (close fd) x = (sys_close fd x).0
run (seek fs fd offset whence) x = (sys_lseek fs fd offset whence x).0
run (make buffer) x = (sys_pipe buffer x).0

-- `dup2` of a descriptor to itself, and a pipe for which there are not two free slots, are left out.
abbrev pub Fair : Request → Slots → Type 0
Fair (dup fd) x = Unit
Fair (dup2 old new) x = (new == old) ≡ false
Fair (close fd) x = Unit
Fair (seek fs fd offset whence) x = Unit
Fair (make buffer) x = (sys_pipe buffer x).1 ≢ no_ends

unfoldable pub run_all : List Request → Slots → Slots
unfolding run
run_all [] x = x
run_all (r ∷ rs) x = run_all rs (run r x)

abbrev pub AllFair : List Request → Slots → Type 0
AllFair [] x = Unit
AllFair (r ∷ rs) x = Fair r x × AllFair rs (run r x)

-- The task has its 16 slots, the pointers from `next` on are unused, and every file is counted.
pub record Ready (others : ℕ → ℕ) (x : Slots) : Type 0 where
  pub slots : length x.0 ≡ 16
  pub fresh : Fresh x.1
  pub counted : Counted others x

-- Another offset leaves the counts as they are.
seek_file-Ready :
    (others : ℕ → ℕ) (fs : OpenNodes) (f offset whence : ℕ) (o : Option File) (x : Slots)
    → x.1.files f ≡ o
    → Ready others x
    → Ready others (seek_file fs f offset whence o x).0
unfolding seek_file Counted
seek_file-Ready others fs f offset whence none x e r = r
seek_file-Ready others fs f offset whence (some v) (fds, st) e r = record {
  slots = r.slots;
  fresh = λ g h. elim (Bool-cases (g == f)) [
    | inl same ↦
        let at : g ≡ f = ground arith in absurd (none_some (sym (r.fresh g h) ∙ ap st.files at ∙ e))
    | inr other ↦ rw other (r.fresh g h)
  ];
  counted = λ g. elim (Bool-cases (g == f)) [
    | inl same ↦
        let at : g ≡ f = ground arith in
        rw same (subst (λ o. Sound o (holds g fds + others g)) (ap st.files at ∙ e) (r.counted g))
    | inr other ↦ rw other (r.counted g)
  ];
}
  where
    none_some : {v : File} → Option.none ≡ some v → ⊥
    none_some h = cc

sys_lseek-Ready :
    (others : ℕ → ℕ) (fs : OpenNodes) (fd offset whence : ℕ) (x : Slots)
    → Ready others x
    → Ready others (sys_lseek fs fd offset whence x).0
unfolding sys_lseek
sys_lseek-Ready others fs fd offset whence x r = elim (Bool-cases (leb 16 fd)) [
  | inl beyond ↦ rw beyond r
  | inr inside ↦ rw inside (at (slot_of x fd) x r)
]
  where
    at :
        (o : Option ℕ) (x : Slots)
        → Ready others x
        → Ready others (seek_slot fs o offset whence x).0
    at none x r = r
    at (some f) (fds, st) r =
        seek_file-Ready others fs f offset whence (st.files f) (fds, st) refl r

-- A call whose files stay below `next` keeps all but the counts.
kept :
    (others : ℕ → ℕ) (x y : Slots) → Ready others x → Quiet x y → Counted others y → Ready others y
kept others x y r q c = record {
  slots = q.0 ∙ r.slots;
  fresh = λ f h. q.2 f (r.fresh f (subst (λ n. n ≤ f) q.1 h));
  counted = c;
}

-- Where `sys_pipe` succeeds, the two files come before the next pointer.
made-Fresh : (buffer : List ℕ) (st : Store) → Fresh st → Fresh (make_pipe buffer st)
unfolding make_pipe
made-Fresh buffer st fresh f h =
    let first : (f == st.next) ≡ false = ground arith in
    let second : (f == st.next + 1) ≡ false = ground arith in
    rw second (rw first (fresh f (omega (arith, h))))

-- The slots and the store where two descriptors are returned.
Whole : Slots × Ends → Type 0
Whole (x, no_ends) = Unit
Whole (x, ends r w) = (length x.0 ≡ 16) × Fresh x.1

pipe_second-Whole :
    (r f : ℕ) (fds : List (Option ℕ)) (st : Store) (o : Option (ℕ × List (Option ℕ)))
    → length fds ≡ 16
    → Fresh st
    → Allocs 13 3 f fds o
    → Whole (pipe_second r o (fds, st))
unfolding pipe_second Whole
pipe_second-Whole r f fds st none l fresh a = tt
pipe_second-Whole r f fds st (some (w, fds')) l fresh a =
    (ap length a.4 ∙ length-set fds w (some f) ∙ l, fresh)

pipe_first-Whole :
    (n : ℕ) (fds : List (Option ℕ)) (st : Store) (o : Option (ℕ × List (Option ℕ)))
    → length fds ≡ 16
    → Fresh st
    → Allocs 13 3 n fds o
    → Whole (pipe_first n o (fds, st))
unfolding pipe_first Whole
pipe_first-Whole n fds st none l fresh a = tt
pipe_first-Whole n fds st (some (r, fds')) l fresh a =
    pipe_second-Whole r (n + 1) fds' st (alloc_fd (n + 1) fds')
      (ap length a.4 ∙ length-set fds r (some n) ∙ l) fresh (alloc_fd-Allocs (n + 1) fds')

success :
    (others : ℕ → ℕ) (st : Store) (z : Slots × Ends)
    → z.1 ≢ no_ends
    → Whole z
    → Piped others st z
    → Ready others z.0
unfolding Whole
success others st (x, no_ends) some_ends w p = absurd (some_ends refl)
success others st (x, ends r w) some_ends l p = record { slots = l.0; fresh = l.1; counted = p.0 }

sys_pipe-Whole :
    (buffer : List ℕ) (fds : List (Option ℕ)) (st : Store)
    → length fds ≡ 16
    → Fresh st
    → Whole (sys_pipe buffer (fds, st))
unfolding sys_pipe
sys_pipe-Whole buffer fds st l fresh =
    pipe_first-Whole st.next fds (make_pipe buffer st) (alloc_fd st.next fds) l
      (made-Fresh buffer st fresh) (alloc_fd-Allocs st.next fds)

run-Ready :
    (others : ℕ → ℕ) (q : Request) (x : Slots) → Ready others x → Fair q x → Ready others (run q x)
unfolding run
run-Ready others (dup fd) (fds, st) r fair =
    kept others (fds, st) (sys_dup fd (fds, st)).0 r (sys_dup-Quiet fd (fds, st))
      (sys_dup-Counted others fd fds st r.slots r.counted)
run-Ready others (dup2 old new) (fds, st) r fair =
    kept others (fds, st) (sys_dup2 old new (fds, st)).0 r (sys_dup2-Quiet old new (fds, st))
      (sys_dup2-Counted others old new fds st r.slots fair r.counted)
run-Ready others (close fd) (fds, st) r fair =
    kept others (fds, st) (sys_close fd (fds, st)).0 r (sys_close-Quiet fd (fds, st))
      (sys_close-Counted others fd fds st r.slots r.counted)
run-Ready others (seek fs fd offset whence) x r fair =
    sys_lseek-Ready others fs fd offset whence x r
run-Ready others (make buffer) (fds, st) r fair =
    success others st (sys_pipe buffer (fds, st)) fair
      (sys_pipe-Whole buffer fds st r.slots r.fresh)
      (sys_pipe-Piped others buffer fds st r.slots r.fresh r.counted)

-- After any sequence of dup, dup2, close, lseek and pipe the task has its 16 slots, the pointers from
-- the next one on are unused, and every file has as many references as slots hold it; but for a dup2
-- of a descriptor to itself, and a pipe that is not made.
pub run_all-Ready :
    (others : ℕ → ℕ) (qs : List Request) (x : Slots)
    → Ready others x
    → AllFair qs x
    → Ready others (run_all qs x)
unfolding run_all
run_all-Ready others [] x r fair = r
run_all-Ready others (q ∷ qs) x r fair =
    run_all-Ready others qs (run q x) (run-Ready others q x r fair.0) fair.1
