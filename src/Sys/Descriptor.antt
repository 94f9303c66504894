-- ===== src/Sys/Descriptor.antt =====
-- The calls of src/syscall.c on the descriptors of the current task, and what `fork_task` of
-- src/sched.c does to them. The slots of the task and the store of files are passed on together.
use mathlib.Core.Option
use lite_bsd.Prelude.{
  ℕ, ◌+◌, Bool, true, false, ◌||◌, Option, none, some, List, [], ◌∷◌, leb, ◌==◌, if◌then◌else◌,
  get_or, set, add32,
}
use lite_bsd.Vfs.Node.{Node}
use lite_bsd.Vfs.Stat.{vfs_fstat}
use lite_bsd.Sched.File.{File, Store, set_file, set_pipe, is_free, release_fd, alloc_fd}
use lite_bsd.Sys.Pipe.{new_pipe}

abbrev pub Slots : Type 0
Slots = List (Option ℕ) × Store

-- What a call returns: a number, -1, or a number after a write through a NULL pointer.
pub data Reply : Type 0 where
  returned : ℕ → Reply
  failed : Reply
  null_write : ℕ → Reply

-- `f->ref_count++`
unfoldable pub more_ref : ℕ → Option File → Store → Store
more_ref f none st = st
more_ref f (some v) st = set_file f (some (record v { ref_count = v.ref_count + 1 })) st

unfoldable pub add_ref : ℕ → Store → Store
unfolding more_ref
add_ref f st = more_ref f (st.files f) st

unfoldable pub dup_at : ℕ → Slots → Option (ℕ × List (Option ℕ)) → Slots × Reply
dup_at f x none = (x, failed)
dup_at f (fds, st) (some (n, fds')) = ((fds', add_ref f st), returned n)

unfoldable pub dup_slot : Option ℕ → Slots → Slots × Reply
unfolding dup_at
dup_slot none x = (x, failed)
dup_slot (some f) (fds, st) = dup_at f (fds, st) (alloc_fd f fds)

unfoldable pub sys_dup : ℕ → Slots → Slots × Reply
unfolding dup_slot
sys_dup fd (fds, st) =
    if leb 16 fd then ((fds, st), failed) else dup_slot (get_or fds fd none) (fds, st)

-- `task->fds[newfd] = task->fds[oldfd]; task->fds[newfd]->ref_count++;`
unfoldable pub point_at : ℕ → Option ℕ → Slots → Slots × Reply
point_at new none (fds, st) = ((set fds new none, st), null_write new)
point_at new (some f) (fds, st) = ((set fds new (some f), add_ref f st), returned new)

abbrev pub slot_of : Slots → ℕ → Option ℕ
slot_of (fds, st) fd = get_or fds fd none

abbrev pub dup2_after : ℕ → ℕ → Slots → Slots × Reply
dup2_after old new x = point_at new (slot_of x old) x

unfoldable pub sys_dup2 : ℕ → ℕ → Slots → Slots × Reply
unfolding point_at
sys_dup2 old new x =
    if leb 16 old || is_free (slot_of x old)
    then (x, failed)
    else if leb 16 new
    then (x, failed)
    else if is_free (slot_of x new)
    then dup2_after old new x
    else dup2_after old new (release_fd new x)

unfoldable pub sys_close : ℕ → Slots → Slots × Reply
sys_close fd x =
    if leb 16 fd || is_free (slot_of x fd) then (x, failed) else (release_fd fd x, returned 0)

-- What `vfs_fstat` of the node behind a file sees: the size of the frame buffer, 0 where it is not
-- active, and the node, of the tree or generated, by its path.
pub record OpenNodes : Type 0 where
  pub fb_size : ℕ
  pub node_at : List ℕ → Option Node

-- `f->offset = ...` for the three values of `whence`; other values change nothing. The size is
-- `st_size` of `vfs_fstat`, if the file has a node.
abbrev pub size_at : OpenNodes → Option (List ℕ) → Option ℕ
size_at fs none = none
size_at fs (some path) = Option.map (λ n. (vfs_fstat fs.fb_size n).size) (fs.node_at path)

abbrev pub seek_end : ℕ → ℕ → Option ℕ → ℕ
seek_end here offset none = here
seek_end here offset (some size) = add32 size offset

unfoldable pub new_offset : OpenNodes → File → ℕ → ℕ → ℕ
new_offset fs v offset whence =
    if whence == 0
    then offset
    else if whence == 1
    then add32 v.offset offset
    else if whence == 2
    then seek_end v.offset offset (size_at fs v.node)
    else v.offset

unfoldable pub seek_file : OpenNodes → ℕ → ℕ → ℕ → Option File → Slots → Slots × Reply
unfolding new_offset
seek_file fs f offset whence none x = (x, failed)
seek_file fs f offset whence (some v) (fds, st) =
    let to = new_offset fs v offset whence in
    ((fds, set_file f (some (record v { offset = to })) st), returned to)

unfoldable pub seek_slot : OpenNodes → Option ℕ → ℕ → ℕ → Slots → Slots × Reply
unfolding seek_file
seek_slot fs none offset whence x = (x, failed)
seek_slot fs (some f) offset whence (fds, st) = seek_file fs f offset whence (st.files f) (fds, st)

unfoldable pub sys_lseek : OpenNodes → ℕ → ℕ → ℕ → Slots → Slots × Reply
unfolding seek_slot
sys_lseek fs fd offset whence x =
    if leb 16 fd then (x, failed) else seek_slot fs (slot_of x fd) offset whence x

-- A file of `sys_pipe`; the word of `sock` is not written.
abbrev pub pipe_file : ℕ → Bool → Option ℕ → File
pipe_file p read_end left_over = record {
  node = none;
  offset = 0;
  flags = 0;
  ref_count = 1;
  pipe = some p;
  read_end = read_end;
  sock = left_over;
}

-- The pipe and its two files, not yet in a slot; `buffer` is what its memory holds.
unfoldable pub make_pipe : List ℕ → Store → Store
make_pipe buffer st =
    let n = st.next in
    record (set_file (n + 1) (some (pipe_file n false (st.left_over (n + 1)))) (
      set_file n (some (pipe_file n true (st.left_over n)))
        (set_pipe n (some (new_pipe buffer)) st))) { next = n + 2 }

-- The two descriptors that `sys_pipe` stores for the caller.
pub data Ends : Type 0 where
  ends : ℕ → ℕ → Ends
  no_ends : Ends

unfoldable pub pipe_second : ℕ → Option (ℕ × List (Option ℕ)) → Slots → Slots × Ends
pipe_second r none x = (release_fd r x, no_ends)
pipe_second r (some (w, fds')) (fds, st) = ((fds', st), ends r w)

unfoldable pub pipe_first : ℕ → Option (ℕ × List (Option ℕ)) → Slots → Slots × Ends
unfolding pipe_second
pipe_first n none x = (x, no_ends)
pipe_first n (some (r, fds')) (fds, st) = pipe_second r (alloc_fd (n + 1) fds') (fds', st)

-- `sys_pipe`. Where the first `alloc_fd` finds no slot the second finds none either.
unfoldable pub sys_pipe : List ℕ → Slots → Slots × Ends
unfolding make_pipe pipe_first
sys_pipe buffer (fds, st) = pipe_first st.next (alloc_fd st.next fds) (fds, make_pipe buffer st)

-- `for (...) { task->fds[i] = current_task->fds[i]; if (task->fds[i]) task->fds[i]->ref_count++; }`
unfoldable pub fork_fds : List (Option ℕ) → Store → Store
fork_fds [] st = st
fork_fds (none ∷ fds) st = fork_fds fds st
fork_fds (some f ∷ fds) st = fork_fds fds (add_ref f st)
