-- ===== src/Sched/File.antt =====
-- Open files and pipes of src/sched.c: `struct file`, `struct pipe`, `alloc_fd` and `release_fd`.
-- The calls of `vfs_close` and `sock_close` that `release_fd` makes are recorded in order.
use lite_bsd.Prelude.{
  ℕ, zero, suc, ◌+◌, ◌-◌, Bool, true, false, ◌&&◌, Option, none, some, List, ◌∷◌, leb, ◌==◌,
  if◌then◌else◌, get_or, set,
}

-- A node is named by its path; `read_end` is `pipe_end == 0`.
pub record File : Type 0 where
  pub node : Option (List ℕ)
  pub offset : ℕ
  pub flags : ℕ
  pub ref_count : ℕ
  pub pipe : Option ℕ
  pub read_end : Bool
  pub sock : Option ℕ

pub record Pipe : Type 0 where
  pub buffer : List ℕ
  pub size : ℕ
  pub read_pos : ℕ
  pub write_pos : ℕ
  pub count : ℕ
  pub read_ref : ℕ
  pub write_ref : ℕ
  pub nonblocking : Bool

-- What lies behind the pointers to files and pipes, `none` once it is freed. From `next` on the
-- pointers are unused; `left_over` is what the word of `sock` holds in the memory of a new file.
pub record Store : Type 0 where
  pub files : ℕ → Option File
  pub pipes : ℕ → Option Pipe
  pub closed_nodes : List (List ℕ)
  pub closed_socks : List ℕ
  pub next : ℕ
  pub left_over : ℕ → Option ℕ

abbrev pub set_file : ℕ → Option File → Store → Store
set_file f v st = record st { files = λ g. if g == f then v else st.files g }

abbrev pub set_pipe : ℕ → Option Pipe → Store → Store
set_pipe p v st = record st { pipes = λ q. if q == p then v else st.pipes q }

-- One end less; the pipe is freed with its last end.
abbrev pub less_end : Bool → Pipe → Pipe
less_end true p = record p { read_ref = p.read_ref - 1 }
less_end false p = record p { write_ref = p.write_ref - 1 }

unfoldable pub drop_pipe : ℕ → Bool → Option Pipe → Store → Store
drop_pipe p read_end none st = st
drop_pipe p read_end (some v) st =
    let left = less_end read_end v in
    if (left.read_ref == 0) && (left.write_ref == 0)
    then set_pipe p none st
    else set_pipe p (some left) st

unfoldable pub close_node : Option (List ℕ) → Store → Store
close_node none st = st
close_node (some path) st = record st { closed_nodes = path ∷ st.closed_nodes }

unfoldable pub close_sock : Option ℕ → Option (List ℕ) → Store → Store
unfolding close_node
close_sock none path st = close_node path st
close_sock (some s) path st = record st { closed_socks = s ∷ st.closed_socks }

unfoldable pub close_pipe : Option ℕ → File → Store → Store
unfolding drop_pipe close_sock
close_pipe none f st = close_sock f.sock f.node st
close_pipe (some p) f st = drop_pipe p f.read_end (st.pipes p) st

unfoldable pub drop_file : ℕ → Option File → Store → Store
unfolding close_pipe
drop_file f none st = st
drop_file f (some v) st =
    if leb v.ref_count 1
    then set_file f none (close_pipe v.pipe v st)
    else set_file f (some (record v { ref_count = v.ref_count - 1 })) st

unfoldable pub drop_slot : Option ℕ → Store → Store
unfolding drop_file
drop_slot none st = st
drop_slot (some f) st = drop_file f (st.files f) st

-- `release_fd`, with the slots of the task and the store.
unfoldable pub release_fd : ℕ → List (Option ℕ) × Store → List (Option ℕ) × Store
unfolding drop_slot
release_fd fd (fds, st) =
    if leb 16 fd then (fds, st) else (set fds fd none, drop_slot (get_or fds fd none) st)

-- `for (int i = 3; i < MAX_FDS; i++) if (!task->fds[i]) ...`, with `k` slots left to look at.
abbrev pub is_free : Option ℕ → Bool
is_free none = true
is_free (some f) = false

unfoldable pub alloc_from : ℕ → ℕ → ℕ → List (Option ℕ) → Option (ℕ × List (Option ℕ))
alloc_from zero i f fds = none
alloc_from (suc k) i f fds =
    let rest = alloc_from k (i + 1) f fds in
    if is_free (get_or fds i none) then some (i, set fds i (some f)) else rest

unfoldable pub alloc_fd : ℕ → List (Option ℕ) → Option (ℕ × List (Option ℕ))
unfolding alloc_from
alloc_fd f fds = alloc_from 13 3 f fds
