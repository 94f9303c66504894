-- ===== src/Sched.antt =====
-- The scheduler, src/sched.c. The circular list of tasks is the list of tasks from
-- `ready_queue->next` on, so that `ready_queue` is its last one; a pointer to a task is its pid.
-- `File` has the open files and their slots in a task. What `task_exit` and `wait4` do to stacks and
-- to the memory image of a task is left out.
use mathlib.Core.Option
use lite_bsd.Prelude.{
  ℕ, zero, suc, ◌+◌, ◌-◌, ◌*◌, ◌%◌, ◌^◌, Bool, true, false, ◌&&◌, ◌||◌, not, Option, none, some,
  List, [], ◌∷◌, ◌++◌, map, ◌==◌, if◌then◌else◌, length, replicate, add32, bit_and,
}
pub mod File
pub mod Ring
pub mod Turn
pub mod Robin
pub mod Wait
pub mod Slots
pub mod Exit
mod Tests
use File.{Store, release_fd}

pub data TaskState : Type 0 where
  running zombie blocked : TaskState

-- `frame` is the saved `struct interrupt_frame *`.
pub record Task : Type 0 where
  pub pid : ℕ
  pub ppid : ℕ
  pub frame : ℕ
  pub state : TaskState
  pub exit_code : ℕ
  pub cpu_ticks : ℕ
  pub fds : List (Option ℕ)

pub record Sched : Type 0 where
  pub tasks : List Task
  pub current : Option ℕ
  pub next_pid : ℕ
  pub idle_ticks : ℕ
  pub store : Store

abbrev pub is_running : Task → Bool
is_running t = elim t.state [ running ↦ true | _ ↦ false ]

abbrev pub is_zombie : Task → Bool
is_zombie t = elim t.state [ zombie ↦ true | _ ↦ false ]

abbrev pub is_blocked : Task → Bool
is_blocked t = elim t.state [ blocked ↦ true | _ ↦ false ]

-- `find_task`
unfoldable pub find_task : ℕ → List Task → Option Task
find_task pid [] = none
find_task pid (t ∷ ts) = if t.pid == pid then some t else find_task pid ts

-- A write through a pointer to a task.
unfoldable pub change : ℕ → (Task → Task) → List Task → List Task
change pid f [] = []
change pid f (t ∷ ts) = if t.pid == pid then f t ∷ ts else t ∷ change pid f ts

-- `add_task`: the new task is the last one.
unfoldable pub add_task : Task → List Task → List Task
add_task t ts = ts ++ (t ∷ [])

unfoldable pub remove_task : ℕ → List Task → List Task
remove_task pid [] = []
remove_task pid (t ∷ ts) = if t.pid == pid then ts else t ∷ remove_task pid ts

-- The tasks in the order of their `next` pointers, from the one behind `pid` round to `pid`.
-- `seen` are those already passed.
unfoldable pub rotation : ℕ → List Task → List Task → List Task
rotation pid seen [] = seen
rotation pid seen (t ∷ ts) =
    if t.pid == pid then ts ++ (seen ++ (t ∷ [])) else rotation pid (seen ++ (t ∷ [])) ts

-- `do { if (next->state == TASK_RUNNING) break; ... } while (next != start);`
unfoldable pub first_running : List Task → Option Task
first_running [] = none
first_running (t ∷ ts) = if is_running t then some t else first_running ts

abbrev pub head : List Task → Option Task
head [] = none
head (t ∷ ts) = some t

-- The loop has come round to its start: the current task stays if it is running.
unfoldable pub stay : Option Task → List Task → Option Task
stay none ring = head ring
stay (some t) ring = if is_running t then some t else head ring

unfoldable pub pick : Option Task → Option Task → List Task → Option Task
unfolding stay
pick (some t) now ring = some t
pick none now ring = stay now ring

abbrev pub resume : Sched → ℕ → Option Task → Sched × ℕ
resume s frame none = (s, frame)
resume s frame (some t) = (record s { current = some t.pid }, t.frame)

unfoldable pub switch : ℕ → Sched → ℕ → List Task → Sched × ℕ
switch pid s frame ts =
    let ring = rotation pid [] ts in
    resume (record s { tasks = ts }) frame (pick (first_running ring) (find_task pid ts) ring)

-- `schedule`: the saved state and the frame that the interrupt returns to.
unfoldable pub schedule_as : Option ℕ → ℕ → Sched → Sched × ℕ
unfolding switch
schedule_as none frame s = resume s frame (head s.tasks)
schedule_as (some pid) frame s =
    switch pid s frame (change pid (λ t. record t { frame = frame }) s.tasks)

unfoldable pub schedule : ℕ → Sched → Sched × ℕ
schedule frame s = if length s.tasks == 0 then (s, frame) else schedule_as s.current frame s

-- `sched_account_tick`
unfoldable pub charge : Option ℕ → Option Task → Sched → Sched
charge (some pid) (some t) s =
    if is_running t
    then record s { tasks = change pid (λ u. record u { cpu_ticks = add32 u.cpu_ticks 1 }) s.tasks }
    else record s { idle_ticks = add32 s.idle_ticks 1 }
charge (some pid) none s = record s { idle_ticks = add32 s.idle_ticks 1 }
charge none t s = record s { idle_ticks = add32 s.idle_ticks 1 }

abbrev pub current_of : Option ℕ → List Task → Option Task
current_of none ts = none
current_of (some pid) ts = find_task pid ts

unfoldable pub sched_account_tick : Sched → Sched
unfolding charge
sched_account_tick s = charge s.current (current_of s.current s.tasks) s

-- `scheduler_other_running_tasks`
unfoldable pub count_others : Option ℕ → List Task → ℕ
count_others current [] = 0
count_others current (t ∷ ts) =
    let rest = count_others current ts in
    if not (elim current [ none ↦ false | some pid ↦ t.pid == pid ]) && is_running t
    then suc rest
    else rest

unfoldable pub scheduler_other_running_tasks : Sched → ℕ
unfolding count_others
scheduler_other_running_tasks s = count_others s.current s.tasks

-- The loop of `task_unblock` and of `unblock_parent_of`.
unfoldable pub unblock : ℕ → List Task → List Task
unblock pid [] = []
unblock pid (t ∷ ts) =
    if (t.pid == pid) && is_blocked t then record t { state = running } ∷ ts else t ∷ unblock pid ts

unfoldable pub task_unblock : ℕ → List Task → List Task
unfolding unblock
task_unblock pid ts = if pid == 0 then ts else unblock pid ts

-- The test of `wait4` on a child; the pid -1 stands for every child.
abbrev pub is_child : ℕ → ℕ → Task → Bool
is_child parent pid t = (t.ppid == parent) && ((pid == (2 ^ 32 - 1)) || (pid == t.pid))

unfoldable pub find_zombie : ℕ → ℕ → List Task → Option Task
find_zombie parent pid [] = none
find_zombie parent pid (t ∷ ts) =
    if is_child parent pid t && is_zombie t then some t else find_zombie parent pid ts

unfoldable pub has_child : ℕ → ℕ → List Task → Bool
has_child parent pid [] = false
has_child parent pid (t ∷ ts) = is_child parent pid t || has_child parent pid ts

-- What `wait4` returns: -1, the pid of a child with the status stored, 0 or -2.
pub data Waited : Type 0 where
  no_child : Waited
  reaped : ℕ → ℕ → Waited
  not_yet : Waited
  must_block : Waited

-- WNOHANG
abbrev pub wnohang : ℕ → Bool
wnohang options = not (bit_and options 1 == 0)

unfoldable pub reap : ℕ → ℕ → ℕ → Option Task → Sched → Sched × Waited
unfolding has_child
reap parent pid options (some t) s =
    (record s { tasks = remove_task t.pid s.tasks }, reaped t.pid (t.exit_code % 2 ^ 8 * 2 ^ 8))
reap parent pid options none s =
    if not (has_child parent pid s.tasks)
    then (s, no_child)
    else if wnohang options
    then (s, not_yet)
    else (s, must_block)

-- `wait4` of the task `parent`, the current one.
unfoldable pub wait4 : ℕ → ℕ → ℕ → Sched → Sched × Waited
unfolding reap
wait4 parent pid options s = reap parent pid options (find_zombie parent pid s.tasks) s

-- `if (t->ppid == current_task->pid) t->ppid = current_task->ppid;`
abbrev pub adopt : ℕ → ℕ → Task → Task
adopt pid ppid t = record t { ppid = if t.ppid == pid then ppid else t.ppid }

-- `for (int i = 0; i < MAX_FDS; i++) if (current_task->fds[i]) release_fd(current_task, i);`
unfoldable pub release_from : ℕ → ℕ → List (Option ℕ) × Store → List (Option ℕ) × Store
release_from zero i x = x
release_from (suc k) i x = release_from k (i + 1) (release_fd i x)

-- `task_exit` of the current task, which `exit_current` has found.
unfoldable pub exit_current : ℕ → Option Task → Sched → Sched
unfolding release_from
exit_current status none s = s
exit_current status (some t) s =
    let died = change t.pid (λ u. record u { state = zombie; exit_code = status }) s.tasks in
    let orphans = map (adopt t.pid t.ppid) (task_unblock t.ppid died) in
    let (fds, store) = release_from 16 0 (t.fds, s.store) in
    record s { tasks = change t.pid (λ u. record u { fds = fds }) orphans; store = store }

unfoldable pub task_exit : ℕ → Sched → Sched
unfolding exit_current
task_exit status s = exit_current status (current_of s.current s.tasks) s
