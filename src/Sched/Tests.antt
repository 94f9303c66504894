-- ===== src/Sched/Tests.antt =====
-- The scheduler of src/sched.c on a small list of tasks, and the theorems at it.
use lite_bsd.Prelude.{ℕ, ◌+◌, ◌-◌, ◌^◌, ◌≡◌, refl, true, none, some, [], ◌∷◌, replicate, set}
use lite_bsd.Sched.{
  Task, TaskState, running, zombie, blocked, Sched, schedule, find_task, wait4, reaped, schedule_as,
  pick, first_running, rotation, change, find_zombie, task_exit,
}
use lite_bsd.Sched.File.{Store, alloc_fd, release_fd}
use lite_bsd.Sched.Turn.{Resumed, schedule-Resumed}
use lite_bsd.Sched.Robin.{Turned, schedule-Turned}
use lite_bsd.Sched.Wait.{Returns, wait4-Returns}
use lite_bsd.Sched.Slots.{Allocs, alloc_fd-Allocs, release_fd-alloc_fd}
use lite_bsd.Sched.Exit.{Exited, task_exit-Exited}

abbrev task : ℕ → ℕ → TaskState → Task
task pid ppid state = record {
  pid = pid;
  ppid = ppid;
  frame = 0x500000 + pid;
  state = state;
  exit_code = 3;
  cpu_ticks = 0;
  fds = some 7 ∷ replicate 15 none;
}

-- One open file that two descriptors share.
abbrev store : Store
store = record {
  files = λ f. some (record {
    node = some (0x2f ∷ []);
    offset = 0;
    flags = 0;
    ref_count = 2;
    pipe = none;
    read_end = true;
    sock = none;
  });
  pipes = λ p. none;
  closed_nodes = [];
  closed_socks = [];
  next = 100;
  left_over = λ f. none;
}

abbrev family : Sched
family = record {
  tasks = task 1 0 blocked ∷ task 2 1 running ∷ task 3 2 zombie ∷ task 4 1 running ∷ [];
  current = some 2;
  next_pid = 5;
  idle_ticks = 0;
  store = store;
}

-- The turn passes over the zombie, and on from the last task to the first.
schedule_goes_on : (schedule 9 family).0.current ≡ some 4
unfolding schedule schedule_as pick first_running rotation change
schedule_goes_on = refl

schedule-Resumed_example : Resumed (schedule 9 family)
schedule-Resumed_example = schedule-Resumed 9 2 family refl refl

wait4-Returns_example : Returns 2 (2 ^ 32 - 1) 0 family (wait4 2 (2 ^ 32 - 1) 0 family)
unfolding find_task
wait4-Returns_example = wait4-Returns 2 (2 ^ 32 - 1) 0 family (refl, (refl, (refl, (refl, tt))))

wait4_status : (wait4 2 3 0 family).1 ≡ reaped 3 0x300
unfolding wait4 find_zombie
wait4_status = refl

task_exit-Exited_example : Exited (task 2 1 running) 5 family (task_exit 5 family)
unfolding find_task
task_exit-Exited_example = task_exit-Exited 5 (task 2 1 running) family refl refl refl

release_fd-alloc_fd_example :
    (release_fd 3 (set (some 7 ∷ replicate 15 none) 3 (some 8), store)).0
    ≡ some 7 ∷ replicate 15 none
unfolding alloc_fd
release_fd-alloc_fd_example =
    release_fd-alloc_fd 8 3 (some 7 ∷ replicate 15 none)
      (set (some 7 ∷ replicate 15 none) 3 (some 8)) store refl

alloc_fd-Allocs_example : Allocs 13 3 8 (replicate 16 none) (alloc_fd 8 (replicate 16 none))
alloc_fd-Allocs_example = alloc_fd-Allocs 8 (replicate 16 none)

schedule-Turned_example :
    Turned 9
      (task 1 0 blocked ∷ [])
      (task 3 2 zombie ∷ task 4 1 running ∷ [])
      (task 2 1 running)
      (task 4 1 running)
      (schedule 9 family)
unfolding find_task
schedule-Turned_example =
    schedule-Turned 9 (task 1 0 blocked ∷ []) (task 3 2 zombie ∷ task 4 1 running ∷ [])
      (task 3 2 zombie ∷ []) (task 1 0 blocked ∷ []) (task 2 1 running) (task 4 1 running) family
      refl refl refl refl refl refl
