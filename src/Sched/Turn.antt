-- ===== src/Sched/Turn.antt =====
-- `schedule` of src/sched.c gives the processor to a task that can run.
use lite_bsd.Prelude.{
  ℕ, ◌≡◌, refl, sym, ◌∙◌, ◌⊎◌, inl, inr, true, false, some, List, [], ◌∷◌, length, ◌==◌, arith,
}
use mathlib.Core.Path.{subst}
use lite_bsd.Sched.{Task, Sched, is_running, change, rotation, pick, switch, schedule_as, schedule}
use lite_bsd.Sched.Ring.{
  false-true, Among, has_running, has_running-rotation, Among-rotation, first_running-lem,
  has_running-change,
}

-- A running task of the list is the current one, and its saved frame is the one returned.
pub record Resumed (x : Sched × ℕ) : Type 0 where
  pub task : Task
  pub current : x.0.current ≡ some task.pid
  pub frame : x.1 ≡ task.frame
  pub runs : is_running task ≡ true
  pub among : Among task x.0.tasks

only_tasks : (u : Task) (ts : List Task) → Among u [] ⊎ Among u ts → Among u ts
only_tasks u ts (inl h) = absurd h
only_tasks u ts (inr h) = h

switch-Resumed :
    (pid : ℕ) (s : Sched) (frame : ℕ) (ts : List Task)
    → has_running ts ≡ true
    → Resumed (switch pid s frame ts)
unfolding switch pick
switch-Resumed pid s frame ts h =
    let (u, e, r, a) =
      first_running-lem (rotation pid [] ts) (has_running-rotation pid [] ts ∙ h) in
    rw e (record {
      task = u;
      current = refl;
      frame = refl;
      runs = r;
      among = only_tasks u ts (Among-rotation u pid [] ts a);
    })

not_empty : (ts : List Task) → has_running ts ≡ true → (length ts == 0) ≡ false
not_empty [] h = absurd (false-true h)
not_empty (t ∷ ts) h = ground arith

schedule_as-Resumed :
    (frame pid : ℕ) (s : Sched)
    → has_running s.tasks ≡ true
    → Resumed (schedule_as (some pid) frame s)
unfolding schedule_as
schedule_as-Resumed frame pid s h =
    switch-Resumed pid s frame (change pid (λ t. record t { frame = frame }) s.tasks)
      (has_running-change pid (λ t. record t { frame = frame }) s.tasks (λ t. refl) ∙ h)

-- Where some task is RUNNING, `schedule` from a current task makes a RUNNING task of the list the
-- current one and returns the frame that it was interrupted with.
pub schedule-Resumed :
    (frame pid : ℕ) (s : Sched)
    → s.current ≡ some pid
    → has_running s.tasks ≡ true
    → Resumed (schedule frame s)
unfolding schedule
schedule-Resumed frame pid s c h =
    rw (not_empty s.tasks h)
      (subst (λ o. Resumed (schedule_as o frame s)) (sym c) (schedule_as-Resumed frame pid s h))
