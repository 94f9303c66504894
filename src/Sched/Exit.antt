-- ===== src/Sched/Exit.antt =====
-- `task_exit` of src/sched.c.
use mathlib.Core.Option
use mathlib.Core.Path.{subst}
use lite_bsd.Prelude.{
  ℕ, ◌<◌, ◌≡◌, refl, sym, ap, ◌∙◌, inl, inr, true, false, ◌&&◌, ◌||◌, Option, none, some, List, [],
  ◌∷◌, map, ◌==◌, if◌then◌else◌, Bool-cases, arith,
}
use lite_bsd.Sched.{
  Task, running, zombie, Sched, is_zombie, is_blocked, find_task, change, is_child, has_child,
  unblock, task_unblock, adopt, release_from, exit_current, current_of, task_exit,
}
use lite_bsd.Sched.Ring.{find_task-change}
use lite_bsd.Sched.Slots.{slot, release_from-slot}

find_task-change_ne :
    (p q : ℕ) (f : Task → Task) (ts : List Task)
    → (p == q) ≡ false
    → ((t : Task) → (f t).pid ≡ t.pid)
    → find_task q (change p f ts) ≡ find_task q ts
unfolding find_task change
find_task-change_ne p q f [] e k = refl
find_task-change_ne p q f (t ∷ ts) e k = elim (Bool-cases (t.pid == p)) [
  | inl here ↦ let apart : (t.pid == q) ≡ false = ground arith in rw here (rw (k t) (rw apart refl))
  | inr there ↦
      rw there (ap (λ o. if t.pid == q then some t else o) (find_task-change_ne p q f ts e k))
]

find_task-unblock_ne :
    (p q : ℕ) (ts : List Task) → (p == q) ≡ false → find_task q (unblock p ts) ≡ find_task q ts
unfolding find_task unblock
find_task-unblock_ne p q [] e = refl
find_task-unblock_ne p q (t ∷ ts) e = elim (Bool-cases ((t.pid == p) && is_blocked t)) [
  | inl here ↦ let apart : (t.pid == q) ≡ false = ground arith in rw here (rw apart refl)
  | inr there ↦
      rw there (ap (λ o. if t.pid == q then some t else o) (find_task-unblock_ne p q ts e))
]

abbrev wake : Task → Task
wake t = record t { state = running }

find_task-unblock :
    (p : ℕ) (t : Task) (ts : List Task)
    → find_task p ts ≡ some t
    → is_blocked t ≡ true
    → find_task p (unblock p ts) ≡ some (record t { state = running })
unfolding find_task unblock
find_task-unblock p t [] f b = cc
find_task-unblock p t (u ∷ ts) f b = elim (Bool-cases (u.pid == p)) [
  | inl here ↦
      let same : u ≡ t = some_inj (rw here at f) in
      let sleeps : is_blocked u ≡ true = ap is_blocked same ∙ b in
      rw here (rw sleeps (rw here (ap (λ (v : Task). Option.some (wake v)) same)))
  | inr there ↦ rw there (rw there (find_task-unblock p t ts (rw there at f) b))
]
  where
    some_inj : {a c : Task} → Option.some a ≡ some c → a ≡ c
    some_inj h = cc

find_task-adopt :
    (pid ppid q : ℕ) (ts : List Task)
    → find_task q (map (adopt pid ppid) ts) ≡ Option.map (adopt pid ppid) (find_task q ts)
unfolding find_task
find_task-adopt pid ppid q [] = refl
find_task-adopt pid ppid q (t ∷ ts) = elim (Bool-cases (t.pid == q)) [
  | inl hit ↦ rw hit refl
  | inr miss ↦ rw miss (find_task-adopt pid ppid q ts)
]

has_child-adopt :
    (pid ppid q : ℕ) (ts : List Task)
    → (ppid == pid) ≡ false
    → has_child pid q (map (adopt pid ppid) ts) ≡ false
unfolding has_child
has_child-adopt pid ppid q [] e = refl
has_child-adopt pid ppid q (t ∷ ts) e = elim (Bool-cases (t.ppid == pid)) [
  | inl child ↦ rw child (rw e (has_child-adopt pid ppid q ts e))
  | inr other ↦ rw other (rw other (has_child-adopt pid ppid q ts e))
]

has_child-change :
    (pid q p : ℕ) (f : Task → Task) (ts : List Task)
    → ((t : Task) → is_child pid q (f t) ≡ is_child pid q t)
    → has_child pid q (change p f ts) ≡ has_child pid q ts
unfolding has_child change
has_child-change pid q p f [] k = refl
has_child-change pid q p f (t ∷ ts) k = elim (Bool-cases (t.pid == p)) [
  | inl here ↦ rw here (ap (λ b. b || has_child pid q ts) (k t))
  | inr there ↦ rw there (ap (λ b. is_child pid q t || b) (has_child-change pid q p f ts k))
]

-- What `task_exit` leaves of the task `t`: a zombie with the status and without descriptors or
-- children.
pub record Exited (t : Task) (status : ℕ) (s s' : Sched) : Type 0 where
  pub left : Task
  pub found : find_task t.pid s'.tasks ≡ some left
  pub dead : is_zombie left ≡ true
  pub code : left.exit_code ≡ status
  pub closed : (i : ℕ) → i < 16 → slot left.fds i ≡ none
  pub orphans : (q : ℕ) → has_child t.pid q s'.tasks ≡ false
  pub current : s'.current ≡ s.current

abbrev dying : ℕ → Task → Task
dying status t = record t { state = zombie; exit_code = status }

dead_found :
    (status : ℕ) (t : Task) (ts : List Task)
    → find_task t.pid ts ≡ some t
    → (t.ppid == t.pid) ≡ false
    → find_task t.pid (task_unblock t.ppid (change t.pid (dying status) ts)) ≡ some (dying status t)
unfolding task_unblock
dead_found status t ts f e =
    let died : find_task t.pid (change t.pid (dying status) ts) ≡ some (dying status t) =
      find_task-change t.pid (dying status) ts (λ u. refl) ∙ ap (Option.map (dying status)) f in
    elim (Bool-cases (t.ppid == 0)) [
      | inl init ↦ rw init died
      | inr child ↦
          rw child (find_task-unblock_ne t.ppid t.pid (change t.pid (dying status) ts) e ∙ died)
    ]

exit_current-Exited :
    (status : ℕ) (t : Task) (s : Sched)
    → find_task t.pid s.tasks ≡ some t
    → (t.ppid == t.pid) ≡ false
    → Exited t status s (exit_current status (some t) s)
unfolding exit_current
exit_current-Exited status t s f e =
    let woken = task_unblock t.ppid (change t.pid (dying status) s.tasks) in
    let orphans = map (adopt t.pid t.ppid) woken in
    let fds = (release_from 16 0 (t.fds, s.store)).0 in
    let close = λ (u : Task). record u { fds = fds } in
    record {
      left = close (adopt t.pid t.ppid (dying status t));
      found =
          find_task-change t.pid close orphans (λ u. refl)
          ∙ ap (Option.map close) (
              find_task-adopt t.pid t.ppid t.pid woken
              ∙ ap (Option.map (adopt t.pid t.ppid)) (dead_found status t s.tasks f e));
      dead = refl;
      code = refl;
      closed = λ i h.
          release_from-slot 16 0 i (t.fds, s.store) (omega arith) h (λ n. absurd (omega arith));
      orphans = λ q.
          has_child-change t.pid q t.pid close orphans (λ u. refl)
          ∙ has_child-adopt t.pid t.ppid q woken e;
      current = refl;
    }

-- `task_exit` of a current task that is not its own parent leaves it a zombie with the exit status
-- and no open descriptor, still the current task; no task of the list has it as its parent any more.
pub task_exit-Exited :
    (status : ℕ) (t : Task) (s : Sched)
    → s.current ≡ some t.pid
    → find_task t.pid s.tasks ≡ some t
    → (t.ppid == t.pid) ≡ false
    → Exited t status s (task_exit status s)
unfolding task_exit
task_exit-Exited status t s c f e =
    subst (λ o. Exited t status s (exit_current status o s))
      (sym (ap (λ o. current_of o s.tasks) c ∙ f)) (exit_current-Exited status t s f e)

-- `task_unblock` of a task that the search finds blocked lets it run.
pub task_unblock-find_task :
    (t : Task) (ts : List Task)
    → find_task t.pid ts ≡ some t
    → is_blocked t ≡ true
    → (t.pid == 0) ≡ false
    → find_task t.pid (task_unblock t.pid ts) ≡ some (record t { state = running })
unfolding task_unblock
task_unblock-find_task t ts f b e = rw e (find_task-unblock t.pid t ts f b)
