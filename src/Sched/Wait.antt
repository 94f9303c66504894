-- ===== src/Sched/Wait.antt =====
-- `wait4` of src/sched.c on each of its four outcomes.
use lite_bsd.Prelude.{
  ℕ, ◌-◌, ◌*◌, ◌%◌, ◌^◌, ◌≡◌, refl, sym, ap, ◌∙◌, inl, inr, ◌⊎◌, Bool, true, false, ◌&&◌, Option,
  none, some, List, [], ◌∷◌, ◌==◌, if◌then◌else◌, Bool-cases, arith, bit_and,
}
use lite_bsd.Sched.{
  Task, TaskState, running, zombie, blocked, Sched, is_zombie, find_task, is_child, find_zombie,
  has_child, Waited, no_child, reaped, not_yet, must_block, wnohang, reap, wait4,
}
use lite_bsd.Sched.Ring.{Among, Distinct, find_task-remove_task}

-- A child that has exited and for which the parent waits.
abbrev ended : ℕ → ℕ → Task → Bool
ended parent pid t = is_child parent pid t && is_zombie t

-- What the search for an exited child says.
abbrev Search : ℕ → ℕ → List Task → Option Task → Type 0
Search parent pid ts none = (t : Task) → Among t ts → ended parent pid t ≡ false
Search parent pid ts (some t) = (ended parent pid t ≡ true) × Among t ts

abbrev Search-cons :
    (parent pid : ℕ) (t : Task) (ts : List Task) (o : Option Task)
    → ended parent pid t ≡ false
    → Search parent pid ts o
    → Search parent pid (t ∷ ts) o
Search-cons parent pid t ts none e s =
    λ u a. elim a [ inl same ↦ ap (ended parent pid) same ∙ e | inr later ↦ s u later ]
Search-cons parent pid t ts (some u) e s = (s.0, inr s.1)

find_zombie-Search :
    (parent pid : ℕ) (ts : List Task) → Search parent pid ts (find_zombie parent pid ts)
unfolding find_zombie
find_zombie-Search parent pid [] = λ t a. absurd a
find_zombie-Search parent pid (t ∷ ts) = elim (Bool-cases (ended parent pid t)) [
  | inl hit ↦ rw hit (hit, inl refl)
  | inr miss ↦ rw miss (
      Search-cons parent pid t ts (find_zombie parent pid ts) miss
        (find_zombie-Search parent pid ts))
]

-- The task is a child of the one with the pid `parent`, and `pid` is -1 or its pid.
abbrev pub Child : ℕ → ℕ → Task → Type 0
Child parent pid t = (t.ppid ≡ parent) × ((pid ≡ 2 ^ 32 - 1) ⊎ (pid ≡ t.pid))

is_child-Child : (parent pid : ℕ) (t : Task) → is_child parent pid t ≡ true → Child parent pid t
is_child-Child parent pid t h = (
  ground arith,
  elim (Bool-cases (pid == (2 ^ 32 - 1))) [
    | inl any ↦ inl (ground arith)
    | inr one ↦ inr (ground arith)
  ],
)

Child-is_child : (parent pid : ℕ) (t : Task) → Child parent pid t → is_child parent pid t ≡ true
Child-is_child parent pid t (p, inl any) = ground arith
Child-is_child parent pid t (p, inr one) = ground arith

state_is : (t : Task) (st : TaskState) → t.state ≡ st → is_zombie t ≡ true → t.state ≡ zombie
state_is t zombie e h = e
state_is t running e h = let no : false ≡ true = rw e at h in ground arith
state_is t blocked e h = let no : false ≡ true = rw e at h in ground arith

state_zombie : (t : Task) → is_zombie t ≡ true → t.state ≡ zombie
state_zombie t h = state_is t t.state refl h

zombie_state : (t : Task) → t.state ≡ zombie → is_zombie t ≡ true
zombie_state t e = rw e refl

has_child-none :
    (parent pid : ℕ) (t : Task) (ts : List Task)
    → has_child parent pid ts ≡ false
    → Among t ts
    → ¬ Child parent pid t
unfolding has_child
has_child-none parent pid t [] h a c = absurd a
has_child-none parent pid t (u ∷ ts) h (inl e) c =
    let hit : is_child parent pid u ≡ true =
      ap (is_child parent pid) (sym e) ∙ Child-is_child parent pid t c in
    ground arith
has_child-none parent pid t (u ∷ ts) h (inr later) c =
    has_child-none parent pid t ts (ground arith) later c

has_child-some :
    (parent pid : ℕ) (ts : List Task)
    → has_child parent pid ts ≡ true
    → (t : Task) × Among t ts × Child parent pid t
unfolding has_child
has_child-some parent pid [] h = ground arith
has_child-some parent pid (u ∷ ts) h = elim (Bool-cases (is_child parent pid u)) [
  | inl hit ↦ (u, inl refl, is_child-Child parent pid u hit)
  | inr miss ↦ let (t, later, c) = has_child-some parent pid ts (ground arith) in (t, inr later, c)
]

ended-none :
    (parent pid : ℕ) (ts : List Task)
    → Search parent pid ts none
    → (t : Task) → Among t ts
    → Child parent pid t
    → ¬ (t.state ≡ zombie)
ended-none parent pid ts f t a c z =
    let child = Child-is_child parent pid t c in
    let dead = zombie_state t z in let no = f t a in ground arith

-- What has to hold where `wait4` leaves `s'` and returns a value.
abbrev pub Returns : ℕ → ℕ → ℕ → Sched → Sched × Waited → Type 0
Returns parent pid options s (s', no_child) =
    (s' ≡ s) × ((t : Task) → Among t s.tasks → ¬ Child parent pid t)
Returns parent pid options s (s', not_yet) =
    (s' ≡ s)
    × ((t : Task) × Among t s.tasks × Child parent pid t)
    × ¬ (bit_and options 1 ≡ 0)
    × ((t : Task) → Among t s.tasks → Child parent pid t → ¬ (t.state ≡ zombie))
Returns parent pid options s (s', must_block) =
    (s' ≡ s)
    × ((t : Task) × Among t s.tasks × Child parent pid t)
    × (bit_and options 1 ≡ 0)
    × ((t : Task) → Among t s.tasks → Child parent pid t → ¬ (t.state ≡ zombie))
Returns parent pid options s (s', reaped p status) =
    (t : Task) × (Among t s.tasks)
    × Child parent pid t
    × (t.state ≡ zombie)
    × (p ≡ t.pid)
    × (status ≡ t.exit_code % 2 ^ 8 * 2 ^ 8)
    × (s' ≡ record s { tasks = s'.tasks })
    × ((q : ℕ) → find_task q s'.tasks ≡ (if p == q then none else find_task q s.tasks))

reap-Returns :
    (parent pid options : ℕ) (o : Option Task) (s : Sched)
    → Distinct s.tasks
    → Search parent pid s.tasks o
    → Returns parent pid options s (reap parent pid options o s)
unfolding reap
reap-Returns parent pid options (some t) s d f =
    let child : is_child parent pid t ≡ true = ground (arith, f.0) in
    let dead : is_zombie t ≡ true = ground (arith, f.0) in
    (
      t,
      f.1,
      is_child-Child parent pid t child,
      state_zombie t dead,
      refl,
      refl,
      refl,
      λ q. find_task-remove_task t.pid q s.tasks d,
    )
reap-Returns parent pid options none s d f = elim (Bool-cases (has_child parent pid s.tasks)) [
  | inl any ↦
      let some_child = has_child-some parent pid s.tasks any in
      let none_ended = ended-none parent pid s.tasks f in
      rw any (elim (Bool-cases (wnohang options)) [
        | inl hang ↦ rw hang (refl, some_child, λ z. ground arith, none_ended)
        | inr wait ↦ rw wait (refl, some_child, ground arith, none_ended)
      ])
  | inr alone ↦ rw alone (refl, λ t. has_child-none parent pid t s.tasks alone)
]

-- `wait4` with distinct pids. -1 is returned where no task of the list has this one as its parent
-- and the pid asked for (-1 asks for any). A pid is returned with the status only where it is that
-- of such a child and the child is a zombie; the status has its exit code in bits 15..8, and the
-- child alone is gone from the list. 0 under WNOHANG and -2 else mean that there is such a child and
-- none is a zombie. But for the second case nothing changes.
pub wait4-Returns :
    (parent pid options : ℕ) (s : Sched)
    → Distinct s.tasks
    → Returns parent pid options s (wait4 parent pid options s)
unfolding wait4
wait4-Returns parent pid options s d =
    reap-Returns parent pid options (find_zombie parent pid s.tasks) s d
      (find_zombie-Search parent pid s.tasks)
