-- ===== src/Sched/Ring.antt =====
-- The circular list of tasks of src/sched.c: what the searches find in it and what its changes keep.
use mathlib.Core.Option
use lite_bsd.Prelude.{
  ℕ, ◌≡◌, refl, ap, ◌∙◌, ◌⊎◌, inl, inr, Bool, true, false, ◌||◌, none, some, List, [], ◌∷◌, ◌++◌,
  ◌==◌, if◌then◌else◌, Bool-cases, arith,
}
use lite_bsd.Sched.{Task, is_running, find_task, change, remove_task, rotation, first_running}

pub false-true : Bool.false ≡ true → ⊥
false-true h = cc

-- The task stands in the list.
abbrev pub Among : Task → List Task → Type 0
Among u [] = ⊥
Among u (t ∷ ts) = (u ≡ t) ⊎ Among u ts

pub Among-append : (u : Task) (xs ys : List Task) → Among u (xs ++ ys) → Among u xs ⊎ Among u ys
Among-append u [] ys h = inr h
Among-append u (x ∷ xs) ys (inl e) = inl (inl e)
Among-append u (x ∷ xs) ys (inr h) = elim (Among-append u xs ys h) [
  | inl a ↦ inl (inr a)
  | inr b ↦ inr b
]

abbrev pub has_running : List Task → Bool
has_running [] = false
has_running (t ∷ ts) = is_running t || has_running ts

pub has_running-append :
    (xs ys : List Task) → has_running (xs ++ ys) ≡ (has_running xs || has_running ys)
has_running-append [] ys = refl
has_running-append (x ∷ xs) ys = ground (arith, has_running-append xs ys)

-- The way round the list has the tasks of the list.
pub has_running-rotation :
    (pid : ℕ) (seen ts : List Task)
    → has_running (rotation pid seen ts) ≡ (has_running seen || has_running ts)
unfolding rotation
has_running-rotation pid seen [] = ground arith
has_running-rotation pid seen (t ∷ ts) = elim (Bool-cases (t.pid == pid)) [
  | inl here ↦
      rw here (
        has_running-append ts (seen ++ (t ∷ [])) ∙ ground (arith, has_running-append seen (t ∷ [])))
  | inr there ↦ rw there (
      has_running-rotation pid (seen ++ (t ∷ [])) ts
      ∙ ground (arith, has_running-append seen (t ∷ [])))
]

pub Among-rotation :
    (u : Task) (pid : ℕ) (seen ts : List Task)
    → Among u (rotation pid seen ts)
    → Among u seen ⊎ Among u ts
unfolding rotation
Among-rotation u pid seen [] h = inl h
Among-rotation u pid seen (t ∷ ts) h = elim (Bool-cases (t.pid == pid)) [
  | inl here ↦ elim (Among-append u ts (seen ++ (t ∷ [])) (rw here at h)) [
    | inl behind ↦ inr (inr behind)
    | inr before ↦ shift (Among-append u seen (t ∷ []) before)
  ]
  | inr there ↦ elim (Among-rotation u pid (seen ++ (t ∷ [])) ts (rw there at h)) [
    | inl before ↦ shift (Among-append u seen (t ∷ []) before)
    | inr behind ↦ inr (inr behind)
  ]
]
  where
    shift : Among u seen ⊎ Among u (t ∷ []) → Among u seen ⊎ Among u (t ∷ ts)
    shift (inl a) = inl a
    shift (inr (inl e)) = inr (inl e)
    shift (inr (inr h)) = absurd h

-- A task found by the search for a running one.
pub first_running-lem :
    (ts : List Task)
    → has_running ts ≡ true
    → (u : Task) × (first_running ts ≡ some u) × (is_running u ≡ true) × Among u ts
unfolding first_running
first_running-lem [] h = absurd (false-true h)
first_running-lem (t ∷ ts) h = elim (Bool-cases (is_running t)) [
  | inl on ↦ (t, rw on refl, on, inl refl)
  | inr off ↦ let (u, e, r, a) = first_running-lem ts (rw off at h) in (u, rw off e, r, inr a)
]

pub has_running-change :
    (pid : ℕ) (f : Task → Task) (ts : List Task)
    → ((t : Task) → is_running (f t) ≡ is_running t)
    → has_running (change pid f ts) ≡ has_running ts
unfolding change
has_running-change pid f [] k = refl
has_running-change pid f (t ∷ ts) k = elim (Bool-cases (t.pid == pid)) [
  | inl here ↦ rw here (ap (λ b. b || has_running ts) (k t))
  | inr there ↦ rw there (ap (λ b. is_running t || b) (has_running-change pid f ts k))
]

-- No two tasks have one pid.
abbrev pub Distinct : List Task → Type 0
Distinct [] = Unit
Distinct (t ∷ ts) = (find_task t.pid ts ≡ none) × Distinct ts

pub find_task-remove_task :
    (p q : ℕ) (ts : List Task)
    → Distinct ts
    → find_task q (remove_task p ts) ≡ (if p == q then none else find_task q ts)
unfolding find_task remove_task
find_task-remove_task p q [] d = elim (Bool-cases (p == q)) [
  | inl same ↦ rw same refl
  | inr other ↦ rw other refl
]
find_task-remove_task p q (t ∷ ts) d = elim (Bool-cases (t.pid == p)) [
  | inl here ↦
      let at : t.pid ≡ p = ground arith in
      rw here (elim (Bool-cases (p == q)) [
        | inl same ↦ let at_q : t.pid ≡ q = ground arith in rw same (rw at_q at d.0)
        | inr other ↦ let apart : (t.pid == q) ≡ false = ground arith in rw other (rw apart refl)
      ])
  | inr there ↦ rw there (elim (Bool-cases (t.pid == q)) [
    | inl hit ↦ let apart : (p == q) ≡ false = ground arith in rw hit (rw apart refl)
    | inr miss ↦ rw miss (find_task-remove_task p q ts d.1)
  ])
]

pub find_task-change :
    (pid : ℕ) (f : Task → Task) (ts : List Task)
    → ((t : Task) → (f t).pid ≡ t.pid)
    → find_task pid (change pid f ts) ≡ Option.map f (find_task pid ts)
unfolding find_task change
find_task-change pid f [] k = refl
find_task-change pid f (t ∷ ts) k = elim (Bool-cases (t.pid == pid)) [
  | inl here ↦ rw here (rw (k t) (rw here refl))
  | inr there ↦ rw there (rw there (find_task-change pid f ts k))
]
