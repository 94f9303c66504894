-- ===== src/Sched/Robin.antt =====
-- `schedule` of src/sched.c goes round the list.
use mathlib.Core.Path.{subst}
use lite_bsd.Prelude.{
  ℕ, ◌≡◌, refl, sym, ap, ◌∙◌, inl, inr, Bool, true, false, Option, none, some, List, [], ◌∷◌, ◌++◌,
  ◌==◌, length, append-nil, append_assoc, Bool-cases, arith,
}
use lite_bsd.Sched.{
  Task, Sched, is_running, find_task, change, rotation, first_running, pick, switch, schedule_as,
  schedule,
}
use lite_bsd.Sched.Ring.{has_running}

some-none : {t : Task} → Option.some t ≡ none → ⊥
some-none h = cc

rotation-split :
    (a b seen : List Task) (c : Task)
    → find_task c.pid a ≡ none
    → rotation c.pid seen (a ++ (c ∷ b)) ≡ b ++ ((seen ++ a) ++ (c ∷ []))
unfolding rotation find_task
rotation-split [] b seen c e =
    let here : (c.pid == c.pid) ≡ true = ground arith in
    rw here (ap (λ l. b ++ (l ++ (c ∷ []))) (sym (append-nil seen)))
rotation-split (t ∷ a) b seen c e = elim (Bool-cases (t.pid == c.pid)) [
  | inl here ↦ absurd (some-none (rw here at e))
  | inr there ↦ rw there (
      rotation-split a b (seen ++ (t ∷ [])) c (rw there at e)
      ∙ ap (λ l. b ++ (l ++ (c ∷ []))) (append_assoc seen (t ∷ []) a))
]

change-split :
    (f : Task → Task) (a b : List Task) (c : Task)
    → find_task c.pid a ≡ none
    → change c.pid f (a ++ (c ∷ b)) ≡ a ++ (f c ∷ b)
unfolding change find_task
change-split f [] b c e = let here : (c.pid == c.pid) ≡ true = ground arith in rw here refl
change-split f (t ∷ a) b c e = elim (Bool-cases (t.pid == c.pid)) [
  | inl here ↦ absurd (some-none (rw here at e))
  | inr there ↦ rw there (ap (λ l. t ∷ l) (change-split f a b c (rw there at e)))
]

first_running-split :
    (x y : List Task) (u : Task)
    → has_running x ≡ false
    → is_running u ≡ true
    → first_running (x ++ (u ∷ y)) ≡ some u
unfolding first_running
first_running-split [] y u h r = rw r refl
first_running-split (t ∷ x) y u h r = elim (Bool-cases (is_running t)) [
  | inl on ↦ absurd (true_false (rw on at h))
  | inr off ↦ rw off (first_running-split x y u (rw off at h) r)
]
  where
    true_false : Bool.true ≡ false → ⊥
    true_false h = cc

-- The task `u` is the current one, and the frame of `c` is saved.
pub record Turned (frame : ℕ) (a b : List Task) (c u : Task) (x : Sched × ℕ) : Type 0 where
  pub current : x.0.current ≡ some u.pid
  pub frame_of : x.1 ≡ u.frame
  pub tasks : x.0.tasks ≡ a ++ (record c { frame = frame } ∷ b)

switch-Turned :
    (frame : ℕ) (a b x y ts : List Task) (c u : Task) (s : Sched)
    → ts ≡ a ++ (record c { frame = frame } ∷ b)
    → find_task c.pid a ≡ none
    → b ++ a ≡ x ++ (u ∷ y)
    → has_running x ≡ false
    → is_running u ≡ true
    → Turned frame a b c u (switch c.pid s frame ts)
unfolding switch pick
switch-Turned frame a b x y ts c u s e first split h r =
    let saved : Task = record c { frame = frame } in
    let ring : rotation c.pid [] ts ≡ x ++ (u ∷ (y ++ (saved ∷ []))) =
      ap (rotation c.pid []) e
      ∙ rotation-split a b [] saved first
      ∙ sym (append_assoc b a (saved ∷ []))
      ∙ ap (λ l. l ++ (saved ∷ [])) split
      ∙ append_assoc x (u ∷ y) (saved ∷ []) in
    let found : first_running (rotation c.pid [] ts) ≡ some u =
      ap first_running ring ∙ first_running-split x (y ++ (saved ∷ [])) u h r in
    rw found (record { current = refl; frame_of = refl; tasks = e })

schedule_as-Turned :
    (frame : ℕ) (a b x y : List Task) (c u : Task) (s : Sched)
    → s.tasks ≡ a ++ (c ∷ b)
    → find_task c.pid a ≡ none
    → b ++ a ≡ x ++ (u ∷ y)
    → has_running x ≡ false
    → is_running u ≡ true
    → Turned frame a b c u (schedule_as (some c.pid) frame s)
unfolding schedule_as
schedule_as-Turned frame a b x y c u s e first split h r =
    let save = λ (t : Task). record t { frame = frame } in
    switch-Turned frame a b x y (change c.pid save s.tasks) c u s
      (ap (change c.pid save) e ∙ change-split save a b c first) first split h r

not_empty : (ts a b : List Task) (c : Task) → ts ≡ a ++ (c ∷ b) → (length ts == 0) ≡ false
not_empty ts a b c e = ap (λ l. length l == 0) e ∙ long a
  where
    long : (a : List Task) → (length (a ++ (c ∷ b)) == 0) ≡ false
    long [] = ground arith
    long (t ∷ a) = ground arith

-- `schedule` goes round the list: with `a` before the current task `c` and `b` behind it, the next
-- task is the first RUNNING one of `b` and then `a`, if there is one. It goes on from its saved
-- frame, and the frame of `c` is saved in its place.
pub schedule-Turned :
    (frame : ℕ) (a b x y : List Task) (c u : Task) (s : Sched)
    → s.tasks ≡ a ++ (c ∷ b)
    → s.current ≡ some c.pid
    → find_task c.pid a ≡ none
    → b ++ a ≡ x ++ (u ∷ y)
    → has_running x ≡ false
    → is_running u ≡ true
    → Turned frame a b c u (schedule frame s)
unfolding schedule
schedule-Turned frame a b x y c u s e now first split h r = rw (not_empty s.tasks a b c e) (
    subst (λ o. Turned frame a b c u (schedule_as o frame s)) (sym now)
      (schedule_as-Turned frame a b x y c u s e first split h r))
