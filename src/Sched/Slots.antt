-- ===== src/Sched/Slots.antt =====
-- The descriptors of a task in src/sched.c: `alloc_fd`, `release_fd` and the loop in `task_exit`.
use lite_bsd.Prelude.{
  ℕ, zero, suc, ◌+◌, ◌<◌, ◌≤◌, ◌≡◌, refl, sym, ap, ◌∙◌, inl, inr, true, false, Option, none, some,
  List, [], ◌∷◌, leb, ◌==◌, if◌then◌else◌, Bool-cases, arith, get_or, set,
}
use lite_bsd.Sched.{release_from}
use lite_bsd.Sched.File.{Store, is_free, release_fd, alloc_from, alloc_fd}

abbrev pub slot : List (Option ℕ) → ℕ → Option ℕ
slot fds i = get_or fds i none

pub slot-set :
    (fds : List (Option ℕ)) (i j : ℕ)
    → slot (set fds i none) j ≡ (if i == j then none else slot fds j)
slot-set [] i j = ground arith
slot-set (f ∷ fds) zero zero = refl
slot-set (f ∷ fds) zero (suc j) = ground arith
slot-set (f ∷ fds) (suc i) zero = ground arith
slot-set (f ∷ fds) (suc i) (suc j) =
    slot-set fds i j ∙ ap (λ b. if b then none else slot fds j) (same i j)
  where
    same : (i j : ℕ) → (i == j) ≡ (suc i == suc j)
    same i j = ground arith

-- What `alloc_from` has found after the slots from `i` on, `k` of them.
abbrev pub Allocs : ℕ → ℕ → ℕ → List (Option ℕ) → Option (ℕ × List (Option ℕ)) → Type 0
Allocs k i f fds none = (j : ℕ) → i ≤ j → j < i + k → is_free (slot fds j) ≡ false
Allocs k i f fds (some (n, fds')) =
    (i ≤ n)
    × (n < i + k)
    × (is_free (slot fds n) ≡ true)
    × ((j : ℕ) → i ≤ j → j < n → is_free (slot fds j) ≡ false)
    × (fds' ≡ set fds n (some f))

Allocs-next :
    (k i f : ℕ) (fds : List (Option ℕ)) (o : Option (ℕ × List (Option ℕ)))
    → is_free (slot fds i) ≡ false
    → Allocs k (i + 1) f fds o
    → Allocs (suc k) i f fds o
Allocs-next k i f fds none taken a = λ j from to. elim (Bool-cases (i == j)) [
  | inl here ↦ let at : i ≡ j = ground arith in ap (λ n. is_free (slot fds n)) (sym at) ∙ taken
  | inr there ↦ a j (ground arith) (ground arith)
]
Allocs-next k i f fds (some (n, fds')) taken a = (
  omega (arith, a.0),
  omega (arith, a.1),
  a.2,
  λ j from to. elim (Bool-cases (i == j)) [
    | inl here ↦ let at : i ≡ j = ground arith in ap (λ m. is_free (slot fds m)) (sym at) ∙ taken
    | inr there ↦ a.3 j (ground arith) to
  ],
  a.4,
)

alloc_from-Allocs : (k i f : ℕ) (fds : List (Option ℕ)) → Allocs k i f fds (alloc_from k i f fds)
unfolding alloc_from
alloc_from-Allocs zero i f fds = λ j from to. absurd (omega arith)
alloc_from-Allocs (suc k) i f fds = elim (Bool-cases (is_free (slot fds i))) [
  | inl unused ↦
      rw unused (omega arith, omega arith, unused, λ j from to. absurd (omega arith), refl)
  | inr taken ↦
      rw taken (
        Allocs-next k i f fds (alloc_from k (i + 1) f fds) taken
          (alloc_from-Allocs k (i + 1) f fds))
]

-- `alloc_fd` puts the file into the lowest free slot from 3 to 15, or returns -1 where all of these
-- are taken.
pub alloc_fd-Allocs : (f : ℕ) (fds : List (Option ℕ)) → Allocs 13 3 f fds (alloc_fd f fds)
unfolding alloc_fd
alloc_fd-Allocs f fds = alloc_from-Allocs 13 3 f fds

pub set_back :
    (fds : List (Option ℕ)) (i f : ℕ)
    → is_free (slot fds i) ≡ true
    → set (set fds i (some f)) i none ≡ fds
set_back [] i f h = refl
set_back (none ∷ fds) zero f h = refl
set_back (some g ∷ fds) zero f h = cc
set_back (x ∷ fds) (suc i) f h = ap (λ l. x ∷ l) (set_back fds i f h)

-- `release_fd` of the descriptor that `alloc_fd` returned gives back the slots as they were.
pub release_fd-alloc_fd :
    (f n : ℕ) (fds fds' : List (Option ℕ)) (st : Store)
    → alloc_fd f fds ≡ some (n, fds')
    → (release_fd n (fds', st)).0 ≡ fds
unfolding release_fd
release_fd-alloc_fd f n fds fds' st e =
    let a : Allocs 13 3 f fds (some (n, fds')) = rw e at (alloc_fd-Allocs f fds) in
    let inside : leb 16 n ≡ false = ground (arith, a.1) in
    rw inside (ap (λ l. set l n none) a.4 ∙ set_back fds n f a.2)

release_fd-slot :
    (i j : ℕ) (x : List (Option ℕ) × Store)
    → i < 16
    → slot (release_fd i x).0 j ≡ (if i == j then none else slot x.0 j)
unfolding release_fd
release_fd-slot i j (fds, st) h =
    let inside : leb 16 i ≡ false = ground arith in rw inside (slot-set fds i j)

pub release_from-slot :
    (k i j : ℕ) (x : List (Option ℕ) × Store)
    → i + k ≤ 16
    → j < i + k
    → (j < i → slot x.0 j ≡ none)
    → slot (release_from k i x).0 j ≡ none
unfolding release_from
release_from-slot zero i j x fits below done = done (omega arith)
release_from-slot (suc k) i j x fits below done =
    release_from-slot k (i + 1) j (release_fd i x) (omega arith) (omega arith) (λ h.
      release_fd-slot i j x (omega arith) ∙ elim (Bool-cases (i == j)) [
        | inl here ↦ rw here refl
        | inr there ↦ rw there (done (ground arith))
      ])
