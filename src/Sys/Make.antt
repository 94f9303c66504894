-- ===== src/Sys/Make.antt =====
-- `sys_pipe` of src/syscall.c.
use mathlib.Core.Path.{subst}
use lite_bsd.Prelude.{
  ℕ, zero, suc, ◌+◌, ◌≤◌, ◌<◌, ◌≡◌, refl, sym, ap, ◌∙◌, inl, inr, Bool, true, false, Option, none,
  some, List, [], ◌∷◌, ◌==◌, Bool-cases, arith, set, length, length-set,
}
use lite_bsd.Sched.Slots.{slot, alloc_fd-Allocs, Allocs}
use lite_bsd.Sched.File.{Store, is_free, alloc_fd}
use lite_bsd.Sys.Descriptor.{
  Slots, Ends, ends, no_ends, make_pipe, pipe_first, pipe_second, sys_pipe,
}
use lite_bsd.Sys.Count.{hit, holds, holds-set, Sound, Counted}
use lite_bsd.Sys.Refs.{hit_free}

-- The pointers from `next` on are unused.
abbrev pub Fresh : Store → Type 0
Fresh st = (f : ℕ) → st.next ≤ f → st.files f ≡ none

-- What a call leaves where it returns two descriptors.
abbrev pub Piped : (ℕ → ℕ) → Store → Slots × Ends → Type 0
Piped others st (x, no_ends) = Unit
Piped others st (x, ends r w) =
    Counted others x × (slot x.0 r ≡ some st.next) × (slot x.0 w ≡ some (st.next + 1))

pub Fresh-count :
    (others : ℕ → ℕ) (f : ℕ) (fds : List (Option ℕ)) (st : Store)
    → Fresh st
    → st.next ≤ f
    → Counted others (fds, st)
    → holds f fds + others f ≡ 0
unfolding Counted
Fresh-count others f fds st fresh h c =
    subst (λ o. Sound o (holds f fds + others f)) (fresh f h) (c f)

made-Counted :
    (others : ℕ → ℕ) (buffer : List ℕ) (fds fds' : List (Option ℕ)) (st : Store)
    → Fresh st
    → Counted others (fds, st)
    → ((g : ℕ) → holds g fds' ≡ holds g fds + hit g (some st.next) + hit g (some (st.next + 1)))
    → Counted others (fds', make_pipe buffer st)
unfolding Counted make_pipe
made-Counted others buffer fds fds' st fresh c e g = elim (Bool-cases (g == st.next + 1)) [
  | inl second ↦
      let hits = hit_second g st.next second in
      rw second (omega (arith, e g, hits, Fresh-count others g fds st fresh hits.2 c))
  | inr other ↦ rw other (elim (Bool-cases (g == st.next)) [
    | inl first ↦
        let hits = hit_first g st.next first in
        rw first (omega (arith, e g, hits, Fresh-count others g fds st fresh hits.2 c))
    | inr old ↦
        let hits = hit_old g st.next old other in
        rw old (subst (λ n. Sound (st.files g) n) (omega (arith, e g, hits)) (c g))
  ])
]
  where
    hit_second :
        (g n : ℕ)
        → (g == n + 1) ≡ true
        → (hit g (some n) ≡ 0) × (hit g (some (n + 1)) ≡ 1) × (n ≤ g)
    hit_second g n h = ground arith

    hit_first :
        (g n : ℕ) → (g == n) ≡ true → (hit g (some n) ≡ 1) × (hit g (some (n + 1)) ≡ 0) × (n ≤ g)
    hit_first g n h = ground arith

    hit_old :
        (g n : ℕ)
        → (g == n) ≡ false
        → (g == n + 1) ≡ false
        → (hit g (some n) ≡ 0) × (hit g (some (n + 1)) ≡ 0)
    hit_old g n h k = ground arith

pub slot-set_self :
    (fds : List (Option ℕ)) (i : ℕ) (v : Option ℕ) → i < length fds → slot (set fds i v) i ≡ v
slot-set_self [] i v h = absurd (omega arith)
slot-set_self (o ∷ fds) zero v h = refl
slot-set_self (o ∷ fds) (suc i) v h = slot-set_self fds i v (omega arith)

slot-set_ne :
    (fds : List (Option ℕ)) (i j : ℕ) (v : Option ℕ)
    → (i == j) ≡ false
    → slot (set fds i v) j ≡ slot fds j
slot-set_ne [] i j v h = refl
slot-set_ne (o ∷ fds) zero zero v h = cc
slot-set_ne (o ∷ fds) zero (suc j) v h = refl
slot-set_ne (o ∷ fds) (suc i) zero v h = refl
slot-set_ne (o ∷ fds) (suc i) (suc j) v h = slot-set_ne fds i j v (ground arith)

-- A free slot is not one that was just filled.
free_ne :
    (fds : List (Option ℕ)) (i j f : ℕ)
    → i < length fds
    → is_free (slot (set fds i (some f)) j) ≡ true
    → (i == j) ≡ false
free_ne fds i j f h unused = elim (Bool-cases (i == j)) [
  | inr apart ↦ apart
  | inl same ↦
      let at : i ≡ j = ground arith in
      absurd (
        false_true (
          ap is_free
            (sym (ap (slot (set fds i (some f))) (sym at) ∙ slot-set_self fds i (some f) h))
          ∙ unused))
]
  where
    false_true : Bool.false ≡ true → ⊥
    false_true k = cc

second-Piped :
    (others : ℕ → ℕ) (buffer : List ℕ) (r : ℕ) (fds fds1 : List (Option ℕ)) (st : Store)
    (o : Option (ℕ × List (Option ℕ)))
    → length fds ≡ 16
    → Fresh st
    → Counted others (fds, st)
    → Allocs 13 3 st.next fds (some (r, fds1))
    → Allocs 13 3 (st.next + 1) fds1 o
    → Piped others st (pipe_second r o (fds1, make_pipe buffer st))
unfolding pipe_second
second-Piped others buffer r fds fds1 st none l fresh c a b = tt
second-Piped others buffer r fds fds1 st (some (w, fds2)) l fresh c a b =
    let long : length fds1 ≡ 16 = ap length a.4 ∙ length-set fds r (some st.next) ∙ l in
    let in_first : r < length fds = omega (arith, a.1) in
    let in_second : w < length fds1 = omega (arith, b.1) in
    let ne : (r == w) ≡ false =
      free_ne fds r w st.next in_first (subst (λ k. is_free (slot k w) ≡ true) a.4 b.2) in
    let ne' : (w == r) ≡ false = ground arith in
    (
      made-Counted others buffer fds fds2 st fresh c (λ g. omega (
        arith,
        holds-set g fds r (some st.next) in_first,
        holds-set g fds1 w (some (st.next + 1)) in_second,
        hit_free g (slot fds r) a.2,
        hit_free g (slot fds1 w) b.2,
        ap (holds g) a.4,
        ap (holds g) b.4,
      )),
      ap (λ k. slot k r) b.4
          ∙ slot-set_ne fds1 w r (some (st.next + 1)) ne'
          ∙ ap (λ k. slot k r) a.4
          ∙ slot-set_self fds r (some st.next) in_first,
      ap (λ k. slot k w) b.4 ∙ slot-set_self fds1 w (some (st.next + 1)) in_second,
    )

first-Piped :
    (others : ℕ → ℕ) (buffer : List ℕ) (fds : List (Option ℕ)) (st : Store)
    (o : Option (ℕ × List (Option ℕ)))
    → length fds ≡ 16
    → Fresh st
    → Counted others (fds, st)
    → Allocs 13 3 st.next fds o
    → Piped others st (pipe_first st.next o (fds, make_pipe buffer st))
unfolding pipe_first
first-Piped others buffer fds st none l fresh c a = tt
first-Piped others buffer fds st (some (r, fds1)) l fresh c a =
    second-Piped others buffer r fds fds1 st (alloc_fd (st.next + 1) fds1) l fresh c a
      (alloc_fd-Allocs (st.next + 1) fds1)

-- Where `sys_pipe` returns two descriptors, the reference counts are kept and the two slots hold the
-- two new files.
pub sys_pipe-Piped :
    (others : ℕ → ℕ) (buffer : List ℕ) (fds : List (Option ℕ)) (st : Store)
    → length fds ≡ 16
    → Fresh st
    → Counted others (fds, st)
    → Piped others st (sys_pipe buffer (fds, st))
unfolding sys_pipe
sys_pipe-Piped others buffer fds st l fresh c =
    first-Piped others buffer fds st (alloc_fd st.next fds) l fresh c (alloc_fd-Allocs st.next fds)
