-- ===== src/Sys/Refs.antt =====
-- The calls on descriptors of src/syscall.c keep the reference counts.
use mathlib.Core.Path.{subst}
use lite_bsd.Prelude.{
  ℕ, ◌+◌, ◌≤◌, ◌<◌, ◌≡◌, refl, sym, ap, ◌∙◌, inl, inr, Bool, true, false, ◌||◌, Option, none, some,
  List, [], ◌∷◌, leb, ◌==◌, if◌then◌else◌, Bool-cases, arith, set, length, length-set,
}
use lite_bsd.Sched.Slots.{slot, slot-set, alloc_fd-Allocs, Allocs}
use lite_bsd.Sched.File.{Store, is_free, drop_slot, release_fd, alloc_fd}
use lite_bsd.Sys.Descriptor.{
  null_write, add_ref, dup_at, dup_slot, sys_dup, point_at, dup2_after, sys_dup2, sys_close,
  fork_fds,
}
use lite_bsd.Sys.Count.{
  hit, holds, holds-set, hit-le-holds, hit_self, Sound, Counted, Counted-ext, Counted-drop,
  Counted-add,
}

pub hit_free : (g : ℕ) (o : Option ℕ) → is_free o ≡ true → hit g o ≡ 0
hit_free g none h = refl
hit_free g (some f) h = cc

-- A slot is emptied.
release_slot-Counted :
    (others : ℕ → ℕ) (i : ℕ) (o : Option ℕ) (fds : List (Option ℕ)) (st : Store)
    → i < length fds
    → slot fds i ≡ o
    → Counted others (fds, st)
    → Counted others (set fds i none, drop_slot o st)
unfolding drop_slot
release_slot-Counted others i none fds st h e c =
    unfold Counted in
    λ g.
      subst (λ n. Sound (st.files g) (n + others g))
        (sym (omega (arith, holds-set g fds i none h, ap (hit g) e))) (c g)
release_slot-Counted others i (some f) fds st h e c =
    Counted-drop others f fds (set fds i none) st c
      (λ g. omega (arith, holds-set g fds i none h, ap (hit g) e))

-- `release_fd` keeps the counts.
pub release_fd-Counted :
    (others : ℕ → ℕ) (i : ℕ) (fds : List (Option ℕ)) (st : Store)
    → length fds ≡ 16
    → Counted others (fds, st)
    → Counted others (release_fd i (fds, st))
unfolding release_fd
release_fd-Counted others i fds st l c = elim (Bool-cases (leb 16 i)) [
  | inl beyond ↦ rw beyond c
  | inr inside ↦ rw inside (release_slot-Counted others i (slot fds i) fds st (ground arith) refl c)
]

point_at-Counted :
    (others : ℕ → ℕ) (new f : ℕ) (fds : List (Option ℕ)) (st : Store)
    → new < length fds
    → is_free (slot fds new) ≡ true
    → 0 < holds f fds + others f
    → Counted others (fds, st)
    → Counted others (set fds new (some f), add_ref f st)
point_at-Counted others new f fds st h unused live c =
    Counted-add others others f fds (set fds new (some f)) st c live
      (λ g. omega (arith, holds-set g fds new (some f) h, hit_free g (slot fds new) unused))

held : (f i : ℕ) (fds : List (Option ℕ)) → slot fds i ≡ some f → 0 < holds f fds
held f i fds e = omega (arith, hit-le-holds f fds i, ap (hit f) e, hit_self f)

dup_at-Counted :
    (others : ℕ → ℕ) (f : ℕ) (fds : List (Option ℕ)) (st : Store) (o : Option (ℕ × List (Option ℕ)))
    → length fds ≡ 16
    → 0 < holds f fds
    → Allocs 13 3 f fds o
    → Counted others (fds, st)
    → Counted others (dup_at f (fds, st) o).0
unfolding dup_at
dup_at-Counted others f fds st none l live a c = c
dup_at-Counted others f fds st (some (n, fds')) l live a c =
    subst (λ k. Counted others (k, add_ref f st)) (sym a.4)
      (point_at-Counted others n f fds st (omega (arith, a.1)) a.2 (omega arith) c)

dup_slot-Counted :
    (others : ℕ → ℕ) (fd : ℕ) (o : Option ℕ) (fds : List (Option ℕ)) (st : Store)
    → length fds ≡ 16
    → slot fds fd ≡ o
    → Counted others (fds, st)
    → Counted others (dup_slot o (fds, st)).0
unfolding dup_slot
dup_slot-Counted others fd none fds st l e c = c
dup_slot-Counted others fd (some f) fds st l e c =
    dup_at-Counted others f fds st (alloc_fd f fds) l (held f fd fds e) (alloc_fd-Allocs f fds) c

-- `sys_dup` keeps the counts, whatever it returns.
pub sys_dup-Counted :
    (others : ℕ → ℕ) (fd : ℕ) (fds : List (Option ℕ)) (st : Store)
    → length fds ≡ 16
    → Counted others (fds, st)
    → Counted others (sys_dup fd (fds, st)).0
unfolding sys_dup
sys_dup-Counted others fd fds st l c = elim (Bool-cases (leb 16 fd)) [
  | inl beyond ↦ rw beyond c
  | inr inside ↦ rw inside (dup_slot-Counted others fd (slot fds fd) fds st l refl c)
]

-- `sys_close` keeps the counts, whatever it returns.
pub sys_close-Counted :
    (others : ℕ → ℕ) (fd : ℕ) (fds : List (Option ℕ)) (st : Store)
    → length fds ≡ 16
    → Counted others (fds, st)
    → Counted others (sys_close fd (fds, st)).0
unfolding sys_close
sys_close-Counted others fd fds st l c = elim (Bool-cases (leb 16 fd || is_free (slot fds fd))) [
  | inl refused ↦ rw refused c
  | inr on ↦ rw on (release_fd-Counted others fd fds st l c)
]

-- After the slot `new` is emptied, the file of `old` goes into it.
dup2_after-Counted :
    (others : ℕ → ℕ) (old new f : ℕ) (fds : List (Option ℕ)) (st : Store)
    → new < length fds
    → slot fds old ≡ some f
    → is_free (slot fds new) ≡ true
    → Counted others (fds, st)
    → Counted others (dup2_after old new (fds, st)).0
unfolding point_at
dup2_after-Counted others old new f fds st h e unused c =
    rw e (point_at-Counted others new f fds st h unused (omega (arith, held f old fds e)) c)

not_free : (o : Option ℕ) → is_free o ≡ false → (f : ℕ) × (o ≡ some f)
not_free none h = cc
not_free (some f) h = (f, refl)

none_free : (o : Option ℕ) → o ≡ none → is_free o ≡ true
none_free none h = refl
none_free (some f) h = cc

abbrev none_slot : Option ℕ
none_slot = none

released :
    (others : ℕ → ℕ) (old new f : ℕ) (fds : List (Option ℕ)) (st : Store)
    → length fds ≡ 16
    → new < 16
    → (new == old) ≡ false
    → slot fds old ≡ some f
    → Counted others (fds, st)
    → Counted others (dup2_after old new (release_fd new (fds, st))).0
unfolding release_fd
released others old new f fds st l h ne e c =
    let inside : leb 16 new ≡ false = ground arith in
    let c' : Counted others (set fds new none, drop_slot (slot fds new) st) =
      release_slot-Counted others new (slot fds new) fds st (omega arith) refl c in
    let emptied : is_free (slot (set fds new none) new) ≡ true =
      none_free (slot (set fds new none) new)
        (slot-set fds new new ∙ ap (λ b. if b then none else slot fds new) (self new)) in
    let kept : slot (set fds new none) old ≡ some f =
      slot-set fds new old ∙ ap (λ b. if b then none else slot fds old) ne ∙ e in
    rw inside (
      dup2_after-Counted others old new f (set fds new none) (drop_slot (slot fds new) st)
        (omega (arith, length-set fds new none_slot)) kept emptied c')
  where
    self : (n : ℕ) → (n == n) ≡ true
    self n = ground arith

-- `sys_dup2` of two different descriptors keeps the counts, whatever it returns.
pub sys_dup2-Counted :
    (others : ℕ → ℕ) (old new : ℕ) (fds : List (Option ℕ)) (st : Store)
    → length fds ≡ 16
    → (new == old) ≡ false
    → Counted others (fds, st)
    → Counted others (sys_dup2 old new (fds, st)).0
unfolding sys_dup2
sys_dup2-Counted others old new fds st l ne c =
    elim (Bool-cases (leb 16 old || is_free (slot fds old))) [
      | inl refused ↦ rw refused c
      | inr on ↦
          let (f, e) =
            not_free (slot fds old) (or_right (leb 16 old) (is_free (slot fds old)) on) in
          rw on (elim (Bool-cases (leb 16 new)) [
            | inl beyond ↦ rw beyond c
            | inr inside ↦ rw inside (elim (Bool-cases (is_free (slot fds new))) [
              | inl unused ↦
                  rw unused (dup2_after-Counted others old new f fds st (ground arith) e unused c)
              | inr taken ↦ rw taken (released others old new f fds st l (ground arith) ne e c)
            ])
          ])
    ]
  where
    or_right : (a b : Bool) → (a || b) ≡ false → b ≡ false
    or_right a b h = ground arith

-- `sys_dup2` of an open descriptor onto itself closes it and writes through a NULL pointer.
pub sys_dup2_self :
    (fd : ℕ) (fds : List (Option ℕ)) (st : Store)
    → fd < 16
    → is_free (slot fds fd) ≡ false
    → (sys_dup2 fd fd (fds, st)).1 ≡ null_write fd
unfolding sys_dup2 release_fd point_at
sys_dup2_self fd fds st h taken =
    let inside : leb 16 fd ≡ false = ground arith in
    let emptied : slot (set fds fd none) fd ≡ none =
      slot-set fds fd fd ∙ ap (λ b. if b then none else slot fds fd) (self fd) in
    rw inside (rw taken (rw emptied refl))
  where
    self : (n : ℕ) → (n == n) ≡ true
    self n = ground arith

-- The loop of `fork_task` over the slots adds to the count of every file the slots of the child that
-- hold it, if the parent holds it in as many.
pub fork_fds-Counted :
    (others : ℕ → ℕ) (child parent : List (Option ℕ)) (st : Store)
    → ((f : ℕ) → holds f child ≤ holds f parent)
    → Counted others (parent, st)
    → Counted (λ f. others f + holds f child) (parent, fork_fds child st)
unfolding fork_fds
fork_fds-Counted others [] parent st h c =
    Counted-ext others (λ f. others f + holds f []) (parent, st) (λ f. omega arith) c
fork_fds-Counted others (none ∷ child) parent st h c =
    Counted-ext (λ f. others f + holds f child) (λ f. others f + holds f (none ∷ child))
      (parent, fork_fds child st) (λ f. omega arith)
      (fork_fds-Counted others child parent st (λ f. omega (arith, h f)) c)
fork_fds-Counted others (some g ∷ child) parent st h c =
    let one : Counted (λ f. others f + hit f (some g)) (parent, add_ref g st) =
      Counted-add others (λ f. others f + hit f (some g)) g parent parent st c
        (omega (arith, h g, hit_self g)) (λ f. omega arith) in
    Counted-ext (λ f. (others f + hit f (some g)) + holds f child)
      (λ f. others f + holds f (some g ∷ child)) (parent, fork_fds child (add_ref g st))
      (λ f. omega arith)
      (fork_fds-Counted (λ f. others f + hit f (some g)) child parent (add_ref g st)
        (λ f. omega (arith, h f)) one)
