-- ===== src/Sys/Quiet.antt =====
-- What the calls of src/syscall.c on descriptors leave alone: the number of slots, the next pointer and
-- the unused files.
use mathlib.Core.Option
use lite_bsd.Prelude.{
  ℕ, ◌≡◌, refl, ap, ◌∙◌, inl, inr, Bool, Option, none, some, List, ◌||◌, ◌&&◌, leb, ◌==◌,
  Bool-cases, arith, set, length, length-set,
}
use lite_bsd.Sched.Slots.{slot, alloc_fd-Allocs, Allocs}
use lite_bsd.Sched.File.{
  File, Store, Pipe, is_free, less_end, drop_pipe, close_node, close_sock, close_pipe, drop_file,
  drop_slot, release_fd, alloc_fd,
}
use lite_bsd.Sys.Descriptor.{
  Slots, more_ref, add_ref, dup_at, dup_slot, sys_dup, point_at, sys_dup2, sys_close, slot_of,
}
use lite_bsd.Sys.Count.{one_less, one_more, drop_file-files, add_ref-files}

-- The files that are unused stay so, and the same pointers are next.
abbrev pub Quiet : Slots → Slots → Type 0
Quiet x y =
    (length y.0 ≡ length x.0)
    × (y.1.next ≡ x.1.next)
    × ((f : ℕ) → x.1.files f ≡ none → y.1.files f ≡ none)

drop_pipe-next :
    (p : ℕ) (b : Bool) (o : Option Pipe) (st : Store) → (drop_pipe p b o st).next ≡ st.next
unfolding drop_pipe
drop_pipe-next p b none st = refl
drop_pipe-next p b (some v) st =
    let left = less_end b v in
    elim (Bool-cases ((left.read_ref == 0) && (left.write_ref == 0))) [
      | inl last ↦ rw last refl
      | inr more ↦ rw more refl
    ]

close_node-next : (o : Option (List ℕ)) (st : Store) → (close_node o st).next ≡ st.next
unfolding close_node
close_node-next none st = refl
close_node-next (some path) st = refl

close_sock-next :
    (o : Option ℕ) (path : Option (List ℕ)) (st : Store) → (close_sock o path st).next ≡ st.next
unfolding close_sock
close_sock-next none path st = close_node-next path st
close_sock-next (some s) path st = refl

close_pipe-next : (o : Option ℕ) (v : File) (st : Store) → (close_pipe o v st).next ≡ st.next
unfolding close_pipe
close_pipe-next none v st = close_sock-next v.sock v.node st
close_pipe-next (some p) v st = drop_pipe-next p v.read_end (st.pipes p) st

drop_file-next : (f : ℕ) (o : Option File) (st : Store) → (drop_file f o st).next ≡ st.next
unfolding drop_file
drop_file-next f none st = refl
drop_file-next f (some v) st = elim (Bool-cases (leb v.ref_count 1)) [
  | inl last ↦ rw last (close_pipe-next v.pipe v st)
  | inr more ↦ rw more refl
]

drop_slot-next : (o : Option ℕ) (st : Store) → (drop_slot o st).next ≡ st.next
unfolding drop_slot
drop_slot-next none st = refl
drop_slot-next (some f) st = drop_file-next f (st.files f) st

add_ref-next : (f : ℕ) (st : Store) → (add_ref f st).next ≡ st.next
unfolding add_ref
add_ref-next f st = more_ref_next f (st.files f) st
  where
    more_ref_next : (f : ℕ) (o : Option File) (st : Store) → (more_ref f o st).next ≡ st.next
    more_ref_next f none st = refl
    more_ref_next f (some v) st = refl

drop_slot-none :
    (o : Option ℕ) (st : Store) (g : ℕ) → st.files g ≡ none → (drop_slot o st).files g ≡ none
unfolding drop_slot
drop_slot-none none st g h = h
drop_slot-none (some f) st g h =
    drop_file-files f g (st.files f) st refl ∙ elim (Bool-cases (g == f)) [
      | inl same ↦
          let at : f ≡ g = ground arith in
          rw same (ap (λ k. one_less (st.files k)) at ∙ ap one_less h)
      | inr other ↦ rw other h
    ]

add_ref-none : (f : ℕ) (st : Store) (g : ℕ) → st.files g ≡ none → (add_ref f st).files g ≡ none
add_ref-none f st g h = add_ref-files f g st ∙ elim (Bool-cases (g == f)) [
  | inl same ↦
      let at : f ≡ g = ground arith in
      rw same (ap (λ k. Option.map one_more (st.files k)) at ∙ ap (Option.map one_more) h)
  | inr other ↦ rw other h
]

Quiet-refl : (x : Slots) → Quiet x x
Quiet-refl x = (refl, refl, λ f h. h)

Quiet-trans : (x y z : Slots) → Quiet x y → Quiet y z → Quiet x z
Quiet-trans x y z a b = (b.0 ∙ a.0, b.1 ∙ a.1, λ f h. b.2 f (a.2 f h))

pub release_fd-Quiet : (fd : ℕ) (x : Slots) → Quiet x (release_fd fd x)
unfolding release_fd
release_fd-Quiet fd (fds, st) = elim (Bool-cases (leb 16 fd)) [
  | inl beyond ↦ rw beyond (refl, refl, λ f h. h)
  | inr inside ↦
      rw inside
        (length-set fds fd none, drop_slot-next (slot fds fd) st, drop_slot-none (slot fds fd) st)
]

add_ref-Quiet :
    (f : ℕ) (fds fds' : List (Option ℕ)) (st : Store)
    → length fds' ≡ length fds
    → Quiet (fds, st) (fds', add_ref f st)
add_ref-Quiet f fds fds' st l = (l, add_ref-next f st, add_ref-none f st)

pub sys_dup-Quiet : (fd : ℕ) (x : Slots) → Quiet x (sys_dup fd x).0
unfolding sys_dup
sys_dup-Quiet fd (fds, st) = elim (Bool-cases (leb 16 fd)) [
  | inl beyond ↦ rw beyond (Quiet-refl (fds, st))
  | inr inside ↦ rw inside (slot_quiet (slot fds fd) fds st)
]
  where
    at_quiet :
        (f : ℕ) (fds : List (Option ℕ)) (st : Store) (o : Option (ℕ × List (Option ℕ)))
        → Allocs 13 3 f fds o
        → Quiet (fds, st) (dup_at f (fds, st) o).0
    at_quiet f fds st none a = Quiet-refl (fds, st)
    at_quiet f fds st (some (n, fds')) a =
        add_ref-Quiet f fds fds' st (ap length a.4 ∙ length-set fds n (some f))

    slot_quiet :
        (o : Option ℕ) (fds : List (Option ℕ)) (st : Store)
        → Quiet (fds, st) (dup_slot o (fds, st)).0
    slot_quiet none fds st = Quiet-refl (fds, st)
    slot_quiet (some f) fds st = at_quiet f fds st (alloc_fd f fds) (alloc_fd-Allocs f fds)

point_at-Quiet : (new : ℕ) (o : Option ℕ) (x : Slots) → Quiet x (point_at new o x).0
unfolding point_at
point_at-Quiet new none (fds, st) = (length-set fds new none, refl, λ f h. h)
point_at-Quiet new (some f) (fds, st) =
    add_ref-Quiet f fds (set fds new (some f)) st (length-set fds new (some f))

pub sys_dup2-Quiet : (old new : ℕ) (x : Slots) → Quiet x (sys_dup2 old new x).0
unfolding sys_dup2
sys_dup2-Quiet old new x = elim (Bool-cases (leb 16 old || is_free (slot_of x old))) [
  | inl refused ↦ rw refused (Quiet-refl x)
  | inr on ↦ rw on (elim (Bool-cases (leb 16 new)) [
    | inl beyond ↦ rw beyond (Quiet-refl x)
    | inr inside ↦ rw inside (elim (Bool-cases (is_free (slot_of x new))) [
      | inl unused ↦ rw unused (point_at-Quiet new (slot_of x old) x)
      | inr used ↦
          let y = release_fd new x in
          rw used (
            Quiet-trans x y (point_at new (slot_of y old) y).0 (release_fd-Quiet new x)
              (point_at-Quiet new (slot_of y old) y))
    ])
  ])
]

pub sys_close-Quiet : (fd : ℕ) (x : Slots) → Quiet x (sys_close fd x).0
unfolding sys_close
sys_close-Quiet fd x = elim (Bool-cases (leb 16 fd || is_free (slot_of x fd))) [
  | inl refused ↦ rw refused (Quiet-refl x)
  | inr on ↦ rw on (release_fd-Quiet fd x)
]
