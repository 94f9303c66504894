-- ===== src/Sys/Count.antt =====
-- The reference counts of open files: `ref_count` is the number of slots that hold the file.
use mathlib.Core.Option
use mathlib.Core.Path.{subst}
use lite_bsd.Prelude.{
  ℕ, zero, suc, ◌+◌, ◌-◌, ◌≤◌, ◌<◌, ◌≡◌, refl, ap, ◌∙◌, inl, inr, Bool, false, ◌&&◌, Option, none,
  some, List, [], ◌∷◌, leb, ◌==◌, if◌then◌else◌, Bool-cases, arith, set, length,
}
use lite_bsd.Sched.Slots.{slot}
use lite_bsd.Sched.File.{
  File, Pipe, Store, less_end, drop_pipe, close_node, close_sock, close_pipe, drop_file,
}
use lite_bsd.Sys.Descriptor.{Slots, more_ref, add_ref}

abbrev pub hit : ℕ → Option ℕ → ℕ
hit f none = 0
hit f (some g) = if g == f then 1 else 0

-- The slots that hold the file.
abbrev pub holds : ℕ → List (Option ℕ) → ℕ
holds f [] = 0
holds f (o ∷ fds) = hit f o + holds f fds

pub holds-set :
    (f : ℕ) (fds : List (Option ℕ)) (i : ℕ) (v : Option ℕ)
    → i < length fds
    → holds f (set fds i v) + hit f (slot fds i) ≡ holds f fds + hit f v
holds-set f [] i v h = absurd (omega arith)
holds-set f (o ∷ fds) zero v h = omega arith
holds-set f (o ∷ fds) (suc i) v h = omega (arith, holds-set f fds i v (omega arith))

pub hit_self : (f : ℕ) → hit f (some f) ≡ 1
hit_self f = ground arith

pub hit-le-holds : (f : ℕ) (fds : List (Option ℕ)) (i : ℕ) → hit f (slot fds i) ≤ holds f fds
hit-le-holds f [] i = omega arith
hit-le-holds f (o ∷ fds) zero = omega arith
hit-le-holds f (o ∷ fds) (suc i) = omega (arith, hit-le-holds f fds i)

-- The file behind a pointer that `n` slots hold.
abbrev pub Sound : Option File → ℕ → Type 0
Sound none n = n ≡ 0
Sound (some v) n = (v.ref_count ≡ n) × (0 < n)

-- Every file has as many references as slots hold it, `others` of them in other tasks.
unfoldable pub Counted : (ℕ → ℕ) → Slots → Type 0
Counted others (fds, st) = (f : ℕ) → Sound (st.files f) (holds f fds + others f)

abbrev pub one_more : File → File
one_more v = record v { ref_count = v.ref_count + 1 }

abbrev pub one_less : Option File → Option File
one_less none = none
one_less (some v) =
    if leb v.ref_count 1 then none else some (record v { ref_count = v.ref_count - 1 })

pub Sound-less : (o : Option File) (n : ℕ) → Sound o n → Sound (one_less o) (n - 1)
Sound-less none n s = omega arith
Sound-less (some v) n s = elim (Bool-cases (leb v.ref_count 1)) [
  | inl last ↦ rw last (ground arith)
  | inr more ↦ rw more (ground arith)
]

pub Sound-more :
    (o : Option File) (n : ℕ) → Sound o n → 0 < n → Sound (Option.map one_more o) (n + 1)
Sound-more none n s h = absurd (omega arith)
Sound-more (some v) n s h = omega arith

drop_pipe-files :
    (p : ℕ) (b : Bool) (o : Option Pipe) (st : Store) → (drop_pipe p b o st).files ≡ st.files
unfolding drop_pipe
drop_pipe-files p b none st = refl
drop_pipe-files p b (some v) st =
    let left = less_end b v in
    elim (Bool-cases ((left.read_ref == 0) && (left.write_ref == 0))) [
      | inl last ↦ rw last refl
      | inr more ↦ rw more refl
    ]

close_node-files : (o : Option (List ℕ)) (st : Store) → (close_node o st).files ≡ st.files
unfolding close_node
close_node-files none st = refl
close_node-files (some path) st = refl

close_sock-files :
    (o : Option ℕ) (path : Option (List ℕ)) (st : Store) → (close_sock o path st).files ≡ st.files
unfolding close_sock
close_sock-files none path st = close_node-files path st
close_sock-files (some s) path st = refl

close_pipe-files : (o : Option ℕ) (v : File) (st : Store) → (close_pipe o v st).files ≡ st.files
unfolding close_pipe
close_pipe-files none v st = close_sock-files v.sock v.node st
close_pipe-files (some p) v st = drop_pipe-files p v.read_end (st.pipes p) st

-- Closing a reference changes the one file.
pub drop_file-files :
    (f g : ℕ) (o : Option File) (st : Store)
    → st.files f ≡ o
    → (drop_file f o st).files g ≡ (if g == f then one_less o else st.files g)
unfolding drop_file
drop_file-files f g none st e = elim (Bool-cases (g == f)) [
  | inl same ↦ let at : g ≡ f = ground arith in rw same (ap st.files at ∙ e)
  | inr other ↦ rw other refl
]
drop_file-files f g (some v) st e = elim (Bool-cases (leb v.ref_count 1)) [
  | inl last ↦ rw last (elim (Bool-cases (g == f)) [
    | inl same ↦ rw same refl
    | inr other ↦ rw other (ap (λ (h : ℕ → Option File). h g) (close_pipe-files v.pipe v st))
  ])
  | inr more ↦ rw more refl
]

more_ref-files :
    (f g : ℕ) (o : Option File) (st : Store)
    → st.files f ≡ o
    → (more_ref f o st).files g ≡ (if g == f then Option.map one_more o else st.files g)
unfolding more_ref
more_ref-files f g none st e = elim (Bool-cases (g == f)) [
  | inl same ↦ let at : g ≡ f = ground arith in rw same (ap st.files at ∙ e)
  | inr other ↦ rw other refl
]
more_ref-files f g (some v) st e = refl

pub add_ref-files :
    (f g : ℕ) (st : Store)
    → (add_ref f st).files g ≡ (if g == f then Option.map one_more (st.files f) else st.files g)
unfolding add_ref
add_ref-files f g st = more_ref-files f g (st.files f) st refl

hit_ne : (g f : ℕ) → (g == f) ≡ false → hit g (some f) ≡ 0
hit_ne g f h = ground arith

-- One slot less holds `f`.
pub Counted-drop :
    (others : ℕ → ℕ) (f : ℕ) (fds fds' : List (Option ℕ)) (st : Store)
    → Counted others (fds, st)
    → ((g : ℕ) → holds g fds' + hit g (some f) ≡ holds g fds)
    → Counted others (fds', drop_file f (st.files f) st)
unfolding Counted
Counted-drop others f fds fds' st c e g =
    rw (drop_file-files f g (st.files f) st refl) (elim (Bool-cases (g == f)) [
      | inl same ↦
          let at : g ≡ f = ground arith in
          rw same (
            subst (λ n. Sound (one_less (st.files f)) n)
              (omega (arith, e f, hit_self f, ap (λ k. holds k fds') at, ap others at))
              (Sound-less (st.files f) (holds f fds + others f) (c f)))
      | inr other ↦
          rw other (subst (λ n. Sound (st.files g) n) (omega (arith, e g, hit_ne g f other)) (c g))
    ])

pub Counted-ext :
    (others others' : ℕ → ℕ) (x : Slots)
    → ((f : ℕ) → others f ≡ others' f)
    → Counted others x
    → Counted others' x
unfolding Counted
Counted-ext others others' (fds, st) e c f =
    subst (λ n. Sound (st.files f) (holds f fds + n)) (e f) (c f)

-- One reference more to `f`, which some slot holds already.
pub Counted-add :
    (others others' : ℕ → ℕ) (f : ℕ) (fds fds' : List (Option ℕ)) (st : Store)
    → Counted others (fds, st)
    → 0 < holds f fds + others f
    → ((g : ℕ) → holds g fds' + others' g ≡ (holds g fds + others g) + hit g (some f))
    → Counted others' (fds', add_ref f st)
unfolding Counted
Counted-add others others' f fds fds' st c some_slot e g =
    rw (add_ref-files f g st) (elim (Bool-cases (g == f)) [
      | inl same ↦
          let at : g ≡ f = ground arith in
          rw same (
            subst (λ n. Sound (Option.map one_more (st.files f)) n)
              (omega (arith, e f, hit_self f, ap (λ k. holds k fds' + others' k) at))
              (Sound-more (st.files f) (holds f fds + others f) (c f) some_slot))
      | inr other ↦
          rw other (subst (λ n. Sound (st.files g) n) (omega (arith, e g, hit_ne g f other)) (c g))
    ])
