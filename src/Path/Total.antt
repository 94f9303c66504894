-- ===== src/Path/Total.antt =====
-- The loop of `vfs_resolve_path` of src/vfs.c ends on every path, whatever its names, and leaves an
-- absolute path that fits its buffer.
use mathlib.Core.List.{reverse, reverse_aux}
use lite_bsd.Prelude.{
  ℕ, zero, suc, ◌+◌, ◌≤◌, ◌<◌, ◌≡◌, ◌∙◌, inl, inr, true, some, List, [], ◌∷◌, ltb, ◌==◌, Bool-cases,
  List-cases, arith, length,
}
use lite_bsd.Path.{
  slash, room, starts_slash, skip_slashes, read_component, is_dot, is_dotdot, drop_name, drop_slash,
  go_up, push_slash, push_bytes, step, walk,
}
use lite_bsd.Path.Refine.{
  lead, lead_le, skip_room, skip_nonslash, read_room, read_pos, walk_end, walk_more,
}

-- The first byte of the buffer, which stands last here, is a slash.
abbrev pub Rooted : List ℕ → Type 0
Rooted [] = ⊥
Rooted (x ∷ []) = x ≡ slash
Rooted (x ∷ y ∷ r) = Rooted (y ∷ r)

pub record Fits (temp : List ℕ) : Type 0 where
  pub rooted : Rooted temp
  pub short : length temp ≤ room

pub Rooted-cons : (x : ℕ) (r : List ℕ) → Rooted r → Rooted (x ∷ r)
Rooted-cons x [] h = absurd h
Rooted-cons x (y ∷ r) h = h

drop_slash-Fits : (temp : List ℕ) → Fits temp → Fits (drop_slash temp)
unfolding drop_slash
drop_slash-Fits [] f = f
drop_slash-Fits (x ∷ []) f = f
drop_slash-Fits (x ∷ y ∷ r) f = elim (Bool-cases (x == slash)) [
  | inl cut ↦ rw cut (record { rooted = f.rooted; short = omega (arith, f.short) })
  | inr keep ↦ rw keep f
]

drop_name-Fits : (temp : List ℕ) → Fits temp → Fits (drop_name temp)
unfolding drop_name
drop_name-Fits [] f = f
drop_name-Fits (x ∷ []) f = f
drop_name-Fits (x ∷ y ∷ r) f = elim (Bool-cases (x == slash)) [
  | inl stop ↦ rw stop f
  | inr more ↦
      rw more
        (drop_name-Fits (y ∷ r) (record { rooted = f.rooted; short = omega (arith, f.short) }))
]

go_up-Fits : (temp : List ℕ) → Fits temp → Fits (go_up temp)
unfolding go_up
go_up-Fits temp f = elim (Bool-cases (ltb 1 (length temp))) [
  | inl long ↦ rw long (
      drop_slash-Fits (drop_name (drop_slash temp))
        (drop_name-Fits (drop_slash temp) (drop_slash-Fits temp f)))
  | inr top ↦ rw top f
]

push_slash-Fits : (temp : List ℕ) → Fits temp → Fits (push_slash temp)
unfolding push_slash
push_slash-Fits [] f = absurd f.rooted
push_slash-Fits (x ∷ r) f = elim (Bool-cases (x == slash)) [
  | inl there ↦ rw there f
  | inr absent ↦ rw absent (elim (Bool-cases (ltb (length (x ∷ r)) room)) [
    | inl free ↦ rw free (record { rooted = f.rooted; short = ground arith })
    | inr full ↦ rw full f
  ])
]

push_bytes-Fits : (temp comp : List ℕ) → Fits temp → Fits (push_bytes temp comp)
unfolding push_bytes
push_bytes-Fits temp [] f = f
push_bytes-Fits temp (c ∷ cs) f = elim (Bool-cases (ltb (length temp) room)) [
  | inl free ↦ rw free (
      push_bytes-Fits (c ∷ temp) cs
        (record { rooted = Rooted-cons c temp f.rooted; short = ground arith }))
  | inr full ↦ rw full f
]

step-Fits : (temp comp : List ℕ) → Fits temp → Fits (step temp comp)
unfolding step
step-Fits temp comp f = elim (Bool-cases (is_dot comp)) [
  | inl one ↦ rw one f
  | inr more ↦ rw more (elim (Bool-cases (is_dotdot comp)) [
    | inl two ↦ rw two (go_up-Fits temp f)
    | inr name ↦ rw name (push_bytes-Fits (push_slash temp) comp (push_slash-Fits temp f))
  ])
]

-- More fuel than bytes is enough.
pub walk_total :
    (fuel : ℕ) (temp path : List ℕ)
    → Fits temp
    → length path < fuel
    → (t : List ℕ) × (walk fuel temp path ≡ some t) × Fits t
walk_total zero temp path f enough = absurd (omega arith)
walk_total (suc fuel) temp path f enough = elim (List-cases (skip_slashes path)) [
  | inl nothing ↦ (temp, walk_end fuel temp path nothing, f)
  | inr (c, cs, more) ↦
      let comp = (read_component 63 (c ∷ cs)).0 in
      let rest = (read_component 63 (c ∷ cs)).1 in
      let nonslash = skip_nonslash path c cs more in
      let pos : 0 < length comp = read_pos 62 c cs nonslash in
      let fits : lead (c ∷ cs) + length (c ∷ cs) ≤ lead path + length path =
        rw more at (skip_room path) in
      let one : lead (c ∷ cs) ≡ 1 = rw nonslash in
      let sum : length comp + length rest ≡ length (c ∷ cs) = read_room 63 (c ∷ cs) in
      let (t, e, g) =
        walk_total fuel (step temp comp) rest (step-Fits temp comp f)
          (omega (arith, lead_le path)) in
      (t, walk_more fuel temp path c cs more ∙ e, g)
]

starts_onto : (xs ys : List ℕ) → Rooted xs → starts_slash (reverse_aux xs ys) ≡ true
starts_onto [] ys h = absurd h
starts_onto (x ∷ []) ys h = rw h
starts_onto (x ∷ y ∷ r) ys h = starts_onto (y ∷ r) (x ∷ ys) h

-- Read forwards, such a buffer begins with a slash.
pub starts_reverse : (xs : List ℕ) → Rooted xs → starts_slash (reverse xs) ≡ true
starts_reverse xs h = starts_onto xs [] h
