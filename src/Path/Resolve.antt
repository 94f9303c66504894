-- ===== src/Path/Resolve.antt =====
-- `vfs_resolve_path` and `path_parent_dir` of src/vfs.c as a whole.
use mathlib.Core.Path.{subst}
use mathlib.Core.Option
use mathlib.Core.List.{reverse, reverse_aux, reverse-reverse}
use lite_bsd.Prelude.{
  ℕ, zero, suc, ◌+◌, ◌-◌, ◌≤◌, ◌<◌, ◌≡◌, refl, sym, ap, ◌∙◌, inl, inr, true, false, Option, some,
  List, [], ◌∷◌, ◌++◌, ltb, ◌==◌, if◌then◌else◌, Bool-cases, List-cases, arith, length,
  append_assoc, take, length-take, take_all,
}
use lite_bsd.Path.{
  slash, room, starts_slash, start_temp, start_path, copy_out, vfs_resolve_path, walk, before_slash,
  strip_slashes, or_root, path_parent_dir,
}
use lite_bsd.Path.Spec.{
  Stack, NoSlash, AllNames, tower, stacked, text, names_from, names, enter_all, Short,
}
use lite_bsd.Path.Refine.{
  length-reverse, walk-stacked, lead, lead_le, NoSlash-reverse_aux, tower_pos,
}
use lite_bsd.Path.Total.{Rooted, Fits, Rooted-cons, walk_total, starts_reverse}

reverse-append_slash : (xs : List ℕ) (x : ℕ) → (l : List ℕ) × (reverse (xs ++ (x ∷ [])) ≡ x ∷ l)
reverse-append_slash xs x = go xs []
  where
    go : (ys zs : List ℕ) → (l : List ℕ) × (reverse_aux (ys ++ (x ∷ [])) zs ≡ x ∷ l)
    go [] zs = (zs, refl)
    go (y ∷ ys) zs = go ys (y ∷ zs)

tower_end : (ns : Stack) → (xs : List ℕ) × (slash ∷ tower ns ≡ xs ++ (slash ∷ []))
tower_end [] = ([], refl)
tower_end (n ∷ ns) =
    let (xs, e) = tower_end ns in
    (
      slash ∷ reverse n ++ xs,
      ap (◌∷◌ slash) (ap (λ l. reverse n ++ l) e ∙ sym (append_assoc (reverse n) xs (slash ∷ []))),
    )

-- The text of a stack begins with a slash.
pub text-slash : (ns : Stack) → (l : List ℕ) × (text ns ≡ slash ∷ l)
text-slash [] = ([], refl)
text-slash (n ∷ ns) =
    let (xs, e) = tower_end ns in
    let (l, f) = reverse-append_slash (reverse n ++ xs) slash in
    (
      l,
      ap reverse (ap (λ l. reverse n ++ l) e ∙ sym (append_assoc (reverse n) xs (slash ∷ []))) ∙ f,
    )

starts_text : (ns : Stack) → starts_slash (text ns) ≡ true
starts_text ns = rw (text-slash ns).1 refl

-- Where the loop begins: at the root for an absolute path, and else at the working directory.
abbrev pub origin : List ℕ → Stack → Stack
origin path ns = if starts_slash path then [] else ns

start_stacked :
    (ns : Stack) (path : List ℕ)
    → length (text ns) ≤ 254
    → start_temp (text ns) path ≡ stacked (origin path ns)
unfolding start_temp
start_stacked ns path h = elim (Bool-cases (starts_slash path)) [
  | inl abs ↦ rw abs
  | inr rel ↦ rw (rel, starts_text ns, take_all 254 (text ns) h) (reverse-reverse (stacked ns))
]

names_start : (path : List ℕ) → names_from [] (start_path path) ≡ names_from [] path
unfolding names_from start_path
names_start [] = refl
names_start (c ∷ cs) = elim (Bool-cases (c == slash)) [
  | inl abs ↦ rw abs
  | inr rel ↦ rw rel (rw rel)
]

start_room :
    (ns : Stack) (path : List ℕ)
    → length (text ns) + 1 + length path ≤ room
    → length (stacked (origin path ns)) + (lead (start_path path) + length (start_path path)) ≤ room
unfolding start_path
start_room ns [] h = omega (arith, length-reverse (stacked ns))
start_room ns (c ∷ cs) h = elim (Bool-cases (c == slash)) [
  | inl abs ↦ rw abs (omega (arith, lead_le cs))
  | inr rel ↦ rw rel (rw rel (omega (arith, length-reverse (stacked ns))))
]

AllNames-origin : (path : List ℕ) (ns : Stack) → AllNames ns → AllNames (origin path ns)
AllNames-origin path ns p = elim (Bool-cases (starts_slash path)) [
  | inl abs ↦ rw abs tt
  | inr rel ↦ rw rel p
]

length_start : (path : List ℕ) → length (start_path path) ≤ length path
unfolding start_path
length_start [] = omega arith
length_start (c ∷ cs) = ground arith

copy_out_all : (temp : List ℕ) → Fits temp → copy_out 256 temp ≡ reverse temp
unfolding copy_out
copy_out_all [] f = absurd f.rooted
copy_out_all (x ∷ r) f =
    take_all 255 (reverse (x ∷ r)) (omega (arith, length-reverse (x ∷ r), f.short))

some_eq : (a b : List ℕ) → Option.some a ≡ some b → a ≡ b
some_eq a b e = cc

Rooted-tower : (r t : List ℕ) → Rooted t → Rooted (r ++ t)
Rooted-tower [] t h = h
Rooted-tower (x ∷ r) t h = Rooted-cons x (r ++ t) (Rooted-tower r t h)

Rooted-slash : (ns : Stack) → Rooted (slash ∷ tower ns)
Rooted-slash [] = refl
Rooted-slash (n ∷ ns) =
    Rooted-cons slash (reverse n ++ (slash ∷ tower ns))
      (Rooted-tower (reverse n) (slash ∷ tower ns) (Rooted-slash ns))

Rooted-stacked : (ns : Stack) → Rooted (stacked ns)
Rooted-stacked [] = refl
Rooted-stacked (n ∷ ns) = Rooted-tower (reverse n) (slash ∷ tower ns) (Rooted-slash ns)

stacked-Fits :
    (ns : Stack) (path : List ℕ)
    → length (stacked ns) + (lead path + length path) ≤ room
    → Fits (stacked ns)
stacked-Fits ns path h = record { rooted = Rooted-stacked ns; short = omega arith }

-- `vfs_resolve_path` goes where the names of the path lead: from the root if the path begins with
-- a slash and else from the working directory, `.` stays, `..` goes up one directory and stays at
-- the root, and every other name goes down. This holds for a path that is not empty, if the
-- working directory is the text of a stack of names, no name of the path is longer than 63 bytes,
-- and the working directory, a slash and the path fit in 255 bytes together.
pub vfs_resolve_path-text :
    (ns : Stack) (c : ℕ) (cs : List ℕ)
    → AllNames ns
    → Short 63 (names (c ∷ cs))
    → length (text ns) + 1 + length (c ∷ cs) ≤ room
    → vfs_resolve_path (text ns) (c ∷ cs) 256
      ≡ some (text (enter_all (origin (c ∷ cs) ns) (names (c ∷ cs))))
unfolding vfs_resolve_path names
vfs_resolve_path-text ns c cs p s h =
    let path = c ∷ cs in
    let base = origin path ns in
    let target = enter_all base (names_from [] path) in
    let fits = start_room ns path h in
    let enough : length (start_path path) < suc (length path) = omega (arith, length_start path) in
    let short : Short 63 (names_from [] (start_path path)) = rw (names_start path) s in
    let walked =
      walk-stacked (suc (length path)) base (start_path path) (AllNames-origin path ns p) short fits
        enough in
    let (t, e, g) =
      walk_total (suc (length path)) (stacked base) (start_path path)
        (stacked-Fits base (start_path path) fits) enough in
    let reached : Fits (stacked (enter_all base (names_from [] (start_path path)))) =
      subst Fits (some_eq t _ (sym e ∙ walked)) g in
    let first = start_stacked ns path (omega (arith, h)) in
    ap (λ b. Option.map (copy_out 256) (walk (suc (length path)) b (start_path path))) first
    ∙ ap (Option.map (copy_out 256)) walked
    ∙ ap some (copy_out_all _ reached)
    ∙ ap (λ l. some (text (enter_all base l))) (names_start path)

Rooted-reverse_aux : (xs ys : List ℕ) → Rooted ys → Rooted (reverse_aux xs ys)
Rooted-reverse_aux [] ys h = h
Rooted-reverse_aux (x ∷ xs) ys h = Rooted-reverse_aux xs (x ∷ ys) (Rooted-cons x ys h)

start-Fits : (cwd path : List ℕ) → Fits (start_temp cwd path)
unfolding start_temp
start-Fits cwd path = elim (Bool-cases (starts_slash path)) [
  | inl abs ↦ rw abs (record { rooted = refl; short = omega arith })
  | inr rel ↦ rw rel (from cwd)
]
  where
    from : (d : List ℕ) → Fits (if starts_slash d then reverse (take 254 d) else slash ∷ [])
    from [] = record { rooted = refl; short = omega arith }
    from (x ∷ xs) = elim (Bool-cases (x == slash)) [
      | inl abs ↦ rw abs (record {
        rooted = Rooted-reverse_aux (take 253 xs) (x ∷ []) (ground arith);
        short = omega (arith, length-reverse (take 254 (x ∷ xs)), length-take 254 (x ∷ xs));
      })
      | inr rel ↦ rw rel (record { rooted = refl; short = omega arith })
    ]

starts_take :
    (n : ℕ) (xs : List ℕ) → 0 < n → starts_slash xs ≡ true → starts_slash (take n xs) ≡ true
starts_take zero xs p h = absurd (omega arith)
starts_take (suc n) [] p h = h
starts_take (suc n) (x ∷ xs) p h = h

copy_out_slash :
    (n : ℕ) (temp : List ℕ)
    → 2 ≤ n
    → Fits temp
    → (starts_slash (copy_out n temp) ≡ true)
      × (length (copy_out n temp) < n)
      × (length (copy_out n temp) ≤ room)
unfolding copy_out
copy_out_slash n [] p f = absurd f.rooted
copy_out_slash n (x ∷ r) p f =
    let all = length-take (n - 1) (reverse (x ∷ r)) in
    (
      starts_take (n - 1) (reverse (x ∷ r)) (omega arith) (starts_reverse (x ∷ r) f.rooted),
      omega (arith, all),
      omega (arith, all, length-reverse (x ∷ r), f.short),
    )

-- For every path that is not empty, every working directory and every buffer of at least two
-- bytes, `vfs_resolve_path` ends and leaves a path that begins with a slash and fits, with its
-- NUL, the buffer and the 256 bytes of `temp`.
pub vfs_resolve_path-total :
    (cwd : List ℕ) (c : ℕ) (cs : List ℕ) (max_len : ℕ)
    → 2 ≤ max_len
    → (out : List ℕ) × (vfs_resolve_path cwd (c ∷ cs) max_len ≡ some out)
      × (starts_slash out ≡ true)
      × (length out < max_len)
      × (length out ≤ room)
unfolding vfs_resolve_path
vfs_resolve_path-total cwd c cs n p =
    let path = c ∷ cs in
    let (t, e, g) =
      walk_total (suc (length path)) (start_temp cwd path) (start_path path) (start-Fits cwd path)
        (omega (arith, length_start path)) in
    let (slashed, short, small) = copy_out_slash n t p g in
    let wide : ltb n 2 ≡ false = ground arith in
    (copy_out n t, rw wide (ap (Option.map (copy_out n)) e), slashed, short, small)

strip_slashes_name : (r t : List ℕ) → NoSlash r → 0 < length r → strip_slashes (r ++ t) ≡ r ++ t
unfolding strip_slashes
strip_slashes_name [] t p q = absurd (omega arith)
strip_slashes_name (x ∷ []) [] p q = refl
strip_slashes_name (x ∷ []) (y ∷ t) p q = rw p.0
strip_slashes_name (x ∷ z ∷ r) t p q = rw p.0

before_slash_name : (r t : List ℕ) → NoSlash r → before_slash (r ++ (slash ∷ t)) ≡ t
unfolding before_slash
before_slash_name [] t p = refl
before_slash_name (x ∷ r) t p = rw p.0 (before_slash_name r t p.1)

or_root-tower : (ns : Stack) → or_root (tower ns) ≡ text ns
unfolding or_root
or_root-tower [] = refl
or_root-tower (n ∷ ns) = elim (List-cases (tower (n ∷ ns))) [
  | inl e ↦ absurd (omega (arith, tower_pos n ns, ap length e))
  | inr (x, xs, e) ↦ rw (e, or_root)
]

-- `path_parent_dir` of the text of a stack of names that fits in 255 bytes is the text of the
-- stack without its last name.
pub path_parent_dir-text :
    (n : List ℕ) (ns : Stack)
    → AllNames (n ∷ ns)
    → length (text (n ∷ ns)) ≤ room
    → path_parent_dir (text (n ∷ ns)) ≡ text ns
unfolding path_parent_dir
path_parent_dir-text n ns p h =
    let r : NoSlash (reverse n) = NoSlash-reverse_aux n [] p.0.0 tt in
    let pos : 0 < length (reverse n) = ground (arith, length-reverse n) in
    rw (take_all 255 (text (n ∷ ns)) h) (
      rw (reverse-reverse (stacked (n ∷ ns))) (
        rw (strip_slashes_name (reverse n) (slash ∷ tower ns) r pos)
          (rw (before_slash_name (reverse n) (tower ns) r) (or_root-tower ns))))
