-- ===== src/Path/Refine.antt =====
-- `vfs_resolve_path` of src/vfs.c against the stack of names, one component at a time.
use mathlib.Core.Path.{subst}
use mathlib.Core.List.{reverse, reverse_aux, reverse_aux-eq}
use lite_bsd.Prelude.{
  ℕ, zero, suc, ◌+◌, ◌≤◌, ◌<◌, ◌≡◌, refl, sym, ap, ◌∙◌, inl, inr, true, false, some, List, [], ◌∷◌,
  ◌++◌, ltb, ◌==◌, if◌then◌else◌, Bool-cases, List-cases, arith, length, length-append,
  append_assoc, append-nil,
}
use lite_bsd.Path.{
  slash, room, skip_slashes, read_component, is_dot, is_dotdot, drop_name, drop_slash, go_up,
  push_slash, push_bytes, step, walk,
}
use lite_bsd.Path.Spec.{
  Stack, NoSlash, IsName, AllNames, tower, stacked, flush, names_from, enter, enter_all, leave,
  Short,
}

pub NoSlash-reverse_aux : (xs ys : List ℕ) → NoSlash xs → NoSlash ys → NoSlash (reverse_aux xs ys)
NoSlash-reverse_aux [] ys p q = q
NoSlash-reverse_aux (x ∷ xs) ys p q = NoSlash-reverse_aux xs (x ∷ ys) p.1 (p.0, q)

length-reverse_aux : (xs ys : List ℕ) → length (reverse_aux xs ys) ≡ length xs + length ys
length-reverse_aux [] ys = omega arith
length-reverse_aux (x ∷ xs) ys = omega (arith, length-reverse_aux xs (x ∷ ys))

pub length-reverse : (xs : List ℕ) → length (reverse xs) ≡ length xs
length-reverse xs = omega (arith, length-reverse_aux xs [])

-- A nonempty name in front, as `temp` holds it.
drop_slash_name : (r t : List ℕ) → NoSlash r → 0 < length r → drop_slash (r ++ t) ≡ r ++ t
unfolding drop_slash
drop_slash_name [] t p q = absurd (omega arith)
drop_slash_name (x ∷ []) [] p q = refl
drop_slash_name (x ∷ []) (y ∷ t) p q = rw p.0
drop_slash_name (x ∷ z ∷ r) t p q = rw p.0

drop_name-slash : (t : List ℕ) → drop_name (slash ∷ t) ≡ slash ∷ t
unfolding drop_name
drop_name-slash [] = refl
drop_name-slash (x ∷ t) = refl

drop_name_name : (r t : List ℕ) → NoSlash r → drop_name (r ++ (slash ∷ t)) ≡ slash ∷ t
unfolding drop_name
drop_name_name [] t p = drop_name-slash t
drop_name_name (x ∷ []) t p = rw p.0 (drop_name-slash t)
drop_name_name (x ∷ y ∷ r) t p = rw p.0 (drop_name_name (y ∷ r) t p.1)

drop_slash-slash : (t : List ℕ) → 0 < length t → drop_slash (slash ∷ t) ≡ t
unfolding drop_slash
drop_slash-slash [] p = absurd (omega arith)
drop_slash-slash (x ∷ t) p = refl

pub tower_pos : (n : List ℕ) (ns : Stack) → 0 < length (tower (n ∷ ns))
tower_pos n ns = omega (arith, length-append (reverse n) (slash ∷ tower ns))

drop_slash-tower : (ns : Stack) → drop_slash (slash ∷ tower ns) ≡ stacked ns
unfolding drop_slash
drop_slash-tower [] = refl
drop_slash-tower (n ∷ ns) = drop_slash-slash (tower (n ∷ ns)) (tower_pos n ns)

-- `..` leaves the last name.
pub go_up_name : (n : List ℕ) (ns : Stack) → IsName n → go_up (stacked (n ∷ ns)) ≡ stacked ns
unfolding go_up
go_up_name n ns p =
    let r : NoSlash (reverse n) = NoSlash-reverse_aux n [] p.0 tt in
    let pos : 0 < length (reverse n) = ground (arith, length-reverse n) in
    let long : ltb 1 (length (stacked (n ∷ ns))) ≡ true =
      ground (arith, length-append (reverse n) (slash ∷ tower ns)) in
    rw long (
      rw (drop_slash_name (reverse n) (slash ∷ tower ns) r pos)
        (rw (drop_name_name (reverse n) (tower ns) r) (drop_slash-tower ns)))

push_slash_name :
    (r t : List ℕ)
    → NoSlash r
    → 0 < length r
    → length (r ++ t) < room
    → push_slash (r ++ t) ≡ slash ∷ r ++ t
unfolding push_slash
push_slash_name [] t p q f = absurd (omega arith)
push_slash_name (x ∷ r) t p q f = ground arith

pub push_slash-stacked :
    (ns : Stack)
    → AllNames ns
    → length (stacked ns) < room
    → push_slash (stacked ns) ≡ slash ∷ tower ns
unfolding push_slash
push_slash-stacked [] p f = refl
push_slash-stacked (n ∷ ns) p f =
    push_slash_name (reverse n) (slash ∷ tower ns) (NoSlash-reverse_aux n [] p.0.0 tt)
      (ground (arith, length-reverse n)) f

push_bytes-eq :
    (temp comp : List ℕ)
    → length temp + length comp ≤ room
    → push_bytes temp comp ≡ reverse_aux comp temp
unfolding push_bytes
push_bytes-eq temp [] f = refl
push_bytes-eq temp (c ∷ cs) f =
    let fits : ltb (length temp) room ≡ true = ground arith in
    rw fits (push_bytes-eq (c ∷ temp) cs (omega arith))

tower_le : (ns : Stack) → length (tower ns) ≤ length (stacked ns)
tower_le [] = omega arith
tower_le (n ∷ ns) = omega arith

go_up-stacked :
    (ns : Stack) → AllNames ns → (go_up (stacked ns) ≡ stacked (leave ns)) × AllNames (leave ns)
go_up-stacked [] p = (unfold go_up in refl, tt)
go_up-stacked (n ∷ ns) p = (go_up_name n ns p.0, p.1)

-- One component of at most the room left does to the text what `enter` does to the stack.
pub step-stacked :
    (ns : Stack) (comp : List ℕ)
    → AllNames ns
    → NoSlash comp
    → 0 < length comp
    → length (stacked ns) + 1 + length comp ≤ room
    → (step (stacked ns) comp ≡ stacked (enter ns comp)) × AllNames (enter ns comp)
unfolding step enter
step-stacked ns comp p q pos f = elim (Bool-cases (is_dot comp)) [
  | inl one ↦ rw one (refl, p)
  | inr more ↦ rw more (elim (Bool-cases (is_dotdot comp)) [
    | inl two ↦ rw two (go_up-stacked ns p)
    | inr name ↦ rw name (
      rw (push_slash-stacked ns p (omega arith)) (
          push_bytes-eq (slash ∷ tower ns) comp (ground (arith, tower_le ns))
          ∙ reverse_aux-eq comp (slash ∷ tower ns)),
      ((q, ground arith, more, name), p),
    )
  ])
]

-- Where the reading of a component stops: at the end or at a slash.
abbrev Ends : List ℕ → Type 0
Ends [] = Unit
Ends (c ∷ cs) = (c == slash) ≡ true

-- The name being read is part of the first name.
long_name :
    (k : ℕ) (acc path : List ℕ) → 0 < length acc → Short k (names_from acc path) → length acc ≤ k
unfolding names_from
long_name k [] path pos s = absurd (omega arith)
long_name k (a ∷ acc) [] pos s = s.0
long_name k (a ∷ acc) (c ∷ cs) pos s = elim (Bool-cases (c == slash)) [
  | inl stop ↦ (rw stop at s).0
  | inr on ↦ omega (
    arith,
    length-append (a ∷ acc) (c ∷ []),
    long_name k (a ∷ acc ++ (c ∷ [])) cs (omega arith) (rw on at s),
  )
]

Ends-of_Short :
    (n : ℕ) (acc path : List ℕ)
    → Short (length acc + n) (names_from acc path)
    → Ends (read_component n path).1
unfolding names_from read_component
Ends-of_Short zero acc [] s = tt
Ends-of_Short zero acc (c ∷ cs) s = elim (Bool-cases (c == slash)) [
  | inl stop ↦ stop
  | inr on ↦ absurd (
      omega (
        arith,
        length-append acc (c ∷ []),
        long_name (length acc + 0) (acc ++ (c ∷ [])) cs (omega (arith, length-append acc (c ∷ [])))
            (rw on at s),
      ))
]
Ends-of_Short (suc n) acc [] s = tt
Ends-of_Short (suc n) acc (c ∷ cs) s = elim (Bool-cases (c == slash)) [
  | inl stop ↦ rw stop stop
  | inr on ↦ rw on (
      Ends-of_Short n (acc ++ (c ∷ [])) cs (
        subst (λ k. Short k (names_from (acc ++ (c ∷ [])) cs))
          (omega (arith, length-append acc (c ∷ []))) (rw on at s)))
]

-- A component that ends is the first name.
names_read :
    (n : ℕ) (acc path : List ℕ)
    → Ends (read_component n path).1
    → names_from acc path
      ≡ flush (acc ++ (read_component n path).0) (names_from [] (read_component n path).1)
unfolding names_from read_component
names_read zero acc [] e = rw (append-nil acc)
names_read zero acc (c ∷ cs) e = rw (append-nil acc, e)
names_read (suc n) acc [] e = rw (append-nil acc)
names_read (suc n) acc (c ∷ cs) e = elim (Bool-cases (c == slash)) [
  | inl stop ↦ rw stop (rw stop (rw (append-nil acc)))
  | inr on ↦ rw on (
      names_read n (acc ++ (c ∷ [])) cs (rw on at e)
      ∙ ap (λ l. flush l (names_from [] (read_component n cs).1))
          (append_assoc acc (c ∷ []) (read_component n cs).0))
]

names_skip : (path : List ℕ) → names_from [] (skip_slashes path) ≡ names_from [] path
unfolding names_from skip_slashes
names_skip [] = refl
names_skip (c ∷ cs) = elim (Bool-cases (c == slash)) [
  | inl over ↦ rw over (names_skip cs)
  | inr stay ↦ rw stay (rw stay)
]

pub skip_nonslash :
    (path : List ℕ) (c : ℕ) (cs : List ℕ) → skip_slashes path ≡ c ∷ cs → (c == slash) ≡ false
unfolding skip_slashes
skip_nonslash [] c cs e = cc
skip_nonslash (d ∷ ds) c cs e = elim (Bool-cases (d == slash)) [
  | inl over ↦ skip_nonslash ds c cs (rw over at e)
  | inr stay ↦ ground (arith, rw stay at e)
]

-- A slash is still to be written before the path, unless the path brings one.
abbrev pub lead : List ℕ → ℕ
lead [] = 0
lead (c ∷ cs) = if c == slash then 0 else 1

pub skip_room :
    (path : List ℕ)
    → lead (skip_slashes path) + length (skip_slashes path) ≤ lead path + length path
unfolding skip_slashes
skip_room [] = omega arith
skip_room (c ∷ cs) = ground (arith, skip_room cs)

pub read_room :
    (n : ℕ) (path : List ℕ)
    → length (read_component n path).0 + length (read_component n path).1 ≡ length path
unfolding read_component
read_room zero path = omega arith
read_room (suc n) [] = refl
read_room (suc n) (c ∷ cs) = ground (arith, read_room n cs)

read_NoSlash : (n : ℕ) (path : List ℕ) → NoSlash (read_component n path).0
unfolding read_component
read_NoSlash zero path = tt
read_NoSlash (suc n) [] = tt
read_NoSlash (suc n) (c ∷ cs) = elim (Bool-cases (c == slash)) [
  | inl stop ↦ rw stop tt
  | inr on ↦ rw on (on, read_NoSlash n cs)
]

pub read_pos :
    (n c : ℕ) (cs : List ℕ) → (c == slash) ≡ false → 0 < length (read_component (suc n) (c ∷ cs)).0
unfolding read_component
read_pos n c cs e = rw e (omega arith)

lead-Ends : (path : List ℕ) → Ends path → lead path ≡ 0
lead-Ends [] e = refl
lead-Ends (c ∷ cs) e = rw e

pub walk_end :
    (fuel : ℕ) (temp path : List ℕ) → skip_slashes path ≡ [] → walk (suc fuel) temp path ≡ some temp
unfolding walk
walk_end fuel temp path e = rw (e, walk)

pub walk_more :
    (fuel : ℕ) (temp path : List ℕ) (c : ℕ) (cs : List ℕ)
    → skip_slashes path ≡ c ∷ cs
    → walk (suc fuel) temp path
      ≡ walk fuel (step temp (read_component 63 (c ∷ cs)).0) (read_component 63 (c ∷ cs)).1
unfolding walk
walk_more fuel temp path c cs e = rw (e, walk)

pub lead_le : (path : List ℕ) → lead path ≤ 1
lead_le [] = omega arith
lead_le (c ∷ cs) = ground arith

length-leave : (ns : Stack) → length (stacked (leave ns)) ≤ length (stacked ns)
length-leave [] = omega arith
length-leave (n ∷ []) = omega (arith, tower_pos n [])
length-leave (n ∷ m ∷ ns) = omega (arith, length-append (reverse n) (slash ∷ tower (m ∷ ns)))

length-enter :
    (ns : Stack) (comp : List ℕ)
    → length (stacked (enter ns comp)) ≤ length (stacked ns) + 1 + length comp
unfolding enter
length-enter ns comp = elim (Bool-cases (is_dot comp)) [
  | inl one ↦ rw one (omega arith)
  | inr more ↦ rw more (elim (Bool-cases (is_dotdot comp)) [
    | inl two ↦ rw two (omega (arith, length-leave ns))
    | inr name ↦ rw name (
        omega (
          arith,
          length-append (reverse comp) (slash ∷ tower ns),
          length-reverse comp,
          tower_le ns,
        ))
  ])
]

names_nil : names_from [] [] ≡ []
unfolding names_from
names_nil = refl

enter_all_nil : (ns : Stack) → enter_all ns [] ≡ ns
unfolding enter_all
enter_all_nil ns = refl

enter_all-flush :
    (ns : Stack) (n : List ℕ) (rest : Stack)
    → 0 < length n
    → enter_all ns (flush n rest) ≡ enter_all (enter ns n) rest
unfolding enter_all
enter_all-flush ns [] rest pos = absurd (omega arith)
enter_all-flush ns (c ∷ cs) rest pos = refl

Short-flush : (k : ℕ) (n : List ℕ) (rest : Stack) → Short k (flush n rest) → Short k rest
Short-flush k [] rest s = s
Short-flush k (c ∷ cs) rest s = s.1

-- The loop on the text of a stack gives the text of the stack that the names lead to.
pub walk-stacked :
    (fuel : ℕ) (ns : Stack) (path : List ℕ)
    → AllNames ns
    → Short 63 (names_from [] path)
    → length (stacked ns) + (lead path + length path) ≤ room
    → length path < fuel
    → walk fuel (stacked ns) path ≡ some (stacked (enter_all ns (names_from [] path)))
walk-stacked zero ns path p s f enough = absurd (omega arith)
walk-stacked (suc fuel) ns path p s f enough = elim (List-cases (skip_slashes path)) [
  | inl nothing ↦
      let none_left : names_from [] path ≡ [] =
        sym (names_skip path) ∙ ap (names_from []) nothing ∙ names_nil in
      walk_end fuel (stacked ns) path nothing ∙ rw none_left (rw enter_all_nil refl)
  | inr (c, cs, more) ↦
      let comp = (read_component 63 (c ∷ cs)).0 in
      let rest = (read_component 63 (c ∷ cs)).1 in
      let same : names_from [] path ≡ names_from [] (c ∷ cs) =
        sym (names_skip path) ∙ ap (names_from []) more in
      let short : Short 63 (names_from [] (c ∷ cs)) = rw same at s in
      let stop : Ends rest = Ends-of_Short 63 [] (c ∷ cs) short in
      let read : names_from [] (c ∷ cs) ≡ flush comp (names_from [] rest) =
        names_read 63 [] (c ∷ cs) stop in
      let pos : 0 < length comp = read_pos 62 c cs (skip_nonslash path c cs more) in
      let fits : lead (c ∷ cs) + length (c ∷ cs) ≤ lead path + length path =
        rw more at (skip_room path) in
      let one : lead (c ∷ cs) ≡ 1 = rw (skip_nonslash path c cs more) in
      let sum : length comp + length rest ≡ length (c ∷ cs) = read_room 63 (c ∷ cs) in
      let stepped = step-stacked ns comp p (read_NoSlash 63 (c ∷ cs)) pos (omega arith) in
      let zero_lead : lead rest ≡ 0 = lead-Ends rest stop in
      walk_more fuel (stacked ns) path c cs more
      ∙ rw (stepped.0) (
          rw (same, read)
            (rw (enter_all-flush ns comp (names_from [] rest) pos) (
              walk-stacked fuel (enter ns comp) rest stepped.1
                (Short-flush 63 comp (names_from [] rest) (rw read at short))
                (omega (arith, length-enter ns comp)) (omega (arith, lead_le path)))))
]
