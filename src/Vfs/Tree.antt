-- ===== src/Vfs/Tree.antt =====
-- The calls of src/vfs.c that make names: each is an insertion into the map from paths.
use mathlib.Core.Path.{subst}
use mathlib.Core.Option
use lite_bsd.Prelude.{
  not, ◌&&◌, ℕ, ◌+◌, ◌≡◌, refl, ap, ◌∙◌, inl, inr, Bool, true, false, ◌||◌, Option, none, some,
  List, [], ◌∷◌, ◌++◌, ◌==◌, leb, if◌then◌else◌, Bool-cases, arith, codes, bytes_eq, length, take,
}
use lite_bsd.Path.{starts_slash, path_parent_dir}
use lite_bsd.Vfs.Node.{Node, Mode, regular, directory, symlink}
use lite_bsd.Vfs.Lookup.{Vfs, Env, resolved, find_in, find_node, synth_lookup}
use lite_bsd.Vfs.Ops.{
  update, bump_parent, new_node, bad_path, string_length, stamp_dir, is_some, insert_node,
  vfs_mkdir, opened, creates, open_real, open_at, vfs_open, vfs_symlink,
}
use lite_bsd.Vfs.Nodes.{bytes_eq_iff, entry, look, look-update, IsTree, update-IsTree}

pub bump_parent-look :
    (env : Env) (p q : List ℕ) (fs : Vfs) → look (bump_parent env p fs) q ≡ look fs q
unfolding bump_parent
bump_parent-look env p q fs =
    look-update (path_parent_dir p) q (stamp_dir env) fs
      (record { path = λ n. refl; entry_same = λ n. refl })

pub bump_parent-IsTree :
    (env : Env) (p : List ℕ) (fs : Vfs) → IsTree fs → IsTree (bump_parent env p fs)
unfolding bump_parent
bump_parent-IsTree env p fs t = update-IsTree (path_parent_dir p) (stamp_dir env) fs (λ n. refl) t

-- A node in front of the list.
push : Node → ℕ → Vfs → Vfs
push n ino fs = record fs { nodes = n ∷ fs.nodes; next_ino = ino }

push-look :
    (n : Node) (ino : ℕ) (fs : Vfs) (q : List ℕ)
    → bytes_eq n.path (codes "/") ≡ false
    → look (push n ino fs) q ≡ (if bytes_eq n.path q then some (entry n) else look fs q)
unfolding push find_node find_in
push-look n ino fs q e = elim (Bool-cases (bytes_eq q (codes "/"))) [
  | inl top ↦
      let apart : bytes_eq n.path q ≡ false =
        ap (bytes_eq n.path) ((bytes_eq_iff q (codes "/")).0 top) ∙ e in
      rw top (rw apart refl)
  | inr below ↦
      rw below
        (elim (Bool-cases (bytes_eq n.path q)) [ inl hit ↦ rw hit refl | inr miss ↦ rw miss refl ])
]

pub is_some-none : {A : Type 0} (o : Option A) → is_some o ≡ false → o ≡ none
is_some-none none e = refl
is_some-none (some a) e = cc

find_in-none :
    (q : List ℕ) (fs : Vfs)
    → bytes_eq q (codes "/") ≡ false
    → find_node fs q ≡ none
    → find_in q fs.nodes ≡ none
unfolding find_node
find_in-none q fs below e = rw below at e

push-IsTree :
    (n : Node) (ino : ℕ) (fs : Vfs)
    → bytes_eq n.path (codes "/") ≡ false
    → starts_slash n.path ≡ true
    → find_in n.path fs.nodes ≡ none
    → IsTree fs
    → IsTree (push n ino fs)
unfolding push find_in
push-IsTree n ino fs below abs new t = record {
  distinct = (new, abs, t.distinct);
  no_root = rw below t.no_root;
}

-- A name that no node has is not the root's.
not_root : (q : List ℕ) (fs : Vfs) → find_node fs q ≡ none → bytes_eq q (codes "/") ≡ false
unfolding find_node
not_root q fs e = elim (Bool-cases (bytes_eq q (codes "/"))) [
  | inr below ↦ below
  | inl root ↦ absurd (some-none (rw root at e))
]
  where
    some-none : {m : Node} → Option.some m ≡ none → ⊥
    some-none h = cc

pub look_none : (o : Option Node) → Option.map entry o ≡ none → o ≡ none
look_none none e = refl
look_none (some n) e = cc

-- The tree `fs'` is `fs` with the entry `e` under the new path `r`.
pub record Made (r : List ℕ) (e : Mode × List ℕ) (fs fs' : Vfs) : Type 0 where
  pub tree : IsTree fs'
  pub new : look fs r ≡ none
  pub looks : (q : List ℕ) → look fs' q ≡ (if bytes_eq r q then some e else look fs q)

pub insert_node-Made :
    (env : Env) (n : Node) (fs : Vfs)
    → IsTree fs
    → find_node fs n.path ≡ none
    → starts_slash n.path ≡ true
    → Made n.path (entry n) fs (insert_node env n fs)
unfolding insert_node push bump_parent update
insert_node-Made env n fs t absent abs =
    let below = not_root n.path fs absent in
    let bumped = bump_parent env n.path fs in
    let gone : find_in n.path bumped.nodes ≡ none = find_in-none n.path bumped below (
      look_none (find_node bumped n.path)
        (bump_parent-look env n.path n.path fs ∙ ap (Option.map entry) absent)) in
    record {
      tree =
          push-IsTree n (fs.next_ino + 1) bumped below abs gone
            (bump_parent-IsTree env n.path fs t);
      new = ap (Option.map entry) absent;
      looks = λ q.
          push-look n (fs.next_ino + 1) bumped q below
          ∙ ap (λ o. if bytes_eq n.path q then some (entry n) else o)
              (bump_parent-look env n.path q fs);
    }

-- A call that makes the entry `e` under `r` does so and returns 0, or returns -1 and changes nothing.
abbrev pub Makes : List ℕ → Mode × List ℕ → Vfs → Vfs × Bool → Type 0
Makes r e fs (fs', true) = Made r e fs fs'
Makes r e fs (fs', false) = fs' ≡ fs

pub slash_of_good : (r : List ℕ) → bad_path r ≡ false → starts_slash r ≡ true
slash_of_good r e = elim (Bool-cases (starts_slash r)) [
  | inl abs ↦ abs
  | inr rel ↦ absurd (true_false (rw rel at e))
]
  where
    true_false : Bool.true ≡ false → ⊥
    true_false h = cc

pub or_false : (a b : Bool) → (a || b) ≡ false → (a ≡ false) × (b ≡ false)
or_false a b h = ground arith

pub bad_path_lem : (r : List ℕ) → bad_path r ≡ not (starts_slash r)
bad_path_lem [] = refl
bad_path_lem (c ∷ r) = ground arith

-- A name that a call may make: an absolute one, not a generated one, that leads nowhere.
abbrev pub is_new : Env → List ℕ → Vfs → Bool
is_new env r fs =
    not (is_some (synth_lookup env r)) && not (is_some (find_node fs r)) && starts_slash r

refuses : (a b c d : Bool) → d ≡ not c → (a || b || d) ≡ true → false ≡ (not a && not b && c)
refuses a b c d e h = ground arith

accepts : (a b c d : Bool) → d ≡ not c → (a || b || d) ≡ false → true ≡ (not a && not b && c)
accepts a b c d e h = ground arith

vfs_mkdir-is_new :
    (env : Env) (path : List ℕ) (fs : Vfs)
    → (vfs_mkdir env path fs).1 ≡ is_new env (resolved env path) fs
unfolding vfs_mkdir
vfs_mkdir-is_new env path fs =
    let r = resolved env path in
    let s = is_some (synth_lookup env r) in
    let there = is_some (find_node fs r) in
    elim (Bool-cases (s || there || bad_path r)) [
      | inl refused ↦
          rw refused (refuses s there (starts_slash r) (bad_path r) (bad_path_lem r) refused)
      | inr free ↦ rw free (accepts s there (starts_slash r) (bad_path r) (bad_path_lem r) free)
    ]

vfs_mkdir_tree :
    (env : Env) (path : List ℕ) (fs : Vfs)
    → IsTree fs
    → Makes (resolved env path) (directory, []) fs (vfs_mkdir env path fs)
unfolding vfs_mkdir
vfs_mkdir_tree env path fs t =
    let r = resolved env path in
    let s = is_some (synth_lookup env r) in
    let there = is_some (find_node fs r) in
    elim (Bool-cases (s || there || bad_path r)) [
      | inl refused ↦ rw refused refl
      | inr free ↦
          let first = or_false (s || there) (bad_path r) free in
          rw free (
            insert_node-Made env (new_node env r [] 0 directory fs.next_ino) fs t
              (is_some-none (find_node fs r) (or_false s there first.0).1)
              (slash_of_good r first.1))
    ]

-- `vfs_mkdir` returns 0 exactly for an absolute path that is no generated one and leads nowhere. It
-- then makes an empty directory there and leaves what every other path shows, with the paths
-- distinct and absolute; else it changes nothing.
pub vfs_mkdir-Makes :
    (env : Env) (path : List ℕ) (fs : Vfs)
    → IsTree fs
    → ((vfs_mkdir env path fs).1 ≡ is_new env (resolved env path) fs)
      × Makes (resolved env path) (directory, []) fs (vfs_mkdir env path fs)
vfs_mkdir-Makes env path fs t = (vfs_mkdir-is_new env path fs, vfs_mkdir_tree env path fs t)

more_refuses :
    (a b c d e : Bool)
    → d ≡ not c
    → (a || b || d || e) ≡ true
    → false ≡ (not a && not b && c && not e)
more_refuses a b c d e h k = ground arith

more_accepts :
    (a b c d e : Bool)
    → d ≡ not c
    → (a || b || d || e) ≡ false
    → true ≡ (not a && not b && c && not e)
more_accepts a b c d e h k = ground arith

vfs_symlink-is_new :
    (env : Env) (target linkpath : List ℕ) (fs : Vfs)
    → (vfs_symlink env target linkpath fs).1
      ≡ (is_new env (resolved env linkpath) fs && not (length (take 255 target) == 0))
unfolding vfs_symlink
vfs_symlink-is_new env target linkpath fs =
    let r = resolved env linkpath in
    let s = is_some (synth_lookup env r) in
    let there = is_some (find_node fs r) in
    let empty = length (take 255 target) == 0 in
    elim (Bool-cases (s || there || bad_path r || empty)) [
      | inl refused ↦
          rw refused
            (more_refuses s there (starts_slash r) (bad_path r) empty (bad_path_lem r) refused)
      | inr free ↦
          rw free (more_accepts s there (starts_slash r) (bad_path r) empty (bad_path_lem r) free)
    ]

vfs_symlink_tree :
    (env : Env) (target linkpath : List ℕ) (fs : Vfs)
    → IsTree fs
    → Makes
        (resolved env linkpath)
        (symlink, take 255 target)
        fs
        (vfs_symlink env target linkpath fs)
unfolding vfs_symlink
vfs_symlink_tree env target linkpath fs t =
    let r = resolved env linkpath in
    let text = take 255 target in
    let s = is_some (synth_lookup env r) in
    let there = is_some (find_node fs r) in
    elim (Bool-cases (s || there || bad_path r || (length text == 0))) [
      | inl refused ↦ rw refused refl
      | inr free ↦
          let first = or_false (s || there || bad_path r) (length text == 0) free in
          let second = or_false (s || there) (bad_path r) first.0 in
          let n = new_node env r (text ++ (0 ∷ [])) (length text) symlink fs.next_ino in
          rw free (
            subst (λ l. Made r (symlink, l) fs (insert_node env n fs)) (take_front text)
              (insert_node-Made env n fs t
                (is_some-none (find_node fs r) (or_false s there second.0).1)
                (slash_of_good r second.1)))
    ]
  where
    take_front : (l : List ℕ) → take (length l) (l ++ (0 ∷ [])) ≡ l
    take_front [] = refl
    take_front (x ∷ l) = ap (◌∷◌ x) (take_front l)

-- `vfs_symlink` returns 0 exactly for an absolute path that is no generated one and leads nowhere,
-- and a target that is not empty. It then makes a link there whose text is the target, cut at 255
-- bytes, and leaves what every other path shows; else it changes nothing.
pub vfs_symlink-Makes :
    (env : Env) (target linkpath : List ℕ) (fs : Vfs)
    → IsTree fs
    → ((vfs_symlink env target linkpath fs).1
        ≡ (is_new env (resolved env linkpath) fs && not (length (take 255 target) == 0)))
      × Makes
          (resolved env linkpath)
          (symlink, take 255 target)
          fs
          (vfs_symlink env target linkpath fs)
vfs_symlink-Makes env target linkpath fs t =
    (vfs_symlink-is_new env target linkpath fs, vfs_symlink_tree env target linkpath fs t)

-- The two tests of an absolute path's length never fire.
fits_length :
    (r : List ℕ)
    → starts_slash r ≡ true
    → ((string_length r == 0) || leb 256 (string_length r)) ≡ false
fits_length [] e = cc
fits_length (c ∷ r) e = ground arith

open_real-Made :
    (env : Env) (flags : ℕ) (r : List ℕ) (fs : Vfs)
    → IsTree fs
    → creates flags ≡ true
    → find_node fs r ≡ none
    → starts_slash r ≡ true
    → (fs' : Vfs) × (open_real env flags r fs ≡ (fs', opened r)) × Made r (regular, []) fs fs'
unfolding open_real
open_real-Made env flags r fs t c absent abs = (
  insert_node env (new_node env r [] 0 regular fs.next_ino) fs,
  rw absent (rw c (rw (fits_length r abs) refl)),
  insert_node-Made env (new_node env r [] 0 regular fs.next_ino) fs t absent abs,
)

-- With O_CREAT, `vfs_open` of a path that is no generated one and leads nowhere makes an empty
-- regular file there and returns it; what every other path shows stays, and the paths stay
-- distinct and absolute.
pub vfs_open-Made :
    (env : Env) (path : List ℕ) (flags : ℕ) (fs : Vfs)
    → IsTree fs
    → creates flags ≡ true
    → synth_lookup env (resolved env path) ≡ none
    → find_node fs (resolved env path) ≡ none
    → starts_slash (resolved env path) ≡ true
    → (fs' : Vfs) × (vfs_open env path flags fs ≡ (fs', opened (resolved env path)))
      × Made (resolved env path) (regular, []) fs fs'
unfolding vfs_open
vfs_open-Made env path flags fs t c s absent abs =
    let made = open_real-Made env flags (resolved env path) fs t c absent abs in
    (made.0, ap (open_at env flags (resolved env path) fs) s ∙ made.1, made.2)
