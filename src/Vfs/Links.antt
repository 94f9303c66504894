-- ===== src/Vfs/Links.antt =====
-- The calls of src/vfs.c that remove a name or give a file a second one.
use mathlib.Core.Option
use lite_bsd.Prelude.{
  not, ◌&&◌, arith, ℕ, ◌≡◌, refl, sym, ap, ◌∙◌, inl, inr, Bool, true, false, ◌||◌, Option, none,
  some, List, if◌then◌else◌, Bool-cases, codes, bytes_eq,
}
use lite_bsd.Path.{starts_slash}
use lite_bsd.Vfs.Node.{Node, Mode, Blobs, is_dir_node, vfs_now}
use lite_bsd.Vfs.Lookup.{Vfs, Env, resolved, find_node, synth_lookup}
use lite_bsd.Vfs.Ops.{
  update, new_node, bad_path, is_some, data_release, remove_in, unlink_node, vfs_unlink,
  shared_blob, share, link_node, link_found, vfs_link,
}
use lite_bsd.Vfs.Nodes.{
  bytes_eq_iff, entry, look, look_in-remove_in, find_in-remove_in-none, Distinct-remove_in, IsTree,
  look-update, update-IsTree,
}
use lite_bsd.Vfs.Tree.{
  bump_parent-look, bump_parent-IsTree, look_none, Made, insert_node-Made, Makes, is_some-none,
  slash_of_good, bad_path_lem, is_new, or_false,
}

-- The tree `fs'` is `fs` without the path `r`.
pub record Removed (r : List ℕ) (fs fs' : Vfs) : Type 0 where
  pub tree : IsTree fs'
  pub looks : (q : List ℕ) → look fs' q ≡ (if bytes_eq r q then none else look fs q)

-- A call that removes `r` does so and returns 0, or returns -1 and changes nothing.
abbrev pub Removes : List ℕ → Vfs → Vfs × Bool → Type 0
Removes r fs (fs', true) = Removed r fs fs'
Removes r fs (fs', false) = fs' ≡ fs

remove-look :
    (r q : List ℕ) (bl : Blobs) (fs : Vfs)
    → IsTree fs
    → bytes_eq r (codes "/") ≡ false
    → look (record fs { nodes = remove_in r fs.nodes; blobs = bl }) q
      ≡ (if bytes_eq r q then none else look fs q)
unfolding find_node
remove-look r q bl fs t below = elim (Bool-cases (bytes_eq q (codes "/"))) [
  | inl top ↦
      let apart : bytes_eq r q ≡ false =
        ap (bytes_eq r) ((bytes_eq_iff q (codes "/")).0 top) ∙ below in
      rw top (rw apart refl)
  | inr under ↦ rw under (look_in-remove_in r q fs.nodes t.distinct)
]

unlink_node-Removes :
    (env : Env) (r : List ℕ) (o : Option Node) (fs : Vfs)
    → IsTree fs
    → bytes_eq r (codes "/") ≡ false
    → Removes r fs (unlink_node env r o fs)
unfolding unlink_node
unlink_node-Removes env r none fs t below = refl
unlink_node-Removes env r (some n) fs t below =
    let bl = data_release n.blob fs.blobs in
    let gone = record fs { nodes = remove_in r fs.nodes; blobs = bl } in
    record {
      tree = bump_parent-IsTree env r gone (record {
        distinct = Distinct-remove_in r fs.nodes t.distinct;
        no_root = find_in-remove_in-none r (codes "/") fs.nodes t.no_root;
      });
      looks = λ q. bump_parent-look env r q gone ∙ remove-look r q bl fs t below;
    }

vfs_unlink_tree :
    (env : Env) (path : List ℕ) (fs : Vfs)
    → IsTree fs
    → Removes (resolved env path) fs (vfs_unlink env path fs)
unfolding vfs_unlink
vfs_unlink_tree env path fs t =
    let r = resolved env path in
    let s = is_some (synth_lookup env r) in
    elim (Bool-cases (s || bytes_eq r (codes "/"))) [
      | inl refused ↦ rw refused refl
      | inr free ↦ rw free (
          unlink_node-Removes env r (find_node fs r) fs t
            (or_false s (bytes_eq r (codes "/")) free).1)
    ]

unlink_node-is_some :
    (env : Env) (r : List ℕ) (o : Option Node) (fs : Vfs) → (unlink_node env r o fs).1 ≡ is_some o
unfolding unlink_node
unlink_node-is_some env r none fs = refl
unlink_node-is_some env r (some n) fs = refl

vfs_unlink-is_some :
    (env : Env) (path : List ℕ) (fs : Vfs)
    → (vfs_unlink env path fs).1 ≡ (
        not (
          is_some (synth_lookup env (resolved env path))
          || bytes_eq (resolved env path) (codes "/"))
        && is_some (find_node fs (resolved env path)))
unfolding vfs_unlink
vfs_unlink-is_some env path fs =
    let r = resolved env path in
    elim (Bool-cases (is_some (synth_lookup env r) || bytes_eq r (codes "/"))) [
      | inl refused ↦ rw refused refl
      | inr free ↦ rw free (unlink_node-is_some env r (find_node fs r) fs)
    ]

-- `vfs_unlink` returns 0 exactly for a path that leads to a node, other than the root and the
-- generated ones. It then takes the path out of the tree and leaves what every other path shows;
-- else it changes nothing.
pub vfs_unlink-Removes :
    (env : Env) (path : List ℕ) (fs : Vfs)
    → IsTree fs
    → ((vfs_unlink env path fs).1 ≡ (
        not (
          is_some (synth_lookup env (resolved env path))
          || bytes_eq (resolved env path) (codes "/"))
        && is_some (find_node fs (resolved env path))))
      × Removes (resolved env path) fs (vfs_unlink env path fs)
vfs_unlink-Removes env path fs t = (vfs_unlink-is_some env path fs, vfs_unlink_tree env path fs t)

-- A call after a change that no path shows.
Made-after :
    {r : List ℕ} {e : Mode × List ℕ} (fs mid fs' : Vfs)
    → ((q : List ℕ) → look mid q ≡ look fs q)
    → Made r e mid fs'
    → Made r e fs fs'
Made-after {r} {e} fs mid fs' same m = record {
  tree = m.tree;
  new = sym (same r) ∙ m.new;
  looks = λ q. m.looks q ∙ ap (λ o. if bytes_eq r q then some e else o) (same q);
}

-- The target with its counter, before the new name goes in.
abbrev counted : Env → List ℕ → Node → Vfs → Vfs
counted env target_r target fs =
    record (update target_r
      (λ n. record n { blob = some (shared_blob target fs); ctime = vfs_now env.ticks }) fs) {
        blobs = share target.blob fs.blobs;
      }

counted-look :
    (env : Env) (target_r : List ℕ) (target : Node) (fs : Vfs) (q : List ℕ)
    → look (counted env target_r target fs) q ≡ look fs q
unfolding find_node
counted-look env target_r target fs q =
    look-update target_r q
      (λ n. record n { blob = some (shared_blob target fs); ctime = vfs_now env.ticks }) fs
      (record { path = λ n. refl; entry_same = λ n. refl })

link_node-Made :
    (env : Env) (r target_r : List ℕ) (target : Node) (fs : Vfs)
    → IsTree fs
    → find_node fs r ≡ none
    → starts_slash r ≡ true
    → Made r (entry target) fs (link_node env r target_r target fs)
unfolding link_node
link_node-Made env r target_r target fs t absent abs =
    let mid = counted env target_r target fs in
    let n = record (new_node env r target.contents target.size target.mode fs.next_ino) {
      blob = some (shared_blob target fs);
    } in
    let kept =
      update-IsTree target_r
        (λ m. record m { blob = some (shared_blob target fs); ctime = vfs_now env.ticks }) fs
        (λ m. refl) t in
    Made-after fs mid (link_node env r target_r target fs) (counted-look env target_r target fs) (
      insert_node-Made env n mid (record { distinct = kept.distinct; no_root = kept.no_root })
        (look_none (find_node mid r)
          (counted-look env target_r target fs r ∙ ap (Option.map entry) absent))
        abs)

link_found-Makes :
    (env : Env) (r target_r : List ℕ) (target : Node) (fs : Vfs)
    → IsTree fs
    → Makes r (entry target) fs (link_found env r target_r (some target) fs)
unfolding link_found
link_found-Makes env r target_r target fs t =
    let d = is_dir_node target in
    let there = is_some (find_node fs r) in
    elim (Bool-cases (d || there || bad_path r)) [
      | inl refused ↦ rw refused refl
      | inr free ↦
          let first = or_false (d || there) (bad_path r) free in
          rw free (
            link_node-Made env r target_r target fs t
              (is_some-none (find_node fs r) (or_false d there first.0).1)
              (slash_of_good r first.1))
    ]

vfs_link_tree :
    (env : Env) (path target_path : List ℕ) (target : Node) (fs : Vfs)
    → IsTree fs
    → find_node fs (resolved env target_path) ≡ some target
    → Makes (resolved env path) (entry target) fs (vfs_link env path target_path fs)
unfolding vfs_link
vfs_link_tree env path target_path target fs t found =
    let r = resolved env path in
    let target_r = resolved env target_path in
    elim (Bool-cases (is_some (synth_lookup env r) || is_some (synth_lookup env target_r))) [
      | inl refused ↦ rw refused refl
      | inr free ↦ rw free (rw found (link_found-Makes env r target_r target fs t))
    ]

link_refuses :
    (s t dir there slash bad : Bool)
    → bad ≡ not slash
    → (s || t) ≡ true
    → false ≡ (not t && not dir && (not s && not there && slash))
link_refuses s t dir there slash bad e h = ground arith

link_full :
    (d there slash bad : Bool)
    → bad ≡ not slash
    → (d || there || bad) ≡ true
    → false ≡ (not d && (not there && slash))
link_full d there slash bad e h = ground arith

link_free :
    (d there slash bad : Bool)
    → bad ≡ not slash
    → (d || there || bad) ≡ false
    → true ≡ (not d && (not there && slash))
link_free d there slash bad e h = ground arith

link_found-is_new :
    (env : Env) (r target_r : List ℕ) (target : Node) (fs : Vfs) (t : Bool)
    → is_some (synth_lookup env r) ≡ false
    → t ≡ false
    → (link_found env r target_r (some target) fs).1
      ≡ (not t && not (is_dir_node target) && is_new env r fs)
unfolding link_found
link_found-is_new env r target_r target fs t e f =
    let d = is_dir_node target in
    let there = is_some (find_node fs r) in
    rw e (
      rw f (elim (Bool-cases (d || there || bad_path r)) [
        | inl refused ↦
            rw refused (link_full d there (starts_slash r) (bad_path r) (bad_path_lem r) refused)
        | inr free ↦ rw free (link_free d there (starts_slash r) (bad_path r) (bad_path_lem r) free)
      ]))

vfs_link-is_new :
    (env : Env) (path target_path : List ℕ) (target : Node) (fs : Vfs)
    → find_node fs (resolved env target_path) ≡ some target
    → (vfs_link env path target_path fs).1 ≡ (
        not (is_some (synth_lookup env (resolved env target_path)))
        && not (is_dir_node target)
        && is_new env (resolved env path) fs)
unfolding vfs_link
vfs_link-is_new env path target_path target fs found =
    let r = resolved env path in
    let target_r = resolved env target_path in
    let s = is_some (synth_lookup env r) in
    let t = is_some (synth_lookup env target_r) in
    elim (Bool-cases (s || t)) [
      | inl refused ↦ rw refused (
          link_refuses s t (is_dir_node target) (is_some (find_node fs r)) (starts_slash r)
            (bad_path r) (bad_path_lem r) refused)
      | inr free ↦ rw free (
          rw found (
            link_found-is_new env r target_r target fs t (or_false s t free).0
              (or_false s t free).1))
    ]

-- `vfs_link` to a node returns 0 exactly where the node is no directory and no generated one, and
-- the new path is absolute, no generated one and leads nowhere. It then gives the new path the
-- node's mode and bytes and leaves what every other path shows; else it changes nothing.
pub vfs_link-Makes :
    (env : Env) (path target_path : List ℕ) (target : Node) (fs : Vfs)
    → IsTree fs
    → find_node fs (resolved env target_path) ≡ some target
    → ((vfs_link env path target_path fs).1 ≡ (
        not (is_some (synth_lookup env (resolved env target_path)))
        && not (is_dir_node target)
        && is_new env (resolved env path) fs))
      × Makes (resolved env path) (entry target) fs (vfs_link env path target_path fs)
vfs_link-Makes env path target_path target fs t found = (
  vfs_link-is_new env path target_path target fs found,
  vfs_link_tree env path target_path target fs t found,
)
