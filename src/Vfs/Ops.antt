-- ===== src/Vfs/Ops.antt =====
-- The calls of src/vfs.c that change the tree. Where the source holds a pointer to a node, the model
-- names the node by its path, which is its own (`Vfs.Tree`).
use mathlib.Core.Option
use lite_bsd.Prelude.{
  ℕ, ◌+◌, ◌-◌, Bool, true, false, ◌||◌, not, Option, none, some, List, [], ◌∷◌, ◌++◌, map, leb,
  ◌==◌, if◌then◌else◌, length, take, codes, bytes_eq, min, bit_and,
}
use lite_bsd.Path.{starts_slash, path_parent_dir}
use lite_bsd.Vfs.Node.{
  Mode, regular, directory, symlink, Node, Blobs, set_count, new_blob, vfs_now, is_symlink_node,
  is_dir_node,
}
use lite_bsd.Vfs.Lookup.{
  Vfs, Env, Synth, proc_dir, pid_dir, sys_dir, resolved, find_node, follow_symlinks, synth_lookup,
  synth_ino, strip_prefix,
}

-- A change of the node that `find_node` finds.
unfoldable pub update_in : List ℕ → (Node → Node) → List Node → List Node
update_in path f [] = []
update_in path f (n ∷ ns) = if bytes_eq n.path path then f n ∷ ns else n ∷ update_in path f ns

unfoldable pub update : List ℕ → (Node → Node) → Vfs → Vfs
unfolding update_in
update path f fs =
    if bytes_eq path (codes "/")
    then record fs { root = f fs.root }
    else record fs { nodes = update_in path f fs.nodes }

abbrev pub stamp_dir : Env → Node → Node
stamp_dir env n = record n { mtime = vfs_now env.ticks; ctime = vfs_now env.ticks }

-- `bump_parent`: nothing happens where the parent is no node.
unfoldable pub bump_parent : Env → List ℕ → Vfs → Vfs
unfolding update
bump_parent env path fs = update (path_parent_dir path) (stamp_dir env) fs

-- A node as the calls make it, stamped now.
abbrev pub new_node : Env → List ℕ → List ℕ → ℕ → Mode → ℕ → Node
new_node env path contents size mode ino = record {
  path = path;
  contents = contents;
  size = size;
  mode = mode;
  ino = ino;
  refs = 1;
  synth = false;
  atime = vfs_now env.ticks;
  mtime = vfs_now env.ticks;
  ctime = vfs_now env.ticks;
  blob = none;
}

-- `string_length`
abbrev pub string_length : List ℕ → ℕ
string_length l = min (length l) 255

-- `resolved[0] != '/' || length == 0 || length >= 256`
abbrev pub bad_path : List ℕ → Bool
bad_path path = not (starts_slash path) || (string_length path == 0) || leb 256 (string_length path)

abbrev pub is_some {ℓ} : {A : Type ℓ} → Option A → Bool
is_some none = false
is_some (some a) = true

-- The last lines of the calls that make a node: the parent is stamped before the node goes in front.
unfoldable pub insert_node : Env → Node → Vfs → Vfs
unfolding bump_parent
insert_node env n fs =
    let fs' = bump_parent env n.path fs in
    record fs' { nodes = n ∷ fs'.nodes; next_ino = fs.next_ino + 1 }

-- What a call leaves, and whether it returned 0 (or else -1).
unfoldable pub vfs_mkdir : Env → List ℕ → Vfs → Vfs × Bool
vfs_mkdir env path fs =
    let r = resolved env path in
    if is_some (synth_lookup env r) || is_some (find_node fs r) || bad_path r
    then (fs, false)
    else (insert_node env (new_node env r [] 0 directory fs.next_ino) fs, true)

-- What `vfs_open` returns: NULL, a node made for a generated file, or the node at a path.
pub data Opened : Type 0 where
  failed : Opened
  generated : Node → Opened
  opened : List ℕ → Opened

abbrev pub is_synth_dir : Synth → Bool
is_synth_dir proc_dir = true
is_synth_dir (pid_dir p) = true
is_synth_dir (sys_dir i) = true
is_synth_dir _ = false

abbrev pub synth_node : Env → ℕ → List ℕ → Mode → List ℕ → Node
synth_node env ino path mode bytes =
    record (new_node env (take 255 path) bytes (length bytes) mode ino) { synth = true }

-- `synth_open`: a node outside the list, with the generated text.
unfoldable pub synth_open : Env → List ℕ → Synth → Opened
synth_open env path s =
    if is_synth_dir s
    then generated (synth_node env (synth_ino s) path directory [])
    else elim (env.generate s) [
      | none ↦ failed
      | some bytes ↦ generated (synth_node env (synth_ino s) path regular bytes)
    ]

-- O_CREAT
abbrev pub creates : ℕ → Bool
creates flags = not (bit_and flags 0x40 == 0)

abbrev pub take_ref : List ℕ → Vfs → Vfs
take_ref path fs = update path (λ n. record n { refs = n.refs + 1 }) fs

-- The node that an existing name opens: a link is followed; one that leads nowhere opens itself
-- under O_CREAT and is an error otherwise.
unfoldable pub open_link : Vfs → ℕ → List ℕ → Option (List ℕ)
open_link fs flags path = elim (follow_symlinks fs path) [
  | none ↦ none
  | some target ↦
      if is_some (find_node fs target)
      then some target
      else if creates flags
      then some path
      else none
]

unfoldable pub open_path : Vfs → ℕ → List ℕ → Option (List ℕ)
unfolding open_link
open_path fs flags path = elim (find_node fs path) [
  | none ↦ none
  | some n ↦ if is_symlink_node n then open_link fs flags path else some path
]

unfoldable pub open_found : Vfs → Option (List ℕ) → Vfs × Opened
open_found fs none = (fs, failed)
open_found fs (some path) = (take_ref path fs, opened path)

-- `vfs_open` of a path that is no generated one.
unfoldable pub open_real : Env → ℕ → List ℕ → Vfs → Vfs × Opened
unfolding open_found open_path
open_real env flags r fs =
    if is_some (find_node fs r)
    then open_found fs (open_path fs flags r)
    else if not (creates flags) || (string_length r == 0) || leb 256 (string_length r)
    then (fs, failed)
    else (insert_node env (new_node env r [] 0 regular fs.next_ino) fs, opened r)

unfoldable pub open_at : Env → ℕ → List ℕ → Vfs → Option Synth → Vfs × Opened
open_at env flags r fs (some s) = if creates flags then (fs, failed) else (fs, synth_open env r s)
open_at env flags r fs none = open_real env flags r fs

unfoldable pub vfs_open : Env → List ℕ → ℕ → Vfs → Vfs × Opened
unfolding open_at
vfs_open env path flags fs =
    open_at env flags (resolved env path) fs (synth_lookup env (resolved env path))

-- `vfs_close` of the node at a path; the root keeps its count.
unfoldable pub vfs_close : List ℕ → Vfs → Vfs
vfs_close path fs =
    if bytes_eq path (codes "/") then fs else update path (λ n. record n { refs = n.refs - 1 }) fs

-- `data_release`: one holder less.
abbrev pub data_release : Option ℕ → Blobs → Blobs
data_release none bl = bl
data_release (some b) bl = set_count bl b (bl.count b - 1)

unfoldable pub remove_in : List ℕ → List Node → List Node
remove_in path [] = []
remove_in path (n ∷ ns) = if bytes_eq n.path path then ns else n ∷ remove_in path ns

-- The links of `nodes` alone are searched: the root is not among them.
unfoldable pub unlink_node : Env → List ℕ → Option Node → Vfs → Vfs × Bool
unfolding remove_in
unlink_node env r none fs = (fs, false)
unlink_node env r (some n) fs = (
  bump_parent env r
      (record fs { nodes = remove_in r fs.nodes; blobs = data_release n.blob fs.blobs }),
  true,
)

unfoldable pub vfs_unlink : Env → List ℕ → Vfs → Vfs × Bool
unfolding unlink_node
vfs_unlink env path fs =
    let r = resolved env path in
    if is_some (synth_lookup env r) || bytes_eq r (codes "/")
    then (fs, false)
    else unlink_node env r (find_node fs r) fs

-- `data_share`: the counter of the target, made with the first link.
abbrev pub shared_blob : Node → Vfs → ℕ
shared_blob target fs = Option.get_or target.blob fs.blobs.next

abbrev pub share : Option ℕ → Blobs → Blobs
share none bl = new_blob bl 2
share (some b) bl = set_count bl b (bl.count b + 1)

unfoldable pub link_node : Env → List ℕ → List ℕ → Node → Vfs → Vfs
link_node env r target_r target fs =
    let blob = some (shared_blob target fs) in
    let fs' = update target_r (λ n. record n { blob = blob; ctime = vfs_now env.ticks }) fs in
    insert_node env
      (record (new_node env r target.contents target.size target.mode fs.next_ino) { blob = blob })
      (record fs' { blobs = share target.blob fs.blobs })

unfoldable pub link_found : Env → List ℕ → List ℕ → Option Node → Vfs → Vfs × Bool
unfolding link_node
link_found env r target_r none fs = (fs, false)
link_found env r target_r (some target) fs =
    if is_dir_node target || is_some (find_node fs r) || bad_path r
    then (fs, false)
    else (link_node env r target_r target fs, true)

unfoldable pub vfs_link : Env → List ℕ → List ℕ → Vfs → Vfs × Bool
unfolding link_found
vfs_link env path target_path fs =
    let r = resolved env path in
    let target_r = resolved env target_path in
    if is_some (synth_lookup env r) || is_some (synth_lookup env target_r)
    then (fs, false)
    else link_found env r target_r (find_node fs target_r) fs

-- `vfs_symlink`; the text is stored with its NUL and cut at 255 bytes.
unfoldable pub vfs_symlink : Env → List ℕ → List ℕ → Vfs → Vfs × Bool
vfs_symlink env target linkpath fs =
    let r = resolved env linkpath in
    let text = take 255 target in
    if is_some (synth_lookup env r) || is_some (find_node fs r) || bad_path r || (length text == 0)
    then (fs, false)
    else (
      insert_node env (new_node env r (text ++ (0 ∷ [])) (length text) symlink fs.next_ino) fs,
      true,
    )

-- `vfs_readlink`: the bytes copied, at most `bufsize`.
unfoldable pub read_link : ℕ → Option Node → Option (List ℕ)
read_link bufsize none = none
read_link bufsize (some n) =
    if not (is_symlink_node n) || (length n.contents == 0)
    then none
    else some (take (min n.size bufsize) n.contents)

unfoldable pub vfs_readlink : Env → List ℕ → ℕ → Vfs → Option (List ℕ)
unfolding read_link
vfs_readlink env path bufsize fs =
    if bufsize == 0 then none else read_link bufsize (find_node fs (resolved env path))

-- `vfs_chdir`: the new working directory, `none` for -1. The copy to `task->cwd` keeps 255 bytes.
unfoldable pub vfs_chdir : Env → List ℕ → Vfs → Option (List ℕ)
vfs_chdir env path fs = elim (synth_lookup env (resolved env path)) [
  | some s ↦ if is_synth_dir s then some (take 255 (resolved env path)) else none
  | none ↦ elim (follow_symlinks fs (resolved env path)) [
    | none ↦ none
    | some r ↦ elim (find_node fs r) [
      | none ↦ none
      | some n ↦ if is_dir_node n then some (take 255 r) else none
    ]
  ]
]

unfoldable pub vfs_access : Env → List ℕ → Vfs → Bool
vfs_access env path fs =
    is_some (synth_lookup env (resolved env path))
    || elim (follow_symlinks fs (resolved env path)) [
      | none ↦ false
      | some r ↦ is_some (find_node fs r)
    ]

-- A node below the directory `old` moves with it; paths are cut at 255 bytes.
abbrev pub moved : List ℕ → Option (List ℕ) → Node → Node
moved new none n = n
moved new (some rest) n =
    if starts_slash rest then record n { path = take 255 (new ++ rest) } else n

unfoldable pub move_below : List ℕ → List ℕ → Node → Node
unfolding strip_prefix
move_below old new n = if bytes_eq n.path new then n else moved new (strip_prefix old n.path) n

unfoldable pub rename_node : Env → List ℕ → List ℕ → Node → Vfs → Vfs
unfolding move_below
rename_node env old new n fs =
    let fs' = update old (λ m. record m { path = take 255 new; ctime = vfs_now env.ticks }) fs in
    let fs'' = bump_parent env new (bump_parent env old fs') in
    if is_dir_node n then record fs'' { nodes = map (move_below old new) fs''.nodes } else fs''

unfoldable pub rename_found : Env → List ℕ → List ℕ → Option Node → Vfs → Vfs × Bool
unfolding rename_node
rename_found env old new none fs = (fs, false)
rename_found env old new (some n) fs =
    if is_some (find_node fs new) then (fs, false) else (rename_node env old new n fs, true)

unfoldable pub vfs_rename : Env → List ℕ → List ℕ → Vfs → Vfs × Bool
unfolding rename_found
vfs_rename env oldpath newpath fs =
    let old = resolved env oldpath in
    let new = resolved env newpath in
    if is_some (synth_lookup env old) || is_some (synth_lookup env new)
    then (fs, false)
    else if bytes_eq old (codes "/") || bytes_eq new (codes "/")
    then (fs, false)
    else if bytes_eq old new
    then (fs, true)
    else rename_found env old new (find_node fs old) fs

-- Whether a node lies below a directory.
abbrev pub is_below : Option (List ℕ) → Bool
is_below none = false
is_below (some rest) = starts_slash rest

unfoldable pub has_below : List ℕ → List Node → Bool
has_below path [] = false
has_below path (n ∷ ns) = is_below (strip_prefix path n.path) || has_below path ns

-- `vfs_rmdir`: an empty directory is removed by `vfs_unlink`.
unfoldable pub vfs_rmdir : Env → List ℕ → Vfs → Vfs × Bool
unfolding has_below
vfs_rmdir env path fs =
    let r = resolved env path in
    if bytes_eq r (codes "/") then (fs, false) else elim (find_node fs r) [
      | none ↦ (fs, false)
      | some n ↦
          if not (is_dir_node n) || is_symlink_node n || has_below r fs.nodes
          then (fs, false)
          else vfs_unlink env path fs
    ]
