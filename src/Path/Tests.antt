-- ===== src/Path/Tests.antt =====
-- Path resolution of src/vfs.c on small paths, and the theorems at them.
use lite_bsd.Prelude.{
  ℕ, ◌≤◌, ◌<◌, ◌≡◌, refl, some, List, [], ◌∷◌, true, arith, length, codes, replicate, ◌++◌,
}
use lite_bsd.Path.{room, starts_slash, vfs_resolve_path, path_parent_dir}
use lite_bsd.Path.Spec.{Stack, AllNames, names, enter_all}
use lite_bsd.Path.Resolve.{vfs_resolve_path-text, vfs_resolve_path-total, path_parent_dir-text}

up_and_down :
    vfs_resolve_path (codes "/usr/lib") (codes "..//bin/./ls") 256 ≡ some (codes "/usr/bin/ls")
unfolding vfs_resolve_path
up_and_down = refl

-- A name of more than 63 bytes is read as two components.
long_name_splits :
    vfs_resolve_path (codes "/") (replicate 64 0x61) 256
    ≡ some (codes "/" ++ (replicate 63 0x61 ++ codes "/a"))
unfolding vfs_resolve_path
long_name_splits = refl

parent_of_root_entry : path_parent_dir (codes "/etc/") ≡ codes "/"
unfolding path_parent_dir
parent_of_root_entry = refl

-- `/usr/lib`
abbrev lib : Stack
lib = codes "lib" ∷ codes "usr" ∷ []

lib-AllNames : AllNames lib
lib-AllNames = (
  ((refl, (refl, (refl, tt))), refl, refl, refl),
  (((refl, (refl, (refl, tt))), refl, refl, refl), tt),
)

vfs_resolve_path-text_example :
    vfs_resolve_path (codes "/usr/lib") (codes "../bin") 256 ≡ some (codes "/usr/bin")
unfolding names enter_all
vfs_resolve_path-text_example =
    vfs_resolve_path-text lib 0x2e (codes "./bin") lib-AllNames (omega arith) (omega arith)

vfs_resolve_path-total_example :
    (out : List ℕ) × (vfs_resolve_path (codes "/usr") (codes "a/b") 8 ≡ some out)
    × (starts_slash out ≡ true)
    × (length out < 8)
    × (length out ≤ room)
vfs_resolve_path-total_example =
    vfs_resolve_path-total (codes "/usr") 0x61 (codes "/b") 8 (omega arith)

path_parent_dir-text_example : path_parent_dir (codes "/usr/lib") ≡ codes "/usr"
path_parent_dir-text_example =
    path_parent_dir-text (codes "lib") (codes "usr" ∷ []) lib-AllNames (omega arith)
