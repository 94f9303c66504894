-- ===== src/Path.antt =====
-- Path strings of src/vfs.c: `vfs_resolve_path` and `path_parent_dir`. A C string is the list of
-- its bytes before the NUL; a NULL argument behaves as the empty string in both. The buffer `temp`
-- is kept with its last byte first, so that `len` is its length and `temp[len - 1]` its head.
pub mod Spec
pub mod Total
pub mod Resolve
pub mod Refine
mod Tests
use mathlib.Core.Option
use mathlib.Core.List.{reverse}
use lite_bsd.Prelude.{
  ℕ, zero, suc, ◌+◌, ◌-◌, Bool, true, false, Option, none, some, List, [], ◌∷◌, ltb, leb, ◌==◌,
  ◌&&◌, ◌||◌, not, if◌then◌else◌, length, take,
}

abbrev pub slash : ℕ
slash = 0x2f

abbrev pub dot : ℕ
dot = 0x2e

-- `while (*path == '/') path++;`
pub skip_slashes : List ℕ → List ℕ
skip_slashes [] = []
skip_slashes (c ∷ cs) = if c == slash then skip_slashes cs else c ∷ cs

-- `while (*path && *path != '/' && clen < n)`: the component, and the rest of the path.
pub read_component : ℕ → List ℕ → List ℕ × List ℕ
read_component zero path = ([], path)
read_component (suc n) [] = ([], [])
read_component (suc n) (c ∷ cs) =
    let (comp, rest) = read_component n cs in if c == slash then ([], c ∷ cs) else (c ∷ comp, rest)

abbrev pub is_dot : List ℕ → Bool
is_dot (c ∷ []) = c == dot
is_dot _ = false

abbrev pub is_dotdot : List ℕ → Bool
is_dotdot (c ∷ d ∷ []) = (c == dot) && (d == dot)
is_dotdot _ = false

-- `while (len > 1 && temp[len - 1] != '/') len--;`
pub drop_name : List ℕ → List ℕ
drop_name [] = []
drop_name (x ∷ []) = x ∷ []
drop_name (x ∷ y ∷ r) = if x == slash then x ∷ y ∷ r else drop_name (y ∷ r)

-- `if (len > 1 && temp[len - 1] == '/') len--;`
pub drop_slash : List ℕ → List ℕ
drop_slash [] = []
drop_slash (x ∷ []) = x ∷ []
drop_slash (x ∷ y ∷ r) = if x == slash then y ∷ r else x ∷ y ∷ r

-- The component `..`.
pub go_up : List ℕ → List ℕ
unfolding drop_name drop_slash
go_up temp = if ltb 1 (length temp) then drop_slash (drop_name (drop_slash temp)) else temp

-- sizeof(temp) - 1
abbrev pub room : ℕ
room = 255

pub push_slash : List ℕ → List ℕ
push_slash [] = slash ∷ []
push_slash (x ∷ r) =
    if (x == slash) || not (ltb (length (x ∷ r)) room) then x ∷ r else slash ∷ x ∷ r

-- `for (i = 0; i < clen && len < sizeof(temp) - 1; i++) temp[len++] = comp[i];`
pub push_bytes : List ℕ → List ℕ → List ℕ
push_bytes temp [] = temp
push_bytes temp (c ∷ cs) = if ltb (length temp) room then push_bytes (c ∷ temp) cs else temp

-- One component.
pub step : List ℕ → List ℕ → List ℕ
unfolding go_up push_slash push_bytes
step temp comp =
    if is_dot comp
    then temp
    else if is_dotdot comp
    then go_up temp
    else push_bytes (push_slash temp) comp

-- The `while (*path)` loop. `none` means that the fuel ran out.
pub walk : ℕ → List ℕ → List ℕ → Option (List ℕ)
unfolding step skip_slashes read_component
walk zero temp path = none
walk (suc fuel) temp path = elim (skip_slashes path) [
  | [] ↦ some temp
  | c ∷ cs ↦ walk fuel (step temp (read_component 63 (c ∷ cs)).0) (read_component 63 (c ∷ cs)).1
]

abbrev pub starts_slash : List ℕ → Bool
starts_slash [] = false
starts_slash (c ∷ cs) = c == slash

-- What `temp` holds before the loop. A working directory that is no absolute path counts as "/".
pub start_temp : List ℕ → List ℕ → List ℕ
start_temp cwd path =
    if starts_slash path
    then slash ∷ []
    else if starts_slash cwd
    then reverse (take 254 cwd)
    else slash ∷ []

-- The path that the loop reads: `path++` goes past the first slash.
pub start_path : List ℕ → List ℕ
start_path [] = []
start_path (c ∷ cs) = if c == slash then cs else c ∷ cs

-- The last lines: an empty `temp` becomes "/", and `out` takes what fits with its NUL.
pub copy_out : ℕ → List ℕ → List ℕ
copy_out max_len [] = take (max_len - 1) (slash ∷ [])
copy_out max_len (x ∷ r) = take (max_len - 1) (reverse (x ∷ r))

pub resolve_in : ℕ → List ℕ → List ℕ → Option (List ℕ)
unfolding walk start_temp start_path copy_out
resolve_in max_len [] [] = some (slash ∷ [])
resolve_in max_len (d ∷ ds) [] = some (take (max_len - 1) (d ∷ ds))
resolve_in max_len cwd (c ∷ cs) =
    Option.map (copy_out max_len)
      (walk (suc (length (c ∷ cs))) (start_temp cwd (c ∷ cs)) (start_path (c ∷ cs)))

-- `vfs_resolve_path`: `none` where `out` is left as it was. Every round of the loop reads a byte,
-- so one more round than bytes is enough fuel (`Path.Total`).
unfoldable pub vfs_resolve_path : List ℕ → List ℕ → ℕ → Option (List ℕ)
unfolding resolve_in
vfs_resolve_path cwd path max_len = if ltb max_len 2 then none else resolve_in max_len cwd path

-- `while (len > 1 && path[len - 1] == '/') len--;`
pub strip_slashes : List ℕ → List ℕ
strip_slashes [] = []
strip_slashes (x ∷ []) = x ∷ []
strip_slashes (x ∷ y ∷ r) = if x == slash then strip_slashes (y ∷ r) else x ∷ y ∷ r

-- What stands before the last slash; nothing if there is none.
pub before_slash : List ℕ → List ℕ
before_slash [] = []
before_slash (x ∷ r) = if x == slash then r else before_slash r

pub or_root : List ℕ → List ℕ
or_root [] = slash ∷ []
or_root (x ∷ r) = reverse (x ∷ r)

-- `path_parent_dir`, with `out` as long as all its callers give: 256 bytes.
unfoldable pub path_parent_dir : List ℕ → List ℕ
unfolding strip_slashes before_slash or_root
path_parent_dir path = or_root (before_slash (strip_slashes (reverse (take 255 path))))
