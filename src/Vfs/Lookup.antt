-- ===== src/Vfs/Lookup.antt =====
-- The search by path in src/vfs.c: `find_node`, `follow_symlinks` and `synth_lookup`, the names of
-- the generated /proc and /sys trees.
use mathlib.Core.Option
use lite_bsd.Prelude.{
  ℕ, zero, suc, ◌+◌, ◌-◌, ◌*◌, ◌%◌, ◌^◌, Bool, true, false, ◌||◌, not, Option, none, some, List, [],
  ◌∷◌, ◌++◌, ltb, ◌==◌, if◌then◌else◌, take, add32, codes, bytes_eq,
}
use lite_bsd.Path.{slash, starts_slash, vfs_resolve_path, path_parent_dir}
use lite_bsd.Vfs.Node.{Node, Blobs, is_symlink_node}

-- `root`, `nodes` in link order, `next_ino`, and the counters of shared buffers.
pub record Vfs : Type 0 where
  pub root : Node
  pub nodes : List Node
  pub next_ino : ℕ
  pub blobs : Blobs

-- What `synth_lookup` finds: the kind with its task and its slot.
pub data Synth : Type 0 where
  proc_dir : Synth
  pid_dir : ℕ → Synth
  pid_file : ℕ → ℕ → Synth
  proc_file : ℕ → Synth
  sys_dir : ℕ → Synth
  sys_file : ℕ → Synth

-- What the calls read of the rest of the kernel: the timer, the working directory of the current
-- task ("/" if there is none), the pids that `find_task` finds, and the text that the functions of
-- src/sysinfo.c write for a generated file, `none` where they fail.
pub record Env : Type 0 where
  pub ticks : ℕ
  pub cwd : List ℕ
  pub pids : List ℕ
  pub generate : Synth → Option (List ℕ)

-- `vfs_resolve_path` into a buffer of 256 bytes; it always fills it (`Path.Resolve`).
abbrev pub resolved : Env → List ℕ → List ℕ
resolved env path = Option.get_or (vfs_resolve_path env.cwd path 256) []

unfoldable pub find_in : List ℕ → List Node → Option Node
find_in path [] = none
find_in path (n ∷ ns) = if bytes_eq n.path path then some n else find_in path ns

unfoldable pub find_node : Vfs → List ℕ → Option Node
unfolding find_in
find_node fs path = if bytes_eq path (codes "/") then some fs.root else find_in path fs.nodes

-- The bytes before the first NUL, at most `k`.
pub until_nul : ℕ → List ℕ → List ℕ
until_nul zero l = []
until_nul (suc k) [] = []
until_nul (suc k) (c ∷ cs) = if c == 0 then [] else c ∷ until_nul k cs

abbrev pub ends_slash : List ℕ → Bool
ends_slash [] = false
ends_slash (c ∷ []) = c == slash
ends_slash (c ∷ d ∷ cs) = ends_slash (d ∷ cs)

-- parent + "/" + target, in a buffer of 512 bytes.
pub join : List ℕ → List ℕ → List ℕ
join parent target = take 511 (parent ++ (if ends_slash parent then target else slash ∷ target))

-- Where a link at `path` with the text `target` leads; an empty text is an error.
unfoldable pub link_target : List ℕ → List ℕ → Option (List ℕ)
unfolding join
link_target path [] = none
link_target path (c ∷ cs) =
    if c == slash
    then vfs_resolve_path (codes "/") (c ∷ cs) 256
    else vfs_resolve_path (codes "/") (join (path_parent_dir path) (c ∷ cs)) 256

-- `follow_symlinks` with `depth` rounds left: `none` for -1.
unfoldable pub follow : ℕ → Vfs → List ℕ → Option (List ℕ)
unfolding find_node until_nul link_target
follow zero fs path = none
follow (suc depth) fs path = elim (find_node fs path) [
  | none ↦ some path
  | some n ↦ elim (is_symlink_node n) [
    | false ↦ some path
    | true ↦ elim (link_target path (until_nul 255 n.contents)) [
      | none ↦ none
      | some next ↦ follow depth fs next
    ]
  ]
]

abbrev pub follow_symlinks : Vfs → List ℕ → Option (List ℕ)
follow_symlinks fs path = follow 8 fs path

-- The rest of a list behind a prefix.
unfoldable pub strip_prefix : List ℕ → List ℕ → Option (List ℕ)
strip_prefix [] l = some l
strip_prefix (c ∷ cs) [] = none
strip_prefix (c ∷ cs) (d ∷ ds) = if c == d then strip_prefix cs ds else none

-- The place of a name in a list.
pub index_of : List ℕ → List (List ℕ) → Option ℕ
index_of name [] = none
index_of name (n ∷ ns) = if bytes_eq name n then some 0 else Option.map suc (index_of name ns)

abbrev pub proc_files : List (List ℕ)
proc_files =
    codes "meminfo"
    ∷ codes "cpuinfo"
    ∷ codes "uptime"
    ∷ codes "version"
    ∷ codes "loadavg"
    ∷ codes "stat"
    ∷ codes "net/dev"
    ∷ codes "net/route"
    ∷ codes "net/arp"
    ∷ []

abbrev pub pid_files : List (List ℕ)
pid_files = codes "stat" ∷ codes "cmdline" ∷ []

abbrev pub sys_files : List (List ℕ)
sys_files = codes "sys_vendor" ∷ codes "product_name" ∷ codes "product_version" ∷ []

abbrev pub sys_dirs : List (List ℕ)
sys_dirs =
    codes "/sys"
    ∷ codes "/sys/devices"
    ∷ codes "/sys/devices/virtual"
    ∷ codes "/sys/devices/virtual/dmi"
    ∷ codes "/sys/devices/virtual/dmi/id"
    ∷ []

pub digits_from : ℕ → List ℕ → Option ℕ
digits_from v [] = some v
digits_from v (c ∷ cs) =
    if ltb c b'0' || ltb b'9' c then none else digits_from ((v * 10 + (c - b'0')) % 2 ^ 32) cs

-- `parse_pid`
unfoldable pub parse_pid : List ℕ → Option ℕ
unfolding digits_from
parse_pid [] = none
parse_pid (c ∷ cs) = digits_from 0 (c ∷ cs)

-- `while (rest[j] && rest[j] != '/' && j < sizeof(pbuf) - 1)`: the buffer and the rest.
pub pid_part : ℕ → List ℕ → List ℕ × List ℕ
pid_part zero l = ([], l)
pid_part (suc k) [] = ([], [])
pid_part (suc k) (c ∷ cs) =
    let (p, rest) = pid_part k cs in if c == slash then ([], c ∷ cs) else (c ∷ p, rest)

pub has_pid : ℕ → List ℕ → Bool
has_pid pid [] = false
has_pid pid (p ∷ ps) = (p == pid) || has_pid pid ps

pub pid_entry : ℕ → List ℕ → Option Synth
pid_entry pid [] = some (pid_dir pid)
pid_entry pid (c ∷ cs) =
    if c == slash then Option.map (pid_file pid) (index_of cs pid_files) else none

pub task_entry : Env → Option ℕ → List ℕ → Option Synth
unfolding pid_entry has_pid
task_entry env none rest = none
task_entry env (some pid) rest = if has_pid pid env.pids then pid_entry pid rest else none

-- What stands below /proc.
unfoldable pub proc_lookup : Env → List ℕ → Option Synth
unfolding task_entry index_of pid_part
proc_lookup env rest = elim (index_of rest proc_files) [
  | some i ↦ some (proc_file i)
  | none ↦ task_entry env (parse_pid (pid_part 15 rest).0) (pid_part 15 rest).1
]

unfoldable pub sys_lookup : List ℕ → Option Synth
unfolding index_of strip_prefix
sys_lookup path = elim (index_of path sys_dirs) [
  | some i ↦ some (sys_dir i)
  | none ↦ elim (strip_prefix (codes "/sys/devices/virtual/dmi/id/") path) [
    | none ↦ none
    | some name ↦ Option.map sys_file (index_of name sys_files)
  ]
]

-- `synth_lookup`: `none` for SYNTH_NONE.
unfoldable pub synth_lookup : Env → List ℕ → Option Synth
unfolding proc_lookup sys_lookup
synth_lookup env path =
    if not (starts_slash path)
    then none
    else if bytes_eq path (codes "/proc") || bytes_eq path (codes "/proc/net")
    then some proc_dir
    else elim (strip_prefix (codes "/proc/") path) [
      | some rest ↦ proc_lookup env rest
      | none ↦ sys_lookup path
    ]

-- `synth_ino`
abbrev pub synth_ino : Synth → ℕ
synth_ino proc_dir = 200
synth_ino (proc_file slot) = 100 + slot
synth_ino (pid_dir pid) = add32 2000 pid
synth_ino (pid_file pid slot) = (100000 + pid * 8 + slot) % 2 ^ 32
synth_ino (sys_file slot) = 5000 + slot
synth_ino (sys_dir slot) = 6000 + slot
