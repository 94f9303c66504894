-- ===== src/Vfs/Stat.antt =====
-- The status and the time stamps of files in src/vfs.c: `vfs_stat`, `vfs_lstat`, `vfs_fstat`,
-- `vfs_utimens`, `vfs_futimens` and `vfs_truncate_path`.
use mathlib.Core.Option
use lite_bsd.Prelude.{
  ℕ, ◌^◌, Bool, true, false, ◌||◌, ◌&&◌, not, Option, none, some, List, ltb, leb, ◌==◌,
  if◌then◌else◌, length,
}
use lite_bsd.Vfs.Node.{Mode, regular, directory, Time, Node, vfs_now, is_path}
use lite_bsd.Vfs.Lookup.{
  Vfs, Env, Synth, resolved, find_node, follow_symlinks, synth_lookup, synth_ino,
}
use lite_bsd.Vfs.Ops.{update, is_some, is_synth_dir}

-- `st_mode`: that of the node, or a character device.
pub data StatMode : Type 0 where
  of_node : Mode → StatMode
  char_device : StatMode

-- The fields of `struct stat` that the kernel fills; `_reserved[1]` is the number of links.
pub record Stat : Type 0 where
  pub size : ℕ
  pub mode : StatMode
  pub ino : ℕ
  pub nlink : ℕ
  pub atim : Time
  pub mtim : Time
  pub ctim : Time

-- `fb_size` is the height of the frame buffer times its pitch, 0 where it is not active.
unfoldable pub fill_stat : ℕ → Node → Stat
fill_stat fb_size n =
    let is_fb = is_path n "/dev/fb0" in
    record {
      size = if is_fb then fb_size else n.size;
      mode = if is_fb then char_device else of_node n.mode;
      ino = n.ino;
      nlink = 1;
      atim = n.atime;
      mtim = n.mtime;
      ctim = n.ctime;
    }

abbrev pub synth_fill_stat : Env → Synth → ℕ → Mode → Stat
synth_fill_stat env s size mode = record {
  size = size;
  mode = of_node mode;
  ino = synth_ino s;
  nlink = 0;
  atim = vfs_now env.ticks;
  mtim = vfs_now env.ticks;
  ctim = vfs_now env.ticks;
}

abbrev pub generated_stat : Env → Synth → Option (List ℕ) → Option Stat
generated_stat env s none = none
generated_stat env s (some bytes) = some (synth_fill_stat env s (length bytes) regular)

unfoldable pub synth_stat : Env → Synth → Option Stat
synth_stat env s =
    if is_synth_dir s
    then some (synth_fill_stat env s 0 directory)
    else generated_stat env s (env.generate s)

-- /dev/null and /dev/zero have the size 0.
abbrev pub no_size : Node → Stat → Stat
no_size n st = if is_path n "/dev/null" || is_path n "/dev/zero" then record st { size = 0 } else st

abbrev pub stat_node : ℕ → Option Node → Option Stat
stat_node fb_size none = none
stat_node fb_size (some n) = some (no_size n (fill_stat fb_size n))

abbrev pub stat_path : ℕ → Vfs → Option (List ℕ) → Option Stat
stat_path fb_size fs none = none
stat_path fb_size fs (some r) = stat_node fb_size (find_node fs r)

abbrev pub stat_real : Env → ℕ → Vfs → List ℕ → Option Synth → Option Stat
stat_real env fb_size fs r (some s) = synth_stat env s
stat_real env fb_size fs r none = stat_path fb_size fs (follow_symlinks fs r)

-- `none` for -1.
unfoldable pub vfs_stat : Env → ℕ → List ℕ → Vfs → Option Stat
vfs_stat env fb_size path fs =
    let r = resolved env path in stat_real env fb_size fs r (synth_lookup env r)

abbrev pub lstat_real : Env → ℕ → Vfs → List ℕ → Option Synth → Option Stat
lstat_real env fb_size fs r (some s) = synth_stat env s
lstat_real env fb_size fs r none = Option.map (fill_stat fb_size) (find_node fs r)

unfoldable pub vfs_lstat : Env → ℕ → List ℕ → Vfs → Option Stat
vfs_lstat env fb_size path fs =
    let r = resolved env path in lstat_real env fb_size fs r (synth_lookup env r)

abbrev pub vfs_fstat : ℕ → Node → Stat
vfs_fstat fb_size n = fill_stat fb_size n

-- VFS_UTIME_NOW and VFS_UTIME_OMIT
abbrev pub utime_now : ℕ
utime_now = 0x3fffffff

abbrev pub utime_omit : ℕ
utime_omit = 0x3ffffffe

-- A time that is refused; the numbers are 32 bits wide, those from 2^31 on are negative.
abbrev pub bad_time : ℕ → ℕ → Bool
bad_time sec nsec =
    not ((nsec == utime_omit) || (nsec == utime_now)) && (ltb 999999999 nsec || leb (2 ^ 31) sec)

abbrev pub new_time : ℕ → ℕ → ℕ → Time → Time
new_time ticks sec nsec old =
    if nsec == utime_now
    then vfs_now ticks
    else if nsec == utime_omit
    then old
    else record { sec = sec; nsec = nsec }

-- The two pairs of seconds and nanoseconds, or NULL.
pub data Times : Type 0 where
  at_once : Times
  given : ℕ → ℕ → ℕ → ℕ → Times

unfoldable pub bad_times : Times → Bool
bad_times at_once = false
bad_times (given asec ansec msec mnsec) = bad_time asec ansec || bad_time msec mnsec

unfoldable pub stamped : ℕ → Times → Node → Node
stamped ticks at_once n = record n {
  atime = vfs_now ticks;
  mtime = vfs_now ticks;
  ctime = vfs_now ticks;
}
stamped ticks (given asec ansec msec mnsec) n = record n {
  atime = new_time ticks asec ansec n.atime;
  mtime = new_time ticks msec mnsec n.mtime;
  ctime = vfs_now ticks;
}

-- `apply_utimens` for the node at a path.
unfoldable pub apply_utimens : Env → Times → List ℕ → Vfs → Vfs × Bool
apply_utimens env times r fs =
    if bad_times times then (fs, false) else (update r (stamped env.ticks times) fs, true)

abbrev pub is_device : Node → Bool
is_device n = is_path n "/dev/null" || (is_path n "/dev/zero" || is_path n "/dev/fb0")

unfoldable pub vfs_futimens : Env → Times → List ℕ → Option Node → Vfs → Vfs × Bool
vfs_futimens env times r none fs = (fs, false)
vfs_futimens env times r (some n) fs =
    if is_device n then (fs, true) else apply_utimens env times r fs

abbrev pub utimens_path : Env → Times → Option (List ℕ) → Vfs → Vfs × Bool
utimens_path env times none fs = (fs, false)
utimens_path env times (some r) fs = vfs_futimens env times r (find_node fs r) fs

abbrev pub no_follow : ℕ
no_follow = 0x100

unfoldable pub vfs_utimens : Env → List ℕ → Times → ℕ → Vfs → Vfs × Bool
vfs_utimens env path times flags fs =
    let r = resolved env path in
    if not (flags == 0) && not (flags == no_follow)
    then (fs, false)
    else if is_some (synth_lookup env r)
    then (fs, false)
    else utimens_path env times (if flags == no_follow then some r else follow_symlinks fs r) fs
