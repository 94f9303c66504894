-- ===== src/Vfs/Tests.antt =====
-- The file system of src/vfs.c on small inputs, and the theorems at them.
use lite_bsd.Prelude.{
  Option, true, not, ◌&&◌, ◌||◌, ◌==◌, take, bytes_eq, ℕ, ◌≡◌, refl, none, some, List, [], ◌∷◌,
  codes, replicate, arith, leb, if◌then◌else◌, ◌^◌, length-replicate, length, ◌++◌,
}
use lite_bsd.Path.{vfs_resolve_path}
use lite_bsd.Vfs.Node.{
  is_dir_node, regular, directory, symlink, Node, Blobs, vfs_write, vfs_truncate, wrote, stuck,
}
use lite_bsd.Vfs.Lookup.{Vfs, Env, resolved, find_in, find_node, synth_lookup, follow, link_target}
use lite_bsd.Vfs.Ops.{
  is_some, opened, new_node, vfs_mkdir, vfs_open, vfs_unlink, vfs_link, vfs_symlink,
}
use lite_bsd.Vfs.ReadWrite.{Memory, IsPlain}
use lite_bsd.Vfs.Truncate.{
  Truncated, vfs_truncate-Truncated, vfs_write-stuck, read_after, vfs_read-vfs_write,
}
use lite_bsd.Vfs.Nodes.{IsTree, entry}
use lite_bsd.Vfs.Tree.{is_new, Made, Makes, vfs_mkdir-Makes, vfs_symlink-Makes, vfs_open-Made}
use lite_bsd.Vfs.Stat.{given, utime_omit, no_follow, vfs_utimens}
use lite_bsd.Vfs.Times.{Stamps, vfs_utimens-Stamps}
use lite_bsd.Vfs.Follow.{NoLink, follow-NoLink}
use lite_bsd.Vfs.Links.{Removes, vfs_unlink-Removes, vfs_link-Makes}

abbrev boot : Env
boot = record { ticks = 250; cwd = codes "/etc"; pids = 1 ∷ []; generate = λ s. none }

abbrev root_dir : Node
root_dir = new_node boot (codes "/") [] 0 directory 1

abbrev motd : Node
motd = new_node boot (codes "/etc/motd") (codes "hello" ++ replicate 251 0) 5 regular 3

abbrev small : Vfs
small = record {
  root = root_dir;
  nodes = motd ∷ new_node boot (codes "/etc") [] 0 directory 2 ∷ [];
  next_ino = 4;
  blobs = record { count = λ b. 0; next = 0 };
}

small-IsTree : IsTree small
unfolding find_in
small-IsTree = record { distinct = (refl, refl, (refl, refl, tt)); no_root = refl }

vfs_mkdir-Makes_example :
    ((vfs_mkdir boot (codes "rc.d") small).1 ≡ is_new boot (resolved boot (codes "rc.d")) small)
    × Makes
        (resolved boot (codes "rc.d"))
        (directory, [])
        small
        (vfs_mkdir boot (codes "rc.d") small)
vfs_mkdir-Makes_example = vfs_mkdir-Makes boot (codes "rc.d") small small-IsTree

vfs_symlink-Makes_example :
    ((vfs_symlink boot (codes "/etc/motd") (codes "/m") small).1 ≡ (
      is_new boot (resolved boot (codes "/m")) small
      && not (length (take 255 (codes "/etc/motd")) == 0)))
    × Makes
        (resolved boot (codes "/m"))
        (symlink, codes "/etc/motd")
        small
        (vfs_symlink boot (codes "/etc/motd") (codes "/m") small)
vfs_symlink-Makes_example =
    vfs_symlink-Makes boot (codes "/etc/motd") (codes "/m") small small-IsTree

vfs_open-Made_example :
    (fs' : Vfs) × (vfs_open boot (codes "/etc/new") 0x40 small
      ≡ (fs', opened (resolved boot (codes "/etc/new"))))
    × Made (resolved boot (codes "/etc/new")) (regular, []) small fs'
unfolding synth_lookup vfs_resolve_path find_node
vfs_open-Made_example =
    vfs_open-Made boot (codes "/etc/new") 0x40 small small-IsTree refl refl refl refl

vfs_unlink-Removes_example :
    ((vfs_unlink boot (codes "motd") small).1 ≡ (
      not (
        is_some (synth_lookup boot (resolved boot (codes "motd")))
        || bytes_eq (resolved boot (codes "motd")) (codes "/"))
      && is_some (find_node small (resolved boot (codes "motd")))))
    × Removes (resolved boot (codes "motd")) small (vfs_unlink boot (codes "motd") small)
vfs_unlink-Removes_example = vfs_unlink-Removes boot (codes "motd") small small-IsTree

vfs_link-Makes_example :
    ((vfs_link boot (codes "copy") (codes "motd") small).1 ≡ (
      not (is_some (synth_lookup boot (resolved boot (codes "motd"))))
      && not (is_dir_node motd)
      && is_new boot (resolved boot (codes "copy")) small))
    × Makes
        (resolved boot (codes "copy"))
        (entry motd)
        small
        (vfs_link boot (codes "copy") (codes "motd") small)
unfolding find_node vfs_resolve_path
vfs_link-Makes_example =
    vfs_link-Makes boot (codes "copy") (codes "motd") motd small small-IsTree refl

-- A heap that has 8 MB left, all zeros.
abbrev zeros : ℕ → Option (List ℕ)
zeros k = if leb k (2 ^ 23) then some (replicate k 0) else none

zeros-Memory : Memory zeros (2 ^ 23)
zeros-Memory = record {
  gives = λ k few.
      let small : leb k (2 ^ 23) ≡ true = ground arith in
      (replicate k 0, rw small refl, length-replicate k 0);
  first = omega arith;
}

motd-IsPlain : IsPlain motd
motd-IsPlain = record { mode = refl; synth = refl; no_null = refl; no_zero = refl; no_fb = refl }

vfs_read-vfs_write_example :
    read_after 400 2 1 (vfs_write zeros 300 motd 2 (codes "y") small.blobs none) ≡ some (codes "y")
vfs_read-vfs_write_example =
    vfs_read-vfs_write zeros (2 ^ 23) 300 400 motd 2 (codes "y") small.blobs none zeros-Memory
      motd-IsPlain (omega arith) (omega arith) (omega arith) (omega arith) (omega arith)

vfs_truncate-Truncated_example :
    (n' : Node) × (bl' : Blobs) × (vfs_truncate zeros 300 motd 300 small.blobs
      ≡ wrote n' bl' none (some 0))
    × Truncated motd 300 n'
vfs_truncate-Truncated_example =
    vfs_truncate-Truncated zeros (2 ^ 23) zeros-Memory 300 motd 300 small.blobs motd-IsPlain
      (omega arith) (omega arith) (omega arith) (omega arith)

vfs_write-stuck_example : vfs_write zeros 300 motd (2 ^ 31) (codes "x") small.blobs none ≡ stuck
vfs_write-stuck_example =
    vfs_write-stuck zeros (2 ^ 23) zeros-Memory 300 motd (2 ^ 31) (codes "x") small.blobs none 23
      motd-IsPlain (omega arith) (omega arith) refl (omega arith) (omega arith)

-- A link to the file.
abbrev linked : Vfs
linked = record small {
  nodes = new_node boot (codes "/m") (codes "/etc/motd" ++ (0 ∷ [])) 9 symlink 4 ∷ small.nodes;
}

follow-NoLink_example : NoLink (find_node linked (codes "/etc/motd"))
unfolding follow vfs_resolve_path find_node link_target
follow-NoLink_example = follow-NoLink 8 linked (codes "/m") (codes "/etc/motd") refl

vfs_utimens-Stamps_example :
    Stamps boot 0
      (codes "motd")
      (given 7 8 0 utime_omit)
      small
      (vfs_utimens boot (codes "motd") (given 7 8 0 utime_omit) no_follow small)
unfolding synth_lookup vfs_resolve_path find_node
vfs_utimens-Stamps_example =
    vfs_utimens-Stamps boot 0 (codes "motd") (given 7 8 0 utime_omit) small motd refl refl refl
