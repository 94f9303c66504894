-- ===== src/Vfs/Node.antt =====
-- `struct vfs_node` of src/vfs.c, and the functions on one node: `vfs_read`, `vfs_write`,
-- `vfs_truncate`, the copy on write and the time stamps. `kmalloc` never returns NULL for the sizes
-- asked for here (it halts the machine when nothing is left), so the branches behind a NULL are gone.
-- The bytes of a fresh buffer are what the heap held before: the argument `garbage`.
use mathlib.Core.Option
use lite_bsd.Prelude.{
  ℕ, zero, suc, ◌+◌, ◌-◌, ◌*◌, ◌/◌, ◌%◌, ◌^◌, Bool, true, false, ◌||◌, Option, none, some, List, [],
  ◌∷◌, ltb, leb, ◌==◌, if◌then◌else◌, length, take, drop, replicate, add32, codes, bytes_eq, String,
  min,
}

-- S_IFREG, S_IFDIR and S_IFLNK: the only modes that the kernel gives a node.
pub data Mode : Type 0 where
  regular directory symlink : Mode

-- Seconds and nanoseconds since boot.
pub record Time : Type 0 where
  pub sec : ℕ
  pub nsec : ℕ

-- `data` holds the bytes of the whole buffer, so that its length is `capacity`; `blob` names the
-- counter that `data_refs` points at.
pub record Node : Type 0 where
  pub path : List ℕ
  pub contents : List ℕ
  pub size : ℕ
  pub mode : Mode
  pub ino : ℕ
  pub refs : ℕ
  pub synth : Bool
  pub atime : Time
  pub mtime : Time
  pub ctime : Time
  pub blob : Option ℕ

-- The counters behind the `data_refs` pointers.
pub record Blobs : Type 0 where
  pub count : ℕ → ℕ
  pub next : ℕ

abbrev pub set_count : Blobs → ℕ → ℕ → Blobs
set_count bl b n = record bl { count = λ c. if c == b then n else bl.count c }

abbrev pub new_blob : Blobs → ℕ → Blobs
new_blob bl n = record { count = λ c. if c == bl.next then n else bl.count c; next = bl.next + 1 }

-- `vfs_now`, from the timer's ticks.
abbrev pub vfs_now : ℕ → Time
vfs_now ticks = record { sec = ticks / 100; nsec = ticks % 100 * 10000000 }

abbrev pub stamp_create : ℕ → Node → Node
stamp_create ticks n = record n {
  atime = vfs_now ticks;
  mtime = vfs_now ticks;
  ctime = vfs_now ticks;
}

abbrev pub bump_mtime : ℕ → Node → Node
bump_mtime ticks n = record n { mtime = vfs_now ticks; ctime = vfs_now ticks }

abbrev pub is_symlink_node : Node → Bool
is_symlink_node n = elim n.mode [ symlink ↦ true | _ ↦ false ]

-- `node->mode & S_IFDIR`
abbrev pub is_dir_node : Node → Bool
is_dir_node n = elim n.mode [ directory ↦ true | _ ↦ false ]

abbrev pub is_path : Node → String → Bool
is_path n s = bytes_eq n.path (codes s)

-- The bytes of a file: the first `size` of its buffer.
abbrev pub content : Node → List ℕ
content n = take n.size n.contents

-- `for (i = 0; i < count; i++) data[offset + i] = buffer[i];`
abbrev pub overlay : List ℕ → List ℕ → List ℕ
overlay [] xs = xs
overlay (b ∷ bs) [] = b ∷ bs
overlay (b ∷ bs) (x ∷ xs) = b ∷ overlay bs xs

abbrev pub write_at : ℕ → List ℕ → List ℕ → List ℕ
write_at zero bs xs = overlay bs xs
write_at (suc o) bs [] = []
write_at (suc o) bs (x ∷ xs) = x ∷ write_at o bs xs

-- What a call leaves: the node, the counters, the frame buffer and the 32 bits of the value
-- returned, `none` for -1. `stuck` is the loop in `reserve` that does not end, `halted` a `kmalloc`
-- that halts the machine.
pub data Wrote : Type 0 where
  wrote : Node → Blobs → Option (List ℕ) → Option ℕ → Wrote
  stuck : Wrote
  halted : Wrote

-- The node with room in its buffer, or why the call does not go on.
pub data Reserved : Type 0 where
  ready : Node → Reserved
  endless : Reserved
  exhausted : Reserved

unfoldable pub put_bytes : ℕ → ℕ → List ℕ → Blobs → Option (List ℕ) → Reserved → Wrote
put_bytes ticks offset bytes bl fb endless = stuck
put_bytes ticks offset bytes bl fb exhausted = halted
put_bytes ticks offset bytes bl fb (ready n) =
    wrote
      (bump_mtime ticks (record n {
        contents = write_at offset bytes n.contents;
        size = if ltb n.size (offset + length bytes) then offset + length bytes else n.size;
      }))
      bl fb (some (length bytes))

-- /dev/fb0: the frame buffer takes what fits.
unfoldable pub write_fb : ℕ → ℕ → List ℕ → Node → Blobs → Option (List ℕ) → Wrote
write_fb ticks offset bytes n bl none = wrote n bl none none
write_fb ticks offset bytes n bl (some fb) =
    let part = take (length fb - offset) bytes in
    if leb (length fb) offset
    then wrote n bl (some fb) (some 0)
    else wrote (bump_mtime ticks n) bl (some (write_at offset part fb)) (some (length part))

-- The end of `vfs_truncate`, where the file grows: the new bytes are 0.
unfoldable pub put_zeros : ℕ → ℕ → Blobs → Reserved → Wrote
put_zeros ticks len bl endless = stuck
put_zeros ticks len bl exhausted = halted
put_zeros ticks len bl (ready n) =
    wrote
      (bump_mtime ticks (record n {
        contents = write_at n.size (replicate (len - n.size) 0) n.contents;
        size = len;
      }))
      bl none (some 0)

-- `while (capacity < required) capacity *= 2;`: `none` means that the fuel ran out.
unfoldable pub double : ℕ → ℕ → ℕ → Option ℕ
double zero capacity required = none
double (suc fuel) capacity required =
    let more = double fuel (capacity * 2 % 2 ^ 32) required in
    if ltb capacity required then more else some capacity

abbrev pub first_capacity : Node → ℕ
first_capacity n = if length n.contents == 0 then 256 else length n.contents

-- The node of `data_cow` with its own buffer and counter; each `kmalloc` may halt.
unfoldable pub own_copy :
    ℕ → Node → Blobs → Option (List ℕ) → Option (List ℕ) → Option (Node × Blobs)
own_copy b n bl none refs = none
own_copy b n bl (some buf) none = none
own_copy b n bl (some buf) (some refs) =
    some (
      record n { contents = buf; blob = some bl.next },
      new_blob (set_count bl b (bl.count b - 1)) 1,
    )

abbrev pub refill : Node → Option (List ℕ) → Reserved
refill n none = exhausted
refill n (some buf) = ready (record n { contents = buf })

-- `memory k` is the buffer that `kmalloc(k)` returns, for a `k` that is not 0, with the bytes that
-- stand in it, and `none` where `kmalloc` halts the machine. One call asks for no size twice.
module _ (memory : ℕ → Option (List ℕ)) where
  -- A fresh buffer of `capacity` bytes with the first `size` bytes of the old one.
  unfoldable pub fresh_buffer : ℕ → ℕ → List ℕ → Option (List ℕ)
  fresh_buffer capacity size old = Option.map (write_at 0 (take size old)) (memory capacity)

  -- `data_cow`, by the counter that the node points at.
  unfoldable pub cow_blob : Option ℕ → Node → Blobs → Option (Node × Blobs)
  unfolding fresh_buffer own_copy
  cow_blob none n bl = some (n, bl)
  cow_blob (some b) n bl =
      let buf =
        if ltb 0 (length n.contents)
        then fresh_buffer (length n.contents) n.size n.contents
        else some [] in
      if leb (bl.count b) 1 then some (n, bl) else own_copy b n bl buf (memory 4)

  unfoldable pub data_cow : Node → Blobs → Option (Node × Blobs)
  unfolding cow_blob
  data_cow n bl = cow_blob n.blob n bl

  -- What follows the loop in `if (required > node->capacity) { ... }`.
  unfoldable pub grow : Node → Option ℕ → Reserved
  unfolding fresh_buffer
  grow n none = endless
  grow n (some capacity) = refill n (fresh_buffer capacity n.size n.contents)

  -- `if (required > node->capacity) { ... }`. A capacity is a power of two from 256 on, and doubling
  -- it 33 times has either reached `required` or gone round to 0 (`Vfs.Growth`).
  unfoldable pub reserve : ℕ → Node → Reserved
  unfolding double grow
  reserve required n =
      if ltb (length n.contents) required
      then grow n (double 33 (first_capacity n) required)
      else ready n

  -- The part of `vfs_write` for a file with a buffer of its own.
  unfoldable pub write_file : ℕ → ℕ → List ℕ → Option (Node × Blobs) → Option (List ℕ) → Wrote
  write_file ticks offset bytes none fb = halted
  write_file ticks offset bytes (some (n, bl)) fb =
      if ltb (add32 offset (length bytes)) offset
      then wrote n bl fb none
      else put_bytes ticks offset bytes bl fb (reserve (add32 offset (length bytes)) n)

  abbrev pub cow_again : Option (Node × Blobs) → Option (Node × Blobs)
  cow_again none = none
  cow_again (some (n, bl)) = data_cow n bl

  -- `vfs_write`, with `data_cow` called twice as in the source.
  unfoldable pub vfs_write : ℕ → Node → ℕ → List ℕ → Blobs → Option (List ℕ) → Wrote
  vfs_write ticks n offset bytes bl fb =
      if is_dir_node n || is_symlink_node n || n.synth
      then wrote n bl fb none
      else if is_path n "/dev/null" || is_path n "/dev/zero"
      then wrote n bl fb (some (length bytes))
      else if is_path n "/dev/fb0"
      then write_fb ticks offset bytes n bl fb
      else write_file ticks offset bytes (cow_again (data_cow n bl)) fb

  unfoldable pub resize : ℕ → ℕ → Option (Node × Blobs) → Wrote
  resize ticks len none = halted
  resize ticks len (some (n, bl)) =
      if ltb len n.size
      then wrote (bump_mtime ticks (record n { size = len })) bl none (some 0)
      else if len == n.size
      then wrote n bl none (some 0)
      else put_zeros ticks len bl (reserve len n)

  -- `vfs_truncate`; it does not touch the frame buffer.
  unfoldable pub vfs_truncate : ℕ → Node → ℕ → Blobs → Wrote
  vfs_truncate ticks n len bl =
      if is_dir_node n || is_symlink_node n || n.synth
      then wrote n bl none none
      else resize ticks len (data_cow n bl)

fb_bytes : ℕ → ℕ → Option (List ℕ) → Option (List ℕ)
fb_bytes offset count none = none
fb_bytes offset count (some bytes) =
    if leb (length bytes) offset
    then some []
    else some (take (min count (length bytes - offset)) (drop offset bytes))

-- What `vfs_read` puts into the buffer, `none` for -1.
unfoldable pub read_bytes : Node → ℕ → ℕ → Option (List ℕ) → Option (List ℕ)
unfolding fb_bytes
read_bytes n offset count fb =
    if is_path n "/dev/null"
    then some []
    else if is_path n "/dev/zero"
    then some (replicate count 0)
    else if is_path n "/dev/fb0"
    then fb_bytes offset count fb
    else if leb n.size offset
    then some []
    else some (take (min count (n.size - offset)) (drop offset n.contents))

-- `vfs_read`: the node, stamped also at the end of the file, and the bytes read.
unfoldable pub vfs_read : ℕ → Node → ℕ → ℕ → Option (List ℕ) → Node × Option (List ℕ)
unfolding read_bytes
vfs_read ticks n offset count fb =
    if is_dir_node n || is_symlink_node n
    then (n, none)
    else (record n { atime = vfs_now ticks }, read_bytes n offset count fb)
