-- ===== src/Vfs/ReadWrite.antt =====
-- `vfs_write`, `vfs_truncate` and `vfs_read` of src/vfs.c on a plain file.
use lite_bsd.Prelude.{
  ℕ, ◌+◌, ◌-◌, ◌*◌, ◌^◌, ◌≤◌, ◌≡◌, refl, ap, ◌∙◌, inl, inr, false, ◌||◌, Option, none, some, List,
  [], ltb, leb, if◌then◌else◌, Bool-cases, arith, length, take, drop, length-take, add32,
}
use lite_bsd.Vfs.Node.{
  regular, Node, Blobs, content, write_at, fresh_buffer, cow_blob, data_cow, first_capacity,
  new_blob, set_count, reserve, grow, own_copy, ready, wrote, put_bytes, write_file, vfs_write,
  is_path, is_dir_node, is_symlink_node, cow_again, bump_mtime,
}
use lite_bsd.Vfs.Growth.{double_total}
use lite_bsd.Vfs.Content.{length-write_at, read_back, take-write_at, take_copied}

-- A regular file that is neither generated nor a device.
pub record IsPlain (n : Node) : Type 0 where
  pub mode : n.mode ≡ regular
  pub synth : n.synth ≡ false
  pub no_null : is_path n "/dev/null" ≡ false
  pub no_zero : is_path n "/dev/zero" ≡ false
  pub no_fb : is_path n "/dev/fb0" ≡ false

pub plain_open : (n : Node) → IsPlain n → (is_dir_node n || is_symlink_node n || n.synth) ≡ false
plain_open n p = rw p.mode p.synth

-- Two nodes of one file with the same bytes, in whatever buffers.
pub record Same (n n' : Node) : Type 0 where
  pub path : n'.path ≡ n.path
  pub size : n'.size ≡ n.size
  pub mode : n'.mode ≡ n.mode
  pub synth : n'.synth ≡ n.synth
  pub bytes : content n' ≡ content n
  pub fits : n'.size ≤ length n'.contents

pub Same-refl : (n : Node) → n.size ≤ length n.contents → Same n n
Same-refl n h = record {
  path = refl;
  size = refl;
  mode = refl;
  synth = refl;
  bytes = refl;
  fits = h;
}

pub Same-trans : {a b c : Node} → Same a b → Same b c → Same a c
Same-trans p q = record {
  path = q.path ∙ p.path;
  size = q.size ∙ p.size;
  mode = q.mode ∙ p.mode;
  synth = q.synth ∙ p.synth;
  bytes = q.bytes ∙ p.bytes;
  fits = q.fits;
}

-- What `vfs_write` of `bytes` at `offset` makes of a plain file.
pub record Written (n : Node) (offset : ℕ) (bytes : List ℕ) (n' : Node) : Type 0 where
  pub path : n'.path ≡ n.path
  pub mode : n'.mode ≡ regular
  pub size :
      n'.size ≡ (if ltb n.size (offset + length bytes) then offset + length bytes else n.size)
  pub bytes_in : content n' ≡ write_at offset bytes (content n)
  pub back : take (length bytes) (drop offset n'.contents) ≡ bytes
  pub fits : n'.size ≤ length n'.contents

-- `kmalloc` gives buffers of up to `most` bytes, of the length asked for.
pub record Memory (memory : ℕ → Option (List ℕ)) (most : ℕ) : Type 0 where
  pub gives : (k : ℕ) → k ≤ most → (l : List ℕ) × (memory k ≡ some l) × (length l ≡ k)
  pub first : 256 ≤ most

-- The node that `data_cow` leaves: the same bytes in a buffer of the same length.
abbrev pub Cowed : Node → Option (Node × Blobs) → Type 0
Cowed n o =
    (x : Node × Blobs) × (o ≡ some x) × Same n x.0 × (length x.0.contents ≡ length n.contents)

module _ (memory : ℕ → Option (List ℕ)) (most : ℕ) (mem : Memory memory most) where
  fresh-Same :
      (n : Node) (capacity : ℕ) (blob : Option ℕ)
      → n.size ≤ length n.contents
      → n.size ≤ capacity
      → capacity ≤ most
      → (buf : List ℕ) × (fresh_buffer memory capacity n.size n.contents ≡ some buf)
        × Same n (record n { contents = buf; blob = blob })
        × (length buf ≡ capacity)
  unfolding fresh_buffer
  fresh-Same n capacity blob h k few =
      let (l, e, el) = mem.gives capacity few in
      let kept = length-take n.size n.contents in
      let long : length (write_at 0 (take n.size n.contents) l) ≡ capacity =
        length-write_at 0 (take n.size n.contents) l (omega (arith, kept, el)) ∙ el in
      (
        write_at 0 (take n.size n.contents) l,
        rw e refl,
        record {
          path = refl;
          size = refl;
          mode = refl;
          synth = refl;
          bytes = take_copied n.size n.contents l h (omega (arith, el));
          fits = omega (arith, long);
        },
        long,
      )

  empty-Same :
      (n : Node) (blob : Option ℕ)
      → n.size ≤ length n.contents
      → ltb 0 (length n.contents) ≡ false
      → Same n (record n { contents = []; blob = blob })
  empty-Same n blob h e =
      let none_left : n.size ≡ 0 = ground arith in
      record {
        path = refl;
        size = refl;
        mode = refl;
        synth = refl;
        bytes = rw none_left refl;
        fits = omega arith;
      }

  cow_blob-Cowed :
      (o : Option ℕ) (n : Node) (bl : Blobs)
      → n.size ≤ length n.contents
      → length n.contents ≤ most
      → Cowed n (cow_blob memory o n bl)
  unfolding cow_blob own_copy
  cow_blob-Cowed none n bl h few = ((n, bl), refl, Same-refl n h, refl)
  cow_blob-Cowed (some b) n bl h few =
      let (refs, e, er) = mem.gives 4 (omega (arith, mem.first)) in
      let own : List ℕ → Node × Blobs = λ buf. (
        record n { contents = buf; blob = some bl.next },
        new_blob (set_count bl b (bl.count b - 1)) 1,
      ) in
      elim (Bool-cases (leb (bl.count b) 1)) [
        | inl last ↦ ((n, bl), rw last refl, Same-refl n h, refl)
        | inr more ↦ elim (Bool-cases (ltb 0 (length n.contents))) [
          | inl full ↦
              let (buf, f, same, long) = fresh-Same n (length n.contents) (some bl.next) h h few in
              (own buf, rw (more, full, f, e) refl, same, long)
          | inr empty ↦
              (own [], rw (more, empty, e) refl, empty-Same n (some bl.next) h empty, ground arith)
        ]
      ]

  -- The copy on write changes no byte.
  pub data_cow-Cowed :
      (n : Node) (bl : Blobs)
      → n.size ≤ length n.contents
      → length n.contents ≤ most
      → Cowed n (data_cow memory n bl)
  unfolding data_cow
  data_cow-Cowed n bl h few = cow_blob-Cowed n.blob n bl h few

  pub cow_again-Cowed :
      (n : Node) (bl : Blobs)
      → n.size ≤ length n.contents
      → length n.contents ≤ most
      → Cowed n (cow_again memory (data_cow memory n bl))
  cow_again-Cowed n bl h few =
      let (x, e, same, long) = data_cow-Cowed n bl h few in
      let (y, f, again, alike) = data_cow-Cowed x.0 x.1 same.fits (omega (arith, long)) in
      (y, rw e f, Same-trans same again, alike ∙ long)

  -- For up to half of `most` bytes there is room, and no byte changes.
  pub reserve_total :
      (required : ℕ) (n : Node)
      → n.size ≤ length n.contents
      → length n.contents ≤ most
      → most ≤ 2 ^ 24
      → 2 * required ≤ most
      → (n' : Node) × (reserve memory required n ≡ ready n')
        × Same n n'
        × (required ≤ length n'.contents)
  unfolding reserve grow
  reserve_total required n h few heap small = elim (Bool-cases (ltb (length n.contents) required)) [
    | inr enough ↦ (n, rw enough refl, Same-refl n h, ground arith)
    | inl short ↦
        let (c, e, room, near) =
          double_total 32 (first_capacity n) required (ground arith) (omega arith) (ground arith) in
        let few_c : c ≤ most = ground (arith, mem.first) in
        let (buf, f, same, long) = fresh-Same n c n.blob h (ground arith) few_c in
        (record n { contents = buf }, rw (short, e, f) refl, same, omega (arith, long))
  ]

  put_bytes-Written :
      (ticks offset : ℕ) (bytes : List ℕ) (n n' : Node)
      → IsPlain n
      → Same n n'
      → offset ≤ n.size
      → offset + length bytes ≤ length n'.contents
      → Written n offset bytes (
          bump_mtime ticks (record n' {
            contents = write_at offset bytes n'.contents;
            size = if ltb n'.size (offset + length bytes) then offset + length bytes else n'.size;
          }))
  put_bytes-Written ticks offset bytes n n' p s at_end room =
      let long = length-write_at offset bytes n'.contents room in
      record {
        path = s.path;
        mode = s.mode ∙ p.mode;
        size = rw (s.size) refl;
        bytes_in =
            take-write_at _ n'.size offset bytes n'.contents (omega (arith, s.size)) room s.fits
              (ground arith) (ground arith) (ground arith)
            ∙ ap (write_at offset bytes) s.bytes;
        back = read_back offset bytes n'.contents (omega arith);
        fits = ground (arith, long, s.fits);
      }

  pub vfs_write_plain :
      (ticks : ℕ) (n : Node) (offset : ℕ) (bytes : List ℕ) (bl : Blobs) (fb : Option (List ℕ))
      → IsPlain n
      → vfs_write memory ticks n offset bytes bl fb
        ≡ write_file memory ticks offset bytes (cow_again memory (data_cow memory n bl)) fb
  unfolding vfs_write
  vfs_write_plain ticks n offset bytes bl fb p =
      rw (plain_open n p) (rw p.no_null (rw p.no_zero (rw p.no_fb refl)))

  write_file_small :
      (ticks offset : ℕ) (bytes : List ℕ) (n n' : Node) (bl : Blobs) (fb : Option (List ℕ))
      → offset + length bytes ≤ 2 ^ 31
      → reserve memory (offset + length bytes) n ≡ ready n'
      → write_file memory ticks offset bytes (some (n, bl)) fb
        ≡ put_bytes ticks offset bytes bl fb (ready n')
  unfolding write_file
  write_file_small ticks offset bytes n n' bl fb small e =
      let end : add32 offset (length bytes) ≡ offset + length bytes = omega arith in
      let no_wrap : ltb (offset + length bytes) offset ≡ false = ground arith in
      rw end (rw no_wrap (rw e refl))

  pub vfs_write-Written :
      (ticks : ℕ) (n : Node) (offset : ℕ) (bytes : List ℕ) (bl : Blobs) (fb : Option (List ℕ))
      → IsPlain n
      → n.size ≤ length n.contents
      → length n.contents ≤ most
      → most ≤ 2 ^ 24
      → offset ≤ n.size
      → 2 * (offset + length bytes) ≤ most
      → (n' : Node) × (bl' : Blobs) × (vfs_write memory ticks n offset bytes bl fb
          ≡ wrote n' bl' fb (some (length bytes)))
        × Written n offset bytes n'
  unfolding put_bytes
  vfs_write-Written ticks n offset bytes bl fb p h few heap at_end small =
      let (x, e, same, long) = cow_again-Cowed n bl h few in
      let (n', f, more, room) =
        reserve_total (offset + length bytes) x.0 same.fits (omega (arith, long)) heap small in
      (
        _,
        x.1,
        vfs_write_plain ticks n offset bytes bl fb p
            ∙ ap (λ o. write_file memory ticks offset bytes o fb) e
            ∙ write_file_small ticks offset bytes x.0 n' x.1 fb (omega arith) f,
        put_bytes-Written ticks offset bytes n n' p (Same-trans same more) at_end room,
      )
