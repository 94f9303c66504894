-- ===== src/Vfs/Truncate.antt =====
-- `vfs_truncate` of src/vfs.c, reading after a write, and the writes that do not return.
use lite_bsd.Prelude.{
  ℕ, ◌+◌, ◌-◌, ◌*◌, ◌^◌, ◌≤◌, ◌<◌, ◌≡◌, refl, sym, ap, ◌∙◌, inl, inr, true, false, ◌||◌, Option,
  none, some, List, [], ◌∷◌, ◌++◌, ltb, leb, ◌==◌, Bool-cases, arith, length, take, drop, replicate,
  length-take, length-replicate, add32, append-nil, take_all,
}
use lite_bsd.Vfs.Node.{
  Node, Blobs, Wrote, halted, endless, grow, content, write_at, first_capacity, reserve, wrote,
  stuck, put_bytes, write_file, vfs_write, put_zeros, resize, vfs_truncate, read_bytes, vfs_read,
  bump_mtime, is_path, is_dir_node, is_symlink_node,
}
use lite_bsd.Vfs.Growth.{doubled, le-doubled, double_stuck}
use lite_bsd.Vfs.Content.{length-write_at, take-write_at, take-take, write_at_end}
use lite_bsd.Vfs.ReadWrite.{
  IsPlain, plain_open, Same, Same-trans, Memory, data_cow-Cowed, cow_again-Cowed, vfs_write-Written,
  reserve_total, vfs_write_plain, Written,
}

-- A plain file of `len` bytes: the old ones as far as they go, and zeros behind them.
pub record Truncated (n : Node) (len : ℕ) (n' : Node) : Type 0 where
  pub path : n'.path ≡ n.path
  pub mode : n'.mode ≡ n.mode
  pub size : n'.size ≡ len
  pub bytes : content n' ≡ take len (content n) ++ replicate (len - n.size) 0
  pub fits : n'.size ≤ length n'.contents

shrunk :
    (ticks len : ℕ) (n n' : Node)
    → Same n n'
    → len ≤ n.size
    → Truncated n len (bump_mtime ticks (record n' { size = len }))
shrunk ticks len n n' s h = record {
  path = s.path;
  mode = s.mode;
  size = refl;
  bytes =
      sym (take-take len n'.size n'.contents (omega (arith, s.size)))
      ∙ ap (take len) s.bytes
      ∙ sym (append-nil (take len (content n)))
      ∙ ap (λ k. take len (content n) ++ replicate k 0) none_new;
  fits = omega (arith, s.size, s.fits);
}
  where
    none_new : 0 ≡ len - n.size
    none_new = omega arith

kept : (len : ℕ) (n n' : Node) → Same n n' → len ≡ n.size → Truncated n len n'
kept len n n' s h = record {
  path = s.path;
  mode = s.mode;
  size = omega (arith, s.size);
  bytes =
      s.bytes
      ∙ sym (take_all len (content n) (omega (arith, length-take n.size n.contents)))
      ∙ sym (append-nil (take len (content n)))
      ∙ ap (λ k. take len (content n) ++ replicate k 0) none_new;
  fits = s.fits;
}
  where
    none_new : 0 ≡ len - n.size
    none_new = omega arith

module _ (memory : ℕ → Option (List ℕ)) (most : ℕ) (mem : Memory memory most) where
  grown :
      (ticks len : ℕ) (n n' : Node)
      → Same n n'
      → n.size ≤ len
      → len ≤ length n'.contents
      → Truncated n len (
          bump_mtime ticks (record n' {
            contents = write_at n'.size (replicate (len - n'.size) 0) n'.contents;
            size = len;
          }))
  grown ticks len n n' s h room =
      let added = length-replicate {A = ℕ} (len - n'.size) 0 in
      record {
        path = s.path;
        mode = s.mode;
        size = refl;
        bytes =
            take-write_at len n'.size n'.size (replicate (len - n'.size) 0) n'.contents
              (omega arith) (omega (arith, added, s.size)) s.fits (omega (arith, s.size))
              (omega (arith, added, s.size)) (omega (arith, added, s.size))
            ∙ write_at_end n'.size (replicate (len - n'.size) 0) n'.contents s.fits
            ∙ ap (λ l. l ++ replicate (len - n'.size) 0) (s.bytes ∙ sym whole)
            ∙ ap (λ k. take len (content n) ++ replicate (len - k) 0) s.size;
        fits = omega (
          arith,
          length-write_at n'.size (replicate (len - n'.size) 0) n'.contents
              (omega (arith, added, s.size)),
        );
      }
    where
      whole : take len (content n) ≡ content n
      whole = take_all len (content n) (omega (arith, length-take n.size n.contents))

  resize-Truncated :
      (ticks len : ℕ) (n n' : Node) (bl : Blobs)
      → Same n n'
      → length n'.contents ≤ most
      → most ≤ 2 ^ 24
      → 2 * len ≤ most
      → (m : Node) × (resize memory ticks len (some (n', bl)) ≡ wrote m bl none (some 0))
        × Truncated n len m
  unfolding resize put_zeros
  resize-Truncated ticks len n n' bl s few heap small = elim (Bool-cases (ltb len n'.size)) [
    | inl less ↦ (
      bump_mtime ticks (record n' { size = len }),
      rw less refl,
      shrunk ticks len n n' s (ground (arith, s.size)),
    )
    | inr more ↦ elim (Bool-cases (len == n'.size)) [
      | inl same ↦ (n', rw (more, same) refl, kept len n n' s (ground (arith, s.size)))
      | inr longer ↦
          let (m, e, same, room) = reserve_total memory most mem len n' s.fits few heap small in
          (
            bump_mtime ticks (record m {
              contents = write_at m.size (replicate (len - m.size) 0) m.contents;
              size = len;
            }),
            rw (more, longer, e) refl,
            grown ticks len n m (Same-trans s same) (ground (arith, s.size)) room,
          )
    ]
  ]

  -- Where `kmalloc` gives buffers of up to `most` bytes, from 256 to the 16 MB of the heap, and the
  -- buffer of a plain file is no longer, `vfs_truncate` to up to half of `most` returns 0 and leaves
  -- a file of that length under the same path: the old bytes as far as they go, and zeros behind
  -- them.
  pub vfs_truncate-Truncated :
      (ticks : ℕ) (n : Node) (len : ℕ) (bl : Blobs)
      → IsPlain n
      → n.size ≤ length n.contents
      → length n.contents ≤ most
      → most ≤ 2 ^ 24
      → 2 * len ≤ most
      → (n' : Node) × (bl' : Blobs) × (vfs_truncate memory ticks n len bl
          ≡ wrote n' bl' none (some 0))
        × Truncated n len n'
  unfolding vfs_truncate
  vfs_truncate-Truncated ticks n len bl p h few heap small =
      let (x, e, same, long) = data_cow-Cowed memory most mem n bl h few in
      let (m, f, t) = resize-Truncated ticks len n x.0 x.1 same (omega (arith, long)) heap small in
      (m, x.1, rw (plain_open n p) (rw e f), t)

  reserve_stuck :
      (k required : ℕ) (n : Node)
      → doubled k (first_capacity n) ≡ 2 ^ 31
      → 2 ^ 31 < required
      → reserve memory required n ≡ endless
  unfolding reserve grow
  reserve_stuck k required n e big =
      let below : first_capacity n ≤ 2 ^ 31 = rw e at (le-doubled k (first_capacity n)) in
      let short : ltb (length n.contents) required ≡ true = ground arith in
      rw (short, double_stuck k (first_capacity n) required e big 33) refl

  -- A write to a plain file that would end beyond 2^31 bytes does not return, if the capacity is a
  -- power of two up to 2^31 or the file has no buffer yet, and `kmalloc` gives buffers up to that
  -- capacity, and up to 256 bytes, for the copy: the loop that doubles the capacity goes round to 0 and on for ever.
  pub vfs_write-stuck :
      (ticks : ℕ) (n : Node) (offset : ℕ) (bytes : List ℕ) (bl : Blobs) (fb : Option (List ℕ))
      (k : ℕ)
      → IsPlain n
      → n.size ≤ length n.contents
      → length n.contents ≤ most
      → doubled k (first_capacity n) ≡ 2 ^ 31
      → 2 ^ 31 < offset + length bytes
      → offset + length bytes < 2 ^ 32
      → vfs_write memory ticks n offset bytes bl fb ≡ stuck
  unfolding write_file put_bytes
  vfs_write-stuck ticks n offset bytes bl fb k p h few e big small =
      let (x, f, same, long) = cow_again-Cowed memory most mem n bl h few in
      let e' : doubled k (first_capacity x.0) ≡ 2 ^ 31 = rw long e in
      let end : add32 offset (length bytes) ≡ offset + length bytes = omega arith in
      let no_wrap : ltb (offset + length bytes) offset ≡ false = ground arith in
      vfs_write_plain memory most mem ticks n offset bytes bl fb p
      ∙ rw f (rw end (rw no_wrap (rw (reserve_stuck k (offset + length bytes) x.0 e' big) refl)))

read_Written :
    (ticks : ℕ) (n n' : Node) (offset : ℕ) (bytes : List ℕ) (fb : Option (List ℕ))
    → IsPlain n
    → Written n offset bytes n'
    → (vfs_read ticks n' offset (length bytes) fb).1 ≡ some bytes
unfolding vfs_read read_bytes
read_Written ticks n n' offset bytes fb p w =
    let null' : is_path n' "/dev/null" ≡ false = rw w.path p.no_null in
    let zero' : is_path n' "/dev/zero" ≡ false = rw w.path p.no_zero in
    let fb' : is_path n' "/dev/fb0" ≡ false = rw w.path p.no_fb in
    let open' : (is_dir_node n' || is_symlink_node n') ≡ false = rw w.mode refl in
    rw open' (
      rw null' (
        rw zero' (
          rw fb' (elim (Bool-cases (leb n'.size offset)) [
            | inl behind ↦ rw behind (ap some (sym (nothing bytes (ground (arith, w.size)))))
            | inr inside ↦ rw inside (
                ap (λ k. some (take k (drop offset n'.contents))) (ground (arith, w.size))
                ∙ ap some w.back)
          ]))))
  where
    nothing : (l : List ℕ) → length l ≡ 0 → l ≡ []
    nothing [] h = refl
    nothing (x ∷ l) h = absurd (omega arith)

-- What reading gives in what a write leaves; nothing is read where it does not return.
abbrev pub read_after : ℕ → ℕ → ℕ → Wrote → Option (List ℕ)
read_after ticks offset count (wrote n bl fb result) = (vfs_read ticks n offset count fb).1
read_after ticks offset count stuck = none
read_after ticks offset count halted = none

-- Where `kmalloc` gives buffers of up to `most` bytes, from 256 to the 16 MB of the heap, and the buffer
-- of a plain file is no longer, `vfs_write` of bytes at or before its end and up to half of `most`
-- returns, and `vfs_read` of as many bytes there then gives the bytes written.
pub vfs_read-vfs_write :
    (memory : ℕ → Option (List ℕ)) (most ticks later : ℕ) (n : Node) (offset : ℕ) (bytes : List ℕ)
    (bl : Blobs) (fb : Option (List ℕ))
    → Memory memory most
    → IsPlain n
    → n.size ≤ length n.contents
    → length n.contents ≤ most
    → most ≤ 2 ^ 24
    → offset ≤ n.size
    → 2 * (offset + length bytes) ≤ most
    → read_after later offset (length bytes) (vfs_write memory ticks n offset bytes bl fb)
      ≡ some bytes
vfs_read-vfs_write memory most ticks later n offset bytes bl fb mem p h few heap at_end small =
    let (n', bl', e, w) =
      vfs_write-Written memory most mem ticks n offset bytes bl fb p h few heap at_end small in
    rw e (read_Written later n n' offset bytes fb p w)
