-- ===== src/Vfs/Content.antt =====
-- What `vfs_write` and `vfs_truncate` of src/vfs.c do to the bytes of a file.
use lite_bsd.Prelude.{
  ℕ, zero, suc, ◌+◌, ◌≤◌, ◌≡◌, refl, ap, ◌∙◌, ◌⊎◌, List, [], ◌∷◌, ◌++◌, arith, length, take, drop,
  length-take,
}
use lite_bsd.Vfs.Node.{overlay, write_at}

length-overlay : (bs xs : List ℕ) → length bs ≤ length xs → length (overlay bs xs) ≡ length xs
length-overlay [] xs h = refl
length-overlay (b ∷ bs) [] h = absurd (omega arith)
length-overlay (b ∷ bs) (x ∷ xs) h = ap suc (length-overlay bs xs (omega arith))

pub length-write_at :
    (o : ℕ) (bs xs : List ℕ) → o + length bs ≤ length xs → length (write_at o bs xs) ≡ length xs
length-write_at zero bs xs h = length-overlay bs xs (omega arith)
length-write_at (suc o) bs [] h = refl
length-write_at (suc o) bs (x ∷ xs) h = ap suc (length-write_at o bs xs (omega arith))

pub take-overlay : (bs xs : List ℕ) → take (length bs) (overlay bs xs) ≡ bs
take-overlay [] xs = refl
take-overlay (b ∷ bs) [] = ap (◌∷◌ b) (take_length bs)
  where
    take_length : (l : List ℕ) → take (length l) l ≡ l
    take_length [] = refl
    take_length (x ∷ l) = ap (◌∷◌ x) (take_length l)
take-overlay (b ∷ bs) (x ∷ xs) = ap (◌∷◌ b) (take-overlay bs xs)

-- What is read back where it was written.
pub read_back :
    (o : ℕ) (bs xs : List ℕ) → o ≤ length xs → take (length bs) (drop o (write_at o bs xs)) ≡ bs
read_back zero bs xs h = take-overlay bs xs
read_back (suc o) bs [] h = absurd (omega arith)
read_back (suc o) bs (x ∷ xs) h = read_back o bs xs (omega arith)

take-overlay_all :
    (m s : ℕ) (bs xs : List ℕ)
    → length bs ≤ length xs
    → s ≤ length xs
    → s ≤ m
    → length bs ≤ m
    → (m ≡ s) ⊎ (m ≡ length bs)
    → take m (overlay bs xs) ≡ overlay bs (take s xs)
take-overlay_all m s [] xs h k p q e = ap (λ n. take n xs) (omega arith)
take-overlay_all m s (b ∷ bs) [] h k p q e = absurd (omega arith)
take-overlay_all zero s (b ∷ bs) (x ∷ xs) h k p q e = absurd (omega arith)
take-overlay_all (suc m) zero (b ∷ bs) (x ∷ xs) h k p q e =
    ap (◌∷◌ b) (ap (λ n. take n (overlay bs xs)) (omega arith) ∙ take-overlay bs xs)
take-overlay_all (suc m) (suc s) (b ∷ bs) (x ∷ xs) h k p q e = ap (◌∷◌ b) (
    take-overlay_all m s bs xs (omega arith) (omega arith) (omega arith) (omega arith)
      (omega arith))

-- The bytes of a file after a write into its buffer, at or before its end.
pub take-write_at :
    (m s o : ℕ) (bs xs : List ℕ)
    → o ≤ s
    → o + length bs ≤ length xs
    → s ≤ length xs
    → s ≤ m
    → o + length bs ≤ m
    → (m ≡ s) ⊎ (m ≡ o + length bs)
    → take m (write_at o bs xs) ≡ write_at o bs (take s xs)
take-write_at m s zero bs xs g h k p q e =
    take-overlay_all m s bs xs (omega arith) k p (omega arith) (omega arith)
take-write_at m zero (suc o) bs xs g h k p q e = absurd (omega arith)
take-write_at m (suc s) (suc o) bs [] g h k p q e = absurd (omega arith)
take-write_at zero (suc s) (suc o) bs (x ∷ xs) g h k p q e = absurd (omega arith)
take-write_at (suc m) (suc s) (suc o) bs (x ∷ xs) g h k p q e = ap (◌∷◌ x) (
    take-write_at m s o bs xs (omega arith) (omega arith) (omega arith) (omega arith) (omega arith)
      (omega arith))

-- The part that a fresh buffer keeps of an old one.
pub take_copied :
    (s : ℕ) (old new : List ℕ)
    → s ≤ length old
    → s ≤ length new
    → take s (write_at 0 (take s old) new) ≡ take s old
take_copied s old new h k =
    ap (λ n. take n (overlay (take s old) new)) (omega (arith, length-take s old))
    ∙ take-overlay (take s old) new

pub take-take : (m n : ℕ) (xs : List ℕ) → m ≤ n → take m (take n xs) ≡ take m xs
take-take zero n xs h = refl
take-take (suc m) zero xs h = absurd (omega arith)
take-take (suc m) (suc n) [] h = refl
take-take (suc m) (suc n) (x ∷ xs) h = ap (◌∷◌ x) (take-take m n xs (omega arith))

overlay_nil : (bs : List ℕ) → overlay bs [] ≡ bs
overlay_nil [] = refl
overlay_nil (b ∷ bs) = refl

-- What is written at the end is appended.
pub write_at_end :
    (n : ℕ) (bs xs : List ℕ) → n ≤ length xs → write_at n bs (take n xs) ≡ take n xs ++ bs
write_at_end zero bs xs h = overlay_nil bs
write_at_end (suc n) bs [] h = absurd (omega arith)
write_at_end (suc n) bs (x ∷ xs) h = ap (◌∷◌ x) (write_at_end n bs xs (omega arith))
