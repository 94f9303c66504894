-- ===== src/Heap/Tests.antt =====
-- The heap of src/heap.c on small inputs, and the theorems at them.
use lite_bsd.Prelude.{ℕ, ◌+◌, ◌≡◌, refl, inl, Option, none, some, [], ◌∷◌, arith}
use lite_bsd.Heap.{Block, Heap, done, kmalloc, kfree}
use lite_bsd.Heap.Inv.{IsValid}
use lite_bsd.Heap.Take.{After, kmalloc-After}
use lite_bsd.Heap.Kfree.{kfree-IsValid, kfree-kmalloc}

abbrev block : ℕ → ℕ → Block
block a n = record { addr = a; size = n }

-- Two blocks handed out with a free one between them.
abbrev three : Heap
three = record {
  begin = 0x400000 + 136;
  used = 72;
  free = block (0x400000 + 32) 52 ∷ [];
  live = block 0x400000 20 ∷ block (0x400000 + 96) 28 ∷ [];
}

three-IsValid : IsValid three
three-IsValid = omega arith

-- The first block is used, split.
abbrev split_heap : Heap
split_heap = record three {
  used = 96;
  free = block (0x400000 + 56) 28 ∷ [];
  live = block (0x400000 + 32) 12 ∷ three.live;
}

kmalloc_splits : kmalloc 10 three ≡ done (some (0x400000 + 44)) split_heap
unfolding kmalloc
kmalloc_splits = refl

-- No payload bytes look like a header.
abbrev no_payload : ℕ → Option ℕ
no_payload a = none

-- Payload bytes in the last block look like the header of one of 4 bytes: a part of the live block
-- comes into the free list.
kfree_payload :
    (kfree (λ a. some 4) (0x400000 + 120) three).free
    ≡ block (0x400000 + 32) 52 ∷ block (0x400000 + 108) 4 ∷ []
unfolding kfree
kfree_payload = refl

-- The released block is merged on both sides.
kfree_merges : kfree no_payload (0x400000 + 12) three ≡ record three {
  used = 40;
  free = block 0x400000 84 ∷ [];
  live = block (0x400000 + 96) 28 ∷ [];
}
unfolding kfree
kfree_merges = refl

kmalloc-After_example : After 10 three (kmalloc 10 three)
kmalloc-After_example = kmalloc-After 10 three three-IsValid

kfree-IsValid_example : IsValid (kfree no_payload (0x400000 + 12) three)
kfree-IsValid_example =
    kfree-IsValid no_payload (0x400000 + 12) three (inl (inl (inl refl))) three-IsValid

kfree-kmalloc_example :
    ((kfree no_payload (0x400000 + 44) split_heap).live ≡ three.live)
    × ((kfree no_payload (0x400000 + 44) split_heap).used ≡ three.used)
    × IsValid (kfree no_payload (0x400000 + 44) split_heap)
kfree-kmalloc_example =
    kfree-kmalloc no_payload 10 (0x400000 + 44) three split_heap three-IsValid kmalloc_splits
