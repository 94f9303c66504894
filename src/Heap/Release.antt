-- ===== src/Heap/Release.antt =====
-- `kfree` of src/heap.c: the block returns to the free list, merged with its neighbours.
use lite_bsd.Prelude.{
  ℕ, suc, ◌+◌, ◌≤◌, ◌<◌, ◌≡◌, refl, ◌⊎◌, inl, inr, List, [], ◌∷◌, false, ltb, ◌==◌, Bool-cases,
  arith,
}
use lite_bsd.Heap.{
  Block, header, end_of, merge_next, insert_free, merge_previous, has_before, release,
}
use lite_bsd.Heap.Inv.{Apart, ApartAll, Spaced, total, Spaced-weaken}

-- As `Spaced`, but the block at the address `a` may touch the one before it.
abbrev pub SpacedBut : ℕ → ℕ → ℕ → List Block → Type 0
SpacedBut a lo hi [] = Unit
SpacedBut a lo hi (x ∷ xs) =
    ((lo ≤ x.addr) ⊎ ((x.addr ≡ a) × (lo ≤ suc x.addr)))
    × (end_of x ≤ hi)
    × SpacedBut a (suc (end_of x)) hi xs

SpacedBut-of : (a lo hi : ℕ) (xs : List Block) → Spaced lo hi xs → SpacedBut a lo hi xs
SpacedBut-of a lo hi [] s = tt
SpacedBut-of a lo hi (x ∷ xs) s = (inl s.0, s.1, SpacedBut-of a (suc (end_of x)) hi xs s.2)

-- `b` before the list `xs`, which it is apart from.
merge_next-SpacedBut :
    (b : Block) (lo hi : ℕ) (xs : List Block)
    → lo ≤ suc b.addr
    → end_of b ≤ hi
    → Spaced (end_of b) hi xs
    → SpacedBut b.addr lo hi (merge_next b xs)
unfolding merge_next
merge_next-SpacedBut b lo hi [] p q s = (ground arith, q, tt)
merge_next-SpacedBut b lo hi (n ∷ rest) p q s = elim (Bool-cases (end_of b == n.addr)) [
  | inl touch ↦ rw touch (
    ground arith,
    ground arith,
    SpacedBut-of b.addr _ hi rest
        (Spaced-weaken (suc (end_of n)) _ hi hi rest (ground arith) (omega arith) s.2),
  )
  | inr gap ↦
      rw gap (
        ground arith,
        q,
        (inl (ground arith), s.1, SpacedBut-of b.addr (suc (end_of n)) hi rest s.2),
      )
]

-- The head of a spaced list lies behind a block that is apart from it and not above it.
Spaced-behind :
    (b : Block) (lo hi : ℕ) (x : Block) (xs : List Block)
    → b.addr ≤ x.addr
    → Apart b x
    → Spaced lo hi (x ∷ xs)
    → Spaced (end_of b) hi (x ∷ xs)
Spaced-behind b lo hi x xs p a s = (ground arith, s.1, s.2)

insert_free-SpacedBut :
    (b : Block) (lo hi : ℕ) (xs : List Block)
    → lo ≤ suc b.addr
    → end_of b ≤ hi
    → ApartAll b xs
    → Spaced lo hi xs
    → SpacedBut b.addr lo hi (insert_free b xs)
unfolding insert_free
insert_free-SpacedBut b lo hi [] p q a s = merge_next-SpacedBut b lo hi [] p q tt
insert_free-SpacedBut b lo hi (x ∷ xs) p q a s = elim (Bool-cases (ltb x.addr b.addr)) [
  | inl before ↦
      rw before
        (inl s.0, s.1, insert_free-SpacedBut b (suc (end_of x)) hi xs (ground arith) q a.1 s.2)
  | inr behind ↦
      rw behind (
        merge_next-SpacedBut b lo hi (x ∷ xs) p q (Spaced-behind b lo hi x xs (ground arith) a.0 s))
]

-- The exception does not matter behind the address `a`.
Spaced-of_But :
    (a lo hi : ℕ) (xs : List Block) → suc a < lo → SpacedBut a lo hi xs → Spaced lo hi xs
Spaced-of_But a lo hi [] p s = tt
Spaced-of_But a lo hi (x ∷ xs) p s =
    (omega arith, s.1, Spaced-of_But a (suc (end_of x)) hi xs (omega arith) s.2)

abbrev Head : ℕ → List Block → Type 0
Head lo [] = Unit
Head lo (x ∷ xs) = lo ≤ x.addr

-- After the last merge nothing touches.
merge_previous-Spaced :
    (a lo hi : ℕ) (xs : List Block)
    → Head lo xs
    → SpacedBut a lo hi xs
    → Spaced lo hi (merge_previous a xs)
unfolding merge_previous
merge_previous-Spaced a lo hi [] p s = tt
merge_previous-Spaced a lo hi (x ∷ []) p s = (p, s.1, tt)
merge_previous-Spaced a lo hi (x ∷ y ∷ rest) p s = elim (Bool-cases (y.addr == a)) [
  | inl here ↦ rw here (
      let rest' = Spaced-of_But a (suc (end_of y)) hi rest (ground arith) s.2.2 in
      elim (Bool-cases (end_of x == y.addr)) [
        | inl touch ↦ rw touch (
          p,
          ground arith,
          Spaced-weaken (suc (end_of y)) _ hi hi rest (ground arith) (omega arith) rest',
        )
        | inr gap ↦ rw gap (p, s.1, (ground arith, s.2.1, rest'))
      ])
  | inr there ↦
      rw there (p, s.1, merge_previous-Spaced a (suc (end_of x)) hi (y ∷ rest) (ground arith) s.2)
]

insert_free-Head :
    (b : Block) (lo : ℕ) (xs : List Block) → lo ≤ b.addr → Head lo xs → Head lo (insert_free b xs)
unfolding insert_free merge_next
insert_free-Head b lo [] p h = p
insert_free-Head b lo (x ∷ xs) p h = ground arith

-- With no free block before it, the list begins with the block itself.
insert_free-Spaced :
    (b : Block) (lo hi : ℕ) (xs : List Block)
    → lo ≤ b.addr
    → end_of b ≤ hi
    → ApartAll b xs
    → Spaced lo hi xs
    → has_before b xs ≡ false
    → Spaced lo hi (insert_free b xs)
unfolding insert_free has_before merge_next
insert_free-Spaced b lo hi [] p q a s e = (p, q, tt)
insert_free-Spaced b lo hi (x ∷ xs) p q a s e = rw e (elim (Bool-cases (end_of b == x.addr)) [
  | inl touch ↦
      rw touch (
        p,
        ground arith,
        Spaced-weaken (suc (end_of x)) _ hi hi xs (ground arith) (omega arith) s.2,
      )
  | inr gap ↦ rw gap (p, q, (ground arith, s.1, s.2))
])

pub release-Spaced :
    (b : Block) (lo hi : ℕ) (xs : List Block)
    → lo ≤ b.addr
    → end_of b ≤ hi
    → ApartAll b xs
    → Spaced lo hi xs
    → Spaced lo hi (release b xs)
unfolding release
release-Spaced b lo hi xs p q a s = elim (Bool-cases (has_before b xs)) [
  | inl some_before ↦ rw some_before (
      merge_previous-Spaced b.addr lo hi (insert_free b xs)
        (insert_free-Head b lo xs p (Head_of xs s))
        (insert_free-SpacedBut b lo hi xs (omega arith) q a s))
  | inr first ↦ rw first (insert_free-Spaced b lo hi xs p q a s first)
]
  where
    Head_of : (ys : List Block) → Spaced lo hi ys → Head lo ys
    Head_of [] t = tt
    Head_of (y ∷ ys) t = t.0

-- Releasing keeps the bytes of the list and of the block together.
merge_next-total :
    (b : Block) (xs : List Block) → total (merge_next b xs) ≡ header + b.size + total xs
unfolding merge_next
merge_next-total b [] = refl
merge_next-total b (n ∷ rest) = ground arith

insert_free-total :
    (b : Block) (xs : List Block) → total (insert_free b xs) ≡ header + b.size + total xs
unfolding insert_free
insert_free-total b [] = merge_next-total b []
insert_free-total b (x ∷ xs) = ground (arith, insert_free-total b xs, merge_next-total b (x ∷ xs))

merge_previous-total : (a : ℕ) (xs : List Block) → total (merge_previous a xs) ≡ total xs
unfolding merge_previous
merge_previous-total a [] = refl
merge_previous-total a (x ∷ []) = refl
merge_previous-total a (x ∷ y ∷ rest) = ground (arith, merge_previous-total a (y ∷ rest))

pub release-total :
    (b : Block) (xs : List Block) → total (release b xs) ≡ header + b.size + total xs
unfolding release
release-total b xs =
    ground (arith, insert_free-total b xs, merge_previous-total b.addr (insert_free b xs))

-- A block apart from the free list and from the one released is apart from the new free list.
merge_next-ApartAll :
    (c b : Block) (xs : List Block) → Apart c b → ApartAll c xs → ApartAll c (merge_next b xs)
unfolding merge_next
merge_next-ApartAll c b [] p a = (p, tt)
merge_next-ApartAll c b (n ∷ rest) p a = elim (Bool-cases (end_of b == n.addr)) [
  | inl touch ↦ rw touch (ground arith, a.1)
  | inr gap ↦ rw gap (p, a)
]

insert_free-ApartAll :
    (c b : Block) (xs : List Block) → Apart c b → ApartAll c xs → ApartAll c (insert_free b xs)
unfolding insert_free
insert_free-ApartAll c b [] p a = merge_next-ApartAll c b [] p a
insert_free-ApartAll c b (x ∷ xs) p a = elim (Bool-cases (ltb x.addr b.addr)) [
  | inl before ↦ rw before (a.0, insert_free-ApartAll c b xs p a.1)
  | inr behind ↦ rw behind (merge_next-ApartAll c b (x ∷ xs) p a)
]

merge_previous-ApartAll :
    (c : Block) (a : ℕ) (xs : List Block) → ApartAll c xs → ApartAll c (merge_previous a xs)
unfolding merge_previous
merge_previous-ApartAll c a [] h = tt
merge_previous-ApartAll c a (x ∷ []) h = h
merge_previous-ApartAll c a (x ∷ y ∷ rest) h = elim (Bool-cases (y.addr == a)) [
  | inl here ↦ rw here (elim (Bool-cases (end_of x == y.addr)) [
    | inl touch ↦ rw touch (ground arith, h.1.1)
    | inr gap ↦ rw gap h
  ])
  | inr there ↦ rw there (h.0, merge_previous-ApartAll c a (y ∷ rest) h.1)
]

pub release-ApartAll :
    (c b : Block) (xs : List Block) → Apart c b → ApartAll c xs → ApartAll c (release b xs)
unfolding release
release-ApartAll c b xs p a =
    let inserted = insert_free-ApartAll c b xs p a in
    elim (Bool-cases (has_before b xs)) [
      | inl some_before ↦
          rw some_before (merge_previous-ApartAll c b.addr (insert_free b xs) inserted)
      | inr first ↦ rw first inserted
    ]
