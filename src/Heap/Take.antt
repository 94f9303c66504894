-- ===== src/Heap/Take.antt =====
-- `kmalloc` of src/heap.c: the search takes a block out of the free list, and the heap stays sound.
use mathlib.Core.Path.{subst}
use lite_bsd.Prelude.{
  ℕ, suc, ◌+◌, ◌-◌, ◌*◌, ◌/◌, ◌≤◌, ◌<◌, ◌≡◌, refl, ◌⊎◌, inl, inr, Option, none, some, List, [], ◌∷◌,
  leb, ltb, ◌==◌, add32, Bool-cases, arith,
}
use lite_bsd.Heap.{
  Block, Heap, heap_start, heap_end, heap_size, header, end_of, tail_of, carve, pass, first_fit,
  align_size, Outcome, done, halted, hand_out, extend, kmalloc,
}
use lite_bsd.Heap.Inv.{
  Apart, ApartAll, AllApart, Spaced, total, IsValid, Apart-sym, Spaced-weaken, Within-weaken,
  ApartAll-below, ApartAll-above, ApartAll-above_Spaced,
}

-- What holds of the block `b` taken out of `free`, and of what is left.
pub record Taken (lo hi requested : ℕ) (free : List Block) (b : Block) (rest : List Block)
    : Type 0 where
  pub fits : requested ≤ b.size
  pub above : lo ≤ b.addr
  pub below : end_of b ≤ hi
  pub spaced : Spaced lo hi rest
  pub apart : ApartAll b rest
  pub others : (c : Block) → ApartAll c free → Apart c b × ApartAll c rest
  pub counted : total free ≡ header + b.size + total rest

carve-Taken :
    {lo hi : ℕ} (requested : ℕ) (b : Block) (bs : List Block)
    → Spaced lo hi (b ∷ bs)
    → requested ≤ b.size
    → Taken lo hi requested (b ∷ bs) (carve requested b bs).0 (carve requested b bs).1
unfolding carve tail_of
carve-Taken {lo} {hi} requested b bs s p =
    elim (Bool-cases (leb (requested + header + 16) b.size)) [
      | inl split ↦ rw split (record {
        fits = omega arith;
        above = s.0;
        below = ground arith;
        spaced = (
          omega arith,
          ground arith,
          Spaced-weaken (suc (end_of b)) _ hi hi bs (ground arith) (omega arith) s.2,
        );
        apart = (
          inl (omega arith),
          ApartAll-below (suc (end_of b)) hi (record b { size = requested }) bs (ground arith) s.2,
        );
        others = λ c h. (ground arith, (ground arith, h.1));
        counted = ground arith;
      })
      | inr whole ↦ rw whole (record {
        fits = p;
        above = s.0;
        below = s.1;
        spaced = Spaced-weaken (suc (end_of b)) lo hi hi bs (omega arith) (omega arith) s.2;
        apart = ApartAll-below (suc (end_of b)) hi b bs (omega arith) s.2;
        others = λ c h. (ground arith, h.1);
        counted = refl;
      })
    ]

-- No block of the list has that many bytes.
abbrev pub NoFit : ℕ → List Block → Type 0
NoFit requested [] = Unit {0}
NoFit requested (b ∷ bs) = (b.size < requested) × NoFit requested bs

-- What the search finds.
abbrev pub Search : ℕ → ℕ → ℕ → List Block → Option (Block × List Block) → Type 0
Search lo hi requested free none = NoFit requested free
Search lo hi requested free (some (b, rest)) = Taken lo hi requested free b rest

pass-Search :
    (lo hi requested : ℕ) (x : Block) (xs : List Block) (found : Option (Block × List Block))
    → Spaced lo hi (x ∷ xs)
    → x.size < requested
    → Search (suc (end_of x)) hi requested xs found
    → Search lo hi requested (x ∷ xs) (pass x found)
unfolding pass
pass-Search lo hi requested x xs none s small t = (small, t)
pass-Search lo hi requested x xs (some (b, rest)) s small t = record {
  fits = t.fits;
  above = omega (arith, t.above);
  below = t.below;
  spaced = (s.0, s.1, t.spaced);
  apart = (inr (omega (arith, t.above)), t.apart);
  others = λ c h. ((t.others c h.1).0, (h.0, (t.others c h.1).1));
  counted = omega (arith, t.counted);
}

pub first_fit-Search :
    (lo hi requested : ℕ) (free : List Block)
    → Spaced lo hi free
    → Search lo hi requested free (first_fit requested free)
unfolding first_fit
first_fit-Search lo hi requested [] s = tt
first_fit-Search lo hi requested (x ∷ xs) s = elim (Bool-cases (leb requested x.size)) [
  | inl fit ↦ rw fit (carve-Taken requested x xs s (ground arith))
  | inr small ↦ rw small (
      pass-Search lo hi requested x xs (first_fit requested xs) s (ground arith)
        (first_fit-Search (suc (end_of x)) hi requested xs s.2))
]

-- What is handed out is apart from what was handed out before.
live_apart :
    (lo hi requested : ℕ) (free : List Block) (b : Block) (rest live : List Block)
    → Taken lo hi requested free b rest
    → AllApart live free
    → AllApart live rest × ApartAll b live
live_apart lo hi requested free b rest [] t a = (tt, tt)
live_apart lo hi requested free b rest (c ∷ cs) t a =
    let ih = live_apart lo hi requested free b rest cs t a.1 in
    let one = t.others c a.0 in ((one.1, ih.0), (Apart-sym c b one.0, ih.1))

-- The heap with the block taken handed out is sound, and nothing handed out before moves.
hand_out-IsValid :
    (requested : ℕ) (h : Heap) (b : Block) (rest : List Block)
    → IsValid h
    → Taken heap_start h.begin requested h.free b rest
    → IsValid (record h { used = add32 h.used (header + b.size); free = rest; live = b ∷ h.live })
hand_out-IsValid requested h b rest v t = record {
  started = v.started;
  bounded = v.bounded;
  spaced = t.spaced;
  within = (t.above, t.below, v.within);
  disjoint =
      ((live_apart heap_start h.begin requested h.free b rest h.live t v.apart).1, v.disjoint);
  apart = (t.apart, (live_apart heap_start h.begin requested h.free b rest h.live t v.apart).0);
  counted = omega (arith, t.counted, v.tiled, v.bounded, v.counted);
  tiled = omega (arith, t.counted, v.tiled);
}

extend-IsValid :
    (requested : ℕ) (h : Heap)
    → IsValid h
    → h.begin + (header + requested) ≤ heap_end
    → IsValid (record h {
      begin = add32 h.begin (header + requested);
      used = add32 h.used (header + requested);
      live = record { addr = h.begin; size = requested } ∷ h.live;
    })
extend-IsValid requested h v room =
    let new : Block = record { addr = h.begin; size = requested } in
    record {
      started = omega arith;
      bounded = omega arith;
      spaced =
          Spaced-weaken heap_start heap_start h.begin _ h.free (omega arith) (omega arith) v.spaced;
      within = (
        v.started,
        omega arith,
        Within-weaken heap_start h.begin _ h.live (omega arith) v.within,
      );
      disjoint = (ApartAll-above heap_start h.begin new h.live (omega arith) v.within, v.disjoint);
      apart = (ApartAll-above_Spaced heap_start h.begin new h.free (omega arith) v.spaced, v.apart);
      counted = omega arith;
      tiled = omega arith;
    }

-- What a successful call gives: a payload of at least `size` bytes behind a new live header that
-- overlaps no block handed out before, in a sound heap.
pub record Allocated (size : ℕ) (h : Heap) (p : ℕ) (h' : Heap) : Type 0 where
  pub valid : IsValid h'
  pub block : Block
  pub points : p ≡ block.addr + header
  pub large : size ≤ block.size
  pub added : h'.live ≡ block ∷ h.live
  pub fresh : ApartAll block h.live

-- The size in whole words.
abbrev pub rounded : ℕ → ℕ
rounded size = (size + 3) / 4 * 4

-- Why a call halts the machine: the request is larger than the heap, or no free block has that many
-- bytes, in whole words, and the rest of the heap has not either.
abbrev pub Exhausted : ℕ → Heap → Type 0
Exhausted size h =
    (heap_size < size + header)
    ⊎ (NoFit (rounded size) h.free × (heap_end < h.begin + (header + rounded size)))

abbrev pub After : ℕ → Heap → Outcome → Type 0
After size h (done none h') = (size ≡ 0) × (h' ≡ h)
After size h (done (some p) h') = Allocated size h p h'
After size h halted = Exhausted size h

align_size-ge :
    (n : ℕ) → n + header ≤ heap_size → (n ≤ align_size n) × (align_size n + header ≤ heap_size)
unfolding align_size
align_size-ge n p = omega arith

align_size-rounded : (n : ℕ) → n + header ≤ heap_size → align_size n ≡ rounded n
unfolding align_size
align_size-rounded n p = omega arith

hand_out-After :
    (size : ℕ) (h : Heap) (found : Option (Block × List Block))
    → IsValid h
    → size + header ≤ heap_size
    → Search heap_start h.begin (align_size size) h.free found
    → After size h (hand_out (align_size size) h found)
unfolding hand_out extend
hand_out-After size h none v p t =
    elim (Bool-cases (ltb (heap_end - (header + align_size size)) h.begin)) [
      | inl full ↦ rw full (
          inr (
            subst (λ n. NoFit n h.free × (heap_end < h.begin + (header + n)))
              (align_size-rounded size p) (t, ground (arith, align_size-ge size p))))
      | inr room ↦ rw room (record {
        valid = extend-IsValid (align_size size) h v (ground (arith, align_size-ge size p));
        block = record { addr = h.begin; size = align_size size };
        points = refl;
        large = (align_size-ge size p).0;
        added = refl;
        fresh = ApartAll-above heap_start h.begin _ h.live (omega arith) v.within;
      })
    ]
hand_out-After size h (some (b, rest)) v p t = record {
  valid = hand_out-IsValid (align_size size) h b rest v t;
  block = b;
  points = refl;
  large = omega (arith, t.fits, align_size-ge size p);
  added = refl;
  fresh = (live_apart heap_start h.begin (align_size size) h.free b rest h.live t v.apart).1;
}

-- In a sound heap `kmalloc` returns NULL for the size 0 alone and then changes nothing; it halts
-- only if the request exceeds the heap, or in whole words it exceeds every free block and what is
-- left behind them; and else it returns the payload of a new live block of at least `size` bytes,
-- apart from every block that was live, in a sound heap.
pub kmalloc-After : (size : ℕ) (h : Heap) → IsValid h → After size h (kmalloc size h)
unfolding kmalloc
kmalloc-After size h v = elim (Bool-cases (size == 0)) [
  | inl zero_size ↦ rw zero_size (ground arith, refl)
  | inr some_size ↦ rw some_size (elim (Bool-cases (ltb (heap_size - header) size)) [
    | inl big ↦ rw big (inl (ground arith))
    | inr small ↦ rw small (
        hand_out-After size h (first_fit (align_size size) h.free) v (ground arith)
          (first_fit-Search heap_start h.begin (align_size size) h.free v.spaced))
  ])
]
