-- ===== src/Heap/Kfree.antt =====
-- `kfree` of src/heap.c on the whole heap.
use mathlib.Core.Path.{subst}
use lite_bsd.Prelude.{
  ℕ, ◌+◌, ◌≤◌, ◌<◌, ◌≡◌, refl, ◌⊎◌, inl, inr, Option, none, some, List, [], ◌∷◌, true, false, leb,
  ltb, ◌==◌, ◌||◌, sub32, Bool-cases, arith, sym, ◌∙◌,
}
use lite_bsd.Heap.{
  Block, Heap, heap_start, header, end_of, release, find_live, header_at, drop_live, free_block,
  kfree, kmalloc, done,
}
use lite_bsd.Heap.Inv.{Apart, ApartAll, AllApart, Disjoint, Within, total, IsValid, Apart-sym}
use lite_bsd.Heap.Take.{Allocated, kmalloc-After}
use lite_bsd.Heap.Release.{release-Spaced, release-total, release-ApartAll}

-- What holds of the live block `b` at the address `a`, and of the live list without it.
record Dropped (a lo hi : ℕ) (free live : List Block) (b : Block) : Type 0 where
  here : b.addr ≡ a
  above : lo ≤ b.addr
  below : end_of b ≤ hi
  off_free : ApartAll b free
  off_live : ApartAll b (drop_live a live)
  others : (c : Block) → ApartAll c live → Apart c b × ApartAll c (drop_live a live)
  within : Within lo hi (drop_live a live)
  disjoint : Disjoint (drop_live a live)
  apart : AllApart (drop_live a live) free
  counted : total live ≡ header + b.size + total (drop_live a live)

abbrev Find : ℕ → ℕ → ℕ → List Block → List Block → Option Block → Type 0
Find a lo hi free live none = Unit {0}
Find a lo hi free live (some b) = Dropped a lo hi free live b

Find-live-cons :
    (a lo hi : ℕ) (free : List Block) (x : Block) (xs : List Block) (found : Option Block)
    → (x.addr == a) ≡ false
    → Within lo hi (x ∷ xs)
    → Disjoint (x ∷ xs)
    → AllApart (x ∷ xs) free
    → Find a lo hi free xs found
    → Find a lo hi free (x ∷ xs) found
unfolding drop_live
Find-live-cons a lo hi free x xs none e w d p f = tt
Find-live-cons a lo hi free x xs (some b) e w d p f =
    let apart_x = f.others x d.0 in
    record {
      here = f.here;
      above = f.above;
      below = f.below;
      off_free = f.off_free;
      off_live = rw e (Apart-sym x b apart_x.0, f.off_live);
      others = λ c h. ((f.others c h.1).0, rw e (h.0, (f.others c h.1).1));
      within = rw e (w.0, w.1, f.within);
      disjoint = rw e (apart_x.1, f.disjoint);
      apart = rw e (p.0, f.apart);
      counted = rw e (omega (arith, f.counted));
    }

find_live-Find :
    (a lo hi : ℕ) (free live : List Block)
    → Within lo hi live
    → Disjoint live
    → AllApart live free
    → Find a lo hi free live (find_live a live)
unfolding find_live drop_live
find_live-Find a lo hi free [] w d p = tt
find_live-Find a lo hi free (x ∷ xs) w d p = elim (Bool-cases (x.addr == a)) [
  | inl here ↦ rw here (record {
    here = ground arith;
    above = w.0;
    below = w.1;
    off_free = p.0;
    off_live = rw here d.0;
    others = λ c h. rw here (h.0, h.1);
    within = rw here w.2;
    disjoint = rw here d.1;
    apart = rw here p.1;
    counted = rw here;
  })
  | inr there ↦ rw there (
      Find-live-cons a lo hi free x xs (find_live a xs) there w d p
        (find_live-Find a lo hi free xs w.2 d.1 p.1))
]

-- The blocks apart from `b` stay apart from the free list that `b` is released into.
release-AllApart :
    (b : Block) (free live : List Block)
    → ApartAll b live
    → AllApart live free
    → AllApart live (release b free)
release-AllApart b free [] p a = tt
release-AllApart b free (c ∷ cs) p a =
    (release-ApartAll c b free (Apart-sym b c p.0) a.0, release-AllApart b free cs p.1 a.1)

free_block-IsValid :
    (a : ℕ) (h : Heap) (found : Option Block)
    → IsValid h
    → Find a heap_start h.begin h.free h.live found
    → IsValid (free_block a h found)
unfolding free_block
free_block-IsValid a h none v f = v
free_block-IsValid a h (some b) v f = elim (Bool-cases (ltb a heap_start || leb h.begin a)) [
  | inl outside ↦ rw outside v
  | inr inside ↦ rw inside (record {
    started = v.started;
    bounded = v.bounded;
    spaced = release-Spaced b heap_start h.begin h.free f.above f.below f.off_free v.spaced;
    within = f.within;
    disjoint = f.disjoint;
    apart = release-AllApart b h.free (drop_live a h.live) f.off_live f.apart;
    counted = omega (arith, f.counted, v.counted, v.tiled, v.bounded);
    tiled = omega (arith, f.counted, v.tiled, release-total b h.free);
  })
]

-- One of the blocks has its header at the address.
abbrev pub Headed : ℕ → List Block → Type 0
Headed a [] = ⊥
Headed a (b ∷ bs) = (b.addr ≡ a) ⊎ Headed a bs

find_live-some :
    (a : ℕ) (live : List Block) → Headed a live → (b : Block) × (find_live a live ≡ some b)
unfolding find_live
find_live-some a [] h = absurd h
find_live-some a (x ∷ xs) h = elim (Bool-cases (x.addr == a)) [
  | inl here ↦ (x, rw here refl)
  | inr there ↦ elim h [
    | inl e ↦ absurd (ground (arith, e))
    | inr later ↦ let (b, e) = find_live-some a xs later in (b, rw there e)
  ]
]

-- The pointer is that of a live block, or no payload bytes in front of it look like a live header.
abbrev pub Genuine : (ℕ → Option ℕ) → ℕ → List Block → Type 0
Genuine payload ptr live = Headed (sub32 ptr header) live ⊎ (payload (sub32 ptr header) ≡ none)

header_at-Find :
    (payload : ℕ → Option ℕ) (ptr lo hi : ℕ) (free live : List Block) (found : Option Block)
    → find_live (sub32 ptr header) live ≡ found
    → Genuine payload ptr live
    → Find (sub32 ptr header) lo hi free live found
    → Find (sub32 ptr header) lo hi free live (header_at payload (sub32 ptr header) found)
unfolding header_at
header_at-Find payload ptr lo hi free live (some b) e g f = f
header_at-Find payload ptr lo hi free live none e (inr plain) f = rw plain tt
header_at-Find payload ptr lo hi free live none e (inl here) f =
    let (b, k) = find_live-some (sub32 ptr header) live here in absurd (none_some (sym e ∙ k))
  where
    none_some : {b : Block} → none ≡ some b → ⊥
    none_some k = cc

free_block_outside :
    (a : ℕ) (h : Heap) (o : Option Block) → (a < heap_start) ⊎ (h.begin ≤ a) → free_block a h o ≡ h
unfolding free_block
free_block_outside a h none out = refl
free_block_outside a h (some b) out =
    let no : (ltb a heap_start || leb h.begin a) ≡ true = ground (arith, out) in rw no refl

-- `kfree` of a pointer that is that of a live block, or in front of which no payload bytes look like
-- the header of one, or whose header would lie outside the part of the heap in use, keeps the heap
-- sound: the free list stays ordered by address with no two neighbours touching, apart from what is
-- live, and the bytes of both lists fill the part in use.
pub kfree-IsValid :
    (payload : ℕ → Option ℕ) (ptr : ℕ) (h : Heap)
    → Genuine payload ptr h.live ⊎ ((sub32 ptr header < heap_start) ⊎ (h.begin ≤ sub32 ptr header))
    → IsValid h
    → IsValid (kfree payload ptr h)
unfolding kfree
kfree-IsValid payload ptr h g v =
    let a = sub32 ptr header in
    let found = find_live a h.live in
    elim (Bool-cases (ptr == 0)) [
      | inl null ↦ rw null v
      | inr pointer ↦ elim g [
        | inr out ↦ rw (pointer, free_block_outside a h (header_at payload a found) out) v
        | inl true_header ↦ rw pointer (
            free_block-IsValid a h (header_at payload a found) v (
              header_at-Find payload ptr heap_start h.begin h.free h.live found refl true_header
                (find_live-Find a heap_start h.begin h.free h.live v.within v.disjoint v.apart)))
      ]
    ]

-- The head of the live list is found by its address.
kfree_head :
    (payload : ℕ → Option ℕ) (begin used : ℕ) (free : List Block) (b : Block) (rest : List Block)
    → IsValid (record { begin = begin; used = used; free = free; live = b ∷ rest })
    → let h =
        kfree payload
          (b.addr + header)
          (record { begin = begin; used = used; free = free; live = b ∷ rest }) in
      (h.live ≡ rest) × (h.used ≡ total rest)
unfolding kfree free_block header_at find_live drop_live
kfree_head payload begin used free b rest v =
    let pointer : ((b.addr + header) == 0) ≡ false = ground arith in
    let back : sub32 (b.addr + header) header ≡ b.addr = omega arith in
    let here : (b.addr == b.addr) ≡ true = ground arith in
    let inside : (ltb b.addr heap_start || leb begin b.addr) ≡ false = ground arith in
    rw pointer (rw back (rw here (rw inside (ground arith, omega arith))))

-- `kfree` of a pointer that `kmalloc` just returned gives back what it took: the same blocks are
-- live, the count of used bytes is the old one, and the heap is sound.
pub kfree-kmalloc :
    (payload : ℕ → Option ℕ) (size p : ℕ) (h h' : Heap)
    → IsValid h
    → kmalloc size h ≡ done (some p) h'
    → ((kfree payload p h').live ≡ h.live)
      × ((kfree payload p h').used ≡ h.used)
      × IsValid (kfree payload p h')
kfree-kmalloc payload size p h h' v e =
    let a : Allocated size h p h' = rw e at (kmalloc-After size h v) in
    let sound : IsValid (record h' { live = a.block ∷ h.live }) =
      subst (λ l. IsValid (record h' { live = l })) a.added a.valid in
    let k = kfree_head payload h'.begin h'.used h'.free a.block h.live sound in
    let freed : ((kfree payload (a.block.addr + header) h').live ≡ h.live)
        × ((kfree payload (a.block.addr + header) h').used ≡ total h.live) =
      subst
        (λ l.
          ((kfree payload (a.block.addr + header) (record h' { live = l })).live ≡ h.live)
          × ((kfree payload (a.block.addr + header) (record h' { live = l })).used ≡ total h.live))
        (sym a.added) k in
    let back : sub32 (a.block.addr + header) header ≡ a.block.addr =
      back_to h' a.block h.live sound in
    let first : Headed (sub32 (a.block.addr + header) header) h'.live =
      subst (λ l. Headed (sub32 (a.block.addr + header) header) l) (sym a.added) (inl (sym back)) in
    rw a.points (
      freed.0,
      freed.1 ∙ sym v.counted,
      kfree-IsValid payload (a.block.addr + header) h' (inl (inl first)) a.valid,
    )
  where
    back_to :
        (h : Heap) (b : Block) (bs : List Block)
        → IsValid (record h { live = b ∷ bs })
        → sub32 (b.addr + header) header ≡ b.addr
    back_to h b bs v = let w = v.within in let m = v.bounded in omega (arith, w.0, w.1)
