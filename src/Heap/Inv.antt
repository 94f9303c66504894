-- ===== src/Heap/Inv.antt =====
-- What a sound heap of src/heap.c is: the blocks, free and handed out, tile the part in use.
use lite_bsd.Prelude.{ℕ, suc, ◌+◌, ◌≤◌, ◌≡◌, ◌⊎◌, inl, inr, List, [], ◌∷◌, arith}
use lite_bsd.Heap.{Block, Heap, heap_start, heap_end, header, end_of}

-- Two blocks share no byte, headers included.
abbrev pub Apart : Block → Block → Type 0
Apart b c = (end_of b ≤ c.addr) ⊎ (end_of c ≤ b.addr)

abbrev pub ApartAll : Block → List Block → Type 0
ApartAll b [] = Unit
ApartAll b (c ∷ cs) = Apart b c × ApartAll b cs

abbrev pub Disjoint : List Block → Type 0
Disjoint [] = Unit
Disjoint (b ∷ bs) = ApartAll b bs × Disjoint bs

-- Each block of the first list is apart from all of the second.
abbrev pub AllApart : List Block → List Block → Type 0
AllApart [] cs = Unit
AllApart (b ∷ bs) cs = ApartAll b cs × AllApart bs cs

-- The blocks lie in [`lo`, `hi`) in the order of their addresses, and no two of them touch.
abbrev pub Spaced : ℕ → ℕ → List Block → Type 0
Spaced lo hi [] = Unit
Spaced lo hi (b ∷ bs) = (lo ≤ b.addr) × (end_of b ≤ hi) × Spaced (suc (end_of b)) hi bs

abbrev pub Within : ℕ → ℕ → List Block → Type 0
Within lo hi [] = Unit
Within lo hi (b ∷ bs) = (lo ≤ b.addr) × (end_of b ≤ hi) × Within lo hi bs

-- Headers and payloads of a list, in bytes.
abbrev pub total : List Block → ℕ
total [] = 0
total (b ∷ bs) = header + b.size + total bs

pub record IsValid (h : Heap) : Type 0 where
  pub started : heap_start ≤ h.begin
  pub bounded : h.begin ≤ heap_end
  pub spaced : Spaced heap_start h.begin h.free
  pub within : Within heap_start h.begin h.live
  pub disjoint : Disjoint h.live
  pub apart : AllApart h.live h.free
  pub counted : h.used ≡ total h.live
  pub tiled : heap_start + (total h.free + total h.live) ≡ h.begin

pub Spaced-weaken :
    (lo lo' hi hi' : ℕ) (bs : List Block)
    → lo' ≤ lo
    → hi ≤ hi'
    → Spaced lo hi bs
    → Spaced lo' hi' bs
Spaced-weaken lo lo' hi hi' [] p q s = tt
Spaced-weaken lo lo' hi hi' (b ∷ bs) p q s = (
  omega arith,
  omega arith,
  Spaced-weaken (suc (end_of b)) (suc (end_of b)) hi hi' bs (omega arith) q s.2,
)

pub Within-weaken :
    (lo hi hi' : ℕ) (bs : List Block) → hi ≤ hi' → Within lo hi bs → Within lo hi' bs
Within-weaken lo hi hi' [] q s = tt
Within-weaken lo hi hi' (b ∷ bs) q s = (s.0, omega arith, Within-weaken lo hi hi' bs q s.2)

-- A block that ends before a spaced list begins is apart from it, and so is one behind its end.
pub ApartAll-below :
    (lo hi : ℕ) (b : Block) (bs : List Block) → end_of b ≤ lo → Spaced lo hi bs → ApartAll b bs
ApartAll-below lo hi b [] p s = tt
ApartAll-below lo hi b (c ∷ cs) p s =
    (inl (omega arith), ApartAll-below (suc (end_of c)) hi b cs (omega arith) s.2)

pub ApartAll-above_Spaced :
    (lo hi : ℕ) (b : Block) (bs : List Block) → hi ≤ b.addr → Spaced lo hi bs → ApartAll b bs
ApartAll-above_Spaced lo hi b [] p s = tt
ApartAll-above_Spaced lo hi b (c ∷ cs) p s =
    (inr (omega arith), ApartAll-above_Spaced (suc (end_of c)) hi b cs p s.2)

pub ApartAll-above :
    (lo hi : ℕ) (b : Block) (bs : List Block) → hi ≤ b.addr → Within lo hi bs → ApartAll b bs
ApartAll-above lo hi b [] p s = tt
ApartAll-above lo hi b (c ∷ cs) p s = (inr (omega arith), ApartAll-above lo hi b cs p s.2)

pub Apart-sym : (b c : Block) → Apart b c → Apart c b
Apart-sym b c (inl p) = inr p
Apart-sym b c (inr p) = inl p
