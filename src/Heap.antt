-- ===== src/Heap.antt =====
-- The kernel heap of src/heap.c: first-fit allocation over an address-ordered free list.
-- The list of free headers is `free`, in link order; `live` holds the headers whose magic is
-- HEAP_BLOCK_ALLOCATED. `kfree` gets besides what the other bytes of memory read as where it looks for
-- a header, so that payload bytes which look like one pass its test as they do in the code.

pub mod Inv
pub mod Take
pub mod Release
pub mod Kfree
mod Tests
use mathlib.Core.Option
use lite_bsd.Prelude.{
  ℕ, ◌+◌, ◌-◌, ◌*◌, ◌/◌, Bool, false, Option, none, some, List, [], ◌∷◌, ltb, leb, ◌==◌, ◌&&◌, ◌||◌,
  if◌then◌else◌, add32, sub32,
}

-- `struct heap_block`, by the address of its header and the size of its payload.
pub record Block : Type 0 where
  pub addr : ℕ
  pub size : ℕ

pub record Heap : Type 0 where
  pub begin : ℕ
  pub used : ℕ
  pub free : List Block
  pub live : List Block

abbrev pub heap_start : ℕ
heap_start = 0x400000

abbrev pub heap_size : ℕ
heap_size = 0x1000000

abbrev pub heap_end : ℕ
heap_end = heap_start + heap_size

-- sizeof(struct heap_block)
abbrev pub header : ℕ
header = 12

-- The heap before any call.
abbrev pub initial : Heap
initial = record { begin = heap_start; used = 0; free = []; live = [] }

-- The outcome of `kmalloc`: a pointer or NULL, or `err`, which prints and halts for good.
pub data Outcome : Type 0 where
  done : Option ℕ → Heap → Outcome
  halted : Outcome

pub align_size : ℕ → ℕ
align_size n = add32 n 3 / 4 * 4

-- What splitting leaves behind the first `requested` bytes of a payload.
tail_of : ℕ → Block → Block
tail_of requested b = record {
  addr = b.addr + header + requested;
  size = b.size - requested - header;
}

-- The block that is handed out, and what of the free list stands in its place.
pub carve : ℕ → Block → List Block → Block × List Block
unfolding tail_of
carve requested b rest =
    if leb (requested + header + 16) b.size
    then (record b { size = requested }, tail_of requested b ∷ rest)
    else (b, rest)

-- The search goes past a block that is too small, which stays in the list.
pass : Block → Option (Block × List Block) → Option (Block × List Block)
pass b none = none
pass b (some (a, rest)) = some (a, b ∷ rest)

-- The `while (block != NULL)` loop of `kmalloc`.
pub first_fit : ℕ → List Block → Option (Block × List Block)
unfolding carve pass
first_fit requested [] = none
first_fit requested (b ∷ bs) =
    if leb requested b.size then some (carve requested b bs) else pass b (first_fit requested bs)

-- A new block at the end of the part in use.
pub extend : ℕ → Heap → Outcome
extend requested h =
    if ltb (heap_end - (header + requested)) h.begin
    then halted
    else done (some (h.begin + header)) (record h {
      begin = add32 h.begin (header + requested);
      used = add32 h.used (header + requested);
      live = record { addr = h.begin; size = requested } ∷ h.live;
    })

pub hand_out : ℕ → Heap → Option (Block × List Block) → Outcome
hand_out requested h none = extend requested h
hand_out requested h (some (b, rest)) =
    done (some (b.addr + header))
      (record h { used = add32 h.used (header + b.size); free = rest; live = b ∷ h.live })

pub kmalloc : ℕ → Heap → Outcome
unfolding align_size first_fit hand_out extend
kmalloc size h =
    if size == 0
    then done none h
    else if ltb (heap_size - header) size
    then halted
    else hand_out (align_size size) h (first_fit (align_size size) h.free)

-- The header of the allocator at an address, if its magic is HEAP_BLOCK_ALLOCATED.
pub find_live : ℕ → List Block → Option Block
find_live a [] = none
find_live a (b ∷ bs) = if b.addr == a then some b else find_live a bs

-- `block->magic == HEAP_BLOCK_ALLOCATED`, and the header then. `payload a` is the size that the bytes
-- at `a` read as where they are no header of the allocator and yet have the magic word, and `none`
-- where they do not have it; the block that they stand for ends below 2^32.
pub header_at : (ℕ → Option ℕ) → ℕ → Option Block → Option Block
header_at payload a none = Option.map (λ n. record { addr = a; size = n }) (payload a)
header_at payload a (some b) = some b

pub drop_live : ℕ → List Block → List Block
drop_live a [] = []
drop_live a (b ∷ bs) = if b.addr == a then bs else b ∷ drop_live a bs

-- The first byte behind a block.
abbrev pub end_of : Block → ℕ
end_of b = b.addr + header + b.size

-- A block swallows its neighbour.
abbrev pub absorb : Block → Block → Block
absorb b n = record b { size = b.size + (header + n.size) }

pub merge_next : Block → List Block → List Block
merge_next b [] = b ∷ []
merge_next b (n ∷ rest) = if end_of b == n.addr then absorb b n ∷ rest else b ∷ n ∷ rest

-- The walk to the place of `b` by address, the two link writes, and the merge with what follows.
pub insert_free : Block → List Block → List Block
unfolding merge_next
insert_free b [] = merge_next b []
insert_free b (x ∷ xs) = if ltb x.addr b.addr then x ∷ insert_free b xs else merge_next b (x ∷ xs)

-- The walk to the block whose link leads to `a`, and the merge with it.
pub merge_previous : ℕ → List Block → List Block
merge_previous a [] = []
merge_previous a (x ∷ []) = x ∷ []
merge_previous a (x ∷ y ∷ rest) =
    if y.addr == a
    then (if end_of x == y.addr then absorb x y ∷ rest else x ∷ y ∷ rest)
    else x ∷ merge_previous a (y ∷ rest)

-- `link != &free_list`: some free block stands before `b`.
pub has_before : Block → List Block → Bool
has_before b [] = false
has_before b (x ∷ xs) = ltb x.addr b.addr

pub release : Block → List Block → List Block
unfolding insert_free merge_previous has_before
release b free =
    if has_before b free then merge_previous b.addr (insert_free b free) else insert_free b free

pub free_block : ℕ → Heap → Option Block → Heap
free_block a h none = h
free_block a h (some b) = if ltb a heap_start || leb h.begin a then h else record h {
  used = sub32 h.used (header + b.size);
  free = release b h.free;
  live = drop_live a h.live;
}

pub kfree : (ℕ → Option ℕ) → ℕ → Heap → Heap
unfolding find_live header_at drop_live free_block release
kfree payload ptr h =
    let a = sub32 ptr header in
    if ptr == 0 then h else free_block a h (header_at payload a (find_live a h.live))
