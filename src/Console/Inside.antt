-- ===== src/Console/Inside.antt =====
-- The invariant of the console of src/tty.c, and the characters that are shown or move the cursor.
use lite_bsd.Prelude.{
  ℕ, zero, suc, ◌+◌, ◌-◌, ◌≤◌, ◌<◌, ◌≡◌, refl, ap, ◌∙◌, ◌⊎◌, inl, inr, false, ◌&&◌, List, [], ◌∷◌,
  ltb, leb, ◌==◌, Bool-cases, arith, length, min,
}
use lite_bsd.Console.{
  Console, in_box, vga_fill, scroll_screen, new_line, put_cell, put_char, fill_to, next_stop,
  backspace, plain_char,
}

-- Every parameter is at most 999.
abbrev pub Small : List ℕ → Type 0
Small [] = Unit
Small (p ∷ ps) = (p ≤ 999) × Small ps

-- The cursor and the saved one are in the grid, the eight parameters are small and the last one
-- read is among them.
pub record IsInside (t : Console) : Type 0 where
  pub row : t.row < 48
  pub column : t.column < 128
  pub saved_row : t.saved_row < 48
  pub saved_column : t.saved_column < 128
  pub alt : t.alt_active ≡ false
  pub nparams : t.nparams < 8
  pub params : length t.params ≡ 8
  pub small : Small t.params

-- What a call keeps: the invariant, and the memory outside of the grid.
pub record Keeps (t t' : Console) : Type 0 where
  pub inside : IsInside t'
  pub outside : (r c : ℕ) → 48 ≤ r ⊎ 128 ≤ c → t'.grid r c ≡ t.grid r c

pub Keeps-trans : {a b c : Console} → Keeps a b → Keeps b c → Keeps a c
Keeps-trans p q = record { inside = q.inside; outside = λ r k o. q.outside r k o ∙ p.outside r k o }

-- The cursor moves, the colours change.
pub moved-Keeps :
    (t t' : Console)
    → IsInside t
    → t'.grid ≡ t.grid
    → t'.row < 48
    → t'.column < 128
    → t'.saved_row < 48
    → t'.saved_column < 128
    → t'.alt_active ≡ t.alt_active
    → t'.nparams ≡ t.nparams
    → t'.params ≡ t.params
    → Keeps t t'
moved-Keeps t t' i g r c sr sc a n p = record {
  inside = record {
    row = r;
    column = c;
    saved_row = sr;
    saved_column = sc;
    alt = a ∙ i.alt;
    nparams = omega (arith, n, i.nparams);
    params = ap length p ∙ i.params;
    small = rw p i.small;
  };
  outside = λ r k o. ap (λ g. g r k) g;
}

out_of_box :
    (row0 col0 row1 col1 r c : ℕ)
    → 48 ≤ r ⊎ 128 ≤ c
    → row1 ≤ 48
    → col1 ≤ 128
    → in_box row0 col0 row1 col1 r c ≡ false
unfolding in_box
out_of_box row0 col0 row1 col1 r c o h k = ground arith

pub vga_fill-Keeps :
    (row0 col0 row1 col1 attr : ℕ) (t : Console)
    → IsInside t
    → Keeps t (vga_fill row0 col0 row1 col1 attr t)
unfolding vga_fill
vga_fill-Keeps row0 col0 row1 col1 attr t i = record {
  inside = record {
    row = i.row;
    column = i.column;
    saved_row = i.saved_row;
    saved_column = i.saved_column;
    alt = i.alt;
    nparams = i.nparams;
    params = i.params;
    small = i.small;
  };
  outside = λ r c o.
      rw (out_of_box row0 col0 (min row1 48) (min col1 128) r c o (omega arith) (omega arith)) refl;
}

scroll_screen-Keeps :
    (t : Console) (i : t.column < 128)
    → t.saved_row < 48
    → t.saved_column < 128
    → t.alt_active ≡ false
    → t.nparams < 8
    → length t.params ≡ 8
    → Small t.params
    → Keeps t (scroll_screen t)
unfolding scroll_screen
scroll_screen-Keeps t c sr sc a n p s = record {
  inside = record {
    row = omega arith;
    column = omega arith;
    saved_row = sr;
    saved_column = sc;
    alt = a;
    nparams = n;
    params = p;
    small = s;
  };
  outside = λ r k o.
      rw (out_of_box 0 0 47 128 r k o (omega arith) (omega arith))
        (rw (out_of_box 47 0 48 128 r k o (omega arith) (omega arith)) refl);
}

new_line-Keeps : (t : Console) → IsInside t → Keeps t (new_line t)
unfolding new_line
new_line-Keeps t i = elim (Bool-cases (leb 48 (t.row + 1))) [
  | inl last ↦
      let k =
        scroll_screen-Keeps (record t { column = 0; row = t.row + 1 }) (omega arith) i.saved_row
          i.saved_column i.alt i.nparams i.params i.small in
      rw last (record { inside = k.inside; outside = k.outside })
  | inr more ↦ rw more (
      moved-Keeps t (record t { column = 0; row = t.row + 1 }) i refl (ground arith) (omega arith)
        i.saved_row i.saved_column refl refl refl)
]

pub Keeps-refl : (t : Console) → IsInside t → Keeps t t
Keeps-refl t i = record { inside = i; outside = λ r c o. refl }

-- The cursor alone moves.
pub cursor-Keeps :
    (row column : ℕ) (t : Console)
    → IsInside t
    → row < 48
    → column < 128
    → Keeps t (record t { row = row; column = column })
cursor-Keeps row column t i r c =
    moved-Keeps t (record t { row = row; column = column }) i refl r c i.saved_row i.saved_column
      refl refl refl

put_cell-Keeps : (c color : ℕ) (t : Console) → IsInside t → Keeps t (put_cell c color t)
unfolding put_cell
put_cell-Keeps c color t i = record {
  inside = record {
    row = i.row;
    column = i.column;
    saved_row = i.saved_row;
    saved_column = i.saved_column;
    alt = i.alt;
    nparams = i.nparams;
    params = i.params;
    small = i.small;
  };
  outside = λ r k o. rw (elsewhere r k o) refl;
}
  where
    elsewhere : (r k : ℕ) → 48 ≤ r ⊎ 128 ≤ k → ((r == t.row) && (k == t.column)) ≡ false
    elsewhere r k o = ground (arith, i.row, i.column)

put_char-Keeps : (c color : ℕ) (t : Console) → IsInside t → Keeps t (put_char c color t)
unfolding put_char put_cell
put_char-Keeps c color t i =
    let cell = put_cell-Keeps c color t i in
    elim (Bool-cases (leb 128 (t.column + 1))) [
      | inl last ↦ rw last (Keeps-trans cell (new_line-Keeps (put_cell c color t) cell.inside))
      | inr more ↦ rw more (
          Keeps-trans cell (
            cursor-Keeps t.row (t.column + 1) (put_cell c color t) cell.inside i.row
              (ground arith)))
    ]

fill_to-Keeps : (k stop color : ℕ) (t : Console) → IsInside t → Keeps t (fill_to k stop color t)
unfolding fill_to
fill_to-Keeps zero stop color t i = Keeps-refl t i
fill_to-Keeps (suc k) stop color t i = elim (Bool-cases (ltb t.column stop)) [
  | inl before ↦
      let one = put_char-Keeps b' ' color t i in
      rw before (Keeps-trans one (fill_to-Keeps k stop color (put_char b' ' color t) one.inside))
  | inr there ↦ rw there (Keeps-refl t i)
]

backspace-Keeps : (t : Console) → IsInside t → Keeps t (backspace t)
unfolding backspace
backspace-Keeps t i = elim (Bool-cases (ltb 0 t.column)) [
  | inl inner ↦ rw inner (cursor-Keeps t.row (t.column - 1) t i i.row (omega (arith, i.column)))
  | inr first ↦ rw first (elim (Bool-cases (ltb 0 t.row)) [
    | inl below ↦ rw below (cursor-Keeps (t.row - 1) 127 t i (omega (arith, i.row)) (omega arith))
    | inr top ↦ rw top (Keeps-refl t i)
  ])
]

pub plain_char-Keeps : (c color : ℕ) (t : Console) → IsInside t → Keeps t (plain_char c color t)
unfolding plain_char
plain_char-Keeps c color t i = elim (Bool-cases (c == 9)) [
  | inl tab ↦ rw tab (fill_to-Keeps 8 (next_stop t.column) color t i)
  | inr rest ↦ rw rest (elim (Bool-cases (c == 8)) [
    | inl back ↦ rw back (backspace-Keeps t i)
    | inr rest ↦ rw rest (elim (Bool-cases (c == 13)) [
      | inl return ↦ rw return (cursor-Keeps t.row 0 t i i.row (omega arith))
      | inr rest ↦ rw rest (elim (Bool-cases (c == 10)) [
        | inl line ↦ rw line (new_line-Keeps t i)
        | inr shown ↦ rw shown (put_char-Keeps c color t i)
      ])
    ])
  ])
]
