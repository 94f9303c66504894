-- ===== src/Console/Tab.antt =====
-- The tab of src/tty.c: its loop ends at the stop.
use lite_bsd.Prelude.{
  ℕ, zero, suc, ◌+◌, ◌*◌, ◌/◌, ◌≤◌, ◌<◌, ◌≡◌, refl, ◌∙◌, inl, inr, false, ltb, leb, min, Bool-cases,
  arith,
}
use lite_bsd.Console.{Console, put_cell, put_char, fill_to, next_stop, plain_char}

-- A character before the last column moves the cursor one column on.
put_char-column :
    (c color : ℕ) (t : Console)
    → t.column < 127
    → ((put_char c color t).column ≡ t.column + 1) × ((put_char c color t).row ≡ t.row)
unfolding put_char put_cell
put_char-column c color t h =
    let inner : leb 128 (t.column + 1) ≡ false = ground arith in rw inner (refl, refl)

fill_to-column :
    (k stop color : ℕ) (t : Console)
    → stop < 128
    → t.column ≤ stop
    → stop ≤ t.column + k
    → ((fill_to k stop color t).column ≡ stop) × ((fill_to k stop color t).row ≡ t.row)
unfolding fill_to
fill_to-column zero stop color t s below near = (omega arith, refl)
fill_to-column (suc k) stop color t s below near = elim (Bool-cases (ltb t.column stop)) [
  | inl before ↦
      let short : t.column < stop = ground arith in
      let one = put_char-column b' ' color t (omega arith) in
      let rest =
        fill_to-column k stop color (put_char b' ' color t) s (omega (arith, one.0))
          (omega (arith, one.0)) in
      rw before (rest.0, rest.1 ∙ one.1)
  | inr there ↦ rw there (ground arith, refl)
]

-- A tab brings a cursor in the grid to its stop in the same row: the next multiple of eight, or the
-- last column. The eight rounds that the loop is given are enough.
pub plain_char_tab :
    (color : ℕ) (t : Console)
    → t.column < 128
    → ((plain_char 9 color t).column ≡ min ((t.column / 8 + 1) * 8) 127)
      × ((plain_char 9 color t).row ≡ t.row)
unfolding plain_char next_stop
plain_char_tab color t h =
    let stop = min ((t.column + 8) / 8 * 8) 127 in
    let reach = fill_to-column 8 stop color t (omega arith) (omega arith) (omega arith) in
    (reach.0 ∙ omega arith, reach.1)
