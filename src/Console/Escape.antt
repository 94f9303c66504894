-- ===== src/Console/Escape.antt =====
-- The escape sequences of src/tty.c keep the cursor in the grid, write nothing outside of it and
-- never enter the alternate screen.
use lite_bsd.Prelude.{
  ℕ, zero, suc, ◌+◌, ◌-◌, ◌*◌, ◌≤◌, ◌<◌, ◌≡◌, refl, ◌∙◌, inl, inr, Bool, true, false, ◌&&◌, ◌||◌,
  not, List, [], ◌∷◌, ltb, leb, ◌==◌, if◌then◌else◌, Bool-cases, arith, get_or, set, take, length,
  length-set, replicate, min, bit_or,
}
use lite_bsd.Console.{
  AnsiState, normal, got_esc, in_csi, Console, alt_enter, alt_exit, ansi_param, at_least_one,
  move_to, move_up, move_down, move_right, move_left, erase_display, erase_line, set_attr,
  set_attrs, save_cursor, restore_cursor, private_csi, other_csi, ansi_csi, is_letter, add_digit,
  next_param, start_csi, csi_char, char_in, print_char, print, between, a2v, light_grey, white,
  black,
}
use lite_bsd.Console.Inside.{
  Small, IsInside, Keeps, Keeps-trans, Keeps-refl, moved-Keeps, vga_fill-Keeps, cursor-Keeps,
  plain_char-Keeps,
}

param_small : (ps : List ℕ) (i : ℕ) → Small ps → get_or ps i 0 ≤ 999
param_small [] i s = omega arith
param_small (p ∷ ps) zero s = s.0
param_small (p ∷ ps) (suc i) s = param_small ps i s.1

ansi_param-le : (t : Console) → IsInside t → ansi_param 0 0 t ≤ 999
unfolding ansi_param
ansi_param-le t i = ground (arith, param_small t.params 0 i.small)

set_small : (ps : List ℕ) (i v : ℕ) → Small ps → v ≤ 999 → Small (set ps i v)
set_small [] i v s h = tt
set_small (p ∷ ps) zero v s h = (h, s.1)
set_small (p ∷ ps) (suc i) v s h = (s.0, set_small ps i v s.1 h)

move_to-Keeps : (row column : ℕ) (t : Console) → IsInside t → Keeps t (move_to row column t)
unfolding move_to
move_to-Keeps row column t i =
    cursor-Keeps (min row 48 - 1) (min column 128 - 1) t i (omega arith) (omega arith)

move_up-Keeps : (n : ℕ) (t : Console) → IsInside t → Keeps t (move_up n t)
unfolding move_up
move_up-Keeps n t i = cursor-Keeps (t.row - n) t.column t i (omega (arith, i.row)) i.column

move_left-Keeps : (n : ℕ) (t : Console) → IsInside t → Keeps t (move_left n t)
unfolding move_left
move_left-Keeps n t i = cursor-Keeps t.row (t.column - n) t i i.row (omega (arith, i.column))

clamp : (k n : ℕ) → 0 < k → (if leb k n then k - 1 else n) < k
clamp k n h = ground arith

move_down-Keeps : (n : ℕ) (t : Console) → IsInside t → Keeps t (move_down n t)
unfolding move_down
move_down-Keeps n t i =
    cursor-Keeps (if leb 48 (t.row + n) then 47 else t.row + n) t.column t i
      (clamp 48 (t.row + n) (omega arith)) i.column

move_right-Keeps : (n : ℕ) (t : Console) → IsInside t → Keeps t (move_right n t)
unfolding move_right
move_right-Keeps n t i =
    cursor-Keeps t.row (if leb 128 (t.column + n) then 127 else t.column + n) t i i.row
      (clamp 128 (t.column + n) (omega arith))

erase_display-Keeps : (p : ℕ) (t : Console) → IsInside t → Keeps t (erase_display p t)
unfolding erase_display
erase_display-Keeps p t i = elim (Bool-cases (p == 2)) [
  | inl all ↦ rw all (vga_fill-Keeps 0 0 48 128 light_grey t i)
  | inr rest ↦ rw rest (vga_fill-Keeps t.row t.column 48 128 light_grey t i)
]

erase_line-Keeps : (p : ℕ) (t : Console) → IsInside t → Keeps t (erase_line p t)
unfolding erase_line
erase_line-Keeps p t i = elim (Bool-cases (p == 2)) [
  | inl all ↦ rw all (vga_fill-Keeps t.row 0 (t.row + 1) 128 light_grey t i)
  | inr rest ↦ rw rest (vga_fill-Keeps t.row t.column (t.row + 1) 128 light_grey t i)
]

-- The colours alone change.
colors-Keeps :
    (fg bg : ℕ) (bold standout : Bool) (t : Console)
    → IsInside t
    → Keeps t (record t { fg = fg; bg = bg; bold = bold; standout = standout })
colors-Keeps fg bg bold standout t i =
    moved-Keeps t (record t { fg = fg; bg = bg; bold = bold; standout = standout }) i refl i.row
      i.column i.saved_row i.saved_column refl refl refl

if-Keeps : (b : Bool) (t u v : Console) → Keeps t u → Keeps t v → Keeps t (if b then u else v)
if-Keeps true t u v p q = p
if-Keeps false t u v p q = q

if_false-Keeps : (b : Bool) (t u v : Console) → b ≡ false → Keeps t v → Keeps t (if b then u else v)
if_false-Keeps true t u v e k = absurd (true_false e)
  where
    true_false : Bool.true ≡ false → ⊥
    true_false h = cc
if_false-Keeps false t u v e k = k

set_attr-Keeps : (p : ℕ) (t : Console) → IsInside t → Keeps t (set_attr p t)
unfolding set_attr
set_attr-Keeps p t i =
    let k : (b : Bool) (fg bg : ℕ) (bold standout : Bool) (u : Console)
        → Keeps t u
        → Keeps t
            (if b then record t { fg = fg; bg = bg; bold = bold; standout = standout } else u) =
      λ b fg bg bold standout u h.
        if-Keeps b t (record t { fg = fg; bg = bg; bold = bold; standout = standout }) u
          (colors-Keeps fg bg bold standout t i) h in
    k (p == 0) white black false false _ (
      k (p == 1) t.fg t.bg true t.standout _ (
        k (p == 22) t.fg t.bg false t.standout _ (
          k (p == 7) t.fg t.bg t.bold true _ (
            k (p == 27) t.fg t.bg t.bold false _ (
              k (between 30 37 p) (a2v (p - 30)) t.bg t.bold t.standout _ (
                k (p == 39) white t.bg t.bold t.standout _ (
                  k (between 90 97 p) (bit_or (a2v (p - 90)) 8) t.bg t.bold t.standout _ (
                    k (between 40 47 p) t.fg (a2v (p - 40)) t.bold t.standout _ (
                      k (p == 49) t.fg black t.bold t.standout _ (
                        k (between 100 107 p) t.fg (bit_or (a2v (p - 100)) 8) t.bold t.standout t
                          (Keeps-refl t i)))))))))))

set_attrs-Keeps : (ps : List ℕ) (t : Console) → IsInside t → Keeps t (set_attrs ps t)
unfolding set_attrs
set_attrs-Keeps [] t i = Keeps-refl t i
set_attrs-Keeps (p ∷ ps) t i =
    let k = set_attr-Keeps p t i in Keeps-trans k (set_attrs-Keeps ps (set_attr p t) k.inside)

restore_cursor-Keeps : (t : Console) → IsInside t → Keeps t (restore_cursor t)
unfolding restore_cursor
restore_cursor-Keeps t i = cursor-Keeps t.saved_row t.saved_column t i i.saved_row i.saved_column

save_cursor-Keeps : (t : Console) → IsInside t → Keeps t (save_cursor t)
unfolding save_cursor
save_cursor-Keeps t i =
    moved-Keeps t (record t { saved_row = t.row; saved_column = t.column }) i refl i.row i.column
      i.row i.column refl refl refl

alt_exit-Keeps : (t : Console) → IsInside t → Keeps t (alt_exit t)
unfolding alt_exit
alt_exit-Keeps t i = if_false-Keeps t.alt_active t _ t i.alt (Keeps-refl t i)

-- No parameter is 1049, so that `h` does nothing.
no_alt : (b c : Bool) (n : ℕ) → n ≤ 999 → (b && c && (n == 1049)) ≡ false
no_alt b c n h = ground arith

alt_enter-Keeps :
    (b c : Bool) (t v : Console)
    → IsInside t
    → Keeps t v
    → Keeps t (if b && c && (ansi_param 0 0 t == 1049) then alt_enter t else v)
alt_enter-Keeps b c t v i k = rw (no_alt b c (ansi_param 0 0 t) (ansi_param-le t i)) k

private_csi-Keeps :
    (final : ℕ) (t : Console) → IsInside t → Keeps t (private_csi final (ansi_param 0 0 t) t)
unfolding private_csi
private_csi-Keeps final t i = alt_enter-Keeps (final == b'h') t.private t _ i (
    if-Keeps ((final == b'l') && t.private && (ansi_param 0 0 t == 1049)) t _ _ (alt_exit-Keeps t i)
      (Keeps-refl t i))

other_csi-Keeps :
    (final : ℕ) (t : Console) → IsInside t → Keeps t (other_csi final (ansi_param 0 0 t) t)
unfolding other_csi
other_csi-Keeps final t i =
    let p = ansi_param 0 0 t in
    if-Keeps (final == b'J') t _ _ (erase_display-Keeps p t i) (
      if-Keeps (final == b'K') t _ _ (erase_line-Keeps p t i) (
        if-Keeps ((final == b'm') && not t.private) t _ _
          (set_attrs-Keeps (take (t.nparams + 1) t.params) t i)
          (if-Keeps ((final == b's') && not t.private) t _ _ (save_cursor-Keeps t i) (
            if-Keeps ((final == b'u') && not t.private) t _ _ (restore_cursor-Keeps t i)
              (private_csi-Keeps final t i)))))

ansi_csi-Keeps : (final : ℕ) (t : Console) → IsInside t → Keeps t (ansi_csi final t)
unfolding ansi_csi
ansi_csi-Keeps final t i =
    let p = ansi_param 0 0 t in
    let n = at_least_one p in
    if-Keeps ((final == b'H') || (final == b'f')) t _ _
      (move_to-Keeps (ansi_param 0 1 t) (ansi_param 1 1 t) t i)
      (if-Keeps (final == b'A') t _ _ (move_up-Keeps n t i) (
        if-Keeps (final == b'B') t _ _ (move_down-Keeps n t i) (
          if-Keeps (final == b'C') t _ _ (move_right-Keeps n t i)
            (if-Keeps (final == b'D') t _ _ (move_left-Keeps n t i) (other_csi-Keeps final t i)))))

-- The state and the parameters that are read.
reading-Keeps :
    (state : AnsiState) (private : Bool) (nparams : ℕ) (params : List ℕ) (t : Console)
    → IsInside t
    → nparams < 8
    → length params ≡ 8
    → Small params
    → Keeps t (record t { state = state; private = private; nparams = nparams; params = params })
reading-Keeps state private nparams params t i n l s = record {
  inside = record {
    row = i.row;
    column = i.column;
    saved_row = i.saved_row;
    saved_column = i.saved_column;
    alt = i.alt;
    nparams = n;
    params = l;
    small = s;
  };
  outside = λ r c o. refl;
}

state-Keeps : (state : AnsiState) (t : Console) → IsInside t → Keeps t (record t { state = state })
state-Keeps state t i =
    reading-Keeps state t.private t.nparams t.params t i i.nparams i.params i.small

start_csi-Keeps : (t : Console) → IsInside t → Keeps t (start_csi t)
unfolding start_csi
start_csi-Keeps t i =
    reading-Keeps in_csi false 0 (replicate 8 0) t i (omega arith) refl (omega arith)

add_digit-Keeps : (c : ℕ) (t : Console) → IsInside t → Keeps t (add_digit c t)
unfolding add_digit
add_digit-Keeps c t i =
    let v = get_or t.params t.nparams 0 * 10 + (c - b'0') in
    let w = if ltb 999 v then 999 else v in
    reading-Keeps t.state t.private t.nparams (set t.params t.nparams w) t i i.nparams
      (length-set t.params t.nparams w ∙ i.params)
      (set_small t.params t.nparams w i.small (capped v))
  where
    capped : (v : ℕ) → (if ltb 999 v then 999 else v) ≤ 999
    capped v = ground arith

next_param-Keeps : (t : Console) → IsInside t → Keeps t (next_param t)
unfolding next_param
next_param-Keeps t i = elim (Bool-cases (ltb t.nparams 7)) [
  | inl more ↦ rw more (
      reading-Keeps t.state t.private (t.nparams + 1) (set t.params (t.nparams + 1) 0) t i
        (ground arith) (length-set t.params (t.nparams + 1) 0 ∙ i.params)
        (set_small t.params (t.nparams + 1) 0 i.small (omega arith)))
  | inr full ↦ rw full (Keeps-refl t i)
]

csi_char-Keeps : (c : ℕ) (t : Console) → IsInside t → Keeps t (csi_char c t)
unfolding csi_char
csi_char-Keeps c t i =
    let over = state-Keeps normal t i in
    if-Keeps ((c == b'?') && (t.nparams == 0) && (get_or t.params 0 0 == 0)) t _ _
      (reading-Keeps t.state true t.nparams t.params t i i.nparams i.params i.small)
      (if-Keeps (between b'0' b'9' c) t _ _ (add_digit-Keeps c t i) (
        if-Keeps (c == b';') t _ _ (next_param-Keeps t i) (
          if-Keeps (is_letter c) t _ _
            (Keeps-trans over (ansi_csi-Keeps c (record t { state = normal }) over.inside)) over)))

char_in-Keeps :
    (state : AnsiState) (c color : ℕ) (t : Console) → IsInside t → Keeps t (char_in state c color t)
unfolding char_in
char_in-Keeps normal c color t i =
    if-Keeps (c == 0x1b) t _ _ (state-Keeps got_esc t i)
      (if-Keeps (c == 7) t _ _ (Keeps-refl t i) (plain_char-Keeps c color t i))
char_in-Keeps got_esc c color t i =
    if-Keeps (c == b'[') t _ _ (start_csi-Keeps t i) (state-Keeps normal t i)
char_in-Keeps in_csi c color t i = csi_char-Keeps c t i

print_char-Keeps : (c color : ℕ) (t : Console) → IsInside t → Keeps t (print_char c color t)
unfolding print_char
print_char-Keeps c color t i = char_in-Keeps t.state c color t i

-- Whatever bytes `print` is given, the cursor and the saved cursor stay in the grid of 48 rows and
-- 128 columns, the number of parameters stays below the eight that are stored, no cell outside of
-- the grid is written, and the alternate screen, once inactive, is never entered.
pub print-Keeps :
    (str : List ℕ) (color : ℕ) (t : Console) → IsInside t → Keeps t (print str color t)
unfolding print
print-Keeps [] color t i = Keeps-refl t i
print-Keeps (c ∷ cs) color t i =
    let one = print_char-Keeps c color t i in
    Keeps-trans one (print-Keeps cs color (print_char c color t) one.inside)
