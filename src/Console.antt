-- ===== src/Console.antt =====
-- The console of src/tty.c: `print_char` with its escape sequences, over the grid of 48 rows and 128
-- columns. `text_grid` and `color_grid` are one function from row and column to character and colour,
-- total so that a write outside the arrays would show. What is drawn in the frame buffer or the VGA
-- memory beside is left out.
use lite_bsd.Prelude.{
  ℕ, zero, suc, ◌+◌, ◌-◌, ◌*◌, ◌/◌, Bool, true, false, ◌&&◌, ◌||◌, not, List, [], ◌∷◌, ltb, leb,
  ◌==◌, if◌then◌else◌, get_or, set, take, replicate, bit_and, bit_or, min,
}
pub mod Inside
pub mod Escape
pub mod Tab
mod Tests

abbrev pub screen_height : ℕ
screen_height = 48

abbrev pub screen_width : ℕ
screen_width = 128

-- VGA_COLOR_WHITE, VGA_COLOR_BLACK and VGA_COLOR_LIGHT_GREY
abbrev pub white : ℕ
white = 15

abbrev pub black : ℕ
black = 0

abbrev pub light_grey : ℕ
light_grey = 7

abbrev pub Grid : Type 0
Grid = ℕ → ℕ → ℕ × ℕ

-- `ansi_state`
pub data AnsiState : Type 0 where
  normal got_esc in_csi : AnsiState

-- `row` and `column` are `char_raw` and `char_column`.
pub record Console : Type 0 where
  pub grid : Grid
  pub row : ℕ
  pub column : ℕ
  pub alt_grid : Grid
  pub alt_active : Bool
  pub alt_row : ℕ
  pub alt_column : ℕ
  pub state : AnsiState
  pub params : List ℕ
  pub nparams : ℕ
  pub private : Bool
  pub standout : Bool
  pub fg : ℕ
  pub bg : ℕ
  pub bold : Bool
  pub saved_row : ℕ
  pub saved_column : ℕ

-- The cells of the rows and columns from the first pair to the second, which is not included.
unfoldable pub in_box : ℕ → ℕ → ℕ → ℕ → ℕ → ℕ → Bool
in_box row0 col0 row1 col1 r c = leb row0 r && ltb r row1 && leb col0 c && ltb c col1

-- `vga_fill`; no caller gives a negative number.
unfoldable pub vga_fill : ℕ → ℕ → ℕ → ℕ → ℕ → Console → Console
vga_fill row0 col0 row1 col1 attr t = record t {
  grid = λ r c.
      if in_box row0 col0 (min row1 screen_height) (min col1 screen_width) r c
      then (b' ', attr)
      else t.grid r c;
}

-- `scroll_screen`
unfoldable pub scroll_screen : Console → Console
scroll_screen t = record t {
  grid = λ r c.
      if in_box 0 0 (screen_height - 1) screen_width r c
      then t.grid (r + 1) c
      else if in_box (screen_height - 1) 0 screen_height screen_width r c
      then (b' ', black)
      else t.grid r c;
  row = screen_height - 1;
  column = 0;
}

unfoldable pub clear : Console → Console
clear t = record t {
  grid = λ r c. if in_box 0 0 screen_height screen_width r c then (b' ', black) else t.grid r c;
  row = 0;
  column = 0;
  fg = white;
  bg = black;
  bold = false;
  standout = false;
}

unfoldable pub copy_cells : Grid → Grid → Grid
copy_cells from to r c = if in_box 0 0 screen_height screen_width r c then from r c else to r c

unfoldable pub alt_enter : Console → Console
alt_enter t =
    if t.alt_active
    then t
    else clear (record t {
      alt_grid = copy_cells t.grid t.alt_grid;
      alt_row = t.row;
      alt_column = t.column;
      alt_active = true;
    })

unfoldable pub alt_exit : Console → Console
alt_exit t =
    let u = clear t in
    if t.alt_active
    then record u {
      grid = copy_cells t.alt_grid u.grid;
      row = t.alt_row;
      column = t.alt_column;
      alt_active = false;
    }
    else t

-- `ansi_param`
unfoldable pub ansi_param : ℕ → ℕ → Console → ℕ
ansi_param i default t =
    let v = get_or t.params i 0 in
    if ltb t.nparams i then default else if v == 0 then default else v

abbrev pub at_least_one : ℕ → ℕ
at_least_one n = if n == 0 then 1 else n

-- `H`, `f`
unfoldable pub move_to : ℕ → ℕ → Console → Console
move_to row column t = record t {
  row = min row screen_height - 1;
  column = min column screen_width - 1;
}

-- `A`, `B`, `C`, `D`
unfoldable pub move_up : ℕ → Console → Console
move_up n t = record t { row = t.row - n }

unfoldable pub move_down : ℕ → Console → Console
move_down n t = record t {
  row = if leb screen_height (t.row + n) then screen_height - 1 else t.row + n;
}

unfoldable pub move_right : ℕ → Console → Console
move_right n t = record t {
  column = if leb screen_width (t.column + n) then screen_width - 1 else t.column + n;
}

unfoldable pub move_left : ℕ → Console → Console
move_left n t = record t { column = t.column - n }

-- `J`, `K`
unfoldable pub erase_display : ℕ → Console → Console
erase_display p t =
    if p == 2
    then vga_fill 0 0 screen_height screen_width light_grey t
    else vga_fill t.row t.column screen_height screen_width light_grey t

unfoldable pub erase_line : ℕ → Console → Console
erase_line p t =
    if p == 2
    then vga_fill t.row 0 (t.row + 1) screen_width light_grey t
    else vga_fill t.row t.column (t.row + 1) screen_width light_grey t

-- `a2v`
abbrev pub a2v : ℕ → ℕ
a2v i = get_or (0 ∷ 4 ∷ 2 ∷ 6 ∷ 1 ∷ 5 ∷ 3 ∷ 7 ∷ []) i 0

abbrev pub between : ℕ → ℕ → ℕ → Bool
between low high p = leb low p && leb p high

-- One round of the loop of `m`.
unfoldable pub set_attr : ℕ → Console → Console
set_attr p t =
    if p == 0
    then record t { fg = white; bg = black; bold = false; standout = false }
    else if p == 1
    then record t { bold = true }
    else if p == 22
    then record t { bold = false }
    else if p == 7
    then record t { standout = true }
    else if p == 27
    then record t { standout = false }
    else if between 30 37 p
    then record t { fg = a2v (p - 30) }
    else if p == 39
    then record t { fg = white }
    else if between 90 97 p
    then record t { fg = bit_or (a2v (p - 90)) 8 }
    else if between 40 47 p
    then record t { bg = a2v (p - 40) }
    else if p == 49
    then record t { bg = black }
    else if between 100 107 p
    then record t { bg = bit_or (a2v (p - 100)) 8 }
    else t

unfoldable pub set_attrs : List ℕ → Console → Console
set_attrs [] t = t
set_attrs (p ∷ ps) t = set_attrs ps (set_attr p t)

unfoldable pub save_cursor : Console → Console
save_cursor t = record t { saved_row = t.row; saved_column = t.column }

unfoldable pub restore_cursor : Console → Console
restore_cursor t = record t { row = t.saved_row; column = t.saved_column }

-- The end of `ansi_csi`: `h` and `l`, with `p0 = ansi_param(0, 0)`.
unfoldable pub private_csi : ℕ → ℕ → Console → Console
private_csi final p0 t =
    if (final == b'h') && t.private && (p0 == 1049)
    then alt_enter t
    else if (final == b'l') && t.private && (p0 == 1049)
    then alt_exit t
    else t

-- `ansi_csi` from `J` on.
unfoldable pub other_csi : ℕ → ℕ → Console → Console
other_csi final p0 t =
    if final == b'J'
    then erase_display p0 t
    else if final == b'K'
    then erase_line p0 t
    else if (final == b'm') && not t.private
    then set_attrs (take (t.nparams + 1) t.params) t
    else if (final == b's') && not t.private
    then save_cursor t
    else if (final == b'u') && not t.private
    then restore_cursor t
    else private_csi final p0 t

unfoldable pub ansi_csi : ℕ → Console → Console
ansi_csi final t =
    let p0 = ansi_param 0 0 t in
    if (final == b'H') || (final == b'f')
    then move_to (ansi_param 0 1 t) (ansi_param 1 1 t) t
    else if final == b'A'
    then move_up (at_least_one p0) t
    else if final == b'B'
    then move_down (at_least_one p0) t
    else if final == b'C'
    then move_right (at_least_one p0) t
    else if final == b'D'
    then move_left (at_least_one p0) t
    else other_csi final p0 t

-- `char_raw++; if (char_raw >= screen_height) scroll_screen();` from the column 0 on.
unfoldable pub new_line : Console → Console
new_line t =
    if leb screen_height (t.row + 1)
    then scroll_screen (record t { column = 0; row = t.row + 1 })
    else record t { column = 0; row = t.row + 1 }

-- The colour of a cell.
unfoldable pub cell_color : ℕ → Console → ℕ
cell_color color t =
    let fg = if t.bold then bit_or t.fg 8 else t.fg in
    if not (color == white) && (t.fg == white) && (t.bg == black) && not t.bold
    then color
    else if t.standout
    then bit_or (bit_and t.bg 15) (bit_and fg 15 * 16)
    else bit_or (bit_and fg 15) (bit_and t.bg 15 * 16)

unfoldable pub put_cell : ℕ → ℕ → Console → Console
put_cell c color t = record t {
  grid = λ r k. if (r == t.row) && (k == t.column) then (c, cell_color color t) else t.grid r k;
}

-- The end of `print_char`, for a character that is shown.
unfoldable pub put_char : ℕ → ℕ → Console → Console
put_char c color t =
    let u = put_cell c color t in
    if leb screen_width (t.column + 1) then new_line u else record u { column = t.column + 1 }

-- `while (char_column < next_stop) print_char(' ', color);`: a stop is at most eight columns away.
unfoldable pub fill_to : ℕ → ℕ → ℕ → Console → Console
fill_to zero stop color t = t
fill_to (suc k) stop color t =
    let rest = fill_to k stop color (put_char b' ' color t) in if ltb t.column stop then rest else t

-- `(char_column + 8) & ~7`, at most the last column.
unfoldable pub next_stop : ℕ → ℕ
next_stop column = min ((column + 8) / 8 * 8) (screen_width - 1)

unfoldable pub backspace : Console → Console
backspace t =
    if ltb 0 t.column
    then record t { column = t.column - 1 }
    else if ltb 0 t.row
    then record t { row = t.row - 1; column = screen_width - 1 }
    else t

-- `print_char` from the tab on.
unfoldable pub plain_char : ℕ → ℕ → Console → Console
plain_char c color t =
    if c == 9
    then fill_to 8 (next_stop t.column) color t
    else if c == 8
    then backspace t
    else if c == 13
    then record t { column = 0 }
    else if c == 10
    then new_line t
    else put_char c color t

abbrev pub is_letter : ℕ → Bool
is_letter c = between b'A' b'Z' c || between b'a' b'z' c

-- A digit of a parameter, which stays below 1000.
unfoldable pub add_digit : ℕ → Console → Console
add_digit c t =
    let v = get_or t.params t.nparams 0 * 10 + (c - b'0') in
    record t { params = set t.params t.nparams (if ltb 999 v then 999 else v) }

unfoldable pub next_param : Console → Console
next_param t =
    if ltb t.nparams 7
    then record t { nparams = t.nparams + 1; params = set t.params (t.nparams + 1) 0 }
    else t

unfoldable pub start_csi : Console → Console
start_csi t = record t { state = in_csi; nparams = 0; private = false; params = replicate 8 0 }

unfoldable pub csi_char : ℕ → Console → Console
csi_char c t =
    if (c == b'?') && (t.nparams == 0) && (get_or t.params 0 0 == 0)
    then record t { private = true }
    else if between b'0' b'9' c
    then add_digit c t
    else if c == b';'
    then next_param t
    else if is_letter c
    then ansi_csi c (record t { state = normal })
    else record t { state = normal }

unfoldable pub char_in : AnsiState → ℕ → ℕ → Console → Console
char_in normal c color t =
    if c == 0x1b then record t { state = got_esc } else if c == 7 then t else plain_char c color t
char_in got_esc c color t = if c == b'[' then start_csi t else record t { state = normal }
char_in in_csi c color t = csi_char c t

unfoldable pub print_char : ℕ → ℕ → Console → Console
print_char c color t = char_in t.state c color t

-- `print`
unfoldable pub print : List ℕ → ℕ → Console → Console
print [] color t = t
print (c ∷ cs) color t = print cs color (print_char c color t)
