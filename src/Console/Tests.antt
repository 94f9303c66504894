-- ===== src/Console/Tests.antt =====
-- The console of src/tty.c on short strings, and the theorems at them.
use lite_bsd.Prelude.{ℕ, ◌+◌, ◌*◌, ◌/◌, ◌≡◌, refl, false, List, ◌∷◌, codes, replicate, arith, min}
use lite_bsd.Console.{
  Console, normal, white, black, print, print_char, char_in, csi_char, ansi_csi, add_digit,
  next_param, start_csi, move_to, ansi_param, other_csi, private_csi, plain_char,
}
use lite_bsd.Console.Inside.{IsInside, Keeps}
use lite_bsd.Console.Escape.{print-Keeps}
use lite_bsd.Console.Tab.{plain_char_tab}

-- A screen that begins with the cursor at row 4 and column 9.
abbrev screen : Console
screen = record {
  grid = λ r c. (b' ', black);
  row = 4;
  column = 9;
  alt_grid = λ r c. (0, 0);
  alt_active = false;
  alt_row = 0;
  alt_column = 0;
  state = normal;
  params = replicate 8 0;
  nparams = 0;
  private = false;
  standout = false;
  fg = white;
  bg = black;
  bold = false;
  saved_row = 0;
  saved_column = 0;
}

screen-IsInside : IsInside screen
screen-IsInside = record {
  row = omega arith;
  column = omega arith;
  saved_row = omega arith;
  saved_column = omega arith;
  alt = refl;
  nparams = omega arith;
  params = refl;
  small = omega arith;
}

abbrev escape : List ℕ → List ℕ
escape l = 0x1b ∷ b'[' ∷ l

-- The cursor goes to the row 12 and the column 40, counted from 1.
cursor_is_set : (print (escape (codes "12;40H")) white screen).column ≡ 39
unfolding print print_char char_in start_csi csi_char add_digit next_param ansi_csi move_to
    ansi_param
cursor_is_set = refl

-- The request for the alternate screen is read as 999.
alternate_screen_refused : (print (escape (codes "?1049h")) white screen).alt_active ≡ false
unfolding print print_char char_in start_csi csi_char add_digit ansi_csi ansi_param other_csi
    private_csi
alternate_screen_refused = refl

print-Keeps_example : Keeps screen (print (escape (codes "2J")) white screen)
print-Keeps_example = print-Keeps (escape (codes "2J")) white screen screen-IsInside

plain_char_tab_example :
    ((plain_char 9 white screen).column ≡ min ((screen.column / 8 + 1) * 8) 127)
    × ((plain_char 9 white screen).row ≡ screen.row)
plain_char_tab_example = plain_char_tab white screen (omega arith)
