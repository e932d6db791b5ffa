-- ===== src/Legacy/Writer.antt =====
-- lib/legacy/fb.c: the functions of the text screen that the source calls deprecated. Each prints a warning
-- by `printf`, which puts the characters out with `fb_putchar`. A text is its characters before the end.
pub mod Hex
pub mod Tests
pub mod Dec
pub mod Digits
pub mod Bounds
use bbn_os.Base.{
  ℕ, zero, suc, ◌+◌, ◌-◌, ◌*◌, ◌/◌, ◌%◌, ◌^◌, ◌≤◌, ◌<◌, ◌≡◌, ◌≢◌, ◌⊎◌, ◌↔◌, inl, inr, refl, sym, ap,
  ◌∙◌, Bool, true, false, not, ◌&&◌, ◌||◌, Option, none, some, List, [], ◌∷◌, ◌++◌, arith, ◌==◌,
  ltb, leb, if◌then◌else◌, Bool-cases, ==_iff, ==_self, ==_ne, add64, sub64, mul64, ◌>>=◌, min,
  bit_and, bit_or, length, get_or,
}
use bbn_os.Base.Loop.{count_up}
use bbn_os.Legacy.{Screen, fb_write_cell, fb_move_cursor, put_all}

-- The static variables of `fb_print_color` beside the screen.
pub record Writer : Type 0 where
  pub screen : Screen
  pub x_pos : ℕ
  pub y_pos : ℕ
  pub clear : Bool

abbrev pub writer_warning : List ℕ
writer_warning =
    b'W' ∷ b'A' ∷ b'R' ∷ b'N' ∷ b'I' ∷ b'N' ∷ b'G' ∷ b':' ∷ b' ' ∷ b'f' ∷ b'b' ∷ b'_' ∷ b'w' ∷ b'r'
    ∷ b'i' ∷ b't' ∷ b'e' ∷ b'r' ∷ b'(' ∷ b')' ∷ b' ' ∷ b'i' ∷ b's' ∷ b' ' ∷ b'd' ∷ b'e' ∷ b'p'
    ∷ b'r' ∷ b'e' ∷ b'c' ∷ b'a' ∷ b't' ∷ b'e' ∷ b'd' ∷ b'.' ∷ 10 ∷ []

abbrev pub color_warning : List ℕ
color_warning =
    b'W' ∷ b'A' ∷ b'R' ∷ b'N' ∷ b'I' ∷ b'N' ∷ b'G' ∷ b':' ∷ b' ' ∷ b'f' ∷ b'b' ∷ b'_' ∷ b'p' ∷ b'r'
    ∷ b'i' ∷ b'n' ∷ b't' ∷ b'_' ∷ b'c' ∷ b'o' ∷ b'l' ∷ b'o' ∷ b'r' ∷ b'(' ∷ b')' ∷ b' ' ∷ b'i'
    ∷ b's' ∷ b' ' ∷ b'd' ∷ b'e' ∷ b'p' ∷ b'r' ∷ b'e' ∷ b'c' ∷ b'a' ∷ b't' ∷ b'e' ∷ b'd' ∷ b'.' ∷ 10
    ∷ []

abbrev pub hex_warning : List ℕ
hex_warning =
    b'W' ∷ b'A' ∷ b'R' ∷ b'N' ∷ b'I' ∷ b'N' ∷ b'G' ∷ b':' ∷ b' ' ∷ b'f' ∷ b'b' ∷ b'_' ∷ b'p' ∷ b'r'
    ∷ b'i' ∷ b'n' ∷ b't' ∷ b'_' ∷ b'h' ∷ b'e' ∷ b'x' ∷ b'(' ∷ b')' ∷ b' ' ∷ b'i' ∷ b's' ∷ b' '
    ∷ b'd' ∷ b'e' ∷ b'p' ∷ b'r' ∷ b'e' ∷ b'c' ∷ b'a' ∷ b't' ∷ b'e' ∷ b'd' ∷ b'.' ∷ 10 ∷ []

abbrev pub dec_warning : List ℕ
dec_warning =
    b'W' ∷ b'A' ∷ b'R' ∷ b'N' ∷ b'I' ∷ b'N' ∷ b'G' ∷ b':' ∷ b' ' ∷ b'f' ∷ b'b' ∷ b'_' ∷ b'p' ∷ b'r'
    ∷ b'i' ∷ b'n' ∷ b't' ∷ b'_' ∷ b'd' ∷ b'e' ∷ b'c' ∷ b'(' ∷ b')' ∷ b' ' ∷ b'i' ∷ b's' ∷ b' '
    ∷ b'd' ∷ b'e' ∷ b'p' ∷ b'r' ∷ b'e' ∷ b'c' ∷ b'a' ∷ b't' ∷ b'e' ∷ b'd' ∷ b'.' ∷ 10 ∷ []

-- A cell is written, and the cursor moved behind it.
unfoldable pub write_at : Screen → (x y c fg bg : ℕ) → Screen
write_at s x y c fg bg =
    let m = fb_write_cell s.memory ((y * 80 + x) * 2 % 2 ^ 32) c fg bg in
    fb_move_cursor (record s { memory = m }) (y * 80 + x + 1)

-- The tests of `fb_writer` on a character, with its position.
unfoldable pub writer_char : (Screen × ℕ × ℕ) → (c : ℕ) → Screen × ℕ × ℕ
writer_char (s, x, y) c =
    if c == 0x08 && not (x == 0)
    then (s, x - 1, y)
    else if c == 0x09
    then (s, (x + 8) / 8 * 8, y)
    else if c == 13
    then (s, 0, y)
    else if c == 10
    then (s, 0, y + 1)
    else if leb b' ' c && ltb c 128
    then (write_at s x y c 15 0, x + 1, y)
    else (s, x, y)

abbrev writer_line : (Screen × ℕ × ℕ) → Screen × ℕ × ℕ
writer_line (s, x, y) = if leb 80 x then (s, 0, y + 1) else (s, x, y)

unfoldable pub writer_loop : List ℕ → (Screen × ℕ × ℕ) → Screen × ℕ × ℕ
writer_loop [] at = at
writer_loop (c ∷ text) at = writer_loop text (writer_line (writer_char at c))

-- `fb_writer`, which returns 0.
unfoldable pub fb_writer : List ℕ → (column row : ℕ) → Screen → Option Screen
fb_writer text column row s =
    put_all writer_warning s >>= λ t. some (writer_loop text (t, column, row)).0

-- The same tests in `fb_print_color`; a line feed clears the row once the screen was full.
unfoldable pub color_clear : (fg bg : ℕ) → Writer → Writer
color_clear fg bg w =
    if w.clear
    then record w { screen = count_up 80 0 (λ i s. write_at s i w.y_pos b' ' fg bg) w.screen }
    else w

unfoldable pub color_char : (fg bg c : ℕ) → Writer → Writer
color_char fg bg c w =
    if c == 0x08 && not (w.x_pos == 0)
    then record w { x_pos = w.x_pos - 1 }
    else if c == 0x09
    then record w { x_pos = (w.x_pos + 8) / 8 * 8 }
    else if c == 13
    then record w { x_pos = 0 }
    else if c == 10
    then color_clear fg bg (record w { x_pos = 0; y_pos = w.y_pos + 1 })
    else if leb b' ' c && ltb c 128
    then record w { screen = write_at w.screen w.x_pos w.y_pos c fg bg; x_pos = w.x_pos + 1 }
    else w

unfoldable pub color_line : Writer → Writer
color_line w = if leb 80 w.x_pos then record w { x_pos = 0; y_pos = w.y_pos + 1 } else w

unfoldable pub color_page : Writer → Writer
color_page w = if leb 25 w.y_pos then record w { x_pos = 0; y_pos = 0; clear = true } else w

unfoldable pub color_loop : (fg bg : ℕ) → List ℕ → Writer → Writer
color_loop fg bg [] w = w
color_loop fg bg (c ∷ text) w =
    color_loop fg bg text (color_page (color_line (color_char fg bg c w)))

-- `printf` of a text without conversions.
unfoldable pub printf : List ℕ → Writer → Option Writer
printf text w = put_all text w.screen >>= λ s. some (record w { screen = s })

-- The position is far from the screen.
abbrev pub is_lost : Writer → Bool
is_lost w = ltb 100 w.x_pos || ltb 100 w.y_pos

abbrev pub at_home : Writer → Writer
at_home w = record w { x_pos = 0; y_pos = 0 }

-- From a position far from the screen the function calls itself for the text `error`, at the first
-- cell.
unfoldable pub fb_print_color : (text : List ℕ) (flag fg bg : ℕ) → Writer → Option Writer
fb_print_color text flag fg bg w = do
  v ← printf color_warning w
  (if is_lost v
      then (printf color_warning (at_home v) >>= λ u.
          some (color_loop 15 0 (b'e' ∷ b'r' ∷ b'r' ∷ b'o' ∷ b'r' ∷ []) u))
      else some (color_loop fg bg text (if flag == 1 then at_home v else v)))

abbrev pub fb_print : List ℕ → Writer → Option Writer
fb_print text w = fb_print_color text 0 15 0 w

-- The digit of the loop, and the last one.
abbrev pub upper_digit : ℕ → ℕ
upper_digit rst = if ltb rst 10 then rst + b'0' else rst - 10 + b'A'

abbrev pub last_digit : ℕ → ℕ
last_digit rst = if leb 10 rst then rst + b'a' - 0xA else rst + b'0'

-- The loop of `fb_print_hex` from the shift by `4 * n` on; `flag` says that there was no digit yet.
unfoldable pub hex_loop : (n num : ℕ) → (flag : Bool) → Writer → Option Writer
hex_loop zero num flag w = some w
hex_loop (suc n) num flag w =
    let rst = num / 2 ^ (4 * (n + 1)) % 2 ^ 4 in
    elim (rst == 0 && flag) [
      | true ↦ hex_loop n num flag w
      | false ↦ fb_print (upper_digit rst ∷ []) w >>= λ v. hex_loop n num false v
    ]

unfoldable pub fb_print_hex : (num : ℕ) → Writer → Option Writer
fb_print_hex num w = do
  v ← printf hex_warning w
  u ← fb_print (b'0' ∷ b'x' ∷ []) v
  t ← hex_loop 7 num true u
  fb_print (last_digit (num % 2 ^ 4) ∷ []) t

-- The digits that are pushed on `stack`, which has room for ten, the first one lowest.
unfoldable pub dec_stack : (room num : ℕ) → List ℕ
dec_stack zero num = []
dec_stack (suc room) num = elim (num == 0) [
  | true ↦ []
  | false ↦ num % 10 ∷ dec_stack room (num / 10)
]

-- The loop that prints the stack from its top.
unfoldable pub print_stack : List ℕ → Writer → Option Writer
print_stack [] w = some w
print_stack (d ∷ stack) w = print_stack stack w >>= λ v. fb_print ((d + b'0') ∷ []) v

-- A number that is not negative, up to the end.
unfoldable pub print_size : (num : ℕ) → Writer → Option Writer
print_size num w = if num == 0 then fb_print (b'0' ∷ []) w else print_stack (dec_stack 10 num) w

-- An `int` is its 32 bits. The least one has no opposite: C leaves its case undefined.
unfoldable pub fb_print_dec : (num : ℕ) → Writer → Option Writer
fb_print_dec num w = do
  v ← printf dec_warning w
  (if num == 2 ^ 31
      then none
      else if ltb (2 ^ 31) num
      then (fb_print (b'-' ∷ []) v >>= λ u. print_size (2 ^ 32 - num) u)
      else print_size (if leb 10000000 num then num % 10000000 else num) v)
