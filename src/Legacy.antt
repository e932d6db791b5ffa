-- ===== src/Legacy.antt =====
-- lib/legacy/fb.c: the text screen of the older kernel, 25 rows of 80 cells of two bytes.
pub mod Bounds
pub mod Descriptor
pub mod Gate
pub mod Irq
pub mod Panic
pub mod Start
pub mod Task
pub mod Tasks
pub mod Tests
pub mod Served
pub mod Writer
use bbn_os.Base.{
  ℕ, zero, suc, ◌+◌, ◌-◌, ◌*◌, ◌/◌, ◌%◌, ◌^◌, ◌≤◌, ◌<◌, ◌≡◌, ◌≢◌, ◌⊎◌, ◌↔◌, inl, inr, refl, sym, ap,
  ◌∙◌, Bool, true, false, not, ◌&&◌, ◌||◌, Option, none, some, List, [], ◌∷◌, ◌++◌, arith, ◌==◌,
  ltb, leb, if◌then◌else◌, Bool-cases, ==_iff, ==_self, ==_ne, add64, sub64, mul64, ◌>>=◌, min,
  bit_and, bit_or, length, get_or,
}
use bbn_os.Base.Loop.{count_up}
use bbn_os.Memory.{Memory, store8}

-- The static variables of `fb_putchar`, the memory, and the bytes that went to the cursor's ports,
-- oldest first.
pub record Screen : Type 0 where
  pub memory : Memory
  pub ports : List (ℕ × ℕ)
  pub x_pos : ℕ
  pub y_pos : ℕ
  pub clear : Bool

abbrev pub fb : ℕ
fb = 0xB8000

unfoldable pub fb_write_cell : Memory → (i c fg bg : ℕ) → Memory
fb_write_cell m i c fg bg = store8 (store8 m (fb + i) c) (fb + i + 1) (bg % 16 * 2 ^ 4 + fg % 16)

-- The high byte of the position, then the low one, each behind its command.
unfoldable pub cursor_writes : ℕ → List (ℕ × ℕ)
cursor_writes pos =
    (0x3D4, 14) ∷ (0x3D5, pos / 2 ^ 8 % 2 ^ 8) ∷ (0x3D4, 15) ∷ (0x3D5, pos % 2 ^ 8) ∷ []

unfoldable pub fb_move_cursor : Screen → ℕ → Screen
fb_move_cursor s pos = record s { ports = s.ports ++ cursor_writes (pos % 2 ^ 16) }

-- The loops that fill a row with blanks.
unfoldable pub blank_row : Memory → (row fg bg : ℕ) → Memory
blank_row m row fg bg = count_up 80 0 (λ i m'. fb_write_cell m' ((row * 80 + i) * 2) b' ' fg bg) m

unfoldable pub fb_new_line : Screen → (fg bg : ℕ) → Screen
fb_new_line s fg bg =
    let y = s.y_pos + 1 in
    let m = if s.clear then blank_row s.memory y fg bg else s.memory in
    fb_move_cursor (record s { memory = m; x_pos = 0; y_pos = y }) (y * 80)

unfoldable pub fb_print : Screen → (c fg bg : ℕ) → Screen
fb_print s c fg bg =
    let m = fb_write_cell s.memory ((s.y_pos * 80 + s.x_pos) * 2) c fg bg in
    fb_move_cursor (record s { memory = m; x_pos = s.x_pos + 1 }) (s.y_pos * 80 + s.x_pos)

-- The tests on the character; a `char` from 128 on is negative.
unfoldable pub fb_act : Screen → (c fg bg : ℕ) → Screen
fb_act s c fg bg =
    if c == 0x08 && not (s.x_pos == 0)
    then record s { x_pos = s.x_pos - 1 }
    else if c == 0x09
    then record s { x_pos = (s.x_pos + 8) / 8 * 8 }
    else if c == 13
    then record s { x_pos = 0 }
    else if c == 10
    then fb_new_line s fg bg
    else if leb b' ' c && ltb c 128
    then fb_print s c fg bg
    else s

unfoldable pub fb_break_line : Screen → Screen
fb_break_line s = if leb 80 s.x_pos then record s { x_pos = 0; y_pos = s.y_pos + 1 } else s

-- Behind the last row: back to the first one, which is cleared; the cursor is moved for every cell.
unfoldable pub fb_break_page : Screen → (fg bg : ℕ) → Screen
fb_break_page s fg bg =
    if leb 25 s.y_pos
    then count_up 80 0
        (λ i t. fb_move_cursor (record t { memory = fb_write_cell t.memory (i * 2) b' ' fg bg }) 0)
        (record s { x_pos = 0; y_pos = 0; clear = true })
    else s

-- Beyond the screen `fb_writer` is called, which prints by `fb_putchar` itself and so never returns.
unfoldable pub fb_putchar : Screen → (c fg bg : ℕ) → Option Screen
fb_putchar s c fg bg =
    if ltb 80 s.x_pos || ltb 25 s.y_pos
    then none
    else some (fb_break_page (fb_break_line (fb_act s c fg bg)) fg bg)

-- `fb_clear`, in white on black.
unfoldable pub fb_clear : Screen → Screen
fb_clear s =
    fb_move_cursor
      (record s { memory = count_up 2000 0 (λ i m. fb_write_cell m (i * 2) 0x20 15 0) s.memory }) 1

-- `fb_putchar` for one character after the other, in white on black.
unfoldable pub put_all : List ℕ → Screen → Option Screen
put_all [] s = some s
put_all (c ∷ cs) s = fb_putchar s c 15 0 >>= λ t. put_all cs t
