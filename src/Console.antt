-- ===== src/Console.antt =====
-- lib/uefi/fb.c: the text console on the frame buffer of the boot loader, and include/uefi/fb.h.
-- `none` stands for the loop that never ends, where a row number passes the largest `unsigned int`.
pub mod Frame
pub mod Put
pub mod Run
pub mod Fill
mod Tests
use bbn_os.Base.{
  ℕ, zero, suc, ◌+◌, ◌-◌, ◌*◌, ◌/◌, ◌%◌, ◌^◌, min, Bool, true, false, not, ◌&&◌, ◌||◌, Option, none,
  some, List, [], ◌∷◌,
}
use bbn_os.Base.{◌==◌, ltb, leb, if◌then◌else◌, bit_and, add64, sub64}
use bbn_os.Base.Loop.{count_up}
use bbn_os.Memory.{Memory, load8}
use bbn_os.Memory.Words.{store32}

-- The three numbers are `unsigned int`.
pub record FbInfo : Type 0 where
  pub base_address : ℕ
  pub buffer_size : ℕ
  pub width : ℕ
  pub height : ℕ
  pub pixels_per_scanline : ℕ

-- `PSF1_FONT`: the size of a glyph, from its header, and the address of the glyphs.
pub record Psf1Font : Type 0 where
  pub charsize : ℕ
  pub glyph_buffer : ℕ

-- The static variables of fb.c, `clear` of `fb_putchar` among them.
pub record Console : Type 0 where
  pub memory : Memory
  pub ft : Option Psf1Font
  pub color : ℕ
  pub cursor_x : ℕ
  pub cursor_y : ℕ
  pub fb_info : FbInfo
  pub clear : ℕ

unfoldable pub fb_init : Console → FbInfo → Option Psf1Font → ℕ → Console
fb_init s in_fb in_ft color = record s {
  fb_info = in_fb;
  ft = in_ft;
  color = color;
  cursor_x = 0;
  cursor_y = 0;
}

unfoldable pub fb_set_fb : Console → FbInfo → Console
fb_set_fb s in_fb = record s { fb_info = in_fb }

unfoldable pub fb_set_font : Console → Option Psf1Font → Console
fb_set_font s in_ft = record s { ft = in_ft }

unfoldable pub fb_set_color : Console → ℕ → Console
fb_set_color s color = record s { color = color % 2 ^ 32 }

unfoldable pub fb_reset_cursor : Console → (x y : ℕ) → Console
fb_reset_cursor s x y = record s { cursor_x = x; cursor_y = y }

-- `a - b` on `unsigned int`, for `b` below 2 ^ 32.
abbrev pub sub32 : ℕ → ℕ → ℕ
sub32 a b = (a + 2 ^ 32 - b) % 2 ^ 32

-- The address of a pixel: `x` and `y` are `unsigned int`, and so is `y * PixelsPerScanline`.
abbrev pub pixel_address : FbInfo → ℕ → ℕ → ℕ
pixel_address fb x y = fb.base_address + (x + y * fb.pixels_per_scanline % 2 ^ 32) * 4

-- A pixel off the screen is not written.
unfoldable pub set_color_of_pixel : FbInfo → (color x y : ℕ) → Memory → Memory
set_color_of_pixel fb color x y m =
    if leb fb.width x || leb fb.height y then m else store32 m (pixel_address fb x y) color

-- A row of `n` pixels from `x` on, all of one color: the inner loops that clear.
unfoldable pub fill_row : FbInfo → (color n x y : ℕ) → Memory → Memory
unfolding count_up set_color_of_pixel
fill_row fb color n x y m =
    count_up n x (λ i m'. set_color_of_pixel fb color (i % 2 ^ 32) (y % 2 ^ 32) m') m

-- `n` such rows from `y` on.
unfoldable pub fill_rows : FbInfo → (color n x y rows : ℕ) → Memory → Memory
unfolding count_up fill_row
fill_rows fb color n x y rows m = count_up rows y (λ j m'. fill_row fb color n x j m') m

-- One pixel of a glyph's line: `*font_ptr & (0b10000000 >> (x_off - x))`.
abbrev pub put_pixel : FbInfo → (byte k x y : ℕ) → Memory → Memory
put_pixel fb byte k x y m =
    if bit_and byte (0b10000000 / 2 ^ k) == 0 then m else set_color_of_pixel fb 0xffffffff x y m

-- One line of a glyph, at (`x`, `y`); the loop does not run where `x + 8` wraps.
unfoldable pub put_line : FbInfo → (glyph_byte x y : ℕ) → Memory → Memory
unfolding count_up
put_line fb glyph_byte x y m =
    count_up ((x + 8) % 2 ^ 32 - x) 0
      (λ k m'. put_pixel fb (load8 m' glyph_byte) k ((x + k) % 2 ^ 32) (y % 2 ^ 32) m') m

-- `_fbPutChar`; `chr` is from 0 to 127, and the color is not used.
unfoldable pub fb_put_char : Console → (color chr x y : ℕ) → Console
unfolding count_up put_line
fb_put_char s color chr x y = elim s.ft [
  | none ↦ s
  | some font ↦
      (let fb = s.fb_info in
        let font_ptr = font.glyph_buffer + chr * font.charsize in
        if ltb (sub32 fb.width 8) x || ltb (sub32 fb.height 16) y then s else record s {
          memory =
              count_up ((y + 16) % 2 ^ 32 - y) 0 (λ j m. put_line fb (font_ptr + j) x (y + j) m)
                s.memory;
        })
]

-- The position that `fb_putchar` works on.
pub record Cursor : Type 0 where
  pub x_pos : ℕ
  pub y_pos : ℕ

-- The first and the last test of `fb_putchar`: `limit` is the last column that is let through.
abbrev pub home_if_off : FbInfo → ℕ → Cursor → Cursor
home_if_off fb limit c =
    if ltb limit c.x_pos || ltb (sub32 fb.height 16) c.y_pos
    then record { x_pos = 0; y_pos = 0 }
    else c

-- `\n`: down by a line, which is cleared on the second pass over the screen.
abbrev pub new_line : Console → Cursor → Option (Console × Cursor)
new_line s c =
    let y = add64 c.y_pos 16 in
    let next : Cursor = record { x_pos = 0; y_pos = y } in
    if s.clear == 1
    then (if ltb (2 ^ 32) (y + 17)
        then none
        else some (
          record s { memory = fill_rows s.fb_info 0x00000000 s.fb_info.width 0 y 16 s.memory },
          next,
        ))
    else some (s, next)

-- What the character does. 8 is the backspace, 9 the tab, 13 and 10 the return and the new line.
abbrev pub put_code : Console → ℕ → Cursor → Option (Console × Cursor)
put_code s c p =
    if c == 0x08 && ltb 8 p.x_pos
    then some (s, record p { x_pos = p.x_pos - 8 })
    else if c == 0x09
    then some (s, record p { x_pos = bit_and (add64 p.x_pos 64) (2 ^ 64 - 64) })
    else if c == 13
    then some (s, record p { x_pos = 0 })
    else if c == 10
    then new_line s p
    else if leb 0x20 c && ltb c 128
    then some (
      fb_put_char s s.color c (p.x_pos % 2 ^ 32) (p.y_pos % 2 ^ 32),
      record p { x_pos = add64 p.x_pos 8 },
    )
    else some (s, p)

-- Past the right edge, the line is broken; the new one is cleared on the second pass.
abbrev pub break_line : Console × Cursor → Console × Cursor
break_line (s, p) =
    let fb = s.fb_info in
    let y = add64 p.y_pos 16 in
    let first = y % 2 ^ 32 in
    let rows = min (y + 16) fb.height - first in
    if leb (sub32 fb.width 8) p.x_pos
    then (
      if s.clear == 1
          then record s { memory = fill_rows fb 0xff000000 fb.width 0 first rows s.memory }
          else s,
      record { x_pos = 0; y_pos = y },
    )
    else (s, p)

-- Past the last line, the pass ends: the cursor goes home, and the first line is cleared.
abbrev pub break_page : Console × Cursor → Console × Cursor
break_page (s, p) =
    let fb = s.fb_info in
    if leb (sub32 fb.height 16) p.y_pos
    then (
      record s { clear = s.clear + 1; memory = fill_rows fb 0xff000000 fb.width 0 0 16 s.memory },
      record { x_pos = 0; y_pos = 0 },
    )
    else (s, p)

-- The cursor is stored back.
abbrev pub settle : Console × Cursor → Console
settle (s, p) =
    let q = home_if_off s.fb_info (sub32 s.fb_info.width 8) p in
    record s { cursor_x = q.x_pos; cursor_y = q.y_pos }

unfoldable pub fb_putchar : Console → ℕ → Option Console
fb_putchar s c = elim s.ft [
  | none ↦ some s
  | some _ ↦
      (let start =
          home_if_off s.fb_info s.fb_info.width
            (record { x_pos = s.cursor_x; y_pos = s.cursor_y }) in
        elim (put_code s c start) [
          | none ↦ none
          | some r ↦ some (settle (break_page (break_line r)))
        ])
]

-- One character after the other.
unfoldable pub put_all : Console → List ℕ → Option Console
put_all s [] = some s
put_all s (c ∷ cs) = elim (fb_putchar s c) [ none ↦ none | some t ↦ put_all t cs ]

-- Where the backspace of the keyboard puts the cursor.
abbrev pub step_back : Console → Console
step_back s =
    if ltb s.cursor_x 8
    then record s { cursor_x = sub32 s.fb_info.width 8; cursor_y = s.cursor_y - 16 }
    else record s { cursor_x = s.cursor_x - 8 }

unfoldable pub fb_clear_char : Console → Console
unfolding fill_rows
fb_clear_char s =
    if ltb s.cursor_x 8 && ltb s.cursor_y 16
    then s
    else (let t = step_back s in
        record t { memory = fill_rows t.fb_info 0 8 t.cursor_x t.cursor_y 16 t.memory })

unfoldable pub fb_clear_screen : Console → ℕ → Console
unfolding fill_rows
fb_clear_screen s color = record s {
  memory = fill_rows s.fb_info color s.fb_info.pixels_per_scanline 0 0 s.fb_info.height s.memory;
}
