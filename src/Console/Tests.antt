-- ===== src/Console/Tests.antt =====
-- A console of four characters in two lines, with a font whose glyphs lie at 0x2000.
use bbn_os.Base.{◌≡◌, refl, arith, some, [], ◌∷◌}
use bbn_os.Console.{Console, Psf1Font, put_all, fb_clear_char, fb_clear_screen, pixel_address}
use bbn_os.Console.Fill.{fb_clear_screen-IsLit}
use bbn_os.Memory.{load32}
use bbn_os.Console.Put.{IsPrinted}
use bbn_os.Console.Run.{IsStepBack, put_all-IsPrinted, fb_clear_char-IsStepBack}

abbrev font : Psf1Font
font = record { charsize = 16; glyph_buffer = 0x2000 }

abbrev console : Console
console = record {
  memory = λ a. 0x81;
  ft = some font;
  color = 0xffffffff;
  cursor_x = 24;
  cursor_y = 16;
  fb_info = record {
    base_address = 0x10000;
    buffer_size = 4096;
    width = 32;
    height = 32;
    pixels_per_scanline = 32;
  };
  clear = 1;
}

-- The text breaks the line and the page.
put_all-IsPrinted_example : IsPrinted console (put_all console (b'H' ∷ b'i' ∷ 10 ∷ b'!' ∷ []))
put_all-IsPrinted_example =
    put_all-IsPrinted (b'H' ∷ b'i' ∷ 10 ∷ b'!' ∷ []) console font refl
      (omega arith, omega arith, omega arith, omega arith) (omega arith, omega arith)
      (omega arith, omega arith)

fb_clear_char-IsStepBack_example : IsStepBack console (fb_clear_char console)
fb_clear_char-IsStepBack_example =
    fb_clear_char-IsStepBack console (omega arith, omega arith, omega arith, omega arith)
      (omega arith, omega arith) (omega arith, omega arith)

fb_clear_screen-IsLit_example :
    load32 (fb_clear_screen console 0x00ff0000).memory (pixel_address console.fb_info 31 17)
    ≡ 0x00ff0000
fb_clear_screen-IsLit_example =
    fb_clear_screen-IsLit console 0x00ff0000 31 17 (omega arith) (omega arith) (omega arith)
      (omega arith) (omega arith)
