-- ===== src/Interrupts/Panic/Tests.antt =====
-- The handlers of exceptions on a console of four characters in two lines.
use bbn_os.Base.{ℕ, ◌*◌, ◌/◌, refl, some, arith, leb}
use bbn_os.Format.{DoubleOps}
use bbn_os.Console.{Console, Psf1Font}
use bbn_os.Interrupts.Panic.{IsReported, handlers-IsReported}

-- Doubles that are whole numbers.
abbrev whole : DoubleOps ℕ
whole = record {
  at_least_ten = λ x. leb 10 x;
  div_ten = λ x. x / 10;
  mul_ten = λ x. x * 10;
  add_half = λ x. x;
  sub_own_int = λ x. some 0;
  to_intmax = λ x. some x;
}

abbrev font : Psf1Font
font = record { charsize = 16; glyph_buffer = 0x2000 }

abbrev console : Console
console = record {
  memory = λ a. 0x81;
  ft = some font;
  color = 0xffffffff;
  cursor_x = 24;
  cursor_y = 16;
  fb_info = record {
    base_address = 0x10000;
    buffer_size = 4096;
    width = 32;
    height = 32;
    pixels_per_scanline = 32;
  };
  clear = 0;
}

handlers-IsReported_example : IsReported whole console
handlers-IsReported_example =
    handlers-IsReported whole console font refl (omega arith, omega arith, omega arith, omega arith)
      (omega arith, omega arith) (omega arith, omega arith)
