-- ===== src/Legacy/Writer/Tests.antt =====
-- Numbers and an exception on an empty text screen.
use bbn_os.Base.{true, false, [], arith}
use bbn_os.Legacy.{Screen}
use bbn_os.Legacy.Writer.{Writer}
use bbn_os.Legacy.Writer.Bounds.{IsKept}
use bbn_os.Legacy.Writer.Hex.{IsHexShown, fb_print_hex-IsHexShown}
use bbn_os.Legacy.Writer.Dec.{IsDecShown, fb_print_dec-IsDecShown}
use bbn_os.Legacy.Panic.{exception_handler, exception_handler-IsKept}

abbrev empty_screen : Screen
empty_screen = record { memory = λ a. 0; ports = []; x_pos = 0; y_pos = 0; clear = false }

abbrev writer : Writer
writer = record { screen = empty_screen; x_pos = 78; y_pos = 24; clear = true }

fb_print_hex-IsHexShown_example : IsHexShown 0x80100F0A writer
fb_print_hex-IsHexShown_example =
    fb_print_hex-IsHexShown 0x80100F0A writer (omega arith)
      ((omega arith, omega arith), (omega arith, omega arith))

fb_print_dec-IsDecShown_example : IsDecShown 0xFFFFFFD6 writer
fb_print_dec-IsDecShown_example =
    fb_print_dec-IsDecShown 0xFFFFFFD6 writer (omega arith) (omega arith)
      ((omega arith, omega arith), (omega arith, omega arith))

exception_handler-IsKept_example : IsKept writer (exception_handler 14 2 0x30800 8 0x1202 writer)
exception_handler-IsKept_example =
    exception_handler-IsKept 14 2 0x30800 8 0x1202 writer (omega arith) (omega arith) (omega arith)
      (omega arith) (omega arith) ((omega arith, omega arith), (omega arith, omega arith))
