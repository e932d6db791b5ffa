-- ===== src/Keyboard/Tests.antt =====
-- A session at the keyboard.
use bbn_os.Base.{ℕ, ◌≡◌, refl, false, List, [], ◌∷◌, arith}
use bbn_os.Keyboard.{initial, print_char, keycode_translate, keyboard_handle, handle_all}
use bbn_os.Keyboard.Handle.{
  IsPlain, shift_after, handle_all-shift, without_rshift, handle_all-without_rshift,
}

-- Shift down, `h`, shift up, `i`, right shift down, `1`, enter.
abbrev session : List ℕ
session = 0x2A ∷ 0x23 ∷ 0xA3 ∷ 0xAA ∷ 0x17 ∷ 0x36 ∷ 0x02 ∷ 0x1C ∷ []

session_prints :
    (handle_all initial session).1
    ≡ print_char b'H' ∷ print_char b'i' ∷ print_char b'1' ∷ print_char 10 ∷ []
unfolding handle_all keyboard_handle keycode_translate
session_prints = refl

session-IsPlain : IsPlain session
session-IsPlain = omega arith

handle_all-shift_example :
    (handle_all initial session).0
    ≡ record { lshift = shift_after false session; rshift = false; e0_prefix = false }
handle_all-shift_example = handle_all-shift session initial session-IsPlain refl refl

handle_all-without_rshift_example :
    handle_all initial session ≡ handle_all initial (without_rshift session)
handle_all-without_rshift_example =
    handle_all-without_rshift session initial session-IsPlain refl refl
