-- ===== src/Keyboard.antt =====
-- lib/uefi/keycode.c: the scan codes of the keyboard, and what each one prints.
pub mod Translate
pub mod Handle
mod Tests
use bbn_os.Base.{ℕ, ◌+◌, ◌-◌, Bool, true, false, ◌&&◌, ◌||◌, Option, none, some, List, [], ◌∷◌}
use bbn_os.Base.{◌==◌, ltb, leb, if◌then◌else◌, bit_and, get_or}

-- `ASCIITable`, with 0 for a code that has no character.
abbrev pub ascii_table : List ℕ
ascii_table =
    0 ∷ 0 ∷ b'1' ∷ b'2' ∷ b'3' ∷ b'4' ∷ b'5' ∷ b'6' ∷ b'7' ∷ b'8' ∷ b'9' ∷ b'0' ∷ b'-' ∷ b'=' ∷ 0
    ∷ 0 ∷ b'q' ∷ b'w' ∷ b'e' ∷ b'r' ∷ b't' ∷ b'y' ∷ b'u' ∷ b'i' ∷ b'o' ∷ b'p' ∷ b'[' ∷ b']' ∷ 0 ∷ 0
    ∷ b'a' ∷ b's' ∷ b'd' ∷ b'f' ∷ b'g' ∷ b'h' ∷ b'j' ∷ b'k' ∷ b'l' ∷ b';' ∷ 39 ∷ b'`' ∷ 0 ∷ 92
    ∷ b'z' ∷ b'x' ∷ b'c' ∷ b'v' ∷ b'b' ∷ b'n' ∷ b'm' ∷ b',' ∷ b'.' ∷ b'/' ∷ 0 ∷ b'*' ∷ 0 ∷ b' ' ∷ 0
    ∷ 0 ∷ 0 ∷ 0 ∷ 0 ∷ 0 ∷ 0 ∷ 0 ∷ 0 ∷ 0 ∷ 0 ∷ 0 ∷ 0 ∷ b'7' ∷ b'8' ∷ b'9' ∷ b'-' ∷ b'4' ∷ b'5' ∷ b'6'
    ∷ b'+' ∷ b'1' ∷ b'2' ∷ b'3' ∷ b'0' ∷ b'.' ∷ []

abbrev pub keycode_backspace : ℕ
keycode_backspace = 0x0E

abbrev pub keycode_enter : ℕ
keycode_enter = 0x1C

abbrev pub keycode_lshift : ℕ
keycode_lshift = 0x2A

abbrev pub keycode_rshift : ℕ
keycode_rshift = 0x36

abbrev pub keycode_space : ℕ
keycode_space = 0x39

-- `upper_case_map`, for the characters from `,` to `9`.
abbrev pub upper_case_map : List ℕ
upper_case_map =
    b'<' ∷ b'_' ∷ b'>' ∷ b'?' ∷ b')' ∷ b'!' ∷ b'@' ∷ b'#' ∷ b'$' ∷ b'%' ∷ b'^' ∷ b'&' ∷ b'*' ∷ b'('
    ∷ []

-- The `switch` of `keycodeTranslate`; 39 and 92 are the quote and the backslash.
abbrev pub upper_case_rest : ℕ → ℕ
upper_case_rest c =
    if c == b';'
    then b':'
    else if c == 39
    then b'"'
    else if c == b'['
    then b'{'
    else if c == b']'
    then b'}'
    else if c == 92
    then b'|'
    else if c == b'`'
    then b'~'
    else if c == b'='
    then b'+'
    else c

-- A read past either table gives 256, which is no `char`.
abbrev pub upper_case : ℕ → ℕ
upper_case c =
    if leb b'a' c && leb c b'z'
    then c + b'A' - b'a'
    else if leb b',' c && leb c b'9'
    then get_or upper_case_map (c - b',') 256
    else upper_case_rest c

unfoldable pub keycode_translate : ℕ → Bool → ℕ
keycode_translate scancode uppercase =
    if ltb 0x53 scancode
    then 0
    else let c = get_or ascii_table scancode 256 in
      if c == 0 then 0 else if uppercase then upper_case c else c

-- The static variables of `keyboardHandle`.
pub record Keyboard : Type 0 where
  pub lshift : Bool
  pub rshift : Bool
  pub e0_prefix : Bool

abbrev pub initial : Keyboard
initial = record { lshift = false; rshift = false; e0_prefix = false }

-- What the handler calls: `printf` with one character, `fbClearChar`, or `printf` with the warning.
pub data Output : Type 0 where
  print_char : ℕ → Output
  clear_char : Output
  not_implemented : Output

abbrev pub when : Bool → Output → Option Output
when pressed out = if pressed then some out else none

-- The `switch` of `keyboardHandle`, on the code without its release bit.
abbrev pub key_event : Keyboard → ℕ → Bool → Keyboard × Option Output
key_event s scancode pressed =
    if scancode == keycode_lshift
    then (record s { lshift = pressed }, none)
    else if scancode == keycode_rshift
    then (record s { rshift = false }, none)
    else if scancode == keycode_enter
    then (s, when pressed (print_char 10))
    else if scancode == keycode_backspace
    then (s, when pressed clear_char)
    else if scancode == keycode_space
    then (s, when pressed (print_char b' '))
    else if pressed
    then (let ascii = keycode_translate scancode (s.lshift || s.rshift) in
        (s, if ascii == 0 then none else some (print_char ascii)))
    else (s, none)

unfoldable pub keyboard_handle : Keyboard → ℕ → Keyboard × Option Output
keyboard_handle s scancode =
    if scancode == 0xE0
    then (record s { e0_prefix = true }, none)
    else if s.e0_prefix
    then (record s { e0_prefix = false }, some not_implemented)
    else if bit_and scancode 0x80 == 0x80
    then key_event s (scancode - 0x80) false
    else key_event s scancode true

-- What a code prints comes before what the later codes print.
abbrev pub emit : Option Output → Keyboard × List Output → Keyboard × List Output
emit none r = r
emit (some out) (s, outs) = (s, out ∷ outs)

-- One interrupt after the other.
unfoldable pub handle_all : Keyboard → List ℕ → Keyboard × List Output
handle_all s [] = (s, [])
handle_all s (c ∷ codes) = let (t, out) = keyboard_handle s c in emit out (handle_all t codes)
