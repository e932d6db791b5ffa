-- ===== src/Keyboard/Translate.antt =====
-- `keycodeTranslate`, checked at every scan code.
use bbn_os.Base.{ℕ, ◌+◌, ◌≤◌, ◌<◌, ◌≡◌, ◌⊎◌, refl, Bool, true, false, not, ◌&&◌, ◌||◌, arith}
use bbn_os.Base.{◌==◌, leb, if◌then◌else◌, every_below, test_of_every}
use bbn_os.Keyboard.{keycode_translate}

-- A code that gives no character, or the code of a printable ASCII character.
abbrev printable_or_none : ℕ → Bool
printable_or_none c = c == 0 || (leb 32 c && leb c 126)

printable_table :
    every_below 256 (λ k.
      printable_or_none (keycode_translate k true) && printable_or_none (keycode_translate k false))
    ≡ true
unfolding every_below keycode_translate
printable_table = refl

-- Both reads of a table are inside it, and what a scan code gives is a printable ASCII character,
-- or 0 for none, with shift and without.
pub keycode_translate-printable :
    (scancode : ℕ) (uppercase : Bool)
    → scancode < 256
    → let c = keycode_translate scancode uppercase in (c ≡ 0) ⊎ ((32 ≤ c) × (c ≤ 126))
keycode_translate-printable scancode true h =
    ground (arith, test_of_every 256 _ scancode printable_table)
keycode_translate-printable scancode false h =
    ground (arith, test_of_every 256 _ scancode printable_table)

-- What the shift key does to a key: a letter becomes its capital, no capital comes without it, and
-- a key that prints nothing prints nothing with it either.
abbrev shifts_well : ℕ → Bool
shifts_well k =
    let low = keycode_translate k false in
    let high = keycode_translate k true in
    (if leb b'a' low && leb low b'z' then high + 32 == low else true)
    && not (leb b'A' low && leb low b'Z')
    && (if low == 0 then high == 0 else not (high == 0))

shift_table : every_below 256 shifts_well ≡ true
unfolding every_below keycode_translate
shift_table = refl

-- With shift a letter key gives the capital of its letter, 32 below it; without shift no key gives
-- a capital; and exactly the keys that print nothing without shift print nothing with it.
pub keycode_translate-shift :
    (k : ℕ)
    → k < 256
    → let low = keycode_translate k false in
      let high = keycode_translate k true in
      (b'a' ≤ low → low ≤ b'z' → high + 32 ≡ low)
      × (b'A' ≤ low → low ≤ b'Z' → ⊥)
      × (low ≡ 0 → high ≡ 0)
      × (high ≡ 0 → low ≡ 0)
keycode_translate-shift k h =
    let t = test_of_every 256 shifts_well k shift_table h in
    (λ p q. ground arith, λ p q. ground arith, λ e. ground arith, λ e. ground arith)
