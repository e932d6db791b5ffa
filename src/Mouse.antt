-- ===== src/Mouse.antt =====
-- lib/uefi/mouse.c: the packets of the PS/2 mouse, and the position of the pointer.
pub mod Setup
pub mod Packet
pub mod Pointer
mod Tests
use bbn_os.Base.{
  ℕ, ◌+◌, ◌-◌, ◌*◌, ◌%◌, ◌^◌, Bool, true, false, Option, none, some, List, [], ◌∷◌, not,
}
use bbn_os.Base.{◌==◌, ltb, if◌then◌else◌, bit_and, add64, sub64}

-- The static variables of mouse.c, those of `ProcessMousePacket` included. Three of the four bytes
-- of `mousePacket` are used.
pub record Mouse : Type 0 where
  pub cycle : ℕ
  pub packet_0 : ℕ
  pub packet_1 : ℕ
  pub packet_2 : ℕ
  pub ready : Bool
  pub pos_x : ℕ
  pub pos_y : ℕ

abbrev pub initial : Mouse
initial = record {
  cycle = 0;
  packet_0 = 0;
  packet_1 = 0;
  packet_2 = 0;
  ready = false;
  pos_x = 0;
  pos_y = 0;
}

abbrev pub has_bit : ℕ → ℕ → Bool
has_bit byte bit = not (bit_and byte bit == 0)

unfoldable pub handle_ps2_mouse : Mouse → ℕ → Mouse
handle_ps2_mouse s byte =
    if s.cycle == 0
    then (if s.ready
        then s
        else if bit_and byte 0b00001000 == 0
        then s
        else record s { packet_0 = byte; cycle = s.cycle + 1 })
    else if s.cycle == 1
    then (if s.ready then s else record s { packet_1 = byte; cycle = s.cycle + 1 })
    else if s.cycle == 2
    then (if s.ready then s else record s { packet_2 = byte; ready = true; cycle = 0 })
    else s

-- One interrupt after the other.
unfoldable pub feed : Mouse → List ℕ → Mouse
feed s [] = s
feed s (byte ∷ bytes) = feed (handle_ps2_mouse s byte) bytes

abbrev pub ps2_x_sign : ℕ
ps2_x_sign = 0b00010000

abbrev pub ps2_y_sign : ℕ
ps2_y_sign = 0b00100000

abbrev pub ps2_x_overflow : ℕ
ps2_x_overflow = 0b01000000

abbrev pub ps2_y_overflow : ℕ
ps2_y_overflow = 0b10000000

-- `fb_info.Width - 1`, an `unsigned int`.
abbrev pub last_pixel : ℕ → ℕ
last_pixel extent = (extent + 2 ^ 32 - 1) % 2 ^ 32

-- `pos += sign * k`, with the sign -1 if `negative`, on a `uint64_t`; `-` is the other way round.
abbrev pub advance : Bool → ℕ → ℕ → ℕ
advance negative pos k = if negative then sub64 pos k else add64 pos k

-- A position past the end is put on the last pixel. The test for a negative one never holds of an
-- unsigned number.
abbrev pub clamp : ℕ → ℕ → ℕ
clamp extent pos =
    if ltb pos 0 then 0 else if ltb (last_pixel extent) pos then last_pixel extent else pos

-- The position after a move, with the byte of the packet and its two flags. On the y axis the move
-- is subtracted.
abbrev pub move_x : ℕ → Bool → Bool → ℕ → ℕ → ℕ
move_x width negative over byte pos =
    let moved = advance negative pos byte in
    clamp width (if over then advance negative moved 255 else moved)

abbrev pub move_y : ℕ → Bool → Bool → ℕ → ℕ → ℕ
move_y height negative over byte pos =
    let moved = advance (not negative) pos byte in
    clamp height (if over then advance (not negative) moved 255 else moved)

-- `packet = 256 - packet`, stored in a `uint8_t`, if the sign is negative.
abbrev pub magnitude : Bool → ℕ → ℕ
magnitude negative byte = if negative then (256 - byte) % 256 else byte

-- The packet is used up, and the pointer has moved.
unfoldable pub apply_packet : Mouse → (width height : ℕ) → Mouse
apply_packet s width height =
    let x_neg = has_bit s.packet_0 ps2_x_sign in
    let y_neg = has_bit s.packet_0 ps2_y_sign in
    let y_over = has_bit s.packet_0 ps2_y_overflow in
    let x_over = has_bit s.packet_0 ps2_x_overflow in
    let dx = magnitude x_neg s.packet_1 in
    let dy = magnitude y_neg s.packet_2 in
    record s {
      packet_1 = dx;
      packet_2 = dy;
      ready = false;
      pos_x = move_x width x_neg x_over dx s.pos_x;
      pos_y = move_y height y_neg y_over dy s.pos_y;
    }

-- The result's second part is the place of the character that `_fbPutChar` draws, as the
-- `unsigned int` that it takes.
unfoldable pub process_mouse_packet : Mouse → (width height : ℕ) → Mouse × Option (ℕ × ℕ)
process_mouse_packet s width height =
    let t = apply_packet s width height in
    if not s.ready then (s, none) else (t, some (t.pos_x % 2 ^ 32, t.pos_y % 2 ^ 32))
