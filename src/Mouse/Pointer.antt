-- ===== src/Mouse/Pointer.antt =====
-- The position of the pointer.
use bbn_os.Base.{ℕ, ◌+◌, ◌-◌, ◌%◌, ◌^◌, ◌<◌, ◌≡◌, ap, ◌∙◌, Bool, true, false, some, min, arith}
use bbn_os.Base.{◌==◌, leb, if◌then◌else◌}
use mathlib.Core.Path.{ap₂}
use bbn_os.Mouse.{
  Mouse, apply_packet, process_mouse_packet, has_bit, ps2_x_sign, ps2_x_overflow, clamp, move_x,
  magnitude,
}

clamp-lt : (extent pos : ℕ) → 0 < extent → extent < 2 ^ 32 → clamp extent pos < extent
clamp-lt extent pos lo hi = ground arith

-- How far a negative byte moves the pointer: 256 less the byte, and not at all for 0.
abbrev left : ℕ → ℕ
left byte = if byte == 0 then 0 else 256 - byte

move_left :
    (width byte pos : ℕ)
    → byte < 256
    → width < 2 ^ 32
    → pos < width
    → move_x width true false (magnitude true byte) pos
      ≡ (if leb (left byte) pos then pos - left byte else width - 1)
move_left width byte pos b₁ w₁ x = ground arith

move_right :
    (width byte pos : ℕ)
    → byte < 256
    → width < 2 ^ 32
    → pos < width
    → move_x width false false (magnitude false byte) pos ≡ min (pos + byte) (width - 1)
move_right width byte pos b₁ w₁ x = ground arith

move_x_lem :
    (width byte pos : ℕ) (negative : Bool)
    → byte < 256
    → width < 2 ^ 32
    → pos < width
    → move_x width negative false (magnitude negative byte) pos ≡ (
        if negative
        then (if leb (left byte) pos then pos - left byte else width - 1)
        else min (pos + byte) (width - 1))
move_x_lem width byte pos true b₁ w₁ x = move_left width byte pos b₁ w₁ x
move_x_lem width byte pos false b₁ w₁ x = move_right width byte pos b₁ w₁ x

module _ (s : Mouse) (width height : ℕ) where
  apply_packet-on_screen :
      0 < width
      → width < 2 ^ 32
      → 0 < height
      → height < 2 ^ 32
      → ((apply_packet s width height).pos_x < width)
        × ((apply_packet s width height).pos_y < height)
  unfolding apply_packet
  apply_packet-on_screen w₀ w₁ h₀ h₁ = (clamp-lt width _ w₀ w₁, clamp-lt height _ h₀ h₁)

  process-ready :
      s.ready ≡ true
      → let t = apply_packet s width height in
        process_mouse_packet s width height ≡ (t, some (t.pos_x % 2 ^ 32, t.pos_y % 2 ^ 32))
  unfolding process_mouse_packet
  process-ready r = ground arith

  -- On a screen that has pixels, processing a packet puts the pointer on one of them, and draws it
  -- at just that pixel.
  pub process_mouse_packet-on_screen :
      s.ready ≡ true
      → 0 < width
      → width < 2 ^ 32
      → 0 < height
      → height < 2 ^ 32
      → let (t, drawn) = process_mouse_packet s width height in
        (t.pos_x < width) × (t.pos_y < height) × (drawn ≡ some (t.pos_x, t.pos_y))
  process_mouse_packet-on_screen r w₀ w₁ h₀ h₁ =
      let (x, y) = apply_packet-on_screen w₀ w₁ h₀ h₁ in
      rw (process-ready r) (x, y, ap₂ (λ a b. some (a, b)) (omega arith) (omega arith))

  apply_packet-x :
      has_bit s.packet_0 ps2_x_overflow ≡ false
      → let negative = has_bit s.packet_0 ps2_x_sign in
        (apply_packet s width height).pos_x
        ≡ move_x width negative false (magnitude negative s.packet_1) s.pos_x
  unfolding apply_packet
  apply_packet-x over =
      let negative = has_bit s.packet_0 ps2_x_sign in
      ap (λ o. move_x width negative o (magnitude negative s.packet_1) s.pos_x) over

  -- Where a packet is ready, its overflow bit in x is clear, its x is a byte, and the pointer is on a
  -- screen whose width is a 32-bit number: with the sign bit clear the pointer moves right by the byte
  -- and stops at the right edge; with it set it moves left, by 256 less the byte, and by nothing where
  -- the byte is 0. But at the left edge it does not stop: a move past it puts the pointer on the right
  -- edge.
  pub process_mouse_packet-x :
      s.ready ≡ true
      → has_bit s.packet_0 ps2_x_overflow ≡ false
      → s.packet_1 < 256
      → 0 < width
      → width < 2 ^ 32
      → s.pos_x < width
      → (process_mouse_packet s width height).0.pos_x ≡ (
          if has_bit s.packet_0 ps2_x_sign
          then (if leb (left s.packet_1) s.pos_x then s.pos_x - left s.packet_1 else width - 1)
          else min (s.pos_x + s.packet_1) (width - 1))
  process_mouse_packet-x r over b₁ w₀ w₁ x = rw (process-ready r) (
      apply_packet-x over
      ∙ move_x_lem width s.packet_1 s.pos_x (has_bit s.packet_0 ps2_x_sign) b₁ w₁ x)
