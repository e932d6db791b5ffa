-- ===== src/Pic.antt =====
-- The two 8259 interrupt controllers, as kernel/uefi/idt.c programs them.
pub mod Masks
use bbn_os.Base.{ℕ, ◌+◌, ◌-◌, ◌%◌, ◌^◌, ◌<◌, ◌≡◌, ◌≢◌, List, [], ◌∷◌}
use bbn_os.Base.{ltb, leb, if◌then◌else◌, bit_and, bit_or}
use bbn_os.Io.{Ports, out_all}

abbrev pub pic1_command : ℕ
pic1_command = 0x20

abbrev pub pic1_data : ℕ
pic1_data = pic1_command + 1

abbrev pub pic2_command : ℕ
pic2_command = 0xA0

abbrev pub pic2_data : ℕ
pic2_data = pic2_command + 1

abbrev pub icw1_init : ℕ
icw1_init = 0x10

abbrev pub icw1_icw4 : ℕ
icw1_icw4 = 0x01

abbrev pub icw4_8086 : ℕ
icw4_8086 = 0x01

abbrev pub pic_eoi : ℕ
pic_eoi = 0x20

-- The writes of `remapPIC`, with the two masks that it read before.
abbrev pub remap_writes : (offset_1 offset_2 a1 a2 : ℕ) → List (ℕ × ℕ)
remap_writes offset_1 offset_2 a1 a2 =
    (pic1_command, bit_or icw1_init icw1_icw4)
    ∷ (pic2_command, bit_or icw1_init icw1_icw4)
    ∷ (pic1_data, offset_1)
    ∷ (pic2_data, offset_2)
    ∷ (pic1_data, 0x04)
    ∷ (pic2_data, 0x02)
    ∷ (pic1_data, icw4_8086)
    ∷ (pic2_data, icw4_8086)
    ∷ (pic1_data, a1)
    ∷ (pic2_data, a2)
    ∷ []

-- The port and the bit of an interrupt line.
abbrev pub data_port : ℕ → ℕ
data_port irq_line = if ltb irq_line 8 then pic1_data else pic2_data

abbrev pub line_bit : ℕ → ℕ
line_bit irq_line = 2 ^ (if ltb irq_line 8 then irq_line else irq_line - 8)

module _ {D : Type 0} (io : Ports D) where
  unfoldable pub remap_pic : (offset_1 offset_2 : ℕ) → D → D
  unfolding out_all
  remap_pic offset_1 offset_2 d =
      let (a1, d1) = io.inb pic1_data d in
      let (a2, d2) = io.inb pic2_data d1 in out_all io (remap_writes offset_1 offset_2 a1 a2) d2

  unfoldable pub irq_set_mask : ℕ → D → D
  irq_set_mask irq_line d =
      let port = data_port irq_line in
      let (value, d') = io.inb port d in io.outb port (bit_or value (line_bit irq_line) % 2 ^ 8) d'

  -- `& ~bit`, on a byte.
  unfoldable pub irq_clear_mask : ℕ → D → D
  irq_clear_mask irq_line d =
      let port = data_port irq_line in
      let (value, d') = io.inb port d in
      io.outb port (bit_and value (255 - line_bit irq_line % 2 ^ 8)) d'

  unfoldable pub pic_send_eoi : ℕ → D → D
  pic_send_eoi irq d =
      io.outb pic1_command pic_eoi (if leb 8 irq then io.outb pic2_command pic_eoi d else d)

-- What the controllers document. `Shows d a b`: both are initialised, and their masks are `a` and
-- `b`.
pub record PicLaws {D : Type 0} (io : Ports D) : Type 1 where
  pub Shows : D → ℕ → ℕ → Type 0
  -- A read of a port gives a byte; a data port gives the mask, and no read changes one.
  pub inb_byte : (port : ℕ) (d : D) → (io.inb port d).0 < 2 ^ 8
  pub inb_mask1 : (d : D) (a b : ℕ) → Shows d a b → (io.inb pic1_data d).0 ≡ a
  pub inb_mask2 : (d : D) (a b : ℕ) → Shows d a b → (io.inb pic2_data d).0 ≡ b
  pub inb_keeps : (port : ℕ) (d : D) (a b : ℕ) → Shows d a b → Shows (io.inb port d).1 a b
  -- A write to a data port sets the mask; a write to another device does not.
  pub outb_mask1 :
      (v : ℕ) (d : D) (a b : ℕ) → v < 2 ^ 8 → Shows d a b → Shows (io.outb pic1_data v d) v b
  pub outb_mask2 :
      (v : ℕ) (d : D) (a b : ℕ) → v < 2 ^ 8 → Shows d a b → Shows (io.outb pic2_data v d) a v
  pub outb_other :
      (port v : ℕ) (d : D) (a b : ℕ)
      → port ≢ pic1_command
      → port ≢ pic1_data
      → port ≢ pic2_command
      → port ≢ pic2_data
      → Shows d a b
      → Shows (io.outb port v d) a b
  -- The four initialisation words, and then a mask, whatever the state before.
  pub initialised :
      (offset_1 offset_2 a b : ℕ) (d : D)
      → a < 2 ^ 8
      → b < 2 ^ 8
      → Shows (out_all io (remap_writes offset_1 offset_2 a b) d) a b
