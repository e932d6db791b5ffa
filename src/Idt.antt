-- ===== src/Idt.antt =====
-- kernel/uefi/idt.c: the interrupt descriptor table.
pub mod Offset
pub mod Gates
use bbn_os.Base.{ℕ, ◌+◌, ◌*◌, ◌/◌, ◌%◌, ◌^◌, ◌<◌, ◌≡◌}
use bbn_os.Base.{bit_and, bit_or, add64, mul64}
use bbn_os.Memory.{Memory, load8, store8, load32}
use bbn_os.Memory.Words.{load16, store16, store32}

pub record IdtDesc : Type 0 where
  pub offset_0 : ℕ
  pub selector : ℕ
  pub ist : ℕ
  pub type_attr : ℕ
  pub offset_1 : ℕ
  pub offset_2 : ℕ
  pub reserved_field : ℕ

-- The C layout, packed: 16 bytes.
unfoldable pub read_idt_desc : Memory → ℕ → IdtDesc
read_idt_desc m p = record {
  offset_0 = load16 m p;
  selector = load16 m (p + 2);
  ist = load8 m (p + 4);
  type_attr = load8 m (p + 5);
  offset_1 = load16 m (p + 6);
  offset_2 = load32 m (p + 8);
  reserved_field = load32 m (p + 12);
}

-- `offset & 0xffff`, and the two fields above it, which are shifted down.
abbrev pub low_part : ℕ → ℕ
low_part offset = bit_and offset 0x000000000000ffff

abbrev pub middle_part : ℕ → ℕ
middle_part offset = bit_and offset 0x00000000ffff0000 / 2 ^ 16

abbrev pub high_part : ℕ → ℕ
high_part offset = bit_and offset 0xffffffff00000000 / 2 ^ 32

unfoldable pub idt_desc_set_offset : Memory → ℕ → ℕ → Memory
idt_desc_set_offset m p offset =
    store32 (store16 (store16 m p (low_part offset)) (p + 6) (middle_part offset)) (p + 8)
      (high_part offset)

-- The fields of a descriptor, put together by `|`.
abbrev pub joined : IdtDesc → ℕ
joined d =
    bit_or (bit_or (bit_or 0 d.offset_0) (d.offset_1 * 2 ^ 16 % 2 ^ 64))
      (d.offset_2 * 2 ^ 32 % 2 ^ 64)

unfoldable pub idt_desc_get_offset : Memory → ℕ → ℕ
unfolding read_idt_desc
idt_desc_get_offset m p = joined (read_idt_desc m p)

abbrev pub seg_offset_kernel_code : ℕ
seg_offset_kernel_code = 0x8

abbrev pub idt_ta_interrupt : ℕ
idt_ta_interrupt = 0b10001110

abbrev pub idt_desc_size : ℕ
idt_desc_size = 16

-- `IDT_DESC_BY_INDEX`, with the base of the table.
abbrev pub idt_desc_by_index : ℕ → ℕ → ℕ
idt_desc_by_index base index = add64 base (mul64 index idt_desc_size)

unfoldable pub int_assign_func : Memory → (base index handler : ℕ) → Memory
unfolding idt_desc_set_offset
int_assign_func m base index handler =
    let desc = idt_desc_by_index base index in
    let m' = idt_desc_set_offset m desc handler in
    store8 (store16 m' (desc + 2) seg_offset_kernel_code) (desc + 5) idt_ta_interrupt
