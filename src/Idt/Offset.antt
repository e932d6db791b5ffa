-- ===== src/Idt/Offset.antt =====
-- The handler's address, cut into the three fields of a descriptor and put together again.
use bbn_os.Base.{ℕ, ◌+◌, ◌-◌, ◌*◌, ◌/◌, ◌%◌, ◌^◌, ◌<◌, ◌≡◌, ap, arith}
use bbn_os.Base.{◌==◌, if◌then◌else◌, bit_and, bit_or}
use bbn_os.Base.Bits.{bit_and-low, bit_and-high, bit_or-low, zero-bit_or, split}
use bbn_os.Memory.{Memory, load8}
use bbn_os.Memory.Words.{store16, load8-store16, load8-store32}
use bbn_os.Idt.{low_part, middle_part, high_part, idt_desc_set_offset}

low_part_lem : (a : ℕ) → low_part a ≡ a % 2 ^ 16
low_part_lem a = bit_and-low 16 a

middle_part_lem : (a : ℕ) → middle_part a ≡ a / 2 ^ 16 % 2 ^ 16
middle_part_lem a =
    let cut = bit_and-high 16 (a / 2 ^ 16) (a % 2 ^ 16) (2 ^ 16 - 1) (omega arith) in
    let whole = ap (λ x. bit_and x 0xffff0000) (split 16 a) in
    omega (arith, whole, cut, bit_and-low 16 (a / 2 ^ 16))

high_part_lem : (a : ℕ) → high_part a ≡ a / 2 ^ 32 % 2 ^ 32
high_part_lem a =
    let cut = bit_and-high 32 (a / 2 ^ 32) (a % 2 ^ 32) (2 ^ 32 - 1) (omega arith) in
    let whole = ap (λ x. bit_and x 0xffffffff00000000) (split 32 a) in
    omega (arith, whole, cut, bit_and-low 32 (a / 2 ^ 32))

-- The two `|` of `idtDescGetOffset` put disjoint fields together.
pub join_parts :
    (a b c : ℕ)
    → a < 2 ^ 16
    → b < 2 ^ 16
    → bit_or (bit_or (bit_or 0 a) (b * 2 ^ 16)) (c * 2 ^ 32) ≡ a + b * 2 ^ 16 + c * 2 ^ 32
join_parts a b c ha hb =
    rw (zero-bit_or a, bit_or-low 16 b a ha) (bit_or-low 32 c (a + b * 2 ^ 16) (omega arith))

-- The descriptor's bytes after its offset is set.
pub load8-idt_desc_set_offset :
    (m : Memory) (p a x : ℕ)
    → load8 (idt_desc_set_offset m p a) x ≡ (
        if x == p
        then a % 2 ^ 8
        else if x == p + 1
        then a / 2 ^ 8 % 2 ^ 8
        else if x == p + 6
        then a / 2 ^ 16 % 2 ^ 8
        else if x == p + 7
        then a / 2 ^ 24 % 2 ^ 8
        else if x == p + 8
        then a / 2 ^ 32 % 2 ^ 8
        else if x == p + 9
        then a / 2 ^ 40 % 2 ^ 8
        else if x == p + 10
        then a / 2 ^ 48 % 2 ^ 8
        else if x == p + 11
        then a / 2 ^ 56 % 2 ^ 8
        else load8 m x)
unfolding idt_desc_set_offset
load8-idt_desc_set_offset m p a x =
    let low = store16 m p (low_part a) in
    let middle = store16 low (p + 6) (middle_part a) in
    ground (
      arith,
      low_part_lem a,
      middle_part_lem a,
      high_part_lem a,
      load8-store16 m p (low_part a) x,
      load8-store16 low (p + 6) (middle_part a) x,
      load8-store32 middle (p + 8) (high_part a) x,
    )
