-- ===== src/Legacy/Descriptor.antt =====
-- kernel/legacy/dt.c and include/legacy/dt.h: the descriptors of segments.
use bbn_os.Base.{ℕ, ◌+◌, ◌*◌, ◌/◌, ◌%◌, ◌^◌, ◌<◌, ◌≡◌, arith}

pub record Descriptor : Type 0 where
  pub limit_low : ℕ
  pub base_low : ℕ
  pub base_mid : ℕ
  pub attr1 : ℕ
  pub limit_high_attr2 : ℕ
  pub base_high : ℕ

-- The two parts that are put together by `|` share no bit.
unfoldable pub init_descriptor : (base limit attribute : ℕ) → Descriptor
init_descriptor base limit attribute = record {
  limit_low = limit % 2 ^ 16;
  base_low = base % 2 ^ 16;
  base_mid = base / 2 ^ 16 % 2 ^ 8;
  attr1 = attribute % 2 ^ 8;
  limit_high_attr2 = limit / 2 ^ 16 % 2 ^ 4 + attribute / 2 ^ 12 % 2 ^ 4 * 2 ^ 4;
  base_high = base / 2 ^ 24 % 2 ^ 8;
}

-- The global table, and `seg2phys` of a selector.
abbrev pub Gdt : Type 0
Gdt = ℕ → Descriptor

unfoldable pub seg2phys : Gdt → (seg : ℕ) → ℕ
seg2phys gdt seg =
    let d = gdt (seg / 2 ^ 3) in
    d.base_high % 2 ^ 8 * 2 ^ 24 + d.base_mid % 2 ^ 8 * 2 ^ 16 + d.base_low % 2 ^ 16

abbrev pub vir2phys : (seg_base vir : ℕ) → ℕ
vir2phys seg_base vir = (seg_base + vir) % 2 ^ 32

-- How the processor reads a descriptor.
abbrev pub segment_base : Descriptor → ℕ
segment_base d = d.base_low + d.base_mid * 2 ^ 16 + d.base_high * 2 ^ 24

abbrev pub segment_limit : Descriptor → ℕ
segment_limit d = d.limit_low + d.limit_high_attr2 % 2 ^ 4 * 2 ^ 16

abbrev pub privilege : Descriptor → ℕ
privilege d = d.attr1 / 2 ^ 5 % 2 ^ 2

-- The attributes, with the flags above the limit in the upper bits.
abbrev pub attributes : Descriptor → ℕ
attributes d = d.attr1 + d.limit_high_attr2 / 2 ^ 4 * 2 ^ 12

-- The processor reads the base, the low 20 bits of the limit, and the attributes without the four bits
-- that the limit takes.
pub init_descriptor_lem :
    (base limit attribute : ℕ)
    → base < 2 ^ 32
    → attribute < 2 ^ 16
    → let d = init_descriptor base limit attribute in
      (segment_base d ≡ base)
      × (segment_limit d ≡ limit % 2 ^ 20)
      × (attributes d ≡ attribute % 2 ^ 8 + attribute / 2 ^ 12 * 2 ^ 12)
unfolding init_descriptor
init_descriptor_lem base limit attribute hb ha = (omega arith, omega arith, omega arith)

-- `seg2phys` of any selector of a descriptor that `init_descriptor` made is its base.
pub seg2phys-init_descriptor :
    (gdt : Gdt) (seg base limit attribute : ℕ)
    → base < 2 ^ 32
    → gdt (seg / 8) ≡ init_descriptor base limit attribute
    → seg2phys gdt seg ≡ base
unfolding seg2phys init_descriptor
seg2phys-init_descriptor gdt seg base limit attribute hb e = rw (seg2phys, e) (omega arith)
