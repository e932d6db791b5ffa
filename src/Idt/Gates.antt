-- ===== src/Idt/Gates.antt =====
-- What `IntAssignFunc` does to the table: one gate is set, and the others stay.
use bbn_os.Base.{ℕ, ◌+◌, ◌*◌, ◌/◌, ◌%◌, ◌^◌, ◌<◌, ◌≤◌, ◌≡◌, ◌≢◌, ◌⊎◌, inl, inr, ap, ◌∙◌, arith}
use bbn_os.Base.{◌==◌, if◌then◌else◌, Bool-cases}
use bbn_os.Memory.{Memory, load8, load32, load32-congr}
use bbn_os.Memory.Words.{load16, load8-store16}
use bbn_os.Idt.{
  IdtDesc, read_idt_desc, idt_desc_set_offset, idt_desc_get_offset, int_assign_func, joined,
  idt_desc_by_index, idt_ta_interrupt, seg_offset_kernel_code,
}
use bbn_os.Idt.Offset.{load8-idt_desc_set_offset, join_parts}

-- A gate of the kernel for the handler at `handler`, in a slot that held `old`.
abbrev pub gate : IdtDesc → ℕ → IdtDesc
gate old handler = record {
  offset_0 = handler % 2 ^ 16;
  selector = seg_offset_kernel_code;
  ist = old.ist;
  type_attr = idt_ta_interrupt;
  offset_1 = handler / 2 ^ 16 % 2 ^ 16;
  offset_2 = handler / 2 ^ 32 % 2 ^ 32;
  reserved_field = old.reserved_field;
}

-- The bytes of memory after an assignment.
load8-int_assign_func :
    (m : Memory) (base index handler x : ℕ)
    → let p = idt_desc_by_index base index in
      load8 (int_assign_func m base index handler) x ≡ (
        if x == p + 2
        then 8
        else if x == p + 3
        then 0
        else if x == p + 5
        then idt_ta_interrupt
        else load8 (idt_desc_set_offset m p handler) x)
unfolding int_assign_func
load8-int_assign_func m base index handler x =
    let p = idt_desc_by_index base index in
    ground (arith, load8-store16 (idt_desc_set_offset m p handler) (p + 2) seg_offset_kernel_code x)

module _ (m : Memory) (base index handler : ℕ) where
  abbrev p : ℕ
  p = idt_desc_by_index base index

  byte :
      (x k : ℕ)
      → x ≡ p + k
      → load8 (int_assign_func m base index handler) x ≡ (
          if k == 2
          then 8
          else if k == 3
          then 0
          else if k == 5
          then idt_ta_interrupt
          else if k == 0
          then handler % 2 ^ 8
          else if k == 1
          then handler / 2 ^ 8 % 2 ^ 8
          else if k == 6
          then handler / 2 ^ 16 % 2 ^ 8
          else if k == 7
          then handler / 2 ^ 24 % 2 ^ 8
          else if k == 8
          then handler / 2 ^ 32 % 2 ^ 8
          else if k == 9
          then handler / 2 ^ 40 % 2 ^ 8
          else if k == 10
          then handler / 2 ^ 48 % 2 ^ 8
          else if k == 11
          then handler / 2 ^ 56 % 2 ^ 8
          else load8 m x)
  byte x k at =
      let q = idt_desc_by_index base index in
      ground (
        arith,
        load8-int_assign_func m base index handler x,
        load8-idt_desc_set_offset m q handler x,
      )

  frame :
      (x : ℕ) → (x < p) ⊎ (p + 12 ≤ x) → load8 (int_assign_func m base index handler) x ≡ load8 m x
  frame x away =
      let q = idt_desc_by_index base index in
      ground (
        arith,
        load8-int_assign_func m base index handler x,
        load8-idt_desc_set_offset m q handler x,
      )

  kept_32 :
      (q : ℕ)
      → (q + 4 ≤ p) ⊎ (p + 12 ≤ q)
      → load32 (int_assign_func m base index handler) q ≡ load32 m q
  kept_32 q away =
      load32-congr (int_assign_func m base index handler) m q (λ k h. frame (q + k) (grind arith))

  abbrev after : Memory
  after = int_assign_func m base index handler

  low_field : load16 after p ≡ handler % 2 ^ 16
  unfolding load16
  low_field = omega (arith, byte (p) 0 (omega arith), byte (p + 1) 1 (omega arith))

  selector_field : load16 after (p + 2) ≡ seg_offset_kernel_code
  unfolding load16
  selector_field = omega (arith, byte (p + 2) 2 (omega arith), byte (p + 2 + 1) 3 (omega arith))

  middle_field : load16 after (p + 6) ≡ handler / 2 ^ 16 % 2 ^ 16
  unfolding load16
  middle_field = omega (arith, byte (p + 6) 6 (omega arith), byte (p + 6 + 1) 7 (omega arith))

  high_field : load32 after (p + 8) ≡ handler / 2 ^ 32 % 2 ^ 32
  unfolding load32
  high_field = omega (
    arith,
    byte (p + 8) 8 (omega arith),
    byte (p + 8 + 1) 9 (omega arith),
    byte (p + 8 + 2) 10 (omega arith),
    byte (p + 8 + 3) 11 (omega arith),
  )

  same_gate : read_idt_desc after p ≡ gate (read_idt_desc m p) handler
  unfolding read_idt_desc
  same_gate = λ i. record {
    offset_0 = low_field i;
    selector = selector_field i;
    ist = byte (p + 4) 4 (omega arith) i;
    type_attr = byte (p + 5) 5 (omega arith) i;
    offset_1 = middle_field i;
    offset_2 = high_field i;
    reserved_field = kept_32 (p + 12) (inr (omega arith)) i;
  }

  other_gate :
      (q : ℕ)
      → (q + 16 ≤ p) ⊎ (p + 16 ≤ q)
      → read_idt_desc (int_assign_func m base index handler) q ≡ read_idt_desc m q
  unfolding read_idt_desc load16
  other_gate q away = λ i. record {
    offset_0 = part16 q (grind arith) i;
    selector = part16 (q + 2) (grind arith) i;
    ist = frame (q + 4) (grind arith) i;
    type_attr = frame (q + 5) (grind arith) i;
    offset_1 = part16 (q + 6) (grind arith) i;
    offset_2 = kept_32 (q + 8) (grind arith) i;
    reserved_field = kept_32 (q + 12) (grind arith) i;
  }
    where
      part16 :
          (x : ℕ)
          → (x + 2 ≤ p) ⊎ (p + 12 ≤ x)
          → load16 (int_assign_func m base index handler) x ≡ load16 m x
      part16 x h = omega (arith, frame x (grind arith), frame (x + 1) (grind arith))

-- In a table of 256 gates that ends inside the address space, assigning a handler sets the gate of its index to the handler's address, the kernel's code segment
-- and an interrupt gate, and keeps the two fields that it does not write, and every other gate.
pub read_idt_desc-int_assign_func :
    (m : Memory) (base index handler j : ℕ)
    → base + 4096 ≤ 2 ^ 64
    → index < 256
    → j < 256
    → let old = read_idt_desc m (idt_desc_by_index base j) in
      read_idt_desc (int_assign_func m base index handler) (idt_desc_by_index base j)
      ≡ (if j == index then gate old handler else old)
read_idt_desc-int_assign_func m base index handler j fits hi hj = elim (Bool-cases (j == index)) [
  | inl e ↦ let same : j ≡ index = ground arith in rw (e, same) (same_gate m base index handler)
  | inr ne ↦ rw ne (other_gate m base index handler (idt_desc_by_index base j) (ground arith))
]

-- The address that is read back from a descriptor is the 64-bit one that was assigned.
pub idt_desc_get_offset-int_assign_func :
    (m : Memory) (base index handler : ℕ)
    → handler < 2 ^ 64
    → idt_desc_get_offset (int_assign_func m base index handler) (idt_desc_by_index base index)
      ≡ handler
unfolding idt_desc_get_offset
idt_desc_get_offset-int_assign_func m base index handler small =
    let low = handler % 2 ^ 16 in
    let middle = handler / 2 ^ 16 % 2 ^ 16 in
    let high = handler / 2 ^ 32 % 2 ^ 32 in
    let middle_fits : middle * 2 ^ 16 % 2 ^ 64 ≡ middle * 2 ^ 16 = omega arith in
    let high_fits : high * 2 ^ 32 % 2 ^ 64 ≡ high * 2 ^ 32 = omega arith in
    ap joined (same_gate m base index handler)
    ∙ rw (middle_fits, high_fits)
        (join_parts low middle high (omega arith) (omega arith) ∙ omega arith)

-- The handler of every other vector stays.
pub int_assign_func_kept :
    (m : Memory) (base index handler j : ℕ)
    → base + 4096 ≤ 2 ^ 64
    → index < 256
    → j < 256
    → j ≢ index
    → idt_desc_get_offset (int_assign_func m base index handler) (idt_desc_by_index base j)
      ≡ idt_desc_get_offset m (idt_desc_by_index base j)
unfolding idt_desc_get_offset
int_assign_func_kept m base index handler j fits hi hj ne =
    ap joined (other_gate m base index handler (idt_desc_by_index base j) (grind arith))

-- No byte outside the page of the table changes.
pub int_assign_func-outside :
    (m : Memory) (base index handler a : ℕ)
    → base + 4096 ≤ 2 ^ 64
    → index < 256
    → (a < base) ⊎ (base + 4096 ≤ a)
    → load8 (int_assign_func m base index handler) a ≡ load8 m a
int_assign_func-outside m base index handler a fits small out =
    let start : idt_desc_by_index base index ≡ base + index * 16 = omega arith in
    let bytes = load8-int_assign_func m base index handler a in
    let offsets = load8-idt_desc_set_offset m (idt_desc_by_index base index) handler a in
    ground (arith, bytes, offsets)
