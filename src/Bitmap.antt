-- ===== src/Bitmap.antt =====
-- lib/uefi/bitmap.c and include/uefi/bitmap.h: a bitmap in memory, the most significant bit first.
pub mod Bits
pub mod Laws
mod Tests
use bbn_os.Base.{ℕ, ◌+◌, ◌-◌, ◌/◌, ◌%◌, ◌^◌, Bool, true, false, not, bit_and, bit_or}
use bbn_os.Base.{◌==◌, ltb, if◌then◌else◌}
use bbn_os.Memory.{Memory, load8, store8}

-- `buffer` is the address of the first byte.
pub record BitMap : Type 0 where
  pub size : ℕ
  pub buffer : ℕ

-- `0b10000000 >> bit_index`
abbrev pub mask : ℕ → ℕ
mask bit_index = 0b10000000 / 2 ^ bit_index

-- `(buffer[byte_index] & mask) ? true : false`
unfoldable pub test_bit : ℕ → ℕ → Bool
test_bit byte bit_index = not (bit_and byte (mask bit_index) == 0)

-- `&= ~mask`, on a byte.
unfoldable pub clear_bit : ℕ → ℕ → ℕ
clear_bit byte bit_index = bit_and byte (255 - mask bit_index)

-- `|= mask`
unfoldable pub set_bit : ℕ → ℕ → ℕ
set_bit byte bit_index = bit_or byte (mask bit_index)

unfoldable pub get_val : Memory → BitMap → ℕ → Bool
get_val m bm index =
    let byte_index = index / 8 in
    if ltb bm.size byte_index
    then false
    else if ltb bm.size byte_index
    then false
    else test_bit (load8 m (bm.buffer + byte_index)) (index % 8)

unfoldable pub set_val : Memory → BitMap → ℕ → Bool → Bool × Memory
set_val m bm index value =
    let byte_index = index / 8 in
    let p = bm.buffer + byte_index in
    if ltb bm.size byte_index
    then (false, m)
    else let m₁ = store8 m p (clear_bit (load8 m p) (index % 8)) in
      (true, if value then store8 m₁ p (set_bit (load8 m₁ p) (index % 8)) else m₁)
