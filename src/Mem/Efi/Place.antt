-- ===== src/Mem/Efi/Place.antt =====
-- `PGinitBitMap` and the pages of the bitmap itself.
use bbn_os.Base.{
  ℕ, ◌+◌, ◌*◌, ◌/◌, ◌%◌, ◌^◌, ◌≤◌, ◌<◌, ◌≡◌, refl, ◌∙◌, true, false, ◌&&◌, not, arith,
}
use bbn_os.Base.{ltb, leb, if◌then◌else◌, every_below, test_of_every}
use bbn_os.Memory.{load8, memset, load8-memset}
use bbn_os.Bitmap.{get_val, test_bit}
use bbn_os.Mem.State.{Kernel, get_free_mem_size, get_used_mem_size, get_reserved_mem_size}
use bbn_os.Mem.Pages.{frame, pg_init_bit_map, lock_pages}
use bbn_os.Mem.Range.{in_range, lock_pages-Locked, lock_pages-bit_map}
use bbn_os.Mem.Efi.{place_bit_map}

-- The bytes of the bitmap for `mem_size` bytes of memory, and the pages that they lie in.
abbrev pub map_bytes : ℕ → ℕ
map_bytes mem_size = mem_size / 4096 / 8 + 1

abbrev pub map_pages : ℕ → ℕ
map_pages mem_size = map_bytes mem_size / 4096 + 1

no_bits : every_below 8 (λ k. not (test_bit 0 k)) ≡ true
unfolding every_below test_bit
no_bits = refl

test_bit-zero : (k : ℕ) → k < 8 → test_bit 0 k ≡ false
test_bit-zero k h = ground (arith, test_of_every 8 (λ k. not (test_bit 0 k)) k no_bits h)

module _ (s : Kernel) (size addr : ℕ) where
  pub load8-pg_init :
      (a : ℕ)
      → load8 (pg_init_bit_map s size addr).1.memory a
        ≡ (if leb addr a && ltb a (addr + size) then 0 else load8 s.memory a)
  unfolding pg_init_bit_map memset
  load8-pg_init a = load8-memset s.memory addr 0 size a

  -- After `PGinitBitMap` every frame of the map is free.
  pub frame-pg_init : (j : ℕ) → j < 8 * size → frame (pg_init_bit_map s size addr).1 j ≡ false
  unfolding pg_init_bit_map get_val
  frame-pg_init j h = ground (arith, load8-pg_init (addr + j / 8), test_bit-zero (j % 8))

-- What the placing of the bitmap leaves: a map for all the frames below `mem_size`, in the segment
-- that was chosen, in which just the pages of the bitmap itself are taken; those pages count as
-- used, and the rest as free.
pub record Placed (s : Kernel) (mem_size seg : ℕ) (t : Kernel) : Type 0 where
  pub bit_map : t.mem_info.mem_bit_map ≡ record { size = map_bytes mem_size; buffer = seg }
  pub taken :
      (j : ℕ)
      → j < 8 * map_bytes mem_size
      → frame t j ≡ in_range (seg / 4096) (map_pages mem_size) j
  pub free : (get_free_mem_size t + 4096 * map_pages mem_size) % 2 ^ 64 ≡ mem_size % 2 ^ 64
  pub used :
      get_used_mem_size t % 2 ^ 64 ≡ (get_used_mem_size s + 4096 * map_pages mem_size) % 2 ^ 64
  pub reserved : get_reserved_mem_size t ≡ get_reserved_mem_size s

module _ (s : Kernel) (mem_size seg : ℕ) where
  -- The state before the pages of the bitmap are locked.
  abbrev pub cleared : Kernel
  cleared =
      (pg_init_bit_map (record s { mem_info = record s.mem_info { free_memory = mem_size } })
        (map_bytes mem_size) seg).1

  pub place_bit_map-lock :
      place_bit_map s mem_size seg ≡ lock_pages cleared seg (map_pages mem_size)
  unfolding place_bit_map
  place_bit_map-lock = refl

  -- The bitmap is placed as `Placed` says, if its pages lie in the range that it records.
  pub place_bit_map-Placed :
      seg + map_pages mem_size * 4096 ≤ 2 ^ 64
      → seg / 4096 + map_pages mem_size ≤ 8 * map_bytes mem_size
      → Placed s mem_size seg (place_bit_map s mem_size seg)
  unfolding pg_init_bit_map get_free_mem_size get_used_mem_size get_reserved_mem_size
  place_bit_map-Placed fits inside =
      let l = lock_pages-Locked cleared seg (map_pages mem_size) fits (omega arith) free_before in
      rw place_bit_map-lock (record {
        bit_map = lock_pages-bit_map cleared seg (map_pages mem_size) ∙ refl;
        taken = λ j h. ground (arith, l.taken j, free_before_at j);
        free = l.free;
        used = l.used;
        reserved = l.reserved;
      })
    where
      free_before_at : (j : ℕ) → j < 8 * map_bytes mem_size → frame cleared j ≡ false
      free_before_at j h =
          frame-pg_init (record s { mem_info = record s.mem_info { free_memory = mem_size } })
            (map_bytes mem_size) seg j h

      free_before :
          (j : ℕ) → in_range (seg / 4096) (map_pages mem_size) j ≡ true → frame cleared j ≡ false
      free_before j h = free_before_at j (ground arith)
