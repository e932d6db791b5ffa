-- ===== src/Mem/Efi.antt =====
-- The UEFI memory map: include/uefi/efi_mem.h, and the functions of kernel/uefi/mem.c that read it.
-- The map is an array in memory whose entries are `mmap_desc_size` bytes apart. `none` stands for a
-- kernel that stops: the endless loop of `_descAddMemSize`, or a division by zero.
pub mod Size
pub mod Largest
pub mod Place
pub mod Reserve
pub mod Boot
pub mod Tests
use bbn_os.Base.{
  ℕ, zero, suc, ◌+◌, ◌*◌, ◌/◌, ◌^◌, ◌≤◌, ◌<◌, ◌≡◌, arith, Bool, true, false, not, ◌&&◌, Option,
  none, some,
}
use bbn_os.Base.{◌==◌, ltb, if◌then◌else◌, add64, mul64, ◌>>=◌}
use bbn_os.Memory.{Memory, load8, load32, load64, load32-congr, load64-congr}
use native.Mathlib.Nat.{add_assoc}
use bbn_os.Mem.State.{Kernel, print, type_not_viable, called_more_than_once, conventional_mem}
use bbn_os.Mem.Pages.{page_size, pg_init_bit_map, reserve_pages, lock_pages}

pub record EfiMemoryDescriptor : Type 0 where
  pub type : ℕ
  pub phys_addr : ℕ
  pub virt_addr : ℕ
  pub num_pages : ℕ
  pub attribs : ℕ

-- The C layout: a 32-bit type, four bytes of padding, and four 64-bit fields.
unfoldable pub read_desc : Memory → ℕ → EfiMemoryDescriptor
read_desc m p = record {
  type = load32 m p;
  phys_addr = load64 m (p + 8);
  virt_addr = load64 m (p + 16);
  num_pages = load64 m (p + 24);
  attribs = load64 m (p + 32);
}

-- An entry is the value of its forty bytes.
pub read_desc-congr :
    (m m' : Memory) (p : ℕ)
    → ((k : ℕ) → k < 40 → load8 m (p + k) ≡ load8 m' (p + k))
    → read_desc m p ≡ read_desc m' p
unfolding read_desc
read_desc-congr m m' p same = λ i. record {
  type = load32-congr m m' p (λ k h. same k (omega arith)) i;
  phys_addr = load64-congr m m' (p + 8) (part 8 (omega arith)) i;
  virt_addr = load64-congr m m' (p + 16) (part 16 (omega arith)) i;
  num_pages = load64-congr m m' (p + 24) (part 24 (omega arith)) i;
  attribs = load64-congr m m' (p + 32) (part 32 (omega arith)) i;
}
  where
    part : (o : ℕ) → o + 8 ≤ 40 → (k : ℕ) → k < 8 → load8 m (p + o + k) ≡ load8 m' (p + o + k)
    part o fits k h = rw (add_assoc p o k) (same (o + k) (omega arith))

-- `EFI_MEMORY_TYPE`, as far as it is used.
abbrev pub efi_conventional_memory : ℕ
efi_conventional_memory = 7

abbrev pub efi_memory_mapped_io : ℕ
efi_memory_mapped_io = 11

abbrev pub efi_memory_mapped_io_port_space : ℕ
efi_memory_mapped_io_port_space = 12

-- The `i`-th entry: `(uint64_t)mmap + (i * mmap_desc_size)`.
abbrev pub desc_at : Kernel → ℕ → ℕ → ℕ → EfiMemoryDescriptor
desc_at s mmap i desc_size = read_desc s.memory (add64 mmap (mul64 i desc_size))

unfoldable pub desc_reserve_page : Kernel → EfiMemoryDescriptor → Option Kernel
desc_reserve_page s desc = some (
    if not (desc.type == efi_conventional_memory)
      && not (desc.type == efi_memory_mapped_io)
      && not (desc.type == efi_memory_mapped_io_port_space)
    then reserve_pages s desc.phys_addr desc.num_pages
    else s)

-- A type above 15 is reported, and the kernel stays in `while (1)`.
unfoldable pub desc_add_mem_size : Kernel → EfiMemoryDescriptor → Option Kernel
desc_add_mem_size s desc =
    if ltb 15 desc.type
    then none
    else some (record s {
      mem_info = record s.mem_info {
        mem_size_bytes = add64 s.mem_info.mem_size_bytes (mul64 desc.num_pages page_size);
      };
    })

-- `n` rounds are left, from entry `i` on.
unfoldable pub do_for_all_from :
    ℕ → ℕ → Kernel → ℕ → ℕ → (Kernel → EfiMemoryDescriptor → Option Kernel) → Option Kernel
do_for_all_from zero i s mmap desc_size func = some s
do_for_all_from (suc n) i s mmap desc_size func = elim (func s (desc_at s mmap i desc_size)) [
  | none ↦ none
  | some t ↦ do_for_all_from n (i + 1) t mmap desc_size func
]

unfoldable pub do_for_all_mmap_desc :
    Kernel → ℕ → ℕ → ℕ → (Kernel → EfiMemoryDescriptor → Option Kernel) → Option Kernel
unfolding do_for_all_from
do_for_all_mmap_desc s mmap num_entries desc_size func =
    do_for_all_from num_entries 0 s mmap desc_size func

unfoldable pub get_mem_size : Kernel → ℕ → ℕ → ℕ → Option (ℕ × Kernel)
unfolding do_for_all_mmap_desc desc_add_mem_size
get_mem_size s mmap num_entries desc_size =
    if ltb 0 s.mem_info.mem_size_bytes then some (s.mem_info.mem_size_bytes, s) else do
      t ← do_for_all_mmap_desc s mmap num_entries desc_size desc_add_mem_size
      some (t.mem_info.mem_size_bytes, t)

-- `largest_mem_seg` and `largest_mem_seg_size`
pub record Segment : Type 0 where
  pub start : ℕ
  pub bytes : ℕ

-- One round of the search for the largest conventional segment.
abbrev pub larger_segment : Segment → EfiMemoryDescriptor → Segment
larger_segment best desc =
    let bytes = mul64 desc.num_pages page_size in
    if desc.type == efi_conventional_memory
    then (if ltb best.bytes bytes then record { start = desc.phys_addr; bytes = bytes } else best)
    else best

abbrev pub report_segment : Kernel → EfiMemoryDescriptor → Kernel
report_segment s desc =
    if desc.type == efi_conventional_memory
    then print
        (conventional_mem desc.phys_addr (add64 desc.phys_addr (mul64 desc.num_pages page_size))) s
    else s

unfoldable pub largest_from : ℕ → ℕ → Kernel → ℕ → ℕ → Segment → Segment × Kernel
largest_from zero i s mmap desc_size best = (best, s)
largest_from (suc n) i s mmap desc_size best =
    let desc = desc_at s mmap i desc_size in
    largest_from n (i + 1) (report_segment s desc) mmap desc_size (larger_segment best desc)

-- From `mem_info.free_memory = mem_size` to the end of the inner block: the bitmap is placed in
-- the largest segment, and its own pages are locked.
unfoldable pub place_bit_map : Kernel → ℕ → ℕ → Kernel
unfolding pg_init_bit_map lock_pages
place_bit_map s mem_size seg =
    let bitmap_size = mem_size / page_size / 8 + 1 in
    let s' = record s { mem_info = record s.mem_info { free_memory = mem_size } } in
    let (_, t) = pg_init_bit_map s' bitmap_size seg in
    let bm = t.mem_info.mem_bit_map in lock_pages t bm.buffer (bm.size / page_size + 1)

-- The body of `readEFIMemoryMap` from `initialized = true` on, for a map of `num` entries.
unfoldable pub read_entries : Kernel → ℕ → ℕ → ℕ → Option Kernel
read_entries s mmap num desc_size = do
  let (seg, t) = largest_from num 0 s mmap desc_size (record { start = 0; bytes = 0 })
  (mem_size, u) ← get_mem_size t mmap num desc_size
  do_for_all_mmap_desc (place_bit_map u mem_size seg.start) mmap num desc_size desc_reserve_page

unfoldable pub read_efi_memory_map : Kernel → ℕ → ℕ → ℕ → Option Kernel
read_efi_memory_map s mmap mmap_size desc_size =
    if s.initialized
    then some (print called_more_than_once s)
    else if desc_size == 0
    then none
    else read_entries (record s { initialized = true }) mmap (mmap_size / desc_size) desc_size
