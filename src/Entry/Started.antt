-- ===== src/Entry/Started.antt =====
-- The memory as `kmain` leaves it to the paging: the size and the map are read, and the kernel's own
-- pages are locked.
use bbn_os.Base.{
  ℕ, ◌+◌, ◌*◌, ◌/◌, ◌%◌, ◌^◌, ◌≤◌, ◌<◌, ◌≡◌, ◌≢◌, inr, refl, ◌∙◌, true, false, ◌&&◌, some, arith,
  ◌==◌, ltb, sub64,
}
use bbn_os.Mem.State.{Kernel}
use bbn_os.Mem.Pages.{frame, lock_pages}
use bbn_os.Mem.View.{limit}
use bbn_os.Mem.Keeps.{Keeps, lock_pages-Keeps}
use bbn_os.Mem.Range.{in_range, frame-pages}
use bbn_os.Mem.Efi.Size.{with_size, get_mem_size-sum}
use bbn_os.Mem.Efi.Place.{map_bytes, map_pages}
use bbn_os.Mem.Efi.Boot.{Booted, MapApart, entry, all_bytes, seg, read_efi_memory_map-Booted}
use bbn_os.Paging.Walk.{HasBitmapTaken}
use bbn_os.Entry.{BootInfo, mem_size, set_up_memory}

Booted-Keeps :
    (s : Kernel) (mmap mmap_size desc_size : ℕ) (t u : Kernel)
    → Booted s mmap mmap_size desc_size t
    → Keeps t u
    → Booted s mmap mmap_size desc_size u
Booted-Keeps s mmap mmap_size desc_size t u b keeps = record {
  initialized = keeps.initialized ∙ b.initialized;
  place = b.place;
  size = keeps.size ∙ b.size;
  bit_map = keeps.bit_map ∙ b.bit_map;
  sum = keeps.sum ∙ b.sum;
  own = λ j h. keeps.taken j (b.own j (rw keeps.bit_map at h));
  regions = λ k j lt r room h. keeps.taken j (b.regions k j lt r room (rw keeps.bit_map at h));
}

-- A bitmap at the start of a page lies in the pages that were locked for it, the byte behind it too.
Booted-HasBitmapTaken :
    (s : Kernel) (mmap mmap_size desc_size : ℕ) (t : Kernel)
    → Booted s mmap mmap_size desc_size t
    → let start = seg s mmap mmap_size desc_size in
      let bytes = map_bytes (all_bytes s mmap mmap_size desc_size) in
      start % 4096 ≡ 0 → (start + bytes) / 4096 < 8 * bytes + 8 → HasBitmapTaken t
Booted-HasBitmapTaken s mmap mmap_size desc_size t b aligned recorded a lo hi =
    let lo' = rw b.bit_map at lo in let hi' = rw b.bit_map at hi in b.own (a / 4096) (ground arith)

-- What `kmain` knows of the memory before the paging: what `readEFIMemoryMap` leaves, with the
-- kernel's own pages taken too, as far as the bitmap records them.
pub record IsStarted (kernel_start kernel_end : ℕ) (boot : BootInfo) (s t : Kernel) : Type 0 where
  pub done : set_up_memory kernel_start kernel_end boot s ≡ some t
  pub booted :
      let bytes = all_bytes s boot.mmap boot.mmap_size boot.mmap_desc_size in
      Booted (with_size s bytes) boot.mmap boot.mmap_size boot.mmap_desc_size t
  pub kernel :
      (j : ℕ)
      → in_range (kernel_start / 4096) (sub64 kernel_end kernel_start / 4096 + 1) j
          && ltb j (limit t)
        ≡ true
      → frame t j ≡ true
  pub bitmap : HasBitmapTaken t

module _ (kernel_start kernel_end : ℕ) (boot : BootInfo) (s : Kernel) where
  abbrev bytes : ℕ
  bytes = all_bytes s boot.mmap boot.mmap_size boot.mmap_desc_size

  abbrev sized : Kernel
  sized = with_size s bytes

  abbrev start : ℕ
  start = seg sized boot.mmap boot.mmap_size boot.mmap_desc_size

  sized-mem_size :
      boot.mmap_desc_size ≢ 0
      → s.mem_info.mem_size_bytes ≡ 0
      → ((j : ℕ)
          → j < boot.mmap_size / boot.mmap_desc_size
          → (entry s boot.mmap boot.mmap_size boot.mmap_desc_size j).type ≤ 15)
      → mem_size boot s ≡ some (bytes, sized)
  sized-mem_size stride unknown viable =
      let divisible : (boot.mmap_desc_size == 0) ≡ false = ground arith in
      rw divisible (
        get_mem_size-sum s boot.mmap boot.mmap_desc_size (boot.mmap_size / boot.mmap_desc_size)
          unknown viable)

  abbrev kernel_pages : ℕ
  kernel_pages = sub64 kernel_end kernel_start / 4096 + 1

  -- On a fresh `mem_info`, with a memory map whose entries have a size other than 0 and types up to 15
  -- and lie outside the bitmap, a bitmap that starts a page, ends in the address space and records its
  -- own pages, and a kernel whose pages end in the address space: the size is read, then the map, and
  -- the kernel's pages are locked. All regions are accounted for as `readEFIMemoryMap` leaves them; those
  -- pages of the kernel that the bitmap records are taken, and every page that holds a byte of the
  -- bitmap, or the byte behind it, is taken.
  pub set_up_memory-IsStarted :
      s.initialized ≡ false
      → boot.mmap_desc_size ≢ 0
      → s.mem_info.mem_size_bytes ≡ 0
      → s.mem_info.used_memory ≡ 0
      → s.mem_info.reserved_memory ≡ 0
      → ((j : ℕ)
          → j < boot.mmap_size / boot.mmap_desc_size
          → (entry s boot.mmap boot.mmap_size boot.mmap_desc_size j).type ≤ 15)
      → start + map_pages bytes * 4096 ≤ 2 ^ 64
      → MapApart sized boot.mmap boot.mmap_size boot.mmap_desc_size
      → start % 4096 ≡ 0
      → (start + map_bytes bytes) / 4096 < 8 * map_bytes bytes + 8
      → kernel_start + kernel_pages * 4096 ≤ 2 ^ 64
      → (t : Kernel) × IsStarted kernel_start kernel_end boot s t
  unfolding set_up_memory
  set_up_memory-IsStarted first stride unknown used reserved viable fits apart aligned recorded
        inside =
      let (t, read, booted) =
        read_efi_memory_map-Booted sized boot.mmap boot.mmap_size boot.mmap_desc_size first stride
          (inr refl) used reserved viable fits apart in
      let keeps = lock_pages-Keeps t kernel_start kernel_pages in
      let u = lock_pages t kernel_start kernel_pages in
      let still =
        Booted-Keeps sized boot.mmap boot.mmap_size boot.mmap_desc_size t u booted keeps in
      (
        u,
        record {
          done = rw (set_up_memory, sized-mem_size stride unknown viable, read) refl;
          booted = still;
          kernel = λ j h.
              (frame-pages t kernel_start kernel_pages inside j).0
              ∙ rw (rw keeps.bit_map at h) refl;
          bitmap =
              Booted-HasBitmapTaken sized boot.mmap boot.mmap_size boot.mmap_desc_size u still
                aligned recorded;
        },
      )
