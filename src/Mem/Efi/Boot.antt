-- ===== src/Mem/Efi/Boot.antt =====
-- `readEFIMemoryMap` as a whole.
use bbn_os.Base.{
  ℕ, ◌+◌, ◌*◌, ◌/◌, ◌%◌, ◌^◌, ◌≤◌, ◌<◌, ◌≡◌, ◌≢◌, ◌⊎◌, inl, inr, refl, ◌∙◌, ap, true, false, ◌&&◌,
  some, arith,
}
use bbn_os.Base.{ltb, add64, mul64}
use bbn_os.Memory.{load8}
use native.Mathlib.Decide.{dec_le}
use bbn_os.Mem.State.{Kernel}
use bbn_os.Mem.Pages.{frame, pg_init_bit_map}
use bbn_os.Mem.View.{frames, limit}
use bbn_os.Mem.Range.{in_range, frame-pages}
use bbn_os.Mem.Account.{total}
use bbn_os.Mem.Keeps.{Keeps, Keeps-trans, lock_pages-Keeps}
use bbn_os.Mem.Efi.{
  EfiMemoryDescriptor, desc_at, read_desc-congr, do_for_all_mmap_desc, read_efi_memory_map,
  read_entries, get_mem_size, largest_from, place_bit_map, Segment,
}
use bbn_os.Mem.Efi.Reserve.{
  is_reserved, Region, Apart, reserve_all, do_for_all-reserve_all, reserve_all-Keeps,
  reserve_all-taken,
}
use bbn_os.Mem.Efi.Size.{get_mem_size-known, pages_from, with_size, get_mem_size-sum}
use bbn_os.Mem.Efi.Largest.{IsLargest, largest_from-keeps, largest_from-IsLargest}
use bbn_os.Mem.Efi.Place.{map_bytes, map_pages, cleared, place_bit_map-lock, load8-pg_init}

-- What the boot finds in the memory map: the entries, the bytes of all of them together, and the
-- segment that is to hold the bitmap.
module _ (s : Kernel) (mmap mmap_size desc_size : ℕ) where
  abbrev pub entry : ℕ → EfiMemoryDescriptor
  entry j = desc_at s mmap j desc_size

  abbrev pub entries : ℕ
  entries = mmap_size / desc_size

  abbrev pub all_bytes : ℕ
  all_bytes = 4096 * pages_from entry entries 0 % 2 ^ 64

  -- The state after the search for the largest segment, and that segment.
  abbrev pub searched : Segment × Kernel
  searched =
      largest_from entries 0 (record s { initialized = true }) mmap desc_size
        (record { start = 0; bytes = 0 })

  abbrev pub seg : ℕ
  seg = searched.0.start

  -- The state that holds the placed bitmap, with no region reserved yet.
  abbrev pub placed : Kernel
  placed = place_bit_map (with_size searched.1 all_bytes) all_bytes seg

  searched-state : searched.1 ≡ record s { initialized = true; log = searched.1.log }
  searched-state =
      let (a, b, c) =
        largest_from-keeps mmap desc_size entries 0 (record s { initialized = true })
          (record { start = 0; bytes = 0 }) in
      λ i. record { memory = a i; mem_info = b i; initialized = c i; log = searched.1.log }

  -- The first call runs to its end.
  read-first :
      s.initialized ≡ false
      → desc_size ≢ 0
      → read_efi_memory_map s mmap mmap_size desc_size
        ≡ read_entries (record s { initialized = true }) mmap entries desc_size
  unfolding read_efi_memory_map
  read-first first stride = ground arith

  -- The size is unknown, or a call of `getMemSize` has stored it before.
  abbrev pub HasSizeOpen : Type 0
  HasSizeOpen = (s.mem_info.mem_size_bytes ≡ 0) ⊎ (s.mem_info.mem_size_bytes ≡ all_bytes)

  size-known :
      0 < all_bytes
      → s.mem_info.mem_size_bytes ≡ all_bytes
      → get_mem_size searched.1 mmap entries desc_size
        ≡ some (all_bytes, with_size searched.1 all_bytes)
  size-known positive known =
      get_mem_size-known searched.1 mmap desc_size entries all_bytes
        (ap (λ (t : Kernel). t.mem_info.mem_size_bytes) searched-state ∙ known) positive

  size-unknown :
      s.mem_info.mem_size_bytes ≡ 0
      → ((j : ℕ) → j < entries → (entry j).type ≤ 15)
      → get_mem_size searched.1 mmap entries desc_size
        ≡ some (all_bytes, with_size searched.1 all_bytes)
  size-unknown unknown viable = rw searched-state (
      get_mem_size-sum (record s { initialized = true; log = searched.1.log }) mmap desc_size
        entries unknown viable)

  size-searched :
      HasSizeOpen
      → ((j : ℕ) → j < entries → (entry j).type ≤ 15)
      → get_mem_size searched.1 mmap entries desc_size
        ≡ some (all_bytes, with_size searched.1 all_bytes)
  size-searched (inl unknown) viable = size-unknown unknown viable
  size-searched (inr known) viable = elim (dec_le 1 all_bytes) [
    | yes positive ↦ size-known positive known
    | no none_yet ↦ size-unknown (omega arith) viable
  ]

  read-reserve_all :
      s.initialized ≡ false
      → desc_size ≢ 0
      → HasSizeOpen
      → ((j : ℕ) → j < entries → (entry j).type ≤ 15)
      → read_efi_memory_map s mmap mmap_size desc_size
        ≡ some (reserve_all mmap desc_size entries 0 placed)
  unfolding read_entries do_for_all_mmap_desc
  read-reserve_all first stride unknown viable =
      read-first first stride
      ∙ rw (size-searched unknown viable) (do_for_all-reserve_all mmap desc_size entries 0 placed)

  -- The segment at 0 with no bytes, from which the search starts.
  abbrev pub empty : Segment
  empty = record { start = 0; bytes = 0 }

  -- What the kernel knows of its memory after the boot. The segment of the bitmap is a conventional
  -- one of the map, and none is larger (`place`).
  pub record Booted (t : Kernel) : Type 0 where
    pub initialized : t.initialized ≡ true
    pub place :
        (bytes : ℕ) × IsLargest entry 0 entries empty (record { start = seg; bytes = bytes })
    pub size : t.mem_info.mem_size_bytes ≡ all_bytes
    pub bit_map : t.mem_info.mem_bit_map ≡ record { size = map_bytes all_bytes; buffer = seg }
    pub sum : total (frames t) ≡ all_bytes
    pub own :
        (j : ℕ)
        → in_range (seg / 4096) (map_pages all_bytes) j && ltb j (limit t) ≡ true
        → frame t j ≡ true
    pub regions :
        (k j : ℕ)
        → k < entries
        → is_reserved (entry k) ≡ true
        → (entry k).phys_addr + (entry k).num_pages * 4096 ≤ 2 ^ 64
        → Region (entry k) t j
        → frame t j ≡ true

  abbrev base : Kernel
  base = cleared (with_size searched.1 all_bytes) all_bytes seg

  base-info :
      (base.mem_info.mem_bit_map ≡ record { size = map_bytes all_bytes; buffer = seg })
      × (base.mem_info.mem_size_bytes ≡ all_bytes)
      × (base.initialized ≡ true)
  unfolding pg_init_bit_map
  base-info = (refl, refl, ap (λ (t : Kernel). t.initialized) searched-state)

  base-total :
      s.mem_info.used_memory ≡ 0 → s.mem_info.reserved_memory ≡ 0 → total (frames base) ≡ all_bytes
  unfolding pg_init_bit_map
  base-total used reserved =
      let u = ap (λ (t : Kernel). t.mem_info.used_memory) searched-state in
      let r = ap (λ (t : Kernel). t.mem_info.reserved_memory) searched-state in omega arith

  placed-Keeps : Keeps base placed
  placed-Keeps =
      rw (place_bit_map-lock (with_size searched.1 all_bytes) all_bytes seg)
        (lock_pages-Keeps base seg (map_pages all_bytes))

  final-Keeps : Keeps base (reserve_all mmap desc_size entries 0 placed)
  final-Keeps = Keeps-trans placed-Keeps (reserve_all-Keeps mmap desc_size entries 0 placed)

  -- The entries of the memory map lie outside the bytes of the bitmap, and the one that follows.
  abbrev pub MapApart : Type 0
  MapApart =
      (j k : ℕ)
      → j < entries
      → k < 40
      → let a = add64 mmap (mul64 j desc_size) + k in (a < seg) ⊎ (seg + map_bytes all_bytes < a)

  base-byte :
      (a : ℕ) → (a < seg) ⊎ (seg + map_bytes all_bytes < a) → load8 base.memory a ≡ load8 s.memory a
  base-byte a h =
      let same = ap (λ (t : Kernel). load8 t.memory a) searched-state in
      ground (
        arith,
        load8-pg_init
            (record (with_size searched.1 all_bytes) {
              mem_info = record (with_size searched.1 all_bytes).mem_info {
                free_memory = all_bytes;
              };
            })
            (map_bytes all_bytes) seg a,
      )

  placed-Apart : MapApart → Apart placed mmap desc_size entries
  placed-Apart apart = λ j k p q. rw (placed-Keeps.bit_map ∙ base-info.0) (apart j k p q)

  placed-entry : MapApart → (j : ℕ) → j < entries → desc_at placed mmap j desc_size ≡ entry j
  placed-entry apart j lt =
      read_desc-congr placed.memory s.memory (add64 mmap (mul64 j desc_size)) λ k q.
        let a = add64 mmap (mul64 j desc_size) + k in
        placed-Keeps.bytes a (rw base-info.0 (apart j k lt q)) ∙ base-byte a (apart j k lt q)

  taken-own :
      (j : ℕ)
      → seg + map_pages all_bytes * 4096 ≤ 2 ^ 64
      → in_range (seg / 4096) (map_pages all_bytes) j && ltb j (limit base) ≡ true
      → frame placed j ≡ true
  taken-own j fits h =
      rw (place_bit_map-lock (with_size searched.1 all_bytes) all_bytes seg)
        ((frame-pages base seg (map_pages all_bytes) fits j).0 ∙ rw h refl)

  -- The first call of `readEFIMemoryMap`, with no bytes counted as used or reserved and the size either
  -- unknown or stored by `getMemSize` before, runs to its end on a map whose entries are of a size
  -- other than 0, all have a type up to 15 and lie outside the bitmap, where the bitmap's pages end
  -- within 2^64, and leaves: a bitmap for all the bytes of the map at the start of a conventional
  -- segment than which no conventional segment of the map is larger, or at 0 where none of them has a
  -- byte (a segment's bytes are counted modulo 2^64); counters whose sum is that number of bytes; the
  -- pages of the bitmap itself and every page of each reserved region that ends within 2^64 taken, as
  -- far as the bitmap records them.
  pub read_efi_memory_map-Booted :
      s.initialized ≡ false
      → desc_size ≢ 0
      → HasSizeOpen
      → s.mem_info.used_memory ≡ 0
      → s.mem_info.reserved_memory ≡ 0
      → ((j : ℕ) → j < entries → (entry j).type ≤ 15)
      → seg + map_pages all_bytes * 4096 ≤ 2 ^ 64
      → MapApart
      → (t : Kernel) × (read_efi_memory_map s mmap mmap_size desc_size ≡ some t) × Booted t
  read_efi_memory_map-Booted first stride unknown used reserved viable fits apart =
      let last = reserve_all mmap desc_size entries 0 placed in
      let later = reserve_all-Keeps mmap desc_size entries 0 placed in
      (
        last,
        read-reserve_all first stride unknown viable,
        record {
          initialized = final-Keeps.initialized ∙ base-info.2;
          place = (
            searched.0.bytes,
            largest_from-IsLargest mmap desc_size entries (record s { initialized = true }),
          );
          size = final-Keeps.size ∙ base-info.1;
          bit_map = final-Keeps.bit_map ∙ base-info.0;
          sum = final-Keeps.sum ∙ base-total used reserved;
          own = λ j h. later.taken j (taken-own j fits (rw final-Keeps.bit_map at h));
          regions = λ k j lt r room h.
              let e = placed-entry apart k lt in
              reserve_all-taken mmap desc_size entries 0 k j entries placed (omega arith)
                (placed-Apart apart) (omega arith) (omega arith) (rw e r) (rw e room)
                (rw (e, ← later.bit_map) h);
        },
      )
