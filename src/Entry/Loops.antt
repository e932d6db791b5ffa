-- ===== src/Entry/Loops.antt =====
-- The two loops of the paging run as often as the range has pages.
use bbn_os.Base.{
  ℕ, zero, suc, ◌+◌, ◌*◌, ◌/◌, ◌^◌, ◌≤◌, ◌<◌, ◌≡◌, ◌≢◌, refl, ◌∙◌, true, false, Option, some, arith,
  ltb, add64,
}
use bbn_os.Base.Loop.{count_up}
use bbn_os.Mem.State.{Kernel}
use bbn_os.Mem.Free.{request_page-Keeps}
use bbn_os.Mem.Efi.{get_mem_size}
use bbn_os.Paging.{
  init_page_map_indexer, entry_at, get_next_page_table, page_table_manager_map_memory,
}
use bbn_os.Paging.Range.{map_range, map_to_itself}
use bbn_os.Entry.{BootInfo, mem_size, map_memory_from, map_framebuffer_from}

next_table-size :
    (s : Kernel) (p : ℕ)
    → (get_next_page_table s p).1.mem_info.mem_size_bytes ≡ s.mem_info.mem_size_bytes
unfolding get_next_page_table
next_table-size s p = ground (arith, (request_page-Keeps s).size)

pub map_memory-size :
    (s : Kernel) (pml4 virt phys : ℕ)
    → (page_table_manager_map_memory s pml4 virt phys).mem_info.mem_size_bytes
      ≡ s.mem_info.mem_size_bytes
unfolding page_table_manager_map_memory
map_memory-size s pml4 virt phys =
    let x = init_page_map_indexer virt in
    let o1 = get_next_page_table s (entry_at pml4 x.pdp_i) in
    let o2 = get_next_page_table o1.1 (entry_at o1.0 x.pd_i) in
    next_table-size o2.1 (entry_at o2.0 x.pt_i)
    ∙ next_table-size o1.1 (entry_at o1.0 x.pd_i)
    ∙ next_table-size s (entry_at pml4 x.pdp_i)

-- Once the size is known, `getMemSize` returns it.
mem_size-known :
    (boot : BootInfo) (s : Kernel)
    → boot.mmap_desc_size ≢ 0
    → 0 < s.mem_info.mem_size_bytes
    → mem_size boot s ≡ some (s.mem_info.mem_size_bytes, s)
unfolding get_mem_size
mem_size-known boot s stride known = ground arith

-- One round, where the size is known.
map_memory_opened :
    (boot : BootInfo) (n t pml4 : ℕ) (s : Kernel)
    → boot.mmap_desc_size ≢ 0
    → 0 < s.mem_info.mem_size_bytes
    → map_memory_from (suc n) t pml4 boot s
      ≡ elim (ltb t s.mem_info.mem_size_bytes) as (λ _. Option Kernel) [
        | true ↦
            map_memory_from n (add64 t 0x1000) pml4 boot (page_table_manager_map_memory s pml4 t t)
        | false ↦ some s
      ]
unfolding map_memory_from
map_memory_opened boot n t pml4 s stride known =
    rw (map_memory_from, mem_size-known boot s stride known) refl

module _ (boot : BootInfo) (root size : ℕ) (stride : boot.mmap_desc_size ≢ 0) (known : 0 < size)
    (small : size ≤ 2 ^ 48) where
  -- From page `i` on, with `k` pages to go.
  map_memory_rounds :
      (k fuel i : ℕ) (s : Kernel)
      → s.mem_info.mem_size_bytes ≡ size
      → i + k ≡ (size + 4095) / 4096
      → k < fuel
      → map_memory_from fuel (i * 4096) (root * 4096) boot s
        ≡ some (count_up k i (λ i t. map_to_itself root (0 + i * 4096) t) s)
  unfolding map_memory_from count_up
  map_memory_rounds k zero i s e sum more = absurd (omega arith)
  map_memory_rounds zero (suc fuel) i s e sum more =
      let last : ltb (i * 4096) s.mem_info.mem_size_bytes ≡ false = ground arith in
      map_memory_opened boot fuel (i * 4096) (root * 4096) s stride (omega arith) ∙ rw last refl
  map_memory_rounds (suc k) (suc fuel) i s e sum more =
      let here : ltb (i * 4096) s.mem_info.mem_size_bytes ≡ true = ground arith in
      let step : add64 (i * 4096) 0x1000 ≡ (i + 1) * 4096 = omega arith in
      let at : 0 + i * 4096 ≡ i * 4096 = omega arith in
      let next =
        map_memory_rounds k fuel (i + 1) (map_to_itself root (i * 4096) s)
          (map_memory-size s (root * 4096) (i * 4096) (i * 4096) ∙ e) (omega arith) (omega arith) in
      map_memory_opened boot fuel (i * 4096) (root * 4096) s stride (omega arith)
      ∙ rw (here, step, at) next

  -- The first loop maps each page of the memory.
  pub map_memory_from_lem :
      (fuel : ℕ) (s : Kernel)
      → s.mem_info.mem_size_bytes ≡ size
      → (size + 4095) / 4096 < fuel
      → map_memory_from fuel 0 (root * 4096) boot s
        ≡ some (map_range root 0 ((size + 4095) / 4096) s)
  unfolding map_range
  map_memory_from_lem fuel s e more =
      map_memory_rounds ((size + 4095) / 4096) fuel 0 s e (omega arith) more

module _ (root base bytes : ℕ) (small : base + bytes + 4096 ≤ 2 ^ 48) where
  map_framebuffer_rounds :
      (k fuel i : ℕ) (s : Kernel)
      → i + k ≡ (bytes + 4095) / 4096
      → k < fuel
      → map_framebuffer_from fuel (base + i * 4096) (base + bytes) (root * 4096) s
        ≡ some (count_up k i (λ i t. map_to_itself root (base + i * 4096) t) s)
  unfolding map_framebuffer_from count_up
  map_framebuffer_rounds k zero i s sum more = absurd (omega arith)
  map_framebuffer_rounds zero (suc fuel) i s sum more =
      let last : ltb (base + i * 4096) (base + bytes) ≡ false = ground arith in
      rw (map_framebuffer_from, last) refl
  map_framebuffer_rounds (suc k) (suc fuel) i s sum more =
      let here : ltb (base + i * 4096) (base + bytes) ≡ true = ground arith in
      let step : add64 (base + i * 4096) 0x1000 ≡ base + (i + 1) * 4096 = omega arith in
      let next =
        map_framebuffer_rounds k fuel (i + 1) (map_to_itself root (base + i * 4096) s) (omega arith)
          (omega arith) in
      rw (map_framebuffer_from, here, step) next

  -- The second loop maps each page of the frame buffer.
  pub map_framebuffer_from_lem :
      (fuel : ℕ) (s : Kernel)
      → (bytes + 4095) / 4096 < fuel
      → map_framebuffer_from fuel base (base + bytes) (root * 4096) s
        ≡ some (map_range root base ((bytes + 4095) / 4096) s)
  unfolding map_range
  map_framebuffer_from_lem fuel s more =
      let start : base + 0 * 4096 ≡ base = omega arith in
      rw start at (map_framebuffer_rounds ((bytes + 4095) / 4096) fuel 0 s (omega arith) more)
