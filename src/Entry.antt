-- ===== src/Entry.antt =====
-- kernel/uefi/kernel.c: how `kmain` sets up the memory and the paging. What it prints, the load of the
-- descriptor table and the write of CR3 have no part in it.
pub mod Locked
pub mod Kmain
pub mod Loops
pub mod Paged
pub mod Started
pub mod Tests
use bbn_os.Base.{
  ℕ, zero, suc, ◌+◌, ◌-◌, ◌*◌, ◌/◌, ◌%◌, ◌^◌, ◌≤◌, ◌<◌, ◌≡◌, ◌≢◌, ◌⊎◌, ◌↔◌, inl, inr, refl, sym, ap,
  ◌∙◌, Bool, true, false, not, ◌&&◌, ◌||◌, Option, none, some, List, [], ◌∷◌, ◌++◌, arith, ◌==◌,
  ltb, leb, if◌then◌else◌, Bool-cases, ==_iff, ==_self, ==_ne, add64, sub64, mul64, ◌>>=◌, min,
  bit_and, bit_or, length, get_or,
}
use bbn_os.Memory.{memset}
use bbn_os.Console.{FbInfo}
use bbn_os.Mem.State.{Kernel}
use bbn_os.Mem.Pages.{request_page, lock_pages}
use bbn_os.Mem.Efi.{get_mem_size, read_efi_memory_map}
use bbn_os.Paging.{page_table_manager_map_memory}

-- What the loader passes on; the font goes to the console.
pub record BootInfo : Type 0 where
  pub framebuffer : FbInfo
  pub mmap : ℕ
  pub mmap_size : ℕ
  pub mmap_desc_size : ℕ

-- `boot_info->mmap_size / boot_info->mmap_desc_size`
abbrev pub num_entries : BootInfo → Option ℕ
num_entries boot =
    if boot.mmap_desc_size == 0 then none else some (boot.mmap_size / boot.mmap_desc_size)

-- `getMemSize`, as `kmain` calls it.
abbrev pub mem_size : BootInfo → Kernel → Option (ℕ × Kernel)
mem_size boot s = do num ← num_entries boot; get_mem_size s boot.mmap num boot.mmap_desc_size

-- The size, the memory map and the kernel's own pages, up to the summary.
unfoldable pub set_up_memory : (kernel_start kernel_end : ℕ) → BootInfo → Kernel → Option Kernel
set_up_memory kernel_start kernel_end boot s = do
  (_, s') ← mem_size boot s
  t ← read_efi_memory_map s' boot.mmap boot.mmap_size boot.mmap_desc_size
  some (lock_pages t kernel_start (sub64 kernel_end kernel_start / 4096 + 1))

-- The first loop of the paging from `t` on, with `n` rounds left: it asks for the size in every round.
unfoldable pub map_memory_from : (n t pml4 : ℕ) → BootInfo → Kernel → Option Kernel
map_memory_from zero t pml4 boot s = none
map_memory_from (suc n) t pml4 boot s = do
  (size, s') ← mem_size boot s
  elim (ltb t size) [
    | true ↦
        map_memory_from n (add64 t 0x1000) pml4 boot (page_table_manager_map_memory s' pml4 t t)
    | false ↦ some s'
  ]

-- The second loop.
unfoldable pub map_framebuffer_from : (n t end pml4 : ℕ) → Kernel → Option Kernel
map_framebuffer_from zero t end pml4 s = none
map_framebuffer_from (suc n) t end pml4 s = elim (ltb t end) [
  | true ↦
      map_framebuffer_from n (add64 t 0x1000) end pml4 (page_table_manager_map_memory s pml4 t t)
  | false ↦ some s
]

-- A loop over addresses in steps of a page either ends within so many rounds or never does.
abbrev pub all_rounds : ℕ
all_rounds = 2 ^ 52 + 1

unfoldable pub set_up_paging : BootInfo → Kernel → Option (ℕ × Kernel)
set_up_paging boot s =
    let (pml4, s1) = request_page s in
    let fb_base = boot.framebuffer.base_address in
    let fb_size = add64 boot.framebuffer.buffer_size 0x1000 in
    (do
      s2 ←
          map_memory_from all_rounds 0 pml4 boot
            (record s1 { memory = memset s1.memory pml4 0 0x1000 })
      t ←
          map_framebuffer_from all_rounds fb_base (add64 fb_base fb_size) pml4
            (lock_pages s2 fb_base (fb_size / 0x1000 + 1))
      some (pml4, t))
