-- ===== src/Paging.antt =====
-- The four-level page tables of kernel/uefi/mem.c and include/uefi/mem.h. A table is a page of 512
-- entries of 64 bits in memory.
pub mod Index
pub mod Entry
pub mod Walk
pub mod Fresh
pub mod Grow
pub mod Root
pub mod Range
pub mod Leaf
pub mod Map
pub mod Shared
mod Tests
use bbn_os.Base.{ℕ, ◌+◌, ◌*◌, ◌/◌, ◌%◌, ◌^◌, Bool, true, false}
use bbn_os.Base.{bit_and, ◌==◌, if◌then◌else◌, mul64}
use bbn_os.Memory.{Memory, load64, memset}
use bbn_os.Memory.Words.{store64}
use bbn_os.Mem.State.{Kernel}
use bbn_os.Mem.Pages.{request_page}

pub record PageMapIndexer : Type 0 where
  pub pdp_i : ℕ
  pub pd_i : ℕ
  pub pt_i : ℕ
  pub p_i : ℕ

-- The address is shifted down as the fields are filled, by `>>= 12` and three times by `>>= 9`.
unfoldable pub init_page_map_indexer : ℕ → PageMapIndexer
init_page_map_indexer virtual_address =
    let page = virtual_address / 2 ^ 12 in
    let table = page / 2 ^ 9 in
    let directory = table / 2 ^ 9 in
    let top = directory / 2 ^ 9 in
    record {
      p_i = bit_and page 0x1ff;
      pt_i = bit_and table 0x1ff;
      pd_i = bit_and directory 0x1ff;
      pdp_i = bit_and top 0x1ff;
    }

-- An entry: its bits 0 and 1, the ten bits from `UserSuper` to `Available`, which mem.c neither reads
-- nor writes one by one, and the 52 bits of the address.
pub record PageDirEntry : Type 0 where
  pub present : Bool
  pub read_write : Bool
  pub rest : ℕ
  pub address : ℕ

unfoldable pub read_entry : Memory → ℕ → PageDirEntry
read_entry m p =
    let w = load64 m p in
    record {
      present = w % 2 == 1;
      read_write = w / 2 % 2 == 1;
      rest = w / 2 ^ 2 % 2 ^ 10;
      address = w / 2 ^ 12;
    }

abbrev pub bit : Bool → ℕ
bit b = if b then 1 else 0

abbrev pub word_of : PageDirEntry → ℕ
word_of e =
    bit e.present + bit e.read_write * 2 + e.rest % 2 ^ 10 * 2 ^ 2 + e.address % 2 ^ 52 * 2 ^ 12

unfoldable pub write_entry : Memory → ℕ → PageDirEntry → Memory
write_entry m p e = store64 m p (word_of e)

-- `&(table->entries[i])`
abbrev pub entry_at : ℕ → ℕ → ℕ
entry_at table i = table + i * 8

-- The three fields that are set: the rest of the entry stays.
abbrev pub pointing_to : PageDirEntry → ℕ → PageDirEntry
pointing_to e addr = record e { address = addr / 2 ^ 12; present = true; read_write = true }

unfoldable pub get_next_page_table : Kernel → ℕ → ℕ × Kernel
unfolding read_entry write_entry
get_next_page_table s p =
    let pde = read_entry s.memory p in
    let (ret, t) = request_page s in
    let m = memset t.memory ret 0 0x1000 in
    if pde.present
    then (mul64 pde.address (2 ^ 12), s)
    else (ret, record t { memory = write_entry m p (pointing_to (read_entry m p) ret) })

unfoldable pub page_table_manager_map_memory : Kernel → (pml4 virt_mem phys_mem : ℕ) → Kernel
unfolding get_next_page_table init_page_map_indexer
page_table_manager_map_memory s pml4 virt_mem phys_mem =
    let indexer = init_page_map_indexer virt_mem in
    let (pdp, s1) = get_next_page_table s (entry_at pml4 indexer.pdp_i) in
    let (pd, s2) = get_next_page_table s1 (entry_at pdp indexer.pd_i) in
    let (pt, s3) = get_next_page_table s2 (entry_at pd indexer.pt_i) in
    let p = entry_at pt indexer.p_i in
    let pde = read_entry s3.memory p in
    record s3 { memory = write_entry s3.memory p (pointing_to pde phys_mem) }
