-- ===== src/Mem/Efi/Tests.antt =====
-- The boot at a machine with two regions: 16 free pages at 0, and 4 reserved pages behind them. The
-- memory map stands at 0x9000.
use bbn_os.Base.{
  ℕ, zero, suc, ◌+◌, ◌≤◌, ◌<◌, ◌≡◌, refl, inl, inr, false, [], none, some, arith, if◌then◌else◌,
  ◌==◌,
}
use bbn_os.Memory.{Memory, load64}
use bbn_os.Mem.State.{Kernel, initial_mem_info}
use bbn_os.Mem.Efi.{desc_at, read_desc, get_mem_size, largest_from, read_efi_memory_map}
use bbn_os.Mem.Efi.Size.{get_mem_size-sum, get_mem_size-blocked, with_size, pages_from}
use bbn_os.Mem.Efi.Boot.{Booted, seg, all_bytes, MapApart, entry, read_efi_memory_map-Booted}

abbrev machine_memory : Memory
machine_memory a =
    if a == 0x9000
    then 7
    else if a == 0x9018
    then 16
    else if a == 0x9028 + 10
    then 1
    else if a == 0x9028 + 24
    then 4
    else 0

abbrev pub machine : Kernel
machine = record {
  memory = machine_memory;
  mem_info = initial_mem_info;
  initialized = false;
  log = [];
}

second_region :
    desc_at machine 0x9000 1 40
    ≡ record { type = 0; phys_addr = 0x10000; virt_addr = 0; num_pages = 4; attribs = 0 }
unfolding read_desc load64
second_region = refl

pub machine_bytes : all_bytes machine 0x9000 80 40 ≡ 81920
unfolding pages_from read_desc load64
machine_bytes = refl

machine-seg : seg machine 0x9000 80 40 ≡ 0
unfolding largest_from read_desc load64
machine-seg = refl

pub viable : (j : ℕ) → j < 2 → (entry machine 0x9000 80 40 j).type ≤ 15
unfolding read_desc load64
viable zero h = omega arith
viable (suc zero) h = omega arith
viable (suc (suc j)) h = absurd (omega arith)

apart : MapApart machine 0x9000 80 40
apart j k p q = rw (machine-seg, machine_bytes) (inr (omega arith))

read_efi_memory_map-Booted_example :
    (t : Kernel) × (read_efi_memory_map machine 0x9000 80 40 ≡ some t)
    × Booted machine 0x9000 80 40 t
read_efi_memory_map-Booted_example =
    read_efi_memory_map-Booted machine 0x9000 80 40 refl (omega arith) (inl refl) refl refl viable
      (rw (machine-seg, machine_bytes) (omega arith)) apart

get_mem_size-sum_example : get_mem_size machine 0x9000 2 40 ≡ some (81920, with_size machine 81920)
unfolding pages_from read_desc load64
get_mem_size-sum_example = get_mem_size-sum machine 0x9000 40 2 refl viable

-- The first entry has type 99.
abbrev broken : Kernel
broken = record machine { memory = λ a. if a == 0x9000 then 99 else 0 }

get_mem_size-blocked_example : get_mem_size broken 0x9000 2 40 ≡ none
unfolding read_desc load64
get_mem_size-blocked_example =
    get_mem_size-blocked broken 0x9000 40 2 0 refl (omega arith) (omega arith)
