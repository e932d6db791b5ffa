-- ===== src/Entry/Kmain/Tests.antt =====
-- The machine with two regions, up to the endless loop of `kmain`: 17 frames are free when the memory is
-- set up, and 10 are needed.
use bbn_os.Base.{◌≡◌, refl, sym, ap, ◌∙◌, Option, none, some, arith}
use bbn_os.Memory.{load32, load64, memset}
use bbn_os.Bitmap.{get_val, test_bit, set_val, set_bit, clear_bit}
use bbn_os.Base.Loop.{count_up}
use bbn_os.Mem.State.{Kernel}
use bbn_os.Mem.Pages.{pg_init_bit_map, reserve_pages, reserve_page, lock_pages, lock_page}
use bbn_os.Mem.Free.{free_frames, count_free}
use bbn_os.Mem.Efi.{
  get_mem_size, desc_add_mem_size, do_for_all_mmap_desc, do_for_all_from, read_desc,
  read_efi_memory_map, read_entries, largest_from, place_bit_map, desc_reserve_page,
}
use bbn_os.Mem.Efi.Tests.{machine, machine_bytes, viable}
use bbn_os.Interrupts.{Machine}
use bbn_os.Interrupts.Tests.{Pics, pics, pics_laws, handlers}
use bbn_os.Entry.{set_up_memory}
use bbn_os.Entry.Started.{IsStarted, set_up_memory-IsStarted}
use bbn_os.Entry.Tests.{two_regions, sized-seg, apart}
use bbn_os.Entry.Kmain.{IsRunning, kmain-IsRunning}

-- The machine after its memory is set up, as it is computed.
abbrev computed : Option Kernel → Kernel
computed none = machine
computed (some t) = t

abbrev begun : Kernel
begun = computed (set_up_memory 0x4000 0x5fff two_regions machine)

begun-some : set_up_memory 0x4000 0x5fff two_regions machine ≡ some begun
unfolding set_up_memory get_mem_size desc_add_mem_size do_for_all_mmap_desc do_for_all_from
    read_desc load64 load32 read_efi_memory_map read_entries place_bit_map pg_init_bit_map
    largest_from desc_reserve_page reserve_pages reserve_page lock_pages lock_page count_up memset
    get_val set_val test_bit set_bit clear_bit
begun-some = refl

free_lem : free_frames begun ≡ 17
unfolding set_up_memory get_mem_size desc_add_mem_size do_for_all_mmap_desc do_for_all_from
    read_desc load64 load32 read_efi_memory_map read_entries place_bit_map pg_init_bit_map
    largest_from desc_reserve_page reserve_pages reserve_page lock_pages lock_page count_up memset
    get_val set_val test_bit set_bit clear_bit free_frames count_free
free_lem = refl

size_lem : begun.mem_info.mem_size_bytes ≡ 81920
unfolding set_up_memory get_mem_size desc_add_mem_size do_for_all_mmap_desc do_for_all_from
    read_desc load64 load32 read_efi_memory_map read_entries place_bit_map pg_init_bit_map
    largest_from desc_reserve_page reserve_pages reserve_page lock_pages lock_page count_up memset
    get_val set_val test_bit set_bit clear_bit
size_lem = refl

begun-IsStarted : IsStarted 0x4000 0x5fff two_regions machine begun
begun-IsStarted =
    let (t, started) =
      set_up_memory-IsStarted 0x4000 0x5fff two_regions machine refl (omega arith) refl refl refl
        viable (rw (sized-seg, machine_bytes) (omega arith)) apart (rw sized-seg refl)
        (rw (sized-seg, machine_bytes) (omega arith)) (omega arith) in
    let same : t ≡ begun = ap computed (sym started.done ∙ begun-some) in rw same at started

abbrev pc : Machine Pics
pc = record {
  kernel = machine;
  idtr = record { limit = 0; base = 0 };
  device = record { mask_1 = 0; mask_2 = 0; words_1 = 0; words_2 = 0 };
}

kmain-IsRunning_example :
    IsRunning pics pics_laws handlers 0x4000 0x5fff two_regions pc begun.mem_info.mem_size_bytes
kmain-IsRunning_example =
    kmain-IsRunning pics pics_laws handlers 0x4000 0x5fff two_regions pc begun begun-IsStarted
      (omega arith) (omega (arith, size_lem)) (omega (arith, size_lem)) (omega arith)
      (rw (size_lem, free_lem) (omega arith))
      (omega arith, omega arith, omega arith, omega arith, omega arith)
