-- ===== src/Entry/Tests.antt =====
-- A machine of 16 page frames: frame 1 holds the bitmap, and frames 0 and 1 are taken.
use bbn_os.Base.{◌/◌, ◌≡◌, inr, refl, true, [], arith, ◌==◌, if◌then◌else◌}
use bbn_os.Bitmap.{get_val, test_bit}
use bbn_os.Mem.State.{Kernel, initial_mem_info}
use bbn_os.Mem.Pages.{frame}
use bbn_os.Mem.Free.{free_frames, count_free}
use bbn_os.Memory.{load64}
use bbn_os.Mem.Efi.{largest_from, read_desc}
use bbn_os.Mem.Efi.Size.{with_size, pages_from}
use bbn_os.Mem.Efi.Boot.{all_bytes, seg, MapApart}
use bbn_os.Mem.Efi.Tests.{machine, machine_bytes, viable}
use bbn_os.Entry.{BootInfo}
use bbn_os.Entry.Started.{IsStarted, set_up_memory-IsStarted}
use bbn_os.Entry.Paged.{IsPaged, set_up_paging-IsPaged}

abbrev running : Kernel
running = record {
  memory = λ a. if a == 0x1000 then 0xC0 else 0;
  mem_info = record initial_mem_info {
    mem_bit_map = record { size = 2; buffer = 0x1000 };
    mem_size_bytes = 0x10000;
  };
  initialized = true;
  log = [];
}

abbrev pub boot : BootInfo
boot = record {
  framebuffer = record {
    base_address = 0x80000000;
    buffer_size = 0x1000;
    width = 32;
    height = 32;
    pixels_per_scanline = 32;
  };
  mmap = 0x3000;
  mmap_size = 96;
  mmap_desc_size = 48;
}

free_lem : free_frames running ≡ 14
unfolding free_frames count_free get_val test_bit
free_lem = refl

bitmap_taken : frame running 1 ≡ true
unfolding get_val test_bit
bitmap_taken = refl

set_up_paging-IsPaged_example : IsPaged boot running
set_up_paging-IsPaged_example =
    set_up_paging-IsPaged boot running (omega arith) (omega arith) (omega arith) (omega arith)
      (λ a lo hi. let first : a / 4096 ≡ 1 = omega arith in rw first bitmap_taken) (omega arith)
      (omega (arith, free_lem))

-- The two regions of the memory map at 0x9000, and a kernel from 0x4000 on.
abbrev pub two_regions : BootInfo
two_regions = record boot { mmap = 0x9000; mmap_size = 80; mmap_desc_size = 40 }

abbrev pub sized : Kernel
sized = with_size machine (all_bytes machine 0x9000 80 40)

pub sized_bytes : all_bytes sized 0x9000 80 40 ≡ 81920
unfolding pages_from read_desc load64
sized_bytes = refl

pub sized-seg : seg sized 0x9000 80 40 ≡ 0
unfolding largest_from read_desc load64
sized-seg = refl

pub apart : MapApart sized 0x9000 80 40
apart j k p q = rw (sized-seg, sized_bytes) (inr (omega arith))

set_up_memory-IsStarted_example : (t : Kernel) × IsStarted 0x4000 0x5fff two_regions machine t
set_up_memory-IsStarted_example =
    set_up_memory-IsStarted 0x4000 0x5fff two_regions machine refl (omega arith) refl refl refl
      viable (rw (sized-seg, machine_bytes) (omega arith)) apart (rw sized-seg refl)
      (rw (sized-seg, machine_bytes) (omega arith)) (omega arith)
