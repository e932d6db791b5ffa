-- ===== src/Paging/Tests.antt =====
-- A machine of 16 page frames: frame 1 holds the bitmap, and frame 2 is an empty table.
use bbn_os.Base.{
  ℕ, ◌/◌, ◌≡◌, inr, refl, sym, ap, ◌∙◌, true, Option, none, some, List, [], arith, ◌==◌,
  if◌then◌else◌,
}
use bbn_os.Bitmap.{get_val, test_bit}
use bbn_os.Mem.State.{Kernel, initial_mem_info}
use bbn_os.Mem.Pages.{frame}
use bbn_os.Mem.Free.{free_frames, count_free}
use bbn_os.Paging.{page_table_manager_map_memory}
use bbn_os.Paging.Entry.{link, link-blank}
use bbn_os.Paging.Walk.{IsTree}
use bbn_os.Paging.Map.{IsMapped, map_memory-IsMapped}

-- Frames 0, 1 and 2 are taken.
abbrev machine : Kernel
machine = record {
  memory = λ a. if a == 0x1000 then 0xE0 else 0;
  mem_info = record initial_mem_info { mem_bit_map = record { size = 2; buffer = 0x1000 } };
  initialized = true;
  log = [];
}

abbrev places : ℕ → Option (List ℕ)
places h = if h == 2 then some [] else none

only_root : (h : ℕ) (q : List ℕ) → places h ≡ some q → h ≡ 2
only_root h q e = ground arith

free_lem : free_frames machine ≡ 13
unfolding free_frames count_free get_val test_bit
free_lem = refl

low_taken : (frame machine 1 ≡ true) × (frame machine 2 ≡ true)
unfolding get_val test_bit
low_taken = (refl, refl)

machine-IsTree : IsTree machine 2 places
machine-IsTree = record {
  root_place = refl;
  taken = λ h q e. rw (only_root h q e) low_taken.1;
  apart = λ h q e. rw (only_root h q e) (λ a lo hi. inr (omega arith));
  child = λ h j g q e low lt l.
      let empty = link-blank machine.memory 2 j lt (λ a lo hi. ground arith) in
      let absurd_link : none ≡ some g =
        sym empty ∙ ap (λ x. link machine.memory x j) (sym (only_root h q e)) ∙ l in
      cc;
  bitmap_taken = λ a lo hi. let first : a / 4096 ≡ 1 = omega arith in rw first low_taken.0;
  size = omega arith;
}

map_memory-IsMapped_example :
    IsMapped machine 2 0x8000201ABC 0x5000
      (page_table_manager_map_memory machine 0x2000 0x8000201ABC 0x5000)
map_memory-IsMapped_example =
    map_memory-IsMapped machine 2 0x8000201ABC 0x5000 places machine-IsTree
      (omega (arith, free_lem)) (omega arith)
