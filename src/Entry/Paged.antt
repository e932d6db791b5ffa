-- ===== src/Entry/Paged.antt =====
-- The page tables that `kmain` leaves.
use bbn_os.Base.{
  ℕ, ◌+◌, ◌*◌, ◌/◌, ◌^◌, ◌≤◌, ◌<◌, ◌≡◌, ◌≢◌, refl, ◌&&◌, ◌||◌, none, some, arith, ltb, leb,
  if◌then◌else◌, add64,
}
use bbn_os.Mem.State.{Kernel}
use bbn_os.Mem.Pages.{request_page, lock_pages}
use bbn_os.Mem.Keeps.{lock_pages-Keeps}
use bbn_os.Mem.Free.{free_frames, Fresh, request_page-Fresh, request_page-Keeps}
use bbn_os.Paging.Entry.{link-zeroed}
use bbn_os.Paging.Walk.{walk, HasBitmapTaken}
use bbn_os.Paging.Map.{page_of}
use bbn_os.Paging.Root.{cleared, root_place, root-IsTree, root_cost}
use bbn_os.Paging.Range.{map_range, IsRange, tables, map_range-IsRange}
use bbn_os.Entry.{BootInfo, all_rounds, set_up_paging}
use bbn_os.Entry.Locked.{kept-IsTree, walk-Keeps, walk-empty, free_frames-lock_pages}
use bbn_os.Entry.Loops.{map_memory_from_lem, map_framebuffer_from_lem}

-- The pages of the memory, and those of the frame buffer, to which `kmain` adds one.
abbrev pub memory_pages : Kernel → ℕ
memory_pages s = (s.mem_info.mem_size_bytes + 4095) / 4096

abbrev pub fb_pages : BootInfo → ℕ
fb_pages boot = (boot.framebuffer.buffer_size + 4096 + 4095) / 4096

abbrev pub fb_locked : BootInfo → ℕ
fb_locked boot = (boot.framebuffer.buffer_size + 4096) / 4096 + 1

-- Frames enough for the root, the tables of both ranges, and the pages that are locked.
abbrev pub frames_needed : BootInfo → Kernel → ℕ
frames_needed boot s =
    1
    + tables 0 (memory_pages s)
    + fb_locked boot
    + tables (boot.framebuffer.base_address / 4096) (fb_pages boot)

-- The paging is set up: the pages of the memory and of the frame buffer are mapped to themselves, and
-- no others are mapped.
pub record IsPaged (boot : BootInfo) (s : Kernel) : Type 0 where
  pub root : ℕ
  pub after : Kernel
  pub done : set_up_paging boot s ≡ some (root * 4096, after)
  pub walks :
      (v : ℕ)
      → walk after.memory root v ≡ (
          let first = boot.framebuffer.base_address / 4096 in
          if ltb (page_of v) (memory_pages s)
            || (leb first (page_of v) && ltb (page_of v) (first + fb_pages boot))
          then some (page_of v)
          else none)

module _ (boot : BootInfo) (s : Kernel) (stride : boot.mmap_desc_size ≢ 0)
    (known : 0 < s.mem_info.mem_size_bytes) (size : s.mem_info.mem_size_bytes ≤ 2 ^ 48)
    (fits : boot.framebuffer.base_address + boot.framebuffer.buffer_size + 8192 ≤ 2 ^ 48)
    (bitmap : HasBitmapTaken s) (small : s.mem_info.mem_bit_map.size ≤ 2 ^ 49)
    (enough : frames_needed boot s ≤ free_frames s) where
  pub fresh : Fresh s (request_page s)
  fresh = request_page-Fresh s small (omega arith)

  abbrev pub base : ℕ
  base = boot.framebuffer.base_address

  abbrev pub begun : Kernel
  begun = cleared s bitmap fresh

  -- After the first loop.
  abbrev pub mapped : Kernel
  mapped = map_range fresh.k 0 (memory_pages s) begun

  mapped-IsRange : IsRange begun fresh.k 0 (memory_pages s) mapped
  mapped-IsRange =
      map_range-IsRange begun fresh.k 0 (memory_pages s) (omega arith) (root_place s bitmap fresh)
        (root-IsTree s bitmap fresh small) (omega (arith, root_cost s bitmap fresh))

  abbrev pub locked : Kernel
  locked = lock_pages mapped base (fb_locked boot)

  abbrev pub last : Kernel
  last = map_range fresh.k base (fb_pages boot) locked

  pub last-IsRange : IsRange locked fresh.k base (fb_pages boot) last
  last-IsRange =
      map_range-IsRange locked fresh.k base (fb_pages boot) (omega arith) mapped-IsRange.place
        (kept-IsTree mapped locked fresh.k mapped-IsRange.place mapped-IsRange.tree
          (lock_pages-Keeps mapped base (fb_locked boot)))
        (omega (
          arith,
          root_cost s bitmap fresh,
          mapped-IsRange.cost,
          free_frames-lock_pages mapped base (fb_locked boot) (omega arith),
        ))

  -- The frames that are left.
  pub left_over : free_frames s ≤ free_frames last + frames_needed boot s
  left_over = omega (
    arith,
    root_cost s bitmap fresh,
    mapped-IsRange.cost,
    free_frames-lock_pages mapped base (fb_locked boot) (omega arith),
    last-IsRange.cost,
  )

  nothing_yet : (v : ℕ) → walk begun.memory fresh.k v ≡ none
  nothing_yet v =
      walk-empty begun fresh.k v (λ i h. link-zeroed (request_page s).1.memory fresh.k i h)

  pub runs : set_up_paging boot s ≡ some (fresh.k * 4096, last)
  unfolding set_up_paging
  runs =
      let same_size = (request_page-Keeps s).size in
      let fb : add64 boot.framebuffer.buffer_size 0x1000 ≡ boot.framebuffer.buffer_size + 4096 =
        omega arith in
      let end : add64 base (boot.framebuffer.buffer_size + 4096)
          ≡ base + (boot.framebuffer.buffer_size + 4096) =
        omega arith in
      let first =
        map_memory_from_lem boot fresh.k s.mem_info.mem_size_bytes stride known size all_rounds
          begun same_size (omega arith) in
      let second =
        map_framebuffer_from_lem fresh.k base (boot.framebuffer.buffer_size + 4096) (omega arith)
          all_rounds locked (omega arith) in
      rw (set_up_paging, fresh.address, fb, end, first, second) refl

  pub last_walks :
      (v : ℕ)
      → walk last.memory fresh.k v ≡ (
          if ltb (page_of v) (memory_pages s)
            || (leb (base / 4096) (page_of v) && ltb (page_of v) (base / 4096 + fb_pages boot))
          then some (page_of v)
          else none)
  last_walks v =
      let kept =
        walk-Keeps mapped locked fresh.k mapped-IsRange.place mapped-IsRange.tree
          (lock_pages-Keeps mapped base (fb_locked boot)) v in
      ground (arith, last-IsRange.walks v, kept, mapped-IsRange.walks v, nothing_yet v)

  -- Where the entries of the memory map have a size other than 0, the size of the memory is known and
  -- at most 2^48, the frame buffer ends at least two pages below that address, the bitmap has at most
  -- 2^49 bytes and lies in taken frames, and frames enough are free for the tables and the locked
  -- pages, the two loops of `kmain` end, and its page tables map each page of the memory, and each of
  -- the frame buffer with the page behind it, to itself, and nothing else.
  pub set_up_paging-IsPaged : IsPaged boot s
  set_up_paging-IsPaged = record { root = fresh.k; after = last; done = runs; walks = last_walks }
