-- ===== src/Paging/Root.antt =====
-- A new table of the highest level, as the kernel makes it: a page from `requestPage`, cleared.
use bbn_os.Base.{
  ℕ, ◌+◌, ◌*◌, ◌/◌, ◌^◌, ◌≤◌, ◌≡◌, sym, ap, ◌∙◌, true, Option, none, some, List, [], arith, ◌==◌,
  if◌then◌else◌, mul64,
}
use bbn_os.Memory.{memset, load8-memset}
use bbn_os.Mem.State.{Kernel}
use bbn_os.Mem.Pages.{frame, request_page}
use bbn_os.Mem.Free.{free_frames, free_frames-take, Fresh, request_page-Keeps}
use bbn_os.Paging.Entry.{link, link-zeroed}
use bbn_os.Paging.Walk.{IsTree, HasBitmapTaken}
use bbn_os.Paging.Fresh.{frame-kept, new_page-IsApart}

module _ (s : Kernel) (bitmap : HasBitmapTaken s) (fresh : Fresh s (request_page s)) where
  abbrev pub cleared : Kernel
  cleared =
      let t = (request_page s).1 in record t { memory = memset t.memory (fresh.k * 4096) 0 4096 }

  frame-cleared : (j : ℕ) → frame cleared j ≡ (if j == fresh.k then true else frame s j)
  frame-cleared j =
      let t = (request_page s).1 in
      let same_map = (request_page-Keeps s).bit_map in
      frame-kept t cleared.memory j (λ a lo hi.
        let inside = rw same_map at lo in
        let inside' = rw same_map at hi in
        grind (
          arith,
          load8-memset t.memory (fresh.k * 4096) 0 4096 a,
          new_page-IsApart s bitmap fresh a,
        ))
      ∙ fresh.now_taken j

  pub root_place : ℕ → Option (List ℕ)
  root_place h = if h == fresh.k then some [] else none

  root_only : (h : ℕ) (q : List ℕ) → root_place h ≡ some q → h ≡ fresh.k
  unfolding root_place
  root_only h q e = ground arith

  pub root-IsTree : s.mem_info.mem_bit_map.size ≤ 2 ^ 49 → IsTree cleared fresh.k root_place
  unfolding root_place
  root-IsTree small =
      let same_map = (request_page-Keeps s).bit_map in
      record {
        root_place = ground arith;
        taken = λ h q e. frame-cleared h ∙ ground (arith, root_only h q e);
        apart = λ h q e. rw (same_map, root_only h q e) (new_page-IsApart s bitmap fresh);
        child = λ h j g q e low lt l.
            let t = (request_page s).1 in
            let empty = link-zeroed t.memory fresh.k j lt in
            let absurd_link : none ≡ some g =
              sym empty ∙ ap (λ x. link cleared.memory x j) (sym (root_only h q e)) ∙ l in
            cc;
        bitmap_taken = λ a lo hi.
            frame-cleared (a / 4096)
            ∙ ground (arith, bitmap a (rw same_map at lo) (rw same_map at hi));
        size = rw same_map small;
      }

  pub root_cost : free_frames s ≡ free_frames cleared + 1
  root_cost =
      free_frames-take s cleared fresh.k (ap (λ bm. mul64 bm.size 8) (request_page-Keeps s).bit_map)
        fresh.inside fresh.free frame-cleared
