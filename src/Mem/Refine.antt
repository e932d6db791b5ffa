-- ===== src/Mem/Refine.antt =====
-- The page operations over the bitmap do what Mem/Spec.antt promises.
use bbn_os.Base.{ℕ, ◌/◌, ◌≤◌, ◌<◌, ◌≡◌, Bool, true, false, arith}
use bbn_os.Base.{◌==◌, if◌then◌else◌}
use bbn_os.Bitmap.{get_val, set_val}
use bbn_os.Bitmap.Laws.{get_val-set_val, set_val-ok, set_val-outside}
use bbn_os.Mem.State.{Kernel}
use bbn_os.Mem.Pages.{frame, reserve_page, lock_page, free_page}
use bbn_os.Mem.Spec
use bbn_os.Mem.Spec.{Frames, PageOp, reserve, free, lock, request}
use bbn_os.Mem.View.{frames, limit, Frames-ext}

module _ (s : Kernel) (addr : ℕ) where
  -- `set_val` at this frame, in both of its cases.
  read :
      (v : Bool) (j : ℕ)
      → addr / 4096 / 8 ≤ s.mem_info.mem_bit_map.size
      → get_val (set_val s.memory s.mem_info.mem_bit_map (addr / 4096) v).1 s.mem_info.mem_bit_map j
        ≡ (if j == addr / 4096 then v else frame s j)
  read v j h = get_val-set_val s.memory s.mem_info.mem_bit_map (addr / 4096) v j h

  outcome :
      (v : Bool)
      → (addr / 4096 / 8 ≤ s.mem_info.mem_bit_map.size
          → (set_val s.memory s.mem_info.mem_bit_map (addr / 4096) v).0 ≡ true)
        × (s.mem_info.mem_bit_map.size < addr / 4096 / 8
            → set_val s.memory s.mem_info.mem_bit_map (addr / 4096) v ≡ (false, s.memory))
  outcome v = (
    set_val-ok s.memory s.mem_info.mem_bit_map (addr / 4096) v,
    set_val-outside s.memory s.mem_info.mem_bit_map (addr / 4096) v,
  )

  frame-lock_page :
      (j : ℕ)
      → frame (lock_page s addr) j ≡ (Spec.lock_frame (limit s) (addr / 4096) (frames s)).taken j
  unfolding lock_page Spec.lock_frame
  frame-lock_page j = ground (arith, read true j, outcome true)

  pub lock_page-frames :
      frames (lock_page s addr) ≡ Spec.lock_frame (limit s) (addr / 4096) (frames s)
  unfolding lock_page Spec.lock_frame
  lock_page-frames =
      Frames-ext frame-lock_page (ground (arith, outcome true)) (ground (arith, outcome true))
        (ground (arith, outcome true))

  frame-reserve_page :
      (j : ℕ)
      → frame (reserve_page s addr) j
        ≡ (Spec.reserve_frame (limit s) (addr / 4096) (frames s)).taken j
  unfolding reserve_page Spec.reserve_frame
  frame-reserve_page j = ground (arith, read true j, outcome true)

  pub reserve_page-frames :
      frames (reserve_page s addr) ≡ Spec.reserve_frame (limit s) (addr / 4096) (frames s)
  unfolding reserve_page Spec.reserve_frame
  reserve_page-frames =
      Frames-ext frame-reserve_page (ground (arith, outcome true)) (ground (arith, outcome true))
        (ground (arith, outcome true))

  -- A taken frame is inside the map.
  taken-lt-limit : frame s (addr / 4096) ≡ true → addr / 4096 / 8 ≤ s.mem_info.mem_bit_map.size
  unfolding get_val
  taken-lt-limit h = ground arith

  frame-free_page :
      (j : ℕ)
      → frame (free_page s addr) j ≡ (Spec.free_frame (limit s) (addr / 4096) (frames s)).taken j
  unfolding free_page Spec.free_frame
  frame-free_page j = ground (arith, read false j, outcome false, taken-lt-limit)

  pub free_page-frames :
      frames (free_page s addr) ≡ Spec.free_frame (limit s) (addr / 4096) (frames s)
  unfolding free_page Spec.free_frame
  free_page-frames =
      Frames-ext frame-free_page (ground (arith, outcome false, taken-lt-limit))
        (ground (arith, outcome false, taken-lt-limit))
        (ground (arith, outcome false, taken-lt-limit))

  -- No page operation moves the bitmap.
  pub bit_map-lock_page : (lock_page s addr).mem_info.mem_bit_map ≡ s.mem_info.mem_bit_map
  unfolding lock_page
  bit_map-lock_page = ground arith

  pub bit_map-reserve_page : (reserve_page s addr).mem_info.mem_bit_map ≡ s.mem_info.mem_bit_map
  unfolding reserve_page
  bit_map-reserve_page = ground arith

  pub bit_map-free_page : (free_page s addr).mem_info.mem_bit_map ≡ s.mem_info.mem_bit_map
  unfolding free_page
  bit_map-free_page = ground arith
