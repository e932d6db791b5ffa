-- ===== src/Paging/Fresh.antt =====
-- A page fresh from `requestPage`: it is no page in use, and it is apart from the bitmap.
use bbn_os.Base.{ℕ, ◌+◌, ◌/◌, ◌≤◌, ◌≡◌, ◌≢◌, inl, inr, true, ◌&&◌, arith, leb, Bool-cases}
use bbn_os.Memory.{Memory, load8}
use bbn_os.Bitmap.{get_val}
use bbn_os.Mem.State.{Kernel}
use bbn_os.Mem.Pages.{frame, request_page}
use bbn_os.Mem.Free.{Fresh}
use bbn_os.Paging.Walk.{IsApart, HasBitmapTaken}

-- The bits of the bitmap are those of its bytes.
pub frame-kept :
    (s : Kernel) (m : Memory) (j : ℕ)
    → ((a : ℕ)
        → s.mem_info.mem_bit_map.buffer ≤ a
        → a ≤ s.mem_info.mem_bit_map.buffer + s.mem_info.mem_bit_map.size
        → load8 m a ≡ load8 s.memory a)
    → frame (record s { memory = m }) j ≡ frame s j
unfolding get_val
frame-kept s m j same = ground (arith, same (s.mem_info.mem_bit_map.buffer + j / 8))

module _ (s : Kernel) where
  pub ne_new_page : (fresh : Fresh s (request_page s)) (h : ℕ) → frame s h ≡ true → fresh.k ≢ h
  ne_new_page fresh h taken e = let free = fresh.free in cc

  pub new_page-IsApart :
      HasBitmapTaken s → (fresh : Fresh s (request_page s)) → IsApart s.mem_info.mem_bit_map fresh.k
  new_page-IsApart bitmap fresh a lo hi =
      let bm = s.mem_info.mem_bit_map in
      elim (Bool-cases (leb bm.buffer a && leb a (bm.buffer + bm.size))) [
        | inl inside ↦
            absurd
              (ne_new_page fresh (a / 4096) (bitmap a (ground arith) (ground arith)) (omega arith))
        | inr outside ↦ grind arith
      ]
