-- ===== src/Mem/Keeps.antt =====
-- What reserving and locking pages leaves alone.
use bbn_os.Base.{ℕ, ◌+◌, ◌/◌, ◌<◌, ◌≡◌, ◌⊎◌, refl, ◌∙◌, ap, true, arith}
use bbn_os.Base.Loop.{count_up_inv}
use bbn_os.Memory.{load8}
use bbn_os.Bitmap.{set_val}
use bbn_os.Bitmap.Laws.{set_val-frame, set_val-outside}
use bbn_os.Mem.State.{Kernel}
use bbn_os.Mem.Pages.{frame, reserve_page, reserve_pages, lock_page, lock_pages, page_at}
use bbn_os.Mem.View.{frames, limit}
use bbn_os.Mem.Spec
use bbn_os.Mem.Spec.{Frames}
use bbn_os.Mem.Refine.{
  reserve_page-frames, bit_map-reserve_page, lock_page-frames, bit_map-lock_page,
}
use bbn_os.Mem.Account.{total}

-- What reserving pages keeps: the place of the bitmap, the taken frames, the sum of the counters,
-- and every byte outside the bitmap (whose test lets the byte at index `size` through).
pub record Keeps (s t : Kernel) : Type 0 where
  pub bit_map : t.mem_info.mem_bit_map ≡ s.mem_info.mem_bit_map
  pub taken : (j : ℕ) → frame s j ≡ true → frame t j ≡ true
  pub sum : total (frames t) ≡ total (frames s)
  pub bytes :
      (a : ℕ)
      → (a < s.mem_info.mem_bit_map.buffer)
        ⊎ (s.mem_info.mem_bit_map.buffer + s.mem_info.mem_bit_map.size < a)
      → load8 t.memory a ≡ load8 s.memory a
  pub size : t.mem_info.mem_size_bytes ≡ s.mem_info.mem_size_bytes
  pub initialized : t.initialized ≡ s.initialized

pub Keeps-refl : (s : Kernel) → Keeps s s
Keeps-refl s = record {
  bit_map = refl;
  taken = λ j h. h;
  sum = refl;
  bytes = λ a h. refl;
  size = refl;
  initialized = refl;
}

pub Keeps-trans : {s t u : Kernel} → Keeps s t → Keeps t u → Keeps s u
Keeps-trans {s} {t} {u} k l = record {
  bit_map = l.bit_map ∙ k.bit_map;
  taken = λ j h. l.taken j (k.taken j h);
  sum = l.sum ∙ k.sum;
  bytes = λ a h. l.bytes a (rw k.bit_map h) ∙ k.bytes a h;
  size = l.size ∙ k.size;
  initialized = l.initialized ∙ k.initialized;
}

module _ (s : Kernel) (addr a : ℕ) where
  outside_bytes :
      (a < s.mem_info.mem_bit_map.buffer)
        ⊎ (s.mem_info.mem_bit_map.buffer + s.mem_info.mem_bit_map.size < a)
      → load8 (set_val s.memory s.mem_info.mem_bit_map (addr / 4096) true).1 a ≡ load8 s.memory a
  outside_bytes h = ground (
    arith,
    set_val-frame s.memory s.mem_info.mem_bit_map (addr / 4096) true a,
    set_val-outside s.memory s.mem_info.mem_bit_map (addr / 4096) true,
  )

  reserve_page-bytes :
      (a < s.mem_info.mem_bit_map.buffer)
        ⊎ (s.mem_info.mem_bit_map.buffer + s.mem_info.mem_bit_map.size < a)
      → load8 (reserve_page s addr).memory a ≡ load8 s.memory a
  unfolding reserve_page
  reserve_page-bytes h = ground (arith, outside_bytes h)

  lock_page-bytes :
      (a < s.mem_info.mem_bit_map.buffer)
        ⊎ (s.mem_info.mem_bit_map.buffer + s.mem_info.mem_bit_map.size < a)
      → load8 (lock_page s addr).memory a ≡ load8 s.memory a
  unfolding lock_page
  lock_page-bytes h = ground (arith, outside_bytes h)

reserve_frame-keeps :
    (n i : ℕ) (f : Frames)
    → (total (Spec.reserve_frame n i f) ≡ total f)
      × ((j : ℕ) → f.taken j ≡ true → (Spec.reserve_frame n i f).taken j ≡ true)
unfolding Spec.reserve_frame
reserve_frame-keeps n i f = (ground arith, λ j h. ground arith)

lock_frame-keeps :
    (n i : ℕ) (f : Frames)
    → (total (Spec.lock_frame n i f) ≡ total f)
      × ((j : ℕ) → f.taken j ≡ true → (Spec.lock_frame n i f).taken j ≡ true)
unfolding Spec.lock_frame
lock_frame-keeps n i f = (ground arith, λ j h. ground arith)

module _ (s : Kernel) (addr : ℕ) where
  page-rest :
      ((reserve_page s addr).mem_info.mem_size_bytes ≡ s.mem_info.mem_size_bytes)
      × ((reserve_page s addr).initialized ≡ s.initialized)
      × ((lock_page s addr).mem_info.mem_size_bytes ≡ s.mem_info.mem_size_bytes)
      × ((lock_page s addr).initialized ≡ s.initialized)
  unfolding reserve_page lock_page
  page-rest = ground arith

  reserve_page-Keeps : Keeps s (reserve_page s addr)
  reserve_page-Keeps =
      let k = reserve_frame-keeps (limit s) (addr / 4096) (frames s) in
      let e = reserve_page-frames s addr in
      record {
        bit_map = bit_map-reserve_page s addr;
        taken = λ j h. ap (λ (f : Frames). f.taken j) e ∙ k.1 j h;
        sum = ap total e ∙ k.0;
        bytes = λ a h. reserve_page-bytes s addr a h;
        size = page-rest.0;
        initialized = page-rest.1;
      }

  pub lock_page-Keeps : Keeps s (lock_page s addr)
  lock_page-Keeps =
      let k = lock_frame-keeps (limit s) (addr / 4096) (frames s) in
      let e = lock_page-frames s addr in
      record {
        bit_map = bit_map-lock_page s addr;
        taken = λ j h. ap (λ (f : Frames). f.taken j) e ∙ k.1 j h;
        sum = ap total e ∙ k.0;
        bytes = λ a h. lock_page-bytes s addr a h;
        size = page-rest.2;
        initialized = page-rest.3;
      }

pub reserve_pages-Keeps : (s : Kernel) (addr n : ℕ) → Keeps s (reserve_pages s addr n)
unfolding reserve_pages
reserve_pages-Keeps s addr n =
    count_up_inv (λ _ t. Keeps s t) _ n 0 n s (omega arith)
      (λ k t _ h. Keeps-trans h (reserve_page-Keeps t (page_at addr k))) (Keeps-refl s)

pub lock_pages-Keeps : (s : Kernel) (addr n : ℕ) → Keeps s (lock_pages s addr n)
unfolding lock_pages
lock_pages-Keeps s addr n =
    count_up_inv (λ _ t. Keeps s t) _ n 0 n s (omega arith)
      (λ k t _ h. Keeps-trans h (lock_page-Keeps t (page_at addr k))) (Keeps-refl s)
