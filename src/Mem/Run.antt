-- ===== src/Mem/Run.antt =====
-- Every sequence of calls of mem.c refines the specification.
use bbn_os.Base.{ℕ, zero, suc, ◌+◌, ◌*◌, ◌/◌, ◌≡◌, refl, ◌∙◌, ap, Option, none, some, List, [], ◌∷◌}
use bbn_os.Base.{Bool-cases, inl, inr, mul64}
use mathlib.Core.Path.{ap₂}
use bbn_os.Base.Loop.{count_up_sim}
use bbn_os.Bitmap.{BitMap}
use bbn_os.Mem.State.{Kernel}
use bbn_os.Mem.Pages.{frame, reserve_page, lock_page, free_page, page_at}
use bbn_os.Mem.Pages.{reserve_pages, lock_pages, free_pages, request_from, request_page}
use bbn_os.Mem.Spec
use bbn_os.Mem.Spec.{Frames, PageOp, reserve, free, lock, request, first_free}
use bbn_os.Mem.View.{frames, limit, pages, call, run}
use bbn_os.Mem.Refine.{lock_page-frames, reserve_page-frames, free_page-frames}
use bbn_os.Mem.Refine.{bit_map-lock_page, bit_map-reserve_page, bit_map-free_page}

-- A state that stands for the frames `f`, over the bitmap `bm`.
abbrev pub Shows : BitMap → Kernel → Frames → Type 0
Shows bm s f = (frames s ≡ f) × (s.mem_info.mem_bit_map ≡ bm)

abbrev cap : BitMap → ℕ
cap bm = 8 * bm.size + 8

module _ (bm : BitMap) where
  lock_page-Shows :
      (addr : ℕ) (s : Kernel) (f : Frames)
      → Shows bm s f
      → Shows bm (lock_page s addr) (Spec.lock_frame (cap bm) (addr / 4096) f)
  lock_page-Shows addr s f (p, q) =
      (rw (← p, ← q) (lock_page-frames s addr), bit_map-lock_page s addr ∙ q)

  reserve_page-Shows :
      (addr : ℕ) (s : Kernel) (f : Frames)
      → Shows bm s f
      → Shows bm (reserve_page s addr) (Spec.reserve_frame (cap bm) (addr / 4096) f)
  reserve_page-Shows addr s f (p, q) =
      (rw (← p, ← q) (reserve_page-frames s addr), bit_map-reserve_page s addr ∙ q)

  free_page-Shows :
      (addr : ℕ) (s : Kernel) (f : Frames)
      → Shows bm s f
      → Shows bm (free_page s addr) (Spec.free_frame (cap bm) (addr / 4096) f)
  free_page-Shows addr s f (p, q) =
      (rw (← p, ← q) (free_page-frames s addr), bit_map-free_page s addr ∙ q)

-- What `requestPage` does once the search is over.
abbrev pub grant_page : Option ℕ → Kernel → ℕ × Kernel
grant_page none s = (0, s)
grant_page (some i) s = (mul64 i 4096, lock_page s (mul64 i 4096))

-- The search of `requestPage` finds the first free frame, and locks it.
pub request_from-first_free :
    (n i : ℕ) (s : Kernel) → request_from n i s ≡ grant_page (first_free (frame s) n i) s
unfolding request_from first_free
request_from-first_free zero i s = refl
request_from-first_free (suc n) i s = elim (Bool-cases (frame s i)) [
  | inl taken ↦ rw taken (request_from-first_free n (i + 1) s)
  | inr open_ ↦ rw open_ refl
]

-- `requestPage` as a search over all the frames of the map.
pub request_page-first_free :
    (s : Kernel) → request_page s ≡ grant_page (first_free (frame s) (pages s) 0) s
unfolding request_page
request_page-first_free s = request_from-first_free (pages s) 0 s

module _ (bm : BitMap) where
  grant_page-Shows :
      (o : Option ℕ) (s : Kernel) (f : Frames)
      → Shows bm s f
      → ((grant_page o s).0 ≡ (Spec.grant (cap bm) o f).0)
        × Shows bm (grant_page o s).1 (Spec.grant (cap bm) o f).1
  unfolding Spec.grant
  grant_page-Shows none s f h = (refl, h)
  grant_page-Shows (some i) s f h =
      let (p, q) = lock_page-Shows bm (mul64 i 4096) s f h in (refl, (p, q))

module _ (bm : BitMap) where
  request_page-Shows :
      (s : Kernel) (f : Frames)
      → Shows bm s f
      → ((request_page s).0 ≡ (Spec.request_frame (cap bm) (mul64 bm.size 8) f).0)
        × Shows bm (request_page s).1 (Spec.request_frame (cap bm) (mul64 bm.size 8) f).1
  unfolding Spec.request_frame
  request_page-Shows s f (p, q) =
      rw (request_page-first_free s, ← q, ← p)
        (grant_page-Shows s.mem_info.mem_bit_map (first_free (frame s) (pages s) 0) s (frames s)
          (refl, refl))

  pub call-Shows :
      (op : PageOp) (s : Kernel) (f : Frames)
      → Shows bm s f
      → let spec = Spec.step (cap bm) (mul64 bm.size 8) op f in
        ((call op s).0 ≡ spec.0) × Shows bm (call op s).1 spec.1
  unfolding call Spec.step reserve_pages free_pages lock_pages
  call-Shows (reserve addr num) s f h =
      (refl, count_up_sim (Shows bm) _ _ num 0 s f (λ k. reserve_page-Shows bm (page_at addr k)) h)
  call-Shows (free addr num) s f h =
      (refl, count_up_sim (Shows bm) _ _ num 0 s f (λ k. free_page-Shows bm (page_at addr k)) h)
  call-Shows (lock addr num) s f h =
      (refl, count_up_sim (Shows bm) _ _ num 0 s f (λ k. lock_page-Shows bm (page_at addr k)) h)
  call-Shows request s f h = let r = request_page-Shows s f h in (ap some r.0, r.1)

  pub run-Shows :
      (ops : List PageOp) (s : Kernel) (f : Frames)
      → Shows bm s f
      → let spec = Spec.run (cap bm) (mul64 bm.size 8) ops f in
        ((run ops s).0 ≡ spec.0) × Shows bm (run ops s).1 spec.1
  unfolding run Spec.run
  run-Shows [] s f h = (refl, h)
  run-Shows (op ∷ ops) s f h =
      let (reply, shown) = call-Shows op s f h in
      let (replies, rest) = run-Shows ops (call op s).1 _ shown in (ap₂ ◌∷◌ reply replies, rest)

-- For every sequence of calls, the addresses that they return, and the bitmap and the counters
-- that they leave, are those of the specification.
pub run_refines :
    (ops : List PageOp) (s : Kernel)
    → let spec = Spec.run (limit s) (pages s) ops (frames s) in
      ((run ops s).0 ≡ spec.0) × (frames (run ops s).1 ≡ spec.1)
run_refines ops s =
    let r = run-Shows s.mem_info.mem_bit_map ops s (frames s) (refl, refl) in (r.0, r.1.0)
