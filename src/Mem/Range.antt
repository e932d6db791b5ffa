-- ===== src/Mem/Range.antt =====
-- `lockPages`, `freePages` and `ReservePages` over a range of pages.
use bbn_os.Base.{
  ℕ, ◌+◌, ◌*◌, ◌/◌, ◌%◌, ◌^◌, ◌≤◌, ◌<◌, ◌≡◌, refl, ◌∙◌, ap, Bool, true, false, ◌&&◌, arith,
}
use bbn_os.Base.{leb, ltb, ltb_lt, if◌then◌else◌, mul64, add64}
use bbn_os.Base.Loop.{count_up_inv}
use mathlib.Core.Path.{ap₂}
use bbn_os.Bitmap.{BitMap}
use bbn_os.Mem.State.{Kernel, get_free_mem_size, get_used_mem_size}
use bbn_os.Mem.Pages.{frame, lock_pages, free_pages, reserve_pages}
use bbn_os.Mem.Spec
use bbn_os.Mem.Spec.{Frames, reserve, free, lock}
use bbn_os.Mem.View.{frames, limit, pages, call, Frames-ext}
use bbn_os.Mem.Run.{call-Shows}

-- Frame `j` is one of the `n` frames from `a` on.
abbrev pub in_range : ℕ → ℕ → ℕ → Bool
in_range a n j = leb a j && ltb j (a + n)

-- The counters of a number are those of a C `uint64_t`.
abbrev pub IsWord : ℕ → Type 0
IsWord n = n < 2 ^ 64

pub page_index :
    (addr n k : ℕ)
    → addr + n * 4096 ≤ 2 ^ 64
    → k < n
    → add64 addr (mul64 k 4096) / 4096 ≡ addr / 4096 + k
page_index addr n k fits lt = omega arith

-- Locking a free range moves `n` pages from the free memory to the used memory.
pub record Locked (lim addr : ℕ) (f : Frames) (k : ℕ) (g : Frames) : Type 0 where
  pub taken :
      (j : ℕ) → g.taken j ≡ (if in_range (addr / 4096) k j && ltb j lim then true else f.taken j)
  pub free : (g.free + 4096 * k) % 2 ^ 64 ≡ f.free % 2 ^ 64
  pub used : g.used % 2 ^ 64 ≡ (f.used + 4096 * k) % 2 ^ 64
  pub reserved : g.reserved ≡ f.reserved
  pub words : IsWord f.free × IsWord f.used → IsWord g.free × IsWord g.used

-- Freeing a taken range moves them back.
record Freed (lim addr : ℕ) (f : Frames) (k : ℕ) (g : Frames) : Type 0 where
  taken :
      (j : ℕ) → g.taken j ≡ (if in_range (addr / 4096) k j && ltb j lim then false else f.taken j)
  free : g.free % 2 ^ 64 ≡ (f.free + 4096 * k) % 2 ^ 64
  used : (g.used + 4096 * k) % 2 ^ 64 ≡ f.used % 2 ^ 64
  reserved : g.reserved ≡ f.reserved
  words : IsWord f.free × IsWord f.used → IsWord g.free × IsWord g.used

module _ (lim : ℕ) (addr n : ℕ) (fits : addr + n * 4096 ≤ 2 ^ 64) (f : Frames) where
  -- Locking and reserving take the frames of the range that the map can record.
  lock-taken :
      (j : ℕ) (p : ℕ)
      → (Spec.step lim p (lock addr n) f).1.taken j
        ≡ (if in_range (addr / 4096) n j && ltb j lim then true else f.taken j)
  unfolding Spec.step
  lock-taken j p =
      count_up_inv
        (λ k g. g.taken j ≡ (if in_range (addr / 4096) k j && ltb j lim then true else f.taken j)) _
        n 0 n f (omega arith) (λ k g lt h. rw (page_index addr n k fits lt) (ground arith))
        (ground arith)

  reserve-taken :
      (j : ℕ) (p : ℕ)
      → (Spec.step lim p (reserve addr n) f).1.taken j
        ≡ (if in_range (addr / 4096) n j && ltb j lim then true else f.taken j)
  unfolding Spec.step
  reserve-taken j p =
      count_up_inv
        (λ k g. g.taken j ≡ (if in_range (addr / 4096) k j && ltb j lim then true else f.taken j)) _
        n 0 n f (omega arith) (λ k g lt h. rw (page_index addr n k fits lt) (ground arith))
        (ground arith)

  -- Freeing gives them back.
  free-taken :
      (j : ℕ) (p : ℕ)
      → (Spec.step lim p (free addr n) f).1.taken j
        ≡ (if in_range (addr / 4096) n j && ltb j lim then false else f.taken j)
  unfolding Spec.step
  free-taken j p =
      count_up_inv
        (λ k g. g.taken j ≡ (if in_range (addr / 4096) k j && ltb j lim then false else f.taken j))
        _ n 0 n f (omega arith) (λ k g lt h. rw (page_index addr n k fits lt) (ground arith))
        (ground arith)

  lock-Locked :
      (p : ℕ)
      → addr / 4096 + n ≤ lim
      → ((j : ℕ) → in_range (addr / 4096) n j ≡ true → f.taken j ≡ false)
      → Locked lim addr f n (Spec.step lim p (lock addr n) f).1
  unfolding Spec.step Spec.lock_frame
  lock-Locked p inside open_ =
      count_up_inv (λ k g. Locked lim addr f k g) _ n 0 n f (omega arith)
        (λ k g lt h.
          let clear : g.taken (addr / 4096 + k) ≡ false =
            ground (arith, h.taken (addr / 4096 + k), open_ (addr / 4096 + k)) in
          rw (page_index addr n k fits lt, clear, ltb_lt (addr / 4096 + k) lim (omega arith))
            (record {
              taken = λ j. ground (arith, h.taken j);
              free = omega (arith, h.free);
              used = omega (arith, h.used);
              reserved = h.reserved;
              words = λ w. let v = h.words w in omega arith;
            }))
        (record {
          taken = λ j. ground arith;
          free = omega arith;
          used = omega arith;
          reserved = refl;
          words = λ w. w;
        })

  free-Freed :
      (p : ℕ)
      → addr / 4096 + n ≤ lim
      → ((j : ℕ) → in_range (addr / 4096) n j ≡ true → f.taken j ≡ true)
      → Freed lim addr f n (Spec.step lim p (free addr n) f).1
  unfolding Spec.step Spec.free_frame
  free-Freed p inside all =
      count_up_inv (λ k g. Freed lim addr f k g) _ n 0 n f (omega arith)
        (λ k g lt h.
          let set : g.taken (addr / 4096 + k) ≡ true =
            ground (arith, h.taken (addr / 4096 + k), all (addr / 4096 + k)) in
          rw (page_index addr n k fits lt, set, ltb_lt (addr / 4096 + k) lim (omega arith))
            (record {
              taken = λ j. ground (arith, h.taken j);
              free = omega (arith, h.free);
              used = omega (arith, h.used);
              reserved = h.reserved;
              words = λ w. let v = h.words w in omega arith;
            }))
        (record {
          taken = λ j. ground arith;
          free = omega arith;
          used = omega arith;
          reserved = refl;
          words = λ w. w;
        })

module _ (s : Kernel) (addr n : ℕ) where
  lock_pages-step :
      frames (lock_pages s addr n) ≡ (Spec.step (limit s) (pages s) (lock addr n) (frames s)).1
  lock_pages-step = unfold call in (call-Shows _ (lock addr n) s (frames s) (refl, refl)).1.0

  pub lock_pages-bit_map : (lock_pages s addr n).mem_info.mem_bit_map ≡ s.mem_info.mem_bit_map
  lock_pages-bit_map = unfold call in (call-Shows _ (lock addr n) s (frames s) (refl, refl)).1.1

  reserve_pages-step :
      frames (reserve_pages s addr n)
      ≡ (Spec.step (limit s) (pages s) (reserve addr n) (frames s)).1
  reserve_pages-step = unfold call in (call-Shows _ (reserve addr n) s (frames s) (refl, refl)).1.0

  free_pages-step :
      frames (free_pages s addr n) ≡ (Spec.step (limit s) (pages s) (free addr n) (frames s)).1
  free_pages-step = unfold call in (call-Shows _ (free addr n) s (frames s) (refl, refl)).1.0

-- The three range operations set exactly the frames of their range that the map can record: to
-- taken by `lockPages` and `ReservePages`, to free by `freePages`; for a range that does not pass
-- the end of the address space.
pub frame-pages :
    (s : Kernel) (addr n : ℕ)
    → addr + n * 4096 ≤ 2 ^ 64
    → (j : ℕ)
    → let hit = in_range (addr / 4096) n j && ltb j (limit s) in
      (frame (lock_pages s addr n) j ≡ (if hit then true else frame s j))
      × (frame (reserve_pages s addr n) j ≡ (if hit then true else frame s j))
      × (frame (free_pages s addr n) j ≡ (if hit then false else frame s j))
frame-pages s addr n fits j =
    let at = λ (f : Frames). f.taken j in
    (
      ap at (lock_pages-step s addr n) ∙ lock-taken (limit s) addr n fits (frames s) j (pages s),
      ap at (reserve_pages-step s addr n)
          ∙ reserve-taken (limit s) addr n fits (frames s) j (pages s),
      ap at (free_pages-step s addr n) ∙ free-taken (limit s) addr n fits (frames s) j (pages s),
    )

-- What `freePages` leaves after `lockPages` on the same range.
relock :
    (lim p addr n : ℕ) (f : Frames)
    → addr + n * 4096 ≤ 2 ^ 64
    → addr / 4096 + n ≤ lim
    → IsWord f.free × IsWord f.used
    → ((j : ℕ) → in_range (addr / 4096) n j ≡ true → f.taken j ≡ false)
    → (Spec.step lim p (free addr n) (Spec.step lim p (lock addr n) f).1).1 ≡ f
relock lim p addr n f fits inside words open_ =
    let l = lock-Locked lim addr n fits f p inside open_ in
    let r =
      free-Freed lim addr n fits (Spec.step lim p (lock addr n) f).1 p inside
        (λ j h. ground (arith, l.taken j)) in
    let w = r.words (l.words words) in
    Frames-ext (λ j. ground (arith, r.taken j, l.taken j, open_ j)) (omega arith) (omega arith)
      (omega arith)

-- `freePages` undoes `lockPages` on a range of free frames inside the map: the frames and the
-- three counters are what they were.
pub free_pages-lock_pages :
    (s : Kernel) (addr n : ℕ)
    → addr + n * 4096 ≤ 2 ^ 64
    → addr / 4096 + n ≤ limit s
    → IsWord (get_free_mem_size s) × IsWord (get_used_mem_size s)
    → ((j : ℕ) → in_range (addr / 4096) n j ≡ true → frame s j ≡ false)
    → frames (free_pages (lock_pages s addr n) addr n) ≡ frames s
unfolding get_free_mem_size get_used_mem_size
free_pages-lock_pages s addr n fits inside words open_ =
    free_pages-step (lock_pages s addr n) addr n
    ∙ ap₂
        (λ (bm : BitMap) (f : Frames).
          (Spec.step (8 * bm.size + 8) (mul64 bm.size 8) (free addr n) f).1)
        (lock_pages-bit_map s addr n) (lock_pages-step s addr n)
    ∙ relock (limit s) (pages s) addr n (frames s) fits inside words open_

-- `lockPages` on a range of free frames inside the map takes them all, and moves their bytes from
-- the free memory to the used memory.
pub lock_pages-Locked :
    (s : Kernel) (addr n : ℕ)
    → addr + n * 4096 ≤ 2 ^ 64
    → addr / 4096 + n ≤ limit s
    → ((j : ℕ) → in_range (addr / 4096) n j ≡ true → frame s j ≡ false)
    → Locked (limit s) addr (frames s) n (frames (lock_pages s addr n))
lock_pages-Locked s addr n fits inside open_ =
    rw (lock_pages-step s addr n)
      (lock-Locked (limit s) addr n fits (frames s) (pages s) inside open_)
