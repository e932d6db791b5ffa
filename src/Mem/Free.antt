-- ===== src/Mem/Free.antt =====
-- How many frames are free, and what `requestPage` costs.
use bbn_os.Base.{
  ℕ, zero, suc, ◌+◌, ◌*◌, ◌^◌, ◌≤◌, ◌<◌, ◌≡◌, inl, inr, refl, Bool, true, false, ◌&&◌, arith, ◌==◌,
  ltb, leb, if◌then◌else◌, Bool-cases, ==_iff, mul64,
}
use bbn_os.Mem.State.{Kernel}
use bbn_os.Mem.Pages.{frame, request_from, request_page}
use bbn_os.Mem.View.{pages}
use bbn_os.Mem.Request.{request_page-first_fit}
use bbn_os.Mem.Keeps.{Keeps, Keeps-refl, lock_page-Keeps}

-- The free frames among the `n` from `i` on.
unfoldable pub count_free : (ℕ → Bool) → ℕ → ℕ → ℕ
count_free taken zero i = 0
count_free taken (suc n) i =
    let rest = count_free taken n (i + 1) in if taken i then rest else rest + 1

unfoldable pub free_frames : Kernel → ℕ
free_frames s = count_free (frame s) (pages s) 0

module _ (taken taken' : ℕ → Bool) (k : ℕ) where
  -- Taking one frame of the range makes one free frame less.
  count_free-take :
      (n i : ℕ)
      → taken k ≡ false
      → ((j : ℕ) → taken' j ≡ (if j == k then true else taken j))
      → count_free taken n i ≡ count_free taken' n i + (if leb i k && ltb k (i + n) then 1 else 0)
  unfolding count_free
  count_free-take zero i free took = ground arith
  count_free-take (suc n) i free took =
      let rest = count_free-take n (i + 1) free took in
      let here = ==_iff i k in
      elim (Bool-cases (i == k)) [
        | inl e ↦
            let same : i ≡ k = here.0 e in
            let open_ : taken i ≡ false = rw same free in ground (arith, rest, took i, open_, same)
        | inr ne ↦ ground (arith, rest, took i, ne)
      ]

count_free-full :
    (taken : ℕ → Bool) (n i : ℕ) → ((j : ℕ) → j < i + n → taken j ≡ true) → count_free taken n i ≡ 0
unfolding count_free
count_free-full taken zero i full = refl
count_free-full taken (suc n) i full =
    ground
      (arith, full i (omega arith), count_free-full taken n (i + 1) (λ j h. full j (omega arith)))

request_from-Keeps : (n i : ℕ) (s : Kernel) → Keeps s (request_from n i s).1
unfolding request_from
request_from-Keeps zero i s = Keeps-refl s
request_from-Keeps (suc n) i s = elim (Bool-cases (frame s i)) [
  | inl taken ↦ rw taken (request_from-Keeps n (i + 1) s)
  | inr free ↦ rw free (lock_page-Keeps s (mul64 i 4096))
]

pub request_page-Keeps : (s : Kernel) → Keeps s (request_page s).1
unfolding request_page
request_page-Keeps s = request_from-Keeps (mul64 s.mem_info.mem_bit_map.size 8) 0 s

-- The same of all the frames of the map.
pub free_frames-take :
    (s t : Kernel) (k : ℕ)
    → pages t ≡ pages s
    → k < pages s
    → frame s k ≡ false
    → ((j : ℕ) → frame t j ≡ (if j == k then true else frame s j))
    → free_frames s ≡ free_frames t + 1
unfolding free_frames
free_frames-take s t k same lt free took =
    rw same (ground (arith, count_free-take (frame s) (frame t) k (pages s) 0 free took))

count_free-congr :
    (taken taken' : ℕ → Bool) (n i : ℕ)
    → ((j : ℕ) → taken j ≡ taken' j)
    → count_free taken n i ≡ count_free taken' n i
unfolding count_free
count_free-congr taken taken' zero i same = refl
count_free-congr taken taken' (suc n) i same =
    rw (same i, count_free-congr taken taken' n (i + 1) same) refl

-- With the same frames, as many are free.
pub free_frames-congr :
    (s t : Kernel)
    → pages s ≡ pages t
    → ((j : ℕ) → frame s j ≡ frame t j)
    → free_frames s ≡ free_frames t
unfolding free_frames
free_frames-congr s t same frames =
    rw same (count_free-congr (frame s) (frame t) (pages t) 0 frames)

-- A page that was handed out: the first free frame `k`, and what is left.
pub record Fresh (s : Kernel) (out : ℕ × Kernel) : Type 0 where
  pub k : ℕ
  pub address : out.0 ≡ k * 4096
  pub inside : k < pages s
  pub fits : k < 2 ^ 52
  pub free : frame s k ≡ false
  pub now_taken : (j : ℕ) → frame out.1 j ≡ (if j == k then true else frame s j)

-- While a frame is free, `requestPage` hands out a page.
pub request_page-Fresh :
    (s : Kernel)
    → s.mem_info.mem_bit_map.size ≤ 2 ^ 49
    → 0 < free_frames s
    → Fresh s (request_page s)
unfolding free_frames
request_page-Fresh s small some_free = elim (request_page-first_fit s small) [
  | inl (k, lt, free, before, granted) ↦ record {
    k = k;
    address = granted.address;
    inside = lt;
    fits = omega arith;
    free = free;
    now_taken = granted.taken;
  }
  | inr (full, none_left) ↦ absurd (
      omega (arith, some_free, count_free-full (frame s) (pages s) 0 (λ j h. full j (omega arith))))
]
