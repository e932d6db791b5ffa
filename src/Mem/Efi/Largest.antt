-- ===== src/Mem/Efi/Largest.antt =====
-- The search of `readEFIMemoryMap` for the segment that is to hold the bitmap.
use bbn_os.Base.{ℕ, zero, suc, ◌+◌, ◌≤◌, ◌<◌, ◌≡◌, ◌⊎◌, refl, ◌∙◌, ap, arith}
use bbn_os.Base.{add64, mul64, Bool-cases, inl, inr, ◌==◌, ==_iff}
use mathlib.Core.Path.{subst}
use bbn_os.Memory.{Memory}
use bbn_os.Mem.State.{Kernel}
use bbn_os.Mem.Efi.{
  EfiMemoryDescriptor, Segment, desc_at, larger_segment, report_segment, largest_from,
  efi_conventional_memory, read_desc,
}

abbrev pub segment_bytes : EfiMemoryDescriptor → ℕ
segment_bytes d = mul64 d.num_pages 4096

-- `best` is the largest of the conventional segments `i` to `i + n`, or `first`, if none is larger.
pub record IsLargest (entry : ℕ → EfiMemoryDescriptor) (i n : ℕ) (first best : Segment)
    : Type 0 where
  pub grows : first.bytes ≤ best.bytes
  pub above :
      (j : ℕ)
      → i ≤ j
      → j < i + n
      → (entry j).type ≡ efi_conventional_memory
      → segment_bytes (entry j) ≤ best.bytes
  pub from :
      (best ≡ first)
      ⊎ ((j : ℕ) × (i ≤ j)
          × (j < i + n)
          × ((entry j).type ≡ efi_conventional_memory)
          × (best ≡ record { start = (entry j).phys_addr; bytes = segment_bytes (entry j) }))

memory-report_segment :
    (s : Kernel) (d : EfiMemoryDescriptor) → (report_segment s d).memory ≡ s.memory
memory-report_segment s d = ground arith

larger_segment-bytes :
    (best : Segment) (d : EfiMemoryDescriptor)
    → (best.bytes ≤ (larger_segment best d).bytes)
      × (d.type ≡ efi_conventional_memory → segment_bytes d ≤ (larger_segment best d).bytes)
larger_segment-bytes best d = ground arith

larger_segment-cases :
    (best : Segment) (d : EfiMemoryDescriptor)
    → (larger_segment best d ≡ best)
      ⊎ ((d.type ≡ efi_conventional_memory)
          × (larger_segment best d ≡ record { start = d.phys_addr; bytes = segment_bytes d }))
larger_segment-cases best d = ground arith

IsLargest-step :
    (entry : ℕ → EfiMemoryDescriptor) (i n : ℕ) (first best : Segment)
    → IsLargest entry (i + 1) n (larger_segment first (entry i)) best
    → IsLargest entry i (suc n) first best
IsLargest-step entry i n first best h =
    let b = larger_segment-bytes first (entry i) in
    record {
      grows = omega (arith, h.grows, b.0);
      above = λ j p q c. elim (Bool-cases (i == j)) [
        | inl e ↦
            let e' = (==_iff i j).0 e in
            omega (
              arith,
              h.grows,
              b.1 (ap (λ k. (entry k).type) e' ∙ c),
              ap (λ k. segment_bytes (entry k)) e',
            )
        | inr ne ↦ h.above j (ground arith) (omega arith) c
      ];
      from = origin h.from (larger_segment-cases first (entry i));
    }
  where
    origin :
        (best ≡ larger_segment first (entry i))
          ⊎ ((j : ℕ) × (i + 1 ≤ j)
              × (j < i + 1 + n)
              × ((entry j).type ≡ efi_conventional_memory)
              × (best ≡ record { start = (entry j).phys_addr; bytes = segment_bytes (entry j) }))
        → (larger_segment first (entry i) ≡ first)
          ⊎ (((entry i).type ≡ efi_conventional_memory)
              × (larger_segment first (entry i)
                  ≡ record { start = (entry i).phys_addr; bytes = segment_bytes (entry i) }))
        → (best ≡ first)
          ⊎ ((j : ℕ) × (i ≤ j)
              × (j < i + suc n)
              × ((entry j).type ≡ efi_conventional_memory)
              × (best ≡ record { start = (entry j).phys_addr; bytes = segment_bytes (entry j) }))
    origin (inl e) (inl k) = inl (e ∙ k)
    origin (inl e) (inr (c, k)) = inr (i, omega arith, omega arith, c, e ∙ k)
    origin (inr (j, p, q, c, e)) _ = inr (j, omega arith, omega arith, c, e)

module _ (mmap desc_size : ℕ) where
  loop-IsLargest :
      (n i : ℕ) (s : Kernel) (first : Segment)
      → IsLargest
          (λ j. desc_at s mmap j desc_size)
          i
          n
          first
          (largest_from n i s mmap desc_size first).0
  unfolding largest_from
  loop-IsLargest zero i s first = record {
    grows = omega arith;
    above = λ j p q c. absurd (omega arith);
    from = inl refl;
  }
  loop-IsLargest (suc n) i s first =
      let d = desc_at s mmap i desc_size in
      let t = report_segment s d in
      let best = (largest_from n (i + 1) t mmap desc_size (larger_segment first d)).0 in
      IsLargest-step (λ j. desc_at s mmap j desc_size) i n first best
        (subst
          (λ (m : Memory).
            IsLargest (λ j. read_desc m (add64 mmap (mul64 j desc_size))) (i + 1) n
              (larger_segment first d) best)
          (memory-report_segment s d) (loop-IsLargest n (i + 1) t (larger_segment first d)))

  -- The search changes nothing but the log.
  pub largest_from-keeps :
      (n i : ℕ) (s : Kernel) (first : Segment)
      → let t = (largest_from n i s mmap desc_size first).1 in
        (t.memory ≡ s.memory) × (t.mem_info ≡ s.mem_info) × (t.initialized ≡ s.initialized)
  unfolding largest_from
  largest_from-keeps zero i s first = (refl, refl, refl)
  largest_from-keeps (suc n) i s first =
      let d = desc_at s mmap i desc_size in
      let (a, b, c) = largest_from-keeps n (i + 1) (report_segment s d) (larger_segment first d) in
      (a ∙ memory-report_segment s d, b ∙ ground arith, c ∙ ground arith)

  -- The search finds a largest conventional segment of the memory map: none is larger, and the
  -- result is one of them, or the empty segment at 0 where all of them are empty.
  pub largest_from-IsLargest :
      (n : ℕ) (s : Kernel)
      → IsLargest
          (λ j. desc_at s mmap j desc_size)
          0
          n
          (record { start = 0; bytes = 0 })
          (largest_from n 0 s mmap desc_size (record { start = 0; bytes = 0 })).0
  largest_from-IsLargest n s = loop-IsLargest n 0 s (record { start = 0; bytes = 0 })
