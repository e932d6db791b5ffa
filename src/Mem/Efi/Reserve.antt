-- ===== src/Mem/Efi/Reserve.antt =====
-- The last loop of `readEFIMemoryMap`: it reserves the regions that are not free memory.
use bbn_os.Base.{
  ℕ, zero, suc, ◌+◌, ◌*◌, ◌/◌, ◌^◌, ◌≤◌, ◌<◌, ◌≡◌, ◌⊎◌, inl, inr, refl, sym, ◌∙◌, Bool, true, ◌&&◌,
  not, some, arith,
}
use bbn_os.Base.{ltb, add64, mul64, if◌then◌else◌, ◌==◌, ==_iff, Bool-cases}
use mathlib.Core.Path.{subst}
use bbn_os.Mem.State.{Kernel}
use bbn_os.Mem.Pages.{frame, reserve_pages}
use bbn_os.Mem.View.{limit}
use bbn_os.Mem.Range.{in_range, frame-pages}
use bbn_os.Mem.Keeps.{Keeps, Keeps-refl, Keeps-trans, reserve_pages-Keeps}
use bbn_os.Mem.Efi.{
  EfiMemoryDescriptor, desc_at, desc_reserve_page, read_desc-congr, efi_conventional_memory,
  efi_memory_mapped_io, efi_memory_mapped_io_port_space, do_for_all_from,
}
use bbn_os.Mem.Efi.Size.{do_for_all-some}

-- The regions that `_descReservePage` reserves.
abbrev pub is_reserved : EfiMemoryDescriptor → Bool
is_reserved d =
    not (d.type == efi_conventional_memory)
    && not (d.type == efi_memory_mapped_io)
    && not (d.type == efi_memory_mapped_io_port_space)

abbrev pub reserve_desc : Kernel → EfiMemoryDescriptor → Kernel
reserve_desc s d = if is_reserved d then reserve_pages s d.phys_addr d.num_pages else s

desc_reserve_page-some :
    (s : Kernel) (d : EfiMemoryDescriptor) → desc_reserve_page s d ≡ some (reserve_desc s d)
unfolding desc_reserve_page
desc_reserve_page-some s d = refl

reserve_desc-Keeps : (s : Kernel) (d : EfiMemoryDescriptor) → Keeps s (reserve_desc s d)
reserve_desc-Keeps s d = elim (Bool-cases (is_reserved d)) [
  | inl y ↦ rw y (reserve_pages-Keeps s d.phys_addr d.num_pages)
  | inr n ↦ rw n (Keeps-refl s)
]

-- Every frame of the region `d` that the map can record.
abbrev pub Region : EfiMemoryDescriptor → Kernel → ℕ → Type 0
Region d s j = (in_range (d.phys_addr / 4096) d.num_pages j && ltb j (limit s)) ≡ true

reserve_desc-taken :
    (s : Kernel) (d : EfiMemoryDescriptor) (j : ℕ)
    → is_reserved d ≡ true
    → d.phys_addr + d.num_pages * 4096 ≤ 2 ^ 64
    → Region d s j
    → frame (reserve_desc s d) j ≡ true
reserve_desc-taken s d j r fits h =
    rw r (rw ((frame-pages s d.phys_addr d.num_pages fits j).1, h) refl)

-- The entries of the memory map lie outside the bitmap.
abbrev pub Apart : Kernel → ℕ → ℕ → ℕ → Type 0
Apart s mmap desc_size n =
    (j k : ℕ)
    → j < n
    → k < 40
    → let a = add64 mmap (mul64 j desc_size) + k in
      (a < s.mem_info.mem_bit_map.buffer)
      ⊎ (s.mem_info.mem_bit_map.buffer + s.mem_info.mem_bit_map.size < a)

Apart-Keeps :
    {s t : Kernel} (mmap desc_size n : ℕ)
    → Keeps s t
    → Apart s mmap desc_size n
    → Apart t mmap desc_size n
Apart-Keeps mmap desc_size n k apart = λ j i p q. rw k.bit_map (apart j i p q)

pub desc_at-Keeps :
    {s t : Kernel} (mmap desc_size n j : ℕ)
    → Keeps s t
    → Apart s mmap desc_size n
    → j < n
    → desc_at t mmap j desc_size ≡ desc_at s mmap j desc_size
desc_at-Keeps mmap desc_size n j k apart lt =
    read_desc-congr _ _ _ λ i q. k.bytes _ (apart j i lt q)

-- The state after the loop that reserves the regions `i` to `i + n` of the map.
pub reserve_all : ℕ → ℕ → ℕ → ℕ → Kernel → Kernel
reserve_all mmap desc_size zero i s = s
reserve_all mmap desc_size (suc n) i s =
    reserve_all mmap desc_size n (i + 1) (reserve_desc s (desc_at s mmap i desc_size))

module _ (mmap desc_size : ℕ) where
  pub do_for_all-reserve_all :
      (n i : ℕ) (s : Kernel)
      → do_for_all_from n i s mmap desc_size desc_reserve_page
        ≡ some (reserve_all mmap desc_size n i s)
  unfolding do_for_all_from reserve_all
  do_for_all-reserve_all zero i s = refl
  do_for_all-reserve_all (suc n) i s =
      do_for_all-some desc_reserve_page n i mmap desc_size (desc_reserve_page-some s _)
      ∙ do_for_all-reserve_all n (i + 1) (reserve_desc s (desc_at s mmap i desc_size))

  pub reserve_all-Keeps : (n i : ℕ) (s : Kernel) → Keeps s (reserve_all mmap desc_size n i s)
  unfolding reserve_all
  reserve_all-Keeps zero i s = Keeps-refl s
  reserve_all-Keeps (suc n) i s =
      Keeps-trans (reserve_desc-Keeps s (desc_at s mmap i desc_size))
        (reserve_all-Keeps n (i + 1) (reserve_desc s (desc_at s mmap i desc_size)))

  -- Every frame of a reserved region ends up taken.
  pub reserve_all-taken :
      (n i k j total_n : ℕ) (s : Kernel)
      → i + n ≤ total_n
      → Apart s mmap desc_size total_n
      → i ≤ k
      → k < i + n
      → let d = desc_at s mmap k desc_size in
        is_reserved d ≡ true
        → d.phys_addr + d.num_pages * 4096 ≤ 2 ^ 64
        → Region d s j
        → frame (reserve_all mmap desc_size n i s) j ≡ true
  unfolding reserve_all
  reserve_all-taken zero i k j total_n s le apart lo hi r fits h = absurd (omega arith)
  reserve_all-taken (suc n) i k j total_n s le apart lo hi r fits h =
      let t = reserve_desc s (desc_at s mmap i desc_size) in
      let keeps = reserve_desc-Keeps s (desc_at s mmap i desc_size) in
      let same = desc_at-Keeps mmap desc_size total_n k keeps apart (omega arith) in
      elim (Bool-cases (i == k)) [
        | inl e ↦ (reserve_all-Keeps n (i + 1) t).taken j (
            subst (λ (q : ℕ). frame (reserve_desc s (desc_at s mmap q desc_size)) j ≡ true)
              (sym ((==_iff i k).0 e))
              (reserve_desc-taken s (desc_at s mmap k desc_size) j r fits h))
        | inr ne ↦
            reserve_all-taken n (i + 1) k j total_n t (omega arith)
              (Apart-Keeps mmap desc_size total_n keeps apart) (ground arith) (omega arith)
              (rw same r) (rw same fits) (rw (same, keeps.bit_map) h)
      ]
