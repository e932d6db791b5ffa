-- ===== src/Mem/Efi/Size.antt =====
-- `getMemSize`: the sum of the sizes of all regions.
use bbn_os.Base.{
  ℕ, zero, suc, ◌+◌, ◌*◌, ◌%◌, ◌^◌, ◌≤◌, ◌<◌, ◌≡◌, ◌≢◌, refl, ◌∙◌, ap, Option, none, some, arith,
}
use bbn_os.Base.{ltb_le, ltb_lt, add64, mul64}
use native.Mathlib.Decide.{dec_le}
use bbn_os.Mem.State.{Kernel}
use bbn_os.Mem.Efi.{
  EfiMemoryDescriptor, desc_at, desc_add_mem_size, do_for_all_from, do_for_all_mmap_desc,
  get_mem_size,
}

-- The state in which only `mem_size_bytes` differs.
abbrev pub with_size : Kernel → ℕ → Kernel
with_size s n = record s { mem_info = record s.mem_info { mem_size_bytes = n } }

-- One round of the loop over the map.
pub do_for_all-some :
    (func : Kernel → EfiMemoryDescriptor → Option Kernel) (n i : ℕ) {s t : Kernel}
    (mmap desc_size : ℕ)
    → func s (desc_at s mmap i desc_size) ≡ some t
    → do_for_all_from (suc n) i s mmap desc_size func
      ≡ do_for_all_from n (i + 1) t mmap desc_size func
unfolding do_for_all_from
do_for_all-some func n i mmap desc_size e = rw (e, do_for_all_from)

pub do_for_all-none :
    (func : Kernel → EfiMemoryDescriptor → Option Kernel) (n i : ℕ) {s : Kernel}
    (mmap desc_size : ℕ)
    → func s (desc_at s mmap i desc_size) ≡ none
    → do_for_all_from (suc n) i s mmap desc_size func ≡ none
unfolding do_for_all_from
do_for_all-none func n i mmap desc_size e = rw (e, do_for_all_from)

add_mem_size-viable :
    (s : Kernel) (acc : ℕ) (d : EfiMemoryDescriptor)
    → d.type ≤ 15
    → desc_add_mem_size (with_size s acc) d
      ≡ some (with_size s (add64 acc (mul64 d.num_pages 4096)))
unfolding desc_add_mem_size
add_mem_size-viable s acc d h = rw (ltb_le 15 d.type h)

add_mem_size-blocked :
    (s : Kernel) (d : EfiMemoryDescriptor) → 15 < d.type → desc_add_mem_size s d ≡ none
unfolding desc_add_mem_size
add_mem_size-blocked s d h = rw (ltb_lt 15 d.type h)

-- The number of pages of the `n` regions from entry `i` on.
unfoldable pub pages_from : (ℕ → EfiMemoryDescriptor) → ℕ → ℕ → ℕ
pages_from entry zero i = 0
pages_from entry (suc n) i = (entry i).num_pages + pages_from entry n (i + 1)

-- A size that is known is returned as it is.
pub get_mem_size-known :
    (s : Kernel) (mmap desc_size n bytes : ℕ)
    → s.mem_info.mem_size_bytes ≡ bytes
    → 0 < bytes
    → get_mem_size s mmap n desc_size ≡ some (bytes, with_size s bytes)
unfolding get_mem_size
get_mem_size-known s mmap desc_size n bytes known positive =
    rw (ltb_lt 0 s.mem_info.mem_size_bytes (omega arith)) (ap (λ k. some (k, with_size s k)) known)

module _ (s : Kernel) (mmap desc_size : ℕ) where
  abbrev add_sizes : ℕ → ℕ → ℕ → Option Kernel
  add_sizes n i acc = do_for_all_from n i (with_size s acc) mmap desc_size desc_add_mem_size

  add_sizes-sum :
      (n i acc : ℕ)
      → acc < 2 ^ 64
      → ((j : ℕ) → i ≤ j → j < i + n → (desc_at s mmap j desc_size).type ≤ 15)
      → add_sizes n i acc
        ≡ some
            (with_size s ((acc + 4096 * pages_from (λ j. desc_at s mmap j desc_size) n i) % 2 ^ 64))
  unfolding do_for_all_from pages_from
  add_sizes-sum zero i acc small viable = ap (λ k. some (with_size s k)) (omega arith)
  add_sizes-sum (suc n) i acc small viable =
      do_for_all-some desc_add_mem_size n i mmap desc_size
        (add_mem_size-viable s acc _ (viable i (omega arith) (omega arith)))
      ∙ add_sizes-sum n (i + 1) _ (omega arith) (λ j p q. viable j (omega arith) (omega arith))
      ∙ ap (λ k. some (with_size s k)) (omega arith)

  add_sizes-blocked :
      (n i acc k : ℕ)
      → i ≤ k
      → k < i + n
      → 15 < (desc_at s mmap k desc_size).type
      → add_sizes n i acc ≡ none
  add_sizes-blocked zero i acc k lo hi bad = absurd (omega arith)
  add_sizes-blocked (suc n) i acc k lo hi bad = elim (dec_le (desc_at s mmap i desc_size).type 15) [
    | yes fine ↦
        let ne : i ≢ k =
          λ e. absurd (omega (arith, ap (λ j. (desc_at s mmap j desc_size).type) e)) in
        do_for_all-some desc_add_mem_size n i mmap desc_size (add_mem_size-viable s acc _ fine)
        ∙ add_sizes-blocked n (i + 1) _ k (omega arith) (omega arith) bad
    | no large ↦
        do_for_all-none desc_add_mem_size n i mmap desc_size
          (add_mem_size-blocked (with_size s acc) _ (omega arith))
  ]

  known : s.mem_info.mem_size_bytes ≡ 0 → s ≡ with_size s 0
  known e = ap (with_size s) e

  add_all :
      (n : ℕ)
      → s.mem_info.mem_size_bytes ≡ 0
      → do_for_all_mmap_desc s mmap n desc_size desc_add_mem_size ≡ add_sizes n 0 0
  unfolding do_for_all_mmap_desc
  add_all n e = ap (λ t. do_for_all_from n 0 t mmap desc_size desc_add_mem_size) (known e)

  -- Where no size is known yet and every entry has a viable type, `getMemSize` returns the bytes
  -- of all regions together, modulo 2 ^ 64, and stores that number and nothing else.
  pub get_mem_size-sum :
      (n : ℕ)
      → s.mem_info.mem_size_bytes ≡ 0
      → ((j : ℕ) → j < n → (desc_at s mmap j desc_size).type ≤ 15)
      → let bytes = 4096 * pages_from (λ j. desc_at s mmap j desc_size) n 0 % 2 ^ 64 in
        get_mem_size s mmap n desc_size ≡ some (bytes, with_size s bytes)
  unfolding get_mem_size
  get_mem_size-sum n unknown viable =
      rw
        (
          ltb_le 0 s.mem_info.mem_size_bytes (omega arith),
          add_all n unknown,
          add_sizes-sum n 0 0 (omega arith) (λ j _ q. viable j (omega arith)),
        )
        (ap (λ k. some (k, with_size s k)) (omega arith))

  -- Where no size is known yet, with an entry of a type above 15 among the entries of the map, the
  -- kernel never comes back from `getMemSize`.
  pub get_mem_size-blocked :
      (n k : ℕ)
      → s.mem_info.mem_size_bytes ≡ 0
      → k < n
      → 15 < (desc_at s mmap k desc_size).type
      → get_mem_size s mmap n desc_size ≡ none
  unfolding get_mem_size
  get_mem_size-blocked n k unknown lt bad =
      rw
        (
          ltb_le 0 s.mem_info.mem_size_bytes (omega arith),
          add_all n unknown,
          add_sizes-blocked n 0 0 k (omega arith) (omega arith) bad,
        )
        refl
