-- ===== src/Paging/Range.antt =====
-- Mapping the pages of a range of addresses to themselves, as the kernel does twice.
use bbn_os.Base.{
  ℕ, ◌+◌, ◌-◌, ◌*◌, ◌/◌, ◌^◌, ◌≤◌, ◌<◌, ◌≡◌, inl, inr, ◌∙◌, Bool, true, false, not, ◌&&◌, Option,
  some, List, arith, ◌==◌, ltb, leb, if◌then◌else◌, Bool-cases,
}
use bbn_os.Base.Loop.{count_up, count_up_inv}
use bbn_os.Mem.State.{Kernel}
use bbn_os.Mem.Free.{free_frames}
use bbn_os.Paging.{page_table_manager_map_memory}
use bbn_os.Paging.Walk.{walk, IsTree}
use bbn_os.Paging.Map.{page_of, IsMapped, map_memory-IsMapped}
use bbn_os.Paging.Shared.{map_memory-IsCheap}

-- `pageTableManagerMapMemory(&ptm, (void *)t, (void *)t)`
abbrev pub map_to_itself : ℕ → ℕ → Kernel → Kernel
map_to_itself root t s = page_table_manager_map_memory s (root * 4096) t t

-- The pages from the address `base` on, one after the other.
unfoldable pub map_range : (root base n : ℕ) → Kernel → Kernel
unfolding count_up
map_range root base n s = count_up n 0 (λ i t. map_to_itself root (base + i * 4096) t) s

-- Enough frames for the tables of `n` pages from page `k` on: three for each table of 512 pages that
-- the range meets.
abbrev pub tables : ℕ → ℕ → ℕ
tables k n = if n == 0 then 0 else 3 * ((k + n - 1) / 512 - k / 512 + 1)

-- The page `k + i` has the table of the page before it.
abbrev has_table : ℕ → ℕ → Bool
has_table k i = not (i == 0) && (k + i) / 512 == (k + i - 1) / 512

tables_shared : (k i : ℕ) → has_table k i ≡ true → tables k (i + 1) ≡ tables k i
tables_shared k i shared = ground arith

tables_new : (k i : ℕ) → has_table k i ≡ false → tables k (i + 1) ≡ tables k i + 3
tables_new k i new = ground arith

le-tables : (k i n : ℕ) → i < n → tables k (i + 1) ≤ tables k n
le-tables k i n lt = ground arith

same_table : (k i : ℕ) → has_table k i ≡ true → (0 < i) × ((k + i - 1) / 512 ≡ (k + i) / 512)
same_table k i shared = (ground arith, ground arith)

-- After `n` pages of the range, these pages are mapped to themselves, and the others as before.
pub record IsRange (s : Kernel) (root base n : ℕ) (t : Kernel) : Type 0 where
  pub place : ℕ → Option (List ℕ)
  pub tree : IsTree t root place
  pub walks :
      (v : ℕ)
      → walk t.memory root v ≡ (
          if leb (base / 4096) (page_of v) && ltb (page_of v) (base / 4096 + n)
          then some (page_of v)
          else walk s.memory root v)
  pub cost : free_frames s ≤ free_frames t + tables (base / 4096) n

module _ (s : Kernel) (root base n : ℕ) (fits : base + n * 4096 ≤ 2 ^ 48) where
  -- The page `i` of the range, once the pages before it are mapped.
  extend :
      (i : ℕ) (t u : Kernel)
      → i < n
      → IsRange s root base i t
      → IsMapped t root (base + i * 4096) (base + i * 4096) u
      → free_frames s ≤ free_frames u + tables (base / 4096) (i + 1)
      → IsRange s root base (i + 1) u
  extend i t u lt before mapped cost = record {
    place = mapped.place;
    tree = mapped.tree;
    walks = λ v.
        let here : page_of (base + i * 4096) ≡ base / 4096 + i = omega arith in
        let phys : (base + i * 4096) / 2 ^ 12 ≡ base / 4096 + i = omega arith in
        ground (arith, mapped.walks v, before.walks v, here, phys);
    cost = cost;
  }

  page_in : (i : ℕ) → i < n → page_of (base + i * 4096) ≡ base / 4096 + i
  page_in i lt = omega arith

  seen_before :
      (o : Option ℕ) (i : ℕ)
      → 0 < i
      → page_of (base + (i - 1) * 4096) ≡ base / 4096 + (i - 1)
      → (if leb (base / 4096) (page_of (base + (i - 1) * 4096))
            && ltb (page_of (base + (i - 1) * 4096)) (base / 4096 + i)
          then some (page_of (base + (i - 1) * 4096))
          else o)
        ≡ some (page_of (base + (i - 1) * 4096))
  seen_before o i positive page = ground arith

  step :
      tables (base / 4096) n ≤ free_frames s
      → (i : ℕ) (t : Kernel) → i < n
      → IsRange s root base i t
      → IsRange s root base (i + 1) (map_to_itself root (base + i * 4096) t)
  step enough i t lt before = elim (Bool-cases (has_table (base / 4096) i)) [
    | inl shared ↦
        let (positive, table) = same_table (base / 4096) i shared in
        let page = page_in (i - 1) (omega arith) in
        let page' = page_in i lt in
        let seen = before.walks (base + (i - 1) * 4096) ∙ seen_before _ i positive page in
        let cheap =
          map_memory-IsCheap t root (base + i * 4096) (base + i * 4096) (base + (i - 1) * 4096) _
            before.place before.tree (omega arith) (omega (arith, page, page', table)) seen in
        extend i t _ lt before cheap.mapped
          (omega (arith, cheap.free, tables_shared (base / 4096) i shared, before.cost))
    | inr new ↦
        let more = tables_new (base / 4096) i new in
        let mapped =
          map_memory-IsMapped t root (base + i * 4096) (base + i * 4096) before.place before.tree
            (omega (arith, more, le-tables (base / 4096) i n lt, before.cost)) (omega arith) in
        extend i t _ lt before mapped (omega (arith, more, mapped.cost, before.cost))
  ]

  -- The pages of a range below 2 ^ 48 are mapped to themselves, and no other, while three frames are
  -- free for each table of 512 pages that the range meets.
  pub map_range-IsRange :
      (place : ℕ → Option (List ℕ))
      → IsTree s root place
      → tables (base / 4096) n ≤ free_frames s
      → IsRange s root base n (map_range root base n s)
  unfolding map_range
  map_range-IsRange place tree enough =
      count_up_inv (λ i t. IsRange s root base i t) (λ i t. map_to_itself root (base + i * 4096) t)
        n 0 n s (omega arith) (step enough)
        (record { place = place; tree = tree; walks = λ v. ground arith; cost = omega arith })
