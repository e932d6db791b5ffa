-- ===== src/Paging/Walk.antt =====
-- The processor's walk of the tables, and the shape that the tables keep.
use bbn_os.Base.{
  ℕ, ◌+◌, ◌*◌, ◌/◌, ◌^◌, ◌≤◌, ◌<◌, ◌≡◌, ◌⊎◌, true, Option, none, some, List, [], ◌∷◌, length,
}
use bbn_os.Memory.{Memory}
use bbn_os.Bitmap.{BitMap}
use bbn_os.Mem.State.{Kernel}
use bbn_os.Mem.Pages.{frame}
use bbn_os.Paging.{init_page_map_indexer}
use bbn_os.Paging.Entry.{link}

-- From the table in frame `f`, along one index for each level.
unfoldable pub walk_from : Memory → ℕ → List ℕ → Option ℕ
walk_from m f [] = some f
walk_from m f (i ∷ is) = elim (link m f i) [ none ↦ none | some g ↦ walk_from m g is ]

unfoldable pub indices : ℕ → List ℕ
unfolding init_page_map_indexer
indices addr = let t = init_page_map_indexer addr in t.pdp_i ∷ t.pd_i ∷ t.pt_i ∷ t.p_i ∷ []

-- The frame of the page to which a virtual address is mapped.
unfoldable pub walk : Memory → ℕ → ℕ → Option ℕ
unfolding walk_from indices
walk m root addr = walk_from m root (indices addr)

-- The page in frame `f` does not meet the bitmap, whose test lets one byte more through.
abbrev pub IsApart : BitMap → ℕ → Type 0
IsApart bm f =
    (a : ℕ) → f * 4096 ≤ a → a < f * 4096 + 4096 → (a < bm.buffer) ⊎ (bm.buffer + bm.size < a)

-- The frames in which the bitmap lies, with the one byte more, are taken.
abbrev pub HasBitmapTaken : Kernel → Type 0
HasBitmapTaken s =
    (a : ℕ)
    → s.mem_info.mem_bit_map.buffer ≤ a
    → a ≤ s.mem_info.mem_bit_map.buffer + s.mem_info.mem_bit_map.size
    → frame s (a / 4096) ≡ true

-- `place f` is the way to the table in frame `f` from the root, last index first. Every table has a
-- frame of its own that is taken and apart from the bitmap; an entry of the three upper levels leads
-- to the table that has its place; and the bitmap lies in taken frames.
pub record IsTree (s : Kernel) (root : ℕ) (place : ℕ → Option (List ℕ)) : Type 0 where
  pub root_place : place root ≡ some []
  pub taken : (f : ℕ) (p : List ℕ) → place f ≡ some p → frame s f ≡ true
  pub apart : (f : ℕ) (p : List ℕ) → place f ≡ some p → IsApart s.mem_info.mem_bit_map f
  pub child :
      (f i g : ℕ) (p : List ℕ)
      → place f ≡ some p
      → length p < 3
      → i < 512
      → link s.memory f i ≡ some g
      → place g ≡ some (i ∷ p)
  pub bitmap_taken : HasBitmapTaken s
  pub size : s.mem_info.mem_bit_map.size ≤ 2 ^ 49
