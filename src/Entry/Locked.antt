-- ===== src/Entry/Locked.antt =====
-- Locking pages leaves the page tables as they are, and costs a frame for each page at most.
use bbn_os.Base.{
  ℕ, zero, suc, ◌+◌, ◌-◌, ◌*◌, ◌/◌, ◌^◌, ◌≤◌, ◌<◌, ◌≡◌, refl, sym, ap, ◌∙◌, Bool, false, Option,
  none, some, List, [], ◌∷◌, arith, leb, if◌then◌else◌, mul64, length,
}
use bbn_os.Memory.{Memory, load8}
use bbn_os.Mem.State.{Kernel}
use bbn_os.Mem.Pages.{frame, lock_pages}
use bbn_os.Mem.View.{pages}
use bbn_os.Mem.Keeps.{Keeps, lock_pages-Keeps}
use bbn_os.Mem.Range.{in_range, frame-pages}
use bbn_os.Mem.Free.{count_free, free_frames}
use bbn_os.Paging.{init_page_map_indexer}
use bbn_os.Paging.Index.{init_page_map_indexer-IsInTables}
use bbn_os.Paging.Entry.{link, link-kept}
use bbn_os.Paging.Leaf.{AllBelow, walk_both}
use bbn_os.Paging.Walk.{walk_from, indices, walk, IsTree}

pub indices-AllBelow : (v : ℕ) → AllBelow (indices v)
unfolding indices
indices-AllBelow v =
    let (a, b, c, d) = (init_page_map_indexer-IsInTables v).0 in (a, (b, (c, (d, tt))))

-- A memory with the bytes of the tables walks the same way.
module _ (s : Kernel) (m : Memory) (root : ℕ) (place : ℕ → Option (List ℕ))
    (tree : IsTree s root place)
    (same : (f : ℕ) (p : List ℕ) (a : ℕ)
      → place f ≡ some p
      → f * 4096 ≤ a
      → a < f * 4096 + 4096
      → load8 m a ≡ load8 s.memory a) where
  link-same : (f i : ℕ) (p : List ℕ) → place f ≡ some p → i < 512 → link m f i ≡ link s.memory f i
  link-same f i p here hi = link-kept m s.memory f i hi (λ a lo hi'. same f p a here lo hi')

  walk_from-same :
      (is : List ℕ) (f : ℕ) (p : List ℕ)
      → place f ≡ some p
      → AllBelow is
      → length p + length is ≡ 4
      → walk_from m f is ≡ walk_from s.memory f is
  unfolding walk_from
  walk_from-same [] f p here h len = refl
  walk_from-same (i ∷ []) f p here (hi, h) len =
      walk_both m s.memory f i [] (link s.memory f i) (link-same f i p here hi) refl (λ g l. refl)
  walk_from-same (i ∷ j ∷ is) f p here (hi, h) len =
      walk_both m s.memory f i (j ∷ is) (link s.memory f i) (link-same f i p here hi) refl (λ g l.
        walk_from-same (j ∷ is) g (i ∷ p) (tree.child f i g p here (omega arith) hi l) h
          (omega arith))

  pub walk-same : (v : ℕ) → walk m root v ≡ walk s.memory root v
  unfolding walk indices
  walk-same v = walk_from-same (indices v) root [] tree.root_place (indices-AllBelow v) refl

module _ (s t : Kernel) (root : ℕ) (place : ℕ → Option (List ℕ)) (tree : IsTree s root place)
    (keeps : Keeps s t) where
  tables-Keeps :
      (f : ℕ) (p : List ℕ) (a : ℕ)
      → place f ≡ some p
      → f * 4096 ≤ a
      → a < f * 4096 + 4096
      → load8 t.memory a ≡ load8 s.memory a
  tables-Keeps f p a here lo hi = keeps.bytes a (tree.apart f p here a lo hi)

  pub kept-IsTree : IsTree t root place
  kept-IsTree = record {
    root_place = tree.root_place;
    taken = λ f p e. keeps.taken f (tree.taken f p e);
    apart = λ f p e. rw keeps.bit_map (tree.apart f p e);
    child = λ f i g p e low hi l.
        tree.child f i g p e low hi
          (sym (link-same s t.memory root place tree tables-Keeps f i p e hi) ∙ l);
    bitmap_taken = λ a lo hi.
        keeps.taken (a / 4096)
          (tree.bitmap_taken a (rw keeps.bit_map at lo) (rw keeps.bit_map at hi));
    size = rw keeps.bit_map tree.size;
  }

  pub walk-Keeps : (v : ℕ) → walk t.memory root v ≡ walk s.memory root v
  walk-Keeps v = walk-same s t.memory root place tree tables-Keeps v

-- No page is mapped while the entries of the root are empty.
pub walk-empty :
    (s : Kernel) (root v : ℕ)
    → ((i : ℕ) → i < 512 → link s.memory root i ≡ none)
    → walk s.memory root v ≡ none
unfolding walk walk_from indices
walk-empty s root v empty =
    rw
      (
        walk,
        indices,
        walk_from,
        empty (init_page_map_indexer v).pdp_i (init_page_map_indexer-IsInTables v).0.0,
      )
      refl

-- The part of the range of `n` frames from `i` on that lies in the range of `m` frames from `a` on.
abbrev overlap : (n i m a : ℕ) → ℕ
overlap n i m a = (if leb (i + n) (a + m) then i + n else a + m) - (if leb i a then a else i)

count_free-range :
    (before after : ℕ → Bool) (m a n i : ℕ)
    → ((j : ℕ) → in_range a m j ≡ false → before j ≡ after j)
    → count_free before n i ≤ count_free after n i + overlap n i m a
unfolding count_free
count_free-range before after m a zero i same = omega arith
count_free-range before after m a (suc n) i same =
    ground (arith, count_free-range before after m a n (i + 1) same, same i)

overlap_le : (n i m a : ℕ) → overlap n i m a ≤ m
overlap_le n i m a = ground arith

unlocked :
    (s : Kernel) (addr n j : ℕ)
    → addr + n * 4096 ≤ 2 ^ 64
    → in_range (addr / 4096) n j ≡ false
    → frame s j ≡ frame (lock_pages s addr n) j
unlocked s addr n j fits outside =
    let locked = (frame-pages s addr n fits j).0 in ground (arith, locked, outside)

pub free_frames-lock_pages :
    (s : Kernel) (addr n : ℕ)
    → addr + n * 4096 ≤ 2 ^ 64
    → free_frames s ≤ free_frames (lock_pages s addr n) + n
unfolding free_frames
free_frames-lock_pages s addr n fits =
    let t = lock_pages s addr n in
    let same : pages t ≡ pages s = ap (λ bm. mul64 bm.size 8) (lock_pages-Keeps s addr n).bit_map in
    let bound =
      count_free-range (frame s) (frame t) n (addr / 4096) (pages s) 0
        (λ j h. unlocked s addr n j fits h) in
    rw same (omega (arith, bound, overlap_le (pages s) 0 n (addr / 4096)))
