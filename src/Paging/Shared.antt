-- ===== src/Paging/Shared.antt =====
-- A page whose tables are there already: mapping it takes no frame.
use bbn_os.Base.{
  ℕ, ◌*◌, ◌/◌, ◌^◌, ◌<◌, ◌≡◌, refl, sym, ap, ◌∙◌, Option, none, some, List, [], ◌∷◌, arith,
}
use mathlib.Core.Path.{subst}
use bbn_os.Memory.{Memory}
use bbn_os.Mem.State.{Kernel}
use bbn_os.Mem.Free.{free_frames}
use bbn_os.Paging.{
  init_page_map_indexer, get_next_page_table, page_table_manager_map_memory, entry_at, pointing_to,
  read_entry,
}
use bbn_os.Paging.Index.{init_page_map_indexer-IsInTables}
use bbn_os.Paging.Entry.{slot, link}
use bbn_os.Paging.Walk.{walk_from, walk, indices, IsTree}
use bbn_os.Paging.Grow.{entry_present, followed}
use bbn_os.Paging.Leaf.{leaf_free}
use bbn_os.Paging.Map.{
  page_of, IsMapped, IsMappedAt, mapped-IsMappedAt, last_write, map_at, map_memory-indices,
  of_indices, walk_of_indices,
}

-- A walk that ends somewhere goes through an entry that is present.
walk_through :
    (m : Memory) (f i : ℕ) (is : List ℕ) (x : ℕ) (o : Option ℕ)
    → link m f i ≡ o
    → walk_from m f (i ∷ is) ≡ some x
    → (g : ℕ) × (link m f i ≡ some g) × (walk_from m g is ≡ some x)
unfolding walk_from
walk_through m f i is x none l e = let stop : none ≡ some x = rw (walk_from, l) at e in cc
walk_through m f i is x (some g) l e = (g, l, rw (walk_from, l) at e)

module _ (s : Kernel) (root : ℕ) (place : ℕ → Option (List ℕ)) (tree : IsTree s root place)
    (a b c d phys : ℕ) (ha : a < 512) (hb : b < 512) (hc : c < 512) (hd : d < 512)
    (hp : phys < 2 ^ 64) (g1 g2 g3 : ℕ) (l1 : link s.memory root a ≡ some g1)
    (l2 : link s.memory g1 b ≡ some g2) (l3 : link s.memory g2 c ≡ some g3) where
  -- All three entries are followed, and the state before the last write is `s`.
  map_at_shared : map_at s root a b c d phys ≡ last_write s (g3 * 4096) d phys
  map_at_shared =
      let o1 = entry_present s root a g1 l1 in
      let o2 = entry_present s g1 b g2 l2 in
      let o3 = entry_present s g2 c g3 l3 in
      ap
        (λ (o : ℕ × Kernel).
          let o2 = get_next_page_table o.1 (entry_at o.0 b) in
          let o3 = get_next_page_table o2.1 (entry_at o2.0 c) in last_write o3.1 o3.0 d phys)
        o1
      ∙ ap
          (λ (o : ℕ × Kernel).
            let o3 = get_next_page_table o.1 (entry_at o.0 c) in last_write o3.1 o3.0 d phys)
          o2
      ∙ ap (λ (o : ℕ × Kernel). last_write o.1 o.0 d phys) o3

  place_1 : place g1 ≡ some (a ∷ [])
  place_1 = tree.child root a g1 [] tree.root_place (omega arith) ha l1

  place_2 : place g2 ≡ some (b ∷ a ∷ [])
  place_2 = tree.child g1 b g2 (a ∷ []) place_1 (omega arith) hb l2

  place_3 : place g3 ≡ some (c ∷ b ∷ a ∷ [])
  place_3 = tree.child g2 c g3 (b ∷ a ∷ []) place_2 (omega arith) hc l3

  shared-IsMappedAt :
      IsMappedAt s root (a ∷ b ∷ c ∷ d ∷ []) (phys / 2 ^ 12) (map_at s root a b c d phys)
  unfolding followed
  shared-IsMappedAt =
      let first = followed s root place tree root a [] tree.root_place (omega arith) ha g1 l1 in
      let second = followed s root place tree g1 b (a ∷ []) place_1 (omega arith) hb g2 l2 in
      let third = followed s root place tree g2 c (b ∷ a ∷ []) place_2 (omega arith) hc g3 l3 in
      subst (IsMappedAt s root (a ∷ b ∷ c ∷ d ∷ []) (phys / 2 ^ 12)) (sym map_at_shared) (
        mapped-IsMappedAt s root place tree a b c d phys ha hb hc hd hp (g1 * 4096, s)
          (g2 * 4096, s) (g3 * 4096, s) first second third)

  shared_free : free_frames (map_at s root a b c d phys) ≡ free_frames s
  shared_free =
      ap free_frames map_at_shared
      ∙ leaf_free s root place tree g3 d (c ∷ b ∷ a ∷ []) place_3 refl hd
          (pointing_to (read_entry s.memory (slot g3 d)) phys)

-- The tables above a page that is mapped are there.
pub record IsCheap (s : Kernel) (root virt phys : ℕ) (t : Kernel) : Type 0 where
  pub mapped : IsMapped s root virt phys t
  pub free : free_frames t ≡ free_frames s

-- Two pages with one table have the same three upper indices.
indices_same_table :
    (v w : ℕ)
    → page_of v / 512 ≡ page_of w / 512
    → let x = init_page_map_indexer v in
      let y = init_page_map_indexer w in (x.pdp_i ≡ y.pdp_i) × (x.pd_i ≡ y.pd_i) × (x.pt_i ≡ y.pt_i)
indices_same_table v w same =
    let ((a, b, c, d), e) = init_page_map_indexer-IsInTables v in
    let ((a', b', c', d'), e') = init_page_map_indexer-IsInTables w in
    (omega arith, omega arith, omega arith)

-- Where a page of the same table is mapped already, mapping `virt` takes no frame.
pub map_memory-IsCheap :
    (s : Kernel) (root virt phys v x : ℕ) (place : ℕ → Option (List ℕ))
    → IsTree s root place
    → phys < 2 ^ 64
    → page_of v / 512 ≡ page_of virt / 512
    → walk s.memory root v ≡ some x
    → IsCheap s root virt phys (page_table_manager_map_memory s (root * 4096) virt phys)
unfolding indices
map_memory-IsCheap s root virt phys v x place tree hp same mapped =
    let t = init_page_map_indexer virt in
    let u = init_page_map_indexer v in
    let ((a, b, c, d), _) = init_page_map_indexer-IsInTables virt in
    let (p, q, r) = indices_same_table v virt same in
    let m = s.memory in
    let way = sym (walk_of_indices m root v) ∙ mapped in
    let (g1, l1, way1) = walk_through m root u.pdp_i (u.pd_i ∷ u.pt_i ∷ u.p_i ∷ []) x _ refl way in
    let (g2, l2, way2) = walk_through m g1 u.pd_i (u.pt_i ∷ u.p_i ∷ []) x _ refl way1 in
    let (g3, l3, _) = walk_through m g2 u.pt_i (u.p_i ∷ []) x _ refl way2 in
    let k1 = ap (link m root) (sym p) ∙ l1 in
    let k2 = ap (link m g1) (sym q) ∙ l2 in
    let k3 = ap (link m g2) (sym r) ∙ l3 in
    let e = map_memory-indices s root virt phys in
    subst (IsCheap s root virt phys) (sym e) (record {
      mapped = of_indices s root virt phys _ (
          shared-IsMappedAt s root place tree t.pdp_i t.pd_i t.pt_i t.p_i phys a b c d hp g1 g2 g3
            k1 k2 k3);
      free =
          shared_free s root place tree t.pdp_i t.pd_i t.pt_i t.p_i phys a b c d hp g1 g2 g3 k1 k2
            k3;
    })
