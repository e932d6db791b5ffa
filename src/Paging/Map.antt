-- ===== src/Paging/Map.antt =====
-- `pageTableManagerMapMemory`: it maps the page of one address, and no other.
use bbn_os.Base.{
  ℕ, ◌+◌, ◌*◌, ◌/◌, ◌%◌, ◌^◌, ◌≤◌, ◌<◌, ◌≡◌, ◌≢◌, inl, inr, refl, sym, ap, ◌∙◌, true, false, Option,
  some, List, [], ◌∷◌, arith, ◌==◌, if◌then◌else◌, Bool-cases, length,
}
use mathlib.Core.Path.{subst}
use mathlib.Core.Option.{some_inj}
use bbn_os.Memory.{Memory}
use bbn_os.Mem.State.{Kernel}
use bbn_os.Mem.Free.{free_frames}
use bbn_os.Paging.{
  PageDirEntry, init_page_map_indexer, write_entry, read_entry, entry_at, pointing_to,
  get_next_page_table, page_table_manager_map_memory,
}
use bbn_os.Paging.Index.{init_page_map_indexer-IsInTables}
use bbn_os.Paging.Entry.{slot, link, link-write_same, link-write_other}
use bbn_os.Paging.Walk.{walk_from, walk, indices, IsTree}
use bbn_os.Paging.Grow.{Grown, get_next_page_table-Grown}
use bbn_os.Paging.Leaf.{AllBelow, walk_step, grown_walk, leaf_walk, leaf-IsTree, leaf_free}

-- The page of an address, by its low 48 bits.
abbrev pub page_of : ℕ → ℕ
page_of addr = addr % 2 ^ 48 / 2 ^ 12

number_of : List ℕ → ℕ
number_of (a ∷ b ∷ c ∷ d ∷ []) = ((a * 512 + b) * 512 + c) * 512 + d
number_of is = 0

-- The indices tell pages apart, and depend on nothing else.
number_of-indices : (addr : ℕ) → number_of (indices addr) ≡ page_of addr
unfolding number_of indices
number_of-indices addr = (init_page_map_indexer-IsInTables addr).1

indices-AllBelow : (addr : ℕ) → AllBelow (indices addr)
unfolding indices
indices-AllBelow addr =
    let ((a, b, c, d), _) = init_page_map_indexer-IsInTables addr in (a, (b, (c, (d, tt))))

indices_same_page : (v w : ℕ) → page_of v ≡ page_of w → indices v ≡ indices w
unfolding indices
indices_same_page v w same =
    let ((a, b, c, d), e) = init_page_map_indexer-IsInTables v in
    let ((a', b', c', d'), e') = init_page_map_indexer-IsInTables w in
    let x = init_page_map_indexer v in
    let y = init_page_map_indexer w in
    let p : x.pdp_i ≡ y.pdp_i = omega arith in
    let q : x.pd_i ≡ y.pd_i = omega arith in
    let r : x.pt_i ≡ y.pt_i = omega arith in
    let t : x.p_i ≡ y.p_i = omega arith in λ i. p i ∷ q i ∷ r i ∷ t i ∷ []

-- The tables after the page of `virt` is mapped to that of `phys`.
pub record IsMapped (s : Kernel) (root : ℕ) (virt phys : ℕ) (t : Kernel) : Type 0 where
  pub place : ℕ → Option (List ℕ)
  pub tree : IsTree t root place
  pub walks :
      (v : ℕ)
      → walk t.memory root v
        ≡ (if page_of v == page_of virt then some (phys / 2 ^ 12) else walk s.memory root v)
  pub cost : free_frames s ≤ free_frames t + 3

-- Tables at different depths have different frames.
apart_by_depth :
    (place : ℕ → Option (List ℕ)) {x y : ℕ} (p q : List ℕ)
    → place x ≡ some p
    → place y ≡ some q
    → length p ≢ length q
    → x ≢ y
apart_by_depth place p q ex ey ne same = ne (ap length (some_inj.0 (sym ex ∙ ap place same ∙ ey)))

-- The walks after a map of the way `is` to the frame `g`, at a cost of at most three frames.
pub record IsMappedAt (s : Kernel) (root : ℕ) (way : List ℕ) (g : ℕ) (t : Kernel) : Type 0 where
  pub place : ℕ → Option (List ℕ)
  pub tree : IsTree t root place
  pub mapped_walk : walk_from t.memory root way ≡ some g
  pub other_walks :
      (is : List ℕ)
      → AllBelow is
      → length is ≡ 4
      → is ≢ way
      → walk_from t.memory root is ≡ walk_from s.memory root is
  pub cost : free_frames s ≤ free_frames t + 3

-- The three tables on the way, and the last entry.
module _ (s : Kernel) (root : ℕ) (place : ℕ → Option (List ℕ)) (tree : IsTree s root place)
    (a b c d phys : ℕ) (ha : a < 512) (hb : b < 512) (hc : c < 512) (hd : d < 512)
    (hp : phys < 2 ^ 64) (o1 o2 o3 : ℕ × Kernel) (g1 : Grown s root place root a [] o1)
    (g2 : Grown o1.1 root g1.place' g1.g b (a ∷ []) o2)
    (g3 : Grown o2.1 root g2.place' g2.g c (b ∷ a ∷ []) o3) where
  abbrev way : List ℕ
  way = a ∷ b ∷ c ∷ d ∷ []

  abbrev leaf : PageDirEntry
  leaf = pointing_to (read_entry o3.1.memory (slot g3.g d)) phys

  abbrev mapped : Kernel
  mapped = record o3.1 { memory = write_entry o3.1.memory (slot g3.g d) leaf }

  root_2 : g2.place' root ≡ some []
  root_2 = g2.kept root [] (g1.kept root [] tree.root_place)

  root_3 : g3.place' root ≡ some []
  root_3 = g3.kept root [] root_2

  first_3 : g3.place' g1.g ≡ some (a ∷ [])
  first_3 = g3.kept g1.g (a ∷ []) (g2.kept g1.g (a ∷ []) g1.there)

  second_3 : g3.place' g2.g ≡ some (b ∷ a ∷ [])
  second_3 = g3.kept g2.g (b ∷ a ∷ []) g2.there

  link_1 : link o3.1.memory root a ≡ some g1.g
  link_1 =
      g3.others root a [] root_2 ha
        (inl (apart_by_depth g2.place' (b ∷ a ∷ []) [] g2.there root_2 (omega arith)))
      ∙ g2.others root a [] (g1.kept root [] tree.root_place) ha (
          inl (
            apart_by_depth g1.place' (a ∷ []) [] g1.there (g1.kept root [] tree.root_place)
              (omega arith)))
      ∙ g1.linked

  link_2 : link o3.1.memory g1.g b ≡ some g2.g
  link_2 =
      g3.others g1.g b (a ∷ []) (g2.kept g1.g (a ∷ []) g1.there) hb (
        inl (
          apart_by_depth g2.place' (b ∷ a ∷ []) (a ∷ []) g2.there (g2.kept g1.g (a ∷ []) g1.there)
            (omega arith)))
      ∙ g2.linked

  -- The last write touches none of the three links.
  kept_link :
      (h j : ℕ) (q : List ℕ)
      → g3.place' h ≡ some q
      → length q < 3
      → j < 512
      → link mapped.memory h j ≡ link o3.1.memory h j
  kept_link h j q e low lt =
      link-write_other o3.1.memory g3.g d h j leaf hd lt
        (inl (apart_by_depth g3.place' (c ∷ b ∷ a ∷ []) q g3.there e (omega arith)))

  walk_mapped : walk_from mapped.memory root way ≡ some (phys / 2 ^ 12)
  unfolding walk_from
  walk_mapped =
      walk_step mapped.memory root g1.g a (b ∷ c ∷ d ∷ [])
        (kept_link root a [] root_3 (omega arith) ha ∙ link_1)
      ∙ walk_step mapped.memory g1.g g2.g b (c ∷ d ∷ [])
          (kept_link g1.g b (a ∷ []) first_3 (omega arith) hb ∙ link_2)
      ∙ walk_step mapped.memory g2.g g3.g c (d ∷ [])
          (kept_link g2.g c (b ∷ a ∷ []) second_3 (omega arith) hc ∙ g3.linked)
      ∙ walk_step mapped.memory g3.g (phys / 2 ^ 12) d [] (
          link-write_same o3.1.memory g3.g d (phys / 2 ^ 12)
            (record (read_entry o3.1.memory (slot g3.g d)) { read_write = true }) (omega arith))
      ∙ refl

  walk_other :
      (is : List ℕ)
      → AllBelow is
      → length is ≡ 4
      → is ≢ way
      → walk_from mapped.memory root is ≡ walk_from s.memory root is
  walk_other is lts len' ne =
      let len : 0 + length is ≡ 4 = omega arith in
      leaf_walk o3.1 root g3.place' g3.tree g3.g d (c ∷ b ∷ a ∷ []) g3.there (omega arith) hd leaf
        is root [] root_3 lts len ne
      ∙ grown_walk o2.1 root g2.place' g2.tree g2.g c (b ∷ a ∷ []) g2.there o3 (omega arith) g3 is
          root [] root_2 lts len
      ∙ grown_walk o1.1 root g1.place' g1.tree g1.g b (a ∷ []) g1.there o2 (omega arith) g2 is root
          [] (g1.kept root [] tree.root_place) lts len
      ∙ grown_walk s root place tree root a [] tree.root_place o1 (omega arith) g1 is root []
          tree.root_place lts len

  pub mapped-IsMappedAt : IsMappedAt s root way (phys / 2 ^ 12) mapped
  mapped-IsMappedAt =
      let p = c ∷ b ∷ a ∷ [] in
      record {
        place = g3.place';
        tree = leaf-IsTree o3.1 root g3.place' g3.tree g3.g d p g3.there refl hd leaf;
        mapped_walk = walk_mapped;
        other_walks = walk_other;
        cost = omega (
          arith,
          g1.cost,
          g2.cost,
          g3.cost,
          leaf_free o3.1 root g3.place' g3.tree g3.g d p g3.there refl hd leaf,
        );
      }

-- The last write of `page_table_manager_map_memory`.
abbrev pub last_write : Kernel → (pt d phys : ℕ) → Kernel
last_write s pt d phys =
    let p = entry_at pt d in
    record s { memory = write_entry s.memory p (pointing_to (read_entry s.memory p) phys) }

-- `page_table_manager_map_memory` at the indices `a`, `b`, `c` and `d`.
abbrev pub map_at : Kernel → (root a b c d phys : ℕ) → Kernel
map_at s root a b c d phys =
    let o1 = get_next_page_table s (slot root a) in
    let o2 = get_next_page_table o1.1 (entry_at o1.0 b) in
    let o3 = get_next_page_table o2.1 (entry_at o2.0 c) in last_write o3.1 o3.0 d phys

pub map_memory-indices :
    (s : Kernel) (root virt phys : ℕ)
    → let t = init_page_map_indexer virt in
      page_table_manager_map_memory s (root * 4096) virt phys
      ≡ map_at s root t.pdp_i t.pd_i t.pt_i t.p_i phys
unfolding page_table_manager_map_memory
map_memory-indices s root virt phys = refl

module _ (s : Kernel) (root : ℕ) (place : ℕ → Option (List ℕ)) (tree : IsTree s root place)
    (enough : 3 ≤ free_frames s) (a b c d phys : ℕ) (ha : a < 512) (hb : b < 512) (hc : c < 512)
    (hd : d < 512) (hp : phys < 2 ^ 64) where
  map_at-IsMappedAt :
      IsMappedAt s root (a ∷ b ∷ c ∷ d ∷ []) (phys / 2 ^ 12) (map_at s root a b c d phys)
  map_at-IsMappedAt =
      let o1 = get_next_page_table s (slot root a) in
      let g1 =
        get_next_page_table-Grown s root place tree root a [] tree.root_place (omega arith) ha
          (omega arith) in
      let o2 = get_next_page_table o1.1 (entry_at o1.0 b) in
      let g2 : Grown o1.1 root g1.place' g1.g b (a ∷ []) o2 =
        subst
          (λ x. Grown o1.1 root g1.place' g1.g b (a ∷ []) (get_next_page_table o1.1 (entry_at x b)))
          (sym g1.address)
          (get_next_page_table-Grown o1.1 root g1.place' g1.tree g1.g b (a ∷ []) g1.there
            (omega arith) hb (omega (arith, g1.cost))) in
      let o3 = get_next_page_table o2.1 (entry_at o2.0 c) in
      let g3 : Grown o2.1 root g2.place' g2.g c (b ∷ a ∷ []) o3 =
        subst
          (λ x.
            Grown o2.1 root g2.place' g2.g c (b ∷ a ∷ []) (get_next_page_table o2.1 (entry_at x c)))
          (sym g2.address)
          (get_next_page_table-Grown o2.1 root g2.place' g2.tree g2.g c (b ∷ a ∷ []) g2.there
            (omega arith) hc (omega (arith, g1.cost, g2.cost))) in
      subst (λ x. IsMappedAt s root (a ∷ b ∷ c ∷ d ∷ []) (phys / 2 ^ 12) (last_write o3.1 x d phys))
        (sym g3.address)
        (mapped-IsMappedAt s root place tree a b c d phys ha hb hc hd hp o1 o2 o3 g1 g2 g3)

indices-length : (addr : ℕ) → length (indices addr) ≡ 4
unfolding indices
indices-length addr = refl

indices-ne : (v w : ℕ) → (page_of v == page_of w) ≡ false → indices v ≢ indices w
indices-ne v w other same =
    let e : page_of v ≡ page_of w =
      sym (number_of-indices v) ∙ ap number_of same ∙ number_of-indices w in
    ground arith

map_memory-IsMappedAt :
    (s : Kernel) (root virt phys : ℕ) (place : ℕ → Option (List ℕ))
    → IsTree s root place
    → 3 ≤ free_frames s
    → phys < 2 ^ 64
    → IsMappedAt s root
        (indices virt)
        (phys / 2 ^ 12)
        (page_table_manager_map_memory s (root * 4096) virt phys)
unfolding indices
map_memory-IsMappedAt s root virt phys place tree enough hp =
    let t = init_page_map_indexer virt in
    let ((a, b, c, d), _) = init_page_map_indexer-IsInTables virt in
    subst (IsMappedAt s root (indices virt) (phys / 2 ^ 12))
      (sym (map_memory-indices s root virt phys))
      (map_at-IsMappedAt s root place tree enough t.pdp_i t.pd_i t.pt_i t.p_i phys a b c d hp)

pub walk_of_indices : (m : Memory) (root v : ℕ) → walk m root v ≡ walk_from m root (indices v)
unfolding walk
walk_of_indices m root v = refl

pub of_indices :
    (s : Kernel) (root virt phys : ℕ) (t : Kernel)
    → IsMappedAt s root (indices virt) (phys / 2 ^ 12) t
    → IsMapped s root virt phys t
of_indices s root virt phys t done = record {
  place = done.place;
  tree = done.tree;
  walks = λ v. elim (Bool-cases (page_of v == page_of virt)) [
    | inl same ↦
        walk_of_indices t.memory root v
        ∙ ap (walk_from t.memory root) (indices_same_page v virt (ground arith))
        ∙ done.mapped_walk
        ∙ rw same refl
    | inr other ↦
        walk_of_indices t.memory root v
        ∙ done.other_walks (indices v) (indices-AllBelow v) (indices-length v)
            (indices-ne v virt other)
        ∙ sym (walk_of_indices s.memory root v)
        ∙ rw other refl
  ];
  cost = done.cost;
}

-- Over tables that keep their shape, with three free frames, mapping the page of `virt` to that of
-- `phys` makes the walk of every address of that page (by its low 48 bits) end in the page of `phys`,
-- and changes the walk of no other address. The tables keep their shape, and at most three frames
-- are used.
pub map_memory-IsMapped :
    (s : Kernel) (root virt phys : ℕ) (place : ℕ → Option (List ℕ))
    → IsTree s root place
    → 3 ≤ free_frames s
    → phys < 2 ^ 64
    → IsMapped s root virt phys (page_table_manager_map_memory s (root * 4096) virt phys)
map_memory-IsMapped s root virt phys place tree enough hp =
    of_indices s root virt phys _ (map_memory-IsMappedAt s root virt phys place tree enough hp)
