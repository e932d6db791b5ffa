-- ===== src/Paging/Grow.antt =====
-- `getNextPageTable`: it follows an entry, or hangs a new table into the tree.
use bbn_os.Base.{
  ℕ, ◌+◌, ◌*◌, ◌/◌, ◌^◌, ◌≤◌, ◌<◌, ◌≡◌, ◌≢◌, ◌⊎◌, inl, inr, refl, sym, ap, ◌∙◌, true, false, ◌&&◌,
  Option, none, some, List, [], ◌∷◌, arith, ◌==◌, if◌then◌else◌, Bool-cases, ==_self, mul64, length,
}
use mathlib.Core.Option.{some_inj}
use mathlib.Core.Path.{subst}
use bbn_os.Memory.{Memory, memset, load8-memset, load64_bound}
use bbn_os.Memory.Words.{load8-store64}
use bbn_os.Bitmap.{BitMap}
use bbn_os.Mem.State.{Kernel}
use bbn_os.Mem.Pages.{frame, request_page}
use bbn_os.Mem.Free.{free_frames, free_frames-take, Fresh, request_page-Fresh, request_page-Keeps}
use bbn_os.Paging.{read_entry, write_entry, word_of, pointing_to, get_next_page_table}
use bbn_os.Paging.Entry.{
  slot, link, link-write_same, link-write_other, link-zeroed, link-zeroed_other, link-kept,
}
use bbn_os.Paging.Walk.{IsApart, IsTree}
use bbn_os.Paging.Fresh.{frame-kept, ne_new_page, new_page-IsApart}

-- A present entry is followed, and nothing changes.
pub entry_present :
    (s : Kernel) (f i g : ℕ)
    → link s.memory f i ≡ some g
    → get_next_page_table s (slot f i) ≡ (g * 4096, s)
unfolding get_next_page_table link read_entry
entry_present s f i g l =
    let small_word = load64_bound s.memory (slot f i) in ground (arith, small_word)

-- The table that `get_next_page_table` returns for entry `i` of the table in frame `f`, whose place
-- is `p`: its frame `g`, and the places after the call. Where the entry was empty, so is the new
-- table.
pub record Grown (s : Kernel) (root : ℕ) (place : ℕ → Option (List ℕ)) (f i : ℕ) (p : List ℕ)
    (out : ℕ × Kernel) : Type 0 where
  pub g : ℕ
  pub place' : ℕ → Option (List ℕ)
  pub address : out.0 ≡ g * 4096
  pub tree : IsTree out.1 root place'
  pub there : place' g ≡ some (i ∷ p)
  pub kept : (h : ℕ) (q : List ℕ) → place h ≡ some q → place' h ≡ some q
  pub linked : link out.1.memory f i ≡ some g
  pub others :
      (h j : ℕ) (q : List ℕ)
      → place h ≡ some q
      → j < 512
      → (f ≢ h) ⊎ (i ≢ j)
      → link out.1.memory h j ≡ link s.memory h j
  pub grown :
      (link s.memory f i ≡ some g)
      ⊎ ((link s.memory f i ≡ none) × ((j : ℕ) → j < 512 → link out.1.memory g j ≡ none))
  pub cost : free_frames s ≤ free_frames out.1 + 1

module _ (s : Kernel) (root : ℕ) (place : ℕ → Option (List ℕ)) (tree : IsTree s root place)
    (f i : ℕ) (p : List ℕ) (here : place f ≡ some p) (low : length p < 3) (small : i < 512) where
  -- The entry is present.
  unfoldable pub followed :
      (g : ℕ) → link s.memory f i ≡ some g → Grown s root place f i p (g * 4096, s)
  followed g linked = record {
    g = g;
    place' = place;
    address = refl;
    tree = tree;
    there = tree.child f i g p here low small linked;
    kept = λ h q e. e;
    linked = linked;
    others = λ h j q e lt ne. refl;
    grown = inl linked;
    cost = omega arith;
  }

  module _ (absent : link s.memory f i ≡ none) (fresh : Fresh s (request_page s)) where
    abbrev bm : BitMap
    bm = s.mem_info.mem_bit_map

    abbrev t : Kernel
    t = (request_page s).1

    abbrev m1 : Memory
    m1 = memset t.memory (fresh.k * 4096) 0 4096

    abbrev m2 : Memory
    m2 = write_entry m1 (slot f i) (pointing_to (read_entry m1 (slot f i)) (fresh.k * 4096))

    table_ne_new_page : (h : ℕ) (q : List ℕ) → place h ≡ some q → fresh.k ≢ h
    table_ne_new_page h q e = ne_new_page s fresh h (tree.taken h q e)

    page-IsApart : IsApart bm fresh.k
    page-IsApart = new_page-IsApart s tree.bitmap_taken fresh

    -- The pages of the new table and of the old one leave the bits of the bitmap alone.
    frame-m2 :
        (j : ℕ) → frame (record t { memory = m2 }) j ≡ (if j == fresh.k then true else frame s j)
    unfolding write_entry
    frame-m2 j =
        let same_map = (request_page-Keeps s).bit_map in
        frame-kept t m2 j (λ a lo hi.
          let inside = rw same_map at lo in
          let inside' = rw same_map at hi in
          let e = pointing_to (read_entry m1 (slot f i)) (fresh.k * 4096) in
          grind (
            arith,
            load8-store64 m1 (slot f i) (word_of e) a,
            load8-memset t.memory (fresh.k * 4096) 0 4096 a,
            tree.apart f p here a,
            page-IsApart a,
          ))
        ∙ fresh.now_taken j

    -- The links of the tables that were there before, but for the entry itself.
    link-m2 :
        (h j : ℕ) (q : List ℕ)
        → place h ≡ some q
        → j < 512
        → (f ≢ h) ⊎ (i ≢ j)
        → link m2 h j ≡ link s.memory h j
    link-m2 h j q e lt ne =
        link-write_other m1 f i h j _ small lt ne
        ∙ link-zeroed_other t.memory fresh.k h j lt (table_ne_new_page h q e)
        ∙ link-kept t.memory s.memory h j lt
            (λ a lo hi. (request_page-Keeps s).bytes a (tree.apart h q e a lo hi))

    link-m2_here : link m2 f i ≡ some fresh.k
    link-m2_here =
        let e = read_entry m1 (slot f i) in
        let quotient : fresh.k * 4096 / 2 ^ 12 ≡ fresh.k = omega arith in
        link-write_same m1 f i (fresh.k * 4096 / 2 ^ 12) (record e { read_write = true })
          (omega (arith, fresh.fits))
        ∙ ap (λ x. some x) quotient

    link-m2_new : (j : ℕ) → j < 512 → link m2 fresh.k j ≡ none
    link-m2_new j lt =
        link-write_other m1 f i fresh.k j _ small lt (inl (λ e. table_ne_new_page f p here (sym e)))
        ∙ link-zeroed t.memory fresh.k j lt

    new_place : ℕ → Option (List ℕ)
    new_place h = if h == fresh.k then some (i ∷ p) else place h

    new_place_old : (h : ℕ) (q : List ℕ) → place h ≡ some q → new_place h ≡ some q
    unfolding new_place
    new_place_old h q e = ground (arith, table_ne_new_page h q e)

    new_place_cases :
        (h : ℕ) (q : List ℕ)
        → new_place h ≡ some q
        → ((h ≡ fresh.k) × (q ≡ i ∷ p)) ⊎ (place h ≡ some q)
    unfolding new_place
    new_place_cases h q e = elim (Bool-cases (h == fresh.k)) [
      | inl new ↦ inl (ground arith, sym (some_inj.0 (rw new at e)))
      | inr old ↦ inr (rw old at e)
    ]

    child_new :
        (h j g : ℕ) → h ≡ fresh.k → j < 512 → link m2 h j ≡ some g → new_place g ≡ some (j ∷ i ∷ p)
    child_new h j g new lt l =
        let empty : none ≡ some g = sym (link-m2_new j lt) ∙ ap (λ x. link m2 x j) (sym new) ∙ l in
        cc

    child_old :
        (h j g : ℕ) (q : List ℕ)
        → place h ≡ some q
        → length q < 3
        → j < 512
        → link m2 h j ≡ some g
        → new_place g ≡ some (j ∷ q)
    unfolding new_place
    child_old h j g q e low_q lt l = elim (Bool-cases (f == h && i == j)) [
      | inl same ↦
          let fh : f ≡ h = ground arith in
          let ij : i ≡ j = ground arith in
          let pq : p ≡ q = some_inj.0 (sym here ∙ ap place fh ∙ e) in
          let gk : fresh.k ≡ g =
            some_inj.0 (sym link-m2_here ∙ ap (λ x. link m2 x i) fh ∙ ap (link m2 h) ij ∙ l) in
          rw (← gk, ==_self fresh.k, ij, pq) refl
      | inr other ↦
          let before = tree.child h j g q e low_q lt (sym (link-m2 h j q e lt (grind arith)) ∙ l) in
          new_place_old g (j ∷ q) before
    ]

    hung-IsTree : IsTree (record t { memory = m2 }) root new_place
    hung-IsTree =
        let same_map = (request_page-Keeps s).bit_map in
        record {
          root_place = new_place_old root [] tree.root_place;
          taken = λ h q e. elim (new_place_cases h q e) [
            | inl (new, _) ↦ frame-m2 h ∙ ground arith
            | inr old ↦ frame-m2 h ∙ ground (arith, tree.taken h q old)
          ];
          apart = λ h q e. elim (new_place_cases h q e) [
            | inl (new, _) ↦ rw (same_map, new) page-IsApart
            | inr old ↦ rw same_map (tree.apart h q old)
          ];
          child = λ h j g q e low_q lt l. elim (new_place_cases h q e) [
            | inl (new, path) ↦ child_new h j g new lt l ∙ ap (λ x. some (j ∷ x)) (sym path)
            | inr old ↦ child_old h j g q old low_q lt l
          ];
          bitmap_taken = λ a lo hi.
              frame-m2 (a / 4096)
              ∙ ground (arith, tree.bitmap_taken a (rw same_map at lo) (rw same_map at hi));
          size = rw same_map tree.size;
        }

    hung : Grown s root place f i p (fresh.k * 4096, record t { memory = m2 })
    unfolding new_place
    hung = record {
      g = fresh.k;
      place' = new_place;
      address = refl;
      tree = hung-IsTree;
      there = ground arith;
      kept = new_place_old;
      linked = link-m2_here;
      others = link-m2;
      grown = inr (absent, link-m2_new);
      cost = omega (
        arith,
        free_frames-take s (record t { memory = m2 }) fresh.k
            (ap (λ bm. mul64 bm.size 8) (request_page-Keeps s).bit_map) fresh.inside fresh.free
            frame-m2,
      );
    }

  -- What the call does with the page at `ret`.
  abbrev hang : ℕ → ℕ × Kernel
  hang ret =
      let t = (request_page s).1 in
      let m1 = memset t.memory ret 0 4096 in
      (
        ret,
        record t {
          memory = write_entry m1 (slot f i) (pointing_to (read_entry m1 (slot f i)) ret);
        },
      )

  not_present : link s.memory f i ≡ none → (read_entry s.memory (slot f i)).present ≡ false
  unfolding link
  not_present l = ground arith

  entry_absent :
      link s.memory f i ≡ none → get_next_page_table s (slot f i) ≡ hang (request_page s).0
  unfolding get_next_page_table
  entry_absent l = rw (not_present l) refl

  next_of :
      (o : Option ℕ)
      → link s.memory f i ≡ o
      → 0 < free_frames s
      → Grown s root place f i p (get_next_page_table s (slot f i))
  next_of (some g) l free =
      subst (Grown s root place f i p) (sym (entry_present s f i g l)) (followed g l)
  next_of none l free =
      let fresh = request_page-Fresh s tree.size free in
      subst (Grown s root place f i p) (sym (entry_absent l ∙ ap hang fresh.address)) (hung l fresh)

  -- While a frame is free, the call returns the table to which the entry leads.
  pub get_next_page_table-Grown :
      0 < free_frames s → Grown s root place f i p (get_next_page_table s (slot f i))
  get_next_page_table-Grown free = next_of (link s.memory f i) refl free
