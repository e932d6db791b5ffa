-- ===== src/Paging/Leaf.antt =====
-- What a new table, and a new leaf, do to the walks.
use bbn_os.Base.{
  ℕ, suc, ◌+◌, ◌/◌, ◌<◌, ◌≡◌, ◌≢◌, inl, inr, refl, sym, ap, ◌∙◌, ◌&&◌, Option, none, some, List, [],
  ◌∷◌, arith, ◌==◌, Bool-cases, length,
}
use mathlib.Core.Option.{some_inj}
use bbn_os.Memory.{Memory}
use bbn_os.Mem.State.{Kernel}
use bbn_os.Paging.{PageDirEntry, write_entry, word_of}
use bbn_os.Paging.Entry.{slot, link, link-write_other}
use bbn_os.Paging.Walk.{walk_from, IsTree}
use bbn_os.Paging.Grow.{Grown}
use bbn_os.Paging.Fresh.{frame-kept}
use bbn_os.Memory.Words.{load8-store64}
use bbn_os.Mem.Pages.{frame}
use bbn_os.Mem.Free.{free_frames, free_frames-congr}

-- Indices of tables of 512 entries.
abbrev pub AllBelow : List ℕ → Type 0
AllBelow [] = Unit {0}
AllBelow (i ∷ is) = (i < 512) × AllBelow is

-- One level of a walk.
pub walk_step :
    (m : Memory) (f g i : ℕ) (is : List ℕ)
    → link m f i ≡ some g
    → walk_from m f (i ∷ is) ≡ walk_from m g is
unfolding walk_from
walk_step m f g i is l = rw (walk_from, l) refl

walk_stop : (m : Memory) (f i : ℕ) (is : List ℕ) → link m f i ≡ none → walk_from m f (i ∷ is) ≡ none
unfolding walk_from
walk_stop m f i is l = rw (walk_from, l) refl

-- Two memories with the same link agree on the walk where they agree from there on.
pub walk_both :
    (m m' : Memory) (f i : ℕ) (is : List ℕ) (o : Option ℕ)
    → link m f i ≡ o
    → link m' f i ≡ o
    → ((g : ℕ) → o ≡ some g → walk_from m g is ≡ walk_from m' g is)
    → walk_from m f (i ∷ is) ≡ walk_from m' f (i ∷ is)
walk_both m m' f i is none l l' below = walk_stop m f i is l ∙ sym (walk_stop m' f i is l')
walk_both m m' f i is (some g) l l' below =
    walk_step m f g i is l ∙ below g refl ∙ sym (walk_step m' f g i is l')

-- The way to a table, followed by the indices that are left.
abbrev pub onto : List ℕ → List ℕ → List ℕ
onto [] is = is
onto (i ∷ p) is = onto p (i ∷ is)

module _ (s : Kernel) (root : ℕ) (place : ℕ → Option (List ℕ)) (tree : IsTree s root place)
    (f i : ℕ) (p : List ℕ) (here : place f ≡ some p) where
  -- The same frame has the same place.
  same_place : (h : ℕ) (q : List ℕ) → place h ≡ some q → f ≡ h → p ≡ q
  same_place h q e fh = some_inj.0 (sym here ∙ ap place fh ∙ e)

  module _ (out : ℕ × Kernel) (low : length p < 3) (grown : Grown s root place f i p out) where
    -- Through the entry itself: it led there before, or the new table is empty.
    entry_both :
        (is : List ℕ)
        → AllBelow is
        → length p + suc (length is) ≡ 4
        → ((g : ℕ)
            → link s.memory f i ≡ some g
            → walk_from out.1.memory g is ≡ walk_from s.memory g is)
        → walk_from out.1.memory f (i ∷ is) ≡ walk_from s.memory f (i ∷ is)
    entry_both [] lts len below = absurd (omega arith)
    entry_both (k ∷ is) (lt, lts) len below = elim grown.grown [
      | inl l ↦
          walk_both out.1.memory s.memory f i (k ∷ is) (some grown.g) grown.linked l
            (λ g e. below g (l ∙ e))
      | inr (l, empty) ↦
          walk_step out.1.memory f grown.g i (k ∷ is) grown.linked
          ∙ walk_stop out.1.memory grown.g k is (empty k lt)
          ∙ sym (walk_stop s.memory f i (k ∷ is) l)
    ]

    grown_both :
        (h j : ℕ) (q is : List ℕ)
        → place h ≡ some q
        → j < 512
        → AllBelow is
        → length q + suc (length is) ≡ 4
        → ((g : ℕ)
            → link s.memory h j ≡ some g
            → walk_from out.1.memory g is ≡ walk_from s.memory g is)
        → walk_from out.1.memory h (j ∷ is) ≡ walk_from s.memory h (j ∷ is)
    grown_both h j q is e lt lts len below = elim (Bool-cases (f == h && i == j)) [
      | inl same ↦
          let fh : f ≡ h = ground arith in
          let ij : i ≡ j = ground arith in
          let pq = same_place h q e fh in
          let below' = rw (← fh, ← ij) at below in
          let len' : length p + suc (length is) ≡ 4 =
            ap (λ x. length x + suc (length is)) pq ∙ len in
          rw (← fh, ← ij) (entry_both is lts len' below')
      | inr other ↦
          walk_both out.1.memory s.memory h j is (link s.memory h j)
            (grown.others h j q e lt (grind arith)) refl below
    ]

    -- A new table changes no walk.
    pub grown_walk :
        (is : List ℕ) (h : ℕ) (q : List ℕ)
        → place h ≡ some q
        → AllBelow is
        → length q + length is ≡ 4
        → walk_from out.1.memory h is ≡ walk_from s.memory h is
    unfolding walk_from
    grown_walk [] h q e lts len = refl
    grown_walk (j ∷ []) h q e (lt, _) len = grown_both h j q [] e lt tt len (λ g l. refl)
    grown_walk (j ∷ k ∷ is) h q e (lt, lts) len = grown_both h j q (k ∷ is) e lt lts len (λ g l.
        grown_walk (k ∷ is) g (j ∷ q) (tree.child h j g q e (omega arith) lt l) lts (omega arith))

  module _ (full : length p ≡ 3) (small : i < 512) (entry : PageDirEntry) where
    abbrev m' : Memory
    m' = write_entry s.memory (slot f i) entry

    -- Writing an entry of the last level changes no walk but the one that ends there.
    pub leaf_walk :
        (is : List ℕ) (h : ℕ) (q : List ℕ)
        → place h ≡ some q
        → AllBelow is
        → length q + length is ≡ 4
        → onto q is ≢ onto p (i ∷ [])
        → walk_from m' h is ≡ walk_from s.memory h is
    unfolding walk_from
    leaf_walk [] h q e lts len ne = refl
    leaf_walk (j ∷ []) h q e (lt, _) len ne = elim (Bool-cases (f == h && i == j)) [
      | inl same ↦
          let fh : f ≡ h = ground arith in
          let ij : i ≡ j = ground arith in
          absurd (ne (λ t. onto (sym (same_place h q e fh) t) (sym ij t ∷ [])))
      | inr other ↦
          walk_both m' s.memory h j [] (link s.memory h j)
            (link-write_other s.memory f i h j entry small lt (grind arith)) refl (λ g l. refl)
    ]
    leaf_walk (j ∷ k ∷ is) h q e (lt, lts) len ne =
        let apart : f ≢ h = λ fh. omega (arith, ap length (same_place h q e fh)) in
        walk_both m' s.memory h j (k ∷ is) (link s.memory h j)
          (link-write_other s.memory f i h j entry small lt (inl apart)) refl
          (λ g l.
            leaf_walk (k ∷ is) g (j ∷ q) (tree.child h j g q e (omega arith) lt l) lts (omega arith)
              ne)

    -- It changes no frame, so the tables keep their shape.
    frame-m' : (j : ℕ) → frame (record s { memory = m' }) j ≡ frame s j
    unfolding write_entry
    frame-m' j = frame-kept s m' j (λ a lo hi.
        grind (arith, load8-store64 s.memory (slot f i) (word_of entry) a, tree.apart f p here a))

    pub leaf-IsTree : IsTree (record s { memory = m' }) root place
    leaf-IsTree = record {
      root_place = tree.root_place;
      taken = λ h q e. frame-m' h ∙ tree.taken h q e;
      apart = λ h q e. tree.apart h q e;
      child = λ h j g q e low lt l.
          let apart : f ≢ h = λ fh. omega (arith, ap length (same_place h q e fh)) in
          tree.child h j g q e low lt
            (sym (link-write_other s.memory f i h j entry small lt (inl apart)) ∙ l);
      bitmap_taken = λ a lo hi. frame-m' (a / 4096) ∙ tree.bitmap_taken a lo hi;
      size = tree.size;
    }

    pub leaf_free : free_frames (record s { memory = m' }) ≡ free_frames s
    leaf_free = free_frames-congr (record s { memory = m' }) s refl frame-m'
