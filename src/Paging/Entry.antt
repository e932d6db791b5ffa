-- ===== src/Paging/Entry.antt =====
-- Reading an entry of a table after a write, and the link that it holds.
use bbn_os.Base.{
  ℕ, ◌+◌, ◌*◌, ◌/◌, ◌%◌, ◌^◌, ◌≤◌, ◌<◌, ◌≡◌, ◌≢◌, ◌⊎◌, refl, ap, ◌∙◌, true, Option, none, some,
  arith, ◌==◌, if◌then◌else◌,
}
use bbn_os.Memory.{Memory, load8, load32, load64, memset, load64-congr, load8-memset}
use bbn_os.Memory.Words.{store64, load64-store64, load64-away}
use bbn_os.Paging.{PageDirEntry, read_entry, write_entry, word_of, entry_at}

-- The address of entry `i` of the table in frame `f`.
abbrev pub slot : ℕ → ℕ → ℕ
slot f i = entry_at (f * 4096) i

-- The frame to which entry `i` of the table in frame `f` leads, if it is present.
unfoldable pub link : Memory → ℕ → ℕ → Option ℕ
link m f i = let e = read_entry m (slot f i) in if e.present then some e.address else none

word_bits :
    (e : PageDirEntry)
    → (word_of e < 2 ^ 64)
      × ((word_of e % 2 == 1) ≡ e.present)
      × (word_of e / 2 ^ 12 ≡ e.address % 2 ^ 52)
word_bits e = (ground arith, ground arith, ground arith)

-- An entry that is made to point to the frame `g` leads there.
pub link-write_same :
    (m : Memory) (f i g : ℕ) (e : PageDirEntry)
    → g < 2 ^ 52
    → link (write_entry m (slot f i) (record e { present = true; address = g })) f i ≡ some g
unfolding link read_entry write_entry
link-write_same m f i g e small =
    let w = word_of (record e { present = true; address = g }) in
    let (fits, there, addr) = word_bits (record e { present = true; address = g }) in
    let back : load64 (store64 m (slot f i) w) (slot f i) ≡ w =
      load64-store64 m (slot f i) w ∙ omega (arith, fits) in
    rw (back, there) (ap (λ x. some x) (omega (arith, addr)))

link-congr :
    (m m' : Memory) (f i : ℕ)
    → load64 m (slot f i) ≡ load64 m' (slot f i)
    → link m f i ≡ link m' f i
unfolding link read_entry
link-congr m m' f i same = rw same refl

-- No other entry changes.
pub link-write_other :
    (m : Memory) (f i g j : ℕ) (e : PageDirEntry)
    → i < 512
    → j < 512
    → (f ≢ g) ⊎ (i ≢ j)
    → link (write_entry m (slot f i) e) g j ≡ link m g j
unfolding write_entry
link-write_other m f i g j e hi hj apart =
    link-congr (store64 m (slot f i) (word_of e)) m g j
      (load64-away m (slot f i) (slot g j) (word_of e) (grind arith))

blank_word : (a : ℕ) → load64 (λ x. 0) a ≡ 0
unfolding load64 load32
blank_word a = refl

load64-blank : (m : Memory) (a : ℕ) → ((k : ℕ) → k < 8 → load8 m (a + k) ≡ 0) → load64 m a ≡ 0
load64-blank m a blank = load64-congr m (λ x. 0) a blank ∙ blank_word a

-- A page of zeros is a table without entries.
pub link-blank :
    (m : Memory) (f i : ℕ)
    → i < 512
    → ((a : ℕ) → f * 4096 ≤ a → a < f * 4096 + 4096 → load8 m a ≡ 0)
    → link m f i ≡ none
unfolding link read_entry
link-blank m f i hi blank =
    let zero_word =
      load64-blank m (slot f i) (λ k h. blank (slot f i + k) (omega arith) (omega arith)) in
    rw zero_word refl

-- So is one that was filled with zeros.
pub link-zeroed : (m : Memory) (f i : ℕ) → i < 512 → link (memset m (f * 4096) 0 4096) f i ≡ none
link-zeroed m f i hi =
    link-blank (memset m (f * 4096) 0 4096) f i hi
      (λ a lo hi. load8-memset m (f * 4096) 0 4096 a ∙ ground arith)

-- What lies apart from the changed bytes stays.
pub link-kept :
    (m m' : Memory) (f i : ℕ)
    → i < 512
    → ((a : ℕ) → f * 4096 ≤ a → a < f * 4096 + 4096 → load8 m a ≡ load8 m' a)
    → link m f i ≡ link m' f i
link-kept m m' f i hi same =
    link-congr m m' f i
      (load64-congr m m' (slot f i) (λ k h. same (slot f i + k) (omega arith) (omega arith)))

pub link-zeroed_other :
    (m : Memory) (f g i : ℕ) → i < 512 → f ≢ g → link (memset m (f * 4096) 0 4096) g i ≡ link m g i
link-zeroed_other m f g i hi ne =
    link-kept (memset m (f * 4096) 0 4096) m g i hi
      (λ a lo hi'. load8-memset m (f * 4096) 0 4096 a ∙ ground arith)
