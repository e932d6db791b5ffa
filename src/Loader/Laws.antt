-- ===== src/Loader/Laws.antt =====
-- What the loader relies on of the firmware: the documented behaviour of the calls on files and pages.
use bbn_os.Base.{ℕ, ◌+◌, ◌*◌, ◌≤◌, ◌<◌, ◌≡◌, ◌⊎◌}
use bbn_os.Memory.{Memory, load8}
use bbn_os.Loader.{Firmware}
use bbn_os.Loader.Elf.{ElfFormat}

-- `a` is none of the `n` addresses from `base` on.
abbrev pub IsOutside : (base n a : ℕ) → Type 0
IsOutside base n a = (a < base) ⊎ (base + n ≤ a)

-- The bytes of each file, and their number.
pub record Files : Type 0 where
  pub content : ℕ → ℕ → ℕ
  pub file_length : ℕ → ℕ

-- A read copies the bytes from the file's position on, as far as the file goes, and changes nothing
-- else of the memory; a position is set and kept; pages that are allocated lose what they held, but no
-- other byte changes.
pub record FirmwareLaws {W : Type 0} (fw : Firmware W) (files : Files) : Type 0 where
  pub position : ℕ → W → ℕ
  pub read_inside :
      (f n b : ℕ) (w : W) (k : ℕ)
      → k < n
      → position f w + k < files.file_length f
      → load8 (fw.memory (fw.read f n b w)) (b + k) ≡ files.content f (position f w + k)
  pub read_outside :
      (f n b : ℕ) (w : W) (a : ℕ)
      → IsOutside b n a
      → load8 (fw.memory (fw.read f n b w)) a ≡ load8 (fw.memory w) a
  pub position_set : (f p : ℕ) (w : W) → position f (fw.set_position f p w) ≡ p
  pub set_memory :
      (f p : ℕ) (w : W) (a : ℕ)
      → load8 (fw.memory (fw.set_position f p w)) a ≡ load8 (fw.memory w) a
  pub pages_outside :
      (address pages : ℕ) (w : W) (a : ℕ)
      → IsOutside address (pages * 4096) a
      → load8 (fw.memory (fw.allocate_pages address pages w)) a ≡ load8 (fw.memory w) a
  pub pool_position : (f n : ℕ) (w : W) → position f ((fw.allocate_pool n w).1) ≡ position f w

-- A program header is the value of its bytes, of which there are some.
pub record ElfLaws (elf : ElfFormat) : Type 0 where
  pub no_empty : 0 < elf.segment_size
  pub entry_bytes :
      (m m' : Memory) (p : ℕ)
      → ((k : ℕ) → k < elf.segment_size → load8 m (p + k) ≡ load8 m' (p + k))
      → elf.read_segment m p ≡ elf.read_segment m' p
