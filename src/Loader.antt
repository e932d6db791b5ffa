-- ===== src/Loader.antt =====
-- boot/uefi/gnu-efi/bootloader/uefi_main.c: the loader of the kernel. The services of the firmware are
-- a parameter: a type of states of the machine, and a record of the calls that the loader makes.
-- What it prints is left out. `none` is what C leaves undefined: a pointer that is null or was never
-- set is followed.
pub mod Files
pub mod Elf
pub mod Start
pub mod Laws
pub mod Compare
pub mod Segments
pub mod Retry
pub mod Toy
pub mod Tests
use bbn_os.Base.{
  ℕ, zero, suc, ◌+◌, ◌-◌, ◌*◌, ◌/◌, ◌%◌, ◌^◌, ◌≤◌, ◌<◌, ◌≡◌, ◌≢◌, ◌⊎◌, ◌↔◌, inl, inr, refl, sym, ap,
  ◌∙◌, Bool, true, false, not, ◌&&◌, ◌||◌, Option, none, some, List, [], ◌∷◌, ◌++◌, arith, ◌==◌,
  ltb, leb, if◌then◌else◌, Bool-cases, ==_iff, ==_self, ==_ne, add64, sub64, mul64, min, bit_and,
  bit_or, length, get_or,
}
use bbn_os.Memory.{Memory, load8}

-- What `gop->Mode` says.
pub record GopMode : Type 0 where
  pub fb_base : ℕ
  pub fb_size : ℕ
  pub horizontal : ℕ
  pub vertical : ℕ
  pub pixels_per_scanline : ℕ

-- The statuses of `GetMemoryMap` that the loader tells apart.
pub data MapStatus : Type 0 where
  success : MapStatus
  too_small : MapStatus
  failed : MapStatus

-- What `GetMemoryMap` returns and stores.
pub record MapAnswer : Type 0 where
  pub status : MapStatus
  pub map_size : ℕ
  pub map_key : ℕ
  pub desc_size : ℕ

-- A status that is no success is `none`; a status that the loader ignores has no place here. Pointers
-- and files are numbers.
pub record Firmware (W : Type 0) : Type 0 where
  pub memory : W → Memory
  pub locate_gop : W → Option GopMode × W
  pub image_device : W → Option ℕ × W
  pub file_system : ℕ → W → W
  pub open_root : ℕ → W → ℕ × W
  pub open_file : (directory : ℕ) → (path : List ℕ) → W → Option ℕ × W
  pub read : (file size buffer : ℕ) → W → W
  pub set_position : (file position : ℕ) → W → W
  pub allocate_pool : (size : ℕ) → W → Option ℕ × W
  pub free_pool : (buffer : ℕ) → W → W
  pub allocate_pages : (address pages : ℕ) → W → W
  pub get_memory_map : (size buffer : ℕ) → W → MapAnswer × W
  pub exit_boot_services : (key : ℕ) → W → W

abbrev pub Run : Type 0 → Type 0 → Type 0
Run W A = W → Option (A × W)

infixl 5 ◌>>=◌ ◌>>◌
abbrev pub ◌>>=◌ : {W A B : Type 0} → Run W A → (A → Run W B) → Run W B
◌>>=◌ m f w = elim (m w) [ none ↦ none | some (a, w') ↦ f a w' ]

abbrev pub ◌>>◌ : {W A B : Type 0} → Run W A → Run W B → Run W B
m >> k = m >>= λ _. k

abbrev pub return : {W A : Type 0} → A → Run W A
return a w = some (a, w)

-- A call that returns a value, one that returns none, and a pointer that the loader follows.
abbrev pub call : {W A : Type 0} → (W → A × W) → Run W A
call op w = some (op w)

abbrev pub perform : {W : Type 0} → (W → W) → Run W (Unit {0})
perform op w = some (tt, op w)

abbrev pub follow : {W A : Type 0} → Option A → Run W A
follow none w = none
follow (some a) w = some (a, w)

module _ {W : Type 0} (fw : Firmware W) where
  -- The pointer that `AllocatePool` sets.
  abbrev pub pool : ℕ → Run W ℕ
  pool size = do p ← call (fw.allocate_pool size); follow p

  -- A byte of the memory.
  abbrev pub peek : ℕ → Run W ℕ
  peek a w = some (load8 (fw.memory w) a, w)
