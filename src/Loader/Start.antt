-- ===== src/Loader/Start.antt =====
-- boot/uefi/gnu-efi/bootloader/uefi_main.c: the memory map, and `efi_main`. The two calls of `GetInfo`,
-- whose result is not used, are left out: they do not move the file's position.
use bbn_os.Base.{ℕ, zero, suc, ◌+◌, ◌*◌, Bool, Option, none, some, List}
use bbn_os.Console.{FbInfo}
use bbn_os.Loader.{
  Firmware, success, too_small, failed, Run, ◌>>=◌, ◌>>◌, return, call, perform, follow, pool,
}
use bbn_os.Loader.Files.{LoadedFont, load_file, load_psf1_font, initialize_gop}
use bbn_os.Loader.Elf.{ElfHeader, ElfFormat, memcmp, is_bad_format, load_segments}

-- A map that was read: where it is, its size and key, and the size of an entry.
pub record ReadMap : Type 0 where
  pub buffer : ℕ
  pub map_size : ℕ
  pub map_key : ℕ
  pub desc_size : ℕ

-- `aborted` is EFI_ABORTED.
pub data MapResult : Type 0 where
  aborted : MapResult
  got : ReadMap → MapResult

-- What the kernel is started with.
pub record BootRecord : Type 0 where
  pub entry : ℕ
  pub framebuffer : FbInfo
  pub font : Option LoadedFont
  pub map : ReadMap

pub data LoaderResult : Type 0 where
  no_framebuffer : LoaderResult
  no_memory_map : LoaderResult
  started : BootRecord → LoaderResult

-- The buffer after `AllocatePool`: without memory it stays what it was.
abbrev pub allocated_or : Option ℕ → ℕ → ℕ
allocated_or none buffer = buffer
allocated_or (some p) buffer = p

module _ {W : Type 0} (fw : Firmware W) where
  -- The do-while loop with `n` rounds left; `none` is a loop that goes on.
  unfoldable pub map_loop : (n size buffer : ℕ) → W → Option (MapResult × W)
  map_loop zero size buffer w = none
  map_loop (suc n) size buffer w =
      let (p, w1) = fw.allocate_pool size w in
      let buffer' = allocated_or p buffer in
      let (answer, w2) = fw.get_memory_map size buffer' w1 in
      elim answer.status [
        | success ↦ some (
          got (record {
            buffer = buffer';
            map_size = answer.map_size;
            map_key = answer.map_key;
            desc_size = answer.desc_size;
          }),
          w2,
        )
        | too_small ↦ map_loop n answer.map_size buffer' (fw.free_pool buffer' w2)
        | failed ↦ some (aborted, fw.free_pool buffer' w2)
      ]

  -- The block around the loop: the first call asks for the size.
  unfoldable pub read_memory_map : (rounds : ℕ) → W → Option (MapResult × W)
  read_memory_map rounds w =
      let (answer, w') = fw.get_memory_map 0 0 w in map_loop rounds answer.map_size 0 w'

module _ {W : Type 0} (fw : Firmware W) (elf : ElfFormat) where
  -- The program headers, and the segments. The counts of 16 bits are multiplied as an `int`.
  unfoldable pub load_kernel : (kernel : ℕ) → ElfHeader → Run W (Unit {0})
  load_kernel kernel h = do
    perform (fw.set_position kernel h.e_phoff)
    phdrs ← pool fw (h.e_phnum * h.e_phentsize)
    perform (fw.read kernel (h.e_phnum * h.e_phentsize) phdrs)
    λ w.
        elim (load_segments fw elf kernel (h.e_phnum + 1) phdrs (phdrs + h.e_phnum * h.e_phentsize)
          h.e_phentsize w) [ none ↦ none | some w' ↦ some (tt, w') ]

  -- From the memory map to the start of the kernel.
  unfoldable pub finish : (rounds entry : ℕ) → Option LoadedFont → FbInfo → Run W LoaderResult
  finish rounds entry font framebuffer = do
    result ← read_memory_map fw rounds
    elim result [
      | aborted ↦ return no_memory_map
      | got map ↦ (do
        perform (fw.exit_boot_services map.map_key)
        return
            (started (record { entry = entry; framebuffer = framebuffer; font = font; map = map })))
    ]

  -- `efi_main`; `header_at` is the place of the local `header`, and `elf_magic` that of the four
  -- characters that an ELF file starts with. The kernel's format is tested for a message only: the
  -- first part of the result says whether it is called bad. So is the font, and whether there is a
  -- kernel at all.
  unfoldable pub efi_main :
      (rounds header_at elf_magic : ℕ) (kernel_path font_path : List ℕ)
      → Run W (Bool × LoaderResult)
  efi_main rounds header_at elf_magic kernel_path font_path = do
    found ← load_file fw none kernel_path
    kernel ← follow found
    perform (fw.read kernel elf.header_size header_at)
    header ← (λ w. some (elf.read_header (fw.memory w) header_at, w))
    bad ← (λ w. some (is_bad_format elf (memcmp (fw.memory w) header_at elf_magic 4) header, w))
    load_kernel kernel header
    font ← load_psf1_font fw none font_path
    gop ← call (initialize_gop fw)
    result ← (elim gop [
      | none ↦ return no_framebuffer
      | some framebuffer ↦ finish rounds header.e_entry font framebuffer
    ])
    return (bad, result)
