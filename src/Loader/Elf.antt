-- ===== src/Loader/Elf.antt =====
-- boot/uefi/gnu-efi/bootloader/uefi_main.c: the check of the kernel's header, and its segments.
use bbn_os.Base.{
  ℕ, zero, suc, ◌+◌, ◌-◌, ◌/◌, ◌%◌, ◌^◌, Bool, true, false, not, ◌||◌, Option, none, some, ◌==◌,
  ltb, if◌then◌else◌,
}
use bbn_os.Memory.{Memory, load8}
use bbn_os.Loader.{Firmware}

-- The loop of `memcmp` from `i` on, with `n` rounds left: -1, 0 or 1.
pub data Compared : Type 0 where
  less : Compared
  same : Compared
  greater : Compared

unfoldable pub memcmp_from : (n : ℕ) → Memory → (l r i : ℕ) → Compared
memcmp_from zero m l r i = same
memcmp_from (suc n) m l r i =
    let rest = memcmp_from n m l r (i + 1) in
    if ltb (load8 m (l + i)) (load8 m (r + i))
    then less
    else if ltb (load8 m (r + i)) (load8 m (l + i))
    then greater
    else rest

unfoldable pub memcmp : Memory → (l r n : ℕ) → Compared
memcmp m l r n = memcmp_from n m l r 0

-- `Elf64_Ehdr`, as far as the loader reads it behind its first bytes.
pub record ElfHeader : Type 0 where
  pub e_class : ℕ
  pub e_encoding : ℕ
  pub e_type : ℕ
  pub e_machine : ℕ
  pub e_version : ℕ
  pub e_entry : ℕ
  pub e_phoff : ℕ
  pub e_phentsize : ℕ
  pub e_phnum : ℕ

-- `Elf64_Phdr`, as far as the loader reads it.
pub record Segment : Type 0 where
  pub p_type : ℕ
  pub p_offset : ℕ
  pub p_paddr : ℕ
  pub p_filesz : ℕ
  pub p_memsz : ℕ

-- What the loader takes of the header elf.h: the two structures in memory, their sizes, and the constants
-- that it compares with.
pub record ElfFormat : Type 0 where
  pub read_header : Memory → ℕ → ElfHeader
  pub read_segment : Memory → ℕ → Segment
  pub header_size : ℕ
  pub segment_size : ℕ
  pub class64 : ℕ
  pub data2lsb : ℕ
  pub executable : ℕ
  pub x86_64 : ℕ
  pub current : ℕ
  pub pt_load : ℕ

-- The test of the format, where `magic` compares the first four bytes with those of an ELF file.
unfoldable pub is_bad_format : ElfFormat → Compared → ElfHeader → Bool
is_bad_format elf magic h =
    not (elim magic [ same ↦ true | _ ↦ false ])
    || (not (h.e_class == elf.class64)
        || (not (h.e_encoding == elf.data2lsb)
            || (not (h.e_type == elf.executable)
                || (not (h.e_machine == elf.x86_64) || not (h.e_version == elf.current)))))

-- The 64-bit argument that the `int` of pages becomes.
unfoldable pub pages_of : (memsz : ℕ) → ℕ
pages_of memsz =
    let pages = (memsz + 0x1000 - 1) % 2 ^ 64 / 0x1000 % 2 ^ 32 in
    if ltb pages (2 ^ 31) then pages else 2 ^ 64 - 2 ^ 32 + pages

module _ {W : Type 0} (fw : Firmware W) (kernel : ℕ) where
  -- The case `PT_LOAD` of the switch.
  unfoldable pub load_segment : Segment → W → W
  load_segment s w =
      let allocated = fw.allocate_pages s.p_paddr (pages_of s.p_memsz) w in
      fw.read kernel s.p_filesz s.p_paddr (fw.set_position kernel s.p_offset allocated)

module _ {W : Type 0} (fw : Firmware W) (elf : ElfFormat) (kernel : ℕ) where
  -- One round of the loop, for the entry at `phdr`.
  unfoldable pub load_entry : (phdr : ℕ) → W → W
  load_entry phdr w =
      let s = elf.read_segment (fw.memory w) phdr in
      if s.p_type == elf.pt_load then load_segment fw kernel s w else w

  -- The loop over the entries from `phdr` up to `end`, with `n` rounds left at most.
  unfoldable pub load_segments : (n phdr end entsize : ℕ) → W → Option W
  load_segments zero phdr end entsize w = none
  load_segments (suc n) phdr end entsize w = elim (ltb phdr end) [
    | true ↦ load_segments n (phdr + entsize) end entsize (load_entry phdr w)
    | false ↦ some w
  ]
