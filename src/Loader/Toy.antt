-- ===== src/Loader/Toy.antt =====
-- A firmware with one file, whose memory map has 96 bytes.
use bbn_os.Base.{
  ℕ, ◌+◌, ◌-◌, ◌%◌, ◌≤◌, ◌<◌, ◌≡◌, refl, ◌&&◌, none, some, arith, ◌==◌, ltb, leb, if◌then◌else◌,
}
use bbn_os.Memory.{Memory, load8}
use bbn_os.Loader.{Firmware, success, too_small}
use native.Mathlib.Nat.{add_assoc}
use bbn_os.Memory.{load32, load64, load32-congr, load64-congr}
use bbn_os.Memory.Words.{load16}
use bbn_os.Loader.Elf.{ElfFormat, Segment}
use bbn_os.Loader.Laws.{ElfLaws, IsOutside, Files, FirmwareLaws}
use bbn_os.Loader.Retry.{MapLaws}

pub record Machine : Type 0 where
  pub memory : Memory
  pub position : ℕ → ℕ

abbrev pub one_file : Files
one_file = record { content = λ f j. j % 256; file_length = λ f. 0x10000 }

abbrev pub copied : (b n p : ℕ) → Memory → Memory
copied b n p m a =
    if leb b a && (ltb a (b + n) && ltb (p + (a - b)) 0x10000) then (p + (a - b)) % 256 else m a

abbrev pub toy : Firmware Machine
toy = record {
  memory = λ w. w.memory;
  locate_gop = λ w. (none, w);
  image_device = λ w. (some 1, w);
  file_system = λ d w. w;
  open_root = λ d w. (1, w);
  open_file = λ d p w. (some 2, w);
  read = λ f n b w. record w { memory = copied b n (w.position f) w.memory };
  set_position = λ f p w. record w { position = λ g. if g == f then p else w.position g };
  allocate_pool = λ n w. (some 0x100000, w);
  free_pool = λ b w. w;
  allocate_pages = λ a n w. w;
  get_memory_map = λ n b w. (
    record {
      status = if ltb n 96 then too_small else success;
      map_size = 96;
      map_key = 7;
      desc_size = 48;
    },
    w,
  );
  exit_boot_services = λ k w. w;
}

copied_inside :
    (b n p k : ℕ) (m : Memory)
    → k < n
    → p + k < 0x10000
    → load8 (copied b n p m) (b + k) ≡ (p + k) % 256
copied_inside b n p k m h inside = ground arith

copied_outside : (b n p a : ℕ) (m : Memory) → IsOutside b n a → load8 (copied b n p m) a ≡ load8 m a
copied_outside b n p a m out = ground arith

pub toy-FirmwareLaws : FirmwareLaws toy one_file
toy-FirmwareLaws = record {
  position = λ f w. w.position f;
  read_inside = λ f n b w k h inside. copied_inside b n (w.position f) k w.memory h inside;
  read_outside = λ f n b w a out. copied_outside b n (w.position f) a w.memory out;
  position_set = λ f p w. ground arith;
  set_memory = λ f p w a. refl;
  pages_outside = λ a n w x out. refl;
  pool_position = λ f n w. refl;
}

pub toy-MapLaws : MapLaws toy 96
toy-MapLaws = record {
  needed = λ w. 96;
  bounded = λ w. omega arith;
  short = λ n b w h. (ground arith, refl);
  enough = λ n b w h. (ground arith, h);
}

-- A program header of the 64-bit ELF format.
unfoldable pub read_segment : Memory → ℕ → Segment
read_segment m p = record {
  p_type = load32 m p;
  p_offset = load64 m (p + 8);
  p_paddr = load64 m (p + 24);
  p_filesz = load64 m (p + 32);
  p_memsz = load64 m (p + 40);
}

-- The layouts of the 64-bit format, as far as they are read.
abbrev pub elf_64 : ElfFormat
elf_64 = record {
  read_header = λ m p. record {
    e_class = load8 m (p + 4);
    e_encoding = load8 m (p + 5);
    e_type = load16 m (p + 16);
    e_machine = load16 m (p + 18);
    e_version = load32 m (p + 20);
    e_entry = load64 m (p + 24);
    e_phoff = load64 m (p + 32);
    e_phentsize = load16 m (p + 54);
    e_phnum = load16 m (p + 56);
  };
  read_segment = read_segment;
  header_size = 64;
  segment_size = 56;
  class64 = 2;
  data2lsb = 1;
  executable = 2;
  x86_64 = 62;
  current = 1;
  pt_load = 1;
}

-- An entry is the value of its bytes.
read_segment-congr :
    (m m' : Memory) (p : ℕ)
    → ((k : ℕ) → k < 56 → load8 m (p + k) ≡ load8 m' (p + k))
    → read_segment m p ≡ read_segment m' p
unfolding read_segment
read_segment-congr m m' p same = λ i. record {
  p_type = load32-congr m m' p (λ k h. same k (omega arith)) i;
  p_offset = load64-congr m m' (p + 8) (part 8 (omega arith)) i;
  p_paddr = load64-congr m m' (p + 24) (part 24 (omega arith)) i;
  p_filesz = load64-congr m m' (p + 32) (part 32 (omega arith)) i;
  p_memsz = load64-congr m m' (p + 40) (part 40 (omega arith)) i;
}
  where
    part : (o : ℕ) → o + 8 ≤ 56 → (k : ℕ) → k < 8 → load8 m (p + o + k) ≡ load8 m' (p + o + k)
    part o fits k h = rw (add_assoc p o k) (same (o + k) (omega arith))

pub elf_64-ElfLaws : ElfLaws elf_64
elf_64-ElfLaws = record { no_empty = omega arith; entry_bytes = read_segment-congr }
