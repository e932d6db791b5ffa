-- ===== src/Loader/Segments.antt =====
-- The segments of the kernel are where its program headers say.
use bbn_os.Base.{
  ℕ, zero, suc, ◌+◌, ◌*◌, ◌^◌, ◌≤◌, ◌<◌, ◌≡◌, ◌≢◌, inl, inr, refl, ◌∙◌, true, false, Option, some,
  arith, ◌==◌, ltb, if◌then◌else◌, Bool-cases,
}
use bbn_os.Memory.{Memory, load8}
use bbn_os.Loader.{Firmware}
use bbn_os.Loader.Laws.{IsOutside, Files, FirmwareLaws, ElfLaws}
use bbn_os.Loader.Elf.{Segment, ElfFormat, pages_of, load_segment, load_entry, load_segments}

abbrev pub IsLoad : ElfFormat → Segment → Type 0
IsLoad elf s = (s.p_type == elf.pt_load) ≡ true

-- The bytes of the pages that are allocated for a segment.
abbrev pub reach : Segment → ℕ
reach s = pages_of s.p_memsz * 4096

pages_bound : (n : ℕ) → n < 2 ^ 42 → n ≤ pages_of n * 4096
unfolding pages_of
pages_bound n h = ground arith

-- A segment of less than 2^42 bytes, whose bytes in the file are no more than those in memory, and all
-- there.
abbrev pub IsInFile : (file_length : ℕ) → Segment → Type 0
IsInFile file_length s =
    (s.p_offset + s.p_filesz ≤ file_length) × ((s.p_filesz ≤ s.p_memsz) × (s.p_memsz < 2 ^ 42))

module _ {W : Type 0} (fw : Firmware W) (files : Files) (laws : FirmwareLaws fw files)
    (kernel : ℕ) where
  -- One segment: its bytes are there, and no byte outside its pages has changed.
  load_segment-byte :
      (s : Segment) (w : W) (k : ℕ)
      → IsInFile (files.file_length kernel) s
      → k < s.p_filesz
      → load8 (fw.memory (load_segment fw kernel s w)) (s.p_paddr + k)
        ≡ files.content kernel (s.p_offset + k)
  unfolding load_segment
  load_segment-byte s w k (inside, (fits, small)) h =
      let start = fw.allocate_pages s.p_paddr (pages_of s.p_memsz) w in
      let at = laws.position_set kernel s.p_offset start in
      rw at at (
        laws.read_inside kernel s.p_filesz s.p_paddr (fw.set_position kernel s.p_offset start) k h
          (omega arith))

  load_segment-other :
      (s : Segment) (w : W) (a : ℕ)
      → IsInFile (files.file_length kernel) s
      → IsOutside s.p_paddr (reach s) a
      → load8 (fw.memory (load_segment fw kernel s w)) a ≡ load8 (fw.memory w) a
  unfolding load_segment
  load_segment-other s w a (inside, (fits, small)) out =
      let start = fw.allocate_pages s.p_paddr (pages_of s.p_memsz) w in
      laws.read_outside kernel s.p_filesz s.p_paddr (fw.set_position kernel s.p_offset start) a
        (omega (arith, pages_bound s.p_memsz small))
      ∙ laws.set_memory kernel s.p_offset start a
      ∙ laws.pages_outside s.p_paddr (pages_of s.p_memsz) w a out

  load_entry_at :
      (elf : ElfFormat) (p : ℕ) (s : Segment) (w : W)
      → elf.read_segment (fw.memory w) p ≡ s
      → load_entry fw elf kernel p w
        ≡ (if s.p_type == elf.pt_load then load_segment fw kernel s w else w)
  unfolding load_entry
  load_entry_at elf p s w e = rw (load_entry, e) refl

slot_in : (i n e k : ℕ) → i < n → k < e → i * e + k < n * e
slot_in i n e k h hk = grind arith

slot_next : (p i e : ℕ) → p + i * e + e ≡ p + (i + 1) * e
slot_next p i e = grind arith

-- The table of the program headers, as it stands before the loop: `n` entries of `entsize` bytes.
abbrev pub entry : ElfFormat → (m : Memory) (phdrs entsize i : ℕ) → Segment
entry elf m phdrs entsize i = elf.read_segment m (phdrs + i * entsize)

-- The segments to load are all in the file; their pages meet neither the table nor one another.
pub record IsLayout (elf : ElfFormat) (files : Files) (kernel : ℕ) (m : Memory)
    (phdrs n entsize : ℕ) : Type 0 where
  pub room : elf.segment_size ≤ entsize
  pub in_file :
      (i : ℕ)
      → i < n
      → IsLoad elf (entry elf m phdrs entsize i)
      → IsInFile (files.file_length kernel) (entry elf m phdrs entsize i)
  pub table :
      (i k : ℕ)
      → i < n
      → IsLoad elf (entry elf m phdrs entsize i)
      → k < n * entsize
      → let s = entry elf m phdrs entsize i in IsOutside s.p_paddr (reach s) (phdrs + k)
  pub apart :
      (i j k : ℕ)
      → i < n
      → j < n
      → i ≢ j
      → IsLoad elf (entry elf m phdrs entsize i)
      → IsLoad elf (entry elf m phdrs entsize j)
      → let s = entry elf m phdrs entsize i in
        let t = entry elf m phdrs entsize j in
        k < reach s → IsOutside t.p_paddr (reach t) (s.p_paddr + k)

-- After the entries before `i`: the bytes of their segments are in their places, and no byte outside
-- the pages of all segments has changed.
pub record IsLoaded {W : Type 0} (fw : Firmware W) (elf : ElfFormat) (files : Files) (kernel : ℕ)
    (m : Memory) (phdrs n entsize i : ℕ) (w : W) : Type 0 where
  pub bytes :
      (j k : ℕ)
      → j < i
      → let s = entry elf m phdrs entsize j in
        IsLoad elf s
        → k < s.p_filesz
        → load8 (fw.memory w) (s.p_paddr + k) ≡ files.content kernel (s.p_offset + k)
  pub others :
      (a : ℕ)
      → ((j : ℕ)
          → j < n
          → let s = entry elf m phdrs entsize j in IsLoad elf s → IsOutside s.p_paddr (reach s) a)
      → load8 (fw.memory w) a ≡ load8 m a

module _ {W : Type 0} (fw : Firmware W) (elf : ElfFormat) (elf_laws : ElfLaws elf) (files : Files)
    (laws : FirmwareLaws fw files) (kernel : ℕ) (m : Memory) (phdrs n entsize : ℕ)
    (layout : IsLayout elf files kernel m phdrs n entsize) where
  -- The entry is still the one of the table.
  same_entry :
      (i : ℕ) (w : W)
      → i < n
      → IsLoaded fw elf files kernel m phdrs n entsize i w
      → elf.read_segment (fw.memory w) (phdrs + i * entsize) ≡ entry elf m phdrs entsize i
  same_entry i w lt before = elf_laws.entry_bytes (fw.memory w) m (phdrs + i * entsize) λ k h.
      let inside = slot_in i n entsize k lt (omega (arith, layout.room)) in
      let at : phdrs + (i * entsize + k) ≡ phdrs + i * entsize + k = omega arith in
      rw at at (
        before.others (phdrs + (i * entsize + k))
          (λ j hj load. layout.table j (i * entsize + k) hj load inside))

  load_more :
      (i : ℕ) (w : W)
      → i < n
      → IsLoaded fw elf files kernel m phdrs n entsize i w
      → IsLoad elf (entry elf m phdrs entsize i)
      → IsLoaded fw elf files kernel m phdrs n entsize
          (i + 1)
          (load_segment fw kernel (entry elf m phdrs entsize i) w)
  load_more i w lt before load =
      let s = entry elf m phdrs entsize i in
      let inside = layout.in_file i lt load in
      record {
        bytes = λ j k hj load_j hk. elim (Bool-cases (j == i)) [
          | inl e ↦
              let here : j ≡ i = ground arith in
              rw here (load_segment-byte fw files laws kernel s w k inside (rw here at hk))
          | inr ne ↦
              let earlier : j < i = ground arith in
              let other : j ≢ i = λ e. omega arith in
              let s' = entry elf m phdrs entsize j in
              let (_, (fits, small)) = layout.in_file j (omega arith) load_j in
              let far =
                layout.apart j i k (omega arith) lt other load_j load
                  (omega (arith, pages_bound s'.p_memsz small)) in
              load_segment-other fw files laws kernel s w (s'.p_paddr + k) inside far
              ∙ before.bytes j k earlier load_j hk
        ];
        others = λ a out.
            load_segment-other fw files laws kernel s w a inside (out i lt load)
            ∙ before.others a out;
      }

  load_none :
      (i : ℕ) (w : W)
      → IsLoaded fw elf files kernel m phdrs n entsize i w
      → (entry elf m phdrs entsize i).p_type == elf.pt_load ≡ false
      → IsLoaded fw elf files kernel m phdrs n entsize (i + 1) w
  load_none i w before skip = record {
    bytes = λ j k hj load hk. elim (Bool-cases (j == i)) [
      | inl e ↦ let here : j ≡ i = ground arith in let skipped = rw (← here) at skip in cc
      | inr ne ↦ before.bytes j k (ground arith) load hk
    ];
    others = before.others;
  }

  load_entry_step :
      (i : ℕ) (w : W)
      → i < n
      → IsLoaded fw elf files kernel m phdrs n entsize i w
      → IsLoaded fw elf files kernel m phdrs n entsize
          (i + 1)
          (load_entry fw elf kernel (phdrs + i * entsize) w)
  load_entry_step i w lt before =
      let s = entry elf m phdrs entsize i in
      rw
        (load_entry_at fw files laws kernel elf (phdrs + i * entsize) s w
          (same_entry i w lt before))
        (elim (Bool-cases (s.p_type == elf.pt_load)) [
          | inl load ↦ rw load (load_more i w lt before load)
          | inr skip ↦ rw skip (load_none i w before skip)
        ])

  -- A loop that ends, in a state in which all is loaded.
  pub record IsDone (o : Option W) : Type 0 where
    pub last : W
    pub done : o ≡ some last
    pub loaded : IsLoaded fw elf files kernel m phdrs n entsize n last

  load_segments_from :
      (left fuel i : ℕ) (w : W)
      → i + left ≡ n
      → left < fuel
      → IsLoaded fw elf files kernel m phdrs n entsize i w
      → IsDone
          (load_segments fw elf kernel fuel (phdrs + i * entsize) (phdrs + n * entsize) entsize w)
  unfolding load_segments
  load_segments_from left zero i w sum more before = absurd (omega arith)
  load_segments_from zero (suc fuel) i w sum more before =
      let same : i ≡ n = omega arith in
      let last : ltb (phdrs + n * entsize) (phdrs + n * entsize) ≡ false = ground arith in
      rw same
        (record { last = w; done = rw (load_segments, last) refl; loaded = rw same at before })
  load_segments_from (suc left) (suc fuel) i w sum more before =
      let lt : i < n = omega arith in
      let inside = slot_in i n entsize 0 lt (omega (arith, layout.room, elf_laws.no_empty)) in
      let here : ltb (phdrs + i * entsize) (phdrs + n * entsize) ≡ true = ground arith in
      let next =
        load_segments_from left fuel (i + 1) (load_entry fw elf kernel (phdrs + i * entsize) w)
          (omega arith) (omega arith) (load_entry_step i w lt before) in
      record {
        last = next.last;
        done = rw (load_segments, here, slot_next phdrs i entsize) next.done;
        loaded = next.loaded;
      }

-- Where the entries of the program headers have at least the size of Elf64_Phdr, and the segments to load are less than
-- 2^42 bytes, are all in the file and have pages apart from the headers and from one another, the loop
-- ends; then each byte of each such segment in the file stands at its physical address, and no byte
-- outside the pages of the segments has changed.
pub load_segments-IsDone :
    {W : Type 0} (fw : Firmware W) (elf : ElfFormat) (elf_laws : ElfLaws elf) (files : Files)
    (laws : FirmwareLaws fw files) (kernel phdrs n entsize : ℕ) (w : W)
    (layout : IsLayout elf files kernel (fw.memory w) phdrs n entsize)
    → IsDone fw elf elf_laws files laws kernel
        (fw.memory w)
        phdrs
        n
        entsize
        layout
        (load_segments fw elf kernel (n + 1) phdrs (phdrs + n * entsize) entsize w)
load_segments-IsDone fw elf elf_laws files laws kernel phdrs n entsize w layout =
    let start : phdrs + 0 * entsize ≡ phdrs = omega arith in
    rw start at (
      load_segments_from fw elf elf_laws files laws kernel (fw.memory w) phdrs n entsize layout n
        (n + 1) 0 w (omega arith) (omega arith)
        (record { bytes = λ j k hj load hk. absurd (omega arith); others = λ a out. refl }))
