-- ===== src/Loader/Tests.antt =====
-- The theorems on the loader, with a firmware that runs.
use bbn_os.Base.{
  ℕ, zero, suc, ◌+◌, ◌*◌, ◌^◌, ◌≤◌, ◌<◌, ◌≡◌, ◌≢◌, inl, refl, arith, ◌==◌, if◌then◌else◌,
}
use bbn_os.Memory.{Memory, load64, load32}
use bbn_os.Loader.Laws.{IsOutside}
use bbn_os.Loader.Elf.{load_segments, memcmp}
use bbn_os.Loader.Start.{read_memory_map}
use bbn_os.Loader.Segments.{IsLayout, IsLoad, IsDone, entry, reach, load_segments-IsDone}
use bbn_os.Loader.Compare.{IsCompared, memcmp-IsCompared}
use bbn_os.Loader.Retry.{IsRead, read_memory_map-IsRead}
use bbn_os.Loader.Toy.{
  read_segment, elf_64, elf_64-ElfLaws, Machine, toy, one_file, toy-FirmwareLaws, toy-MapLaws,
}

-- Two program headers at 0x1000: a segment of 32 bytes at 0x8000, and one that is not loaded.
abbrev headers : Memory
headers a =
    if a == 0x1000
    then 1
    else if a == 0x1009
    then 1
    else if a == 0x1019
    then 0x80
    else if a == 0x1020
    then 0x20
    else if a == 0x1028
    then 0x30
    else 0

abbrev machine : Machine
machine = record { memory = headers; position = λ f. 0 }

first_entry :
    entry elf_64 headers 0x1000 56 0
    ≡ record { p_type = 1; p_offset = 0x100; p_paddr = 0x8000; p_filesz = 0x20; p_memsz = 0x30 }
unfolding read_segment load64 load32
first_entry = refl

second_entry : (entry elf_64 headers 0x1000 56 1).p_type ≡ 0
unfolding read_segment load64 load32
second_entry = refl

not_second : {P : Type 0} → IsLoad elf_64 (entry elf_64 headers 0x1000 56 1) → P
not_second load = let same = rw second_entry at load in cc

two_headers : IsLayout elf_64 one_file 2 headers 0x1000 2 56
two_headers = record { room = omega arith; in_file = in_file; table = table; apart = apart }
  where
    in_file :
        (i : ℕ)
        → i < 2
        → IsLoad elf_64 (entry elf_64 headers 0x1000 56 i)
        → let s = entry elf_64 headers 0x1000 56 i in
          (s.p_offset + s.p_filesz ≤ 0x10000) × ((s.p_filesz ≤ s.p_memsz) × (s.p_memsz < 2 ^ 42))
    in_file zero h load = rw first_entry (omega arith)
    in_file (suc zero) h load = not_second load
    in_file (suc (suc i)) h load = absurd (omega arith)

    table :
        (i k : ℕ)
        → i < 2
        → IsLoad elf_64 (entry elf_64 headers 0x1000 56 i)
        → k < 2 * 56
        → let s = entry elf_64 headers 0x1000 56 i in IsOutside s.p_paddr (reach s) (0x1000 + k)
    table zero k h load hk = rw first_entry (inl (omega arith))
    table (suc zero) k h load hk = not_second load
    table (suc (suc i)) k h load hk = absurd (omega arith)

    apart :
        (i j k : ℕ)
        → i < 2
        → j < 2
        → i ≢ j
        → IsLoad elf_64 (entry elf_64 headers 0x1000 56 i)
        → IsLoad elf_64 (entry elf_64 headers 0x1000 56 j)
        → let s = entry elf_64 headers 0x1000 56 i in
          let t = entry elf_64 headers 0x1000 56 j in
          k < reach s → IsOutside t.p_paddr (reach t) (s.p_paddr + k)
    apart zero zero k hi hj ne li lj hk = absurd (ne refl)
    apart zero (suc zero) k hi hj ne li lj hk = not_second lj
    apart zero (suc (suc j)) k hi hj ne li lj hk = absurd (omega arith)
    apart (suc zero) j k hi hj ne li lj hk = not_second li
    apart (suc (suc i)) j k hi hj ne li lj hk = absurd (omega arith)

load_segments-IsDone_example :
    IsDone toy elf_64 elf_64-ElfLaws one_file toy-FirmwareLaws 2 headers 0x1000 2 56 two_headers
      (load_segments toy elf_64 2 3 0x1000 0x1070 56 machine)
load_segments-IsDone_example =
    load_segments-IsDone toy elf_64 elf_64-ElfLaws one_file toy-FirmwareLaws 2 0x1000 2 56 machine
      two_headers

read_memory_map-IsRead_example :
    let first = toy.get_memory_map 0 0 machine in
    IsRead toy first.0.map_size 0 first.1 (read_memory_map toy 97 machine)
read_memory_map-IsRead_example = read_memory_map-IsRead toy 96 toy-MapLaws machine

memcmp-IsCompared_example : IsCompared headers 0x1000 0x1018 4 (memcmp headers 0x1000 0x1018 4)
memcmp-IsCompared_example = memcmp-IsCompared headers 0x1000 0x1018 4
