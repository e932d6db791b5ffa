-- ===== src/Mem/State.antt =====
-- The state of kernel/uefi/mem.c: `mem_info`, the `initialized` flag of `readEFIMemoryMap`, the
-- physical memory that holds the bitmap, and what the functions print, oldest message first.
use bbn_os.Base.{ℕ, Bool, List, [], ◌∷◌, ◌++◌}
use bbn_os.Memory.{Memory}
use bbn_os.Bitmap.{BitMap}

pub data Message : Type 0 where
  total_pages : ℕ → Message
  reserve_used : (addr index : ℕ) → Message
  free_not_allocated : Message
  lock_used : Message
  type_not_viable : ℕ → Message
  called_more_than_once : Message
  conventional_mem : (from to : ℕ) → Message

pub record MemDesc : Type 0 where
  pub mem_bit_map : BitMap
  pub free_memory : ℕ
  pub reserved_memory : ℕ
  pub used_memory : ℕ
  pub mem_size_bytes : ℕ

pub record Kernel : Type 0 where
  pub memory : Memory
  pub mem_info : MemDesc
  pub initialized : Bool
  pub log : List Message

-- `mem_info` as it stands before the first call.
abbrev pub initial_mem_info : MemDesc
initial_mem_info = record {
  mem_bit_map = record { size = 0; buffer = 0 };
  free_memory = 0;
  reserved_memory = 0;
  used_memory = 0;
  mem_size_bytes = 0;
}

unfoldable pub get_free_mem_size : Kernel → ℕ
get_free_mem_size s = s.mem_info.free_memory

unfoldable pub get_used_mem_size : Kernel → ℕ
get_used_mem_size s = s.mem_info.used_memory

unfoldable pub get_reserved_mem_size : Kernel → ℕ
get_reserved_mem_size s = s.mem_info.reserved_memory

-- `printf`, as far as mem.c goes.
abbrev pub print : Message → Kernel → Kernel
print msg s = record s { log = s.log ++ msg ∷ [] }
