-- ===== src/Mem/Pages.antt =====
-- The page operations of kernel/uefi/mem.c.
use bbn_os.Base.{ℕ, zero, suc, ◌+◌, ◌/◌, Bool, true, false}
use bbn_os.Base.{if◌then◌else◌, add64, sub64, mul64}
use bbn_os.Base.Loop.{count_up}
use bbn_os.Memory.{store8}
use bbn_os.Bitmap.{get_val, set_val}
use bbn_os.Mem.State.{
  Kernel, MemDesc, print, total_pages, reserve_used, free_not_allocated, lock_used,
}

abbrev pub page_size : ℕ
page_size = 4096

-- `bitmapGetVal(&(mem_info.MemBitMap), index)`
abbrev pub frame : Kernel → ℕ → Bool
frame s index = get_val s.memory s.mem_info.mem_bit_map index

-- The call of `bitmapSetVal` under its `if`: `account` is what the branch does to the counters.
abbrev pub set_frame : Kernel → ℕ → Bool → (MemDesc → MemDesc) → Kernel
set_frame s index value account =
    let (done, m) = set_val s.memory s.mem_info.mem_bit_map index value in
    record s { memory = m; mem_info = if done then account s.mem_info else s.mem_info }

-- The bitmap is cleared byte by byte. The result is `addr`.
unfoldable pub pg_init_bit_map : Kernel → ℕ → ℕ → ℕ × Kernel
unfolding count_up
pg_init_bit_map s size addr = (
  addr,
  print (total_pages (mul64 size 8)) (record s {
    memory = count_up size 0 (λ i m. store8 m (addr + i) 0) s.memory;
    mem_info = record s.mem_info { mem_bit_map = record { size = size; buffer = addr } };
  }),
)

abbrev pub account_reserve : MemDesc → MemDesc
account_reserve d = record d {
  free_memory = sub64 d.free_memory page_size;
  reserved_memory = add64 d.reserved_memory page_size;
}

abbrev pub account_free : MemDesc → MemDesc
account_free d = record d {
  free_memory = add64 d.free_memory page_size;
  used_memory = sub64 d.used_memory page_size;
}

abbrev pub account_lock : MemDesc → MemDesc
account_lock d = record d {
  free_memory = sub64 d.free_memory page_size;
  used_memory = add64 d.used_memory page_size;
}

unfoldable pub reserve_page : Kernel → ℕ → Kernel
reserve_page s addr =
    let index = addr / page_size in
    if frame s index
    then print (reserve_used addr index) s
    else set_frame s index true account_reserve

unfoldable pub free_page : Kernel → ℕ → Kernel
free_page s addr =
    let index = addr / page_size in
    if frame s index then set_frame s index false account_free else print free_not_allocated s

unfoldable pub lock_page : Kernel → ℕ → Kernel
lock_page s addr =
    let index = addr / page_size in
    if frame s index then print lock_used s else set_frame s index true account_lock

-- `(uint64_t)addr + (i * 4096)`
abbrev pub page_at : ℕ → ℕ → ℕ
page_at addr i = add64 addr (mul64 i page_size)

unfoldable pub reserve_pages : Kernel → ℕ → ℕ → Kernel
unfolding count_up
reserve_pages s addr num_pages = count_up num_pages 0 (λ i t. reserve_page t (page_at addr i)) s

unfoldable pub free_pages : Kernel → ℕ → ℕ → Kernel
unfolding count_up
free_pages s addr num_pages = count_up num_pages 0 (λ i t. free_page t (page_at addr i)) s

unfoldable pub lock_pages : Kernel → ℕ → ℕ → Kernel
unfolding count_up
lock_pages s addr num_pages = count_up num_pages 0 (λ i t. lock_page t (page_at addr i)) s

-- The loop of `requestPage` from `index` on, with `n` rounds left; 0 is `NULL`.
unfoldable pub request_from : ℕ → ℕ → Kernel → ℕ × Kernel
request_from zero index s = (0, s)
request_from (suc n) index s =
    let rest = request_from n (index + 1) s in
    let addr = mul64 index page_size in if frame s index then rest else (addr, lock_page s addr)

unfoldable pub request_page : Kernel → ℕ × Kernel
unfolding request_from
request_page s = request_from (mul64 s.mem_info.mem_bit_map.size 8) 0 s
