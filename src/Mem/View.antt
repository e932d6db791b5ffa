-- ===== src/Mem/View.antt =====
-- The frames that a kernel state stands for, and the calls of a client on that state.
use bbn_os.Base.{ℕ, ◌+◌, ◌*◌, ◌≡◌, List, [], ◌∷◌, mul64, Option, none, some}
use bbn_os.Mem.State.{Kernel}
use bbn_os.Mem.Pages.{frame, reserve_pages, free_pages, lock_pages, request_page}
use bbn_os.Mem.Spec.{Frames, PageOp, reserve, free, lock, request}
use mathlib.Core.Path.{fun_ext}

abbrev pub frames : Kernel → Frames
frames s = record {
  taken = frame s;
  free = s.mem_info.free_memory;
  reserved = s.mem_info.reserved_memory;
  used = s.mem_info.used_memory;
}

-- The bitmap's test lets the byte at index `size` through, one past the buffer.
abbrev pub limit : Kernel → ℕ
limit s = 8 * s.mem_info.mem_bit_map.size + 8

abbrev pub pages : Kernel → ℕ
pages s = mul64 s.mem_info.mem_bit_map.size 8

unfoldable pub call : PageOp → Kernel → Option ℕ × Kernel
call (reserve addr num) s = (none, reserve_pages s addr num)
call (free addr num) s = (none, free_pages s addr num)
call (lock addr num) s = (none, lock_pages s addr num)
call request s = let (addr, t) = request_page s in (some addr, t)

unfoldable pub run : List PageOp → Kernel → List (Option ℕ) × Kernel
unfolding call
run [] s = ([], s)
run (op ∷ ops) s =
    let (reply, t) = call op s in let (replies, u) = run ops t in (reply ∷ replies, u)

pub Frames-ext :
    {f g : Frames}
    → ((i : ℕ) → f.taken i ≡ g.taken i)
    → f.free ≡ g.free
    → f.reserved ≡ g.reserved
    → f.used ≡ g.used
    → f ≡ g
Frames-ext t p q r = λ i. record { taken = fun_ext t i; free = p i; reserved = q i; used = r i }
