-- ===== src/Entry/Kmain.antt =====
-- kernel/uefi/kernel.c: `kmain` up to its endless loop, and the machine that it leaves. What it prints, the
-- frame buffer of the console and the load of the descriptor table of segments have no part in it.
pub mod Tests
use bbn_os.Base.{
  ℕ, zero, suc, ◌+◌, ◌-◌, ◌*◌, ◌/◌, ◌%◌, ◌^◌, ◌≤◌, ◌<◌, ◌≡◌, ◌≢◌, ◌⊎◌, ◌↔◌, inl, inr, refl, sym, ap,
  ◌∙◌, Bool, true, false, not, ◌&&◌, ◌||◌, Option, none, some, List, [], ◌∷◌, ◌++◌, arith, ◌==◌,
  ltb, leb, if◌then◌else◌, Bool-cases, ==_iff, ==_self, ==_ne, add64, sub64, mul64, ◌>>=◌, min,
  bit_and, bit_or, length, get_or,
}
use bbn_os.Memory.{Memory, load8}
use bbn_os.Bitmap.{BitMap}
use bbn_os.Io.{Ports}
use bbn_os.Pic.{PicLaws}
use bbn_os.Mem.State.{Kernel}
use bbn_os.Mem.Pages.{frame, request_page}
use bbn_os.Mem.Free.{free_frames, Fresh, request_page-Fresh, request_page-Keeps}
use bbn_os.Mem.Keeps.{Keeps}
use bbn_os.Idt.{int_assign_func}
use bbn_os.Idt.Gates.{int_assign_func-outside}
use bbn_os.Interrupts.{Idtr, Handlers, Machine, prepare_interrupts, assign_handlers}
use bbn_os.Interrupts.Ready.{IsAddressed, HasHandlers, IsPrepared, prepare_interrupts-IsPrepared}
use bbn_os.Paging.Walk.{walk, IsTree}
use bbn_os.Paging.Map.{page_of}
use bbn_os.Entry.{BootInfo, set_up_memory, set_up_paging}
use bbn_os.Entry.Locked.{walk-same}
use bbn_os.Entry.Started.{IsStarted}
use bbn_os.Entry.Paged.{
  memory_pages, fb_pages, frames_needed, last_walks, fresh, last, last-IsRange, runs, left_over,
}

-- The value that goes to CR3, and the machine.
unfoldable pub kmain :
    {D : Type 0}
    → Ports D
    → Handlers
    → (kernel_start kernel_end : ℕ) → BootInfo
    → Machine D
    → Option (ℕ × Machine D)
kmain io h kernel_start kernel_end boot m = do
  started ← set_up_memory kernel_start kernel_end boot m.kernel
  (pml4, paged) ← set_up_paging boot started
  after ← prepare_interrupts io h (record m { kernel = paged })
  some (pml4, after)

-- The gates lie in their page.
assign_handlers-outside :
    (h : Handlers) (base a : ℕ) (k : Kernel)
    → base + 4096 ≤ 2 ^ 64
    → (a < base) ⊎ (base + 4096 ≤ a)
    → load8 (assign_handlers h base k).memory a ≡ load8 k.memory a
assign_handlers-outside h base a k fits out =
    let m1 = int_assign_func k.memory base 8 h.ex_handler_df in
    let m2 = int_assign_func m1 base 13 h.ex_handler_gp in
    let m3 = int_assign_func m2 base 14 h.ex_handler_pf in
    let m4 = int_assign_func m3 base 0x21 h.int_handler_kb in
    int_assign_func-outside m4 base 0x2C h.int_handle_ps2_mouse a fits (omega arith) out
    ∙ int_assign_func-outside m3 base 0x21 h.int_handler_kb a fits (omega arith) out
    ∙ int_assign_func-outside m2 base 14 h.ex_handler_pf a fits (omega arith) out
    ∙ int_assign_func-outside m1 base 13 h.ex_handler_gp a fits (omega arith) out
    ∙ int_assign_func-outside k.memory base 8 h.ex_handler_df a fits (omega arith) out

-- The table of interrupts goes to a free frame, so the page tables stay.
walk-assign_handlers :
    (h : Handlers) (s : Kernel) (root : ℕ) (place : ℕ → Option (List ℕ))
    → IsTree s root place
    → 0 < free_frames s
    → (v : ℕ)
    → let (base, k) = request_page s in
      walk (assign_handlers h base k).memory root v ≡ walk s.memory root v
walk-assign_handlers h s root place tree some_free v =
    let (base, k) = request_page s in
    walk-same s (assign_handlers h base k).memory root place tree
      (λ f p a here lo hi.
        assign_handlers-outside h base a k (omega (arith, new.address, new.fits))
          (beside f p a here lo hi)
        ∙ (request_page-Keeps s).bytes a (tree.apart f p here a lo hi))
      v
  where
    new : Fresh s (request_page s)
    new = request_page-Fresh s tree.size some_free

    beside :
        (f : ℕ) (p : List ℕ) (a : ℕ)
        → place f ≡ some p
        → f * 4096 ≤ a
        → a < f * 4096 + 4096
        → (a < (request_page s).0) ⊎ ((request_page s).0 + 4096 ≤ a)
    beside f p a here lo hi =
        let other : f ≢ new.k =
          λ e. let used = tree.taken f p here in let unused = new.free in cc in
        grind (arith, new.address)

-- The machine runs: the page tables map the memory and the frame buffer to themselves and nothing else,
-- the table of interrupts has the five handlers, and the masks let the keyboard, the cascade and the mouse
-- through.
pub record IsRunning {D : Type 0} (io : Ports D) (laws : PicLaws io) (h : Handlers)
    (kernel_start kernel_end : ℕ) (boot : BootInfo) (m : Machine D) (bytes : ℕ) : Type 0 where
  pub root : ℕ
  pub after : Machine D
  pub done : kmain io h kernel_start kernel_end boot m ≡ some (root * 4096, after)
  pub walks :
      (v : ℕ)
      → walk after.kernel.memory root v ≡ (
          let first = boot.framebuffer.base_address / 4096 in
          if ltb (page_of v) ((bytes + 4095) / 4096)
            || (leb first (page_of v) && ltb (page_of v) (first + fb_pages boot))
          then some (page_of v)
          else none)
  pub gates : HasHandlers h after.kernel after.idtr.base
  pub limit : after.idtr.limit ≡ 4095
  pub masks : laws.Shows after.device 0b11111001 0b11101111

prepared_kernel :
    {D : Type 0} (io : Ports D) (h : Handlers) (s t : Machine D)
    → prepare_interrupts io h s ≡ some t
    → let (base, k) = request_page s.kernel in t.kernel ≡ assign_handlers h base k
unfolding prepare_interrupts
prepared_kernel {D} io h s t e =
    ap (λ (o : Option (Machine D)). elim o [ none ↦ s.kernel | some u ↦ u.kernel ]) (sym e)

-- The bitmap of at most 2^48 bytes.
started_small :
    (kernel_start kernel_end : ℕ) (boot : BootInfo) (s t : Kernel)
    → IsStarted kernel_start kernel_end boot s t
    → t.mem_info.mem_size_bytes ≤ 2 ^ 48
    → t.mem_info.mem_bit_map.size ≤ 2 ^ 49
started_small kernel_start kernel_end boot s t started size =
    let bytes = ap (λ (b : BitMap). b.size) started.booted.bit_map in
    omega (arith, bytes, started.booted.size)

module _ {D : Type 0} (io : Ports D) (laws : PicLaws io) (h : Handlers)
    (kernel_start kernel_end : ℕ) (boot : BootInfo) (m : Machine D) (t : Kernel) where
  -- Where the memory is set up as `set_up_memory` promises, from a memory map whose entries have a size
  -- other than 0, the memory has at most 2^48 bytes, but some, the frame buffer ends at least two pages below
  -- that address, more frames are free than the tables and the locked pages need, the interrupt
  -- controllers keep to PicLaws, and the handlers have 64-bit addresses: `kmain` comes to its endless loop;
  -- the page tables that it then has loaded map each page of the memory, and of the frame buffer with the
  -- page behind it, to itself and nothing else, also after the table of interrupts was written; that table
  -- has 256 gates and the handlers of the two interrupts and three exceptions; and of all interrupt lines
  -- the keyboard, the cascade and the mouse alone are let through.
  pub kmain-IsRunning :
      IsStarted kernel_start kernel_end boot m.kernel t
      → boot.mmap_desc_size ≢ 0
      → 0 < t.mem_info.mem_size_bytes
      → t.mem_info.mem_size_bytes ≤ 2 ^ 48
      → boot.framebuffer.base_address + boot.framebuffer.buffer_size + 8192 ≤ 2 ^ 48
      → frames_needed boot t < free_frames t
      → IsAddressed h
      → IsRunning io laws h kernel_start kernel_end boot m t.mem_info.mem_size_bytes
  unfolding kmain
  kmain-IsRunning started stride known size fits enough addressed =
      let bitmap = started.bitmap in
      let small = started_small kernel_start kernel_end boot m.kernel t started size in
      let fb : frames_needed boot t ≤ free_frames t = omega arith in
      let paged = last boot t stride known size fits bitmap small fb in
      let run = runs boot t stride known size fits bitmap small fb in
      let root = fresh boot t stride known size fits bitmap small fb in
      let range = last-IsRange boot t stride known size fits bitmap small fb in
      let spare : 0 < free_frames paged =
        omega (arith, left_over boot t stride known size fits bitmap small fb) in
      let (after, prepared, table, gates, masks) =
        prepare_interrupts-IsPrepared io laws h (record m { kernel = paged }) addressed in
      record {
        root = root.k;
        after = after;
        done = rw (kmain, started.done, run, prepared) refl;
        walks = λ v.
            ap (λ (k : Kernel). walk k.memory root.k v)
              (prepared_kernel io h (record m { kernel = paged }) after prepared)
            ∙ walk-assign_handlers h paged root.k range.place range.tree spare v
            ∙ last_walks boot t stride known size fits bitmap small fb v;
        gates = rw table gates;
        limit = ap (λ (r : Idtr). r.limit) table;
        masks = masks;
      }
