-- ===== src/Interrupts/Ready.antt =====
-- The machine after `prepareInterrupts`: its masks and its gates.
use bbn_os.Base.{ℕ, zero, suc, ◌+◌, ◌^◌, ◌<◌, ◌≤◌, ◌≡◌, refl, ◌∙◌, ◌&&◌, not, true, some, arith}
use bbn_os.Base.{inl, inr, Bool-cases, ◌==◌, ltb, every_below, test_of_every, mul64}
use bbn_os.Base.Loop.{count_up}
use bbn_os.Io.{Ports}
use bbn_os.Pic.{PicLaws, irq_set_mask, pic1_data, pic2_data}
use bbn_os.Pic.Masks.{set_1, set_2, irq_set_mask-Shows, irq_clear_mask-Shows, remap_pic-Shows}
use bbn_os.Memory.{Memory}
use bbn_os.Mem.State.{Kernel}
use bbn_os.Mem.Pages.{frame, request_from, request_page}
use bbn_os.Mouse.Setup.Masks.{ps2_mouse_init-Shows}
use bbn_os.Idt.{int_assign_func, idt_desc_get_offset, idt_desc_by_index}
use bbn_os.Idt.Gates.{idt_desc_get_offset-int_assign_func, int_assign_func_kept}
use bbn_os.Interrupts.{Handlers, Machine, prepare_devices, prepare_interrupts, assign_handlers}

all_set_1 : every_below 256 (λ a. count_up 16 0 set_1 a == 255) ≡ true
unfolding every_below count_up
all_set_1 = refl

all_set_2 : every_below 256 (λ b. count_up 16 0 set_2 b == 255) ≡ true
unfolding every_below count_up
all_set_2 = refl

module _ {D : Type 0} (io : Ports D) (laws : PicLaws io) where
  set_loop :
      (n i : ℕ) (d : D) (a b : ℕ)
      → laws.Shows d a b
      → laws.Shows
          (count_up n i (λ k e. irq_set_mask io k e) d)
          (count_up n i set_1 a)
          (count_up n i set_2 b)
  unfolding count_up
  set_loop zero i d a b shows = shows
  set_loop (suc n) i d a b shows =
      set_loop n (i + 1) (irq_set_mask io i d) (set_1 i a) (set_2 i b)
        (irq_set_mask-Shows io laws d a b i shows)

  all_masked :
      (d : D) (a b : ℕ)
      → a < 256
      → b < 256
      → laws.Shows d a b
      → laws.Shows (count_up 16 0 (λ k e. irq_set_mask io k e) d) 255 255
  all_masked d a b ha hb shows =
      let full_1 : count_up 16 0 set_1 a ≡ 255 =
        ground (arith, test_of_every 256 (λ x. count_up 16 0 set_1 x == 255) a all_set_1 ha) in
      let full_2 : count_up 16 0 set_2 b ≡ 255 =
        ground (arith, test_of_every 256 (λ x. count_up 16 0 set_2 x == 255) b all_set_2 hb) in
      rw (full_1, full_2) at (set_loop 16 0 d a b shows)

  -- Whatever the masks were, the keyboard (line 1), the cascade (line 2) and the mouse (line 12) are
  -- the only lines whose bit is clear once the interrupts are prepared.
  pub prepare_devices-Shows : (d : D) → laws.Shows (prepare_devices io d) 0b11111001 0b11101111
  unfolding prepare_devices
  prepare_devices-Shows d =
      let start = remap_pic-Shows io laws 0x20 0x28 d in
      let set = all_masked _ _ _ (laws.inb_byte pic1_data d) (laws.inb_byte pic2_data _) start in
      let mouse = ps2_mouse_init-Shows io laws 255 255 _ set in
      let line_1 = irq_clear_mask-Shows io laws _ 255 255 1 (omega arith) (omega arith) mouse in
      let line_2 = irq_clear_mask-Shows io laws _ 253 255 2 (omega arith) (omega arith) line_1 in
      irq_clear_mask-Shows io laws _ 249 255 12 (omega arith) (omega arith) line_2

-- A page that `requestPage` returns does not reach past the last address.
request_from-fits : (n index : ℕ) (s : Kernel) → (request_from n index s).0 + 4096 ≤ 2 ^ 64
unfolding request_from
request_from-fits zero index s = omega arith
request_from-fits (suc n) index s = elim (Bool-cases (frame s index)) [
  | inl taken ↦ rw (request_from, taken) (request_from-fits n (index + 1) s)
  | inr free ↦ rw (request_from, free) (omega arith)
]

request_page-fits : (s : Kernel) → (request_page s).0 + 4096 ≤ 2 ^ 64
unfolding request_page
request_page-fits s = request_from-fits (mul64 s.mem_info.mem_bit_map.size 8) 0 s

-- The address of the handler of a vector, as it stands in the table at `base`.
abbrev pub handler_at : Kernel → ℕ → ℕ → ℕ
handler_at k base vector = idt_desc_get_offset k.memory (idt_desc_by_index base vector)

module _ (h : Handlers) where
  -- The handlers are addresses.
  abbrev pub IsAddressed : Type 0
  IsAddressed =
      (h.ex_handler_df < 2 ^ 64)
      × (h.ex_handler_gp < 2 ^ 64)
      × (h.ex_handler_pf < 2 ^ 64)
      × (h.int_handler_kb < 2 ^ 64)
      × (h.int_handle_ps2_mouse < 2 ^ 64)

  -- Double fault, general protection, page fault, keyboard and mouse have their handlers.
  abbrev pub HasHandlers : Kernel → ℕ → Type 0
  HasHandlers k base =
      (handler_at k base 8 ≡ h.ex_handler_df)
      × (handler_at k base 13 ≡ h.ex_handler_gp)
      × (handler_at k base 14 ≡ h.ex_handler_pf)
      × (handler_at k base 0x21 ≡ h.int_handler_kb)
      × (handler_at k base 0x2C ≡ h.int_handle_ps2_mouse)

  module _ (base : ℕ) (fits : base + 4096 ≤ 2 ^ 64) where
    kept :
        (m : Memory) (index handler j : ℕ)
        → (ltb index 256 && ltb j 256 && not (j == index)) ≡ true
        → idt_desc_get_offset (int_assign_func m base index handler) (idt_desc_by_index base j)
          ≡ idt_desc_get_offset m (idt_desc_by_index base j)
    kept m index handler j other =
        int_assign_func_kept m base index handler j fits (ground arith) (ground arith)
          (ground arith)

    assign_handlers-HasHandlers :
        (k : Kernel) → IsAddressed → HasHandlers (assign_handlers h base k) base
    assign_handlers-HasHandlers k (df, gp, pf, kb, ms) =
        let m1 = int_assign_func k.memory base 8 h.ex_handler_df in
        let m2 = int_assign_func m1 base 13 h.ex_handler_gp in
        let m3 = int_assign_func m2 base 14 h.ex_handler_pf in
        let m4 = int_assign_func m3 base 0x21 h.int_handler_kb in
        let after_1 = idt_desc_get_offset-int_assign_func k.memory base 8 h.ex_handler_df df in
        let after_2 = idt_desc_get_offset-int_assign_func m1 base 13 h.ex_handler_gp gp in
        let after_3 = idt_desc_get_offset-int_assign_func m2 base 14 h.ex_handler_pf pf in
        let after_4 = idt_desc_get_offset-int_assign_func m3 base 0x21 h.int_handler_kb kb in
        (
          kept m4 0x2C h.int_handle_ps2_mouse 8 refl
              ∙ kept m3 0x21 h.int_handler_kb 8 refl
              ∙ kept m2 14 h.ex_handler_pf 8 refl
              ∙ kept m1 13 h.ex_handler_gp 8 refl
              ∙ after_1,
          kept m4 0x2C h.int_handle_ps2_mouse 13 refl
              ∙ kept m3 0x21 h.int_handler_kb 13 refl
              ∙ kept m2 14 h.ex_handler_pf 13 refl
              ∙ after_2,
          kept m4 0x2C h.int_handle_ps2_mouse 14 refl
              ∙ kept m3 0x21 h.int_handler_kb 14 refl
              ∙ after_3,
          kept m4 0x2C h.int_handle_ps2_mouse 0x21 refl ∙ after_4,
          idt_desc_get_offset-int_assign_func m4 base 0x2C h.int_handle_ps2_mouse ms,
        )

-- The interrupts are prepared: `prepareInterrupts` returns a machine with these registers, gates and
-- masks.
abbrev pub IsPrepared : {D : Type 0} (io : Ports D) → PicLaws io → Handlers → Machine D → Type 0
IsPrepared {D} io laws h s =
    let base = (request_page s.kernel).0 in
    (t : Machine D) × (prepare_interrupts io h s ≡ some t)
    × (t.idtr ≡ record { limit = 4095; base = base })
    × HasHandlers h t.kernel base
    × laws.Shows t.device 0b11111001 0b11101111

-- `prepareInterrupts` returns, where the interrupt controllers keep to PicLaws and the handlers have
-- 64-bit addresses. The table it loads is the
-- page that `requestPage` gave, with room for 256 gates; the two interrupts and the three exceptions
-- that have a handler find it there; and of all interrupt lines, the keyboard, the cascade and the
-- mouse alone are let through.
pub prepare_interrupts-IsPrepared :
    {D : Type 0} (io : Ports D) (laws : PicLaws io) (h : Handlers) (s : Machine D)
    → IsAddressed h
    → IsPrepared io laws h s
unfolding prepare_interrupts
prepare_interrupts-IsPrepared io laws h s addressed =
    let (base, k) = request_page s.kernel in
    (
      record {
        kernel = assign_handlers h base k;
        idtr = record { limit = 4095; base = base };
        device = prepare_devices io s.device;
      },
      refl,
      refl,
      assign_handlers-HasHandlers h base (request_page-fits s.kernel) k addressed,
      prepare_devices-Shows io laws s.device,
    )
