-- ===== src/Interrupts.antt =====
-- kernel/uefi/interrupts.c, and prepareInterrupts of kernel/uefi/idt.c: the gates and the masks with
-- which interrupts are switched on, and the two handlers of interrupts.
pub mod Panic
pub mod Ready
pub mod Session
pub mod Tests
use bbn_os.Base.{ℕ, ◌+◌, ◌-◌, ◌*◌, ◌%◌, ◌^◌, Option, none, some, List, [], ◌∷◌}
use bbn_os.Base.{ltb, if◌then◌else◌}
use bbn_os.Base.Loop.{count_up}
use bbn_os.Io.{Ports}
use bbn_os.Pic.{irq_set_mask, irq_clear_mask, pic_send_eoi, remap_pic}
use bbn_os.Mem.State.{Kernel}
use bbn_os.Mem.Pages.{page_size, request_page}
use bbn_os.Idt.{int_assign_func, idt_desc_size}
use bbn_os.Keyboard.{Keyboard, Output, keyboard_handle}
use bbn_os.Mouse.{Mouse, handle_ps2_mouse}
use bbn_os.Mouse.Setup.{ps2_mouse_init}

abbrev pub irq_keyboard_int : ℕ
irq_keyboard_int = 1

abbrev pub irq_cascade : ℕ
irq_cascade = 2

abbrev pub irq_ps2_mouse : ℕ
irq_ps2_mouse = 12

abbrev pub ex_double_fault : ℕ
ex_double_fault = 8

abbrev pub ex_general_protection : ℕ
ex_general_protection = 13

abbrev pub ex_page_fault : ℕ
ex_page_fault = 14

abbrev pub pic_master_int_start : ℕ
pic_master_int_start = 0x20

abbrev pub pic_slave_int_start : ℕ
pic_slave_int_start = 0x28

abbrev pub pic_get_int_vector : ℕ → ℕ
pic_get_int_vector irq =
    if ltb irq 8 then pic_master_int_start + irq else pic_slave_int_start + irq - 8

abbrev pub idt_entries : ℕ
idt_entries = 256

-- The addresses that the linker gives to the handlers.
pub record Handlers : Type 0 where
  pub ex_handler_df : ℕ
  pub ex_handler_gp : ℕ
  pub ex_handler_pf : ℕ
  pub int_handler_kb : ℕ
  pub int_handle_ps2_mouse : ℕ

pub record Idtr : Type 0 where
  pub limit : ℕ
  pub base : ℕ

pub record Machine (D : Type 0) : Type 0 where
  pub kernel : Kernel
  pub idtr : Idtr
  pub device : D

-- The five gates, in a table at `base`.
abbrev pub assign_handlers : Handlers → ℕ → Kernel → Kernel
assign_handlers h base k =
    let m1 = int_assign_func k.memory base ex_double_fault h.ex_handler_df in
    let m2 = int_assign_func m1 base ex_general_protection h.ex_handler_gp in
    let m3 = int_assign_func m2 base ex_page_fault h.ex_handler_pf in
    let m4 = int_assign_func m3 base (pic_get_int_vector irq_keyboard_int) h.int_handler_kb in
    let m5 = int_assign_func m4 base (pic_get_int_vector irq_ps2_mouse) h.int_handle_ps2_mouse in
    record k { memory = m5 }

module _ {D : Type 0} (io : Ports D) where
  -- What `prepareInterrupts` does to the devices.
  unfoldable pub prepare_devices : D → D
  unfolding count_up
  prepare_devices d =
      let d1 = remap_pic io pic_master_int_start pic_slave_int_start d in
      let d2 = count_up 16 0 (λ i e. irq_set_mask io i e) d1 in
      let d3 = ps2_mouse_init io d2 in
      let d4 = irq_clear_mask io irq_keyboard_int d3 in
      let d5 = irq_clear_mask io irq_cascade d4 in irq_clear_mask io irq_ps2_mouse d5

  -- `none` is the endless loop after the message that the table is too large. No device sees the
  -- memory, so the gates are all assigned before the devices are set up.
  unfoldable pub prepare_interrupts : Handlers → Machine D → Option (Machine D)
  unfolding prepare_devices
  prepare_interrupts h s =
      let idt_size = idt_entries * idt_desc_size in
      let (base, k) = request_page s.kernel in
      if ltb page_size idt_size
      then none
      else some (record {
        kernel = assign_handlers h base k;
        idtr = record { limit = (idt_size - 1) % 2 ^ 16; base = base };
        device = prepare_devices s.device;
      })

  unfoldable pub int_handler_kb : Keyboard → D → Keyboard × Option Output × D
  unfolding pic_send_eoi
  int_handler_kb s d =
      let (scancode, d') = io.inb 0x60 d in
      let (t, out) = keyboard_handle s scancode in (t, out, pic_send_eoi io irq_keyboard_int d')

  unfoldable pub int_handle_ps2_mouse : Mouse → D → Mouse × D
  unfolding pic_send_eoi
  int_handle_ps2_mouse s d =
      let (mouse_data, d') = io.inb 0x60 d in
      (handle_ps2_mouse s mouse_data, pic_send_eoi io irq_ps2_mouse d')
