-- ===== src/Mouse/Setup.antt =====
-- The set-up of the mouse through the ports of its controller.
pub mod Masks
use bbn_os.Base.{ℕ, zero, suc, Bool, true, false}
use bbn_os.Base.{◌==◌, if◌then◌else◌, bit_and, bit_or}
use bbn_os.Io.{Ports}

module _ {D : Type 0} (io : Ports D) where
  -- The loops of the two waits, with `n` rounds left: until the status port says that the controller
  -- can take a byte, or that it has one.
  unfoldable pub wait_write : ℕ → D → D
  wait_write zero d = d
  wait_write (suc n) d =
      let (status, d') = io.inb 0x64 d in
      elim (bit_and status 0b10 == 0) [ true ↦ d' | false ↦ wait_write n d' ]

  unfoldable pub wait_read : ℕ → D → D
  wait_read zero d = d
  wait_read (suc n) d =
      let (status, d') = io.inb 0x64 d in
      elim (bit_and status 0b1 == 0) [ true ↦ wait_read n d' | false ↦ d' ]

  unfoldable pub ps2_mouse_wait : D → D
  unfolding wait_write
  ps2_mouse_wait d = wait_write 100000 d

  unfoldable pub ps2_mouse_wait_input : D → D
  unfolding wait_read
  ps2_mouse_wait_input d = wait_read 100000 d

  unfoldable pub mouse_write : ℕ → D → D
  unfolding ps2_mouse_wait
  mouse_write value d = io.outb 0x60 value (ps2_mouse_wait (io.outb 0x64 0xD4 (ps2_mouse_wait d)))

  unfoldable pub mouse_read : D → ℕ × D
  unfolding ps2_mouse_wait_input
  mouse_read d = io.inb 0x60 (ps2_mouse_wait_input d)

  -- A command to the controller, once it can take one.
  abbrev pub command : ℕ → D → D
  command c d = io.outb 0x64 c (ps2_mouse_wait d)

  -- To the first `PS2MouseWaitInput` and the read that follows it; the two commands that enable the
  -- mouse and ask for the status; the new status; the two commands to the mouse; and the keyboard.
  unfoldable pub ps2_mouse_init : D → D
  unfolding mouse_write mouse_read
  ps2_mouse_init d =
      let (_, d1) = mouse_read (command 0xad d) in
      let (status, d2) = mouse_read (command 0x20 (command 0xA8 d1)) in
      let d3 = io.outb 0x60 (bit_or status 0b10) (ps2_mouse_wait (command 0x60 d2)) in
      let (_, d4) = mouse_read (mouse_write 0xF6 d3) in
      let (_, d5) = mouse_read (mouse_write 0xF4 d4) in
      let (_, d6) = mouse_read (command 0xae d5) in d6
