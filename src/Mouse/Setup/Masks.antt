-- ===== src/Mouse/Setup/Masks.antt =====
-- The set-up of the mouse leaves the masks of the interrupt controllers alone.
use bbn_os.Base.{ℕ, zero, suc, inl, inr, arith}
use bbn_os.Base.{◌==◌, bit_and, Bool-cases}
use bbn_os.Io.{Ports}
use bbn_os.Pic.{PicLaws}
use bbn_os.Mouse.Setup.{
  wait_write, wait_read, ps2_mouse_wait, ps2_mouse_wait_input, mouse_write, mouse_read, command,
  ps2_mouse_init,
}

module _ {D : Type 0} (io : Ports D) (laws : PicLaws io) (a b : ℕ) where
  wait_write-Shows : (n : ℕ) (d : D) → laws.Shows d a b → laws.Shows (wait_write io n d) a b
  unfolding wait_write
  wait_write-Shows zero d shows = shows
  wait_write-Shows (suc n) d shows =
      let next = laws.inb_keeps 0x64 d a b shows in
      elim (Bool-cases (bit_and (io.inb 0x64 d).0 0b10 == 0)) [
        | inl done ↦ rw (wait_write, done) next
        | inr busy ↦ rw (wait_write, busy) (wait_write-Shows n _ next)
      ]

  wait_read-Shows : (n : ℕ) (d : D) → laws.Shows d a b → laws.Shows (wait_read io n d) a b
  unfolding wait_read
  wait_read-Shows zero d shows = shows
  wait_read-Shows (suc n) d shows =
      let next = laws.inb_keeps 0x64 d a b shows in
      elim (Bool-cases (bit_and (io.inb 0x64 d).0 0b1 == 0)) [
        | inl empty ↦ rw (wait_read, empty) (wait_read-Shows n _ next)
        | inr full ↦ rw (wait_read, full) next
      ]

  out_60 : (v : ℕ) (d : D) → laws.Shows d a b → laws.Shows (io.outb 0x60 v d) a b
  out_60 v d shows =
      laws.outb_other 0x60 v d a b (omega arith) (omega arith) (omega arith) (omega arith) shows

  wait-Shows : (d : D) → laws.Shows d a b → laws.Shows (ps2_mouse_wait io d) a b
  unfolding ps2_mouse_wait
  wait-Shows d shows = wait_write-Shows 100000 d shows

  command-Shows : (c : ℕ) (d : D) → laws.Shows d a b → laws.Shows (command io c d) a b
  command-Shows c d shows =
      laws.outb_other 0x64 c _ a b (omega arith) (omega arith) (omega arith) (omega arith)
        (wait-Shows d shows)

  mouse_write-Shows : (v : ℕ) (d : D) → laws.Shows d a b → laws.Shows (mouse_write io v d) a b
  unfolding mouse_write
  mouse_write-Shows v d shows = out_60 v _ (wait-Shows _ (command-Shows 0xD4 d shows))

  mouse_read-Shows : (d : D) → laws.Shows d a b → laws.Shows (mouse_read io d).1 a b
  unfolding mouse_read ps2_mouse_wait_input
  mouse_read-Shows d shows = laws.inb_keeps 0x60 _ a b (wait_read-Shows 100000 d shows)

  pub ps2_mouse_init-Shows : (d : D) → laws.Shows d a b → laws.Shows (ps2_mouse_init io d) a b
  unfolding ps2_mouse_init
  ps2_mouse_init-Shows d shows =
      let d1 = mouse_read-Shows _ (command-Shows 0xad d shows) in
      let d2 = mouse_read-Shows _ (command-Shows 0x20 _ (command-Shows 0xA8 _ d1)) in
      let d3 = out_60 _ _ (wait-Shows _ (command-Shows 0x60 _ d2)) in
      let d4 = mouse_read-Shows _ (mouse_write-Shows 0xF6 _ d3) in
      let d5 = mouse_read-Shows _ (mouse_write-Shows 0xF4 _ d4) in
      mouse_read-Shows _ (command-Shows 0xae _ d5)
