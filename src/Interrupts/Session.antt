-- ===== src/Interrupts/Session.antt =====
-- kernel/uefi/interrupts.c: the two handlers over a sequence of interrupts, and the controllers that
-- deliver them.
use bbn_os.Base.{
  ℕ, ◌≤◌, ◌<◌, ◌≡◌, refl, Bool, true, false, Option, some, List, [], ◌∷◌, arith, ◌>>=◌,
}
use bbn_os.Io.{Ports}
use bbn_os.Pic.{pic_send_eoi}
use bbn_os.Keyboard.{Keyboard, Output, keyboard_handle, handle_all, emit}
use bbn_os.Mouse.{Mouse, handle_ps2_mouse, feed}
use bbn_os.Interrupts.{int_handler_kb, int_handle_ps2_mouse}

pub data Interrupt : Type 0 where
  from_keyboard : Interrupt
  from_mouse : Interrupt

-- What the controllers document of an interrupt's service. `accept irq` delivers the interrupt of a
-- line, or holds it back, which is `none`; `InService d a b` says whether the first and the second one
-- wait for the end of an interrupt. While none of them waits, a line is delivered, and those that it
-- passes wait then; the command 0x20 ends the service in one of them; reading the byte of the keyboard
-- or of the mouse does not.
pub record ServiceLaws {D : Type 0} (io : Ports D) (accept : ℕ → D → Option D) : Type 1 where
  pub InService : D → (first second : Bool) → Type 0
  pub accept_first :
      (irq : ℕ) (d : D)
      → irq < 8
      → InService d false false
      → (t : D) × (accept irq d ≡ some t) × InService t true false
  pub accept_second :
      (irq : ℕ) (d : D)
      → 8 ≤ irq
      → irq < 16
      → InService d false false
      → (t : D) × (accept irq d ≡ some t) × InService t true true
  pub read_keeps : (d : D) (a b : Bool) → InService d a b → InService (io.inb 0x60 d).1 a b
  pub eoi1 : (d : D) (a b : Bool) → InService d a b → InService (io.outb 0x20 0x20 d) false b
  pub eoi2 : (d : D) (a b : Bool) → InService d a b → InService (io.outb 0xA0 0x20 d) a false

module _ {D : Type 0} (io : Ports D) (accept : ℕ → D → Option D) where
  -- The keyboard on line 1 and the mouse on line 12 interrupt; `none` is an interrupt held back. The
  -- result has what was printed, too.
  unfoldable pub serve :
      List Interrupt → Keyboard → Mouse → D → Option ((Keyboard × List Output) × (Mouse × D))
  serve [] k m d = some ((k, []), (m, d))
  serve (from_keyboard ∷ irqs) k m d = accept 1 d >>= λ d1.
      let (k1, out, d2) = int_handler_kb io k d1 in
      serve irqs k1 m d2 >>= λ (keys, rest). some (emit out keys, rest)
  serve (from_mouse ∷ irqs) k m d =
      accept 12 d >>= λ d1. let (m1, d2) = int_handle_ps2_mouse io m d1 in serve irqs k m1 d2

  -- What the devices see of it: for each interrupt one byte is read, and its service is ended, in both
  -- controllers for the mouse. The bytes of the keyboard, those of the mouse, and the devices at last.
  unfoldable pub listen : List Interrupt → D → Option (List ℕ × (List ℕ × D))
  listen [] d = some ([], ([], d))
  listen (from_keyboard ∷ irqs) d = accept 1 d >>= λ d1.
      let (byte, d2) = io.inb 0x60 d1 in
      listen irqs (io.outb 0x20 0x20 d2) >>= λ (codes, rest). some (byte ∷ codes, rest)
  listen (from_mouse ∷ irqs) d = accept 12 d >>= λ d1.
      let (byte, d2) = io.inb 0x60 d1 in
      listen irqs (io.outb 0x20 0x20 (io.outb 0xA0 0x20 d2)) >>= λ (codes, (bytes, last)).
      some (codes, (byte ∷ bytes, last))

  module _ (laws : ServiceLaws io accept) where
    -- All interrupts are delivered, and each byte goes to the device that sent it.
    pub record IsDelivered (irqs : List Interrupt) (k : Keyboard) (m : Mouse) (d : D) : Type 0 where
      pub codes : List ℕ
      pub bytes : List ℕ
      pub last : D
      pub heard : listen irqs d ≡ some (codes, (bytes, last))
      pub served : serve irqs k m d ≡ some (handle_all k codes, (feed m bytes, last))
      pub ended : laws.InService last false false

    key_step :
        (irqs : List Interrupt) (k : Keyboard) (m : Mouse) (d t : D)
        → accept 1 d ≡ some t
        → let (byte, t') = io.inb 0x60 t in
          IsDelivered irqs (keyboard_handle k byte).0 m (io.outb 0x20 0x20 t')
          → IsDelivered (from_keyboard ∷ irqs) k m d
    unfolding serve listen handle_all int_handler_kb pic_send_eoi
    key_step irqs k m d t ok rest = record {
      codes = (io.inb 0x60 t).0 ∷ rest.codes;
      bytes = rest.bytes;
      last = rest.last;
      heard = rw (ok, rest.heard) refl;
      served = rw (ok, rest.served) refl;
      ended = rest.ended;
    }

    mouse_step :
        (irqs : List Interrupt) (k : Keyboard) (m : Mouse) (d t : D)
        → accept 12 d ≡ some t
        → let (byte, t') = io.inb 0x60 t in
          IsDelivered irqs k (handle_ps2_mouse m byte) (io.outb 0x20 0x20 (io.outb 0xA0 0x20 t'))
          → IsDelivered (from_mouse ∷ irqs) k m d
    unfolding serve listen feed int_handle_ps2_mouse pic_send_eoi
    mouse_step irqs k m d t ok rest = record {
      codes = rest.codes;
      bytes = (io.inb 0x60 t).0 ∷ rest.bytes;
      last = rest.last;
      heard = rw (ok, rest.heard) refl;
      served = rw (ok, rest.served) refl;
      ended = rest.ended;
    }

    -- Where the controllers keep to ServiceLaws and wait for no end of an interrupt, every one of any
    -- sequence of interrupts of the keyboard and of the mouse is delivered, since each handler ends its
    -- service: for the keyboard in the first controller, for the mouse in both. For each one byte is
    -- read; the keyboard is then as after the bytes of its interrupts in their order, with what these
    -- print, and the mouse as after those of its own; at last no controller waits.
    pub interrupts-IsDelivered :
        (irqs : List Interrupt) (k : Keyboard) (m : Mouse) (d : D)
        → laws.InService d false false
        → IsDelivered irqs k m d
    unfolding serve listen handle_all feed
    interrupts-IsDelivered [] k m d free = record {
      codes = [];
      bytes = [];
      last = d;
      heard = refl;
      served = refl;
      ended = free;
    }
    interrupts-IsDelivered (from_keyboard ∷ irqs) k m d free =
        let (t, ok, waits) = laws.accept_first 1 d (omega arith) free in
        let ends = laws.eoi1 (io.inb 0x60 t).1 true false (laws.read_keeps t true false waits) in
        key_step irqs k m d t ok (
          interrupts-IsDelivered irqs (keyboard_handle k (io.inb 0x60 t).0).0 m
            (io.outb 0x20 0x20 (io.inb 0x60 t).1) ends)
    interrupts-IsDelivered (from_mouse ∷ irqs) k m d free =
        let (t, ok, waits) = laws.accept_second 12 d (omega arith) (omega arith) free in
        let t' = (io.inb 0x60 t).1 in
        let second = laws.eoi2 t' true true (laws.read_keeps t true true waits) in
        let ends = laws.eoi1 (io.outb 0xA0 0x20 t') true false second in
        mouse_step irqs k m d t ok (
          interrupts-IsDelivered irqs k (handle_ps2_mouse m (io.inb 0x60 t).0)
            (io.outb 0x20 0x20 (io.outb 0xA0 0x20 t')) ends)
