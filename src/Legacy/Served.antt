-- ===== src/Legacy/Served.antt =====
-- kernel/legacy/irq.c: the handlers of the lines once the older kernel has started, and what they do to
-- it.
use bbn_os.Base.{
  ℕ, ◌+◌, ◌<◌, ◌≡◌, inl, inr, refl, false, Option, some, List, [], ◌∷◌, arith, ◌>>=◌, ◌==◌,
  if◌then◌else◌, Bool-cases,
}
use bbn_os.Base.Loop.{count_up_inv}
use bbn_os.Legacy.Irq.{
  IrqHandler, common_irq, clock_handler, keyboard_handler, Lines, IrqCalls, register_handler,
  init_8259a, run_handler, spurious_irq, register_lines, start_lines,
}

-- The table of handlers after `init_8259A` and `kmain`: the clock, the keyboard, and the common handler
-- on the lines that are left.
abbrev pub handler_of : (irq : ℕ) → IrqHandler
handler_of irq =
    if irq == 0 then clock_handler else if irq == 1 then keyboard_handler else common_irq

-- The lines of the controllers without the clock's, which `kmain` never lets through: its call of
-- enable_irq for line 0 is commented out.
abbrev pub AreOther : List ℕ → Type 0
AreOther [] = Unit {0}
AreOther (irq ∷ irqs) = (0 < irq) × (irq < 16) × AreOther irqs

module _ {D : Type 0} (calls : IrqCalls D) where
  -- The interrupts of some lines, one after the other.
  unfoldable pub serve : List ℕ → Lines D → Option (Lines D)
  serve [] s = some s
  serve (irq ∷ irqs) s = spurious_irq calls irq s >>= λ t. serve irqs t

  -- The devices after a scan code was read for each interrupt of the keyboard.
  abbrev pub keys_read : List ℕ → D → D
  keys_read [] d = d
  keys_read (irq ∷ irqs) d = keys_read irqs (if irq == 1 then (calls.ports.inb 0x60 d).1 else d)

  registered :
      (k : ℕ) (t : Lines D)
      → ((j : ℕ) → j < k → t.irq_table j ≡ some common_irq)
      → (j : ℕ) → j < k + 1
      → (register_handler calls common_irq k t).irq_table j ≡ some common_irq
  unfolding register_handler
  registered k t old j below = elim (Bool-cases (j == k)) [
    | inl here ↦ rw here refl
    | inr other ↦ rw other (old j (ground arith))
  ]

  init_8259a-table :
      (s : Lines D) (i : ℕ) → i < 16 → (init_8259a calls s).irq_table i ≡ some common_irq
  unfolding init_8259a
  init_8259a-table s i h =
      count_up_inv (λ k t. (j : ℕ) → j < k → t.irq_table j ≡ some common_irq)
        (λ k t. register_handler calls common_irq k t) 16 0 16 _ refl
        (λ k t _ old. registered k t old) (λ j below. ground arith) i h

  -- Once the older kernel has started, the handler of the clock is on line 0, the keyboard's on line 1, and
  -- the common one on the fourteen others: no interrupt of a line jumps through an empty entry.
  pub start_lines-table :
      (s : Lines D) (irq : ℕ)
      → irq < 16
      → (start_lines calls (init_8259a calls s)).irq_table irq ≡ some (handler_of irq)
  unfolding start_lines register_lines register_handler
  start_lines-table s irq h = let common = init_8259a-table s irq h in ground (arith, common)

  -- One interrupt of a line other than the clock's.
  spurious_irq_lem :
      (s : Lines D) (irq : ℕ)
      → 0 < irq
      → s.irq_table irq ≡ some (handler_of irq)
      → spurious_irq calls irq s
        ≡ some (record s {
          devices = if irq == 1 then (calls.ports.inb 0x60 s.devices).1 else s.devices;
        })
  unfolding spurious_irq run_handler
  spurious_irq_lem s irq h e =
      let other : (irq == 0) ≡ false = ground arith in
      elim (Bool-cases (irq == 1)) [
        | inl key ↦ rw (e, other, key) refl
        | inr common ↦ rw (e, other, common) refl
      ]

  pub serve_lem :
      (irqs : List ℕ) (s : Lines D)
      → AreOther irqs
      → ((irq : ℕ) → irq < 16 → s.irq_table irq ≡ some (handler_of irq))
      → serve irqs s ≡ some (record s { devices = keys_read irqs s.devices })
  unfolding serve
  serve_lem [] s h table = refl
  serve_lem (irq ∷ irqs) s (h, below, rest) table =
      rw (spurious_irq_lem s irq h (table irq below)) (
        serve_lem irqs
          (record s {
            devices = if irq == 1 then (calls.ports.inb 0x60 s.devices).1 else s.devices;
          })
          rest table)
