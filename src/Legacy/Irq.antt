-- ===== src/Legacy/Irq.antt =====
-- kernel/legacy/irq.c: the interrupt controllers and the handlers of interrupt lines. What they print is
-- left out.
use bbn_os.Base.{ℕ, ◌+◌, not, Option, some, List, [], ◌∷◌, ◌==◌, leb, if◌then◌else◌, ◌>>=◌}
use bbn_os.Base.Loop.{count_up}
use bbn_os.Io.{Ports, out_all}

-- The handlers that `irq_table` is filled with.
pub data IrqHandler : Type 0 where
  common_irq : IrqHandler
  clock_handler : IrqHandler
  keyboard_handler : IrqHandler

-- The devices behind the ports with `disable_irq` and `enable_irq` of irq.asm, the table, the task that
-- is ready as an index of `proc_table`, and the depth of clock interrupts.
pub record Lines (D : Type 0) : Type 0 where
  pub devices : D
  pub irq_table : ℕ → Option IrqHandler
  pub p_proc_ready : ℕ
  pub clock_int_enter_time : ℕ

-- Calls that are assembly.
pub record IrqCalls (D : Type 0) : Type 0 where
  pub ports : Ports D
  pub disable_irq : ℕ → D → D
  pub enable_irq : ℕ → D → D

abbrev pub num_irq : ℕ
num_irq = 16

abbrev pub max_thread : ℕ
max_thread = 3

-- The writes of `init_8259A`.
abbrev pub init_writes : List (ℕ × ℕ)
init_writes =
    (0x20, 0x11)
    ∷ (0xA0, 0x11)
    ∷ (0x21, 0x20)
    ∷ (0xA1, 0x28)
    ∷ (0x21, 0x04)
    ∷ (0xA1, 0x02)
    ∷ (0x21, 0x01)
    ∷ (0xA1, 0x01)
    ∷ (0x21, 0xFF)
    ∷ (0xA1, 0xFF)
    ∷ []

-- `clock_handler`: a nested interrupt changes nothing; else the next task is ready.
unfoldable pub clock_tick : {D : Type 0} → Lines D → Lines D
clock_tick s =
    if not (s.clock_int_enter_time == 0)
    then s
    else (let next = s.p_proc_ready + 1 in
        record s { p_proc_ready = if leb max_thread next then 0 else next })

module _ {D : Type 0} (calls : IrqCalls D) where
  unfoldable pub register_handler : IrqHandler → (irq : ℕ) → Lines D → Lines D
  register_handler handler irq s = record s {
    devices = calls.disable_irq irq s.devices;
    irq_table = λ i. if i == irq then some handler else s.irq_table i;
  }

  unfoldable pub init_8259a : Lines D → Lines D
  init_8259a s =
      count_up num_irq 0 (λ i t. register_handler common_irq i t)
        (record s { devices = out_all calls.ports init_writes s.devices })

  -- The scan code is read, and printed.
  unfoldable pub run_handler : IrqHandler → Lines D → Lines D
  run_handler common_irq s = s
  run_handler clock_handler s = clock_tick s
  run_handler keyboard_handler s = record s { devices = (calls.ports.inb 0x60 s.devices).1 }

  -- `none` is a jump through an entry that was never set.
  unfoldable pub spurious_irq : (irq : ℕ) → Lines D → Option (Lines D)
  spurious_irq irq s = s.irq_table irq >>= λ handler. some (run_handler handler s)

  -- The part of `kmain` that registers the handlers.
  unfoldable pub register_lines : Lines D → Lines D
  register_lines s =
      let t = register_handler keyboard_handler 1 (register_handler clock_handler 0 s) in
      record t { devices = calls.enable_irq 1 t.devices }

  -- What `kmain` does of it: at last the first task is ready, and no clock interrupt runs.
  unfoldable pub start_lines : Lines D → Lines D
  start_lines s = record (register_lines s) { p_proc_ready = 0; clock_int_enter_time = 0 }
