-- ===== src/Io.antt =====
-- Port input and output (kernel/uefi/io.c). `inb` and `outb` are single machine instructions, so the
-- devices behind the ports are a parameter: a type of their states, with a read and a write of a
-- port. `io_wait` is a `nop`.
use bbn_os.Base.{ℕ, List, [], ◌∷◌}

pub record Ports (D : Type 0) : Type 0 where
  pub inb : ℕ → D → ℕ × D
  pub outb : ℕ → ℕ → D → D

-- Writes to ports, one after the other.
unfoldable pub out_all : {D : Type 0} → Ports D → List (ℕ × ℕ) → D → D
out_all io [] d = d
out_all io ((port, v) ∷ writes) d = out_all io writes (io.outb port v d)
