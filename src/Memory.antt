-- ===== src/Memory.antt =====
-- Physical memory, as the kernel's pointers see it: a byte at every address. A cell is read modulo
-- 256, so every function is a memory. Pointer arithmetic does not wrap (C leaves it undefined).
-- `memset` is lib/uefi/memop.c.
pub mod Words
use bbn_os.Base.{ℕ, ◌+◌, ◌*◌, ◌%◌, ◌^◌, ◌<◌, ◌≡◌, ◌&&◌, arith}
use bbn_os.Base.{◌==◌, ltb, leb, if◌then◌else◌}
use native.Mathlib.Nat.{add-zero, add_assoc}
use bbn_os.Base.Loop.{count_up, count_up_inv}

abbrev pub Memory : Type 0
Memory = ℕ → ℕ

abbrev pub load8 : Memory → ℕ → ℕ
load8 m a = m a % 256

abbrev pub store8 : Memory → ℕ → ℕ → Memory
store8 m a v x = if x == a then v else m x

-- `void *memset(void *d, int s, size_t c)`: `rep stosb` stores the low byte of `s`, `c` times.
unfoldable pub memset : Memory → ℕ → ℕ → ℕ → Memory
unfolding count_up
memset m d s c = count_up c 0 (λ i m'. store8 m' (d + i) (s % 256)) m

-- `memset` fills exactly the `c` bytes from `d` on, and leaves every other byte alone.
pub load8-memset :
    (m : Memory) (d s c a : ℕ)
    → load8 (memset m d s c) a ≡ (if leb d a && ltb a (d + c) then s % 256 else load8 m a)
unfolding memset
load8-memset m d s c a =
    count_up_inv (λ k m'. load8 m' a ≡ (if leb d a && ltb a (d + k) then s % 256 else load8 m a))
      (λ i m'. store8 m' (d + i) (s % 256)) c 0 c m (omega arith) (λ k t lt ih. ground arith)
      (ground arith)

-- Little-endian words.
unfoldable pub load32 : Memory → ℕ → ℕ
load32 m a =
    load8 m a + load8 m (a + 1) * 2 ^ 8 + load8 m (a + 2) * 2 ^ 16 + load8 m (a + 3) * 2 ^ 24

unfoldable pub load64 : Memory → ℕ → ℕ
unfolding load32
load64 m a = load32 m a + load32 m (a + 4) * 2 ^ 32

pub load32-congr :
    (m m' : Memory) (a : ℕ)
    → ((k : ℕ) → k < 4 → load8 m (a + k) ≡ load8 m' (a + k))
    → load32 m a ≡ load32 m' a
unfolding load32
load32-congr m m' a same =
    let first : load8 m a ≡ load8 m' a = rw add-zero at (same 0 (omega arith)) in
    omega (arith, first, same 1 (omega arith), same 2 (omega arith), same 3 (omega arith))

pub load64-congr :
    (m m' : Memory) (a : ℕ)
    → ((k : ℕ) → k < 8 → load8 m (a + k) ≡ load8 m' (a + k))
    → load64 m a ≡ load64 m' a
unfolding load64
load64-congr m m' a same = omega (
  arith,
  load32-congr m m' a (λ k h. same k (omega arith)),
  load32-congr m m' (a + 4) (λ k h. rw (add_assoc a 4 k) (same (4 + k) (omega arith))),
)

pub load64_bound : (m : Memory) (a : ℕ) → load64 m a < 2 ^ 64
unfolding load64 load32
load64_bound m a = omega arith
