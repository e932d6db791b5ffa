-- ===== src/Memory/Words.antt =====
-- Stores of little-endian words of 16 and 32 bits.
use bbn_os.Base.{ℕ, ◌+◌, ◌*◌, ◌/◌, ◌%◌, ◌^◌, ◌≤◌, ◌<◌, ◌≡◌, ◌⊎◌, inl, arith}
use bbn_os.Base.{◌==◌, if◌then◌else◌}
use bbn_os.Memory.{Memory, load8, store8, load32, load64, load32-congr, load64-congr}

unfoldable pub load16 : Memory → ℕ → ℕ
load16 m a = load8 m a + load8 m (a + 1) * 2 ^ 8

unfoldable pub store16 : Memory → ℕ → ℕ → Memory
store16 m a v = store8 (store8 m a (v % 2 ^ 8)) (a + 1) (v / 2 ^ 8 % 2 ^ 8)

unfoldable pub store32 : Memory → ℕ → ℕ → Memory
unfolding store16
store32 m a v = store16 (store16 m a (v % 2 ^ 16)) (a + 2) (v / 2 ^ 16 % 2 ^ 16)

pub load8-store16 :
    (m : Memory) (a v x : ℕ)
    → load8 (store16 m a v) x
      ≡ (if x == a then v % 2 ^ 8 else if x == a + 1 then v / 2 ^ 8 % 2 ^ 8 else load8 m x)
unfolding store16
load8-store16 m a v x = ground arith

pub load8-store32 :
    (m : Memory) (a v x : ℕ)
    → load8 (store32 m a v) x ≡ (
        if x == a
        then v % 2 ^ 8
        else if x == a + 1
        then v / 2 ^ 8 % 2 ^ 8
        else if x == a + 2
        then v / 2 ^ 16 % 2 ^ 8
        else if x == a + 3
        then v / 2 ^ 24 % 2 ^ 8
        else load8 m x)
unfolding store32
load8-store32 m a v x = ground (
  arith,
  load8-store16 m a (v % 2 ^ 16) x,
  load8-store16 (store16 m a (v % 2 ^ 16)) (a + 2) (v / 2 ^ 16 % 2 ^ 16) x,
)

-- What is stored is what is loaded.
pub load16-store16 : (m : Memory) (a v : ℕ) → load16 (store16 m a v) a ≡ v % 2 ^ 16
unfolding load16
load16-store16 m a v = ground (arith, load8-store16 m a v a, load8-store16 m a v (a + 1))

pub load32-store32 : (m : Memory) (a v : ℕ) → load32 (store32 m a v) a ≡ v % 2 ^ 32
unfolding load32
load32-store32 m a v = ground (
  arith,
  load8-store32 m a v a,
  load8-store32 m a v (a + 1),
  load8-store32 m a v (a + 2),
  load8-store32 m a v (a + 3),
)

unfoldable pub store64 : Memory → ℕ → ℕ → Memory
unfolding store32
store64 m a v = store32 (store32 m a (v % 2 ^ 32)) (a + 4) (v / 2 ^ 32 % 2 ^ 32)

-- A word of 64 bits changes its eight bytes and no other.
pub load8-store64 :
    (m : Memory) (a v x : ℕ) → (x < a) ⊎ (a + 8 ≤ x) → load8 (store64 m a v) x ≡ load8 m x
unfolding store64
load8-store64 m a v x away = ground (
  arith,
  load8-store32 m a (v % 2 ^ 32) x,
  load8-store32 (store32 m a (v % 2 ^ 32)) (a + 4) (v / 2 ^ 32 % 2 ^ 32) x,
)

pub load32-away :
    (m : Memory) (a b v : ℕ) → (b + 4 ≤ a) ⊎ (a + 4 ≤ b) → load32 (store32 m a v) b ≡ load32 m b
load32-away m a b v apart =
    load32-congr (store32 m a v) m b (λ k h. ground (arith, apart, load8-store32 m a v (b + k)))

pub load64-store64 : (m : Memory) (a v : ℕ) → load64 (store64 m a v) a ≡ v % 2 ^ 64
unfolding load64 store64
load64-store64 m a v = omega (
  arith,
  load32-away (store32 m a (v % 2 ^ 32)) (a + 4) a (v / 2 ^ 32 % 2 ^ 32) (inl (omega arith)),
  load32-store32 m a (v % 2 ^ 32),
  load32-store32 (store32 m a (v % 2 ^ 32)) (a + 4) (v / 2 ^ 32 % 2 ^ 32),
)

pub load64-away :
    (m : Memory) (a b v : ℕ) → (b + 8 ≤ a) ⊎ (a + 8 ≤ b) → load64 (store64 m a v) b ≡ load64 m b
load64-away m a b v apart =
    load64-congr (store64 m a v) m b (λ k h. load8-store64 m a v (b + k) (grind arith))
