-- ===== src/Loader/Compare.antt =====
-- `memcmp` tells which region is the greater one by the first byte in which they differ.
use bbn_os.Base.{ℕ, zero, suc, ◌+◌, ◌<◌, ◌≡◌, inl, inr, arith, ◌==◌, ltb, Bool-cases}
use bbn_os.Memory.{Memory, load8}
use bbn_os.Loader.Elf.{Compared, less, same, greater, memcmp_from, memcmp}

-- The bytes before index `k` are the same.
abbrev pub IsSameTo : (m : Memory) (l r k : ℕ) → Type 0
IsSameTo m l r k = (j : ℕ) → j < k → load8 m (l + j) ≡ load8 m (r + j)

-- What each answer says of `n` bytes.
abbrev pub IsCompared : (m : Memory) (l r n : ℕ) → Compared → Type 0
IsCompared m l r n same = IsSameTo m l r n
IsCompared m l r n less = (k : ℕ) × (k < n) × IsSameTo m l r k × (load8 m (l + k) < load8 m (r + k))
IsCompared m l r n greater =
    (k : ℕ) × (k < n) × IsSameTo m l r k × (load8 m (r + k) < load8 m (l + k))

memcmp_from-IsCompared :
    (n : ℕ) (m : Memory) (l r i : ℕ)
    → IsSameTo m l r i
    → IsCompared m l r (i + n) (memcmp_from n m l r i)
unfolding memcmp_from
memcmp_from-IsCompared zero m l r i before = λ j h. before j (omega arith)
memcmp_from-IsCompared (suc n) m l r i before =
    elim (Bool-cases (ltb (load8 m (l + i)) (load8 m (r + i)))) [
      | inl lt ↦ rw (memcmp_from, lt) (i, omega arith, before, ground arith)
      | inr ge ↦ elim (Bool-cases (ltb (load8 m (r + i)) (load8 m (l + i)))) [
        | inl gt ↦ rw (memcmp_from, ge, gt) (i, omega arith, before, ground arith)
        | inr le ↦
            let next = memcmp_from-IsCompared n m l r (i + 1) (λ j h. elim (Bool-cases (j == i)) [
              | inl e ↦ let here : j ≡ i = ground arith in rw here (ground arith)
              | inr ne ↦ before j (ground arith)
            ]) in
            let all : i + 1 + n ≡ i + suc n = omega arith in
            rw (memcmp_from, ge, le) (rw all at next)
      ]
    ]

-- `memcmp` of `n` bytes: 0 says that they are all the same; a negative answer, that the first byte in
-- which they differ is the smaller one on the left, and a positive one, on the right.
pub memcmp-IsCompared : (m : Memory) (l r n : ℕ) → IsCompared m l r n (memcmp m l r n)
unfolding memcmp
memcmp-IsCompared m l r n =
    let none_yet : 0 + n ≡ n = omega arith in
    rw none_yet at (memcmp_from-IsCompared n m l r 0 (λ j h. absurd (omega arith)))
