-- ===== src/Bitmap/Laws.antt =====
-- What a write to the bitmap changes: its own bit, and no other bit or byte.
use bbn_os.Base.{ℕ, ◌+◌, ◌*◌, ◌/◌, ◌%◌, ◌≤◌, ◌<◌, ◌≡◌, ◌≢◌, Bool, true, false, arith}
use bbn_os.Base.{◌==◌, if◌then◌else◌, Bool-cases, inl, inr}
use bbn_os.Memory.{Memory, load8}
use bbn_os.Bitmap.{BitMap, get_val, set_val}
use bbn_os.Bitmap.Bits.{written, test_bit-written}

module _ (m : Memory) (bm : BitMap) (index : ℕ) (value : Bool) where
  -- The byte that `set_val` leaves at the written place.
  load8-set_val :
      index / 8 ≤ bm.size
      → load8 (set_val m bm index value).1 (bm.buffer + index / 8)
        ≡ written value (load8 m (bm.buffer + index / 8)) (index % 8) % 256
  unfolding set_val
  load8-set_val h = ground arith

  -- A write inside the map succeeds; one past its last byte fails and changes nothing.
  pub set_val-ok : index / 8 ≤ bm.size → (set_val m bm index value).0 ≡ true
  unfolding set_val
  set_val-ok h = ground arith

  pub set_val-outside : bm.size < index / 8 → set_val m bm index value ≡ (false, m)
  unfolding set_val
  set_val-outside h = ground arith

  -- Only the byte that holds the bit can change.
  pub set_val-frame :
      (a : ℕ) → a ≢ bm.buffer + index / 8 → load8 (set_val m bm index value).1 a ≡ load8 m a
  unfolding set_val
  set_val-frame a h = ground arith

  get_val-same_byte :
      (j : ℕ)
      → index / 8 ≤ bm.size
      → j / 8 ≡ index / 8
      → get_val (set_val m bm index value).1 bm j ≡ (if j == index then value else get_val m bm j)
  unfolding get_val
  get_val-same_byte j h e = ground (
    arith,
    load8-set_val h,
    test_bit-written value (load8 m (bm.buffer + index / 8)) (index % 8) (j % 8),
  )

  get_val-other_byte :
      (j : ℕ) → j / 8 ≢ index / 8 → get_val (set_val m bm index value).1 bm j ≡ get_val m bm j
  unfolding get_val
  get_val-other_byte j h = ground (arith, set_val-frame (bm.buffer + j / 8))

  -- Reading bit `j` after writing bit `index`.
  pub get_val-set_val :
      (j : ℕ)
      → index / 8 ≤ bm.size
      → get_val (set_val m bm index value).1 bm j ≡ (if j == index then value else get_val m bm j)
  get_val-set_val j h = elim (Bool-cases (j / 8 == index / 8)) [
    | inl e ↦ get_val-same_byte j h (ground arith)
    | inr ne ↦ ground (arith, get_val-other_byte j)
  ]

-- The bounds test compares by `>`: the eight bits after the last one of the buffer are accepted,
-- and a write to them changes the byte just past the buffer.
pub set_val-past_end :
    (m : Memory) (bm : BitMap) (k : ℕ) (value : Bool)
    → k < 8
    → ((set_val m bm (8 * bm.size + k) value).0 ≡ true)
      × (load8 (set_val m bm (8 * bm.size + k) value).1 (bm.buffer + bm.size)
          ≡ written value (load8 m (bm.buffer + bm.size)) k % 256)
set_val-past_end m bm k value h =
    let byte : (8 * bm.size + k) / 8 ≡ bm.size = omega arith in
    let bit : (8 * bm.size + k) % 8 ≡ k = omega arith in
    (
      set_val-ok m bm (8 * bm.size + k) value (omega arith),
      rw (byte, bit) at (load8-set_val m bm (8 * bm.size + k) value (omega arith)),
    )
