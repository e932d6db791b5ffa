-- ===== src/Loader/Retry.antt =====
-- The loop that reads the memory map ends.
use bbn_os.Base.{
  ℕ, zero, suc, ◌+◌, ◌-◌, ◌≤◌, ◌<◌, ◌≡◌, ◌≢◌, ◌⊎◌, inl, inr, refl, Option, none, some, arith,
}
use native.Mathlib.Decide.{dec_le}
use bbn_os.Loader.{Firmware, MapAnswer, MapStatus, success, too_small, failed}
use bbn_os.Loader.Start.{ReadMap, MapResult, aborted, got, allocated_or, map_loop, read_memory_map}

-- `GetMemoryMap` asks for a larger buffer exactly while the buffer is smaller than the map, says how
-- large the map is, and fills no more than the buffer; no map has more than `bound` bytes.
pub record MapLaws {W : Type 0} (fw : Firmware W) (bound : ℕ) : Type 0 where
  pub needed : W → ℕ
  pub bounded : (w : W) → needed w ≤ bound
  pub short :
      (size buffer : ℕ) (w : W)
      → size < needed w
      → ((fw.get_memory_map size buffer w).0.status ≡ too_small)
        × ((fw.get_memory_map size buffer w).0.map_size ≡ needed w)
  pub enough :
      (size buffer : ℕ) (w : W)
      → needed w ≤ size
      → ((fw.get_memory_map size buffer w).0.status ≢ too_small)
        × ((fw.get_memory_map size buffer w).0.map_size ≤ size)

-- A round with `size` bytes, from `old` as the buffer: its buffer, the firmware's answer, and the state
-- behind it.
module _ {W : Type 0} (fw : Firmware W) (size old : ℕ) (w : W) where
  abbrev round_buffer : ℕ
  round_buffer = allocated_or (fw.allocate_pool size w).0 old

  abbrev round : MapAnswer × W
  round = fw.get_memory_map size round_buffer (fw.allocate_pool size w).1

  -- The firmware failed, and the buffer is given back.
  pub record HasFailed (last : W) : Type 0 where
    pub status : round.0.status ≡ failed
    pub freed : last ≡ fw.free_pool round_buffer round.1

  -- The firmware filled the buffer, and the map is its answer, no larger than what was asked for. The
  -- buffer is the new one; where the allocation failed, it is the one before it.
  pub record HasSucceeded (map : ReadMap) (last : W) : Type 0 where
    pub status : round.0.status ≡ success
    pub new :
        ((fw.allocate_pool size w).0 ≡ some map.buffer)
        ⊎ (((fw.allocate_pool size w).0 ≡ none) × (map.buffer ≡ old))
    pub map_size : map.map_size ≡ round.0.map_size
    pub map_key : map.map_key ≡ round.0.map_key
    pub desc_size : map.desc_size ≡ round.0.desc_size
    pub fits : map.map_size ≤ size
    pub kept : last ≡ round.1

-- The rounds of the loop, with no bound on them, from `size` bytes and the buffer `old`: the last one
-- succeeds or fails; each one before it finds its buffer too small and gives it back, and the next one
-- asks for more, which is what the firmware said.
pub data Rounds {W : Type 0} (fw : Firmware W)
    : (size old : ℕ) → (before : W) → MapResult → (last : W) → Type 0 where
  fails :
      (size old : ℕ) (before last : W)
      → HasFailed fw size old before last
      → Rounds fw size old before aborted last
  succeeds :
      (size old : ℕ) (before : W) (map : ReadMap) (last : W)
      → HasSucceeded fw size old before map last
      → Rounds fw size old before (got map) last
  again :
      (size old : ℕ) (before : W) (result : MapResult) (last : W)
      → (round fw size old before).0.status ≡ too_small
      → size < (round fw size old before).0.map_size
      → Rounds fw
          (round fw size old before).0.map_size
          (round_buffer fw size old before)
          (fw.free_pool (round_buffer fw size old before) (round fw size old before).1)
          result
          last
      → Rounds fw size old before result last

-- The loop ended, and the result is what its rounds make it.
pub record IsRead {W : Type 0} (fw : Firmware W) (size old : ℕ) (before : W)
    (o : Option (MapResult × W)) : Type 0 where
  pub result : MapResult
  pub last : W
  pub done : o ≡ some (result, last)
  pub rounds : Rounds fw size old before result last

new_or_old :
    (p : Option ℕ) (old : ℕ)
    → (p ≡ some (allocated_or p old)) ⊎ ((p ≡ none) × (allocated_or p old ≡ old))
new_or_old none old = inr (refl, refl)
new_or_old (some a) old = inl refl

status_cases : (s : MapStatus) → (s ≡ success) ⊎ ((s ≡ too_small) ⊎ (s ≡ failed))
status_cases success = inl refl
status_cases too_small = inr (inl refl)
status_cases failed = inr (inr refl)

module _ {W : Type 0} (fw : Firmware W) (bound : ℕ) (laws : MapLaws fw bound) where
  -- A status other than too small: the map fits.
  fitting :
      (size buffer : ℕ) (w : W)
      → (fw.get_memory_map size buffer w).0.status ≢ too_small
      → (fw.get_memory_map size buffer w).0.map_size ≤ size
  fitting size buffer w other = elim (dec_le (laws.needed w) size) [
    | yes h ↦ (laws.enough size buffer w h).1
    | no h ↦ absurd (other (laws.short size buffer w (omega arith)).0)
  ]

  -- Too small: the size that comes back is larger.
  growing :
      (size buffer : ℕ) (w : W)
      → (fw.get_memory_map size buffer w).0.status ≡ too_small
      → (size < (fw.get_memory_map size buffer w).0.map_size)
        × ((fw.get_memory_map size buffer w).0.map_size ≡ laws.needed w)
  growing size buffer w small = elim (dec_le (laws.needed w) size) [
    | yes h ↦ absurd ((laws.enough size buffer w h).0 small)
    | no h ↦ let (_, is) = laws.short size buffer w (omega arith) in (omega arith, is)
  ]

  map_loop-IsRead :
      (n size buffer : ℕ) (w : W)
      → bound - size < n
      → IsRead fw size buffer w (map_loop fw n size buffer w)
  unfolding map_loop
  map_loop-IsRead zero size buffer w h = absurd (omega arith)
  map_loop-IsRead (suc n) size buffer w h =
      let w1 = (fw.allocate_pool size w).1 in
      let buffer' = allocated_or (fw.allocate_pool size w).0 buffer in
      let asked = fw.get_memory_map size buffer' w1 in
      elim (status_cases asked.0.status) [
        | inl ok ↦
            let map : ReadMap = record {
              buffer = buffer';
              map_size = asked.0.map_size;
              map_key = asked.0.map_key;
              desc_size = asked.0.desc_size;
            } in
            record {
              result = got map;
              last = asked.1;
              done = rw (map_loop, ok) refl;
              rounds = succeeds size buffer w map asked.1 (record {
                status = ok;
                new = new_or_old (fw.allocate_pool size w).0 buffer;
                map_size = refl;
                map_key = refl;
                desc_size = refl;
                fits = fitting size buffer' w1 (λ small. cc);
                kept = refl;
              });
            }
        | inr (inl small) ↦
            let (short, more) = growing size buffer' w1 small in
            let next =
              map_loop-IsRead n asked.0.map_size buffer' (fw.free_pool buffer' asked.1)
                (omega (arith, laws.bounded w1)) in
            record {
              result = next.result;
              last = next.last;
              done = rw (map_loop, small) next.done;
              rounds = again size buffer w next.result next.last small short next.rounds;
            }
        | inr (inr bad) ↦ record {
          result = aborted;
          last = fw.free_pool buffer' asked.1;
          done = rw (map_loop, bad) refl;
          rounds =
              fails size buffer w (fw.free_pool buffer' asked.1)
                (record { status = bad; freed = refl });
        }
      ]

  -- Where `GetMemoryMap` keeps to MapLaws, so that it never asks for more than `bound` bytes, the loop of
  -- `efi_main` that reads the memory map ends within `bound + 1` rounds. The first round has the size that
  -- a call with no buffer gave; a round whose buffer is too small gives it back, and the next one has the
  -- larger size that the firmware asked for. The result is EFI_ABORTED when the answer to the last round
  -- is a failure of another kind, and the round's buffer is then given back; on success it is that
  -- round's answer: its size, key and size of a descriptor, where the map's size is at most what the
  -- round asked `AllocatePool` for. Its buffer is what `AllocatePool` returned, or, since a failed
  -- allocation is not handled, the one of the round before.
  pub read_memory_map-IsRead :
      (w : W)
      → let first = fw.get_memory_map 0 0 w in
        IsRead fw first.0.map_size 0 first.1 (read_memory_map fw (bound + 1) w)
  unfolding read_memory_map
  read_memory_map-IsRead w =
      let first = fw.get_memory_map 0 0 w in
      map_loop-IsRead (bound + 1) first.0.map_size 0 first.1 (omega arith)
