-- ===== src/Mem/Spec.antt =====
-- What the page operations promise, without a bitmap: a set of taken frames and three counters.
-- `limit` is the number of frames that the map can record.
use bbn_os.Base.{ℕ, zero, suc, ◌+◌, ◌/◌, Bool, true, false, ◌&&◌, Option, none, some, List, [], ◌∷◌}
use bbn_os.Base.{◌==◌, ltb, if◌then◌else◌, add64, sub64, mul64}
use bbn_os.Base.Loop.{count_up}

pub record Frames : Type 0 where
  pub taken : ℕ → Bool
  pub free : ℕ
  pub reserved : ℕ
  pub used : ℕ

abbrev pub update : (ℕ → Bool) → ℕ → Bool → ℕ → Bool
update taken i v j = if j == i then v else taken j

-- The calls that a client of mem.c makes.
pub data PageOp : Type 0 where
  reserve : (addr num : ℕ) → PageOp
  free : (addr num : ℕ) → PageOp
  lock : (addr num : ℕ) → PageOp
  request : PageOp

-- The first frame that is not taken, of the `n` frames from `i` on.
unfoldable pub first_free : (ℕ → Bool) → ℕ → ℕ → Option ℕ
first_free taken zero i = none
first_free taken (suc n) i =
    let rest = first_free taken n (i + 1) in if taken i then rest else some i

module _ (limit : ℕ) where
  -- A frame beyond the limit is never taken, and an operation on it does nothing.
  unfoldable pub reserve_frame : ℕ → Frames → Frames
  reserve_frame i f =
      if f.taken i
      then f
      else if ltb i limit
      then record {
        taken = update f.taken i true;
        free = sub64 f.free 4096;
        reserved = add64 f.reserved 4096;
        used = f.used;
      }
      else f

  unfoldable pub lock_frame : ℕ → Frames → Frames
  lock_frame i f =
      if f.taken i
      then f
      else if ltb i limit
      then record {
        taken = update f.taken i true;
        free = sub64 f.free 4096;
        reserved = f.reserved;
        used = add64 f.used 4096;
      }
      else f

  -- A taken frame goes back, and the used memory falls, whoever took it.
  unfoldable pub free_frame : ℕ → Frames → Frames
  free_frame i f =
      if f.taken i && ltb i limit
      then record {
        taken = update f.taken i false;
        free = add64 f.free 4096;
        reserved = f.reserved;
        used = sub64 f.used 4096;
      }
      else f

  -- The address of the frame that was found, which becomes locked; 0 if there is none.
  unfoldable pub grant : Option ℕ → Frames → ℕ × Frames
  grant none f = (0, f)
  grant (some i) f = (mul64 i 4096, lock_frame (mul64 i 4096 / 4096) f)

  unfoldable pub request_frame : ℕ → Frames → ℕ × Frames
  request_frame pages f = grant (first_free f.taken pages 0) f

  -- One call, with the address that it returns; a range of pages is taken one by one.
  unfoldable pub step : ℕ → PageOp → Frames → Option ℕ × Frames
  unfolding reserve_frame lock_frame free_frame request_frame
  step pages (reserve addr num) f =
      (none, count_up num 0 (λ k g. reserve_frame (add64 addr (mul64 k 4096) / 4096) g) f)
  step pages (free addr num) f =
      (none, count_up num 0 (λ k g. free_frame (add64 addr (mul64 k 4096) / 4096) g) f)
  step pages (lock addr num) f =
      (none, count_up num 0 (λ k g. lock_frame (add64 addr (mul64 k 4096) / 4096) g) f)
  step pages request f = let (addr, g) = request_frame pages f in (some addr, g)

  unfoldable pub run : ℕ → List PageOp → Frames → List (Option ℕ) × Frames
  unfolding step
  run pages [] f = ([], f)
  run pages (op ∷ ops) f =
      let (reply, g) = step pages op f in let (replies, h) = run pages ops g in (reply ∷ replies, h)
