-- ===== src/Mem/Account.antt =====
-- The counters of mem.c against the bitmap.
use bbn_os.Base.{
  ℕ, zero, suc, ◌+◌, ◌*◌, ◌%◌, ◌^◌, ◌≤◌, ◌<◌, ◌≡◌, refl, Option, none, some, Bool, true, false,
  List, [], ◌∷◌, arith,
}
use bbn_os.Base.{◌==◌, if◌then◌else◌, Bool-cases, inl, inr}
use bbn_os.Base.Loop.{count_up_inv}
use bbn_os.Mem.State.{Kernel}
use bbn_os.Mem.Spec
use bbn_os.Mem.Spec.{Frames, update, PageOp, reserve, free, lock, request, first_free}
use bbn_os.Mem.View.{frames, limit, pages, run}
use bbn_os.Mem.Run.{run_refines}

-- How many of the first `n` frames are taken.
abbrev pub count : ℕ → (ℕ → Bool) → ℕ
count zero taken = 0
count (suc n) taken = count n taken + (if taken n then 1 else 0)

count-update_outside :
    (n i : ℕ) (taken : ℕ → Bool) (v : Bool) → n ≤ i → count n (update taken i v) ≡ count n taken
count-update_outside zero i taken v h = refl
count-update_outside (suc n) i taken v h =
    ground (arith, count-update_outside n i taken v (omega arith))

count-update :
    (n i : ℕ) (taken : ℕ → Bool) (v : Bool)
    → i < n
    → count n (update taken i v) + (if taken i then 1 else 0) ≡ count n taken + (if v then 1 else 0)
count-update zero i taken v h = absurd (omega arith)
count-update (suc n) i taken v h = elim (Bool-cases (n == i)) [
  | inl e ↦ ground (arith, count-update_outside n i taken v (ground arith))
  | inr ne ↦ ground (arith, count-update n i taken v (ground arith))
]

abbrev pub total : Frames → ℕ
total f = (f.free + f.used + f.reserved) % 2 ^ 64

-- From `f` to `g`, the used and the reserved memory together have grown by 4096 bytes for each
-- frame that was taken more, and the sum of the three counters is the same, modulo 2 ^ 64.
pub record Balanced (n : ℕ) (f g : Frames) : Type 0 where
  pub spent :
      (g.used + g.reserved + 4096 * count n f.taken) % 2 ^ 64
      ≡ (f.used + f.reserved + 4096 * count n g.taken) % 2 ^ 64
  pub conserved : total g ≡ total f

module _ (n : ℕ) (f : Frames) where
  lock_frame-Balanced : (i : ℕ) (g : Frames) → Balanced n f g → Balanced n f (Spec.lock_frame n i g)
  unfolding Spec.lock_frame
  lock_frame-Balanced i g b = ground (arith, count-update n i g.taken true)

  reserve_frame-Balanced :
      (i : ℕ) (g : Frames) → Balanced n f g → Balanced n f (Spec.reserve_frame n i g)
  unfolding Spec.reserve_frame
  reserve_frame-Balanced i g b = ground (arith, count-update n i g.taken true)

  free_frame-Balanced : (i : ℕ) (g : Frames) → Balanced n f g → Balanced n f (Spec.free_frame n i g)
  unfolding Spec.free_frame
  free_frame-Balanced i g b = ground (arith, count-update n i g.taken false)

  grant-Balanced : (o : Option ℕ) (g : Frames) → Balanced n f g → Balanced n f (Spec.grant n o g).1
  unfolding Spec.grant
  grant-Balanced none g b = b
  grant-Balanced (some i) g b = lock_frame-Balanced _ g b

  step-Balanced :
      (p : ℕ) (op : PageOp) (g : Frames) → Balanced n f g → Balanced n f (Spec.step n p op g).1
  unfolding Spec.step
  step-Balanced p (reserve addr num) g b =
      count_up_inv (λ _ h. Balanced n f h) _ num 0 num g (omega arith)
        (λ k h _. reserve_frame-Balanced _ h) b
  step-Balanced p (free addr num) g b =
      count_up_inv (λ _ h. Balanced n f h) _ num 0 num g (omega arith)
        (λ k h _. free_frame-Balanced _ h) b
  step-Balanced p (lock addr num) g b =
      count_up_inv (λ _ h. Balanced n f h) _ num 0 num g (omega arith)
        (λ k h _. lock_frame-Balanced _ h) b
  step-Balanced p request g b = grant-Balanced (first_free g.taken p 0) g b

  run-spec-Balanced :
      (p : ℕ) (ops : List PageOp) (g : Frames)
      → Balanced n f g
      → Balanced n f (Spec.run n p ops g).1
  unfolding Spec.run
  run-spec-Balanced p [] g b = b
  run-spec-Balanced p (op ∷ ops) g b = run-spec-Balanced p ops _ (step-Balanced p op g b)

-- Any sequence of calls keeps the counters in balance with the frames of the bitmap: used and
-- reserved memory grow by 4096 bytes for each frame that is taken more, and fall for each that is
-- freed, and free, used and reserved memory keep their sum, all modulo 2 ^ 64.
pub run-Balanced :
    (ops : List PageOp) (s : Kernel) → Balanced (limit s) (frames s) (frames (run ops s).1)
run-Balanced ops s = rw (run_refines ops s).1 (
    run-spec-Balanced (limit s) (frames s) (pages s) ops (frames s)
      (record { spent = refl; conserved = refl }))
