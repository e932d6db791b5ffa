-- ===== src/Mem/Request.antt =====
-- `requestPage`: the page that it hands out.
use bbn_os.Base.{
  ℕ, zero, suc, ◌+◌, ◌*◌, ◌/◌, ◌^◌, ◌≤◌, ◌<◌, ◌≡◌, ◌⊎◌, refl, ◌∙◌, ap, Option, none, some, Bool,
  true, false, arith,
}
use bbn_os.Base.{◌==◌, if◌then◌else◌, Bool-cases, ==_iff, inl, inr, mul64, add64, sub64}
use bbn_os.Mem.State.{Kernel, get_free_mem_size, get_used_mem_size, get_reserved_mem_size}
use bbn_os.Mem.Pages.{frame, request_page}
use bbn_os.Mem.Spec
use bbn_os.Mem.Spec.{Frames, first_free}
use bbn_os.Mem.View.{frames, limit, pages}
use bbn_os.Mem.Refine.{lock_page-frames}
use bbn_os.Mem.Run.{grant_page, request_page-first_free}

module _ (taken : ℕ → Bool) where
  -- The search returns the first free frame of its range, if there is one.
  first_free-some :
      (n i k : ℕ)
      → i ≤ k
      → k < i + n
      → ((j : ℕ) → i ≤ j → j < k → taken j ≡ true)
      → taken k ≡ false
      → first_free taken n i ≡ some k
  unfolding first_free
  first_free-some zero i k lo hi before here = absurd (omega arith)
  first_free-some (suc n) i k lo hi before here = elim (Bool-cases (i == k)) [
    | inl e ↦ ground arith
    | inr ne ↦ rw (before i (omega arith) (ground arith)) (
        first_free-some n (i + 1) k (ground arith) (omega arith) (λ j p q. before j (omega arith) q)
          here)
  ]

  first_free-none :
      (n i : ℕ) → ((j : ℕ) → i ≤ j → j < i + n → taken j ≡ true) → first_free taken n i ≡ none
  unfolding first_free
  first_free-none zero i all = refl
  first_free-none (suc n) i all =
      rw (all i (omega arith) (omega arith))
        (first_free-none n (i + 1) λ j p q. all j (omega arith) (omega arith))

  -- The first free frame of a range, or the fact that it has none.
  FirstFree : ℕ → ℕ → Option ℕ → Type 0
  FirstFree i n none = (j : ℕ) → i ≤ j → j < i + n → taken j ≡ true
  FirstFree i n (some k) =
      (i ≤ k) × (k < i + n) × (taken k ≡ false) × ((j : ℕ) → i ≤ j → j < k → taken j ≡ true)

  FirstFree-step :
      (n i : ℕ) (o : Option ℕ) → taken i ≡ true → FirstFree (i + 1) n o → FirstFree i (suc n) o
  unfolding FirstFree
  FirstFree-step n i none t h = λ j p q. elim (Bool-cases (i == j)) [
    | inl e ↦ rw (← (==_iff i j).0 e) t
    | inr ne ↦ h j (ground arith) (omega arith)
  ]
  FirstFree-step n i (some k) t (lo, hi, free, before) = (
    omega arith,
    omega arith,
    free,
    λ j p q. elim (Bool-cases (i == j)) [
      | inl e ↦ rw (← (==_iff i j).0 e) t
      | inr ne ↦ before j (ground arith) q
    ],
  )

  first_free-FirstFree : (n i : ℕ) → FirstFree i n (first_free taken n i)
  unfolding FirstFree first_free
  first_free-FirstFree zero i = λ j p q. absurd (omega arith)
  first_free-FirstFree (suc n) i = elim (Bool-cases (taken i)) [
    | inl t ↦ rw t (FirstFree-step n i _ t (first_free-FirstFree n (i + 1)))
    | inr f ↦ rw f (omega arith, omega arith, f, λ j p q. absurd (omega arith))
  ]

-- The result is as if the frame `k` were locked directly: it is taken now, no other frame has
-- changed, one page has gone from the free memory to the used memory, and no other counter has.
pub record Granted (s : Kernel) (k : ℕ) (out : ℕ × Kernel) : Type 0 where
  pub address : out.0 ≡ k * 4096
  pub taken : (j : ℕ) → frame out.1 j ≡ (if j == k then true else frame s j)
  pub free : get_free_mem_size out.1 ≡ sub64 (get_free_mem_size s) 4096
  pub used : get_used_mem_size out.1 ≡ add64 (get_used_mem_size s) 4096
  pub reserved : get_reserved_mem_size out.1 ≡ get_reserved_mem_size s

module _ (s : Kernel) where
  lock_frame-free :
      (k : ℕ) (f : Frames)
      → f.taken k ≡ false
      → k < limit s
      → Spec.lock_frame (limit s) k f ≡ record {
        taken = Spec.update f.taken k true;
        free = sub64 f.free 4096;
        reserved = f.reserved;
        used = add64 f.used 4096;
      }
  unfolding Spec.lock_frame
  lock_frame-free k f h lt = ground arith

  pub grant-Granted :
      (k : ℕ)
      → frame s k ≡ false
      → k < limit s
      → k * 4096 < 2 ^ 64
      → Granted s k (grant_page (some k) s)
  unfolding get_free_mem_size get_used_mem_size get_reserved_mem_size
  grant-Granted k h lt small =
      let addr : mul64 k 4096 ≡ k * 4096 = omega arith in
      let index : mul64 k 4096 / 4096 ≡ k = omega arith in
      let locked =
        lock_page-frames s (mul64 k 4096)
        ∙ ap (λ i. Spec.lock_frame (limit s) i (frames s)) index
        ∙ lock_frame-free k (frames s) h lt in
      record {
        address = addr;
        taken = λ j. ap (λ (f : Frames). f.taken j) locked;
        free = ap (λ (f : Frames). f.free) locked;
        used = ap (λ (f : Frames). f.used) locked;
        reserved = ap (λ (f : Frames). f.reserved) locked;
      }

  -- What a call can do: it grants a free frame, the first one, or it finds none.
  Outcome : Option ℕ → ℕ × Kernel → Type 0
  Outcome none out = ((j : ℕ) → j < pages s → frame s j ≡ true) × (out ≡ (0, s))
  Outcome (some k) out =
      (k < pages s) × (frame s k ≡ false) × ((j : ℕ) → j < k → frame s j ≡ true) × Granted s k out

  outcome :
      (o : Option ℕ)
      → s.mem_info.mem_bit_map.size ≤ 2 ^ 49
      → FirstFree (frame s) 0 (pages s) o
      → Outcome o (grant_page o s)
  unfolding FirstFree Outcome
  outcome none small h = (λ j q. h j (omega arith) (omega arith), refl)
  outcome (some k) small (lo, hi, free, before) = (
    omega arith,
    free,
    λ j q. before j (omega arith) q,
    grant-Granted k free (omega arith) (omega arith),
  )

-- The two cases as a sum, for the results that the search can have.
split :
    (s : Kernel) (o : Option ℕ) (out : ℕ × Kernel)
    → Outcome s o out
    → ((k : ℕ) × (k < pages s)
        × (frame s k ≡ false)
        × ((j : ℕ) → j < k → frame s j ≡ true)
        × Granted s k (out))
      ⊎ (((j : ℕ) → j < pages s → frame s j ≡ true) × (out ≡ (0, s)))
unfolding Outcome
split s none out h = inr h
split s (some k) out (lt, free, before, granted) = inl (k, lt, free, before, granted)

-- For a map of at most 2 ^ 49 bytes, `requestPage` grants the first page whose frame is free and
-- takes that frame alone; or every frame is taken, it returns `NULL`, and nothing changes.
pub request_page-first_fit :
    (s : Kernel)
    → s.mem_info.mem_bit_map.size ≤ 2 ^ 49
    → ((k : ℕ) × (k < pages s)
        × (frame s k ≡ false)
        × ((j : ℕ) → j < k → frame s j ≡ true)
        × Granted s k (request_page s))
      ⊎ (((j : ℕ) → j < pages s → frame s j ≡ true) × (request_page s ≡ (0, s)))
request_page-first_fit s small =
    rw (request_page-first_free s)
      (split s _ _ (outcome s _ small (first_free-FirstFree (frame s) (pages s) 0)))
