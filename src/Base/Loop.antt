-- ===== src/Base/Loop.antt =====
-- Counted loops: `for (k = first; k < first + rounds; k++)`, with the body as a function of the
-- counter and the state.
use Prim.Native.Nat.{ℕ, zero, suc, ◌+◌, ◌<◌}
use mathlib.Core.Path.{◌≡◌}
use native.Mathlib.Omega.{arith}

module _ {ℓ} {S : Type ℓ} where
  unfoldable pub count_up : ℕ → ℕ → (ℕ → S → S) → S → S
  count_up zero first body state = state
  count_up (suc rounds) first body state = count_up rounds (first + 1) body (body first state)

  -- What every round carries from its counter to the next one holds at the end.
  pub count_up_inv {κ} :
      (Holds : ℕ → S → Type κ) (body : ℕ → S → S) (rounds first last : ℕ) (state : S)
      → first + rounds ≡ last
      → ((k : ℕ) (t : S) → k < last → Holds k t → Holds (k + 1) (body k t))
      → Holds first state
      → Holds last (count_up rounds first body state)
  unfolding count_up
  count_up_inv Holds body zero first last state total carry start =
      let done : first ≡ last = omega arith in rw done at start
  count_up_inv Holds body (suc rounds) first last state total carry start =
      let next = carry first state (omega arith) start in
      count_up_inv Holds body rounds (first + 1) last (body first state) (omega arith) carry next

-- Two loops whose bodies keep a relation between their states keep it to the end.
pub count_up_sim {ℓ κ μ} :
    {S : Type ℓ} {T : Type κ} (R : S → T → Type μ) (f : ℕ → S → S) (g : ℕ → T → T) (n i : ℕ) (s : S)
    (t : T)
    → ((k : ℕ) (x : S) (y : T) → R x y → R (f k x) (g k y))
    → R s t
    → R (count_up n i f s) (count_up n i g t)
unfolding count_up
count_up_sim R f g zero i s t keep h = h
count_up_sim R f g (suc n) i s t keep h =
    count_up_sim R f g n (i + 1) (f i s) (g i t) keep (keep i s t h)
