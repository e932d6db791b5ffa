-- ===== src/Printf/Write.antt =====
-- The digits that `__int_str` writes, as a text.
use bbn_os.Base.{
  ℕ, zero, suc, ◌+◌, ◌-◌, ◌/◌, ◌%◌, ◌^◌, ◌≤◌, ◌<◌, ◌≡◌, inl, inr, refl, sym, ap, ◌∙◌, true, false,
  some, List, [], ◌∷◌, ◌++◌, arith, ◌==◌, Bool-cases, length,
}
use mathlib.Core.List.{append_assoc}
use bbn_os.Base.{length-append}
use bbn_os.Text.{Buffer, put}
use bbn_os.Text.Laws.{text, put-text}
use bbn_os.Printf.{write_digits}
use bbn_os.Printf.Number.{numeral, half_lt, last_digit, numeral_last, numeral_more, numeral_length}

-- The characters of digits.
abbrev pub spell : List ℕ → List ℕ → List ℕ
spell table [] = []
spell table (d ∷ ds) = text table d ∷ spell table ds

pub spell-append :
    (table ds es : List ℕ) → spell table (ds ++ es) ≡ spell table ds ++ spell table es
spell-append table [] es = refl
spell-append table (d ∷ ds) es = ap (λ s. text table d ∷ s) (spell-append table ds es)

pub spell-length : (table ds : List ℕ) → length (spell table ds) ≡ length ds
spell-length table [] = refl
spell-length table (d ∷ ds) = ap suc (spell-length table ds)

abbrev pub repeat : ℕ → ℕ → List ℕ
repeat zero c = []
repeat (suc n) c = c ∷ repeat n c

pub repeat-snoc : (n c : ℕ) (v : List ℕ) → repeat (suc n) c ++ v ≡ repeat n c ++ c ∷ v
repeat-snoc zero c v = refl
repeat-snoc (suc n) c v = ap (λ s. c ∷ s) (repeat-snoc n c v)

pub repeat-length : (n c : ℕ) → length (repeat n c) ≡ n
repeat-length zero c = refl
repeat-length (suc n) c = ap suc (repeat-length n c)

write_more :
    (n base i p : ℕ) (digit b : Buffer)
    → (i / base == 0) ≡ false
    → write_digits (suc n) digit base i p b
      ≡ write_digits n digit base (i / base) (p - 1) (put b (p - 1) (digit (i % base)))
unfolding write_digits
write_more n base i p digit b more = rw (write_digits, more) refl

write_last :
    (n base i p : ℕ) (digit b : Buffer)
    → (i / base == 0) ≡ true
    → write_digits (suc n) digit base i p b ≡ some (put b (p - 1) (digit (i % base)))
unfolding write_digits
write_last n base i p digit b last = rw (write_digits, last) refl

-- Zeros give way from the right.
zeros_snoc : (u v : List ℕ) (m x : ℕ) → u ++ (repeat (m + 1) x ++ v) ≡ (u ++ repeat m x) ++ x ∷ v
zeros_snoc u v m x =
    let one_more : m + 1 ≡ suc m = omega arith in
    rw (one_more, repeat-snoc m x v) (sym (append_assoc u (repeat m x) (x ∷ v)))

put-zeros :
    (u v : List ℕ) (m c : ℕ)
    → put (text (u ++ (repeat (m + 1) 0 ++ v))) (length u + m) c ≡ text (u ++ (repeat m 0 ++ c ∷ v))
put-zeros u v m c =
    let place : length u + m ≡ length (u ++ repeat m 0) =
      omega (arith, length-append u (repeat m 0), repeat-length m 0) in
    rw (place, zeros_snoc u v m 0, put-text (u ++ repeat m 0) v 0 c)
      (ap text (append_assoc u (repeat m 0) (c ∷ v)))

module _ (table : List ℕ) (base : ℕ) (two : 2 ≤ base) where
  -- The one round of a number below the base.
  write_one :
      (n i : ℕ) (u v : List ℕ)
      → (i / base == 0) ≡ true
      → let num = numeral (suc n) base i in
        write_digits
          (suc n)
          (text table)
          base
          i
          (length u + length num)
          (text (u ++ (repeat (length num) 0 ++ v)))
        ≡ some (text (u ++ (spell table num ++ v)))
  write_one n i u v last =
      let here : length u + 1 - 1 ≡ length u = omega arith in
      rw (numeral_last n base i last) (
        write_last n base i (length u + 1) (text table) (text (u ++ 0 ∷ v)) last
        ∙ rw here (ap (λ x. some x) (put-text u v 0 (text table (i % base)))))

  -- The digits replace the zeros between `u` and `v`.
  pub write_digits-numeral :
      (n i : ℕ) (u v : List ℕ)
      → i < 2 ^ n
      → let num = numeral (suc n) base i in
        write_digits
          (suc n)
          (text table)
          base
          i
          (length u + length num)
          (text (u ++ (repeat (length num) 0 ++ v)))
        ≡ some (text (u ++ (spell table num ++ v)))
  write_digits-numeral zero i u v h = write_one zero i u v (last_digit base i two h)
  write_digits-numeral (suc n) i u v h = elim (Bool-cases (i / base == 0)) [
    | inl last ↦ write_one (suc n) i u v last
    | inr more ↦
        let num = numeral (suc n) base (i / base) in
        let c = text table (i % base) in
        let before = text (u ++ (repeat (length num + 1) 0 ++ v)) in
        let next = write_digits-numeral n (i / base) u (c ∷ v) (half_lt n base i two h) in
        let place : length u + (length num + 1) - 1 ≡ length u + length num = omega arith in
        let spelled : spell table num ++ c ∷ v ≡ spell table (num ++ i % base ∷ []) ++ v =
          rw (spell-append table num (i % base ∷ []))
            (sym (append_assoc (spell table num) (c ∷ []) v)) in
        rw (numeral_length (suc n) base i more, numeral_more (suc n) base i more)
          (write_more (suc n) base i (length u + (length num + 1)) (text table) before more
            ∙ rw (place, put-zeros u v (length num) c)
                (next ∙ ap (λ s. some (text (u ++ s))) spelled))
  ]
