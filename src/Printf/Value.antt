-- ===== src/Printf/Value.antt =====
-- The value of the digits that `__int_str` finds.
use bbn_os.Base.{
  ℕ, zero, suc, ◌+◌, ◌*◌, ◌/◌, ◌%◌, ◌^◌, ◌≤◌, ◌<◌, ◌≡◌, inl, inr, refl, ◌∙◌, true, List, [], ◌∷◌,
  ◌++◌, arith, ◌==◌, Bool-cases,
}
use native.Mathlib.Nat.{mod-lt, div-add-mod}
use bbn_os.Printf.Number.{numeral, half_lt, last_digit, numeral_last, numeral_more}

-- The value of digits in a base, behind digits of the value `acc`.
unfoldable pub value : (base acc : ℕ) → List ℕ → ℕ
value base acc [] = acc
value base acc (d ∷ ds) = value base (acc * base + d) ds

abbrev pub AllBelow : ℕ → List ℕ → Type 0
AllBelow base [] = Unit {0}
AllBelow base (d ∷ ds) = (d < base) × AllBelow base ds

-- `ds` are digits of the base, and their value is `i`.
abbrev pub IsNumeral : (base i : ℕ) → List ℕ → Type 0
IsNumeral base i ds = (value base 0 ds ≡ i) × AllBelow base ds

value_snoc :
    (base acc d : ℕ) (ds : List ℕ) → value base acc (ds ++ d ∷ []) ≡ value base acc ds * base + d
unfolding value
value_snoc base acc d [] = refl
value_snoc base acc d (e ∷ ds) = value_snoc base (acc * base + e) d ds

below_snoc : (base d : ℕ) (ds : List ℕ) → AllBelow base ds → d < base → AllBelow base (ds ++ d ∷ [])
below_snoc base d [] h small = (small, tt)
below_snoc base d (e ∷ ds) (he, h) small = (he, below_snoc base d ds h small)

-- One digit is its own value.
digit-IsNumeral :
    (base i : ℕ) → 2 ≤ base → (i / base == 0) ≡ true → IsNumeral base i (i % base ∷ [])
unfolding value
digit-IsNumeral base i two last =
    let none_left : i / base ≡ 0 = ground arith in
    let whole = rw none_left at (div-add-mod i base) in (omega arith, (mod-lt i (omega arith), tt))

pub numeral-IsNumeral :
    (n base i : ℕ) → 2 ≤ base → i < 2 ^ n → IsNumeral base i (numeral (suc n) base i)
numeral-IsNumeral zero base i two h =
    let last = last_digit base i two h in
    rw (numeral_last zero base i last) (digit-IsNumeral base i two last)
numeral-IsNumeral (suc n) base i two h = elim (Bool-cases (i / base == 0)) [
  | inl last ↦ rw (numeral_last (suc n) base i last) (digit-IsNumeral base i two last)
  | inr more ↦
      let before = numeral (suc n) base (i / base) in
      let (sum, digits) = numeral-IsNumeral n base (i / base) two (half_lt n base i two h) in
      rw (numeral_more (suc n) base i more) (
        value_snoc base 0 (i % base) before ∙ rw sum (omega (arith, div-add-mod i base)),
        below_snoc base (i % base) before digits (mod-lt i (omega arith)),
      )
]
