-- ===== src/Printf/Number.antt =====
-- What `__int_str` writes into an empty buffer.
use bbn_os.Base.{
  ℕ, zero, suc, ◌+◌, ◌*◌, ◌/◌, ◌%◌, ◌^◌, ◌≤◌, ◌<◌, ◌≡◌, inl, inr, refl, ap, ◌∙◌, true, false, some,
  List, [], ◌∷◌, ◌++◌, arith, ◌==◌, if◌then◌else◌, Bool-cases, length,
}
use native.Mathlib.Nat.{div-add-mod, pow-suc, mul-le-mul_left}
use bbn_os.Base.{length-append}
use bbn_os.Text.{strcpy, strcat}
use bbn_os.Text.Laws.{
  text, HasNoZero, text-Reads, has_no_zero, HasNoZero-of_check, strcat-text, strcpy-text,
}
use bbn_os.Printf.{
  blank, literal, decimal_digits, upper_digits, lower_digits, digit_table, count_digits,
}

-- The characters of the digits, for the base as `__int_str` takes it.
abbrev pub digits_of_base : ℕ → List ℕ
digits_of_base base =
    if base == 16
    then decimal_digits ++ upper_digits
    else if base == 17
    then decimal_digits ++ lower_digits
    else decimal_digits

abbrev pub real_base : ℕ → ℕ
real_base base = if base == 17 then 16 else base

pub literals : HasNoZero decimal_digits × HasNoZero upper_digits × HasNoZero lower_digits
unfolding has_no_zero
literals = (
  HasNoZero-of_check decimal_digits refl,
  HasNoZero-of_check upper_digits refl,
  HasNoZero-of_check lower_digits refl,
)

ten : strcpy 32 (literal decimal_digits) blank ≡ some (text decimal_digits)
ten =
    strcpy-text 32 (literal decimal_digits) decimal_digits [] (text-Reads decimal_digits literals.0)
      (omega arith) (omega arith)

sixteen :
    (letters : List ℕ)
    → HasNoZero letters
    → length letters ≡ 6
    → strcat 32 (literal letters) (text decimal_digits) ≡ some (text (decimal_digits ++ letters))
sixteen letters h len =
    strcat-text 32 (literal letters) letters decimal_digits (text-Reads letters h) literals.0
      (omega arith)

pub digit_table_lem :
    (base : ℕ) → digit_table base ≡ some (text (digits_of_base base), real_base base)
unfolding digit_table
digit_table_lem base =
    ground (arith, ten, sixteen upper_digits literals.1 refl, sixteen lower_digits literals.2 refl)

-- The digits of `i`, the most significant one first; `n` bounds their number.
unfoldable pub numeral : (n base i : ℕ) → List ℕ
numeral zero base i = []
numeral (suc n) base i =
    let before = numeral n base (i / base) in
    if i / base == 0 then i % base ∷ [] else before ++ i % base ∷ []

half_le : (base i : ℕ) → 2 ≤ base → i / base * 2 ≤ i
half_le base i two = omega (arith, div-add-mod i base, mul-le-mul_left (i / base) two)

pub half_lt : (n base i : ℕ) → 2 ≤ base → i < 2 ^ suc n → i / base < 2 ^ n
half_lt n base i two h = omega (arith, half_le base i two, pow-suc 2 n)

pub last_digit : (base i : ℕ) → 2 ≤ base → i < 2 ^ 0 → (i / base == 0) ≡ true
last_digit base i two h =
    let none_left : i / base ≡ 0 = omega (arith, half_le base i two) in rw none_left refl

pub numeral_last : (n base i : ℕ) → (i / base == 0) ≡ true → numeral (suc n) base i ≡ i % base ∷ []
unfolding numeral
numeral_last n base i last = rw (numeral, last) refl

pub numeral_more :
    (n base i : ℕ)
    → (i / base == 0) ≡ false
    → numeral (suc n) base i ≡ numeral n base (i / base) ++ i % base ∷ []
unfolding numeral
numeral_more n base i more = rw (numeral, more) refl

pub numeral_length :
    (n base i : ℕ)
    → (i / base == 0) ≡ false
    → length (numeral (suc n) base i) ≡ length (numeral n base (i / base)) + 1
numeral_length n base i more =
    ap length (numeral_more n base i more)
    ∙ length-append (numeral n base (i / base)) (i % base ∷ [])

count_more :
    (n base i p : ℕ)
    → (i / base == 0) ≡ false
    → count_digits (suc n) base i p ≡ count_digits n base (i / base) (p + 1)
unfolding count_digits
count_more n base i p more = rw (count_digits, more) refl

pub count_digits-numeral :
    (n base i p : ℕ)
    → 2 ≤ base
    → i < 2 ^ n
    → count_digits (suc n) base i p ≡ some (p + length (numeral (suc n) base i))
unfolding count_digits
count_digits-numeral zero base i p two h =
    let last = last_digit base i two h in
    rw (count_digits, last, numeral_last zero base i last) refl
count_digits-numeral (suc n) base i p two h = elim (Bool-cases (i / base == 0)) [
  | inl last ↦ rw (count_digits, last, numeral_last (suc n) base i last) refl
  | inr more ↦
      let next = count_digits-numeral n base (i / base) (p + 1) two (half_lt n base i two h) in
      count_more (suc n) base i p more
      ∙ next
      ∙ ap (λ x. some x) (omega (arith, numeral_length (suc n) base i more))
]
