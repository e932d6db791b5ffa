-- ===== src/Printf/IntStr.antt =====
-- `__int_str` as a whole: the sign, the digits and the padding.
use bbn_os.Base.{
  ℕ, zero, suc, ◌+◌, ◌-◌, ◌/◌, ◌%◌, ◌^◌, ◌≤◌, ◌<◌, ◌≡◌, ◌≢◌, ◌⊎◌, inl, inr, refl, ap, ◌∙◌, Bool,
  true, false, some, List, [], ◌∷◌, ◌++◌, arith, ◌==◌, leb, if◌then◌else◌, Bool-cases, length,
}
use mathlib.Core.Path.{fun_ext}
use mathlib.Core.List.{append-nil}
use bbn_os.Base.{length-append}
use native.Mathlib.Nat.{mod-lt}
use bbn_os.Text.{put}
use bbn_os.Text.Laws.{text, HasNoZero, HasNoZero-append, put_behind, text_past, strlen-text}
use bbn_os.Printf.{
  write_digits, blank, put_sign, sign_text, padding_of, int_str, decimal_digits, upper_digits,
  lower_digits,
}
use bbn_os.Printf.Number.{
  numeral, numeral_last, numeral_more, numeral_length, digits_of_base, real_base, literals,
  digit_table_lem, count_digits-numeral,
}
use bbn_os.Printf.Padding.{with_padding, justified-text}
use bbn_os.Printf.Value.{IsNumeral, numeral-IsNumeral}
use bbn_os.Printf.Write.{spell, spell-length, spell-append, repeat, write_digits-numeral}

numeral_fits : (n base i : ℕ) → length (numeral n base i) ≤ n
unfolding numeral
numeral_fits zero base i = omega arith
numeral_fits (suc n) base i = elim (Bool-cases (i / base == 0)) [
  | inl last ↦ rw (numeral_last n base i last) (omega arith)
  | inr more ↦ omega (arith, numeral_length n base i more, numeral_fits n base (i / base))
]

digit-ne : (table : List ℕ) (d : ℕ) → HasNoZero table → d < length table → text table d ≢ 0
digit-ne [] d h fits = absurd (omega arith)
digit-ne (c ∷ table) zero (hc, h) fits = hc
digit-ne (c ∷ table) (suc d) (hc, h) fits = digit-ne table d h (omega arith)

spell-HasNoZero :
    (table : List ℕ) (n base i : ℕ)
    → HasNoZero table
    → 0 < base
    → base ≤ length table
    → HasNoZero (spell table (numeral n base i))
unfolding numeral
spell-HasNoZero table zero base i h some_base fits = tt
spell-HasNoZero table (suc n) base i h some_base fits =
    let ne = digit-ne table (i % base) h (omega (arith, mod-lt i some_base)) in
    elim (Bool-cases (i / base == 0)) [
      | inl last ↦ rw (numeral_last n base i last) (ne, tt)
      | inr more ↦
          rw
            (
              numeral_more n base i more,
              spell-append table (numeral n base (i / base)) (i % base ∷ []),
            )
            (HasNoZero-append (spell table (numeral n base (i / base))) (text table (i % base) ∷ [])
              (spell-HasNoZero table n base (i / base) h some_base fits) (ne, tt))
    ]

-- The bases that the caller passes.
abbrev pub IsBase : ℕ → Type 0
IsBase base = (base ≡ 8) ⊎ ((base ≡ 10) ⊎ ((base ≡ 16) ⊎ (base ≡ 17)))

digits-HasNoZero : (base : ℕ) → HasNoZero (digits_of_base base)
digits-HasNoZero base = ground (
  arith,
  HasNoZero-append decimal_digits upper_digits literals.0 literals.1,
  HasNoZero-append decimal_digits lower_digits literals.0 literals.2,
  literals.0,
)

base_fits :
    (base : ℕ)
    → IsBase base
    → (2 ≤ real_base base) × (real_base base ≤ length (digits_of_base base))
base_fits base (inl e) = rw e (omega arith, omega arith)
base_fits base (inr (inl e)) = rw e (omega arith, omega arith)
base_fits base (inr (inr (inl e))) = rw e (omega arith, omega arith)
base_fits base (inr (inr (inr e))) = rw e (omega arith, omega arith)

abbrev IsSign : List ℕ → Type 0
IsSign sign = (put_sign blank sign ≡ text sign) × HasNoZero sign × (length sign ≤ 1)

one-IsSign : (c : ℕ) → c ≢ 0 → IsSign (c ∷ [])
one-IsSign c h = (put_behind [] c, (h, tt), omega arith)

tests-IsSign :
    (negative plus space : Bool)
    → IsSign (
        if negative then b'-' ∷ [] else if plus then b'+' ∷ [] else if space then b' ' ∷ [] else [])
tests-IsSign true plus space = one-IsSign b'-' (omega arith)
tests-IsSign false true space = one-IsSign b'+' (omega arith)
tests-IsSign false false true = one-IsSign b' ' (omega arith)
tests-IsSign false false false = (refl, tt, omega arith)

-- A sign is at most one character.
sign_text-IsSign : (i : ℕ) (plus space : Bool) → IsSign (sign_text i plus space)
sign_text-IsSign i plus space = tests-IsSign (leb (2 ^ 63) i) plus space

zeros_read : (m j : ℕ) → text (repeat m 0 ++ []) j ≡ 0
zeros_read zero j = refl
zeros_read (suc m) zero = refl
zeros_read (suc m) (suc j) = zeros_read m j

zeros_hidden : (u : List ℕ) (m j : ℕ) → text (u ++ (repeat m 0 ++ [])) j ≡ text u j
zeros_hidden [] m j = zeros_read m j
zeros_hidden (c ∷ u) m zero = refl
zeros_hidden (c ∷ u) m (suc j) = zeros_hidden u m j

-- The terminator behind the place of the digits changes nothing.
put-room : (u : List ℕ) (m : ℕ) → put (text u) (length u + m) 0 ≡ text (u ++ (repeat m 0 ++ []))
put-room u m = fun_ext λ j. ground (arith, text_past u j, zeros_hidden u m j)

-- The number that the digits spell: the value of `i` as an `intmax_t`, without its sign.
abbrev pub magnitude : ℕ → ℕ
magnitude i = if leb (2 ^ 63) i then 2 ^ 64 - i else i

-- The sign and the digits.
abbrev pub signed_digits : (i base : ℕ) (plus space : Bool) → List ℕ
signed_digits i base plus space =
    sign_text i plus space
    ++ spell (digits_of_base base) (numeral 64 (real_base base) (magnitude i))

magnitude-bound : (i : ℕ) → i < 2 ^ 64 → i ≢ 2 ^ 63 → magnitude i < 2 ^ 63
magnitude-bound i small regular = ground arith

-- The sign and the digits are no terminator, and few.
pub signed_digits-clean :
    (i base : ℕ) (plus space : Bool)
    → IsBase base
    → let s = signed_digits i base plus space in HasNoZero s × (length s ≤ 65)
signed_digits-clean i base plus space known =
    let sign = sign_text i plus space in
    let num = numeral 64 (real_base base) (magnitude i) in
    let spelled = spell (digits_of_base base) num in
    let (clean, sign_ok, short) = sign_text-IsSign i plus space in
    let (two, enough) = base_fits base known in
    (
      HasNoZero-append sign spelled sign_ok (
          spell-HasNoZero (digits_of_base base) 64 (real_base base) (magnitude i)
            (digits-HasNoZero base) (omega arith) enough),
      omega (
        arith,
        length-append sign spelled,
        spell-length (digits_of_base base) num,
        numeral_fits 64 (real_base base) (magnitude i),
      ),
    )

pub int_str-text :
    (i base padding_no : ℕ) (plus space justify zero_pad : Bool)
    → i < 2 ^ 64
    → i ≢ 2 ^ 63
    → IsBase base
    → padding_no < 256
    → let s = signed_digits i base plus space in
      (int_str i blank base plus space padding_no justify zero_pad
        ≡ some (text (with_padding justify zero_pad (padding_no - length s) s)))
      × IsNumeral (real_base base) (magnitude i) (numeral 64 (real_base base) (magnitude i))
unfolding int_str
int_str-text i base padding_no plus space justify zero_pad small regular known narrow =
    let sign = sign_text i plus space in
    let table = digits_of_base base in
    let num = numeral 64 (real_base base) (magnitude i) in
    let s = sign ++ spell table num in
    let (clean, _, _) = sign_text-IsSign i plus space in
    let (two, _) = base_fits base known in
    let bound = magnitude-bound i small regular in
    let (s_ok, few) = signed_digits-clean i base plus space known in
    let other : (i == 2 ^ 63) ≡ false = ground arith in
    let width : padding_of padding_no (length s) ≡ padding_no - length s = ground arith in
    let written : write_digits 64 (text table) (real_base base) (magnitude i)
          (length sign + length num) (text (sign ++ (repeat (length num) 0 ++ [])))
        ≡ some (text s) =
      write_digits-numeral table (real_base base) two 63 (magnitude i) sign [] bound
      ∙ ap (λ t. some (text (sign ++ t))) (append-nil (spell table num)) in
    (
      rw
          (
            int_str,
            other,
            digit_table_lem base,
            count_digits-numeral 63 (real_base base) (magnitude i) (length sign) two bound,
            clean,
            put-room sign (length num),
            written,
            strlen-text 256 s s_ok (omega arith),
            width,
          )
          (justified-text justify zero_pad (padding_no - length s) s s_ok (omega arith)),
      numeral-IsNumeral 63 (real_base base) (magnitude i) two bound,
    )
