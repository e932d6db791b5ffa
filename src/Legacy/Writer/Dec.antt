-- ===== src/Legacy/Writer/Dec.antt =====
-- lib/legacy/fb.c: `fb_print_dec` prints the number, or its last seven digits.
use bbn_os.Base.{
  ℕ, zero, suc, ◌+◌, ◌-◌, ◌/◌, ◌%◌, ◌^◌, ◌<◌, ◌≡◌, ◌≢◌, inl, inr, refl, sym, ap, ◌∙◌, Bool, true,
  false, List, [], ◌∷◌, ◌++◌, arith, ◌==◌, ltb, leb, if◌then◌else◌, Bool-cases, ◌>>=◌,
}
use native.Mathlib.Nat.{pow-suc}
use bbn_os.Legacy.Writer.{
  Writer, printf, dec_warning, fb_print, dec_stack, print_stack, print_size, fb_print_dec,
}
use bbn_os.Legacy.Writer.Bounds.{IsPlaced, IsKept, printf-IsKept}
use bbn_os.Legacy.Writer.Digits.{
  print_each, read_in, IsNumber, all_digits, is_digit, all_digits_snoc, snoc-IsNumber, read_in_snoc,
  print_each_snoc, bind_some, bind-IsKept, print_each-IsKept,
}

-- The characters of a stack of digits, from its top.
abbrev stack_text : List ℕ → List ℕ
stack_text [] = []
stack_text (d ∷ stack) = stack_text stack ++ (d + b'0') ∷ []

print_stack-print_each :
    (stack : List ℕ) (w : Writer) → print_stack stack w ≡ print_each (stack_text stack) w
unfolding print_stack print_each
print_stack-print_each [] w = refl
print_stack-print_each (d ∷ stack) w =
    ap (λ o. o >>= λ v. fb_print ((d + b'0') ∷ []) v) (print_stack-print_each stack w)
    ∙ print_each_snoc (stack_text stack) (d + b'0') w

-- The stack has room for every digit of a number below a power of ten.
read_in-dec_stack :
    (room num : ℕ) → num < 10 ^ room → read_in 10 0 (stack_text (dec_stack room num)) ≡ num
unfolding read_in dec_stack
read_in-dec_stack zero num h = omega arith
read_in-dec_stack (suc room) num h = elim (Bool-cases (num == 0)) [
  | inl nothing ↦ rw (dec_stack, nothing) (ground arith)
  | inr some_left ↦
      let bound = rw (pow-suc 10 room) at h in
      let rest = read_in-dec_stack room (num / 10) (omega arith) in
      rw (dec_stack, some_left)
        (read_in_snoc (stack_text (dec_stack room (num / 10))) 10 0 (num % 10 + b'0')
          ∙ ground (arith, rest))
]

-- The characters of a size.
abbrev size_text : ℕ → List ℕ
size_text num = if num == 0 then b'0' ∷ [] else stack_text (dec_stack 10 num)

print_size-print_each : (num : ℕ) (w : Writer) → print_size num w ≡ print_each (size_text num) w
unfolding print_size print_each
print_size-print_each num w = elim (Bool-cases (num == 0)) [
  | inl nothing ↦ rw (print_size, nothing) (sym (bind_some (fb_print (b'0' ∷ []) w)))
  | inr some_left ↦ rw (print_size, some_left) (print_stack-print_each (dec_stack 10 num) w)
]

read_in-size_text : (num : ℕ) → num < 10 ^ 10 → read_in 10 0 (size_text num) ≡ num
unfolding read_in
read_in-size_text num h = elim (Bool-cases (num == 0)) [
  | inl nothing ↦ rw nothing (ground arith)
  | inr some_left ↦ rw some_left (read_in-dec_stack 10 num h)
]

digit_lem : (d : ℕ) → d < 10 → is_digit 10 (d + b'0') ≡ true
digit_lem d h = ground arith

dec_stack-all_digits : (room num : ℕ) → all_digits 10 (stack_text (dec_stack room num)) ≡ true
unfolding all_digits dec_stack
dec_stack-all_digits zero num = refl
dec_stack-all_digits (suc room) num = elim (Bool-cases (num == 0)) [
  | inl nothing ↦ rw (dec_stack, nothing) refl
  | inr some_left ↦
      rw (dec_stack, some_left)
        (all_digits_snoc (stack_text (dec_stack room (num / 10))) 10 (num % 10 + b'0')
          (dec_stack-all_digits room (num / 10)) (digit_lem (num % 10) (omega arith)))
]

size_text-IsNumber : (num : ℕ) → IsNumber 10 (size_text num)
unfolding all_digits dec_stack
size_text-IsNumber num =
    let leftover : (num == 0) ≡ false → dec_stack 10 num ≡ (num % 10) ∷ dec_stack 9 (num / 10) =
      λ e. rw (dec_stack, e) refl in
    elim (Bool-cases (num == 0)) [
      | inl nothing ↦ rw nothing (omega arith, refl)
      | inr some_left ↦
          rw (some_left, leftover some_left)
            (snoc-IsNumber (stack_text (dec_stack 9 (num / 10))) 10 (num % 10 + b'0')
              (dec_stack-all_digits 9 (num / 10)) (digit_lem (num % 10) (omega arith)))
    ]

-- Whether the 32 bits of an `int` are those of a negative number, and the size that is printed.
abbrev pub is_negative : ℕ → Bool
is_negative num = ltb (2 ^ 31) num

abbrev pub shown_size : ℕ → ℕ
shown_size num =
    if is_negative num then 2 ^ 32 - num else if leb 10000000 num then num % 10000000 else num

abbrev pub sign_of : ℕ → List ℕ
sign_of num = if is_negative num then b'-' ∷ [] else []

-- The sign and the digits, one at a time; the run returns, on the screen.
pub record IsDecShown (num : ℕ) (w : Writer) : Type 0 where
  pub digits : List ℕ
  pub printed :
      fb_print_dec num w ≡ (printf dec_warning w >>= λ v. print_each (sign_of num ++ digits) v)
  pub number : IsNumber 10 digits
  pub shows : read_in 10 0 digits ≡ shown_size num
  pub returns : IsKept w (fb_print_dec num w)

-- The part behind the test of the least number.
signed_lem :
    (num : ℕ) (v : Writer)
    → (if is_negative num
        then (fb_print (b'-' ∷ []) v >>= λ u. print_size (2 ^ 32 - num) u)
        else print_size (if leb 10000000 num then num % 10000000 else num) v)
      ≡ print_each (sign_of num ++ size_text (shown_size num)) v
unfolding print_each
signed_lem num v = elim (Bool-cases (is_negative num)) [
  | inl below ↦
      rw below (λ i. fb_print (b'-' ∷ []) v >>= λ u. print_size-print_each (2 ^ 32 - num) u i)
  | inr above ↦
      rw above (print_size-print_each (if leb 10000000 num then num % 10000000 else num) v)
]

printed_lem :
    (num : ℕ) (w : Writer)
    → num ≢ 2 ^ 31
    → fb_print_dec num w
      ≡ (printf dec_warning w >>= λ v. print_each (sign_of num ++ size_text (shown_size num)) v)
unfolding fb_print_dec
printed_lem num w h =
    let other : (num == 2 ^ 31) ≡ false = ground arith in
    rw (fb_print_dec, other) (λ i. printf dec_warning w >>= λ v. signed_lem num v i)

-- From positions on the screen, for an `int` other than the least one, `fb_print_dec` prints its warning, then
-- one character at a time a minus where the number is negative and one or more digits 0 to 9 that show its size in base 10,
-- of a number from 10000000 on only the last seven digits; it returns, both positions are on the screen
-- again, and no byte before the screen or behind the row that follows its last one has changed.
pub fb_print_dec-IsDecShown :
    (num : ℕ) (w : Writer) → num < 2 ^ 32 → num ≢ 2 ^ 31 → IsPlaced w → IsDecShown num w
fb_print_dec-IsDecShown num w word least placed =
    let digits = size_text (shown_size num) in
    record {
      digits = digits;
      printed = printed_lem num w least;
      number = size_text-IsNumber (shown_size num);
      shows = read_in-size_text (shown_size num) (ground arith);
      returns = rw (printed_lem num w least) (
          bind-IsKept w (printf dec_warning w) (λ v. print_each (sign_of num ++ digits) v)
            (printf-IsKept dec_warning w placed)
            (λ v there. print_each-IsKept (sign_of num ++ digits) v there));
    }
