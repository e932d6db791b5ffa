-- ===== src/Printf.antt =====
-- lib/uefi/printf.c: `__int_str`, which writes a number into a buffer of 256 characters. A signed
-- number of 64 bits is its two's complement. `none` is what C leaves undefined: a write past a
-- buffer, or the negation of the least number.
pub mod Number
pub mod Value
pub mod Write
pub mod Padding
pub mod IntStr
pub mod Tests
use bbn_os.Base.{
  ℕ, zero, suc, ◌+◌, ◌-◌, ◌*◌, ◌/◌, ◌%◌, ◌^◌, ◌≤◌, ◌<◌, ◌≡◌, ◌≢◌, ◌⊎◌, ◌↔◌, inl, inr, refl, sym, ap,
  ◌∙◌, Bool, true, false, not, ◌&&◌, ◌||◌, Option, none, some, List, [], ◌∷◌, ◌++◌, arith, ◌==◌,
  ltb, leb, if◌then◌else◌, Bool-cases, ==_iff, ==_self, ==_ne, add64, sub64, mul64, ◌>>=◌, min,
  bit_and, bit_or, length, get_or,
}
use bbn_os.Text.{Buffer, put, strlen, strcpy, strcat}

abbrev pub blank : Buffer
blank k = 0

-- The array that a string literal stands for, with its terminator.
abbrev pub literal : List ℕ → Buffer
literal s k = get_or s k 0

abbrev pub decimal_digits : List ℕ
decimal_digits = b'0' ∷ b'1' ∷ b'2' ∷ b'3' ∷ b'4' ∷ b'5' ∷ b'6' ∷ b'7' ∷ b'8' ∷ b'9' ∷ []

abbrev pub upper_digits : List ℕ
upper_digits = b'A' ∷ b'B' ∷ b'C' ∷ b'D' ∷ b'E' ∷ b'F' ∷ []

abbrev pub lower_digits : List ℕ
lower_digits = b'a' ∷ b'b' ∷ b'c' ∷ b'd' ∷ b'e' ∷ b'f' ∷ []

-- The letters behind the ten digits.
abbrev pub with_letters : Buffer → ℕ → Option (Buffer × ℕ)
with_letters digit base =
    if base == 16
    then (strcat 32 (literal upper_digits) digit >>= λ d. some (d, 16))
    else if base == 17
    then (strcat 32 (literal lower_digits) digit >>= λ d. some (d, 16))
    else some (digit, base)

-- `digit`, and the base: 17 is 16 with small letters.
unfoldable pub digit_table : ℕ → Option (Buffer × ℕ)
digit_table base = do digit ← strcpy 32 (literal decimal_digits) blank; with_letters digit base

-- What stands before the digits.
abbrev pub sign_text : (i : ℕ) → (plus_sign_if_needed space_sign_if_needed : Bool) → List ℕ
sign_text i plus_sign_if_needed space_sign_if_needed =
    if leb (2 ^ 63) i
    then b'-' ∷ []
    else if plus_sign_if_needed
    then b'+' ∷ []
    else if space_sign_if_needed
    then b' ' ∷ []
    else []

-- `*p++ = …`
abbrev pub put_sign : Buffer → List ℕ → Buffer
put_sign b [] = b
put_sign b (c ∷ s) = put b 0 c

-- The loop with `shifter`, from `++p` on, with `n` rounds left.
unfoldable pub count_digits : (n base shifter p : ℕ) → Option ℕ
count_digits zero base shifter p = none
count_digits (suc n) base shifter p = elim (shifter / base == 0) [
  | true ↦ some (p + 1)
  | false ↦ count_digits n base (shifter / base) (p + 1)
]

-- The loop that writes the digits backwards.
unfoldable pub write_digits : ℕ → Buffer → (base i p : ℕ) → Buffer → Option Buffer
write_digits zero digit base i p b = none
write_digits (suc n) digit base i p b =
    let b' = put b (p - 1) (digit (i % base)) in
    elim (i / base == 0) [
      | true ↦ some b'
      | false ↦ write_digits n digit base (i / base) (p - 1) b'
    ]

-- `while (padding--) x[strlen(x)] = c`, on an array of 256 characters.
unfoldable pub pad : (padding c : ℕ) → Buffer → Option Buffer
pad zero c x = some x
pad (suc padding) c x = do k ← strlen 256 x; pad padding c (put x k c)

-- `paddingNo - (int)strlen(b)`, or 0 if that is negative; `padding_no` is an `int`.
abbrev pub padding_of : (padding_no length : ℕ) → ℕ
padding_of padding_no length = if leb (2 ^ 31) padding_no then 0 else padding_no - length

-- The last part: the padding, behind the number or before it.
unfoldable pub justified : (justify zero_pad : Bool) (padding : ℕ) → Buffer → Option Buffer
justified justify zero_pad padding b =
    let c = if zero_pad then b'0' else b' ' in
    if justify
    then pad padding c b
    else (do a ← pad padding c blank; a' ← strcat 256 b a; strcpy 256 a' b)

unfoldable pub int_str :
    (i : ℕ)
    → Buffer
    → (base : ℕ) → (plus_sign_if_needed space_sign_if_needed : Bool) → (padding_no : ℕ)
    → (justify zero_pad : Bool) → Option Buffer
int_str i b base plus_sign_if_needed space_sign_if_needed padding_no justify zero_pad =
    let sign = sign_text i plus_sign_if_needed space_sign_if_needed in
    let start = length sign in
    let magnitude = if leb (2 ^ 63) i then 2 ^ 64 - i else i in
    if i == 2 ^ 63 then none else (do
      (digit, base') ← digit_table base
      p ← count_digits 64 base' magnitude start
      b' ← write_digits 64 digit base' magnitude p (put (put_sign b sign) p 0)
      n ← strlen 256 b'
      justified justify zero_pad (padding_of padding_no n) b')
