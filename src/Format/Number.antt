-- ===== src/Format/Number.antt =====
-- The integer conversions of `vprintf`: what is shown for an argument.
use bbn_os.Base.{
  ℕ, ◌-◌, ◌%◌, ◌^◌, ◌≤◌, ◌<◌, ◌≡◌, inl, inr, refl, Bool, true, false, some, List, [], ◌∷◌, ◌++◌,
  arith, if◌then◌else◌, length,
}
use bbn_os.Text.Laws.{HasNoZero}
use bbn_os.Printf.Value.{value, AllBelow}
use bbn_os.Printf.Padding.{with_padding}
use bbn_os.Printf.IntStr.{IsBase, signed_digits}
use bbn_os.Format.Directive.{is_length}
use bbn_os.Format.Convert.{extend, unsigned_value, signed_value}
use bbn_os.Format.Flags.{asked, AllFlags}
use bbn_os.Format.Read.{Conversion, IsConversion, IsModifier, NoLeadingZero, modifier_of}

-- `%d`, `%i`, `%u`, `%o`, `%x`, `%X` and `%p`.
pub data Kind : Type 0 where
  signed : Kind
  integer : Kind
  unsigned : Kind
  octal : Kind
  small_hex : Kind
  big_hex : Kind
  pointer : Kind

abbrev pub letter : Kind → ℕ
letter signed = b'd'
letter integer = b'i'
letter unsigned = b'u'
letter octal = b'o'
letter small_hex = b'x'
letter big_hex = b'X'
letter pointer = b'p'

-- No modifier, `h`, `l`, `j`, `z` and `t`.
pub data Size : Type 0 where
  plain_int : Size
  short_int : Size
  long_int : Size
  max_int : Size
  size_int : Size
  difference : Size

abbrev pub size_text : Size → List ℕ
size_text plain_int = []
size_text short_int = b'h' ∷ []
size_text long_int = b'l' ∷ []
size_text max_int = b'j' ∷ []
size_text size_int = b'z' ∷ []
size_text difference = b't' ∷ []

-- The lower bits of `n`, of which a `short` has 16 and an `int` 32.
abbrev pub low : Size → ℕ → ℕ
low plain_int n = n % 2 ^ 32
low short_int n = n % 2 ^ 16
low long_int n = n % 2 ^ 64
low max_int n = n % 2 ^ 64
low size_int n = n % 2 ^ 64
low difference n = n % 2 ^ 64

-- The same as a signed number, in 64 bits.
abbrev pub signed_low : Size → ℕ → ℕ
signed_low plain_int n = extend 32 n
signed_low short_int n = extend 16 n
signed_low long_int n = n % 2 ^ 64
signed_low max_int n = n % 2 ^ 64
signed_low size_int n = n % 2 ^ 64
signed_low difference n = n % 2 ^ 64

-- The number that is shown for the argument `n`.
abbrev pub number_of : Kind → Size → ℕ → ℕ
number_of signed size n = signed_low size n
number_of integer size n = signed_low size n
number_of unsigned size n = low size n
number_of octal size n = low size n
number_of small_hex size n = low size n
number_of big_hex size n = low size n
number_of pointer size n = n % 2 ^ 64

-- The base, 17 for small letters.
abbrev pub base_of : Kind → ℕ
base_of signed = 10
base_of integer = 10
base_of unsigned = 10
base_of octal = 8
base_of small_hex = 17
base_of big_hex = 16
base_of pointer = 16

-- What `#` puts before the number.
abbrev pub prefix_of : Kind → Bool → List ℕ
prefix_of signed alt_form = []
prefix_of integer alt_form = []
prefix_of unsigned alt_form = []
prefix_of octal alt_form = if alt_form then b'0' ∷ [] else []
prefix_of small_hex alt_form = if alt_form then b'0' ∷ b'x' ∷ [] else []
prefix_of big_hex alt_form = if alt_form then b'0' ∷ b'x' ∷ [] else []
prefix_of pointer alt_form = []

abbrev pub conversion_of : Kind → Size → (flags width : List ℕ) → Conversion
conversion_of k size flags width = record {
  flags = flags;
  width = width;
  modifier = size_text size;
  specifier = letter k;
}

-- The prefix, and the sign and digits padded to the width.
abbrev pub shown_number : Kind → Size → (flags width : List ℕ) → ℕ → List ℕ
shown_number k size flags width n =
    let f = asked flags in
    let s = signed_digits (number_of k size n) (base_of k) f.plus_sign f.space_no_sign in
    prefix_of k f.alt_form ++ with_padding f.left_justify f.zero_pad (value 10 0 width - length s) s

abbrev pub IsWidth : List ℕ → Type 0
IsWidth width = AllBelow 10 width × (NoLeadingZero width × (value 10 0 width < 256))

size-IsModifier : (size : Size) → IsModifier (size_text size)
size-IsModifier plain_int = tt
size-IsModifier short_int = refl
size-IsModifier long_int = refl
size-IsModifier max_int = refl
size-IsModifier size_int = refl
size-IsModifier difference = refl

letter_ends : (k : Kind) → (65 ≤ letter k) × (is_length (letter k) ≡ false)
letter_ends signed = (omega arith, refl)
letter_ends integer = (omega arith, refl)
letter_ends unsigned = (omega arith, refl)
letter_ends octal = (omega arith, refl)
letter_ends small_hex = (omega arith, refl)
letter_ends big_hex = (omega arith, refl)
letter_ends pointer = (omega arith, refl)

pub kind-IsConversion :
    (k : Kind) (size : Size) (flags width : List ℕ)
    → AllFlags flags
    → IsWidth width
    → IsConversion (conversion_of k size flags width)
kind-IsConversion k size flags width hf (digits, (nz, narrow)) =
    (hf, (digits, (nz, (narrow, (size-IsModifier size, letter_ends k)))))

pub prefix-HasNoZero : (k : Kind) (alt_form : Bool) → HasNoZero (prefix_of k alt_form)
prefix-HasNoZero signed alt_form = tt
prefix-HasNoZero integer alt_form = tt
prefix-HasNoZero unsigned alt_form = tt
prefix-HasNoZero octal true = (omega arith, tt)
prefix-HasNoZero octal false = tt
prefix-HasNoZero small_hex true = (omega arith, (omega arith, tt))
prefix-HasNoZero small_hex false = tt
prefix-HasNoZero big_hex true = (omega arith, (omega arith, tt))
prefix-HasNoZero big_hex false = tt
prefix-HasNoZero pointer alt_form = tt

pub kind-IsBase : (k : Kind) → IsBase (base_of k)
kind-IsBase signed = inr (inl refl)
kind-IsBase integer = inr (inl refl)
kind-IsBase unsigned = inr (inl refl)
kind-IsBase octal = inl refl
kind-IsBase small_hex = inr (inr (inr refl))
kind-IsBase big_hex = inr (inr (inl refl))
kind-IsBase pointer = inr (inr (inl refl))

low_small : (size : Size) (n : ℕ) → low size n < 2 ^ 64
low_small plain_int n = omega arith
low_small short_int n = omega arith
low_small long_int n = omega arith
low_small max_int n = omega arith
low_small size_int n = omega arith
low_small difference n = omega arith

signed_low_small : (size : Size) (n : ℕ) → signed_low size n < 2 ^ 64
signed_low_small plain_int n = ground arith
signed_low_small short_int n = ground arith
signed_low_small long_int n = omega arith
signed_low_small max_int n = omega arith
signed_low_small size_int n = omega arith
signed_low_small difference n = omega arith

pub number_small : (k : Kind) (size : Size) (n : ℕ) → number_of k size n < 2 ^ 64
number_small signed size n = signed_low_small size n
number_small integer size n = signed_low_small size n
number_small unsigned size n = low_small size n
number_small octal size n = low_small size n
number_small small_hex size n = low_small size n
number_small big_hex size n = low_small size n
number_small pointer size n = omega arith

pub unsigned_value_lem :
    (size : Size) (n : ℕ) → unsigned_value (modifier_of (size_text size)) n ≡ some (low size n)
unfolding unsigned_value
unsigned_value_lem plain_int n = refl
unsigned_value_lem short_int n = refl
unsigned_value_lem long_int n = refl
unsigned_value_lem max_int n = refl
unsigned_value_lem size_int n = refl
unsigned_value_lem difference n = refl

pub signed_value_lem :
    (size : Size) (n : ℕ) → signed_value (modifier_of (size_text size)) n ≡ some (signed_low size n)
unfolding signed_value
signed_value_lem plain_int n = refl
signed_value_lem short_int n = refl
signed_value_lem long_int n = refl
signed_value_lem max_int n = refl
signed_value_lem size_int n = refl
signed_value_lem difference n = refl
