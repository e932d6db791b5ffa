-- ===== src/Format/Directive.antt =====
-- lib/uefi/printf.c: how `vprintf` reads a conversion, from behind the `%` on. The rest of the format
-- is the list of its characters before the terminator.
use bbn_os.Base.{
  ℕ, ◌+◌, ◌-◌, ◌*◌, ◌%◌, ◌^◌, Bool, true, false, ◌||◌, Option, none, some, List, [], ◌∷◌, ◌==◌,
  if◌then◌else◌, ◌>>=◌,
}
use bbn_os.Text.{isdigit}
use bbn_os.Format.{Arg, int_of, next_word}

pub record Flags : Type 0 where
  pub left_justify : Bool
  pub plus_sign : Bool
  pub alt_form : Bool
  pub space_no_sign : Bool
  pub zero_pad : Bool

abbrev pub no_flags : Flags
no_flags = record {
  left_justify = false;
  plus_sign = false;
  alt_form = false;
  space_no_sign = false;
  zero_pad = false;
}

-- The locals of a conversion; `length` is 0 without a length modifier.
pub record Directive : Type 0 where
  pub flags : Flags
  pub length_spec : ℕ
  pub prec_spec : ℕ
  pub length : ℕ
  pub specifier : ℕ

-- The switch on a flag; `none` is its default.
unfoldable pub flag : ℕ → Flags → Option Flags
flag c f =
    if c == b'-'
    then some (record f { left_justify = true })
    else if c == b'+'
    then some (record f { plus_sign = true })
    else if c == b'#'
    then some (record f { alt_form = true })
    else if c == b' '
    then some (record f { space_no_sign = true })
    else if c == b'0'
    then some (record f { zero_pad = true })
    else none

unfoldable pub read_flags : Flags → List ℕ → Flags × List ℕ
read_flags f [] = (f, [])
read_flags f (c ∷ rest) = elim (flag c f) [ some g ↦ read_flags g rest | none ↦ (f, c ∷ rest) ]

-- `while (isdigit(format[i]))`
unfoldable pub read_digits : ℕ → List ℕ → Option (ℕ × List ℕ)
read_digits n [] = some (n, [])
read_digits n (c ∷ rest) = elim (isdigit c) [
  | true ↦ int_of (n * 10 + (c - 48)) >>= λ m. read_digits m rest
  | false ↦ some (n, c ∷ rest)
]

-- `if (format[i] == '*')`
unfoldable pub read_star :
    {D : Type 0} → ℕ → List ℕ → List (Arg D) → Option (ℕ × (List ℕ × List (Arg D)))
read_star n [] list = some (n, ([], list))
read_star n (c ∷ rest) list =
    if c == b'*'
    then (next_word list >>= λ (m, list'). some (m % 2 ^ 32, (rest, list')))
    else some (n, (c ∷ rest, list))

-- A number, or a star behind it.
unfoldable pub read_number :
    {D : Type 0} → List ℕ → List (Arg D) → Option (ℕ × (List ℕ × List (Arg D)))
read_number rest list = do (n, rest') ← read_digits 0 rest; read_star n rest' list

unfoldable pub read_precision :
    {D : Type 0} → List ℕ → List (Arg D) → Option (ℕ × (List ℕ × List (Arg D)))
read_precision [] list = some (6, ([], list))
read_precision (c ∷ rest) list =
    if c == b'.' then read_number rest list else some (6, (c ∷ rest, list))

abbrev pub is_length : ℕ → Bool
is_length c = c == b'h' || (c == b'l' || (c == b'j' || (c == b'z' || (c == b't' || c == b'L'))))

-- Behind a length modifier: a second `h` is not passed over.
unfoldable pub read_second : ℕ → List ℕ → ℕ × List ℕ
read_second c [] = (c, [])
read_second c (d ∷ rest) =
    if d == b'h' then (b'H', d ∷ rest) else if d == b'l' then (b'q', rest) else (c, d ∷ rest)

unfoldable pub read_length : List ℕ → ℕ × List ℕ
read_length [] = (0, [])
read_length (c ∷ rest) = if is_length c then read_second c rest else (0, c ∷ rest)

-- `specifier = format[i]`; at the terminator the loop's `++i` leaves the format.
unfoldable pub read_specifier : List ℕ → Option (ℕ × List ℕ)
read_specifier [] = none
read_specifier (c ∷ rest) = some (c, rest)

unfoldable pub read_directive :
    {D : Type 0} → List ℕ → List (Arg D) → Option (Directive × (List ℕ × List (Arg D)))
read_directive format list = do
  (width, (rest, list')) ← read_number ((read_flags no_flags format).1) list
  (precision, (rest', list'')) ← read_precision rest list'
  let modifier = read_length rest'
  (c, rest'') ← read_specifier (modifier.1)
  some (
    record {
      flags = (read_flags no_flags format).0;
      length_spec = width;
      prec_spec = precision;
      length = modifier.0;
      specifier = c;
    },
    (rest'', list''),
  )
