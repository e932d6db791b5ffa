-- ===== src/Format/Convert.antt =====
-- lib/uefi/printf.c: what `vprintf` does for a conversion, and its loop over the format.
use bbn_os.Base.{
  ℕ, zero, suc, ◌+◌, ◌-◌, ◌*◌, ◌%◌, ◌^◌, Bool, true, false, ◌&&◌, ◌||◌, Option, none, some, List,
  [], ◌∷◌, ◌++◌, ◌==◌, ltb, leb, if◌then◌else◌, ◌>>=◌, length,
}
use bbn_os.Text.{Buffer, put}
use bbn_os.Printf.{blank, literal, int_str}
use bbn_os.Format.{
  Arg, DoubleOps, Store, Out, display_character, display_string, next_word, next_string, next_place,
  next_double,
}
use bbn_os.Format.Directive.{Flags, Directive, read_directive}

-- The base, the specifier `u` in place of `o`, `p`, `x` and `X`, and the prefix of the alternate form.
pub record Radix : Type 0 where
  pub base : ℕ
  pub unsigned : Bool
  pub prefix : List ℕ

abbrev pub zero_x : Bool → List ℕ
zero_x alt_form = if alt_form then b'0' ∷ b'x' ∷ [] else []

unfoldable pub radix_of : ℕ → Flags → Radix
radix_of c f =
    if c == b'o'
    then record { base = 8; unsigned = true; prefix = if f.alt_form then b'0' ∷ [] else [] }
    else if c == b'p'
    then record { base = 16; unsigned = true; prefix = [] }
    else if c == b'X'
    then record { base = 16; unsigned = true; prefix = zero_x f.alt_form }
    else if c == b'x'
    then record { base = 17; unsigned = true; prefix = zero_x f.alt_form }
    else if c == b'u'
    then record { base = 10; unsigned = true; prefix = [] }
    else record { base = 10; unsigned = false; prefix = [] }

-- The length modifiers of 8 bytes.
abbrev pub is_long : ℕ → Bool
is_long length =
    length == b'l' || (length == b'q' || (length == b'j' || (length == b'z' || length == b't')))

-- The switch on `length` of the unsigned conversions: the argument as an `intmax_t`; `none` is the
-- default, which takes no argument.
unfoldable pub unsigned_value : (length n : ℕ) → Option ℕ
unsigned_value length n =
    if length == 0
    then some (n % 2 ^ 32)
    else if length == b'H'
    then some (n % 2 ^ 8)
    else if length == b'h'
    then some (n % 2 ^ 16)
    else if is_long length
    then some (n % 2 ^ 64)
    else none

-- The two's complement of `w` bits in 64 bits.
abbrev pub extend : (w n : ℕ) → ℕ
extend w n = if ltb (n % 2 ^ w) (2 ^ (w - 1)) then n % 2 ^ w else 2 ^ 64 - 2 ^ w + n % 2 ^ w

-- The switch of the signed conversions.
unfoldable pub signed_value : (length n : ℕ) → Option ℕ
signed_value length n =
    if length == 0
    then some (extend 32 n)
    else if length == b'H'
    then some (extend 8 n)
    else if length == b'h'
    then some (extend 16 n)
    else if is_long length
    then some (n % 2 ^ 64)
    else none

-- `__int_str(…)` and `displayString`, on the buffer that was cleared.
unfoldable pub show_number : (i base : ℕ) → Directive → Out → Option Out
show_number i base d out = do
  b ←
      int_str i blank base d.flags.plus_sign d.flags.space_no_sign d.length_spec
        d.flags.left_justify d.flags.zero_pad
  display_string 256 b out

-- The characters of a literal.
abbrev pub show_literal : List ℕ → Out → Option Out
show_literal s out = display_string (length s + 1) (literal s) out

-- A switch on `length`: in its default no argument is taken.
unfoldable pub show_integer :
    {D : Type 0}
    → (value : ℕ → ℕ → Option ℕ) → (length base : ℕ) → Directive
    → List (Arg D)
    → Out
    → Option (List (Arg D) × Out)
show_integer value length base d list out = elim (value length 0) [
  | none ↦ some (list, out)
  | some _ ↦ (do
    (n, list') ← next_word list
    i ← value length n
    out' ← show_number i base d out
    some (list', out'))
]

-- What the nested call of `printf` shows, for `%lc`; it does not count in `chars`.
abbrev pub wide_error : List ℕ
wide_error =
    b'v' ∷ b'p' ∷ b'r' ∷ b'i' ∷ b'n' ∷ b't' ∷ b'f' ∷ b':' ∷ b' ' ∷ b'E' ∷ b'R' ∷ b'R' ∷ b'O' ∷ b'R'
    ∷ b':' ∷ b' ' ∷ b'w' ∷ b'c' ∷ b'h' ∷ b'a' ∷ b'r' ∷ b' ' ∷ b'n' ∷ b'o' ∷ b't' ∷ b' ' ∷ b's'
    ∷ b'u' ∷ b'p' ∷ b'p' ∷ b'o' ∷ b'r' ∷ b't' ∷ b'e' ∷ b'd' ∷ b'!' ∷ 10 ∷ []

unfoldable pub show_char :
    {D : Type 0} → (length : ℕ) → List (Arg D) → Out → Option (List (Arg D) × Out)
show_char length list out =
    if length == b'l' then some (list, record out { shown = out.shown ++ wide_error }) else (do
      (n, list') ← next_word list
      out' ← display_character (n % 2 ^ 8) out
      some (list', out'))

-- The bytes that `%n` writes; `none` is the default of the switch.
unfoldable pub place_bytes : ℕ → Option ℕ
place_bytes length =
    if length == b'H'
    then some 1
    else if length == b'h'
    then some 2
    else if length == 0
    then some 4
    else if is_long length
    then some 8
    else none

unfoldable pub store_chars :
    {D : Type 0} → (length : ℕ) → List (Arg D) → Out → Option (List (Arg D) × Out)
store_chars length list out = elim (place_bytes length) [
  | none ↦ some (list, out)
  | some w ↦ (do
    (a, list') ← next_place list
    let store : Store = record { address = a; bytes = w; value = out.chars % 2 ^ (8 * w) }
    some (list', record out { stored = out.stored ++ store ∷ [] }))
]

module _ {D : Type 0} (ops : DoubleOps D) where
  -- `while (emode && floating >= 10)`, with `n` rounds left: the number and `expo`.
  unfoldable pub scale : (n : ℕ) (emode : Bool) → D → (expo : ℕ) → Option (D × ℕ)
  scale zero emode x expo = none
  scale (suc n) emode x expo = elim (emode && ops.at_least_ten x) [
    | true ↦ scale n emode (ops.div_ten x) (expo + 1)
    | false ↦ some (x, expo)
  ]

  -- The rounds of `floating *= 10`.
  unfoldable pub times_ten : ℕ → D → D
  times_ten zero x = x
  times_ten (suc n) x = times_ten n (ops.mul_ten x)

  -- `form`: the width less the places, the exponent and the point.
  unfoldable pub form_of : (emode alt_form : Bool) (length_spec prec_spec expo : ℕ) → ℕ
  form_of emode alt_form length_spec prec_spec expo =
      let point = if prec_spec == 0 then (if alt_form then 1 else 0) else 1 in
      let exponent = if emode then 4 else 0 in
      let form =
        (length_spec + 4 * 2 ^ 32 - prec_spec - expo % 2 ^ 32 - point - exponent) % 2 ^ 32 in
      if leb (2 ^ 31) form then 0 else form

  -- The places behind the point, in the buffer that holds the part before it.
  unfoldable pub show_places :
      (alt_form : Bool) (prec_spec : ℕ) → D → Buffer → Out → Option (Buffer × Out)
  show_places alt_form prec_spec x b out =
      if prec_spec == 0
      then (if alt_form
          then (display_character b'.' out >>= λ out'. some (b, out'))
          else some (b, out))
      else if leb 256 prec_spec
      then none
      else (do
        places ← ops.to_intmax (ops.add_half (times_ten prec_spec x))
        out' ← display_character b'.' out
        b' ← int_str places b 10 false false 0 false false
        out'' ← display_string 256 (put b' prec_spec 0) out'
        some (put b' prec_spec 0, out''))

  -- The exponent of `%e` and `%E`, with the `e` or `E` of the specifier.
  unfoldable pub show_exponent : (c : ℕ) (emode : Bool) (expo : ℕ) → Buffer → Out → Option Out
  show_exponent c emode expo b out =
      if emode
      then (do
        out' ← show_literal (c ∷ b'+' ∷ []) out
        b' ← int_str expo b 10 false false 2 false true
        display_string 256 b' out')
      else some out

  -- The conversions of a `double`; the loops of `emode` end after at most 400 rounds, or not at all.
  unfoldable pub show_double : (emode : Bool) → Directive → D → Out → Option Out
  show_double emode d x out = do
    (x', expo) ← scale 400 emode x 0
    i ← ops.to_intmax x'
    b ←
        int_str i blank 10 d.flags.plus_sign d.flags.space_no_sign
          (form_of emode d.flags.alt_form d.length_spec d.prec_spec expo) d.flags.left_justify
          d.flags.zero_pad
    out' ← display_string 256 b out
    rest ← ops.sub_own_int x'
    (b', out'') ← show_places d.flags.alt_form d.prec_spec rest b out'
    show_exponent d.specifier emode expo b' out''

  abbrev pub is_exponent : ℕ → Bool
  is_exponent c = c == b'e' || c == b'E'

  abbrev pub is_fixed : ℕ → Bool
  is_fixed c = c == b'f' || (c == b'F' || (c == b'g' || c == b'G'))

  -- The switch on the specifier, behind the cases of unsigned numbers.
  unfoldable pub convert_other : Directive → List (Arg D) → Out → Option (List (Arg D) × Out)
  convert_other d list out =
      let c = d.specifier in
      if c == b'd' || c == b'i'
      then show_integer signed_value d.length 10 d list out
      else if c == b'c'
      then show_char d.length list out
      else if c == b's'
      then (do
        ((size, s), list') ← next_string list
        out' ← display_string size s out
        some (list', out'))
      else if c == b'n'
      then store_chars d.length list out
      else if is_exponent c || is_fixed c
      then (do
        (x, list') ← next_double list
        out' ← show_double (is_exponent c) d x out
        some (list', out'))
      else some (list, out)

  -- A conversion that was read.
  unfoldable pub convert : Directive → List (Arg D) → Out → Option (List (Arg D) × Out)
  convert d list out =
      let r = radix_of d.specifier d.flags in
      let length = if d.specifier == b'p' then b'z' else d.length in
      if r.unsigned
      then (do
        out' ← show_literal r.prefix out
        show_integer unsigned_value length r.base d list out')
      else convert_other d list out

  -- The loop of `vprintf`, with `n` rounds left.
  unfoldable pub vprintf_from : (n : ℕ) → List ℕ → List (Arg D) → Out → Option Out
  vprintf_from zero format list out = none
  vprintf_from (suc n) [] list out = some out
  vprintf_from (suc n) (c ∷ rest) list out = elim (c == b'%') [
    | true ↦ (do
      (d, (rest', list')) ← read_directive rest list
      (list'', out') ← convert d list' out
      vprintf_from n rest' list'' out')
    | false ↦ display_character c out >>= λ out'. vprintf_from n rest list out'
  ]

  -- A round passes over a character at least.
  unfoldable pub vprintf : List ℕ → List (Arg D) → Option Out
  vprintf format list =
      vprintf_from (length format + 1) format list (record { shown = []; stored = []; chars = 0 })
