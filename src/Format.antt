-- ===== src/Format.antt =====
-- lib/uefi/printf.c: `vprintf`, which reads a format and the arguments of a call and shows
-- characters. An `int` is its two's complement of 32 bits; `none` is what C leaves undefined: an
-- argument that is missing or of another kind, a read past the format's terminator, an `int` that
-- overflows. The arithmetic of `double` is the processor's, so it is a parameter.
pub mod Directive
pub mod Convert
pub mod Flags
pub mod Read
pub mod Show
pub mod Number
pub mod Integer
pub mod Pieces
pub mod Fuel
pub mod Tests
use bbn_os.Base.{
  ℕ, zero, suc, ◌+◌, ◌-◌, ◌*◌, ◌/◌, ◌%◌, ◌^◌, ◌≤◌, ◌<◌, ◌≡◌, ◌≢◌, ◌⊎◌, ◌↔◌, inl, inr, refl, sym, ap,
  ◌∙◌, Bool, true, false, not, ◌&&◌, ◌||◌, Option, none, some, List, [], ◌∷◌, ◌++◌, arith, ◌==◌,
  ltb, leb, if◌then◌else◌, Bool-cases, ==_iff, ==_self, ==_ne, add64, sub64, mul64, ◌>>=◌, min,
  bit_and, bit_or, length, get_or,
}
use bbn_os.Text.{Buffer}

-- An integer or a pointer in the 8 bytes that hold it, a string in an array of `size` characters, the
-- address of an object that `%n` writes to, or a `double`.
pub data Arg (D : Type 0) : Type 0 where
  word : ℕ → Arg D
  string : (size : ℕ) → Buffer → Arg D
  place : ℕ → Arg D
  floating : D → Arg D

-- What `vprintf` does with a `double`. A conversion to an integer is undefined out of range.
pub record DoubleOps (D : Type 0) : Type 0 where
  pub at_least_ten : D → Bool
  pub div_ten : D → D
  pub mul_ten : D → D
  pub add_half : D → D
  pub sub_own_int : D → Option D
  pub to_intmax : D → Option ℕ

-- What `%n` writes: the number of bytes, and the value.
pub record Store : Type 0 where
  pub address : ℕ
  pub bytes : ℕ
  pub value : ℕ

-- The characters that went to `putchar`, the writes of `%n`, and `chars`.
pub record Out : Type 0 where
  pub shown : List ℕ
  pub stored : List Store
  pub chars : ℕ

-- An `int` that was counted up.
abbrev pub int_of : ℕ → Option ℕ
int_of n = if ltb n (2 ^ 31) then some n else none

unfoldable pub display_character : ℕ → Out → Option Out
display_character c out = do
  n ← int_of (out.chars + 1)
  some (record { shown = out.shown ++ c ∷ []; stored = out.stored; chars = n })

-- The loop of `displayString` from `i` on; `n` characters of the array are left.
unfoldable pub display_from : (n : ℕ) → Buffer → (i : ℕ) → Out → Option Out
display_from zero c i out = none
display_from (suc n) c i out = elim (c i == 0) [
  | true ↦ some out
  | false ↦ display_character (c i) out >>= λ out'. display_from n c (i + 1) out'
]

unfoldable pub display_string : (size : ℕ) → Buffer → Out → Option Out
display_string size c out = display_from size c 0 out

-- `va_arg` of an integer type or a pointer.
unfoldable pub next_word : {D : Type 0} → List (Arg D) → Option (ℕ × List (Arg D))
next_word [] = none
next_word (word n ∷ list) = some (n, list)
next_word (string size c ∷ list) = none
next_word (place a ∷ list) = none
next_word (floating x ∷ list) = none

unfoldable pub next_string : {D : Type 0} → List (Arg D) → Option ((ℕ × Buffer) × List (Arg D))
next_string [] = none
next_string (word n ∷ list) = none
next_string (string size c ∷ list) = some ((size, c), list)
next_string (place a ∷ list) = none
next_string (floating x ∷ list) = none

unfoldable pub next_place : {D : Type 0} → List (Arg D) → Option (ℕ × List (Arg D))
next_place [] = none
next_place (word n ∷ list) = none
next_place (string size c ∷ list) = none
next_place (place a ∷ list) = some (a, list)
next_place (floating x ∷ list) = none

unfoldable pub next_double : {D : Type 0} → List (Arg D) → Option (D × List (Arg D))
next_double [] = none
next_double (word n ∷ list) = none
next_double (string size c ∷ list) = none
next_double (place a ∷ list) = none
next_double (floating x ∷ list) = some (x, list)
