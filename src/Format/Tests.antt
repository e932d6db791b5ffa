-- ===== src/Format/Tests.antt =====
-- Runs of `vprintf`, and the theorems at formats.
use bbn_os.Base.{ℕ, ◌*◌, ◌/◌, ◌≡◌, refl, true, false, some, List, [], ◌∷◌, arith, leb, ◌>>=◌}
use bbn_os.Text.{isdigit, strlen, strlen_from, strcat, strcat_from, strcpy, strcpy_from}
use bbn_os.Printf.{literal, digit_table, count_digits, write_digits, pad, justified, int_str}
use bbn_os.Printf.Number.{numeral}
use bbn_os.Printf.Value.{value}
use bbn_os.Format.{word, string, Out, DoubleOps, display_character, display_string, display_from}
use bbn_os.Format.Directive.{
  flag, read_flags, read_digits, read_star, read_number, read_precision, read_second, read_length,
  read_specifier, read_directive,
}
use bbn_os.Format.Convert.{radix_of, convert, convert_other, vprintf, vprintf_from}
use bbn_os.Format.Number.{small_hex, long_int}
use bbn_os.Format.Pieces.{Piece, plain, number, string_of, character, vprintf-pieces}
use bbn_os.Format.Fuel.{Loops, vprintf_from_ends}

-- Doubles that are whole numbers.
abbrev whole : DoubleOps ℕ
whole = record {
  at_least_ten = λ x. leb 10 x;
  div_ten = λ x. x / 10;
  mul_ten = λ x. x * 10;
  add_half = λ x. x;
  sub_own_int = λ x. some 0;
  to_intmax = λ x. some x;
}

abbrev start : Out
start = record { shown = []; stored = []; chars = 0 }

-- "a%#06lx:%s%c"
abbrev four : List Piece
four =
    plain b'a'
    ∷ number small_hex long_int (b'#' ∷ b'0' ∷ []) (6 ∷ []) 0x2f
    ∷ plain b':'
    ∷ string_of 3 (literal (b'o' ∷ b'k' ∷ [])) (b'o' ∷ b'k' ∷ [])
    ∷ character b'!'
    ∷ []

vprintf-pieces_example :
    vprintf whole
      (b'a' ∷ b'%' ∷ b'#' ∷ b'0' ∷ b'6' ∷ b'l' ∷ b'x' ∷ b':' ∷ b'%' ∷ b's' ∷ b'%' ∷ b'c' ∷ [])
      (word 0x2f ∷ string 3 (literal (b'o' ∷ b'k' ∷ [])) ∷ word b'!' ∷ [])
    ≡ some (record {
      shown =
          b'a' ∷ b'0' ∷ b'x' ∷ b'0' ∷ b'0' ∷ b'0' ∷ b'0' ∷ b'2' ∷ b'f' ∷ b':' ∷ b'o' ∷ b'k' ∷ b'!'
          ∷ [];
      stored = [];
      chars = 13;
    })
unfolding numeral value
vprintf-pieces_example =
    vprintf-pieces whole four
      (
        refl,
        (
          ((refl, (refl, tt)), (((omega arith, tt), (omega arith, omega arith)), omega arith)),
          (refl, (((refl, omega arith, (refl, omega arith, refl)), omega arith), (tt, tt))),
        ),
      )
      (omega arith)

-- "%d"
vprintf_from_ends_example :
    Loops whole
      (b'%' ∷ b'd' ∷ [])
      (word 7 ∷ [])
      start
      (vprintf_from whole 3 (b'%' ∷ b'd' ∷ []) (word 7 ∷ []) start)
vprintf_from_ends_example =
    vprintf_from_ends whole 3 (b'%' ∷ b'd' ∷ []) (word 7 ∷ []) start (omega arith)

-- `%hhd` shows the letter `d`.
second_h :
    vprintf whole (b'%' ∷ b'h' ∷ b'h' ∷ b'd' ∷ []) (word 7 ∷ [])
    ≡ some (record { shown = b'd' ∷ []; stored = []; chars = 1 })
unfolding vprintf vprintf_from read_directive read_flags flag read_number read_digits read_star
    read_precision read_length read_second read_specifier convert convert_other radix_of
    display_character isdigit display_string display_from
second_h = refl

-- The exponent of `%e`, in a buffer that holds other digits.
leftover :
    (int_str 0 (literal (b'5' ∷ b'0' ∷ b'0' ∷ b'0' ∷ b'0' ∷ b'0' ∷ [])) 10 false false 2 false true
      >>= strlen 256)
    ≡ some 6
unfolding int_str digit_table count_digits write_digits justified pad strlen strlen_from strcat
    strcat_from strcpy strcpy_from
leftover = refl
