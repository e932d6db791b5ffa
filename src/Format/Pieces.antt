-- ===== src/Format/Pieces.antt =====
-- `vprintf` on formats that are put together of plain characters and conversions.
use bbn_os.Base.{
  ℕ, zero, suc, ◌+◌, ◌%◌, ◌^◌, ◌≤◌, ◌<◌, ◌≡◌, ◌≢◌, refl, sym, ap, ◌∙◌, false, some, List, [], ◌∷◌,
  ◌++◌, arith, ◌==◌, length,
}
use bbn_os.Base.{length-append}
use bbn_os.Text.{Buffer}
use bbn_os.Text.Laws.{Reads}
use bbn_os.Format.{Arg, word, string, Out, DoubleOps, next_word, next_string}
use bbn_os.Format.Directive.{is_length}
use bbn_os.Printf.{decimal_digits}
use bbn_os.Printf.Write.{spell}
use bbn_os.Printf.Value.{value}
use bbn_os.Format.Convert.{radix_of, show_char, convert_other, convert, vprintf_from, vprintf}
use bbn_os.Format.Flags.{AllFlags}
use bbn_os.Format.Read.{Conversion, IsConversion, written, directive_of, read_directive-written}
use bbn_os.Format.Number.{
  Kind, Size, conversion_of, number_of, shown_number, IsWidth, kind-IsConversion,
}
use bbn_os.Format.Integer.{convert_number}
use bbn_os.Format.Show.{
  showing, Fits, showing_more, showing_none, out_eq, display_character_lem, display_string-Reads,
}

-- A character, an integer conversion and its argument, `%s` and its string (which `b` holds, in an
-- array of `size` characters), or `%c` and its argument.
pub data Piece : Type 0 where
  plain : ℕ → Piece
  number : (k : Kind) (size : Size) (flags width : List ℕ) (n : ℕ) → Piece
  string_of : (size : ℕ) (b : Buffer) (s : List ℕ) → Piece
  character : ℕ → Piece

-- A conversion of a letter alone.
abbrev bare : ℕ → Conversion
bare c = record { flags = []; width = []; modifier = []; specifier = c }

abbrev pub written_piece : Piece → List ℕ → List ℕ
written_piece (plain c) rest = c ∷ rest
written_piece (number k size flags width n) rest =
    b'%' ∷ written (conversion_of k size flags width) rest
written_piece (string_of size b s) rest = b'%' ∷ written (bare b's') rest
written_piece (character n) rest = b'%' ∷ written (bare b'c') rest

abbrev pub with_argument : {D : Type 0} → Piece → List (Arg D) → List (Arg D)
with_argument (plain c) list = list
with_argument (number k size flags width n) list = word n ∷ list
with_argument (string_of size b s) list = string size b ∷ list
with_argument (character n) list = word n ∷ list

abbrev pub shown_piece : Piece → List ℕ
shown_piece (plain c) = c ∷ []
shown_piece (number k size flags width n) = shown_number k size flags width n
shown_piece (string_of size b s) = s
shown_piece (character n) = n % 2 ^ 8 ∷ []

abbrev pub IsPiece : Piece → Type 0
IsPiece (plain c) = (c == b'%') ≡ false
IsPiece (number k size flags width n) =
    AllFlags flags × (IsWidth width × (number_of k size n ≢ 2 ^ 63))
IsPiece (string_of size b s) = Reads b 0 s × (length s < size)
IsPiece (character n) = Unit {0}

abbrev pub format_of : List Piece → List ℕ
format_of [] = []
format_of (p ∷ ps) = written_piece p (format_of ps)

abbrev pub arguments_of : {D : Type 0} → List Piece → List (Arg D)
arguments_of [] = []
arguments_of (p ∷ ps) = with_argument p (arguments_of ps)

abbrev pub shown_of : List Piece → List ℕ
shown_of [] = []
shown_of (p ∷ ps) = shown_piece p ++ shown_of ps

abbrev pub AllPieces : List Piece → Type 0
AllPieces [] = Unit {0}
AllPieces (p ∷ ps) = IsPiece p × AllPieces ps

bare-IsConversion : (c : ℕ) → 65 ≤ c → is_length c ≡ false → IsConversion (bare c)
unfolding value
bare-IsConversion c h e = (tt, (tt, (tt, (omega arith, (tt, (h, e))))))

written_longer : (cv : Conversion) (rest : List ℕ) → length rest < length (written cv rest)
written_longer cv rest = omega (
  arith,
  length-append cv.flags (spell decimal_digits cv.width ++ (cv.modifier ++ cv.specifier ∷ rest)),
  length-append (spell decimal_digits cv.width) (cv.modifier ++ cv.specifier ∷ rest),
  length-append cv.modifier (cv.specifier ∷ rest),
)

piece_longer : (p : Piece) (rest : List ℕ) → length rest < length (written_piece p rest)
piece_longer (plain c) rest = omega arith
piece_longer (number k size flags width n) rest =
    omega (arith, written_longer (conversion_of k size flags width) rest)
piece_longer (string_of size b s) rest = omega arith
piece_longer (character n) rest = omega arith

module _ {D : Type 0} (ops : DoubleOps D) where
  -- The round of the loop for a conversion that was read and run.
  conversion_round :
      (n : ℕ) (cv : Conversion) (rest : List ℕ) (list list' : List (Arg D)) (out out' : Out)
      → IsConversion cv
      → convert ops (directive_of cv) list out ≡ some (list', out')
      → vprintf_from ops (suc n) (b'%' ∷ written cv rest) list out
        ≡ vprintf_from ops n rest list' out'
  unfolding vprintf_from
  conversion_round n cv rest list list' out out' ok run =
      rw (read_directive-written cv rest list ok, run) refl

  convert-string :
      (size : ℕ) (b : Buffer) (s : List ℕ) (list : List (Arg D)) (out : Out)
      → Reads b 0 s
      → length s < size
      → Fits s out
      → convert ops (directive_of (bare b's')) (string size b ∷ list) out
        ≡ some (list, showing s out)
  unfolding convert convert_other radix_of next_string
  convert-string size b s list out r small fits =
      rw (display_string-Reads size b s out r small fits) refl

  convert-char :
      (c : ℕ) (list : List (Arg D)) (out : Out)
      → Fits (c % 2 ^ 8 ∷ []) out
      → convert ops (directive_of (bare b'c')) (word c ∷ list) out
        ≡ some (list, showing (c % 2 ^ 8 ∷ []) out)
  unfolding convert convert_other radix_of show_char next_word
  convert-char c list out fits = rw (display_character_lem (c % 2 ^ 8) out fits) refl

  piece_round :
      (n : ℕ) (p : Piece) (rest : List ℕ) (list : List (Arg D)) (out : Out)
      → IsPiece p
      → Fits (shown_piece p) out
      → vprintf_from ops (suc n) (written_piece p rest) (with_argument p list) out
        ≡ vprintf_from ops n rest list (showing (shown_piece p) out)
  unfolding vprintf_from
  piece_round n (plain c) rest list out ok fits =
      rw (vprintf_from, ok, display_character_lem c out fits) refl
  piece_round n (number k size flags width x) rest list out (hf, (hw, regular)) fits =
      conversion_round n (conversion_of k size flags width) rest (word x ∷ list) list out
        (showing (shown_number k size flags width x) out)
        (kind-IsConversion k size flags width hf hw)
        (convert_number ops k size flags width x list out hw regular fits)
  piece_round n (string_of size b s) rest list out (r, small) fits =
      conversion_round n (bare b's') rest (string size b ∷ list) list out (showing s out)
        (bare-IsConversion b's' (omega arith) refl) (convert-string size b s list out r small fits)
  piece_round n (character c) rest list out ok fits =
      conversion_round n (bare b'c') rest (word c ∷ list) list out (showing (c % 2 ^ 8 ∷ []) out)
        (bare-IsConversion b'c' (omega arith) refl) (convert-char c list out fits)

  pieces_run :
      (n : ℕ) (ps : List Piece) (out : Out)
      → AllPieces ps
      → Fits (shown_of ps) out
      → length (format_of ps) < n
      → vprintf_from ops n (format_of ps) (arguments_of ps) out ≡ some (showing (shown_of ps) out)
  unfolding vprintf_from
  pieces_run zero ps out ok fits h = absurd (omega arith)
  pieces_run (suc n) [] out ok fits h = ap (λ o. some o) (sym (showing_none out))
  pieces_run (suc n) (p ∷ ps) out (hp, ok) fits h =
      let sum = length-append (shown_piece p) (shown_of ps) in
      let next =
        pieces_run n ps (showing (shown_piece p) out) ok (omega arith)
          (omega (arith, piece_longer p (format_of ps))) in
      piece_round n p (format_of ps) (arguments_of ps) out hp (omega arith)
      ∙ next
      ∙ ap (λ o. some o) (showing_more (shown_piece p) (shown_of ps) out)

  -- A format of plain characters other than `%`, integer conversions with their flags, width and
  -- length modifier, `%s` and `%c`, with one argument for each conversion, shows what its pieces show,
  -- one behind the other, and `chars` is their number. The width is below 256, no number is the least
  -- one of 64 bits, a string ends within its array, and less than 2^31 characters are shown.
  pub vprintf-pieces :
      (ps : List Piece)
      → AllPieces ps
      → length (shown_of ps) < 2 ^ 31
      → vprintf ops (format_of ps) (arguments_of ps)
        ≡ some (record { shown = shown_of ps; stored = []; chars = length (shown_of ps) })
  unfolding vprintf
  vprintf-pieces ps ok fits =
      pieces_run (length (format_of ps) + 1) ps (record { shown = []; stored = []; chars = 0 }) ok
        (omega arith) (omega arith)
      ∙ ap (λ o. some o)
          (out_eq (shown_of ps) (shown_of ps) [] (0 + length (shown_of ps)) (length (shown_of ps))
            refl (omega arith))
