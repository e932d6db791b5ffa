-- ===== src/Format/Read.antt =====
-- What `vprintf` reads from a conversion as it is written.
use bbn_os.Base.{
  ℕ, zero, suc, ◌+◌, ◌-◌, ◌*◌, ◌^◌, ◌≤◌, ◌<◌, ◌≡◌, ◌≢◌, refl, true, false, some, List, [], ◌∷◌,
  ◌++◌, arith, ltb,
}
use bbn_os.Text.{isdigit}
use bbn_os.Text.Laws.{text}
use bbn_os.Printf.{decimal_digits}
use bbn_os.Printf.Value.{value, AllBelow}
use bbn_os.Printf.Write.{spell}
use bbn_os.Format.{Arg}
use bbn_os.Format.Flags.{asked, AllFlags, StopsFlags, read_flags-asked, none-joined}
use bbn_os.Format.Directive.{
  no_flags, Directive, read_digits, read_star, read_number, read_precision, is_length, read_second,
  read_length, read_specifier, read_directive,
}

-- A conversion without its `%`: characters of flags, the digits of a width, a length modifier of one
-- character or none, and a specifier.
pub record Conversion : Type 0 where
  pub flags : List ℕ
  pub width : List ℕ
  pub modifier : List ℕ
  pub specifier : ℕ

abbrev pub written : Conversion → List ℕ → List ℕ
written cv rest =
    cv.flags ++ (spell decimal_digits cv.width ++ (cv.modifier ++ cv.specifier ∷ rest))

abbrev pub NoLeadingZero : List ℕ → Type 0
NoLeadingZero [] = Unit {0}
NoLeadingZero (d ∷ ds) = d ≢ 0

abbrev pub IsModifier : List ℕ → Type 0
IsModifier [] = Unit {0}
IsModifier (c ∷ []) = is_length c ≡ true
IsModifier (c ∷ d ∷ s) = ⊥

-- The width is below 256, and the specifier any character from `A` on that is no length modifier.
abbrev pub IsConversion : Conversion → Type 0
IsConversion cv =
    AllFlags cv.flags
    × (AllBelow 10 cv.width
        × (NoLeadingZero cv.width
            × ((value 10 0 cv.width < 256)
                × (IsModifier cv.modifier
                    × ((65 ≤ cv.specifier) × (is_length cv.specifier ≡ false))))))

-- The next character is a letter, or any other from `A` on.
abbrev StopsAll : List ℕ → Type 0
StopsAll [] = ⊥
StopsAll (c ∷ s) = 65 ≤ c

digit_char : (d : ℕ) → d < 10 → text decimal_digits d ≡ 48 + d
digit_char zero h = refl
digit_char (suc zero) h = refl
digit_char (suc (suc zero)) h = refl
digit_char (suc (suc (suc zero))) h = refl
digit_char (suc (suc (suc (suc zero)))) h = refl
digit_char (suc (suc (suc (suc (suc zero))))) h = refl
digit_char (suc (suc (suc (suc (suc (suc zero)))))) h = refl
digit_char (suc (suc (suc (suc (suc (suc (suc zero))))))) h = refl
digit_char (suc (suc (suc (suc (suc (suc (suc (suc zero)))))))) h = refl
digit_char (suc (suc (suc (suc (suc (suc (suc (suc (suc zero))))))))) h = refl
digit_char (suc (suc (suc (suc (suc (suc (suc (suc (suc (suc d)))))))))) h = absurd (omega arith)

digit_char-isdigit : (d : ℕ) → d < 10 → isdigit (text decimal_digits d) ≡ true
unfolding isdigit
digit_char-isdigit d h = ground (arith, digit_char d h)

value_grows : (n : ℕ) (ds : List ℕ) → n ≤ value 10 n ds
unfolding value
value_grows n [] = omega arith
value_grows n (d ∷ ds) = omega (arith, value_grows (n * 10 + d) ds)

read_digits-stops : (n : ℕ) (rest : List ℕ) → StopsAll rest → read_digits n rest ≡ some (n, rest)
unfolding read_digits isdigit
read_digits-stops n [] h = refl
read_digits-stops n (c ∷ rest) h =
    let other : isdigit c ≡ false = ground arith in rw (read_digits, other) refl

read_digits-spell :
    (ds : List ℕ) (n : ℕ) (rest : List ℕ)
    → AllBelow 10 ds
    → value 10 n ds < 2 ^ 31
    → StopsAll rest
    → read_digits n (spell decimal_digits ds ++ rest) ≡ some (value 10 n ds, rest)
unfolding read_digits value
read_digits-spell [] n rest h small stops = read_digits-stops n rest stops
read_digits-spell (d ∷ ds) n rest (hd, h) small stops =
    let next = read_digits-spell ds (n * 10 + d) rest h small stops in
    let fits : ltb (n * 10 + d) (2 ^ 31) ≡ true = ground (arith, value_grows (n * 10 + d) ds) in
    let same : n * 10 + (text decimal_digits d - 48) ≡ n * 10 + d =
      omega (arith, digit_char d hd) in
    rw (read_digits, digit_char-isdigit d hd, same, fits) next

star-stops :
    {D : Type 0} (n : ℕ) (rest : List ℕ) (list : List (Arg D))
    → StopsAll rest
    → read_star n rest list ≡ some (n, (rest, list))
unfolding read_star
star-stops n [] list h = refl
star-stops n (c ∷ rest) list h = ground arith

precision-stops :
    {D : Type 0} (rest : List ℕ) (list : List (Arg D))
    → StopsAll rest
    → read_precision rest list ≡ some (6, (rest, list))
unfolding read_precision
precision-stops [] list h = refl
precision-stops (c ∷ rest) list h = ground arith

abbrev pub modifier_of : List ℕ → ℕ
modifier_of [] = 0
modifier_of (c ∷ s) = c

length-modifier :
    (m : List ℕ) (c : ℕ) (rest : List ℕ)
    → IsModifier m
    → is_length c ≡ false
    → read_length (m ++ c ∷ rest) ≡ (modifier_of m, c ∷ rest)
unfolding read_length read_second
length-modifier [] c rest h hc = ground arith
length-modifier (x ∷ []) c rest h hc = ground arith
length-modifier (x ∷ y ∷ m) c rest h hc = absurd h

modifier-StopsAll :
    (m : List ℕ) (c : ℕ) (rest : List ℕ) → IsModifier m → 65 ≤ c → StopsAll (m ++ c ∷ rest)
modifier-StopsAll [] c rest h hc = hc
modifier-StopsAll (x ∷ []) c rest h hc = ground arith
modifier-StopsAll (x ∷ y ∷ m) c rest h hc = absurd h

width-StopsFlags :
    (ds rest : List ℕ)
    → AllBelow 10 ds
    → NoLeadingZero ds
    → StopsAll rest
    → StopsFlags (spell decimal_digits ds ++ rest)
width-StopsFlags [] [] h nz stops = tt
width-StopsFlags [] (c ∷ rest) h nz stops = ground arith
width-StopsFlags (d ∷ ds) rest (hd, h) nz stops = ground (arith, digit_char d hd)

-- The directive that a conversion stands for.
abbrev pub directive_of : Conversion → Directive
directive_of cv = record {
  flags = asked cv.flags;
  length_spec = value 10 0 cv.width;
  prec_spec = 6;
  length = modifier_of cv.modifier;
  specifier = cv.specifier;
}

-- A conversion that is written out is read again, with the flags in any order.
pub read_directive-written :
    {D : Type 0} (cv : Conversion) (rest : List ℕ) (list : List (Arg D))
    → IsConversion cv
    → read_directive (written cv rest) list ≡ some (directive_of cv, (rest, list))
unfolding read_directive read_number read_specifier
read_directive-written cv rest list (hf, (hw, (nz, (small, (hm, (hc, hl)))))) =
    let tail = cv.modifier ++ cv.specifier ∷ rest in
    let stops = modifier-StopsAll cv.modifier cv.specifier rest hm hc in
    let flags_read =
      read_flags-asked cv.flags (spell decimal_digits cv.width ++ tail) no_flags hf
        (width-StopsFlags cv.width tail hw nz stops) in
    rw
      (
        read_directive,
        flags_read,
        none-joined cv.flags,
        read_digits-spell cv.width 0 tail hw (omega arith) stops,
        star-stops (value 10 0 cv.width) tail list stops,
        precision-stops tail list stops,
        length-modifier cv.modifier cv.specifier rest hm hl,
      )
      refl
