-- ===== src/Format/Flags.antt =====
-- The flags that `vprintf` reads.
use bbn_os.Base.{
  ℕ, ◌≡◌, refl, Bool, true, false, ◌||◌, none, some, List, [], ◌∷◌, ◌++◌, arith, ◌==◌,
}
use bbn_os.Format.Directive.{Flags, no_flags, flag, read_flags}

abbrev pub has : ℕ → List ℕ → Bool
has c [] = false
has c (x ∷ xs) = x == c || has c xs

-- The flags that the characters ask for, in whatever order.
abbrev pub asked : List ℕ → Flags
asked s = record {
  left_justify = has b'-' s;
  plus_sign = has b'+' s;
  alt_form = has b'#' s;
  space_no_sign = has b' ' s;
  zero_pad = has b'0' s;
}

abbrev pub is_flag : ℕ → Bool
is_flag c = c == b'-' || (c == b'+' || (c == b'#' || (c == b' ' || c == b'0')))

abbrev pub AllFlags : List ℕ → Type 0
AllFlags [] = Unit {0}
AllFlags (c ∷ s) = (is_flag c ≡ true) × AllFlags s

unfoldable pub joined : Flags → Flags → Flags
joined f g = record {
  left_justify = f.left_justify || g.left_justify;
  plus_sign = f.plus_sign || g.plus_sign;
  alt_form = f.alt_form || g.alt_form;
  space_no_sign = f.space_no_sign || g.space_no_sign;
  zero_pad = f.zero_pad || g.zero_pad;
}

or_false : (a : Bool) → (a || false) ≡ a
or_false true = refl
or_false false = refl

or_true : (a : Bool) → (a || true) ≡ true
or_true true = refl
or_true false = refl

or_step : (a b c : Bool) → ((a || (b || false)) || c) ≡ (a || (b || c))
or_step true b c = refl
or_step false true c = refl
or_step false false c = refl

flags_eq :
    (f g : Flags)
    → f.left_justify ≡ g.left_justify
    → f.plus_sign ≡ g.plus_sign
    → f.alt_form ≡ g.alt_form
    → f.space_no_sign ≡ g.space_no_sign
    → f.zero_pad ≡ g.zero_pad
    → f ≡ g
flags_eq f g p q r s t = λ i. record {
  left_justify = p i;
  plus_sign = q i;
  alt_form = r i;
  space_no_sign = s i;
  zero_pad = t i;
}

joined_one :
    (f : Flags) (c : ℕ) (s : List ℕ)
    → joined (joined f (asked (c ∷ []))) (asked s) ≡ joined f (asked (c ∷ s))
unfolding joined
joined_one f c s =
    flags_eq (joined (joined f (asked (c ∷ []))) (asked s)) (joined f (asked (c ∷ s)))
      (or_step f.left_justify (c == b'-') (has b'-' s))
      (or_step f.plus_sign (c == b'+') (has b'+' s)) (or_step f.alt_form (c == b'#') (has b'#' s))
      (or_step f.space_no_sign (c == b' ') (has b' ' s))
      (or_step f.zero_pad (c == b'0') (has b'0' s))

joined_none : (f : Flags) → joined f no_flags ≡ f
unfolding joined
joined_none f =
    flags_eq (joined f no_flags) f (or_false f.left_justify) (or_false f.plus_sign)
      (or_false f.alt_form) (or_false f.space_no_sign) (or_false f.zero_pad)

flag_set : (c : ℕ) (f : Flags) → is_flag c ≡ true → flag c f ≡ some (joined f (asked (c ∷ [])))
unfolding flag joined
flag_set c f h = ground (
  arith,
  or_false f.left_justify,
  or_true f.left_justify,
  or_false f.plus_sign,
  or_true f.plus_sign,
  or_false f.alt_form,
  or_true f.alt_form,
  or_false f.space_no_sign,
  or_true f.space_no_sign,
  or_false f.zero_pad,
  or_true f.zero_pad,
)

flag-none : (c : ℕ) (f : Flags) → is_flag c ≡ false → flag c f ≡ none
unfolding flag
flag-none c f h = ground arith

-- The next character is none of a flag's.
abbrev pub StopsFlags : List ℕ → Type 0
StopsFlags [] = Unit {0}
StopsFlags (c ∷ s) = is_flag c ≡ false

read_flags-stops : (f : Flags) (rest : List ℕ) → StopsFlags rest → read_flags f rest ≡ (f, rest)
unfolding read_flags
read_flags-stops f [] h = refl
read_flags-stops f (c ∷ rest) h = rw (read_flags, flag-none c f h) refl

pub read_flags-asked :
    (s rest : List ℕ) (f : Flags)
    → AllFlags s
    → StopsFlags rest
    → read_flags f (s ++ rest) ≡ (joined f (asked s), rest)
unfolding read_flags
read_flags-asked [] rest f h stops = rw (joined_none f) (read_flags-stops f rest stops)
read_flags-asked (c ∷ s) rest f (hc, h) stops =
    let next = read_flags-asked s rest (joined f (asked (c ∷ []))) h stops in
    rw (read_flags, flag_set c f hc) (rw (joined_one f c s) at next)

pub none-joined : (s : List ℕ) → joined no_flags (asked s) ≡ asked s
unfolding joined
none-joined s = refl
