-- ===== src/Format/Integer.antt =====
-- The integer conversions of `vprintf`: their run.
use bbn_os.Base.{
  ℕ, ◌-◌, ◌%◌, ◌^◌, ◌≡◌, ◌≢◌, refl, sym, ap, ◌∙◌, Option, some, List, [], ◌∷◌, arith, ◌>>=◌, length,
}
use bbn_os.Printf.Value.{value}
use bbn_os.Printf.Padding.{with_padding}
use bbn_os.Printf.IntStr.{signed_digits}
use bbn_os.Format.{Arg, word, DoubleOps, Out}
use bbn_os.Base.{length-append}
use bbn_os.Format.Convert.{
  radix_of, unsigned_value, signed_value, show_integer, show_literal, convert_other, convert,
}
use bbn_os.Format.Flags.{asked}
use bbn_os.Format.Read.{directive_of, modifier_of}
use bbn_os.Format.Show.{
  showing, Fits, showing_more, showing_none, show_literal_lem, show_integer_lem,
}
use bbn_os.Format.Number.{
  Kind, signed, integer, unsigned, octal, small_hex, big_hex, pointer, Size, size_text, size_int,
  low, signed_low, number_of, base_of, prefix_of, conversion_of, shown_number, IsWidth,
  prefix-HasNoZero, kind-IsBase, number_small, unsigned_value_lem, signed_value_lem,
}

-- The part of `convert` behind the radix, for a value function that knows the length.
shown_behind :
    {D : Type 0} (read_value : ℕ → ℕ → Option ℕ) (modifier zero_value n : ℕ) (k : Kind)
    (size : Size) (flags width : List ℕ) (list : List (Arg D)) (out : Out)
    → read_value modifier 0 ≡ some zero_value
    → read_value modifier n ≡ some (number_of k size n)
    → IsWidth width
    → number_of k size n ≢ 2 ^ 63
    → Fits (shown_number k size flags width n) out
    → let d = directive_of (conversion_of k size flags width) in
      (do
        out' ← show_literal (prefix_of k d.flags.alt_form) out
        show_integer read_value modifier (base_of k) d (word n ∷ list) out')
      ≡ some (list, showing (shown_number k size flags width n) out)
shown_behind read_value modifier zero_value n k size flags width list out known is_i
      (digits, (nz, narrow)) regular fits =
    let f = asked flags in
    let d = directive_of (conversion_of k size flags width) in
    let prefix = prefix_of k f.alt_form in
    let s = signed_digits (number_of k size n) (base_of k) f.plus_sign f.space_no_sign in
    let t = with_padding f.left_justify f.zero_pad (value 10 0 width - length s) s in
    let sum = length-append prefix t in
    rw
      (
        show_literal_lem prefix out (prefix-HasNoZero k f.alt_form) (omega arith),
        show_integer_lem read_value modifier n zero_value (number_of k size n) (base_of k) d list
            (showing prefix out) known is_i (number_small k size n) regular (kind-IsBase k) narrow
            (omega arith),
        showing_more prefix t out,
      )
      refl

-- A signed conversion shows no prefix.
nothing_first :
    {A : Type 0} (out : Out) (f : Out → Option A)
    → Fits [] out
    → (show_literal [] out >>= f) ≡ f out
nothing_first out f fits = rw (show_literal_lem [] out tt fits, showing_none out) refl

-- The unsigned conversions, without `p`.
unsigned_behind :
    {D : Type 0} (k : Kind) (size : Size) (flags width : List ℕ) (n : ℕ) (list : List (Arg D))
    (out : Out)
    → number_of k size n ≡ low size n
    → IsWidth width
    → number_of k size n ≢ 2 ^ 63
    → Fits (shown_number k size flags width n) out
    → let d = directive_of (conversion_of k size flags width) in
      (do
        out' ← show_literal (prefix_of k d.flags.alt_form) out
        show_integer unsigned_value d.length (base_of k) d (word n ∷ list) out')
      ≡ some (list, showing (shown_number k size flags width n) out)
unsigned_behind k size flags width n list out same narrow regular fits =
    shown_behind unsigned_value (modifier_of (size_text size)) (low size 0) n k size flags width
      list out (unsigned_value_lem size 0) (unsigned_value_lem size n ∙ ap (λ i. some i) (sym same))
      narrow regular fits

-- The signed conversions, which have no prefix.
signed_behind :
    {D : Type 0} (k : Kind) (size : Size) (flags width : List ℕ) (n : ℕ) (list : List (Arg D))
    (out : Out)
    → number_of k size n ≡ signed_low size n
    → prefix_of k (asked flags).alt_form ≡ []
    → IsWidth width
    → number_of k size n ≢ 2 ^ 63
    → Fits (shown_number k size flags width n) out
    → let d = directive_of (conversion_of k size flags width) in
      show_integer signed_value d.length (base_of k) d (word n ∷ list) out
      ≡ some (list, showing (shown_number k size flags width n) out)
signed_behind k size flags width n list out same no_prefix narrow regular fits =
    let d = directive_of (conversion_of k size flags width) in
    let shown =
      shown_behind signed_value (modifier_of (size_text size)) (signed_low size 0) n k size flags
        width list out (signed_value_lem size 0)
        (signed_value_lem size n ∙ ap (λ i. some i) (sym same)) narrow regular fits in
    sym (
      nothing_first out (λ o. show_integer signed_value d.length (base_of k) d (word n ∷ list) o)
        (omega arith))
    ∙ ap
        (λ s. show_literal s out >>= λ o.
          show_integer signed_value d.length (base_of k) d (word n ∷ list) o)
        (sym no_prefix)
    ∙ shown

module _ {D : Type 0} (ops : DoubleOps D) where
  -- An integer conversion takes one argument and shows its number.
  pub convert_number :
      (k : Kind) (size : Size) (flags width : List ℕ) (n : ℕ) (list : List (Arg D)) (out : Out)
      → IsWidth width
      → number_of k size n ≢ 2 ^ 63
      → Fits (shown_number k size flags width n) out
      → convert ops (directive_of (conversion_of k size flags width)) (word n ∷ list) out
        ≡ some (list, showing (shown_number k size flags width n) out)
  unfolding convert convert_other radix_of
  convert_number signed size flags width n list out narrow regular fits =
      signed_behind signed size flags width n list out refl refl narrow regular fits
  convert_number integer size flags width n list out narrow regular fits =
      signed_behind integer size flags width n list out refl refl narrow regular fits
  convert_number unsigned size flags width n list out narrow regular fits =
      unsigned_behind unsigned size flags width n list out refl narrow regular fits
  convert_number octal size flags width n list out narrow regular fits =
      unsigned_behind octal size flags width n list out refl narrow regular fits
  convert_number small_hex size flags width n list out narrow regular fits =
      unsigned_behind small_hex size flags width n list out refl narrow regular fits
  convert_number big_hex size flags width n list out narrow regular fits =
      unsigned_behind big_hex size flags width n list out refl narrow regular fits
  convert_number pointer size flags width n list out narrow regular fits =
      shown_behind unsigned_value b'z' (0 % 2 ^ 64) n pointer size flags width list out
        (unsigned_value_lem size_int 0) (unsigned_value_lem size_int n) narrow regular fits
