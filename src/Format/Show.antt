-- ===== src/Format/Show.antt =====
-- What the conversions of integers, strings and characters show.
use bbn_os.Base.{
  ℕ, zero, suc, ◌+◌, ◌-◌, ◌^◌, ◌<◌, ◌≡◌, ◌≢◌, refl, true, false, Option, some, List, [], ◌∷◌, ◌++◌,
  arith, ◌==◌, ltb, length,
}
use mathlib.Core.List.{append_assoc, append-nil}
use bbn_os.Base.{length-append}
use bbn_os.Text.{Buffer}
use bbn_os.Text.Laws.{text, HasNoZero, Reads, text-Reads}
use bbn_os.Printf.Padding.{with_padding, with_padding-clean}
use bbn_os.Printf.IntStr.{IsBase, signed_digits, signed_digits-clean, int_str-text}
use bbn_os.Format.{
  Arg, word, Store, Out, display_character, display_from, display_string, next_word,
}
use bbn_os.Format.Directive.{Directive}
use bbn_os.Format.Convert.{show_number, show_integer, show_literal}

-- `out` with the characters `s` behind it.
abbrev pub showing : List ℕ → Out → Out
showing s out = record { shown = out.shown ++ s; stored = out.stored; chars = out.chars + length s }

-- The characters still fit an `int`.
abbrev pub Fits : List ℕ → Out → Type 0
Fits s out = out.chars + length s < 2 ^ 31

pub out_eq :
    (s t : List ℕ) (st : List Store) (m n : ℕ)
    → s ≡ t
    → m ≡ n
    → ◌≡◌ {A = Out}
        (record { shown = s; stored = st; chars = m })
        (record { shown = t; stored = st; chars = n })
out_eq s t st m n p q = λ i. record { shown = p i; stored = st; chars = q i }

pub display_character_lem :
    (c : ℕ) (out : Out) → Fits (c ∷ []) out → display_character c out ≡ some (showing (c ∷ []) out)
unfolding display_character
display_character_lem c out h =
    let fits : ltb (out.chars + 1) (2 ^ 31) ≡ true = ground arith in
    rw (display_character, fits) refl

pub showing_more : (s t : List ℕ) (out : Out) → showing t (showing s out) ≡ showing (s ++ t) out
showing_more s t out =
    out_eq ((out.shown ++ s) ++ t) (out.shown ++ (s ++ t)) out.stored
      (out.chars + length s + length t) (out.chars + length (s ++ t)) (append_assoc out.shown s t)
      (omega (arith, length-append s t))

pub showing_none : (out : Out) → showing [] out ≡ out
showing_none out =
    out_eq (out.shown ++ []) out.shown out.stored (out.chars + 0) out.chars (append-nil out.shown)
      (omega arith)

display_from-Reads :
    (n : ℕ) (b : Buffer) (i : ℕ) (s : List ℕ) (out : Out)
    → Reads b i s
    → length s < n
    → Fits s out
    → display_from n b i out ≡ some (showing s out)
unfolding display_from
display_from-Reads zero b i s out r h fits = absurd (omega arith)
display_from-Reads (suc n) b i [] out r h fits =
    let end : (b i == 0) ≡ true = ground arith in rw (display_from, end, showing_none out) refl
display_from-Reads (suc n) b i (c ∷ s) out (e, ne, r) h fits =
    let more : (b i == 0) ≡ false = ground arith in
    let next =
      display_from-Reads n b (i + 1) s (showing (c ∷ []) out) r (omega arith) (omega arith) in
    rw (display_from, more, e, display_character_lem c out (omega arith))
      (rw (showing_more (c ∷ []) s out) at next)

pub display_string-Reads :
    (size : ℕ) (b : Buffer) (s : List ℕ) (out : Out)
    → Reads b 0 s
    → length s < size
    → Fits s out
    → display_string size b out ≡ some (showing s out)
unfolding display_string
display_string-Reads size b s out r h fits = display_from-Reads size b 0 s out r h fits

pub show_literal_lem :
    (s : List ℕ) (out : Out) → HasNoZero s → Fits s out → show_literal s out ≡ some (showing s out)
show_literal_lem s out h fits =
    display_string-Reads (length s + 1) (text s) s out (text-Reads s h) (omega arith) fits

-- `__int_str` and `displayString` for a width below 256.
show_number_lem :
    (i base : ℕ) (d : Directive) (out : Out)
    → i < 2 ^ 64
    → i ≢ 2 ^ 63
    → IsBase base
    → d.length_spec < 256
    → let s = signed_digits i base d.flags.plus_sign d.flags.space_no_sign in
      let t = with_padding d.flags.left_justify d.flags.zero_pad (d.length_spec - length s) s in
      Fits t out → show_number i base d out ≡ some (showing t out)
unfolding show_number
show_number_lem i base d out small regular known narrow fits =
    let f = d.flags in
    let s = signed_digits i base f.plus_sign f.space_no_sign in
    let k = d.length_spec - length s in
    let (s_ok, few) = signed_digits-clean i base f.plus_sign f.space_no_sign known in
    let (t_ok, wide) = with_padding-clean f.left_justify f.zero_pad k s s_ok in
    let t = with_padding f.left_justify f.zero_pad k s in
    let (done, _) =
      int_str-text i base d.length_spec f.plus_sign f.space_no_sign f.left_justify f.zero_pad small
        regular known narrow in
    rw (show_number, done)
      (display_string-Reads 256 (text t) t out (text-Reads t t_ok) (omega arith) fits)

pub show_integer_lem :
    {D : Type 0} (read_value : ℕ → ℕ → Option ℕ) (modifier n zero_value i base : ℕ) (d : Directive)
    (list : List (Arg D)) (out : Out)
    → read_value modifier 0 ≡ some zero_value
    → read_value modifier n ≡ some i
    → i < 2 ^ 64
    → i ≢ 2 ^ 63
    → IsBase base
    → d.length_spec < 256
    → let s = signed_digits i base d.flags.plus_sign d.flags.space_no_sign in
      let t = with_padding d.flags.left_justify d.flags.zero_pad (d.length_spec - length s) s in
      Fits t out
      → show_integer read_value modifier base d (word n ∷ list) out ≡ some (list, showing t out)
unfolding show_integer next_word
show_integer_lem read_value modifier n zero_value i base d list out known_length is_i small regular
      known narrow fits =
    rw
      (
        show_integer,
        known_length,
        is_i,
        show_number_lem i base d out small regular known narrow fits,
      )
      refl
