-- ===== src/Printf/Padding.antt =====
-- The padding of a number to its width, on texts.
use bbn_os.Base.{
  ℕ, zero, suc, ◌+◌, ◌<◌, ◌≡◌, ◌≢◌, sym, ap, Bool, true, false, some, List, [], ◌∷◌, ◌++◌, arith,
  if◌then◌else◌, length,
}
use mathlib.Core.List.{append_assoc, append-nil}
use bbn_os.Base.{length-append}
use bbn_os.Text.Laws.{
  text, HasNoZero, HasNoZero-append, text-Reads, put_behind, strlen-text, strcat-text, strcpy-text,
}
use bbn_os.Printf.{pad, justified}
use bbn_os.Printf.Write.{repeat, repeat-length}

repeat-HasNoZero : (k c : ℕ) → c ≢ 0 → HasNoZero (repeat k c)
repeat-HasNoZero zero c h = tt
repeat-HasNoZero (suc k) c h = (h, repeat-HasNoZero k c h)

pub pad-text :
    (k c : ℕ) (s : List ℕ)
    → HasNoZero s
    → c ≢ 0
    → length s + k < 256
    → pad k c (text s) ≡ some (text (s ++ repeat k c))
unfolding pad
pad-text zero c s h hc fits = ap (λ t. some (text t)) (sym (append-nil s))
pad-text (suc k) c s h hc fits =
    let next =
      pad-text k c (s ++ c ∷ []) (HasNoZero-append s (c ∷ []) h (hc, tt)) hc
        (omega (arith, length-append s (c ∷ []))) in
    rw (pad, strlen-text 256 s h (omega arith), put_behind s c)
      (rw (append_assoc s (c ∷ []) (repeat k c)) at next)

abbrev pub filler : Bool → ℕ
filler zero_pad = if zero_pad then b'0' else b' '

-- The text `s` with `k` characters of padding.
abbrev pub with_padding : (justify zero_pad : Bool) (k : ℕ) → List ℕ → List ℕ
with_padding justify zero_pad k s =
    if justify then s ++ repeat k (filler zero_pad) else repeat k (filler zero_pad) ++ s

filler_ne : (zero_pad : Bool) → filler zero_pad ≢ 0
filler_ne zero_pad = ground arith

pub justified-text :
    (justify zero_pad : Bool) (k : ℕ) (s : List ℕ)
    → HasNoZero s
    → length s + k < 256
    → justified justify zero_pad k (text s) ≡ some (text (with_padding justify zero_pad k s))
unfolding justified
justified-text true zero_pad k s h fits = pad-text k (filler zero_pad) s h (filler_ne zero_pad) fits
justified-text false zero_pad k s h fits =
    let c = filler zero_pad in
    let blanks = repeat-HasNoZero k c (filler_ne zero_pad) in
    let width = repeat-length k c in
    let sum = length-append (repeat k c) s in
    rw
      (
        pad-text k c [] tt (filler_ne zero_pad) (omega arith),
        strcat-text 256 (text s) s (repeat k c) (text-Reads s h) blanks (omega arith),
      )
      (strcpy-text 256 (text (repeat k c ++ s)) (repeat k c ++ s) s
        (text-Reads (repeat k c ++ s) (HasNoZero-append (repeat k c) s blanks h)) (omega arith)
        (omega arith))

-- The padding is no terminator either.
pub with_padding-clean :
    (justify zero_pad : Bool) (k : ℕ) (s : List ℕ)
    → HasNoZero s
    → let t = with_padding justify zero_pad k s in HasNoZero t × (length t ≡ length s + k)
with_padding-clean true zero_pad k s h =
    let c = filler zero_pad in
    (
      HasNoZero-append s (repeat k c) h (repeat-HasNoZero k c (filler_ne zero_pad)),
      omega (arith, length-append s (repeat k c), repeat-length k c),
    )
with_padding-clean false zero_pad k s h =
    let c = filler zero_pad in
    (
      HasNoZero-append (repeat k c) s (repeat-HasNoZero k c (filler_ne zero_pad)) h,
      omega (arith, length-append (repeat k c) s, repeat-length k c),
    )
