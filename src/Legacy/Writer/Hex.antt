-- ===== src/Legacy/Writer/Hex.antt =====
-- lib/legacy/fb.c: `fb_print_hex` prints the number.
use bbn_os.Base.{
  ℕ, zero, suc, ◌+◌, ◌*◌, ◌/◌, ◌%◌, ◌^◌, ◌<◌, ◌≡◌, inl, inr, refl, sym, ap, ◌∙◌, Bool, true, false,
  ◌&&◌, List, [], ◌∷◌, ◌++◌, arith, ◌==◌, Bool-cases, ◌>>=◌,
}
use native.Mathlib.Nat.{div-div-eq-div-mul, pow-suc}
use bbn_os.Legacy.Writer.{
  Writer, printf, hex_warning, fb_print, upper_digit, last_digit, hex_loop, fb_print_hex,
}
use bbn_os.Legacy.Writer.Bounds.{IsPlaced, IsKept, printf-IsKept}
use bbn_os.Legacy.Writer.Digits.{
  print_each, digit_of, read_in, IsNumber, all_digits, is_digit, snoc-IsNumber, read_in_snoc,
  print_each_snoc, bind-IsKept, fb_print-IsKept, print_each-IsKept,
}

-- The digits of the loop.
unfoldable hex_text : (n num : ℕ) → (flag : Bool) → List ℕ
hex_text zero num flag = []
hex_text (suc n) num flag =
    let rst = num / 2 ^ (4 * (n + 1)) % 2 ^ 4 in
    elim (rst == 0 && flag) [
      | true ↦ hex_text n num flag
      | false ↦ upper_digit rst ∷ hex_text n num false
    ]

hex_loop-print_each :
    (n num : ℕ) (flag : Bool) (w : Writer)
    → hex_loop n num flag w ≡ print_each (hex_text n num flag) w
unfolding hex_loop print_each hex_text
hex_loop-print_each zero num flag w = refl
hex_loop-print_each (suc n) num flag w =
    let rst = num / 2 ^ (4 * (n + 1)) % 2 ^ 4 in
    elim (Bool-cases (rst == 0 && flag)) [
      | inl skip ↦ rw (hex_loop, hex_text, skip) (hex_loop-print_each n num flag w)
      | inr shown ↦
          rw (hex_loop, hex_text, shown)
            (λ i. fb_print (upper_digit rst ∷ []) w >>= λ v. hex_loop-print_each n num false v i)
    ]

power_lem : (k : ℕ) → 2 ^ k * 16 ≡ 2 ^ suc (suc (suc (suc k)))
power_lem k =
    rw (pow-suc 2 (suc (suc (suc k))), pow-suc 2 (suc (suc k)), pow-suc 2 (suc k), pow-suc 2 k)
      (omega arith)

shift_lem : (n num : ℕ) → num / 2 ^ (4 * (n + 1)) / 16 ≡ num / 2 ^ (4 * (suc n + 1))
shift_lem n num =
    let next : 4 * (suc n + 1) ≡ suc (suc (suc (suc (4 * (n + 1))))) = omega arith in
    div-div-eq-div-mul num (2 ^ (4 * (n + 1))) 16
    ∙ ap (λ d. num / d) (power_lem (4 * (n + 1)) ∙ ap (λ k. 2 ^ k) (sym next))

upper_lem : (rst : ℕ) → rst < 16 → digit_of (upper_digit rst) ≡ rst
upper_lem rst h = ground arith

last_lem : (rst : ℕ) → rst < 16 → digit_of (last_digit rst) ≡ rst
last_lem rst h = ground arith

upper-is_digit : (rst : ℕ) → rst < 16 → is_digit 16 (upper_digit rst) ≡ true
upper-is_digit rst h = ground arith

last-is_digit : (rst : ℕ) → rst < 16 → is_digit 16 (last_digit rst) ≡ true
last-is_digit rst h = ground arith

hex_text-all_digits : (n num : ℕ) (flag : Bool) → all_digits 16 (hex_text n num flag) ≡ true
unfolding all_digits hex_text
hex_text-all_digits zero num flag = refl
hex_text-all_digits (suc n) num flag =
    let here = num / 2 ^ (4 * (n + 1)) % 2 ^ 4 in
    elim (Bool-cases (here == 0 && flag)) [
      | inl skip ↦ rw (hex_text, skip) (hex_text-all_digits n num flag)
      | inr shown ↦
          rw (hex_text, shown)
            (rw (upper-is_digit here (omega arith)) (hex_text-all_digits n num false))
    ]

skipped :
    (here acc : ℕ) (flag : Bool)
    → here / 16 ≡ acc
    → (here % 2 ^ 4 == 0 && flag) ≡ true
    → (flag ≡ true → acc ≡ 0)
    → acc ≡ here
skipped here acc true above skip none_yet = let zero_yet = none_yet refl in ground arith
skipped here acc false above skip none_yet = absurd (ground arith)

-- The loop shows what the shift by four leaves.
read_in-hex_text :
    (n num acc : ℕ) (flag : Bool)
    → acc ≡ num / 2 ^ (4 * (n + 1))
    → (flag ≡ true → acc ≡ 0)
    → read_in 16 acc (hex_text n num flag) ≡ num / 2 ^ 4
unfolding read_in hex_text
read_in-hex_text zero num acc flag e none_yet = e
read_in-hex_text (suc n) num acc flag e none_yet =
    let here = num / 2 ^ (4 * (n + 1)) in
    let above : here / 16 ≡ acc = shift_lem n num ∙ sym e in
    elim (Bool-cases (here % 2 ^ 4 == 0 && flag)) [
      | inl skip ↦
          rw (hex_text, skip)
            (read_in-hex_text n num acc flag (skipped here acc flag above skip none_yet) none_yet)
      | inr shown ↦
          rw (hex_text, shown)
            (read_in-hex_text n num (acc * 16 + digit_of (upper_digit (here % 2 ^ 4))) false
              (omega (arith, above, upper_lem (here % 2 ^ 4) (omega arith)))
              (λ no. absurd (ground arith)))
    ]

tail_lem :
    (num : ℕ) (w : Writer)
    → (hex_loop 7 num true w >>= λ t. fb_print (last_digit (num % 2 ^ 4) ∷ []) t)
      ≡ print_each (hex_text 7 num true ++ last_digit (num % 2 ^ 4) ∷ []) w
tail_lem num w =
    ap (λ o. o >>= λ t. fb_print (last_digit (num % 2 ^ 4) ∷ []) t)
      (hex_loop-print_each 7 num true w)
    ∙ print_each_snoc (hex_text 7 num true) (last_digit (num % 2 ^ 4)) w

-- What `fb_print_hex` prints behind its warning.
abbrev pub prefix : List ℕ
prefix = b'0' ∷ b'x' ∷ []

printed_lem :
    (num : ℕ) (w : Writer)
    → fb_print_hex num w ≡ (
        printf hex_warning w >>= λ v. fb_print prefix v >>= λ u.
        print_each (hex_text 7 num true ++ last_digit (num % 2 ^ 4) ∷ []) u)
unfolding fb_print_hex
printed_lem num w = λ i. printf hex_warning w >>= λ v. fb_print prefix v >>= λ u. tail_lem num u i

-- The digits of the number, one at a time; the run returns, on the screen.
pub record IsHexShown (num : ℕ) (w : Writer) : Type 0 where
  pub digits : List ℕ
  pub printed :
      fb_print_hex num w
      ≡ (printf hex_warning w >>= λ v. fb_print prefix v >>= λ u. print_each digits u)
  pub number : IsNumber 16 digits
  pub shows : read_in 16 0 digits ≡ num
  pub returns : IsKept w (fb_print_hex num w)

-- From positions on the screen, `fb_print_hex` prints its warning, then `0x`, then one character at a time
-- one or more digits, each of 0 to 9, A to F or a to f, that show the number of 32 bits in base 16; it returns, both positions are on the screen again,
-- and no byte before the screen or behind the row that follows its last one has changed.
pub fb_print_hex-IsHexShown : (num : ℕ) (w : Writer) → num < 2 ^ 32 → IsPlaced w → IsHexShown num w
fb_print_hex-IsHexShown num w small placed =
    let last = last_digit (num % 2 ^ 4) in
    let text = hex_text 7 num true in
    let digits = text ++ last ∷ [] in
    let upper = read_in-hex_text 7 num 0 true (omega arith) (λ _. refl) in
    record {
      digits = digits;
      printed = printed_lem num w;
      number =
          snoc-IsNumber text 16 last (hex_text-all_digits 7 num true)
            (last-is_digit (num % 2 ^ 4) (omega arith));
      shows =
          read_in_snoc text 16 0 last ∙ omega (arith, upper, last_lem (num % 2 ^ 4) (omega arith));
      returns = rw (printed_lem num w) (
          bind-IsKept w (printf hex_warning w) (λ v. fb_print prefix v >>= λ u. print_each digits u)
            (printf-IsKept hex_warning w placed)
            (λ v there.
              bind-IsKept v (fb_print prefix v) (print_each digits) (fb_print-IsKept prefix v there)
                (λ u home. print_each-IsKept digits u home)));
    }
