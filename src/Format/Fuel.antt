-- ===== src/Format/Fuel.antt =====
-- The loop of `vprintf` ends: every round passes over a character of the format.
use bbn_os.Base.{
  ℕ, zero, suc, ◌+◌, ◌-◌, ◌*◌, ◌%◌, ◌^◌, ◌≤◌, ◌<◌, ◌≡◌, ◌⊎◌, inl, inr, refl, Option, none, some,
  List, [], ◌∷◌, arith, ◌==◌, true, false, Bool-cases, ◌>>=◌, length,
}
use bbn_os.Text.{isdigit}
use bbn_os.Format.{Arg, Out, DoubleOps, int_of, next_word, display_character}
use bbn_os.Format.Directive.{
  Flags, no_flags, Directive, flag, read_flags, read_digits, read_star, read_number, read_precision,
  read_second, read_length, read_specifier, read_directive,
}
use bbn_os.Format.Convert.{convert, vprintf_from}

-- `P` of the result, where there is one.
abbrev All {ℓ} : {A : Type ℓ} → (A → Type 0) → Option A → Type 0
All P none = Unit {0}
All P (some a) = P a

All-any {ℓ} : {A : Type ℓ} (P : A → Type 0) (x : Option A) → ((a : A) → P a) → All P x
All-any P none h = tt
All-any P (some a) h = h a

All-bind :
    {A B : Type 0} (P : A → Type 0) (Q : B → Type 0) (x : Option A) (f : A → Option B)
    → All P x
    → ((a : A) → P a → All Q (f a))
    → All Q (x >>= f)
All-bind P Q none f h next = tt
All-bind P Q (some a) f h next = next a h

option_cases {ℓ} : {A : Type ℓ} (x : Option A) → (x ≡ none) ⊎ ((a : A) × (x ≡ some a))
option_cases none = inl refl
option_cases (some a) = inr (a, refl)

read_flags-shorter : (f : Flags) (s : List ℕ) → length ((read_flags f s).1) ≤ length s
unfolding read_flags
read_flags-shorter f [] = omega arith
read_flags-shorter f (c ∷ s) = elim (option_cases (flag c f)) [
  | inl e ↦ rw (read_flags, e) (omega arith)
  | inr (g, e) ↦ rw (read_flags, e) (omega (arith, read_flags-shorter g s))
]

-- At most `k` characters are left behind a number.
abbrev Left : {B : Type 0} (k : ℕ) → ℕ × (List ℕ × B) → Type 0
Left k (n, (rest, list)) = length rest ≤ k

digits-shorter :
    (k n : ℕ) (s : List ℕ) → length s ≤ k → All (λ r. length (r.1) ≤ k) (read_digits n s)
unfolding read_digits
digits-shorter k n [] h = omega arith
digits-shorter k n (c ∷ s) h = elim (Bool-cases (isdigit c)) [
  | inl e ↦
      rw (read_digits, e)
        (All-bind (λ _. Unit {0}) (λ r. length (r.1) ≤ k) (int_of (n * 10 + (c - 48)))
          (λ m. read_digits m s) (All-any (λ _. Unit {0}) (int_of (n * 10 + (c - 48))) (λ _. tt))
          (λ m _. digits-shorter k m s (omega arith)))
  | inr e ↦ rw (read_digits, e) h
]

star-shorter :
    {D : Type 0} (k n : ℕ) (s : List ℕ) (list : List (Arg D))
    → length s ≤ k
    → All (Left k) (read_star n s list)
unfolding read_star
star-shorter k n [] list h = h
star-shorter k n (c ∷ s) list h = elim (Bool-cases (c == b'*')) [
  | inl e ↦
      rw (read_star, e)
        (All-bind (λ _. Unit {0}) (Left k) (next_word list)
          (λ (m, list'). some (m % 2 ^ 32, (s, list')))
          (All-any (λ _. Unit {0}) (next_word list) (λ _. tt)) (λ m _. omega arith))
  | inr e ↦ rw (read_star, e) h
]

number-shorter :
    {D : Type 0} (k : ℕ) (s : List ℕ) (list : List (Arg D))
    → length s ≤ k
    → All (Left k) (read_number s list)
unfolding read_number
number-shorter k s list h =
    All-bind (λ r. length (r.1) ≤ k) (Left k) (read_digits 0 s) (λ (n, r). read_star n r list)
      (digits-shorter k 0 s h) (λ (n, r) short. star-shorter k n r list short)

precision-shorter :
    {D : Type 0} (k : ℕ) (s : List ℕ) (list : List (Arg D))
    → length s ≤ k
    → All (Left k) (read_precision s list)
unfolding read_precision
precision-shorter k [] list h = h
precision-shorter k (c ∷ s) list h = elim (Bool-cases (c == b'.')) [
  | inl e ↦ rw (read_precision, e) (number-shorter k s list (omega arith))
  | inr e ↦ rw (read_precision, e) h
]

second-shorter : (c : ℕ) (s : List ℕ) → length ((read_second c s).1) ≤ length s
unfolding read_second
second-shorter c [] = omega arith
second-shorter c (d ∷ s) = ground arith

length-shorter : (s : List ℕ) → length ((read_length s).1) ≤ length s
unfolding read_length
length-shorter [] = omega arith
length-shorter (c ∷ s) = ground (arith, second-shorter c s)

specifier-shorter :
    (k : ℕ) (s : List ℕ) → length s ≤ k → All (λ r. length (r.1) ≤ k) (read_specifier s)
unfolding read_specifier
specifier-shorter k [] h = tt
specifier-shorter k (c ∷ s) h = omega arith

abbrev Shorter : {D : Type 0} (k : ℕ) → Directive × (List ℕ × List (Arg D)) → Type 0
Shorter k (d, (rest, list)) = length rest ≤ k

directive-Shorter :
    {D : Type 0} (s : List ℕ) (list : List (Arg D))
    → All (Shorter (length s)) (read_directive s list)
unfolding read_directive
directive-Shorter {D} s list =
    let k = length s in
    All-bind (Left k) (Shorter k) (read_number ((read_flags no_flags s).1) list) _
      (number-shorter k ((read_flags no_flags s).1) list (read_flags-shorter no_flags s))
      (λ (width, (rest, list')) short.
        All-bind (Left k) (Shorter k) (read_precision rest list') _
          (precision-shorter k rest list' short)
          (λ (precision, (rest', list'')) shorter.
            All-bind (λ r. length (r.1) ≤ k) (Shorter k) (read_specifier ((read_length rest').1)) _
              (specifier-shorter k ((read_length rest').1) (omega (arith, length-shorter rest')))
              (λ (c, rest'') done. done)))

module _ {D : Type 0} (ops : DoubleOps D) where
  -- The loop of `vprintf` as rounds, with no bound on them: at the end of the format the result is what
  -- was shown; a round shows a character, or reads a conversion and runs it, and the loop goes on with
  -- the rest of the format. There is no result only where a round has none.
  pub data Loops : List ℕ → List (Arg D) → Out → Option Out → Type 0 where
    stop : (list : List (Arg D)) (out : Out) → Loops [] list out (some out)
    show :
        (c : ℕ) (s : List ℕ) (list : List (Arg D)) (out out' : Out) (result : Option Out)
        → (c == b'%') ≡ false
        → display_character c out ≡ some out'
        → Loops s list out' result
        → Loops (c ∷ s) list out result
    no_character :
        (c : ℕ) (s : List ℕ) (list : List (Arg D)) (out : Out)
        → (c == b'%') ≡ false
        → display_character c out ≡ none
        → Loops (c ∷ s) list out none
    conversion :
        (c : ℕ) (s rest : List ℕ) (list list' list'' : List (Arg D)) (out out' : Out)
        (d : Directive) (result : Option Out)
        → (c == b'%') ≡ true
        → read_directive s list ≡ some (d, (rest, list'))
        → convert ops d list' out ≡ some (list'', out')
        → Loops rest list'' out' result
        → Loops (c ∷ s) list out result
    no_directive :
        (c : ℕ) (s : List ℕ) (list : List (Arg D)) (out : Out)
        → (c == b'%') ≡ true
        → read_directive s list ≡ none
        → Loops (c ∷ s) list out none
    no_conversion :
        (c : ℕ) (s rest : List ℕ) (list list' : List (Arg D)) (out : Out) (d : Directive)
        → (c == b'%') ≡ true
        → read_directive s list ≡ some (d, (rest, list'))
        → convert ops d list' out ≡ none
        → Loops (c ∷ s) list out none

  -- Whatever the format, the arguments and what was shown before, the loop ends within as many rounds as
  -- the format has characters, and one more for its end: with such a bound on the rounds the result is
  -- the one of the loop without a bound, so that there is none only where one of the rounds itself has
  -- none.
  pub vprintf_from_ends :
      (n : ℕ) (format : List ℕ) (list : List (Arg D)) (out : Out)
      → length format < n
      → Loops format list out (vprintf_from ops n format list out)
  unfolding vprintf_from
  vprintf_from_ends zero format list out hn = absurd (omega arith)
  vprintf_from_ends (suc n) [] list out hn = stop list out
  vprintf_from_ends (suc n) (c ∷ s) list out hn = elim (Bool-cases (c == b'%')) [
    | inl e ↦ elim (option_cases (read_directive s list)) [
      | inl undefined ↦ rw (vprintf_from, e, undefined) (no_directive c s list out e undefined)
      | inr ((d, (rest, list')), read) ↦
          let short : length rest ≤ length s = rw read at (directive-Shorter s list) in
          elim (option_cases (convert ops d list' out)) [
            | inl undefined ↦
                rw (vprintf_from, e, read, undefined)
                  (no_conversion c s rest list list' out d e read undefined)
            | inr ((list'', out'), run) ↦
                rw (vprintf_from, e, read, run)
                  (conversion c s rest list list' list'' out out' d
                    (vprintf_from ops n rest list'' out') e read run
                    (vprintf_from_ends n rest list'' out' (omega arith)))
          ]
    ]
    | inr e ↦ elim (option_cases (display_character c out)) [
      | inl undefined ↦ rw (vprintf_from, e, undefined) (no_character c s list out e undefined)
      | inr (out', shown) ↦
          rw (vprintf_from, e, shown)
            (show c s list out out' (vprintf_from ops n s list out') e shown
              (vprintf_from_ends n s list out' (omega arith)))
    ]
  ]
